-- ===== src/Realtime/Room/Broadcasts.antt =====
-- Who is shown to whom: `BroadcastSnapshot` of common/cpp/realtime/room.cpp with areas of interest.
use gmaker.Common.{
  ℕ, ◌≡◌, refl, sym, ap, ◌∙◌, true, false, ◌||◌, not, Option, none, some, List, [], ◌∷◌, arith,
  ◌==◌, is_some, if_elim, length,
}
use gmaker.Common.Dict.{Dict, find}
use gmaker.Realtime.Room.{
  PlayerState, RoomConfig, SpatialIndex, Broadcast, Room, look_up, values, snapshot_of, near_each,
  broadcast_snapshot,
}
use gmaker.Realtime.Room.Members.{AreMembers, IsValid}

-- The states shown are the players' own, and the connections are theirs, one by one.
abbrev pub Paired : Dict PlayerState → Dict ℕ → List PlayerState → List ℕ → Type 0
Paired ps cs [] [] = Unit {0}
Paired ps cs [] (c ∷ conns) = ⊥
Paired ps cs (s ∷ states) [] = ⊥
Paired ps cs (s ∷ states) (c ∷ conns) =
    (find ps s.player_id ≡ some s) × (find cs s.player_id ≡ some c) × Paired ps cs states conns

-- One key, with the entries that both tables or neither have for it.
key-Paired :
    (ps : Dict PlayerState) (cs : Dict ℕ) (id : ℕ) (o : Option PlayerState) (q : Option ℕ)
    → (states : List PlayerState) (conns : List ℕ) → find ps id ≡ o
    → find cs id ≡ q
    → is_some o ≡ is_some q
    → ((s : PlayerState) → find ps id ≡ some s → s.player_id ≡ id)
    → Paired ps cs states conns
    → Paired ps cs
        (elim o [ none ↦ states | some s ↦ s ∷ states ])
        (elim q [ none ↦ conns | some c ↦ c ∷ conns ])
key-Paired ps cs id none none states conns e f same own rest = rest
key-Paired ps cs id none (some c) states conns e f same own rest = absurd (ground arith)
key-Paired ps cs id (some s) none states conns e f same own rest = absurd (ground arith)
key-Paired ps cs id (some s) (some c) states conns e f same own rest =
    (ap (find ps) (own s e) ∙ e, ap (find cs) (own s e) ∙ f, rest)

look_up-Paired :
    (n : ℕ) (ps : Dict PlayerState) (cs : Dict ℕ) (ids : List ℕ)
    → AreMembers n ps cs
    → Paired ps cs (look_up ps ids) (look_up cs ids)
unfolding look_up
look_up-Paired n ps cs [] v = tt
look_up-Paired n ps cs (id ∷ ids) v =
    key-Paired ps cs id (find ps id) (find cs id) (look_up ps ids) (look_up cs ids) refl refl
      (v.same_keys id) (v.keyed id) (look_up-Paired n ps cs ids v)

module _ (S : SpatialIndex) where
  -- Each broadcast shows players of the room to just the connections of these players.
  abbrev pub ArePaired : Room S → List Broadcast → Type 0
  ArePaired r [] = Unit {0}
  ArePaired r ((snapshot, conns) ∷ out) =
      Paired r.players r.player_to_conn snapshot.players conns × ArePaired r out

  near_each-ArePaired :
      (cfg : RoomConfig) (r : Room S) (states : List PlayerState)
      → IsValid S cfg r
      → ArePaired r (near_each S r states)
  unfolding near_each snapshot_of
  near_each-ArePaired cfg r [] v = tt
  near_each-ArePaired cfg r (state ∷ states) v = (
    look_up-Paired cfg.max_players r.players r.player_to_conn
        (S.query_range r.spatial state.pos.x state.pos.z r.cfg.aoi_radius) v.members,
    near_each-ArePaired cfg r states v,
  )

  -- Whatever the index answers: in a valid room with areas of interest, each snapshot that is broadcast
  -- shows players of the room in their present state, and goes to the connections of just the players
  -- that it shows, in the same order.
  pub broadcast_snapshot-ArePaired :
      (cfg : RoomConfig) (r : Room S)
      → IsValid S cfg r
      → r.cfg.enable_aoi ≡ true
      → ArePaired r (broadcast_snapshot S r)
  unfolding broadcast_snapshot
  broadcast_snapshot-ArePaired cfg r v aoi =
      if_elim (ArePaired r) (length r.players == 0 || not r.has_callback) (λ _. tt)
        (λ _.
          if_elim (ArePaired r) (not r.cfg.enable_aoi)
            (λ off. absurd (true_false (sym off ∙ ap not aoi)))
            (λ _. near_each-ArePaired cfg r (values r.players) v))
    where
      true_false : true ≡ false → ⊥
      true_false q = ground arith
