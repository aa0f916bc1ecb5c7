-- ===== src/Realtime/Battle/Teams.antt =====
-- The lists of the two teams and the players of a battle: `AddPlayerToTeam`, `RemovePlayer` and their callers in
-- common/cpp/realtime/battle_room.cpp.
pub mod Runs
pub mod Twice
pub mod Waits
use gmaker.Common.{
  ℕ, ◌+◌, ◌-◌, ◌^◌, ◌≡◌, refl, sym, ap, ◌∙◌, inl, inr, Bool, true, false, ◌||◌, not, Option, none,
  some, List, [], ◌∷◌, ◌++◌, ltb, ◌==◌, if◌then◌else◌, ==→eq, Bool-cases, Option-cases, if_elim,
  u32,
}
use gmaker.Common.Dict.{
  Dict, find, put, erase, update, member, remove, find-put, find-erase, find-update, member-remove,
}
use gmaker.Realtime.Entity.{Vec, TeamSide, blue, same_team}
use gmaker.Realtime.Battle.{Config, PlayerInfo, DisconnectInfo, Roster}
use gmaker.Realtime.Battle.Players.{
  add_player_to_team, remove_entry, remove_player, next_team, spawn_for, is_full, enter_new, enter,
  lose_entry, lose, ready, reconnect, expire,
}

member-append :
    (xs : List ℕ) (k i : ℕ) → member (xs ++ (k ∷ [])) i ≡ (if k == i then true else member xs i)
unfolding member
member-append [] k i = elim (Bool-cases (k == i)) [ inl e ↦ rw e refl | inr e ↦ rw e refl ]
member-append (x ∷ xs) k i =
    ap (λ (b : Bool). x == i || b) (member-append xs k i) ∙ elim (Bool-cases (k == i)) [
      | inr e ↦ rw e refl
      | inl e ↦ rw e (elim (Bool-cases (x == i)) [ inl f ↦ rw f refl | inr f ↦ rw f refl ])
    ]

module _ {F : Type 0} where
  -- Whether there is an entry of the blue team, or of another.
  pub on_team : Bool → Option (PlayerInfo F) → Bool
  on_team side none = false
  on_team side (some info) = if same_team info.team blue then side else not side

  -- The blue list holds the players of the blue team, and the red list all others.
  pub record IsTeamed (r : Roster F) : Type 0 where
    pub blues : (p : ℕ) → member r.blue_players p ≡ on_team true (find r.players p)
    pub reds : (p : ℕ) → member r.red_players p ≡ on_team false (find r.players p)

  -- A change of an entry that keeps its team.
  update-on_team :
      (m : Dict (PlayerInfo F)) (k : ℕ) (f : PlayerInfo F → PlayerInfo F) (side : Bool) (p : ℕ)
      → ((i : PlayerInfo F) → (f i).team ≡ i.team)
      → on_team side (find (update m k f) p) ≡ on_team side (find m p)
  unfolding on_team
  update-on_team m k f side p same =
      ap (on_team side) (find-update m k f p) ∙ elim (Bool-cases (k == p)) [
        | inr other ↦ rw other refl
        | inl here ↦ rw here (elim (Option-cases (find m p)) [
          | inl missing ↦ rw missing refl
          | inr (i, there) ↦
              rw there (ap (λ (t : TeamSide). if same_team t blue then side else not side) (same i))
        ])
      ]

  -- The same lists, and players of the same teams.
  IsTeamed-same :
      (r r' : Roster F)
      → r'.blue_players ≡ r.blue_players
      → r'.red_players ≡ r.red_players
      → ((side : Bool) (p : ℕ) → on_team side (find r'.players p) ≡ on_team side (find r.players p))
      → IsTeamed r
      → IsTeamed r'
  IsTeamed-same r r' b d same t = record {
    blues = λ p. ap (λ l. member l p) b ∙ t.blues p ∙ sym (same true p);
    reds = λ p. ap (λ l. member l p) d ∙ t.reds p ∙ sym (same false p);
  }

  put-on_team :
      (m : Dict (PlayerInfo F)) (k : ℕ) (info : PlayerInfo F) (side : Bool) (p : ℕ)
      → on_team side (find (put m k info) p)
        ≡ (if k == p then on_team side (some info) else on_team side (find m p))
  put-on_team m k info side p =
      ap (on_team side) (find-put m k info p)
      ∙ elim (Bool-cases (k == p)) [ inl e ↦ rw e refl | inr e ↦ rw e refl ]

  erase-on_team :
      (m : Dict (PlayerInfo F)) (k : ℕ) (side : Bool) (p : ℕ)
      → on_team side (find (erase m k) p) ≡ (if k == p then false else on_team side (find m p))
  unfolding on_team
  erase-on_team m k side p =
      ap (on_team side) (find-erase m k p)
      ∙ elim (Bool-cases (k == p)) [ inl e ↦ rw e refl | inr e ↦ rw e refl ]

  -- The list of the player's own team with the player, and the other list as it was.
  joined :
      (m : Dict (PlayerInfo F)) (l : List ℕ) (k : ℕ) (info : PlayerInfo F) (side : Bool)
      → on_team side (some info) ≡ true
      → ((p : ℕ) → member l p ≡ on_team side (find m p))
      → (p : ℕ) → member (l ++ (k ∷ [])) p ≡ on_team side (find (put m k info) p)
  joined m l k info side own h p =
      member-append l k p
      ∙ (elim (Bool-cases (k == p)) [ inl e ↦ rw (e, own) refl | inr e ↦ rw e (h p) ])
      ∙ sym (put-on_team m k info side p)

  kept :
      (m : Dict (PlayerInfo F)) (l : List ℕ) (k : ℕ) (info : PlayerInfo F) (side : Bool)
      → on_team side (some info) ≡ false
      → find m k ≡ none
      → ((p : ℕ) → member l p ≡ on_team side (find m p))
      → (p : ℕ) → member l p ≡ on_team side (find (put m k info) p)
  unfolding on_team
  kept m l k info side other new h p =
      (elim (Bool-cases (k == p)) [
        | inl e ↦
            h p ∙ ap (on_team side) (ap (find m) (sym (==→eq k p e)) ∙ new) ∙ rw (e, other) refl
        | inr e ↦ rw e (h p)
      ])
      ∙ sym (put-on_team m k info side p)

  -- A player more.
  add_player_to_team-IsTeamed :
      (r : Roster F) (pid : ℕ) (team : TeamSide) (at : Vec F)
      → find r.players pid ≡ none
      → IsTeamed r
      → IsTeamed (add_player_to_team r pid team at)
  unfolding add_player_to_team on_team
  add_player_to_team-IsTeamed r pid team at new t = elim (Bool-cases (same_team team blue)) [
    | inl own ↦ rw own (record {
      blues = joined r.players r.blue_players pid _ true (rw own refl) t.blues;
      reds = kept r.players r.red_players pid _ false (rw own refl) new t.reds;
    })
    | inr other ↦ rw other (record {
      blues = kept r.players r.blue_players pid _ true (rw other refl) new t.blues;
      reds = joined r.players r.red_players pid _ false (rw other refl) t.reds;
    })
  ]

  -- The list of the team that a player leaves, and the other list.
  left :
      (m : Dict (PlayerInfo F)) (l : List ℕ) (k : ℕ) (side : Bool)
      → ((p : ℕ) → member l p ≡ on_team side (find m p))
      → (p : ℕ) → member (remove l k) p ≡ on_team side (find (erase m k) p)
  left m l k side h p =
      member-remove l k p
      ∙ (elim (Bool-cases (k == p)) [ inl e ↦ rw e refl | inr e ↦ rw e (h p) ])
      ∙ sym (erase-on_team m k side p)

  stayed :
      (m : Dict (PlayerInfo F)) (l : List ℕ) (k : ℕ) (side : Bool)
      → on_team side (find m k) ≡ false
      → ((p : ℕ) → member l p ≡ on_team side (find m p))
      → (p : ℕ) → member l p ≡ on_team side (find (erase m k) p)
  stayed m l k side other h p =
      (elim (Bool-cases (k == p)) [
        | inl e ↦ h p ∙ ap (λ q. on_team side (find m q)) (sym (==→eq k p e)) ∙ rw e other
        | inr e ↦ rw e (h p)
      ])
      ∙ sym (erase-on_team m k side p)

  remove_entry-IsTeamed :
      (r : Roster F) (pid : ℕ) (info : PlayerInfo F)
      → find r.players pid ≡ some info
      → IsTeamed r
      → IsTeamed (remove_entry r pid info)
  unfolding remove_entry on_team
  remove_entry-IsTeamed r pid info there t = elim (Bool-cases (same_team info.team blue)) [
    | inl own ↦ rw own (record {
      blues = left r.players r.blue_players pid true t.blues;
      reds =
          stayed r.players r.red_players pid false (ap (on_team false) there ∙ rw own refl) t.reds;
    })
    | inr other ↦ rw other (record {
      blues =
          stayed r.players r.blue_players pid true (ap (on_team true) there ∙ rw other refl)
            t.blues;
      reds = left r.players r.red_players pid false t.reds;
    })
  ]

  pub remove_player-IsTeamed :
      (r : Roster F) (pid : ℕ) → IsTeamed r → IsTeamed (remove_player r pid)
  unfolding remove_player
  remove_player-IsTeamed r pid t = elim (Option-cases (find r.players pid)) [
    | inl missing ↦ rw (missing, remove_player) t
    | inr (info, there) ↦ rw (there, remove_player) (remove_entry-IsTeamed r pid info there t)
  ]

  pub enter-IsTeamed :
      (cfg : Config F) (r : Roster F) (pid conn : ℕ) (origin : Vec F)
      → find r.players pid ≡ none
      → IsTeamed r
      → IsTeamed (enter cfg r pid conn origin)
  unfolding enter enter_new
  enter-IsTeamed cfg r pid conn origin new t =
      let added = add_player_to_team r pid (next_team r) (spawn_for cfg r (next_team r) origin) in
      if_elim (λ (x : Roster F). IsTeamed x) (is_full cfg r) (λ _. t)
        (λ _.
          IsTeamed-same added (enter_new cfg r pid conn origin) refl refl
            (λ side p. update-on_team added.players pid _ side p (λ i. refl))
            (add_player_to_team-IsTeamed r pid (next_team r) _ new t))

  pub lose-IsTeamed : (r : Roster F) (pid frame : ℕ) → IsTeamed r → IsTeamed (lose r pid frame)
  unfolding lose lose_entry
  lose-IsTeamed r pid frame t = elim (Option-cases (find r.players pid)) [
    | inl missing ↦ rw (missing, lose) t
    | inr (info, there) ↦
        rw (there, lose)
          (IsTeamed-same r _ refl refl (λ side p. update-on_team r.players pid _ side p (λ i. refl))
            t)
  ]

  pub ready-IsTeamed : (r : Roster F) (pid : ℕ) → IsTeamed r → IsTeamed (ready r pid)
  unfolding ready
  ready-IsTeamed r pid t =
      IsTeamed-same r _ refl refl (λ side p. update-on_team r.players pid _ side p (λ i. refl)) t

  pub reconnect-IsTeamed :
      (r : Roster F) (pid conn : ℕ) → IsTeamed r → IsTeamed (reconnect r pid conn)
  unfolding reconnect
  reconnect-IsTeamed r pid conn t =
      IsTeamed-same r _ refl refl (λ side p. update-on_team r.players pid _ side p (λ i. refl)) t

  pub expire-IsTeamed :
      (waits : List (ℕ × DisconnectInfo)) (frame timeout : ℕ) (r : Roster F)
      → IsTeamed r
      → IsTeamed (expire waits frame timeout r)
  unfolding expire
  expire-IsTeamed [] frame timeout r t = t
  expire-IsTeamed ((pid, dc) ∷ rest) frame timeout r t =
      let gone = remove_player-IsTeamed r pid t in
      expire-IsTeamed rest frame timeout _ (
        if_elim (λ (x : Roster F). IsTeamed x)
          (ltb timeout (u32 (frame + 2 ^ 32 - dc.disconnect_frame)))
          (λ _. record { blues = gone.blues; reds = gone.reds }) (λ _. t))
