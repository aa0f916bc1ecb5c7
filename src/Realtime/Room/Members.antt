-- ===== src/Realtime/Room/Members.antt =====
-- Who is in a room: common/cpp/realtime/room.cpp over whole sequences of messages.
use gmaker.Common.{
  ℕ, ◌≤◌, ◌<◌, ◌≡◌, refl, sym, ap, ◌∙◌, inl, inr, Bool, Option, none, some, List, [], ◌∷◌, arith,
  leb, ◌==◌, leb→lt, ==→eq, Bool-cases, is_some, if_elim, some_inj, length,
}
use gmaker.Common.Dict.{
  Dict, find, put, erase, update, find-put, find-erase, find-update, length-put, length-erase,
  length-update,
}
use gmaker.Realtime.Room.{
  Vec3, PlayerState, Message, player_enter, player_leave, player_move, player_action,
  room_broadcast, room_tick, other_message, RoomConfig, SpatialIndex, Room, create, on_player_enter,
  on_player_leave, on_player_move, on_player_action, tick, on_message, on_messages,
}

-- The table of players is within the limit, each state under its player's number, and has the keys of
-- the table of connections.
pub record AreMembers (max_players : ℕ) (players : Dict PlayerState) (conns : Dict ℕ) : Type 0 where
  pub limited : length players ≤ max_players
  pub same_keys : (k : ℕ) → is_some (find players k) ≡ is_some (find conns k)
  pub keyed : (k : ℕ) (state : PlayerState) → find players k ≡ some state → state.player_id ≡ k

no_state : {x : PlayerState} → none ≡ some x → ⊥
no_state {x} e = ground arith

enter_members :
    (n : ℕ) (ps : Dict PlayerState) (cs : Dict ℕ) (pid conn : ℕ) (state : PlayerState)
    → AreMembers n ps cs
    → length ps < n
    → state.player_id ≡ pid
    → AreMembers n (put ps pid state) (put cs pid conn)
enter_members n ps cs pid conn state v room own = record {
  limited = omega (arith, length-put ps pid state);
  same_keys = λ k.
      rw (find-put ps pid state k, find-put cs pid conn k)
        (elim (Bool-cases (pid == k)) [
          | inl here ↦ rw here refl
          | inr there ↦ rw there (v.same_keys k)
        ]);
  keyed = λ k s h. elim (Bool-cases (pid == k)) [
    | inl here ↦
        ap (λ (x : PlayerState). x.player_id)
          (some_inj {y = state} (sym h ∙ find-put ps pid state k ∙ rw here refl))
        ∙ own
        ∙ ==→eq pid k here
    | inr there ↦ v.keyed k s (sym (find-put ps pid state k ∙ rw there refl) ∙ h)
  ];
}

leave_members :
    (n : ℕ) (ps : Dict PlayerState) (cs : Dict ℕ) (pid : ℕ)
    → AreMembers n ps cs
    → AreMembers n (erase ps pid) (erase cs pid)
leave_members n ps cs pid v = record {
  limited = omega (arith, length-erase ps pid, v.limited);
  same_keys = λ k.
      rw (find-erase ps pid k, find-erase cs pid k)
        (elim (Bool-cases (pid == k)) [
          | inl here ↦ rw here refl
          | inr there ↦ rw there (v.same_keys k)
        ]);
  keyed = λ k s h. elim (Bool-cases (pid == k)) [
    | inl here ↦ absurd (no_state (sym (find-erase ps pid k ∙ rw here refl) ∙ h))
    | inr there ↦ v.keyed k s (sym (find-erase ps pid k ∙ rw there refl) ∙ h)
  ];
}

-- A change of a state that keeps the player's number.
update_members :
    (n : ℕ) (ps : Dict PlayerState) (cs : Dict ℕ) (pid : ℕ) (f : PlayerState → PlayerState)
    → ((s : PlayerState) → (f s).player_id ≡ s.player_id)
    → AreMembers n ps cs
    → AreMembers n (update ps pid f) cs
update_members n ps cs pid f own v = record {
  limited = omega (arith, length-update ps pid f, v.limited);
  same_keys = λ k. rw (find-update ps pid f k) (elim (Bool-cases (pid == k)) [
    | inr there ↦ rw there (v.same_keys k)
    | inl here ↦ rw here (still_some (find ps k) ∙ v.same_keys k)
  ]);
  keyed = λ k s h. elim (Bool-cases (pid == k)) [
    | inr there ↦ v.keyed k s (sym (find-update ps pid f k ∙ rw there refl) ∙ h)
    | inl here ↦ changed k s (find ps k) refl (sym (find-update ps pid f k ∙ rw here refl) ∙ h)
  ];
}
  where
    still_some :
        (o : Option PlayerState)
        → is_some (elim o [ none ↦ none | some x ↦ some (f x) ]) ≡ is_some o
    still_some none = refl
    still_some (some x) = refl

    changed :
        (k : ℕ) (s : PlayerState) (o : Option PlayerState)
        → find ps k ≡ o
        → elim o [ none ↦ none | some x ↦ some (f x) ] ≡ some s
        → s.player_id ≡ k
    changed k s none e h = absurd (no_state h)
    changed k s (some x) e h =
        ap (λ (y : PlayerState). y.player_id) (sym (some_inj h)) ∙ own x ∙ v.keyed k x e

module _ (S : SpatialIndex) where
  -- The members of a room with an unchanged configuration.
  pub record IsValid (cfg : RoomConfig) (r : Room S) : Type 0 where
    pub members : AreMembers cfg.max_players r.players r.player_to_conn
    pub same_cfg : r.cfg ≡ cfg

  on_player_enter-IsValid :
      (cfg : RoomConfig) (r : Room S) (pid : ℕ) (pos : Vec3) (conn : ℕ)
      → IsValid cfg r
      → IsValid cfg (on_player_enter S r pid pos conn)
  unfolding on_player_enter
  on_player_enter-IsValid cfg r pid pos conn v =
      if_elim (IsValid cfg) (leb r.cfg.max_players (length r.players)) (λ _. v)
        (λ room. record {
          members =
              enter_members cfg.max_players r.players r.player_to_conn pid conn _ v.members
                (omega (
                  arith,
                  leb→lt r.cfg.max_players (length r.players) room,
                  ap (λ (c : RoomConfig). c.max_players) v.same_cfg,
                ))
                refl;
          same_cfg = v.same_cfg;
        })

  tick-IsValid :
      (cfg : RoomConfig) (r : Room S) (now : ℕ) → IsValid cfg r → IsValid cfg ((tick S r now).0)
  unfolding tick
  tick-IsValid cfg r now v =
      if_elim (λ (x : Room S × _). IsValid cfg (x.0)) (r.last_tick_ms == 0)
        (λ _. record { members = v.members; same_cfg = v.same_cfg })
        (λ _. record { members = v.members; same_cfg = v.same_cfg })

  pub on_message-IsValid :
      (cfg : RoomConfig) (r : Room S) (m : Message)
      → IsValid cfg r
      → IsValid cfg ((on_message S r m).0)
  unfolding on_message on_player_leave on_player_move on_player_action
  on_message-IsValid cfg r (player_enter pid pos conn) v =
      on_player_enter-IsValid cfg r pid pos conn v
  on_message-IsValid cfg r (player_leave pid) v = record {
    members = leave_members cfg.max_players r.players r.player_to_conn pid v.members;
    same_cfg = v.same_cfg;
  }
  on_message-IsValid cfg r (player_move pid pos yaw) v = record {
    members = update_members cfg.max_players r.players r.player_to_conn pid _ (λ s. refl) v.members;
    same_cfg = v.same_cfg;
  }
  on_message-IsValid cfg r (player_action pid action) v = record {
    members = update_members cfg.max_players r.players r.player_to_conn pid _ (λ s. refl) v.members;
    same_cfg = v.same_cfg;
  }
  on_message-IsValid cfg r (room_broadcast payload) v = v
  on_message-IsValid cfg r (room_tick now) v = tick-IsValid cfg r now v
  on_message-IsValid cfg r other_message v = v

  -- From any valid room on, whatever messages come: the room never has more players than its limit,
  -- each state stands under its player's number, and just the players in the room have a connection.
  pub on_messages-IsValid :
      (cfg : RoomConfig) (ms : List Message) (r : Room S)
      → IsValid cfg r
      → IsValid cfg ((on_messages S r ms).0)
  unfolding on_messages
  on_messages-IsValid cfg [] r v = v
  on_messages-IsValid cfg (m ∷ ms) r v =
      on_messages-IsValid cfg ms ((on_message S r m).0) (on_message-IsValid cfg r m v)

  -- A new room is valid.
  pub create-IsValid :
      (cfg : RoomConfig) (index : S.Index) (callback : Bool)
      → IsValid cfg (create S cfg index callback)
  unfolding create find
  create-IsValid cfg index callback = record {
    members = record {
      limited = omega arith;
      same_keys = λ k. refl;
      keyed = λ k s h. absurd (no_state h);
    };
    same_cfg = refl;
  }
