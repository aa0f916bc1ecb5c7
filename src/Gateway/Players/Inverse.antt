-- ===== src/Gateway/Players/Inverse.antt =====
-- The two maps of services/gateway-cpp/main.cpp between players and connections stay each other's inverse.
use gmaker.Common.{
  ℕ, ◌≡◌, refl, sym, ap, ◌∙◌, subst, ◌≢◌, ◌⊎◌, inl, inr, false, Option, none, some, arith, ◌==◌,
  if◌then◌else◌, ==→eq, ==→ne, ==_self, Option-cases, if_elim, some_inj,
}
use gmaker.Common.Dict.{Dict, find, put, erase, find-put, find-erase}
use gmaker.Gateway.Players.{Players, release, free_conn, free_player, bind_player}

-- A player is on a connection exactly if the connection is the player's.
pub record IsInverse (player_conn conn_player : Dict ℕ) : Type 0 where
  pub forth : (p c : ℕ) → find player_conn p ≡ some c → find conn_player c ≡ some p
  pub back : (c p : ℕ) → find conn_player c ≡ some p → find player_conn p ≡ some c

abbrev pub IsConsistent : Players → Type 0
IsConsistent g = IsInverse g.player_conn g.conn_player

pub release_lem : (m : Dict ℕ) (p c : ℕ) → find m p ≡ some c → release m p c ≡ erase m p
unfolding release
release_lem m p c e = rw (e, release) (rw (==_self c) refl)

-- A pair that is taken out of both maps.
pub unlink :
    (m n : Dict ℕ) (p c : ℕ) → IsInverse m n → find n c ≡ some p → IsInverse (erase m p) (erase n c)
unlink m n p c v e = record {
  forth = λ q d h. unlink_forth m n p c q d v e h;
  back = λ d q h. unlink_back m n p c d q v e h;
}
  where
    unlink_forth :
        (m n : Dict ℕ) (p c q d : ℕ)
        → IsInverse m n
        → find n c ≡ some p
        → find (erase m p) q ≡ some d
        → find (erase n c) d ≡ some q
    unlink_forth m n p c q d v e h =
        ground (arith, find-erase m p q, find-erase n c d, v.forth q d, v.back c p e)

    unlink_back :
        (m n : Dict ℕ) (p c d q : ℕ)
        → IsInverse m n
        → find n c ≡ some p
        → find (erase n c) d ≡ some q
        → find (erase m p) q ≡ some d
    unlink_back m n p c d q v e h =
        ground (arith, find-erase m p q, find-erase n c d, v.back d q, v.back c p e)

pub free_conn-none :
    (g : Players) (player conn : ℕ) → find g.conn_player conn ≡ none → free_conn g player conn ≡ g
unfolding free_conn
free_conn-none g player conn e =
    ap
      (λ (o : Option ℕ).
        let out : Players = elim o [
          | none ↦ g
          | some old_player ↦ if old_player == player then g else record g {
            player_conn = release g.player_conn old_player conn;
            conn_player = erase g.conn_player conn;
          }
        ] in
        out)
      e

pub free_conn-some :
    (g : Players) (player conn p : ℕ)
    → find g.conn_player conn ≡ some p
    → free_conn g player conn ≡ (
        if p == player then g else record g {
          player_conn = release g.player_conn p conn;
          conn_player = erase g.conn_player conn;
        })
unfolding free_conn
free_conn-some g player conn p e =
    ap
      (λ (o : Option ℕ).
        let out : Players = elim o [
          | none ↦ g
          | some old_player ↦ if old_player == player then g else record g {
            player_conn = release g.player_conn old_player conn;
            conn_player = erase g.conn_player conn;
          }
        ] in
        out)
      e

-- A connection where nobody is, or the player already.
abbrev IsReady : Players → ℕ → ℕ → Type 0
IsReady g player conn =
    IsConsistent g × ((find g.conn_player conn ≡ none) ⊎ (find g.conn_player conn ≡ some player))

free_conn-IsReady :
    (g : Players) (player conn : ℕ) → IsConsistent g → IsReady (free_conn g player conn) player conn
free_conn-IsReady g player conn v = elim (Option-cases (find g.conn_player conn)) [
  | inl nobody ↦
      subst (λ x. IsReady x player conn) (sym (free_conn-none g player conn nobody)) (v, inl nobody)
  | inr (p, e) ↦
      subst (λ x. IsReady x player conn) (sym (free_conn-some g player conn p e))
        (if_elim (λ x. IsReady x player conn) (p == player)
          (λ same. (v, inr (e ∙ ap some (==→eq p player same))))
          λ _. (
            subst (λ x. IsInverse x (erase g.conn_player conn))
                (sym (release_lem g.player_conn p conn (v.back conn p e)))
                (unlink g.player_conn g.conn_player p conn v e),
            inl (
                find-erase g.conn_player conn conn
                ∙ ap (λ b. if b then none else find g.conn_player conn) (==_self conn)),
          ))
]

-- The new pair, put into both maps once neither has another partner.
link :
    (m n : Dict ℕ) (p c : ℕ)
    → IsInverse m n
    → find m p ≡ none
    → find n c ≡ none
    → IsInverse (put m p c) (put n c p)
link m n p c v a b = record {
  forth = λ q d h. link_forth m n p c q d v b h;
  back = λ d q h. link_back m n p c d q v a h;
}
  where
    link_forth :
        (m n : Dict ℕ) (p c q d : ℕ)
        → IsInverse m n
        → find n c ≡ none
        → find (put m p c) q ≡ some d
        → find (put n c p) d ≡ some q
    link_forth m n p c q d v b h = ground (arith, find-put m p c q, find-put n c p d, v.forth q d)

    link_back :
        (m n : Dict ℕ) (p c d q : ℕ)
        → IsInverse m n
        → find m p ≡ none
        → find (put n c p) d ≡ some q
        → find (put m p c) q ≡ some d
    link_back m n p c d q v a h = ground (arith, find-put m p c q, find-put n c p d, v.back d q)

-- Putting a pair that is there changes nothing that is found.
relink :
    (m n : Dict ℕ) (p c : ℕ) → IsInverse m n → find m p ≡ some c → IsInverse (put m p c) (put n c p)
relink m n p c v a = record {
  forth = λ q d h. relink_forth m n p c q d v a h;
  back = λ d q h. relink_back m n p c d q v a h;
}
  where
    relink_forth :
        (m n : Dict ℕ) (p c q d : ℕ)
        → IsInverse m n
        → find m p ≡ some c
        → find (put m p c) q ≡ some d
        → find (put n c p) d ≡ some q
    relink_forth m n p c q d v a h =
        ground (arith, find-put m p c q, find-put n c p d, v.forth q d, v.forth p c)

    relink_back :
        (m n : Dict ℕ) (p c d q : ℕ)
        → IsInverse m n
        → find m p ≡ some c
        → find (put n c p) d ≡ some q
        → find (put m p c) q ≡ some d
    relink_back m n p c d q v a h =
        ground (arith, find-put m p c q, find-put n c p d, v.back d q, v.forth p c)

-- The player moves here from another connection.
move :
    (m n : Dict ℕ) (p c old : ℕ)
    → IsInverse m n
    → find m p ≡ some old
    → (old == c) ≡ false
    → find n c ≡ none
    → IsInverse (put m p c) (put (erase n old) c p)
move m n p c old v a ne b = record {
  forth = λ q d h. move_forth m n p c old q d v a b h;
  back = λ d q h. move_back m n p c old d q v a b h;
}
  where
    move_forth :
        (m n : Dict ℕ) (p c old q d : ℕ)
        → IsInverse m n
        → find m p ≡ some old
        → find n c ≡ none
        → find (put m p c) q ≡ some d
        → find (put (erase n old) c p) d ≡ some q
    move_forth m n p c old q d v a b h = ground (
      arith,
      find-put m p c q,
      find-put (erase n old) c p d,
      find-erase n old d,
      v.forth q d,
      v.forth p old,
    )

    move_back :
        (m n : Dict ℕ) (p c old d q : ℕ)
        → IsInverse m n
        → find m p ≡ some old
        → find n c ≡ none
        → find (put (erase n old) c p) d ≡ some q
        → find (put m p c) q ≡ some d
    move_back m n p c old d q v a b h = ground (
      arith,
      find-put m p c q,
      find-put (erase n old) c p d,
      find-erase n old d,
      v.back d q,
      v.forth p old,
    )

none-ne-some : (c : ℕ) → none ≢ some c
none-ne-some c h = cc h

free_player-none :
    (g : Players) (player conn : ℕ)
    → find g.player_conn player ≡ none
    → free_player g player conn ≡ g.conn_player
unfolding free_player
free_player-none g player conn e = rw (e, free_player) refl

pub free_player-some :
    (g : Players) (player conn c : ℕ)
    → find g.player_conn player ≡ some c
    → free_player g player conn ≡ (if c == conn then g.conn_player else erase g.conn_player c)
unfolding free_player
free_player-some g player conn c e = rw (e, free_player) refl

pair_up :
    (g : Players) (player conn : ℕ)
    → IsReady g player conn
    → IsInverse (put g.player_conn player conn) (put (free_player g player conn) conn player)
pair_up g player conn (v, where_is) = elim (Option-cases (find g.player_conn player)) [
  | inl nowhere ↦
      let nobody : find g.conn_player conn ≡ none = elim where_is [
        | inl free ↦ free
        | inr here ↦ absurd (none-ne-some conn (sym nowhere ∙ v.back conn player here))
      ] in
      rw (free_player-none g player conn nowhere)
        (link g.player_conn g.conn_player player conn v nowhere nobody)
  | inr (c, e) ↦
      subst (λ x. IsInverse (put g.player_conn player conn) (put x conn player))
        (sym (free_player-some g player conn c e))
        (if_elim (λ x. IsInverse (put g.player_conn player conn) (put x conn player)) (c == conn)
          (λ same.
            relink g.player_conn g.conn_player player conn v (e ∙ ap some (==→eq c conn same)))
          λ other.
            let nobody : find g.conn_player conn ≡ none = elim where_is [
              | inl free ↦ free
              | inr here ↦ absurd (==→ne c conn other (some_inj (sym e ∙ v.back conn player here)))
            ] in
            move g.player_conn g.conn_player player conn c v e other nobody)
]

pub bind_player-IsConsistent :
    (g : Players) (player conn : ℕ) → IsConsistent g → IsConsistent (bind_player g player conn).0
unfolding bind_player
bind_player-IsConsistent g player conn v =
    pair_up (free_conn g player conn) player conn (free_conn-IsReady g player conn v)
