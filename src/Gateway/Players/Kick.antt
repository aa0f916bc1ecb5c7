-- ===== src/Gateway/Players/Kick.antt =====
-- A second login of a player: `BindPlayer` of services/gateway-cpp/main.cpp.
use gmaker.Common.{
  ℕ, ◌<◌, ◌≡◌, refl, ap, ◌∙◌, ◌≢◌, inl, inr, false, none, some, [], ◌∷◌, arith, ◌==◌, if◌then◌else◌,
  ==_self, ne→==, Option-cases, if_elim,
}
use gmaker.Common.Dict.{find, put, erase, find-put, find-erase}
use gmaker.Gateway.Players.{Players, kick, free_conn, old_conn, free_player, bind_player}
use gmaker.Gateway.Players.Inverse.{
  IsConsistent, release_lem, free_conn-none, free_conn-some, free_player-some,
}

-- Freeing the connection leaves the player where it is.
free_conn_keeps :
    (g : Players) (player conn : ℕ)
    → IsConsistent g
    → find (free_conn g player conn).player_conn player ≡ find g.player_conn player
free_conn_keeps g player conn v = elim (Option-cases (find g.conn_player conn)) [
  | inl nobody ↦
      ap (λ (x : Players). find x.player_conn player) (free_conn-none g player conn nobody)
  | inr (p, e) ↦
      ap (λ (x : Players). find x.player_conn player) (free_conn-some g player conn p e)
      ∙ if_elim (λ (x : Players). find x.player_conn player ≡ find g.player_conn player)
          (p == player) (λ _. refl)
          λ other.
            ap (λ m. find m player) (release_lem g.player_conn p conn (v.back conn p e))
            ∙ find-erase g.player_conn p player
            ∙ ap (λ b. if b then none else find g.player_conn player) other
]

old_conn-some :
    (g : Players) (player conn c : ℕ)
    → find g.player_conn player ≡ some c
    → old_conn g player conn ≡ (if c == conn then 0 else c)
unfolding old_conn
old_conn-some g player conn c e = rw (e, old_conn) refl

moved :
    (g g1 : Players) (player conn old : ℕ)
    → find g1.player_conn player ≡ some old
    → (old == conn) ≡ false
    → find (put (free_player g1 player conn) conn player) old ≡ none
moved g g1 player conn old e other =
    let apart : (conn == old) ≡ false = ground (arith, other) in
    ap (λ m. find (put m conn player) old)
      (free_player-some g1 player conn old e
        ∙ ap (λ b. if b then g1.conn_player else erase g1.conn_player old) other)
    ∙ find-put (erase g1.conn_player old) conn player old
    ∙ ap (λ b. if b then some player else find (erase g1.conn_player old) old) apart
    ∙ find-erase g1.conn_player old old
    ∙ ap (λ b. if b then none else find g1.conn_player old) (==_self old)

-- Binding a player who is on another connection, in a consistent state, puts the player on the new one,
-- leaves nobody on the other, and kicks that and nothing else, if its number is not 0.
pub bind_player-kick :
    (g : Players) (player conn old : ℕ)
    → IsConsistent g
    → find g.player_conn player ≡ some old
    → old ≢ conn
    → 0 < old
    → let (g', effects) = bind_player g player conn in
      (find g'.player_conn player ≡ some conn)
      × (find g'.conn_player conn ≡ some player)
      × (find g'.conn_player old ≡ none)
      × (effects ≡ kick old ∷ [])
unfolding bind_player
bind_player-kick g player conn old v e ne pos_old =
    let g1 = free_conn g player conn in
    let there = free_conn_keeps g player conn v ∙ e in
    let other = ne→== old conn ne in
    let is_old : old_conn g1 player conn ≡ old =
      old_conn-some g1 player conn old there ∙ ap (λ b. if b then 0 else old) other in
    let nonzero : (old == 0) ≡ false = ground arith in
    (
      find-put g1.player_conn player conn player
          ∙ ap (λ b. if b then some conn else find g1.player_conn player) (==_self player),
      find-put (free_player g1 player conn) conn player conn
          ∙ ap (λ b. if b then some player else find (free_player g1 player conn) conn)
              (==_self conn),
      moved g g1 player conn old there other,
      ap (λ k. if k == 0 then [] else kick k ∷ []) is_old
          ∙ ap (λ b. if b then [] else kick old ∷ []) nonzero,
    )
