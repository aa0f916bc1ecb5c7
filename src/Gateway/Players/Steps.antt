-- ===== src/Gateway/Players/Steps.antt =====
-- Every event of services/gateway-cpp/main.cpp keeps the maps between players and connections consistent.
use gmaker.Common.{
  ℕ, ◌≡◌, refl, sym, subst, Bool, true, false, ◌&&◌, ◌||◌, not, Option, none, some, List, [], ◌∷◌,
  ltb, ◌==◌, if◌then◌else◌, if_elim,
}
use gmaker.Common.Dict.{Dict, find, erase}
use gmaker.Gateway.Players.{
  PendingBind, Players, Effect, is_player_bound, request_bind, handle_player_bind, release,
  Response, short, body, settle_bind, on_bind_response, cleanup_player_state, Event, bind_request,
  bind_response, client_close, scan, step, run,
}
use gmaker.Gateway.Players.Inverse.{
  IsInverse, IsConsistent, release_lem, unlink, bind_player-IsConsistent,
}

-- The maps without a connection and its player.
without :
    (g : Players) (conn : ℕ)
    → IsConsistent g
    → (p : ℕ) → find g.conn_player conn ≡ some p
    → IsInverse (release g.player_conn p conn) (erase g.conn_player conn)
without g conn v p e =
    subst (λ x. IsInverse x (erase g.conn_player conn))
      (sym (release_lem g.player_conn p conn (v.back conn p e)))
      (unlink g.player_conn g.conn_player p conn v e)

cleanup_player_state-IsConsistent :
    (g : Players) (conn : ℕ) → IsConsistent g → IsConsistent (cleanup_player_state g conn)
unfolding cleanup_player_state
cleanup_player_state-IsConsistent g conn v = cleaned (find g.conn_player conn) refl
  where
    cleaned :
        (o : Option ℕ)
        → find g.conn_player conn ≡ o
        → IsConsistent (elim o [
          | none ↦ record g { pending_binds = erase g.pending_binds conn }
          | some player ↦ record g {
            pending_binds = erase g.pending_binds conn;
            player_conn = release g.player_conn player conn;
            conn_player = erase g.conn_player conn;
          }
        ])
    cleaned none e = v
    cleaned (some p) e = without g conn v p e

-- A change of the pending binds alone.
same_maps :
    (g : Players) (pending : Dict PendingBind)
    → IsConsistent g
    → IsConsistent (record g { pending_binds = pending })
same_maps g pending v = v

request_bind-IsConsistent :
    (g : Players) (now conn seq player : ℕ) (has_pool sent : Bool)
    → IsConsistent g
    → IsConsistent (request_bind g now conn seq player has_pool sent).0
unfolding request_bind
request_bind-IsConsistent g now conn seq player false sent v = v
request_bind-IsConsistent g now conn seq player true true v = v
request_bind-IsConsistent g now conn seq player true false v = v

handle_player_bind-IsConsistent :
    (g : Players) (now conn seq : ℕ) (parsed : Option (ℕ × Bool)) (has_pool sent : Bool)
    → IsConsistent g
    → IsConsistent (handle_player_bind g now conn seq parsed has_pool sent).0
unfolding handle_player_bind
handle_player_bind-IsConsistent g now conn seq none has_pool sent v =
    if_elim (λ (x : Players × List Effect). IsConsistent x.0) (is_player_bound g conn) (λ _. v)
      (λ _. v)
handle_player_bind-IsConsistent g now conn seq (some (player, token_empty)) has_pool sent v =
    if_elim (λ (x : Players × List Effect). IsConsistent x.0) (is_player_bound g conn) (λ _. v)
      λ _.
        if_elim (λ (x : Players × List Effect). IsConsistent x.0) (player == 0 || token_empty)
          (λ _. v) λ _. request_bind-IsConsistent g now conn seq player has_pool sent v

settle_bind-IsConsistent :
    (g : Players) (conn : ℕ) (bind : PendingBind) (code : ℕ)
    → IsConsistent g
    → IsConsistent (settle_bind g conn bind code).0
unfolding settle_bind
settle_bind-IsConsistent g conn bind code v =
    if_elim (λ (x : Players × List Effect). IsConsistent x.0) (code == 0 && ltb 0 bind.player_id)
      (λ _.
        bind_player-IsConsistent (record g { pending_binds = erase g.pending_binds conn })
          bind.player_id conn v)
      λ _.
        if_elim (λ (x : Players × List Effect). IsConsistent x.0) (not (code == 0)) (λ _. v)
          (λ _. v)

on_bind_response-IsConsistent :
    (g : Players) (seq : ℕ) (response : Response)
    → IsConsistent g
    → IsConsistent (on_bind_response g seq response).0
unfolding on_bind_response
on_bind_response-IsConsistent g seq short v = v
on_bind_response-IsConsistent g seq (body conn none) v = v
on_bind_response-IsConsistent g seq (body conn (some code)) v = found (find g.pending_binds conn)
  where
    found :
        (o : Option PendingBind)
        → IsConsistent
            (elim o as (λ _. Players × List Effect) [
              | none ↦ (g, [])
              | some bind ↦ if bind.seq_id == seq then settle_bind g conn bind code else (g, [])
            ]).0
    found none = v
    found (some bind) =
        if_elim (λ (x : Players × List Effect). IsConsistent x.0) (bind.seq_id == seq)
          (λ _. settle_bind-IsConsistent g conn bind code v) (λ _. v)

step-IsConsistent : (g : Players) (e : Event) → IsConsistent g → IsConsistent (step g e).0
unfolding step
step-IsConsistent g (bind_request now conn seq parsed has_pool sent) v =
    handle_player_bind-IsConsistent g now conn seq parsed has_pool sent v
step-IsConsistent g (bind_response seq response) v = on_bind_response-IsConsistent g seq response v
step-IsConsistent g (client_close conn) v = cleanup_player_state-IsConsistent g conn v
step-IsConsistent g (scan now) v = v

-- From a consistent state on, whatever requests, responses, disconnections and scans come, in any
-- order, a player is on a connection exactly if the connection is the player's: no player is on
-- two connections, and no connection has two players.
pub run-IsConsistent : (g : Players) (es : List Event) → IsConsistent g → IsConsistent (run g es)
unfolding run
run-IsConsistent g [] v = v
run-IsConsistent g (e ∷ es) v = run-IsConsistent (step g e).0 es (step-IsConsistent g e v)
