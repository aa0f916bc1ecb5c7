-- ===== src/Redis/Fifo.antt =====
-- Which reply a command of common/cpp/redis/redis_client.cpp reads, when hiredis answers in order.
use gmaker.Common.{
  ℕ, suc, ◌+◌, ◌<◌, ◌≡◌, refl, sym, ap, ◌∙◌, subst, true, false, ◌||◌, Option, none, some, List, [],
  ◌∷◌, ◌++◌, map, append-nil, append_assoc, arith, ◌==◌, if◌then◌else◌, length,
}
use gmaker.Redis.Reply.{Text, word, c_str, RawReply, string_reply, Reply, parse_reply}
use gmaker.Redis.Client.{Hiredis, Client, Decoded, command, finish, exchange, call, optional_text}
use gmaker.Redis.Commands.Strings.{get}
use gmaker.Redis.Pipeline.{Pipeline, new_pipeline, append_command, read_replies, exec}

-- What hiredis documents of a connection that does not fail: every command is taken, and the replies are
-- read in the order of the commands. `unread` are the replies to come, and `answer` is what the
-- server makes of a command after those before it.
pub record IsFifo {C : Type 0} (h : Hiredis C) (unread : C → List RawReply)
    (answer : C → List Text → RawReply) : Type 0 where
  pub accepts : (c : C) (args : List Text) → (h.append_args c args).1 ≡ true
  pub queues :
      (c : C) (args : List Text) → unread (h.append_args c args).0 ≡ unread c ++ answer c args ∷ []
  pub answers_first :
      (c : C) (r : RawReply) (rs : List RawReply) → unread c ≡ r ∷ rs → (h.get_reply c).1 ≡ some r
  pub goes_on :
      (c : C) (r : RawReply) (rs : List RawReply)
      → unread c ≡ r ∷ rs
      → unread (h.get_reply c).0 ≡ rs

module _ {C : Type 0} (h : Hiredis C) where
  -- Several commands appended to a pipeline.
  pub append_all : C → Pipeline → List (List Text) → C × Pipeline
  append_all c p [] = (c, p)
  append_all c p (args ∷ cmds) =
      append_all (append_command h c p args).0 (append_command h c p args).1 cmds

  -- The server's answers to them, in order.
  pub answers : (C → List Text → RawReply) → C → List (List Text) → List RawReply
  answers answer c [] = []
  answers answer c (args ∷ cmds) = answer c args ∷ answers answer (h.append_args c args).0 cmds

module _ {C : Type 0} (h : Hiredis C) (unread : C → List RawReply)
    (answer : C → List Text → RawReply) (law : IsFifo h unread answer) where
  appended :
      (c : C) (p : Pipeline) (args : List Text)
      → p.attached ≡ true
      → append_command h c p args ≡ ((h.append_args c args).0, record p { count = p.count + 1 })
  unfolding append_command
  appended c p args a = rw (a, law.accepts c args) refl

  append_all_lem :
      (c : C) (p : Pipeline) (cmds : List (List Text))
      → p.attached ≡ true
      → let (c', p') = append_all h c p cmds in
        (unread c' ≡ unread c ++ answers h answer c cmds)
        × (p'.attached ≡ true)
        × (p'.count ≡ p.count + length cmds)
  unfolding append_all answers
  append_all_lem c p [] a = (sym (append-nil (unread c)), a, omega arith)
  append_all_lem c p (args ∷ cmds) a =
      let e = appended c p args a in
      let c1 = (h.append_args c args).0 in
      let (rest, still, count) = append_all_lem c1 (record p { count = p.count + 1 }) cmds a in
      subst
        (λ (x : C × Pipeline).
          let (c', p') = append_all h x.0 x.1 cmds in
          (unread c' ≡ unread c ++ (answer c args ∷ answers h answer c1 cmds))
          × (p'.attached ≡ true)
          × (p'.count ≡ p.count + suc (length cmds)))
        (sym e)
        (
          rest
              ∙ ap (λ x. x ++ answers h answer c1 cmds) (law.queues c args)
              ∙ append_assoc (unread c) (answer c args ∷ []) (answers h answer c1 cmds),
          still,
          omega (arith, count),
        )

  read_one :
      (n : ℕ) (c : C) (e : Text) (r : RawReply)
      → (h.get_reply c).1 ≡ some r
      → read_replies h (suc n) c e ≡ (
          let (c', e', rest) = read_replies h n (h.get_reply c).0 e in
          (c', e', parse_reply r ∷ rest))
  unfolding read_replies
  read_one n c e r g = rw g refl

  -- Reading takes the replies off in order.
  read_replies_lem :
      (rs more : List RawReply) (c : C) (e : Text)
      → unread c ≡ rs ++ more
      → let (c', e', results) = read_replies h (length rs) c e in
        (results ≡ map parse_reply rs) × (unread c' ≡ more) × (e' ≡ e)
  unfolding read_replies
  read_replies_lem [] more c e u = (refl, u, refl)
  read_replies_lem (r ∷ rs) more c e u =
      let first = law.answers_first c r (rs ++ more) u in
      let (all, left, quiet) =
        read_replies_lem rs more (h.get_reply c).0 e (law.goes_on c r (rs ++ more) u) in
      subst
        (λ (x : C × Text × List Reply).
          (x.2 ≡ parse_reply r ∷ map parse_reply rs) × (unread x.0 ≡ more) × (x.1 ≡ e))
        (sym (read_one (length rs) c e r first)) (ap (◌∷◌ (parse_reply r)) all, left, quiet)

  length-answers :
      (c : C) (cmds : List (List Text)) → length (answers h answer c cmds) ≡ length cmds
  unfolding answers
  length-answers c [] = refl
  length-answers c (args ∷ cmds) = ap suc (length-answers (h.append_args c args).0 cmds)

  exec_run :
      (c : C) (p : Pipeline)
      → p.attached ≡ true
      → 0 < p.count
      → exec h c p ≡ (
          let (c', e, results) = read_replies h p.count c p.last_error in
          (c', record p { count = 0; last_error = e }, results))
  unfolding exec
  exec_run c p a n =
      let some_count : (p.count == 0) ≡ false = ground arith in rw (a, some_count) refl

  exec_lem :
      (c : C) (p : Pipeline) (rs more : List RawReply)
      → p.attached ≡ true
      → p.count ≡ length rs
      → 0 < length rs
      → unread c ≡ rs ++ more
      → let (c', p', results) = exec h c p in
        (results ≡ map parse_reply rs) × (unread c' ≡ more) × (p'.count ≡ 0)
  exec_lem c p rs more a n pos_n u =
      let (all, left, _) = read_replies_lem rs more c p.last_error u in
      subst
        (λ (x : C × Pipeline × List Reply).
          (x.2 ≡ map parse_reply rs) × (unread x.0 ≡ more) × ((x.1).count ≡ 0))
        (sym (
          exec_run c p a (omega arith)
          ∙ ap
              (λ k.
                let (c', e, results) = read_replies h k c p.last_error in
                (c', record p { count = 0; last_error = e }, results))
              n))
        (all, left, refl)

  -- On a connection that does not fail and answers in order, `Exec` of an empty pipeline with a
  -- context, to which one or more commands were then appended with nothing else unread, returns
  -- the reply of each of them, in their order, and leaves nothing unread and nothing counted.
  pub exec-append_all :
      (c : C) (p : Pipeline) (args : List Text) (cmds : List (List Text))
      → unread c ≡ []
      → p.attached ≡ true
      → p.count ≡ 0
      → let (c', p') = append_all h c p (args ∷ cmds) in
        let (c'', p'', results) = exec h c' p' in
        (results ≡ map parse_reply (answers h answer c (args ∷ cmds)))
        × (unread c'' ≡ [])
        × (p''.count ≡ 0)
  exec-append_all c p args cmds u a n =
      let (queue, still, count) = append_all_lem c p (args ∷ cmds) a in
      let size = length-answers c (args ∷ cmds) in
      exec_lem (append_all h c p (args ∷ cmds)).0 (append_all h c p (args ∷ cmds)).1
        (answers h answer c (args ∷ cmds)) [] still (omega arith) (omega arith)
        (queue
          ∙ ap (λ x. x ++ answers h answer c (args ∷ cmds)) u
          ∙ sym (append-nil (answers h answer c (args ∷ cmds))))

  command_lem :
      (c : C) (args : List Text) (r : RawReply) (rest : List RawReply)
      → unread c ++ answer c args ∷ [] ≡ r ∷ rest
      → ((command h c args).1 ≡ some r) × (unread (command h c args).0 ≡ rest)
  unfolding command
  command_lem c args r rest e =
      let u = law.queues c args ∙ e in
      rw (law.accepts c args) (
        law.answers_first (h.append_args c args).0 r rest u,
        law.goes_on (h.append_args c args).0 r rest u,
      )

  exchange_run :
      {A : Type 0} (cl : Client C) (c : C) (failure : Text) (default : A)
      (decode : RawReply → Decoded A) (args : List Text) (r : RawReply)
      → (command h c args).1 ≡ some r
      → exchange h cl c failure default decode args ≡ finish cl (command h c args).0 (decode r)
  unfolding exchange
  exchange_run cl c failure default decode args r e = rw (e, exchange) refl

  call_run :
      {A : Type 0} (cl : Client C) (c : C) (refusal failure : Text) (default : A)
      (decode : RawReply → Decoded A) (args : List Text)
      → cl.ctx ≡ some c
      → h.has_err c ≡ false
      → call h false refusal failure default decode args cl
        ≡ exchange h cl c failure default decode args
  unfolding call
  call_run {A} cl c refusal failure default decode args e ok =
      let refused : Client C × Option A = (record cl { last_error = refusal }, some default) in
      ap
        (λ (o : Option C).
          let out : Client C × Option A = elim o [
            | none ↦ refused
            | some c ↦
                if h.has_err c || false
                then refused
                else exchange h cl c failure default decode args
          ] in
          out)
        e
      ∙ ap (λ b. if b || false then refused else exchange h cl c failure default decode args) ok

  -- A command of the client on a connection without an error ends with what it makes of the first reply
  -- that is unread. That is its own reply if nothing was unread. If a pipeline's replies are, it is
  -- the first of these, and the command's own reply comes behind them.
  pub call_lem :
      {A : Type 0} (cl : Client C) (c : C) (refusal failure : Text) (default : A)
      (decode : RawReply → Decoded A) (args : List Text) (r : RawReply) (rest : List RawReply)
      → cl.ctx ≡ some c
      → h.has_err c ≡ false
      → unread c ++ answer c args ∷ [] ≡ r ∷ rest
      → (c' : C) × (call h false refusal failure default decode args cl ≡ finish cl c' (decode r))
        × (unread c' ≡ rest)
  call_lem cl c refusal failure default decode args r rest e ok u =
      let (read, left) = command_lem c args r rest u in
      (
        (command h c args).0,
        call_run cl c refusal failure default decode args e ok
            ∙ exchange_run cl c failure default decode args r read,
        left,
      )

  -- `Get` on a connection with one command of a pipeline pending.
  get_in_between :
      (cl : Client C) (c : C) (args : List Text) (key : Text)
      → unread c ≡ []
      → h.has_err (h.append_args c args).0 ≡ false
      → cl.ctx ≡ some (h.append_args c args).0
      → let c1 = (h.append_args c args).0 in
        (c' : C) × (get h key cl ≡ finish cl c' (optional_text (word "get error") (answer c args)))
        × ((exec h c' (record { attached = true; count = 1; last_error = [] })).2
            ≡ parse_reply (answer c1 (word "GET" ∷ c_str key ∷ [])) ∷ [])
  unfolding get
  get_in_between cl c args key u ok e =
      let c1 = (h.append_args c args).0 in
      let own = answer c1 (word "GET" ∷ c_str key ∷ []) in
      let q : unread c1 ≡ answer c args ∷ [] =
        law.queues c args ∙ ap (λ x. x ++ answer c args ∷ []) u in
      let (c', run, left) =
        call_lem cl c1 (word "not connected") (word "get failed") none
          (optional_text (word "get error")) (word "GET" ∷ c_str key ∷ []) (answer c args)
          (own ∷ []) e ok (ap (λ x. x ++ own ∷ []) q) in
      let (results, _, _) =
        exec_lem c' (record { attached = true; count = 1; last_error = [] }) (own ∷ []) [] refl refl
          (omega arith) left in
      (c', run, results)

  -- After a command whose reply is a string was appended to a new pipeline, on a connection that
  -- answers in order, has no error and nothing unread, Get of the client returns that string, and
  -- Exec of the pipeline returns the reply to Get in its place.
  pub exec-get :
      (cl : Client C) (c : C) (args : List Text) (key s : Text)
      → unread c ≡ []
      → answer c args ≡ string_reply s
      → h.has_err (append_command h c (new_pipeline true) args).0 ≡ false
      → cl.ctx ≡ some (append_command h c (new_pipeline true) args).0
      → let (c1, p1) = append_command h c (new_pipeline true) args in
        (c' : C) × (get h key cl ≡ (record cl { ctx = some c' }, some (some s)))
        × ((exec h c' p1).2 ≡ parse_reply (answer c1 (word "GET" ∷ c_str key ∷ [])) ∷ [])
  unfolding new_pipeline optional_text finish
  exec-get cl c args key s u text ok e =
      subst
        (λ (x : C × Pipeline).
          h.has_err x.0 ≡ false
          → cl.ctx ≡ some x.0
          → (c' : C) × (get h key cl ≡ (record cl { ctx = some c' }, some (some s)))
            × ((exec h c' x.1).2 ≡ parse_reply (answer x.0 (word "GET" ∷ c_str key ∷ [])) ∷ []))
        (sym (appended c (new_pipeline true) args refl))
        (λ ok' e'.
          let (c', run, results) = get_in_between cl c args key u ok' e' in
          (c', run ∙ ap (λ r. finish cl c' (optional_text (word "get error") r)) text, results))
        ok e
