-- ===== src/Redis/Tests.antt =====
-- The theorems on the Redis client at a concrete server.
use gmaker.Common.{ℕ, ◌≡◌, refl, sym, ap, true, false, Option, none, some, List, [], ◌∷◌, ◌++◌, map}
use gmaker.Redis.Reply.{Text, word, c_str, pos, RawReply, string_reply, integer_reply, parse_reply}
use gmaker.Redis.Client.{Hiredis, Formats, Client}
use gmaker.Redis.Commands.Strings.{get}
use gmaker.Redis.Pipeline.{new_pipeline, append_command, Pipeline, exec}
use gmaker.Redis.Fifo.{IsFifo, append_all, answers, exec-append_all, exec-get}

-- A context that holds the replies to come; the server answers with the last argument.
abbrev echo : List RawReply → List Text → RawReply
echo c [] = integer_reply (pos 0)
echo c (a ∷ []) = string_reply a
echo c (a ∷ b ∷ args) = echo c (b ∷ args)

abbrev first_reply : List RawReply → List RawReply × Option RawReply
first_reply [] = ([], none)
first_reply (r ∷ rs) = (rs, some r)

abbrev queue : Hiredis (List RawReply)
queue = record {
  append_args = λ c args. (c ++ echo c args ∷ [], true);
  get_reply = first_reply;
  has_err = λ c. false;
  errstr = λ c. [];
}

queue-IsFifo : IsFifo queue (λ c. c) echo
queue-IsFifo = record {
  accepts = λ c args. refl;
  queues = λ c args. refl;
  answers_first = λ c r rs e. ap (λ x. (first_reply x).1) e;
  goes_on = λ c r rs e. ap (λ x. (first_reply x).0) e;
}

abbrev fresh : Pipeline
fresh = record { attached = true; count = 0; last_error = [] }

abbrev increment : List Text
increment = word "INCR" ∷ word "visits" ∷ []

exec-append_all_example :
    let (c', p') = append_all queue [] fresh (increment ∷ increment ∷ []) in
    let (c'', p'', results) = exec queue c' p' in
    (results ≡ map parse_reply (answers queue echo [] (increment ∷ increment ∷ [])))
    × (c'' ≡ [])
    × (p''.count ≡ 0)
exec-append_all_example =
    exec-append_all queue (λ c. c) echo queue-IsFifo [] fresh increment (increment ∷ []) refl refl
      refl

visits_pending :
    (append_command queue [] (new_pipeline true) increment).0 ≡ string_reply (word "visits") ∷ []
unfolding append_command new_pipeline
visits_pending = refl

-- `Get` of `name` takes the reply to `INCR`.
exec-get_example :
    let (c1, p1) = append_command queue [] (new_pipeline true) increment in
    (c' : List RawReply) × (get queue
        (word "name")
        (record { ctx = some (string_reply (word "visits") ∷ []); last_error = [] })
      ≡ (record { ctx = some c'; last_error = [] }, some (some (word "visits"))))
    × ((exec queue c' p1).2 ≡ parse_reply (echo c1 (word "GET" ∷ c_str (word "name") ∷ [])) ∷ [])
exec-get_example =
    exec-get queue (λ c. c) echo queue-IsFifo
      (record { ctx = some (string_reply (word "visits") ∷ []); last_error = [] }) [] increment
      (word "name") (word "visits") refl refl refl (ap some (sym visits_pending))

abbrev formats : Formats ℕ
formats = record { show_int = λ n. word "1"; show_real = λ n. word "1"; read_real = λ s. some 1 }

abbrev connected : Client (List RawReply)
connected = record { ctx = some []; last_error = [] }
