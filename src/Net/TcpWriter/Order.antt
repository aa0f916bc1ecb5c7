-- ===== src/Net/TcpWriter/Order.antt =====
-- What common/cpp/net/async/tcp_connection.cpp hands to `uv_write`, and in what order.
use gmaker.Common.{
  ℕ, ◌+◌, ◌^◌, ◌<◌, ◌≡◌, refl, sym, ap, ap₂, ◌∙◌, Bool, true, false, ◌&&◌, ◌||◌, not, List, [], ◌∷◌,
  ◌++◌, append-nil, append_assoc, arith, ltb, ◌==◌, if◌then◌else◌, if_elim, length,
}
use gmaker.Net.Buffer.{Buffer, size}
use gmaker.Net.TcpWriter.{
  Task, process_task, close_task, Writer, start_writing, pause_read, push_buffer, refuses, send,
  push_all, send_batch, close, close_after_write, do_close, max_batch, collect, drained,
  resume_read, submit, process_write_queue, on_write_done, run_task, Event, step, run, sends,
  sends_batch, closes, closes_after_write, runs_task, write_done, read_fails,
}
use gmaker.Net.TcpWriter.Collect.{total, collect_lem}
use gmaker.Net.TcpWriter.Balance.{
  Books, IsBalanced, pause_read-Books, push_buffer-Books, push_all-Books,
}
use gmaker.Net.TcpWriter.Steps.{sent, sent_by, step-IsBalanced}

-- What was passed to `uv_write`, and what waits behind it.
abbrev pub all_of : Writer → List Buffer
all_of w = w.handed ++ w.write_queue

-- The buffers of the write request are the last ones that were passed to `uv_write`.
abbrev pub EndsInFlight : Writer → Type 0
EndsInFlight w = (done : List Buffer) × (w.handed ≡ done ++ w.in_flight)

-- No buffer is added, lost or doubled.
record Moved (w w' : Writer) : Type 0 where
  all : all_of w' ≡ all_of w
  ends : EndsInFlight w → EndsInFlight w'

Moved-refl : (w : Writer) → Moved w w
Moved-refl w = record { all = refl; ends = λ e. e }

Moved-trans : {w w' w'' : Writer} → Moved w w' → Moved w' w'' → Moved w w''
Moved-trans m n = record { all = n.all ∙ m.all; ends = λ e. n.ends (m.ends e) }

pause_read-Moved : (w : Writer) → Moved w (pause_read w)
unfolding pause_read
pause_read-Moved w =
    if_elim (λ x. Moved w x) (ltb 16777216 w.write_queue_bytes && not w.read_paused)
      (λ _. record { all = refl; ends = λ e. e }) (λ _. Moved-refl w)

resume_read-Moved : (w : Writer) → Moved w (resume_read w)
unfolding resume_read
resume_read-Moved w =
    if_elim (λ x. Moved w x) (w.read_paused && ltb w.write_queue_bytes 8388608)
      (λ _. record { all = refl; ends = λ e. e }) (λ _. Moved-refl w)

do_close-Moved : (w : Writer) → Moved w (do_close w)
unfolding do_close
do_close-Moved w =
    if_elim (λ x. Moved w x) (w.has_handle && not w.uv_closing)
      (λ _. record { all = refl; ends = λ e. e }) (λ _. Moved-refl w)

close-Moved : (on_loop : Bool) (w : Writer) → Moved w (close on_loop w)
unfolding close
close-Moved on_loop w =
    let marked = record w { closed = true; closing = true } in
    if_elim (λ x. Moved w x) w.closed (λ _. Moved-refl w)
      λ _.
        if_elim (λ x. Moved w x) w.closing (λ _. record { all = refl; ends = λ e. e })
          λ _.
            if_elim (λ x. Moved w x) on_loop
              (λ _. let m = do_close-Moved marked in record { all = m.all; ends = λ e. m.ends e })
              (λ _. record { all = refl; ends = λ e. e })

drained-Moved : (w : Writer) → Moved w (drained w)
unfolding drained
drained-Moved w =
    if_elim (λ x. Moved w x) w.close_after
      (λ _.
        let m = close-Moved true (record w { writing = false; close_after = false }) in
        record { all = m.all; ends = λ e. m.ends e })
      (λ _. record { all = refl; ends = λ e. e })

-- `uv_write` is given the batch once, whether it takes it or fails.
submit_lem :
    (w : Writer) (batch : List Buffer) (ok : Bool)
    → (all_of (submit w batch ok) ≡ w.handed ++ (batch ++ w.write_queue))
      × EndsInFlight (submit w batch ok)
unfolding submit
submit_lem w batch true = (append_assoc w.handed batch w.write_queue, (w.handed, refl))
submit_lem w batch false =
    let failed = record w { in_flight = []; handed = w.handed ++ batch; writing = false } in
    let m = close-Moved true failed in
    (
      m.all ∙ append_assoc w.handed batch w.write_queue,
      m.ends (w.handed ++ batch, sym (append-nil (w.handed ++ batch))),
    )

resumed :
    (v : Writer)
    → ((resume_read v).handed ≡ v.handed) × ((resume_read v).write_queue ≡ v.write_queue)
unfolding resume_read
resumed v =
    if_elim (λ (x : Writer). (x.handed ≡ v.handed) × (x.write_queue ≡ v.write_queue))
      (v.read_paused && ltb v.write_queue_bytes 8388608) (λ _. (refl, refl)) (λ _. (refl, refl))

process_write_queue-Moved :
    (w : Writer) (ok : Bool)
    → w.write_queue_bytes ≡ total w.write_queue
    → w.write_queue_bytes < 2 ^ 64
    → Moved w (process_write_queue w ok)
unfolding process_write_queue
process_write_queue-Moved w ok e l =
    let c = collect_lem 64 w.write_queue w.write_queue_bytes [] e l in
    let out = collect max_batch w.write_queue w.write_queue_bytes [] in
    let less = record w { write_queue = out.0; write_queue_bytes = out.1 } in
    let whole : out.2 ++ out.0 ≡ w.write_queue = ap (λ x. x ++ out.0) c.grown ∙ c.split in
    if_elim (λ x. Moved w x) (not w.has_handle || w.uv_closing) (λ _. Moved-refl w)
      λ _.
        if_elim (λ x. Moved w x) (length out.2 == 0) (λ _. drained-Moved w)
          λ _.
            let (all, ends) = submit_lem (resume_read less) out.2 ok in
            let (given, queue) = resumed less in
            record {
              all =
                  all ∙ ap₂ (λ x y. x ++ (out.2 ++ y)) given queue ∙ ap (λ x. w.handed ++ x) whole;
              ends = λ _. ends;
            }

start_writing-Moved :
    (on_loop ok : Bool) (w : Writer)
    → w.write_queue_bytes ≡ total w.write_queue
    → w.write_queue_bytes < 2 ^ 64
    → Moved w (start_writing on_loop ok w)
unfolding start_writing
start_writing-Moved on_loop ok w e l =
    if_elim (λ x. Moved w x) w.writing (λ _. Moved-refl w)
      λ _.
        if_elim (λ x. Moved w x) on_loop
          (λ _.
            let m = process_write_queue-Moved (record w { writing = true }) ok e l in
            record { all = m.all; ends = λ t. m.ends t })
          (λ _. record { all = refl; ends = λ t. t })

-- Some buffers are added at the end.
record Grown (w w' : Writer) (bs : List Buffer) : Type 0 where
  all : all_of w' ≡ all_of w ++ bs
  ends : EndsInFlight w → EndsInFlight w'

Grown-Moved : {w w' w'' : Writer} {bs : List Buffer} → Grown w w' bs → Moved w' w'' → Grown w w'' bs
Grown-Moved g m = record { all = m.all ∙ g.all; ends = λ e. m.ends (g.ends e) }

Moved-Grown : {w w' : Writer} → Moved w w' → Grown w w' []
Moved-Grown {w} m = record { all = m.all ∙ sym (append-nil (all_of w)); ends = m.ends }

push_all-Grown : (w : Writer) (bs : List Buffer) → Grown w (push_all w bs) bs
unfolding push_all push_buffer
push_all-Grown w [] = record { all = sym (append-nil (all_of w)); ends = λ e. e }
push_all-Grown w (b ∷ bs) =
    let g = push_all-Grown (push_buffer w b) bs in
    record {
      all =
          g.all
          ∙ ap (λ x. x ++ bs) (sym (append_assoc w.handed w.write_queue (b ∷ [])))
          ∙ append_assoc (all_of w) (b ∷ []) bs;
      ends = λ e. g.ends e;
    }

-- The end of the senders.
started-Grown :
    (on_loop ok : Bool) (w v : Writer) (bs : List Buffer) (room : ℕ)
    → Grown w v bs
    → Books v room
    → Grown w (start_writing on_loop ok (pause_read v)) bs
started-Grown on_loop ok w v bs room g books =
    let b = pause_read-Books v room books in
    Grown-Moved g (
      Moved-trans (pause_read-Moved v) (
        start_writing-Moved on_loop ok (pause_read v) b.counted (omega (arith, b.counted, b.fits))))

-- What an event adds to the queue: what a sender that returns true was given.
abbrev pub accepted_by : Writer → Event → List Buffer
accepted_by w (sends on_loop ok b) = if (send on_loop ok w b).1 then b ∷ [] else []
accepted_by w (sends_batch on_loop ok bs) = if (send_batch on_loop ok w bs).1 then bs else []
accepted_by w _ = []

send-Grown :
    (on_loop ok : Bool) (w : Writer) (b : Buffer) (room : ℕ)
    → Books w (size b + room)
    → Grown w (send on_loop ok w b).0 (accepted_by w (sends on_loop ok b))
unfolding send push_all
send-Grown on_loop ok w b room h =
    let (books, more) = push_buffer-Books w b room h in
    if_elim (λ (x : Writer × Bool). Grown w x.0 (if x.1 then b ∷ [] else [])) (refuses w)
      (λ _. Moved-Grown (Moved-refl w))
      λ _.
        started-Grown on_loop ok w (push_buffer w b) (b ∷ []) room (push_all-Grown w (b ∷ [])) books

send_batch-Grown :
    (on_loop ok : Bool) (w : Writer) (bs : List Buffer) (room : ℕ)
    → Books w (total bs + room)
    → Grown w (send_batch on_loop ok w bs).0 (accepted_by w (sends_batch on_loop ok bs))
unfolding send_batch
send_batch-Grown on_loop ok w bs room h =
    let (books, more, same, still) = push_all-Books w bs room h in
    if_elim (λ (x : Writer × Bool). Grown w x.0 (if x.1 then bs else []))
      (refuses w || length bs == 0) (λ _. Moved-Grown (Moved-refl w))
      λ _. started-Grown on_loop ok w (push_all w bs) bs room (push_all-Grown w bs) books

close_after_write-Moved :
    (on_loop ok : Bool) (w : Writer)
    → w.write_queue_bytes ≡ total w.write_queue
    → w.write_queue_bytes < 2 ^ 64
    → Moved w (close_after_write on_loop ok w)
unfolding close_after_write
close_after_write-Moved on_loop ok w e l =
    if_elim (λ x. Moved w x) (refuses w) (λ _. Moved-refl w)
      λ _.
        let m =
          start_writing-Moved on_loop ok (record w { closed = true; close_after = true }) e l in
        record { all = m.all; ends = λ t. m.ends t }

run_task-Moved :
    (w : Writer) (ok : Bool)
    → w.write_queue_bytes ≡ total w.write_queue
    → w.write_queue_bytes < 2 ^ 64
    → Moved w (run_task w ok)
unfolding run_task
run_task-Moved w ok e l = first_task w.tasks
  where
    first_task :
        (ts : List Task)
        → Moved w (elim ts as (λ _. Writer) [
          | [] ↦ w
          | t ∷ tasks ↦ elim t [
            | process_task ↦ process_write_queue (record w { tasks = tasks }) ok
            | close_task ↦ do_close (record w { tasks = tasks })
          ]
        ])
    first_task [] = Moved-refl w
    first_task (process_task ∷ ts) =
        let m = process_write_queue-Moved (record w { tasks = ts }) ok e l in
        record { all = m.all; ends = λ t. m.ends t }
    first_task (close_task ∷ ts) =
        let m = do_close-Moved (record w { tasks = ts }) in
        record { all = m.all; ends = λ t. m.ends t }

-- The write request is freed.
freed_ends : (w : Writer) → EndsInFlight (record w { in_flight = [] })
freed_ends w = (w.handed, sym (append-nil w.handed))

on_write_done-Moved :
    (w : Writer) (succeeded ok : Bool)
    → w.write_queue_bytes ≡ total w.write_queue
    → w.write_queue_bytes < 2 ^ 64
    → Moved w (on_write_done w succeeded ok)
unfolding on_write_done
on_write_done-Moved w true ok e l =
    let m = process_write_queue-Moved (record w { in_flight = [] }) ok e l in
    record { all = m.all; ends = λ _. m.ends (freed_ends w) }
on_write_done-Moved w false ok e l =
    let m = close-Moved true (record w { in_flight = [] }) in
    record { all = m.all; ends = λ _. m.ends (freed_ends w) }

step-Grown :
    (w : Writer) (e : Event) (room : ℕ)
    → IsBalanced w (sent_by e + room)
    → Grown w (step w e) (accepted_by w e)
unfolding step
step-Grown w (sends on_loop ok b) room h = send-Grown on_loop ok w b room h.books
step-Grown w (sends_batch on_loop ok bs) room h = send_batch-Grown on_loop ok w bs room h.books
step-Grown w (closes on_loop) room h = Moved-Grown (close-Moved on_loop w)
step-Grown w (closes_after_write on_loop ok) room h =
    let b = h.books in
    Moved-Grown (close_after_write-Moved on_loop ok w b.counted (omega (arith, b.counted, b.fits)))
step-Grown w (runs_task ok) room h =
    let b = h.books in
    Moved-Grown (run_task-Moved w ok b.counted (omega (arith, b.counted, b.fits)))
step-Grown w (write_done succeeded ok) room h =
    let b = h.books in
    Moved-Grown (
      if_elim (λ x. Moved w x) (length w.in_flight == 0) (λ _. Moved-refl w)
        λ _. on_write_done-Moved w succeeded ok b.counted (omega (arith, b.counted, b.fits)))
step-Grown w read_fails room h = Moved-Grown (close-Moved true w)

-- All that a connection accepts.
abbrev pub accepted : Writer → List Event → List Buffer
accepted w [] = []
accepted w (e ∷ es) = accepted_by w e ++ accepted (step w e) es

-- Over any events of a balanced connection whose sends come to less than 2 ^ 64 bytes and whose
-- write request holds the last buffers passed to uv_write, the buffers passed to uv_write so far,
-- followed by the queue, are those of the beginning followed by the buffers of the sends that
-- returned true: none is lost before it is passed on, none passed on twice, and the order is kept;
-- and the write request still holds the last ones.
pub handed-accepted :
    (w : Writer) (es : List Event)
    → IsBalanced w (sent es)
    → EndsInFlight w
    → ((run w es).handed ++ (run w es).write_queue ≡ (w.handed ++ w.write_queue) ++ accepted w es)
      × EndsInFlight (run w es)
unfolding run
handed-accepted w [] h e = (sym (append-nil (all_of w)), e)
handed-accepted w (e ∷ es) h ends =
    let g = step-Grown w e (sent es) h in
    let (rest, still) =
      handed-accepted (step w e) es (step-IsBalanced w e (sent es) h) (g.ends ends) in
    (
      rest
          ∙ ap (λ x. x ++ accepted (step w e) es) g.all
          ∙ append_assoc (all_of w) (accepted_by w e) (accepted (step w e) es),
      still,
    )
