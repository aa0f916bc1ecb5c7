-- ===== src/Net/TcpWriter/Lingers.antt =====
-- What becomes of a connection of common/cpp/net/async/tcp_connection.cpp after `CloseAfterWrite`.
use gmaker.Common.{
  ◌≡◌, refl, subst, inl, inr, Bool, true, false, List, [], ◌∷◌, ◌++◌, arith, ◌==◌, Bool-cases,
  if_elim, length,
}
use gmaker.Net.Buffer.{Buffer}
use gmaker.Net.TcpWriter.{
  Task, process_task, close_task, Writer, start_writing, pause_read, push_buffer, refuses, send,
  push_all, send_batch, close, close_after_write, do_close, drained, resume_read, submit,
  process_write_queue, on_write_done, run_task, Event, step, run, sends, sends_batch, closes,
  closes_after_write, runs_task, write_done, read_fails,
}

-- No `DoClose` is posted.
abbrev pub NoClose : List Task → Type 0
NoClose [] = Unit {0}
NoClose (process_task ∷ ts) = NoClose ts
NoClose (close_task ∷ ts) = ⊥

-- Marked as closed, with a handle that nothing is going to close.
pub record Lingers (w : Writer) : Type 0 where
  pub marked : w.closed ≡ true
  pub unposted : w.closing ≡ false
  pub alive : w.uv_closing ≡ false
  pub no_close : NoClose w.tasks

NoClose-process : (ts : List Task) → NoClose ts → NoClose (ts ++ process_task ∷ [])
NoClose-process [] h = tt
NoClose-process (process_task ∷ ts) h = NoClose-process ts h
NoClose-process (close_task ∷ ts) h = h

not_closing : (w : Writer) → refuses w ≡ false → w.closing ≡ false
not_closing w h = ground arith

pause_read-Lingers : {w : Writer} → Lingers w → Lingers (pause_read w)
unfolding pause_read
pause_read-Lingers l = ground arith

push_all-Lingers : {w : Writer} (bs : List Buffer) → Lingers w → Lingers (push_all w bs)
unfolding push_all push_buffer
push_all-Lingers [] l = l
push_all-Lingers {w} (b ∷ bs) l = push_all-Lingers {w = push_buffer w b} bs (ground arith)

process_write_queue-Lingers :
    {w : Writer} (ok : Bool) → Lingers w → Lingers (process_write_queue w ok)
unfolding process_write_queue drained resume_read submit close do_close
process_write_queue-Lingers ok l = ground arith

start_writing-Lingers :
    (on_loop ok : Bool) {w : Writer} → Lingers w → Lingers (start_writing on_loop ok w)
unfolding start_writing
start_writing-Lingers true ok {w} l =
    if_elim (λ x. Lingers x) w.writing (λ _. l)
      λ _. process_write_queue-Lingers {w = record w { writing = true }} ok (record {
        marked = l.marked;
        unposted = l.unposted;
        alive = l.alive;
        no_close = l.no_close;
      })
start_writing-Lingers false ok {w} l = ground (arith, NoClose-process w.tasks)

run_task-Lingers : {w : Writer} (ok : Bool) → Lingers w → Lingers (run_task w ok)
unfolding run_task
run_task-Lingers {w} ok l = first_task w.tasks refl
  where
    first_task :
        (ts : List Task)
        → w.tasks ≡ ts
        → Lingers (elim ts [
          | [] ↦ w
          | t ∷ tasks ↦ elim t [
            | process_task ↦ process_write_queue (record w { tasks = tasks }) ok
            | close_task ↦ do_close (record w { tasks = tasks })
          ]
        ])
    first_task [] e = l
    first_task (process_task ∷ ts) e = process_write_queue-Lingers ok (record {
      marked = l.marked;
      unposted = l.unposted;
      alive = l.alive;
      no_close = subst NoClose e l.no_close;
    })
    first_task (close_task ∷ ts) e = absurd (subst NoClose e l.no_close)

-- Senders refuse a connection that is marked as closed.
step-Lingers : {w : Writer} (e : Event) → Lingers w → Lingers (step w e)
unfolding step send send_batch close close_after_write on_write_done
step-Lingers (sends on_loop ok b) l = ground arith
step-Lingers (sends_batch on_loop ok bs) l = ground arith
step-Lingers (closes on_loop) l = ground arith
step-Lingers (closes_after_write on_loop ok) l = ground arith
step-Lingers (runs_task ok) l = run_task-Lingers ok l
step-Lingers {w} (write_done succeeded ok) l = elim (Bool-cases (length w.in_flight == 0)) [
  | inl nothing ↦ rw nothing l
  | inr some_batch ↦ rw some_batch (elim (Bool-cases succeeded) [
    | inl good ↦ rw good (
        process_write_queue-Lingers ok (record {
          marked = l.marked;
          unposted = l.unposted;
          alive = l.alive;
          no_close = l.no_close;
        }))
    | inr failed ↦ rw failed (ground arith)
  ])
]
step-Lingers read_fails l = ground arith

run-Lingers : {w : Writer} (es : List Event) → Lingers w → Lingers (run w es)
unfolding run
run-Lingers [] l = l
run-Lingers {w} (e ∷ es) l = run-Lingers {w = step w e} es (step-Lingers e l)

-- CloseAfterWrite of an open connection with no close posted, on the thread of the loop or on
-- another, marks it as closed, and then no sequence of events ever closes its handle: no drained
-- queue, failed write, failed read or call of Close.
pub close_after_write-Lingers :
    (on_loop ok : Bool) (w : Writer) (es : List Event)
    → refuses w ≡ false
    → w.uv_closing ≡ false
    → NoClose w.tasks
    → Lingers (run (close_after_write on_loop ok w) es)
unfolding close_after_write
close_after_write-Lingers on_loop ok w es open_ alive t = run-Lingers es (
    rw open_ (
      start_writing-Lingers on_loop ok
        (record { marked = refl; unposted = not_closing w open_; alive = alive; no_close = t })))
