-- ===== src/Net/TcpWriter/Steps.antt =====
-- Every event of a connection of common/cpp/net/async/tcp_connection.cpp keeps the invariant of its write
-- side.
use gmaker.Common.{
  ℕ, ◌+◌, ◌<◌, ◌≡◌, refl, sym, ap, ◌∙◌, inl, inr, Bool, true, false, ◌||◌, not, List, [], ◌∷◌,
  arith, ◌==◌, tests, Bool-cases, if_elim, length,
}
use gmaker.Net.Buffer.{Buffer, size}
use gmaker.Net.TcpWriter.{
  Task, process_task, close_task, Writer, pause_read, push_buffer, refuses, send, push_all,
  send_batch, close, close_after_write, do_close, process_write_queue, on_write_done, run_task,
  Event, step, sends, sends_batch, closes, closes_after_write, runs_task, write_done, read_fails,
}
use gmaker.Net.TcpWriter.Collect.{total}
use gmaker.Net.TcpWriter.Balance.{
  processes, closers, Books, Pressed, IsBalanced, close-IsBalanced, pause_read-Books,
  pause_read-Pressed, push_buffer-Books, push_all-Books,
}
use gmaker.Net.TcpWriter.Keeps.{Held, process_write_queue-IsBalanced, start_writing-IsBalanced}

weaken : (w : Writer) (n room : ℕ) → IsBalanced w (n + room) → IsBalanced w room
weaken w n room b =
    let h = b.books in
    record {
      books = record {
        counted = h.counted;
        fits = omega (arith, h.fits);
        idle = h.idle;
        single = h.single;
        busy = h.busy;
        closed_first = h.closed_first;
        closing_first = h.closing_first;
        handle = h.handle;
      };
      pressed = b.pressed;
      no_stall = b.no_stall;
    }

send-IsBalanced :
    (on_loop ok : Bool) (w : Writer) (b : Buffer) (room : ℕ)
    → IsBalanced w (size b + room)
    → IsBalanced (send on_loop ok w b).0 room
unfolding send push_buffer
send-IsBalanced on_loop ok w b room h =
    let (books, more) = push_buffer-Books w b room h.books in
    elim (Bool-cases (refuses w)) [
      | inl refused ↦ rw refused (weaken w (size b) room h)
      | inr accepted ↦ rw accepted (
          start_writing-IsBalanced on_loop ok (pause_read (push_buffer w b)) room
            (pause_read-Books (push_buffer w b) room books)
            (pause_read-Pressed (push_buffer w b) (λ e. omega (arith, h.pressed.paused_full e))
              h.pressed.reads))
    ]

send_batch-IsBalanced :
    (on_loop ok : Bool) (w : Writer) (bs : List Buffer) (room : ℕ)
    → IsBalanced w (total bs + room)
    → IsBalanced (send_batch on_loop ok w bs).0 room
unfolding send_batch
send_batch-IsBalanced on_loop ok w bs room h =
    let (books, more, same, still) = push_all-Books w bs room h.books in
    elim (Bool-cases (refuses w || length bs == 0)) [
      | inl refused ↦ rw refused (weaken w (total bs) room h)
      | inr accepted ↦ rw accepted (
          start_writing-IsBalanced on_loop ok (pause_read (push_all w bs)) room
            (pause_read-Books (push_all w bs) room books)
            (pause_read-Pressed (push_all w bs)
              (λ e. omega (arith, h.pressed.paused_full (sym same ∙ e)))
              (still ∙ h.pressed.reads ∙ ap not (sym same))))
    ]

close_after_write-IsBalanced :
    (on_loop ok : Bool) (w : Writer) (room : ℕ)
    → IsBalanced w room
    → IsBalanced (close_after_write on_loop ok w) room
unfolding close_after_write
close_after_write-IsBalanced on_loop ok w room h =
    let b = h.books in
    let marked : Books (record w { closed = true; close_after = true }) room = record {
      counted = b.counted;
      fits = b.fits;
      idle = b.idle;
      single = b.single;
      busy = λ e. cc e;
      closed_first = λ _. refl;
      closing_first = λ _. refl;
      handle = b.handle;
    } in
    if_elim (λ x. IsBalanced x room) (refuses w) (λ _. h)
      λ _.
        start_writing-IsBalanced on_loop ok (record w { closed = true; close_after = true }) room
          marked
          (record {
            paused_full = h.pressed.paused_full;
            unpaused_low = h.pressed.unpaused_low;
            reads = h.pressed.reads;
          })

do_close-IsBalanced :
    (w : Writer) (room : ℕ) → w.closed ≡ true → IsBalanced w room → IsBalanced (do_close w) room
unfolding do_close
do_close-IsBalanced w room e h = ground arith

popped_process :
    (w : Writer) (room : ℕ) (ts : List Task)
    → IsBalanced w room
    → w.tasks ≡ process_task ∷ ts
    → Held (record w { tasks = ts }) room
popped_process w room ts h e = ground (arith, ap processes e, ap closers e, Bool-cases w.writing)

popped_closed :
    (w : Writer) (room : ℕ) (ts : List Task)
    → IsBalanced w room
    → w.tasks ≡ close_task ∷ ts
    → w.closed ≡ true
popped_closed w room ts h e = h.books.closed_first (omega (arith, ap closers e))

popped_close :
    (w : Writer) (room : ℕ) (ts : List Task)
    → IsBalanced w room
    → w.tasks ≡ close_task ∷ ts
    → IsBalanced (record w { tasks = ts }) room
popped_close w room ts h e = ground (arith, ap processes e, ap closers e)

same_press : (w : Writer) (ts : List Task) → Pressed w → Pressed (record w { tasks = ts })
same_press w ts p = record {
  paused_full = p.paused_full;
  unpaused_low = p.unpaused_low;
  reads = p.reads;
}

freed :
    (w : Writer) (room : ℕ)
    → IsBalanced w room
    → 0 < length w.in_flight
    → Held (record w { in_flight = [] }) room
freed w room h some_batch = ground (arith, Bool-cases w.writing)

failed_write :
    (w : Writer) (room : ℕ)
    → IsBalanced w room
    → 0 < length w.in_flight
    → IsBalanced (close true (record w { in_flight = [] })) room
unfolding close do_close
failed_write w room h some_batch = ground arith

run_task-IsBalanced :
    (w : Writer) (room : ℕ) (ok : Bool) → IsBalanced w room → IsBalanced (run_task w ok) room
unfolding run_task
run_task-IsBalanced w room ok h = first_task w.tasks refl
  where
    first_task :
        (ts : List Task)
        → w.tasks ≡ ts
        → IsBalanced
            (elim ts [
              | [] ↦ w
              | t ∷ tasks ↦ elim t [
                | process_task ↦ process_write_queue (record w { tasks = tasks }) ok
                | close_task ↦ do_close (record w { tasks = tasks })
              ]
            ])
            room
    first_task [] e = h
    first_task (process_task ∷ ts) e =
        process_write_queue-IsBalanced (record w { tasks = ts }) room ok
          (popped_process w room ts h e) (same_press w ts h.pressed)
    first_task (close_task ∷ ts) e =
        do_close-IsBalanced (record w { tasks = ts }) room (popped_closed w room ts h e)
          (popped_close w room ts h e)

on_write_done-IsBalanced :
    (w : Writer) (room : ℕ) (succeeded ok : Bool)
    → IsBalanced w room
    → 0 < length w.in_flight
    → IsBalanced (on_write_done w succeeded ok) room
unfolding on_write_done
on_write_done-IsBalanced w room true ok h some_batch =
    process_write_queue-IsBalanced (record w { in_flight = [] }) room ok (freed w room h some_batch)
      (record {
        paused_full = h.pressed.paused_full;
        unpaused_low = h.pressed.unpaused_low;
        reads = h.pressed.reads;
      })
on_write_done-IsBalanced w room false ok h some_batch = failed_write w room h some_batch

-- The bytes that an event sends.
abbrev pub sent_by : Event → ℕ
sent_by (sends on_loop ok b) = size b
sent_by (sends_batch on_loop ok bs) = total bs
sent_by _ = 0

-- Every event keeps the books: the count is that of the queue, reading is paused only while 8 MB wait and
-- goes on only while at most 16 MB do, the one write request never has two users, and an open
-- connection with a queue has a user for it, so that its queue never stalls.
pub step-IsBalanced :
    (w : Writer) (e : Event) (room : ℕ)
    → IsBalanced w (sent_by e + room)
    → IsBalanced (step w e) room
unfolding step
step-IsBalanced w (sends on_loop ok b) room h = send-IsBalanced on_loop ok w b room h
step-IsBalanced w (sends_batch on_loop ok bs) room h = send_batch-IsBalanced on_loop ok w bs room h
step-IsBalanced w (closes on_loop) room h =
    let h' = weaken w 0 room h in close-IsBalanced on_loop w room h'.books h'.pressed
step-IsBalanced w (closes_after_write on_loop ok) room h =
    close_after_write-IsBalanced on_loop ok w room (weaken w 0 room h)
step-IsBalanced w (runs_task ok) room h = run_task-IsBalanced w room ok (weaken w 0 room h)
step-IsBalanced w (write_done succeeded ok) room h =
    if_elim (λ x. IsBalanced x room) (length w.in_flight == 0) (λ _. weaken w 0 room h)
      λ e. on_write_done-IsBalanced w room succeeded ok (weaken w 0 room h) (omega (tests, e))
step-IsBalanced w read_fails room h =
    let h' = weaken w 0 room h in close-IsBalanced true w room h'.books h'.pressed

abbrev pub sent : List Event → ℕ
sent [] = 0
sent (e ∷ es) = sent_by e + sent es
