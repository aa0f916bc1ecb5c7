-- ===== src/Net/TcpWriter/Balance.antt =====
-- The invariant of the write side of common/cpp/net/async/tcp_connection.cpp: the count of the queue, the
-- backpressure, and the one write request.
use gmaker.Common.{
  ℕ, suc, ◌+◌, ◌≤◌, ◌<◌, min, ◌≡◌, refl, ◌∙◌, Bool, true, false, not, List, [], ◌∷◌, ◌++◌, arith,
  length,
}
use gmaker.Net.Buffer.{Buffer, size}
use gmaker.Net.TcpWriter.{
  Task, process_task, close_task, Writer, do_close, pause_read, push_buffer, push_all, close,
}
use gmaker.Net.TcpWriter.Collect.{total, total-append}

-- The posted tasks of each kind.
abbrev pub processes : List Task → ℕ
processes [] = 0
processes (process_task ∷ ts) = suc (processes ts)
processes (close_task ∷ ts) = processes ts

abbrev pub closers : List Task → ℕ
closers [] = 0
closers (process_task ∷ ts) = closers ts
closers (close_task ∷ ts) = suc (closers ts)

pub processes-append : (ts us : List Task) → processes (ts ++ us) ≡ processes ts + processes us
processes-append [] us = omega arith
processes-append (process_task ∷ ts) us = omega (arith, processes-append ts us)
processes-append (close_task ∷ ts) us = omega (arith, processes-append ts us)

pub closers-append : (ts us : List Task) → closers (ts ++ us) ≡ closers ts + closers us
closers-append [] us = omega arith
closers-append (process_task ∷ ts) us = omega (arith, closers-append ts us)
closers-append (close_task ∷ ts) us = omega (arith, closers-append ts us)

-- Who holds the write request: a posted `ProcessWriteQueue`, or a write in flight.
abbrev pub holders : Writer → ℕ
holders w = processes w.tasks + min 1 (length w.in_flight)

-- The books of a connection to which `room` more bytes may be sent.
pub record Books (w : Writer) (room : ℕ) : Type 0 where
  -- The count is that of the queue.
  pub counted : w.write_queue_bytes ≡ total w.write_queue
  pub fits : total w.write_queue + room < 18446744073709551616
  -- The write request has no more than one holder, and none without `writing_`.
  pub idle : w.writing ≡ false → holders w ≡ 0
  pub single : holders w ≤ 1
  -- An open connection that writes has a holder.
  pub busy : w.closed ≡ false → w.writing ≡ true → holders w ≡ 1
  -- A handle is closed only after `Close`.
  pub closed_first : 0 < closers w.tasks → w.closed ≡ true
  pub closing_first : w.uv_closing ≡ true → w.closed ≡ true
  pub handle : w.has_handle ≡ true

-- Reading is paused only while 8 MB wait, and goes on only while no more than 16 MB do.
pub record Pressed (w : Writer) : Type 0 where
  pub paused_full : w.read_paused ≡ true → 8388608 ≤ w.write_queue_bytes
  pub unpaused_low : w.read_paused ≡ false → w.write_queue_bytes ≤ 16777216
  pub reads : w.reading ≡ not w.read_paused

pub record IsBalanced (w : Writer) (room : ℕ) : Type 0 where
  pub books : Books w room
  pub pressed : Pressed w
  -- An open connection that is not writing has an empty queue.
  pub no_stall : w.closed ≡ false → w.writing ≡ false → length w.write_queue ≡ 0

pub close-IsBalanced :
    (on_loop : Bool) (w : Writer) (room : ℕ)
    → Books w room
    → Pressed w
    → IsBalanced (close on_loop w) room
unfolding close do_close
close-IsBalanced true w room b p = ground arith
close-IsBalanced false w room b p =
    ground
      (arith, processes-append w.tasks (close_task ∷ []), closers-append w.tasks (close_task ∷ []))

pub pause_read-Books : (w : Writer) (room : ℕ) → Books w room → Books (pause_read w) room
unfolding pause_read
pause_read-Books w room b = ground arith

pub pause_read-Pressed :
    (w : Writer)
    → (w.read_paused ≡ true → 8388608 ≤ w.write_queue_bytes)
    → w.reading ≡ not w.read_paused
    → Pressed (pause_read w)
unfolding pause_read
pause_read-Pressed w h reads = ground arith

pub push_buffer-Books :
    (w : Writer) (b : Buffer) (room : ℕ)
    → Books w (size b + room)
    → Books (push_buffer w b) room × (w.write_queue_bytes ≤ (push_buffer w b).write_queue_bytes)
unfolding push_buffer
push_buffer-Books w b room h = ground (arith, total-append w.write_queue (b ∷ []))

pub push_all-Books :
    (w : Writer) (bs : List Buffer) (room : ℕ)
    → Books w (total bs + room)
    → Books (push_all w bs) room
      × (w.write_queue_bytes ≤ (push_all w bs).write_queue_bytes)
      × ((push_all w bs).read_paused ≡ w.read_paused)
      × ((push_all w bs).reading ≡ w.reading)
unfolding push_all push_buffer
push_all-Books w [] room h = ground arith
push_all-Books w (b ∷ bs) room h =
    let shared : Books w (size b + (total bs + room)) = record {
      counted = h.counted;
      fits = omega (arith, h.fits);
      idle = h.idle;
      single = h.single;
      busy = h.busy;
      closed_first = h.closed_first;
      closing_first = h.closing_first;
      handle = h.handle;
    } in
    let (more, le) = push_buffer-Books w b (total bs + room) shared in
    let (all, le', same, still) = push_all-Books (push_buffer w b) bs room more in
    (all, omega arith, same ∙ unpaused w b, still ∙ reading w b)
  where
    unpaused : (w : Writer) (b : Buffer) → (push_buffer w b).read_paused ≡ w.read_paused
    unpaused w b = refl

    reading : (w : Writer) (b : Buffer) → (push_buffer w b).reading ≡ w.reading
    reading w b = refl
