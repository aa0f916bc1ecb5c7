-- ===== src/Net/TcpWriter/Keeps.antt =====
-- `ProcessWriteQueue` of common/cpp/net/async/tcp_connection.cpp keeps the invariant of the write side.
use gmaker.Common.{
  ℕ, ◌+◌, ◌≤◌, ◌<◌, ◌≡◌, refl, ap, Bool, true, false, ◌||◌, not, List, [], ◌∷◌, ◌++◌, arith, ◌==◌,
  ==→eq, tests, if_elim, length,
}
use gmaker.Net.Buffer.{Buffer}
use gmaker.Net.TcpWriter.{
  Writer, process_task, start_writing, max_batch, collect, drained, resume_read, submit,
  process_write_queue,
}
use gmaker.Net.TcpWriter.Collect.{total, total-append, collect_lem}
use gmaker.Net.TcpWriter.Balance.{
  closers, holders, processes-append, closers-append, Books, Pressed, IsBalanced, close-IsBalanced,
}

-- The write request is this step's own.
pub record Held (w : Writer) (room : ℕ) : Type 0 where
  pub counted : w.write_queue_bytes ≡ total w.write_queue
  pub fits : total w.write_queue + room < 18446744073709551616
  pub free : holders w ≡ 0
  pub writes : w.writing ≡ true
  pub closed_first : 0 < closers w.tasks → w.closed ≡ true
  pub closing_first : w.uv_closing ≡ true → w.closed ≡ true
  pub handle : w.has_handle ≡ true

drained-IsBalanced :
    (w : Writer) (room : ℕ)
    → Held w room
    → Pressed w
    → length w.write_queue ≡ 0
    → IsBalanced (drained w) room
unfolding drained
drained-IsBalanced w room h p e =
    if_elim (λ x. IsBalanced x room) w.close_after
      (λ _.
        close-IsBalanced true (record w { writing = false; close_after = false }) room
          (ground arith) (ground arith))
      (λ _. ground arith)

resume_read-Pressed :
    (w : Writer)
    → (w.read_paused ≡ false → w.write_queue_bytes ≤ 16777216)
    → w.reading ≡ not w.read_paused
    → Pressed (resume_read w)
unfolding resume_read
resume_read-Pressed w h reads = ground arith

resume_read-Held : (w : Writer) (room : ℕ) → Held w room → Held (resume_read w) room
unfolding resume_read
resume_read-Held w room h = ground arith

submit-IsBalanced :
    (w : Writer) (room : ℕ) (batch : List Buffer) (ok : Bool)
    → Held w room
    → Pressed w
    → 0 < length batch
    → IsBalanced (submit w batch ok) room
unfolding submit
submit-IsBalanced w room batch true h p some_batch = ground arith
submit-IsBalanced w room batch false h p some_batch =
    close-IsBalanced true (record w { in_flight = []; handed = w.handed ++ batch; writing = false })
      room (ground arith) (ground arith)

closing_already :
    (w : Writer) (room : ℕ)
    → Held w room
    → Pressed w
    → (not w.has_handle || w.uv_closing) ≡ true
    → IsBalanced w room
closing_already w room h p e = ground arith

none_taken :
    (queue taken : List Buffer) (n : ℕ)
    → n ≡ 0
    → n ≡ length taken
    → (0 < 64 → 0 < length queue → 0 < length taken)
    → length queue ≡ 0
none_taken [] taken n z e h = refl
none_taken (b ∷ queue) taken n z e h = absurd (omega (arith, h (omega arith) (omega arith)))

pub process_write_queue-IsBalanced :
    (w : Writer) (room : ℕ) (ok : Bool)
    → Held w room
    → Pressed w
    → IsBalanced (process_write_queue w ok) room
unfolding process_write_queue
process_write_queue-IsBalanced w room ok h p =
    let c =
      collect_lem 64 w.write_queue w.write_queue_bytes [] h.counted
        (omega (arith, h.counted, h.fits)) in
    let out = collect max_batch w.write_queue w.write_queue_bytes [] in
    let size_of = ap total c.split in
    let sum = total-append c.taken out.0 in
    let lengths = ap length c.grown in
    let less = record w { write_queue = out.0; write_queue_bytes = out.1 } in
    let held : Held less room = record {
      counted = c.counted;
      fits = omega (arith, h.fits);
      free = h.free;
      writes = h.writes;
      closed_first = h.closed_first;
      closing_first = h.closing_first;
      handle = h.handle;
    } in
    let low : w.read_paused ≡ false → out.1 ≤ 16777216 =
      λ e. omega (arith, p.unpaused_low e, h.counted, c.counted) in
    if_elim (λ x. IsBalanced x room) (not w.has_handle || w.uv_closing)
      (λ e. closing_already w room h p e)
      λ _.
        if_elim (λ x. IsBalanced x room) (length out.2 == 0)
          (λ e.
            drained-IsBalanced w room h p
              (none_taken w.write_queue c.taken (length out.2) (==→eq _ _ e) lengths c.some_taken))
          λ e.
            submit-IsBalanced (resume_read less) room out.2 ok (resume_read-Held less room held)
              (resume_read-Pressed less low p.reads) (omega (tests, e))

pub start_writing-IsBalanced :
    (on_loop ok : Bool) (w : Writer) (room : ℕ)
    → Books w room
    → Pressed w
    → IsBalanced (start_writing on_loop ok w) room
unfolding start_writing
start_writing-IsBalanced false ok w room b p = ground (
  arith,
  processes-append w.tasks (process_task ∷ []),
  closers-append w.tasks (process_task ∷ []),
)
start_writing-IsBalanced true ok w room b p =
    if_elim (λ x. IsBalanced x room) w.writing
      (λ busy. record { books = b; pressed = p; no_stall = λ _ e. absurd (ground arith) })
      λ idle.
        process_write_queue-IsBalanced (record w { writing = true }) room ok
          (record {
            counted = b.counted;
            fits = b.fits;
            free = b.idle idle;
            writes = refl;
            closed_first = b.closed_first;
            closing_first = b.closing_first;
            handle = b.handle;
          })
          (record { paused_full = p.paused_full; unpaused_low = p.unpaused_low; reads = p.reads })
