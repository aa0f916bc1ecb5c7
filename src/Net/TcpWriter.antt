-- ===== src/Net/TcpWriter.antt =====
-- The writing and closing half of `AsyncTCPConnection`, common/cpp/net/async/tcp_connection.cpp: its
-- queue, the backpressure, and how the handle is closed. Each method is one step, since the queue
-- is under its mutex and the flags are changed by atomic exchanges; a task that is posted on the thread of the
-- event loop runs at once, and the others one after the other. libuv's answers are arguments.
pub mod Lingers
pub mod Collect
pub mod Balance
pub mod Keeps
pub mod Steps
pub mod Order
mod Tests
use gmaker.Common.{
  ℕ, zero, suc, ◌+◌, ◌*◌, Bool, true, false, ◌&&◌, ◌||◌, not, List, [], ◌∷◌, ◌++◌, ltb, ◌==◌,
  if◌then◌else◌, u64, length,
}
use gmaker.Net.Buffer.{Buffer, size}
use gmaker.Net.Ring.{sub_size}

-- `ProcessWriteQueue` and `DoClose`, posted to the loop.
pub data Task : Type 0 where
  process_task : Task
  close_task : Task

-- The fields that the write side uses. `has_handle` is `handle_ != nullptr`, `uv_closing` is
-- `uv_is_closing(handle_)`, `reading` says that `uv_read_start` came after the last `uv_read_stop`,
-- `in_flight` is the write request's buffers, `handed` what all calls of `uv_write` were given, and `tasks` is
-- what was posted from other threads and has not run.
pub record Writer : Type 0 where
  pub has_handle : Bool
  pub uv_closing : Bool
  pub reading : Bool
  pub closed : Bool
  pub closing : Bool
  pub close_after : Bool
  pub writing : Bool
  pub read_paused : Bool
  pub write_queue : List Buffer
  pub write_queue_bytes : ℕ
  pub in_flight : List Buffer
  pub handed : List Buffer
  pub tasks : List Task

abbrev pub max_write_queue_bytes : ℕ
max_write_queue_bytes = 16 * 1024 * 1024

abbrev pub write_resume_threshold : ℕ
write_resume_threshold = 8 * 1024 * 1024

abbrev pub max_batch : ℕ
max_batch = 64

-- `loop_->Post` on another thread than the loop's.
abbrev pub post : Writer → Task → Writer
post w t = record w { tasks = w.tasks ++ t ∷ [] }

-- `DoClose`.
unfoldable pub do_close : Writer → Writer
do_close w = if w.has_handle && not w.uv_closing then record w { uv_closing = true } else w

-- `Close`, on the thread of the loop or on another.
unfoldable pub close : Bool → Writer → Writer
close on_loop w =
    let marked = record w { closed = true; closing = true } in
    if w.closed
    then w
    else if w.closing
    then record w { closed = true }
    else if on_loop
    then do_close marked
    else post marked close_task

-- The loop that collects a batch: the rest of the queue, its count, and the batch.
unfoldable pub collect : ℕ → List Buffer → ℕ → List Buffer → List Buffer × ℕ × List Buffer
collect zero queue count batch = (queue, count, batch)
collect (suc n) [] count batch = ([], count, batch)
collect (suc n) (b ∷ queue) count batch =
    collect n queue (sub_size count (size b)) (batch ++ b ∷ [])

-- The batch is empty.
unfoldable pub drained : Writer → Writer
drained w =
    let idle = record w { writing = false } in
    if w.close_after then close true (record idle { close_after = false }) else idle

-- `read_paused_ && write_queue_bytes_ < WRITE_RESUME_THRESHOLD`, and `uv_read_start`.
unfoldable pub resume_read : Writer → Writer
resume_read w =
    if w.read_paused && ltb w.write_queue_bytes write_resume_threshold
    then record w { read_paused = false; reading = true }
    else w

-- The end of `ProcessWriteQueue`, with what `uv_write` answered.
unfoldable pub submit : Writer → List Buffer → Bool → Writer
submit w batch ok =
    let given = record w { in_flight = batch; handed = w.handed ++ batch } in
    if ok then given else close true (record given { in_flight = []; writing = false })

-- `ProcessWriteQueue`, which runs on the thread of the loop.
unfoldable pub process_write_queue : Writer → Bool → Writer
process_write_queue w ok =
    let (queue, count, batch) = collect max_batch w.write_queue w.write_queue_bytes [] in
    if not w.has_handle || w.uv_closing
    then w
    else if length batch == 0
    then drained w
    else submit (resume_read (record w { write_queue = queue; write_queue_bytes = count })) batch ok

-- `writing_.compare_exchange_strong`, and `ProcessWriteQueue`, at once or posted.
unfoldable pub start_writing : Bool → Bool → Writer → Writer
start_writing on_loop ok w =
    let marked = record w { writing = true } in
    if w.writing
    then w
    else if on_loop
    then process_write_queue marked ok
    else post marked process_task

-- `write_queue_bytes_ > MAX_WRITE_QUEUE_BYTES && !read_paused_`, and `uv_read_stop`.
unfoldable pub pause_read : Writer → Writer
pause_read w =
    if ltb max_write_queue_bytes w.write_queue_bytes && not w.read_paused
    then record w { read_paused = true; reading = false }
    else w

-- `write_queue_.push`, with the count.
unfoldable pub push_buffer : Writer → Buffer → Writer
push_buffer w b = record w {
  write_queue = w.write_queue ++ b ∷ [];
  write_queue_bytes = u64 (w.write_queue_bytes + size b);
}

-- The test at the head of the senders.
abbrev pub refuses : Writer → Bool
refuses w = w.closed || w.closing || w.close_after || not w.has_handle

-- `Send` of a buffer, with what `uv_write` answers if the queue is written at once.
unfoldable pub send : Bool → Bool → Writer → Buffer → Writer × Bool
send on_loop ok w b =
    if refuses w
    then (w, false)
    else (start_writing on_loop ok (pause_read (push_buffer w b)), true)

-- The loop of `SendBatch`.
unfoldable pub push_all : Writer → List Buffer → Writer
push_all w [] = w
push_all w (b ∷ bs) = push_all (push_buffer w b) bs

-- `SendBatch`.
unfoldable pub send_batch : Bool → Bool → Writer → List Buffer → Writer × Bool
send_batch on_loop ok w bs =
    if refuses w || length bs == 0
    then (w, false)
    else (start_writing on_loop ok (pause_read (push_all w bs)), true)

-- `CloseAfterWrite`.
unfoldable pub close_after_write : Bool → Bool → Writer → Writer
close_after_write on_loop ok w =
    if refuses w
    then w
    else start_writing on_loop ok (record w { closed = true; close_after = true })

-- `OnWriteDone`, with the status of the write and the answer of the next `uv_write`.
unfoldable pub on_write_done : Writer → Bool → Bool → Writer
on_write_done w succeeded ok =
    let free = record w { in_flight = [] } in
    if not succeeded then close true free else process_write_queue free ok

-- The first task of the loop.
unfoldable pub run_task : Writer → Bool → Writer
run_task w ok = elim w.tasks [
  | [] ↦ w
  | t ∷ tasks ↦ elim t [
    | process_task ↦ process_write_queue (record w { tasks = tasks }) ok
    | close_task ↦ do_close (record w { tasks = tasks })
  ]
]

-- What happens to a connection, with whether the caller is on the thread of the loop. libuv ends a write only
-- if there is one.
pub data Event : Type 0 where
  sends : Bool → Bool → Buffer → Event
  sends_batch : Bool → Bool → List Buffer → Event
  closes : Bool → Event
  closes_after_write : Bool → Bool → Event
  runs_task : Bool → Event
  write_done : Bool → Bool → Event
  read_fails : Event

unfoldable pub step : Writer → Event → Writer
step w (sends on_loop ok b) = (send on_loop ok w b).0
step w (sends_batch on_loop ok bs) = (send_batch on_loop ok w bs).0
step w (closes on_loop) = close on_loop w
step w (closes_after_write on_loop ok) = close_after_write on_loop ok w
step w (runs_task ok) = run_task w ok
step w (write_done succeeded ok) =
    if length w.in_flight == 0 then w else on_write_done w succeeded ok
step w read_fails = close true w

unfoldable pub run : Writer → List Event → Writer
run w [] = w
run w (e ∷ es) = run (step w e) es
