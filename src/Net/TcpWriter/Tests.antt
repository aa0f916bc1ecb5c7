-- ===== src/Net/TcpWriter/Tests.antt =====
-- The theorems on the write side at a concrete connection.
use gmaker.Common.{ℕ, ◌≡◌, refl, true, false, none, some, List, [], ◌∷◌, ◌++◌, arith}
use gmaker.Net.Buffer.{Buffer}
use gmaker.Net.TcpWriter.{
  Writer, Event, run, sends, sends_batch, closes, runs_task, write_done, read_fails,
  close_after_write,
}
use gmaker.Net.TcpWriter.Balance.{IsBalanced}
use gmaker.Net.TcpWriter.Order.{EndsInFlight, accepted, handed-accepted}
use gmaker.Net.TcpWriter.Lingers.{Lingers, close_after_write-Lingers}

abbrev idle : Writer
idle = record {
  has_handle = true;
  uv_closing = false;
  reading = true;
  closed = false;
  closing = false;
  close_after = false;
  writing = false;
  read_paused = false;
  write_queue = [];
  write_queue_bytes = 0;
  in_flight = [];
  handed = [];
  tasks = [];
}

abbrev piece : ℕ → Buffer
piece n = record { own = some 0; shared = none; offset = 0; len = n }

-- Enough to pause reading, a write that succeeds, and one that fails.
abbrev busy : List Event
busy =
    sends false true (piece 17000000)
    ∷ runs_task true
    ∷ sends_batch true true (piece 5 ∷ piece 6 ∷ [])
    ∷ write_done true true
    ∷ write_done false true
    ∷ sends true true (piece 7)
    ∷ []

idle-IsBalanced : IsBalanced idle 17000018
idle-IsBalanced = ground arith

handed-accepted_example :
    ((run idle busy).handed ++ (run idle busy).write_queue ≡ [] ++ accepted idle busy)
    × EndsInFlight (run idle busy)
handed-accepted_example = handed-accepted idle busy idle-IsBalanced ([], refl)

-- The queue drains, and `Close` is called.
close_after_write-Lingers_example :
    Lingers
      (run (close_after_write false true idle) (runs_task true ∷ closes true ∷ read_fails ∷ []))
close_after_write-Lingers_example =
    close_after_write-Lingers false true idle (runs_task true ∷ closes true ∷ read_fails ∷ []) refl
      refl tt
