-- ===== src/FileRing/Fifo.antt =====
-- What src/ipc/ring_buffer.py promises: a queue of at most `capacity` records, oldest first.
use infotact_python_project.Prelude.{
  ℕ, Option, none, some, List, [], ◌∷◌, ◌++◌, length, Result, ok, err, ◌==◌, if◌then◌else◌,
}
use infotact_python_project.Bytes.{Bytes}
use infotact_python_project.FileRing.{Error, buffer_full}

abbrev pub Fifo : Type 0
Fifo = List Bytes

unfoldable pub put : ℕ → Bytes → Fifo → Result Error (Unit {0}) × Fifo
put capacity rec q = if length q == capacity then (err buffer_full, q) else (ok tt, q ++ (rec ∷ []))

unfoldable pub get : Fifo → Result Error (Option Bytes) × Fifo
get [] = (ok none, [])
get (x ∷ q) = (ok (some x), q)

-- The calls of a client that holds the ring open, and what they return.
pub data Call : Type 0 where
  puts : Bytes → Call
  gets : Call

pub data Reply : Type 0 where
  done : Result Error (Unit {0}) → Reply
  got : Result Error (Option Bytes) → Reply

unfoldable pub run : ℕ → Fifo → List Call → List Reply
run capacity q [] = []
run capacity q (puts x ∷ calls) =
    done (put capacity x q).0 ∷ run capacity (put capacity x q).1 calls
run capacity q (gets ∷ calls) = got (get q).0 ∷ run capacity (get q).1 calls
