-- ===== src/Tests/Pipes.antt =====
-- Runs of kernel/kpipe.c.
use skez_os.Prelude.{ℕ, ◌≡◌, ◌≢◌, refl, true, some, List, [], ◌∷◌, ◌++◌, arith, length, ok}
use skez_os.Pipe.{Pipe, create_state, returned, read_round, write_round, drain, fill}
use skez_os.Pipe.Fifo.{IsRing, contents, create_state-IsRing}
use skez_os.Pipe.Rounds.{delivered, accepted, write_round-IsRing}
use skez_os.Pipe.Trace.{Run, start, more, reads, writes, Run-order}
use skez_os.Endpoint.{PipeHeap, store, read_loop, write_loop}
use skez_os.Endpoint.Calls.{ReadOutcome, write_loop-completes, read_loop-outcome}

abbrev two_bytes : List ℕ
two_bytes = 7 ∷ 8 ∷ []

abbrev written : Pipe
written = (write_round two_bytes create_state).2

-- Two bytes go in, and the first comes out.
written_run : contents written ≡ two_bytes
unfolding write_round fill create_state
written_run = refl

read_run : (read_round 1 written).0 ≡ returned (7 ∷ [])
unfolding write_round fill create_state read_round drain
read_run = refl

abbrev two_rounds :
    Run create_state
      (([] ++ accepted two_bytes (write_round two_bytes create_state).1) ++ [])
      (([] ++ []) ++ delivered (read_round 1 written).0)
      (read_round 1 written).1
two_rounds = more (more start (writes two_bytes create_state)) (reads 1 written)

Run-order_example :
    IsRing (read_round 1 written).1
    × (contents create_state
          ++ (([] ++ accepted two_bytes (write_round two_bytes create_state).1) ++ [])
        ≡ (([] ++ []) ++ delivered (read_round 1 written).0) ++ contents (read_round 1 written).1)
Run-order_example = Run-order two_rounds create_state-IsRing

-- A heap of new pipes.
abbrev one_pipe : PipeHeap
one_pipe = record { cell = λ _. create_state; live = λ _. true }

abbrev reset : PipeHeap → PipeHeap
reset h = one_pipe

created_used : create_state.used ≡ 0
unfolding create_state
created_used = refl

created_readers : create_state.reader_refs ≢ 0
unfolding create_state
created_readers = omega arith

write_loop-completes_example :
    (left : List ℕ) × (h' : PipeHeap) × (write_loop (reset ∷ []) two_bytes 4096 one_pipe
      ≡ some (ok, left, h'))
    × (length left ≡ 0)
write_loop-completes_example =
    write_loop-completes 4096 (reset ∷ []) two_bytes one_pipe create_state-IsRing created_readers
      ((λ h _. (create_state-IsRing, created_readers)), tt) ((λ h. created_used), tt) (omega arith)

written-IsRing : IsRing written
written-IsRing = write_round-IsRing two_bytes create_state-IsRing

written_used : written.used ≢ 0
unfolding write_round fill create_state
written_used = omega arith

abbrev full_heap : PipeHeap
full_heap = record { cell = λ _. written; live = λ _. true }

abbrev one_read : PipeHeap
one_read = store 4096 (read_round 1 written).1 full_heap

read_loop_run : read_loop [] 1 4096 full_heap ≡ some (7 ∷ [], one_read)
unfolding write_round fill create_state read_round drain read_loop
read_loop_run = refl

read_loop-outcome_example : ReadOutcome 4096 1 (7 ∷ []) one_read
read_loop-outcome_example =
    read_loop-outcome 4096 [] 1 full_heap (λ z. absurd (omega (arith, z))) written-IsRing tt
      read_loop_run

abbrev fed : PipeHeap → PipeHeap
fed h = full_heap
