-- ===== src/Tests/Descriptors.antt =====
-- Runs of kernel/proc_fd.c on a table with the two ends of a pipe.
use skez_os.Prelude.{
  get_or, ◌||◌, Status, ℕ, zero, suc, ◌+◌, ◌^◌, ◌<◌, ◌≡◌, ◌≢◌, refl, true, false, none, some, [],
  ◌∷◌, arith, length, replicate, if◌then◌else◌, ◌==◌, ok,
}
use skez_os.File.{Kfile, FileOps}
use skez_os.Pipe.{Pipe, capacity}
use skez_os.Endpoint.{PipeHeap, kpipe_create}
use skez_os.Pipe.{read_flag, write_flag}
use skez_os.Endpoint.Refs.{
  side_holds, is_pipe, tables, Side, readers, writers, HasPipe, LiveWhileHeld,
}
use skez_os.Endpoint.Life.{pipe_counted, close_ok}
use skez_os.Endpoint.Uses.{Uses, Uses-live}
use skez_os.Fd.{
  proc_fd_table_init, Slot, Table, unused, in_slot, fd_max, place, proc_fd_close, proc_fd_alloc,
  proc_fd_install, proc_fd_dup, proc_fd_dup2, proc_fd_close_all, proc_fd_table_clone,
}
use skez_os.Fd.Owners.{IsOwned, AllManaged, held}
use skez_os.Fd.Ownership.{Room}
use skez_os.Fd.CloseAll.{AllUnused, count_used, proc_fd_close_all-gives}
use skez_os.Fd.TableClone.{proc_fd_table_clone-IsOwned}

abbrev pub kernel : ℕ → FileOps PipeHeap
kernel = tables [] (λ _. none) (λ _. none)

abbrev pub counted : skez_os.Fd.Owners.RefCounted kernel
counted = pipe_counted [] (λ _. none) (λ _. none)

abbrev pub end_of_pipe : ℕ → Kfile
end_of_pipe flags = record {
  ops = some 1;
  node = 0;
  backend_private = 4096;
  offset = 0;
  flags = flags;
}

-- Descriptor 0 reads from the pipe at 4096, and descriptor 1 writes to it.
abbrev pub two_ends : Table
two_ends = in_slot (end_of_pipe 1) ∷ in_slot (end_of_pipe 2) ∷ replicate 14 unused

abbrev with_refs : ℕ → Pipe
with_refs n = record {
  buf = replicate capacity 0;
  head = 0;
  tail = 0;
  used = 0;
  reader_refs = n;
  writer_refs = n;
}

abbrev pub pipe_heap : PipeHeap
pipe_heap = record { cell = λ a. with_refs (if a == 4096 then 1 else 0); live = λ a. a == 4096 }

abbrev pub nobody : ℕ × Side → ℕ
nobody k = 0

AllManaged-replicate : (n : ℕ) → AllManaged counted (replicate n unused)
AllManaged-replicate zero = tt
AllManaged-replicate (suc n) = ((λ q _. absurd (ground (arith, q))), AllManaged-replicate n)

held-replicate : (k : ℕ × Side) (n : ℕ) → held counted k (replicate n unused) ≡ 0
held-replicate k zero = refl
held-replicate k (suc n) = omega (arith, held-replicate k n)

pub not_null : ¬ ◌≡◌ {A = ℕ} 4096 0
not_null z = omega (arith, z)

closes : skez_os.Fd.Owners.AllClose counted
closes = close_ok [] (λ _. none) (λ _. none)

pub two_ends-IsOwned : IsOwned counted nobody two_ends pipe_heap
two_ends-IsOwned = record {
  size = refl;
  managed = ((λ _ _. not_null), ((λ _ _. not_null), AllManaged-replicate 14));
  sound = λ a. ground arith;
  owns = λ k. owned k;
}
  where
    owned :
        (k : ℕ × Side)
        → skez_os.Endpoint.Refs.side_refs k pipe_heap ≡ nobody k + held counted k two_ends
    owned (a, readers) = ground (arith, held-replicate (a, readers) 14)
    owned (a, writers) = ground (arith, held-replicate (a, writers) 14)

pub read_end-Room : Room counted nobody (end_of_pipe 1) pipe_heap
read_end-Room (a, readers) = (ground arith, ground arith)
read_end-Room (a, writers) = (ground arith, ground arith)

proc_fd_close_all-gives_example :
    let (n, t', w') = proc_fd_close_all kernel two_ends pipe_heap in
    (n ≡ count_used two_ends)
    × AllUnused t'
    × (length t' ≡ fd_max)
    × LiveWhileHeld w'
    × ((k : ℕ × Side) → skez_os.Endpoint.Refs.side_refs k w' ≡ nobody k)
proc_fd_close_all-gives_example = proc_fd_close_all-gives counted closes nobody two_ends-IsOwned

two_ends-room :
    (k : ℕ × Side) → skez_os.Endpoint.Refs.side_refs k pipe_heap + held counted k two_ends < 2 ^ 32
two_ends-room (a, readers) = ground (arith, held-replicate (a, readers) 14)
two_ends-room (a, writers) = ground (arith, held-replicate (a, writers) 14)

proc_fd_table_clone-IsOwned_example :
    let (rc, dst, w') = proc_fd_table_clone kernel two_ends pipe_heap in
    IsOwned counted (λ k. nobody k + held counted k two_ends) dst w'
    × (rc ≡ ok → (k : ℕ × Side) → held counted k dst ≡ held counted k two_ends)
    × (rc ≢ ok
        → AllUnused dst
          × ((k : ℕ × Side)
              → skez_os.Endpoint.Refs.side_refs k w' ≡ skez_os.Endpoint.Refs.side_refs k pipe_heap))
proc_fd_table_clone-IsOwned_example =
    proc_fd_table_clone-IsOwned counted closes nobody two_ends-IsOwned two_ends-room

-- No descriptors, and no pipe is held.
abbrev no_heap : PipeHeap
no_heap = record { cell = λ a. with_refs 0; live = λ a. false }

-- A pipe is made, and its read end becomes descriptor 0.
abbrev made : PipeHeap
made = (kpipe_create (some 4096) no_heap).2

abbrev both_ends : ℕ × Side → ℕ
both_ends k = side_holds k (end_of_pipe 1) + side_holds k (end_of_pipe 2)

abbrev installed : Status × Table × PipeHeap
installed = proc_fd_install kernel proc_fd_table_init 0 (end_of_pipe 1) made

made-Uses : Uses [] (λ _. none) (λ _. none) both_ends proc_fd_table_init made
unfolding kpipe_create
made-Uses =
    Uses.create 4096 (end_of_pipe 1) (end_of_pipe 2) (λ k. 0) both_ends proc_fd_table_init no_heap
      (Uses.begin no_heap (λ a. refl) (λ k. none_held k)) refl refl (λ k. omega arith)
  where
    none_held : (k : ℕ × Side) → skez_os.Endpoint.Refs.side_refs k no_heap ≡ 0
    none_held (a, readers) = refl
    none_held (a, writers) = refl

installed-Uses : Uses [] (λ _. none) (λ _. none) both_ends installed.1 installed.2
unfolding kpipe_create
installed-Uses =
    Uses.install 0 (end_of_pipe 1) both_ends proc_fd_table_init made made-Uses (λ _. not_null)
      (λ k. omega arith) (λ k. fits k)
  where
    fits :
        (k : ℕ × Side)
        → skez_os.Endpoint.Refs.side_refs k made + side_holds k (end_of_pipe 1) < 2 ^ 32
    fits (a, readers) = ground arith
    fits (a, writers) = ground arith

Uses-live_example :
    ((fd : ℕ)
      → (get_or installed.1 fd unused).in_use ≡ true
      → is_pipe (get_or installed.1 fd unused).file.ops ≡ true
      → (read_flag (get_or installed.1 fd unused).file.flags
          || write_flag (get_or installed.1 fd unused).file.flags)
        ≡ true
      → installed.2.live (get_or installed.1 fd unused).file.backend_private ≡ true)
    × ((a : ℕ)
        → ((s : Side) → both_ends (a, s) + held counted (a, s) installed.1 ≡ 0)
        → installed.2.live a ≡ false)
Uses-live_example =
    Uses-live [] (λ _. none) (λ _. none) both_ends installed.1 installed.2 installed-Uses
