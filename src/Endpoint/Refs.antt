-- ===== src/Endpoint/Refs.antt =====
-- Pipe ends of kernel/kpipe.c under the reference counting that kernel/proc_fd.c relies on.
use skez_os.Prelude.{
  ℕ, ◌+◌, ◌^◌, ◌≤◌, ◌<◌, ◌≡◌, ◌≢◌, Bool, true, false, not, ◌&&◌, Option, none, some, List, arith,
  if◌then◌else◌, ◌==◌, ok,
}
use skez_os.File.{Kfile, FileOps, Source, ReadResult, WriteResult, kfile_clone, kfile_close}
use skez_os.Pipe.{read_flag, write_flag, retain_refs, close_refs}
use skez_os.Endpoint.{PipeHeap, kpipe_table, store, update, kpipe_file_ops}

-- The operation tables of the kernel: that of pipes, and tables with neither `retain` nor `close`,
-- such as those of the console and of /dev/null (kernel/vfs.c).
abbrev pub tables :
    List (PipeHeap → PipeHeap)
    → (ℕ → Option (Kfile → Bool → ℕ → PipeHeap → ReadResult PipeHeap))
    → (ℕ → Option (Kfile → Source → PipeHeap → WriteResult PipeHeap))
    → ℕ
    → FileOps PipeHeap
tables env reads writes i =
    if i == kpipe_table
    then kpipe_file_ops env
    else record { read = reads i; write = writes i; retain = none; close = none }

-- An object is one side of the pipe at an address: its readers, or its writers.
pub data Side : Type 0 where
  readers writers : Side

abbrev pub side_refs : ℕ × Side → PipeHeap → ℕ
side_refs (a, readers) h = (h.cell a).reader_refs
side_refs (a, writers) h = (h.cell a).writer_refs

abbrev pub flag_of : Side → ℕ → Bool
flag_of readers = read_flag
flag_of writers = write_flag

abbrev pub is_pipe : Option ℕ → Bool
is_pipe none = false
is_pipe (some i) = i == kpipe_table

-- What an open file holds of a side.
abbrev pub side_holds : ℕ × Side → Kfile → ℕ
side_holds (a, s) f =
    if is_pipe f.ops && (f.backend_private == a) && flag_of s f.flags then 1 else 0

-- A file that is a pipe end has its pipe.
abbrev pub HasPipe : Kfile → Type 0
HasPipe f = is_pipe f.ops ≡ true → f.backend_private ≢ 0

module _ (env : List (PipeHeap → PipeHeap))
    (reads : ℕ → Option (Kfile → Bool → ℕ → PipeHeap → ReadResult PipeHeap))
    (writes : ℕ → Option (Kfile → Source → PipeHeap → WriteResult PipeHeap)) where
  abbrev pub table : ℕ → FileOps PipeHeap
  table = tables env reads writes

  -- How a clone and a close come out.
  pub clone-other :
      (f d : Kfile) (h : PipeHeap) → is_pipe f.ops ≡ false → kfile_clone table f d h ≡ (ok, f, h)
  unfolding kfile_clone
  clone-other f d h e = ground arith

  pub clone-pipe :
      (f d : Kfile) (h : PipeHeap)
      → is_pipe f.ops ≡ true
      → f.backend_private ≢ 0
      → kfile_clone table f d h
        ≡ (ok, f, store f.backend_private (retain_refs f.flags (h.cell f.backend_private)) h)
  unfolding kfile_clone kpipe_file_ops
  clone-pipe f d h e p = ground arith

  pub close-other :
      (f : Kfile) (h : PipeHeap)
      → is_pipe f.ops ≡ false
      → ((kfile_close table f h).0 ≡ ok) × ((kfile_close table f h).2 ≡ h)
  unfolding kfile_close
  close-other f h e = ground arith

  -- The heap after `kpipe_close`.
  abbrev pub closed_heap : Kfile → PipeHeap → PipeHeap
  closed_heap f h =
      let a = f.backend_private in
      let p = close_refs f.flags (h.cell a) in
      record { cell = update h.cell a p.0; live = if p.1 then update h.live a false else h.live }

  pub close-pipe :
      (f : Kfile) (h : PipeHeap)
      → is_pipe f.ops ≡ true
      → f.backend_private ≢ 0
      → ((kfile_close table f h).0 ≡ ok) × ((kfile_close table f h).2 ≡ closed_heap f h)
  unfolding kfile_close kpipe_file_ops
  close-pipe f h e p = ground arith

  pub retain-takes :
      (k : ℕ × Side) (f : Kfile) (h : PipeHeap)
      → is_pipe f.ops ≡ true
      → side_refs k h + side_holds k f < 2 ^ 32
      → side_refs k (store f.backend_private (retain_refs f.flags (h.cell f.backend_private)) h)
        ≡ side_refs k h + side_holds k f
  unfolding retain_refs
  retain-takes (a, readers) f h e room = ground arith
  retain-takes (a, writers) f h e room = ground arith

  pub close-gives :
      (k : ℕ × Side) (f : Kfile) (h : PipeHeap)
      → is_pipe f.ops ≡ true
      → side_holds k f ≤ side_refs k h
      → side_refs k (closed_heap f h) + side_holds k f ≡ side_refs k h
  unfolding close_refs
  close-gives (a, readers) f h e le = ground arith
  close-gives (a, writers) f h e le = ground arith

  pub none_held : (k : ℕ × Side) (f : Kfile) → is_pipe f.ops ≡ false → side_holds k f ≡ 0
  none_held (a, s) f e = rw e

-- A pipe's block is allocated exactly while an end of it is counted.
abbrev pub LiveWhileHeld : PipeHeap → Type 0
LiveWhileHeld h =
    (a : ℕ) → h.live a ≡ not (((h.cell a).reader_refs == 0) && ((h.cell a).writer_refs == 0))

module _ (env : List (PipeHeap → PipeHeap))
    (reads : ℕ → Option (Kfile → Bool → ℕ → PipeHeap → ReadResult PipeHeap))
    (writes : ℕ → Option (Kfile → Source → PipeHeap → WriteResult PipeHeap)) where
  pub retain-LiveWhileHeld :
      (f : Kfile) (h : PipeHeap)
      → is_pipe f.ops ≡ true
      → ((k : ℕ × Side) → side_holds k f ≤ side_refs k h)
      → ((k : ℕ × Side) → side_refs k h + side_holds k f < 2 ^ 32)
      → LiveWhileHeld h
      → LiveWhileHeld (store f.backend_private (retain_refs f.flags (h.cell f.backend_private)) h)
  unfolding retain_refs
  retain-LiveWhileHeld f h e le room sound a =
      ground
        (arith, sound a, le (a, readers), le (a, writers), room (a, readers), room (a, writers))

  pub close-LiveWhileHeld :
      (f : Kfile) (h : PipeHeap)
      → is_pipe f.ops ≡ true
      → ((k : ℕ × Side) → side_holds k f ≤ side_refs k h)
      → LiveWhileHeld h
      → LiveWhileHeld (closed_heap env reads writes f h)
  unfolding close_refs
  close-LiveWhileHeld f h e le sound a = ground (arith, sound a, le (a, readers), le (a, writers))
