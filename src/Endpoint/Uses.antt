-- ===== src/Endpoint/Uses.antt =====
-- The life of pipes under one process: kernel/kpipe.c makes them, kernel/proc_fd.c hands their ends on.
use skez_os.Prelude.{
  ℕ, ◌+◌, ◌^◌, ◌≤◌, ◌<◌, ◌≡◌, refl, ap, sym, true, false, ◌||◌, Bool, Option, none, some, List,
  arith, get_or,
}
use skez_os.File.{Kfile, Source, ReadResult, WriteResult, kfile_close}
use skez_os.Pipe.{read_flag, write_flag, create_state}
use skez_os.Endpoint.{PipeHeap, kpipe_create}
use skez_os.Endpoint.Refs.{
  tables, Side, readers, writers, side_refs, side_holds, HasPipe, LiveWhileHeld, is_pipe,
}
use skez_os.Endpoint.Life.{pipe_counted, close_ok, clone_keeps, descriptor-live, pipe-freed}
use skez_os.Fd.{
  Table, unused, fd_max, proc_fd_table_init, proc_fd_install, proc_fd_alloc, proc_fd_close,
  proc_fd_dup, proc_fd_dup2, proc_fd_close_all, proc_fd_table_clone,
}
use skez_os.Fd.Owners.{IsOwned, CloneCloses, held, slot_holds-le, slot_holds, AllManaged-get}
use skez_os.Fd.Ownership.{Room, close-IsOwned}
use skez_os.Fd.Ops.{
  proc_fd_close-IsOwned, proc_fd_alloc-IsOwned, proc_fd_install-IsOwned, proc_fd_dup-IsOwned,
}
use skez_os.Fd.Whole.{proc_fd_dup2-IsOwned}
use skez_os.Fd.CloseAll.{proc_fd_close_all-gives}
use skez_os.Fd.TableClone.{
  proc_fd_table_clone-IsOwned, AllManaged-AllUnused, held-AllUnused, AllManaged-replicate,
  held-replicate,
}

module _ (env : List (PipeHeap → PipeHeap))
    (reads : ℕ → Option (Kfile → Bool → ℕ → PipeHeap → ReadResult PipeHeap))
    (writes : ℕ → Option (Kfile → Source → PipeHeap → WriteResult PipeHeap)) where
  abbrev table : ℕ → skez_os.File.FileOps PipeHeap
  table = tables env reads writes

  abbrev counted : skez_os.Fd.Owners.RefCounted table
  counted = pipe_counted env reads writes

  -- The counts do not wrap when one more reference is taken of what `f` holds.
  abbrev pub Fits : Kfile → PipeHeap → Type 0
  Fits f h = (k : ℕ × Side) → side_refs k h + side_holds k f < 2 ^ 32

  -- The table of a process, the pipes, and in `ext` what is held besides: files at hand, and the
  -- tables of other processes.
  pub data Uses : (ext : ℕ × Side → ℕ) → Table → PipeHeap → Type 0 where
    begin :
        (h : PipeHeap)
        → ((a : ℕ) → h.live a ≡ false)
        → ((k : ℕ × Side) → side_refs k h ≡ 0)
        → Uses (λ k. 0) proc_fd_table_init h
    create :
        (a : ℕ) (r w : Kfile) (ext ext' : ℕ × Side → ℕ) (t : Table) (h : PipeHeap)
        → Uses ext t h
        → h.live a ≡ false
        → (kpipe_create (some a) h).1 ≡ some (r, w)
        → ((k : ℕ × Side) → ext' k ≡ ext k + side_holds k r + side_holds k w)
        → Uses ext' t (kpipe_create (some a) h).2
    release :
        (f : Kfile) (ext ext' : ℕ × Side → ℕ) (t : Table) (h : PipeHeap)
        → Uses ext t h
        → HasPipe f
        → ((k : ℕ × Side) → ext k ≡ ext' k + side_holds k f)
        → Uses ext' t (kfile_close table f h).2
    install :
        (fd : ℕ) (f : Kfile) (ext : ℕ × Side → ℕ) (t : Table) (h : PipeHeap)
        → Uses ext t h
        → HasPipe f
        → ((k : ℕ × Side) → side_holds k f ≤ ext k)
        → Fits f h
        → Uses ext (proc_fd_install table t fd f h).1 (proc_fd_install table t fd f h).2
    alloc :
        (fd_min : ℕ) (f : Kfile) (ext : ℕ × Side → ℕ) (t : Table) (h : PipeHeap)
        → Uses ext t h
        → HasPipe f
        → ((k : ℕ × Side) → side_holds k f ≤ ext k)
        → Fits f h
        → Uses ext (proc_fd_alloc table t fd_min f h).2 (proc_fd_alloc table t fd_min f h).3
    close :
        (fd : ℕ) (ext : ℕ × Side → ℕ) (t : Table) (h : PipeHeap)
        → Uses ext t h
        → Uses ext (proc_fd_close table t fd h).1 (proc_fd_close table t fd h).2
    dup :
        (oldfd fd_min : ℕ) (ext : ℕ × Side → ℕ) (t : Table) (h : PipeHeap)
        → Uses ext t h
        → (get_or t oldfd unused).in_use ≡ true
        → Fits (get_or t oldfd unused).file h
        → Uses ext (proc_fd_dup table t oldfd fd_min h).2 (proc_fd_dup table t oldfd fd_min h).3
    dup2 :
        (oldfd newfd : ℕ) (ext : ℕ × Side → ℕ) (t : Table) (h : PipeHeap)
        → Uses ext t h
        → (get_or t oldfd unused).in_use ≡ true
        → Fits (get_or t oldfd unused).file h
        → Uses ext (proc_fd_dup2 table t oldfd newfd h).1 (proc_fd_dup2 table t oldfd newfd h).2
    close_all :
        (ext : ℕ × Side → ℕ) (t : Table) (h : PipeHeap)
        → Uses ext t h
        → Uses ext (proc_fd_close_all table t h).1 (proc_fd_close_all table t h).2
    child :
        (ext ext' : ℕ × Side → ℕ) (t : Table) (h : PipeHeap)
        → Uses ext t h
        → ((k : ℕ × Side) → side_refs k h + held counted k t < 2 ^ 32)
        → ((k : ℕ × Side) → ext' k ≡ ext k + held counted k t)
        → Uses ext' (proc_fd_table_clone table t h).1 (proc_fd_table_clone table t h).2

  same_ext :
      {ext ext' : ℕ × Side → ℕ} {t : Table} {h : PipeHeap}
      → ((k : ℕ × Side) → ext k ≡ ext' k)
      → IsOwned counted ext t h
      → IsOwned counted ext' t h
  same_ext same o = record {
    size = o.size;
    managed = o.managed;
    sound = o.sound;
    owns = λ k. omega (arith, o.owns k, same k);
  }

  pub undo : (f : Kfile) (h : PipeHeap) → HasPipe f → CloneCloses counted f h
  undo f h m done h' = close_ok env reads writes _ h' (clone_keeps env reads writes f f h m done)

  at_hand :
      {ext : ℕ × Side → ℕ} {t : Table} {h : PipeHeap} (f : Kfile)
      → IsOwned counted ext t h
      → ((k : ℕ × Side) → side_holds k f ≤ ext k)
      → Fits f h
      → Room counted ext f h
  at_hand f o le fits k = (omega (arith, o.owns k, le k), fits k)

  open_file :
      {ext : ℕ × Side → ℕ} {t : Table} {h : PipeHeap} (fd : ℕ)
      → IsOwned counted ext t h
      → (get_or t fd unused).in_use ≡ true
      → Fits (get_or t fd unused).file h
      → Room counted ext (get_or t fd unused).file h
  open_file {t = t} fd o used fits k =
      let full : slot_holds counted k (get_or t fd unused)
          ≡ side_holds k (get_or t fd unused).file =
        rw used in
      (omega (arith, o.owns k, full, slot_holds-le counted k t fd), fits k)

  -- A table with no descriptor open holds nothing.
  closed-IsOwned :
      (ext : ℕ × Side → ℕ) (t : Table) (h : PipeHeap)
      → IsOwned counted ext t h
      → IsOwned counted ext (proc_fd_close_all table t h).1 (proc_fd_close_all table t h).2
  closed-IsOwned ext t h o =
      let (n, unused_all, size, sound, gives) =
        proc_fd_close_all-gives counted (close_ok env reads writes) ext o in
      record {
        size = size;
        managed = AllManaged-AllUnused counted _ unused_all;
        sound = sound;
        owns = λ k. omega (arith, gives k, held-AllUnused counted k _ unused_all);
      }

  -- What the two ends that a pipe is made with hold.
  abbrev ends_hold : Option (Kfile × Kfile) → ℕ × Side → ℕ
  ends_hold none k = 0
  ends_hold (some (r, w)) k = side_holds k r + side_holds k w

  create-refs :
      (a : ℕ) (h : PipeHeap) (k : ℕ × Side)
      → LiveWhileHeld h
      → h.live a ≡ false
      → side_refs k (kpipe_create (some a) h).2
        ≡ side_refs k h + ends_hold (kpipe_create (some a) h).1 k
  unfolding kpipe_create create_state
  create-refs a h (b, readers) sound free = ground (arith, sound a, free)
  create-refs a h (b, writers) sound free = ground (arith, sound a, free)

  create-LiveWhileHeld :
      (a : ℕ) (h : PipeHeap) → LiveWhileHeld h → LiveWhileHeld (kpipe_create (some a) h).2
  unfolding kpipe_create create_state
  create-LiveWhileHeld a h sound b = ground (arith, sound b)

  begin-IsOwned :
      (h : PipeHeap)
      → ((a : ℕ) → h.live a ≡ false)
      → ((k : ℕ × Side) → side_refs k h ≡ 0)
      → IsOwned counted (λ k. 0) proc_fd_table_init h
  unfolding proc_fd_table_init
  begin-IsOwned h dead zero = record {
    size = refl;
    managed = AllManaged-replicate counted fd_max;
    sound = λ a. ground (arith, dead a, zero (a, readers), zero (a, writers));
    owns = λ k. omega (arith, zero k, held-replicate counted k fd_max);
  }

  -- Every count is what the table and the other holders hold.
  Uses-IsOwned :
      (ext : ℕ × Side → ℕ) (t : Table) (h : PipeHeap) → Uses ext t h → IsOwned counted ext t h
  Uses-IsOwned ext t h (begin _ dead zero) = begin-IsOwned h dead zero
  Uses-IsOwned ext' t h' (create a r w ext _ _ h u free ends same) =
      let o = Uses-IsOwned ext t h u in
      record {
        size = o.size;
        managed = o.managed;
        sound = create-LiveWhileHeld a h o.sound;
        owns = λ k.
            omega (
              arith,
              o.owns k,
              same k,
              create-refs a h k o.sound free,
              ap (λ x. ends_hold x k) ends,
            );
      }
  Uses-IsOwned ext' t h' (release f ext _ _ h u m same) =
      close-IsOwned counted ext' f m (same_ext same (Uses-IsOwned ext t h u))
        (close_ok env reads writes f h m)
  Uses-IsOwned ext t' h' (install fd f _ t h u m le fits) =
      let o = Uses-IsOwned ext t h u in
      proc_fd_install-IsOwned counted ext f fd m (at_hand f o le fits) o
  Uses-IsOwned ext t' h' (alloc fd_min f _ t h u m le fits) =
      let o = Uses-IsOwned ext t h u in
      proc_fd_alloc-IsOwned counted ext f fd_min m (at_hand f o le fits) (undo f h m) o
  Uses-IsOwned ext t' h' (close fd _ t h u) =
      proc_fd_close-IsOwned counted ext fd (Uses-IsOwned ext t h u)
  Uses-IsOwned ext t' h' (dup oldfd fd_min _ t h u used fits) =
      let o = Uses-IsOwned ext t h u in
      proc_fd_dup-IsOwned counted ext oldfd fd_min (open_file oldfd o used fits)
        (undo _ h (AllManaged-get counted t oldfd o.managed used)) o
  Uses-IsOwned ext t' h' (dup2 oldfd newfd _ t h u used fits) =
      let o = Uses-IsOwned ext t h u in
      proc_fd_dup2-IsOwned counted ext oldfd newfd (open_file oldfd o used fits)
        (undo _ h (AllManaged-get counted t oldfd o.managed used)) o
  Uses-IsOwned ext t' h' (close_all _ t h u) = closed-IsOwned ext t h (Uses-IsOwned ext t h u)
  Uses-IsOwned ext' t' h' (child ext _ t h u fits same) =
      same_ext (λ k. sym (same k))
        (proc_fd_table_clone-IsOwned counted (close_ok env reads writes) ext
          (Uses-IsOwned ext t h u) fits).0

  -- Along every sequence of `kpipe_create`, `kfile_close` of an end at hand, and `proc_fd_install`,
  -- `proc_fd_alloc`, `proc_fd_close`, `proc_fd_dup`, `proc_fd_dup2`, `proc_fd_close_all` and
  -- `proc_fd_table_clone` on the table of a process and then of its child, from an empty table and no
  -- pipe: the block of the pipe of every open read or write end in the table is allocated, and a pipe
  -- with no end open, in the table or elsewhere, is free. A pipe is made in a free block, a file given
  -- to `proc_fd_install` or `proc_fd_alloc` is at hand, `proc_fd_dup` and `proc_fd_dup2` are given an
  -- open descriptor, and no count wraps.
  pub Uses-live :
      (ext : ℕ × Side → ℕ) (t : Table) (h : PipeHeap)
      → Uses ext t h
      → ((fd : ℕ)
          → (get_or t fd unused).in_use ≡ true
          → is_pipe (get_or t fd unused).file.ops ≡ true
          → (read_flag (get_or t fd unused).file.flags
              || write_flag (get_or t fd unused).file.flags)
            ≡ true
          → h.live (get_or t fd unused).file.backend_private ≡ true)
        × ((a : ℕ) → ((s : Side) → ext (a, s) + held counted (a, s) t ≡ 0) → h.live a ≡ false)
  Uses-live ext t h u =
      let o = Uses-IsOwned ext t h u in
      (
        λ fd used pipe ends. descriptor-live env reads writes fd o used pipe ends,
        λ a none_left. pipe-freed env reads writes a o none_left,
      )
