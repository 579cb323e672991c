-- ===== src/Endpoint/Life.antt =====
-- Pipe ends in descriptor tables: kernel/kpipe.c and kernel/proc_fd.c together.
use skez_os.Prelude.{
  ℕ, ◌+◌, ◌^◌, ◌≤◌, ◌<◌, ◌≡◌, refl, inl, inr, Bool, true, false, ◌||◌, Option, List, arith, get_or,
  Bool-cases, ok, err, Errno,
}
use skez_os.File.{Kfile, Source, ReadResult, WriteResult, kfile_clone, kfile_close}
use skez_os.Pipe.{read_flag, write_flag}
use skez_os.Endpoint.{PipeHeap}
use skez_os.Endpoint.Refs.{
  tables, Side, readers, writers, side_refs, side_holds, HasPipe, LiveWhileHeld, is_pipe,
  clone-other, clone-pipe, close-other, close-pipe, retain-takes, close-gives, none_held,
  retain-LiveWhileHeld, close-LiveWhileHeld,
}
use skez_os.Fd.{Table, unused}
use skez_os.Fd.Owners.{RefCounted, IsOwned, held, slot_holds-le}

module _ (env : List (PipeHeap → PipeHeap))
    (reads : ℕ → Option (Kfile → Bool → ℕ → PipeHeap → ReadResult PipeHeap))
    (writes : ℕ → Option (Kfile → Source → PipeHeap → WriteResult PipeHeap)) where
  pub clone_keeps :
      (f d : Kfile) (h : PipeHeap)
      → HasPipe f
      → (kfile_clone (tables env reads writes) f d h).0 ≡ ok
      → HasPipe (kfile_clone (tables env reads writes) f d h).1
  clone_keeps f d h m done = elim (Bool-cases (is_pipe f.ops)) [
    | inl e ↦ rw (clone-pipe env reads writes f d h e (m e)) m
    | inr e ↦ rw (clone-other env reads writes f d h e) m
  ]

  pub clone_holds :
      (f d : Kfile) (h : PipeHeap) (k : ℕ × Side)
      → HasPipe f
      → side_holds k (kfile_clone (tables env reads writes) f d h).1 ≡ side_holds k f
  clone_holds f d h k m = elim (Bool-cases (is_pipe f.ops)) [
    | inl e ↦ rw (clone-pipe env reads writes f d h e (m e)) refl
    | inr e ↦ rw (clone-other env reads writes f d h e) refl
  ]

  pub clone_takes :
      (f d : Kfile) (h : PipeHeap) (k : ℕ × Side)
      → HasPipe f
      → side_refs k h + side_holds k f < 2 ^ 32
      → side_refs k (kfile_clone (tables env reads writes) f d h).2 ≡ side_refs k h + side_holds k f
  clone_takes f d h k m room = elim (Bool-cases (is_pipe f.ops)) [
    | inl e ↦
        rw (clone-pipe env reads writes f d h e (m e)) (retain-takes env reads writes k f h e room)
    | inr e ↦
        rw (clone-other env reads writes f d h e) (omega (arith, none_held env reads writes k f e))
  ]

  pub clone_fails :
      (f d : Kfile) (h : PipeHeap) (k : ℕ × Side) (e : Errno)
      → HasPipe f
      → (kfile_clone (tables env reads writes) f d h).0 ≡ err e
      → side_refs k (kfile_clone (tables env reads writes) f d h).2 ≡ side_refs k h
  clone_fails f d h k c m failed = elim (Bool-cases (is_pipe f.ops)) [
    | inl e ↦ absurd (ground (arith, clone-pipe env reads writes f d h e (m e)))
    | inr e ↦ absurd (ground (arith, clone-other env reads writes f d h e))
  ]

  pub clone_sound :
      (f d : Kfile) (h : PipeHeap)
      → HasPipe f
      → ((k : ℕ × Side)
          → (side_holds k f ≤ side_refs k h) × (side_refs k h + side_holds k f < 2 ^ 32))
      → LiveWhileHeld h
      → LiveWhileHeld (kfile_clone (tables env reads writes) f d h).2
  clone_sound f d h m room live = elim (Bool-cases (is_pipe f.ops)) [
    | inl e ↦
        rw (clone-pipe env reads writes f d h e (m e))
          (retain-LiveWhileHeld env reads writes f h e (λ k. (room k).0) (λ k. (room k).1) live)
    | inr e ↦ rw (clone-other env reads writes f d h e) live
  ]

  pub close_ok :
      (f : Kfile) (h : PipeHeap) → HasPipe f → (kfile_close (tables env reads writes) f h).0 ≡ ok
  close_ok f h m = elim (Bool-cases (is_pipe f.ops)) [
    | inl e ↦ (close-pipe env reads writes f h e (m e)).0
    | inr e ↦ (close-other env reads writes f h e).0
  ]

  pub never_fails :
      (f : Kfile) (h : PipeHeap) (e : Errno)
      → HasPipe f
      → (kfile_close (tables env reads writes) f h).0 ≡ err e
      → ⊥
  never_fails f h e m failed = ground (arith, close_ok f h m, failed)

  pub close_gives :
      (f : Kfile) (h : PipeHeap) (k : ℕ × Side)
      → HasPipe f
      → side_holds k f ≤ side_refs k h
      → (kfile_close (tables env reads writes) f h).0 ≡ ok
      → side_refs k (kfile_close (tables env reads writes) f h).2 + side_holds k f ≡ side_refs k h
  close_gives f h k m le done = elim (Bool-cases (is_pipe f.ops)) [
    | inl e ↦
        rw ((close-pipe env reads writes f h e (m e)).1) (close-gives env reads writes k f h e le)
    | inr e ↦
        rw ((close-other env reads writes f h e).1)
          (omega (arith, none_held env reads writes k f e))
  ]

  pub close_sound :
      (f : Kfile) (h : PipeHeap)
      → HasPipe f
      → ((k : ℕ × Side) → side_holds k f ≤ side_refs k h)
      → LiveWhileHeld h
      → LiveWhileHeld (kfile_close (tables env reads writes) f h).2
  close_sound f h m le live = elim (Bool-cases (is_pipe f.ops)) [
    | inl e ↦
        rw ((close-pipe env reads writes f h e (m e)).1)
          (close-LiveWhileHeld env reads writes f h e le live)
    | inr e ↦ rw ((close-other env reads writes f h e).1) live
  ]

  -- The operations of kernel/kpipe.c count their ends as kernel/proc_fd.c needs it.
  abbrev pub pipe_counted : RefCounted (tables env reads writes)
  pipe_counted = record {
    Key = ℕ × Side;
    refs = side_refs;
    holds = side_holds;
    Managed = HasPipe;
    Sound = LiveWhileHeld;
    clone_keeps = clone_keeps;
    clone_holds = λ f d h k m _. clone_holds f d h k m;
    clone_takes = λ f d h k m room _. clone_takes f d h k m room;
    clone_fails = clone_fails;
    clone_sound = clone_sound;
    close_gives = close_gives;
    close_fails = λ f h k e m failed. absurd (never_fails f h e m failed);
    close_keeps = λ f h e m failed. absurd (never_fails f h e m failed);
    close_sound = close_sound;
  }

  -- For pipe backends and a table where every count is what the table's open descriptors and the other
  -- holders hold: if an open descriptor is a read or a write end of a pipe, the block of its pipe is
  -- allocated.
  pub descriptor-live :
      {ext : ℕ × Side → ℕ} {t : Table} {h : PipeHeap} (fd : ℕ)
      → IsOwned pipe_counted ext t h
      → (get_or t fd unused).in_use ≡ true
      → is_pipe (get_or t fd unused).file.ops ≡ true
      → (read_flag (get_or t fd unused).file.flags || write_flag (get_or t fd unused).file.flags)
        ≡ true
      → h.live (get_or t fd unused).file.backend_private ≡ true
  descriptor-live {ext} {t} {h} fd o used e ends =
      let a : ℕ = (get_or t fd unused).file.backend_private in
      ground (
        arith,
        o.sound a,
        o.owns (a, readers),
        o.owns (a, writers),
        slot_holds-le pipe_counted (a, readers) t fd,
        slot_holds-le pipe_counted (a, writers) t fd,
      )

  -- For pipe backends and a table where every count is what the table's open descriptors and the other
  -- holders hold: once neither a descriptor nor another holder has an end of a pipe, its block is
  -- free.
  pub pipe-freed :
      {ext : ℕ × Side → ℕ} {t : Table} {h : PipeHeap} (a : ℕ)
      → IsOwned pipe_counted ext t h
      → ((s : Side) → ext (a, s) + held pipe_counted (a, s) t ≡ 0)
      → h.live a ≡ false
  pipe-freed a o none_left = ground (
    arith,
    o.sound a,
    o.owns (a, readers),
    o.owns (a, writers),
    none_left readers,
    none_left writers,
  )
