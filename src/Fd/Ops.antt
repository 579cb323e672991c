-- ===== src/Fd/Ops.antt =====
-- Each operation of kernel/proc_fd.c on a table whose references are all counted.
use skez_os.Prelude.{ℕ, inl, inr, arith, get_or, ltb, Bool-cases, Option-cases, ltb→lt}
use skez_os.File.{Kfile, FileOps, kfile_clone, kfile_close}
use skez_os.Fd.{
  Table, unused, fd_max, place, proc_fd_install, proc_fd_alloc, proc_fd_close, proc_fd_dup,
}
use skez_os.Fd.Owners.{RefCounted, Status-cases, AllManaged-get, CloneCloses, IsOwned}
use skez_os.Fd.Place.{place-Placed}
use skez_os.Fd.Branches
use skez_os.Fd.Ownership.{
  Room, put-IsOwned, take-IsOwned, clone-IsOwned, clone-fails, close-IsOwned, unclosed-IsOwned,
}

module _ {W : Type 0} {vtable : ℕ → FileOps W} (counted : RefCounted vtable)
    (ext : counted.Key → ℕ) where
  open counted use {Key, refs, holds, Managed}

  -- For backends that count references, and whose closes change no count when they fail: where every
  -- count is what the table's open descriptors and the other holders hold, this is true after
  -- `proc_fd_close`, on every branch: a close that fails leaves the descriptor open.
  pub proc_fd_close-IsOwned :
      {t : Table} {w : W} (fd : ℕ)
      → IsOwned counted ext t w
      → IsOwned counted ext (proc_fd_close vtable t fd w).1 (proc_fd_close vtable t fd w).2
  proc_fd_close-IsOwned {t} {w} fd o = elim (Bool-cases (ltb fd fd_max)) [
    | inr e ↦ rw (Branches.close-out vtable t fd w e) o
    | inl e ↦ elim (Bool-cases (get_or t fd unused).in_use) [
      | inr u ↦ rw (Branches.close-unused vtable t fd w e u) o
      | inl u ↦
          let f : Kfile = (get_or t fd unused).file in
          let m : Managed f = AllManaged-get counted t fd o.managed u in
          elim (Status-cases (kfile_close vtable f w).0) [
            | inl h ↦
                rw (Branches.close-used vtable t fd w e u h)
                  (close-IsOwned counted ext f m (take-IsOwned counted ext fd o (ltb→lt _ _ e) u) h)
            | inr (c, h) ↦
                rw (Branches.close-fails vtable t fd w c e u h)
                  (unclosed-IsOwned counted ext fd c o (ltb→lt _ _ e) u h)
          ]
    ]
  ]

  -- For backends that count references: where every count is what the table's open descriptors and the
  -- other holders hold, the file is one the backends know, its references are counted and the counts
  -- can grow by them without wrapping, and a clone of the file can be closed, this is true after
  -- `proc_fd_alloc`, on every branch: a bad `fd_min`, a failing clone and a full table included.
  pub proc_fd_alloc-IsOwned :
      (f : Kfile) {t : Table} {w : W} (fd_min : ℕ)
      → Managed f
      → Room counted ext f w
      → CloneCloses counted f w
      → IsOwned counted ext t w
      → IsOwned counted ext
          (proc_fd_alloc vtable t fd_min f w).2
          (proc_fd_alloc vtable t fd_min f w).3
  proc_fd_alloc-IsOwned f {t} {w} fd_min m room undo o = elim (Bool-cases (ltb fd_min fd_max)) [
    | inr e ↦ rw (Branches.alloc-out vtable t f w fd_min e) o
    | inl e ↦ elim (Status-cases (kfile_clone vtable f f w).0) [
      | inr (c, h) ↦
          rw (Branches.alloc-fails vtable t f w fd_min c e h)
            (clone-fails counted ext f f c m room o h)
      | inl h ↦
          let g : Kfile = (kfile_clone vtable f f w).1 in
          let mg : Managed g = counted.clone_keeps f f w m h in
          let beside = clone-IsOwned counted ext f f m room o h in
          elim (Option-cases (place fd_min g t)) [
            | inl p ↦
                rw (Branches.alloc-full vtable t f w fd_min e h p)
                  (close-IsOwned counted ext g mg beside (undo h (kfile_clone vtable f f w).2))
            | inr ((fd, t'), p) ↦
                let s = place-Placed fd_min g t p in
                rw (Branches.alloc-placed vtable t f w fd_min fd t' e h p, s.table)
                  (put-IsOwned counted ext fd mg beside (omega (arith, o.size, s.in_table))
                    (λ k. rw s.free))
          ]
    ]
  ]

  -- For backends that count references: where every count is what the table's open descriptors and the
  -- other holders hold, the file is one the backends know, its references are counted and the counts
  -- can grow by them without wrapping, this is true after `proc_fd_install`, on every branch: a bad or
  -- used `fd` and a failing clone included.
  pub proc_fd_install-IsOwned :
      (f : Kfile) {t : Table} {w : W} (fd : ℕ)
      → Managed f
      → Room counted ext f w
      → IsOwned counted ext t w
      → IsOwned counted ext (proc_fd_install vtable t fd f w).1 (proc_fd_install vtable t fd f w).2
  proc_fd_install-IsOwned f {t} {w} fd m room o = elim (Bool-cases (ltb fd fd_max)) [
    | inr e ↦ rw (Branches.install-out vtable t f w fd e) o
    | inl e ↦ elim (Bool-cases (get_or t fd unused).in_use) [
      | inl u ↦ rw (Branches.install-used vtable t f w fd e u) o
      | inr u ↦
          let d : Kfile = (get_or t fd unused).file in
          elim (Status-cases (kfile_clone vtable f d w).0) [
            | inr (c, h) ↦
                rw (Branches.install-fails vtable t f fd w c e u h)
                  (clone-fails counted ext f d c m room o h)
            | inl h ↦ rw (Branches.install-ok vtable t f fd w e u h) (
                put-IsOwned counted ext fd (counted.clone_keeps f d w m h)
                  (clone-IsOwned counted ext f d m room o h) (ltb→lt _ _ e) (λ k. rw u))
          ]
    ]
  ]

  -- For backends that count references: where every count is what the table's open descriptors and the
  -- other holders hold, the references of `oldfd`'s file are counted and the counts can grow by them
  -- without wrapping, and a clone of that file can be closed, this is true after `proc_fd_dup`, on
  -- every branch.
  pub proc_fd_dup-IsOwned :
      {t : Table} {w : W} (oldfd fd_min : ℕ)
      → Room counted ext (get_or t oldfd unused).file w
      → CloneCloses counted (get_or t oldfd unused).file w
      → IsOwned counted ext t w
      → IsOwned counted ext
          (proc_fd_dup vtable t oldfd fd_min w).2
          (proc_fd_dup vtable t oldfd fd_min w).3
  proc_fd_dup-IsOwned {t} {w} oldfd fd_min room undo o = elim (Bool-cases (ltb oldfd fd_max)) [
    | inr e ↦ rw (Branches.dup-out vtable t oldfd w fd_min e) o
    | inl e ↦ elim (Bool-cases (get_or t oldfd unused).in_use) [
      | inr u ↦ rw (Branches.dup-unused vtable t oldfd w fd_min e u) o
      | inl u ↦ rw (Branches.dup-used vtable t oldfd w fd_min e u) (
          proc_fd_alloc-IsOwned (get_or t oldfd unused).file fd_min
            (AllManaged-get counted t oldfd o.managed u) room undo o)
    ]
  ]
