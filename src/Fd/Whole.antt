-- ===== src/Fd/Whole.antt =====
-- `proc_fd_dup2` of kernel/proc_fd.c on tables whose references are all counted.
use skez_os.Prelude.{
  ℕ, ◌+◌, ◌<◌, ◌≡◌, inl, inr, true, false, ◌&&◌, arith, get_or, set, ltb, ◌==◌, Bool-cases, ok,
  set-set, get_or-set_self,
}
use skez_os.File.{Kfile, FileOps, kfile_clone, kfile_close}
use skez_os.Fd.{Table, unused, fd_max, in_slot, proc_fd_dup2}
use skez_os.Fd.Owners.{RefCounted, Status-cases, AllManaged-get, CloneCloses, IsOwned}
use skez_os.Fd.Branches
use skez_os.Fd.Ownership.{
  Room, IsOwnedBeside, put-IsOwned, take-IsOwned, clone-IsOwned, clone-fails, close-IsOwned,
  unclosed-IsOwned,
}

module _ {W : Type 0} {vtable : ℕ → FileOps W} (counted : RefCounted vtable) where
  open counted use {Key, refs, holds, Managed}

  -- Replacing an open descriptor by the file at hand.
  replace-IsOwned :
      (ext : Key → ℕ) (g : Kfile) {t : Table} {w : W} (new : ℕ)
      → Managed g
      → IsOwnedBeside counted ext g t w
      → new < fd_max
      → (get_or t new unused).in_use ≡ true
      → (kfile_close vtable (get_or t new unused).file w).0 ≡ ok
      → IsOwned counted ext
          (set t new (in_slot g))
          (kfile_close vtable (get_or t new unused).file w).2
  replace-IsOwned ext g {t} {w} new mg o lt u h =
      let ext' : Key → ℕ = λ k. ext k + holds k g in
      let f : Kfile = (get_or t new unused).file in
      let emptied =
        close-IsOwned counted ext' f (AllManaged-get counted t new o.managed u)
          (take-IsOwned counted ext' new o lt u) h in
      let free : get_or (set t new unused) new unused ≡ unused =
        get_or-set_self t new unused unused (omega (arith, o.size)) in
      rw (← set-set t new unused (in_slot g))
        (put-IsOwned counted ext new mg emptied lt (λ k. rw free))

  -- For backends that count references, and whose clones and closes change no count when they fail:
  -- where every count is what the table's open descriptors and the other holders hold, the references
  -- of `oldfd`'s file are counted and the counts can grow by them without wrapping, and a clone of
  -- that file can be closed, every count is what the table and the other holders hold after
  -- `proc_fd_dup2`, on every branch: the references that `newfd` held are given back and those that it
  -- holds now are taken, or the close of `newfd`'s file fails, it stays open, and the references of
  -- the clone are given back.
  pub proc_fd_dup2-IsOwned :
      (ext : Key → ℕ) {t : Table} {w : W} (oldfd newfd : ℕ)
      → Room counted ext (get_or t oldfd unused).file w
      → CloneCloses counted (get_or t oldfd unused).file w
      → IsOwned counted ext t w
      → IsOwned counted ext
          (proc_fd_dup2 vtable t oldfd newfd w).1
          (proc_fd_dup2 vtable t oldfd newfd w).2
  proc_fd_dup2-IsOwned ext {t} {w} oldfd newfd room undo o =
      elim (Bool-cases (ltb oldfd fd_max && ltb newfd fd_max)) [
        | inr e ↦ rw (Branches.dup2-out vtable t oldfd newfd w e) o
        | inl e ↦ elim (Bool-cases (get_or t oldfd unused).in_use) [
          | inr u ↦ rw (Branches.dup2-unused vtable t oldfd newfd w e u) o
          | inl u ↦ elim (Bool-cases (oldfd == newfd)) [
            | inl s ↦ rw (Branches.dup2-same vtable t oldfd newfd w e u s) o
            | inr s ↦ distinct e u s
          ]
        ]
      ]
    where
      f : Kfile
      f = (get_or t oldfd unused).file

      g : Kfile
      g = (kfile_clone vtable f f w).1

      w' : W
      w' = (kfile_clone vtable f f w).2

      new_file : Kfile
      new_file = (get_or t newfd unused).file

      distinct :
          (ltb oldfd fd_max && ltb newfd fd_max) ≡ true
          → (get_or t oldfd unused).in_use ≡ true
          → (oldfd == newfd) ≡ false
          → IsOwned counted ext
              (proc_fd_dup2 vtable t oldfd newfd w).1
              (proc_fd_dup2 vtable t oldfd newfd w).2
      distinct e u s = elim (Status-cases (kfile_clone vtable f f w).0) [
        | inr (c, h) ↦
            rw (Branches.dup2-fails vtable t oldfd newfd w e u s c h)
              (clone-fails counted ext f f c (AllManaged-get counted t oldfd o.managed u) room o h)
        | inl h ↦
            let m : Managed f = AllManaged-get counted t oldfd o.managed u in
            let mg : Managed g = counted.clone_keeps f f w m h in
            let beside = clone-IsOwned counted ext f f m room o h in
            let lt : newfd < fd_max = ground arith in
            elim (Bool-cases (get_or t newfd unused).in_use) [
              | inr n ↦
                  rw (Branches.dup2-free vtable t oldfd newfd w e u s h n)
                    (put-IsOwned counted ext newfd mg beside lt (λ k. rw n))
              | inl n ↦ elim (Status-cases (kfile_close vtable new_file w').0) [
                | inl closed ↦
                    rw (Branches.dup2-closes vtable t oldfd newfd w e u s h n closed)
                      (replace-IsOwned ext g newfd mg beside lt n closed)
                | inr (c, failed) ↦
                    rw (Branches.dup2-undoes vtable t oldfd newfd w e u s c h n failed) (
                      close-IsOwned counted ext g mg
                        (unclosed-IsOwned counted (λ k. ext k + holds k g) newfd c beside lt n
                          failed)
                        (undo h (kfile_close vtable new_file w').2))
              ]
            ]
      ]
