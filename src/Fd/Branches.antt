-- ===== src/Fd/Branches.antt =====
-- The branches of the operations of kernel/proc_fd.c, one equation each.
use skez_os.Prelude.{
  ℕ, ◌≡◌, true, false, ◌&&◌, none, some, arith, get_or, set, ltb, ◌==◌, Status, ok, err, Errno,
  inval, noent, nomem,
}
use skez_os.File.{Kfile, FileOps, kfile_clone, kfile_close}
use skez_os.Fd.{
  Table, unused, fd_max, in_slot, place, proc_fd_install, proc_fd_alloc, proc_fd_close, proc_fd_dup,
  proc_fd_dup2,
}

module _ {W : Type 0} (vtable : ℕ → FileOps W) (t : Table) (fd : ℕ) (w : W) where
  abbrev pub file_at : Kfile
  file_at = (get_or t fd unused).file

  pub close-out : ltb fd fd_max ≡ false → proc_fd_close vtable t fd w ≡ (err inval, t, w)
  unfolding proc_fd_close
  close-out e = ground arith

  pub close-unused :
      ltb fd fd_max ≡ true
      → (get_or t fd unused).in_use ≡ false
      → proc_fd_close vtable t fd w ≡ (err noent, t, w)
  unfolding proc_fd_close
  close-unused e u = ground arith

  pub close-used :
      ltb fd fd_max ≡ true
      → (get_or t fd unused).in_use ≡ true
      → (kfile_close vtable file_at w).0 ≡ ok
      → proc_fd_close vtable t fd w ≡ (ok, set t fd unused, (kfile_close vtable file_at w).2)
  unfolding proc_fd_close
  close-used e u h = ground arith

  pub close-fails :
      (e : Errno)
      → ltb fd fd_max ≡ true
      → (get_or t fd unused).in_use ≡ true
      → (kfile_close vtable file_at w).0 ≡ err e
      → proc_fd_close vtable t fd w ≡ (
        err e,
        set t fd (in_slot (kfile_close vtable file_at w).1),
        (kfile_close vtable file_at w).2,
      )
  unfolding proc_fd_close
  close-fails c e u h = ground arith

module _ {W : Type 0} (vtable : ℕ → FileOps W) (t : Table) (f : Kfile) (w : W) where
  abbrev pub the_clone : Status × Kfile × W
  the_clone = kfile_clone vtable f f w

  pub alloc-out :
      (m : ℕ) → ltb m fd_max ≡ false → proc_fd_alloc vtable t m f w ≡ (err inval, 0, t, w)
  unfolding proc_fd_alloc
  alloc-out m e = ground arith

  pub alloc-fails :
      (m : ℕ) (c : Errno)
      → ltb m fd_max ≡ true
      → the_clone.0 ≡ err c
      → proc_fd_alloc vtable t m f w ≡ (err c, 0, t, the_clone.2)
  unfolding proc_fd_alloc
  alloc-fails m c e h = ground arith

  pub alloc-placed :
      (m fd : ℕ) (t' : Table)
      → ltb m fd_max ≡ true
      → the_clone.0 ≡ ok
      → place m the_clone.1 t ≡ some (fd, t')
      → proc_fd_alloc vtable t m f w ≡ (ok, fd, t', the_clone.2)
  unfolding proc_fd_alloc
  alloc-placed m fd t' e h p = ground arith

  pub alloc-full :
      (m : ℕ)
      → ltb m fd_max ≡ true
      → the_clone.0 ≡ ok
      → place m the_clone.1 t ≡ none
      → proc_fd_alloc vtable t m f w
        ≡ (err nomem, 0, t, (kfile_close vtable the_clone.1 the_clone.2).2)
  unfolding proc_fd_alloc
  alloc-full m e h p = ground arith

  pub install-out :
      (fd : ℕ) → ltb fd fd_max ≡ false → proc_fd_install vtable t fd f w ≡ (err inval, t, w)
  unfolding proc_fd_install
  install-out fd e = ground arith

  pub install-used :
      (fd : ℕ)
      → ltb fd fd_max ≡ true
      → (get_or t fd unused).in_use ≡ true
      → proc_fd_install vtable t fd f w ≡ (err inval, t, w)
  unfolding proc_fd_install
  install-used fd e u = ground arith

module _ {W : Type 0} (vtable : ℕ → FileOps W) (t : Table) (f : Kfile) (fd : ℕ) (w : W) where
  abbrev pub install_clone : Status × Kfile × W
  install_clone = kfile_clone vtable f (get_or t fd unused).file w

  pub install-ok :
      ltb fd fd_max ≡ true
      → (get_or t fd unused).in_use ≡ false
      → install_clone.0 ≡ ok
      → proc_fd_install vtable t fd f w ≡ (ok, set t fd (in_slot install_clone.1), install_clone.2)
  unfolding proc_fd_install
  install-ok e u h = ground arith

  pub install-fails :
      (c : Errno)
      → ltb fd fd_max ≡ true
      → (get_or t fd unused).in_use ≡ false
      → install_clone.0 ≡ err c
      → proc_fd_install vtable t fd f w ≡ (err c, t, install_clone.2)
  unfolding proc_fd_install
  install-fails c e u h = ground arith

module _ {W : Type 0} (vtable : ℕ → FileOps W) (t : Table) (old : ℕ) (w : W) where
  pub dup-out :
      (m : ℕ) → ltb old fd_max ≡ false → proc_fd_dup vtable t old m w ≡ (err inval, 0, t, w)
  unfolding proc_fd_dup
  dup-out m e = ground arith

  pub dup-unused :
      (m : ℕ)
      → ltb old fd_max ≡ true
      → (get_or t old unused).in_use ≡ false
      → proc_fd_dup vtable t old m w ≡ (err noent, 0, t, w)
  unfolding proc_fd_dup
  dup-unused m e u = ground arith

  pub dup-used :
      (m : ℕ)
      → ltb old fd_max ≡ true
      → (get_or t old unused).in_use ≡ true
      → proc_fd_dup vtable t old m w ≡ proc_fd_alloc vtable t m (get_or t old unused).file w
  unfolding proc_fd_dup
  dup-used m e u = ground arith

module _ {W : Type 0} (vtable : ℕ → FileOps W) (t : Table) (old new : ℕ) (w : W) where
  abbrev pub dup2_clone : Status × Kfile × W
  dup2_clone = kfile_clone vtable (get_or t old unused).file (get_or t old unused).file w

  pub dup2-out :
      (ltb old fd_max && ltb new fd_max) ≡ false
      → proc_fd_dup2 vtable t old new w ≡ (err inval, t, w)
  unfolding proc_fd_dup2
  dup2-out e = ground arith

  module _ (in_range : (ltb old fd_max && ltb new fd_max) ≡ true) where
    pub dup2-unused :
        (get_or t old unused).in_use ≡ false → proc_fd_dup2 vtable t old new w ≡ (err noent, t, w)
    unfolding proc_fd_dup2
    dup2-unused u = ground arith

    pub dup2-same :
        (get_or t old unused).in_use ≡ true
        → (old == new) ≡ true
        → proc_fd_dup2 vtable t old new w ≡ (ok, t, w)
    unfolding proc_fd_dup2
    dup2-same u e = ground arith

    module _ (used : (get_or t old unused).in_use ≡ true) (distinct : (old == new) ≡ false) where
      pub dup2-fails :
          (c : Errno)
          → dup2_clone.0 ≡ err c
          → proc_fd_dup2 vtable t old new w ≡ (err c, t, dup2_clone.2)
      unfolding proc_fd_dup2
      dup2-fails c h = ground arith

      pub dup2-free :
          dup2_clone.0 ≡ ok
          → (get_or t new unused).in_use ≡ false
          → proc_fd_dup2 vtable t old new w ≡ (ok, set t new (in_slot dup2_clone.1), dup2_clone.2)
      unfolding proc_fd_dup2
      dup2-free h u = ground arith

      pub dup2-closes :
          dup2_clone.0 ≡ ok
          → (get_or t new unused).in_use ≡ true
          → (kfile_close vtable (get_or t new unused).file dup2_clone.2).0 ≡ ok
          → proc_fd_dup2 vtable t old new w ≡ (
            ok,
            set t new (in_slot dup2_clone.1),
            (kfile_close vtable (get_or t new unused).file dup2_clone.2).2,
          )
      unfolding proc_fd_dup2
      dup2-closes h u c = ground arith

      pub dup2-undoes :
          (e : Errno)
          → dup2_clone.0 ≡ ok
          → (get_or t new unused).in_use ≡ true
          → (kfile_close vtable (get_or t new unused).file dup2_clone.2).0 ≡ err e
          → let closed = kfile_close vtable (get_or t new unused).file dup2_clone.2 in
            proc_fd_dup2 vtable t old new w
            ≡ (err e, set t new (in_slot closed.1), (kfile_close vtable dup2_clone.1 closed.2).2)
      unfolding proc_fd_dup2
      dup2-undoes e h u c = ground arith
