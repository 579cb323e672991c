-- ===== src/Fd/Owners.antt =====
-- What kernel/proc_fd.c relies on in the backends of open files: a clone takes a reference to each
-- object that the file holds, and a close gives it back; a clone or a close that fails changes no
-- count.
use skez_os.Prelude.{
  ℕ, zero, suc, ◌+◌, ◌^◌, ◌≤◌, ◌<◌, ◌≡◌, refl, true, List, [], ◌∷◌, ◌⊎◌, inl, inr, arith,
  if◌then◌else◌, length, get_or, set, Status, ok, err, Errno,
}
use skez_os.File.{Kfile, FileOps, kfile_clone, kfile_close}
use skez_os.Fd.{Slot, Table, unused, fd_max}

-- `refs k` is the backend's count on the object `k`; `holds k f` is what the file `f` holds of it.
-- `Sound` is what the backend keeps true of its state.
pub record RefCounted {W : Type 0} (vtable : ℕ → FileOps W) : Type 1 where
  pub Key : Type 0
  pub refs : Key → W → ℕ
  pub holds : Key → Kfile → ℕ
  pub Managed : Kfile → Type 0
  pub Sound : W → Type 0
  pub clone_keeps :
      (f d : Kfile) (w : W)
      → Managed f
      → (kfile_clone vtable f d w).0 ≡ ok
      → Managed (kfile_clone vtable f d w).1
  pub clone_holds :
      (f d : Kfile) (w : W) (k : Key)
      → Managed f
      → (kfile_clone vtable f d w).0 ≡ ok
      → holds k (kfile_clone vtable f d w).1 ≡ holds k f
  pub clone_takes :
      (f d : Kfile) (w : W) (k : Key)
      → Managed f
      → refs k w + holds k f < 2 ^ 32
      → (kfile_clone vtable f d w).0 ≡ ok
      → refs k (kfile_clone vtable f d w).2 ≡ refs k w + holds k f
  pub clone_fails :
      (f d : Kfile) (w : W) (k : Key) (e : Errno)
      → Managed f
      → (kfile_clone vtable f d w).0 ≡ err e
      → refs k (kfile_clone vtable f d w).2 ≡ refs k w
  pub clone_sound :
      (f d : Kfile) (w : W)
      → Managed f
      → ((k : Key) → (holds k f ≤ refs k w) × (refs k w + holds k f < 2 ^ 32))
      → Sound w
      → Sound (kfile_clone vtable f d w).2
  pub close_gives :
      (f : Kfile) (w : W) (k : Key)
      → Managed f
      → holds k f ≤ refs k w
      → (kfile_close vtable f w).0 ≡ ok
      → refs k (kfile_close vtable f w).2 + holds k f ≡ refs k w
  pub close_fails :
      (f : Kfile) (w : W) (k : Key) (e : Errno)
      → Managed f
      → (kfile_close vtable f w).0 ≡ err e
      → (refs k (kfile_close vtable f w).2 ≡ refs k w)
        × (holds k (kfile_close vtable f w).1 ≡ holds k f)
  pub close_keeps :
      (f : Kfile) (w : W) (e : Errno)
      → Managed f
      → (kfile_close vtable f w).0 ≡ err e
      → Managed (kfile_close vtable f w).1
  pub close_sound :
      (f : Kfile) (w : W)
      → Managed f
      → ((k : Key) → holds k f ≤ refs k w)
      → Sound w
      → Sound (kfile_close vtable f w).2

pub Status-cases : (s : Status) → (s ≡ ok) ⊎ ((e : Errno) × (s ≡ err e))
Status-cases ok = inl refl
Status-cases (err e) = inr (e, refl)

module _ {W : Type 0} {vtable : ℕ → FileOps W} (counted : RefCounted vtable) where
  open counted use {Key, refs, holds, Managed}

  -- No close fails.
  abbrev pub AllClose : Type 0
  AllClose = (f : Kfile) (w : W) → Managed f → (kfile_close vtable f w).0 ≡ ok

  -- The close of a clone of `f` made in `w` does not fail.
  abbrev pub CloneCloses : Kfile → W → Type 0
  CloneCloses f w =
      (kfile_clone vtable f f w).0 ≡ ok
      → (w' : W) → (kfile_close vtable (kfile_clone vtable f f w).1 w').0 ≡ ok

  -- What the descriptors in the slots hold of `k`.
  abbrev pub slot_holds : Key → Slot → ℕ
  slot_holds k s = if s.in_use then holds k s.file else 0

  abbrev pub held : Key → List Slot → ℕ
  held k [] = 0
  held k (s ∷ t) = slot_holds k s + held k t

  abbrev pub AllManaged : List Slot → Type 0
  AllManaged [] = Unit
  AllManaged (s ∷ t) = (s.in_use ≡ true → Managed s.file) × AllManaged t

  pub held-set :
      (k : Key) (t : List Slot) (fd : ℕ) (s : Slot)
      → fd < length t
      → held k (set t fd s) + slot_holds k (get_or t fd unused) ≡ held k t + slot_holds k s
  held-set k [] fd s h = absurd (omega arith)
  held-set k (x ∷ t) zero s h = omega arith
  held-set k (x ∷ t) (suc fd) s h = omega (arith, held-set k t fd s (omega arith))

  pub slot_holds-le :
      (k : Key) (t : List Slot) (fd : ℕ) → slot_holds k (get_or t fd unused) ≤ held k t
  slot_holds-le k [] fd = omega arith
  slot_holds-le k (x ∷ t) zero = omega arith
  slot_holds-le k (x ∷ t) (suc fd) = omega (arith, slot_holds-le k t fd)

  pub AllManaged-set :
      (t : List Slot) (fd : ℕ) (s : Slot)
      → AllManaged t
      → (s.in_use ≡ true → Managed s.file)
      → AllManaged (set t fd s)
  AllManaged-set [] fd s all h = tt
  AllManaged-set (x ∷ t) zero s all h = (h, all.1)
  AllManaged-set (x ∷ t) (suc fd) s all h = (all.0, AllManaged-set t fd s all.1 h)

  pub AllManaged-get :
      (t : List Slot) (fd : ℕ)
      → AllManaged t
      → (get_or t fd unused).in_use ≡ true
      → Managed (get_or t fd unused).file
  AllManaged-get [] fd all h = cc
  AllManaged-get (x ∷ t) zero all h = all.0 h
  AllManaged-get (x ∷ t) (suc fd) all h = AllManaged-get t fd all.1 h

  -- The backends' counts are those of the table `t` and of all other holders, `ext`.
  pub record IsOwned (ext : Key → ℕ) (t : Table) (w : W) : Type 0 where
    pub size : length t ≡ fd_max
    pub managed : AllManaged t
    pub sound : counted.Sound w
    pub owns : (k : Key) → refs k w ≡ ext k + held k t
