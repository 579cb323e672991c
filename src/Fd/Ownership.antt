-- ===== src/Fd/Ownership.antt =====
-- The steps of the operations of kernel/proc_fd.c: putting a file at hand into a slot, taking one out,
-- cloning and closing, against the backends' counts.
use skez_os.Prelude.{
  ℕ, ◌+◌, ◌^◌, ◌≤◌, ◌<◌, ◌≡◌, ◌∙◌, true, arith, length-set, get_or, set, ok, err, Errno,
}
use skez_os.File.{Kfile, FileOps, kfile_clone, kfile_close}
use skez_os.Fd.{Table, unused, fd_max, in_slot}
use skez_os.Fd.Owners.{
  RefCounted, slot_holds, held-set, AllManaged-set, AllManaged-get, slot_holds-le, IsOwned,
}

module _ {W : Type 0} {vtable : ℕ → FileOps W} (counted : RefCounted vtable)
    (ext : counted.Key → ℕ) where
  open counted use {Key, refs, holds, Managed}

  -- What `f` holds is counted, and the counts do not wrap when one more reference is taken.
  abbrev pub Room : Kfile → W → Type 0
  Room f w = (k : Key) → (holds k f ≤ refs k w) × (refs k w + holds k f < 2 ^ 32)

  -- A file at hand, beside the table, is one more holder.
  abbrev pub IsOwnedBeside : Kfile → Table → W → Type 0
  IsOwnedBeside f = IsOwned counted (λ k. ext k + holds k f)

  -- Putting the file at hand into a slot that holds nothing.
  pub put-IsOwned :
      {f : Kfile} {t : Table} {w : W} (fd : ℕ)
      → Managed f
      → IsOwnedBeside f t w
      → fd < fd_max
      → ((k : Key) → slot_holds counted k (get_or t fd unused) ≡ 0)
      → IsOwned counted ext (set t fd (in_slot f)) w
  put-IsOwned {f} {t} fd m o lt free = record {
    size = length-set t fd (in_slot f) ∙ o.size;
    managed = AllManaged-set counted t fd (in_slot f) o.managed (λ _. m);
    sound = o.sound;
    owns = λ k.
        omega
          (arith, o.owns k, held-set counted k t fd (in_slot f) (omega (arith, o.size)), free k);
  }

  -- Emptying a slot, with its file now at hand.
  pub take-IsOwned :
      {t : Table} {w : W} (fd : ℕ)
      → IsOwned counted ext t w
      → fd < fd_max
      → (get_or t fd unused).in_use ≡ true
      → IsOwnedBeside (get_or t fd unused).file (set t fd unused) w
  take-IsOwned {t} fd o lt used = record {
    size = length-set t fd unused ∙ o.size;
    managed = AllManaged-set counted t fd unused o.managed (λ h. cc);
    sound = o.sound;
    owns = λ k.
        let s = held-set counted k t fd unused (omega (arith, o.size)) in
        let full : slot_holds counted k (get_or t fd unused) ≡ holds k (get_or t fd unused).file =
          rw used in
        omega (arith, o.owns k, s, full);
  }

  -- Cloning a file puts the clone at hand.
  pub clone-IsOwned :
      (f d : Kfile) {t : Table} {w : W}
      → Managed f
      → Room f w
      → IsOwned counted ext t w
      → (kfile_clone vtable f d w).0 ≡ ok
      → IsOwnedBeside (kfile_clone vtable f d w).1 t (kfile_clone vtable f d w).2
  clone-IsOwned f d {t} {w} m room o e = record {
    size = o.size;
    managed = o.managed;
    sound = counted.clone_sound f d w m room o.sound;
    owns = λ k. omega (
      arith,
      o.owns k,
      counted.clone_holds f d w k m e,
      counted.clone_takes f d w k m (room k).1 e,
    );
  }

  pub clone-fails :
      (f d : Kfile) {t : Table} {w : W} (e : Errno)
      → Managed f
      → Room f w
      → IsOwned counted ext t w
      → (kfile_clone vtable f d w).0 ≡ err e
      → IsOwned counted ext t (kfile_clone vtable f d w).2
  clone-fails f d {w} e m room o h = record {
    size = o.size;
    managed = o.managed;
    sound = counted.clone_sound f d w m room o.sound;
    owns = λ k. omega (arith, o.owns k, counted.clone_fails f d w k e m h);
  }

  -- Closing the file at hand.
  pub close-IsOwned :
      (f : Kfile) {t : Table} {w : W}
      → Managed f
      → IsOwnedBeside f t w
      → (kfile_close vtable f w).0 ≡ ok
      → IsOwned counted ext t (kfile_close vtable f w).2
  close-IsOwned f {t} {w} m o e = record {
    size = o.size;
    managed = o.managed;
    sound = counted.close_sound f w m (λ k. omega (arith, o.owns k)) o.sound;
    owns = λ k. omega (arith, o.owns k, counted.close_gives f w k m (omega (arith, o.owns k)) e);
  }

  -- A close that fails leaves its slot in use, with the references that it held.
  pub unclosed-IsOwned :
      {t : Table} {w : W} (fd : ℕ) (e : Errno)
      → IsOwned counted ext t w
      → fd < fd_max
      → (get_or t fd unused).in_use ≡ true
      → (kfile_close vtable (get_or t fd unused).file w).0 ≡ err e
      → IsOwned counted ext
          (set t fd (in_slot (kfile_close vtable (get_or t fd unused).file w).1))
          (kfile_close vtable (get_or t fd unused).file w).2
  unclosed-IsOwned {t} {w} fd e o lt used failed =
      let f : Kfile = (get_or t fd unused).file in
      let f' : Kfile = (kfile_close vtable f w).1 in
      let m : Managed f = AllManaged-get counted t fd o.managed used in
      record {
        size = length-set t fd (in_slot f') ∙ o.size;
        managed =
            AllManaged-set counted t fd (in_slot f') o.managed
              (λ _. counted.close_keeps f w e m failed);
        sound = counted.close_sound f w m (λ k. held_le k) o.sound;
        owns = λ k.
            let s = held-set counted k t fd (in_slot f') (omega (arith, o.size)) in
            omega (arith, o.owns k, s, full k, counted.close_fails f w k e m failed);
      }
    where
      full :
          (k : Key) → slot_holds counted k (get_or t fd unused) ≡ holds k (get_or t fd unused).file
      full k = rw used

      held_le : (k : Key) → holds k (get_or t fd unused).file ≤ refs k w
      held_le k = omega (arith, o.owns k, full k, slot_holds-le counted k t fd)
