-- ===== src/Fd/TableClone.antt =====
-- `proc_fd_table_clone` of kernel/proc_fd.c.
use skez_os.Prelude.{
  ℕ, zero, suc, ◌≢◌, ◌+◌, ◌^◌, ◌<◌, ◌≤◌, ◌≡◌, refl, ap, ◌∙◌, inl, inr, true, false, List, [], ◌∷◌,
  arith, length, replicate, length-replicate, Bool-cases, Status, ok, err, Errno,
}
use skez_os.File.{Kfile, FileOps, kfile_clone}
use skez_os.Fd.{Slot, Table, unused, in_slot, close_slots, clone_slots, proc_fd_table_clone}
use skez_os.Fd.Owners.{RefCounted, Status-cases, slot_holds, held, AllManaged, AllClose, IsOwned}
use skez_os.Fd.CloseAll.{AllUnused, close_slots-Closed}

module _ {W : Type 0} (vtable : ℕ → FileOps W) (s : Slot) (t : List Slot) (w : W) where
  clone_slots-skip :
      s.in_use ≡ false
      → clone_slots vtable (s ∷ t) w ≡ (
        (clone_slots vtable t w).0,
        unused ∷ (clone_slots vtable t w).1,
        (clone_slots vtable t w).2,
      )
  unfolding clone_slots
  clone_slots-skip e = simp e

  abbrev slot_clone : Status × Kfile × W
  slot_clone = kfile_clone vtable s.file unused.file w

  clone_slots-clone :
      s.in_use ≡ true
      → slot_clone.0 ≡ ok
      → let rest : Status × List Slot × W = clone_slots vtable t slot_clone.2 in
        clone_slots vtable (s ∷ t) w ≡ (rest.0, in_slot slot_clone.1 ∷ rest.1, rest.2)
  unfolding clone_slots
  clone_slots-clone e h = simp (e, h)

  clone_slots-fails :
      (c : Errno)
      → s.in_use ≡ true
      → slot_clone.0 ≡ err c
      → clone_slots vtable (s ∷ t) w ≡ (err c, unused ∷ replicate (length t) unused, slot_clone.2)
  unfolding clone_slots
  clone_slots-fails c e h = simp (e, h)

module _ {W : Type 0} (vtable : ℕ → FileOps W) (src : Table) (w : W) where
  abbrev copy_of : Status × List Slot × W
  copy_of = clone_slots vtable src w

  table_clone-done : copy_of.0 ≡ ok → proc_fd_table_clone vtable src w ≡ (ok, copy_of.1, copy_of.2)
  unfolding proc_fd_table_clone
  table_clone-done e = ground arith

  table_clone-undone :
      (c : Errno)
      → copy_of.0 ≡ err c
      → proc_fd_table_clone vtable src w ≡ (
        err c,
        (close_slots vtable copy_of.1 copy_of.2).1,
        (close_slots vtable copy_of.1 copy_of.2).2,
      )
  unfolding proc_fd_table_clone
  table_clone-undone c e = ground arith

module _ {W : Type 0} {vtable : ℕ → FileOps W} (counted : RefCounted vtable) where
  open counted use {Key, refs, holds, Managed, Sound}

  pub held-replicate : (k : Key) (n : ℕ) → held counted k (replicate n unused) ≡ 0
  held-replicate k zero = refl
  held-replicate k (suc n) = omega (arith, held-replicate k n)

  pub AllManaged-replicate : (n : ℕ) → AllManaged counted (replicate n unused)
  AllManaged-replicate zero = tt
  AllManaged-replicate (suc n) = (λ h. cc, AllManaged-replicate n)

  pub held-AllUnused : (k : Key) (t : List Slot) → AllUnused t → held counted k t ≡ 0
  held-AllUnused k [] h = refl
  held-AllUnused k (s ∷ t) h =
      let none_held : slot_holds counted k s ≡ 0 = rw h.0 in
      omega (arith, none_held, held-AllUnused k t h.1)

  pub AllManaged-AllUnused : (t : List Slot) → AllUnused t → AllManaged counted t
  AllManaged-AllUnused [] h = tt
  AllManaged-AllUnused (s ∷ t) h = (λ e. cc, AllManaged-AllUnused t h.1)

  -- What cloning the slots `ss` from `w` leaves: each reference taken stands in a slot.
  record Copied (ss : List Slot) (w : W) (out : Status × List Slot × W) : Type 0 where
    size : length out.1 ≡ length ss
    managed : AllManaged counted out.1
    taken : (k : Key) → refs k out.2 ≡ refs k w + held counted k out.1
    sound : Sound w → Sound out.2
    complete : out.0 ≡ ok → (k : Key) → held counted k out.1 ≡ held counted k ss

  Copied-skip :
      (s : Slot) (t : List Slot) {w : W} {out : Status × List Slot × W}
      → s.in_use ≡ false
      → Copied t w out
      → Copied (s ∷ t) w (out.0, unused ∷ out.1, out.2)
  Copied-skip s t e c = record {
    size = ap suc c.size;
    managed = (λ h. cc, c.managed);
    taken = λ k. omega (arith, c.taken k);
    sound = c.sound;
    complete = λ h k.
        let none_held : slot_holds counted k s ≡ 0 = rw e in
        omega (arith, c.complete h k, none_held);
  }

  Copied-clone :
      (s : Slot) (t : List Slot) {w : W} {out : Status × List Slot × W}
      → s.in_use ≡ true
      → Managed s.file
      → ((k : Key) → (holds k s.file ≤ refs k w) × (refs k w + holds k s.file < 2 ^ 32))
      → (slot_clone vtable s t w).0 ≡ ok
      → Copied t (slot_clone vtable s t w).2 out
      → Copied (s ∷ t) w (out.0, in_slot (slot_clone vtable s t w).1 ∷ out.1, out.2)
  Copied-clone s t {w} e m room h c = record {
    size = ap suc c.size;
    managed = (λ _. counted.clone_keeps s.file unused.file w m h, c.managed);
    taken = λ k. omega (
      arith,
      c.taken k,
      counted.clone_takes s.file unused.file w k m (room k).1 h,
      counted.clone_holds s.file unused.file w k m h,
    );
    sound = λ i. c.sound (counted.clone_sound s.file unused.file w m room i);
    complete = λ done k.
        let all_held : slot_holds counted k s ≡ holds k s.file = rw e in
        omega (arith, c.complete done k, all_held, counted.clone_holds s.file unused.file w k m h);
  }

  Copied-fails :
      (s : Slot) (t : List Slot) {w : W} (c : Errno)
      → Managed s.file
      → ((k : Key) → (holds k s.file ≤ refs k w) × (refs k w + holds k s.file < 2 ^ 32))
      → (slot_clone vtable s t w).0 ≡ err c
      → Copied (s ∷ t) w (err c, unused ∷ replicate (length t) unused, (slot_clone vtable s t w).2)
  Copied-fails s t {w} c m room h = record {
    size = ap suc (length-replicate (length t) unused);
    managed = (λ e. cc, AllManaged-replicate (length t));
    taken = λ k.
        omega
          (arith, held-replicate k (length t), counted.clone_fails s.file unused.file w k c m h);
    sound = counted.clone_sound s.file unused.file w m room;
    complete = λ e. cc;
  }

  clone_slots-Copied :
      (ss : List Slot) {w : W}
      → AllManaged counted ss
      → ((k : Key) → (held counted k ss ≤ refs k w) × (refs k w + held counted k ss < 2 ^ 32))
      → Copied ss w (clone_slots vtable ss w)
  unfolding clone_slots
  clone_slots-Copied [] all room = record {
    size = refl;
    managed = tt;
    taken = λ k. omega arith;
    sound = λ i. i;
    complete = λ e k. refl;
  }
  clone_slots-Copied (s ∷ t) {w} all room = elim (Bool-cases s.in_use) [
    | inr e ↦
        rw (clone_slots-skip vtable s t w e)
          (Copied-skip s t e (clone_slots-Copied t all.1 (λ k. omega (arith, room k))))
    | inl e ↦
        let m : Managed s.file = all.0 e in
        let all_held : (k : Key) → slot_holds counted k s ≡ holds k s.file = λ k. rw e in
        let room' : (k : Key) → (holds k s.file ≤ refs k w) × (refs k w + holds k s.file < 2 ^ 32) =
          λ k. omega (arith, room k, all_held k) in
        elim (Status-cases (slot_clone vtable s t w).0) [
          | inr (c, h) ↦ rw (clone_slots-fails vtable s t w c e h) (Copied-fails s t c m room' h)
          | inl h ↦ rw (clone_slots-clone vtable s t w e h) (
              Copied-clone s t e m room' h (
                clone_slots-Copied t all.1 (λ k. omega (
                  arith,
                  room k,
                  all_held k,
                  counted.clone_takes s.file unused.file w k m (room' k).1 h,
                ))))
        ]
  ]

  -- For backends that count references: where every count is what the parent's table and the other
  -- holders hold, and no count wraps when the table's references are taken once more,
  -- `proc_fd_table_clone` leaves a table for the child for which this holds with the parent as one
  -- more holder; on success the child's table holds what the parent's holds, and on failure the
  -- child's table has no open descriptor and every count is as it was. Assumed: no close of such a
  -- backend fails.
  pub proc_fd_table_clone-IsOwned :
      AllClose counted
      → (ext : Key → ℕ) {src : Table} {w : W} → IsOwned counted ext src w
      → ((k : Key) → refs k w + held counted k src < 2 ^ 32)
      → let (rc, dst, w') = proc_fd_table_clone vtable src w in
        IsOwned counted (λ k. ext k + held counted k src) dst w'
        × (rc ≡ ok → (k : Key) → held counted k dst ≡ held counted k src)
        × (rc ≢ ok → AllUnused dst × ((k : Key) → refs k w' ≡ refs k w))
  proc_fd_table_clone-IsOwned closes ext {src} {w} o room =
      let c = clone_slots-Copied src {w = w} o.managed (λ k. omega (arith, room k, o.owns k)) in
      elim (Status-cases (clone_slots vtable src w).0) [
        | inl done ↦ rw (table_clone-done vtable src w done) (
          record {
            size = c.size ∙ o.size;
            managed = c.managed;
            sound = c.sound o.sound;
            owns = λ k. omega (arith, c.taken k, o.owns k);
          },
          λ _. c.complete done,
          λ h. absurd (h refl),
        )
        | inr (e, failed) ↦
            let dst : Table = (clone_slots vtable src w).1 in
            let w' : W = (clone_slots vtable src w).2 in
            let undone =
              close_slots-Closed counted closes dst {w = w'} c.managed
                (λ k. omega (arith, c.taken k)) in
            rw (table_clone-undone vtable src w e failed) (
              record {
                size = undone.size ∙ c.size ∙ o.size;
                managed = AllManaged-AllUnused _ undone.emptied;
                sound = undone.sound (c.sound o.sound);
                owns = λ k.
                    omega (
                      arith,
                      undone.given k,
                      c.taken k,
                      o.owns k,
                      held-AllUnused k _ undone.emptied,
                    );
              },
              λ h. cc,
              λ h. (undone.emptied, λ k. omega (arith, undone.given k, c.taken k)),
            )
      ]
