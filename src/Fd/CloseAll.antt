-- ===== src/Fd/CloseAll.antt =====
-- `proc_fd_close_all` of kernel/proc_fd.c.
use skez_os.Prelude.{
  ℕ, suc, ◌+◌, ◌≤◌, ◌≡◌, refl, ap, ◌∙◌, inl, inr, true, false, List, [], ◌∷◌, arith, length,
  Bool-cases, ok, if◌then◌else◌,
}
use skez_os.File.{FileOps, kfile_close}
use skez_os.Fd.{Slot, Table, unused, fd_max, close_slots, proc_fd_close_all}
use skez_os.Fd.Owners.{RefCounted, slot_holds, held, AllManaged, AllClose, IsOwned}

abbrev pub AllUnused : List Slot → Type 0
AllUnused [] = Unit {0}
AllUnused (s ∷ t) = (s.in_use ≡ false) × AllUnused t

abbrev pub count_used : List Slot → ℕ
count_used [] = 0
count_used (s ∷ t) = (if s.in_use then 1 else 0) + count_used t

module _ {W : Type 0} (vtable : ℕ → FileOps W) (s : Slot) (t : List Slot) (w : W) where
  close_slots-skip :
      s.in_use ≡ false
      → close_slots vtable (s ∷ t) w
        ≡ ((close_slots vtable t w).0, s ∷ (close_slots vtable t w).1, (close_slots vtable t w).2)
  unfolding close_slots
  close_slots-skip e = simp e

  close_slots-close :
      s.in_use ≡ true
      → (kfile_close vtable s.file w).0 ≡ ok
      → let rest : ℕ × List Slot × W = close_slots vtable t (kfile_close vtable s.file w).2 in
        close_slots vtable (s ∷ t) w ≡ (rest.0 + 1, unused ∷ rest.1, rest.2)
  unfolding close_slots
  close_slots-close e h = simp (e, h)

module _ {W : Type 0} {vtable : ℕ → FileOps W} (counted : RefCounted vtable) where
  open counted use {Key, refs, holds, Managed, Sound}

  -- What closing the slots `ss` from `w` leaves.
  pub record Closed (ss : List Slot) (w : W) (out : ℕ × List Slot × W) : Type 0 where
    pub number : out.0 ≡ count_used ss
    pub emptied : AllUnused out.1
    pub size : length out.1 ≡ length ss
    pub given : (k : Key) → refs k out.2 + held counted k ss ≡ refs k w
    pub sound : Sound w → Sound out.2

  Closed-skip :
      (s : Slot) (t : List Slot) {w : W} {out : ℕ × List Slot × W}
      → s.in_use ≡ false
      → Closed t w out
      → Closed (s ∷ t) w (out.0, s ∷ out.1, out.2)
  Closed-skip s t e c = record {
    number = ground (arith, c.number);
    emptied = (e, c.emptied);
    size = ap suc c.size;
    given = λ k.
        let none_held : slot_holds counted k s ≡ 0 = rw e in omega (arith, c.given k, none_held);
    sound = c.sound;
  }

  Closed-close :
      (s : Slot) (t : List Slot) {w : W} {out : ℕ × List Slot × W}
      → s.in_use ≡ true
      → Managed s.file
      → ((k : Key) → held counted k (s ∷ t) ≤ refs k w)
      → (kfile_close vtable s.file w).0 ≡ ok
      → Closed t (kfile_close vtable s.file w).2 out
      → Closed (s ∷ t) w (out.0 + 1, unused ∷ out.1, out.2)
  Closed-close s t {w} e m le h c = record {
    number = ground (arith, c.number);
    emptied = (refl, c.emptied);
    size = ap suc c.size;
    given = λ k.
        let all_held : slot_holds counted k s ≡ holds k s.file = rw e in
        omega (
          arith,
          c.given k,
          all_held,
          le k,
          counted.close_gives s.file w k m (omega (arith, le k, all_held)) h,
        );
    sound = λ i. c.sound (
        counted.close_sound s.file w m
          (λ k.
            let all_held : slot_holds counted k s ≡ holds k s.file = rw e in
            omega (arith, le k, all_held))
          i);
  }

  pub close_slots-Closed :
      AllClose counted
      → (ss : List Slot) {w : W} → AllManaged counted ss
      → ((k : Key) → held counted k ss ≤ refs k w)
      → Closed ss w (close_slots vtable ss w)
  unfolding close_slots
  close_slots-Closed closes [] all le = record {
    number = refl;
    emptied = tt;
    size = refl;
    given = λ k. omega arith;
    sound = λ i. i;
  }
  close_slots-Closed closes (s ∷ t) {w} all le = elim (Bool-cases s.in_use) [
    | inr e ↦
        rw (close_slots-skip vtable s t w e)
          (Closed-skip s t e (close_slots-Closed closes t all.1 (λ k. omega (arith, le k))))
    | inl e ↦
        let m : Managed s.file = all.0 e in
        rw (close_slots-close vtable s t w e (closes s.file w m)) (
          Closed-close s t e m le (closes s.file w m) (
            close_slots-Closed closes t all.1 (λ k.
              let all_held : slot_holds counted k s ≡ holds k s.file = rw e in
              omega (
                arith,
                le k,
                all_held,
                counted.close_gives s.file w k m (omega (arith, le k, all_held))
                    (closes s.file w m),
              ))))
  ]

  -- For backends that count references: where every count is what the table's open descriptors and the
  -- other holders hold, `proc_fd_close_all` returns the number of open descriptors, leaves a table of
  -- 16 slots with none open, keeps the backends' own invariant, and leaves of each count what the
  -- other holders hold. Assumed: no close of such a backend fails.
  pub proc_fd_close_all-gives :
      AllClose counted
      → (ext : Key → ℕ) {t : Table} {w : W} → IsOwned counted ext t w
      → let (n, t', w') = proc_fd_close_all vtable t w in
        (n ≡ count_used t)
        × AllUnused t'
        × (length t' ≡ fd_max)
        × Sound w'
        × ((k : Key) → refs k w' ≡ ext k)
  unfolding proc_fd_close_all
  proc_fd_close_all-gives closes ext {t} {w} o =
      let c = close_slots-Closed closes t {w = w} o.managed (λ k. omega (arith, o.owns k)) in
      (
        c.number,
        c.emptied,
        c.size ∙ o.size,
        c.sound o.sound,
        λ k. omega (arith, c.given k, o.owns k),
      )
