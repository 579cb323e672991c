-- ===== src/Fd/Place.antt =====
-- The search of `proc_fd_alloc` (kernel/proc_fd.c) for an unused slot.
use mathlib.Core.Path.{subst}
use skez_os.Prelude.{
  ℕ, zero, suc, ◌≤◌, ◌<◌, ◌≡◌, refl, ap, inl, inr, true, false, Option, none, some, [], ◌∷◌, arith,
  length, get_or, set, Bool-cases,
}
use skez_os.File.{Kfile}
use skez_os.Fd.{Slot, Table, unused, in_slot, place}

-- The slot `fd` was the first unused one from `fd_min` on, and only it changed.
pub record Placed (fd_min : ℕ) (f : Kfile) (t : Table) (fd : ℕ) (t' : Table) : Type 0 where
  pub table : t' ≡ set t fd (in_slot f)
  pub free : (get_or t fd unused).in_use ≡ false
  pub in_table : fd < length t
  pub from : fd_min ≤ fd
  pub least : (i : ℕ) → fd_min ≤ i → i < fd → (get_or t i unused).in_use ≡ true

Placed-cons :
    (fd_min : ℕ) (f : Kfile) (s : Slot) {t t' : Table} {fd : ℕ}
    → Placed fd_min f t fd t'
    → Placed (suc fd_min) f (s ∷ t) (suc fd) (s ∷ t')
Placed-cons fd_min f s {t} {fd} p = record {
  table = ap (λ l. s ∷ l) p.table;
  free = p.free;
  in_table = omega (arith, p.in_table);
  from = omega (arith, p.from);
  least = λ i. go i;
}
  where
    go : (i : ℕ) → suc fd_min ≤ i → i < suc fd → (get_or (s ∷ t) i unused).in_use ≡ true
    go zero a b = absurd (omega arith)
    go (suc i) a b = p.least i (omega arith) (omega arith)

Placed-here :
    (f : Kfile) (s : Slot) (t : Table) → s.in_use ≡ false → Placed 0 f (s ∷ t) 0 (in_slot f ∷ t)
Placed-here f s t e = record {
  table = refl;
  free = e;
  in_table = omega arith;
  from = omega arith;
  least = λ i a b. absurd (omega arith);
}

Placed-past :
    (f : Kfile) (s : Slot) {t t' : Table} {fd : ℕ}
    → s.in_use ≡ true
    → Placed 0 f t fd t'
    → Placed 0 f (s ∷ t) (suc fd) (s ∷ t')
Placed-past f s {t} {fd} used p = record {
  table = ap (λ l. s ∷ l) p.table;
  free = p.free;
  in_table = omega (arith, p.in_table);
  from = omega arith;
  least = λ i. go i;
}
  where
    go : (i : ℕ) → 0 ≤ i → i < suc fd → (get_or (s ∷ t) i unused).in_use ≡ true
    go zero a b = used
    go (suc i) a b = p.least i (omega arith) (omega arith)

-- Every slot from `fd_min` on is in use.
abbrev pub NoneFree : ℕ → Table → Type 0
NoneFree fd_min t = (i : ℕ) → fd_min ≤ i → i < length t → (get_or t i unused).in_use ≡ true

NoneFree-skip :
    (fd_min : ℕ) (s : Slot) (t : Table) → NoneFree fd_min t → NoneFree (suc fd_min) (s ∷ t)
NoneFree-skip fd_min s t h zero a b = absurd (omega arith)
NoneFree-skip fd_min s t h (suc i) a b = h i (omega arith) (omega arith)

NoneFree-used : (s : Slot) (t : Table) → s.in_use ≡ true → NoneFree 0 t → NoneFree 0 (s ∷ t)
NoneFree-used s t used h zero a b = used
NoneFree-used s t used h (suc i) a b = h i (omega arith) (omega arith)

abbrev pub Search : ℕ → Kfile → Table → Option (ℕ × Table) → Type 0
Search fd_min f t none = NoneFree fd_min t
Search fd_min f t (some (fd, t')) = Placed fd_min f t fd t'

-- The search of `proc_fd_alloc` either puts the file in the first unused slot from `fd_min` on and
-- changes no other slot, or it fails and every slot from `fd_min` on is in use.
pub place_lem : (fd_min : ℕ) (f : Kfile) (t : Table) → Search fd_min f t (place fd_min f t)
unfolding place
place_lem fd_min f [] = λ i a b. absurd (omega arith)
place_lem (suc fd_min) f (s ∷ t) = go (place fd_min f t) (place_lem fd_min f t)
  where
    go :
        (o : Option (ℕ × Table))
        → Search fd_min f t o
        → Search
            (suc fd_min)
            f
            (s ∷ t)
            (elim o [ none ↦ none | some (fd, t') ↦ some (suc fd, s ∷ t') ])
    go none h = NoneFree-skip fd_min s t h
    go (some (fd, t')) p = Placed-cons fd_min f s p
place_lem zero f (s ∷ t) = elim (Bool-cases s.in_use) [
  | inl used ↦ simp used (go used (place 0 f t) (place_lem 0 f t))
  | inr e ↦ simp e (Placed-here f s t e)
]
  where
    go :
        s.in_use ≡ true
        → (o : Option (ℕ × Table)) → Search 0 f t o
        → Search 0 f (s ∷ t) (elim o [ none ↦ none | some (fd, t') ↦ some (suc fd, s ∷ t') ])
    go used none h = NoneFree-used s t used h
    go used (some (fd, t')) p = Placed-past f s used p

pub place-Placed :
    (fd_min : ℕ) (f : Kfile) (t : Table) {fd : ℕ} {t' : Table}
    → place fd_min f t ≡ some (fd, t')
    → Placed fd_min f t fd t'
place-Placed fd_min f t e = subst (Search fd_min f t) e (place_lem fd_min f t)

pub place-NoneFree :
    (fd_min : ℕ) (f : Kfile) (t : Table) → place fd_min f t ≡ none → NoneFree fd_min t
place-NoneFree fd_min f t e = subst (Search fd_min f t) e (place_lem fd_min f t)
