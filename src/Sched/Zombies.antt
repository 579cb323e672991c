-- ===== src/Sched/Zombies.antt =====
-- The search of `sched_find_matching_zombie_child` in kernel/sched.c.
use mathlib.Core.Path.{subst}
use skez_os.Prelude.{
  ℕ, zero, suc, ◌<◌, ◌≡◌, refl, sym, inl, inr, Bool, true, false, Option, none, some, List, [], ◌∷◌,
  arith, length, get_or, Bool-cases,
}
use skez_os.Sched.{task_zombie, Task, zero_task, in_state}
use skez_os.Sched.Children.{is_child, find_zombie}

module _ (p target : ℕ) where
  abbrev pub nth : List Task → ℕ → Task
  nth ts k = get_or ts k zero_task

  -- A zombie among the children, or none; and whether there is a child.
  pub record Sought (ts : List Task) (found : Option ℕ × Bool) : Type 0 where
    pub zombie :
        (z : ℕ)
        → found.0 ≡ some z
        → (z < length ts)
          × (is_child p target (nth ts z) ≡ true)
          × (in_state (nth ts z) task_zombie ≡ true)
    pub no_zombie :
        found.0 ≡ none
        → (k : ℕ) → k < length ts
        → is_child p target (nth ts k) ≡ true
        → in_state (nth ts k) task_zombie ≡ false
    pub child : found.1 ≡ true → (k : ℕ) × (k < length ts) × (is_child p target (nth ts k) ≡ true)
    pub no_child : found.1 ≡ false → (k : ℕ) → k < length ts → is_child p target (nth ts k) ≡ false

  abbrev Hit : List Task → ℕ → Type 0
  Hit ts z =
      (z < length ts)
      × (is_child p target (nth ts z) ≡ true)
      × (in_state (nth ts z) task_zombie ≡ true)

  abbrev later : Option ℕ → Option ℕ
  later o = elim o [ none ↦ none | some i ↦ some (suc i) ]

  later-some : (o : Option ℕ) (z : ℕ) → later o ≡ some z → (i : ℕ) × (o ≡ some i) × (z ≡ suc i)
  later-some none z e = cc
  later-some (some i) z e = (i, refl, ground (arith, e))

  later-none : (o : Option ℕ) → later o ≡ none → o ≡ none
  later-none none e = refl
  later-none (some i) e = cc

  module _ (t : Task) (ts : List Task) (found : Option ℕ × Bool) (h : Sought ts found) where
    Sought-skip : is_child p target t ≡ false → Sought (t ∷ ts) (later found.0, found.1)
    Sought-skip e = record {
      zombie = λ z ez.
          let (i, ei, same) = later-some found.0 z ez in
          let (lt, is, zom) = h.zombie i ei in
          subst (Hit (t ∷ ts)) (sym same) (omega (arith, lt), is, zom);
      no_zombie = λ none_found. under (h.no_zombie (later-none found.0 none_found));
      child = λ c. let (k, lt, is) = h.child c in (suc k, omega (arith, lt), is);
      no_child = λ c. none_under (h.no_child c);
    }
      where
        under :
            ((k : ℕ)
              → k < length ts
              → is_child p target (nth ts k) ≡ true
              → in_state (nth ts k) task_zombie ≡ false)
            → (k : ℕ) → k < suc (length ts)
            → is_child p target (nth (t ∷ ts) k) ≡ true
            → in_state (nth (t ∷ ts) k) task_zombie ≡ false
        under g zero lt is = absurd (ground (arith, e, is))
        under g (suc k) lt is = g k (omega (arith, lt)) is

        none_under :
            ((k : ℕ) → k < length ts → is_child p target (nth ts k) ≡ false)
            → (k : ℕ) → k < suc (length ts)
            → is_child p target (nth (t ∷ ts) k) ≡ false
        none_under g zero lt = e
        none_under g (suc k) lt = g k (omega (arith, lt))

    Sought-live :
        is_child p target t ≡ true
        → in_state t task_zombie ≡ false
        → Sought (t ∷ ts) (later found.0, true)
    Sought-live e live = record {
      zombie = λ z ez.
          let (i, ei, same) = later-some found.0 z ez in
          let (lt, is, zom) = h.zombie i ei in
          subst (Hit (t ∷ ts)) (sym same) (omega (arith, lt), is, zom);
      no_zombie = λ none_found. under (h.no_zombie (later-none found.0 none_found));
      child = λ c. (0, omega arith, e);
      no_child = λ c. cc;
    }
      where
        under :
            ((k : ℕ)
              → k < length ts
              → is_child p target (nth ts k) ≡ true
              → in_state (nth ts k) task_zombie ≡ false)
            → (k : ℕ) → k < suc (length ts)
            → is_child p target (nth (t ∷ ts) k) ≡ true
            → in_state (nth (t ∷ ts) k) task_zombie ≡ false
        under g zero lt is = live
        under g (suc k) lt is = g k (omega (arith, lt)) is

  Sought-zombie :
      (t : Task) (ts : List Task)
      → is_child p target t ≡ true
      → in_state t task_zombie ≡ true
      → Sought (t ∷ ts) (some 0, true)
  Sought-zombie t ts e z = record {
    zombie = λ i ei.
        let same : 0 ≡ i = ground (arith, ei) in subst (Hit (t ∷ ts)) same (omega arith, e, z);
    no_zombie = λ none_found. cc;
    child = λ c. (0, omega arith, e);
    no_child = λ c. cc;
  }

  pub find_zombie-Sought : (ts : List Task) → Sought ts (find_zombie p target ts)
  unfolding find_zombie
  find_zombie-Sought [] = record {
    zombie = λ z e. cc;
    no_zombie = λ e k lt. absurd (omega (arith, lt));
    child = λ e. cc;
    no_child = λ e k lt. absurd (omega (arith, lt));
  }
  find_zombie-Sought (t ∷ ts) =
      let rest : Option ℕ × Bool = find_zombie p target ts in
      let h : Sought ts rest = find_zombie-Sought ts in
      elim (Bool-cases (is_child p target t)) [
        | inr e ↦ rw (e, find_zombie) (Sought-skip t ts rest h e)
        | inl e ↦ elim (Bool-cases (in_state t task_zombie)) [
          | inl z ↦ rw (e, z, find_zombie) (Sought-zombie t ts e z)
          | inr z ↦ rw (e, z, find_zombie) (Sought-live t ts rest h e z)
        ]
      ]
