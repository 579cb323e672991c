-- ===== src/Kmalloc/Records.antt =====
-- The table of large blocks of kernel/kmalloc.c: its searches and its sums.
use native.Mathlib.Decide.{ℕ_discrete}
use mathlib.Core.Path.{subst}
use skez_os.Prelude.{
  ℕ, zero, suc, ◌+◌, ◌≤◌, ◌<◌, ◌≡◌, ◌≢◌, refl, sym, ap, ◌∙◌, inl, inr, Bool, true, false, ◌||◌,
  Option, none, some, List, [], ◌∷◌, arith, ltb, ◌==◌, if◌then◌else◌, length, get_or, set,
  get_or-set_self, get_or-set_ne, Bool-cases, ltb→lt, ==_iff,
}
use skez_os.Kmalloc.{
  LargeAlloc, no_alloc, find_index, best_from, kmalloc_find_best_free_large_record,
}

abbrev pub at : List LargeAlloc → ℕ → LargeAlloc
at rs i = get_or rs i no_alloc

-- A search finds a record that passes, or none passes.
abbrev pub Search : (LargeAlloc → Bool) → ℕ → List LargeAlloc → Option ℕ → Type 0
Search test b rs none = (k : ℕ) → k < length rs → test (at rs k) ≡ false
Search test b rs (some i) = (k : ℕ) × (i ≡ b + k) × (k < length rs) × (test (at rs k) ≡ true)

Search-next :
    (test : LargeAlloc → Bool) (b : ℕ) (r : LargeAlloc) (rs : List LargeAlloc) (o : Option ℕ)
    → test r ≡ false
    → Search test (b + 1) rs o
    → Search test b (r ∷ rs) o
Search-next test b r rs none e h = go
  where
    go : (k : ℕ) → k < suc (length rs) → test (at (r ∷ rs) k) ≡ false
    go zero lt = e
    go (suc k) lt = h k (omega arith)
Search-next test b r rs (some i) e (k, same, lt, passes) = (suc k, omega arith, omega arith, passes)

pub find_index-Search :
    (test : LargeAlloc → Bool) (b : ℕ) (rs : List LargeAlloc)
    → Search test b rs (find_index test b rs)
unfolding find_index
find_index-Search test b [] = λ k lt. absurd (omega arith)
find_index-Search test b (r ∷ rs) = elim (Bool-cases (test r)) [
  | inl e ↦ rw (e, find_index) (0, omega arith, omega arith, e)
  | inr e ↦
      rw (e, find_index)
        (Search-next test b r rs (find_index test (b + 1) rs) e (find_index-Search test (b + 1) rs))
]

-- The search from the first record.
pub find_index-some :
    (test : LargeAlloc → Bool) (rs : List LargeAlloc) {i : ℕ}
    → find_index test 0 rs ≡ some i
    → (i < length rs) × (test (at rs i) ≡ true)
find_index-some test rs {i} e =
    let h : Search test 0 rs (some i) = subst (Search test 0 rs) e (find_index-Search test 0 rs) in
    let same : h.0 ≡ i = omega (arith, h.1) in
    (omega (arith, h.2, same), ap (λ k. test (at rs k)) (sym same) ∙ h.3)

pub find_index-none :
    (test : LargeAlloc → Bool) (rs : List LargeAlloc)
    → find_index test 0 rs ≡ none
    → Search test 0 rs none
find_index-none test rs e = subst (Search test 0 rs) e (find_index-Search test 0 rs)

-- A record that a request of `size` bytes may reuse.
abbrev pub Reusable : ℕ → LargeAlloc → Type 0
Reusable size r = (r.size ≢ 0) × (r.in_use ≡ false) × (size ≤ r.size)

-- The best of the records `all` up to index `i`.
abbrev Best : ℕ → List LargeAlloc → ℕ → Option (ℕ × ℕ) → Type 0
Best size all i none = (k : ℕ) → k < i → ¬ Reusable size (at all k)
Best size all i (some (j, s)) =
    (j < i)
    × ((at all j).size ≡ s)
    × Reusable size (at all j)
    × ((k : ℕ) → k < i → Reusable size (at all k) → s ≤ (at all k).size)

-- A statement on the numbers below `i + 1`.
one_more : (P : ℕ → Type 0) (i : ℕ) → ((k : ℕ) → k < i → P k) → P i → (k : ℕ) → k < i + 1 → P k
one_more P i below here k lt = elim (ℕ_discrete k i) [
  | yes e ↦ subst P (sym e) here
  | no ne ↦ below k (omega arith)
]

module _ (size : ℕ) (all : List LargeAlloc) where
  abbrev passed_over : LargeAlloc → Bool
  passed_over r = (r.size == 0) || r.in_use || ltb r.size size

  passed_over-true : (r : LargeAlloc) → passed_over r ≡ true → ¬ Reusable size r
  passed_over-true r e u = ground arith

  passed_over-false : (r : LargeAlloc) → passed_over r ≡ false → Reusable size r
  passed_over-false r e = ground arith

  abbrev pick : Option (ℕ × ℕ) → ℕ → LargeAlloc → Option (ℕ × ℕ)
  pick best i r = if passed_over r then best else elim best [
    | none ↦ some (i, r.size)
    | some (j, s) ↦ if ltb r.size s then some (i, r.size) else some (j, s)
  ]

  keep-Best :
      (o : Option (ℕ × ℕ)) (i : ℕ)
      → ¬ Reusable size (at all i)
      → Best size all i o
      → Best size all (i + 1) o
  keep-Best none i no_use h = one_more (λ k. ¬ Reusable size (at all k)) i h no_use
  keep-Best (some (j, s)) i no_use (lt, same, fits, least) = (
    omega arith,
    same,
    fits,
    one_more (λ k. Reusable size (at all k) → s ≤ (at all k).size) i least (λ u. absurd (no_use u)),
  )

  new-Best :
      (o : Option (ℕ × ℕ)) (i : ℕ)
      → Reusable size (at all i)
      → Best size all i o
      → Best size all (i + 1) (elim o [
        | none ↦ some (i, (at all i).size)
        | some (j, s) ↦ if ltb (at all i).size s then some (i, (at all i).size) else some (j, s)
      ])
  new-Best none i u h = (
    omega arith,
    refl,
    u,
    one_more (λ k. Reusable size (at all k) → (at all i).size ≤ (at all k).size) i
        (λ k lt v. absurd (h k lt v)) (λ v. omega arith),
  )
  new-Best (some (j, s)) i u (lt, same, fits, least) = elim (Bool-cases (ltb (at all i).size s)) [
    | inl e ↦ rw e (
      omega arith,
      refl,
      u,
      one_more (λ k. Reusable size (at all k) → (at all i).size ≤ (at all k).size) i
          (λ k lt v. omega (arith, least k lt v, ltb→lt _ _ e)) (λ v. omega arith),
    )
    | inr e ↦ rw e (
      omega arith,
      same,
      fits,
      one_more (λ k. Reusable size (at all k) → s ≤ (at all k).size) i least (λ v. ground arith),
    )
  ]

  pick-Best :
      (o : Option (ℕ × ℕ)) (i : ℕ) → Best size all i o → Best size all (i + 1) (pick o i (at all i))
  pick-Best o i h = elim (Bool-cases (passed_over (at all i))) [
    | inl e ↦ rw e (keep-Best o i (passed_over-true (at all i) e) h)
    | inr e ↦ rw e (new-Best o i (passed_over-false (at all i) e) h)
  ]

  best_from-Best :
      (rs : List LargeAlloc) (i : ℕ) (o : Option (ℕ × ℕ))
      → ((k : ℕ) → at all (i + k) ≡ at rs k)
      → Best size all i o
      → Best size all (i + length rs) (best_from size o i rs)
  unfolding best_from
  best_from-Best [] i o same h = let end : i + 0 ≡ i = omega arith in rw end h
  best_from-Best (r ∷ rs) i o same h =
      let here : at all i ≡ r = ap (at all) (omega arith) ∙ same 0 in
      let end : i + suc (length rs) ≡ i + 1 + length rs = omega arith in
      rw end (
        best_from-Best rs (i + 1) (pick o i r) (λ k. ap (at all) (omega arith) ∙ same (suc k))
          (subst (λ q. Best size all (i + 1) (pick o i q)) here (pick-Best o i h)))

  -- `kmalloc_find_best_free_large_record` finds the smallest free record that is large enough, if
  -- there is one.
  abbrev pub BestFree : Option ℕ → Type 0
  BestFree none = (k : ℕ) → k < length all → ¬ Reusable size (at all k)
  BestFree (some i) =
      (i < length all)
      × Reusable size (at all i)
      × ((k : ℕ) → k < length all → Reusable size (at all k) → (at all i).size ≤ (at all k).size)

  -- In any table, `kmalloc_find_best_free_large_record` finds a record that is free and large enough
  -- and has the least size of those, or it finds none and there is none.
  pub kmalloc_find_best_free_large_record-BestFree :
      BestFree (kmalloc_find_best_free_large_record size all)
  unfolding kmalloc_find_best_free_large_record
  kmalloc_find_best_free_large_record-BestFree = go (best_from size none 0 all) found
    where
      found : Best size all (length all) (best_from size none 0 all)
      found =
          let end : length all ≡ 0 + length all = omega arith in
          rw end (
            best_from-Best all 0 none (λ k. ap (at all) (omega arith))
              (λ k lt. absurd (omega arith)))

      go :
          (o : Option (ℕ × ℕ))
          → Best size all (length all) o
          → BestFree (elim o [ none ↦ none | some (i, s) ↦ some i ])
      go none h = h
      go (some (i, s)) (lt, same, fits, least) =
          (lt, fits, λ k l u. omega (arith, same, least k l u))

-- Sums over the table.
abbrev pub total : List LargeAlloc → ℕ
total [] = 0
total (r ∷ rs) = r.size + total rs

abbrev pub used_size : LargeAlloc → ℕ
used_size r = if r.in_use then r.size else 0

abbrev pub total_used : List LargeAlloc → ℕ
total_used [] = 0
total_used (r ∷ rs) = used_size r + total_used rs

pub total-set :
    (rs : List LargeAlloc) (i : ℕ) (r : LargeAlloc)
    → i < length rs
    → total (set rs i r) + (at rs i).size ≡ total rs + r.size
total-set [] i r lt = absurd (omega arith)
total-set (x ∷ rs) zero r lt = omega arith
total-set (x ∷ rs) (suc i) r lt = omega (arith, total-set rs i r (omega arith))

pub total_used-set :
    (rs : List LargeAlloc) (i : ℕ) (r : LargeAlloc)
    → i < length rs
    → total_used (set rs i r) + used_size (at rs i) ≡ total_used rs + used_size r
total_used-set [] i r lt = absurd (omega arith)
total_used-set (x ∷ rs) zero r lt = omega arith
total_used-set (x ∷ rs) (suc i) r lt = omega (arith, total_used-set rs i r (omega arith))

pub total_used-le : (rs : List LargeAlloc) → total_used rs ≤ total rs
total_used-le [] = omega arith
total_used-le (r ∷ rs) = ground (arith, total_used-le rs)

pub size-le-total : (rs : List LargeAlloc) (i : ℕ) → (at rs i).size ≤ total rs
size-le-total [] i = omega arith
size-le-total (r ∷ rs) zero = omega arith
size-le-total (r ∷ rs) (suc i) = omega (arith, size-le-total rs i)

pub used_size-le-total : (rs : List LargeAlloc) (i : ℕ) → used_size (at rs i) ≤ total_used rs
used_size-le-total [] i = omega arith
used_size-le-total (r ∷ rs) zero = omega arith
used_size-le-total (r ∷ rs) (suc i) = omega (arith, used_size-le-total rs i)

-- A record that was written, and the others.
pub at-set :
    (rs : List LargeAlloc) (i j : ℕ) (r : LargeAlloc)
    → i < length rs
    → at (set rs i r) j ≡ (if j == i then r else at rs j)
at-set rs i j r lt = elim (ℕ_discrete j i) [
  | yes e ↦ rw (e, (==_iff i i).1 refl) (get_or-set_self rs i r no_alloc lt)
  | no ne ↦
      let other : (j == i) ≡ false = ground arith in
      rw other (get_or-set_ne rs i j r no_alloc (λ e. ne (sym e)))
]
