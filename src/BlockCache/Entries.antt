-- ===== src/BlockCache/Entries.antt =====
-- The entries of kernel/block_cache.c: the search, and the invariant that they agree with the device.
use mathlib.Core.Path.{subst}
use native.Mathlib.Decide.{ℕ_discrete, dec_lt}
use skez_os.Prelude.{
  ℕ, zero, suc, ◌+◌, ◌%◌, ◌≤◌, ◌<◌, ◌≡◌, ◌≢◌, refl, sym, ap, ◌∙◌, inl, inr, true, false, ◌&&◌,
  Option, none, some, List, [], ◌∷◌, arith, ◌==◌, ==_iff, if◌then◌else◌, length, length-set, get_or,
  set, get_or-set_self, get_or-set_ne, Bool-cases, Option-cases,
}
use skez_os.BlockDevice.{Sector, BlockDevice, Driver}
use skez_os.BlockCache.{
  Entry, Cache, entry_count, empty_entry, entry_at, find_entry, block_cache_store_locked,
}

abbrev pub Caches : ℕ → Entry → Type 0
Caches lba e = (e.valid ≡ true) × (e.lba ≡ lba)

abbrev Search : ℕ → ℕ → List Entry → Option ℕ → Type 0
Search lba b es none = (k : ℕ) → k < length es → ¬ Caches lba (entry_at es k)
Search lba b es (some i) = (k : ℕ) × (i ≡ b + k) × (k < length es) × Caches lba (entry_at es k)

Search-next :
    (lba b : ℕ) (e : Entry) (es : List Entry) (o : Option ℕ)
    → ¬ Caches lba e
    → Search lba (b + 1) es o
    → Search lba b (e ∷ es) o
Search-next lba b e es none miss h = go
  where
    go : (k : ℕ) → k < suc (length es) → ¬ Caches lba (entry_at (e ∷ es) k)
    go zero lt = miss
    go (suc k) lt = h k (omega arith)
Search-next lba b e es (some i) miss (k, same, lt, hit) = (suc k, omega arith, omega arith, hit)

find_entry-Search : (lba b : ℕ) (es : List Entry) → Search lba b es (find_entry lba b es)
unfolding find_entry
find_entry-Search lba b [] = λ k lt. absurd (omega arith)
find_entry-Search lba b (e ∷ es) = elim (Bool-cases (e.valid && (e.lba == lba))) [
  | inl t ↦ rw (t, find_entry) (0, omega arith, omega arith, ground (arith, t))
  | inr t ↦
      rw (t, find_entry)
        (Search-next lba b e es (find_entry lba (b + 1) es) (λ hit. ground arith)
          (find_entry-Search lba (b + 1) es))
]

pub find_entry-some :
    (lba : ℕ) (es : List Entry) {i : ℕ}
    → find_entry lba 0 es ≡ some i
    → (i < length es) × Caches lba (entry_at es i)
find_entry-some lba es {i} e =
    let h : Search lba 0 es (some i) = subst (Search lba 0 es) e (find_entry-Search lba 0 es) in
    let same : h.0 ≡ i = omega (arith, h.1) in
    (omega (arith, h.2, same), subst (λ k. Caches lba (entry_at es k)) same h.3)

get_or-past {ℓ} : {A : Type ℓ} (xs : List A) (i : ℕ) (d : A) → length xs ≤ i → get_or xs i d ≡ d
get_or-past [] i d h = refl
get_or-past (x ∷ xs) zero d h = absurd (omega arith)
get_or-past (x ∷ xs) (suc i) d h = get_or-past xs i d (omega arith)

pub find_entry-none :
    (lba : ℕ) (es : List Entry)
    → find_entry lba 0 es ≡ none
    → (k : ℕ) → ¬ Caches lba (entry_at es k)
find_entry-none lba es e k = elim (dec_lt k (length es)) [
  | yes lt ↦ (subst (Search lba 0 es) e (find_entry-Search lba 0 es)) k lt
  | no past ↦ λ hit.
      let out : entry_at es k ≡ empty_entry = get_or-past es k empty_entry (omega arith) in
      let invalid : (entry_at es k).valid ≡ false = ap (λ (x : Entry). x.valid) out in
      let used : (entry_at es k).valid ≡ true = hit.0 in cc
]

pub entry_at-set :
    (es : List Entry) (i j : ℕ) (e : Entry)
    → i < length es
    → entry_at (set es i e) j ≡ (if j == i then e else entry_at es j)
entry_at-set es i j e lt = elim (ℕ_discrete j i) [
  | yes s ↦ rw (s, (==_iff i i).1 refl) (get_or-set_self es i e empty_entry lt)
  | no ne ↦
      let other : (j == i) ≡ false = ground arith in
      rw other (get_or-set_ne es i j e empty_entry (λ s. ne (sym s)))
]

module _ {D : Type 0} {dev : BlockDevice D} (drv : Driver dev) where
  -- The valid entries of the sectors in `Fresh` hold what the device holds, and no sector has two.
  pub record CoherentOn (Fresh : ℕ → Type 0) (c : Cache D) (d : D) : Type 0 where
    pub bound : c.device ≡ some dev
    pub length_entries : length c.entries ≡ entry_count
    pub victim_in : c.next_victim < entry_count
    pub fresh :
        (i : ℕ)
        → (entry_at c.entries i).valid ≡ true
        → Fresh (entry_at c.entries i).lba
        → (entry_at c.entries i).bytes ≡ drv.sector (entry_at c.entries i).lba d
    pub unique :
        (i j : ℕ)
        → (entry_at c.entries i).valid ≡ true
        → (entry_at c.entries j).valid ≡ true
        → (entry_at c.entries i).lba ≡ (entry_at c.entries j).lba
        → i ≡ j

  abbrev pub Coherent : Cache D → D → Type 0
  Coherent = CoherentOn (λ _. Unit {0})

  -- The hardware may change where the entries need not agree.
  pub CoherentOn-mono :
      {Fresh Fresh' : ℕ → Type 0} {c : Cache D} {d d' : D}
      → CoherentOn Fresh c d
      → ((k : ℕ) → Fresh' k → Fresh k × (drv.sector k d' ≡ drv.sector k d))
      → CoherentOn Fresh' c d'
  CoherentOn-mono {c} co same = record {
    bound = co.bound;
    length_entries = co.length_entries;
    victim_in = co.victim_in;
    fresh = λ i valid f.
        co.fresh i valid (same (entry_at c.entries i).lba f).0
        ∙ sym (same (entry_at c.entries i).lba f).1;
    unique = co.unique;
  }

  module _ {lba : ℕ} {x : Sector} {c : Cache D} {d : D} (co : CoherentOn (λ k. k ≢ lba) c d)
      (holds : drv.sector lba d ≡ x) where
    store_hit :
        {i : ℕ}
        → find_entry lba 0 c.entries ≡ some i
        → block_cache_store_locked lba x c
          ≡ record c { entries = set c.entries i (record (entry_at c.entries i) { bytes = x }) }
    unfolding block_cache_store_locked
    store_hit e = rw (e, block_cache_store_locked)

    store_miss :
        find_entry lba 0 c.entries ≡ none
        → block_cache_store_locked lba x c ≡ record c {
          next_victim = (c.next_victim + 1) % entry_count;
          entries = set c.entries c.next_victim (record { lba = lba; bytes = x; valid = true });
        }
    unfolding block_cache_store_locked
    store_miss e = rw (e, block_cache_store_locked)

    -- Storing what the device holds of a sector makes the cache agree with the device.
    pub store-Coherent : Coherent (block_cache_store_locked lba x c) d
    store-Coherent = elim (Option-cases (find_entry lba 0 c.entries)) [
      | inl e ↦
          let v : Entry = record { lba = lba; bytes = x; valid = true } in
          let lt : c.next_victim < length c.entries =
            omega (arith, co.length_entries, co.victim_in) in
          rw (store_miss e) (record {
            bound = co.bound;
            length_entries = length-set c.entries c.next_victim v ∙ co.length_entries;
            victim_in = omega arith;
            fresh = λ i. ground (
              arith,
              entry_at-set c.entries c.next_victim i v lt,
              co.fresh i,
              find_entry-none lba c.entries e i,
            );
            unique = λ i j. ground (
              arith,
              entry_at-set c.entries c.next_victim i v lt,
              entry_at-set c.entries c.next_victim j v lt,
              co.unique i j,
              find_entry-none lba c.entries e i,
              find_entry-none lba c.entries e j,
            );
          })
      | inr (n, e) ↦
          let v : Entry = record (entry_at c.entries n) { bytes = x } in
          let (lt, hit) = find_entry-some lba c.entries e in
          rw (store_hit e) (record {
            bound = co.bound;
            length_entries = length-set c.entries n v ∙ co.length_entries;
            victim_in = co.victim_in;
            fresh = λ i. ground (arith, entry_at-set c.entries n i v lt, co.fresh i, co.unique n i);
            unique = λ i j. ground (
              arith,
              entry_at-set c.entries n i v lt,
              entry_at-set c.entries n j v lt,
              co.unique i j,
            );
          })
    ]
