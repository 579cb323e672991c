-- ===== src/Kmalloc/Calls.antt =====
-- Whole calls of `kmalloc` (kernel/kmalloc.c).
use skez_os.Prelude.{
  ℕ, ◌+◌, ◌-◌, ◌%◌, ◌^◌, ◌≤◌, ◌<◌, ◌≡◌, ◌⊎◌, refl, inl, inr, Bool, true, false, ◌||◌, Option, none,
  some, arith, ltb, leb, ◌==◌, length, Bool-cases, Option-cases, leb→le,
}
use mathlib.Core.Path.{subst}
use skez_os.Kmalloc.{
  Heap, page_size, small_max, sub32, align_up_size, kmalloc_find_unused_large_record,
  kmalloc_find_best_free_large_record, reuse_record, take_pages, kmalloc_large, kmalloc,
}
use skez_os.Kmalloc.Records.{
  at, BestFree, kmalloc_find_best_free_large_record-BestFree, find_index-some,
}
use skez_os.Kmalloc.Table.{IsHeap}
use skez_os.Kmalloc.Alloc.{
  Granted, kmalloc_small-IsHeap, kmalloc_small-Granted, reuse-IsHeap, reuse-Granted,
  take_pages-IsHeap, take_pages-Granted, large-le-top,
}

module _ (size : ℕ) (h : Heap) where
  abbrev pub rounded : ℕ
  rounded = align_up_size size page_size

  abbrev pub best : Option ℕ
  best = kmalloc_find_best_free_large_record rounded h.large_allocs

  abbrev pub no_room : Bool
  no_room = ltb h.large_ptr h.small_ptr || ltb (sub32 h.large_ptr h.small_ptr) rounded

  large_reuse : {i : ℕ} → best ≡ some i → kmalloc_large size h ≡ reuse_record i h
  unfolding kmalloc_large
  large_reuse e = rw (e, kmalloc_large)

  large_full : best ≡ none → no_room ≡ true → kmalloc_large size h ≡ (0, h)
  unfolding kmalloc_large
  large_full e f = rw (e, kmalloc_large, f)

  large_no_record :
      best ≡ none
      → kmalloc_find_unused_large_record h.large_allocs ≡ none
      → kmalloc_large size h ≡ (0, h)
  unfolding kmalloc_large
  large_no_record e f = ground arith

  pub large_take :
      {i : ℕ}
      → best ≡ none
      → no_room ≡ false
      → kmalloc_find_unused_large_record h.large_allocs ≡ some i
      → kmalloc_large size h ≡ take_pages rounded i h
  unfolding kmalloc_large
  large_take e f g = rw (e, kmalloc_large, f, g)

  pub unused_record :
      {i : ℕ}
      → kmalloc_find_unused_large_record h.large_allocs ≡ some i
      → (i < length h.large_allocs) × ((at h.large_allocs i).size ≡ 0)
  unfolding kmalloc_find_unused_large_record
  unused_record {i} e =
      let found = find_index-some (λ r. r.size == 0) h.large_allocs e in
      (found.0, ground (arith, found.1))

  pub best_record : {i : ℕ} → best ≡ some i → BestFree rounded h.large_allocs (some i)
  best_record e =
      subst (BestFree rounded h.large_allocs) e
        (kmalloc_find_best_free_large_record-BestFree rounded h.large_allocs)

  -- What a call leaves: the invariant, and a block unless it failed.
  record Outcome (out : ℕ × Heap) : Type 0 where
    invariant : IsHeap out.1
    block : 0 < size → size ≤ 2 ^ 32 - page_size → (out.0 ≡ 0) ⊎ Granted size h out.0

  failed : IsHeap h → Outcome (0, h)
  failed v = record { invariant = v; block = λ pos small. inl refl }

  kmalloc_large-Outcome : IsHeap h → size < 2 ^ 32 → Outcome (kmalloc_large size h)
  kmalloc_large-Outcome v lt = elim (Option-cases best) [
    | inr (i, e) ↦ rw (large_reuse e) (record {
      invariant = reuse-IsHeap v rounded i (best_record e);
      block = λ pos small. inr (reuse-Granted v rounded size i (omega arith) pos (best_record e));
    })
    | inl e ↦ elim (Bool-cases no_room) [
      | inl f ↦ rw (large_full e f) (failed v)
      | inr f ↦ elim (Option-cases (kmalloc_find_unused_large_record h.large_allocs)) [
        | inl g ↦ rw (large_no_record e g) (failed v)
        | inr (i, g) ↦
            let room : h.small_ptr + rounded ≤ h.large_ptr =
              ground (arith, f, v.below, large-le-top v, v.in_32_bits) in
            let pages : rounded % page_size ≡ 0 = omega arith in
            let u = unused_record g in
            rw (large_take e f g) (record {
              invariant = take_pages-IsHeap v rounded i pages room u.0 u.1;
              block = λ pos small.
                  inr (take_pages-Granted v rounded i pages room u.0 u.1 size (omega arith));
            })
      ]
    ]
  ]

  kmalloc-Outcome : IsHeap h → size < 2 ^ 32 → Outcome (kmalloc size h)
  unfolding kmalloc
  kmalloc-Outcome v lt =
      elim (Bool-cases ((h.heap_base == 0) || (h.heap_end == 0) || (size == 0))) [
        | inl e ↦ rw e (failed v)
        | inr e ↦ elim (Bool-cases (leb size small_max)) [
          | inl s ↦
              rw (e, s)
                (record {
                  invariant = kmalloc_small-IsHeap v size (leb→le _ _ s);
                  block = λ pos small. kmalloc_small-Granted v size (leb→le _ _ s);
                })
          | inr l ↦ rw (e, l) (kmalloc_large-Outcome v lt)
        ]
      ]

-- From a well-formed heap, `kmalloc` of any 32-bit size leaves a well-formed heap: large blocks inside
-- the heap, on page bounds and apart, and both byte counts exact.
pub kmalloc-IsHeap : (size : ℕ) {h : Heap} → IsHeap h → size < 2 ^ 32 → IsHeap (kmalloc size h).1
kmalloc-IsHeap size {h} v lt = (kmalloc-Outcome size h v lt).invariant

-- From a well-formed heap, a request of 1 to 2^32 - 4096 bytes returns NULL, or a block that lies in
-- the heap, above every small block given out before, and apart from every large block in use.
pub kmalloc-Granted :
    (size : ℕ) {h : Heap}
    → IsHeap h
    → 0 < size
    → size ≤ 2 ^ 32 - page_size
    → ((kmalloc size h).0 ≡ 0) ⊎ Granted size h (kmalloc size h).0
kmalloc-Granted size {h} v pos small = (kmalloc-Outcome size h v (omega arith)).block pos small
