-- ===== src/Kmalloc/Free.antt =====
-- `kfree` of kernel/kmalloc.c, and the reclaiming of free pages at the top.
use skez_os.Prelude.{
  ℕ, zero, suc, ◌+◌, ◌-◌, ◌%◌, ◌≤◌, ◌<◌, ◌≡◌, ◌≢◌, ◌⊎◌, refl, ◌∙◌, inl, inr, Bool, true, false, not,
  ◌&&◌, ◌||◌, Option, none, some, List, [], ◌∷◌, arith, leb, ◌==◌, if◌then◌else◌, length,
  length-set, set, Bool-cases, Option-cases,
}
use skez_os.Kmalloc.{
  LargeAlloc, no_alloc, Heap, page_size, add32, bool_eq, find_index, kmalloc_find_large_record,
  reclaim_rounds, kmalloc_try_reclaim_large_top, kfree,
}
use skez_os.Kmalloc.Records.{
  at, used_size, total_used-set, used_size-le-total, find_index-some, find_index-none,
}
use skez_os.Kmalloc.Table.{IsHeap, same_block-IsTable, drop_block-IsTable}

-- A free block at the top, as the reclaiming loop looks for it.
abbrev pub free_at_top : Heap → LargeAlloc → Bool
free_at_top h r = not (r.size == 0) && not r.in_use && (r.ptr == h.large_ptr)

abbrev pub next_reclaimed : Heap → Option ℕ
next_reclaimed h = find_index (free_at_top h) 0 h.large_allocs

abbrev dropped : Heap → ℕ → Heap
dropped h i = record h {
  large_ptr = add32 h.large_ptr (at h.large_allocs i).size;
  large_allocs = set h.large_allocs i no_alloc;
}

reclaim_step :
    (n : ℕ) (h : Heap) {i : ℕ}
    → next_reclaimed h ≡ some i
    → reclaim_rounds (suc n) h ≡ reclaim_rounds n (dropped h i)
unfolding reclaim_rounds
reclaim_step n h e = rw (e, reclaim_rounds)

reclaim_stop : (n : ℕ) (h : Heap) → next_reclaimed h ≡ none → reclaim_rounds (suc n) h ≡ h
unfolding reclaim_rounds
reclaim_stop n h e = rw (e, reclaim_rounds)

dropped-IsHeap : {h : Heap} → IsHeap h → {i : ℕ} → next_reclaimed h ≡ some i → IsHeap (dropped h i)
dropped-IsHeap {h} v {i} e =
    let (lt, passes) = find_index-some (free_at_top h) h.large_allocs e in
    let some_block : (at h.large_allocs i).size ≢ 0 = ground (arith, passes) in
    let first : (at h.large_allocs i).ptr ≡ h.large_ptr = ground (arith, passes) in
    let free : used_size (at h.large_allocs i) ≡ 0 = ground (arith, passes) in
    let here = v.table.inside i some_block in
    let no_wrap : add32 h.large_ptr (at h.large_allocs i).size
        ≡ h.large_ptr + (at h.large_allocs i).size =
      omega (arith, here, first, v.in_32_bits) in
    record {
      based = v.based;
      in_32_bits = v.in_32_bits;
      base_le = v.base_le;
      below = omega (arith, no_wrap, v.below);
      aligned = omega (arith, no_wrap, here, v.aligned);
      length_allocs = length-set h.large_allocs i no_alloc ∙ v.length_allocs;
      table = rw no_wrap (drop_block-IsTable v.table i lt some_block first);
      small_counted = v.small_counted;
      large_counted =
          omega (arith, total_used-set h.large_allocs i no_alloc lt, free, v.large_counted);
    }

-- How many records hold a block.
abbrev count_blocks : List LargeAlloc → ℕ
count_blocks [] = 0
count_blocks (r ∷ rs) = (if r.size == 0 then 0 else 1) + count_blocks rs

count_blocks-le : (rs : List LargeAlloc) → count_blocks rs ≤ length rs
count_blocks-le [] = omega arith
count_blocks-le (r ∷ rs) = ground (arith, count_blocks-le rs)

count_blocks-set :
    (rs : List LargeAlloc) (i : ℕ)
    → i < length rs
    → (at rs i).size ≢ 0
    → count_blocks (set rs i no_alloc) + 1 ≡ count_blocks rs
count_blocks-set [] i lt ne = absurd (omega arith)
count_blocks-set (r ∷ rs) zero lt ne = ground arith
count_blocks-set (r ∷ rs) (suc i) lt ne = omega (arith, count_blocks-set rs i (omega arith) ne)

-- What the loop leaves.
record Reclaimed (h h' : Heap) : Type 0 where
  invariant : IsHeap h'
  nothing_left : next_reclaimed h' ≡ none
  same_use : h'.large_bytes_used ≡ h.large_bytes_used
  grown : h.large_ptr ≤ h'.large_ptr

reclaim_rounds-Reclaimed :
    (n : ℕ) {h : Heap}
    → IsHeap h
    → count_blocks h.large_allocs < n
    → Reclaimed h (reclaim_rounds n h)
reclaim_rounds-Reclaimed zero v lt = absurd (omega arith)
reclaim_rounds-Reclaimed (suc n) {h} v lt = elim (Option-cases (next_reclaimed h)) [
  | inl e ↦
      rw (reclaim_stop n h e)
        (record { invariant = v; nothing_left = e; same_use = refl; grown = omega arith })
  | inr (i, e) ↦
      let (in_table, passes) = find_index-some (free_at_top h) h.large_allocs e in
      let some_block : (at h.large_allocs i).size ≢ 0 = ground (arith, passes) in
      let first : (at h.large_allocs i).ptr ≡ h.large_ptr = ground (arith, passes) in
      let fewer = count_blocks-set h.large_allocs i in_table some_block in
      let rest = reclaim_rounds-Reclaimed n (dropped-IsHeap v e) (omega (arith, fewer)) in
      rw (reclaim_step n h e) (record {
        invariant = rest.invariant;
        nothing_left = rest.nothing_left;
        same_use = rest.same_use;
        grown = omega (arith, rest.grown, v.table.inside i some_block, first, v.in_32_bits);
      })
]

-- From a well-formed heap, `kmalloc_try_reclaim_large_top` leaves a well-formed heap with no free
-- block at the top and the same count of large bytes: the rounds that the model gives are enough.
pub kmalloc_try_reclaim_large_top-ends :
    {h : Heap}
    → IsHeap h
    → IsHeap (kmalloc_try_reclaim_large_top h)
      × (next_reclaimed (kmalloc_try_reclaim_large_top h) ≡ none)
      × ((kmalloc_try_reclaim_large_top h).large_bytes_used ≡ h.large_bytes_used)
unfolding kmalloc_try_reclaim_large_top
kmalloc_try_reclaim_large_top-ends {h} v =
    let r =
      reclaim_rounds-Reclaimed (length h.large_allocs + 1) v
        (omega (arith, count_blocks-le h.large_allocs)) in
    (r.invariant, r.nothing_left, r.same_use)

-- The record of a block in use at an address.
abbrev pub holds_ptr : ℕ → LargeAlloc → Bool
holds_ptr ptr r = not (r.size == 0) && (r.ptr == ptr) && bool_eq r.in_use true

abbrev released : Heap → ℕ → Heap
released h i = record h {
  large_bytes_used =
      if leb (at h.large_allocs i).size h.large_bytes_used
      then h.large_bytes_used - (at h.large_allocs i).size
      else 0;
  large_allocs = set h.large_allocs i (record (at h.large_allocs i) { in_use = false });
}

module _ (ptr : ℕ) (h : Heap) where
  -- An address that `kmalloc` never returned for a large block.
  abbrev pub Foreign : Type 0
  Foreign =
      (ptr ≡ 0)
      ⊎ (ptr % page_size ≢ 0)
      ⊎ ((k : ℕ) → k < length h.large_allocs → holds_ptr ptr (at h.large_allocs k) ≡ false)

  free_ignored : (ptr == 0) || not (ptr % page_size == 0) ≡ true → kfree ptr h ≡ h
  unfolding kfree
  free_ignored e = rw e

  free_unknown : kmalloc_find_large_record ptr true h.large_allocs ≡ none → kfree ptr h ≡ h
  unfolding kfree
  free_unknown e = ground arith

  free_known :
      {i : ℕ}
      → ((ptr == 0) || not (ptr % page_size == 0)) ≡ false
      → kmalloc_find_large_record ptr true h.large_allocs ≡ some i
      → kfree ptr h ≡ kmalloc_try_reclaim_large_top (released h i)
  unfolding kfree
  free_known e f = rw (e, f, kfree)

  found_record :
      {i : ℕ}
      → kmalloc_find_large_record ptr true h.large_allocs ≡ some i
      → (i < length h.large_allocs) × (holds_ptr ptr (at h.large_allocs i) ≡ true)
  unfolding kmalloc_find_large_record
  found_record e = find_index-some (holds_ptr ptr) h.large_allocs e

  not_found :
      kmalloc_find_large_record ptr true h.large_allocs ≡ none
      → (k : ℕ) → k < length h.large_allocs
      → holds_ptr ptr (at h.large_allocs k) ≡ false
  unfolding kmalloc_find_large_record
  not_found e = find_index-none (holds_ptr ptr) h.large_allocs e

module _ {h : Heap} (v : IsHeap h) (i : ℕ) (lt : i < length h.large_allocs)
    (used : (at h.large_allocs i).in_use ≡ true) where
  full : used_size (at h.large_allocs i) ≡ (at h.large_allocs i).size
  full = rw used

  enough : (at h.large_allocs i).size ≤ h.large_bytes_used
  enough = omega (arith, full, used_size-le-total h.large_allocs i, v.large_counted)

  released_use : (released h i).large_bytes_used + (at h.large_allocs i).size ≡ h.large_bytes_used
  released_use = ground (arith, enough)

  released-IsHeap : IsHeap (released h i)
  released-IsHeap =
      let freed : LargeAlloc = record (at h.large_allocs i) { in_use = false } in
      record {
        based = v.based;
        in_32_bits = v.in_32_bits;
        base_le = v.base_le;
        below = v.below;
        aligned = v.aligned;
        length_allocs = length-set h.large_allocs i freed ∙ v.length_allocs;
        table = same_block-IsTable v.table i lt freed refl refl;
        small_counted = v.small_counted;
        large_counted =
            omega (
              arith,
              released_use,
              full,
              total_used-set h.large_allocs i freed lt,
              v.large_counted,
            );
      }

-- From a well-formed heap, `kfree` leaves a well-formed heap. Either the address is NULL, unaligned or
-- that of no large block in use, and nothing changes; or it is that of a large block in use, the
-- block's bytes leave the count of large bytes, and no free block is left at the top.
pub kfree_lem :
    (ptr : ℕ) {h : Heap}
    → IsHeap h
    → IsHeap (kfree ptr h)
      × ((Foreign ptr h × (kfree ptr h ≡ h))
          ⊎ ((i : ℕ) × (holds_ptr ptr (at h.large_allocs i) ≡ true)
              × ((kfree ptr h).large_bytes_used + (at h.large_allocs i).size ≡ h.large_bytes_used)
              × (next_reclaimed (kfree ptr h) ≡ none)))
kfree_lem ptr {h} v = elim (Bool-cases ((ptr == 0) || not (ptr % page_size == 0))) [
  | inl e ↦ rw (free_ignored ptr h e) (
    v,
    inl (
      elim (Bool-cases (ptr == 0)) [
        | inl z ↦ inl (ground arith)
        | inr z ↦ inr (inl (ground arith))
      ],
      refl,
    ),
  )
  | inr e ↦ elim (Option-cases (kmalloc_find_large_record ptr true h.large_allocs)) [
    | inl f ↦ rw (free_unknown ptr h f) (v, inl (inr (inr (not_found ptr h f)), refl))
    | inr (i, f) ↦
        let (lt, passes) = found_record ptr h f in
        let used : (at h.large_allocs i).in_use ≡ true = ground (arith, passes) in
        let (heap, ends, same) = kmalloc_try_reclaim_large_top-ends (released-IsHeap v i lt used) in
        rw (free_known ptr h e f)
          (heap, inr (i, passes, omega (arith, same, released_use v i lt used), ends))
  ]
]
