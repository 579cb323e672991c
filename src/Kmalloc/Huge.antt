-- ===== src/Kmalloc/Huge.antt =====
-- `kmalloc` (kernel/kmalloc.c) of sizes within a page of 2^32, where rounding up to pages wraps to 0.
use skez_os.Prelude.{
  ℕ, ◌-◌, ◌^◌, ◌<◌, ◌≡◌, ◌≢◌, refl, inl, inr, true, false, none, some, arith, ltb, ◌||◌,
  Option-cases,
}
use skez_os.Kmalloc.{
  Heap, page_size, align_up_size, kmalloc_find_unused_large_record,
  kmalloc_find_best_free_large_record, sub32, take_pages, kmalloc_large, kmalloc,
}
use skez_os.Kmalloc.Records.{at, total, total-set}
use skez_os.Kmalloc.Table.{IsHeap}
use skez_os.Kmalloc.Calls.{best_record, unused_record, large_take}

module _ (size : ℕ) {h : Heap} (v : IsHeap h) (huge : 2 ^ 32 - page_size < size)
    (lt : size < 2 ^ 32)
    (all_used : (k : ℕ) → (at h.large_allocs k).size ≢ 0 → (at h.large_allocs k).in_use ≡ true)
    (i : ℕ) (unused : kmalloc_find_unused_large_record h.large_allocs ≡ some i) where
  wraps : align_up_size size page_size ≡ 0
  wraps = omega arith

  no_reuse :
      kmalloc_find_best_free_large_record (align_up_size size page_size) h.large_allocs ≡ none
  no_reuse =
      elim (Option-cases
        (kmalloc_find_best_free_large_record (align_up_size size page_size) h.large_allocs)) [
          | inl e ↦ e
          | inr (k, e) ↦
              let (below, (some_block, free, fits), least) = best_record size h e in
              let used : (at h.large_allocs k).in_use ≡ true = all_used k some_block in absurd (cc)
        ]

  large : kmalloc size h ≡ kmalloc_large size h
  unfolding kmalloc
  large = ground (arith, v.based, v.base_le, v.below, v.table.filled)

  -- From a well-formed heap with an unused record and no free block, a request of more than 2^32 -
  -- 4096 bytes returns an address that is not NULL, and the heap sets no byte aside for it: both
  -- pointers and the sum of the large blocks stay as they are.
  pub kmalloc-huge :
      ((kmalloc size h).0 ≢ 0)
      × ((kmalloc size h).1.large_ptr ≡ h.large_ptr)
      × ((kmalloc size h).1.small_ptr ≡ h.small_ptr)
      × (total (kmalloc size h).1.large_allocs ≡ total h.large_allocs)
  unfolding take_pages
  kmalloc-huge =
      let u = unused_record size h unused in
      let room : (ltb h.large_ptr h.small_ptr
            || ltb (sub32 h.large_ptr h.small_ptr) (align_up_size size page_size))
          ≡ false =
        ground (arith, wraps, v.below) in
      let same_ptr : sub32 h.large_ptr 0 ≡ h.large_ptr =
        omega (arith, v.table.filled, v.in_32_bits) in
      let sums =
        total-set h.large_allocs i (record { ptr = h.large_ptr; size = 0; in_use = true }) u.0 in
      rw (large, large_take size h no_reuse room unused, wraps, same_ptr)
        (omega (arith, v.based, v.base_le, v.below), refl, refl, omega (arith, sums, u.1))
