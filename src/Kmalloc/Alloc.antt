-- ===== src/Kmalloc/Alloc.antt =====
-- `kmalloc` of kernel/kmalloc.c: the invariant, and what a returned block is.
use skez_os.Prelude.{
  ℕ, ◌+◌, ◌%◌, ◌≤◌, ◌<◌, ◌≡◌, ◌≢◌, ◌⊎◌, refl, ◌∙◌, inl, inr, true, some, arith, ltb, length,
  length-set, set, Bool-cases,
}
use skez_os.Kmalloc.{
  LargeAlloc, Heap, page_size, small_max, add32, sub32, align_up_size, kmalloc_small, reuse_record,
  take_pages,
}
use skez_os.Kmalloc.Records.{at, BestFree, total, used_size, total_used-set, total_used-le}
use skez_os.Kmalloc.Table.{top, IsHeap, same_block-IsTable, new_block-IsTable}

-- A block that was given out: it lies in the heap, above all small blocks given out before, and apart
-- from every large block in use before.
pub record Granted (size : ℕ) (h : Heap) (ptr : ℕ) : Type 0 where
  pub not_null : ptr ≢ 0
  pub in_heap : (h.heap_base ≤ ptr) × (ptr + size ≤ top h)
  pub above_small : h.small_ptr ≤ ptr
  pub apart :
      (j : ℕ)
      → (at h.large_allocs j).size ≢ 0
      → (at h.large_allocs j).in_use ≡ true
      → (ptr + size ≤ (at h.large_allocs j).ptr)
        ⊎ ((at h.large_allocs j).ptr + (at h.large_allocs j).size ≤ ptr)

module _ {h : Heap} (v : IsHeap h) where
  top-le : top h ≤ h.heap_end
  top-le = omega arith

  pub large-le-top : h.large_ptr ≤ top h
  large-le-top = omega (arith, v.table.filled)

  pub kmalloc_small-IsHeap : (size : ℕ) → size ≤ small_max → IsHeap (kmalloc_small size h).1
  unfolding kmalloc_small
  kmalloc_small-IsHeap size le =
      elim (Bool-cases (ltb h.large_ptr (add32 h.small_ptr (align_up_size size 8)))) [
        | inl e ↦ rw e v
        | inr e ↦
            let rounded : align_up_size size 8 ≤ 256 = omega arith in
            let no_wrap : add32 h.small_ptr (align_up_size size 8)
                ≡ h.small_ptr + align_up_size size 8 =
              omega (arith, rounded, v.below, large-le-top, v.in_32_bits) in
            rw e (record {
              based = v.based;
              in_32_bits = v.in_32_bits;
              base_le = omega (arith, no_wrap, v.base_le);
              below = ground (arith, e);
              aligned = v.aligned;
              length_allocs = v.length_allocs;
              table = v.table;
              small_counted =
                  omega
                    (arith, no_wrap, rounded, v.small_counted, v.below, large-le-top, v.in_32_bits);
              large_counted = v.large_counted;
            })
      ]

  pub kmalloc_small-Granted :
      (size : ℕ)
      → size ≤ small_max
      → ((kmalloc_small size h).0 ≡ 0) ⊎ Granted size h (kmalloc_small size h).0
  unfolding kmalloc_small
  kmalloc_small-Granted size le =
      elim (Bool-cases (ltb h.large_ptr (add32 h.small_ptr (align_up_size size 8)))) [
        | inl e ↦ rw e (inl refl)
        | inr e ↦
            let rounded : (align_up_size size 8 ≤ 256) × (size ≤ align_up_size size 8) =
              omega arith in
            let fits : h.small_ptr + align_up_size size 8 ≤ h.large_ptr =
              ground (arith, e, rounded, v.below, large-le-top, v.in_32_bits) in
            rw e (
              inr (record {
                not_null = omega (arith, v.based, v.base_le);
                in_heap = omega (arith, v.base_le, fits, rounded, large-le-top);
                above_small = omega arith;
                apart = λ j some_block used.
                    inl (omega (arith, fits, rounded, v.table.inside j some_block));
              }))
      ]

  abbrev marked : ℕ → LargeAlloc
  marked i = record (at h.large_allocs i) { in_use = true }

  sizes-le : total h.large_allocs ≤ top h
  sizes-le = omega (arith, v.table.filled)

  pub reuse-IsHeap :
      (size i : ℕ) → BestFree size h.large_allocs (some i) → IsHeap (reuse_record i h).1
  unfolding reuse_record
  reuse-IsHeap size i (lt, (some_block, free, fits), least) =
      let unused : used_size (at h.large_allocs i) ≡ 0 = rw free in
      let sums = total_used-set h.large_allocs i (marked i) lt in
      let t = same_block-IsTable v.table i lt (marked i) refl refl in
      record {
        based = v.based;
        in_32_bits = v.in_32_bits;
        base_le = v.base_le;
        below = v.below;
        aligned = v.aligned;
        length_allocs = length-set h.large_allocs i (marked i) ∙ v.length_allocs;
        table = t;
        small_counted = v.small_counted;
        large_counted = omega (
          arith,
          sums,
          unused,
          v.large_counted,
          total_used-le (set h.large_allocs i (marked i)),
          t.filled,
          top-le,
          v.in_32_bits,
        );
      }

  pub reuse-Granted :
      (size request i : ℕ)
      → request ≤ size
      → 0 < request
      → BestFree size h.large_allocs (some i)
      → Granted request h (reuse_record i h).0
  unfolding reuse_record
  reuse-Granted size request i le some_request (lt, (some_block, free, fits), least) =
      let here = v.table.inside i some_block in
      record {
        not_null = omega (arith, here, v.below, v.based, v.base_le);
        in_heap = omega (arith, here, fits, v.below, v.base_le, le);
        above_small = omega (arith, here, v.below);
        apart = λ j other used. ground (arith, v.table.apart i j, free, used, fits, le);
      }

  module _ (alloc_size i : ℕ) (pages : alloc_size % page_size ≡ 0)
      (room : h.small_ptr + alloc_size ≤ h.large_ptr) (lt : i < length h.large_allocs)
      (unused : (at h.large_allocs i).size ≡ 0) where
    abbrev new_ptr : ℕ
    new_ptr = sub32 h.large_ptr alloc_size

    abbrev new_block : LargeAlloc
    new_block = record { ptr = new_ptr; size = alloc_size; in_use = true }

    new_ptr-add : new_ptr + alloc_size ≡ h.large_ptr
    new_ptr-add = omega (arith, room, large-le-top, v.in_32_bits)

    pub take_pages-IsHeap : IsHeap (take_pages alloc_size i h).1
    unfolding take_pages
    take_pages-IsHeap =
        let none_used : used_size (at h.large_allocs i) ≡ 0 = ground (arith, unused) in
        let sums = total_used-set h.large_allocs i new_block lt in
        let t =
          new_block-IsTable v.table i lt new_block unused new_ptr-add
            (omega (arith, new_ptr-add, v.aligned)) pages in
        record {
          based = v.based;
          in_32_bits = v.in_32_bits;
          base_le = v.base_le;
          below = omega (arith, new_ptr-add);
          aligned = omega (arith, new_ptr-add, v.aligned);
          length_allocs = length-set h.large_allocs i new_block ∙ v.length_allocs;
          table = t;
          small_counted = v.small_counted;
          large_counted = omega (
            arith,
            sums,
            none_used,
            v.large_counted,
            total_used-le (set h.large_allocs i new_block),
            t.filled,
            top-le,
            v.in_32_bits,
          );
        }

    pub take_pages-Granted :
        (request : ℕ) → request ≤ alloc_size → Granted request h (take_pages alloc_size i h).0
    unfolding take_pages
    take_pages-Granted request le = record {
      not_null = omega (arith, new_ptr-add, v.based, v.base_le);
      in_heap = omega (arith, new_ptr-add, large-le-top, v.base_le, le);
      above_small = omega (arith, new_ptr-add);
      apart = λ j other used. inl (omega (arith, new_ptr-add, le, v.table.inside j other));
    }
