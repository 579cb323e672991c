-- ===== src/Kmalloc/Table.antt =====
-- The invariant of the heap of kernel/kmalloc.c.
use skez_os.Prelude.{ℕ, ◌+◌, ◌%◌, ◌^◌, ◌≤◌, ◌<◌, ◌≡◌, ◌≢◌, ◌⊎◌, List, arith, length, set}
use skez_os.Kmalloc.{LargeAlloc, no_alloc, Heap, page_size, large_track_max, align_down_uintptr}
use skez_os.Kmalloc.Records.{at, total, total_used, total-set, at-set}

-- The page-aligned end of the heap.
abbrev pub top : Heap → ℕ
top h = align_down_uintptr h.heap_end page_size

-- Two blocks share no byte.
abbrev pub Apart : LargeAlloc → LargeAlloc → Type 0
Apart r s = (r.ptr + r.size ≤ s.ptr) ⊎ (s.ptr + s.size ≤ r.ptr)

abbrev pub Inside : (lo hi : ℕ) → LargeAlloc → Type 0
Inside lo hi r =
    (lo ≤ r.ptr) × (r.ptr + r.size ≤ hi) × (r.ptr % page_size ≡ 0) × (r.size % page_size ≡ 0)

-- The table of large blocks over the pages from `lo` to `hi`: the blocks lie inside, apart from each
-- other, and fill the pages.
pub record IsTable (lo hi : ℕ) (rs : List LargeAlloc) : Type 0 where
  pub inside : (i : ℕ) → (at rs i).size ≢ 0 → Inside lo hi (at rs i)
  pub apart :
      (i j : ℕ) → i ≢ j → (at rs i).size ≢ 0 → (at rs j).size ≢ 0 → Apart (at rs i) (at rs j)
  pub filled : total rs + lo ≡ hi

pub record IsHeap (h : Heap) : Type 0 where
  pub based : h.heap_base ≢ 0
  pub in_32_bits : h.heap_end < 2 ^ 32
  pub base_le : h.heap_base ≤ h.small_ptr
  pub below : h.small_ptr ≤ h.large_ptr
  pub aligned : h.large_ptr % page_size ≡ 0
  pub length_allocs : length h.large_allocs ≡ large_track_max
  pub table : IsTable h.large_ptr (top h) h.large_allocs
  pub small_counted : h.small_bytes_used + h.heap_base ≡ h.small_ptr
  pub large_counted : h.large_bytes_used ≡ total_used h.large_allocs

module _ {lo hi : ℕ} {rs : List LargeAlloc} (t : IsTable lo hi rs) (i : ℕ)
    (lt : i < length rs) where
  -- A record whose block stays as it is.
  pub same_block-IsTable :
      (r : LargeAlloc)
      → r.ptr ≡ (at rs i).ptr
      → r.size ≡ (at rs i).size
      → IsTable lo hi (set rs i r)
  same_block-IsTable r p s = record {
    inside = λ j. ground (arith, at-set rs i j r lt, t.inside i, t.inside j);
    apart = λ j k. ground (
      arith,
      at-set rs i j r lt,
      at-set rs i k r lt,
      t.apart i j,
      t.apart i k,
      t.apart j k,
      t.apart j i,
    );
    filled = omega (arith, total-set rs i r lt, t.filled);
  }

  -- An unused record that takes a block just below.
  pub new_block-IsTable :
      (r : LargeAlloc)
      → (at rs i).size ≡ 0
      → r.ptr + r.size ≡ lo
      → r.ptr % page_size ≡ 0
      → r.size % page_size ≡ 0
      → IsTable r.ptr hi (set rs i r)
  new_block-IsTable r unused end p s = record {
    inside = λ j. ground (arith, at-set rs i j r lt, t.inside j, t.filled);
    apart = λ j k.
        ground (arith, at-set rs i j r lt, at-set rs i k r lt, t.inside j, t.inside k, t.apart j k);
    filled = omega (arith, total-set rs i r lt, t.filled);
  }

  -- The block just above `lo` is dropped.
  pub drop_block-IsTable :
      (at rs i).size ≢ 0 → (at rs i).ptr ≡ lo → IsTable (lo + (at rs i).size) hi (set rs i no_alloc)
  drop_block-IsTable some_block first = record {
    inside = λ j. ground (arith, at-set rs i j no_alloc lt, t.inside j, t.apart i j);
    apart =
        λ j k. ground (arith, at-set rs i j no_alloc lt, at-set rs i k no_alloc lt, t.apart j k);
    filled = omega (arith, total-set rs i no_alloc lt, t.filled);
  }
