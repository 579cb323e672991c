-- ===== src/Kmalloc.antt =====
-- kernel/kmalloc.c: the kernel heap. Small blocks grow up from the base and are never given back;
-- blocks of whole pages grow down from the end, and their records are kept for reuse.
-- Pointers are addresses, 0 for NULL.
pub mod Records
pub mod Table
pub mod Alloc
pub mod Calls
pub mod Free
pub mod Huge
pub mod Init
use skez_os.Prelude.{
  ℕ, zero, suc, ◌+◌, ◌-◌, ◌%◌, ◌^◌, Bool, true, false, not, ◌&&◌, ◌||◌, Option, none, some, List,
  [], ◌∷◌, ltb, leb, ◌==◌, if◌then◌else◌, get_or, set, replicate, length,
}

-- `PAGE_SIZE_BYTES`, `KMALLOC_SMALL_MAX`, `KMALLOC_LARGE_TRACK_MAX`
abbrev pub page_size : ℕ
page_size = 4096

abbrev pub small_max : ℕ
small_max = 256

abbrev pub large_track_max : ℕ
large_track_max = 64

-- 32-bit sums and differences.
abbrev pub add32 : ℕ → ℕ → ℕ
add32 a b = (a + b) % 2 ^ 32

abbrev pub sub32 : ℕ → ℕ → ℕ
sub32 a b = (a + 2 ^ 32 - b) % 2 ^ 32

-- Rounding by a power of two.
abbrev pub align_down_uintptr : ℕ → ℕ → ℕ
align_down_uintptr value align = value - value % align

abbrev pub align_up_size : ℕ → ℕ → ℕ
align_up_size value align = align_down_uintptr (add32 value (align - 1)) align

-- `struct kmalloc_large_alloc`
pub record LargeAlloc : Type 0 where
  pub ptr : ℕ
  pub size : ℕ
  pub in_use : Bool

abbrev pub no_alloc : LargeAlloc
no_alloc = record { ptr = 0; size = 0; in_use = false }

-- The static variables.
pub record Heap : Type 0 where
  pub heap_base : ℕ
  pub heap_end : ℕ
  pub small_ptr : ℕ
  pub large_ptr : ℕ
  pub small_bytes_used : ℕ
  pub large_bytes_used : ℕ
  pub small_alloc_count : ℕ
  pub large_alloc_count : ℕ
  pub large_allocs : List LargeAlloc

-- The index of the first record that passes, from index `i` on.
unfoldable pub find_index : (LargeAlloc → Bool) → ℕ → List LargeAlloc → Option ℕ
find_index test i [] = none
find_index test i (r ∷ rs) =
    let rest = find_index test (i + 1) rs in if test r then some i else rest

unfoldable pub kmalloc_find_unused_large_record : List LargeAlloc → Option ℕ
unfolding find_index
kmalloc_find_unused_large_record rs = find_index (λ r. r.size == 0) 0 rs

abbrev pub bool_eq : Bool → Bool → Bool
bool_eq a b = if a then b else not b

unfoldable pub kmalloc_find_large_record :
    (ptr : ℕ) → (want_in_use : Bool) → List LargeAlloc → Option ℕ
unfolding find_index
kmalloc_find_large_record ptr want_in_use rs =
    find_index (λ r. not (r.size == 0) && (r.ptr == ptr) && bool_eq r.in_use want_in_use) 0 rs

-- The loop of `kmalloc_find_best_free_large_record`: `best` is the index and the size of the best so far.
unfoldable pub best_from : (size : ℕ) → Option (ℕ × ℕ) → ℕ → List LargeAlloc → Option (ℕ × ℕ)
best_from size best i [] = best
best_from size best i (r ∷ rs) =
    best_from size
      (if (r.size == 0) || r.in_use || ltb r.size size then best else elim best [
        | none ↦ some (i, r.size)
        | some (j, s) ↦ if ltb r.size s then some (i, r.size) else some (j, s)
      ])
      (i + 1) rs

unfoldable pub kmalloc_find_best_free_large_record : (size : ℕ) → List LargeAlloc → Option ℕ
kmalloc_find_best_free_large_record size rs = elim (best_from size none 0 rs) [
  | none ↦ none
  | some (i, s) ↦ some i
]

-- The loop of `kmalloc_try_reclaim_large_top`: each round drops one record, so the length of the table
-- bounds the rounds.
unfoldable pub reclaim_rounds : ℕ → Heap → Heap
reclaim_rounds zero h = h
reclaim_rounds (suc n) h =
    elim (find_index (λ r. not (r.size == 0) && not r.in_use && (r.ptr == h.large_ptr)) 0
      h.large_allocs) [
        | none ↦ h
        | some i ↦ reclaim_rounds n (record h {
          large_ptr = add32 h.large_ptr (get_or h.large_allocs i no_alloc).size;
          large_allocs = set h.large_allocs i no_alloc;
        })
      ]

unfoldable pub kmalloc_try_reclaim_large_top : Heap → Heap
kmalloc_try_reclaim_large_top h = reclaim_rounds (length h.large_allocs + 1) h

unfoldable pub kmalloc_init : (heap_start heap_size : ℕ) → Heap
kmalloc_init heap_start heap_size = record {
  heap_base = heap_start;
  heap_end = add32 heap_start heap_size;
  small_ptr = heap_start;
  large_ptr = align_down_uintptr (add32 heap_start heap_size) page_size;
  small_bytes_used = 0;
  large_bytes_used = 0;
  small_alloc_count = 0;
  large_alloc_count = 0;
  large_allocs = replicate large_track_max no_alloc;
}

-- The branch of `kmalloc` for sizes up to `KMALLOC_SMALL_MAX`.
unfoldable pub kmalloc_small : (size : ℕ) → Heap → ℕ × Heap
kmalloc_small size h =
    let alloc_size = align_up_size size 8 in
    if ltb h.large_ptr (add32 h.small_ptr alloc_size) then (0, h) else (
      h.small_ptr,
      record h {
        small_ptr = add32 h.small_ptr alloc_size;
        small_bytes_used = add32 h.small_bytes_used alloc_size;
        small_alloc_count = add32 h.small_alloc_count 1;
      },
    )

-- A free record is used again as a whole.
unfoldable pub reuse_record : (i : ℕ) → Heap → ℕ × Heap
reuse_record i h =
    let r : LargeAlloc = get_or h.large_allocs i no_alloc in
    (
      r.ptr,
      record h {
        large_bytes_used = add32 h.large_bytes_used r.size;
        large_alloc_count = add32 h.large_alloc_count 1;
        large_allocs = set h.large_allocs i (record r { in_use = true });
      },
    )

-- New pages below `large_ptr`, in record `i`.
unfoldable pub take_pages : (alloc_size i : ℕ) → Heap → ℕ × Heap
take_pages alloc_size i h =
    let ptr : ℕ = sub32 h.large_ptr alloc_size in
    (
      ptr,
      record h {
        large_ptr = ptr;
        large_bytes_used = add32 h.large_bytes_used alloc_size;
        large_alloc_count = add32 h.large_alloc_count 1;
        large_allocs =
            set h.large_allocs i (record { ptr = ptr; size = alloc_size; in_use = true });
      },
    )

unfoldable pub kmalloc_large : (size : ℕ) → Heap → ℕ × Heap
kmalloc_large size h =
    let alloc_size = align_up_size size page_size in
    elim (kmalloc_find_best_free_large_record alloc_size h.large_allocs) [
      | some i ↦ reuse_record i h
      | none ↦
          if ltb h.large_ptr h.small_ptr || ltb (sub32 h.large_ptr h.small_ptr) alloc_size
          then (0, h)
          else elim (kmalloc_find_unused_large_record h.large_allocs) [
            | none ↦ (0, h)
            | some i ↦ take_pages alloc_size i h
          ]
    ]

-- The pointer, 0 on failure, and the heap.
unfoldable pub kmalloc : (size : ℕ) → Heap → ℕ × Heap
kmalloc size h =
    if (h.heap_base == 0) || (h.heap_end == 0) || (size == 0)
    then (0, h)
    else if leb size small_max
    then kmalloc_small size h
    else kmalloc_large size h

unfoldable pub kfree : (ptr : ℕ) → Heap → Heap
kfree ptr h =
    if (ptr == 0) || not (ptr % page_size == 0)
    then h
    else elim (kmalloc_find_large_record ptr true h.large_allocs) [
      | none ↦ h
      | some i ↦
          let r : LargeAlloc = get_or h.large_allocs i no_alloc in
          kmalloc_try_reclaim_large_top (record h {
            large_bytes_used =
                if leb r.size h.large_bytes_used then h.large_bytes_used - r.size else 0;
            large_allocs = set h.large_allocs i (record r { in_use = false });
          })
    ]

-- `struct kmalloc_stats`
pub record KmallocStats : Type 0 where
  pub stats_base : ℕ
  pub stats_end : ℕ
  pub small_cursor : ℕ
  pub large_cursor : ℕ
  pub small_bytes : ℕ
  pub large_bytes : ℕ
  pub small_count : ℕ
  pub large_count : ℕ

unfoldable pub kmalloc_get_stats : Heap → KmallocStats
kmalloc_get_stats h = record {
  stats_base = h.heap_base;
  stats_end = h.heap_end;
  small_cursor = h.small_ptr;
  large_cursor = h.large_ptr;
  small_bytes = h.small_bytes_used;
  large_bytes = h.large_bytes_used;
  small_count = h.small_alloc_count;
  large_count = h.large_alloc_count;
}
