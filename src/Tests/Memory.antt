-- ===== src/Tests/Memory.antt =====
-- Runs of kernel/pmm.c and kernel/kmalloc.c.
use skez_os.Prelude.{
  ℕ, ◌+◌, ◌/◌, ◌≡◌, ◌≢◌, ◌⊎◌, refl, true, false, none, some, List, [], ◌∷◌, arith,
}
use skez_os.Pmm.{
  Pmm, page_size, bit, pmm_init, pmm_alloc_frame, pmm_free_frame, pmm_mark_region_available,
  pmm_reserve_region,
}
use skez_os.Pmm.Count.{IsPmm}
use skez_os.Pmm.Alloc.{
  Alloc, AllTaken, Freeable, pmm_alloc_frame_lem, pmm_free_frame_lem, alloc-free,
}
use skez_os.Pmm.Count.{Changed}
use skez_os.Pmm.Regions.{
  Marked, Touches, Within, pmm_reserve_region-Marked, pmm_mark_region_available-Marked,
}
use skez_os.Pmm.Init.{pmm_init-IsPmm}
use skez_os.Kmalloc.{
  Heap, LargeAlloc, no_alloc, kmalloc_init, kmalloc, kfree, kmalloc_try_reclaim_large_top,
  kmalloc_find_best_free_large_record, kmalloc_find_unused_large_record,
}
use skez_os.Kmalloc.Records.{at, total}
use skez_os.Kmalloc.Table.{IsHeap}
use skez_os.Kmalloc.Alloc.{Granted}
use skez_os.Kmalloc.Calls.{kmalloc-IsHeap, kmalloc-Granted}
use skez_os.Kmalloc.Free.{next_reclaimed, Foreign, holds_ptr, kfree_lem}
use skez_os.Kmalloc.Huge.{kmalloc-huge}
use skez_os.Kmalloc.Init.{kmalloc_init-IsHeap, at-replicate}

-- 16 frames, of which those at 8192 and 12288 are made available.
abbrev all_taken : Pmm
all_taken = pmm_init 65536

abbrev two_free : Pmm
two_free = pmm_mark_region_available 8192 8192 all_taken

pmm_mark_region_available-Marked_example : Marked all_taken false (Within 8192 8192) two_free
pmm_mark_region_available-Marked_example =
    pmm_mark_region_available-Marked (pmm_init-IsPmm 65536).0 8192 8192 (omega arith) (omega arith)

two_free-IsPmm : IsPmm two_free
two_free-IsPmm =
    (pmm_mark_region_available-Marked (pmm_init-IsPmm 65536).0 8192 8192 (omega arith)
      (omega arith)).invariant

pmm_reserve_region-Marked_example :
    Marked two_free true (Touches 9000 10) (pmm_reserve_region 9000 10 two_free)
pmm_reserve_region-Marked_example =
    pmm_reserve_region-Marked two_free-IsPmm 9000 10 (omega arith) (omega arith)

pmm_alloc_frame_lem_example : Alloc two_free-IsPmm (pmm_alloc_frame two_free)
pmm_alloc_frame_lem_example = pmm_alloc_frame_lem two_free-IsPmm

pmm_alloc_frame_run : (pmm_alloc_frame two_free).0 ≡ 8192
unfolding pmm_alloc_frame pmm_mark_region_available pmm_init skez_os.Pmm.clear_frames
    skez_os.Pmm.clear_frame skez_os.Pmm.first_free_frame skez_os.Pmm.all_ones skez_os.Pmm.scan_bits
pmm_alloc_frame_run = refl

frames : two_free.nframes ≡ 16
unfolding pmm_init pmm_mark_region_available skez_os.Pmm.clear_frames skez_os.Pmm.clear_frame
frames = refl

frame_zero : bit two_free.frames 0 ≡ true
unfolding pmm_init pmm_mark_region_available skez_os.Pmm.clear_frames skez_os.Pmm.clear_frame
frame_zero = refl

frame_two : bit two_free.frames 2 ≡ false
unfolding pmm_init pmm_mark_region_available skez_os.Pmm.clear_frames skez_os.Pmm.clear_frame
frame_two = refl

some_free : ¬ AllTaken two_free
some_free taken = ground (arith, taken 2, frames, frame_two)

alloc-free_example :
    ((f : ℕ)
      → bit (pmm_free_frame (pmm_alloc_frame two_free).0 (pmm_alloc_frame two_free).1).frames f
        ≡ bit two_free.frames f)
    × ((pmm_free_frame (pmm_alloc_frame two_free).0 (pmm_alloc_frame two_free).1).used_frames
        ≡ two_free.used_frames)
    × IsPmm (pmm_free_frame (pmm_alloc_frame two_free).0 (pmm_alloc_frame two_free).1)
alloc-free_example = alloc-free two_free-IsPmm some_free

pmm_free_frame_lem_example :
    ((f : Freeable two_free-IsPmm 4096) × Changed two_free-IsPmm
        (4096 / page_size)
        f.1
        false
        (pmm_free_frame 4096 two_free))
    ⊎ (¬ Freeable two_free-IsPmm 4096 × (pmm_free_frame 4096 two_free ≡ two_free))
pmm_free_frame_lem_example = pmm_free_frame_lem two_free-IsPmm 4096

-- A heap of 256 KiB at 1 MiB.
abbrev new_heap : Heap
new_heap = kmalloc_init 1048576 262144

new_heap-IsHeap : IsHeap new_heap
new_heap-IsHeap =
    kmalloc_init-IsHeap 1048576 262144 (λ z. absurd (omega (arith, z))) (omega arith) (omega arith)

kmalloc_run : (kmalloc 5000 new_heap).0 ≡ 1302528
unfolding kmalloc kmalloc_init skez_os.Kmalloc.kmalloc_large kmalloc_find_best_free_large_record
    skez_os.Kmalloc.best_from kmalloc_find_unused_large_record skez_os.Kmalloc.take_pages
kmalloc_run = refl

kmalloc-Granted_example :
    ((kmalloc 5000 new_heap).0 ≡ 0) ⊎ Granted 5000 new_heap (kmalloc 5000 new_heap).0
kmalloc-Granted_example = kmalloc-Granted 5000 new_heap-IsHeap (omega arith) (omega arith)

kmalloc-IsHeap_example : IsHeap (kmalloc 5000 new_heap).1
kmalloc-IsHeap_example = kmalloc-IsHeap 5000 new_heap-IsHeap (omega arith)

-- A block of two pages is taken, and then freed.
abbrev one_block : Heap
one_block = (kmalloc 5000 new_heap).1

one_block-IsHeap : IsHeap one_block
one_block-IsHeap = kmalloc-IsHeap 5000 new_heap-IsHeap (omega arith)

kfree_lem_example :
    IsHeap (kfree 1302528 one_block)
    × ((Foreign 1302528 one_block × (kfree 1302528 one_block ≡ one_block))
        ⊎ ((i : ℕ) × (holds_ptr 1302528 (at one_block.large_allocs i) ≡ true)
            × ((kfree 1302528 one_block).large_bytes_used + (at one_block.large_allocs i).size
                ≡ one_block.large_bytes_used)
            × (next_reclaimed (kfree 1302528 one_block) ≡ none)))
kfree_lem_example = kfree_lem 1302528 one_block-IsHeap

abbrev two_records : List LargeAlloc
two_records =
    record { ptr = 4096; size = 8192; in_use = false }
    ∷ record { ptr = 12288; size = 4096; in_use = false }
    ∷ []

all_unused :
    (k : ℕ) → (at new_heap.large_allocs k).size ≢ 0 → (at new_heap.large_allocs k).in_use ≡ true
unfolding kmalloc_init
all_unused k some_block = absurd (some_block (at-replicate 64 k))

first_unused : kmalloc_find_unused_large_record new_heap.large_allocs ≡ some 0
unfolding kmalloc_find_unused_large_record kmalloc_init
first_unused = refl

kmalloc-huge_example :
    ((kmalloc 4294967295 new_heap).0 ≢ 0)
    × ((kmalloc 4294967295 new_heap).1.large_ptr ≡ new_heap.large_ptr)
    × ((kmalloc 4294967295 new_heap).1.small_ptr ≡ new_heap.small_ptr)
    × (total (kmalloc 4294967295 new_heap).1.large_allocs ≡ total new_heap.large_allocs)
kmalloc-huge_example =
    kmalloc-huge 4294967295 new_heap-IsHeap (omega arith) (omega arith) all_unused 0 first_unused
