-- ===== src/Kmalloc/Init.antt =====
-- `kmalloc_init` of kernel/kmalloc.c.
use skez_os.Prelude.{ℕ, zero, suc, ◌+◌, ◌-◌, ◌%◌, ◌^◌, ◌≤◌, ◌<◌, ◌≡◌, ◌≢◌, refl, arith, replicate}
use skez_os.Kmalloc.{no_alloc, page_size, large_track_max, kmalloc_init, add32}
use skez_os.Kmalloc.Records.{at, total, total_used}
use skez_os.Kmalloc.Table.{IsHeap}

pub at-replicate : (n i : ℕ) → (at (replicate n no_alloc) i).size ≡ 0
at-replicate zero i = refl
at-replicate (suc n) zero = refl
at-replicate (suc n) (suc i) = at-replicate n i

total-replicate : (n : ℕ) → total (replicate n no_alloc) ≡ 0
total-replicate zero = refl
total-replicate (suc n) = omega (arith, total-replicate n)

total_used-replicate : (n : ℕ) → total_used (replicate n no_alloc) ≡ 0
total_used-replicate zero = refl
total_used-replicate (suc n) = omega (arith, total_used-replicate n)

-- `kmalloc_init` leaves a well-formed heap when the region does not start at 0, does not wrap in 32
-- bits, and starts at or below the last page bound that it reaches.
pub kmalloc_init-IsHeap :
    (heap_start heap_size : ℕ)
    → heap_start ≢ 0
    → heap_start + heap_size < 2 ^ 32
    → heap_start ≤ (heap_start + heap_size) - (heap_start + heap_size) % page_size
    → IsHeap (kmalloc_init heap_start heap_size)
unfolding kmalloc_init
kmalloc_init-IsHeap heap_start heap_size nz fits page =
    let sum : add32 heap_start heap_size ≡ heap_start + heap_size = omega arith in
    record {
      based = nz;
      in_32_bits = omega arith;
      base_le = omega arith;
      below = omega arith;
      aligned = omega arith;
      length_allocs = refl;
      table = record {
        inside = λ i some_block. absurd (some_block (at-replicate large_track_max i));
        apart = λ i j _ some_block. absurd (some_block (at-replicate large_track_max i));
        filled = omega (arith, total-replicate large_track_max);
      };
      small_counted = omega arith;
      large_counted = omega (arith, total_used-replicate large_track_max);
    }
