-- ===== src/Pmm.antt =====
-- kernel/pmm.c: the physical frame allocator over a bitmap.
-- A word of the bitmap is the list of its 32 bits, bit 0 first, and `1U << j` selects place `j`.
-- The list `frames` holds the `(nframes + 31) / 32` words of the map; log lines are left out.
pub mod Bits
pub mod Count
pub mod Alloc
pub mod Regions
pub mod Init
use skez_os.Prelude.{
  ℕ, zero, suc, ◌+◌, ◌-◌, ◌*◌, ◌/◌, ◌%◌, ◌^◌, Bool, true, false, not, ◌&&◌, ◌||◌, Option, none,
  some, List, [], ◌∷◌, ltb, leb, ◌==◌, if◌then◌else◌, get_or, set, replicate,
}

-- `PAGE_SIZE_BYTES` and `MAX_MEMORY`
abbrev pub page_size : ℕ
page_size = 4096

abbrev pub max_memory : ℕ
max_memory = 1024 * 1024 * 1024

-- The result of `first_free_frame` where there is none.
abbrev pub no_frame : ℕ
no_frame = 0xFFFFFFFF

abbrev pub Word : Type 0
Word = List Bool

-- The static variables; `mapped` says that `frames` is not NULL.
pub record Pmm : Type 0 where
  pub mapped : Bool
  pub nframes : ℕ
  pub frames : List Word
  pub bitmap_bytes : ℕ
  pub used_frames : ℕ

-- `value & ~(align - 1)` for a power of two, and the rounding up that wraps in 32 bits.
abbrev pub align_down_u32 : ℕ → ℕ → ℕ
align_down_u32 value align = value - value % align

abbrev pub align_up_u32 : ℕ → ℕ → ℕ
align_up_u32 value align = align_down_u32 ((value + align - 1) % 2 ^ 32) align

abbrev pub frame_index_valid : Pmm → ℕ → Bool
frame_index_valid s frame = ltb frame s.nframes

-- The bit of a frame.
abbrev pub bit : List Word → ℕ → Bool
bit frames frame = get_or (get_or frames (frame / 32) []) (frame % 32) false

abbrev pub put_bit : List Word → ℕ → Bool → List Word
put_bit frames frame b =
    set frames (frame / 32) (set (get_or frames (frame / 32) []) (frame % 32) b)

unfoldable pub test_frame : Pmm → ℕ → Bool
test_frame s frame =
    if not s.mapped || not (frame_index_valid s frame) then true else bit s.frames frame

unfoldable pub set_frame : ℕ → Pmm → Pmm
set_frame frame s =
    if not s.mapped || not (frame_index_valid s frame)
    then s
    else if bit s.frames frame
    then s
    else record s {
      frames = put_bit s.frames frame true;
      used_frames = (s.used_frames + 1) % 2 ^ 32;
    }

unfoldable pub clear_frame : ℕ → Pmm → Pmm
clear_frame frame s =
    if not s.mapped || not (frame_index_valid s frame)
    then s
    else if bit s.frames frame
    then record s {
      frames = put_bit s.frames frame false;
      used_frames = if ltb 0 s.used_frames then s.used_frames - 1 else s.used_frames;
    }
    else s

-- The inner loop of `first_free_frame` from a frame on, over the bits left in its word: it ends at
-- the word's end or at `nframes`.
unfoldable pub scan_bits : (nframes frame : ℕ) → List Bool → Option ℕ
scan_bits nframes frame [] = none
scan_bits nframes frame (b ∷ bs) =
    let rest = scan_bits nframes (frame + 1) bs in
    if leb nframes frame then none else if b then rest else some frame

-- `frames[i] == 0xFFFFFFFF`
unfoldable pub all_ones : Word → Bool
all_ones [] = true
all_ones (b ∷ bs) = b && all_ones bs

-- The outer loop, from word `i` on.
unfoldable pub scan_words : (nframes i : ℕ) → List Word → Option ℕ
scan_words nframes i [] = none
scan_words nframes i (w ∷ ws) =
    let later = scan_words nframes (i + 1) ws in
    if all_ones w
    then later
    else elim (scan_bits nframes (i * 32) w) [ some frame ↦ some frame | none ↦ later ]

unfoldable pub first_free_frame : Pmm → ℕ
unfolding scan_words
first_free_frame s = elim (scan_words s.nframes 0 s.frames) [ some frame ↦ frame | none ↦ no_frame ]

unfoldable pub pmm_init : (mem_upper : ℕ) → Pmm
pmm_init mem_upper =
    let nframes : ℕ = (if ltb max_memory mem_upper then max_memory else mem_upper) / page_size in
    record {
      mapped = true;
      nframes = nframes;
      frames = replicate ((nframes + 31) / 32) (replicate 32 true);
      bitmap_bytes = (nframes + 31) / 32 * 4;
      used_frames = nframes;
    }

-- The address of the frame, 0 on failure, and the state.
unfoldable pub pmm_alloc_frame : Pmm → ℕ × Pmm
pmm_alloc_frame s =
    if not s.mapped || (s.nframes == 0)
    then (0, s)
    else let frame = first_free_frame s in
      if frame == no_frame then (0, s) else (frame * page_size % 2 ^ 32, set_frame frame s)

unfoldable pub pmm_free_frame : (addr : ℕ) → Pmm → Pmm
pmm_free_frame addr s =
    if not s.mapped || (s.nframes == 0)
    then s
    else if not (addr % page_size == 0)
    then s
    else if not (frame_index_valid s (addr / page_size))
    then s
    else if not (test_frame s (addr / page_size))
    then s
    else clear_frame (addr / page_size) s

-- `total_frames`, `used_frames`, `free_frames` and `bitmap_bytes` of `struct pmm_stats`.
unfoldable pub pmm_get_stats : Pmm → ℕ × ℕ × ℕ × ℕ
pmm_get_stats s = (
  s.nframes,
  s.used_frames,
  if leb s.used_frames s.nframes then s.nframes - s.used_frames else 0,
  s.bitmap_bytes,
)

unfoldable pub pmm_is_ready : Pmm → Bool
pmm_is_ready s = s.mapped && not (s.nframes == 0)

-- The loops over `n` frames from `frame` on.
unfoldable pub clear_frames : (n frame : ℕ) → Pmm → Pmm
clear_frames zero frame s = s
clear_frames (suc n) frame s = clear_frames n (frame + 1) (clear_frame frame s)

unfoldable pub set_frames : (n frame : ℕ) → Pmm → Pmm
set_frames zero frame s = s
set_frames (suc n) frame s = set_frames n (frame + 1) (set_frame frame s)

-- `end64`, cut to the memory that the map covers.
abbrev pub region_end : Pmm → (base length : ℕ) → ℕ
region_end s base length =
    if ltb (s.nframes * page_size) (base + length) then s.nframes * page_size else base + length

-- Whether a region call returns at once.
abbrev pub region_skipped : Pmm → (base length : ℕ) → Bool
region_skipped s base length =
    not s.mapped || (s.nframes == 0) || (length == 0) || leb (s.nframes * page_size) base

unfoldable pub pmm_mark_region_available : (base length : ℕ) → Pmm → Pmm
pmm_mark_region_available base length s =
    if region_skipped s base length
    then s
    else let start_aligned = align_up_u32 base page_size in
      let end_aligned = align_down_u32 (region_end s base length % 2 ^ 32) page_size in
      if leb end_aligned start_aligned
      then s
      else clear_frames (end_aligned / page_size - start_aligned / page_size)
          (start_aligned / page_size) s

unfoldable pub pmm_reserve_region : (base length : ℕ) → Pmm → Pmm
pmm_reserve_region base length s =
    if region_skipped s base length
    then s
    else let start_aligned = align_down_u32 base page_size in
      let end_aligned = align_up_u32 (region_end s base length % 2 ^ 32) page_size in
      if leb end_aligned start_aligned
      then s
      else set_frames (end_aligned / page_size - start_aligned / page_size)
          (start_aligned / page_size) s
