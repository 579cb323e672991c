-- ===== src/Elf.antt =====
-- kernel/elf32_loader.c: the checks of an ELF file and the layout of its image.
-- A file is the list of its bytes, read little-endian; a pointer to a header in the file is the header
-- read there. Pointers are not NULL, and the log is left out.
pub mod Segments
pub mod Layout
pub mod Load
pub mod Bytes
pub mod Image
pub mod Accept
pub mod Auto
pub mod Read
pub mod Bounded
use skez_os.Prelude.{
  ℕ, zero, suc, ◌+◌, ◌-◌, ◌*◌, ◌%◌, ◌^◌, Bool, true, false, not, ◌&&◌, ◌||◌, Option, none, some,
  List, [], ◌∷◌, ltb, leb, ◌==◌, if◌then◌else◌, length, get_or, Errno, inval, notsup,
}

-- A negative result, or the value stored through the out parameter.
pub data Result (A : Type 0) : Type 0 where
  failed : Errno → Result A
  done : A → Result A

abbrev pub page_size : ℕ
page_size = 4096

-- `KERNEL_EARLY_MAP_BYTES`
abbrev pub early_map_bytes : ℕ
early_map_bytes = 32 * 1024 * 1024

abbrev pub le16 : List ℕ → ℕ → ℕ
le16 buf i = (get_or buf i 0 + get_or buf (i + 1) 0 * 256) % 2 ^ 16

abbrev pub le32 : List ℕ → ℕ → ℕ
le32 buf i =
    (get_or buf i 0
      + get_or buf (i + 1) 0 * 256
      + get_or buf (i + 2) 0 * 65536
      + get_or buf (i + 3) 0 * 16777216)
    % 2 ^ 32

-- The fields of `struct elf32_ehdr` that the loader reads.
pub record Ehdr : Type 0 where
  pub e_ident : ℕ → ℕ
  pub e_type : ℕ
  pub e_machine : ℕ
  pub e_version : ℕ
  pub e_entry : ℕ
  pub e_phoff : ℕ
  pub e_ehsize : ℕ
  pub e_phentsize : ℕ
  pub e_phnum : ℕ

unfoldable pub ehdr_at_start : List ℕ → Ehdr
ehdr_at_start buf = record {
  e_ident = get_byte;
  e_type = le16 buf 16;
  e_machine = le16 buf 18;
  e_version = le32 buf 20;
  e_entry = le32 buf 24;
  e_phoff = le32 buf 28;
  e_ehsize = le16 buf 40;
  e_phentsize = le16 buf 42;
  e_phnum = le16 buf 44;
}
  where
    get_byte : ℕ → ℕ
    get_byte i = get_or buf i 0

-- The fields of `struct elf32_phdr` that the loader reads.
pub record Phdr : Type 0 where
  pub p_type : ℕ
  pub p_offset : ℕ
  pub p_vaddr : ℕ
  pub p_filesz : ℕ
  pub p_memsz : ℕ

unfoldable pub phdr_at : List ℕ → ℕ → Phdr
phdr_at buf i = record {
  p_type = le32 buf i;
  p_offset = le32 buf (i + 4);
  p_vaddr = le32 buf (i + 8);
  p_filesz = le32 buf (i + 16);
  p_memsz = le32 buf (i + 20);
}

-- The `n` entries of the program header table from byte `i` on.
unfoldable pub phdrs_at : List ℕ → (n i : ℕ) → List Phdr
phdrs_at buf zero i = []
phdrs_at buf (suc n) i = phdr_at buf i ∷ phdrs_at buf n (i + 32)

unfoldable pub elf32_page_floor : ℕ → ℕ
elf32_page_floor addr = addr - addr % page_size

unfoldable pub elf32_page_ceil : ℕ → Option ℕ
elf32_page_ceil addr =
    let rounded = (addr + (page_size - 1)) % 2 ^ 32 in
    if ltb rounded addr then none else some (rounded - rounded % page_size)

unfoldable pub elf32_add_u32_ok : ℕ → ℕ → Option ℕ
elf32_add_u32_ok a b = let sum = (a + b) % 2 ^ 32 in if ltb sum a then none else some sum

unfoldable pub elf32_mul_u32_ok : ℕ → ℕ → Option ℕ
elf32_mul_u32_ok a b = let prod = a * b in if ltb (2 ^ 32 - 1) prod then none else some prod

unfoldable pub elf32_range_contains : (outer_base outer_size inner_base inner_size : ℕ) → Bool
elf32_range_contains outer_base outer_size inner_base inner_size =
    elim (elf32_add_u32_ok outer_base outer_size) [
      | none ↦ false
      | some outer_end ↦ elim (elf32_add_u32_ok inner_base inner_size) [
        | none ↦ false
        | some inner_end ↦
            if ltb inner_base outer_base
            then false
            else if ltb outer_end inner_end
            then false
            else true
      ]
    ]

abbrev is_magic : Ehdr → Bool
is_magic h =
    (h.e_ident 0 == 127) && (h.e_ident 1 == 69) && (h.e_ident 2 == 76) && (h.e_ident 3 == 70)

unfoldable pub elf32_validate_ehdr : (file_buf : List ℕ) → Result Ehdr
elf32_validate_ehdr file_buf =
    let h = ehdr_at_start file_buf in
    if ltb (length file_buf) 52
    then failed inval
    else if not (is_magic h)
    then failed inval
    else if not (h.e_ident 4 == 1) || not (h.e_ident 5 == 1)
    then failed notsup
    else if not (h.e_ident 6 == 1) || not (h.e_version == 1)
    then failed notsup
    else if not (h.e_type == 2) || not (h.e_machine == 3)
    then failed notsup
    else if not (h.e_ehsize == 52)
    then failed inval
    else if (h.e_phnum == 0) || not (h.e_phentsize == 32)
    then failed inval
    else done h

-- `load_segments`, `image_base` and `image_end`.
pub record Window : Type 0 where
  pub load_segments : ℕ
  pub image_base : ℕ
  pub image_end : ℕ

pub record UserLayout : Type 0 where
  pub entry_eip : ℕ
  pub image_base : ℕ
  pub image_size : ℕ

abbrev pub is_loaded : Phdr → Bool
is_loaded ph = not (not (ph.p_type == 1) || (ph.p_memsz == 0))

-- The window grown by a segment's pages.
unfoldable pub grow : (seg_base seg_end : ℕ) → Window → Window
grow seg_base seg_end w = record {
  load_segments = w.load_segments + 1;
  image_base =
      if (w.load_segments == 0) || ltb seg_base w.image_base then seg_base else w.image_base;
  image_end = if (w.load_segments == 0) || ltb w.image_end seg_end then seg_end else w.image_end;
}

-- The checks of one segment that is loaded, and the end of its bytes in memory.
unfoldable pub check_segment : (file_size : ℕ) → Phdr → Option ℕ
check_segment file_size ph =
    if ltb ph.p_memsz ph.p_filesz then none else elim (elf32_add_u32_ok ph.p_offset ph.p_filesz) [
      | none ↦ none
      | some file_end ↦
          if ltb file_size file_end then none else elf32_add_u32_ok ph.p_vaddr ph.p_memsz
    ]

unfoldable pub segment_window : (file_size : ℕ) → Phdr → Window → Option Window
segment_window file_size ph w = elim (check_segment file_size ph) [
  | none ↦ none
  | some seg_end ↦ elim (elf32_page_ceil seg_end) [
    | none ↦ none
    | some seg_end_aligned ↦
        if ltb early_map_bytes seg_end_aligned
        then none
        else some (grow (elf32_page_floor ph.p_vaddr) seg_end_aligned w)
  ]
]

-- The loop of `elf32_collect_user_layout`; `none` is -KERR_INVAL.
unfoldable pub segments_window : (file_size : ℕ) → List Phdr → Window → Option Window
segments_window file_size [] w = some w
segments_window file_size (ph ∷ phs) w =
    if is_loaded ph
    then elim (segment_window file_size ph w) [
      | none ↦ none
      | some w' ↦ segments_window file_size phs w'
    ]
    else segments_window file_size phs w

-- The checks after the loop.
unfoldable pub window_layout : (entry : ℕ) → Window → Result UserLayout
window_layout entry w =
    if w.load_segments == 0
    then failed inval
    else if leb w.image_end w.image_base
    then failed inval
    else if not (elf32_range_contains w.image_base (w.image_end - w.image_base) entry 1)
    then failed inval
    else done (record {
      entry_eip = entry;
      image_base = w.image_base;
      image_size = w.image_end - w.image_base;
    })

unfoldable pub phdr_table : Ehdr → (file_buf : List ℕ) → List Phdr
phdr_table h file_buf = phdrs_at file_buf h.e_phnum h.e_phoff

unfoldable pub elf32_collect_user_layout : Ehdr → (file_buf : List ℕ) → Result UserLayout
elf32_collect_user_layout h file_buf = elim (elf32_mul_u32_ok h.e_phnum h.e_phentsize) [
  | none ↦ failed inval
  | some ph_table_bytes ↦ elim (elf32_add_u32_ok h.e_phoff ph_table_bytes) [
    | none ↦ failed inval
    | some ph_table_end ↦
        if ltb (length file_buf) h.e_phoff || ltb (length file_buf - h.e_phoff) ph_table_bytes
        then failed inval
        else elim (segments_window (length file_buf) (phdr_table h file_buf)
            (record { load_segments = 0; image_base = 0; image_end = 0 })) [
              | none ↦ failed inval
              | some w ↦ window_layout h.e_entry w
            ]
  ]
]

-- `elf32_inspect_user_static_path`, on what `elf32_read_file` returned.
unfoldable pub elf32_inspect_user_static_path : Result (List ℕ) → Result UserLayout
elf32_inspect_user_static_path (failed e) = failed e
elf32_inspect_user_static_path (done file_buf) = elim (elf32_validate_ehdr file_buf) [
  | failed e ↦ failed e
  | done h ↦ elf32_collect_user_layout h file_buf
]
