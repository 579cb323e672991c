-- ===== src/Elf/Load.antt =====
-- kernel/elf32_loader.c: the loading of an ELF image into memory. Memory maps an address to its byte.
use skez_os.Prelude.{
  ℕ, ◌+◌, ◌-◌, ◌%◌, ◌^◌, Bool, not, ◌&&◌, ◌||◌, Option, none, some, List, [], ◌∷◌, ltb, leb, ◌==◌,
  if◌then◌else◌, length, get_or, inval, Status, ok, err,
}
use skez_os.Elf.{
  Result, failed, done, early_map_bytes, Ehdr, Phdr, UserLayout, is_loaded, phdr_table,
  elf32_range_contains, check_segment, elf32_validate_ehdr, elf32_collect_user_layout,
  elf32_inspect_user_static_path,
}

abbrev pub Memory : Type 0
Memory = ℕ → ℕ

abbrev pub within : (base n a : ℕ) → Bool
within base n a = leb base a && ltb a (base + n)

-- `memset` with 0, and `memcpy` from byte `src` of `buf`.
abbrev pub zero_bytes : (dst n : ℕ) → Memory → Memory
zero_bytes dst n m a = if within dst n a then 0 else m a

abbrev pub copy_bytes : (dst : ℕ) → (buf : List ℕ) → (src n : ℕ) → Memory → Memory
copy_bytes dst buf src n m a = if within dst n a then get_or buf (src + (a - dst)) 0 else m a

pub record UserImage : Type 0 where
  pub entry_eip : ℕ
  pub stack_top : ℕ
  pub image_base : ℕ
  pub image_size : ℕ

-- The memory once a segment that passed the checks is copied.
unfoldable pub copy_segment : Phdr → (file_buf : List ℕ) → Memory → Memory
copy_segment ph file_buf m =
    let m' =
      if ph.p_filesz == 0 then m else copy_bytes ph.p_vaddr file_buf ph.p_offset ph.p_filesz m in
    if ltb ph.p_filesz ph.p_memsz
    then zero_bytes (ph.p_vaddr + ph.p_filesz) (ph.p_memsz - ph.p_filesz) m'
    else m'

-- A segment is copied when it passes the checks; `none` is -KERR_INVAL.
unfoldable pub load_segment :
    (image_base image_end : ℕ) → Phdr → (file_buf : List ℕ) → Memory → Option Memory
load_segment image_base image_end ph file_buf m = elim (check_segment (length file_buf) ph) [
  | none ↦ none
  | some seg_end ↦
      if ltb ph.p_vaddr image_base || ltb image_end seg_end
      then none
      else some (copy_segment ph file_buf m)
]

-- The loop, from `n` segments loaded on: the count, unless a segment is refused, and the memory.
unfoldable pub load_loop :
    (image_base image_end : ℕ)
    → List Phdr
    → (file_buf : List ℕ) → (n : ℕ) → Memory
    → Option ℕ × Memory
load_loop image_base image_end [] file_buf n m = (some n, m)
load_loop image_base image_end (ph ∷ phs) file_buf n m =
    if is_loaded ph
    then elim (load_segment image_base image_end ph file_buf m) [
      | none ↦ (none, m)
      | some m' ↦ load_loop image_base image_end phs file_buf (n + 1) m'
    ]
    else load_loop image_base image_end phs file_buf n m

-- The checks of the two windows.
abbrev pub windows_ok : (image_base image_size stack_base stack_size : ℕ) → Bool
windows_ok image_base image_size stack_base stack_size =
    let image_end = (image_base + image_size) % 2 ^ 32 in
    let stack_end = (stack_base + stack_size) % 2 ^ 32 in
    not (image_size == 0)
    && not (stack_size == 0)
    && not (ltb image_end image_base)
    && not (ltb stack_end stack_base)
    && not (ltb early_map_bytes image_end)
    && not (ltb early_map_bytes stack_end)
    && (leb image_end stack_base || leb stack_end image_base)

-- `P` is the state of kernel/paging.c and `mark` its `paging_mark_user_region`.
module _ {P : Type 0} (mark : (base size : ℕ) → P → Status × P) where
  -- The two regions, once memory holds the image.
  unfoldable pub mark_regions : (image_base image_size stack_base stack_size : ℕ) → P → Status × P
  mark_regions image_base image_size stack_base stack_size pg =
      let (rc, pg') = mark image_base image_size pg in
      elim rc [ err e ↦ (err e, pg') | ok ↦ mark stack_base stack_size pg' ]

  -- From the `memset` of the window on, for a file whose layout is `l`.
  unfoldable pub load_image :
      (image_base image_size stack_base stack_size : ℕ)
      → Ehdr
      → UserLayout
      → (file_buf : List ℕ) → Memory
      → P
      → Result UserImage × Memory × P
  load_image image_base image_size stack_base stack_size h l file_buf m pg =
      let (loaded, m') =
        load_loop image_base (image_base + image_size) (phdr_table h file_buf) file_buf 0
          (zero_bytes image_base image_size m) in
      elim loaded [
        | none ↦ (failed inval, m', pg)
        | some n ↦
            let m'' = zero_bytes stack_base stack_size m' in
            let (rc, pg') = mark_regions image_base image_size stack_base stack_size pg in
            if n == 0 then (failed inval, m', pg) else elim rc [
              | err e ↦ (failed e, m'', pg')
              | ok ↦ (
                done (record {
                  entry_eip = h.e_entry;
                  stack_top = stack_base + stack_size;
                  image_base = l.image_base;
                  image_size = l.image_size;
                }),
                m'',
                pg',
              )
            ]
      ]

  -- On what `elf32_read_file` returned; the layout must lie in the window.
  unfoldable pub load_file :
      (image_base image_size stack_base stack_size : ℕ)
      → (file_buf : List ℕ) → Memory
      → P
      → Result UserImage × Memory × P
  load_file image_base image_size stack_base stack_size file_buf m pg =
      elim (elf32_validate_ehdr file_buf) [
        | failed e ↦ (failed e, m, pg)
        | done h ↦ elim (elf32_collect_user_layout h file_buf) [
          | failed e ↦ (failed e, m, pg)
          | done l ↦
              if elf32_range_contains image_base image_size l.image_base l.image_size
              then load_image image_base image_size stack_base stack_size h l file_buf m pg
              else (failed inval, m, pg)
        ]
      ]

  unfoldable pub elf32_load_user_static_path :
      (read_file : Result (List ℕ))
      → (image_base image_size stack_base stack_size : ℕ) → Memory
      → P
      → Result UserImage × Memory × P
  elf32_load_user_static_path read_file image_base image_size stack_base stack_size m pg =
      if not (windows_ok image_base image_size stack_base stack_size)
      then (failed inval, m, pg)
      else elim read_file [
        | failed e ↦ (failed e, m, pg)
        | done file_buf ↦ load_file image_base image_size stack_base stack_size file_buf m pg
      ]

  -- The file is read twice.
  unfoldable pub elf32_load_user_static_path_auto :
      (first second : Result (List ℕ))
      → (stack_base stack_size : ℕ) → Memory
      → P
      → Result UserImage × Memory × P
  elf32_load_user_static_path_auto first second stack_base stack_size m pg =
      elim (elf32_inspect_user_static_path first) [
        | failed e ↦ (failed e, m, pg)
        | done l ↦
            elf32_load_user_static_path second l.image_base l.image_size stack_base stack_size m pg
      ]
