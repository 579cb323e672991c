-- ===== src/Tests/Images.antt =====
-- Runs of kernel/elf32_loader.c on a file with one segment.
use skez_os.Prelude.{ℕ, ◌+◌, arith, true, ◌≡◌, refl, List, [], ◌∷◌, Status, ok}
use skez_os.Elf.{
  Result, failed, done, UserLayout, ehdr_at_start, phdr_table, elf32_inspect_user_static_path,
}
use skez_os.Elf.Layout.{IsLayout, elf32_inspect_user_static_path-IsLayout}
use skez_os.Elf.Auto.{elf32_load_user_static_path_auto-done}
use skez_os.Elf.Load.{
  windows_ok, mark_regions, elf32_load_user_static_path_auto, Memory, UserImage,
  elf32_load_user_static_path,
}
use skez_os.Elf.Image.{Writes, elf32_load_user_static_path-Writes}

-- The two bytes after the headers go to 2 MiB, with two zeros behind them.
abbrev small_file : List ℕ
small_file =
    127 ∷ 69 ∷ 76 ∷ 70 ∷ 1 ∷ 1 ∷ 1 ∷ 0 ∷ 0 ∷ 0 ∷ 0 ∷ 0 ∷ 0 ∷ 0 ∷ 0 ∷ 0 ∷ 2 ∷ 0 ∷ 3 ∷ 0 ∷ 1 ∷ 0 ∷ 0
    ∷ 0 ∷ 0 ∷ 0 ∷ 32 ∷ 0 ∷ 52 ∷ 0 ∷ 0 ∷ 0 ∷ 0 ∷ 0 ∷ 0 ∷ 0 ∷ 0 ∷ 0 ∷ 0 ∷ 0 ∷ 52 ∷ 0 ∷ 32 ∷ 0 ∷ 1 ∷ 0
    ∷ 0 ∷ 0 ∷ 0 ∷ 0 ∷ 0 ∷ 0 ∷ 1 ∷ 0 ∷ 0 ∷ 0 ∷ 84 ∷ 0 ∷ 0 ∷ 0 ∷ 0 ∷ 0 ∷ 32 ∷ 0 ∷ 0 ∷ 0 ∷ 0 ∷ 0 ∷ 2
    ∷ 0 ∷ 0 ∷ 0 ∷ 4 ∷ 0 ∷ 0 ∷ 0 ∷ 0 ∷ 0 ∷ 0 ∷ 0 ∷ 0 ∷ 0 ∷ 0 ∷ 0 ∷ 144 ∷ 195 ∷ []

abbrev small_layout : UserLayout
small_layout = record { entry_eip = 2097152; image_base = 2097152; image_size = 4096 }

small_file_run : elf32_inspect_user_static_path (done small_file) ≡ done small_layout
unfolding elf32_inspect_user_static_path skez_os.Elf.elf32_validate_ehdr ehdr_at_start
    skez_os.Elf.elf32_collect_user_layout skez_os.Elf.elf32_mul_u32_ok skez_os.Elf.elf32_add_u32_ok
    skez_os.Elf.segments_window phdr_table skez_os.Elf.phdrs_at skez_os.Elf.phdr_at
    skez_os.Elf.segment_window skez_os.Elf.check_segment skez_os.Elf.elf32_page_ceil
    skez_os.Elf.window_layout skez_os.Elf.grow skez_os.Elf.elf32_page_floor
    skez_os.Elf.elf32_range_contains
small_file_run = refl

elf32_inspect_user_static_path-IsLayout_example :
    IsLayout (ehdr_at_start small_file) small_file small_layout
elf32_inspect_user_static_path-IsLayout_example =
    elf32_inspect_user_static_path-IsLayout small_file small_file_run

abbrev no_paging : ℕ → ℕ → ℕ → Status × ℕ
no_paging base size pg = (ok, pg)

abbrev blank : Memory
blank a = 1

-- The second byte, a zero behind it, the stack, and a byte outside.
load_run :
    let out =
      elf32_load_user_static_path no_paging (done small_file) 2097152 4096 4194304 4096 blank 0 in
    (out.1 2097153 ≡ 195) × (out.1 2097154 ≡ 0) × (out.1 4194304 ≡ 0) × (out.1 100 ≡ 1)
unfolding elf32_load_user_static_path skez_os.Elf.Load.load_file skez_os.Elf.elf32_validate_ehdr
    ehdr_at_start skez_os.Elf.elf32_collect_user_layout skez_os.Elf.elf32_mul_u32_ok
    skez_os.Elf.elf32_add_u32_ok skez_os.Elf.segments_window phdr_table skez_os.Elf.phdrs_at
    skez_os.Elf.phdr_at skez_os.Elf.segment_window skez_os.Elf.check_segment
    skez_os.Elf.elf32_page_ceil skez_os.Elf.window_layout skez_os.Elf.grow
    skez_os.Elf.elf32_page_floor skez_os.Elf.elf32_range_contains skez_os.Elf.Load.copy_segment
    skez_os.Elf.Load.load_image skez_os.Elf.Load.load_loop skez_os.Elf.Load.load_segment
    skez_os.Elf.Load.mark_regions
load_run = (refl, refl, refl, refl)

elf32_load_user_static_path-Writes_example :
    Writes no_paging 2097152 4096 4194304 4096
      (phdr_table (ehdr_at_start small_file) small_file)
      small_file
      blank
      (elf32_load_user_static_path no_paging (done small_file) 2097152 4096 4194304 4096 blank 0)
elf32_load_user_static_path-Writes_example =
    elf32_load_user_static_path-Writes no_paging 2097152 4096 4194304 4096 small_file blank 0

windows_run : windows_ok 2097152 4096 4194304 4096 ≡ true
windows_run = refl

marks_run : (mark_regions no_paging 2097152 4096 4194304 4096 0).0 ≡ ok
unfolding mark_regions
marks_run = refl

elf32_load_user_static_path_auto-done_example :
    (elf32_load_user_static_path_auto no_paging
      (done small_file)
      (done small_file)
      4194304
      4096
      blank
      0).0
    ≡ done (record {
      entry_eip = 2097152;
      stack_top = 4194304 + 4096;
      image_base = 2097152;
      image_size = 4096;
    })
elf32_load_user_static_path_auto-done_example =
    elf32_load_user_static_path_auto-done no_paging small_file {l = small_layout} 4194304 4096 blank
      0 small_file_run (omega arith) windows_run marks_run
