-- ===== src/Elf/Auto.antt =====
-- `elf32_load_user_static_path_auto` of kernel/elf32_loader.c.
use skez_os.Prelude.{
  ℕ, ◌+◌, ◌^◌, ◌<◌, ◌≡◌, ◌≢◌, refl, true, false, List, arith, ◌==◌, length, Status, ok,
}
use skez_os.Elf.{
  done, Window, UserLayout, phdr_table, elf32_add_u32_ok, elf32_range_contains, window_layout,
  ehdr_at_start, elf32_validate_ehdr, elf32_inspect_user_static_path,
}
use skez_os.Elf.Segments.{phdr_table-AllPhdrs}
use skez_os.Elf.Layout.{
  collect-window, no_window, inspect-headers, elf32_inspect_user_static_path-IsLayout,
}
use skez_os.Elf.Load.{
  Memory, windows_ok, mark_regions, zero_bytes, elf32_load_user_static_path_auto,
}
use skez_os.Elf.Accept.{count_loaded, load_loop-accepts, segments_window-count_loaded}
use skez_os.Elf.Image.{image-done, file-fit, path-loaded}

inspect-valid :
    (buf : List ℕ) {l : UserLayout}
    → elf32_inspect_user_static_path (done buf) ≡ done l
    → elf32_validate_ehdr buf ≡ done (ehdr_at_start buf)
unfolding elf32_inspect_user_static_path elf32_validate_ehdr
inspect-valid buf e = ground (arith, e)

layout-counted :
    (entry : ℕ) (w : Window) {l : UserLayout} → window_layout entry w ≡ done l → w.load_segments ≢ 0
unfolding window_layout
layout-counted entry w e = ground (arith, e)

same_range : (b n : ℕ) → b + n < 2 ^ 32 → elf32_range_contains b n b n ≡ true
unfolding elf32_range_contains elf32_add_u32_ok
same_range b n lt = ground (arith, lt)

module _ {P : Type 0} (mark : (base size : ℕ) → P → Status × P) (buf : List ℕ) {l : UserLayout}
    (sb ss : ℕ) (m : Memory) (pg : P)
    (inspected : elf32_inspect_user_static_path (done buf) ≡ done l) (file : length buf < 2 ^ 32)
    (windows : windows_ok l.image_base l.image_size sb ss ≡ true)
    (marks : (mark_regions mark l.image_base l.image_size sb ss pg).0 ≡ ok) where
  some_loaded : (0 + count_loaded (phdr_table (ehdr_at_start buf) buf) == 0) ≡ false
  some_loaded =
      let (w, s, d) = collect-window (ehdr_at_start buf) buf (inspect-headers buf inspected) in
      let nz = layout-counted (ehdr_at_start buf).e_entry w d in
      let same =
        segments_window-count_loaded (length buf) (phdr_table (ehdr_at_start buf) buf) no_window
          s in
      ground (arith, nz, same)

  -- When a file of less than 2^32 bytes has a layout by `elf32_inspect_user_static_path`, the image
  -- window of that layout and the stack window pass the window checks, both regions can be marked, and
  -- the file reads the same twice, `elf32_load_user_static_path_auto` returns 0 with the entry point
  -- and the image of the layout and the top of the stack: no segment that was accepted for the layout
  -- is refused for loading.
  pub elf32_load_user_static_path_auto-done :
      (elf32_load_user_static_path_auto mark (done buf) (done buf) sb ss m pg).0
      ≡ done (record {
        entry_eip = l.entry_eip;
        stack_top = sb + ss;
        image_base = l.image_base;
        image_size = l.image_size;
      })
  unfolding elf32_load_user_static_path_auto
  elf32_load_user_static_path_auto-done =
      let h = ehdr_at_start buf in
      let lay = elf32_inspect_user_static_path-IsLayout buf inspected in
      let b = l.image_base in
      let n = l.image_size in
      let top : b + n < 2 ^ 32 = omega (arith, lay.mapped) in
      let looped =
        load_loop-accepts b (b + n) (phdr_table h buf) buf 0 (zero_bytes b n m)
          (phdr_table-AllPhdrs h buf) top file lay.segments in
      let fit =
        file-fit mark b n sb ss buf m pg (inspect-valid buf inspected)
          (inspect-headers buf inspected) in
      rw (inspected, elf32_load_user_static_path_auto)
        (rw
          (
            path-loaded mark b n sb ss buf m pg windows,
            fit,
            same_range b n top,
            image-done mark b n sb ss h l buf m pg looped some_loaded marks,
            lay.entry,
          )
          refl)
