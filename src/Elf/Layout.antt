-- ===== src/Elf/Layout.antt =====
-- What kernel/elf32_loader.c has checked of a file when it returns the layout of its image.
use mathlib.Core.Path.{subst}
use skez_os.Prelude.{
  ℕ, ◌+◌, ◌-◌, ◌%◌, ◌^◌, ◌≤◌, ◌<◌, ◌≡◌, ◌≢◌, refl, inl, inr, true, some, List, arith, length,
  Option-cases,
}
use skez_os.Elf.{
  done, page_size, early_map_bytes, Ehdr, Window, UserLayout, phdr_table, elf32_add_u32_ok,
  elf32_range_contains, segments_window, window_layout, elf32_collect_user_layout,
  elf32_inspect_user_static_path, elf32_validate_ehdr, ehdr_at_start,
}
use skez_os.Elf.Segments.{Each, Fits, IsWindow, phdr_table-AllPhdrs, segments_window-Collected}

elf32_range_contains-true :
    (ob os ib is : ℕ)
    → ob < 2 ^ 32
    → os < 2 ^ 32
    → ib < 2 ^ 32
    → is < 2 ^ 32
    → elf32_range_contains ob os ib is ≡ true
    → (ob ≤ ib) × (ib + is ≤ ob + os)
unfolding elf32_range_contains elf32_add_u32_ok
elf32_range_contains-true ob os ib is h1 h2 h3 h4 e = ground (arith, e)

-- What the layout of an image promises: whole pages of the early map that hold the entry point, and
-- every segment that is loaded, whose bytes are in the file.
pub record IsLayout (h : Ehdr) (file_buf : List ℕ) (l : UserLayout) : Type 0 where
  pub base_aligned : l.image_base % page_size ≡ 0
  pub size_aligned : l.image_size % page_size ≡ 0
  pub mapped : l.image_base + l.image_size ≤ early_map_bytes
  pub entry : l.entry_eip ≡ h.e_entry
  pub entry_in : (l.image_base ≤ h.e_entry) × (h.e_entry < l.image_base + l.image_size)
  pub segments :
      Each
        (Fits (length file_buf) l.image_base (l.image_base + l.image_size))
        (phdr_table h file_buf)

window_layout-IsLayout :
    (h : Ehdr) (file_buf : List ℕ) (w : Window) {l : UserLayout}
    → h.e_entry < 2 ^ 32
    → IsWindow w
    → (w.load_segments ≢ 0
        → Each (Fits (length file_buf) w.image_base w.image_end) (phdr_table h file_buf))
    → window_layout h.e_entry w ≡ done l
    → IsLayout h file_buf l
unfolding window_layout
window_layout-IsLayout h file_buf w {l} word iw segs e =
    let nz : w.load_segments ≢ 0 = ground (arith, e) in
    let (a, b, c, d) = iw nz in
    let within : elf32_range_contains w.image_base (w.image_end - w.image_base) h.e_entry 1 ≡ true =
      ground (arith, e) in
    let (lo, hi) =
      elf32_range_contains-true w.image_base (w.image_end - w.image_base) h.e_entry 1 (omega arith)
        (omega arith) word (omega arith) within in
    let same : record {
      entry_eip = h.e_entry;
      image_base = w.image_base;
      image_size = w.image_end - w.image_base;
    }
        ≡ l =
      ground (arith, e) in
    let back : w.image_base + (w.image_end - w.image_base) ≡ w.image_end = omega arith in
    subst (IsLayout h file_buf) same (record {
      base_aligned = a;
      size_aligned = omega arith;
      mapped = omega arith;
      entry = refl;
      entry_in = (lo, omega arith);
      segments = rw back (segs nz);
    })

abbrev pub no_window : Window
no_window = record { load_segments = 0; image_base = 0; image_end = 0 }

pub collect-window :
    (h : Ehdr) (file_buf : List ℕ) {l : UserLayout}
    → elf32_collect_user_layout h file_buf ≡ done l
    → (w : Window) × (segments_window (length file_buf) (phdr_table h file_buf) no_window ≡ some w)
      × (window_layout h.e_entry w ≡ done l)
unfolding elf32_collect_user_layout
collect-window h file_buf {l} e =
    elim (Option-cases (segments_window (length file_buf) (phdr_table h file_buf) no_window)) [
      | inl s ↦ absurd (ground (arith, e, s))
      | inr (w, s) ↦ (w, s, ground (arith, e, s))
    ]

pub elf32_collect_user_layout-IsLayout :
    (h : Ehdr) (file_buf : List ℕ) {l : UserLayout}
    → h.e_entry < 2 ^ 32
    → elf32_collect_user_layout h file_buf ≡ done l
    → IsLayout h file_buf l
elf32_collect_user_layout-IsLayout h file_buf {l} word e =
    let (w, s, d) = collect-window h file_buf e in
    let all = phdr_table-AllPhdrs h file_buf in
    let (iw, wider, fits) =
      segments_window-Collected (length file_buf) (phdr_table h file_buf) no_window all
        (λ nz. absurd (nz refl)) s in
    window_layout-IsLayout h file_buf w word iw fits d

pub inspect-headers :
    (file_buf : List ℕ) {l : UserLayout}
    → elf32_inspect_user_static_path (done file_buf) ≡ done l
    → elf32_collect_user_layout (ehdr_at_start file_buf) file_buf ≡ done l
unfolding elf32_inspect_user_static_path elf32_validate_ehdr
inspect-headers file_buf e = ground (arith, e)

entry_word : (file_buf : List ℕ) → (ehdr_at_start file_buf).e_entry < 2 ^ 32
unfolding ehdr_at_start
entry_word file_buf = omega arith

-- When `elf32_inspect_user_static_path` gives a layout for the bytes of a file, the layout is made of
-- whole pages below 32 MiB, it holds the entry point of the file's header, and every loadable segment
-- of the program header table has its bytes in the file and its memory in the image.
pub elf32_inspect_user_static_path-IsLayout :
    (file_buf : List ℕ) {l : UserLayout}
    → elf32_inspect_user_static_path (done file_buf) ≡ done l
    → IsLayout (ehdr_at_start file_buf) file_buf l
elf32_inspect_user_static_path-IsLayout file_buf e =
    elf32_collect_user_layout-IsLayout (ehdr_at_start file_buf) file_buf (entry_word file_buf)
      (inspect-headers file_buf e)
