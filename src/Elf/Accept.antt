-- ===== src/Elf/Accept.antt =====
-- The segments that the two loops of kernel/elf32_loader.c accept.
use skez_os.Prelude.{
  ℕ, ◌+◌, ◌%◌, ◌^◌, ◌<◌, ◌≡◌, sym, ap, ◌∙◌, inl, inr, true, false, ◌||◌, none, some, List, [], ◌∷◌,
  arith, ltb, if◌then◌else◌, length, Bool-cases, Option-cases,
}
use skez_os.Elf.{
  Phdr, Window, is_loaded, check_segment, elf32_add_u32_ok, segment_window, segments_window, grow,
}
use skez_os.Elf.Segments.{Each, Fits, IsPhdr, AllPhdrs}
use skez_os.Elf.Load.{Memory, copy_segment, load_segment, load_loop}

-- How many entries are loaded.
abbrev pub count_loaded : List Phdr → ℕ
count_loaded [] = 0
count_loaded (ph ∷ phs) = (if is_loaded ph then 1 else 0) + count_loaded phs

check_segment-accepts :
    (n b e : ℕ) {ph : Phdr}
    → IsPhdr ph
    → e < 2 ^ 32
    → n < 2 ^ 32
    → Fits n b e ph
    → check_segment n ph ≡ some (ph.p_vaddr + ph.p_memsz)
unfolding check_segment elf32_add_u32_ok
check_segment-accepts n b e {ph} words small file f =
    let ends : (ph.p_offset + ph.p_filesz) % 2 ^ 32 ≡ ph.p_offset + ph.p_filesz =
      omega (arith, f.in_file) in
    let top : (ph.p_vaddr + ph.p_memsz) % 2 ^ 32 ≡ ph.p_vaddr + ph.p_memsz =
      omega (arith, f.le_end) in
    ground (arith, ends, top, f.sizes, f.in_file)

load_segment-accepts :
    (b e : ℕ) {ph : Phdr} (buf : List ℕ) (m : Memory)
    → IsPhdr ph
    → e < 2 ^ 32
    → length buf < 2 ^ 32
    → Fits (length buf) b e ph
    → load_segment b e ph buf m ≡ some (copy_segment ph buf m)
unfolding load_segment
load_segment-accepts b e {ph} buf m words small file f =
    let inside : (ltb ph.p_vaddr b || ltb e (ph.p_vaddr + ph.p_memsz)) ≡ false =
      ground (arith, f.base_le, f.le_end) in
    rw (check_segment-accepts (length buf) b e words small file f, inside, load_segment)

loop-skip :
    (b e : ℕ) (ph : Phdr) (phs : List Phdr) (buf : List ℕ) (n : ℕ) (m : Memory)
    → is_loaded ph ≡ false
    → load_loop b e (ph ∷ phs) buf n m ≡ load_loop b e phs buf n m
unfolding load_loop
loop-skip b e ph phs buf n m s = rw (s, load_loop)

loop-next :
    (b e : ℕ) (ph : Phdr) (phs : List Phdr) (buf : List ℕ) (n : ℕ) (m : Memory) {m' : Memory}
    → is_loaded ph ≡ true
    → load_segment b e ph buf m ≡ some m'
    → load_loop b e (ph ∷ phs) buf n m ≡ load_loop b e phs buf (n + 1) m'
unfolding load_loop
loop-next b e ph phs buf n m s l = rw (s, l, load_loop)

-- Where every segment fits, the loop loads them all.
pub load_loop-accepts :
    (b e : ℕ) (phs : List Phdr) (buf : List ℕ) (n : ℕ) (m : Memory)
    → AllPhdrs phs
    → e < 2 ^ 32
    → length buf < 2 ^ 32
    → Each (Fits (length buf) b e) phs
    → (load_loop b e phs buf n m).0 ≡ some (n + count_loaded phs)
load_loop-accepts b e [] buf n m all small file each = none_left n m
  where
    none_left : (n : ℕ) (m : Memory) → (load_loop b e [] buf n m).0 ≡ some (n + 0)
    none_left n m = unfold load_loop in ap some (omega arith)
load_loop-accepts b e (ph ∷ phs) buf n m (words, all) small file (fits, each) =
    elim (Bool-cases (is_loaded ph)) [
      | inr s ↦
          rw (loop-skip b e ph phs buf n m s, s)
            (load_loop-accepts b e phs buf n m all small file each ∙ ap some (omega arith))
      | inl s ↦
          let l = load_segment-accepts b e buf m words small file (fits s) in
          rw (loop-next b e ph phs buf n m s l, s)
            (load_loop-accepts b e phs buf (n + 1) (copy_segment ph buf m) all small file each
              ∙ ap some (omega arith))
    ]

-- The collecting loop counts them too.
counted :
    (n : ℕ) (ph : Phdr) (w : Window) {v : Window}
    → segment_window n ph w ≡ some v
    → v.load_segments ≡ w.load_segments + 1
unfolding segment_window grow
counted n ph w {v} h = ground (arith, h)

skip :
    (n : ℕ) (ph : Phdr) (phs : List Phdr) (w : Window)
    → is_loaded ph ≡ false
    → segments_window n (ph ∷ phs) w ≡ segments_window n phs w
unfolding segments_window
skip n ph phs w e = rw (e, segments_window)

refuse :
    (n : ℕ) (ph : Phdr) (phs : List Phdr) (w : Window)
    → is_loaded ph ≡ true
    → segment_window n ph w ≡ none
    → segments_window n (ph ∷ phs) w ≡ none
unfolding segments_window
refuse n ph phs w e h = rw (e, h, segments_window)

next :
    (n : ℕ) (ph : Phdr) (phs : List Phdr) (w : Window) {u : Window}
    → is_loaded ph ≡ true
    → segment_window n ph w ≡ some u
    → segments_window n (ph ∷ phs) w ≡ segments_window n phs u
unfolding segments_window
next n ph phs w e h = rw (e, h, segments_window)

stop : (n : ℕ) (w : Window) {v : Window} → segments_window n [] w ≡ some v → w ≡ v
unfolding segments_window
stop n w e = ground (arith, e)

none-some {ℓ} : {A : Type ℓ} {a : A} → ¬ (none ≡ some a)
none-some e = ground (arith, e)

pub segments_window-count_loaded :
    (n : ℕ) (phs : List Phdr) (w : Window) {v : Window}
    → segments_window n phs w ≡ some v
    → v.load_segments ≡ w.load_segments + count_loaded phs
segments_window-count_loaded n [] w {v} e =
    let same : w.load_segments ≡ v.load_segments =
      ap (λ (x : Window). x.load_segments) (stop n w e) in
    omega (arith, same)
segments_window-count_loaded n (ph ∷ phs) w {v} e = elim (Bool-cases (is_loaded ph)) [
  | inr s ↦
      let rest = segments_window-count_loaded n phs w (sym (skip n ph phs w s) ∙ e) in
      rw s (omega (arith, rest))
  | inl s ↦ elim (Option-cases (segment_window n ph w)) [
    | inl h ↦ absurd (none-some (sym (refuse n ph phs w s h) ∙ e))
    | inr (u, h) ↦
        let rest = segments_window-count_loaded n phs u (sym (next n ph phs w s h) ∙ e) in
        rw s (omega (arith, rest, counted n ph w h))
  ]
]
