-- ===== src/Elf/Bytes.antt =====
-- The bytes that the loading loop of kernel/elf32_loader.c writes to memory.
use skez_os.Prelude.{
  ℕ, ◌+◌, ◌-◌, ◌≤◌, ◌<◌, ◌≡◌, ◌≢◌, refl, sym, ap, ◌∙◌, inl, inr, true, false, Option, none, some,
  List, [], ◌∷◌, arith, ltb, if◌then◌else◌, length, get_or, Bool-cases, Option-cases, ◌⊎◌,
}
use skez_os.Elf.{Phdr, is_loaded, check_segment}
use skez_os.Elf.Segments.{Fits, IsPhdr, AllPhdrs, check_segment-some}
use skez_os.Elf.Load.{Memory, within, copy_segment, load_segment, load_loop}

-- What a segment puts at address `a`, where `old` stands.
abbrev pub segment_byte : Phdr → List ℕ → (a old : ℕ) → ℕ
segment_byte ph buf a old =
    if within ph.p_vaddr ph.p_memsz a
    then if ltb (a - ph.p_vaddr) ph.p_filesz
      then get_or buf (ph.p_offset + (a - ph.p_vaddr)) 0
      else 0
    else old

-- What the segments put there, the later ones over the earlier.
abbrev pub image_byte : List Phdr → List ℕ → (a old : ℕ) → ℕ
image_byte [] buf a old = old
image_byte (ph ∷ phs) buf a old =
    image_byte phs buf a (if is_loaded ph then segment_byte ph buf a old else old)

copy_segment_lem :
    (ph : Phdr) (buf : List ℕ) (m : Memory) (a : ℕ)
    → ph.p_filesz ≤ ph.p_memsz
    → copy_segment ph buf m a ≡ segment_byte ph buf a (m a)
unfolding copy_segment
copy_segment_lem ph buf m a le = ground (arith, le)

load_segment-some :
    (b e : ℕ) (ph : Phdr) (buf : List ℕ) (m : Memory) {m' : Memory}
    → IsPhdr ph
    → load_segment b e ph buf m ≡ some m'
    → Fits (length buf) b e ph × (copy_segment ph buf m ≡ m')
unfolding load_segment
load_segment-some b e ph buf m words h = elim (Option-cases (check_segment (length buf) ph)) [
  | inl c ↦ absurd (ground (arith, h, c))
  | inr (s, c) ↦
      let (same, small, f1, f2) = check_segment-some (length buf) words c in
      (
        record {
          sizes = f1;
          in_file = f2;
          base_le = ground (arith, h, c);
          le_end = ground (arith, h, c, same);
        },
        ground (arith, h, c),
      )
]

abbrev pub Outside : (b e a : ℕ) → Type 0
Outside b e a = (a < b) ⊎ (e ≤ a)

segment_byte-Outside :
    (b e a old : ℕ) (ph : Phdr) (buf : List ℕ)
    → Fits (length buf) b e ph
    → Outside b e a
    → segment_byte ph buf a old ≡ old
segment_byte-Outside b e a old ph buf f out =
    let past : within ph.p_vaddr ph.p_memsz a ≡ false = ground (arith, out, f.base_le, f.le_end) in
    rw past

module _ (b e : ℕ) (ph : Phdr) (phs : List Phdr) (buf : List ℕ) (n : ℕ) (m : Memory) where
  loop-skip : is_loaded ph ≡ false → load_loop b e (ph ∷ phs) buf n m ≡ load_loop b e phs buf n m
  unfolding load_loop
  loop-skip s = rw (s, load_loop)

  loop-refuse :
      is_loaded ph ≡ true
      → load_segment b e ph buf m ≡ none
      → load_loop b e (ph ∷ phs) buf n m ≡ (none, m)
  unfolding load_loop
  loop-refuse s l = rw (s, l, load_loop)

  loop-next :
      {m' : Memory}
      → is_loaded ph ≡ true
      → load_segment b e ph buf m ≡ some m'
      → load_loop b e (ph ∷ phs) buf n m ≡ load_loop b e phs buf (n + 1) m'
  unfolding load_loop
  loop-next s l = rw (s, l, load_loop)

-- What the loop does to memory: nothing outside the window, and when it ends the segments' bytes.
abbrev pub Loaded : (b e : ℕ) → List Phdr → List ℕ → Memory → Option ℕ × Memory → Type 0
Loaded b e phs buf m out =
    ((a : ℕ) → Outside b e a → out.1 a ≡ m a)
    × (out.0 ≢ none → (a : ℕ) → out.1 a ≡ image_byte phs buf a (m a))

pub load_loop-Loaded :
    (b e : ℕ) (phs : List Phdr) (buf : List ℕ) (n : ℕ) (m : Memory)
    → AllPhdrs phs
    → Loaded b e phs buf m (load_loop b e phs buf n m)
unfolding load_loop
load_loop-Loaded b e [] buf n m all = ((λ a _. refl), λ _ a. refl)
load_loop-Loaded b e (ph ∷ phs) buf n m (words, all) = elim (Bool-cases (is_loaded ph)) [
  | inr s ↦
      let (frame, bytes) = load_loop-Loaded b e phs buf n m all in
      rw (loop-skip b e ph phs buf n m s, s) (frame, bytes)
  | inl s ↦ elim (Option-cases (load_segment b e ph buf m)) [
    | inl l ↦ rw (loop-refuse b e ph phs buf n m s l) ((λ a _. refl), λ q. absurd (q refl))
    | inr (m', l) ↦
        let (fits, same) = load_segment-some b e ph buf m words l in
        let (frame, bytes) = load_loop-Loaded b e phs buf (n + 1) m' all in
        let at_m' =
          λ (a : ℕ). ap (λ (f : Memory). f a) (sym same) ∙ copy_segment_lem ph buf m a fits.sizes in
        rw (loop-next b e ph phs buf n m s l, s)
          (
            (λ a out. frame a out ∙ at_m' a ∙ segment_byte-Outside b e a (m a) ph buf fits out),
            λ q a. bytes q a ∙ ap (image_byte phs buf a) (at_m' a),
          )
  ]
]
