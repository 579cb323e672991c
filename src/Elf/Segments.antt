-- ===== src/Elf/Segments.antt =====
-- The loop of kernel/elf32_loader.c that checks the segments and collects the image's window.
use mathlib.Core.Path.{subst}
use skez_os.Prelude.{
  ℕ, zero, suc, ◌+◌, ◌%◌, ◌^◌, ◌≤◌, ◌<◌, ◌≡◌, ◌≢◌, refl, sym, ◌∙◌, inl, inr, true, false, Option,
  none, some, List, [], ◌∷◌, arith, ltb, ◌==◌, if◌then◌else◌, Bool-cases, Option-cases,
}
use skez_os.Elf.{
  page_size, early_map_bytes, Ehdr, Phdr, Window, is_loaded, phdr_at, phdrs_at, phdr_table,
  elf32_page_floor, elf32_page_ceil, elf32_add_u32_ok, grow, check_segment, segment_window,
  segments_window,
}

pub elf32_add_u32_ok-some :
    (a b : ℕ) {s : ℕ}
    → a < 2 ^ 32
    → b < 2 ^ 32
    → elf32_add_u32_ok a b ≡ some s
    → (s ≡ a + b) × (a + b < 2 ^ 32)
unfolding elf32_add_u32_ok
elf32_add_u32_ok-some a b la lb e = ground (arith, e)

-- Each entry that is loaded satisfies `P`.
abbrev pub Each : (Phdr → Type 0) → List Phdr → Type 0
Each P [] = Unit {0}
Each P (ph ∷ phs) = (is_loaded ph ≡ true → P ph) × Each P phs

-- The fields are 32-bit words.
pub record IsPhdr (ph : Phdr) : Type 0 where
  pub offset_word : ph.p_offset < 2 ^ 32
  pub vaddr_word : ph.p_vaddr < 2 ^ 32
  pub filesz_word : ph.p_filesz < 2 ^ 32
  pub memsz_word : ph.p_memsz < 2 ^ 32

abbrev pub AllPhdrs : List Phdr → Type 0
AllPhdrs [] = Unit {0}
AllPhdrs (ph ∷ phs) = IsPhdr ph × AllPhdrs phs

pub phdrs_at-AllPhdrs : (buf : List ℕ) (n i : ℕ) → AllPhdrs (phdrs_at buf n i)
unfolding phdrs_at phdr_at
phdrs_at-AllPhdrs buf zero i = tt
phdrs_at-AllPhdrs buf (suc n) i = (
  record {
    offset_word = omega arith;
    vaddr_word = omega arith;
    filesz_word = omega arith;
    memsz_word = omega arith;
  },
  phdrs_at-AllPhdrs buf n (i + 32),
)

pub phdr_table-AllPhdrs : (h : Ehdr) (buf : List ℕ) → AllPhdrs (phdr_table h buf)
unfolding phdr_table
phdr_table-AllPhdrs h buf = phdrs_at-AllPhdrs buf h.e_phnum h.e_phoff

-- A segment whose bytes lie in the file and whose memory lies between `base` and `end`.
pub record Fits (file_size base end : ℕ) (ph : Phdr) : Type 0 where
  pub sizes : ph.p_filesz ≤ ph.p_memsz
  pub in_file : ph.p_offset + ph.p_filesz ≤ file_size
  pub base_le : base ≤ ph.p_vaddr
  pub le_end : ph.p_vaddr + ph.p_memsz ≤ end

pub check_segment-some :
    (n : ℕ) {ph : Phdr} {s : ℕ}
    → IsPhdr ph
    → check_segment n ph ≡ some s
    → (s ≡ ph.p_vaddr + ph.p_memsz)
      × (s < 2 ^ 32)
      × (ph.p_filesz ≤ ph.p_memsz)
      × (ph.p_offset + ph.p_filesz ≤ n)
unfolding check_segment elf32_add_u32_ok
check_segment-some n {ph} w e =
    ground (arith, e, w.offset_word, w.vaddr_word, w.filesz_word, w.memsz_word)

-- A window that is empty or made of whole pages of the early map.
abbrev pub IsWindow : Window → Type 0
IsWindow w =
    w.load_segments ≢ 0
    → (w.image_base % page_size ≡ 0)
      × (w.image_end % page_size ≡ 0)
      × (w.image_base < w.image_end)
      × (w.image_end ≤ early_map_bytes)

abbrev pub Wider : Window → Window → Type 0
Wider w v =
    w.load_segments ≢ 0
    → (v.load_segments ≢ 0) × (v.image_base ≤ w.image_base) × (w.image_end ≤ v.image_end)

-- What one segment does to the window.
abbrev Grown : ℕ → Phdr → Window → Window → Type 0
Grown n ph w v = IsWindow v × Wider w v × (v.load_segments ≢ 0) × Fits n v.image_base v.image_end ph

elf32_page_ceil-some :
    (a : ℕ) {r : ℕ} → a < 2 ^ 32 → elf32_page_ceil a ≡ some r → (a ≤ r) × (r % page_size ≡ 0)
unfolding elf32_page_ceil
elf32_page_ceil-some a lt e = ground (arith, e)

elf32_page_floor_lem : (a : ℕ) → (elf32_page_floor a ≤ a) × (elf32_page_floor a % page_size ≡ 0)
unfolding elf32_page_floor
elf32_page_floor_lem a = (omega arith, omega arith)

memsz_pos : (ph : Phdr) → is_loaded ph ≡ true → ph.p_memsz ≢ 0
memsz_pos ph e = ground (arith, e)

grow-Grown :
    (n : ℕ) (ph : Phdr) (w : Window) (b r : ℕ)
    → IsWindow w
    → (b ≤ ph.p_vaddr) × (b % page_size ≡ 0)
    → (ph.p_vaddr + ph.p_memsz ≤ r) × (r % page_size ≡ 0)
    → r ≤ early_map_bytes
    → ph.p_memsz ≢ 0
    → (ph.p_filesz ≤ ph.p_memsz) × (ph.p_offset + ph.p_filesz ≤ n)
    → Grown n ph w (grow b r w)
unfolding grow
grow-Grown n ph w b r iw (b1, b2) (r1, r2) low pos (f1, f2) =
    elim (Bool-cases (w.load_segments == 0)) [
      | inl e ↦
          let z : w.load_segments ≡ 0 = ground arith in
          rw e (
            λ _. (b2, r2, omega arith, low),
            λ nz. absurd (nz z),
            (λ q. omega arith),
            record { sizes = f1; in_file = f2; base_le = b1; le_end = r1 },
          )
      | inr e ↦
          let nz : w.load_segments ≢ 0 = ground arith in
          let (i1, i2, i3, i4) = iw nz in
          (
            λ _. (ground arith, ground arith, ground arith, ground arith),
            λ _. (ground arith, ground arith, ground arith),
            (λ q. omega arith),
            record { sizes = f1; in_file = f2; base_le = ground arith; le_end = ground arith },
          )
    ]

segment_window-Grown :
    (n : ℕ) (ph : Phdr) (w : Window) {v : Window}
    → IsPhdr ph
    → is_loaded ph ≡ true
    → IsWindow w
    → segment_window n ph w ≡ some v
    → Grown n ph w v
unfolding segment_window
segment_window-Grown n ph w {v} words loaded iw e = checked (check_segment n ph) refl e
  where
    rounded :
        (s : ℕ)
        → check_segment n ph ≡ some s
        → (o : Option ℕ) → elf32_page_ceil s ≡ o
        → elim o [
          | none ↦ none
          | some r ↦
              if ltb early_map_bytes r then none else some (grow (elf32_page_floor ph.p_vaddr) r w)
        ]
          ≡ some v
        → Grown n ph w v
    rounded s h none c q = absurd (ground (arith, q))
    rounded s h (some r) c q =
        let (same, small, f1, f2) = check_segment-some n words h in
        let (up, whole) = elf32_page_ceil-some s small c in
        let low : ltb early_map_bytes r ≡ false = ground (arith, q) in
        let at_v : grow (elf32_page_floor ph.p_vaddr) r w ≡ v = ground (arith, q) in
        subst (Grown n ph w) at_v (
          grow-Grown n ph w (elf32_page_floor ph.p_vaddr) r iw (elf32_page_floor_lem ph.p_vaddr)
            (omega arith, whole) (ground arith) (memsz_pos ph loaded) (f1, f2))

    checked :
        (o : Option ℕ)
        → check_segment n ph ≡ o
        → elim o [
          | none ↦ none
          | some s ↦ elim (elf32_page_ceil s) [
            | none ↦ none
            | some r ↦
                if ltb early_map_bytes r
                then none
                else some (grow (elf32_page_floor ph.p_vaddr) r w)
          ]
        ]
          ≡ some v
        → Grown n ph w v
    checked none h q = absurd (ground (arith, q))
    checked (some s) h q = rounded s h (elf32_page_ceil s) refl q

-- What the loop has checked when it ends.
abbrev pub Collected : ℕ → List Phdr → Window → Window → Type 0
Collected n phs w v =
    IsWindow v × Wider w v × (v.load_segments ≢ 0 → Each (Fits n v.image_base v.image_end) phs)

none-some {ℓ} : {A : Type ℓ} {a : A} → ¬ (none ≡ some a)
none-some e = ground (arith, e)

loop-stop : (n : ℕ) (w : Window) {v : Window} → segments_window n [] w ≡ some v → w ≡ v
unfolding segments_window
loop-stop n w e = ground (arith, e)

loop-skip :
    (n : ℕ) (ph : Phdr) (phs : List Phdr) (w : Window)
    → is_loaded ph ≡ false
    → segments_window n (ph ∷ phs) w ≡ segments_window n phs w
unfolding segments_window
loop-skip n ph phs w e = rw (e, segments_window)

loop-fail :
    (n : ℕ) (ph : Phdr) (phs : List Phdr) (w : Window)
    → is_loaded ph ≡ true
    → segment_window n ph w ≡ none
    → segments_window n (ph ∷ phs) w ≡ none
unfolding segments_window
loop-fail n ph phs w e h = rw (e, h, segments_window)

loop-next :
    (n : ℕ) (ph : Phdr) (phs : List Phdr) (w : Window) {u : Window}
    → is_loaded ph ≡ true
    → segment_window n ph w ≡ some u
    → segments_window n (ph ∷ phs) w ≡ segments_window n phs u
unfolding segments_window
loop-next n ph phs w e h = rw (e, h, segments_window)

Fits-Wider : {n b e b' e' : ℕ} {ph : Phdr} → Fits n b e ph → (b' ≤ b) × (e ≤ e') → Fits n b' e' ph
Fits-Wider f (lo, hi) = record {
  sizes = f.sizes;
  in_file = f.in_file;
  base_le = omega (arith, f.base_le);
  le_end = omega (arith, f.le_end);
}

pub segments_window-Collected :
    (n : ℕ) (phs : List Phdr) (w : Window) {v : Window}
    → AllPhdrs phs
    → IsWindow w
    → segments_window n phs w ≡ some v
    → Collected n phs w v
segments_window-Collected n [] w {v} all iw e =
    subst (Collected n [] w) (loop-stop n w e) (iw, (λ nz. (nz, omega arith, omega arith)), λ _. tt)
segments_window-Collected n (ph ∷ phs) w {v} (words, all) iw e = elim (Bool-cases (is_loaded ph)) [
  | inr skip ↦
      let (a, b, c) =
        segments_window-Collected n phs w all iw (sym (loop-skip n ph phs w skip) ∙ e) in
      (a, b, λ nz. ((λ q. absurd (ground (arith, q, skip))), c nz))
  | inl loaded ↦ elim (Option-cases (segment_window n ph w)) [
    | inl h ↦ absurd (none-some (sym (loop-fail n ph phs w loaded h) ∙ e))
    | inr (u, h) ↦
        let (gw, gwider, gnz, gfits) = segment_window-Grown n ph w words loaded iw h in
        let (a, b, c) =
          segments_window-Collected n phs u all gw (sym (loop-next n ph phs w loaded h) ∙ e) in
        let (d, lo, hi) = b gnz in
        (
          a,
          λ nz. let (x, y, z) = gwider nz in (d, omega arith, omega arith),
          λ nz. ((λ _. Fits-Wider gfits (lo, hi)), c nz),
        )
  ]
]
