-- ===== src/Pmm/Bits.antt =====
-- The bitmap of kernel/pmm.c: reading a bit after a write, and the search for the first clear bit.
use native.Mathlib.Decide.{ℕ_discrete, dec_lt}
use skez_os.Prelude.{
  ℕ, zero, suc, ◌+◌, ◌-◌, ◌*◌, ◌/◌, ◌%◌, ◌≤◌, ◌<◌, ◌≡◌, ◌≢◌, refl, sym, ap, ◌∙◌, inl, inr, Bool,
  true, false, Option, none, some, List, [], ◌∷◌, arith, leb, length, length-set, get_or, set,
  get_or-set_self, get_or-set_ne, Bool-cases,
}
use skez_os.Pmm.{Word, bit, put_bit, scan_bits, scan_words, all_ones}

-- Every word has 32 bits.
abbrev pub AllWords : List Word → Type 0
AllWords [] = Unit {0}
AllWords (w ∷ ws) = (length w ≡ 32) × AllWords ws

AllWords-get : (ws : List Word) (i : ℕ) → AllWords ws → i < length ws → length (get_or ws i []) ≡ 32
AllWords-get [] i all h = absurd (omega arith)
AllWords-get (w ∷ ws) zero all h = all.0
AllWords-get (w ∷ ws) (suc i) all h = AllWords-get ws i all.1 (omega arith)

AllWords-set :
    (ws : List Word) (i : ℕ) (w : Word) → AllWords ws → length w ≡ 32 → AllWords (set ws i w)
AllWords-set [] i w all h = tt
AllWords-set (v ∷ ws) zero w all h = (h, all.1)
AllWords-set (v ∷ ws) (suc i) w all h = (all.0, AllWords-set ws i w all.1 h)

module _ (ws : List Word) (frame : ℕ) (b : Bool) (all : AllWords ws)
    (room : frame < 32 * length ws) where
  word_in : frame / 32 < length ws
  word_in = omega arith

  word_size : length (get_or ws (frame / 32) []) ≡ 32
  word_size = AllWords-get ws (frame / 32) all word_in

  pub put_bit-AllWords : AllWords (put_bit ws frame b)
  put_bit-AllWords =
      AllWords-set ws (frame / 32) (set (get_or ws (frame / 32) []) (frame % 32) b) all
        (length-set (get_or ws (frame / 32) []) (frame % 32) b ∙ word_size)

  pub length-put_bit : length (put_bit ws frame b) ≡ length ws
  length-put_bit = length-set ws (frame / 32) (set (get_or ws (frame / 32) []) (frame % 32) b)

  pub bit-put_bit_self : bit (put_bit ws frame b) frame ≡ b
  bit-put_bit_self =
      rw
        (get_or-set_self ws (frame / 32) (set (get_or ws (frame / 32) []) (frame % 32) b) []
          word_in)
        (get_or-set_self (get_or ws (frame / 32) []) (frame % 32) b false
          (omega (arith, word_size)))

  pub bit-put_bit_ne : (f : ℕ) → f ≢ frame → bit (put_bit ws frame b) f ≡ bit ws f
  bit-put_bit_ne f ne =
      let w : Word = set (get_or ws (frame / 32) []) (frame % 32) b in
      elim (ℕ_discrete (f / 32) (frame / 32)) [
        | no other ↦
            ap (λ v. get_or v (f % 32) false)
              (get_or-set_ne ws (frame / 32) (f / 32) w [] (λ e. other (sym e)))
        | yes same ↦
            rw (same, get_or-set_self ws (frame / 32) w [] word_in)
              (get_or-set_ne (get_or ws (frame / 32) []) (frame % 32) (f % 32) b false
                (omega arith))
      ]

-- The first place of `len` from `base` on, below `n`, where `p` does not hold.
abbrev pub First : (n base len : ℕ) → (ℕ → Bool) → Option ℕ → Type 0
First n base len p none = (k : ℕ) → k < len → base + k < n → p k ≡ true
First n base len p (some f) =
    (j : ℕ) × (f ≡ base + j) × (f < n) × (j < len) × (p j ≡ false) × ((k : ℕ) → k < j → p k ≡ true)

abbrev pub bits_of : Word → ℕ → Bool
bits_of w k = get_or w k false

skip_none :
    (n base : ℕ) (bs : Word)
    → First n (base + 1) (length bs) (bits_of bs) none
    → First n base (suc (length bs)) (bits_of (true ∷ bs)) none
skip_none n base bs h zero lt lt' = refl
skip_none n base bs h (suc k) lt lt' = h k (omega arith) (omega arith)

skip_before :
    (bs : Word) (j : ℕ)
    → ((k : ℕ) → k < j → bits_of bs k ≡ true)
    → (k : ℕ) → k < suc j
    → bits_of (true ∷ bs) k ≡ true
skip_before bs j before zero lt = refl
skip_before bs j before (suc k) lt = before k (omega arith)

First-skip :
    (n base : ℕ) (bs : Word) (o : Option ℕ)
    → First n (base + 1) (length bs) (bits_of bs) o
    → First n base (suc (length bs)) (bits_of (true ∷ bs)) o
First-skip n base bs none h = skip_none n base bs h
First-skip n base bs (some f) (j, at, below, in_word, clear, before) =
    (suc j, omega arith, below, omega arith, clear, skip_before bs j before)

scan_bits-First :
    (n base : ℕ) (bs : Word) → First n base (length bs) (bits_of bs) (scan_bits n base bs)
unfolding scan_bits
scan_bits-First n base [] = λ k lt lt'. absurd (omega arith)
scan_bits-First n base (true ∷ bs) = elim (Bool-cases (leb n base)) [
  | inl e ↦ rw (e, scan_bits) (λ k lt lt'. absurd (ground arith))
  | inr e ↦
      rw (e, scan_bits)
        (First-skip n base bs (scan_bits n (base + 1) bs) (scan_bits-First n (base + 1) bs))
]
scan_bits-First n base (false ∷ bs) = elim (Bool-cases (leb n base)) [
  | inl e ↦ rw (e, scan_bits) (λ k lt lt'. absurd (ground arith))
  | inr e ↦
      rw (e, scan_bits)
        (0, omega arith, ground arith, omega arith, refl, λ k lt. absurd (omega arith))
]

all_ones_lem : (w : Word) (k : ℕ) → all_ones w ≡ true → k < length w → bits_of w k ≡ true
unfolding all_ones
all_ones_lem [] k e lt = absurd (omega arith)
all_ones_lem (b ∷ bs) zero e lt = ground arith
all_ones_lem (b ∷ bs) (suc k) e lt = all_ones_lem bs k (ground arith) (omega arith)

-- Places in a word and in the words behind it.
bit-cons_word : (w : Word) (ws : List Word) (k : ℕ) → k < 32 → bit (w ∷ ws) k ≡ bits_of w k
bit-cons_word w ws k lt =
    let q : k / 32 ≡ 0 = omega arith in let r : k % 32 ≡ k = omega arith in rw (q, r)

bit-cons_later : (w : Word) (ws : List Word) (k : ℕ) → 32 ≤ k → bit (w ∷ ws) k ≡ bit ws (k - 32)
bit-cons_later w ws k le =
    let q : k / 32 ≡ suc ((k - 32) / 32) = omega arith in
    let r : k % 32 ≡ (k - 32) % 32 = omega arith in rw (q, r)

module _ (n i : ℕ) (w : Word) (ws : List Word) (size : length w ≡ 32) where
  abbrev rest_size : ℕ
  rest_size = 32 * length ws

  -- Where the word has no clear bit below `n`, the search goes on behind it.
  later_set :
      ((k : ℕ) → k < 32 → i * 32 + k < n → bits_of w k ≡ true)
      → (k : ℕ) → i * 32 + k < n
      → ((m : ℕ) → 32 ≤ k → m ≡ k - 32 → bit ws m ≡ true)
      → bit (w ∷ ws) k ≡ true
  later_set full k below rest = elim (dec_lt k 32) [
    | yes here ↦ bit-cons_word w ws k here ∙ full k here below
    | no past ↦ bit-cons_later w ws k (omega arith) ∙ rest (k - 32) (omega arith) refl
  ]

  later-First :
      (o : Option ℕ)
      → ((k : ℕ) → k < 32 → i * 32 + k < n → bits_of w k ≡ true)
      → First n ((i + 1) * 32) rest_size (bit ws) o
      → First n (i * 32) (32 * length (w ∷ ws)) (bit (w ∷ ws)) o
  later-First none full h =
      λ k lt below. later_set full k below (λ m past e. h m (omega arith) (omega arith))
  later-First (some f) full (j, at, below, in_words, clear, before) = (
    j + 32,
    omega arith,
    below,
    omega arith,
    bit-cons_later w ws (j + 32) (omega arith) ∙ ap (bit ws) (omega arith) ∙ clear,
    λ k lt. later_set full k (omega arith) (λ m past e. before m (omega arith)),
  )

  here-First :
      (f : ℕ)
      → First n (i * 32) (length w) (bits_of w) (some f)
      → First n (i * 32) (32 * length (w ∷ ws)) (bit (w ∷ ws)) (some f)
  here-First f (j, at, below, in_word, clear, before) = (
    j,
    at,
    below,
    omega arith,
    bit-cons_word w ws j (omega arith) ∙ clear,
    λ k lt. bit-cons_word w ws k (omega arith) ∙ before k lt,
  )

-- The search over the words finds the first clear bit below `n`, if there is one.
pub scan_words-First :
    (n i : ℕ) (ws : List Word)
    → AllWords ws
    → First n (i * 32) (32 * length ws) (bit ws) (scan_words n i ws)
unfolding scan_words
scan_words-First n i [] all = λ k lt below. absurd (omega arith)
scan_words-First n i (w ∷ ws) all = elim (Bool-cases (all_ones w)) [
  | inl ones ↦
      rw (ones, scan_words)
        (later-First n i w ws all.0 (scan_words n (i + 1) ws)
          (λ k lt below. all_ones_lem w k ones (omega (arith, all)))
          (scan_words-First n (i + 1) ws all.1))
  | inr zeros ↦
      rw (zeros, scan_words)
        (go (scan_bits n (i * 32) w) (scan_bits-First n (i * 32) w)
          (scan_words-First n (i + 1) ws all.1))
]
  where
    go :
        (o : Option ℕ)
        → First n (i * 32) (length w) (bits_of w) o
        → First n ((i + 1) * 32) (32 * length ws) (bit ws) (scan_words n (i + 1) ws)
        → First n
            (i * 32)
            (32 * length (w ∷ ws))
            (bit (w ∷ ws))
            (elim o [ some frame ↦ some frame | none ↦ scan_words n (i + 1) ws ])
    go none full rest =
        later-First n i w ws all.0 (scan_words n (i + 1) ws)
          (λ k lt below. full k (omega (arith, all)) below) rest
    go (some f) found rest = here-First n i w ws all.0 f found
