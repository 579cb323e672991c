-- ===== src/Pmm/Count.antt =====
-- The invariant of kernel/pmm.c: the map has its words, and `used_frames` counts the set bits.
use native.Mathlib.Decide.{ℕ_discrete}
use skez_os.Prelude.{
  ℕ, zero, suc, ◌+◌, ◌-◌, ◌*◌, ◌/◌, ◌%◌, ◌≤◌, ◌<◌, ◌^◌, ◌≡◌, ◌≢◌, refl, ap, ◌∙◌, inl, inr, Bool,
  true, false, ◌||◌, not, arith, ltb, if◌then◌else◌, length, Bool-cases, lt→ltb,
}
use skez_os.Pmm.{Pmm, bit, put_bit, set_frame, clear_frame, frame_index_valid}
use skez_os.Pmm.Bits.{AllWords, put_bit-AllWords, length-put_bit, bit-put_bit_self, bit-put_bit_ne}

-- How many of the first `n` numbers pass.
abbrev pub count_below : ℕ → (ℕ → Bool) → ℕ
count_below zero p = 0
count_below (suc n) p = (if p n then 1 else 0) + count_below n p

pub count_below-congr :
    (n : ℕ) (p q : ℕ → Bool) → ((j : ℕ) → j < n → q j ≡ p j) → count_below n q ≡ count_below n p
count_below-congr zero p q same = refl
count_below-congr (suc n) p q same =
    rw (same n (omega arith)) (
      ap (λ c. (if p n then 1 else 0) + c) (count_below-congr n p q (λ j lt. same j (omega arith))))

-- Changing one place changes the count by that place.
pub count_below-update :
    (n i : ℕ) (p q : ℕ → Bool)
    → i < n
    → ((j : ℕ) → j ≢ i → q j ≡ p j)
    → count_below n q + (if p i then 1 else 0) ≡ count_below n p + (if q i then 1 else 0)
count_below-update zero i p q lt same = absurd (omega arith)
count_below-update (suc n) i p q lt same = elim (ℕ_discrete n i) [
  | yes e ↦
      let below : count_below n q ≡ count_below n p =
        count_below-congr n p q (λ j l. same j (omega arith)) in
      rw (← e) (omega (arith, below))
  | no ne ↦
      let rest = count_below-update n i p q (omega arith) same in
      rw (same n ne) (omega (arith, rest))
]

pub count_below-le : (n : ℕ) (p : ℕ → Bool) → count_below n p ≤ n
count_below-le zero p = omega arith
count_below-le (suc n) p = ground (arith, count_below-le n p)

count_below-pos : (n i : ℕ) (p : ℕ → Bool) → i < n → p i ≡ true → 0 < count_below n p
count_below-pos zero i p lt e = absurd (omega arith)
count_below-pos (suc n) i p lt e = elim (ℕ_discrete n i) [
  | yes same ↦ rw (same, e) (omega arith)
  | no ne ↦ omega (arith, count_below-pos n i p (omega arith) e)
]

pub record IsPmm (s : Pmm) : Type 0 where
  pub mapped : s.mapped ≡ true
  pub small : s.nframes ≤ 2 ^ 18
  pub words : length s.frames ≡ (s.nframes + 31) / 32
  pub word_sizes : AllWords s.frames
  pub counted : s.used_frames ≡ count_below s.nframes (bit s.frames)

-- The frame is taken in the map.
abbrev pub Used : Pmm → ℕ → Type 0
Used s f = bit s.frames f ≡ true

module _ {s : Pmm} (v : IsPmm s) (frame : ℕ) (valid : frame < s.nframes) where
  frame_room : frame < 32 * length s.frames
  frame_room = omega (arith, v.words)

  -- Writing a bit that differs, with the count moved by one.
  put_bit-IsPmm :
      (b : Bool) (used : ℕ)
      → used + (if bit s.frames frame then 1 else 0) ≡ s.used_frames + (if b then 1 else 0)
      → IsPmm (record s { frames = put_bit s.frames frame b; used_frames = used })
  put_bit-IsPmm b used e =
      let c =
        count_below-update s.nframes frame (bit s.frames) (bit (put_bit s.frames frame b)) valid
          (bit-put_bit_ne s.frames frame b v.word_sizes frame_room) in
      let here : ◌≡◌ {A = ℕ} (if bit (put_bit s.frames frame b) frame then 1 else 0)
          (if b then 1 else 0) =
        rw (bit-put_bit_self s.frames frame b v.word_sizes frame_room) in
      record {
        mapped = v.mapped;
        small = v.small;
        words = length-put_bit s.frames frame b v.word_sizes frame_room ∙ v.words;
        word_sizes = put_bit-AllWords s.frames frame b v.word_sizes frame_room;
        counted = omega (arith, c, here, e, v.counted);
      }

  is_valid : (not s.mapped || not (frame_index_valid s frame)) ≡ false
  is_valid = rw (v.mapped, lt→ltb _ _ valid)

  set_clear :
      bit s.frames frame ≡ false
      → set_frame frame s ≡ record s {
        frames = put_bit s.frames frame true;
        used_frames = (s.used_frames + 1) % 2 ^ 32;
      }
  unfolding set_frame
  set_clear e = rw (is_valid, e)

  set_used : bit s.frames frame ≡ true → set_frame frame s ≡ s
  unfolding set_frame
  set_used e = rw (is_valid, e)

  clear_used :
      bit s.frames frame ≡ true
      → clear_frame frame s ≡ record s {
        frames = put_bit s.frames frame false;
        used_frames = if ltb 0 s.used_frames then s.used_frames - 1 else s.used_frames;
      }
  unfolding clear_frame
  clear_used e = rw (is_valid, e)

  clear_clear : bit s.frames frame ≡ false → clear_frame frame s ≡ s
  unfolding clear_frame
  clear_clear e = rw (is_valid, e)

  -- What a change of the bit of `frame` to `b` leaves.
  pub record Changed (b : Bool) (s' : Pmm) : Type 0 where
    pub invariant : IsPmm s'
    pub same_size : s'.nframes ≡ s.nframes
    pub here : bit s'.frames frame ≡ b
    pub elsewhere : (f : ℕ) → f ≢ frame → bit s'.frames f ≡ bit s.frames f

  put_bit-Changed :
      (b : Bool) (used : ℕ)
      → used + (if bit s.frames frame then 1 else 0) ≡ s.used_frames + (if b then 1 else 0)
      → Changed b (record s { frames = put_bit s.frames frame b; used_frames = used })
  put_bit-Changed b used e = record {
    invariant = put_bit-IsPmm b used e;
    same_size = refl;
    here = bit-put_bit_self s.frames frame b v.word_sizes frame_room;
    elsewhere = bit-put_bit_ne s.frames frame b v.word_sizes frame_room;
  }

  pub set_frame-Changed : Changed true (set_frame frame s)
  set_frame-Changed = elim (Bool-cases (bit s.frames frame)) [
    | inl e ↦
        rw (set_used e)
          (record { invariant = v; same_size = refl; here = e; elsewhere = λ f ne. refl })
    | inr e ↦ rw (set_clear e) (
        put_bit-Changed true ((s.used_frames + 1) % 2 ^ 32) (
          let clear : ◌≡◌ {A = ℕ} (if bit s.frames frame then 1 else 0) 0 = rw e in
          omega (arith, clear, v.counted, v.small, count_below-le s.nframes (bit s.frames))))
  ]

  pub clear_frame-Changed : Changed false (clear_frame frame s)
  clear_frame-Changed = elim (Bool-cases (bit s.frames frame)) [
    | inr e ↦
        rw (clear_clear e)
          (record { invariant = v; same_size = refl; here = e; elsewhere = λ f ne. refl })
    | inl e ↦
        let positive : 0 < s.used_frames =
          omega (arith, v.counted, count_below-pos s.nframes frame (bit s.frames) valid e) in
        rw (clear_used e, lt→ltb _ _ positive)
          (put_bit-Changed false (s.used_frames - 1) (
            let full : ◌≡◌ {A = ℕ} (if bit s.frames frame then 1 else 0) 1 = rw e in
            omega (arith, full, positive)))
  ]
