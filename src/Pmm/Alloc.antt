-- ===== src/Pmm/Alloc.antt =====
-- `pmm_alloc_frame` and `pmm_free_frame` of kernel/pmm.c.
use native.Mathlib.Decide.{ℕ_discrete, dec_lt}
use skez_os.Prelude.{
  ℕ, ◌*◌, ◌/◌, ◌%◌, ◌≤◌, ◌<◌, ◌≡◌, ◌≢◌, ◌⊎◌, ◌↔◌, refl, sym, ap, ◌∙◌, inl, inr, true, false, none,
  some, arith, length, Bool-cases, Option-cases,
}
use mathlib.Core.Path.{subst}
use skez_os.Pmm.{
  Pmm, page_size, bit, test_frame, set_frame, clear_frame, scan_words, first_free_frame,
  pmm_alloc_frame, pmm_free_frame,
}
use skez_os.Pmm.Bits.{First, scan_words-First}
use skez_os.Pmm.Count.{
  count_below, count_below-congr, IsPmm, Changed, set_frame-Changed, clear_frame-Changed,
}

-- The lowest free frame.
pub record Lowest (s : Pmm) (f : ℕ) : Type 0 where
  pub valid : f < s.nframes
  pub free : bit s.frames f ≡ false
  pub least : (g : ℕ) → g < f → bit s.frames g ≡ true

abbrev pub AllTaken : Pmm → Type 0
AllTaken s = (f : ℕ) → f < s.nframes → bit s.frames f ≡ true

module _ {s : Pmm} (v : IsPmm s) where
  scan_lem :
      First s.nframes 0 (32 * length s.frames) (bit s.frames) (scan_words s.nframes 0 s.frames)
  scan_lem = scan_words-First s.nframes 0 s.frames v.word_sizes

  first_free-none : scan_words s.nframes 0 s.frames ≡ none → AllTaken s
  first_free-none e f lt =
      let h : First s.nframes 0 (32 * length s.frames) (bit s.frames) none =
        subst (First s.nframes 0 (32 * length s.frames) (bit s.frames)) e scan_lem in
      h f (omega (arith, v.words)) (omega arith)

  first_free-some : {f : ℕ} → scan_words s.nframes 0 s.frames ≡ some f → Lowest s f
  first_free-some {f} e =
      let h : First s.nframes 0 (32 * length s.frames) (bit s.frames) (some f) =
        subst (First s.nframes 0 (32 * length s.frames) (bit s.frames)) e scan_lem in
      let same : f ≡ h.0 = omega (arith, h.1) in
      record {
        valid = h.2;
        free = ap (bit s.frames) same ∙ h.4;
        least = λ g lt. h.5 g (omega (arith, same));
      }

  alloc_none : scan_words s.nframes 0 s.frames ≡ none → pmm_alloc_frame s ≡ (0, s)
  unfolding pmm_alloc_frame first_free_frame
  alloc_none e = ground arith

  alloc_some :
      {f : ℕ}
      → scan_words s.nframes 0 s.frames ≡ some f
      → f < s.nframes
      → pmm_alloc_frame s ≡ (f * page_size, set_frame f s)
  unfolding pmm_alloc_frame first_free_frame
  alloc_some {f} e lt = ground (arith, v.mapped, v.small)

  -- What `pmm_alloc_frame` does: it takes the lowest free frame and returns its address, or all frames
  -- are taken and it returns 0 and changes nothing.
  abbrev pub Alloc : ℕ × Pmm → Type 0
  Alloc (addr, s') =
      ((f : ℕ) × (l : Lowest s f) × (addr ≡ f * page_size) × Changed v f l.valid true s')
      ⊎ (AllTaken s × (addr ≡ 0) × (s' ≡ s))

  -- From a well-formed map, `pmm_alloc_frame` returns the address of the lowest free frame, takes that
  -- frame and no other and keeps the map well formed, its count included; or every frame is taken, it
  -- returns 0 and nothing changes.
  pub pmm_alloc_frame_lem : Alloc (pmm_alloc_frame s)
  pmm_alloc_frame_lem = elim (Option-cases (scan_words s.nframes 0 s.frames)) [
    | inl e ↦ rw (alloc_none e) (inr (first_free-none e, refl, refl))
    | inr (f, e) ↦
        let l : Lowest s f = first_free-some e in
        rw (alloc_some e l.valid) (inl (f, l, refl, set_frame-Changed v f l.valid))
  ]

  -- In a well-formed map that has frames and whose frame 0 is taken, `pmm_alloc_frame` returns 0 if
  -- and only if every frame is taken.
  pub pmm_alloc_frame-zero :
      0 < s.nframes → bit s.frames 0 ≡ true → ((pmm_alloc_frame s).0 ≡ 0) ↔ AllTaken s
  pmm_alloc_frame-zero some_frame zero_used = (
    λ h. elim pmm_alloc_frame_lem [
      | inl (f, l, at, changed) ↦
          let first : f ≡ 0 = omega (arith, at, h) in
          let free : bit s.frames 0 ≡ false = ap (bit s.frames) (sym first) ∙ l.free in absurd (cc)
      | inr (taken, z, same) ↦ taken
    ],
    λ taken. elim pmm_alloc_frame_lem [
      | inl (f, l, at, changed) ↦
          let full : bit s.frames f ≡ true = taken f l.valid in
          let free : bit s.frames f ≡ false = l.free in absurd (cc)
      | inr (t, z, same) ↦ z
    ],
  )

  -- An address that `pmm_free_frame` acts on: aligned, in the map, and taken.
  abbrev pub Freeable : ℕ → Type 0
  Freeable addr =
      (addr % page_size ≡ 0)
      × (addr / page_size < s.nframes)
      × (bit s.frames (addr / page_size) ≡ true)

  free_acts : (addr : ℕ) → Freeable addr → pmm_free_frame addr s ≡ clear_frame (addr / page_size) s
  unfolding pmm_free_frame test_frame
  free_acts addr (aligned, lt, used) = ground (arith, v.mapped)

  free_ignores :
      (addr : ℕ)
      → (addr % page_size ≢ 0)
        ⊎ (s.nframes ≤ addr / page_size)
        ⊎ (bit s.frames (addr / page_size) ≡ false)
      → pmm_free_frame addr s ≡ s
  unfolding pmm_free_frame test_frame
  free_ignores addr (inl odd) = ground (arith, v.mapped)
  free_ignores addr (inr (inl far)) = ground (arith, v.mapped)
  free_ignores addr (inr (inr clear)) = ground (arith, v.mapped)

-- From a well-formed map, `pmm_free_frame` of an aligned address whose frame is in the map and taken
-- frees that frame and no other and keeps the map well formed; of any other address it changes
-- nothing.
pub pmm_free_frame_lem :
    {s : Pmm} (v : IsPmm s) (addr : ℕ)
    → ((f : Freeable v addr) × Changed v (addr / page_size) f.1 false (pmm_free_frame addr s))
      ⊎ (¬ Freeable v addr × (pmm_free_frame addr s ≡ s))
pmm_free_frame_lem {s} v addr = elim (ℕ_discrete (addr % page_size) 0) [
  | no odd ↦ inr (λ f. odd f.0, free_ignores v addr (inl odd))
  | yes aligned ↦ elim (dec_lt (addr / page_size) s.nframes) [
    | no far ↦ inr (λ f. far f.1, free_ignores v addr (inr (inl (omega arith))))
    | yes lt ↦ elim (Bool-cases (bit s.frames (addr / page_size))) [
      | inr clear ↦ inr (
        λ f. let used : bit s.frames (addr / page_size) ≡ true = f.2 in cc,
        free_ignores v addr (inr (inr clear)),
      )
      | inl used ↦ inl (
        (aligned, lt, used),
        rw (free_acts v addr (aligned, lt, used)) (clear_frame-Changed v (addr / page_size) lt),
      )
    ]
  ]
]

-- Setting a clear bit and clearing it again.
module _ {s : Pmm} (v : IsPmm s) {f : ℕ} (l : Lowest s f) {s1 : Pmm}
    (c : Changed v f l.valid true s1) where
  in_map : f < s1.nframes
  in_map = omega (arith, l.valid, c.same_size)

  abbrev cleared : Pmm
  cleared = clear_frame f s1

  back : Changed c.invariant f in_map false (clear_frame f s1)
  back = clear_frame-Changed c.invariant f in_map

  same_bits : (g : ℕ) → bit (clear_frame f s1).frames g ≡ bit s.frames g
  same_bits g = elim (ℕ_discrete g f) [
    | yes e ↦ rw e (back.here ∙ sym l.free)
    | no ne ↦ back.elsewhere g ne ∙ c.elsewhere g ne
  ]

  same_count : (clear_frame f s1).used_frames ≡ s.used_frames
  same_count =
      let size : (clear_frame f s1).nframes ≡ s.nframes = back.same_size ∙ c.same_size in
      back.invariant.counted
      ∙ ap (λ n. count_below n (bit (clear_frame f s1).frames)) size
      ∙ count_below-congr s.nframes (bit s.frames) (bit (clear_frame f s1).frames)
          (λ g lt. same_bits g)
      ∙ sym v.counted

  free_is_clear : (addr : ℕ) → addr ≡ f * page_size → pmm_free_frame addr s1 ≡ clear_frame f s1
  free_is_clear addr at =
      let q : addr / page_size ≡ f = omega arith in
      free_acts c.invariant addr (omega arith, rw q in_map, rw q c.here)
      ∙ ap (λ k. clear_frame k s1) q

-- From a well-formed map with a free frame, `pmm_alloc_frame` followed by `pmm_free_frame` of the
-- address that it returned restores every bit of the map and the count of used frames, and the map is
-- well formed.
pub alloc-free :
    {s : Pmm} (v : IsPmm s)
    → ¬ AllTaken s
    → let (addr, s1) = pmm_alloc_frame s in
      ((f : ℕ) → bit (pmm_free_frame addr s1).frames f ≡ bit s.frames f)
      × ((pmm_free_frame addr s1).used_frames ≡ s.used_frames)
      × IsPmm (pmm_free_frame addr s1)
alloc-free {s} v free = elim (pmm_alloc_frame_lem v) [
  | inr (taken, z, same) ↦ absurd (free taken)
  | inl (f, l, at, c) ↦
      rw (free_is_clear v l c (pmm_alloc_frame s).0 at)
        (same_bits v l c, same_count v l c, (back v l c).invariant)
]
