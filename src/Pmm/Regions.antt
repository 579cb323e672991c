-- ===== src/Pmm/Regions.antt =====
-- `pmm_mark_region_available` and `pmm_reserve_region` of kernel/pmm.c.
use native.Mathlib.Decide.{ℕ_discrete, dec_lt}
use skez_os.Prelude.{
  ℕ, zero, suc, ◌+◌, ◌-◌, ◌*◌, ◌/◌, ◌%◌, ◌≤◌, ◌<◌, ◌^◌, ◌≡◌, ◌⊎◌, refl, ◌∙◌, inl, inr, Bool, true,
  false, arith, leb, Bool-cases, leb→le,
}
use skez_os.Pmm.{
  Pmm, page_size, bit, set_frames, clear_frames, align_down_u32, align_up_u32, region_end,
  region_skipped, pmm_mark_region_available, pmm_reserve_region,
}
use skez_os.Pmm.Count.{IsPmm, Changed, set_frame-Changed, clear_frame-Changed}

-- What setting the bits of the frames from `lo` to below `hi` to `b` leaves.
pub record Filled (s : Pmm) (b : Bool) (lo hi : ℕ) (s' : Pmm) : Type 0 where
  pub invariant : IsPmm s'
  pub same_size : s'.nframes ≡ s.nframes
  pub inside : (f : ℕ) → lo ≤ f → f < hi → bit s'.frames f ≡ b
  pub outside : (f : ℕ) → (f < lo) ⊎ (hi ≤ f) → bit s'.frames f ≡ bit s.frames f

Filled-none : {s : Pmm} (b : Bool) (lo hi : ℕ) → IsPmm s → hi ≤ lo → Filled s b lo hi s
Filled-none b lo hi v le = record {
  invariant = v;
  same_size = refl;
  inside = λ f a c. absurd (omega arith);
  outside = λ f _. refl;
}

Filled-next :
    {s s1 s' : Pmm} (b : Bool) (lo hi : ℕ) (v : IsPmm s) (valid : lo < s.nframes)
    → lo < hi
    → Changed v lo valid b s1
    → Filled s1 b (lo + 1) hi s'
    → Filled s b lo hi s'
Filled-next b lo hi v valid lt c r = record {
  invariant = r.invariant;
  same_size = r.same_size ∙ c.same_size;
  inside = λ f a z. elim (ℕ_discrete f lo) [
    | yes e ↦ rw e (r.outside lo (inl (omega arith)) ∙ c.here)
    | no ne ↦ r.inside f (omega arith) z
  ];
  outside = λ f far.
      r.outside f (elim far [ inl a ↦ inl (omega arith) | inr z ↦ inr z ])
      ∙ c.elsewhere f (elim far [ inl a ↦ omega arith | inr z ↦ omega arith ]);
}

pub set_frames-Filled :
    (n lo : ℕ) {s : Pmm}
    → IsPmm s
    → lo + n ≤ s.nframes
    → Filled s true lo (lo + n) (set_frames n lo s)
unfolding set_frames
set_frames-Filled zero lo v le = Filled-none true lo (lo + 0) v (omega arith)
set_frames-Filled (suc n) lo {s} v le =
    let valid : lo < s.nframes = omega arith in
    let c = set_frame-Changed v lo valid in
    let same : lo + 1 + n ≡ lo + suc n = omega arith in
    Filled-next true lo (lo + suc n) v valid (omega arith) c
      (rw (← same) (set_frames-Filled n (lo + 1) c.invariant (omega (arith, c.same_size))))

pub clear_frames-Filled :
    (n lo : ℕ) {s : Pmm}
    → IsPmm s
    → lo + n ≤ s.nframes
    → Filled s false lo (lo + n) (clear_frames n lo s)
unfolding clear_frames
clear_frames-Filled zero lo v le = Filled-none false lo (lo + 0) v (omega arith)
clear_frames-Filled (suc n) lo {s} v le =
    let valid : lo < s.nframes = omega arith in
    let c = clear_frame-Changed v lo valid in
    let same : lo + 1 + n ≡ lo + suc n = omega arith in
    Filled-next false lo (lo + suc n) v valid (omega arith) c
      (rw (← same) (clear_frames-Filled n (lo + 1) c.invariant (omega (arith, c.same_size))))

-- The frame holds a byte of the region, or lies in it whole.
abbrev pub Touches : (base len f : ℕ) → Type 0
Touches base len f = (f * page_size < base + len) × (base < (f + 1) * page_size) × (0 < len)

abbrev pub Within : (base len f : ℕ) → Type 0
Within base len f = (base ≤ f * page_size) × ((f + 1) * page_size ≤ base + len)

-- Of the frames in the map, those in the region have bit `b` afterwards, and the others keep theirs.
pub record Marked (s : Pmm) (b : Bool) (InRegion : ℕ → Type 0) (s' : Pmm) : Type 0 where
  pub invariant : IsPmm s'
  pub same_size : s'.nframes ≡ s.nframes
  pub inside : (f : ℕ) → f < s.nframes → InRegion f → bit s'.frames f ≡ b
  pub outside : (f : ℕ) → f < s.nframes → ¬ InRegion f → bit s'.frames f ≡ bit s.frames f

module _ {s : Pmm} (v : IsPmm s) (base len : ℕ) (base32 : base < 2 ^ 32)
    (len32 : len < 2 ^ 32) where
  reserve_skipped : region_skipped s base len ≡ true → pmm_reserve_region base len s ≡ s
  unfolding pmm_reserve_region
  reserve_skipped e = rw e

  abbrev first_touched : ℕ
  first_touched = base / page_size

  abbrev end_touched : ℕ
  end_touched = (region_end s base len + 4095) / page_size

  ends : region_end s base len ≤ s.nframes * page_size
  ends = ground arith

  past_base : region_skipped s base len ≡ false → base < region_end s base len
  past_base e = ground (arith, e)

  reserve_runs :
      region_skipped s base len ≡ false
      → pmm_reserve_region base len s ≡ set_frames (end_touched - first_touched) first_touched s
  unfolding pmm_reserve_region
  reserve_runs e =
      let bound : region_end s base len ≤ 2 ^ 30 = omega (arith, ends, v.small) in
      let up : align_up_u32 (region_end s base len % 2 ^ 32) page_size / page_size ≡ end_touched =
        omega (arith, bound) in
      let down : align_down_u32 base page_size / page_size ≡ first_touched = omega arith in
      let lt : align_down_u32 base page_size
          < align_up_u32 (region_end s base len % 2 ^ 32) page_size =
        omega (arith, bound, past_base e) in
      let go_on : leb (align_up_u32 (region_end s base len % 2 ^ 32) page_size)
            (align_down_u32 base page_size)
          ≡ false =
        ground (arith, lt) in
      rw (e, go_on, up, down)

  below_end :
      (f : ℕ) → f < s.nframes → f * page_size < base + len → f * page_size < region_end s base len
  below_end f lt b = ground (arith, lt, b)

  below_sum : (x : ℕ) → x ≤ region_end s base len → x ≤ base + len
  below_sum x le = ground (arith, le)

  touched_or_not :
      region_skipped s base len ≡ false
      → (f : ℕ) → ¬ Touches base len f
      → (f < first_touched) ⊎ (first_touched + (end_touched - first_touched) ≤ f)
  touched_or_not e f no_touch = elim (dec_lt f first_touched) [
    | yes below ↦ inl below
    | no above ↦ elim (dec_lt f (first_touched + (end_touched - first_touched))) [
      | no past ↦ inr (omega arith)
      | yes before ↦
          let past = past_base e in
          let in_end : f * page_size + 1 ≤ base + len =
            below_sum (f * page_size + 1) (omega (arith, past)) in
          let some_len : base + 1 ≤ base + len = below_sum (base + 1) (omega (arith, past)) in
          absurd (no_touch (omega arith, omega arith, omega arith))
    ]
  ]

  skipped_misses : region_skipped s base len ≡ true → (f : ℕ) → f < s.nframes → ¬ Touches base len f
  skipped_misses e f lt t = ground (arith, v.mapped)

  -- From a well-formed map and for all 32-bit arguments, `pmm_reserve_region` takes the frames of the
  -- map that hold a byte of the region, leaves the bits of the other frames, and keeps the map well
  -- formed.
  pub pmm_reserve_region-Marked : Marked s true (Touches base len) (pmm_reserve_region base len s)
  pmm_reserve_region-Marked = elim (Bool-cases (region_skipped s base len)) [
    | inl e ↦ rw (reserve_skipped e) (record {
      invariant = v;
      same_size = refl;
      inside = λ f lt t. absurd (skipped_misses e f lt t);
      outside = λ f lt t. refl;
    })
    | inr e ↦
        let past = past_base e in
        let r =
          set_frames-Filled (end_touched - first_touched) first_touched v
            (omega (arith, ends, past)) in
        rw (reserve_runs e) (record {
          invariant = r.invariant;
          same_size = r.same_size;
          inside = λ f lt t. r.inside f (omega arith) (omega (arith, below_end f lt t.0, past));
          outside = λ f lt t. r.outside f (touched_or_not e f t);
        })
  ]

  clear_skipped : region_skipped s base len ≡ true → pmm_mark_region_available base len s ≡ s
  unfolding pmm_mark_region_available
  clear_skipped e = rw e

  abbrev first_whole : ℕ
  first_whole = (base + 4095) / page_size

  abbrev end_whole : ℕ
  end_whole = region_end s base len / page_size

  mark_runs :
      region_skipped s base len ≡ false
      → pmm_mark_region_available base len s ≡ clear_frames (end_whole - first_whole) first_whole s
  unfolding pmm_mark_region_available clear_frames
  mark_runs e =
      let bound : region_end s base len ≤ 2 ^ 30 = omega (arith, ends, v.small) in
      let past = past_base e in
      let up : align_up_u32 base page_size / page_size ≡ first_whole = omega (arith, bound, past) in
      let down : align_down_u32 (region_end s base len % 2 ^ 32) page_size / page_size ≡ end_whole =
        omega (arith, bound) in
      elim (Bool-cases (
        leb (align_down_u32 (region_end s base len % 2 ^ 32) page_size)
          (align_up_u32 base page_size))) [
            | inl none_whole ↦
                let none : end_whole - first_whole ≡ 0 =
                  omega (arith, bound, past, leb→le _ _ none_whole) in
                rw (e, none_whole, none)
            | inr some_whole ↦ rw (e, some_whole, up, down)
          ]

  whole_or_not :
      (f : ℕ)
      → f < s.nframes
      → ¬ Within base len f
      → (f < first_whole) ⊎ (first_whole + (end_whole - first_whole) ≤ f)
  whole_or_not f lt not_whole = elim (dec_lt f first_whole) [
    | yes below ↦ inl below
    | no above ↦ elim (dec_lt f (first_whole + (end_whole - first_whole))) [
      | no past ↦ inr (omega arith)
      | yes before ↦
          let in_end : (f + 1) * page_size ≤ base + len =
            below_sum ((f + 1) * page_size) (omega arith) in
          absurd (not_whole (omega arith, in_end))
    ]
  ]

  whole_inside :
      region_skipped s base len ≡ false
      → (f : ℕ) → f < s.nframes
      → Within base len f
      → (first_whole ≤ f) × (f < first_whole + (end_whole - first_whole))
  whole_inside e f lt w =
      let in_end : (f + 1) * page_size ≤ region_end s base len = ground (arith, lt, w) in
      omega (arith, in_end)

  skipped_whole : region_skipped s base len ≡ true → (f : ℕ) → f < s.nframes → ¬ Within base len f
  skipped_whole e f lt w = ground (arith, v.mapped)

  -- From a well-formed map and for all 32-bit arguments, `pmm_mark_region_available` frees the frames
  -- of the map that lie whole in the region, leaves the bits of the other frames, and keeps the map
  -- well formed.
  pub pmm_mark_region_available-Marked :
      Marked s false (Within base len) (pmm_mark_region_available base len s)
  pmm_mark_region_available-Marked = elim (Bool-cases (region_skipped s base len)) [
    | inl e ↦ rw (clear_skipped e) (record {
      invariant = v;
      same_size = refl;
      inside = λ f lt t. absurd (skipped_whole e f lt t);
      outside = λ f lt t. refl;
    })
    | inr e ↦
        let r =
          clear_frames-Filled (end_whole - first_whole) first_whole v
            (omega (arith, ends, past_base e)) in
        rw (mark_runs e) (record {
          invariant = r.invariant;
          same_size = r.same_size;
          inside = λ f lt t. r.inside f (whole_inside e f lt t).0 (whole_inside e f lt t).1;
          outside = λ f lt t. r.outside f (whole_or_not f lt t);
        })
  ]
