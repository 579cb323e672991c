-- ===== src/Pmm/Init.antt =====
-- `pmm_init` of kernel/pmm.c.
use skez_os.Prelude.{
  ℕ, zero, suc, ◌+◌, ◌*◌, ◌/◌, ◌%◌, ◌^◌, ◌≤◌, ◌<◌, ◌≡◌, refl, ◌∙◌, sym, true, false, [], arith, ltb,
  if◌then◌else◌, length-replicate, replicate, get_or,
}
use skez_os.Pmm.{page_size, max_memory, bit, pmm_init}
use skez_os.Pmm.Bits.{AllWords}
use skez_os.Pmm.Count.{count_below, count_below-congr, IsPmm}
use skez_os.Pmm.Alloc.{AllTaken}

get_or-replicate {ℓ} : {A : Type ℓ} (n i : ℕ) (a d : A) → i < n → get_or (replicate n a) i d ≡ a
get_or-replicate zero i a d lt = absurd (omega arith)
get_or-replicate (suc n) zero a d lt = refl
get_or-replicate (suc n) (suc i) a d lt = get_or-replicate n i a d (omega arith)

AllWords-replicate : (n : ℕ) → AllWords (replicate n (replicate 32 true))
AllWords-replicate zero = tt
AllWords-replicate (suc n) = (refl, AllWords-replicate n)

count_below-all : (n : ℕ) → count_below n (λ _. true) ≡ n
count_below-all zero = refl
count_below-all (suc n) = omega (arith, count_below-all n)

bit-ones : (k f : ℕ) → f < 32 * k → bit (replicate k (replicate 32 true)) f ≡ true
bit-ones k f lt =
    rw (get_or-replicate k (f / 32) (replicate 32 true) [] (omega arith))
      (get_or-replicate 32 (f % 32) true false (omega arith))

module _ (mem_upper : ℕ) where
  -- The memory that the map covers, capped at `MAX_MEMORY`.
  abbrev pub covered : ℕ
  covered = (if ltb max_memory mem_upper then max_memory else mem_upper) / page_size

  covered-le : covered ≤ 2 ^ 18
  covered-le = ground arith

  -- After `pmm_init` the map is well formed, every frame of it is taken, and both the number of frames
  -- and the count of used frames are the whole pages of `mem_upper`, capped at `MAX_MEMORY`.
  pub pmm_init-IsPmm :
      IsPmm (pmm_init mem_upper)
      × AllTaken (pmm_init mem_upper)
      × ((pmm_init mem_upper).nframes ≡ covered)
      × ((pmm_init mem_upper).used_frames ≡ covered)
  unfolding pmm_init
  pmm_init-IsPmm = (
    record {
      mapped = refl;
      small = covered-le;
      words = length-replicate ((covered + 31) / 32) (replicate 32 true);
      word_sizes = AllWords-replicate ((covered + 31) / 32);
      counted =
          sym (count_below-all covered)
          ∙ sym (
              count_below-congr covered (λ _. true)
                (bit (replicate ((covered + 31) / 32) (replicate 32 true)))
                (λ f lt. bit-ones ((covered + 31) / 32) f (omega arith)));
    },
    λ f lt. bit-ones ((covered + 31) / 32) f (omega arith),
    refl,
    refl,
  )
