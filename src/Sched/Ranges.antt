-- ===== src/Sched/Ranges.antt =====
-- The ranges of addresses of kernel/sched.c against the addresses that they hold.
use native.Mathlib.Decide.{dec_lt}
use skez_os.Prelude.{
  ℕ, zero, suc, ◌+◌, ◌%◌, ◌^◌, ◌≤◌, ◌<◌, ◌≡◌, ◌≢◌, refl, ◌↔◌, ◌⊎◌, inl, inr, Bool, true, false,
  ◌&&◌, ◌||◌, List, [], ◌∷◌, arith, ltb, leb, ◌==◌, if◌then◌else◌, length, get_or, Bool-cases,
}
use skez_os.Sched.{state_code, Task, Sched, task_at, zero_task}
use skez_os.Sched.Calm.{live-place}
use skez_os.Sched.User.{
  sched_range_ok, sched_ranges_overlap, overlaps_task, none_overlaps,
  sched_user_image_range_available,
}

-- 32-bit sums that do not wrap, and that do.
module _ (a b : ℕ) (ha : a < 2 ^ 32) (hb : b < 2 ^ 32) where
  pub sum_fits : a + b < 2 ^ 32 → (a + b) % 2 ^ 32 ≡ a + b
  sum_fits h = omega (arith, h)

  pub sum_wraps : 2 ^ 32 ≤ a + b → (a + b) % 2 ^ 32 < a
  sum_wraps h = omega (arith, h, ha, hb)

  pub sum-cases :
      ((a + b) % 2 ^ 32 ≡ a + b) × (a + b < 2 ^ 32) ⊎ ((2 ^ 32 ≤ a + b) × ((a + b) % 2 ^ 32 < a))
  sum-cases = elim (dec_lt (a + b) (2 ^ 32)) [
    | yes h ↦ inl (sum_fits h, h)
    | no n ↦ inr (omega (arith, n), sum_wraps (omega (arith, n)))
  ]

-- The bytes of the first range are bytes of the second, which does not wrap.
abbrev pub IsWithin : (addr len base size : ℕ) → Type 0
IsWithin addr len base size =
    (len ≡ 0) ⊎ ((base ≤ addr) × (addr + len ≤ base + size) × (base + size < 2 ^ 32))

range-test :
    (addr len base size end region_end : ℕ)
    → ((end ≡ addr + len) × (addr + len < 2 ^ 32)) ⊎ ((2 ^ 32 ≤ addr + len) × (end < addr))
    → ((region_end ≡ base + size) × (base + size < 2 ^ 32))
      ⊎ ((2 ^ 32 ≤ base + size) × (region_end < base))
    → ((if len == 0
          then true
          else if size == 0
          then false
          else if ltb addr base
          then false
          else if ltb end addr
          then false
          else if ltb region_end base
          then false
          else leb end region_end)
        ≡ true)
      ↔ IsWithin addr len base size
range-test addr len base size end region_end e r = ground (arith, e, r)

-- For 32-bit arguments, `sched_range_ok` holds if and only if the length is 0, or the range lies in
-- the window and the window does not wrap.
pub sched_range_ok-IsWithin :
    (addr len base size : ℕ)
    → addr < 2 ^ 32
    → len < 2 ^ 32
    → base < 2 ^ 32
    → size < 2 ^ 32
    → (sched_range_ok addr len base size ≡ true) ↔ IsWithin addr len base size
unfolding sched_range_ok
sched_range_ok-IsWithin addr len base size ha hl hb hs =
    range-test addr len base size ((addr + len) % 2 ^ 32) ((base + size) % 2 ^ 32)
      (sum-cases addr len ha hl) (sum-cases base size hb hs)

-- An address that both ranges hold.
abbrev pub Shared : (base_a size_a base_b size_b : ℕ) → Type 0
Shared base_a size_a base_b size_b =
    (a : ℕ) × ((base_a ≤ a) × (a < base_a + size_a)) × ((base_b ≤ a) × (a < base_b + size_b))

Shared-cases :
    (base_a size_a base_b size_b : ℕ)
    → Shared base_a size_a base_b size_b
      ↔ ((size_a ≢ 0) × (size_b ≢ 0) × (base_a < base_b + size_b) × (base_b < base_a + size_a))
Shared-cases base_a size_a base_b size_b = (
  λ (a, inside_a, inside_b). (
    omega (arith, inside_a),
    omega (arith, inside_b),
    omega (arith, inside_a, inside_b),
    omega (arith, inside_a, inside_b),
  ),
  λ (na, nb, ab, ba). elim (dec_lt base_a base_b) [
    | yes lt ↦ (base_b, (omega (arith, lt), ba), (omega arith, omega (arith, nb)))
    | no n ↦ (base_a, (omega arith, omega (arith, na)), (omega (arith, n), ab))
  ],
)

overlap-test :
    (base_a size_a base_b size_b end_a end_b : ℕ)
    → end_a ≡ base_a + size_a
    → end_b ≡ base_b + size_b
    → ((if (size_a == 0) || (size_b == 0)
          then false
          else if ltb end_a base_a || ltb end_b base_b
          then true
          else ltb base_a end_b && ltb base_b end_a)
        ≡ true)
      ↔ ((size_a ≢ 0) × (size_b ≢ 0) × (base_a < base_b + size_b) × (base_b < base_a + size_a))
overlap-test base_a size_a base_b size_b end_a end_b ea eb = ground (arith, ea, eb)

pub sched_ranges_overlap-Shared :
    (base_a size_a base_b size_b : ℕ)
    → base_a + size_a < 2 ^ 32
    → base_b + size_b < 2 ^ 32
    → (sched_ranges_overlap base_a size_a base_b size_b ≡ true) ↔ Shared base_a size_a base_b size_b
unfolding sched_ranges_overlap
sched_ranges_overlap-Shared base_a size_a base_b size_b ha hb =
    let t =
      overlap-test base_a size_a base_b size_b ((base_a + size_a) % 2 ^ 32)
        ((base_b + size_b) % 2 ^ 32) (omega (arith, ha)) (omega (arith, hb)) in
    let c = Shared-cases base_a size_a base_b size_b in (λ e. c.1 (t.0 e), λ h. t.1 (c.0 h))

module _ (image_base image_size : ℕ) where
  abbrev Clear : Task → Type 0
  Clear t = overlaps_task image_base image_size t ≡ false

  none_overlaps-Clear :
      (ts : List Task)
      → none_overlaps image_base image_size ts ≡ true
      → (k : ℕ) → k < length ts
      → Clear (get_or ts k zero_task)
  unfolding none_overlaps
  none_overlaps-Clear [] e k lt = absurd (omega (arith, lt))
  none_overlaps-Clear (t ∷ ts) e zero lt = ground (arith, e)
  none_overlaps-Clear (t ∷ ts) e (suc k) lt =
      none_overlaps-Clear ts (ground (arith, e)) k (omega (arith, lt))

  Clear-none_overlaps :
      (ts : List Task)
      → ((k : ℕ) → k < length ts → Clear (get_or ts k zero_task))
      → none_overlaps image_base image_size ts ≡ true
  unfolding none_overlaps
  Clear-none_overlaps [] h = refl
  Clear-none_overlaps (t ∷ ts) h =
      let first : Clear t = h 0 (omega arith) in
      let rest = Clear-none_overlaps ts (λ k lt. h (suc k) (omega (arith, lt))) in
      rw (first, none_overlaps) rest

-- A task in user mode that the table holds.
abbrev pub IsUserTask : Task → Type 0
IsUserTask t = (0 < state_code t.state) × (t.user_mode ≡ true)

-- The image shares no address with the task's windows.
abbrev pub Apart : (image_base image_size : ℕ) → Task → Type 0
Apart image_base image_size t =
    IsUserTask t
    → (¬ Shared image_base image_size t.user.image_base t.user.image_size)
      × (¬ Shared image_base image_size t.user.stack_base t.user.stack_size)

abbrev pub WindowsFit : Task → Type 0
WindowsFit t =
    (t.user.image_base + t.user.image_size < 2 ^ 32)
    × (t.user.stack_base + t.user.stack_size < 2 ^ 32)

module _ (image_base image_size : ℕ) (fits : image_base + image_size < 2 ^ 32) (t : Task)
    (windows : WindowsFit t) where
  abbrev hits_image : Bool
  hits_image = sched_ranges_overlap image_base image_size t.user.image_base t.user.image_size

  abbrev hits_stack : Bool
  hits_stack = sched_ranges_overlap image_base image_size t.user.stack_base t.user.stack_size

  Clear-Apart : Clear image_base image_size t → Apart image_base image_size t
  Clear-Apart e (live, user) =
      let image =
        sched_ranges_overlap-Shared image_base image_size t.user.image_base t.user.image_size fits
          windows.0 in
      let stack =
        sched_ranges_overlap-Shared image_base image_size t.user.stack_base t.user.stack_size fits
          windows.1 in
      (
        λ h. absurd (ground (arith, e, live, user, image.1 h)),
        λ h. absurd (ground (arith, e, live, user, stack.1 h)),
      )

  Apart-Clear : Apart image_base image_size t → Clear image_base image_size t
  Apart-Clear h =
      let image =
        sched_ranges_overlap-Shared image_base image_size t.user.image_base t.user.image_size fits
          windows.0 in
      let stack =
        sched_ranges_overlap-Shared image_base image_size t.user.stack_base t.user.stack_size fits
          windows.1 in
      elim (Bool-cases (overlaps_task image_base image_size t)) [
        | inr e ↦ e
        | inl e ↦
            let user : IsUserTask t = (ground (arith, e), ground (arith, e)) in
            elim (Bool-cases hits_image) [
              | inl i ↦ absurd ((h user).0 (image.0 i))
              | inr i ↦ absurd ((h user).1 (stack.0 (ground (arith, e, i))))
            ]
      ]

-- For 32-bit arguments, and when no task's windows wrap, `sched_user_image_range_available` holds if
-- and only if the range is not empty, does not wrap, and shares no address with the image or the stack
-- of a task in user mode.
pub sched_user_image_range_available-Apart :
    (image_base image_size : ℕ) (s : Sched)
    → image_base < 2 ^ 32
    → image_size < 2 ^ 32
    → ((k : ℕ) → WindowsFit (task_at s k))
    → (sched_user_image_range_available image_base image_size s ≡ true) ↔ (
        (image_size ≢ 0)
        × (image_base + image_size < 2 ^ 32)
        × ((k : ℕ) → Apart image_base image_size (task_at s k)))
unfolding sched_user_image_range_available
sched_user_image_range_available-Apart image_base image_size s hb hs windows =
    elim (sum-cases image_base image_size hb hs) [
      | inr (over, wraps) ↦
          (λ e. absurd (ground (arith, e, wraps)), λ h. absurd (omega (arith, h, over)))
      | inl (same, fits) ↦ elim (Bool-cases (image_size == 0)) [
        | inl z ↦ (λ e. absurd (ground (arith, e, z)), λ h. absurd (ground (arith, h, z)))
        | inr n ↦ (
          λ e. (
            ground (arith, n),
            fits,
            λ k user.
                let lt = live-place s k user.0 in
                let all : none_overlaps image_base image_size s.tasks ≡ true =
                  ground (arith, e, n, same) in
                Clear-Apart image_base image_size fits (task_at s k) (windows k)
                  (none_overlaps-Clear image_base image_size s.tasks all k lt) user,
          ),
          λ (nonzero, fits', apart).
              let all = Clear-none_overlaps image_base image_size s.tasks (λ k lt.
                Apart-Clear image_base image_size fits (task_at s k) (windows k) (apart k)) in
              ground (arith, all, n, same),
        )
      ]
    ]
