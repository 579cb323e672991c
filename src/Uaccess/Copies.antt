-- ===== src/Uaccess/Copies.antt =====
-- The copies of kernel/uaccess.c stay in the windows of the current user task.
use mathlib.Core.Path.{subst}
use skez_os.Prelude.{
  ℕ, zero, suc, ◌+◌, ◌^◌, ◌≤◌, ◌<◌, ◌≡◌, ◌≢◌, refl, sym, ap, ◌∙◌, ◌⊎◌, inl, inr, Bool, true, false,
  ◌||◌, Option, none, some, List, [], ◌∷◌, arith, ◌==◌, length, get_or, drop, Bool-cases, ok, err,
  fault,
}
use skez_os.Elf.Load.{Memory, within, copy_bytes}
use skez_os.Sched.{Task, Sched, task_at}
use skez_os.Sched.User.{sched_range_ok, task_range_ok, sched_current_user_range_ok, test_current}
use skez_os.Sched.Ranges.{sched_range_ok-IsWithin}
use skez_os.Uaccess.{
  uaccess_user_range_ok, load_bytes, uaccess_copy_from_user, uaccess_copy_to_user,
}

-- An address of one of the task's windows.
abbrev pub InWindow : Task → ℕ → Type 0
InWindow t a =
    ((t.user.image_base ≤ a) × (a < t.user.image_base + t.user.image_size))
    ⊎ ((t.user.stack_base ≤ a) × (a < t.user.stack_base + t.user.stack_size))

-- An address that the current user task owns.
abbrev pub IsUserByte : Sched → ℕ → Type 0
IsUserByte s a =
    (c : ℕ) × (s.current ≡ some c) × ((task_at s c).user_mode ≡ true) × InWindow (task_at s c) a

abbrev pub Words : Task → Type 0
Words t =
    (t.user.image_base < 2 ^ 32)
    × (t.user.image_size < 2 ^ 32)
    × (t.user.stack_base < 2 ^ 32)
    × (t.user.stack_size < 2 ^ 32)

tested :
    (o : Option ℕ) (test : Task → Bool) (s : Sched)
    → test_current o test s ≡ true
    → (c : ℕ) × (o ≡ some c) × (test (task_at s c) ≡ true)
tested none test s e = cc
tested (some c) test s e = (c, refl, e)

or-right : (b c : Bool) → b ≡ false → (b || c) ≡ true → c ≡ true
or-right true c n e = cc
or-right false c n e = e

module _ (addr len : ℕ) (ha : addr < 2 ^ 32) (hl : len < 2 ^ 32) (a : ℕ) (from : addr ≤ a)
    (to : a < addr + len) where
  window-InWindow :
      (base size : ℕ)
      → base < 2 ^ 32
      → size < 2 ^ 32
      → sched_range_ok addr len base size ≡ true
      → (base ≤ a) × (a < base + size)
  window-InWindow base size hb hs e =
      ground (arith, (sched_range_ok-IsWithin addr len base size ha hl hb hs).0 e, from, to)

  task-InWindow :
      (t : Task) → Words t → task_range_ok addr len t ≡ true → (t.user_mode ≡ true) × InWindow t a
  unfolding task_range_ok
  task-InWindow t (ib, is, sb, ss) e = (
    ground (arith, e),
    elim (Bool-cases (sched_range_ok addr len t.user.image_base t.user.image_size)) [
      | inl i ↦ inl (window-InWindow t.user.image_base t.user.image_size ib is i)
      | inr i ↦
          inr (window-InWindow t.user.stack_base t.user.stack_size sb ss (ground (arith, e, i)))
    ],
  )

  range-IsUserByte :
      (s : Sched)
      → ((c : ℕ) → s.current ≡ some c → Words (task_at s c))
      → uaccess_user_range_ok addr len s ≡ true
      → IsUserByte s a
  unfolding uaccess_user_range_ok sched_current_user_range_ok
  range-IsUserByte s words e =
      let (c, current, ok_there) = tested s.current (task_range_ok addr len) s (
        or-right (len == 0) (test_current s.current (task_range_ok addr len) s)
          (ground (arith, from, to)) e) in
      let inside = task-InWindow (task_at s c) (words c current) ok_there in
      (c, current, inside.0, inside.1)

-- The copy to the user, by its branches.
module _ (dst len : ℕ) (src : List ℕ) (s : Sched) (m : Memory) where
  to_user-empty : (len == 0) ≡ true → uaccess_copy_to_user dst (some src) len s m ≡ (ok, m)
  unfolding uaccess_copy_to_user
  to_user-empty e = rw (e, uaccess_copy_to_user) refl

  to_user-done :
      (len == 0) ≡ false
      → uaccess_user_range_ok dst len s ≡ true
      → uaccess_copy_to_user dst (some src) len s m ≡ (ok, copy_bytes dst src 0 len m)
  unfolding uaccess_copy_to_user
  to_user-done e r = rw (r, e, uaccess_copy_to_user) refl

  to_user-fault :
      (len == 0) ≡ false
      → uaccess_user_range_ok dst len s ≡ false
      → uaccess_copy_to_user dst (some src) len s m ≡ (err fault, m)
  unfolding uaccess_copy_to_user
  to_user-fault e r = rw (r, e, uaccess_copy_to_user) refl

to_user-null :
    (dst len : ℕ) (s : Sched) (m : Memory) → (uaccess_copy_to_user dst none len s m).1 ≡ m
unfolding uaccess_copy_to_user
to_user-null dst len s m = elim (Bool-cases (len == 0)) [ inl e ↦ rw e refl | inr e ↦ rw e refl ]

copied-outside :
    (dst len : ℕ) (src : List ℕ) (m : Memory) (a : ℕ)
    → within dst len a ≡ false
    → copy_bytes dst src 0 len m a ≡ m a
copied-outside dst len src m a e = rw e refl

copied-inside :
    (dst len : ℕ) (src : List ℕ) (m : Memory) (k : ℕ)
    → k < len
    → copy_bytes dst src 0 len m (dst + k) ≡ get_or src k 0
copied-inside dst len src m k lt =
    let inside : within dst len (dst + k) ≡ true = ground (arith, lt) in
    rw inside (ap (λ i. get_or src i 0) (omega arith))

-- For 32-bit addresses, lengths and windows, a byte of memory that `uaccess_copy_to_user` changes lies
-- in the image or the stack of the current task, which is in user mode.
pub uaccess_copy_to_user-IsUserByte :
    (dst len : ℕ) (src : Option (List ℕ)) (s : Sched) (m : Memory)
    → dst < 2 ^ 32
    → len < 2 ^ 32
    → ((c : ℕ) → s.current ≡ some c → Words (task_at s c))
    → (a : ℕ) → (uaccess_copy_to_user dst src len s m).1 a ≢ m a
    → IsUserByte s a
uaccess_copy_to_user-IsUserByte dst len none s m hd hl words a changed =
    absurd (changed (ap (λ f. f a) (to_user-null dst len s m)))
uaccess_copy_to_user-IsUserByte dst len (some src) s m hd hl words a changed =
    elim (Bool-cases (len == 0)) [
      | inl e ↦ absurd (changed (ap (λ r. r.1 a) (to_user-empty dst len src s m e)))
      | inr e ↦ elim (Bool-cases (uaccess_user_range_ok dst len s)) [
        | inr r ↦ absurd (changed (ap (λ o. o.1 a) (to_user-fault dst len src s m e r)))
        | inl r ↦ elim (Bool-cases (within dst len a)) [
          | inl w ↦
              range-IsUserByte dst len hd hl a (ground (arith, w)) (ground (arith, w)) s words r
          | inr w ↦ absurd (
              changed (
                ap (λ o. o.1 a) (to_user-done dst len src s m e r)
                ∙ copied-outside dst len src m a w))
        ]
      ]
    ]

drop-all : (k : ℕ) (xs : List ℕ) → length xs ≤ k → drop k xs ≡ []
drop-all zero [] h = refl
drop-all zero (x ∷ xs) h = absurd (omega (arith, h))
drop-all (suc k) [] h = refl
drop-all (suc k) (x ∷ xs) h = drop-all k xs (omega (arith, h))

drop-next : (k : ℕ) (xs : List ℕ) → k < length xs → drop k xs ≡ get_or xs k 0 ∷ drop (suc k) xs
drop-next k [] h = absurd (omega (arith, h))
drop-next zero (x ∷ xs) h = refl
drop-next (suc k) (x ∷ xs) h = drop-next k xs (omega (arith, h))

-- What is read back.
load-copied :
    (dst len : ℕ) (src : List ℕ) (m : Memory) (n k : ℕ)
    → k + n ≡ len
    → length src ≡ len
    → load_bytes (dst + k) n (copy_bytes dst src 0 len m) ≡ drop k src
load-copied dst len src m zero k e size = sym (drop-all k src (omega (arith, e, size)))
load-copied dst len src m (suc n) k e size =
    let here : copy_bytes dst src 0 len m (dst + k) ≡ get_or src k 0 =
      copied-inside dst len src m k (omega (arith, e)) in
    let rest : load_bytes (dst + k + 1) n (copy_bytes dst src 0 len m) ≡ drop (suc k) src =
      subst (λ a. load_bytes a n (copy_bytes dst src 0 len m) ≡ drop (k + 1) src) (omega arith)
        (load-copied dst len src m n (k + 1) (omega (arith, e)) size)
      ∙ ap (λ j. drop j src) {y = suc k} (omega arith) in
    rw (here, rest) (sym (drop-next k src (omega (arith, e, size))))

from_user-done :
    (addr len : ℕ) (s : Sched) (m : Memory)
    → (len == 0) ≡ false
    → uaccess_user_range_ok addr len s ≡ true
    → uaccess_copy_from_user true addr len s m ≡ (ok, load_bytes addr len m)
unfolding uaccess_copy_from_user
from_user-done addr len s m e r = rw (r, e, uaccess_copy_from_user) refl

from_user-empty :
    (addr len : ℕ) (s : Sched) (m : Memory)
    → (len == 0) ≡ true
    → uaccess_copy_from_user true addr len s m ≡ (ok, [])
unfolding uaccess_copy_from_user
from_user-empty addr len s m e = rw (e, uaccess_copy_from_user) refl

-- When `uaccess_copy_to_user` of a whole buffer returns 0, `uaccess_copy_from_user` of the same range
-- returns 0 and the buffer's bytes.
pub copy_to_user-copy_from_user :
    (dst len : ℕ) (src : List ℕ) (s : Sched) (m : Memory)
    → length src ≡ len
    → (uaccess_copy_to_user dst (some src) len s m).0 ≡ ok
    → uaccess_copy_from_user true dst len s (uaccess_copy_to_user dst (some src) len s m).1
      ≡ (ok, src)
copy_to_user-copy_from_user dst len src s m size done = elim (Bool-cases (len == 0)) [
  | inl e ↦
      from_user-empty dst len s (uaccess_copy_to_user dst (some src) len s m).1 e
      ∙ ap (λ xs. (ok, xs)) (sym (drop-all 0 src (ground (arith, e, size))))
  | inr e ↦ elim (Bool-cases (uaccess_user_range_ok dst len s)) [
    | inr r ↦ absurd (no_fault (sym (ap (λ o. o.0) (to_user-fault dst len src s m e r)) ∙ done))
    | inl r ↦ rw (to_user-done dst len src s m e r) (
        from_user-done dst len s (copy_bytes dst src 0 len m) e r
        ∙ ap (λ xs. (ok, xs)) (back 0 (omega arith)))
  ]
]
  where
    no_fault : ¬ (err fault ≡ ok)
    no_fault e = cc

    back : (k : ℕ) → k ≡ 0 → load_bytes dst len (copy_bytes dst src 0 len m) ≡ src
    back k z =
        subst (λ a. load_bytes a len (copy_bytes dst src 0 len m) ≡ src) (omega (arith, z))
          (load-copied dst len src m len 0 (omega arith) size)
