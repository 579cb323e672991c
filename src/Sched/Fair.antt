-- ===== src/Sched/Fair.antt =====
-- The choice of kernel/sched.c goes round the tasks: each that is ready comes to its turn.
use mathlib.Core.Path.{subst}
use native.Mathlib.Decide.{ℕ_discrete, dec_lt}
use skez_os.Prelude.{
  ℕ, zero, suc, ◌+◌, ◌-◌, ◌%◌, ◌≤◌, ◌<◌, ◌≡◌, refl, sym, ◌⊎◌, inl, inr, true, false, Option, none,
  some, arith, Bool-cases,
}
use skez_os.Sched.{Sched, max_tasks}
use skez_os.Sched.Run.{is_waiting, pick_rounds, sched_pick_next}
use skez_os.Sched.Calm.{pick_rounds-cases}

-- The rounds `n` up to `n + rounds` find the first that waits, or none waits.
abbrev FirstRound : Sched → (n rounds : ℕ) → Option ℕ → Type 0
FirstRound s n rounds none =
    (k : ℕ) → n ≤ k → k < n + rounds → is_waiting s ((s.rr_cursor + k) % 12) ≡ false
FirstRound s n rounds (some i) =
    (m : ℕ) × (n ≤ m)
    × (m < n + rounds)
    × (i ≡ (s.rr_cursor + m) % 12)
    × ((k : ℕ) → n ≤ k → k < m → is_waiting s ((s.rr_cursor + k) % 12) ≡ false)

FirstRound-next :
    (s : Sched) (n rounds : ℕ) (o : Option ℕ)
    → is_waiting s ((s.rr_cursor + n) % 12) ≡ false
    → FirstRound s (n + 1) rounds o
    → FirstRound s n (suc rounds) o
FirstRound-next s n rounds none e h = λ k from to. elim (ℕ_discrete n k) [
  | yes same ↦ subst (λ x. is_waiting s ((s.rr_cursor + x) % 12) ≡ false) same e
  | no other ↦ h k (omega (arith, from, other)) (omega (arith, to))
]
FirstRound-next s n rounds (some i) e (m, from, to, same, before) = (
  m,
  omega (arith, from),
  omega (arith, to),
  same,
  λ k from' to'. elim (ℕ_discrete n k) [
    | yes here ↦ subst (λ x. is_waiting s ((s.rr_cursor + x) % 12) ≡ false) here e
    | no other ↦ before k (omega (arith, from', other)) to'
  ],
)

pick_rounds-FirstRound : (s : Sched) (n rounds : ℕ) → FirstRound s n rounds (pick_rounds s n rounds)
unfolding pick_rounds
pick_rounds-FirstRound s n zero = λ k from to. absurd (omega (arith, from, to))
pick_rounds-FirstRound s n (suc rounds) =
    elim (Bool-cases (is_waiting s ((s.rr_cursor + n) % max_tasks))) [
      | inl e ↦
          rw (e, pick_rounds)
            (n, omega arith, omega arith, refl, λ k from to. absurd (omega (arith, from, to)))
      | inr e ↦
          rw (e, pick_rounds)
            (FirstRound-next s n rounds (pick_rounds s (n + 1) rounds) e
              (pick_rounds-FirstRound s (n + 1) rounds))
    ]

-- How many turns a task is away from the cursor.
abbrev pub turns : (cursor i : ℕ) → ℕ
turns cursor i = (i + 12 - cursor) % 12

-- The task that is chosen, and the cursor after it.
abbrev pub Turn : Sched → (i : ℕ) → Option ℕ × Sched → Type 0
Turn s i picked =
    (j : ℕ) × (picked.0 ≡ some j)
    × (is_waiting s j ≡ true)
    × ((j ≡ i) ⊎ (turns picked.1.rr_cursor i < turns s.rr_cursor i))

turn-distance :
    (cursor i m : ℕ)
    → cursor < 12
    → i < 12
    → m ≤ turns cursor i
    → ((cursor + m) % 12 ≡ i) ⊎ (turns (((cursor + m) % 12 + 1) % 12) i < turns cursor i)
turn-distance cursor i m hc hi h = elim (ℕ_discrete m (turns cursor i)) [
  | yes e ↦ inl (omega (arith, e, hc, hi))
  | no n ↦ inr (omega (arith, h, n, hc, hi))
]

back-to : (cursor i : ℕ) → cursor < 12 → i < 12 → (cursor + turns cursor i) % 12 ≡ i
back-to cursor i hc hi = omega (arith, hc, hi)

module _ (s : Sched) (i : ℕ) (hc : s.rr_cursor < 12) (hi : i < 12)
    (waits : is_waiting s i ≡ true) where
  there-waits : is_waiting s ((s.rr_cursor + turns s.rr_cursor i) % 12) ≡ true
  there-waits = subst (λ x. is_waiting s x ≡ true) (sym (back-to s.rr_cursor i hc hi)) waits

  -- The first that waits comes before `i` or is `i`.
  first-before :
      (m : ℕ)
      → ((k : ℕ) → 0 ≤ k → k < m → is_waiting s ((s.rr_cursor + k) % 12) ≡ false)
      → m ≤ turns s.rr_cursor i
  first-before m before = elim (dec_lt (turns s.rr_cursor i) m) [
    | no n ↦ omega (arith, n)
    | yes lt ↦ absurd (ground (arith, before (turns s.rr_cursor i) (omega arith) lt, there-waits))
  ]

  found-Turn :
      (o : Option ℕ)
      → pick_rounds s 0 max_tasks ≡ o
      → ((j : ℕ) → o ≡ some j → is_waiting s j ≡ true)
      → FirstRound s 0 12 o
      → Turn s i (sched_pick_next s)
  unfolding sched_pick_next
  found-Turn none e w f =
      absurd
        (ground (arith, f (turns s.rr_cursor i) (omega arith) (omega (arith, hc, hi)), there-waits))
  found-Turn (some j) e w (m, from, to, same, before) =
      rw (e, sched_pick_next)
        (
          j,
          refl,
          w j refl,
          subst (λ x. (x ≡ i) ⊎ (turns ((x + 1) % 12) i < turns s.rr_cursor i)) (sym same)
              (turn-distance s.rr_cursor i m hc hi (first-before m before)),
        )

  -- With the round robin cursor at one of the 12 slots: when the task at index `i` is runnable and is
  -- neither the current nor the idle task, `sched_pick_next_locked` chooses such a task too; it is
  -- `i`, or the cursor has come nearer to `i`, in the cyclic order of the slots.
  pub sched_pick_next-Turn : Turn s i (sched_pick_next s)
  sched_pick_next-Turn =
      found-Turn (pick_rounds s 0 max_tasks) refl (λ j e. found-waits j e)
        (pick_rounds-FirstRound s 0 12)
    where
      found-waits : (j : ℕ) → pick_rounds s 0 max_tasks ≡ some j → is_waiting s j ≡ true
      found-waits j e = elim (pick_rounds-cases s 0 max_tasks) [
        | inl none_found ↦ absurd (ground (arith, none_found, e))
        | inr (k, found, w) ↦ subst (λ x. is_waiting s x ≡ true) (ground (arith, found, e)) w
      ]
