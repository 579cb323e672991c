-- ===== src/Sched/Family.antt =====
-- The process tree of kernel/sched.c: an invariant of the task table, as a function of the index.
use skez_os.Prelude.{ℕ, ◌^◌, ◌≤◌, ◌<◌, ◌≡◌, ◌≢◌, refl, sym, ◌∙◌, ◌⊎◌, inl, inr, arith}
use native.Mathlib.Decide.{ℕ_discrete}
use mathlib.Core.Path.{subst}
use skez_os.Sched.{state_code, Task, minus_one}

-- A task that is not a zombie.
abbrev pub IsActive : Task → Type 0
IsActive t = (0 < state_code t.state) × (state_code t.state ≢ 5)

abbrev pub IsWaitedBy : (parent child : Task) → Type 0
IsWaitedBy p t =
    (t.parent_pid ≡ p.pid) × ((p.wait_target_pid ≡ minus_one) ⊎ (t.pid ≡ p.wait_target_pid))

abbrev pub HasParent : (ℕ → Task) → Task → Type 0
HasParent at t = (j : ℕ) × IsActive (at j) × ((at j).pid ≡ t.parent_pid) × (t.parent_pid < t.pid)

-- Pids are positive and in no other task; a task has no parent, or an older one that is not a zombie;
-- a zombie has a parent; a task that waits has a child to wait for that is not a zombie.
pub record IsFamily (next : ℕ) (at : ℕ → Task) : Type 0 where
  pub room : (0 < next) × (next ≤ 2 ^ 31)
  pub bounds : (i : ℕ) → 0 < state_code (at i).state → (0 < (at i).pid) × ((at i).pid < next)
  pub unique :
      (i j : ℕ)
      → 0 < state_code (at i).state
      → 0 < state_code (at j).state
      → (at i).pid ≡ (at j).pid
      → i ≡ j
  pub family :
      (i : ℕ)
      → 0 < state_code (at i).state
      → (((at i).parent_pid ≡ minus_one) × (state_code (at i).state ≢ 5)) ⊎ HasParent at (at i)
  pub waiting :
      (i : ℕ) → state_code (at i).state ≡ 4 → (j : ℕ) × IsActive (at j) × IsWaitedBy (at i) (at j)

-- A change of a task that leaves its place in the tree: a task that runs, sleeps or waits may become
-- one that runs or sleeps.
pub record IsCalm (t t' : Task) : Type 0 where
  pub pid : t'.pid ≡ t.pid
  pub parent_pid : t'.parent_pid ≡ t.parent_pid
  pub wait_target_pid : t'.wait_target_pid ≡ t.wait_target_pid
  pub state :
      (state_code t'.state ≡ state_code t.state)
      ⊎ ((0 < state_code t.state)
          × (state_code t.state < 5)
          × (0 < state_code t'.state)
          × (state_code t'.state < 4))

pub IsCalm-refl : (t : Task) → IsCalm t t
IsCalm-refl t = record { pid = refl; parent_pid = refl; wait_target_pid = refl; state = inl refl }

pub IsCalm-trans : {t u v : Task} → IsCalm t u → IsCalm u v → IsCalm t v
IsCalm-trans c d = record {
  pid = d.pid ∙ c.pid;
  parent_pid = d.parent_pid ∙ c.parent_pid;
  wait_target_pid = d.wait_target_pid ∙ c.wait_target_pid;
  state = ground (arith, c.state, d.state);
}

pub calm-live : {t t' : Task} → IsCalm t t' → 0 < state_code t'.state → 0 < state_code t.state
calm-live c h = ground (arith, c.state)

pub calm-active : {t t' : Task} → IsCalm t t' → IsActive t → IsActive t'
calm-active c h = ground (arith, c.state)

calm-zombie : {t t' : Task} → IsCalm t t' → state_code t.state ≢ 5 → state_code t'.state ≢ 5
calm-zombie c h = ground (arith, c.state)

pub calm-waits : {t t' : Task} → IsCalm t t' → state_code t'.state ≡ 4 → state_code t.state ≡ 4
calm-waits c h = ground (arith, c.state)

pub calm-IsFamily :
    {next : ℕ} {at at' : ℕ → Task}
    → ((i : ℕ) → IsCalm (at i) (at' i))
    → IsFamily next at
    → IsFamily next at'
calm-IsFamily {next} {at} {at'} c f = record {
  room = f.room;
  bounds = λ i h.
      let b = f.bounds i (calm-live (c i) h) in
      (omega (arith, b, (c i).pid), omega (arith, b, (c i).pid));
  unique = λ i j hi hj e.
      f.unique i j (calm-live (c i) hi) (calm-live (c j) hj)
        (omega (arith, e, (c i).pid, (c j).pid));
  family = λ i h. elim (f.family i (calm-live (c i) h)) [
    | inl (none_left, n) ↦ inl ((c i).parent_pid ∙ none_left, calm-zombie (c i) n)
    | inr (j, a, same, older) ↦ inr (
      j,
      calm-active (c j) a,
      omega (arith, same, (c j).pid, (c i).parent_pid),
      omega (arith, older, (c i).pid, (c i).parent_pid),
    )
  ];
  waiting = λ i h.
      let (j, a, w) = f.waiting i (calm-waits (c i) h) in
      (
        j,
        calm-active (c j) a,
        (
          omega (arith, w.0, (c j).parent_pid, (c i).pid),
          ground (arith, w.1, (c j).pid, (c i).wait_target_pid),
        ),
      );
}

-- A change of task `k` that its children and the tasks that wait for it allow, the others calm.
pub record IsChange (k : ℕ) (at at' : ℕ → Task) : Type 0 where
  pub calm : (i : ℕ) → i ≢ k → IsCalm (at i) (at' i)
  pub same_pid :
      0 < state_code (at' k).state → (0 < state_code (at k).state) × ((at' k).pid ≡ (at k).pid)
  pub has_parent :
      0 < state_code (at' k).state
      → (((at' k).parent_pid ≡ minus_one) × (state_code (at' k).state ≢ 5)) ⊎ HasParent at' (at' k)
  pub stays_parent :
      (i : ℕ)
      → i ≢ k
      → 0 < state_code (at i).state
      → IsActive (at k)
      → (at k).pid ≡ (at i).parent_pid
      → IsActive (at' k) × ((at' k).pid ≡ (at k).pid)
  pub stays_waited :
      (i : ℕ)
      → i ≢ k
      → state_code (at' i).state ≡ 4
      → IsActive (at k)
      → IsWaitedBy (at i) (at k)
      → IsActive (at' k) × ((at' k).pid ≡ (at k).pid) × ((at' k).parent_pid ≡ (at k).parent_pid)
  pub still_waits :
      state_code (at' k).state ≡ 4 → (j : ℕ) × IsActive (at' j) × IsWaitedBy (at' k) (at' j)

module _ {k : ℕ} {at at' : ℕ → Task} (c : IsChange k at at') where
  change-live :
      (i : ℕ)
      → 0 < state_code (at' i).state
      → (0 < state_code (at i).state) × ((at' i).pid ≡ (at i).pid)
  change-live i h = elim (ℕ_discrete i k) [
    | yes e ↦
        subst (λ x. (0 < state_code (at x).state) × ((at' x).pid ≡ (at x).pid)) (sym e)
          (c.same_pid (subst (λ x. 0 < state_code (at' x).state) e h))
    | no n ↦ (calm-live (c.calm i n) h, (c.calm i n).pid)
  ]

  change-parent :
      (i j : ℕ)
      → i ≢ k
      → 0 < state_code (at i).state
      → IsActive (at j)
      → (at j).pid ≡ (at i).parent_pid
      → IsActive (at' j) × ((at' j).pid ≡ (at j).pid)
  change-parent i j n live a same = elim (ℕ_discrete j k) [
    | yes e ↦
        subst (λ x. IsActive (at' x) × ((at' x).pid ≡ (at x).pid)) (sym e)
          (c.stays_parent i n live (subst (λ x. IsActive (at x)) e a)
            (subst (λ x. (at x).pid ≡ (at i).parent_pid) e same))
    | no m ↦ (calm-active (c.calm j m) a, (c.calm j m).pid)
  ]

  change-waited :
      (i j : ℕ)
      → i ≢ k
      → state_code (at' i).state ≡ 4
      → IsActive (at j)
      → IsWaitedBy (at i) (at j)
      → IsActive (at' j) × ((at' j).pid ≡ (at j).pid) × ((at' j).parent_pid ≡ (at j).parent_pid)
  change-waited i j n h a w = elim (ℕ_discrete j k) [
    | yes e ↦
        subst
          (λ x.
            IsActive (at' x)
            × ((at' x).pid ≡ (at x).pid)
            × ((at' x).parent_pid ≡ (at x).parent_pid))
          (sym e)
          (c.stays_waited i n h (subst (λ x. IsActive (at x)) e a)
            (subst (λ x. IsWaitedBy (at i) (at x)) e w))
    | no m ↦ (calm-active (c.calm j m) a, (c.calm j m).pid, (c.calm j m).parent_pid)
  ]

  change-family :
      {next : ℕ} (i : ℕ)
      → IsFamily next at
      → i ≢ k
      → 0 < state_code (at' i).state
      → (((at' i).parent_pid ≡ minus_one) × (state_code (at' i).state ≢ 5)) ⊎ HasParent at' (at' i)
  change-family i f n h = elim (f.family i (calm-live (c.calm i n) h)) [
    | inl (none_left, z) ↦ inl ((c.calm i n).parent_pid ∙ none_left, calm-zombie (c.calm i n) z)
    | inr (j, a, same, older) ↦
        let (a', pid') = change-parent i j n (calm-live (c.calm i n) h) a same in
        inr (
          j,
          a',
          omega (arith, same, pid', (c.calm i n).parent_pid),
          omega (arith, older, (c.calm i n).pid, (c.calm i n).parent_pid),
        )
  ]

  change-waiting :
      {next : ℕ} (i : ℕ)
      → IsFamily next at
      → i ≢ k
      → state_code (at' i).state ≡ 4
      → (j : ℕ) × IsActive (at' j) × IsWaitedBy (at' i) (at' j)
  change-waiting i f n h =
      let (j, a, w) = f.waiting i (calm-waits (c.calm i n) h) in
      let (a', pid', parent') = change-waited i j n h a w in
      (
        j,
        a',
        (
          omega (arith, w.0, parent', (c.calm i n).pid),
          ground (arith, w.1, pid', (c.calm i n).wait_target_pid),
        ),
      )

  pub change-IsFamily : {next : ℕ} → IsFamily next at → IsFamily next at'
  change-IsFamily f = record {
    room = f.room;
    bounds = λ i h.
        let (live, same) = change-live i h in
        let b = f.bounds i live in (omega (arith, b, same), omega (arith, b, same));
    unique = λ i j hi hj e.
        let (li, si) = change-live i hi in
        let (lj, sj) = change-live j hj in f.unique i j li lj (omega (arith, e, si, sj));
    family = λ i h. elim (ℕ_discrete i k) [
      | yes e ↦
          subst
            (λ x.
              (((at' x).parent_pid ≡ minus_one) × (state_code (at' x).state ≢ 5))
              ⊎ HasParent at' (at' x))
            (sym e) (c.has_parent (subst (λ x. 0 < state_code (at' x).state) e h))
      | no n ↦ change-family i f n h
    ];
    waiting = λ i h. elim (ℕ_discrete i k) [
      | yes e ↦
          subst (λ x. (j : ℕ) × IsActive (at' j) × IsWaitedBy (at' x) (at' j)) (sym e)
            (c.still_waits (subst (λ x. state_code (at' x).state ≡ 4) e h))
      | no n ↦ change-waiting i f n h
    ];
  }
