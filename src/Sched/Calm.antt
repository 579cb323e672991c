-- ===== src/Sched/Calm.antt =====
-- The operations of kernel/sched.c that leave the process tree alone: waking, choosing and switching.
use skez_os.Prelude.{
  ℕ, zero, suc, ◌+◌, ◌%◌, ◌≤◌, ◌<◌, ◌≡◌, ◌≢◌, refl, sym, ap, ◌∙◌, ◌⊎◌, inl, inr, true, false, ◌&&◌,
  ◌||◌, Option, none, some, List, [], ◌∷◌, map, arith, leb, ◌==◌, length, length-map, get_or, set,
  get_or-set_self, get_or-set_ne, Bool-cases, Option-cases,
}
use skez_os.Prelude.Lists.{get_or-past}
use native.Mathlib.Decide.{ℕ_discrete, dec_lt}
use mathlib.Core.Path.{subst}
use skez_os.Sched.{
  state_code, Task, Sched, max_tasks, zero_task, in_state, task_at, put_task, is_index,
  task_runnable, task_running,
}
use skez_os.Sched.Run.{
  wake_sleeper, sched_wake_sleepers, is_waiting, pick_rounds, index_in_state, pick_fallback,
  sched_pick_next,
}
use skez_os.Sched.Family.{IsFamily, IsCalm, IsCalm-refl, calm-IsFamily}

abbrev pub AllCalm : Sched → Sched → Type 0
AllCalm s s' = (i : ℕ) → IsCalm (task_at s i) (task_at s' i)

pub at-put_self :
    (s : Sched) (k : ℕ) (t : Task) → k < length s.tasks → task_at (put_task k t s) k ≡ t
at-put_self s k t lt = get_or-set_self s.tasks k t zero_task lt

pub at-put_ne : (s : Sched) (k i : ℕ) (t : Task) → i ≢ k → task_at (put_task k t s) i ≡ task_at s i
at-put_ne s k i t n = get_or-set_ne s.tasks k i t zero_task (λ e. n (sym e))

-- A task that is in no unused state has a place in the table.
pub live-place : (s : Sched) (i : ℕ) → 0 < state_code (task_at s i).state → i < length s.tasks
live-place s i h = elim (dec_lt i (length s.tasks)) [
  | yes lt ↦ lt
  | no n ↦
      let e : (task_at s i) ≡ zero_task = get_or-past s.tasks i zero_task (omega arith) in
      let c : state_code (task_at s i).state ≡ 0 = ap (λ t. state_code t.state) e in
      absurd (omega (arith, h, c))
]

set-past {ℓ} : {A : Type ℓ} (xs : List A) (i : ℕ) (v : A) → length xs ≤ i → set xs i v ≡ xs
set-past [] i v h = refl
set-past (x ∷ xs) zero v h = absurd (omega arith)
set-past (x ∷ xs) (suc i) v h = ap (λ l. x ∷ l) (set-past xs i v (omega arith))

-- A write changes the task at its index, if there is one.
pub at-put :
    (s : Sched) (k i : ℕ) (t : Task)
    → (task_at (put_task k t s) i ≡ task_at s i) ⊎ ((i ≡ k) × (task_at (put_task k t s) i ≡ t))
at-put s k i t = elim (ℕ_discrete i k) [
  | no n ↦ inl (at-put_ne s k i t n)
  | yes e ↦ elim (dec_lt k (length s.tasks)) [
    | yes lt ↦ inr (e, ap (λ x. task_at (put_task k t s) x) e ∙ at-put_self s k t lt)
    | no past ↦ inl (ap (λ ts. get_or ts i zero_task) (set-past s.tasks k t (omega arith)))
  ]
]

pub put-AllCalm :
    (s : Sched) (k : ℕ) (t : Task) → IsCalm (task_at s k) t → AllCalm s (put_task k t s)
put-AllCalm s k t c = λ i. elim (at-put s k i t) [
  | inl e ↦ subst (IsCalm (task_at s i)) (sym e) (IsCalm-refl (task_at s i))
  | inr (same, e) ↦
      subst (IsCalm (task_at s i)) (sym e) (subst (λ x. IsCalm (task_at s x) t) (sym same) c)
]

get_or-map {ℓ} :
    {A : Type ℓ} (f : A → A) (xs : List A) (i : ℕ) (d : A)
    → f d ≡ d
    → get_or (map f xs) i d ≡ f (get_or xs i d)
get_or-map f [] i d e = sym e
get_or-map f (x ∷ xs) zero d e = refl
get_or-map f (x ∷ xs) (suc i) d e = get_or-map f xs i d e

pub at-wake :
    (now : ℕ) (s : Sched) (i : ℕ)
    → task_at (sched_wake_sleepers now s) i ≡ wake_sleeper now (task_at s i)
unfolding sched_wake_sleepers wake_sleeper
at-wake now s i = get_or-map (wake_sleeper now) s.tasks i zero_task refl

pub wake_sleeper-IsCalm : (now : ℕ) (t : Task) → IsCalm t (wake_sleeper now t)
unfolding wake_sleeper
wake_sleeper-IsCalm now t = elim (Bool-cases ((state_code t.state == 3) && leb t.wake_tick now)) [
  | inl e ↦ rw e (record {
    pid = refl;
    parent_pid = refl;
    wait_target_pid = refl;
    state = inr (ground (arith, e));
  })
  | inr e ↦ rw e (IsCalm-refl t)
]

-- What the scheduler relies on: only the current task runs, and the idle task is ready.
pub record IsReady (s : Sched) : Type 0 where
  pub size : length s.tasks ≡ max_tasks
  pub family : IsFamily s.next_pid (task_at s)
  pub out : s.in_scheduler ≡ false
  pub running : (i : ℕ) → state_code (task_at s i).state ≡ 2 → s.current ≡ some i
  pub idle_task : ℕ
  pub idle : s.idle ≡ some idle_task
  pub idle_ready :
      (0 < state_code (task_at s idle_task).state) × (state_code (task_at s idle_task).state < 3)

-- A change of the tasks alone.
pub tasks-IsReady :
    {s s' : Sched}
    → IsReady s
    → AllCalm s s'
    → length s'.tasks ≡ length s.tasks
    → s'.next_pid ≡ s.next_pid
    → s'.in_scheduler ≡ s.in_scheduler
    → s'.idle ≡ s.idle
    → ((i : ℕ) → state_code (task_at s' i).state ≡ 2 → s'.current ≡ some i)
    → ((i : ℕ)
        → s.idle ≡ some i
        → (0 < state_code (task_at s i).state) × (state_code (task_at s i).state < 3)
        → (0 < state_code (task_at s' i).state) × (state_code (task_at s' i).state < 3))
    → IsReady s'
tasks-IsReady {s} {s'} r calm size next out idle running ready = record {
  size = size ∙ r.size;
  family = subst (λ n. IsFamily n (task_at s')) (sym next) (calm-IsFamily calm r.family);
  out = out ∙ r.out;
  running = running;
  idle_task = r.idle_task;
  idle = idle ∙ r.idle;
  idle_ready = ready r.idle_task r.idle r.idle_ready;
}

wake_sleeper-state :
    (now : ℕ) (t : Task)
    → (state_code (wake_sleeper now t).state ≡ state_code t.state)
      ⊎ ((state_code t.state ≡ 3) × (state_code (wake_sleeper now t).state ≡ 1))
unfolding wake_sleeper
wake_sleeper-state now t = elim (Bool-cases ((state_code t.state == 3) && leb t.wake_tick now)) [
  | inl e ↦ rw e (inr (ground (arith, e), refl))
  | inr e ↦ rw e (inl refl)
]

pub wake-AllCalm : (now : ℕ) (s : Sched) → AllCalm s (sched_wake_sleepers now s)
wake-AllCalm now s = λ i.
    subst (IsCalm (task_at s i)) (sym (at-wake now s i)) (wake_sleeper-IsCalm now (task_at s i))

pub wake-state :
    (now : ℕ) (s : Sched) (i : ℕ)
    → let after = state_code (task_at (sched_wake_sleepers now s) i).state in
      let before = state_code (task_at s i).state in (after ≡ before) ⊎ ((before ≡ 3) × (after ≡ 1))
wake-state now s i =
    subst
      (λ t.
        (state_code t.state ≡ state_code (task_at s i).state)
        ⊎ ((state_code (task_at s i).state ≡ 3) × (state_code t.state ≡ 1)))
      (sym (at-wake now s i)) (wake_sleeper-state now (task_at s i))

wake_sleepers-tasks :
    (now : ℕ) (s : Sched) → (sched_wake_sleepers now s).tasks ≡ map (wake_sleeper now) s.tasks
unfolding sched_wake_sleepers
wake_sleepers-tasks now s = refl

pub wake-IsReady : (now : ℕ) (s : Sched) → IsReady s → IsReady (sched_wake_sleepers now s)
unfolding sched_wake_sleepers
wake-IsReady now s r =
    tasks-IsReady r (wake-AllCalm now s) (length-map s.tasks (wake_sleeper now)) refl refl refl
      (λ i h. r.running i (ground (arith, wake-state now s i, h)))
      (λ i e h. ground (arith, wake-state now s i, h))

-- A task that the loop of the choice takes, or there is none among its rounds.
abbrev pub Waiting : Sched → ℕ → Type 0
Waiting s i = is_waiting s i ≡ true

pub pick_rounds-cases :
    (s : Sched) (n rounds : ℕ)
    → (pick_rounds s n rounds ≡ none) ⊎ ((i : ℕ) × (pick_rounds s n rounds ≡ some i) × Waiting s i)
unfolding pick_rounds
pick_rounds-cases s n zero = inl refl
pick_rounds-cases s n (suc rounds) =
    elim (Bool-cases (is_waiting s ((s.rr_cursor + n) % max_tasks))) [
      | inl e ↦ rw (e, pick_rounds) (inr ((s.rr_cursor + n) % max_tasks, refl, e))
      | inr e ↦ rw (e, pick_rounds) (pick_rounds-cases s (n + 1) rounds)
    ]

-- The choice of a task that is ready, with the cursor moved or not.
pub record IsPicked (s : Sched) (picked : Option ℕ × Sched) : Type 0 where
  pub next : ℕ
  pub found : picked.0 ≡ some next
  pub able : (0 < state_code (task_at s next).state) × (state_code (task_at s next).state < 3)
  pub cursor : ℕ
  pub moved : picked.1 ≡ record s { rr_cursor = cursor }

pub is_index-some : (o : Option ℕ) (i : ℕ) → is_index o i ≡ true → o ≡ some i
is_index-some none i e = cc
is_index-some (some c) i e = ap some (ground (arith, e))

module _ (s : Sched) where
  pick-current :
      (c : ℕ)
      → s.current ≡ some c
      → (in_state (task_at s c) task_running || in_state (task_at s c) task_runnable) ≡ true
      → pick_fallback s ≡ (some c, s)
  unfolding pick_fallback
  pick-current c ec able = simp (ec, able, pick_fallback)

  pick-idle :
      (k : ℕ)
      → (index_in_state s s.current (λ t. in_state t task_running)
          || index_in_state s s.current (λ t. in_state t task_runnable))
        ≡ false
      → s.idle ≡ some k
      → in_state (task_at s k) task_runnable ≡ true
      → pick_fallback s ≡ (some k, s)
  unfolding pick_fallback
  pick-idle k busy ek able = simp (busy, ek, able, pick_fallback)

  idle-IsPicked :
      IsReady s
      → (index_in_state s s.current (λ t. in_state t task_running)
          || index_in_state s s.current (λ t. in_state t task_runnable))
        ≡ false
      → ((c : ℕ) → s.current ≡ some c → state_code (task_at s c).state ≢ 2)
      → IsPicked s (pick_fallback s)
  idle-IsPicked r busy off =
      let still : state_code (task_at s r.idle_task).state ≢ 2 =
        λ two. off r.idle_task (r.running r.idle_task two) two in
      let able : in_state (task_at s r.idle_task) task_runnable ≡ true =
        ground (arith, r.idle_ready, still) in
      rw (pick-idle r.idle_task busy r.idle able) (record {
        next = r.idle_task;
        found = refl;
        able = r.idle_ready;
        cursor = s.rr_cursor;
        moved = refl;
      })

  current-IsPicked : IsReady s → IsPicked s (pick_fallback s)
  current-IsPicked r = elim (Option-cases s.current) [
    | inl none_yet ↦ idle-IsPicked r (simp none_yet) (λ c ec. absurd (ground (arith, none_yet, ec)))
    | inr (c, ec) ↦
        elim (Bool-cases
          (in_state (task_at s c) task_running || in_state (task_at s c) task_runnable)) [
            | inl able ↦ rw (pick-current c ec able) (record {
              next = c;
              found = refl;
              able = ground (arith, able);
              cursor = s.rr_cursor;
              moved = refl;
            })
            | inr busy ↦ idle-IsPicked r (simp (ec, busy)) (λ d ed. ground (arith, ec, ed, busy))
          ]
  ]

pub sched_pick_next-IsPicked : (s : Sched) → IsReady s → IsPicked s (sched_pick_next s)
unfolding sched_pick_next
sched_pick_next-IsPicked s r = elim (pick_rounds-cases s 0 max_tasks) [
  | inr (i, e, w) ↦
      rw (e, sched_pick_next)
        (record {
          next = i;
          found = refl;
          able = ground (arith, w);
          cursor = (i + 1) % max_tasks;
          moved = refl;
        })
  | inl e ↦ rw (e, sched_pick_next) (current-IsPicked s r)
]
