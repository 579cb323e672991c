-- ===== src/Sched/States.antt =====
-- The states of the tasks in a switch of kernel/sched.c.
use skez_os.Prelude.{
  ℕ, ◌≤◌, ◌<◌, ◌≡◌, ◌≢◌, refl, ap, ◌∙◌, inl, inr, Option, none, some, arith, ◌==◌, length,
  length-set, set, Bool-cases,
}
use native.Mathlib.Decide.{ℕ_discrete, dec_lt}
use skez_os.Prelude.Lists.{get_or-past}
use skez_os.Sched.{
  state_code, nowhere, trampoline, in_switch, Task, Sched, zero_task, in_state, task_at, put_task,
  task_running, Resume,
}
use skez_os.Sched.Run.{
  flush_deferred_stack_free, flush_deferred_as_free, suspended, resumed, suspend, after_switch,
  entered, resume,
}
use skez_os.Sched.Family.{IsCalm, IsCalm-refl, IsCalm-trans}
use skez_os.Sched.Calm.{AllCalm, at-put_self, at-put_ne, put-AllCalm}

-- Equal but for what is freed and counted.
pub record SameCore (s s' : Sched) : Type 0 where
  pub tasks : s'.tasks ≡ s.tasks
  pub current : s'.current ≡ s.current
  pub idle : s'.idle ≡ s.idle
  pub next_pid : s'.next_pid ≡ s.next_pid
  pub started : s'.started ≡ s.started
  pub out : s'.in_scheduler ≡ s.in_scheduler

pub core_trans : {s t u : Sched} → SameCore s t → SameCore t u → SameCore s u
core_trans a b = record {
  tasks = b.tasks ∙ a.tasks;
  current = b.current ∙ a.current;
  idle = b.idle ∙ a.idle;
  next_pid = b.next_pid ∙ a.next_pid;
  started = b.started ∙ a.started;
  out = b.out ∙ a.out;
}

pub core_refl : (s : Sched) → SameCore s s
core_refl s = record {
  tasks = refl;
  current = refl;
  idle = refl;
  next_pid = refl;
  started = refl;
  out = refl;
}

pub flush_stack-SameCore : (s : Sched) → SameCore s (flush_deferred_stack_free s)
unfolding flush_deferred_stack_free
flush_stack-SameCore s = elim (Bool-cases (s.deferred_stack == 0)) [
  | inl e ↦ rw e (core_refl s)
  | inr e ↦ rw e (record {
    tasks = refl;
    current = refl;
    idle = refl;
    next_pid = refl;
    started = refl;
    out = refl;
  })
]

pub flush_as-SameCore : (s : Sched) → SameCore s (flush_deferred_as_free s)
unfolding flush_deferred_as_free
flush_as-SameCore s = elim (Bool-cases (s.deferred_as == 0)) [
  | inl e ↦ rw e (core_refl s)
  | inr e ↦ rw e (record {
    tasks = refl;
    current = refl;
    idle = refl;
    next_pid = refl;
    started = refl;
    out = refl;
  })
]

after_switch-SameCore : (r : Resume) (s : Sched) → SameCore s (after_switch r s)
unfolding after_switch
after_switch-SameCore in_switch s =
    core_trans (flush_stack-SameCore s) (flush_as-SameCore (flush_deferred_stack_free s))
after_switch-SameCore trampoline s = core_refl s
after_switch-SameCore nowhere s = core_refl s

pub resume-SameCore : (next : ℕ) (s : Sched) → SameCore (entered next s) (resume next s)
unfolding resume
resume-SameCore next s = after_switch-SameCore (task_at s next).esp (entered next s)

pub suspend-IsCalm : (t : Task) → IsCalm t (suspended t)
suspend-IsCalm t = elim (Bool-cases (in_state t task_running)) [
  | inl e ↦ rw e (record {
    pid = refl;
    parent_pid = refl;
    wait_target_pid = refl;
    state = inr (ground (arith, e));
  })
  | inr e ↦
      rw e (record { pid = refl; parent_pid = refl; wait_target_pid = refl; state = inl refl })
]

pub resume-IsCalm :
    (t : Task) → 0 < state_code t.state → state_code t.state < 3 → IsCalm t (resumed t)
resume-IsCalm t a b = record {
  pid = refl;
  parent_pid = refl;
  wait_target_pid = refl;
  state = inr (a, omega (arith, b), omega arith, omega arith);
}

pub calm-all_trans : (s t u : Sched) → AllCalm s t → AllCalm t u → AllCalm s u
calm-all_trans s t u a b = λ i. IsCalm-trans (a i) (b i)

pub calm-all_refl : (s : Sched) → AllCalm s s
calm-all_refl s = λ i. IsCalm-refl (task_at s i)

pub suspend-AllCalm : (o : Option ℕ) (s : Sched) → AllCalm s (suspend o s)
unfolding suspend
suspend-AllCalm none s = calm-all_refl s
suspend-AllCalm (some c) s =
    put-AllCalm s c (suspended (task_at s c)) (suspend-IsCalm (task_at s c))

abbrev pub Ready : Task → Type 0
Ready t = (0 < state_code t.state) × (state_code t.state < 3)

suspended-state :
    (t : Task) → (state_code (suspended t).state ≢ 2) × (Ready t → Ready (suspended t))
suspended-state t = elim (Bool-cases (in_state t task_running)) [
  | inl e ↦ rw e (ground arith)
  | inr e ↦ rw e (ground (arith, e))
]

put-past :
    (s : Sched) (k i : ℕ) (t : Task)
    → length s.tasks ≤ k
    → i ≡ k
    → (task_at s i ≡ zero_task) × (task_at (put_task k t s) i ≡ zero_task)
put-past s k i t past e = (
  get_or-past s.tasks i zero_task (omega (arith, past, e)),
  get_or-past (set s.tasks k t) i zero_task (omega (arith, past, e, length-set s.tasks k t)),
)

-- No task runs any more, and a task that was ready still is.
pub suspend-state :
    (c i : ℕ) (s : Sched)
    → (state_code (task_at s i).state ≡ 2 → i ≡ c)
    → (state_code (task_at (suspend (some c) s) i).state ≢ 2)
      × (Ready (task_at s i) → Ready (task_at (suspend (some c) s) i))
unfolding suspend
suspend-state c i s only = elim (ℕ_discrete i c) [
  | no n ↦ rw (at-put_ne s c i (suspended (task_at s c)) n) (λ two. n (only two), λ h. h)
  | yes e ↦ elim (dec_lt c (length s.tasks)) [
    | yes lt ↦
        let here =
          ap (λ x. task_at (put_task c (suspended (task_at s c)) s) x) e
          ∙ at-put_self s c (suspended (task_at s c)) lt in
        rw (here, e) (suspended-state (task_at s c))
    | no past ↦
        let (was, is) = put-past s c i (suspended (task_at s c)) (omega (arith, past)) e in
        rw (was, is) (λ two. absurd (ground (arith, two)), λ h. h)
  ]
]

-- The state of the tasks when `next` has become a running task, and no other runs.
pub run-state :
    (next i : ℕ) (t : Task) (s : Sched)
    → next < length s.tasks
    → state_code t.state ≡ 2
    → (state_code (task_at s i).state ≡ 2 → i ≡ next)
    → (state_code (task_at (put_task next t s) i).state ≡ 2 → i ≡ next)
      × (Ready (task_at s i) → Ready (task_at (put_task next t s) i))
run-state next i t s lt runs only = elim (ℕ_discrete i next) [
  | no n ↦ rw (at-put_ne s next i t n) (only, λ h. h)
  | yes e ↦
      let here = ap (λ x. task_at (put_task next t s) x) e ∙ at-put_self s next t lt in
      rw here (λ two. e, λ h. (omega (arith, runs), omega (arith, runs)))
]
