-- ===== src/Sched/Reap.antt =====
-- Looking up a task of kernel/sched.c by its pid, and giving back the slot of a zombie.
use skez_os.Prelude.{
  ℕ, ◌<◌, ◌≡◌, ◌≢◌, refl, sym, ap, ◌∙◌, inl, inr, false, Option, none, some, arith, ◌==◌, length,
  get_or, set, Bool-cases, Option-cases,
}
use mathlib.Core.Path.{subst}
use skez_os.Sched.{
  TaskState, state_code, Task, Sched, max_tasks, default_timeslice, zero_task, in_state, task_at,
  put_task, is_index, task_runnable, task_running, task_sleeping,
}
use skez_os.Sched.Family.{IsFamily, IsCalm, IsCalm-refl}
use skez_os.Sched.Calm.{at-put_self, at-put_ne, live-place, IsReady}
use skez_os.Sched.States.{Ready}
use skez_os.Prelude.Lists.{find_first-FirstFound, FirstFound}
use skez_os.Sched.{task_unused, task_zombie, cleared_task, minus_one, add_effect, Effect}
use skez_os.Sched.Children.{
  has_pid, sched_find_task_by_pid, free_stack, destroy_space, release, sched_reap_task,
}
use skez_os.Sched.Family.{IsChange, change-IsFamily}
use skez_os.Sched.States.{SameCore, core_refl, core_trans}
use skez_os.Sched.Calls.{IsSched, put-IsReady, unread-IsSched}

-- Pids name tasks.
abbrev pub UniquePids : Sched → Type 0
UniquePids s =
    (i j : ℕ)
    → 0 < state_code (task_at s i).state
    → 0 < state_code (task_at s j).state
    → (task_at s i).pid ≡ (task_at s j).pid
    → i ≡ j

pub sched_find_task_by_pid_lem :
    (s : Sched) (i : ℕ)
    → UniquePids s
    → 0 < state_code (task_at s i).state
    → sched_find_task_by_pid (task_at s i).pid s ≡ some i
unfolding sched_find_task_by_pid
sched_find_task_by_pid_lem s i unique live =
    let pid = (task_at s i).pid in
    let found = find_first-FirstFound (has_pid pid) zero_task s.tasks in
    elim (Option-cases (sched_find_task_by_pid pid s)) [
      | inl e ↦
          let none_found : (k : ℕ) → k < length s.tasks → has_pid pid (task_at s k) ≡ false =
            subst (FirstFound (has_pid pid) zero_task s.tasks) e found in
          absurd (ground (arith, none_found i (live-place s i live), live))
      | inr (j, e) ↦
          let (lt, hit, before) = subst (FirstFound (has_pid pid) zero_task s.tasks) e found in
          e ∙ ap some (unique j i (ground (arith, hit)) live (ground (arith, hit)))
    ]

pub effect-SameCore : (e : Effect) (s : Sched) → SameCore s (add_effect e s)
effect-SameCore e s = record {
  tasks = refl;
  current = refl;
  idle = refl;
  next_pid = refl;
  started = refl;
  out = refl;
}

free_stack-SameCore : (a : ℕ) (s : Sched) → SameCore s (free_stack a s)
unfolding free_stack
free_stack-SameCore a s = elim (Bool-cases (a == 0)) [
  | inl e ↦ rw e (core_refl s)
  | inr e ↦ rw e (effect-SameCore (skez_os.Sched.Effect.freed a) s)
]

destroy_space-SameCore : (a : ℕ) (s : Sched) → SameCore s (destroy_space a s)
unfolding destroy_space
destroy_space-SameCore a s = elim (Bool-cases (skez_os.Sched.own_space a)) [
  | inl e ↦ rw e (effect-SameCore (skez_os.Sched.Effect.destroyed a) s)
  | inr e ↦ rw e (core_refl s)
]

release-SameCore : (t : Task) (s : Sched) → SameCore s (release t s)
unfolding release
release-SameCore t s =
    let s1 = add_effect (skez_os.Sched.Effect.exit_shown t.pid) s in
    let s2 = add_effect (skez_os.Sched.Effect.slot_reaped t.pid) s1 in
    core_trans (effect-SameCore (skez_os.Sched.Effect.exit_shown t.pid) s) (
      core_trans (effect-SameCore (skez_os.Sched.Effect.slot_reaped t.pid) s1) (
        core_trans (free_stack-SameCore t.stack_base s2)
          (destroy_space-SameCore t.address_space (free_stack t.stack_base s2))))

-- One task changed, and the scheduler's other variables kept.
pub record IsPut (s : Sched) (k : ℕ) (t : Task) (s' : Sched) : Type 0 where
  pub tasks : s'.tasks ≡ set s.tasks k t
  pub current : s'.current ≡ s.current
  pub idle : s'.idle ≡ s.idle
  pub next_pid : s'.next_pid ≡ s.next_pid
  pub started : s'.started ≡ s.started
  pub out : s'.in_scheduler ≡ s.in_scheduler

pub core-IsPut : {s r : Sched} (k : ℕ) (t : Task) → SameCore s r → IsPut s k t (put_task k t r)
core-IsPut k t c = record {
  tasks = ap (λ ts. set ts k t) c.tasks;
  current = c.current;
  idle = c.idle;
  next_pid = c.next_pid;
  started = c.started;
  out = c.out;
}

pub put-other :
    {s s' : Sched} {k : ℕ} {t : Task}
    → IsPut s k t s'
    → (i : ℕ) → i ≢ k
    → task_at s' i ≡ task_at s i
put-other {s} {s'} {k} {t} p i n = ap (λ ts. get_or ts i zero_task) p.tasks ∙ at-put_ne s k i t n

pub put-here :
    {s s' : Sched} {k : ℕ} {t : Task} → IsPut s k t s' → k < length s.tasks → task_at s' k ≡ t
put-here {s} {s'} {k} {t} p lt = ap (λ ts. get_or ts k zero_task) p.tasks ∙ at-put_self s k t lt

pub reap-IsPut :
    (k : ℕ) (s : Sched)
    → in_state (task_at s k) task_unused ≡ false
    → is_index s.current k ≡ false
    → IsPut s k cleared_task (sched_reap_task k s)
unfolding sched_reap_task
reap-IsPut k s live other =
    rw (live, other, sched_reap_task) (core-IsPut k cleared_task (release-SameCore (task_at s k) s))

-- The change of the task `k` to one that does not run, the current task being another.
pub other-IsSched :
    {s s' : Sched} {k : ℕ} {t : Task}
    → IsPut s k t s'
    → IsSched s
    → IsFamily s.next_pid (task_at (put_task k t s))
    → (s.current ≢ some k)
    → state_code t.state ≢ 2
    → (s.idle ≡ some k → Ready t)
    → IsSched s'
other-IsSched {s} {s'} {k} {t} p d f n off idle =
    let m : d.runs ≢ k = λ e. n (d.current ∙ ap some e) in
    let dp : IsSched (put_task k t s) = record {
      ready = put-IsReady s k t d.ready f (λ two. absurd (off two)) idle;
      started = d.started;
      runs = d.runs;
      current = d.current;
      running = ap (λ u. state_code u.state) (at-put_ne s k d.runs t m) ∙ d.running;
    } in
    unread-IsSched p.tasks p.current p.idle p.next_pid p.out p.started dp

pub not_index : (o : Option ℕ) (k : ℕ) → o ≢ some k → is_index o k ≡ false
not_index none k n = refl
not_index (some c) k n = elim (Bool-cases (c == k)) [
  | inl e ↦ absurd (n (ap some (ground (arith, e))))
  | inr e ↦ e
]

pub idle-Ready : (s : Sched) (k : ℕ) → IsReady s → s.idle ≡ some k → Ready (task_at s k)
idle-Ready s k r e =
    let same : r.idle_task ≡ k = ground (arith, r.idle, e) in
    subst (λ x. Ready (task_at s x)) same r.idle_ready

-- A zombie's slot is given back: no task is its child, and no task waits for it alone.
zombie-IsChange :
    (s : Sched) (k : ℕ)
    → state_code (task_at s k).state ≡ 5
    → IsChange k (task_at s) (task_at (put_task k cleared_task s))
zombie-IsChange s k zombie =
    let here : task_at (put_task k cleared_task s) k ≡ cleared_task =
      at-put_self s k cleared_task (live-place s k (omega (arith, zombie))) in
    let code : state_code (task_at (put_task k cleared_task s) k).state ≡ 0 =
      ap (λ t. state_code t.state) here in
    record {
      calm = λ i n.
          subst (IsCalm (task_at s i)) (sym (at-put_ne s k i cleared_task n))
            (IsCalm-refl (task_at s i));
      same_pid = λ h. absurd (omega (arith, h, code));
      has_parent = λ h. absurd (omega (arith, h, code));
      stays_parent = λ i n live a e. absurd (a.1 zombie);
      stays_waited = λ i n four a w. absurd (a.1 zombie);
      still_waits = λ four. absurd (omega (arith, four, code));
    }

-- Reaping a zombie keeps the scheduler's invariant and every other task.
pub sched_reap_task-IsSched :
    (k : ℕ) (s : Sched)
    → IsSched s
    → state_code (task_at s k).state ≡ 5
    → IsSched (sched_reap_task k s) × IsPut s k cleared_task (sched_reap_task k s)
sched_reap_task-IsSched k s d zombie =
    let other : d.runs ≢ k =
      λ e. absurd (omega (arith, zombie, d.running, ap (λ x. state_code (task_at s x).state) e)) in
    let n : s.current ≢ some k = λ e. ground (arith, e, d.current, other) in
    let p : IsPut s k cleared_task (sched_reap_task k s) =
      reap-IsPut k s (ground (arith, zombie)) (not_index s.current k n) in
    (
      other-IsSched p d (change-IsFamily (zombie-IsChange s k zombie) d.ready.family) n
          (λ two. absurd (omega (arith, two)))
          (λ is. absurd (omega (arith, idle-Ready s k d.ready is, zombie))),
      p,
    )
