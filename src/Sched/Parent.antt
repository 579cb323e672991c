-- ===== src/Sched/Parent.antt =====
-- The parent of a task that ends in kernel/sched.c: it is found by its pid, and woken.
use skez_os.Prelude.{
  ℕ, ◌<◌, ◌≡◌, refl, sym, ap, ◌∙◌, ◌⊎◌, inl, inr, true, false, Option, none, some, arith,
  if◌then◌else◌, length, length-set, Bool-cases,
}
use native.Mathlib.Decide.{ℕ_discrete}
use mathlib.Core.Path.{subst}
use skez_os.Sched.{state_code, Task, Sched, zero_task, task_at, put_task}
use skez_os.Sched.Family.{IsCalm, IsCalm-refl}
use skez_os.Sched.Calm.{at-put_self, at-put_ne, live-place, IsReady, tasks-IsReady}
use skez_os.Sched.States.{Ready}
use skez_os.Prelude.Lists.{find_first-FirstFound, FirstFound}
use skez_os.Sched.{is_positive}
use skez_os.Sched.Children.{
  has_pid, waits_for, woken, sched_find_task_by_pid, sched_maybe_wake_parent_waiter,
}
use skez_os.Sched.Wait.{parent_lives, keep_zombie}
use skez_os.Sched.Family.{IsActive}
use skez_os.Sched.States.{SameCore}
use skez_os.Sched.Switch.{core-at}
use skez_os.Sched.Reap.{UniquePids, sched_find_task_by_pid_lem}

-- What `sched_maybe_wake_parent_waiter` does when it has found the parent `j`.
abbrev pub wake_parent : (child_pid j : ℕ) → Sched → Sched
wake_parent child_pid j s =
    if waits_for child_pid (task_at s j) then put_task j (woken (task_at s j)) s else s

pub wake_parent-found :
    (parent_pid child_pid j : ℕ) (s : Sched)
    → is_positive parent_pid ≡ true
    → sched_find_task_by_pid parent_pid s ≡ some j
    → sched_maybe_wake_parent_waiter parent_pid child_pid s ≡ wake_parent child_pid j s
unfolding sched_maybe_wake_parent_waiter
wake_parent-found parent_pid child_pid j s positive found =
    rw (positive, sched_maybe_wake_parent_waiter) (rw found refl)

pub wake_parent-at :
    (child_pid j i : ℕ) (s : Sched)
    → (((task_at (wake_parent child_pid j s) i) ≡ task_at s i)
        × (i ≡ j → waits_for child_pid (task_at s j) ≡ false))
      ⊎ ((i ≡ j)
          × (waits_for child_pid (task_at s j) ≡ true)
          × ((task_at (wake_parent child_pid j s) i) ≡ woken (task_at s j)))
wake_parent-at child_pid j i s = elim (Bool-cases (waits_for child_pid (task_at s j))) [
  | inr e ↦ rw e (inl (refl, λ same. refl))
  | inl e ↦ elim (ℕ_discrete i j) [
    | no n ↦ rw e (inl (at-put_ne s j i (woken (task_at s j)) n, λ same. absurd (n same)))
    | yes same ↦
        let lt : j < length s.tasks = live-place s j (ground (arith, e)) in
        let here =
          ap (task_at (put_task j (woken (task_at s j)) s)) same
          ∙ at-put_self s j (woken (task_at s j)) lt in
        rw e (inr (same, refl, here))
  ]
]

-- The table keeps its size, and the scheduler its other variables.
pub record SameFrame (s s' : Sched) : Type 0 where
  pub size : length s'.tasks ≡ length s.tasks
  pub current : s'.current ≡ s.current
  pub idle : s'.idle ≡ s.idle
  pub next_pid : s'.next_pid ≡ s.next_pid
  pub started : s'.started ≡ s.started
  pub out : s'.in_scheduler ≡ s.in_scheduler

pub wake_parent-SameFrame : (child_pid j : ℕ) (s : Sched) → SameFrame s (wake_parent child_pid j s)
wake_parent-SameFrame child_pid j s = elim (Bool-cases (waits_for child_pid (task_at s j))) [
  | inl e ↦ rw e (record {
    size = length-set s.tasks j (woken (task_at s j));
    current = refl;
    idle = refl;
    next_pid = refl;
    started = refl;
    out = refl;
  })
  | inr e ↦ rw e (record {
    size = refl;
    current = refl;
    idle = refl;
    next_pid = refl;
    started = refl;
    out = refl;
  })
]

pub core-IsReady : {s s' : Sched} → SameCore s s' → IsReady s → IsReady s'
core-IsReady {s} {s'} c r =
    tasks-IsReady r
      (λ i. subst (IsCalm (task_at s i)) (sym (core-at c i)) (IsCalm-refl (task_at s i)))
      (ap length c.tasks) c.next_pid c.out c.idle
      (λ i two. c.current ∙ r.running i (sym (ap (λ t. state_code t.state) (core-at c i)) ∙ two))
      (λ i is h. subst Ready (sym (core-at c i)) h)

-- A parent that lives has been found by its pid.
pub lives-parent :
    (s : Sched) (pid : ℕ) (o : Option ℕ)
    → FirstFound (has_pid pid) zero_task s.tasks o
    → parent_lives s o ≡ true
    → (j : ℕ) × IsActive (task_at s j) × ((task_at s j).pid ≡ pid)
lives-parent s pid none found lives = cc
lives-parent s pid (some j) found lives =
    (j, (ground (arith, lives), ground (arith, lives)), ground (arith, found.1))

pub keep_zombie-parent :
    (s : Sched) (t : Task)
    → keep_zombie t s ≡ true
    → (is_positive t.parent_pid ≡ true)
      × ((j : ℕ) × IsActive (task_at s j) × ((task_at s j).pid ≡ t.parent_pid))
unfolding sched_find_task_by_pid
keep_zombie-parent s t keep = (
  ground (arith, keep),
  lives-parent s t.parent_pid (sched_find_task_by_pid t.parent_pid s)
      (find_first-FirstFound (has_pid t.parent_pid) zero_task s.tasks) (ground (arith, keep)),
)

-- A parent that is in the table keeps the zombie.
pub parent-keep_zombie :
    (s : Sched) (t : Task) (j : ℕ)
    → UniquePids s
    → IsActive (task_at s j)
    → (task_at s j).pid ≡ t.parent_pid
    → is_positive t.parent_pid ≡ true
    → keep_zombie t s ≡ true
parent-keep_zombie s t j unique a same positive =
    let found : sched_find_task_by_pid t.parent_pid s ≡ some j =
      subst (λ x. sched_find_task_by_pid x s ≡ some j) same
        (sched_find_task_by_pid_lem s j unique a.0) in
    let lives : parent_lives s (some j) ≡ true = ground (arith, a) in rw (positive, found) lives
