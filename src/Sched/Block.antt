-- ===== src/Sched/Block.antt =====
-- The current task changes in kernel/sched.c: it comes to wait for a child, or forgets the child
-- it waited for.
use skez_os.Prelude.{ℕ, ◌<◌, ◌≡◌, ◌≢◌, refl, sym, ap, ◌∙◌, ◌⊎◌, inl, inr, some, arith, length-set}
use mathlib.Core.Path.{subst}
use skez_os.Sched.{state_code, Task, Sched, task_at, put_task}
use skez_os.Sched.Family.{IsCalm, IsCalm-refl}
use skez_os.Sched.Calm.{at-put, at-put_self, at-put_ne, live-place, IsReady}
use skez_os.Sched.{task_wait_child, minus_one}
use skez_os.Sched.Wait.{forget}
use skez_os.Sched.Family.{IsActive, IsWaitedBy, IsChange, change-IsFamily}
use skez_os.Sched.Calls.{IsSched, NotIdle, stop-IsReady}
use skez_os.Sched.Orphans.{no_own_parent}

-- A child of the task `c` that a wait for `target` may return.
abbrev pub IsChild : (c target : ℕ) → Sched → ℕ → Type 0
IsChild c target s k =
    (0 < state_code (task_at s k).state)
    × ((task_at s k).parent_pid ≡ (task_at s c).pid)
    × ((target ≡ minus_one) ⊎ ((task_at s k).pid ≡ target))

-- The current task changes, but not its place in the tree.
self-IsChange :
    (s : Sched) (c : ℕ) (t : Task)
    → IsSched s
    → state_code (task_at s c).state ≡ 2
    → t.pid ≡ (task_at s c).pid
    → t.parent_pid ≡ (task_at s c).parent_pid
    → IsActive t
    → (state_code t.state ≡ 4
        → (k : ℕ) × (k ≢ c) × IsActive (task_at s k) × IsWaitedBy t (task_at s k))
    → IsChange c (task_at s) (task_at (put_task c t s))
self-IsChange s c t d running same_pid same_parent act waits =
    let f = d.ready.family in
    let own : 0 < state_code (task_at s c).state = omega (arith, running) in
    let here : task_at (put_task c t s) c ≡ t = at-put_self s c t (live-place s c own) in
    let pid : (task_at (put_task c t s) c).pid ≡ (task_at s c).pid =
      ap (λ u. u.pid) here ∙ same_pid in
    let up : (task_at (put_task c t s) c).parent_pid ≡ (task_at s c).parent_pid =
      ap (λ u. u.parent_pid) here ∙ same_parent in
    let active : IsActive (task_at (put_task c t s) c) = subst IsActive (sym here) act in
    record {
      calm = λ i m.
          subst (IsCalm (task_at s i)) (sym (at-put_ne s c i t m)) (IsCalm-refl (task_at s i));
      same_pid = λ h. (own, pid);
      has_parent = λ h. elim (f.family c own) [
        | inl (none_left, z) ↦ inl (up ∙ none_left, active.1)
        | inr (j, a, same, older) ↦
            let m : j ≢ c =
              λ e. absurd (omega (arith, ap (λ x. (task_at s x).pid) e, same, older)) in
            let there = at-put_ne s c j t m in
            inr (
              j,
              subst IsActive (sym there) a,
              ap (λ u. u.pid) there ∙ same ∙ sym up,
              omega (arith, older, up, pid),
            )
      ];
      stays_parent = λ i m h a e. (active, pid);
      stays_waited = λ i m four a w. (active, pid, up);
      still_waits = λ four.
          let (k, n, a, w) = waits (sym (ap (λ u. state_code u.state) here) ∙ four) in
          let there = at-put_ne s c k t n in
          (
            k,
            subst IsActive (sym there) a,
            subst (λ u. IsWaitedBy u (task_at (put_task c t s) k)) (sym here)
                (subst (IsWaitedBy t) (sym there) w),
          );
    }

abbrev waiting_for : (target : ℕ) → Task → Task
waiting_for target t = record t { wait_target_pid = target; state = task_wait_child }

-- The current task comes to wait for a child that is not a zombie.
pub block-IsReady :
    (s : Sched) (c target k : ℕ)
    → IsSched s
    → NotIdle s
    → s.current ≡ some c
    → state_code (task_at s c).state ≡ 2
    → IsChild c target s k
    → state_code (task_at s k).state ≢ 5
    → IsReady (put_task c (waiting_for target (task_at s c)) s)
block-IsReady s c target k d busy current running (live, child, wanted) alive =
    let t : Task = waiting_for target (task_at s c) in
    let f = d.ready.family in
    let own : 0 < state_code (task_at s c).state = omega (arith, running) in
    let n : k ≢ c =
      λ e. no_own_parent c f own (ap (λ x. (task_at s x).parent_pid) (sym e) ∙ child) in
    stop-IsReady s c t d.ready busy current (λ two. absurd (omega (arith, two)))
      (change-IsFamily
        (self-IsChange s c t d running refl refl (omega arith, omega arith)
          (λ four. (k, n, (live, alive), (child, wanted))))
        f)

pub forget-code :
    (c : ℕ) (s : Sched) (i : ℕ)
    → state_code (task_at (put_task c (record (task_at s c) { wait_target_pid = 0 }) s) i).state
      ≡ state_code (task_at s i).state
forget-code c s i = elim (at-put s c i (record (task_at s c) { wait_target_pid = 0 })) [
  | inl e ↦ ap (λ u. state_code u.state) e
  | inr (same, e) ↦
      ap (λ u. state_code u.state) e ∙ ap (λ x. state_code (task_at s x).state) (sym same)
]

-- A task that does not wait may forget what it waited for.
pub forget-IsSched :
    (c : ℕ) (s : Sched) → IsSched s → state_code (task_at s c).state ≡ 2 → IsSched (forget c s)
forget-IsSched c s d running =
    let t : Task = record (task_at s c) { wait_target_pid = 0 } in
    let code : (i : ℕ)
        → state_code (task_at (put_task c t s) i).state ≡ state_code (task_at s i).state =
      λ i. forget-code c s i in
    record {
      ready = record {
        size = length-set s.tasks c t ∙ d.ready.size;
        family =
            change-IsFamily
              (self-IsChange s c t d running refl refl
                (omega (arith, running), omega (arith, running))
                (λ four. absurd (omega (arith, running, four))))
              d.ready.family;
        out = d.ready.out;
        running = λ i two. d.ready.running i (sym (code i) ∙ two);
        idle_task = d.ready.idle_task;
        idle = d.ready.idle;
        idle_ready = ground (arith, d.ready.idle_ready, code d.ready.idle_task);
      };
      started = d.started;
      runs = d.runs;
      current = d.current;
      running = code d.runs ∙ d.running;
    }
