-- ===== src/Sched/Exit.antt =====
-- The end of a task in kernel/sched.c: it stays as a zombie for its parent, or its slot is free.
use skez_os.Prelude.{
  ◌==◌, false, ℕ, ◌≡◌, ◌≢◌, refl, sym, ap, ◌∙◌, inl, inr, true, some, arith, if◌then◌else◌,
  length-set, Bool-cases,
}
use mathlib.Core.Path.{subst}
use skez_os.Sched.{
  TaskState, state_code, Task, Sched, max_tasks, default_timeslice, zero_task, in_state, task_at,
  put_task, is_index, task_runnable, task_running, task_sleeping,
}
use skez_os.Sched.Run.{sched_schedule}
use skez_os.Sched.Calm.{IsReady}
use skez_os.Sched.Switch.{IsScheduled, sched_schedule-IsScheduled}
use skez_os.File.{FileOps}
use skez_os.Sched.{
  task_unused, task_zombie, cleared_task, minus_one, is_positive, add_effect, Effect,
}
use skez_os.Sched.Wait.{
  keep_zombie, become_zombie, vanish, leave, close_fds, no_return, exit_task, sched_task_exit,
}
use skez_os.Sched.Calls.{
  IsSched, NotIdle, quiet-IsSched, IsQuiet, quiet-code, scheduled-IsSched, unread-IsSched,
}
use skez_os.Sched.Orphans.{IsLeaving, orphan_children-IsLeaving}
use skez_os.Sched.Parent.{keep_zombie-parent, wake_parent-SameFrame, SameFrame}
use skez_os.Sched.Zombie.{IsDead, after_self, zombie, become_zombie-wakes, zombie-IsReady}
use skez_os.Sched.Vanish.{vanish-IsReady}

module _ {c p : ℕ} {s : Sched} (l : IsLeaving c p max_tasks s) where
  -- The exit up to the scheduling, for a zombie or not.
  left-IsReady :
      let left : Sched = if keep_zombie (task_at s c) s then become_zombie c s else vanish c s in
      IsReady left × (left.started ≡ true) × IsDead (task_at left c)
  left-IsReady = elim (Bool-cases (keep_zombie (task_at s c) s)) [
    | inl keep ↦
        let (positive, (j, parent, same)) = keep_zombie-parent s (task_at s c) keep in
        rw keep (
          subst (λ x. IsReady x × (x.started ≡ true) × IsDead (task_at x c))
            (sym (become_zombie-wakes l j parent same positive))
            (
              zombie-IsReady l j parent same,
              (wake_parent-SameFrame (task_at s c).pid j
                    (put_task c (zombie l j parent same) s)).started
                  ∙ l.sched.started,
              inr (ap (λ u. state_code u.state) (after_self l j parent same)),
            ))
    | inr keep ↦ rw keep (vanish-IsReady l keep)
  ]

frame_refl : (s : Sched) → SameFrame s s
frame_refl s = record {
  size = refl;
  current = refl;
  idle = refl;
  next_pid = refl;
  started = refl;
  out = refl;
}

quiet-frame :
    (s : Sched) (c : ℕ) (t : Task)
    → IsQuiet (task_at s c) t
    → IsSched s
    → IsSched (put_task c t s)
      × SameFrame s (put_task c t s)
      × ((i : ℕ) → state_code (task_at (put_task c t s) i).state ≡ state_code (task_at s i).state)
quiet-frame s c t q d = (
  quiet-IsSched s c t q d,
  record {
    size = length-set s.tasks c t;
    current = refl;
    idle = refl;
    next_pid = refl;
    started = refl;
    out = refl;
  },
  λ i. quiet-code s c i t q,
)

module _ {W : Type 0} (vtable : ℕ → FileOps W) where
  close_fds-quiet :
      (c : ℕ) (s : Sched) (w : W)
      → IsSched s
      → IsSched (close_fds vtable c s w).0
        × SameFrame s (close_fds vtable c s w).0
        × ((i : ℕ)
            → state_code (task_at (close_fds vtable c s w).0 i).state
              ≡ state_code (task_at s i).state)
  unfolding close_fds
  close_fds-quiet c s w d = elim (Bool-cases (task_at s c).user_mode) [
    | inr e ↦ simp e (d, frame_refl s, λ i. refl)
    | inl e ↦ simp e (
        quiet-frame s c _
          (record { pid = refl; parent_pid = refl; wait_target_pid = refl; state = refl }) d)
  ]

  exit-leaves :
      (now c : ℕ) (s : Sched) (w : W)
      → s.current ≡ some c
      → sched_task_exit vtable now s w ≡ (
        no_return (some c) (sched_schedule now (leave c (close_fds vtable c s w).0)),
        (close_fds vtable c s w).1,
      )
  unfolding sched_task_exit exit_task
  exit-leaves now c s w e = ap (λ o. exit_task vtable o now s w) e

leave-IsReady :
    (c : ℕ) (s : Sched)
    → IsSched s
    → s.current ≡ some c
    → s.idle ≢ some c
    → state_code (task_at s c).state ≡ 2
    → IsReady (leave c s) × ((leave c s).started ≡ true) × IsDead (task_at (leave c s) c)
unfolding leave
leave-IsReady c s d current busy running =
    let shown : Sched = add_effect (skez_os.Sched.Effect.exit_shown (task_at s c).pid) s in
    let start : IsLeaving c (task_at s c).pid 0 shown = record {
      sched = unread-IsSched refl refl refl refl refl refl d;
      current = current;
      busy = busy;
      running = running;
      pid = refl;
      childless = λ k lt. absurd (omega (arith, lt));
    } in
    left-IsReady (orphan_children-IsLeaving shown start)

-- The scheduler does not choose a task that has ended.
dead-runs : {c : ℕ} {s s' : Sched} (done : IsScheduled s s') → IsDead (task_at s c) → done.runs ≢ c
dead-runs {c} {s} {s'} done dead same =
    let two : state_code (task_at s' c).state ≡ 2 =
      sym (ap (λ x. state_code (task_at s' x).state) same) ∙ done.running in
    elim dead [
      | inl z ↦ elim (done.calm c).state [
        | inl e ↦ absurd (omega (arith, z, e, two))
        | inr h ↦ absurd (omega (arith, z, h))
      ]
      | inr f ↦ elim (done.calm c).state [
        | inl e ↦ absurd (omega (arith, f, e, two))
        | inr h ↦ absurd (omega (arith, f, h))
      ]
    ]

module _ {W : Type 0} (vtable : ℕ → FileOps W) where
  pub sched_task_exit-IsSched :
      (now : ℕ) (s : Sched) (w : W)
      → IsSched s
      → NotIdle s
      → (s' : Sched) × ((sched_task_exit vtable now s w).0 ≡ some s')
        × IsSched s'
        × (s'.current ≢ s.current)
  sched_task_exit-IsSched now s w d busy =
      let c = d.runs in
      let (d', frame, codes) = close_fds-quiet vtable c s w d in
      let closed : Sched = (close_fds vtable c s w).0 in
      let (r, on, dead) =
        leave-IsReady c closed d' (frame.current ∙ d.current)
          (λ e. busy c d.current (sym frame.idle ∙ e)) (codes c ∙ d.running) in
      let (s', e, done) = sched_schedule-IsScheduled now (leave c closed) r on in
      let other : done.runs ≢ c = dead-runs done dead in
      let away : (done.runs == c) ≡ false = ground (arith, other) in
      rw (exit-leaves vtable now c s w d.current, e, done.current, away)
        (
          s',
          refl,
          scheduled-IsSched on done,
          λ same. other (ground (arith, done.current, same, d.current)),
        )
