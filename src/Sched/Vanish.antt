-- ===== src/Sched/Vanish.antt =====
-- A task that ends in kernel/sched.c when no parent will ask for it: its slot is free.
use skez_os.Prelude.{ℕ, ◌<◌, inl, length, ◌≡◌, refl, sym, ap, ◌∙◌, true, false, some, arith, set}
use mathlib.Core.Path.{subst}
use skez_os.Sched.{
  TaskState, state_code, Task, Sched, max_tasks, default_timeslice, zero_task, in_state, task_at,
  put_task, is_index, task_runnable, task_running, task_sleeping,
}
use skez_os.Sched.Family.{IsCalm, IsCalm-refl}
use skez_os.Sched.Calm.{at-put_self, at-put_ne, live-place, IsReady}
use skez_os.Sched.{
  task_unused, task_zombie, cleared_task, minus_one, is_positive, add_effect, Effect,
}
use skez_os.Sched.Wait.{keep_zombie, gone, vanish}
use skez_os.Sched.Family.{IsChange, change-IsFamily}
use skez_os.Sched.States.{SameCore, core_trans, flush_stack-SameCore, flush_as-SameCore}
use skez_os.Sched.Run.{flush_deferred_stack_free, flush_deferred_as_free}
use skez_os.Sched.Calls.{stop-IsReady}
use skez_os.Sched.Reap.{effect-SameCore}
use skez_os.Sched.Orphans.{IsLeaving}
use skez_os.Sched.Parent.{core-IsReady, parent-keep_zombie}
use skez_os.Sched.Zombie.{IsDead, live, no_child}

module _ {c p : ℕ} {s : Sched} (l : IsLeaving c p max_tasks s) where
  vanish-IsChange :
      (t : Task)
      → state_code t.state ≡ 0
      → keep_zombie (task_at s c) s ≡ false
      → IsChange c (task_at s) (task_at (put_task c t s))
  vanish-IsChange t unused keep =
      let f = l.sched.ready.family in
      let code : state_code (task_at (put_task c t s) c).state ≡ 0 =
        ap (λ u. state_code u.state) (at-put_self s c t (live-place s c (live l))) ∙ unused in
      record {
        calm = λ i n.
            subst (IsCalm (task_at s i)) (sym (at-put_ne s c i t n)) (IsCalm-refl (task_at s i));
        same_pid = λ h. absurd (omega (arith, h, code));
        has_parent = λ h. absurd (omega (arith, h, code));
        stays_parent = λ i n h a e. absurd (no_child l i h e);
        stays_waited = λ i n four a w.
            let was : state_code (task_at s i).state ≡ 4 =
              sym (ap (λ u. state_code u.state) (at-put_ne s c i t n)) ∙ four in
            let kept =
              parent-keep_zombie s (task_at s c) i f.unique (omega (arith, was), omega (arith, was))
                (sym w.0) (ground (arith, w.0, f.bounds i (omega (arith, was)), f.room)) in
            absurd (ground (arith, kept, keep));
        still_waits = λ four. absurd (omega (arith, four, code));
      }

  pub vanish-IsReady :
      keep_zombie (task_at s c) s ≡ false
      → IsReady (vanish c s) × ((vanish c s).started ≡ true) × IsDead (task_at (vanish c s) c)
  unfolding vanish
  vanish-IsReady keep =
      let t : Task = task_at s c in
      let s1 : Sched = add_effect (skez_os.Sched.Effect.slot_reaped t.pid) s in
      let f : Sched = flush_deferred_as_free (flush_deferred_stack_free s1) in
      let core : SameCore s f =
        core_trans (effect-SameCore (skez_os.Sched.Effect.slot_reaped t.pid) s) (
          core_trans (flush_stack-SameCore s1)
            (flush_as-SameCore (flush_deferred_stack_free s1))) in
      let gone_here : task_at (put_task c (gone t) f) c ≡ gone t =
        at-put_self f c (gone t)
          (subst (λ ts. c < length ts) (sym core.tasks) (live-place s c (live l))) in
      let ready : IsReady (put_task c (gone t) s) =
        stop-IsReady s c (gone t) l.sched.ready
          (λ i e is. l.busy (is ∙ ap some (ground (arith, e, l.current)))) l.current
          (λ two. absurd (omega (arith, two)))
          (change-IsFamily (vanish-IsChange (gone t) refl keep) l.sched.ready.family) in
      (
        core-IsReady
            (record {
              tasks = ap (λ ts. set ts c (gone t)) core.tasks;
              current = core.current;
              idle = core.idle;
              next_pid = core.next_pid;
              started = core.started;
              out = core.out;
            })
            ready,
        core.started ∙ l.sched.started,
        inl (ap (λ u. state_code u.state) gone_here),
      )
