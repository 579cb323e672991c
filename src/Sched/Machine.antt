-- ===== src/Sched/Machine.antt =====
-- The steps of the scheduler of kernel/sched.c, in any order, from the start on.
use mathlib.Core.Path.{subst}
use skez_os.Prelude.{
  ℕ, ◌^◌, ◌<◌, ◌≡◌, ◌≢◌, refl, sym, inl, inr, Bool, false, Option, some, List, arith, Status,
  Option-cases, ◌==◌,
}
use skez_os.File.{FileOps}
use skez_os.Sched.{Task, Sched, ResumeCtx, state_code, task_at, put_task, minus_one}
use skez_os.Sched.Run.{
  sched_start, sched_yield, sched_sleep_ticks, sched_checkpoint, sched_on_timer_tick_irq,
}
use skez_os.Sched.Spawn.{sched_spawn_kernel_task, sched_spawn_user_child_task, sched_init}
use skez_os.Sched.Fork.{sched_fork_current_user_task, sched_mark_current_task_user_bootstrap}
use skez_os.Sched.Wait.{
  WaitRound, returned, blocked, sched_task_exit, sched_waitpid_ex, wait_checks,
}
use skez_os.Sched.Family.{IsActive, IsWaitedBy}
use skez_os.Sched.Calls.{
  IsSched, NotIdle, Steps, IsQuiet, quiet-IsSched, sched_yield-Steps, sched_checkpoint-Steps,
  sched_sleep_ticks-Steps,
}
use skez_os.Sched.Tick.{sched_on_timer_tick_irq-IsSched}
use skez_os.Sched.Exit.{sched_task_exit-IsSched}
use skez_os.Sched.Born.{sched_spawn_task_internal-IsBorn, sched_spawn_user_child_task-IsBorn}
use skez_os.Sched.Forked.{sched_fork_current_user_task-IsBorn, mark-IsSched}
use skez_os.Sched.Start.{
  IsBooting, sched_init-IsBooting, sched_spawn_kernel_task-IsBooting, sched_start-IsSched,
}
use skez_os.Sched.Waitpid.{sched_waitpid_ex-CallIs, CallIs}

-- The state that a call of waitpid leaves.
abbrev pub waited : WaitRound → Sched
waited (returned st pid code r) = r
waited (blocked r) = r

module _ {W : Type 0} (vtable : ℕ → FileOps W) where
  -- Before the start the kernel makes its tasks.
  pub data Boot : Sched → W → Type 0 where
    init :
        (entry stack : ℕ) (s : Sched) (w : W)
        → sched_init vtable entry stack w ≡ some (s, w)
        → entry ≢ 0
        → stack ≢ 0
        → Boot s w
    spawn :
        (name : Option (List ℕ)) (entry arg stack_size stack : ℕ) (s : Sched) (w : W)
        → Boot s w
        → s.next_pid < 2 ^ 31
        → Boot
            (sched_spawn_kernel_task vtable name entry arg stack_size stack s w).2
            (sched_spawn_kernel_task vtable name entry arg stack_size stack s w).3

  -- Then it starts, and steps follow one another: the idle task only yields and is interrupted, and
  -- other tasks make calls. A change of a task that its place in the tree does not depend on is a step.
  pub data Reached : Sched → W → Type 0 where
    start : (now : ℕ) (s s' : Sched) (w : W) → Boot s w → sched_start now s ≡ some s' → Reached s' w
    tick : (now : ℕ) (s : Sched) (w : W) → Reached s w → Reached (sched_on_timer_tick_irq now s) w
    yield :
        (now : ℕ) (s s' : Sched) (w : W) → Reached s w → sched_yield now s ≡ some s' → Reached s' w
    checkpoint :
        (now : ℕ) (s s' : Sched) (w : W)
        → Reached s w
        → sched_checkpoint now s ≡ some s'
        → Reached s' w
    sleep :
        (ticks now : ℕ) (s s' : Sched) (w : W)
        → Reached s w
        → NotIdle s
        → sched_sleep_ticks ticks now s ≡ some s'
        → Reached s' w
    exit :
        (now : ℕ) (s s' : Sched) (w : W)
        → Reached s w
        → NotIdle s
        → (sched_task_exit vtable now s w).0 ≡ some s'
        → Reached s' (sched_task_exit vtable now s w).1
    wait :
        (target options now : ℕ) (s : Sched) (o : WaitRound) (w : W)
        → Reached s w
        → NotIdle s
        → sched_waitpid_ex target options now s ≡ some o
        → Reached (waited o) w
    spawn_kernel :
        (name : Option (List ℕ)) (entry arg stack_size stack : ℕ) (s : Sched) (w : W)
        → Reached s w
        → s.next_pid < 2 ^ 31
        → Reached
            (sched_spawn_kernel_task vtable name entry arg stack_size stack s w).2
            (sched_spawn_kernel_task vtable name entry arg stack_size stack s w).3
    spawn_user :
        (name : Option (List ℕ)) (entry arg stack_size : ℕ) (inherit_fds : Bool) (stack : ℕ)
        (s : Sched) (w : W)
        → Reached s w
        → s.next_pid < 2 ^ 31
        → Reached
            (sched_spawn_user_child_task vtable name entry arg stack_size inherit_fds stack s w).2
            (sched_spawn_user_child_task vtable name entry arg stack_size inherit_fds stack s w).3
    fork :
        (entry : ℕ) (ctx : ResumeCtx) (created cloned : Status × ℕ) (stack : ℕ) (s : Sched) (w : W)
        → Reached s w
        → s.next_pid < 2 ^ 31
        → Reached
            (sched_fork_current_user_task vtable entry ctx created cloned stack s w).2
            (sched_fork_current_user_task vtable entry ctx created cloned stack s w).3
    mark :
        (user_eip user_esp : ℕ) (created : Status × ℕ) (s : Sched) (w : W)
        → Reached s w
        → Reached (sched_mark_current_task_user_bootstrap user_eip user_esp created s).1 w
    change :
        (k : ℕ) (t : Task) (s : Sched) (w w' : W)
        → Reached s w
        → IsQuiet (task_at s k) t
        → Reached (put_task k t s) w'

  Boot-IsBooting : (s : Sched) (w : W) → Boot s w → IsBooting s
  Boot-IsBooting s w (init entry stack _ _ e some_entry some_stack) =
      let (s', e', b, next) = sched_init-IsBooting vtable entry stack w some_entry some_stack in
      subst IsBooting (ground (arith, e, e')) b
  Boot-IsBooting s w (spawn name entry arg stack_size stack t v b room) =
      sched_spawn_kernel_task-IsBooting vtable name entry arg stack_size stack t v
        (Boot-IsBooting t v b) room

  kernel-IsSched :
      (name : Option (List ℕ)) (entry arg stack_size stack : ℕ) (s : Sched) (w : W)
      → IsSched s
      → s.next_pid < 2 ^ 31
      → IsSched (sched_spawn_kernel_task vtable name entry arg stack_size stack s w).2
  unfolding sched_spawn_kernel_task
  kernel-IsSched name entry arg stack_size stack s w d room =
      (sched_spawn_task_internal-IsBorn vtable minus_one s d room (inl refl) name entry arg
        stack_size false stack w).sched

  -- A step that ends well is the one that was taken.
  after-IsSched : (s s' : Sched) (o : Option Sched) → Steps s o → o ≡ some s' → IsSched s'
  after-IsSched s s' o (t, e, d, calm) h = subst IsSched (ground (arith, e, h)) d

  exit-IsSched :
      (now : ℕ) (s s' : Sched) (w : W)
      → IsSched s
      → NotIdle s
      → (sched_task_exit vtable now s w).0 ≡ some s'
      → IsSched s'
  exit-IsSched now s s' w d busy h =
      let (t, e, d', away) = sched_task_exit-IsSched vtable now s w d busy in
      subst IsSched (ground (arith, e, h)) d'

  start-IsSched : (now : ℕ) (s s' : Sched) → IsBooting s → sched_start now s ≡ some s' → IsSched s'
  start-IsSched now s s' b h =
      let (t, e, d) = sched_start-IsSched now s b in subst IsSched (ground (arith, e, h)) d

  wait-IsSched :
      (target options now : ℕ) (s : Sched) (o : WaitRound)
      → IsSched s
      → NotIdle s
      → sched_waitpid_ex target options now s ≡ some o
      → IsSched (waited o)
  wait-IsSched target options now s o d busy h =
      let (o', e, is, refused) = sched_waitpid_ex-CallIs target options now s d busy in
      let same : o' ≡ o = ground (arith, e, h) in
      subst (λ x. IsSched (waited x)) same
        (elim (Option-cases (wait_checks target options s)) [
          | inl passed ↦ call-IsSched d.runs (options == 1) o' (is d.runs d.current passed)
          | inr (x, bad) ↦ subst (λ y. IsSched (waited y)) (sym (refused x bad)) d
        ])
    where
      call-IsSched :
          (c : ℕ) (nohang : Bool) (x : WaitRound) → CallIs c target nohang s x → IsSched (waited x)
      call-IsSched c nohang (returned st pid code r) h = h.0
      call-IsSched c nohang (blocked r) h = h.0

  -- In every state that the scheduler reaches from `sched_init`, through kernel tasks made before the
  -- start, the start, and any sequence of timer ticks, yields, checkpoints, sleeps, exits, waits, new
  -- tasks, forks, entries to user mode and changes that leave a task's state, pids and parent: the
  -- current task runs and no other does; the idle task is ready; pids are positive and of one task
  -- each; every parent is an older task that is not a zombie; every zombie has a parent; and a task
  -- that waits has a child, of the pid that it waits for, that is not a zombie, so no wakeup is lost.
  -- Assumed: the idle task does not sleep, exit or wait, fewer than 2^31 pids have been given out, and
  -- a switch runs until the task resumed has left the scheduler.
  pub Reached-IsSched : (s : Sched) (w : W) → Reached s w → IsSched s
  Reached-IsSched s w (start now t _ _ b e) = start-IsSched now t s (Boot-IsBooting t w b) e
  Reached-IsSched s w (tick now t _ r) =
      (sched_on_timer_tick_irq-IsSched now t (Reached-IsSched t w r)).0
  Reached-IsSched s w (yield now t _ _ r e) =
      after-IsSched t s (sched_yield now t) (sched_yield-Steps now t (Reached-IsSched t w r)) e
  Reached-IsSched s w (checkpoint now t _ _ r e) =
      after-IsSched t s (sched_checkpoint now t)
        (sched_checkpoint-Steps now t (Reached-IsSched t w r)) e
  Reached-IsSched s w (sleep ticks now t _ _ r busy e) =
      after-IsSched t s (sched_sleep_ticks ticks now t)
        (sched_sleep_ticks-Steps ticks now t (Reached-IsSched t w r) busy) e
  Reached-IsSched s w (exit now t _ v r busy e) =
      exit-IsSched now t s v (Reached-IsSched t v r) busy e
  Reached-IsSched s w (wait target options now t o _ r busy e) =
      wait-IsSched target options now t o (Reached-IsSched t w r) busy e
  Reached-IsSched s w (spawn_kernel name entry arg stack_size stack t v r room) =
      kernel-IsSched name entry arg stack_size stack t v (Reached-IsSched t v r) room
  Reached-IsSched s w (spawn_user name entry arg stack_size inherit_fds stack t v r room) =
      let d = Reached-IsSched t v r in
      (sched_spawn_user_child_task-IsBorn vtable name entry arg stack_size inherit_fds stack d.runs
        t v d d.current room).sched
  Reached-IsSched s w (fork entry ctx created cloned stack t v r room) =
      let d = Reached-IsSched t v r in
      (sched_fork_current_user_task-IsBorn vtable entry ctx stack created cloned d.runs t v d
        d.current room).sched
  Reached-IsSched s w (mark user_eip user_esp created t _ r) =
      mark-IsSched user_eip user_esp created t (Reached-IsSched t w r)
  Reached-IsSched s w (change k t u v _ r q) = quiet-IsSched u k t q (Reached-IsSched u v r)

  -- In every state that the scheduler reaches, the scheduler finds a task to run in a call of
  -- `sched_yield`, and, unless the idle task is current, in one of `sched_sleep_ticks` and of
  -- `sched_task_exit`; `sched_waitpid_ex` then returns, or blocks with a task found; and
  -- `sched_task_exit` leaves another task current. So neither the panic of a scheduler without a task
  -- nor the one behind the end of a task is reached.
  pub Reached-schedules :
      (s : Sched) (w : W)
      → Reached s w
      → ((now : ℕ) → (s' : Sched) × (sched_yield now s ≡ some s'))
        × (NotIdle s → (ticks now : ℕ) → (s' : Sched) × (sched_sleep_ticks ticks now s ≡ some s'))
        × (NotIdle s
            → (now : ℕ)
            → (s' : Sched) × ((sched_task_exit vtable now s w).0 ≡ some s')
              × (s'.current ≢ s.current))
        × (NotIdle s
            → (target options now : ℕ)
            → (o : WaitRound) × (sched_waitpid_ex target options now s ≡ some o))
  Reached-schedules s w r =
      let d = Reached-IsSched s w r in
      (
        λ now. let (t, e, h, calm) = sched_yield-Steps now s d in (t, e),
        λ busy ticks now.
            let (t, e, h, calm) = sched_sleep_ticks-Steps ticks now s d busy in (t, e),
        λ busy now.
            let (t, e, h, away) = sched_task_exit-IsSched vtable now s w d busy in (t, e, away),
        λ busy target options now.
            let (o, e, is, refused) = sched_waitpid_ex-CallIs target options now s d busy in (o, e),
      )

  -- No wakeup is lost.
  pub reached-waits :
      (s : Sched) (w : W)
      → Reached s w
      → (i : ℕ) → state_code (task_at s i).state ≡ 4
      → (j : ℕ) × IsActive (task_at s j) × IsWaitedBy (task_at s i) (task_at s j)
  reached-waits s w r i four = (Reached-IsSched s w r).ready.family.waiting i four
