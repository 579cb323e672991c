-- ===== src/Sched/Wait.antt =====
-- kernel/sched.c: the end of a task, and waiting for a child. A result `none` is
-- `sched_panic_unexpected_return`.
use skez_os.Prelude.{
  ℕ, Bool, true, false, not, ◌&&◌, ◌||◌, Option, none, some, ltb, ◌==◌, if◌then◌else◌, set, Status,
  ok, err, Errno, inval, noent, notsup,
}
use skez_os.File.{FileOps}
use skez_os.Fd.{proc_fd_close_all}
use skez_os.Sched.{
  task_unused, task_wait_child, task_zombie, Task, Sched, exit_shown, slot_reaped, minus_one,
  is_positive, is_index, kernel_space, own_space, in_state, task_at, put_task, add_effect,
}
use skez_os.Sched.Children.{
  sched_find_task_by_pid, sched_maybe_wake_parent_waiter, sched_reap_task,
  sched_orphan_or_reap_children, sched_find_matching_zombie_child,
}
use skez_os.Sched.Run.{flush_deferred_stack_free, flush_deferred_as_free, sched_schedule}

abbrev pub parent_lives : Sched → Option ℕ → Bool
parent_lives s none = false
parent_lives s (some i) =
    not (in_state (task_at s i) task_unused) && not (in_state (task_at s i) task_zombie)

abbrev pub keep_zombie : Task → Sched → Bool
keep_zombie self s =
    is_positive self.parent_pid && parent_lives s (sched_find_task_by_pid self.parent_pid s)

-- What is left of a task that no parent waits for.
abbrev pub gone : Task → Task
gone t = record t {
  state = task_unused;
  pid = 0;
  user_mode = false;
  parent_pid = minus_one;
  wait_target_pid = 0;
  stack_base = 0;
  stack_size = 0;
  address_space = kernel_space;
}

unfoldable pub become_zombie : (c : ℕ) → Sched → Sched
become_zombie c s =
    sched_maybe_wake_parent_waiter (task_at s c).parent_pid (task_at s c).pid
      (put_task c (record (task_at s c) { state = task_zombie }) s)

-- The stack and the address space are in use until the switch, so giving them back is put off.
unfoldable pub vanish : (c : ℕ) → Sched → Sched
unfolding flush_deferred_stack_free flush_deferred_as_free
vanish c s =
    let t = task_at s c in
    let f : Sched =
      flush_deferred_as_free (flush_deferred_stack_free (add_effect (slot_reaped t.pid) s)) in
    let d : Sched = record f {
      deferred_stack = t.stack_base;
      deferred_as = if own_space t.address_space then t.address_space else f.deferred_as;
    } in
    put_task c (gone t) d

-- From the exit's `display_gui_notify_task_exit` to the scheduling.
unfoldable pub leave : (c : ℕ) → Sched → Sched
unfolding become_zombie vanish
leave c s =
    let o : Sched =
      sched_orphan_or_reap_children (task_at s c).pid
        (add_effect (exit_shown (task_at s c).pid) s) in
    if keep_zombie (task_at o c) o then become_zombie c o else vanish c o

abbrev pub same_task : (self current : Option ℕ) → Bool
same_task none none = true
same_task none (some i) = false
same_task (some c) current = is_index current c

-- Where the scheduler returns into the task that has ended, `sched_panic_unexpected_return` follows.
abbrev pub no_return : (self : Option ℕ) → Option Sched → Option Sched
no_return self none = none
no_return self (some s) = if same_task self s.current then none else some s

module _ {W : Type 0} (vtable : ℕ → FileOps W) where
  -- A user task closes its descriptors.
  unfoldable pub close_fds : (c : ℕ) → Sched → W → Sched × W
  close_fds c s w =
      let t = task_at s c in
      if t.user_mode
      then (let closed = proc_fd_close_all vtable t.fd_table w in
          (put_task c (record t { fd_table = closed.1 }) s, closed.2))
      else (s, w)

  -- The end of the current task, and the scheduling; `none` is a panic.
  unfoldable pub exit_task : (current : Option ℕ) (now : ℕ) → Sched → W → Option Sched × W
  unfolding close_fds leave
  exit_task none now s w = (no_return none (sched_schedule now s), w)
  exit_task (some c) now s w =
      let closed : Sched × W = close_fds c s w in
      (no_return (some c) (sched_schedule now (leave c closed.0)), closed.1)

  unfoldable pub sched_task_exit : (now : ℕ) → Sched → W → Option Sched × W
  unfolding exit_task
  sched_task_exit now s w = exit_task s.current now s w

-- A round of the loop of `sched_waitpid_ex`: the status, `*out_waited_pid` and `*out_exit_code`, or
-- the next round after the scheduling.
pub data WaitRound : Type 0 where
  returned : Status → (waited_pid exit_code : ℕ) → Sched → WaitRound
  blocked : Sched → WaitRound

abbrev pub forget : (parent : ℕ) → Sched → Sched
forget parent s = put_task parent (record (task_at s parent) { wait_target_pid = 0 }) s

abbrev pub exit_code_of : Task → ℕ
exit_code_of t = if t.user.exit_code_valid then t.user.exit_code else 0

-- What follows the search of a round.
unfoldable pub wait_found :
    (parent target_pid : ℕ) (nohang : Bool) (zombie : Option ℕ) (has_matching_child : Bool)
    → Sched
    → WaitRound
unfolding sched_reap_task
wait_found parent target_pid nohang (some z) has s =
    returned ok (task_at s z).pid (exit_code_of (task_at s z)) (forget parent (sched_reap_task z s))
wait_found parent target_pid nohang none false s = returned (err noent) minus_one 0 s
wait_found parent target_pid nohang none true s =
    if nohang
    then returned ok 0 0 (forget parent s)
    else blocked (record s {
      tasks =
          set s.tasks parent
            (record (task_at s parent) { wait_target_pid = target_pid; state = task_wait_child });
      need_resched = false;
    })

unfoldable pub wait_round : (parent target_pid : ℕ) (nohang : Bool) → Sched → WaitRound
unfolding sched_find_matching_zombie_child wait_found
wait_round parent target_pid nohang s =
    let found : Option ℕ × Bool = sched_find_matching_zombie_child parent target_pid s in
    wait_found parent target_pid nohang found.0 found.1 s

-- The checks before the loop: the calling task, or the error. `options` is 1 for
-- SYSCALL_WAITPID_FLAG_NOHANG, and other bits are refused.
unfoldable pub wait_checks : (target_pid options : ℕ) → Sched → Option Errno
wait_checks target_pid options s = elim s.current [
  | none ↦ some notsup
  | some c ↦
      if not (task_at s c).user_mode || ltb 1 options
      then some notsup
      else if not (is_positive target_pid) && not (target_pid == minus_one)
      then some inval
      else none
]

-- A round, and the scheduling when it blocks.
unfoldable pub scheduled_round : (now : ℕ) → WaitRound → Option WaitRound
unfolding sched_schedule
scheduled_round now (returned rc waited_pid exit_code r) = some (returned rc waited_pid exit_code r)
scheduled_round now (blocked b) = elim (sched_schedule now b) [
  | none ↦ none
  | some r ↦ some (blocked r)
]

-- What follows the checks.
unfoldable pub wait_call :
    (refused : Option Errno) (current : Option ℕ) (target_pid options now : ℕ)
    → Sched
    → Option WaitRound
unfolding wait_round scheduled_round
wait_call (some e) current target_pid options now s = some (returned (err e) minus_one 0 s)
wait_call none none target_pid options now s = none
wait_call none (some c) target_pid options now s =
    scheduled_round now (wait_round c target_pid (options == 1) s)

-- A call up to its end or its first blocking, scheduled.
unfoldable pub sched_waitpid_ex : (target_pid options now : ℕ) → Sched → Option WaitRound
unfolding wait_checks wait_call
sched_waitpid_ex target_pid options now s =
    wait_call (wait_checks target_pid options s) s.current target_pid options now s
