-- ===== src/Tests/Scheduler.antt =====
-- Runs of kernel/sched.c: a user task forks, and waits for its child.
use skez_os.Prelude.{
  ℕ, ◌^◌, ◌<◌, ◌≡◌, ◌≢◌, refl, true, false, Option, none, some, arith, Status, ok, err,
}
use skez_os.File.{FileOps}
use skez_os.Sched.{Task, Sched, ResumeCtx, task_at, put_task, zero_ctx, default_stack}
use skez_os.Prelude.{Errno}
use skez_os.Sched.{minus_one}
use skez_os.Sched.Fair.{Turn, sched_pick_next-Turn}
use skez_os.Sched.Run.{is_waiting, sched_pick_next, sched_start, sched_yield, sched_sleep_ticks}
use skez_os.Sched.Calls.{IsSched, NotIdle}
use skez_os.Sched.Waitpid.{CallIs, sched_waitpid_ex-CallIs}
use skez_os.Sched.Born.{IsBorn}
use skez_os.Sched.Forked.{sched_fork_current_user_task-IsBorn}
use skez_os.Sched.Spawn.{sched_spawn_kernel_task, sched_init, initial}
use skez_os.Sched.Fork.{sched_fork_current_user_task}
use skez_os.Sched.Wait.{
  WaitRound, returned, blocked, wait_checks, sched_task_exit, sched_waitpid_ex,
}
use skez_os.Sched.Machine.{Boot, Reached, Reached-IsSched, Reached-schedules}

abbrev no_files : ℕ → FileOps ℕ
no_files k = record { read = none; write = none; retain = none; close = none }

abbrev from_some : Option Sched → Sched
from_some none = initial
from_some (some s) = s

abbrev first_of : Option (Sched × ℕ) → Sched
first_of none = initial
first_of (some (s, w)) = s

abbrev booted : Sched
booted = first_of (sched_init no_files 4096 8192 0)

init_run : sched_init no_files 4096 8192 0 ≡ some (booted, 0)
unfolding sched_init skez_os.Sched.Children.sched_find_task_slot
init_run = refl

-- A task is made and chosen by the start.
abbrev made : Sched
made = (sched_spawn_kernel_task no_files none 4160 0 0 16384 booted 0).2

abbrev begun : Sched
begun = from_some (sched_start 0 made)

start_run : sched_start 0 made ≡ some begun
unfolding sched_start sched_spawn_kernel_task skez_os.Sched.Children.sched_find_task_slot sched_init
start_run = refl

-- It enters user mode, and forks.
abbrev entered_user : Task
entered_user = record (task_at begun 1) {
  user_mode = true;
  address_space = 2;
  user = record (task_at begun 1).user {
    image_base = 4194304;
    image_size = 4096;
    stack_base = 8388608;
    stack_size = 4096;
  };
}

abbrev pub in_user : Sched
in_user = put_task 1 entered_user begun

abbrev fork_out : Status × ℕ × Sched × ℕ
fork_out = sched_fork_current_user_task no_files 4200 zero_ctx (ok, 0) (ok, 3) 32768 in_user 0

abbrev forked : Sched
forked = fork_out.2

abbrev after_wait : Option WaitRound → Sched
after_wait none = initial
after_wait (some (returned st pid code r)) = r
after_wait (some (blocked r)) = r

-- The parent waits for any child, and the child runs and exits with 7.
abbrev waiting : Sched
waiting = after_wait (sched_waitpid_ex 4294967295 0 1 forked)

abbrev exiting : Sched
exiting =
    put_task 2
      (record (task_at waiting 2) {
        user = record (task_at waiting 2).user { exit_code = 7; exit_code_valid = true };
      })
      waiting

abbrev child_gone : Sched
child_gone = from_some (sched_task_exit no_files 2 exiting 0).0

abbrev pid_and_code : Option WaitRound → ℕ × ℕ
pid_and_code none = (0, 0)
pid_and_code (some (returned st pid code r)) = (pid, code)
pid_and_code (some (blocked r)) = (0, 0)

fork_run : fork_out.1 ≡ 3
unfolding sched_start sched_spawn_kernel_task skez_os.Sched.Children.sched_find_task_slot sched_init
    sched_fork_current_user_task skez_os.Fd.proc_fd_table_clone
fork_run = refl

reap_run : pid_and_code (sched_waitpid_ex 4294967295 0 3 child_gone) ≡ (3, 7)
unfolding sched_start sched_spawn_kernel_task skez_os.Sched.Children.sched_find_task_slot sched_init
    sched_fork_current_user_task sched_waitpid_ex sched_task_exit skez_os.Fd.proc_fd_table_clone
    skez_os.Sched.Children.sched_orphan_or_reap_children skez_os.Sched.Children.orphan_or_reap
    skez_os.Sched.Children.sched_find_task_by_pid
    skez_os.Sched.Children.sched_maybe_wake_parent_waiter
reap_run = refl

in_user-Reached : Reached no_files in_user 0
unfolding sched_start sched_spawn_kernel_task skez_os.Sched.Children.sched_find_task_slot sched_init
    sched_fork_current_user_task skez_os.Fd.proc_fd_table_clone
in_user-Reached =
    Reached.change 1 entered_user begun 0 0
      (Reached.start 0 made begun 0
        (Boot.spawn none 4160 0 0 16384 booted 0
          (Boot.init 4096 8192 booted 0 init_run (λ e. omega (arith, e)) (λ e. omega (arith, e)))
          (omega arith))
        start_run)
      (record { pid = refl; parent_pid = refl; wait_target_pid = refl; state = refl })

pub in_user-IsSched : IsSched in_user
in_user-IsSched = Reached-IsSched no_files in_user 0 in_user-Reached

forked-Reached : Reached no_files forked 0
unfolding sched_start sched_spawn_kernel_task skez_os.Sched.Children.sched_find_task_slot sched_init
    sched_fork_current_user_task skez_os.Fd.proc_fd_table_clone
forked-Reached =
    Reached.fork 4200 zero_ctx (ok, 0) (ok, 3) 32768 in_user 0 in_user-Reached (omega arith)

forked-NotIdle : NotIdle forked
unfolding sched_start sched_spawn_kernel_task skez_os.Sched.Children.sched_find_task_slot sched_init
    sched_fork_current_user_task skez_os.Fd.proc_fd_table_clone
forked-NotIdle i e is = ground (arith, e, is)

pub in_user-current : in_user.current ≡ some 1
unfolding sched_start sched_spawn_kernel_task skez_os.Sched.Children.sched_find_task_slot sched_init
    sched_fork_current_user_task skez_os.Fd.proc_fd_table_clone
in_user-current = refl

in_user-room : in_user.next_pid < 2 ^ 31
unfolding sched_start sched_spawn_kernel_task skez_os.Sched.Children.sched_find_task_slot sched_init
    sched_fork_current_user_task skez_os.Fd.proc_fd_table_clone
in_user-room = omega arith

Reached-IsSched_example : IsSched forked
Reached-IsSched_example = Reached-IsSched no_files forked 0 forked-Reached

Reached-schedules_example :
    ((now : ℕ) → (s' : Sched) × (sched_yield now forked ≡ some s'))
    × (NotIdle forked
        → (ticks now : ℕ) → (s' : Sched) × (sched_sleep_ticks ticks now forked ≡ some s'))
    × (NotIdle forked
        → (now : ℕ)
        → (s' : Sched) × ((sched_task_exit no_files now forked 0).0 ≡ some s')
          × (s'.current ≢ forked.current))
    × (NotIdle forked
        → (target options now : ℕ)
        → (o : WaitRound) × (sched_waitpid_ex target options now forked ≡ some o))
Reached-schedules_example = Reached-schedules no_files forked 0 forked-Reached

sched_waitpid_ex-CallIs_example :
    (o : WaitRound) × (sched_waitpid_ex 4294967295 0 1 forked ≡ some o)
    × ((c : ℕ)
        → forked.current ≡ some c
        → wait_checks 4294967295 0 forked ≡ none
        → CallIs c 4294967295 false forked o)
    × ((e : Errno)
        → wait_checks 4294967295 0 forked ≡ some e
        → o ≡ returned (err e) minus_one 0 forked)
sched_waitpid_ex-CallIs_example =
    sched_waitpid_ex-CallIs 4294967295 0 1 forked (Reached-IsSched no_files forked 0 forked-Reached)
      forked-NotIdle

sched_fork_current_user_task-IsBorn_example :
    IsBorn
      (task_at in_user 1).pid
      in_user
      (sched_fork_current_user_task no_files 4200 zero_ctx (ok, 0) (ok, 3) 32768 in_user 0)
sched_fork_current_user_task-IsBorn_example =
    sched_fork_current_user_task-IsBorn no_files 4200 zero_ctx 32768 (ok, 0) (ok, 3) 1 in_user 0
      (Reached-IsSched no_files in_user 0 in_user-Reached) in_user-current (in_user-room)

child-waits : is_waiting forked 2 ≡ true
unfolding sched_start sched_spawn_kernel_task skez_os.Sched.Children.sched_find_task_slot sched_init
    sched_fork_current_user_task skez_os.Fd.proc_fd_table_clone
child-waits = refl

forked-cursor : forked.rr_cursor < 12
unfolding sched_start sched_spawn_kernel_task skez_os.Sched.Children.sched_find_task_slot sched_init
    sched_fork_current_user_task skez_os.Fd.proc_fd_table_clone
forked-cursor = omega arith

sched_pick_next-Turn_example : Turn forked 2 (sched_pick_next forked)
sched_pick_next-Turn_example = sched_pick_next-Turn forked 2 forked-cursor (omega arith) child-waits
