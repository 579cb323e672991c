-- ===== src/Tests/FdCalls.antt =====
-- The descriptor calls of kernel/sched.c, for a user task with the two ends of a pipe.
use skez_os.Prelude.{◌≡◌, refl, ok}
use skez_os.Sched.{Sched, task_at, put_task}
use skez_os.Sched.Calls.{IsSched, quiet-IsSched}
use skez_os.Sched.CurrentFds.{
  sched_current_process_fd_install, sched_current_process_fd_alloc, sched_current_process_fd_close,
  sched_current_process_fd_dup, sched_current_process_fd_dup2,
}
use skez_os.Endpoint.Uses.{undo}
use skez_os.Prelude.{none, []}
use skez_os.Sched.FdCalls.{Keeps, fd_calls-Keeps}
use skez_os.Tests.Descriptors.{
  kernel, counted, end_of_pipe, two_ends, pipe_heap, nobody, not_null, two_ends-IsOwned,
  read_end-Room,
}
use skez_os.Tests.Scheduler.{in_user, in_user-IsSched, in_user-current}

abbrev piping : Sched
piping = put_task 1 (record (task_at in_user 1) { fd_table = two_ends }) in_user

piping-IsSched : IsSched piping
piping-IsSched =
    quiet-IsSched in_user 1 (record (task_at in_user 1) { fd_table = two_ends })
      (record { pid = refl; parent_pid = refl; wait_target_pid = refl; state = refl })
      in_user-IsSched

alloc_run : (sched_current_process_fd_alloc kernel (end_of_pipe 1) piping pipe_heap).0 ≡ (ok, 3)
unfolding sched_current_process_fd_alloc skez_os.Sched.Run.sched_start
    skez_os.Sched.Spawn.sched_spawn_kernel_task skez_os.Sched.Children.sched_find_task_slot
    skez_os.Sched.Spawn.sched_init skez_os.Fd.proc_fd_alloc skez_os.File.kfile_clone
    skez_os.Endpoint.kpipe_file_ops
alloc_run = refl

fd_calls-Keeps_example :
    (let r = sched_current_process_fd_install kernel 5 (end_of_pipe 1) piping pipe_heap in
      Keeps counted nobody 1 piping r.1 r.2)
    × (let r = sched_current_process_fd_alloc kernel (end_of_pipe 1) piping pipe_heap in
        Keeps counted nobody 1 piping r.1 r.2)
    × (let r = sched_current_process_fd_close kernel 5 piping pipe_heap in
        Keeps counted nobody 1 piping r.1 r.2)
    × (let r = sched_current_process_fd_dup kernel 0 piping pipe_heap in
        Keeps counted nobody 1 piping r.1 r.2)
    × (let r = sched_current_process_fd_dup2 kernel 0 1 piping pipe_heap in
        Keeps counted nobody 1 piping r.1 r.2)
unfolding skez_os.Sched.Run.sched_start skez_os.Sched.Spawn.sched_spawn_kernel_task
    skez_os.Sched.Children.sched_find_task_slot skez_os.Sched.Spawn.sched_init
fd_calls-Keeps_example =
    fd_calls-Keeps counted nobody 1 piping-IsSched in_user-current two_ends-IsOwned (end_of_pipe 1)
      5 0 1 (λ _. not_null) read_end-Room read_end-Room
      (undo [] (λ _. none) (λ _. none) (end_of_pipe 1) pipe_heap (λ _. not_null))
      (undo [] (λ _. none) (λ _. none) (end_of_pipe 1) pipe_heap (λ _. not_null))
