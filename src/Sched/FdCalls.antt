-- ===== src/Sched/FdCalls.antt =====
-- The descriptor calls of kernel/sched.c change the table of the current task and nothing else, and
-- keep its references counted.
use skez_os.Prelude.{◌<◌, Bool, false, ℕ, ◌≡◌, ◌≢◌, refl, sym, ap, true, false, some, arith, get_or}
use mathlib.Core.Path.{subst}
use skez_os.Prelude.{Errno, err}
use skez_os.File.{Kfile, FileOps}
use skez_os.Fd.{Table, unused, proc_fd_install, proc_fd_close, proc_fd_dup2}
use skez_os.Fd.Owners.{RefCounted, CloneCloses, IsOwned}
use skez_os.Fd.Ownership.{Room}
use skez_os.Fd.Ops.{
  proc_fd_close-IsOwned, proc_fd_alloc-IsOwned, proc_fd_install-IsOwned, proc_fd_dup-IsOwned,
}
use skez_os.Fd.Whole.{proc_fd_dup2-IsOwned}
use skez_os.Sched.{Task, Sched, state_code, task_at, put_task}
use skez_os.Sched.Calm.{at-put_self, at-put_ne, live-place}
use skez_os.Sched.Calls.{IsSched, quiet-IsSched}
use skez_os.Sched.CurrentFds.{
  refused_number, alloc_call, dup_call, user_fds, on_fds, sched_current_process_fd_install,
  sched_current_process_fd_alloc, sched_current_process_fd_close, sched_current_process_fd_dup,
  sched_current_process_fd_dup2,
}

module _ {W : Type 0} {vtable : ℕ → FileOps W} (counted : RefCounted vtable) where
  open counted use {Key, Managed}

  -- A call of task `c` leads from `s` to `s'`: the scheduler's invariant holds, the other tasks are
  -- as they were, and the references of the task's table are counted.
  pub record Keeps (ext : Key → ℕ) (c : ℕ) (s s' : Sched) (w : W) : Type 0 where
    pub sched : IsSched s'
    pub current : s'.current ≡ some c
    pub others : (i : ℕ) → i ≢ c → task_at s' i ≡ task_at s i
    pub owned : IsOwned counted ext (task_at s' c).fd_table w

  module _ (ext : Key → ℕ) (c : ℕ) {s : Sched} {w : W} (d : IsSched s)
      (current : s.current ≡ some c) (o : IsOwned counted ext (task_at s c).fd_table w) where
    table-Keeps :
        (table : Table) (w' : W)
        → IsOwned counted ext table w'
        → Keeps ext c s (put_task c (record (task_at s c) { fd_table = table }) s) w'
    table-Keeps table w' o' =
        let t : Task = record (task_at s c) { fd_table = table } in
        let c_runs : c ≡ d.runs = ground (arith, current, d.current) in
        let live : 0 < state_code (task_at s c).state =
          omega (arith, d.running, ap (λ x. state_code (task_at s x).state) c_runs) in
        record {
          sched =
              quiet-IsSched s c t
                (record { pid = refl; parent_pid = refl; wait_target_pid = refl; state = refl }) d;
          current = current;
          others = λ i n. at-put_ne s c i t n;
          owned =
              subst (λ u. IsOwned counted ext u.fd_table w')
                (sym (at-put_self s c t (live-place s c live))) o';
        }

    module _ {R : Type 0} (refused : Errno → R) (call : Table → W → R × Table × W)
        (o' : IsOwned counted ext
          (call (task_at s c).fd_table w).1
          (call (task_at s c).fd_table w).2) where
      user_fds-Keeps :
          (user : Bool)
          → Keeps ext c s (user_fds refused call user c s w).1 (user_fds refused call user c s w).2
      unfolding user_fds
      user_fds-Keeps true = table-Keeps _ _ o'
      user_fds-Keeps false = record {
        sched = d;
        current = current;
        others = λ i n. refl;
        owned = o;
      }

      on_fds-Keeps :
          Keeps ext c s (on_fds refused call s.current s w).1 (on_fds refused call s.current s w).2
      unfolding on_fds
      on_fds-Keeps =
          subst (λ x. Keeps ext c s (on_fds refused call x s w).1 (on_fds refused call x s w).2)
            (sym current) (user_fds-Keeps (task_at s c).user_mode)

    -- For backends that count references, and whose clones and closes change no count when they fail,
    -- in a state that keeps the scheduler's invariant, where every count is what the table of the
    -- current task and the other holders hold, and the references of the file given to
    -- `sched_current_process_fd_install` and `sched_current_process_fd_alloc`, one that the backends
    -- know, and of `oldfd`'s file are counted, the counts can grow by them without wrapping, and
    -- clones of the two files can be closed: each of these two calls, and each of
    -- `sched_current_process_fd_close`, `sched_current_process_fd_dup` and
    -- `sched_current_process_fd_dup2`, on every branch, a close that fails included, leaves the counts
    -- what that table and the other holders hold, keeps the scheduler's invariant, and leaves the
    -- current task current and every other task as it was.
    pub fd_calls-Keeps :
        (f : Kfile) (fd oldfd newfd : ℕ)
        → Managed f
        → Room counted ext f w
        → Room counted ext (get_or (task_at s c).fd_table oldfd unused).file w
        → CloneCloses counted f w
        → CloneCloses counted (get_or (task_at s c).fd_table oldfd unused).file w
        → (let r = sched_current_process_fd_install vtable fd f s w in Keeps ext c s r.1 r.2)
          × (let r = sched_current_process_fd_alloc vtable f s w in Keeps ext c s r.1 r.2)
          × (let r = sched_current_process_fd_close vtable fd s w in Keeps ext c s r.1 r.2)
          × (let r = sched_current_process_fd_dup vtable oldfd s w in Keeps ext c s r.1 r.2)
          × (let r = sched_current_process_fd_dup2 vtable oldfd newfd s w in Keeps ext c s r.1 r.2)
    unfolding sched_current_process_fd_install sched_current_process_fd_alloc
        sched_current_process_fd_close sched_current_process_fd_dup sched_current_process_fd_dup2
    fd_calls-Keeps f fd oldfd newfd m room room' undo undo' = (
      on_fds-Keeps err (λ t. proc_fd_install vtable t fd f)
          (proc_fd_install-IsOwned counted ext f fd m room o),
      on_fds-Keeps refused_number (alloc_call vtable f)
          (proc_fd_alloc-IsOwned counted ext f 3 m room undo o),
      on_fds-Keeps err (λ t. proc_fd_close vtable t fd) (proc_fd_close-IsOwned counted ext fd o),
      on_fds-Keeps refused_number (dup_call vtable oldfd)
          (proc_fd_dup-IsOwned counted ext oldfd 3 room' undo' o),
      on_fds-Keeps err (λ t. proc_fd_dup2 vtable t oldfd newfd)
          (proc_fd_dup2-IsOwned counted ext oldfd newfd room' undo' o),
    )
