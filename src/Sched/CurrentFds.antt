-- ===== src/Sched/CurrentFds.antt =====
-- kernel/sched.c: the calls that hand the descriptor table of the current task to
-- kernel/proc_fd.c.
use skez_os.Prelude.{
  ℕ, Bool, true, false, Option, none, some, if◌then◌else◌, Status, Errno, err, inval, notsup,
}
use skez_os.File.{Kfile, FileOps}
use skez_os.Fd.{
  Table, proc_fd_get, proc_fd_install, proc_fd_alloc, proc_fd_close, proc_fd_dup, proc_fd_dup2,
}
use skez_os.Sched.{Sched, task_at, put_task}

-- `PROC_FD_DYNAMIC_MIN`
abbrev pub fd_dynamic_min : ℕ
fd_dynamic_min = 3

unfoldable pub sched_current_process_fd_get : (fd : ℕ) → Sched → Status × Option Kfile
sched_current_process_fd_get fd s = elim s.current [
  | none ↦ (err inval, none)
  | some c ↦
      if (task_at s c).user_mode then proc_fd_get (task_at s c).fd_table fd else (err notsup, none)
]

-- An error, with 0 for the number of a descriptor.
abbrev pub refused_number : Errno → Status × ℕ
refused_number e = (err e, 0)

module _ {W R : Type 0} (refused : Errno → R) (call : Table → W → R × Table × W) where
  -- What follows the test that there is a current task; `user` is whether it is in user mode.
  unfoldable pub user_fds : (user : Bool) (c : ℕ) → Sched → W → R × Sched × W
  user_fds false c s w = (refused notsup, s, w)
  user_fds true c s w =
      let (rc, table, w') = call (task_at s c).fd_table w in
      (rc, put_task c (record (task_at s c) { fd_table = table }) s, w')

  -- A call on the table of the current task, after the two tests that each of the calls makes.
  unfoldable pub on_fds : (current : Option ℕ) → Sched → W → R × Sched × W
  unfolding user_fds
  on_fds none s w = (refused inval, s, w)
  on_fds (some c) s w = user_fds (task_at s c).user_mode c s w

module _ {W : Type 0} (vtable : ℕ → FileOps W) where
  unfoldable pub sched_current_process_fd_install :
      (fd : ℕ) (src_file : Kfile) → Sched → W → Status × Sched × W
  unfolding on_fds
  sched_current_process_fd_install fd src_file s =
      on_fds err (λ t. proc_fd_install vtable t fd src_file) s.current s

  -- The result and the table of `proc_fd_alloc`, apart.
  abbrev pub alloc_call : (src_file : Kfile) → Table → W → (Status × ℕ) × Table × W
  alloc_call src_file t w =
      let (rc, fd, t', w') = proc_fd_alloc vtable t fd_dynamic_min src_file w in ((rc, fd), t', w')

  -- The status with `*out_fd`.
  unfoldable pub sched_current_process_fd_alloc :
      (src_file : Kfile) → Sched → W → (Status × ℕ) × Sched × W
  unfolding on_fds
  sched_current_process_fd_alloc src_file s =
      on_fds refused_number (alloc_call src_file) s.current s

  unfoldable pub sched_current_process_fd_close : (fd : ℕ) → Sched → W → Status × Sched × W
  unfolding on_fds
  sched_current_process_fd_close fd s = on_fds err (λ t. proc_fd_close vtable t fd) s.current s

  -- The result and the table of `proc_fd_dup`, apart.
  abbrev pub dup_call : (oldfd : ℕ) → Table → W → (Status × ℕ) × Table × W
  dup_call oldfd t w =
      let (rc, fd, t', w') = proc_fd_dup vtable t oldfd fd_dynamic_min w in ((rc, fd), t', w')

  -- The status with `*out_newfd`.
  unfoldable pub sched_current_process_fd_dup : (oldfd : ℕ) → Sched → W → (Status × ℕ) × Sched × W
  unfolding on_fds
  sched_current_process_fd_dup oldfd s = on_fds refused_number (dup_call oldfd) s.current s

  unfoldable pub sched_current_process_fd_dup2 : (oldfd newfd : ℕ) → Sched → W → Status × Sched × W
  unfolding on_fds
  sched_current_process_fd_dup2 oldfd newfd s =
      on_fds err (λ t. proc_fd_dup2 vtable t oldfd newfd) s.current s
