-- ===== src/Sched/Notes.antt =====
-- kernel/sched.c: what is noted on the current task, the tests on it, and the snapshot of the tasks.
use skez_os.Prelude.{
  ℕ, zero, suc, ◌+◌, ◌%◌, ◌^◌, Bool, true, ◌&&◌, none, some, List, [], ◌∷◌, ◌==◌, if◌then◌else◌,
  Status, ok,
}
use skez_os.Sched.{
  task_unused, TaskState, state_code, Task, UserCtx, Sched, in_state, task_at, put_task,
  is_positive, minus_one,
}
use skez_os.Sched.Children.{sched_find_task_by_pid}
use skez_os.Sched.Spawn.{sched_copy_task_name}
use skez_os.Sched.User.{with_user, test_current}

-- The user part of the current task, when it is in user mode.
unfoldable pub note_current : (UserCtx → UserCtx) → Sched → Sched
note_current f s = elim s.current [
  | none ↦ s
  | some c ↦ if (task_at s c).user_mode then put_task c (with_user f (task_at s c)) s else s
]

unfoldable pub sched_note_current_syscall : (syscall_nr : ℕ) → Sched → Sched
unfolding note_current
sched_note_current_syscall syscall_nr =
    note_current (λ u. record u {
      last_syscall_nr = syscall_nr;
      syscall_count = (u.syscall_count + 1) % 2 ^ 32;
    })

unfoldable pub sched_note_current_user_fault : (user_eip fault_addr error_code : ℕ) → Sched → Sched
unfolding note_current
sched_note_current_user_fault user_eip fault_addr error_code = note_current (λ u. record u {
  last_user_eip = user_eip;
  last_fault_addr = fault_addr;
  last_fault_err = error_code;
  fault_count = (u.fault_count + 1) % 2 ^ 32;
})

unfoldable pub sched_note_current_exit_code : (exit_code : ℕ) → Sched → Sched
unfolding note_current
sched_note_current_exit_code exit_code =
    note_current (λ u. record u { exit_code = exit_code; exit_code_valid = true })

unfoldable pub sched_current_task_is_user : Sched → Bool
sched_current_task_is_user s = test_current s.current (λ t. t.user_mode) s

unfoldable pub sched_current_task_pid : Sched → ℕ
sched_current_task_pid s = elim s.current [ none ↦ minus_one | some c ↦ (task_at s c).pid ]

unfoldable pub sched_current_task_owns_child_pid : (pid : ℕ) → Sched → Bool
unfolding sched_current_task_is_user
sched_current_task_owns_child_pid pid s =
    is_positive pid
    && sched_current_task_is_user s
    && test_current (sched_find_task_by_pid pid s)
        (λ t. test_current s.current (λ p. t.parent_pid == p.pid) s) s

-- `struct syscall_task_snapshot_entry`
pub record SnapshotEntry : Type 0 where
  pub pid : ℕ
  pub parent_pid : ℕ
  pub exit_code : ℕ
  pub state : ℕ
  pub flags : ℕ
  pub name : List ℕ

abbrev pub sched_state_to_syscall_state : TaskState → ℕ
sched_state_to_syscall_state = state_code

unfoldable pub snapshot_entry : Task → SnapshotEntry
unfolding sched_copy_task_name
snapshot_entry t = record {
  pid = t.pid;
  parent_pid = t.parent_pid;
  exit_code = if t.user.exit_code_valid then t.user.exit_code else 0;
  state = sched_state_to_syscall_state t.state;
  flags = (if t.user_mode then 1 else 0) + (if t.user.exit_code_valid then 2 else 0);
  name = sched_copy_task_name (some t.name);
}

-- The loop over the tasks, with room for `cap` entries.
unfoldable pub snapshot : (cap : ℕ) → List Task → List SnapshotEntry
unfolding snapshot_entry
snapshot cap [] = []
snapshot zero (t ∷ ts) = []
snapshot (suc cap) (t ∷ ts) =
    let with_it : List SnapshotEntry = snapshot_entry t ∷ snapshot cap ts in
    let without : List SnapshotEntry = snapshot (suc cap) ts in
    if in_state t task_unused then without else with_it

-- The status and the entries, the number of which is `*out_count`.
unfoldable pub sched_collect_task_snapshot : (cap : ℕ) → Sched → Status × List SnapshotEntry
unfolding snapshot
sched_collect_task_snapshot cap s = (ok, snapshot cap s.tasks)
