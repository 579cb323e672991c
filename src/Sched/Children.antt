-- ===== src/Sched/Children.antt =====
-- kernel/sched.c: looking tasks up, giving a task's slot back, and the children of a task.
use skez_os.Prelude.{
  ℕ, zero, suc, ◌+◌, Bool, true, false, not, ◌&&◌, ◌||◌, Option, none, some, List, [], ◌∷◌, ◌==◌,
  if◌then◌else◌,
}
use skez_os.Prelude.Lists.{find_first}
use skez_os.Sched.{
  task_unused, task_runnable, task_wait_child, task_zombie, Task, Sched, freed, destroyed,
  exit_shown, slot_reaped, max_tasks, default_timeslice, minus_one, is_positive, own_space,
  cleared_task, in_state, task_at, put_task, add_effect, is_index,
}

abbrev pub has_pid : ℕ → Task → Bool
has_pid pid t = not (in_state t task_unused) && (t.pid == pid)

unfoldable pub sched_find_task_by_pid : ℕ → Sched → Option ℕ
unfolding find_first
sched_find_task_by_pid pid s = find_first (has_pid pid) s.tasks

unfoldable pub sched_find_task_slot : Sched → Option ℕ
unfolding find_first
sched_find_task_slot s = find_first (λ t. in_state t task_unused) s.tasks

-- The parent waits, for this child or for any.
abbrev pub waits_for : (child_pid : ℕ) → Task → Bool
waits_for child_pid t =
    in_state t task_wait_child
    && ((t.wait_target_pid == minus_one) || (t.wait_target_pid == child_pid))

abbrev pub woken : Task → Task
woken t = record t { state = task_runnable; timeslice_left = default_timeslice }

unfoldable pub sched_maybe_wake_parent_waiter : (parent_pid child_pid : ℕ) → Sched → Sched
unfolding sched_find_task_by_pid
sched_maybe_wake_parent_waiter parent_pid child_pid s =
    if is_positive parent_pid
    then elim (sched_find_task_by_pid parent_pid s) [
      | none ↦ s
      | some i ↦ if waits_for child_pid (task_at s i) then put_task i (woken (task_at s i)) s else s
    ]
    else s

-- `if (stack_base) kfree(stack_base)`
unfoldable pub free_stack : ℕ → Sched → Sched
free_stack stack_base s = if stack_base == 0 then s else add_effect (freed stack_base) s

unfoldable pub destroy_space : ℕ → Sched → Sched
destroy_space aspace s = if own_space aspace then add_effect (destroyed aspace) s else s

-- The calls of `sched_reap_task_locked`.
unfoldable pub release : Task → Sched → Sched
unfolding free_stack destroy_space
release t s =
    destroy_space t.address_space
      (free_stack t.stack_base (add_effect (slot_reaped t.pid) (add_effect (exit_shown t.pid) s)))

unfoldable pub sched_reap_task : ℕ → Sched → Sched
unfolding release
sched_reap_task i s =
    if in_state (task_at s i) task_unused || is_index s.current i
    then s
    else put_task i cleared_task (release (task_at s i) s)

-- One round of the loop below.
unfoldable pub orphan_or_reap : (parent_pid i : ℕ) → Sched → Sched
unfolding sched_reap_task
orphan_or_reap parent_pid i s =
    if in_state (task_at s i) task_unused || not ((task_at s i).parent_pid == parent_pid)
    then s
    else if in_state (task_at s i) task_zombie
    then sched_reap_task i s
    else put_task i (record (task_at s i) { parent_pid = minus_one }) s

-- The rounds from index `i` on.
unfoldable pub orphan_rounds : (parent_pid i rounds : ℕ) → Sched → Sched
orphan_rounds parent_pid i zero s = s
orphan_rounds parent_pid i (suc rounds) s =
    orphan_rounds parent_pid (i + 1) rounds (orphan_or_reap parent_pid i s)

unfoldable pub sched_orphan_or_reap_children : (parent_pid : ℕ) → Sched → Sched
unfolding orphan_rounds
sched_orphan_or_reap_children parent_pid s = orphan_rounds parent_pid 0 max_tasks s

abbrev pub is_child : (parent_pid target_pid : ℕ) → Task → Bool
is_child parent_pid target_pid t =
    not (in_state t task_unused)
    && (t.parent_pid == parent_pid)
    && ((target_pid == minus_one) || (t.pid == target_pid))

-- `*out_zombie` and `*out_has_matching_child`
unfoldable pub find_zombie : (parent_pid target_pid : ℕ) → List Task → Option ℕ × Bool
find_zombie parent_pid target_pid [] = (none, false)
find_zombie parent_pid target_pid (t ∷ ts) =
    let rest : Option ℕ × Bool = find_zombie parent_pid target_pid ts in
    let later : Option ℕ = elim rest.0 [ none ↦ none | some i ↦ some (suc i) ] in
    if is_child parent_pid target_pid t
    then if in_state t task_zombie then (some 0, true) else (later, true)
    else (later, rest.1)

unfoldable pub sched_find_matching_zombie_child : (parent target_pid : ℕ) → Sched → Option ℕ × Bool
unfolding find_zombie
sched_find_matching_zombie_child parent target_pid s =
    find_zombie (task_at s parent).pid target_pid s.tasks
