-- ===== src/Sched/Spawn.antt =====
-- kernel/sched.c: the start of the scheduler, new tasks and the fork of a user task. What `kmalloc` and
-- paging return is an argument.
use skez_os.Prelude.{
  ℕ, ◌+◌, ◌-◌, ◌%◌, ◌^◌, Bool, true, false, ◌&&◌, Option, none, some, List, [], ◌∷◌, ◌++◌, ◌==◌,
  if◌then◌else◌, take, drop, replicate, set, Status, ok, err, inval, nomem, notsup,
}
use skez_os.File.{FileOps}
use skez_os.Fd.{Table, proc_fd_table_init, proc_fd_table_clone}
use skez_os.Sched.{
  task_runnable, trampoline, UserCtx, Task, Sched, freed, max_tasks, default_timeslice,
  default_stack, minus_one, is_positive, kernel_space, zero_task, zero_user, cleared_task, task_at,
  add_effect,
}
use skez_os.Sched.Children.{sched_find_task_slot}

abbrev pub name_max : ℕ
name_max = 16

-- A name without its NUL.
unfoldable pub sched_copy_task_name : (src : Option (List ℕ)) → List ℕ
sched_copy_task_name none = 116 ∷ 97 ∷ 115 ∷ 107 ∷ []
sched_copy_task_name (some src) = take (name_max - 1) src

abbrev pub copy_prefix : (n : ℕ) (src dst : List ℕ) → List ℕ
copy_prefix n src dst = take n src ++ drop n dst

unfoldable pub sched_init_task_cwd : UserCtx → UserCtx
sched_init_task_cwd u = record u { cwd_len = 1; cwd = 47 ∷ 0 ∷ drop 2 u.cwd }

abbrev pub copy_cwd : (src dst : UserCtx) → UserCtx
copy_cwd src dst = record dst {
  cwd_len = src.cwd_len;
  cwd = copy_prefix (src.cwd_len + 1) src.cwd dst.cwd;
}

unfoldable pub stack_pages : (stack_size : ℕ) → ℕ
stack_pages stack_size =
    let asked = if stack_size == 0 then default_stack else stack_size in
    let up = (asked + 4095) % 2 ^ 32 in up - up % 4096

unfoldable pub new_task :
    (pid : ℕ) (name : Option (List ℕ)) (user_mode : Bool)
    (entry arg stack stack_size parent_pid address_space : ℕ)
    → Task
unfolding sched_copy_task_name sched_init_task_cwd proc_fd_table_init
new_task pid name user_mode entry arg stack stack_size parent_pid address_space = record zero_task {
  pid = pid;
  name = sched_copy_task_name name;
  state = task_runnable;
  user_mode = user_mode;
  esp = trampoline;
  stack_base = stack;
  stack_size = stack_size;
  entry = entry;
  arg = arg;
  timeslice_left = default_timeslice;
  parent_pid = parent_pid;
  user = sched_init_task_cwd zero_user;
  address_space = address_space;
}

-- The new task in its slot, and its pid taken.
unfoldable pub add_task : (slot : ℕ) → Task → Sched → Sched
add_task slot t s = record s { tasks = set s.tasks slot t; next_pid = (s.next_pid + 1) % 2 ^ 32 }

abbrev pub inherits : (parent_pid : ℕ) → Option ℕ → Sched → Option Task
inherits parent_pid none s = none
inherits parent_pid (some c) s =
    if is_positive parent_pid && ((task_at s c).pid == parent_pid) && (task_at s c).user_mode
    then some (task_at s c)
    else none

module _ {W : Type 0} (vtable : ℕ → FileOps W) where
  -- From `child->fd_table` cloned: the task, or the slot given back and what was allocated freed.
  unfoldable pub add_with_fds :
      (slot : ℕ) → Task → (src : Table) → Sched → W → Status × ℕ × Sched × W
  unfolding add_task
  add_with_fds slot t src s w =
      let (rc, fds, w') = proc_fd_table_clone vtable src w in
      elim rc [
        | ok ↦ (ok, t.pid, add_task slot (record t { fd_table = fds }) s, w')
        | err e ↦
            (err e, minus_one, add_effect (freed t.stack_base) (add_task slot cleared_task s), w')
      ]

  -- The new task in its slot, with what it inherits from the calling task.
  unfoldable pub spawn_inheriting :
      (caller : Option Task) (inherit_fds : Bool) (slot : ℕ)
      → Task
      → Sched
      → W
      → Status × ℕ × Sched × W
  unfolding add_task add_with_fds
  spawn_inheriting none inherit_fds slot t s w = (ok, t.pid, add_task slot t s, w)
  spawn_inheriting (some p) false slot t s w =
      (ok, t.pid, add_task slot (record t { user = copy_cwd p.user t.user }) s, w)
  spawn_inheriting (some p) true slot t s w =
      add_with_fds slot (record t { user = copy_cwd p.user t.user }) p.fd_table s w

  -- From the search for a slot on.
  unfoldable pub spawn_slot :
      (slot : Option ℕ) (stack : ℕ) (inherit_fds : Bool) → Task → Sched → W → Status × ℕ × Sched × W
  unfolding spawn_inheriting
  spawn_slot none stack inherit_fds t s w = (err nomem, minus_one, s, w)
  spawn_slot (some slot) stack inherit_fds t s w =
      if stack == 0
      then (err nomem, minus_one, s, w)
      else spawn_inheriting (inherits t.parent_pid s.current s) inherit_fds slot t s w

  -- The status, `*out_pid`, the scheduler and the backends; `stack` is what `kmalloc` returns.
  unfoldable pub sched_spawn_task_internal :
      (name : Option (List ℕ)) (entry arg stack_size parent_pid : ℕ) (inherit_fds : Bool)
      (stack : ℕ)
      → Sched
      → W
      → Status × ℕ × Sched × W
  unfolding stack_pages spawn_slot new_task
  sched_spawn_task_internal name entry arg stack_size parent_pid inherit_fds stack s w =
      if entry == 0
      then (err inval, minus_one, s, w)
      else spawn_slot (sched_find_task_slot s) stack inherit_fds
          (new_task s.next_pid name false entry arg stack (stack_pages stack_size) parent_pid
            kernel_space)
          s w

  unfoldable pub sched_spawn_kernel_task :
      (name : Option (List ℕ)) (entry arg stack_size stack : ℕ) → Sched → W → Status × ℕ × Sched × W
  unfolding sched_spawn_task_internal
  sched_spawn_kernel_task name entry arg stack_size stack s w =
      sched_spawn_task_internal name entry arg stack_size minus_one false stack s w

  unfoldable pub spawn_child :
      (current : Option ℕ) (name : Option (List ℕ)) (entry arg stack_size : ℕ) (inherit_fds : Bool)
      (stack : ℕ)
      → Sched
      → W
      → Status × ℕ × Sched × W
  unfolding sched_spawn_task_internal
  spawn_child none name entry arg stack_size inherit_fds stack s w = (err notsup, minus_one, s, w)
  spawn_child (some c) name entry arg stack_size inherit_fds stack s w =
      if (task_at s c).user_mode
      then sched_spawn_task_internal name entry arg stack_size (task_at s c).pid inherit_fds stack s
          w
      else (err notsup, minus_one, s, w)

  unfoldable pub sched_spawn_user_child_task :
      (name : Option (List ℕ)) (entry arg stack_size : ℕ) (inherit_fds : Bool) (stack : ℕ)
      → Sched
      → W
      → Status × ℕ × Sched × W
  unfolding spawn_child
  sched_spawn_user_child_task name entry arg stack_size inherit_fds stack s w =
      spawn_child s.current name entry arg stack_size inherit_fds stack s w

abbrev pub initial : Sched
initial = record {
  tasks = replicate max_tasks zero_task;
  current = none;
  idle = none;
  next_pid = 1;
  rr_cursor = 0;
  started = false;
  in_scheduler = false;
  context_switches = 0;
  idle_ticks = 0;
  need_resched = false;
  deferred_stack = 0;
  deferred_as = 0;
  effects = [];
}

-- The idle task is made, or there is a panic.
unfoldable pub init_idle : {W : Type 0} → Status × ℕ × Sched × W → Option (Sched × W)
init_idle (ok, pid, s, w) = some (record s { idle = some 0 }, w)
init_idle (err e, pid, s, w) = none

-- `entry` is the address of `sched_idle_task`.
unfoldable pub sched_init :
    {W : Type 0} (vtable : ℕ → FileOps W) (entry stack : ℕ) → W → Option (Sched × W)
unfolding sched_spawn_kernel_task init_idle
sched_init vtable entry stack w = init_idle (
    sched_spawn_kernel_task vtable (some (105 ∷ 100 ∷ 108 ∷ 101 ∷ [])) entry 0 default_stack stack
      initial w)
