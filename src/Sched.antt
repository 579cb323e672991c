-- ===== src/Sched.antt =====
-- kernel/sched.c: the tasks, the scheduler's state, and what the operations of the child modules share.
-- Pointers are addresses, 0 for NULL; a pointer into g_tasks is an index. An `int` pid is its 32-bit
-- pattern. `effects` lists, the last first, what the code gives to other parts of the kernel.
pub mod Children
pub mod Run
pub mod Spawn
pub mod Fork
pub mod Wait
pub mod Family
pub mod Calm
pub mod States
pub mod Switch
pub mod Calls
pub mod Tick
pub mod Reap
pub mod Orphans
pub mod Parent
pub mod Zombie
pub mod Vanish
pub mod Exit
pub mod Join
pub mod Born
pub mod Forked
pub mod Start
pub mod User
pub mod Notes
pub mod Ranges
pub mod Fair
pub mod CurrentFds
pub mod FdCalls
pub mod Machine
pub mod Zombies
pub mod Block
pub mod Round
pub mod Waitpid
use skez_os.Prelude.{
  ℕ, ◌^◌, Bool, true, false, not, ◌&&◌, Option, none, some, List, [], ◌∷◌, ltb, ◌==◌, get_or, set,
  replicate,
}
use skez_os.Fd.{Table, unused, fd_max}

-- `task_state_t`
pub data TaskState : Type 0 where
  task_unused task_runnable task_running task_sleeping task_wait_child task_zombie : TaskState

-- Its values, as the enumeration numbers them.
abbrev pub state_code : TaskState → ℕ
state_code task_unused = 0
state_code task_runnable = 1
state_code task_running = 2
state_code task_sleeping = 3
state_code task_wait_child = 4
state_code task_zombie = 5

-- `struct user_mode_resume_ctx`
pub record ResumeCtx : Type 0 where
  pub eax : ℕ
  pub ebx : ℕ
  pub ecx : ℕ
  pub edx : ℕ
  pub esi : ℕ
  pub edi : ℕ
  pub ebp : ℕ
  pub eip : ℕ
  pub esp : ℕ
  pub eflags : ℕ

-- `struct task_user_ctx`, the buffers with their bytes.
pub record UserCtx : Type 0 where
  pub entry_eip : ℕ
  pub entry_esp : ℕ
  pub image_base : ℕ
  pub image_size : ℕ
  pub stack_base : ℕ
  pub stack_size : ℕ
  pub last_user_eip : ℕ
  pub last_fault_addr : ℕ
  pub last_fault_err : ℕ
  pub last_syscall_nr : ℕ
  pub syscall_count : ℕ
  pub fault_count : ℕ
  pub cmdline_len : ℕ
  pub cmdline : List ℕ
  pub cwd_len : ℕ
  pub cwd : List ℕ
  pub exit_code : ℕ
  pub exit_code_valid : Bool
  pub fork_ctx : ResumeCtx
  pub fork_ctx_valid : Bool

-- Where a task resumes: nowhere yet, at `sched_task_trampoline`, or in `sched_context_switch`.
pub data Resume : Type 0 where
  nowhere trampoline in_switch : Resume

-- `struct task`; `user_mode` is TASK_EXEC_USER_BOOTSTRAP, and `esp` is where the saved stack resumes.
pub record Task : Type 0 where
  pub pid : ℕ
  pub name : List ℕ
  pub state : TaskState
  pub user_mode : Bool
  pub esp : Resume
  pub stack_base : ℕ
  pub stack_size : ℕ
  pub entry : ℕ
  pub arg : ℕ
  pub wake_tick : ℕ
  pub timeslice_left : ℕ
  pub switches : ℕ
  pub ticks_run : ℕ
  pub preemptions : ℕ
  pub parent_pid : ℕ
  pub wait_target_pid : ℕ
  pub fd_table : Table
  pub user : UserCtx
  pub address_space : ℕ

-- What is handed over: memory to `kfree`, an address space to `paging_destroy_address_space` or
-- `paging_activate_address_space`, a pid to `display_gui_notify_task_exit` or
-- `usermode_notify_task_reaped`.
pub data Effect : Type 0 where
  freed destroyed activated exit_shown slot_reaped : ℕ → Effect

-- The static variables.
pub record Sched : Type 0 where
  pub tasks : List Task
  pub current : Option ℕ
  pub idle : Option ℕ
  pub next_pid : ℕ
  pub rr_cursor : ℕ
  pub started : Bool
  pub in_scheduler : Bool
  pub context_switches : ℕ
  pub idle_ticks : ℕ
  pub need_resched : Bool
  pub deferred_stack : ℕ
  pub deferred_as : ℕ
  pub effects : List Effect

-- `SCHED_MAX_TASKS`, `SCHED_DEFAULT_TIMESLICE`, `SCHED_DEFAULT_STACK`
abbrev pub max_tasks : ℕ
max_tasks = 12

abbrev pub default_timeslice : ℕ
default_timeslice = 5

abbrev pub default_stack : ℕ
default_stack = 16384

-- -1 as an `int`: no parent, and `SCHED_WAIT_ANY_CHILD`
abbrev pub minus_one : ℕ
minus_one = 4294967295

-- `x > 0` for an `int`
abbrev pub is_positive : ℕ → Bool
is_positive x = ltb 0 x && ltb x 2147483648

-- The address of paging's own address space.
abbrev pub kernel_space : ℕ
kernel_space = 1

abbrev pub own_space : ℕ → Bool
own_space address_space = not (address_space == 0) && not (address_space == kernel_space)

abbrev pub zero_ctx : ResumeCtx
zero_ctx = record {
  eax = 0;
  ebx = 0;
  ecx = 0;
  edx = 0;
  esi = 0;
  edi = 0;
  ebp = 0;
  eip = 0;
  esp = 0;
  eflags = 0;
}

abbrev pub zero_user : UserCtx
zero_user = record {
  entry_eip = 0;
  entry_esp = 0;
  image_base = 0;
  image_size = 0;
  stack_base = 0;
  stack_size = 0;
  last_user_eip = 0;
  last_fault_addr = 0;
  last_fault_err = 0;
  last_syscall_nr = 0;
  syscall_count = 0;
  fault_count = 0;
  cmdline_len = 0;
  cmdline = replicate 128 0;
  cwd_len = 0;
  cwd = replicate 96 0;
  exit_code = 0;
  exit_code_valid = false;
  fork_ctx = zero_ctx;
  fork_ctx_valid = false;
}

-- `memset(task, 0, sizeof(*task))`
abbrev pub zero_task : Task
zero_task = record {
  pid = 0;
  name = [];
  state = task_unused;
  user_mode = false;
  esp = nowhere;
  stack_base = 0;
  stack_size = 0;
  entry = 0;
  arg = 0;
  wake_tick = 0;
  timeslice_left = 0;
  switches = 0;
  ticks_run = 0;
  preemptions = 0;
  parent_pid = 0;
  wait_target_pid = 0;
  fd_table = replicate fd_max unused;
  user = zero_user;
  address_space = 0;
}

-- A slot given back.
abbrev pub cleared_task : Task
cleared_task = record zero_task { parent_pid = minus_one; address_space = kernel_space }

abbrev pub in_state : Task → TaskState → Bool
in_state t s = state_code t.state == state_code s

abbrev pub task_at : Sched → ℕ → Task
task_at s i = get_or s.tasks i zero_task

abbrev pub put_task : ℕ → Task → Sched → Sched
put_task i t s = record s { tasks = set s.tasks i t }

abbrev pub add_effect : Effect → Sched → Sched
add_effect e s = record s { effects = e ∷ s.effects }

abbrev pub is_index : Option ℕ → ℕ → Bool
is_index none i = false
is_index (some c) i = c == i
