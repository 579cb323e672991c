-- ===== src/Sched/Fork.antt =====
-- kernel/sched.c: the fork of a user task, and the start of user mode. What `kmalloc` and paging return
-- is an argument.
use skez_os.Prelude.{
  ℕ, ◌+◌, Bool, true, false, Option, none, some, List, [], ◌∷◌, ◌++◌, ◌==◌, if◌then◌else◌, Status,
  ok, err, inval, nomem, notsup,
}
use skez_os.File.{FileOps}
use skez_os.Fd.{proc_fd_table_clone}
use skez_os.Sched.{
  ResumeCtx, UserCtx, Task, Sched, freed, destroyed, activated, default_stack, minus_one, own_space,
  zero_user, cleared_task, task_at, put_task, add_effect,
}
use skez_os.Sched.Children.{sched_find_task_slot}
use skez_os.Sched.Spawn.{sched_init_task_cwd, copy_prefix, copy_cwd, new_task, add_task}

-- The ranges that paging maps for a user task, none for -KERR_INVAL.
unfoldable pub sched_build_user_ranges : UserCtx → List (ℕ × ℕ)
sched_build_user_ranges u =
    let image = if u.image_size == 0 then [] else (u.image_base, u.image_size) ∷ [] in
    image ++ (if u.stack_size == 0 then [] else (u.stack_base, u.stack_size) ∷ [])

-- `created` is what `paging_create_user_address_space` returns.
unfoldable pub ensure_space : (c : ℕ) (created : Status × ℕ) → Sched → Status × Sched
ensure_space c created s =
    if own_space (task_at s c).address_space then (ok, s) else elim created.0 [
      | err e ↦ (err e, s)
      | ok ↦ (ok, put_task c (record (task_at s c) { address_space = created.1 }) s)
    ]

abbrev pub forked_user : UserCtx → ResumeCtx → UserCtx
unfolding sched_init_task_cwd
forked_user u ctx =
    let start = sched_init_task_cwd zero_user in
    record (copy_cwd u start) {
      image_base = u.image_base;
      image_size = u.image_size;
      stack_base = u.stack_base;
      stack_size = u.stack_size;
      cmdline_len = u.cmdline_len;
      cmdline = copy_prefix (u.cmdline_len + 1) u.cmdline zero_user.cmdline;
      entry_eip = ctx.eip;
      entry_esp = ctx.esp;
      last_user_eip = ctx.eip;
      fork_ctx = record ctx { eax = 0 };
      fork_ctx_valid = true;
    }

module _ {W : Type 0} (vtable : ℕ → FileOps W) where
  -- From the clone of the descriptors on: the child in its slot, or what it was given given back.
  unfoldable pub fork_fds :
      (slot : ℕ) (child parent : Task) → ResumeCtx → Sched → W → Status × ℕ × Sched × W
  unfolding add_task
  fork_fds slot t p ctx s w =
      let (rc, fds, w') = proc_fd_table_clone vtable p.fd_table w in
      elim rc [
        | ok ↦ (
          ok,
          t.pid,
          add_task slot (record t { fd_table = fds; user = forked_user p.user ctx }) s,
          w',
        )
        | err e ↦ (
          err e,
          minus_one,
          add_effect (freed t.stack_base)
              (add_effect (destroyed t.address_space) (add_task slot cleared_task s)),
          w',
        )
      ]

  -- From the search for a slot on, the child's address space in hand.
  unfoldable pub fork_slot :
      (slot : Option ℕ) (stack : ℕ) (child parent : Task)
      → ResumeCtx
      → Sched
      → W
      → Status × ℕ × Sched × W
  unfolding fork_fds
  fork_slot none stack t p ctx s w =
      (err nomem, minus_one, add_effect (destroyed t.address_space) s, w)
  fork_slot (some slot) stack t p ctx s w =
      if stack == 0
      then (err nomem, minus_one, add_effect (destroyed t.address_space) s, w)
      else fork_fds slot t p ctx s w

  -- `cloned` is what `paging_clone_address_space_cow` returns.
  unfoldable pub fork_cloned :
      (cloned : Status × ℕ) (c entry : ℕ)
      → ResumeCtx
      → (stack : ℕ) → Sched
      → W
      → Status × ℕ × Sched × W
  unfolding fork_slot new_task
  fork_cloned (err e, a) c entry ctx stack s w = (err e, minus_one, s, w)
  fork_cloned (ok, child_as) c entry ctx stack s w =
      fork_slot (sched_find_task_slot s) stack
        (new_task s.next_pid (some (task_at s c).name) true entry 0 stack default_stack
          (task_at s c).pid child_as)
        (task_at s c) ctx s w

  -- `ensured` is the parent with an address space of its own, `had` whether it had one.
  unfoldable pub fork_ensured :
      (ensured : Status × Sched) (had : Bool) (cloned : Status × ℕ) (c entry : ℕ)
      → ResumeCtx
      → (stack : ℕ) → Sched
      → W
      → Status × ℕ × Sched × W
  unfolding fork_cloned
  fork_ensured (err e, s') had cloned c entry ctx stack s w = (err e, minus_one, s, w)
  fork_ensured (ok, s') true cloned c entry ctx stack s w =
      fork_cloned cloned c entry ctx stack s' w
  fork_ensured (ok, s') false cloned c entry ctx stack s w =
      fork_cloned cloned c entry ctx stack (add_effect (activated (task_at s' c).address_space) s')
        w

  -- From the ranges that paging maps on.
  unfoldable pub fork_ranges :
      (ranges : List (ℕ × ℕ)) (c entry : ℕ)
      → ResumeCtx
      → (created cloned : Status × ℕ) (stack : ℕ) → Sched
      → W
      → Status × ℕ × Sched × W
  unfolding ensure_space fork_ensured
  fork_ranges [] c entry ctx created cloned stack s w = (err inval, minus_one, s, w)
  fork_ranges (r ∷ rs) c entry ctx created cloned stack s w =
      fork_ensured (ensure_space c created s) (own_space (task_at s c).address_space) cloned c entry
        ctx stack s w

  unfoldable pub fork_current :
      (current : Option ℕ) (entry : ℕ)
      → ResumeCtx
      → (created cloned : Status × ℕ) (stack : ℕ) → Sched
      → W
      → Status × ℕ × Sched × W
  unfolding sched_build_user_ranges fork_ranges
  fork_current none entry ctx created cloned stack s w = (err notsup, minus_one, s, w)
  fork_current (some c) entry ctx created cloned stack s w =
      if (task_at s c).user_mode
      then fork_ranges (sched_build_user_ranges (task_at s c).user) c entry ctx created cloned stack
          s w
      else (err notsup, minus_one, s, w)

  -- `entry` is the address of `sched_user_fork_child_entry`.
  unfoldable pub sched_fork_current_user_task :
      (entry : ℕ)
      → ResumeCtx
      → (created cloned : Status × ℕ) (stack : ℕ) → Sched
      → W
      → Status × ℕ × Sched × W
  unfolding fork_current
  sched_fork_current_user_task entry ctx created cloned stack s w =
      fork_current s.current entry ctx created cloned stack s w

-- The current task in user mode, in its address space.
unfoldable pub enter_user : (c user_eip user_esp : ℕ) → Sched → Sched
enter_user c user_eip user_esp s = add_effect (activated (task_at s c).address_space) (
    put_task c
      (record (task_at s c) {
        user_mode = true;
        user = record (task_at s c).user {
          entry_eip = user_eip;
          entry_esp = user_esp;
          last_user_eip = user_eip;
        };
      })
      s)

unfoldable pub mark_ensured :
    (ensured : Status × Sched) (c user_eip user_esp : ℕ) → Sched → Status × Sched
unfolding enter_user
mark_ensured (err e, s') c user_eip user_esp s = (err e, s)
mark_ensured (ok, s') c user_eip user_esp s = (ok, enter_user c user_eip user_esp s')

unfoldable pub mark_ranges :
    (ranges : List (ℕ × ℕ)) (c user_eip user_esp : ℕ) (created : Status × ℕ)
    → Sched
    → Status × Sched
unfolding ensure_space mark_ensured
mark_ranges [] c user_eip user_esp created s = (err inval, s)
mark_ranges (r ∷ rs) c user_eip user_esp created s =
    mark_ensured (ensure_space c created s) c user_eip user_esp s

unfoldable pub mark_current :
    (current : Option ℕ) (user_eip user_esp : ℕ) (created : Status × ℕ) → Sched → Status × Sched
unfolding sched_build_user_ranges mark_ranges
mark_current none user_eip user_esp created s = (err inval, s)
mark_current (some c) user_eip user_esp created s =
    mark_ranges (sched_build_user_ranges (task_at s c).user) c user_eip user_esp created s

unfoldable pub sched_mark_current_task_user_bootstrap :
    (user_eip user_esp : ℕ) (created : Status × ℕ) → Sched → Status × Sched
unfolding mark_current
sched_mark_current_task_user_bootstrap user_eip user_esp created s =
    mark_current s.current user_eip user_esp created s
