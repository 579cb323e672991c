-- ===== src/Sched/Born.antt =====
-- The calls of kernel/sched.c that make a task, on every branch.
use skez_os.Prelude.{
  ℕ, zero, suc, ◌+◌, ◌-◌, ◌%◌, ◌^◌, ◌≤◌, ◌<◌, ◌≡◌, ◌≢◌, refl, sym, ap, ◌∙◌, ◌⊎◌, inl, inr, Bool,
  true, false, not, ◌&&◌, ◌||◌, Option, none, some, List, [], ◌∷◌, map, arith, leb, ltb, ◌==◌,
  ==_iff, if◌then◌else◌, length, length-set, length-map, get_or, set, get_or-set_self,
  get_or-set_ne, Bool-cases, Option-cases,
}
use mathlib.Core.Path.{subst}
use skez_os.Sched.{state_code, Task, Sched, zero_task, in_state, task_at, put_task}
use skez_os.Sched.Calm.{at-put_self}
use skez_os.Prelude.Lists.{find_first-FirstFound, FirstFound}
use skez_os.Prelude.{Status, ok, err, Errno, nomem}
use skez_os.File.{FileOps}
use skez_os.Fd.{Table, proc_fd_table_clone}
use skez_os.Fd.Owners.{Status-cases}
use skez_os.Sched.{task_unused, cleared_task, minus_one, add_effect, Effect}
use skez_os.Sched.Children.{sched_find_task_slot}
use skez_os.Sched.Spawn.{
  new_task, copy_cwd, add_task, inherits, add_with_fds, spawn_inheriting, spawn_slot,
  sched_spawn_task_internal, spawn_child, sched_spawn_user_child_task,
}
use skez_os.Sched.Family.{IsActive}
use skez_os.Sched.Calls.{IsSched, unread-IsSched}
use skez_os.Sched.Join.{IsNew, nothing, alone, child, add_task-IsSched}

-- A call that makes a child of `parent`: on success the new task is runnable in a slot that was free,
-- with the pid returned, which no task had.
pub record IsBorn {W : Type 0} (parent : ℕ) (s : Sched) (out : Status × ℕ × Sched × W)
    : Type 0 where
  pub sched : IsSched out.2
  pub born :
      out.0 ≡ ok
      → (k : ℕ) × (state_code (task_at s k).state ≡ 0)
        × (state_code (task_at out.2 k).state ≡ 1)
        × ((task_at out.2 k).pid ≡ out.1)
        × ((task_at out.2 k).parent_pid ≡ parent)
  pub fresh : out.0 ≡ ok → out.1 ≡ s.next_pid

-- The caller, or no task, is the parent.
abbrev pub IsParent : ℕ → Sched → Type 0
IsParent parent s =
    (parent ≡ minus_one) ⊎ ((j : ℕ) × IsActive (task_at s j) × ((task_at s j).pid ≡ parent))

-- An error.
pub no-IsBorn :
    {W : Type 0} (parent : ℕ) (s : Sched) (e : Errno) (s' : Sched) (w : W)
    → IsSched s'
    → IsBorn parent s (err e, minus_one, s', w)
no-IsBorn parent s e s' w d = record { sched = d; born = λ done. cc; fresh = λ done. cc }

-- What is handed over changes nothing else.
pub effect-IsSched : (e : Effect) (s : Sched) → IsSched s → IsSched (add_effect e s)
effect-IsSched e s d = unread-IsSched refl refl refl refl refl refl d

pub free_slot :
    (s : Sched) (slot : ℕ)
    → sched_find_task_slot s ≡ some slot
    → (slot < length s.tasks) × (state_code (task_at s slot).state ≡ 0)
unfolding sched_find_task_slot
free_slot s slot e =
    let found =
      subst (FirstFound (λ t. in_state t task_unused) zero_task s.tasks) e
        (find_first-FirstFound (λ t. in_state t task_unused) zero_task s.tasks) in
    (found.0, ground (arith, found.1))

make-IsNew :
    (s : Sched) (t : Task) (parent : ℕ)
    → IsParent parent s
    → state_code t.state ≡ 1
    → t.pid ≡ s.next_pid
    → t.parent_pid ≡ parent
    → IsNew s t
make-IsNew s t parent (inl none_left) one pid up = alone one pid (up ∙ none_left)
make-IsNew s t parent (inr (j, a, same)) one pid up = child j one pid a (same ∙ sym up)

module _ (parent : ℕ) (s : Sched) (d : IsSched s) (room : s.next_pid < 2 ^ 31) (slot : ℕ)
    (lt : slot < length s.tasks) (free : state_code (task_at s slot).state ≡ 0) where
  pub placed-IsBorn :
      {W : Type 0} (t : Task) (w : W)
      → IsParent parent s
      → state_code t.state ≡ 1
      → t.pid ≡ s.next_pid
      → t.parent_pid ≡ parent
      → IsBorn parent s (ok, t.pid, add_task slot t s, w)
  unfolding add_task
  placed-IsBorn t w p one pid up =
      let here : task_at (put_task slot t s) slot ≡ t = at-put_self s slot t lt in
      record {
        sched = add_task-IsSched s slot t d.ready free (make-IsNew s t parent p one pid up) room d;
        born = λ e. (
          slot,
          free,
          ap (λ u. state_code u.state) here ∙ one,
          ap (λ u. u.pid) here,
          ap (λ u. u.parent_pid) here ∙ up,
        );
        fresh = λ e. pid;
      }

  pub cleared-IsSched : IsSched (add_task slot cleared_task s)
  cleared-IsSched = add_task-IsSched s slot cleared_task d.ready free (nothing refl) room d

module _ {W : Type 0} (vtable : ℕ → FileOps W) (parent : ℕ) (s : Sched) (d : IsSched s)
    (room : s.next_pid < 2 ^ 31) (p : IsParent parent s) where
  add_with_fds-IsBorn :
      (slot : ℕ) (t : Task) (src : Table) (w : W)
      → slot < length s.tasks
      → state_code (task_at s slot).state ≡ 0
      → state_code t.state ≡ 1
      → t.pid ≡ s.next_pid
      → t.parent_pid ≡ parent
      → IsBorn parent s (add_with_fds vtable slot t src s w)
  unfolding add_with_fds
  add_with_fds-IsBorn slot t src w lt free one pid up =
      elim (Status-cases (proc_fd_table_clone vtable src w).0) [
        | inl e ↦
            rw (e, add_with_fds)
              (placed-IsBorn parent s d room slot lt free
                (record t { fd_table = (proc_fd_table_clone vtable src w).1 })
                (proc_fd_table_clone vtable src w).2 p one pid up)
        | inr (x, e) ↦
            rw (e, add_with_fds)
              (no-IsBorn parent s x _ (proc_fd_table_clone vtable src w).2 (
                effect-IsSched _ (add_task slot cleared_task s)
                  (cleared-IsSched parent s d room slot lt free)))
      ]

  spawn_inheriting-IsBorn :
      (caller : Option Task) (inherit_fds : Bool) (slot : ℕ) (t : Task) (w : W)
      → slot < length s.tasks
      → state_code (task_at s slot).state ≡ 0
      → state_code t.state ≡ 1
      → t.pid ≡ s.next_pid
      → t.parent_pid ≡ parent
      → IsBorn parent s (spawn_inheriting vtable caller inherit_fds slot t s w)
  unfolding spawn_inheriting
  spawn_inheriting-IsBorn none inherit_fds slot t w lt free one pid up =
      placed-IsBorn parent s d room slot lt free t w p one pid up
  spawn_inheriting-IsBorn (some c) false slot t w lt free one pid up =
      placed-IsBorn parent s d room slot lt free (record t { user = copy_cwd c.user t.user }) w p
        one pid up
  spawn_inheriting-IsBorn (some c) true slot t w lt free one pid up =
      add_with_fds-IsBorn slot (record t { user = copy_cwd c.user t.user }) c.fd_table w lt free one
        pid up

  spawn_slot-IsBorn :
      (slot : Option ℕ) (stack : ℕ) (inherit_fds : Bool) (t : Task) (w : W)
      → sched_find_task_slot s ≡ slot
      → state_code t.state ≡ 1
      → t.pid ≡ s.next_pid
      → t.parent_pid ≡ parent
      → IsBorn parent s (spawn_slot vtable slot stack inherit_fds t s w)
  unfolding spawn_slot
  spawn_slot-IsBorn none stack inherit_fds t w e one pid up = no-IsBorn parent s nomem s w d
  spawn_slot-IsBorn (some slot) stack inherit_fds t w e one pid up =
      let (lt, free) = free_slot s slot e in
      elim (Bool-cases (stack == 0)) [
        | inl b ↦ rw b (no-IsBorn parent s nomem s w d)
        | inr b ↦ rw b (
            spawn_inheriting-IsBorn (inherits t.parent_pid s.current s) inherit_fds slot t w lt free
              one pid up)
      ]

  pub sched_spawn_task_internal-IsBorn :
      (name : Option (List ℕ)) (entry arg stack_size : ℕ) (inherit_fds : Bool) (stack : ℕ) (w : W)
      → IsBorn parent s
          (sched_spawn_task_internal vtable name entry arg stack_size parent inherit_fds stack s w)
  unfolding sched_spawn_task_internal new_task
  sched_spawn_task_internal-IsBorn name entry arg stack_size inherit_fds stack w =
      elim (Bool-cases (entry == 0)) [
        | inl e ↦ rw e (no-IsBorn parent s skez_os.Prelude.Errno.inval s w d)
        | inr e ↦
            rw e
              (spawn_slot-IsBorn (sched_find_task_slot s) stack inherit_fds _ w refl refl refl refl)
      ]

-- The current task may be a parent.
pub runs-IsParent :
    (c : ℕ) (s : Sched) → state_code (task_at s c).state ≡ 2 → IsParent (task_at s c).pid s
runs-IsParent c s two = inr (c, (omega (arith, two), omega (arith, two)), refl)

spawn_child-IsBorn :
    {W : Type 0} (vtable : ℕ → FileOps W) (name : Option (List ℕ)) (entry arg stack_size : ℕ)
    (inherit_fds : Bool) (stack : ℕ) (c : ℕ) (s : Sched) (w : W)
    → IsSched s
    → state_code (task_at s c).state ≡ 2
    → s.next_pid < 2 ^ 31
    → IsBorn
        (task_at s c).pid
        s
        (spawn_child vtable (some c) name entry arg stack_size inherit_fds stack s w)
unfolding spawn_child
spawn_child-IsBorn vtable name entry arg stack_size inherit_fds stack c s w d two room =
    elim (Bool-cases (task_at s c).user_mode) [
      | inr e ↦ simp e (no-IsBorn (task_at s c).pid s skez_os.Prelude.Errno.notsup s w d)
      | inl e ↦ simp e (
          sched_spawn_task_internal-IsBorn vtable (task_at s c).pid s d room (runs-IsParent c s two)
            name entry arg stack_size inherit_fds stack w)
    ]

pub sched_spawn_user_child_task-IsBorn :
    {W : Type 0} (vtable : ℕ → FileOps W) (name : Option (List ℕ)) (entry arg stack_size : ℕ)
    (inherit_fds : Bool) (stack : ℕ) (c : ℕ) (s : Sched) (w : W)
    → IsSched s
    → s.current ≡ some c
    → s.next_pid < 2 ^ 31
    → IsBorn
        (task_at s c).pid
        s
        (sched_spawn_user_child_task vtable name entry arg stack_size inherit_fds stack s w)
unfolding sched_spawn_user_child_task
sched_spawn_user_child_task-IsBorn vtable name entry arg stack_size inherit_fds stack c s w d
      current room =
    let two : state_code (task_at s c).state ≡ 2 =
      subst (λ x. state_code (task_at s x).state ≡ 2) (ground (arith, current, d.current))
        d.running in
    subst
      (λ o.
        IsBorn (task_at s c).pid s
          (spawn_child vtable o name entry arg stack_size inherit_fds stack s w))
      (sym current)
      (spawn_child-IsBorn vtable name entry arg stack_size inherit_fds stack c s w d two room)
