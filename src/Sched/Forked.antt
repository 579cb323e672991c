-- ===== src/Sched/Forked.antt =====
-- The fork of kernel/sched.c, on every branch.
use skez_os.Prelude.{
  ℕ, ◌^◌, ◌<◌, ◌≡◌, refl, sym, ap, ◌∙◌, inl, inr, Bool, true, false, Option, none, some, List, [],
  ◌∷◌, arith, ◌==◌, length, Bool-cases,
}
use mathlib.Core.Path.{subst}
use skez_os.Sched.{state_code, Task, Sched, task_at}
use skez_os.Sched.Calm.{at-put}
use skez_os.Prelude.{Status, ok, err, nomem, inval, notsup}
use skez_os.File.{FileOps}
use skez_os.Fd.{proc_fd_table_clone}
use skez_os.Fd.Owners.{Status-cases}
use skez_os.Sched.{ResumeCtx, cleared_task, add_effect, own_space}
use skez_os.Sched.Children.{sched_find_task_slot}
use skez_os.Sched.Spawn.{new_task, add_task}
use skez_os.Sched.Fork.{
  ensure_space, forked_user, fork_fds, fork_slot, fork_cloned, fork_ensured, fork_ranges,
  fork_current, enter_user, mark_ensured, mark_ranges, mark_current,
  sched_mark_current_task_user_bootstrap, sched_build_user_ranges, sched_fork_current_user_task,
}
use skez_os.Sched.Calls.{IsSched, IsQuiet, quiet-IsSched, quiet-code}
use skez_os.Sched.Born.{
  IsBorn, IsParent, no-IsBorn, effect-IsSched, free_slot, placed-IsBorn, cleared-IsSched,
  runs-IsParent,
}

module _ {W : Type 0} (vtable : ℕ → FileOps W) (parent : ℕ) (s : Sched) (d : IsSched s)
    (room : s.next_pid < 2 ^ 31) (p : IsParent parent s) where
  fork_fds-IsBorn :
      (slot : ℕ) (t c : Task) (ctx : ResumeCtx) (w : W)
      → slot < length s.tasks
      → state_code (task_at s slot).state ≡ 0
      → state_code t.state ≡ 1
      → t.pid ≡ s.next_pid
      → t.parent_pid ≡ parent
      → IsBorn parent s (fork_fds vtable slot t c ctx s w)
  unfolding fork_fds
  fork_fds-IsBorn slot t c ctx w lt free one pid up =
      elim (Status-cases (proc_fd_table_clone vtable c.fd_table w).0) [
        | inl e ↦
            rw (e, fork_fds)
              (placed-IsBorn parent s d room slot lt free
                (record t {
                  fd_table = (proc_fd_table_clone vtable c.fd_table w).1;
                  user = forked_user c.user ctx;
                })
                (proc_fd_table_clone vtable c.fd_table w).2 p one pid up)
        | inr (x, e) ↦
            rw (e, fork_fds)
              (no-IsBorn parent s x _ (proc_fd_table_clone vtable c.fd_table w).2 (
                effect-IsSched _ _ (
                  effect-IsSched _ (add_task slot cleared_task s)
                    (cleared-IsSched parent s d room slot lt free))))
      ]

  fork_slot-IsBorn :
      (slot : Option ℕ) (stack : ℕ) (t c : Task) (ctx : ResumeCtx) (w : W)
      → sched_find_task_slot s ≡ slot
      → state_code t.state ≡ 1
      → t.pid ≡ s.next_pid
      → t.parent_pid ≡ parent
      → IsBorn parent s (fork_slot vtable slot stack t c ctx s w)
  unfolding fork_slot
  fork_slot-IsBorn none stack t c ctx w e one pid up =
      no-IsBorn parent s nomem _ w (effect-IsSched _ s d)
  fork_slot-IsBorn (some slot) stack t c ctx w e one pid up =
      let (lt, free) = free_slot s slot e in
      elim (Bool-cases (stack == 0)) [
        | inl b ↦ rw b (no-IsBorn parent s nomem _ w (effect-IsSched _ s d))
        | inr b ↦ rw b (fork_fds-IsBorn slot t c ctx w lt free one pid up)
      ]

-- The parent gets an address space, and is else as it was.
abbrev Alike : (c : ℕ) → Sched → Sched → Type 0
Alike c s s' =
    IsSched s'
    × (s'.next_pid ≡ s.next_pid)
    × ((task_at s' c).pid ≡ (task_at s c).pid)
    × ((i : ℕ) → state_code (task_at s' i).state ≡ state_code (task_at s i).state)

ensure-Alike :
    (c : ℕ) (created : Status × ℕ) (s : Sched) → IsSched s → Alike c s (ensure_space c created s).1
unfolding ensure_space
ensure-Alike c (err x, a) s d = elim (Bool-cases (own_space (task_at s c).address_space)) [
  | inl e ↦ rw e (d, refl, refl, λ i. refl)
  | inr e ↦ rw e (d, refl, refl, λ i. refl)
]
ensure-Alike c (ok, a) s d = elim (Bool-cases (own_space (task_at s c).address_space)) [
  | inl e ↦ rw e (d, refl, refl, λ i. refl)
  | inr e ↦
      let t : Task = record (task_at s c) { address_space = a } in
      let q : IsQuiet (task_at s c) t = record {
        pid = refl;
        parent_pid = refl;
        wait_target_pid = refl;
        state = refl;
      } in
      rw e (
        quiet-IsSched s c t q d,
        refl,
        elim (at-put s c c t) [
          | inl same ↦ ap (λ u. u.pid) same
          | inr (same, here) ↦ ap (λ u. u.pid) here
        ],
        λ i. quiet-code s c i t q,
      )
]

module _ {W : Type 0} (vtable : ℕ → FileOps W) (entry : ℕ) (ctx : ResumeCtx) (stack : ℕ) where
  fork_cloned-IsBorn :
      (cloned : Status × ℕ) (c : ℕ) (s : Sched) (w : W)
      → IsSched s
      → state_code (task_at s c).state ≡ 2
      → s.next_pid < 2 ^ 31
      → IsBorn (task_at s c).pid s (fork_cloned vtable cloned c entry ctx stack s w)
  unfolding fork_cloned new_task
  fork_cloned-IsBorn (err e, a) c s w d two room = no-IsBorn (task_at s c).pid s e s w d
  fork_cloned-IsBorn (ok, child_as) c s w d two room =
      fork_slot-IsBorn vtable (task_at s c).pid s d room (runs-IsParent c s two)
        (sched_find_task_slot s) stack _ (task_at s c) ctx w refl refl refl refl

  Alike-IsBorn :
      (c : ℕ) (s s' : Sched) (out : Status × ℕ × Sched × W)
      → Alike c s s'
      → IsBorn (task_at s' c).pid s' out
      → IsBorn (task_at s c).pid s out
  Alike-IsBorn c s s' out (d, next, pid, codes) b = record {
    sched = b.sched;
    born = λ e.
        let (k, free, one, same, up) = b.born e in (k, sym (codes k) ∙ free, one, same, up ∙ pid);
    fresh = λ e. b.fresh e ∙ next;
  }

  fork_ensured-IsBorn :
      (ensured : Status × Sched) (had : Bool) (cloned : Status × ℕ) (c : ℕ) (s : Sched) (w : W)
      → IsSched s
      → Alike c s ensured.1
      → state_code (task_at s c).state ≡ 2
      → s.next_pid < 2 ^ 31
      → IsBorn (task_at s c).pid s (fork_ensured vtable ensured had cloned c entry ctx stack s w)
  unfolding fork_ensured
  fork_ensured-IsBorn (err e, s') had cloned c s w d alike two room =
      no-IsBorn (task_at s c).pid s e s w d
  fork_ensured-IsBorn (ok, s') true cloned c s w d (d', next, pid, codes) two room =
      Alike-IsBorn c s s' _ (d', next, pid, codes)
        (fork_cloned-IsBorn cloned c s' w d' (codes c ∙ two) (omega (arith, room, next)))
  fork_ensured-IsBorn (ok, s') false cloned c s w d (d', next, pid, codes) two room =
      Alike-IsBorn c s (add_effect _ s') _ (effect-IsSched _ s' d', next, pid, codes)
        (fork_cloned-IsBorn cloned c (add_effect _ s') w (effect-IsSched _ s' d') (codes c ∙ two)
          (omega (arith, room, next)))

  fork_current-IsBorn :
      (created cloned : Status × ℕ) (c : ℕ) (s : Sched) (w : W)
      → IsSched s
      → state_code (task_at s c).state ≡ 2
      → s.next_pid < 2 ^ 31
      → IsBorn (task_at s c).pid s (fork_current vtable (some c) entry ctx created cloned stack s w)
  unfolding fork_current
  fork_current-IsBorn created cloned c s w d two room = elim (Bool-cases (task_at s c).user_mode) [
    | inr e ↦ simp e (no-IsBorn (task_at s c).pid s notsup s w d)
    | inl e ↦ simp e (ranges (sched_build_user_ranges (task_at s c).user))
  ]
    where
      ranges :
          (rs : List (ℕ × ℕ))
          → IsBorn (task_at s c).pid s (fork_ranges vtable rs c entry ctx created cloned stack s w)
      ranges [] = no-IsBorn (task_at s c).pid s inval s w d
      ranges (r ∷ rs) =
          fork_ensured-IsBorn (ensure_space c created s) (own_space (task_at s c).address_space)
            cloned c s w d (ensure-Alike c created s d) two room

  -- In a state that keeps the scheduler's invariant and where fewer than 2^31 pids have been given
  -- out, `sched_fork_current_user_task` keeps the invariant on every branch, errors of paging, of the
  -- slot search, of kmalloc and of the clone of the descriptors included; on success the pid returned
  -- is the next pid, and a slot that was unused holds a runnable task with this pid and with the
  -- current task for its parent.
  pub sched_fork_current_user_task-IsBorn :
      (created cloned : Status × ℕ) (c : ℕ) (s : Sched) (w : W)
      → IsSched s
      → s.current ≡ some c
      → s.next_pid < 2 ^ 31
      → IsBorn
          (task_at s c).pid
          s
          (sched_fork_current_user_task vtable entry ctx created cloned stack s w)
  unfolding sched_fork_current_user_task
  sched_fork_current_user_task-IsBorn created cloned c s w d current room =
      let two : state_code (task_at s c).state ≡ 2 =
        subst (λ x. state_code (task_at s x).state ≡ 2) (ground (arith, current, d.current))
          d.running in
      subst
        (λ o. IsBorn (task_at s c).pid s (fork_current vtable o entry ctx created cloned stack s w))
        (sym current) (fork_current-IsBorn created cloned c s w d two room)

mark_ensured-IsSched :
    (ensured : Status × Sched) (c user_eip user_esp : ℕ) (s : Sched)
    → IsSched s
    → IsSched ensured.1
    → IsSched (mark_ensured ensured c user_eip user_esp s).1
unfolding mark_ensured enter_user
mark_ensured-IsSched (err e, s') c user_eip user_esp s d d' = d
mark_ensured-IsSched (ok, s') c user_eip user_esp s d d' = effect-IsSched _ _ (
    quiet-IsSched s' c _
      (record { pid = refl; parent_pid = refl; wait_target_pid = refl; state = refl }) d')

mark_ranges-IsSched :
    (ranges : List (ℕ × ℕ)) (c user_eip user_esp : ℕ) (created : Status × ℕ) (s : Sched)
    → IsSched s
    → IsSched (mark_ranges ranges c user_eip user_esp created s).1
unfolding mark_ranges
mark_ranges-IsSched [] c user_eip user_esp created s d = d
mark_ranges-IsSched (r ∷ rs) c user_eip user_esp created s d =
    mark_ensured-IsSched (ensure_space c created s) c user_eip user_esp s d
      (ensure-Alike c created s d).0

pub mark-IsSched :
    (user_eip user_esp : ℕ) (created : Status × ℕ) (s : Sched)
    → IsSched s
    → IsSched (sched_mark_current_task_user_bootstrap user_eip user_esp created s).1
unfolding sched_mark_current_task_user_bootstrap mark_current
mark-IsSched user_eip user_esp created s d =
    subst (λ o. IsSched (mark_current o user_eip user_esp created s).1) (sym d.current)
      (mark_ranges-IsSched (sched_build_user_ranges (task_at s d.runs).user) d.runs user_eip
        user_esp created s d)
