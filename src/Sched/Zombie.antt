-- ===== src/Sched/Zombie.antt =====
-- A task that becomes a zombie when it ends, in kernel/sched.c: its parent is woken if it waits.
use skez_os.Prelude.{
  ℕ, ◌⊎◌, ◌<◌, ◌≡◌, ◌≢◌, refl, sym, ap, ◌∙◌, inl, inr, true, false, some, arith, length-set,
}
use native.Mathlib.Decide.{ℕ_discrete}
use mathlib.Core.Path.{subst}
use skez_os.Sched.{state_code, Task, Sched, max_tasks, task_at, put_task}
use skez_os.Sched.Family.{IsFamily, IsCalm, IsCalm-refl}
use skez_os.Sched.Calm.{at-put, at-put_self, at-put_ne, live-place, IsReady}
use skez_os.Sched.States.{Ready}
use skez_os.Sched.{task_zombie, is_positive}
use skez_os.Sched.Children.{waits_for, woken, sched_find_task_by_pid}
use skez_os.Sched.Wait.{become_zombie}
use skez_os.Sched.Family.{calm-active, IsActive, IsWaitedBy, IsChange, change-IsFamily}
use skez_os.Sched.Reap.{UniquePids, sched_find_task_by_pid_lem}
use skez_os.Sched.Orphans.{IsLeaving, no_own_parent, leaving-childless}
use skez_os.Sched.Parent.{wake_parent, wake_parent-SameFrame, wake_parent-at, wake_parent-found}

-- A task that has ended: its slot is free, or it is a zombie.
abbrev pub IsDead : Task → Type 0
IsDead t = (state_code t.state ≡ 0) ⊎ (state_code t.state ≡ 5)

module _ {c p : ℕ} {s : Sched} (l : IsLeaving c p max_tasks s) where
  pub live : 0 < state_code (task_at s c).state
  live = omega (arith, l.running)

  -- The task `c` is nobody's parent.
  pub no_child :
      (i : ℕ)
      → 0 < state_code (task_at s i).state
      → (task_at s c).pid ≡ (task_at s i).parent_pid
      → ⊥
  no_child i h e = leaving-childless l i h (sym e ∙ l.pid)

  -- A task that runs is `c`.
  pub only_runs : (i : ℕ) → state_code (task_at s i).state ≡ 2 → i ≡ c
  only_runs i two = ground (arith, l.sched.ready.running i two, l.current)

  -- The task is a zombie, and its parent is woken if it waits for it.
  module _ (j : ℕ) (parent : IsActive (task_at s j))
      (same : (task_at s j).pid ≡ (task_at s c).parent_pid) where
    abbrev pub zombie : Task
    zombie = record (task_at s c) { state = task_zombie }

    abbrev pub after : Sched
    after = wake_parent (task_at s c).pid j (put_task c zombie s)

    parent-other : j ≢ c
    parent-other e =
        no_own_parent c l.sched.ready.family live (sym same ∙ ap (λ x. (task_at s x).pid) e)

    parent-same : task_at (put_task c zombie s) j ≡ task_at s j
    parent-same = at-put_ne s c j zombie parent-other

    pub after_self : task_at after c ≡ zombie
    after_self = elim (wake_parent-at (task_at s c).pid j c (put_task c zombie s)) [
      | inl (e, n) ↦ e ∙ at-put_self s c zombie (live-place s c live)
      | inr (e, waits, woke) ↦ absurd (parent-other (sym e))
    ]

    after-IsCalm : (i : ℕ) → i ≢ c → IsCalm (task_at s i) (task_at after i)
    after-IsCalm i n = elim (wake_parent-at (task_at s c).pid j i (put_task c zombie s)) [
      | inl (e, m) ↦
          subst (IsCalm (task_at s i)) (sym (e ∙ at-put_ne s c i zombie n))
            (IsCalm-refl (task_at s i))
      | inr (e, waits, woke) ↦
          let four : state_code (task_at s j).state ≡ 4 =
            sym (ap (λ u. state_code u.state) parent-same) ∙ (ground (arith, waits)) in
          let woken_same : task_at after i ≡ woken (task_at s j) = woke ∙ ap woken parent-same in
          subst (IsCalm (task_at s i)) (sym woken_same) (
            subst (λ x. IsCalm (task_at s x) (woken (task_at s j))) (sym e)
              (record {
                pid = refl;
                parent_pid = refl;
                wait_target_pid = refl;
                state = inr (omega (arith, four), omega (arith, four), omega arith, omega arith);
              }))
    ]

    -- A task that waits for the zombie is its parent, which has been woken.
    not_waited :
        (i : ℕ)
        → i ≢ c
        → state_code (task_at after i).state ≡ 4
        → ¬ IsWaitedBy (task_at s i) (task_at s c)
    not_waited i n four w = elim (wake_parent-at (task_at s c).pid j i (put_task c zombie s)) [
      | inr (e, waits, woke) ↦ absurd (omega (arith, four, ap (λ u. state_code u.state) woke))
      | inl (e, m) ↦
          let was : state_code (task_at s i).state ≡ 4 =
            sym (ap (λ u. state_code u.state) (e ∙ at-put_ne s c i zombie n)) ∙ four in
          let i_is_j : i ≡ j =
            l.sched.ready.family.unique i j (omega (arith, was)) parent.0 (sym w.0 ∙ sym same) in
          let no_wait : waits_for (task_at s c).pid (task_at s j) ≡ false =
            subst (λ t. waits_for (task_at s c).pid t ≡ false) parent-same (m i_is_j) in
          let w' : IsWaitedBy (task_at s j) (task_at s c) =
            subst (λ x. IsWaitedBy (task_at s x) (task_at s c)) i_is_j w in
          let was' : state_code (task_at s j).state ≡ 4 =
            subst (λ x. state_code (task_at s x).state ≡ 4) i_is_j was in
          absurd (ground (arith, no_wait, w', was'))
    ]

    older : (task_at s c).parent_pid < (task_at s c).pid
    older =
        let f = l.sched.ready.family in
        elim (f.family c live) [
          | inl (none_left, z) ↦
              absurd (omega (arith, none_left, same, f.bounds j parent.0, f.room))
          | inr (k, a, e, lt) ↦ lt
        ]

    zombie-IsChange : IsChange c (task_at s) (task_at after)
    zombie-IsChange =
        let f = l.sched.ready.family in
        let code : state_code (task_at after c).state ≡ 5 =
          ap (λ u. state_code u.state) after_self in
        let pid : (task_at after c).pid ≡ (task_at s c).pid = ap (λ u. u.pid) after_self in
        let up : (task_at after c).parent_pid ≡ (task_at s c).parent_pid =
          ap (λ u. u.parent_pid) after_self in
        record {
          calm = after-IsCalm;
          same_pid = λ h. (live, pid);
          has_parent = λ h. inr (
            j,
            calm-active (after-IsCalm j parent-other) parent,
            (after-IsCalm j parent-other).pid ∙ same ∙ sym up,
            omega (arith, older, up, pid),
          );
          stays_parent = λ i n h a e. absurd (no_child i h e);
          stays_waited = λ i n four a w. absurd (not_waited i n four w);
          still_waits = λ four. absurd (omega (arith, four, code));
        }

    dead-pid :
        (i : ℕ)
        → ((task_at (put_task c zombie s) i).pid ≡ (task_at s i).pid)
          × (0 < state_code (task_at (put_task c zombie s) i).state
              → 0 < state_code (task_at s i).state)
    dead-pid i = elim (at-put s c i zombie) [
      | inl e ↦ (ap (λ u. u.pid) e, λ h. omega (arith, h, ap (λ u. state_code u.state) e))
      | inr (e, here) ↦ (
        ap (λ u. u.pid) here ∙ ap (λ x. (task_at s x).pid) (sym e),
        λ h. subst (λ x. 0 < state_code (task_at s x).state) (sym e) live,
      )
    ]

    dead-UniquePids : UniquePids (put_task c zombie s)
    dead-UniquePids i k hi hk e =
        l.sched.ready.family.unique i k ((dead-pid i).1 hi) ((dead-pid k).1 hk)
          (sym (dead-pid i).0 ∙ e ∙ (dead-pid k).0)

    pub become_zombie-wakes :
        is_positive (task_at s c).parent_pid ≡ true → become_zombie c s ≡ after
    unfolding become_zombie
    become_zombie-wakes positive =
        let found =
          subst (λ t. sched_find_task_by_pid t.pid (put_task c zombie s) ≡ some j) parent-same
            (sched_find_task_by_pid_lem (put_task c zombie s) j dead-UniquePids
              (subst (λ t. 0 < state_code t.state) (sym parent-same) parent.0)) in
        wake_parent-found (task_at s c).parent_pid (task_at s c).pid j (put_task c zombie s)
          positive (subst (λ x. sched_find_task_by_pid x (put_task c zombie s) ≡ some j) same found)

    zombie-state :
        (i : ℕ)
        → (state_code (task_at after i).state ≢ 2)
          × (i ≢ c → Ready (task_at s i) → Ready (task_at after i))
    zombie-state i = elim (wake_parent-at (task_at s c).pid j i (put_task c zombie s)) [
      | inr (e, waits, woke) ↦ (
        λ two. absurd (omega (arith, two, ap (λ u. state_code u.state) woke)),
        λ n h. subst Ready (sym woke) (omega arith, omega arith),
      )
      | inl (e, m) ↦ elim (ℕ_discrete i c) [
        | yes here ↦ (
          λ two. absurd (
              omega (
                arith,
                two,
                ap (λ x. state_code (task_at after x).state) here,
                ap (λ u. state_code u.state) after_self,
              )),
          λ n h. absurd (n here),
        )
        | no n ↦
            let before : task_at after i ≡ task_at s i = e ∙ at-put_ne s c i zombie n in
            (
              λ two. n (only_runs i (sym (ap (λ u. state_code u.state) before) ∙ two)),
              λ m' h. subst Ready (sym before) h,
            )
      ]
    ]

    pub zombie-IsReady : IsReady after
    zombie-IsReady =
        let frame = wake_parent-SameFrame (task_at s c).pid j (put_task c zombie s) in
        let r = l.sched.ready in
        record {
          size = frame.size ∙ length-set s.tasks c zombie ∙ r.size;
          family =
              subst (λ n. IsFamily n (task_at after)) (sym frame.next_pid)
                (change-IsFamily zombie-IsChange r.family);
          out = frame.out ∙ r.out;
          running = λ i two. absurd ((zombie-state i).0 two);
          idle_task = r.idle_task;
          idle = frame.idle ∙ r.idle;
          idle_ready = (zombie-state r.idle_task).1 (λ e. l.busy (r.idle ∙ ap some e)) r.idle_ready;
        }
