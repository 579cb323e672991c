-- ===== src/Sched/Join.antt =====
-- New tasks in kernel/sched.c: they join the process tree as children of the current task, or of none.
use skez_os.Prelude.{ℕ, ◌+◌, ◌^◌, ◌<◌, ◌≡◌, ◌≢◌, sym, ap, ◌∙◌, ◌⊎◌, inl, inr, arith, length-set}
use mathlib.Core.Path.{subst}
use skez_os.Sched.{state_code, Task, Sched, task_at, put_task}
use skez_os.Sched.Family.{IsFamily}
use skez_os.Sched.Calm.{at-put, at-put_ne, IsReady}
use skez_os.Sched.States.{Ready}
use skez_os.Sched.{minus_one}
use skez_os.Sched.Spawn.{add_task}
use skez_os.Sched.Family.{IsActive, IsWaitedBy, HasParent}
use skez_os.Sched.Calls.{IsSched}

-- What may be put into a free slot when a pid is taken: a new task, or nothing.
pub data IsNew (s : Sched) (t : Task) : Type 0 where
  nothing : state_code t.state ≡ 0 → IsNew s t
  alone : state_code t.state ≡ 1 → t.pid ≡ s.next_pid → t.parent_pid ≡ minus_one → IsNew s t
  child :
      (j : ℕ)
      → state_code t.state ≡ 1
      → t.pid ≡ s.next_pid
      → IsActive (task_at s j)
      → (task_at s j).pid ≡ t.parent_pid
      → IsNew s t

new-state : {s : Sched} {t : Task} → IsNew s t → state_code t.state < 2
new-state (nothing e) = omega (arith, e)
new-state (alone e _ _) = omega (arith, e)
new-state (child j e _ _ _) = omega (arith, e)

new-pid : {s : Sched} {t : Task} → IsNew s t → 0 < state_code t.state → t.pid ≡ s.next_pid
new-pid (nothing e) h = absurd (omega (arith, e, h))
new-pid (alone _ e _) h = e
new-pid (child j _ e _ _) h = e

module _ (s : Sched) (slot : ℕ) (t : Task) (f : IsFamily s.next_pid (task_at s))
    (free : state_code (task_at s slot).state ≡ 0) (new : IsNew s t)
    (room : s.next_pid < 2 ^ 31) where
  abbrev put : Sched
  put = put_task slot t s

  -- A task that was in the table is in it.
  pub was-there : (i : ℕ) → 0 < state_code (task_at s i).state → task_at put i ≡ task_at s i
  was-there i h =
      at-put_ne s slot i t
        (λ e. absurd (omega (arith, h, free, ap (λ x. state_code (task_at s x).state) e)))

  new-family :
      (u : Task)
      → IsNew s u
      → 0 < state_code u.state
      → ((u.parent_pid ≡ minus_one) × (state_code u.state ≢ 5)) ⊎ HasParent (task_at put) u
  new-family u (nothing e) h = absurd (omega (arith, e, h))
  new-family u (alone e p none_left) h = inl (none_left, omega (arith, e))
  new-family u (child j e p a same) h =
      let there = was-there j a.0 in
      inr (
        j,
        subst IsActive (sym there) a,
        ap (λ v. v.pid) there ∙ same,
        omega (arith, p, same, f.bounds j a.0),
      )

  abbrev Joined : ℕ → Type 0
  Joined i =
      ((0 < state_code (task_at s i).state)
        × ((task_at put i).pid ≡ (task_at s i).pid)
        × ((task_at s i).pid < s.next_pid))
      ⊎ ((i ≡ slot) × ((task_at put i).pid ≡ s.next_pid))

  old-or-new : (i : ℕ) → 0 < state_code (task_at put i).state → Joined i
  old-or-new i h = elim (at-put s slot i t) [
    | inl e ↦
        let live = subst (λ u. 0 < state_code u.state) e h in
        inl (live, ap (λ u. u.pid) e, (f.bounds i live).1)
    | inr (same, e) ↦
        inr (same, ap (λ u. u.pid) e ∙ new-pid new (subst (λ u. 0 < state_code u.state) e h))
  ]

  one-pid : (i j : ℕ) → Joined i → Joined j → (task_at put i).pid ≡ (task_at put j).pid → i ≡ j
  one-pid i j (inl (a, p, b)) (inl (a', p', b')) e = f.unique i j a a' (sym p ∙ e ∙ p')
  one-pid i j (inl (a, p, b)) (inr (same, p')) e = absurd (omega (arith, p, b, p', e))
  one-pid i j (inr (same, p)) (inl (a', p', b')) e = absurd (omega (arith, p, p', b', e))
  one-pid i j (inr (same, p)) (inr (same', p')) e = same ∙ sym same'

  pub add-IsFamily : IsFamily (s.next_pid + 1) (task_at put)
  add-IsFamily = record {
    room = (omega arith, omega (arith, room));
    bounds = λ i h. elim (at-put s slot i t) [
      | inl e ↦
          let b = f.bounds i (subst (λ u. 0 < state_code u.state) e h) in
          subst (λ u. (0 < u.pid) × (u.pid < s.next_pid + 1)) (sym e) (b.0, omega (arith, b))
      | inr (same, e) ↦
          let p = new-pid new (subst (λ u. 0 < state_code u.state) e h) in
          subst (λ u. (0 < u.pid) × (u.pid < s.next_pid + 1)) (sym e)
            (omega (arith, p, f.room), omega (arith, p))
    ];
    unique = λ i j hi hj e. one-pid i j (old-or-new i hi) (old-or-new j hj) e;
    family = λ i h. elim (at-put s slot i t) [
      | inl e ↦
          let live = subst (λ u. 0 < state_code u.state) e h in
          subst
            (λ u.
              ((u.parent_pid ≡ minus_one) × (state_code u.state ≢ 5)) ⊎ HasParent (task_at put) u)
            (sym e)
            (elim (f.family i live) [
              | inl z ↦ inl z
              | inr (j, a, same, older) ↦
                  let there = was-there j a.0 in
                  inr (j, subst IsActive (sym there) a, ap (λ v. v.pid) there ∙ same, older)
            ])
      | inr (same, e) ↦
          subst
            (λ u.
              ((u.parent_pid ≡ minus_one) × (state_code u.state ≢ 5)) ⊎ HasParent (task_at put) u)
            (sym e) (new-family t new (subst (λ u. 0 < state_code u.state) e h))
    ];
    waiting = λ i four. elim (at-put s slot i t) [
      | inl e ↦
          let (j, a, w) = f.waiting i (subst (λ u. state_code u.state ≡ 4) e four) in
          let there = was-there j a.0 in
          (
            j,
            subst IsActive (sym there) a,
            subst (λ u. IsWaitedBy u (task_at put j)) (sym e)
                (subst (IsWaitedBy (task_at s i)) (sym there) w),
          )
      | inr (same, e) ↦ absurd (omega (arith, four, ap (λ u. state_code u.state) e, new-state new))
    ];
  }

module _ (s : Sched) (slot : ℕ) (t : Task) (r : IsReady s)
    (free : state_code (task_at s slot).state ≡ 0) (new : IsNew s t)
    (room : s.next_pid < 2 ^ 31) where
  pub add_task-IsReady : IsReady (add_task slot t s)
  unfolding add_task
  add_task-IsReady = record {
    size = length-set s.tasks slot t ∙ r.size;
    family =
        subst (λ n. IsFamily n (task_at (put_task slot t s))) (omega (arith, room))
          (add-IsFamily s slot t r.family free new room);
    out = r.out;
    running = λ i two. elim (at-put s slot i t) [
      | inl e ↦ r.running i (sym (ap (λ u. state_code u.state) e) ∙ two)
      | inr (same, e) ↦ absurd (omega (arith, two, ap (λ u. state_code u.state) e, new-state new))
    ];
    idle_task = r.idle_task;
    idle = r.idle;
    idle_ready =
        subst Ready (sym (was-there s slot t r.family free new room r.idle_task r.idle_ready.0))
          r.idle_ready;
  }

  pub add_task-IsSched : IsSched s → IsSched (add_task slot t s)
  unfolding add_task
  add_task-IsSched d = record {
    ready = add_task-IsReady;
    started = d.started;
    runs = d.runs;
    current = d.current;
    running =
        ap (λ u. state_code u.state)
          (was-there s slot t r.family free new room d.runs (omega (arith, d.running)))
        ∙ d.running;
  }
