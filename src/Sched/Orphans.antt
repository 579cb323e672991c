-- ===== src/Sched/Orphans.antt =====
-- The end of a task in kernel/sched.c: its children lose their parent, or their slots are given back.
use skez_os.Prelude.{
  ℕ, zero, suc, ◌+◌, ◌^◌, ◌<◌, ◌≡◌, ◌≢◌, refl, sym, ap, ◌∙◌, inl, inr, true, false, not, ◌||◌, some,
  arith, ◌==◌, length, Bool-cases,
}
use native.Mathlib.Decide.{ℕ_discrete}
use mathlib.Core.Path.{subst}
use skez_os.Sched.{state_code, Task, Sched, max_tasks, in_state, task_at, put_task}
use skez_os.Sched.Family.{IsFamily, IsCalm, IsCalm-refl}
use skez_os.Sched.Calm.{at-put_self, at-put_ne, live-place}
use skez_os.Sched.{task_unused, task_zombie, minus_one}
use skez_os.Sched.Children.{
  sched_reap_task, orphan_or_reap, orphan_rounds, sched_orphan_or_reap_children,
}
use skez_os.Sched.Family.{IsActive, IsWaitedBy, IsChange, change-IsFamily}
use skez_os.Sched.States.{core_refl}
use skez_os.Sched.Calls.{IsSched}
use skez_os.Sched.Reap.{
  IsPut, core-IsPut, put-other, put-here, other-IsSched, idle-Ready, sched_reap_task-IsSched,
}

abbrev pub NotChild : (parent_pid : ℕ) → Task → Type 0
NotChild p t = 0 < state_code t.state → t.parent_pid ≢ p

-- The task `c`, with pid `p`, exits: it still runs, and the first `n` tasks are not its children.
pub record IsLeaving (c p n : ℕ) (s : Sched) : Type 0 where
  pub sched : IsSched s
  pub current : s.current ≡ some c
  pub busy : s.idle ≢ some c
  pub running : state_code (task_at s c).state ≡ 2
  pub pid : (task_at s c).pid ≡ p
  pub childless : (k : ℕ) → k < n → NotChild p (task_at s k)

-- A task is not its own parent.
pub no_own_parent :
    {next : ℕ} {at : ℕ → Task} (i : ℕ)
    → IsFamily next at
    → 0 < state_code (at i).state
    → (at i).parent_pid ≢ (at i).pid
no_own_parent i f live e = elim (f.family i live) [
  | inl (none_left, z) ↦ omega (arith, none_left, e, f.bounds i live, f.room)
  | inr (j, a, same, older) ↦ omega (arith, older, e)
]

module _ {c p i : ℕ} {s : Sched} (l : IsLeaving c p i s) where
  IsLeaving-one_more : NotChild p (task_at s i) → IsLeaving c p (i + 1) s
  IsLeaving-one_more h = record {
    sched = l.sched;
    current = l.current;
    busy = l.busy;
    running = l.running;
    pid = l.pid;
    childless = λ k lt. elim (ℕ_discrete k i) [
      | yes e ↦ subst (λ x. NotChild p (task_at s x)) (sym e) h
      | no n ↦ l.childless k (omega (arith, lt, n))
    ];
  }

  -- A child is another task than `c`.
  child-other : 0 < state_code (task_at s i).state → (task_at s i).parent_pid ≡ p → c ≢ i
  child-other live child e =
      no_own_parent c l.sched.ready.family (omega (arith, l.running))
        (ap (λ x. (task_at s x).parent_pid) e ∙ child ∙ sym l.pid)

  IsLeaving-put :
      {t : Task} {s' : Sched}
      → IsPut s i t s'
      → IsSched s'
      → c ≢ i
      → i < length s.tasks
      → NotChild p t
      → IsLeaving c p (i + 1) s'
  IsLeaving-put {t} {s'} q d n lt h = record {
    sched = d;
    current = q.current ∙ l.current;
    busy = λ e. l.busy (sym q.idle ∙ e);
    running = ap (λ u. state_code u.state) (put-other q c n) ∙ l.running;
    pid = ap (λ u. u.pid) (put-other q c n) ∙ l.pid;
    childless = λ k lt'. elim (ℕ_discrete k i) [
      | yes e ↦ subst (NotChild p) (sym (ap (task_at s') e ∙ put-here q lt)) h
      | no m ↦ subst (NotChild p) (sym (put-other q k m)) (l.childless k (omega (arith, lt', m)))
    ];
  }

abbrev orphan : Task → Task
orphan t = record t { parent_pid = minus_one }

module _ {c p i : ℕ} {s : Sched} (l : IsLeaving c p i s) where
  -- A child that is not a zombie loses its parent, for which only the parent itself could wait.
  orphan-IsChange :
      IsActive (task_at s i)
      → (task_at s i).parent_pid ≡ p
      → IsChange i (task_at s) (task_at (put_task i (orphan (task_at s i)) s))
  orphan-IsChange a child =
      let t : Task = orphan (task_at s i) in
      let f = l.sched.ready.family in
      let here : task_at (put_task i t s) i ≡ t = at-put_self s i t (live-place s i a.0) in
      let code : state_code (task_at (put_task i t s) i).state ≡ state_code (task_at s i).state =
        ap (λ u. state_code u.state) here in
      let pid : (task_at (put_task i t s) i).pid ≡ (task_at s i).pid = ap (λ u. u.pid) here in
      let live : IsActive (task_at (put_task i t s) i) = subst IsActive (sym here) a in
      record {
        calm = λ j n.
            subst (IsCalm (task_at s j)) (sym (at-put_ne s i j t n)) (IsCalm-refl (task_at s j));
        same_pid = λ h. (a.0, pid);
        has_parent = λ h. inl (ap (λ u. u.parent_pid) here, live.1);
        stays_parent = λ j n h b e. (live, pid);
        stays_waited = λ j n four b w.
            let was : state_code (task_at s j).state ≡ 4 =
              sym (ap (λ u. state_code u.state) (at-put_ne s i j t n)) ∙ four in
            let same : j ≡ c =
              f.unique j c (omega (arith, was)) (omega (arith, l.running))
                (sym w.0 ∙ child ∙ sym l.pid) in
            absurd (omega (arith, was, l.running, ap (λ x. state_code (task_at s x).state) same));
        still_waits = λ four.
            let (j, b, w) = f.waiting i (sym code ∙ four) in
            let m : j ≢ i =
              λ e. no_own_parent i f a.0 (ap (λ x. (task_at s x).parent_pid) (sym e) ∙ w.0) in
            let there = at-put_ne s i j t m in
            let w' : IsWaitedBy (task_at (put_task i t s) i) (task_at s j) =
              subst (λ u. IsWaitedBy u (task_at s j)) (sym here) w in
            (
              j,
              subst IsActive (sym there) b,
              subst (IsWaitedBy (task_at (put_task i t s) i)) (sym there) w',
            );
      }

  orphan-IsSched :
      IsActive (task_at s i)
      → (task_at s i).parent_pid ≡ p
      → IsSched (put_task i (orphan (task_at s i)) s)
  orphan-IsSched a child =
      let d = l.sched in
      let n : c ≢ i = child-other l a.0 child in
      other-IsSched (core-IsPut i (orphan (task_at s i)) (core_refl s)) d
        (change-IsFamily (orphan-IsChange a child) d.ready.family)
        (λ e. ground (arith, e, l.current, n))
        (λ two. ground (arith, d.ready.running i two, l.current, n))
        (λ is. idle-Ready s i d.ready is)

module _ (p i : ℕ) (s : Sched) where
  round-skips :
      (in_state (task_at s i) task_unused || not ((task_at s i).parent_pid == p)) ≡ true
      → orphan_or_reap p i s ≡ s
  unfolding orphan_or_reap
  round-skips e = rw (e, orphan_or_reap) refl

  round-reaps :
      (in_state (task_at s i) task_unused || not ((task_at s i).parent_pid == p)) ≡ false
      → in_state (task_at s i) task_zombie ≡ true
      → orphan_or_reap p i s ≡ sched_reap_task i s
  unfolding orphan_or_reap
  round-reaps e z = rw (e, z, orphan_or_reap) refl

  round-orphans :
      (in_state (task_at s i) task_unused || not ((task_at s i).parent_pid == p)) ≡ false
      → in_state (task_at s i) task_zombie ≡ false
      → orphan_or_reap p i s ≡ put_task i (orphan (task_at s i)) s
  unfolding orphan_or_reap
  round-orphans e z = rw (e, z, orphan_or_reap) refl

round-IsLeaving :
    {c p i : ℕ} {s : Sched} → IsLeaving c p i s → IsLeaving c p (i + 1) (orphan_or_reap p i s)
round-IsLeaving {c} {p} {i} {s} l =
    let own : p < 2 ^ 31 = omega (
      arith,
      l.sched.ready.family.bounds c (omega (arith, l.running)),
      l.sched.ready.family.room,
      l.pid,
    ) in
    elim (Bool-cases (in_state (task_at s i) task_unused || not ((task_at s i).parent_pid == p))) [
      | inl e ↦ rw (round-skips p i s e) (IsLeaving-one_more l (λ live child. ground (arith, e)))
      | inr e ↦
          let live : 0 < state_code (task_at s i).state = ground (arith, e) in
          let child : (task_at s i).parent_pid ≡ p = ground (arith, e) in
          let lt : i < length s.tasks = live-place s i live in
          let n : c ≢ i = child-other l live child in
          elim (Bool-cases (in_state (task_at s i) task_zombie)) [
            | inl z ↦
                let (d, q) = sched_reap_task-IsSched i s l.sched (ground (arith, z)) in
                rw (round-reaps p i s e z)
                  (IsLeaving-put l q d n lt (λ h. absurd (omega (arith, h))))
            | inr z ↦
                let a : IsActive (task_at s i) = (live, ground (arith, z)) in
                rw (round-orphans p i s e z) (
                  IsLeaving-put l (core-IsPut i (orphan (task_at s i)) (core_refl s))
                    (orphan-IsSched l a child) n lt (λ h e'. absurd (omega (arith, e', own))))
          ]
    ]

rounds-IsLeaving :
    {c p : ℕ} (n i : ℕ) (s : Sched)
    → IsLeaving c p i s
    → IsLeaving c p (i + n) (orphan_rounds p i n s)
unfolding orphan_rounds
rounds-IsLeaving {c} {p} zero i s l = subst (λ x. IsLeaving c p x s) (omega arith) l
rounds-IsLeaving {c} {p} (suc n) i s l =
    subst (λ x. IsLeaving c p x (orphan_rounds p (i + 1) n (orphan_or_reap p i s))) (omega arith)
      (rounds-IsLeaving n (i + 1) (orphan_or_reap p i s) (round-IsLeaving l))

-- When the loop ends no task is a child of `p`.
pub orphan_children-IsLeaving :
    {c p : ℕ} (s : Sched)
    → IsLeaving c p 0 s
    → IsLeaving c p max_tasks (sched_orphan_or_reap_children p s)
unfolding sched_orphan_or_reap_children
orphan_children-IsLeaving s l = rounds-IsLeaving max_tasks 0 s l

pub leaving-childless :
    {c p : ℕ} {s : Sched} → IsLeaving c p max_tasks s → (k : ℕ) → NotChild p (task_at s k)
leaving-childless {s = s} l k live =
    l.childless k (omega (arith, live-place s k live, l.sched.ready.size)) live
