-- ===== src/Sched/Calls.antt =====
-- The calls of kernel/sched.c that schedule: yielding, sleeping and the timer tick keep its invariant.
use skez_os.Prelude.{
  ℕ, ◌+◌, ◌%◌, ◌^◌, ◌≡◌, ◌≢◌, refl, sym, ap, ◌∙◌, inl, inr, true, false, Option, some, arith, ◌==◌,
  length, length-set, get_or, set, Bool-cases,
}
use mathlib.Core.Path.{subst}
use skez_os.Sched.{state_code, Task, Sched, zero_task, task_at, put_task, task_sleeping}
use skez_os.Sched.Run.{sched_schedule, sched_yield, sched_sleep_ticks, sched_checkpoint}
use skez_os.Sched.Family.{IsFamily, IsCalm, IsCalm-refl, calm-IsFamily}
use skez_os.Sched.Calm.{AllCalm, at-put, put-AllCalm, IsReady, tasks-IsReady}
use skez_os.Sched.States.{Ready, calm-all_refl, calm-all_trans}
use skez_os.Sched.Switch.{IsScheduled, sched_schedule-IsScheduled}

-- The scheduler between two steps, once it is started: the current task runs, and no other does.
pub record IsSched (s : Sched) : Type 0 where
  pub ready : IsReady s
  pub started : s.started ≡ true
  pub runs : ℕ
  pub current : s.current ≡ some runs
  pub running : state_code (task_at s runs).state ≡ 2

pub scheduled-IsSched : {s s' : Sched} → s.started ≡ true → IsScheduled s s' → IsSched s'
scheduled-IsSched on d = record {
  ready = d.ready;
  started = d.started ∙ on;
  runs = d.runs;
  current = d.current;
  running = d.running;
}

-- A step that ends in a state of the scheduler, with the tree as it was.
abbrev pub Steps : Sched → Option Sched → Type 0
Steps s o = (s' : Sched) × (o ≡ some s') × IsSched s' × AllCalm s s'

-- A write of one task.
pub put-IsReady :
    (s : Sched) (k : ℕ) (t : Task)
    → IsReady s
    → IsFamily s.next_pid (task_at (put_task k t s))
    → (state_code t.state ≡ 2 → s.current ≡ some k)
    → (s.idle ≡ some k → Ready t)
    → IsReady (put_task k t s)
put-IsReady s k t r f runs idle = record {
  size = length-set s.tasks k t ∙ r.size;
  family = f;
  out = r.out;
  running = λ i two. elim (at-put s k i t) [
    | inl e ↦ r.running i (sym (ap (λ u. state_code u.state) e) ∙ two)
    | inr (same, e) ↦ runs (sym (ap (λ u. state_code u.state) e) ∙ two) ∙ ap some (sym same)
  ];
  idle_task = r.idle_task;
  idle = r.idle;
  idle_ready = elim (at-put s k r.idle_task t) [
    | inl e ↦ subst Ready (sym e) r.idle_ready
    | inr (same, e) ↦ subst Ready (sym e) (idle (r.idle ∙ ap some same))
  ];
}

-- A change of what the scheduler does not read.
pub record IsQuiet (t t' : Task) : Type 0 where
  pub pid : t'.pid ≡ t.pid
  pub parent_pid : t'.parent_pid ≡ t.parent_pid
  pub wait_target_pid : t'.wait_target_pid ≡ t.wait_target_pid
  pub state : t'.state ≡ t.state

quiet-IsCalm : {t t' : Task} → IsQuiet t t' → IsCalm t t'
quiet-IsCalm q = record {
  pid = q.pid;
  parent_pid = q.parent_pid;
  wait_target_pid = q.wait_target_pid;
  state = inl (ap state_code q.state);
}

pub quiet-AllCalm :
    (s : Sched) (k : ℕ) (t : Task) → IsQuiet (task_at s k) t → AllCalm s (put_task k t s)
quiet-AllCalm s k t q = put-AllCalm s k t (quiet-IsCalm q)

pub quiet-code :
    (s : Sched) (k i : ℕ) (t : Task)
    → IsQuiet (task_at s k) t
    → state_code (task_at (put_task k t s) i).state ≡ state_code (task_at s i).state
quiet-code s k i t q = elim (at-put s k i t) [
  | inl e ↦ ap (λ u. state_code u.state) e
  | inr (same, e) ↦
      ap (λ u. state_code u.state) e
      ∙ ap state_code q.state
      ∙ ap (λ x. state_code (task_at s x).state) (sym same)
]

pub quiet-IsSched :
    (s : Sched) (k : ℕ) (t : Task) → IsQuiet (task_at s k) t → IsSched s → IsSched (put_task k t s)
quiet-IsSched s k t q d = record {
  ready =
      tasks-IsReady d.ready (quiet-AllCalm s k t q) (length-set s.tasks k t) refl refl refl
        (λ i two. d.ready.running i (sym (quiet-code s k i t q) ∙ two))
        (λ i is h. ground (arith, h, quiet-code s k i t q));
  started = d.started;
  runs = d.runs;
  current = d.current;
  running = quiet-code s k d.runs t q ∙ d.running;
}

-- The fields that the invariant does not read.
pub unread-IsSched :
    {s s' : Sched}
    → s'.tasks ≡ s.tasks
    → s'.current ≡ s.current
    → s'.idle ≡ s.idle
    → s'.next_pid ≡ s.next_pid
    → s'.in_scheduler ≡ s.in_scheduler
    → s'.started ≡ s.started
    → IsSched s
    → IsSched s'
unread-IsSched {s} {s'} tasks current idle next out started d =
    let same : (i : ℕ) → task_at s' i ≡ task_at s i = λ i. ap (λ ts. get_or ts i zero_task) tasks in
    let code : (i : ℕ) → state_code (task_at s' i).state ≡ state_code (task_at s i).state =
      λ i. ap (λ t. state_code t.state) (same i) in
    record {
      ready =
          tasks-IsReady d.ready
            (λ i. subst (IsCalm (task_at s i)) (sym (same i)) (IsCalm-refl (task_at s i)))
            (ap length tasks) next out idle
            (λ i two. current ∙ d.ready.running i (sym (code i) ∙ two))
            (λ i is h. ground (arith, h, code i));
      started = started ∙ d.started;
      runs = d.runs;
      current = current ∙ d.current;
      running = code d.runs ∙ d.running;
    }

schedule-Steps :
    (now : ℕ) (s t : Sched)
    → IsReady t
    → t.started ≡ true
    → AllCalm s t
    → Steps s (sched_schedule now t)
schedule-Steps now s t r on calm =
    let (s', e, d) = sched_schedule-IsScheduled now t r on in
    (s', e, scheduled-IsSched on d, calm-all_trans s t s' calm d.calm)

yield-scheduled :
    (now c : ℕ) (s : Sched)
    → s.current ≡ some c
    → s.started ≡ true
    → sched_yield now s ≡ sched_schedule now (record s { need_resched = false })
unfolding sched_yield
yield-scheduled now c s e on = simp (e, on, sched_yield)

pub sched_yield-Steps : (now : ℕ) (s : Sched) → IsSched s → Steps s (sched_yield now s)
sched_yield-Steps now s d =
    let t : Sched = record s { need_resched = false } in
    let d' : IsSched t = unread-IsSched refl refl refl refl refl refl d in
    rw (yield-scheduled now d.runs s d.current d.started)
      (schedule-Steps now s t d'.ready d.started (calm-all_refl s))

pub sched_checkpoint-Steps : (now : ℕ) (s : Sched) → IsSched s → Steps s (sched_checkpoint now s)
unfolding sched_checkpoint
sched_checkpoint-Steps now s d = elim (Bool-cases s.need_resched) [
  | inl e ↦ simp e (sched_yield-Steps now s d)
  | inr e ↦ simp e (s, refl, d, calm-all_refl s)
]

-- A step of the current task, which is not the idle task.
abbrev pub NotIdle : Sched → Type 0
NotIdle s = (i : ℕ) → s.current ≡ some i → s.idle ≢ some i

-- The current task stops running.
pub stop-IsReady :
    (s : Sched) (c : ℕ) (t : Task)
    → IsReady s
    → NotIdle s
    → s.current ≡ some c
    → state_code t.state ≢ 2
    → IsFamily s.next_pid (task_at (put_task c t s))
    → IsReady (put_task c t s)
stop-IsReady s c t r busy e off f =
    put-IsReady s c t r f (λ two. absurd (off two)) (λ is. absurd (busy c e is))

abbrev asleep : (ticks now : ℕ) → Task → Task
asleep ticks now t = record t { wake_tick = (now + ticks) % 2 ^ 64; state = task_sleeping }

sleep-scheduled :
    (ticks now c : ℕ) (s : Sched)
    → s.current ≡ some c
    → s.started ≡ true
    → (ticks == 0) ≡ false
    → sched_sleep_ticks ticks now s
      ≡ sched_schedule now (record s {
        tasks = set s.tasks c (asleep ticks now (task_at s c));
        need_resched = false;
      })
unfolding sched_sleep_ticks
sleep-scheduled ticks now c s e on some_ticks = simp (e, on, some_ticks, sched_sleep_ticks)

sleep-yields :
    (ticks now c : ℕ) (s : Sched)
    → s.current ≡ some c
    → s.started ≡ true
    → (ticks == 0) ≡ true
    → sched_sleep_ticks ticks now s ≡ sched_yield now s
unfolding sched_sleep_ticks
sleep-yields ticks now c s e on no_ticks = simp (e, on, no_ticks, sched_sleep_ticks)

pub sched_sleep_ticks-Steps :
    (ticks now : ℕ) (s : Sched) → IsSched s → NotIdle s → Steps s (sched_sleep_ticks ticks now s)
sched_sleep_ticks-Steps ticks now s d busy = elim (Bool-cases (ticks == 0)) [
  | inl e ↦ rw (sleep-yields ticks now d.runs s d.current d.started e) (sched_yield-Steps now s d)
  | inr e ↦
      let t : Task = asleep ticks now (task_at s d.runs) in
      let calm : AllCalm s (put_task d.runs t s) = put-AllCalm s d.runs t (record {
        pid = refl;
        parent_pid = refl;
        wait_target_pid = refl;
        state = inr (ground (arith, d.running));
      }) in
      let q : Sched = record (put_task d.runs t s) { need_resched = false } in
      let r : IsReady (put_task d.runs t s) =
        stop-IsReady s d.runs t d.ready busy d.current (λ h. absurd (omega (arith, h)))
          (calm-IsFamily calm d.ready.family) in
      let r' : IsReady q =
        tasks-IsReady r (calm-all_refl (put_task d.runs t s)) refl refl refl refl r.running
          (λ i is h. h) in
      rw (sleep-scheduled ticks now d.runs s d.current d.started e)
        (schedule-Steps now s q r' d.started calm)
]
