-- ===== src/Sched/Switch.antt =====
-- The switch of kernel/sched.c: it is between two tasks of the table, and the new one alone runs.
use skez_os.Prelude.{
  ℕ, ◌<◌, ◌≡◌, ◌≢◌, refl, sym, ap, ◌∙◌, inl, inr, true, false, ◌&&◌, Option, none, some, arith,
  if◌then◌else◌, length, length-set, get_or, Bool-cases,
}
use mathlib.Core.Path.{subst}
use skez_os.Sched.{
  state_code, Task, Sched, zero_task, in_state, task_at, put_task, is_index, task_runnable,
  task_running,
}
use skez_os.Sched.Run.{
  sched_wake_sleepers, sched_pick_next, suspended, resumed, suspend, entered, resume, sched_switch,
  sched_schedule,
}
use skez_os.Sched.Family.{IsCalm}
use skez_os.Sched.Calm.{
  AllCalm, at-put_self, live-place, put-AllCalm, wake-AllCalm, wake-IsReady, IsReady, tasks-IsReady,
  is_index-some, sched_pick_next-IsPicked,
}
use skez_os.Sched.States.{
  SameCore, resume-SameCore, resume-IsCalm, calm-all_trans, calm-all_refl, suspend-AllCalm, Ready,
  suspend-state, run-state,
}

suspend-IsReady :
    (o : Option ℕ) (s : Sched)
    → IsReady s
    → s.current ≡ o
    → IsReady (suspend o s)
      × ((i : ℕ) → state_code (task_at (suspend o s) i).state ≢ 2)
      × ((suspend o s).started ≡ s.started)
      × ((i : ℕ) → Ready (task_at s i) → Ready (task_at (suspend o s) i))
unfolding suspend
suspend-IsReady none s r e =
    (r, λ i two. absurd (ground (arith, r.running i two, e)), refl, λ i h. h)
suspend-IsReady (some c) s r e =
    let only : (i : ℕ) → state_code (task_at s i).state ≡ 2 → i ≡ c =
      λ i two. ground (arith, r.running i two, e) in
    (
      tasks-IsReady r (suspend-AllCalm (some c) s) (length-set s.tasks c (suspended (task_at s c)))
          refl refl refl (λ i two. absurd ((suspend-state c i s (only i)).0 two))
          (λ i is h. (suspend-state c i s (only i)).1 h),
      λ i two. (suspend-state c i s (only i)).0 two,
      refl,
      λ i h. (suspend-state c i s (only i)).1 h,
    )

-- A scheduling that ends: the tree is as it was, and the current task alone runs.
pub record IsScheduled (s s' : Sched) : Type 0 where
  pub calm : AllCalm s s'
  pub ready : IsReady s'
  pub started : s'.started ≡ s.started
  pub runs : ℕ
  pub current : s'.current ≡ some runs
  pub running : state_code (task_at s' runs).state ≡ 2

pub IsScheduled-after :
    {s t u : Sched} → AllCalm s t → t.started ≡ s.started → IsScheduled t u → IsScheduled s u
IsScheduled-after {s} {t} {u} calm same b = record {
  calm = calm-all_trans s t u calm b.calm;
  ready = b.ready;
  started = b.started ∙ same;
  runs = b.runs;
  current = b.current;
  running = b.running;
}

entered-AllCalm : (next : ℕ) (s : Sched) → Ready (task_at s next) → AllCalm s (entered next s)
entered-AllCalm next s able =
    put-AllCalm s next (resumed (task_at s next)) (resume-IsCalm (task_at s next) able.0 able.1)

pub core-at : {s s' : Sched} → SameCore s s' → (i : ℕ) → task_at s' i ≡ task_at s i
core-at c i = ap (λ ts. get_or ts i zero_task) c.tasks

core-AllCalm : (s : Sched) {t u : Sched} → SameCore t u → AllCalm s t → AllCalm s u
core-AllCalm s c calm = λ i. subst (IsCalm (task_at s i)) (sym (core-at c i)) (calm i)

resume-IsScheduled :
    (next : ℕ) (s : Sched)
    → IsReady s
    → ((i : ℕ) → state_code (task_at s i).state ≢ 2)
    → Ready (task_at s next)
    → IsScheduled s (resume next s)
resume-IsScheduled next s r off able =
    let core = resume-SameCore next s in
    let lt : next < length s.tasks = live-place s next able.0 in
    let codes : (i : ℕ)
        → state_code (task_at (resume next s) i).state
          ≡ state_code (task_at (entered next s) i).state =
      λ i. ap (λ t. state_code t.state) (core-at core i) in
    let two : state_code (task_at (resume next s) next).state ≡ 2 =
      codes next
      ∙ ap (λ t. state_code t.state) (at-put_self s next (resumed (task_at s next)) lt) in
    let ran = λ (i : ℕ).
      run-state next i (resumed (task_at s next)) s lt refl (λ two. absurd (off i two)) in
    let calm : AllCalm s (resume next s) = core-AllCalm s core (entered-AllCalm next s able) in
    record {
      calm = calm;
      ready =
          tasks-IsReady r calm
            (ap length core.tasks ∙ length-set s.tasks next (resumed (task_at s next)))
            core.next_pid (core.out ∙ sym r.out) core.idle
            (λ i h. core.current ∙ ap some (sym ((ran i).0 (sym (codes i) ∙ h))))
            (λ i is h. ground (arith, codes i, (ran i).1 h));
      started = core.started;
      runs = next;
      current = core.current;
      running = two;
    }

-- `next` is the current task already.
keep-IsScheduled :
    (next : ℕ) (s : Sched)
    → IsReady s
    → Ready (task_at s next)
    → s.current ≡ some next
    → IsScheduled s (
        if in_state (task_at s next) task_runnable
        then put_task next (record (task_at s next) { state = task_running }) s
        else s)
keep-IsScheduled next s r able e = elim (Bool-cases (in_state (task_at s next) task_runnable)) [
  | inr b ↦ rw b (record {
    calm = calm-all_refl s;
    ready = r;
    started = refl;
    runs = next;
    current = e;
    running = ground (arith, b, able);
  })
  | inl b ↦
      let t : Task = record (task_at s next) { state = task_running } in
      let lt : next < length s.tasks = live-place s next able.0 in
      let ran =
        λ (i : ℕ). run-state next i t s lt refl (λ two. ground (arith, r.running i two, e)) in
      let calm : AllCalm s (put_task next t s) = put-AllCalm s next t (record {
        pid = refl;
        parent_pid = refl;
        wait_target_pid = refl;
        state = inr (ground (arith, able));
      }) in
      rw b (record {
        calm = calm;
        ready =
            tasks-IsReady r calm (length-set s.tasks next t) refl refl refl
              (λ i h. e ∙ ap some (sym ((ran i).0 h))) (λ i is h. (ran i).1 h);
        started = refl;
        runs = next;
        current = e;
        running = ap (λ u. state_code u.state) (at-put_self s next t lt);
      })
]

module _ (next : ℕ) (s : Sched) (out : s.in_scheduler ≡ false) where
  switch-keep :
      (is_index s.current next && s.started) ≡ true
      → sched_switch next s ≡ (
          if in_state (task_at s next) task_runnable
          then put_task next (record (task_at s next) { state = task_running }) s
          else s)
  unfolding sched_switch
  switch-keep e = simp (out, e, sched_switch)

  switch-resume :
      (is_index s.current next && s.started) ≡ false
      → sched_switch next s ≡ resume next (suspend s.current s)
  unfolding sched_switch
  switch-resume e = simp (out, e, sched_switch)

pub sched_switch-IsScheduled :
    (next : ℕ) (s : Sched)
    → IsReady s
    → s.started ≡ true
    → Ready (task_at s next)
    → IsScheduled s (sched_switch next s)
sched_switch-IsScheduled next s r on able =
    elim (Bool-cases (is_index s.current next && s.started)) [
      | inl e ↦
          rw (switch-keep next s r.out e)
            (keep-IsScheduled next s r able (is_index-some s.current next (ground (arith, e))))
      | inr e ↦
          let (r', off, same, still) = suspend-IsReady s.current s r refl in
          let calm = suspend-AllCalm s.current s in
          rw (switch-resume next s r.out e) (
            IsScheduled-after calm same
              (resume-IsScheduled next (suspend s.current s) r' off (still next able)))
    ]

schedule-picked :
    (now next : ℕ) (s : Sched)
    → (sched_pick_next (sched_wake_sleepers now s)).0 ≡ some next
    → sched_schedule now s
      ≡ some (sched_switch next (sched_pick_next (sched_wake_sleepers now s)).1)
unfolding sched_schedule
schedule-picked now next s e = rw (e, sched_schedule) refl

pub wake-started : (now : ℕ) (s : Sched) → (sched_wake_sleepers now s).started ≡ s.started
unfolding sched_wake_sleepers
wake-started now s = refl

pub cursor-IsReady : (n : ℕ) (s : Sched) → IsReady s → IsReady (record s { rr_cursor = n })
cursor-IsReady n s r = tasks-IsReady r (calm-all_refl s) refl refl refl refl r.running (λ i is h. h)

-- Where only the current task may run and the idle task is ready, the scheduler finds a task.
pub sched_schedule-IsScheduled :
    (now : ℕ) (s : Sched)
    → IsReady s
    → s.started ≡ true
    → (s' : Sched) × (sched_schedule now s ≡ some s') × IsScheduled s s'
sched_schedule-IsScheduled now s r on =
    let w : Sched = sched_wake_sleepers now s in
    let p = sched_pick_next-IsPicked w (wake-IsReady now s r) in
    let moved : Sched = record w { rr_cursor = p.cursor } in
    let on' : moved.started ≡ true = wake-started now s ∙ on in
    let done =
      sched_switch-IsScheduled p.next moved (cursor-IsReady p.cursor w (wake-IsReady now s r)) on'
        p.able in
    (
      sched_switch p.next moved,
      schedule-picked now p.next s p.found ∙ ap (λ x. some (sched_switch p.next x)) p.moved,
      IsScheduled-after (wake-AllCalm now s) (wake-started now s) done,
    )
