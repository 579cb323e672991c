-- ===== src/Sched/Tick.antt =====
-- The timer tick of kernel/sched.c keeps the scheduler's invariant and the process tree.
use skez_os.Prelude.{
  ℕ, ◌+◌, ◌%◌, ◌^◌, ◌≡◌, refl, inl, inr, true, false, not, ◌||◌, some, arith, ltb, ◌==◌,
  if◌then◌else◌, set, Bool-cases,
}
use skez_os.Sched.{Task, Sched, default_timeslice, task_at, put_task, is_index}
use skez_os.Sched.Run.{
  sched_wake_sleepers, sched_pick_next, sched_switch, ticked, preempt, sched_on_timer_tick_irq,
}
use skez_os.Sched.Calm.{AllCalm, wake-AllCalm, wake-IsReady, wake-state, sched_pick_next-IsPicked}
use skez_os.Sched.States.{Ready, calm-all_trans}
use skez_os.Sched.Switch.{sched_switch-IsScheduled}
use skez_os.Sched.Calls.{
  IsSched, scheduled-IsSched, IsQuiet, quiet-AllCalm, quiet-code, quiet-IsSched, unread-IsSched,
}

wake-IsSched : (now : ℕ) (s : Sched) → IsSched s → IsSched (sched_wake_sleepers now s)
unfolding sched_wake_sleepers
wake-IsSched now s d = record {
  ready = wake-IsReady now s d.ready;
  started = d.started;
  runs = d.runs;
  current = d.current;
  running = ground (arith, wake-state now s d.runs, d.running);
}

module _ (c : ℕ) (s : Sched) where
  abbrev renewed : Sched
  renewed = put_task c (record (task_at s c) { timeslice_left = default_timeslice }) s

  abbrev preempted : Sched → Sched
  preempted p = record p {
    tasks =
        set p.tasks c
          (record (task_at p c) { preemptions = ((task_at p c).preemptions + 1) % 2 ^ 32 });
    need_resched = false;
  }

  preempt-stays :
      (next : ℕ)
      → (sched_pick_next renewed).0 ≡ some next
      → (c == next) ≡ true
      → preempt c s ≡ (sched_pick_next renewed).1
  unfolding preempt
  preempt-stays next e same = simp (e, same, preempt)

  preempt-switches :
      (next : ℕ)
      → (sched_pick_next renewed).0 ≡ some next
      → (c == next) ≡ false
      → preempt c s ≡ sched_switch next (preempted (sched_pick_next renewed).1)
  unfolding preempt
  preempt-switches next e other = simp (e, other, preempt)

ticked-IsQuiet : (t : Task) → IsQuiet t (ticked t)
unfolding ticked
ticked-IsQuiet t = record { pid = refl; parent_pid = refl; wait_target_pid = refl; state = refl }

preempt-IsSched : (c : ℕ) (s : Sched) → IsSched s → IsSched (preempt c s) × AllCalm s (preempt c s)
preempt-IsSched c s d =
    let q : IsQuiet (task_at s c) (record (task_at s c) { timeslice_left = default_timeslice }) =
      record { pid = refl; parent_pid = refl; wait_target_pid = refl; state = refl } in
    let r : Sched = renewed c s in
    let dr : IsSched r =
      quiet-IsSched s c (record (task_at s c) { timeslice_left = default_timeslice }) q d in
    let cr : AllCalm s r =
      quiet-AllCalm s c (record (task_at s c) { timeslice_left = default_timeslice }) q in
    let p = sched_pick_next-IsPicked r dr.ready in
    let moved : Sched = record r { rr_cursor = p.cursor } in
    let dm : IsSched moved = unread-IsSched refl refl refl refl refl refl dr in
    elim (Bool-cases (c == p.next)) [
      | inl same ↦ rw (preempt-stays c s p.next p.found same, p.moved) (dm, cr)
      | inr other ↦
          let t : Task = record (task_at moved c) {
            preemptions = ((task_at moved c).preemptions + 1) % 2 ^ 32;
          } in
          let qt : IsQuiet (task_at moved c) t = record {
            pid = refl;
            parent_pid = refl;
            wait_target_pid = refl;
            state = refl;
          } in
          let dt : IsSched (put_task c t moved) = quiet-IsSched moved c t qt dm in
          let dp : IsSched (preempted c s moved) =
            unread-IsSched refl refl refl refl refl refl dt in
          let able : Ready (task_at (preempted c s moved) p.next) =
            ground (arith, quiet-code moved c p.next t qt, p.able) in
          let done =
            sched_switch-IsScheduled p.next (preempted c s moved) dp.ready dp.started able in
          rw (preempt-switches c s p.next p.found other, p.moved)
            (
              scheduled-IsSched dp.started done,
              calm-all_trans s r (sched_switch p.next (preempted c s moved)) cr (
                  calm-all_trans r (preempted c s moved) (sched_switch p.next (preempted c s moved))
                    (quiet-AllCalm moved c t qt) done.calm),
            )
    ]

abbrev counted : (c : ℕ) → Sched → Sched
counted c w = record w {
  tasks = set w.tasks c (ticked (task_at w c));
  idle_ticks = if is_index w.idle c then (w.idle_ticks + 1) % 2 ^ 32 else w.idle_ticks;
}

tick-counted :
    (now c : ℕ) (s : Sched)
    → s.current ≡ some c
    → (not s.started || s.in_scheduler) ≡ false
    → sched_on_timer_tick_irq now s ≡ (
        let w = sched_wake_sleepers now s in
        if ltb 0 (task_at (counted c w) c).timeslice_left
        then counted c w
        else preempt c (counted c w))
unfolding sched_on_timer_tick_irq
tick-counted now c s e on = simp (e, on, sched_on_timer_tick_irq)

pub sched_on_timer_tick_irq-IsSched :
    (now : ℕ) (s : Sched)
    → IsSched s
    → IsSched (sched_on_timer_tick_irq now s) × AllCalm s (sched_on_timer_tick_irq now s)
sched_on_timer_tick_irq-IsSched now s d =
    let c = d.runs in
    let w : Sched = sched_wake_sleepers now s in
    let q : IsQuiet (task_at w c) (ticked (task_at w c)) = ticked-IsQuiet (task_at w c) in
    let dt : IsSched (put_task c (ticked (task_at w c)) w) =
      quiet-IsSched w c (ticked (task_at w c)) q (wake-IsSched now s d) in
    let dc : IsSched (counted c w) = unread-IsSched refl refl refl refl refl refl dt in
    let calm : AllCalm s (counted c w) =
      calm-all_trans s w (counted c w) (wake-AllCalm now s)
        (quiet-AllCalm w c (ticked (task_at w c)) q) in
    rw (tick-counted now c s d.current (ground (arith, d.started, d.ready.out)))
      (elim (Bool-cases (ltb 0 (task_at (counted c w) c).timeslice_left)) [
        | inl e ↦ rw e (dc, calm)
        | inr e ↦ rw e (
          (preempt-IsSched c (counted c w) dc).0,
          calm-all_trans s (counted c w) (preempt c (counted c w)) calm
              (preempt-IsSched c (counted c w) dc).1,
        )
      ])
