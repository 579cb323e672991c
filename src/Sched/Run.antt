-- ===== src/Sched/Run.antt =====
-- kernel/sched.c: choosing the next task and switching to it, the timer tick, yielding and sleeping.
-- A result `none` is `sched_panic_unexpected_return`. The time is `timer_ticks`. A switch runs until
-- the task that it resumes has left the scheduler.
use skez_os.Prelude.{
  ℕ, zero, suc, ◌+◌, ◌-◌, ◌%◌, ◌^◌, Bool, true, false, not, ◌&&◌, ◌||◌, Option, none, some, List,
  [], ◌∷◌, map, leb, ltb, ◌==◌, if◌then◌else◌, set,
}
use skez_os.Sched.{
  task_runnable, task_running, task_sleeping, Resume, nowhere, trampoline, in_switch, Task, Sched,
  activated, freed, destroyed, max_tasks, default_timeslice, in_state, task_at, put_task, is_index,
}
use skez_os.Sched.Children.{woken}

unfoldable pub wake_sleeper : (now : ℕ) → Task → Task
wake_sleeper now t = if in_state t task_sleeping && leb t.wake_tick now then woken t else t

unfoldable pub sched_wake_sleepers : (now : ℕ) → Sched → Sched
unfolding wake_sleeper
sched_wake_sleepers now s = record s { tasks = map (wake_sleeper now) s.tasks }

unfoldable pub count_runnable : List Task → ℕ
count_runnable [] = 0
count_runnable (t ∷ ts) =
    let rest = count_runnable ts in
    if in_state t task_runnable || in_state t task_running then rest + 1 else rest

unfoldable pub sched_runnable_count : Sched → ℕ
unfolding count_runnable
sched_runnable_count s = count_runnable s.tasks

-- A task that the loop of `sched_pick_next_locked` takes.
abbrev pub is_waiting : Sched → ℕ → Bool
is_waiting s i =
    not (is_index s.current i) && not (is_index s.idle i) && in_state (task_at s i) task_runnable

-- Its rounds `n`, `n + 1`, ….
unfoldable pub pick_rounds : Sched → (n rounds : ℕ) → Option ℕ
pick_rounds s n zero = none
pick_rounds s n (suc rounds) =
    let rest = pick_rounds s (n + 1) rounds in
    if is_waiting s ((s.rr_cursor + n) % max_tasks)
    then some ((s.rr_cursor + n) % max_tasks)
    else rest

abbrev pub index_in_state : Sched → Option ℕ → (Task → Bool) → Bool
index_in_state s none test = false
index_in_state s (some i) test = test (task_at s i)

-- What the choice falls back on.
unfoldable pub pick_fallback : Sched → Option ℕ × Sched
pick_fallback s =
    if index_in_state s s.current (λ t. in_state t task_running)
      || index_in_state s s.current (λ t. in_state t task_runnable)
    then (s.current, s)
    else if index_in_state s s.idle (λ t. in_state t task_runnable)
    then (s.idle, s)
    else (none, s)

unfoldable pub sched_pick_next : Sched → Option ℕ × Sched
unfolding pick_rounds pick_fallback
sched_pick_next s = elim (pick_rounds s 0 max_tasks) [
  | some i ↦ (some i, record s { rr_cursor = (i + 1) % max_tasks })
  | none ↦ pick_fallback s
]

unfoldable pub flush_deferred_stack_free : Sched → Sched
flush_deferred_stack_free s =
    if s.deferred_stack == 0
    then s
    else record s { deferred_stack = 0; effects = freed s.deferred_stack ∷ s.effects }

unfoldable pub flush_deferred_as_free : Sched → Sched
flush_deferred_as_free s =
    if s.deferred_as == 0
    then s
    else record s { deferred_as = 0; effects = destroyed s.deferred_as ∷ s.effects }

-- The suspended task: runnable again when it was running.
abbrev pub suspended : Task → Task
suspended t = record t {
  state = if in_state t task_running then task_runnable else t.state;
  esp = in_switch;
}

abbrev pub resumed : Task → Task
resumed t = record t {
  state = task_running;
  timeslice_left = default_timeslice;
  switches = (t.switches + 1) % 2 ^ 32;
}

unfoldable pub suspend : Option ℕ → Sched → Sched
suspend none s = s
suspend (some c) s = put_task c (suspended (task_at s c)) s

-- What the resumed task runs: the trampoline frees nothing, and `sched_switch_locked` flushes.
unfoldable pub after_switch : Resume → Sched → Sched
unfolding flush_deferred_stack_free flush_deferred_as_free
after_switch in_switch s = flush_deferred_as_free (flush_deferred_stack_free s)
after_switch trampoline s = s
after_switch nowhere s = s

-- `next` made the current task, until it has left the scheduler.
abbrev pub entered : (next : ℕ) → Sched → Sched
entered next s = record s {
  tasks = set s.tasks next (resumed (task_at s next));
  current = some next;
  context_switches = (s.context_switches + 1) % 2 ^ 32;
  in_scheduler = false;
  effects = activated (task_at s next).address_space ∷ s.effects;
}

-- From `next->state = TASK_RUNNING` to the end of the switch.
unfoldable pub resume : (next : ℕ) → Sched → Sched
unfolding after_switch
resume next s = after_switch (task_at s next).esp (entered next s)

unfoldable pub sched_switch : (next : ℕ) → Sched → Sched
unfolding suspend resume
sched_switch next s =
    if s.in_scheduler
    then s
    else if is_index s.current next && s.started
    then if in_state (task_at s next) task_runnable
      then put_task next (record (task_at s next) { state = task_running }) s
      else s
    else resume next (suspend s.current s)

unfoldable pub sched_schedule : (now : ℕ) → Sched → Option Sched
unfolding sched_wake_sleepers sched_pick_next sched_switch
sched_schedule now s =
    let picked = sched_pick_next (sched_wake_sleepers now s) in
    elim picked.0 [ none ↦ none | some next ↦ some (sched_switch next picked.1) ]

-- `sched_start` does not return: its end is another panic, and is not reached.
unfoldable pub sched_start : (now : ℕ) → Sched → Option Sched
unfolding sched_schedule
sched_start now s = if s.started then none else sched_schedule now (record s { started = true })

unfoldable pub sched_yield : (now : ℕ) → Sched → Option Sched
unfolding sched_schedule
sched_yield now s = elim s.current [
  | none ↦ some s
  | some c ↦ if s.started then sched_schedule now (record s { need_resched = false }) else some s
]

unfoldable pub sched_sleep_ticks : (ticks now : ℕ) → Sched → Option Sched
unfolding sched_yield sched_schedule
sched_sleep_ticks ticks now s = elim s.current [
  | none ↦ some s
  | some c ↦
      if s.started
      then if ticks == 0
        then sched_yield now s
        else sched_schedule now (record s {
          tasks =
              (put_task c
                (record (task_at s c) { wake_tick = (now + ticks) % 2 ^ 64; state = task_sleeping })
                s).tasks;
          need_resched = false;
        })
      else some s
]

unfoldable pub sched_checkpoint : (now : ℕ) → Sched → Option Sched
unfolding sched_yield
sched_checkpoint now s = if s.need_resched then sched_yield now s else some s

-- What the tick counts on the current task.
unfoldable pub ticked : Task → Task
ticked t = record t {
  ticks_run = (t.ticks_run + 1) % 2 ^ 32;
  timeslice_left = t.timeslice_left - 1;
}

-- The tick when the timeslice of task `c` has ended.
unfoldable pub preempt : (c : ℕ) → Sched → Sched
unfolding sched_pick_next sched_switch
preempt c s =
    let fresh : Sched =
      put_task c (record (task_at s c) { timeslice_left = default_timeslice }) s in
    let picked = sched_pick_next fresh in
    elim picked.0 [
      | none ↦ picked.1
      | some next ↦
          if c == next
          then picked.1
          else sched_switch next (record picked.1 {
            tasks =
                (put_task c
                  (record (task_at picked.1 c) {
                    preemptions = ((task_at picked.1 c).preemptions + 1) % 2 ^ 32;
                  })
                  picked.1).tasks;
            need_resched = false;
          })
    ]

unfoldable pub sched_on_timer_tick_irq : (now : ℕ) → Sched → Sched
unfolding sched_wake_sleepers ticked preempt
sched_on_timer_tick_irq now s = elim s.current [
  | none ↦ s
  | some c ↦
      if not s.started || s.in_scheduler
      then s
      else let w : Sched = sched_wake_sleepers now s in
        let counted : Sched = record w {
          tasks = (put_task c (ticked (task_at w c)) w).tasks;
          idle_ticks = if is_index w.idle c then (w.idle_ticks + 1) % 2 ^ 32 else w.idle_ticks;
        } in
        if ltb 0 (task_at counted c).timeslice_left then counted else preempt c counted
]
