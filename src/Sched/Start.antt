-- ===== src/Sched/Start.antt =====
-- The start of the scheduler of kernel/sched.c: the idle task, the tasks that the kernel makes, and the
-- first switch.
use skez_os.Prelude.{
  ℕ, zero, suc, ◌^◌, ◌<◌, ◌≡◌, ◌≢◌, refl, sym, ap, ◌∙◌, inl, inr, true, false, Option, none, some,
  List, [], ◌∷◌, arith, ◌==◌, replicate, get_or, Bool-cases,
}
use mathlib.Core.Path.{subst}
use skez_os.Sched.{state_code, Task, Sched, max_tasks, zero_task, task_at, put_task}
use skez_os.Sched.Run.{sched_schedule}
use skez_os.Sched.Family.{IsFamily}
use skez_os.Sched.Calm.{at-put, at-put_self, IsReady}
use skez_os.Sched.Switch.{sched_schedule-IsScheduled}
use skez_os.Prelude.Lists.{find_first}
use skez_os.Prelude.{ok}
use skez_os.File.{FileOps}
use skez_os.Sched.{default_stack, kernel_space, minus_one}
use skez_os.Sched.Children.{sched_find_task_slot}
use skez_os.Sched.Spawn.{
  new_task, stack_pages, add_task, inherits, spawn_inheriting, spawn_slot,
  sched_spawn_task_internal, sched_spawn_kernel_task, initial, init_idle, sched_init,
}
use skez_os.Sched.Run.{sched_start}
use skez_os.Sched.Calls.{IsSched, scheduled-IsSched}
use skez_os.Sched.Join.{alone, add-IsFamily, add_task-IsReady}
use skez_os.Sched.Born.{free_slot}

-- Before the start: no task is current.
pub record IsBooting (s : Sched) : Type 0 where
  pub ready : IsReady s
  pub stopped : s.started ≡ false

inherits-none :
    (parent : ℕ) (o : Option ℕ) (s : Sched) → parent ≡ minus_one → inherits parent o s ≡ none
inherits-none parent none s e = refl
inherits-none parent (some c) s e = subst (λ p. inherits p (some c) s ≡ none) (sym e) refl

module _ {W : Type 0} (vtable : ℕ → FileOps W) where
  kernel_slot-IsBooting :
      (slot : Option ℕ) (stack : ℕ) (t : Task) (s : Sched) (w : W)
      → sched_find_task_slot s ≡ slot
      → IsBooting s
      → s.next_pid < 2 ^ 31
      → state_code t.state ≡ 1
      → t.pid ≡ s.next_pid
      → t.parent_pid ≡ minus_one
      → IsBooting (spawn_slot vtable slot stack false t s w).2
  unfolding spawn_slot spawn_inheriting
  kernel_slot-IsBooting none stack t s w e b room one pid up = b
  kernel_slot-IsBooting (some slot) stack t s w e b room one pid up =
      let (lt, free) = free_slot s slot e in
      let joined : IsBooting (add_task slot t s) = record {
        ready = add_task-IsReady s slot t b.ready free (alone one pid up) room;
        stopped = add-stopped slot t s ∙ b.stopped;
      } in
      elim (Bool-cases (stack == 0)) [
        | inl z ↦ rw z b
        | inr z ↦ rw (z, inherits-none t.parent_pid s.current s up) joined
      ]
    where
      add-stopped : (slot : ℕ) (t : Task) (s : Sched) → (add_task slot t s).started ≡ s.started
      add-stopped slot t s = refl

  pub sched_spawn_kernel_task-IsBooting :
      (name : Option (List ℕ)) (entry arg stack_size stack : ℕ) (s : Sched) (w : W)
      → IsBooting s
      → s.next_pid < 2 ^ 31
      → IsBooting (sched_spawn_kernel_task vtable name entry arg stack_size stack s w).2
  unfolding sched_spawn_kernel_task sched_spawn_task_internal new_task
  sched_spawn_kernel_task-IsBooting name entry arg stack_size stack s w b room =
      elim (Bool-cases (entry == 0)) [
        | inl e ↦ rw e b
        | inr e ↦
            rw e (
              kernel_slot-IsBooting (sched_find_task_slot s) stack _ s w refl b room refl refl refl)
      ]

get_or-replicate {ℓ} : {A : Type ℓ} (n i : ℕ) (a : A) → get_or (replicate n a) i a ≡ a
get_or-replicate zero i a = refl
get_or-replicate (suc n) zero a = refl
get_or-replicate (suc n) (suc i) a = get_or-replicate n i a

no_task-state : (i : ℕ) → state_code (task_at initial i).state ≡ 0
no_task-state i = ap (λ t. state_code t.state) (get_or-replicate max_tasks i zero_task)

initial-IsFamily : IsFamily 1 (task_at initial)
initial-IsFamily = record {
  room = (omega arith, omega arith);
  bounds = λ i h. absurd (omega (arith, h, no_task-state i));
  unique = λ i j hi hj e. absurd (omega (arith, hi, no_task-state i));
  family = λ i h. absurd (omega (arith, h, no_task-state i));
  waiting = λ i h. absurd (omega (arith, h, no_task-state i));
}

idle-IsBooting :
    (t : Task)
    → state_code t.state ≡ 1
    → t.pid ≡ 1
    → t.parent_pid ≡ minus_one
    → IsBooting (record (add_task 0 t initial) { idle = some 0 })
unfolding add_task
idle-IsBooting t one pid up =
    let here : task_at (put_task 0 t initial) 0 ≡ t = at-put_self initial 0 t (omega arith) in
    record {
      ready = record {
        size = refl;
        family = add-IsFamily initial 0 t initial-IsFamily refl (alone one pid up) (omega arith);
        out = refl;
        running = λ i two. elim (at-put initial 0 i t) [
          | inl e ↦ absurd (omega (arith, two, ap (λ u. state_code u.state) e, no_task-state i))
          | inr (same, e) ↦ absurd (omega (arith, two, ap (λ u. state_code u.state) e, one))
        ];
        idle_task = 0;
        idle = refl;
        idle_ready = (omega (arith, one), omega (arith, one));
      };
      stopped = refl;
    }

first_slot : sched_find_task_slot initial ≡ some 0
unfolding sched_find_task_slot find_first
first_slot = refl

abbrev idle_name : Option (List ℕ)
idle_name = some (105 ∷ 100 ∷ 108 ∷ 101 ∷ [])

abbrev idle_task : (entry stack : ℕ) → Task
idle_task entry stack =
    new_task 1 idle_name false entry 0 stack (stack_pages default_stack) minus_one kernel_space

idle-spawned :
    {W : Type 0} (vtable : ℕ → FileOps W) (entry stack : ℕ) (w : W)
    → entry ≢ 0
    → stack ≢ 0
    → sched_spawn_kernel_task vtable idle_name entry 0 default_stack stack initial w
      ≡ (ok, 1, add_task 0 (idle_task entry stack) initial, w)
unfolding sched_spawn_kernel_task sched_spawn_task_internal spawn_slot spawn_inheriting new_task
idle-spawned vtable entry stack w e z =
    let no_entry : (entry == 0) ≡ false = ground (arith, e) in
    let no_stack : (stack == 0) ≡ false = ground (arith, z) in
    rw (no_entry, first_slot) (rw no_stack refl)

pub sched_init-IsBooting :
    {W : Type 0} (vtable : ℕ → FileOps W) (entry stack : ℕ) (w : W)
    → entry ≢ 0
    → stack ≢ 0
    → (s : Sched) × (sched_init vtable entry stack w ≡ some (s, w)) × IsBooting s × (s.next_pid ≡ 2)
unfolding sched_init init_idle new_task
sched_init-IsBooting vtable entry stack w e z = (
  record (add_task 0 (idle_task entry stack) initial) { idle = some 0 },
  ap init_idle (idle-spawned vtable entry stack w e z),
  idle-IsBooting (idle_task entry stack) refl refl refl,
  next-two 0 (idle_task entry stack),
)
  where
    next-two : (k : ℕ) (t : Task) → (add_task k t initial).next_pid ≡ 2
    next-two k t = refl

start-schedules :
    (now : ℕ) (s : Sched)
    → s.started ≡ false
    → sched_start now s ≡ sched_schedule now (record s { started = true })
unfolding sched_start
start-schedules now s e = simp (e, sched_start)

-- The first switch.
pub sched_start-IsSched :
    (now : ℕ) (s : Sched) → IsBooting s → (s' : Sched) × (sched_start now s ≡ some s') × IsSched s'
sched_start-IsSched now s b =
    let on : Sched = record s { started = true } in
    let r : IsReady on = record {
      size = b.ready.size;
      family = b.ready.family;
      out = b.ready.out;
      running = b.ready.running;
      idle_task = b.ready.idle_task;
      idle = b.ready.idle;
      idle_ready = b.ready.idle_ready;
    } in
    let (s', e, done) = sched_schedule-IsScheduled now on r refl in
    rw (start-schedules now s b.stopped) (s', e, scheduled-IsSched refl done)
