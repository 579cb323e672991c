-- ===== src/Sched/Round.antt =====
-- One round of the wait for a child in kernel/sched.c.
use skez_os.Prelude.{
  ℕ, ◌≡◌, ◌≢◌, refl, ap, ◌∙◌, ◌⊎◌, inl, inr, Bool, true, false, Option, none, some, arith,
  Bool-cases,
}
use skez_os.Sched.{state_code, Sched, task_at}
use skez_os.Sched.Calm.{live-place, IsReady}
use skez_os.Prelude.{ok, err, noent}
use skez_os.Sched.Children.{
  is_child, find_zombie, sched_reap_task, sched_find_matching_zombie_child,
}
use skez_os.Sched.Wait.{WaitRound, returned, blocked, exit_code_of, wait_found, wait_round}
use skez_os.Sched.Calls.{IsSched, NotIdle}
use skez_os.Sched.Reap.{put-here, put-other, sched_reap_task-IsSched}
use skez_os.Sched.Parent.{core-IsReady}
use skez_os.Sched.Zombies.{Sought, find_zombie-Sought}
use skez_os.Sched.Block.{IsChild, block-IsReady, forget-code, forget-IsSched}

-- What a round returns, or that it blocks.
abbrev pub RoundIs : (c target : ℕ) (nohang : Bool) → Sched → WaitRound → Type 0
RoundIs c target nohang s (returned st pid code r) =
    IsSched r
    × (((st ≡ ok)
          × ((z : ℕ) × IsChild c target s z
              × (state_code (task_at s z).state ≡ 5)
              × (pid ≡ (task_at s z).pid)
              × (code ≡ exit_code_of (task_at s z))
              × (state_code (task_at r z).state ≡ 0)))
        ⊎ (((st ≡ ok)
              × (nohang ≡ true)
              × (pid ≡ 0)
              × ((k : ℕ) × IsChild c target s k)
              × ((k : ℕ) → IsChild c target s k → state_code (task_at s k).state ≢ 5))
            ⊎ ((st ≡ err noent) × ((k : ℕ) → ¬ IsChild c target s k))))
RoundIs c target nohang s (blocked b) =
    IsReady b
    × (b.started ≡ true)
    × (nohang ≡ false)
    × ((k : ℕ) × IsChild c target s k)
    × ((k : ℕ) → IsChild c target s k → state_code (task_at s k).state ≢ 5)

module _ (c target : ℕ) (s : Sched) where
  child-is : (k : ℕ) → IsChild c target s k → is_child (task_at s c).pid target (task_at s k) ≡ true
  child-is k (live, child, wanted) = ground (arith, live, child, wanted)

  IsChild-holds :
      (k : ℕ) → is_child (task_at s c).pid target (task_at s k) ≡ true → IsChild c target s k
  IsChild-holds k e = (ground (arith, e), ground (arith, e), ground (arith, e))

  zombie-free :
      {found : Option ℕ × Bool}
      → Sought (task_at s c).pid target s.tasks found
      → found.0 ≡ none
      → (k : ℕ) → IsChild c target s k
      → state_code (task_at s k).state ≢ 5
  zombie-free h none_found k is five =
      ground (arith, five, h.no_zombie none_found k (live-place s k is.0) (child-is k is))

  module _ (nohang : Bool) (d : IsSched s) (busy : NotIdle s) (current : s.current ≡ some c)
      (running : state_code (task_at s c).state ≡ 2) where
    wait_found-RoundIs :
        (zombie : Option ℕ) (has : Bool)
        → Sought (task_at s c).pid target s.tasks (zombie, has)
        → RoundIs c target nohang s (wait_found c target nohang zombie has s)
    unfolding wait_found
    wait_found-RoundIs (some z) has h =
        let (lt, is, zom) = h.zombie z refl in
        let five : state_code (task_at s z).state ≡ 5 = ground (arith, zom) in
        let (d', p) = sched_reap_task-IsSched z s d five in
        let r : Sched = sched_reap_task z s in
        let n : c ≢ z =
          λ e. absurd (omega (arith, running, five, ap (λ x. state_code (task_at s x).state) e)) in
        let still : state_code (task_at r c).state ≡ 2 =
          ap (λ u. state_code u.state) (put-other p c n) ∙ running in
        (
          forget-IsSched c r d' still,
          inl (
            refl,
            (
              z,
              IsChild-holds z is,
              five,
              refl,
              refl,
              forget-code c r z ∙ ap (λ u. state_code u.state) (put-here p lt),
            ),
          ),
        )
    wait_found-RoundIs none false h = (
      d,
      inr (
          inr
            (refl, λ k is. ground (arith, h.no_child refl k (live-place s k is.0), child-is k is))),
    )
    wait_found-RoundIs none true h =
        let (k, lt, is) = h.child refl in
        let kid : IsChild c target s k = IsChild-holds k is in
        elim (Bool-cases nohang) [
          | inl e ↦ rw e (
            forget-IsSched c s d running,
            inr (inl (refl, refl, refl, (k, kid), zombie-free h refl)),
          )
          | inr e ↦ rw e (
            core-IsReady
                (record {
                  tasks = refl;
                  current = refl;
                  idle = refl;
                  next_pid = refl;
                  started = refl;
                  out = refl;
                })
                (block-IsReady s c target k d busy current running kid (zombie-free h refl k kid)),
            d.started,
            refl,
            (k, kid),
            zombie-free h refl,
          )
        ]

pub wait_round-RoundIs :
    (c target : ℕ) (nohang : Bool) (s : Sched)
    → IsSched s
    → NotIdle s
    → s.current ≡ some c
    → state_code (task_at s c).state ≡ 2
    → RoundIs c target nohang s (wait_round c target nohang s)
unfolding wait_round sched_find_matching_zombie_child
wait_round-RoundIs c target nohang s d busy current running =
    wait_found-RoundIs c target s nohang d busy current running
      (find_zombie (task_at s c).pid target s.tasks).0
      (find_zombie (task_at s c).pid target s.tasks).1
      (find_zombie-Sought (task_at s c).pid target s.tasks)
