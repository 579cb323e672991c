-- ===== src/Sched/Waitpid.antt =====
-- Waiting for a child in kernel/sched.c.
use skez_os.Prelude.{
  ℕ, ◌≡◌, ◌≢◌, refl, ap, ◌∙◌, inl, inr, Bool, false, none, some, arith, ◌==◌, Option-cases,
}
use mathlib.Core.Path.{subst}
use skez_os.Sched.{state_code, Sched, task_at}
use skez_os.Sched.Switch.{sched_schedule-IsScheduled}
use skez_os.Prelude.{err, Errno}
use skez_os.Sched.{minus_one}
use skez_os.Sched.Wait.{
  WaitRound, returned, blocked, scheduled_round, wait_call, wait_round, wait_checks,
  sched_waitpid_ex,
}
use skez_os.Sched.Calls.{IsSched, NotIdle, scheduled-IsSched}
use skez_os.Sched.Block.{IsChild}
use skez_os.Sched.Round.{RoundIs, wait_round-RoundIs}

-- The end of a call, or the state in which it waits, scheduled.
abbrev pub CallIs : (c target : ℕ) (nohang : Bool) → Sched → WaitRound → Type 0
CallIs c target nohang s (returned st pid code r) =
    RoundIs c target nohang s (returned st pid code r)
CallIs c target nohang s (blocked r) =
    IsSched r
    × (nohang ≡ false)
    × ((k : ℕ) × IsChild c target s k)
    × ((k : ℕ) → IsChild c target s k → state_code (task_at s k).state ≢ 5)

scheduled_round-CallIs :
    (c target now : ℕ) (nohang : Bool) (s : Sched) (o : WaitRound)
    → RoundIs c target nohang s o
    → (o' : WaitRound) × (scheduled_round now o ≡ some o') × CallIs c target nohang s o'
unfolding scheduled_round
scheduled_round-CallIs c target now nohang s (returned st pid code r) h =
    (returned st pid code r, refl, h)
scheduled_round-CallIs c target now nohang s (blocked b) (r, on, hangs, kid, alive) =
    let (s', e, done) = sched_schedule-IsScheduled now b r on in
    rw (e, scheduled_round) (blocked s', refl, (scheduled-IsSched on done, hangs, kid, alive))

module _ (target options now : ℕ) (s : Sched) where
  waitpid-checked :
      (c : ℕ)
      → wait_checks target options s ≡ none
      → s.current ≡ some c
      → sched_waitpid_ex target options now s
        ≡ scheduled_round now (wait_round c target (options == 1) s)
  unfolding sched_waitpid_ex wait_call
  waitpid-checked c e current =
      ap (λ o. wait_call o s.current target options now s) e
      ∙ ap (λ o. wait_call none o target options now s) current

  waitpid-refused :
      (e : Errno)
      → wait_checks target options s ≡ some e
      → sched_waitpid_ex target options now s ≡ some (returned (err e) minus_one 0 s)
  unfolding sched_waitpid_ex wait_call
  waitpid-refused e h = ap (λ o. wait_call o s.current target options now s) h

  -- In a state that keeps the scheduler's invariant and whose current task is not the idle task,
  -- `sched_waitpid_ex` has a result. When the checks refuse the call it is their error, and nothing
  -- changes. Otherwise the call returns the pid and the exit code of a zombie child that matches,
  -- whose slot is then free; or 0 for a pid with NOHANG when a child matches and none of them is a
  -- zombie; or -KERR_NOENT when no child matches; or it blocks, when a child matches, none of them is
  -- a zombie and NOHANG is not given. The invariant is kept.
  pub sched_waitpid_ex-CallIs :
      IsSched s
      → NotIdle s
      → (o : WaitRound) × (sched_waitpid_ex target options now s ≡ some o)
        × ((c : ℕ)
            → s.current ≡ some c
            → wait_checks target options s ≡ none
            → CallIs c target (options == 1) s o)
        × ((e : Errno) → wait_checks target options s ≡ some e → o ≡ returned (err e) minus_one 0 s)
  sched_waitpid_ex-CallIs d busy = elim (Option-cases (wait_checks target options s)) [
    | inr (e, h) ↦ (
      returned (err e) minus_one 0 s,
      waitpid-refused e h,
      λ c current g. absurd (ground (arith, g, h)),
      λ e' h'. ap (λ x. returned (err x) minus_one 0 s) (ground (arith, h, h')),
    )
    | inl h ↦
        let (o, e, is) =
          scheduled_round-CallIs d.runs target now (options == 1) s
            (wait_round d.runs target (options == 1) s)
            (wait_round-RoundIs d.runs target (options == 1) s d busy d.current d.running) in
        (
          o,
          waitpid-checked d.runs h d.current ∙ e,
          λ c current g.
              subst (λ x. CallIs x target (options == 1) s o) (ground (arith, d.current, current))
                is,
          λ e' h'. absurd (ground (arith, h, h')),
        )
  ]
