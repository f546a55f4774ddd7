-- ===== src/Thread/Finish.antt =====
-- How a thread that was told to stop ends.
use aio4c.Prelude.{ℕ, zero, suc, ◌<◌, ◌≤◌, ◌≡◌, refl, Bool, true, false, some, arith, ◌⊎◌, inl, inr}
use aio4c.Thread.{
  Runner, Side, System, Step, begin, init_returns, enter, leave, run_returns, retake, still_running,
  was_stopped, store, exit_returns, finish, start, create_fails, create, wait, wake, start_returns,
  stop, join, free, join_returns, Reached, stepped,
}
use aio4c.Thread.Life.{Stage, stage_of, is_new, is_started, Reached-Inv}

-- Which of the two threads takes a step.
abbrev pub side_of : {s s' : System} → Step s s' → Side
side_of (begin r h) = Side.runner
side_of (init_returns b r) = Side.runner
side_of (enter r h) = Side.runner
side_of (leave r h) = Side.runner
side_of (run_returns b r) = Side.runner
side_of (retake b r h) = Side.runner
side_of (still_running b r h) = Side.runner
side_of (was_stopped b r h) = Side.runner
side_of (store b r) = Side.runner
side_of (exit_returns r) = Side.runner
side_of (finish r) = Side.runner
side_of (start r h) = Side.starter
side_of (create_fails r) = Side.starter
side_of (create r) = Side.starter
side_of (wait r h) = Side.starter
side_of (wake r h) = Side.starter
side_of (start_returns r h) = Side.starter
side_of (stop r) = Side.starter
side_of (join r h) = Side.starter
side_of (free r h) = Side.starter
side_of (join_returns r h) = Side.starter

-- A step of the runner.
abbrev pub Move : System → System → Type 0
Move s s' = (step : Step s s') × (side_of step ≡ Side.runner)

-- Whatever the runner does, it is at its end after `n` steps of its own at most, with `exit` called last; and until then it can do one.
pub data MustFinish : ℕ → System → Type 0 where
  at_end :
      {n : ℕ} {s : System}
      → s.runner ≡ Runner.finished
      → stage_of s.calls ≡ some Stage.ended
      → MustFinish n s
  moves :
      {n : ℕ} {s s' : System}
      → Move s s'
      → ((t : System) → Move s t → MustFinish n t)
      → MustFinish (suc n) s

-- How many steps are left once `running` is false.
abbrev steps_left : Runner → ℕ
steps_left Runner.in_run = 6
steps_left (Runner.returned b) = 5
steps_left (Runner.holding b) = 4
steps_left (Runner.storing b) = 4
steps_left Runner.testing = 3
steps_left Runner.leaving = 2
steps_left Runner.left = 1
steps_left r = 0

abbrev pub stores_true : Runner → Bool
stores_true (Runner.storing b) = b
stores_true r = false

-- The runner is behind `init`, and `running` is false and stays so.
abbrev Stopped : System → Type 0
Stopped s =
    (is_started s.starter ≡ true)
    × (is_new s.runner ≡ false)
    × (s.thread.running ≡ false)
    × (stores_true s.runner ≡ false)

Move-Stopped :
    {s s' : System} (step : Step s s')
    → side_of step ≡ Side.runner
    → Stopped s
    → Stopped s' × (steps_left s'.runner < steps_left s.runner)
Move-Stopped (begin r h) e p = ground (arith, r, p)
Move-Stopped (init_returns b r) e p = ground (arith, r, p)
Move-Stopped (enter r h) e p = ground (arith, r, h, p)
Move-Stopped (leave r h) e p = ground (arith, r, h, p)
Move-Stopped (run_returns b r) e p = ground (arith, r, p)
Move-Stopped (retake b r h) e p = ground (arith, r, h, p)
Move-Stopped (still_running b r h) e p = ground (arith, r, h, p)
Move-Stopped (was_stopped b r h) e p = ground (arith, r, h, p)
Move-Stopped (store b r) e p = ground (arith, r, p)
Move-Stopped (exit_returns r) e p = ground (arith, r, p)
Move-Stopped (finish r) e p = ground (arith, r, p)
Move-Stopped (start r h) e p = absurd (cc)
Move-Stopped (create_fails r) e p = absurd (cc)
Move-Stopped (create r) e p = absurd (cc)
Move-Stopped (wait r h) e p = absurd (cc)
Move-Stopped (wake r h) e p = absurd (cc)
Move-Stopped (start_returns r h) e p = absurd (cc)
Move-Stopped (stop r) e p = absurd (cc)
Move-Stopped (join r h) e p = absurd (cc)
Move-Stopped (free r h) e p = absurd (cc)
Move-Stopped (join_returns r h) e p = absurd (cc)

-- A runner that is not at its end is not stuck.
runner_moves :
    {s : System}
    → Reached s
    → Stopped s
    → (q : Runner) → s.runner ≡ q
    → s.runner ≡ Runner.finished ⊎ ((s' : System) × Move s s')
runner_moves r p Runner.absent e = absurd (ground (arith, e, p))
runner_moves r p Runner.created e = absurd (ground (arith, e, p))
runner_moves r p Runner.initializing e = absurd (ground (arith, e, p))
runner_moves r p Runner.testing e = inr (_, (leave e p.2, refl))
runner_moves r p Runner.in_run e = inr (_, (run_returns true e, refl))
runner_moves r p (Runner.returned b) e =
    let (stage, inv) = Reached-Inv r in inr (_, (retake b e (ground (arith, e, inv, p)), refl))
runner_moves r p (Runner.holding b) e = inr (_, (was_stopped b e p.2, refl))
runner_moves r p (Runner.storing b) e = inr (_, (store b e, refl))
runner_moves r p Runner.leaving e = inr (_, (exit_returns e, refl))
runner_moves r p Runner.left e = inr (_, (finish e, refl))
runner_moves r p Runner.finished e = inl e

ended_calls :
    {s : System} → Reached s → s.runner ≡ Runner.finished → stage_of s.calls ≡ some Stage.ended
ended_calls r e = let (stage, inv) = Reached-Inv r in ground (arith, e, inv)

finish_within :
    (n : ℕ) {s : System} → steps_left s.runner ≤ n → Reached s → Stopped s → MustFinish n s
finish_within zero {s} le r p = elim (runner_moves r p s.runner refl) [
  | inl e ↦ at_end e (ended_calls r e)
  | inr (s', move) ↦ absurd (omega (arith, le, (Move-Stopped move.0 move.1 p).1))
]
finish_within (suc n) {s} le r p = elim (runner_moves r p s.runner refl) [
  | inl e ↦ at_end e (ended_calls r e)
  | inr (s', move) ↦ moves move λ t step.
      let (q, less) = Move-Stopped step.0 step.1 p in
      finish_within n (omega (arith, le, less)) (stepped r step.0) q
]

steps_left-le : (q : Runner) → steps_left q ≤ 6
steps_left-le q = ground arith

-- Where ThreadStart has returned true and `running` is false, as ThreadStop leaves it, and the runner is not just about to store a
-- `true` that `run` returned before: the runner, alone, is at its end after at most six steps of its own, whatever `run` returns
-- if it is in there, and until then it can always take one. `exit` is called on the way.
pub stopped-MustFinish :
    {s : System}
    → Reached s
    → is_started s.starter ≡ true
    → s.thread.running ≡ false
    → stores_true s.runner ≡ false
    → MustFinish 6 s
stopped-MustFinish {s} r started stopped stores =
    let (stage, inv) = Reached-Inv r in
    finish_within 6 (steps_left-le s.runner) r
      (started, ground (arith, inv, started), stopped, stores)
