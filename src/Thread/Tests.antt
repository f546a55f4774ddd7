-- ===== src/Thread/Tests.antt =====
-- A thread that is started, runs once, is stopped while it runs for the second time, and is joined.
use aio4c.Prelude.{
  ◌≡◌, refl, true, false, some, none, List, [], ◌∷◌, ℕ, ◌+◌, ◌==◌, update, arith, if◌then◌else◌,
}
use aio4c.Machine.Defs.{Returns}
use aio4c.Thread.{thread_self, thread_main}
use aio4c.Thread.Table.{Change, added, ended, change_all, owner_after, thread_self-Represents}
use aio4c.Lock.{Thread, ThreadState}
use aio4c.Thread.{
  init, run, exit, Runner, Starter, System, begin, init_returns, enter, leave, run_returns, retake,
  still_running, was_stopped, store, exit_returns, finish, start, create, wait, wake, start_returns,
  stop, join, join_returns, Reached, made, stepped,
}
use aio4c.Thread.Life.{Stage, stage_of, succeeded, is_started, Reached-Lifecycle, Reached-Joined}
use aio4c.Thread.Finish.{MustFinish, stopped-MustFinish}

abbrev stopped_state : System
stopped_state = record {
  thread = record { state = ThreadState.running; running = false; initialized = true };
  runner = Runner.in_run;
  starter = Starter.started;
  holder = none;
  calls = run true ∷ init true ∷ [];
}

Reached-stopped_state : Reached stopped_state
Reached-stopped_state =
    let waits = stepped (stepped (stepped made (start refl refl)) (create refl)) (wait refl refl) in
    let runs =
      stepped (stepped (stepped waits (begin refl refl)) (init_returns true refl))
        (enter refl refl) in
    let starts = stepped (stepped runs (wake refl refl)) (start_returns refl refl) in
    let again =
      stepped (stepped (stepped starts (run_returns true refl)) (retake true refl refl))
        (still_running true refl refl) in
    stepped (stepped (stepped again (store true refl)) (enter refl refl)) (stop refl)

abbrev joined_state : System
joined_state = record {
  thread = record { state = ThreadState.joined; running = false; initialized = true };
  runner = Runner.finished;
  starter = Starter.joined;
  holder = none;
  calls = exit ∷ run true ∷ run true ∷ init true ∷ [];
}

Reached-joined_state : Reached joined_state
Reached-joined_state =
    let waits = stepped Reached-stopped_state (join refl refl) in
    let back =
      stepped (stepped (stepped waits (run_returns true refl)) (retake true refl refl))
        (was_stopped true refl refl) in
    let ends =
      stepped (stepped (stepped back (leave refl refl)) (exit_returns refl)) (finish refl) in
    stepped ends (join_returns refl refl)

Reached-Lifecycle_example :
    (stage : Stage) × (stage_of joined_state.calls ≡ some stage)
    × (joined_state.runner ≡ Runner.finished → stage ≡ Stage.ended)
Reached-Lifecycle_example = Reached-Lifecycle Reached-joined_state

Reached-Joined_example :
    (is_started joined_state.starter ≡ true → ¬ (joined_state.calls ≡ []))
    × (joined_state.starter ≡ Starter.joined
        → succeeded joined_state.calls ≡ true
        → (joined_state.runner ≡ Runner.finished)
          × (stage_of joined_state.calls ≡ some Stage.ended))
Reached-Joined_example = Reached-Joined Reached-joined_state

stopped-MustFinish_example : MustFinish 6 stopped_state
stopped-MustFinish_example = stopped-MustFinish Reached-stopped_state refl refl refl

-- The threads 5 and 6 are started, 5 ends, and 7 gets its identifier.
abbrev identifier : Thread → ℕ
identifier t = if t == 7 then 105 else t + 100

abbrev changes : List Change
changes = added 5 ∷ added 6 ∷ ended 5 ∷ added 7 ∷ []

thread_self-Represents_example :
    Returns
      (λ xs.
        (i : ℕ)
        → thread_self identifier i (some xs)
          ≡ owner_after identifier changes (update 101 (some 1) (λ j. none)) i)
      (change_all changes (thread_main 1))
thread_self-Represents_example =
    thread_self-Represents identifier 1 changes (refl, (refl, (refl, (refl, tt)))) (omega arith)
