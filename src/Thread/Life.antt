-- ===== src/Thread/Life.antt =====
-- What a thread calls and when it is freed.
use aio4c.Prelude.{
  ◌≡◌, Bool, true, false, Option, some, none, List, [], ◌∷◌, arith, if◌then◌else◌, not, ◌⊎◌,
}
use aio4c.Thread.{
  is_running_state, Call, init, run, exit, Runner, Starter, Side, System, Step, begin, init_returns,
  enter, leave, run_returns, retake, still_running, was_stopped, store, exit_returns, finish, start,
  create_fails, create, wait, wake, start_returns, stop, join, free, join_returns, Reached, made,
  stepped,
}

-- What the calls must look like: `init`, then `run` as long as all before have returned true, then `exit`.
pub data Stage : Type 0 where
  fresh ready stopped ended : Stage

abbrev pub next : Call → Stage → Option Stage
next (init true) fresh = some Stage.ready
next (init false) fresh = some Stage.stopped
next (run true) ready = some Stage.ready
next (run false) ready = some Stage.stopped
next exit ready = some Stage.ended
next exit stopped = some Stage.ended
next c s = none

abbrev pub stage_of : List Call → Option Stage
stage_of [] = some Stage.fresh
stage_of (c ∷ cs) = elim (stage_of cs) [ none ↦ none | some s ↦ next c s ]

-- Whether `init` has returned true.
abbrev pub succeeded : List Call → Bool
succeeded [] = false
succeeded (init b ∷ cs) = b
succeeded (run b ∷ cs) = succeeded cs
succeeded (exit ∷ cs) = succeeded cs

abbrev pub agrees : Runner → (running : Bool) → Stage → Bool
agrees Runner.absent running Stage.fresh = true
agrees Runner.created running Stage.fresh = true
agrees Runner.initializing running Stage.fresh = true
agrees Runner.testing running Stage.ready = true
agrees Runner.testing false Stage.stopped = true
agrees Runner.in_run running Stage.ready = true
agrees (Runner.returned true) running Stage.ready = true
agrees (Runner.returned false) running Stage.stopped = true
agrees (Runner.holding true) running Stage.ready = true
agrees (Runner.holding false) running Stage.stopped = true
agrees (Runner.storing true) running Stage.ready = true
agrees (Runner.storing false) running Stage.stopped = true
agrees Runner.leaving running Stage.ready = true
agrees Runner.leaving running Stage.stopped = true
agrees Runner.left running Stage.ended = true
agrees Runner.finished running Stage.ended = true
agrees r running s = false

-- The phases in which `init` has not returned, and those in which each side has the lock.
abbrev pub is_new : Runner → Bool
is_new Runner.absent = true
is_new Runner.created = true
is_new Runner.initializing = true
is_new r = false

abbrev pub runner_holds : Runner → Bool
runner_holds Runner.initializing = true
runner_holds Runner.testing = true
runner_holds (Runner.holding b) = true
runner_holds (Runner.storing b) = true
runner_holds r = false

abbrev pub starter_holds : Starter → Bool
starter_holds Starter.creating = true
starter_holds Starter.checking = true
starter_holds s = false

-- The phases in which the runner does not exist yet, and those that follow a ThreadStart which has returned true.
abbrev pub is_early : Starter → Bool
is_early Starter.ready = true
is_early Starter.creating = true
is_early Starter.failed = true
is_early s = false

abbrev pub is_started : Starter → Bool
is_started Starter.started = true
is_started Starter.joining = true
is_started Starter.joined = true
is_started s = false

abbrev pub Inv : (s : System) (stage : Stage) → Type 0
Inv s stage =
    (stage_of s.calls ≡ some stage)
    × (agrees s.runner s.thread.running stage ≡ true)
    × (is_new s.runner ≡ not s.thread.initialized)
    × (runner_holds s.runner ≡ true → s.holder ≡ some Side.runner)
    × (starter_holds s.starter ≡ true → s.holder ≡ some Side.starter)
    × (s.holder ≡ some Side.runner → runner_holds s.runner ≡ true)
    × (s.holder ≡ some Side.starter → starter_holds s.starter ≡ true)
    × (is_early s.starter ≡ true → s.runner ≡ Runner.absent)
    × (is_started s.starter ≡ true → s.thread.initialized ≡ true)
    × (succeeded s.calls ≡ true
        → s.starter ≡ Starter.joined ⊎ (is_running_state s.thread.state ≡ true))
    × (s.starter ≡ Starter.joined → succeeded s.calls ≡ true → s.runner ≡ Runner.finished)

Step-Inv :
    {s s' : System} → Step s s' → (stage : Stage) → Inv s stage → (stage' : Stage) × Inv s' stage'
Step-Inv (begin r h) stage inv = (stage, ground (arith, r, h, inv))
Step-Inv (init_returns b r) stage inv =
    (if b then Stage.ready else Stage.stopped, ground (arith, r, inv))
Step-Inv (enter r h) stage inv = (stage, ground (arith, r, h, inv))
Step-Inv (leave r h) stage inv = (stage, ground (arith, r, h, inv))
Step-Inv (run_returns b r) stage inv =
    (if b then Stage.ready else Stage.stopped, ground (arith, r, inv))
Step-Inv (retake b r h) stage inv = (stage, ground (arith, r, h, inv))
Step-Inv (still_running b r h) stage inv = (stage, ground (arith, r, h, inv))
Step-Inv (was_stopped b r h) stage inv = (stage, ground (arith, r, h, inv))
Step-Inv (store b r) stage inv = (stage, ground (arith, r, inv))
Step-Inv (exit_returns r) stage inv = (Stage.ended, ground (arith, r, inv))
Step-Inv (finish r) stage inv = (stage, ground (arith, r, inv))
Step-Inv (start r h) stage inv = (stage, ground (arith, r, h, inv))
Step-Inv (create_fails r) stage inv = (stage, ground (arith, r, inv))
Step-Inv (create r) stage inv = (stage, ground (arith, r, inv))
Step-Inv (wait r h) stage inv = (stage, ground (arith, r, h, inv))
Step-Inv (wake r h) stage inv = (stage, ground (arith, r, h, inv))
Step-Inv (start_returns r h) stage inv = (stage, ground (arith, r, h, inv))
Step-Inv (stop r) stage inv = (stage, ground (arith, r, inv))
Step-Inv (join r h) stage inv = (stage, ground (arith, r, h, inv))
Step-Inv (free r h) stage inv = (stage, ground (arith, r, h, inv))
Step-Inv (join_returns r h) stage inv = (stage, ground (arith, r, h, inv))

pub Reached-Inv : {s : System} → Reached s → (stage : Stage) × Inv s stage
Reached-Inv made = (Stage.fresh, ground arith)
Reached-Inv (stepped before step) = let (stage, inv) = Reached-Inv before in Step-Inv step stage inv

-- In every state that the starter and the runner can reach: `init` has been called at most once, `run` only after `init`
-- and as long as all calls before it returned true, and `exit` at most once and last; it has been called
-- where the runner is behind `_ThreadCleanup`.
pub Reached-Lifecycle :
    {s : System}
    → Reached s
    → (stage : Stage) × (stage_of s.calls ≡ some stage)
      × (s.runner ≡ Runner.finished → stage ≡ Stage.ended)
Reached-Lifecycle r =
    let (stage, inv) = Reached-Inv r in (stage, inv.0, λ p. ground (arith, p, inv))

-- Once ThreadStart has returned true, `init` has returned, whatever the interleaving of the two threads. Where it has returned
-- true, ThreadJoin frees the thread only after `exit` has returned and the runner is behind `_ThreadCleanup`.
pub Reached-Joined :
    {s : System}
    → Reached s
    → (is_started s.starter ≡ true → ¬ (s.calls ≡ []))
      × (s.starter ≡ Starter.joined
          → succeeded s.calls ≡ true
          → (s.runner ≡ Runner.finished) × (stage_of s.calls ≡ some Stage.ended))
Reached-Joined r =
    let (stage, inv) = Reached-Inv r in
    (λ p q. ground (arith, p, q, inv), λ p q. ground (arith, p, q, inv))
