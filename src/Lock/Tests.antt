-- ===== src/Lock/Tests.antt =====
-- Two threads at one lock: the first waits on the condition, so that the second can go inside.
use aio4c.Prelude.{◌≡◌, refl, Option, some, none, arith}
use aio4c.Lock.{
  Thread, LockState, ThreadState, Phase, System, block, mutex_lock, taken, wait, cond_wait, Reached,
  made, stepped, go, hold, set_states, take_lock, wait_lock, wait_condition, init_lock,
  init_condition,
}
use aio4c.Lock.Exclusion.{Reached-Exclusive}

abbrev self : Thread → Option Thread
self t = some t

abbrev start : System
start = record {
  lock = init_lock;
  condition = init_condition;
  phase = λ t. Phase.outside;
  states = λ t. ThreadState.running;
}

abbrev inside : Thread → System → System
inside t s =
    set_states (self t) ThreadState.running
      (record (go t Phase.inside (
        hold (some t)
          (go t Phase.taking (set_states (self t) ThreadState.blocked (go t Phase.locking s))))) {
            lock = take_lock (self t) (hold (some t) s).lock;
          })

abbrev waiting : Thread → System → System
waiting t s = set_states (self t) ThreadState.idle (record (go t Phase.waiting s) {
  lock = wait_lock s.lock;
  condition = wait_condition (self t) s.condition;
})

abbrev first : System
first = inside 1 start

abbrev asleep : System
asleep = hold none (go 1 Phase.asleep (waiting 1 first))

abbrev second : System
second = inside 2 asleep

enter :
    (t : Thread) (s : System)
    → Reached self s
    → s.phase t ≡ Phase.outside
    → s.lock.holder ≡ none
    → Reached self (inside t s)
enter t s r o h =
    stepped (stepped (stepped r (block t o)) (mutex_lock t (ground (arith, o)) (ground (arith, h))))
      (taken t (ground arith))

Reached-second : Reached self second
Reached-second =
    enter 2 asleep
      (stepped (stepped (enter 1 start made refl refl) (wait 1 refl)) (cond_wait 1 refl)) refl refl

Reached-Exclusive_example :
    ((t u : Thread) → second.phase t ≡ Phase.inside → second.phase u ≡ Phase.inside → t ≡ u)
    × ((t : Thread)
        → second.phase t ≡ Phase.inside
        → (second.lock.state ≡ LockState.locked) × (second.lock.owner ≡ self t))
    × (second.lock.state ≡ LockState.locked → (t : Thread) × (second.phase t ≡ Phase.inside))
Reached-Exclusive_example = Reached-Exclusive Reached-second
