-- ===== src/Lock.antt =====
-- src/lock.c and src/condition.c: locks and conditions on top of those of pthread. `holder` is the thread that holds
-- the mutex of pthread, whose calls are taken to succeed: a mutex is given to one thread while nobody holds it, and a wait
-- gives it back and takes it again. `self` is `ThreadSelf`: none in a thread that the library did not start.
pub mod Exclusion
mod Tests
use aio4c.Prelude.{update, ℕ, ◌≡◌, ◌==◌, Bool, true, false, Option, some, arith, if◌then◌else◌}

abbrev pub Thread : Type 0
Thread = ℕ

-- `LockState` and `ConditionState`.
pub data LockState : Type 0 where
  destroyed free locked : LockState

pub data ConditionState : Type 0 where
  destroyed free waited : ConditionState

-- `struct s_Lock`.
pub record Lock : Type 0 where
  pub state : LockState
  pub owner : Option Thread
  pub holder : Option Thread

-- `struct s_Condition`.
pub record Condition : Type 0 where
  pub state : ConditionState
  pub owner : Option Thread

-- `ThreadState`.
pub data ThreadState : Type 0 where
  none running blocked idle exited joined : ThreadState

abbrev pub init_lock : Lock
init_lock = record { state = LockState.free; owner = Option.none; holder = Option.none }

abbrev pub init_condition : Condition
init_condition = record { state = ConditionState.free; owner = Option.none }

unfoldable pub new_lock : (malloc init : Bool) → Option Lock
new_lock true true = some init_lock
new_lock true false = Option.none
new_lock false init = Option.none

unfoldable pub new_condition : (malloc init : Bool) → Option Condition
new_condition true true = some init_condition
new_condition true false = Option.none
new_condition false init = Option.none

-- `ThreadSetState` of the calling thread, where it is one of the library's.
abbrev pub set_current : Option Thread → ThreadState → (Thread → ThreadState) → Thread → ThreadState
set_current (some t) state states = update t state states
set_current Option.none state states = states

-- `_TakeLock` behind `pthread_mutex_lock`.
abbrev pub take_lock : (current : Option Thread) → Lock → Lock
take_lock current l = record l { owner = current; state = LockState.locked }

-- `_ReleaseLock` up to `pthread_mutex_unlock`.
abbrev pub release_lock : Lock → Lock
release_lock l = record l { state = LockState.free; owner = Option.none }

-- `_WaitCondition` up to `pthread_cond_wait`.
abbrev pub wait_lock : Lock → Lock
wait_lock l = record l { owner = Option.none; state = LockState.free }

abbrev pub wait_condition : (current : Option Thread) → Condition → Condition
wait_condition current c = record c { owner = current; state = ConditionState.waited }

-- `_WaitCondition` behind a `pthread_cond_wait` that succeeds, and behind one that fails.
abbrev pub woken_lock : (current : Option Thread) → Lock → Lock
woken_lock current l = record l { owner = current; state = LockState.locked }

abbrev pub woken_condition : Condition → Condition
woken_condition c = record c { owner = Option.none; state = ConditionState.free }

-- Where a thread is: outside of the functions and without the lock; in `pthread_mutex_lock`; about to mark the lock,
-- which it has got; behind `_TakeLock`; about to unlock; about to sleep; asleep; back from `pthread_cond_wait`.
pub data Phase : Type 0 where
  outside locking taking inside releasing waiting asleep woken : Phase

pub record System : Type 0 where
  pub lock : Lock
  pub condition : Condition
  pub phase : Thread → Phase
  pub states : Thread → ThreadState

abbrev pub go : Thread → Phase → System → System
go t p s = record s { phase = update t p s.phase }

abbrev pub hold : Option Thread → System → System
hold h s = record s { lock = record s.lock { holder = h } }

abbrev pub set_states : (current : Option Thread) → ThreadState → System → System
set_states current state s = record s { states = set_current current state s.states }

-- One step of one thread: a call of pthread, or what the functions do before it or behind it. A thread that is
-- asleep can wake up without a signal.
pub data Step (self : Thread → Option Thread) (s : System) : System → Type 0 where
  block :
      (t : Thread)
      → s.phase t ≡ Phase.outside
      → Step self s (set_states (self t) ThreadState.blocked (go t Phase.locking s))
  mutex_lock :
      (t : Thread)
      → s.phase t ≡ Phase.locking
      → s.lock.holder ≡ Option.none
      → Step self s (hold (some t) (go t Phase.taking s))
  taken :
      (t : Thread)
      → s.phase t ≡ Phase.taking
      → Step self s (
          set_states
            (self t)
            ThreadState.running
            (record (go t Phase.inside s) { lock = take_lock (self t) s.lock }))
  release :
      (t : Thread)
      → s.phase t ≡ Phase.inside
      → Step self s (record (go t Phase.releasing s) { lock = release_lock s.lock })
  mutex_unlock :
      (t : Thread)
      → s.phase t ≡ Phase.releasing
      → Step self s (hold Option.none (go t Phase.outside s))
  wait :
      (t : Thread)
      → s.phase t ≡ Phase.inside
      → Step self s (
          set_states (self t) ThreadState.idle (record (go t Phase.waiting s) {
            lock = wait_lock s.lock;
            condition = wait_condition (self t) s.condition;
          }))
  cond_wait :
      (t : Thread)
      → s.phase t ≡ Phase.waiting
      → Step self s (hold Option.none (go t Phase.asleep s))
  wake :
      (t : Thread)
      → s.phase t ≡ Phase.asleep
      → s.lock.holder ≡ Option.none
      → Step self s (hold (some t) (go t Phase.woken s))
  woke :
      (t : Thread)
      → s.phase t ≡ Phase.woken
      → Step self s (
          set_states (self t) ThreadState.running (record (go t Phase.inside s) {
            lock = woken_lock (self t) s.lock;
            condition = woken_condition s.condition;
          }))

pub data Reached (self : Thread → Option Thread) : System → Type 0 where
  made :
      {states : Thread → ThreadState}
      → Reached self (record {
        lock = init_lock;
        condition = init_condition;
        phase = λ t. Phase.outside;
        states = states;
      })
  stepped : {s s' : System} → Reached self s → Step self s s' → Reached self s'
