-- ===== src/Thread.antt =====
-- src/thread.c: the life of a thread, from ThreadStart to ThreadJoin, and the table of the threads.
-- The starter is the thread that calls ThreadStart, later ThreadStop as often as it likes, and last ThreadJoin; the runner
-- is the new thread, in `_runThread`. `holder` is the one of them that has the lock of the thread. `calls` are the
-- handlers that have returned, the last one first. The calls of pthread are taken to succeed, but for pthread_create.
-- `ThreadSelf` is NULL, as it is without AIO4C_DEBUG_THREADS, so the locks do not change the state of the thread.
pub mod Life
pub mod Finish
pub mod Table
mod Tests
use aio4c.Prelude.{
  ℕ, ◌≡◌, ◌<◌, ◌==◌, ltb, leb, Bool, true, false, Option, some, none, List, [], ◌∷◌, ◌++◌, length,
  take, arith, if◌then◌else◌, ◌&&◌, ◌||◌,
}
use aio4c.Machine.Defs.{Run, ok, fault}
use aio4c.Lock.{Thread, ThreadState}

-- The part of `Thread` that changes.
pub record Object : Type 0 where
  pub state : ThreadState
  pub running : Bool
  pub initialized : Bool

-- `NewThread`, with the number of threads that were added before.
abbrev pub max_threads : ℕ
max_threads = 4096

abbrev pub new_object : Object
new_object = record { state = ThreadState.none; running = false; initialized = false }

unfoldable pub new_thread : (num : ℕ) (malloc lock condition : Bool) → Option Object
new_thread num malloc lock condition =
    if leb max_threads num
    then none
    else if malloc && (lock && condition)
    then some new_object
    else none

-- `ThreadRunning` of a thread that is not NULL.
abbrev pub is_running_state : ThreadState → Bool
is_running_state ThreadState.none = false
is_running_state ThreadState.running = true
is_running_state ThreadState.blocked = true
is_running_state ThreadState.idle = true
is_running_state ThreadState.exited = true
is_running_state ThreadState.joined = false

abbrev pub thread_running : Object → Bool
thread_running thread = is_running_state thread.state || thread.running

pub data Call : Type 0 where
  init run : Bool → Call
  exit : Call

-- Where the runner is: not there yet; about to take the lock; in `init`; at the condition of the loop; in `run`;
-- about to take the lock with what `run` has returned; about to look at `running`; about to store into `running`; in
-- `exit`; about to set the state; behind `_ThreadCleanup`.
pub data Runner : Type 0 where
  absent created initializing testing in_run : Runner
  returned holding storing : Bool → Runner
  leaving left finished : Runner

-- Where the starter is: before ThreadStart; about to create the runner; at the condition of the loop of ThreadStart; in
-- WaitCondition; behind ThreadStart, which has returned false or true; in pthread_join; behind ThreadJoin, which has
-- freed the thread.
pub data Starter : Type 0 where
  ready creating checking waiting failed started joining joined : Starter

pub data Side : Type 0 where
  starter runner : Side

pub record System : Type 0 where
  pub thread : Object
  pub runner : Runner
  pub starter : Starter
  pub holder : Option Side
  pub calls : List Call

-- `init` has returned.
abbrev pub init_returned : Bool → Object → Object
init_returned b thread = record thread {
  initialized = true;
  running = b;
  state = if b then ThreadState.running else thread.state;
}

-- `ThreadStop`, and `ThreadJoin` behind `pthread_join`.
abbrev pub thread_stop : Object → Object
thread_stop thread = record thread { running = false }

abbrev pub thread_joined : Object → Object
thread_joined thread = record thread { state = ThreadState.joined }

-- One step of the runner or of the starter.
pub data Step (s : System) : System → Type 0 where
  begin :
      s.runner ≡ Runner.created
      → s.holder ≡ none
      → Step s (record s {
        runner = Runner.initializing;
        holder = some Side.runner;
        thread = record s.thread { running = true };
      })
  init_returns :
      (b : Bool)
      → s.runner ≡ Runner.initializing
      → Step s (record s {
        runner = Runner.testing;
        thread = init_returned b s.thread;
        calls = Call.init b ∷ s.calls;
      })
  enter :
      s.runner ≡ Runner.testing
      → s.thread.running ≡ true
      → Step s (record s { runner = Runner.in_run; holder = none })
  leave :
      s.runner ≡ Runner.testing
      → s.thread.running ≡ false
      → Step s (record s { runner = Runner.leaving; holder = none })
  run_returns :
      (b : Bool)
      → s.runner ≡ Runner.in_run
      → Step s (record s { runner = Runner.returned b; calls = Call.run b ∷ s.calls })
  retake :
      (b : Bool)
      → s.runner ≡ Runner.returned b
      → s.holder ≡ none
      → Step s (record s { runner = Runner.holding b; holder = some Side.runner })
  still_running :
      (b : Bool)
      → s.runner ≡ Runner.holding b
      → s.thread.running ≡ true
      → Step s (record s { runner = Runner.storing b })
  was_stopped :
      (b : Bool)
      → s.runner ≡ Runner.holding b
      → s.thread.running ≡ false
      → Step s (record s { runner = Runner.testing })
  store :
      (b : Bool)
      → s.runner ≡ Runner.storing b
      → Step s (record s { runner = Runner.testing; thread = record s.thread { running = b } })
  exit_returns :
      s.runner ≡ Runner.leaving
      → Step s (record s { runner = Runner.left; calls = Call.exit ∷ s.calls })
  finish :
      s.runner ≡ Runner.left
      → Step s (record s {
        runner = Runner.finished;
        thread = record s.thread { state = ThreadState.exited };
      })
  start :
      s.starter ≡ Starter.ready
      → s.holder ≡ none
      → Step s (record s { starter = Starter.creating; holder = some Side.starter })
  create_fails :
      s.starter ≡ Starter.creating → Step s (record s { starter = Starter.failed; holder = none })
  create :
      s.starter ≡ Starter.creating
      → Step s (record s { starter = Starter.checking; runner = Runner.created })
  wait :
      s.starter ≡ Starter.checking
      → s.thread.initialized ≡ false
      → Step s (record s { starter = Starter.waiting; holder = none })
  wake :
      s.starter ≡ Starter.waiting
      → s.holder ≡ none
      → Step s (record s { starter = Starter.checking; holder = some Side.starter })
  start_returns :
      s.starter ≡ Starter.checking
      → s.thread.initialized ≡ true
      → Step s (record s { starter = Starter.started; holder = none })
  stop : s.starter ≡ Starter.started → Step s (record s { thread = thread_stop s.thread })
  join :
      s.starter ≡ Starter.started
      → thread_running s.thread ≡ true
      → Step s (record s { starter = Starter.joining })
  free :
      s.starter ≡ Starter.started
      → thread_running s.thread ≡ false
      → Step s (record s { starter = Starter.joined })
  join_returns :
      s.starter ≡ Starter.joining
      → s.runner ≡ Runner.finished
      → Step s (record s { starter = Starter.joined; thread = thread_joined s.thread })

pub data Reached : System → Type 0 where
  made : Reached (record {
    thread = new_object;
    runner = Runner.absent;
    starter = Starter.ready;
    holder = none;
    calls = [];
  })
  stepped : {s s' : System} → Reached s → Step s s' → Reached s'

-- The table: what `_threads` holds below `_numThreads`, which never gets smaller.
abbrev pub Table : Type 0
Table = List (Option Thread)

-- `ThreadMain`.
abbrev pub thread_main : (main : Thread) → Table
thread_main main = some main ∷ []

-- `_addThread`.
unfoldable pub add_thread : Thread → Table → Run Table
add_thread t xs = if ltb (length xs) max_threads then ok (xs ++ some t ∷ []) else fault

-- The loop of `_ThreadCleanup`.
unfoldable pub clear_slot : Thread → Option Thread → Option Thread
clear_slot t none = none
clear_slot t (some u) = if u == t then none else some u

unfoldable pub clear_thread : Thread → Table → Table
clear_thread t [] = []
clear_thread t (x ∷ xs) = clear_slot t x ∷ clear_thread t xs

-- `_ThreadSelf`: the loop, for the identifiers `id` of the threads and the one of the thread that runs, and the whole function, whose
-- table is none before `ThreadMain`.
unfoldable pub find_thread : (id : Thread → ℕ) (current : ℕ) → Table → Option Thread
find_thread id current [] = none
find_thread id current (none ∷ xs) = find_thread id current xs
find_thread id current (some t ∷ xs) = if id t == current then some t else find_thread id current xs

abbrev pub thread_self : (id : Thread → ℕ) (current : ℕ) → Option Table → Option Thread
thread_self id current none = none
thread_self id current (some xs) = find_thread id current (take max_threads xs)
