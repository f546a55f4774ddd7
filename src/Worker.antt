-- ===== src/Worker.antt =====
-- src/worker.c: the thread that takes tasks from its queue and lets the handlers of a connection process the
-- data. What it does outside of its queue is a log: which buffer a connection's handlers got to process,
-- which buffers went back to their pool, and which connections were freed.
pub mod Items
pub mod Serve
pub mod Finish
pub mod Receive
mod Tests
use aio4c.Prelude.{
  ℕ, zero, suc, ◌==◌, Bool, true, false, not, ◌||◌, Option, none, some, List, [], ◌∷◌, ◌++◌,
  if◌then◌else◌,
}
use aio4c.Prelude.Int.{ℤ}
use aio4c.Machine.Defs.{Run, ok, fault, ◌>>=◌}
use aio4c.Event.{Pointer}
use aio4c.Event.Kind.{Event, same}
use aio4c.Queue.{
  Queue, QueueItem, undefined, event_item, data_item, task_item, exit_item, Visit, returns, asleep,
  dequeue_enter, remove_all, enqueue_event_item, enqueue_task_item,
}
use aio4c.Buffer.{Buffer, buffer_flip, buffer_copy, buffer_reset}
use aio4c.Pool.{Memory, BufferPool, store, allocate_buffer, release_buffer}
use aio4c.Connection.Kinds.{State, Owner, is_state}
use aio4c.Connection.{Core, connection_no_more_used}

pub data Action : Type 0 where
  processed : (connection buffer : Pointer) → Action
  released : (buffer : Pointer) → Action
  freed : (connection : Pointer) → Action

-- The worker's queue, the connections, and the log.
pub record Worker : Type 0 where
  pub queue : Queue
  pub cores : Pointer → Core
  pub log : List Action

-- `_removeCallback`: whether an item goes, and what it does to the log.
abbrev pub is_task_of : Pointer → QueueItem → Bool
is_task_of c (task_item e d b) = d == c
is_task_of c _ = false

abbrev pub release_task : Pointer → QueueItem → List Action → List Action
release_task c (task_item e d b) log = if d == c then log ++ released b ∷ [] else log
release_task c _ log = log

abbrev pub remove_callback : Pointer → QueueItem → List Action → Bool × List Action
remove_callback c x log = (is_task_of c x, release_task c x log)

-- What the worker does where the connection is through with it: `FreeConnection` where it was the last owner.
unfoldable pub close_connection : Pointer → Worker → Worker
close_connection c w =
    let (last, core) = connection_no_more_used Owner.worker (w.cores c) in
    record w {
      cores = λ d. if d == c then core else w.cores d;
      log = if last then w.log ++ freed c ∷ [] else w.log;
    }

-- The switch of `_WorkerRun` on an item that was taken; the first result is whether the loop goes on.
unfoldable pub worker_item : QueueItem → Worker → Bool × Worker
worker_item exit_item w = (false, w)
worker_item (task_item e c b) w =
    (true, record w { log = w.log ++ processed c b ∷ released b ∷ [] })
worker_item (event_item e c) w =
    let (some_gone, q, log) = remove_all (remove_callback c) w.queue w.log in
    (true, close_connection c (record w { queue = q; log = log }))
worker_item (data_item p) w = (true, w)
worker_item undefined w = (true, w)

-- How the thread comes to rest: it has exited, or it sleeps in `Dequeue`.
pub data Outcome : Type 0 where
  exited waiting : Outcome

-- `_WorkerRun`, which the thread calls again as long as it returns true: it returns true where
-- `Dequeue` returns false. `none` means that the fuel ran out.
unfoldable pub worker_run : (fuel : ℕ) → Worker → Option (Outcome × Worker)
worker_run zero w = none
worker_run (suc fuel) w = elim (dequeue_enter w.queue undefined true) [
  | asleep ↦ some (waiting, w)
  | returns false x q ↦ worker_run fuel (record w { queue = q })
  | returns true x q ↦
      let (more, w') = worker_item x (record w { queue = q }) in
      let rest = worker_run fuel w' in if more then rest else some (exited, w')
]

-- What the handlers that run in other threads see: the connection, the worker's queue (none where the thread has not made
-- it), and the worker's pool.
pub record Inbox : Type 0 where
  pub core : Core
  pub tasks : Option Queue
  pub pool : BufferPool
  pub memory : Memory

-- The result of `EnqueueTaskItem`: the copy goes back to the pool where the queue does not take it.
unfoldable pub finish_receive :
    (node : Memory → Bool) → Pointer → Bool × Option Queue → Inbox → Run Inbox
finish_receive node p (true, q) s = ok (record s { tasks = q })
finish_receive node p (false, q) s = release_buffer node p s.pool s.memory >>= λ (pool, m).
    ok (record s { tasks = q; pool = pool; memory = m })

-- `_WorkerReadHandler` with the buffer that `AllocateBuffer` returned; `BufferCopy` does not check for `NULL`.
unfoldable pub receive :
    (node : Memory → Bool) (connection : Pointer) → Option Pointer → Inbox → Run Inbox
receive node connection none s = fault
receive node connection (some p) s =
    buffer_copy (s.memory.cells p) (buffer_flip s.core.read_buffer) >>= λ copy.
    buffer_reset (buffer_flip s.core.read_buffer) >>= λ read_buffer.
    let m = store p copy s.memory in
    enqueue_task_item (node m) s.tasks Event.read connection p >>= λ r.
    finish_receive node p r
      (record s { core = record s.core { read_buffer = read_buffer }; memory = m })

unfoldable pub worker_read_handler :
    (malloc : Memory → ℤ → Bool) (node : Memory → Bool) (sizeof_buffer : ℤ) (pool : Pointer)
    → Event
    → (connection : Pointer) → Inbox
    → Run Inbox
worker_read_handler malloc node sizeof_buffer pool event connection s =
    if not (same event Event.inbound_data) || is_state s.core.state State.closed
    then ok s
    else allocate_buffer malloc node sizeof_buffer pool s.pool s.memory >>= λ (p, (pool', m)).
        receive node connection p (record s { pool = pool'; memory = m })

-- `_WorkerCloseHandler`: whether the connection is freed at once, because the worker's queue does not take the event and
-- the worker was its last owner.
abbrev pub leave : Bool × Option Queue → Inbox → Bool × Inbox
leave (true, q) s = (false, record s { tasks = q })
leave (false, q) s =
    let (last, core) = connection_no_more_used Owner.worker s.core in
    (last, record s { core = core; tasks = q })

unfoldable pub worker_close_handler :
    (node : Bool) → Event → (connection : Pointer) → Inbox → Run (Bool × Inbox)
worker_close_handler node event connection s =
    enqueue_event_item node s.tasks event connection >>= λ r. ok (leave r s)
