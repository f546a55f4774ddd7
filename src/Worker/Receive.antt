-- ===== src/Worker/Receive.antt =====
-- What the worker's handler makes of the data that a connection read.
use aio4c.Prelude.{
  ℕ, ◌+◌, ◌≤◌, ◌≡◌, ◌≢◌, refl, sym, ap, ◌∙◌, ◌==◌, Bool, true, false, ◌||◌, Option, some, List, [],
  ◌∷◌, ◌++◌, length, arith,
}
use mathlib.Core.Path.{subst}
use aio4c.Prelude.Int.{ℤ, pos}
use aio4c.Prelude.Distinct.{NotIn-left, Distinct-remove}
use aio4c.Machine.Defs.{Returns, int_max}
use aio4c.Machine.Laws.{Returns-bind}
use aio4c.Event.{Pointer}
use aio4c.Event.Kind.{Event, same_self}
use aio4c.Queue.{
  Queue, QueueItem, task_item, enqueue, enqueue_item, enqueue_task_item, list_empty, rest_of,
}
use aio4c.Buffer.{Buffer, buffer_flip, buffer_copy}
use aio4c.Buffer.Inv.{IsValid, valid, buffer_flip-IsValid, drop-zeros}
use aio4c.Buffer.Text.{remaining_bytes}
use aio4c.Buffer.Reset.{Cleared, buffer_reset-Cleared}
use aio4c.Buffer.Copy.{buffer_copy_lem}
use aio4c.Pool.{Memory, store, BufferPool}
use aio4c.Pool.Inv.{blank, queue_of, Holds, AllBlank-store, and_false}
use aio4c.Pool.Allocate.{Plenty, Allocated, handed_out, exhausted, allocate_buffer-Allocated}
use aio4c.Connection.Kinds.{State, is_state}
use aio4c.Connection.{Core}
use aio4c.Worker.{Inbox, finish_receive, receive, worker_read_handler}

-- A queue that takes items.
pub record IsOpen (tasks : Option Queue) (busy : List QueueItem) : Type 0 where
  pub queue : Queue
  pub same_queue : tasks ≡ some queue
  pub same_busy : queue.busy ≡ busy
  pub has_lock : queue.has_lock ≡ true
  pub no_exit : queue.exit ≡ false

-- What the handler leaves: a task whose buffer is in use and holds `xs`, and an empty read buffer.
pub record Received (self size : ℕ) (connection : Pointer) (xs : List ℕ) (busy : List QueueItem)
    (held : List Pointer) (s : Inbox) : Type 0 where
  pub copy : Pointer
  pub free : List Pointer
  pub tasks : IsOpen s.tasks (busy ++ task_item Event.read connection copy ∷ [])
  pub contents : remaining_bytes (s.memory.cells copy) ≡ xs
  pub copy_valid : IsValid (s.memory.cells copy)
  pub holds : Holds self size s.memory free (copy ∷ held)
  pub read_valid : IsValid s.core.read_buffer
  pub read_empty : Cleared s.core.read_buffer

enqueue_task_item-IsOpen :
    (tasks : Option Queue) (busy : List QueueItem) (e : Event) (connection p : Pointer)
    → IsOpen tasks busy
    → Returns
        (λ (r : Bool × Option Queue).
          (r.0 ≡ true) × IsOpen r.1 (busy ++ task_item e connection p ∷ []))
        (enqueue_task_item true tasks e connection p)
unfolding enqueue_task_item enqueue enqueue_item
enqueue_task_item-IsOpen tasks busy e connection p h =
    rw (h.same_queue, h.has_lock, h.no_exit, and_false (list_empty h.queue.free))
      (
        refl,
        record {
          queue = record h.queue {
            busy = h.queue.busy ++ task_item e connection p ∷ [];
            free = rest_of h.queue.free;
            exit = h.queue.exit || false;
          };
          same_queue = rw (h.has_lock, h.no_exit);
          same_busy = ap (λ xs. xs ++ task_item e connection p ∷ []) h.same_busy;
          has_lock = h.has_lock;
          no_exit = rw h.no_exit;
        },
      )

Holds-store :
    (self size : ℕ) (m : Memory) (free held : List Pointer) (p : Pointer) (b : Buffer)
    → Holds self size m free (p ∷ held)
    → Holds self size (store p b m) free (p ∷ held)
Holds-store self size m free held p b h = record {
  apart = h.apart;
  below = h.below;
  clean =
      AllBlank-store self size p b m free
        (NotIn-left p free held (Distinct-remove p free held h.apart).0) h.clean;
}

blank-IsValid : (self size : ℕ) → size + 2 ≤ int_max → IsValid (blank self size)
blank-IsValid self size h = valid (record {
  position_le = omega arith;
  limit_le = omega arith;
  small = h;
  ends = drop-zeros size 2;
})

module _ (malloc : Memory → ℤ → Bool) (node : Memory → Bool) (sizeof_buffer : ℤ)
    (self size batch : ℕ) (all_nodes : (m : Memory) → node m ≡ true) (small : size + 2 ≤ int_max)
    (plenty : Plenty malloc) (some_batch : batch ≢ 0) where
  -- With the buffer that was handed out.
  receive-Received :
      (connection p : Pointer) (s : Inbox) (free held : List Pointer) (busy : List QueueItem)
      → Holds self size s.memory free (p ∷ held)
      → s.memory.cells p ≡ blank self size
      → IsValid (blank self size)
      → IsValid s.core.read_buffer
      → length (remaining_bytes (buffer_flip s.core.read_buffer)) ≤ size
      → IsOpen s.tasks busy
      → Returns
          (Received self size connection
            (remaining_bytes (buffer_flip s.core.read_buffer))
            busy
            held)
          (receive node connection (some p) s)
  unfolding receive finish_receive
  receive-Received connection p s free held busy h clean blank_valid v fits is_open =
      let flipped = buffer_flip s.core.read_buffer in
      let xs = remaining_bytes flipped in
      let copied : Returns
          (λ (b : Buffer). IsValid b × (remaining_bytes b ≡ xs) × (b.position ≡ pos 0))
          (buffer_copy (s.memory.cells p) flipped) =
        rw clean (buffer_copy_lem blank_valid (buffer_flip-IsValid v) (omega arith)) in
      Returns-bind (λ (b : Buffer). IsValid b × (remaining_bytes b ≡ xs) × (b.position ≡ pos 0))
        (Received self size connection xs busy held) _ _ copied
        λ copy (copy_valid, contents, start).
          Returns-bind (λ (r : Buffer). IsValid r × Cleared r)
            (Received self size connection xs busy held) _ _
            (buffer_reset-Cleared (buffer_flip-IsValid v))
            λ read (read_valid, read_empty).
              let m = store p copy s.memory in
              let stored : m.cells p ≡ copy = rw (let e : (p == p) ≡ true = ground arith in e) in
              rw (all_nodes m) (
                Returns-bind
                  (λ (r : Bool × Option Queue).
                    (r.0 ≡ true) × IsOpen r.1 (busy ++ task_item Event.read connection p ∷ []))
                  (Received self size connection xs busy held) _ _
                  (enqueue_task_item-IsOpen s.tasks busy Event.read connection p is_open)
                  λ (done, q) (e, o). rw e (record {
                    copy = p;
                    free = free;
                    tasks = o;
                    contents = ap remaining_bytes stored ∙ contents;
                    copy_valid = subst IsValid (sym stored) copy_valid;
                    holds = Holds-store self size s.memory free held p copy h;
                    read_valid = read_valid;
                    read_empty = read_empty;
                  }))

  -- A connection that is not closed, read data that fits in a buffer of the worker's pool; memory suffices, the pool is
  -- in order and the worker's queue takes items. Then `_WorkerReadHandler` returns. A task for the
  -- connection is the last item of the queue; its buffer, which was not in use before, holds exactly the
  -- bytes that were read, in order; and the connection's read buffer is as `BufferReset` leaves it: the position is 0,
  -- the limit is the size, and all bytes below it are 0.
  pub worker_read_handler-Received :
      (connection : Pointer) (core : Core) (tasks : Option Queue) (m : Memory)
      (free held : List Pointer) (nodes : List QueueItem) (emptied : Bool) (busy : List QueueItem)
      → is_state core.state State.closed ≡ false
      → IsValid core.read_buffer
      → length (remaining_bytes (buffer_flip core.read_buffer)) ≤ size
      → IsOpen tasks busy
      → Holds self size m free held
      → Returns
          (Received self size connection (remaining_bytes (buffer_flip core.read_buffer)) busy held)
          (worker_read_handler malloc node sizeof_buffer self Event.inbound_data connection
            (record {
              core = core;
              tasks = tasks;
              pool = record {
                buffers = some (queue_of free nodes emptied);
                batch = batch;
                buffer_size = pos size;
              };
              memory = m;
            }))
  unfolding worker_read_handler
  worker_read_handler-Received connection core tasks m free held nodes emptied busy live v fits
        is_open h =
      let xs = remaining_bytes (buffer_flip core.read_buffer) in
      rw (same_self Event.inbound_data, live)
        (Returns-bind (Allocated malloc self size batch held)
          (Received self size connection xs busy held) _ _
          (allocate_buffer-Allocated malloc node sizeof_buffer self size all_nodes small batch m
            free held nodes emptied h)
          λ r a. next r a)
    where
      next :
          (r : Option Pointer × (BufferPool × Memory))
          → Allocated malloc self size batch held r
          → Returns
              (Received self size connection
                (remaining_bytes (buffer_flip core.read_buffer))
                busy
                held)
              (receive node connection r.0
                (record { core = core; tasks = tasks; pool = r.1.0; memory = r.1.1 }))
      next _ (handed_out {p} {free = free'} {m = m'} h' clean) =
          receive-Received connection p _ free' held busy h' clean (blank-IsValid self size small) v
            fits is_open
      next _ (exhausted h' nobody) = absurd (some_batch (nobody plenty))
