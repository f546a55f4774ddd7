-- ===== src/Pool.antt =====
-- src/buffer.c: pools of buffers, on top of a queue of their addresses. One pool, at the address `self`,
-- and the buffers that it made. `malloc` says of each state of the memory whether a size can be allocated,
-- `node` whether a node of a list can. Memory is taken to suffice for the item that `NewQueueItem` makes.
pub mod Inv
pub mod Allocate
pub mod Release
pub mod Free
mod Tests
use aio4c.Prelude.{
  ℕ, zero, suc, ◌==◌, Bool, true, false, Option, none, some, List, [], ◌∷◌, if◌then◌else◌,
}
use aio4c.Prelude.Int.{ℤ}
use aio4c.Machine.Defs.{Run, ok, fault, ◌>>=◌}
use aio4c.Buffer.{Buffer, new_buffer, buffer_reset}
use aio4c.Queue.Drain.{drain}
use aio4c.Queue.{
  Queue, QueueItem, undefined, event_item, data_item, task_item, exit_item, Visit, returns, asleep,
  new_queue, dequeue_enter, enqueue_data_item, Pointer,
}

-- The buffers by their addresses; no address from `next` on is in use.
pub record Memory : Type 0 where
  pub cells : Pointer → Buffer
  pub next : Pointer

abbrev pub store : Pointer → Buffer → Memory → Memory
store p b m = record m { cells = λ q. if q == p then b else m.cells q }

-- `struct s_BufferPool`.
pub record BufferPool : Type 0 where
  pub buffers : Option Queue
  pub batch : ℕ
  pub buffer_size : ℤ

abbrev pub batch_size : ℕ
batch_size = 16

-- `QueueDataItemGet`; the union holds a pointer in an item of data, and zeros in an undefined item.
abbrev pub queue_data_item_get : QueueItem → Run Pointer
queue_data_item_get (data_item p) = ok p
queue_data_item_get undefined = ok 0
queue_data_item_get (event_item e p) = fault
queue_data_item_get (task_item e c b) = fault
queue_data_item_get exit_item = fault

-- The result of a `Dequeue` that does not wait.
abbrev pub visited : Visit → Run (Bool × QueueItem × Queue)
visited (returns done item q) = ok (done, item, q)
visited asleep = fault

-- The end of `AllocateBuffer`.
unfoldable pub allocated :
    Bool × QueueItem × Queue → BufferPool → Memory → Run (Option Pointer × (BufferPool × Memory))
allocated (false, item, q) pool m = ok (none, (record pool { buffers = some q }, m))
allocated (true, item, q) pool m =
    queue_data_item_get item >>= λ p. ok (some p, (record pool { buffers = some q }, m))

-- `ReleaseBuffer` on a buffer at `p`, of this pool or of none; one of no pool is freed.
unfoldable pub release_buffer :
    (node : Memory → Bool) → Pointer → BufferPool → Memory → Run (BufferPool × Memory)
release_buffer node p pool m = if (m.cells p).pool == 0 then ok (pool, m) else do
  b ← buffer_reset (m.cells p)
  let m' = store p b m
  enqueue_data_item (node m') pool.buffers p >>= λ (done, q). ok (record pool { buffers = q }, m')

-- `FreeBufferPool`: the items whose buffers the loop over `Dequeue` frees. `none` means that the fuel ran
-- out.
unfoldable pub free_buffer_pool : (fuel : ℕ) → BufferPool → Run (Option (List QueueItem))
free_buffer_pool fuel pool = elim pool.buffers [
  | none ↦ fault
  | some q ↦ ok (elim (drain fuel q) [ none ↦ none | some (items, q') ↦ some items ])
]

module _ (malloc : Memory → ℤ → Bool) (node : Memory → Bool) (sizeof_buffer : ℤ)
    (self : Pointer) where
  -- The loop of `NewBufferPool` and of `AllocateBuffer`, for `n` buffers.
  unfoldable pub fill_loop : ℕ → ℤ → Option Queue → Memory → Run (Option Queue × Memory)
  fill_loop zero size q m = ok (q, m)
  fill_loop (suc n) size q m = new_buffer (malloc m) sizeof_buffer size >>= λ buffer. elim buffer [
    | none ↦ ok (q, m)
    | some b ↦
        let m' = store m.next (record b { pool = self }) (record m { next = suc m.next }) in
        enqueue_data_item (node m') q m.next >>= λ (done, q'). fill_loop n size q' m'
  ]

  -- `pool` says whether the pool itself can be allocated, `queue` and `lock` are those of `NewQueue`.
  unfoldable pub new_buffer_pool :
      (pool queue lock : Bool) (size : ℤ) → Memory → Run (Option BufferPool × Memory)
  new_buffer_pool false queue lock size m = ok (none, m)
  new_buffer_pool true queue lock size m =
      fill_loop batch_size size (new_queue queue lock) m >>= λ (q, m').
      ok (some (record { buffers = q; batch = batch_size; buffer_size = size }), m')

  unfoldable pub allocate_buffer :
      BufferPool → Memory → Run (Option Pointer × (BufferPool × Memory))
  allocate_buffer pool m = elim pool.buffers [
    | none ↦ fault
    | some q ↦ visited (dequeue_enter q undefined false) >>= λ (done, item, q').
        if done
        then allocated (done, item, q') pool m
        else fill_loop pool.batch pool.buffer_size (some q') m >>= λ (filled, m'). elim filled [
          | none ↦ fault
          | some q'' ↦ visited (dequeue_enter q'' undefined false) >>= λ r. allocated r pool m'
        ]
  ]
