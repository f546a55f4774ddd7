-- ===== src/Pool/Free.antt =====
-- `FreeBufferPool`.
use aio4c.Prelude.{
  ℕ, zero, suc, ◌<◌, ◌≡◌, refl, ap, Bool, true, false, some, List, [], ◌∷◌, length, map, arith,
  if◌then◌else◌,
}
use aio4c.Prelude.Int.{ℤ}
use aio4c.Machine.Defs.{ok}
use aio4c.Queue.{QueueItem, data_item, Pointer}
use aio4c.Queue.Drain.{drain_all, drain-emptied}
use aio4c.Pool.{free_buffer_pool}
use aio4c.Pool.Inv.{queue_of}

length-items : (ps : List Pointer) → length (map data_item ps) ≡ length ps
length-items [] = refl
length-items (p ∷ ps) = ap (λ n. suc n) (length-items ps)

-- The buffers that `FreeBufferPool` frees: all those that wait, in their order, unless the queue is marked
-- as emptied (the last `Dequeue` took the last buffer, and others were released since): then none of
-- them is freed. With more fuel than buffers the loop ends.
pub free_buffer_pool-freed :
    (fuel : ℕ) (free : List Pointer) (nodes : List QueueItem) (emptied : Bool) (batch : ℕ)
    (size : ℤ)
    → length free < fuel
    → free_buffer_pool fuel
        (record { buffers = some (queue_of free nodes emptied); batch = batch; buffer_size = size })
      ≡ ok (some (if emptied then [] else map data_item free))
unfolding free_buffer_pool
free_buffer_pool-freed zero free nodes emptied batch size h = absurd (omega arith)
free_buffer_pool-freed (suc fuel) free nodes true batch size h =
    rw (drain-emptied fuel (queue_of free nodes true) refl)
free_buffer_pool-freed (suc fuel) free nodes false batch size h =
    rw (drain_all (suc fuel) (queue_of free nodes false) refl (omega (arith, length-items free)))
