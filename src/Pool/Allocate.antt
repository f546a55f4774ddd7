-- ===== src/Pool/Allocate.antt =====
-- `AllocateBuffer` and `ReleaseBuffer`: no buffer is in use twice, and each is as new when it is handed out.
use aio4c.Prelude.{
  ℕ, zero, suc, ◌+◌, ◌≤◌, ◌≡◌, ◌≢◌, refl, sym, ap, ◌∙◌, Bool, true, false, Option, none, some, List,
  [], ◌∷◌, ◌++◌, length, length-append, arith, if◌then◌else◌,
}
use aio4c.Prelude.Int.{ℤ, pos}
use aio4c.Machine.Defs.{ok, fault, ◌>>=◌, Returns, int_max}
use aio4c.Machine.Laws.{Returns-bind, Returns-bind_eq, Returns-mono, add_int-ok}
use aio4c.Buffer.{Buffer, new_buffer}
use aio4c.Buffer.Inv.{NewBuffer, new_buffer-IsValid}
use aio4c.Queue.{new_queue, Queue, QueueItem, undefined, Pointer, dequeue_enter, enqueue_data_item}
use aio4c.Pool.{
  Memory, store, BufferPool, visited, fill_loop, allocated, allocate_buffer, new_buffer_pool,
  batch_size,
}
use aio4c.Pool.Inv.{
  blank, queue_of, Holds, Added, enqueue_data_item-Added, Holds-fresh, Polled, got, nothing,
  dequeue_enter-Polled,
}

new_buffer-plenty :
    (malloc : ℤ → Bool) (sizeof_buffer : ℤ) (size : ℕ)
    → size + 2 ≤ int_max
    → ((n : ℤ) → malloc n ≡ true)
    → new_buffer malloc sizeof_buffer (pos size) ≢ ok none
unfolding new_buffer
new_buffer-plenty malloc sizeof_buffer size h plenty e = go (sym made ∙ e)
  where
    made : new_buffer malloc sizeof_buffer (pos size) ≡ ok (some (blank 0 size))
    made = rw (plenty sizeof_buffer, add_int-ok size 2 h, plenty (pos (size + 2)))

    go : ok (some (blank 0 size)) ≡ ok none → ⊥
    go p = cc

-- `malloc` always has memory.
abbrev pub Plenty : (Memory → ℤ → Bool) → Type 0
Plenty malloc = (m : Memory) (n : ℤ) → malloc m n ≡ true

module _ (malloc : Memory → ℤ → Bool) (self size : ℕ) where
  data Filled (n : ℕ) (free held : List Pointer) (emptied : Bool)
      : Option Queue × Memory → Type 0 where
    filled :
        {free' : List Pointer} {nodes : List QueueItem} {m : Memory}
        → Holds self size m free' held
        → (Plenty malloc → n + length free ≤ length free')
        → Filled n free held emptied (some (queue_of free' nodes emptied), m)

  -- What `AllocateBuffer` returns, by its address, and what is left.
  pub data Allocated (batch : ℕ) (held : List Pointer)
      : Option Pointer × (BufferPool × Memory) → Type 0 where
    handed_out :
        {p : Pointer} {free : List Pointer} {nodes : List QueueItem} {emptied : Bool} {m : Memory}
        → Holds self size m free (p ∷ held)
        → m.cells p ≡ blank self size
        → Allocated batch held (
          some p,
          (
            record {
              buffers = some (queue_of free nodes emptied);
              batch = batch;
              buffer_size = pos size;
            },
            m,
          ),
        )
    exhausted :
        {free : List Pointer} {nodes : List QueueItem} {emptied : Bool} {m : Memory}
        → Holds self size m free held
        → (Plenty malloc → batch ≡ 0)
        → Allocated batch held (
          none,
          (
            record {
              buffers = some (queue_of free nodes emptied);
              batch = batch;
              buffer_size = pos size;
            },
            m,
          ),
        )

  -- What `NewBufferPool` returns.
  abbrev pub Created : Option BufferPool × Memory → Type 0
  Created (none, m) = ⊥
  Created (some pool, m) =
      (free : List Pointer) × (nodes : List QueueItem) × (pool ≡ record {
        buffers = some (queue_of free nodes false);
        batch = batch_size;
        buffer_size = pos size;
      })
      × Holds self size m free []
      × (Plenty malloc → batch_size ≤ length free)

module _ (malloc : Memory → ℤ → Bool) (node : Memory → Bool) (sizeof_buffer : ℤ) (self size : ℕ)
    (nodes_suffice : (m : Memory) → node m ≡ true) (small : size + 2 ≤ int_max) where
  one_more :
      (n : ℕ) (free held : List Pointer) (p : Pointer) (emptied : Bool) (r : Option Queue × Memory)
      → Filled malloc self size n (free ++ p ∷ []) held emptied r
      → Filled malloc self size (suc n) free held emptied r
  one_more n free held p emptied r (filled h k) =
      filled h (λ plenty. omega (arith, k plenty, length-append free (p ∷ [])))

  fill_loop-Filled :
      (n : ℕ) (m : Memory) (free held : List Pointer) (nodes : List QueueItem) (emptied : Bool)
      → Holds self size m free held
      → Returns (Filled malloc self size n free held emptied) (
          fill_loop malloc node sizeof_buffer self n
            (pos size)
            (some (queue_of free nodes emptied))
            m)
  unfolding fill_loop
  fill_loop-Filled zero m free held nodes emptied h = filled h (λ plenty. omega arith)
  fill_loop-Filled (suc n) m free held nodes emptied h =
      Returns-bind_eq (NewBuffer size) (Filled malloc self size (suc n) free held emptied)
        (new_buffer (malloc m) sizeof_buffer (pos size))
        (new_buffer (malloc m) sizeof_buffer (pos size)) _ refl
        (new_buffer-IsValid (malloc m) sizeof_buffer size small)
        λ r e v. go (λ m' free' nodes' h'. fill_loop-Filled n m' free' held nodes' emptied h') r e v
    where
      go :
          ((m' : Memory) (free' : List Pointer) (nodes' : List QueueItem)
            → Holds self size m' free' held
            → Returns (Filled malloc self size n free' held emptied) (
                fill_loop malloc node sizeof_buffer self n
                  (pos size)
                  (some (queue_of free' nodes' emptied))
                  m'))
          → (r : Option Buffer) → new_buffer (malloc m) sizeof_buffer (pos size) ≡ ok r
          → NewBuffer size r
          → Returns (Filled malloc self size (suc n) free held emptied) (elim r [
            | none ↦ ok (some (queue_of free nodes emptied), m)
            | some b ↦
                let m' = store m.next (record b { pool = self }) (record m { next = suc m.next }) in
                enqueue_data_item (node m') (some (queue_of free nodes emptied)) m.next
                >>= λ (done, q'). fill_loop malloc node sizeof_buffer self n (pos size) q' m'
          ])
      go rest none e v =
          filled h
            (λ plenty. absurd (new_buffer-plenty (malloc m) sizeof_buffer size small (plenty m) e))
      go rest (some b) e v =
          let m' = store m.next (record b { pool = self }) (record m { next = suc m.next }) in
          rw (nodes_suffice m') (
            Returns-bind (Added self size free m.next emptied)
              (Filled malloc self size (suc n) free held emptied) _ _
              (enqueue_data_item-Added self size free nodes emptied m.next)
              λ (done, q') (d, (nodes', f)). rw f (
                Returns-mono (Filled malloc self size n (free ++ m.next ∷ []) held emptied)
                  (Filled malloc self size (suc n) free held emptied) _
                  (rest m' (free ++ m.next ∷ []) nodes' (
                    Holds-fresh self size m free held (record b { pool = self }) h
                      (ap (λ (c : Buffer). record c { pool = self }) v.1)))
                  λ r x. one_more n free held m.next emptied r x))

  after_fill :
      (batch : ℕ) (pool : Option Queue) (held : List Pointer) (m : Memory) (free : List Pointer)
      (nodes : List QueueItem)
      → Holds self size m free held
      → (Plenty malloc → batch ≤ length free)
      → Returns (Allocated malloc self size batch held) (
          visited (dequeue_enter (queue_of free nodes false) undefined false) >>= λ r.
          allocated r (record { buffers = pool; batch = batch; buffer_size = pos size }) m)
  unfolding allocated
  after_fill batch pool held m free nodes h k =
      Returns-bind (Polled self size m free held false) (Allocated malloc self size batch held) _ _
        (dequeue_enter-Polled self size m free held nodes false h) λ r x. last r x
    where
      last :
          (r : Bool × QueueItem × Queue)
          → Polled self size m free held false r
          → Returns
              (Allocated malloc self size batch held)
              (allocated r (record { buffers = pool; batch = batch; buffer_size = pos size }) m)
      last _ (got h' e) = handed_out h' e
      last _ (nothing e) =
          exhausted h
            (λ plenty. omega (arith, k plenty, ap (λ (t : List Pointer). length t) (e refl)))

  -- In a pool whose waiting buffers are apart from those in use, and where lists get their nodes:
  -- `AllocateBuffer` returns. Either it hands out a buffer that was not in use and is as new (all bytes 0,
  -- position 0, the limit at the capacity), and the buffers are apart again with this one in use; or
  -- it hands out none, which does not happen where memory suffices and the batch is not 0.
  pub allocate_buffer-Allocated :
      (batch : ℕ) (m : Memory) (free held : List Pointer) (nodes : List QueueItem) (emptied : Bool)
      → Holds self size m free held
      → Returns (Allocated malloc self size batch held) (
          allocate_buffer malloc node sizeof_buffer self
            (record {
              buffers = some (queue_of free nodes emptied);
              batch = batch;
              buffer_size = pos size;
            })
            m)
  unfolding allocate_buffer allocated
  allocate_buffer-Allocated batch m free held nodes emptied h =
      Returns-bind (Polled self size m free held emptied) (Allocated malloc self size batch held) _
        _ (dequeue_enter-Polled self size m free held nodes emptied h) λ r x. first r x
    where
      refill :
          (r : Option Queue × Memory)
          → Filled malloc self size batch free held false r
          → Returns (Allocated malloc self size batch held) (elim r.0 [
            | none ↦ fault
            | some q ↦ visited (dequeue_enter q undefined false) >>= λ x.
                allocated x
                  (record {
                    buffers = some (queue_of free nodes emptied);
                    batch = batch;
                    buffer_size = pos size;
                  })
                  r.1
          ])
      refill _ (filled {free'} {nodes = nodes'} {m = m'} h' k) =
          after_fill batch (some (queue_of free nodes emptied)) held m' free' nodes' h'
            (λ plenty. omega (arith, k plenty))

      first :
          (r : Bool × QueueItem × Queue)
          → Polled self size m free held emptied r
          → Returns (Allocated malloc self size batch held) (
              if r.0
              then allocated r
                  (record {
                    buffers = some (queue_of free nodes emptied);
                    batch = batch;
                    buffer_size = pos size;
                  })
                  m
              else fill_loop malloc node sizeof_buffer self batch (pos size) (some r.2) m
                >>= λ (q, m'). elim q [
                  | none ↦ fault
                  | some q'' ↦ visited (dequeue_enter q'' undefined false) >>= λ x.
                      allocated x
                        (record {
                          buffers = some (queue_of free nodes emptied);
                          batch = batch;
                          buffer_size = pos size;
                        })
                        m'
                ])
      first _ (got h' e) = handed_out h' e
      first _ (nothing {nodes = nodes'} e) =
          Returns-bind (Filled malloc self size batch free held false)
            (Allocated malloc self size batch held) _ _
            (fill_loop-Filled batch m free held nodes' false h) λ r x. refill r x

  -- `NewBufferPool`, where the pool and its queue are allocated and lists get their nodes: the new pool's
  -- waiting buffers are apart and as new, none is in use, and there is a whole batch of them where
  -- memory suffices.
  pub new_buffer_pool-Created :
      (m : Memory)
      → Returns
          (Created malloc self size)
          (new_buffer_pool malloc node sizeof_buffer self true true true (pos size) m)
  unfolding new_buffer_pool new_queue
  new_buffer_pool-Created m =
      Returns-bind (Filled malloc self size batch_size [] [] false) (Created malloc self size) _ _
        (fill_loop-Filled batch_size m [] [] [] false
          (record { apart = tt; below = tt; clean = tt }))
        λ r x. created r x
    where
      created :
          (r : Option Queue × Memory)
          → Filled malloc self size batch_size [] [] false r
          → Created malloc self size
              (some (record { buffers = r.0; batch = batch_size; buffer_size = pos size }), r.1)
      created _ (filled {free'} {nodes = nodes'} {m = m'} h k) =
          (free', nodes', refl, h, λ plenty. omega (arith, k plenty))
