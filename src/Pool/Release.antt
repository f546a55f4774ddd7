-- ===== src/Pool/Release.antt =====
-- `ReleaseBuffer`: a buffer that was in use waits again, as new.
use aio4c.Prelude.{
  ℕ, zero, suc, ◌+◌, ◌≡◌, ◌≢◌, sym, ap, ◌∙◌, ◌==◌, Bool, true, false, some, List, [], ◌∷◌, ◌++◌,
  append_assoc, length, drop, arith, if◌then◌else◌,
}
use mathlib.Core.Path.{subst}
use aio4c.Prelude.Int.{pos}
use aio4c.Machine.Defs.{Returns, zeros, splice}
use aio4c.Machine.Laws.{Returns-bind}
use aio4c.Buffer.{Buffer}
use aio4c.Buffer.Inv.{buffer_of, Fits, buffer_reset-eq, length-zeros}
use aio4c.Queue.{QueueItem, Pointer}
use aio4c.Pool.{Memory, store, BufferPool, release_buffer}
use aio4c.Prelude.Distinct.{NotIn, Distinct, Below, NotIn-left, Distinct-remove, Below-remove}
use aio4c.Pool.Inv.{
  blank, queue_of, Holds, Added, enqueue_data_item-Added, Holds-add, AllBlank-store,
}

zeros-append : (n : ℕ) → zeros n ++ 0 ∷ 0 ∷ [] ≡ zeros (n + 2)
zeros-append zero = ap (λ t. zeros t) (let e : 2 ≡ 0 + 2 = omega arith in e)
zeros-append (suc n) =
    ap (λ t. 0 ∷ t) (zeros-append n)
    ∙ ap (λ t. zeros t) (let e : suc (n + 2) ≡ suc n + 2 = omega arith in e)

reset-blank :
    {size position limit : ℕ} {bytes : List ℕ} (self : ℕ)
    → Fits size bytes position limit
    → buffer_of self size (splice 0 (zeros size) bytes) 0 size ≡ blank self size
unfolding splice
reset-blank {size} {bytes} self f =
    ap (λ t. buffer_of self size t 0 size)
      (ap (λ t. zeros size ++ drop t bytes)
          (let e : 0 + length (zeros size) ≡ size = omega (arith, length-zeros size) in e)
        ∙ ap (λ t. zeros size ++ t) f.ends
        ∙ zeros-append size)

-- What `ReleaseBuffer` leaves.
pub data Released (self size batch : ℕ) (free held : List Pointer)
    : BufferPool × Memory → Type 0 where
  released :
      {nodes : List QueueItem} {emptied : Bool} {m : Memory}
      → Holds self size m free held
      → Released self size batch free held (
        record {
          buffers = some (queue_of free nodes emptied);
          batch = batch;
          buffer_size = pos size;
        },
        m,
      )

module _ (node : Memory → Bool) (self size : ℕ) (nodes_suffice : (m : Memory) → node m ≡ true)
    (not_null : self ≢ 0) where
  Holds-back :
      (m : Memory) (free before after : List Pointer) (p : Pointer) (b : Buffer)
      → Holds self size m free (before ++ p ∷ after)
      → b ≡ blank self size
      → Holds self size (store p b m) (free ++ p ∷ []) (before ++ after)
  Holds-back m free before after p b h e =
      let (n, d) =
        Distinct-remove p (free ++ before) after
          (subst Distinct (sym (append_assoc free before (p ∷ after))) h.apart) in
      let (lt, l) =
        Below-remove m.next p (free ++ before) after
          (subst (λ t. Below m.next t) (sym (append_assoc free before (p ∷ after))) h.below) in
      let n' : NotIn p (free ++ (before ++ after)) =
        subst (λ t. NotIn p t) (append_assoc free before after) n in
      Holds-add self size (store p b m) free (before ++ after) p
        (record {
          apart = subst Distinct (append_assoc free before after) d;
          below = subst (λ t. Below m.next t) (append_assoc free before after) l;
          clean =
              AllBlank-store self size p b m free (NotIn-left p free (before ++ after) n') h.clean;
        })
        lt n' (own p b e)
    where
      own :
          (p : Pointer) (b : Buffer)
          → b ≡ blank self size
          → (if p == p then b else m.cells p) ≡ blank self size
      own p b e = rw (let r : (p == p) ≡ true = ground arith in r) e

  -- In a pool at an address other than `NULL`, where lists get their nodes: releasing a buffer of the pool
  -- that is in use and valid puts it behind those that wait. It is as new, whatever its bytes were, it is
  -- no longer in use, and those that wait are apart from those that are still in use.
  pub release_buffer-Released :
      (batch : ℕ) (m : Memory) (free before after : List Pointer) (p : Pointer)
      (nodes : List QueueItem) (emptied : Bool) {position limit : ℕ} {bytes : List ℕ}
      → Holds self size m free (before ++ p ∷ after)
      → Fits size bytes position limit
      → m.cells p ≡ buffer_of self size bytes position limit
      → Returns (Released self size batch (free ++ p ∷ []) (before ++ after)) (
          release_buffer node p
            (record {
              buffers = some (queue_of free nodes emptied);
              batch = batch;
              buffer_size = pos size;
            })
            m)
  unfolding release_buffer
  release_buffer-Released batch m free before after p nodes emptied {bytes} h f e =
      let b = buffer_of self size (splice 0 (zeros size) bytes) 0 size in
      let other : (self == 0) ≡ false = ground (arith, not_null) in
      rw (e, other, buffer_reset-eq f, nodes_suffice (store p b m))
        (Returns-bind (Added self size free p emptied)
          (Released self size batch (free ++ p ∷ []) (before ++ after)) _ _
          (enqueue_data_item-Added self size free nodes emptied p)
          λ (done, q) (d, (nodes', g)).
            rw g (released (Holds-back m free before after p b h (reset-blank self f))))
