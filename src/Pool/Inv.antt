-- ===== src/Pool/Inv.antt =====
-- The buffers of a pool: those that wait in the queue are as new, and none of them is in use.
use aio4c.Prelude.{
  ℕ, suc, ◌+◌, ◌<◌, ◌≡◌, refl, ap, ◌==◌, Bool, true, false, ◌&&◌, Bool-cases, inl, inr, Option,
  some, List, [], ◌∷◌, ◌++◌, map, append_assoc, arith, if◌then◌else◌,
}
use aio4c.Machine.Defs.{Returns, zeros}
use aio4c.Buffer.{Buffer}
use aio4c.Buffer.Inv.{buffer_of}
use aio4c.Queue.{
  Queue, QueueItem, data_item, undefined, Pointer, dequeue_enter, take_item, enqueue, enqueue_item,
  enqueue_data_item,
}
use aio4c.Pool.{Memory, store, visited}
use aio4c.Prelude.Distinct.{
  NotIn, Distinct, Below, Distinct-insert, Below-insert, Below-suc, NotIn-fresh, NotIn-left,
}

abbrev pub blank : (self size : ℕ) → Buffer
blank self size = buffer_of self size (zeros (size + 2)) 0 size

abbrev pub AllBlank : (self size : ℕ) → (Pointer → Buffer) → List Pointer → Type 0
AllBlank self size cells [] = Unit
AllBlank self size cells (p ∷ ps) = (cells p ≡ blank self size) × AllBlank self size cells ps

-- The pool's queue: open, with the addresses `free` in it.
abbrev pub queue_of : (free : List Pointer) (nodes : List QueueItem) (emptied : Bool) → Queue
queue_of free nodes emptied = record {
  busy = map data_item free;
  free = nodes;
  has_lock = true;
  exit = false;
  emptied = emptied;
}

-- The addresses `free` wait in the queue and `held` are in use: all of these differ, and the buffers
-- that wait are as new.
pub record Holds (self size : ℕ) (m : Memory) (free held : List Pointer) : Type 0 where
  pub apart : Distinct (free ++ held)
  pub below : Below m.next (free ++ held)
  pub clean : AllBlank self size m.cells free

pub AllBlank-store :
    (self size : ℕ) (p : Pointer) (b : Buffer) (m : Memory) (ps : List Pointer)
    → NotIn p ps
    → AllBlank self size m.cells ps
    → AllBlank self size (store p b m).cells ps
AllBlank-store self size p b m [] n c = tt
AllBlank-store self size p b m (q ∷ ps) n c = (
  elim (Bool-cases (q == p)) [ inl e ↦ absurd (n.0 (ground arith)) | inr e ↦ rw e c.0 ],
  AllBlank-store self size p b m ps n.1 c.1,
)

AllBlank-append :
    (self size : ℕ) (cells : Pointer → Buffer) (ps : List Pointer) (p : Pointer)
    → cells p ≡ blank self size
    → AllBlank self size cells ps
    → AllBlank self size cells (ps ++ p ∷ [])
AllBlank-append self size cells [] p e c = (e, tt)
AllBlank-append self size cells (q ∷ ps) p e c = (c.0, AllBlank-append self size cells ps p e c.1)

map-last :
    (ps : List Pointer) (p : Pointer)
    → map data_item ps ++ data_item p ∷ [] ≡ map data_item (ps ++ p ∷ [])
map-last [] p = refl
map-last (q ∷ ps) p = ap (λ t. data_item q ∷ t) (map-last ps p)

pub and_false : (b : Bool) → (b && false) ≡ false
and_false true = refl
and_false false = refl

module _ (self size : ℕ) where
  abbrev pub Added : List Pointer → Pointer → Bool → Bool × Option Queue → Type 0
  Added free p emptied (done, q) =
      (done ≡ true)
      × ((nodes : List QueueItem) × (q ≡ some (queue_of (free ++ p ∷ []) nodes emptied)))

  pub enqueue_data_item-Added :
      (free : List Pointer) (nodes : List QueueItem) (emptied : Bool) (p : Pointer)
      → Returns
          (Added free p emptied)
          (enqueue_data_item true (some (queue_of free nodes emptied)) p)
  unfolding enqueue_data_item enqueue enqueue_item
  enqueue_data_item-Added free [] emptied p = (
    refl,
    ([], ap (λ t. some (record (queue_of free [] emptied) { busy = t })) (map-last free p)),
  )
  enqueue_data_item-Added free (n ∷ nodes) emptied p = (
    refl,
    (nodes, ap (λ t. some (record (queue_of free nodes emptied) { busy = t })) (map-last free p)),
  )

  -- A buffer of nobody's joins those that wait.
  pub Holds-add :
      (m : Memory) (free held : List Pointer) (p : Pointer)
      → Holds self size m free held
      → p < m.next
      → NotIn p (free ++ held)
      → m.cells p ≡ blank self size
      → Holds self size m (free ++ p ∷ []) held
  Holds-add m free held p h lt n e = record {
    apart = rw (append_assoc free (p ∷ []) held) (Distinct-insert p free held n h.apart);
    below = rw (append_assoc free (p ∷ []) held) (Below-insert m.next p free held lt h.below);
    clean = AllBlank-append self size m.cells free p e h.clean;
  }

  -- The first one that waits goes into use.
  pub Holds-take :
      (m : Memory) (p : Pointer) (free held : List Pointer)
      → Holds self size m (p ∷ free) held
      → Holds self size m free (p ∷ held)
  Holds-take m p free held h = record {
    apart = Distinct-insert p free held h.apart.0 h.apart.1;
    below = Below-insert m.next p free held h.below.0 h.below.1;
    clean = h.clean.1;
  }

  -- A buffer is made.
  pub Holds-fresh :
      (m : Memory) (free held : List Pointer) (b : Buffer)
      → Holds self size m free held
      → b ≡ blank self size
      → Holds self size (store m.next b (record m { next = suc m.next })) (free ++ m.next ∷ []) held
  Holds-fresh m free held b h e =
      let n = NotIn-fresh m.next (free ++ held) h.below in
      Holds-add (store m.next b (record m { next = suc m.next })) free held m.next
        (record {
          apart = h.apart;
          below = Below-suc m.next (free ++ held) h.below;
          clean =
              AllBlank-store self size m.next b (record m { next = suc m.next }) free
                (NotIn-left m.next free held n) h.clean;
        })
        (omega arith) n (own m.next b e)
    where
      own :
          (p : Pointer) (b : Buffer)
          → b ≡ blank self size
          → (if p == p then b else m.cells p) ≡ blank self size
      own p b e = rw (let r : (p == p) ≡ true = ground arith in r) e

  pub data Polled (m : Memory) (free held : List Pointer) (emptied : Bool)
      : Bool × QueueItem × Queue → Type 0 where
    got :
        {p : Pointer} {rest : List Pointer} {nodes : List QueueItem} {emptied' : Bool}
        → Holds self size m rest (p ∷ held)
        → m.cells p ≡ blank self size
        → Polled m free held emptied (true, data_item p, queue_of rest nodes emptied')
    nothing :
        {nodes : List QueueItem}
        → (emptied ≡ false → free ≡ [])
        → Polled m free held emptied (false, undefined, queue_of free nodes false)

  -- A `Dequeue` that does not wait.
  pub dequeue_enter-Polled :
      (m : Memory) (free held : List Pointer) (nodes : List QueueItem) (emptied : Bool)
      → Holds self size m free held
      → Returns
          (Polled m free held emptied)
          (visited (dequeue_enter (queue_of free nodes emptied) undefined false))
  unfolding dequeue_enter take_item
  dequeue_enter-Polled m free held nodes true h = nothing (λ e. absurd (cc))
  dequeue_enter-Polled m [] held nodes false h = nothing (λ e. refl)
  dequeue_enter-Polled m (p ∷ free) held nodes false h = got (Holds-take m p free held h) h.clean.0
