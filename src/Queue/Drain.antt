-- ===== src/Queue/Drain.antt =====
-- When `Dequeue` returns false, and the loop `while (Dequeue(queue, item, false))` that empties a queue.
use aio4c.Prelude.{
  ℕ, zero, suc, ◌<◌, ◌≡◌, refl, ap, ◌∙◌, ◌⊎◌, inl, inr, Bool, true, false, Bool-cases, List, [],
  ◌∷◌, ◌++◌, append-nil, append_assoc, length, Option, none, some, arith,
}
use aio4c.Queue.{
  Queue, QueueItem, undefined, returns, asleep, returned, take_item, dequeue_enter, dequeue_wake,
  sleep, dequeue, sleeps,
}

abbrev pub AllWoken : List (Bool × Queue) → Type 0
AllWoken [] = Unit
AllWoken ((woken, q) ∷ wakes) = (woken ≡ true) × AllWoken wakes

abbrev Ended : Queue → Type 0
Ended q = (q.exit ≡ true) × (q.busy ≡ [])

take_item-Ended :
    (q : Queue) (x : QueueItem) (q' : Queue)
    → sleeps true q ≡ false
    → returned (take_item q) ≡ returns false x q'
    → Ended q'
unfolding take_item
take_item-Ended q x q' s e = ground arith

sleep-Ended :
    (wakes : List (Bool × Queue)) (x : QueueItem) (q' : Queue)
    → AllWoken wakes
    → sleep wakes ≡ returns false x q'
    → Ended q'
unfolding sleep dequeue_wake
sleep-Ended [] x q' all e = cc
sleep-Ended ((woken, q) ∷ wakes) x q' (w, all) e = elim (Bool-cases (sleeps true q)) [
  | inl s ↦ sleep-Ended wakes x q' all (ground arith)
  | inr s ↦ take_item-Ended q x q' s (ground arith)
]

-- A consumer that waits, and whose waits do not fail, is told that there is nothing only for one of two
-- reasons: the queue was marked as emptied by the `Dequeue` before, or it is closed and empty.
pub dequeue-false :
    (q q' : Queue) (item x : QueueItem) (wakes : List (Bool × Queue))
    → AllWoken wakes
    → dequeue q item true wakes ≡ returns false x q'
    → (q.emptied ≡ true) ⊎ ((q'.exit ≡ true) × (q'.busy ≡ []))
unfolding dequeue dequeue_enter
dequeue-false q q' item x wakes all e = elim (Bool-cases q.emptied) [
  | inl flag ↦ inl flag
  | inr flag ↦ elim (Bool-cases (sleeps true q)) [
    | inl s ↦ inr (sleep-Ended wakes x q' all (ground arith))
    | inr s ↦ inr (take_item-Ended q x q' s (ground arith))
  ]
]

-- The loop, with fuel; `none` means that the fuel ran out.
pub drain : ℕ → Queue → Option (List QueueItem × Queue)
drain zero q = none
drain (suc fuel) q = elim (dequeue_enter q undefined false) [
  | asleep ↦ none
  | returns false x q' ↦ some ([], q')
  | returns true x q' ↦ elim (drain fuel q') [ none ↦ none | some (xs, q'') ↦ some (x ∷ xs, q'') ]
]

abbrev queue_of : (busy free : List QueueItem) (has_lock exit emptied : Bool) → Queue
queue_of busy free has_lock exit emptied = record {
  busy = busy;
  free = free;
  has_lock = has_lock;
  exit = exit;
  emptied = emptied;
}

drain-emptied_of :
    (fuel : ℕ) (busy free : List QueueItem) (lock exit : Bool)
    → drain (suc fuel) (queue_of busy free lock exit true)
      ≡ some ([], queue_of busy free lock exit false)
unfolding drain dequeue_enter
drain-emptied_of fuel busy free lock exit = refl

drain-of :
    (fuel : ℕ) (busy free : List QueueItem) (lock exit : Bool)
    → length busy < fuel
    → drain fuel (queue_of busy free lock exit false)
      ≡ some (busy, queue_of [] (free ++ busy) lock exit false)
unfolding drain dequeue_enter take_item
drain-of zero busy free lock exit h = absurd (omega arith)
drain-of (suc fuel) [] free lock true h = rw append-nil
drain-of (suc fuel) [] free lock false h = rw append-nil
drain-of (suc zero) (x ∷ xs) free lock exit h = absurd (omega arith)
drain-of (suc (suc fuel)) (x ∷ []) free lock true h = refl
drain-of (suc (suc fuel)) (x ∷ []) free lock false h = refl
drain-of (suc (suc fuel)) (x ∷ y ∷ ys) free lock true h =
    rw (drain-of (suc fuel) (y ∷ ys) (free ++ x ∷ []) lock true (omega arith), append_assoc)
drain-of (suc (suc fuel)) (x ∷ y ∷ ys) free lock false h =
    rw (drain-of (suc fuel) (y ∷ ys) (free ++ x ∷ []) lock false (omega arith), append_assoc)

-- Run on a queue that is not marked as emptied, with more fuel than items, the loop ends with every item
-- taken out, in order: the queue is empty, all nodes are free, and the mark is cleared again.
pub drain_all :
    (fuel : ℕ) (q : Queue)
    → q.emptied ≡ false
    → length q.busy < fuel
    → drain fuel q ≡ some (q.busy, record q { busy = []; free = q.free ++ q.busy; emptied = false })
drain_all fuel q e h =
    ap (λ flag. drain fuel (queue_of q.busy q.free q.has_lock q.exit flag)) e
    ∙ drain-of fuel q.busy q.free q.has_lock q.exit h

-- Run on a queue that is marked as emptied, as it is when the last `Dequeue` took the last item, the
-- loop ends at once: it takes out nothing of what has been put in since, and clears the mark.
pub drain-emptied :
    (fuel : ℕ) (q : Queue)
    → q.emptied ≡ true
    → drain (suc fuel) q ≡ some ([], record q { emptied = false })
drain-emptied fuel q e =
    ap (λ flag. drain (suc fuel) (queue_of q.busy q.free q.has_lock q.exit flag)) e
    ∙ drain-emptied_of fuel q.busy q.free q.has_lock q.exit
