-- ===== src/Queue/Fifo.antt =====
-- Threads that share a queue, as the visits that they make to it under its lock, in any order.
use aio4c.Prelude.{
  ◌≡◌, refl, sym, ◌∙◌, inl, inr, Bool, true, false, ◌&&◌, ◌||◌, Bool-cases, List, [], ◌∷◌, ◌++◌,
  append-nil, arith,
}
use aio4c.Machine.Defs.{ok}
use aio4c.Queue.{
  Queue, QueueItem, exit_item, undefined, returns, returned, take_item, dequeue_enter, dequeue_wake,
  enqueue_item, is_exit, sleeps, event_item, data_item, task_item,
}

abbrev pub one_if : Bool → QueueItem → List QueueItem
one_if true x = x ∷ []
one_if false x = []

-- One visit, with the items that it put in and took out: a call of `_Enqueue`, and the parts of a call
-- of `Dequeue` up to its first sleep and from a wake-up on.
pub data Step (q q' : Queue) : (ins outs : List QueueItem) → Type 0 where
  put :
      (malloc done : Bool) (x : QueueItem)
      → enqueue_item malloc q x ≡ ok (done, q')
      → Step q q' (one_if done x) []
  enter :
      (x : QueueItem) (wait done : Bool) (y : QueueItem)
      → dequeue_enter q x wait ≡ returns done y q'
      → Step q q' [] (one_if done y)
  wake :
      (woken done : Bool) (y : QueueItem)
      → dequeue_wake woken q ≡ returns done y q'
      → Step q q' [] (one_if done y)

abbrev pub NoExit : List QueueItem → Type 0
NoExit [] = Unit
NoExit (x ∷ xs) = (is_exit x ≡ false) × NoExit xs

pub data Steps (q : Queue) : Queue → (ins outs : List QueueItem) → Type 0 where
  start : Steps q q [] []
  more :
      {r s : Queue} {ins outs i o : List QueueItem}
      → Steps q r ins outs
      → Step r s i o
      → Steps q s (ins ++ i) (outs ++ o)

-- What one call does to the queue.
pub record Put (q q' : Queue) (done : Bool) (x : QueueItem) : Type 0 where
  pub busy : q'.busy ≡ q.busy ++ one_if done x
  pub exit : q'.exit ≡ (q.exit || (done && is_exit x))
  pub open_before : done ≡ true → q.exit ≡ false

pub enqueue_item-Put :
    (malloc : Bool) (q : Queue) (x : QueueItem) (done : Bool) (q' : Queue)
    → enqueue_item malloc q x ≡ ok (done, q')
    → Put q q' done x
unfolding enqueue_item
enqueue_item-Put malloc q x done q' e = record {
  busy = ground (arith, append-nil q.busy);
  exit = ground arith;
  open_before = ground arith;
}

record Taken (q q' : Queue) (done : Bool) (y : QueueItem) : Type 0 where
  busy : one_if done y ++ q'.busy ≡ q.busy
  exit : q'.exit ≡ q.exit

take_item-Taken :
    (q : Queue) (done : Bool) (y : QueueItem) (q' : Queue)
    → returned (take_item q) ≡ returns done y q'
    → Taken q q' done y
unfolding take_item
take_item-Taken q done y q' e = record { busy = ground arith; exit = ground arith }

dequeue_enter-Taken :
    (q : Queue) (x : QueueItem) (wait done : Bool) (y : QueueItem) (q' : Queue)
    → dequeue_enter q x wait ≡ returns done y q'
    → Taken q q' done y
unfolding dequeue_enter
dequeue_enter-Taken q x wait done y q' e = elim (Bool-cases q.emptied) [
  | inl flag ↦ record { busy = ground arith; exit = ground arith }
  | inr flag ↦ elim (Bool-cases (sleeps wait q)) [
    | inl s ↦ absurd (ground arith)
    | inr s ↦ take_item-Taken q done y q' (ground arith)
  ]
]

dequeue_wake-Taken :
    (woken : Bool) (q : Queue) (done : Bool) (y : QueueItem) (q' : Queue)
    → dequeue_wake woken q ≡ returns done y q'
    → Taken q q' done y
unfolding dequeue_wake
dequeue_wake-Taken woken q done y q' e = elim (Bool-cases (woken && sleeps true q)) [
  | inl s ↦ absurd (ground arith)
  | inr s ↦ take_item-Taken q done y q' (ground arith)
]

pub Step-fifo :
    {q q' : Queue} {ins outs : List QueueItem}
    → Step q q' ins outs
    → outs ++ q'.busy ≡ q.busy ++ ins
Step-fifo {q} {q'} (put malloc done x e) = (enqueue_item-Put malloc q x done q' e).busy
Step-fifo {q} {q'} (enter x wait done y e) =
    (dequeue_enter-Taken q x wait done y q' e).busy ∙ sym (append-nil q.busy)
Step-fifo {q} {q'} (wake woken done y e) =
    (dequeue_wake-Taken woken q done y q' e).busy ∙ sym (append-nil q.busy)

-- A closed queue stays closed.
pub Step-exit :
    {q q' : Queue} {ins outs : List QueueItem} → Step q q' ins outs → q.exit ≡ true → q'.exit ≡ true
Step-exit {q} {q'} (put malloc done x e) h =
    let p = enqueue_item-Put malloc q x done q' e in ground (arith, p.exit, h)
Step-exit {q} {q'} (enter x wait done y e) h = (dequeue_enter-Taken q x wait done y q' e).exit ∙ h
Step-exit {q} {q'} (wake woken done y e) h = (dequeue_wake-Taken woken q done y q' e).exit ∙ h

pub Step-has_lock :
    {q q' : Queue} {ins outs : List QueueItem} → Step q q' ins outs → q'.has_lock ≡ q.has_lock
unfolding enqueue_item dequeue_enter dequeue_wake take_item
Step-has_lock {q} {q'} (put malloc done x e) = ground arith
Step-has_lock {q} {q'} (enter x wait done y e) = ground arith
Step-has_lock {q} {q'} (wake woken done y e) = ground arith

-- The items accepted so far, by whether the exit flag is set: no exit item, or one at the end.
abbrev pub Closed : Bool → List QueueItem → Type 0
Closed false xs = NoExit xs
Closed true xs = (ys : List QueueItem) × NoExit ys × (xs ≡ ys ++ (exit_item ∷ []))

NoExit-append :
    (xs : List QueueItem) (x : QueueItem) → NoExit xs → is_exit x ≡ false → NoExit (xs ++ (x ∷ []))
NoExit-append [] x h e = (e, tt)
NoExit-append (y ∷ ys) x h e = (h.0, NoExit-append ys x h.1 e)

Closed-put :
    (b b' : Bool) (ins : List QueueItem) (done : Bool) (x : QueueItem)
    → Closed b ins
    → b' ≡ (b || (done && is_exit x))
    → (done ≡ true → b ≡ false)
    → Closed b' (ins ++ one_if done x)
Closed-put false b' ins false x c e o = rw (e, append-nil) c
Closed-put true b' ins false x c e o = rw (e, append-nil) c
Closed-put true b' ins true x c e o = absurd (true-ne-false (o refl))
  where
    true-ne-false : true ≡ false → ⊥
    true-ne-false h = cc
Closed-put false b' ins true exit_item c e o = rw e (ins, c, refl)
Closed-put false b' ins true undefined c e o = rw e (NoExit-append ins undefined c refl)
Closed-put false b' ins true (event_item k p) c e o =
    rw e (NoExit-append ins (event_item k p) c refl)
Closed-put false b' ins true (data_item p) c e o = rw e (NoExit-append ins (data_item p) c refl)
Closed-put false b' ins true (task_item k p r) c e o =
    rw e (NoExit-append ins (task_item k p r) c refl)

-- From an open queue on, however the calls interleave: the exit flag is set exactly when an exit item
-- was accepted, and that item is the last one that is ever accepted.
pub Steps-Closed :
    {q q' : Queue} {ins outs : List QueueItem}
    → q.exit ≡ false
    → Steps q q' ins outs
    → Closed q'.exit ins
Steps-Closed e start = rw e tt
Steps-Closed e (more {r} {s} {ins} rs (put malloc done x h)) =
    let p = enqueue_item-Put malloc r x done s h in
    Closed-put r.exit s.exit ins done x (Steps-Closed e rs) p.exit p.open_before
Steps-Closed e (more {r} {s} {ins} rs (enter x wait done y h)) =
    rw ((dequeue_enter-Taken r x wait done y s h).exit, append-nil) (Steps-Closed e rs)
Steps-Closed e (more {r} {s} {ins} rs (wake woken done y h)) =
    rw ((dequeue_wake-Taken woken r done y s h).exit, append-nil) (Steps-Closed e rs)
