-- ===== src/Queue/Order.antt =====
-- Threads that share a queue and also call `RemoveAll` on it.
use aio4c.Prelude.{
  ℕ, suc, ◌+◌, ◌≡◌, refl, ap, sym, Bool, not, Bool-cases, inl, inr, List, [], ◌∷◌, ◌++◌, append-nil,
  append_assoc, if◌then◌else◌, arith,
}
use mathlib.Core.Path.{subst}
use aio4c.Queue.{Queue, QueueItem, remove_all}
use aio4c.Queue.Remove.{picked, remove_all-picked}
use aio4c.Queue.Fifo.{Step, Step-fifo}

-- How many items pass a test.
unfoldable pub count : (QueueItem → Bool) → List QueueItem → ℕ
count p [] = 0
count p (x ∷ xs) = if p x then suc (count p xs) else count p xs

-- The first list is the second one with items left out.
pub data Part : List QueueItem → List QueueItem → Type 0 where
  empty : Part [] []
  same : {xs ys : List QueueItem} (x : QueueItem) → Part xs ys → Part (x ∷ xs) (x ∷ ys)
  left_out : {xs ys : List QueueItem} (x : QueueItem) → Part xs ys → Part xs (x ∷ ys)

module _ (S : Type 0) where
  -- Visits in any order, with what was put in, what was taken out, and what `RemoveAll` removed, where its callback picks items
  -- by a test and does something to a state of its own.
  pub data Visits (q : Queue) : Queue → (ins outs gone : List QueueItem) → Type 0 where
    nobody : Visits q q [] [] []
    visit :
        {r s : Queue} {ins outs gone i o : List QueueItem}
        → Visits q r ins outs gone
        → Step r s i o
        → Visits q s (ins ++ i) (outs ++ o) gone
    remove :
        {r : Queue} {ins outs gone : List QueueItem} (p : QueueItem → Bool) (f : QueueItem → S → S)
        (t : S)
        → Visits q r ins outs gone
        → Visits q (remove_all (λ x t. (p x, f x t)) r t).1 ins outs (gone ++ picked p r.busy)

count-append :
    (p : QueueItem → Bool) (xs ys : List QueueItem) → count p (xs ++ ys) ≡ count p xs + count p ys
unfolding count
count-append p [] ys = omega arith
count-append p (x ∷ xs) ys = ground (arith, count-append p xs ys)

-- What is picked and what is not.
count-picked :
    (p t : QueueItem → Bool) (xs : List QueueItem)
    → count t (picked (λ x. not (p x)) xs) + count t (picked p xs) ≡ count t xs
unfolding count picked
count-picked p t [] = refl
count-picked p t (x ∷ xs) = ground (arith, count-picked p t xs)

Part-same : (xs : List QueueItem) → Part xs xs
Part-same [] = empty
Part-same (x ∷ xs) = same x (Part-same xs)

Part-left : (xs : List QueueItem) {ys zs : List QueueItem} → Part ys zs → Part (xs ++ ys) (xs ++ zs)
Part-left [] h = h
Part-left (x ∷ xs) h = same x (Part-left xs h)

Part-right :
    (zs : List QueueItem) {xs ys : List QueueItem} → Part xs ys → Part (xs ++ zs) (ys ++ zs)
Part-right zs empty = Part-same zs
Part-right zs (same x h) = same x (Part-right zs h)
Part-right zs (left_out x h) = left_out x (Part-right zs h)

Part_trans : {xs ys zs : List QueueItem} → Part xs ys → Part ys zs → Part xs zs
Part_trans g (left_out x h) = left_out x (Part_trans g h)
Part_trans (left_out x g) (same _ h) = left_out x (Part_trans g h)
Part_trans (same x g) (same _ h) = same x (Part_trans g h)
Part_trans empty empty = empty

picked-Part : (p : QueueItem → Bool) (xs : List QueueItem) → Part (picked p xs) xs
unfolding picked
picked-Part p [] = empty
picked-Part p (x ∷ xs) = elim (Bool-cases (p x)) [
  | inl e ↦ rw e (same x (picked-Part p xs))
  | inr e ↦ rw e (left_out x (picked-Part p xs))
]

module _ {S : Type 0} where
  removed_busy :
      (p : QueueItem → Bool) (f : QueueItem → S → S) (q : Queue) (t : S)
      → (remove_all (λ x t. (p x, f x t)) q t).1.busy ≡ picked (λ x. not (p x)) q.busy
  removed_busy p f q t = ap (λ (r : Bool × Queue × S). r.1.busy) (remove_all-picked p f q t)

  Visits-count :
      {q q' : Queue} {ins outs gone : List QueueItem} (t : QueueItem → Bool)
      → Visits S q q' ins outs gone
      → count t outs + count t q'.busy + count t gone ≡ count t q.busy + count t ins
  unfolding count
  Visits-count t nobody = omega arith
  Visits-count {q} {q'} t (visit {r} {s} {ins} {outs} {gone} {i} {o} before step) = omega (
    arith,
    Visits-count t before,
    ap (count t) (Step-fifo step),
    count-append t o q'.busy,
    count-append t r.busy i,
    count-append t outs o,
    count-append t ins i,
  )
  Visits-count {q} t (remove {r} {ins} {outs} {gone} p f c before) = omega (
    arith,
    Visits-count t before,
    ap (count t) (removed_busy p f r c),
    count-picked p t r.busy,
    count-append t gone (picked p r.busy),
  )

  Visits-Part :
      {q q' : Queue} {ins outs gone : List QueueItem}
      → Visits S q q' ins outs gone
      → Part (outs ++ q'.busy) (q.busy ++ ins)
  Visits-Part {q} nobody = subst (Part q.busy) (sym (append-nil q.busy)) (Part-same q.busy)
  Visits-Part {q} {q'} (visit {r} {s} {ins} {outs} {gone} {i} {o} before step) =
      rw
        (
          append_assoc outs o q'.busy,
          Step-fifo step,
          sym (append_assoc outs r.busy i),
          sym (append_assoc q.busy ins i),
        )
        (Part-right i (Visits-Part before))
  Visits-Part {q} (remove {r} {ins} {outs} {gone} p f c before) =
      rw (removed_busy p f r c)
        (Part_trans (Part-left outs (picked-Part (λ x. not (p x)) r.busy)) (Visits-Part before))

  -- However the threads' calls of `_Enqueue`, `Dequeue` and `RemoveAll` interleave, as long as none aborts for want of memory: by
  -- any test of items, those taken out, those still in the queue and those removed are as many as those that were in
  -- it at first and those put in, so no item is lost or doubled; and the items taken out, followed by those still in the queue, are the ones that
  -- were in it at first, followed by those put in, in their order, with some left out: no item overtakes another.
  pub Visits-fifo :
      {q q' : Queue} {ins outs gone : List QueueItem}
      → Visits S q q' ins outs gone
      → ((t : QueueItem → Bool)
          → count t outs + count t q'.busy + count t gone ≡ count t q.busy + count t ins)
        × Part (outs ++ q'.busy) (q.busy ++ ins)
  Visits-fifo v = (λ t. Visits-count t v, Visits-Part v)
