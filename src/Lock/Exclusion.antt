-- ===== src/Lock/Exclusion.antt =====
-- At most one thread is between taking and releasing a lock.
use aio4c.Prelude.{ℕ, ◌≡◌, Bool, true, false, Option, some, arith}
use aio4c.Lock.{
  Thread, LockState, Phase, System, Step, block, mutex_lock, taken, release, mutex_unlock, wait,
  cond_wait, wake, woke, Reached, made, stepped,
}

-- The phases of a thread that has the mutex.
abbrev pub has_mutex : Phase → Bool
has_mutex Phase.outside = false
has_mutex Phase.locking = false
has_mutex Phase.taking = true
has_mutex Phase.inside = true
has_mutex Phase.releasing = true
has_mutex Phase.waiting = true
has_mutex Phase.asleep = false
has_mutex Phase.woken = true

record Inv (self : Thread → Option Thread) (s : System) : Type 0 where
  held : (t : Thread) → has_mutex (s.phase t) ≡ true → s.lock.holder ≡ some t
  marked :
      (t : Thread)
      → s.phase t ≡ Phase.inside
      → (s.lock.state ≡ LockState.locked) × (s.lock.owner ≡ self t)
  inside_if_locked : s.lock.state ≡ LockState.locked → (t : Thread) × (s.phase t ≡ Phase.inside)

some-injective : (a b : ℕ) → some a ≡ some b → a ≡ b
some-injective a b e = ground (arith, e)

Step-Inv :
    {self : Thread → Option Thread} {s s' : System} → Step self s s' → Inv self s → Inv self s'
Step-Inv (block t e) inv = record {
  held = λ u p. ground (arith, e, p, inv.held u);
  marked = λ u p. ground (arith, e, p, inv.marked u);
  inside_if_locked = λ p. let (u, q) = inv.inside_if_locked p in (u, ground (arith, e, q));
}
Step-Inv (mutex_lock t e h) inv = record {
  held = λ u p. ground (arith, e, h, p, inv.held u);
  marked = λ u p. ground (arith, e, h, p, inv.marked u);
  inside_if_locked = λ p. let (u, q) = inv.inside_if_locked p in (u, ground (arith, e, q));
}
Step-Inv (taken t e) inv = record {
  held = λ u p. ground (arith, e, p, inv.held u, inv.held t);
  marked = λ u p. ground (arith, e, p, inv.held u, inv.held t);
  inside_if_locked = λ p. (t, ground arith);
}
Step-Inv (release t e) inv = record {
  held = λ u p. ground (arith, e, p, inv.held u, inv.held t);
  marked = λ u p. ground (arith, e, p, inv.held u, inv.held t);
  inside_if_locked = λ p. ground (arith, p);
}
Step-Inv (mutex_unlock t e) inv = record {
  held = λ u p. ground (arith, e, p, inv.held u, inv.held t);
  marked = λ u p. ground (arith, e, p, inv.marked u);
  inside_if_locked = λ p. let (u, q) = inv.inside_if_locked p in (u, ground (arith, e, q));
}
Step-Inv (wait t e) inv = record {
  held = λ u p. ground (arith, e, p, inv.held u, inv.held t);
  marked = λ u p. ground (arith, e, p, inv.held u, inv.held t);
  inside_if_locked = λ p. ground (arith, p);
}
Step-Inv (cond_wait t e) inv = record {
  held = λ u p. ground (arith, e, p, inv.held u, inv.held t);
  marked = λ u p. ground (arith, e, p, inv.marked u);
  inside_if_locked = λ p. let (u, q) = inv.inside_if_locked p in (u, ground (arith, e, q));
}
Step-Inv (wake t e h) inv = record {
  held = λ u p. ground (arith, e, h, p, inv.held u);
  marked = λ u p. ground (arith, e, h, p, inv.marked u);
  inside_if_locked = λ p. let (u, q) = inv.inside_if_locked p in (u, ground (arith, e, q));
}
Step-Inv (woke t e) inv = record {
  held = λ u p. ground (arith, e, p, inv.held u, inv.held t);
  marked = λ u p. ground (arith, e, p, inv.held u, inv.held t);
  inside_if_locked = λ p. (t, ground arith);
}

Reached-Inv : {self : Thread → Option Thread} {s : System} → Reached self s → Inv self s
Reached-Inv made = record {
  held = λ u p. ground (arith, p);
  marked = λ u p. ground (arith, p);
  inside_if_locked = λ p. ground (arith, p);
}
Reached-Inv (stepped before step) = Step-Inv step (Reached-Inv before)

-- In a state that is reached from a new lock and a new condition, by any interleaving of what the threads do: two
-- threads that are both inside of the lock are one thread; a thread that is inside finds the lock marked as locked, with
-- itself as the owner; and the lock is marked as locked only while a thread is inside.
pub Reached-Exclusive :
    {self : Thread → Option Thread} {s : System}
    → Reached self s
    → ((t u : Thread) → s.phase t ≡ Phase.inside → s.phase u ≡ Phase.inside → t ≡ u)
      × ((t : Thread)
          → s.phase t ≡ Phase.inside
          → (s.lock.state ≡ LockState.locked) × (s.lock.owner ≡ self t))
      × (s.lock.state ≡ LockState.locked → (t : Thread) × (s.phase t ≡ Phase.inside))
Reached-Exclusive r =
    let inv = Reached-Inv r in
    (λ t u p q. ground (arith, p, q, inv.held t, inv.held u), inv.marked, inv.inside_if_locked)
