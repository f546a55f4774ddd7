-- ===== src/Queue/Remove.antt =====
-- `RemoveAll` against filtering.
use aio4c.Prelude.{
  ◌≡◌, refl, Bool, false, not, ◌||◌, Bool-cases, inl, inr, List, [], ◌∷◌, ◌++◌, append-nil,
  append_assoc, if◌then◌else◌, arith,
}
use aio4c.Queue.{Queue, QueueItem, remove_loop, remove_all, list_empty}

-- The items that a test picks, the others, and whether it picks one.
unfoldable pub picked : (QueueItem → Bool) → List QueueItem → List QueueItem
picked p [] = []
picked p (x ∷ xs) = if p x then x ∷ picked p xs else picked p xs

unfoldable pub any_picked : (QueueItem → Bool) → List QueueItem → Bool
any_picked p [] = false
any_picked p (x ∷ xs) = p x || any_picked p xs

module _ {ℓ} {S : Type ℓ} where
  -- The state after the callback saw every item, first to last.
  unfoldable pub visit_all : (QueueItem → S → S) → List QueueItem → S → S
  visit_all f [] s = s
  visit_all f (x ∷ xs) s = visit_all f xs (f x s)

  module _ (p : QueueItem → Bool) (f : QueueItem → S → S) where
    remove_loop-picked :
        (kept dropped xs : List QueueItem) (s : S)
        → remove_loop (λ x s. (p x, f x s)) kept dropped xs s
          ≡ (kept ++ picked (λ x. not (p x)) xs, dropped ++ picked p xs, visit_all f xs s)
    unfolding remove_loop picked visit_all
    remove_loop-picked kept dropped [] s = rw (append-nil, append-nil)
    remove_loop-picked kept dropped (x ∷ xs) s = elim (Bool-cases (p x)) [
      | inl e ↦ rw (e, remove_loop-picked kept (dropped ++ x ∷ []) xs (f x s), append_assoc)
      | inr e ↦ rw (e, remove_loop-picked (kept ++ x ∷ []) dropped xs (f x s), append_assoc)
    ]

    any_picked-empty : (xs : List QueueItem) → not (list_empty (picked p xs)) ≡ any_picked p xs
    unfolding picked any_picked
    any_picked-empty [] = refl
    any_picked-empty (x ∷ xs) = ground (arith, any_picked-empty xs)

    -- For a callback whose answer does not depend on its own state: `RemoveAll` shows it every item once,
    -- in order; the items that it selects leave the queue and their nodes become free, the others keep
    -- their order, the flags are left alone, and the result says whether an item was removed.
    pub remove_all-picked :
        (q : Queue) (s : S)
        → remove_all (λ x s. (p x, f x s)) q s ≡ (
          any_picked p q.busy,
          record q { busy = picked (λ x. not (p x)) q.busy; free = q.free ++ picked p q.busy },
          visit_all f q.busy s,
        )
    unfolding remove_all
    remove_all-picked q s = rw (remove_loop-picked [] [] q.busy s, any_picked-empty q.busy)
