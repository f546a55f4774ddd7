-- ===== src/Worker/Items.antt =====
-- The tasks in a queue, and what the log says of them.
use aio4c.Prelude.{
  ℕ, suc, ◌+◌, ◌≡◌, refl, ◌∙◌, ◌==◌, false, not, Bool-cases, inl, inr, List, [], ◌∷◌, ◌++◌,
  append-nil, arith, if◌then◌else◌,
}
use aio4c.Event.{Pointer}
use aio4c.Queue.{QueueItem, undefined, event_item, data_item, task_item, exit_item}
use aio4c.Queue.Remove.{picked, visit_all}
use aio4c.Worker.{Action, processed, released, freed, is_task_of, release_task}

-- The buffers of the tasks of `c`, up to the item that tells the worker that `c` is closed.
unfoldable pub before_close : Pointer → List QueueItem → List Pointer
before_close c [] = []
before_close c (task_item e d b ∷ xs) = if d == c then b ∷ before_close c xs else before_close c xs
before_close c (event_item e d ∷ xs) = if d == c then [] else before_close c xs
before_close c (data_item p ∷ xs) = before_close c xs
before_close c (exit_item ∷ xs) = before_close c xs
before_close c (undefined ∷ xs) = before_close c xs

-- The buffers that the handlers of `c` got to process, in order.
unfoldable pub processed_of : Pointer → List Action → List Pointer
processed_of c [] = []
processed_of c (processed d b ∷ log) = if d == c then b ∷ processed_of c log else processed_of c log
processed_of c (released b ∷ log) = processed_of c log
processed_of c (freed d ∷ log) = processed_of c log

-- How many tasks carry a buffer, and how often it was released.
unfoldable pub carried : Pointer → List QueueItem → ℕ
carried b [] = 0
carried b (task_item e d a ∷ xs) = if a == b then suc (carried b xs) else carried b xs
carried b (event_item e d ∷ xs) = carried b xs
carried b (data_item p ∷ xs) = carried b xs
carried b (exit_item ∷ xs) = carried b xs
carried b (undefined ∷ xs) = carried b xs

unfoldable pub times_released : Pointer → List Action → ℕ
times_released b [] = 0
times_released b (processed d a ∷ log) = times_released b log
times_released b (released a ∷ log) =
    if a == b then suc (times_released b log) else times_released b log
times_released b (freed d ∷ log) = times_released b log

pub carried-append :
    (b : Pointer) (xs ys : List QueueItem) → carried b (xs ++ ys) ≡ carried b xs + carried b ys
unfolding carried
carried-append b [] ys = omega arith
carried-append b (task_item e d a ∷ xs) ys = ground (arith, carried-append b xs ys)
carried-append b (event_item e d ∷ xs) ys = carried-append b xs ys
carried-append b (data_item p ∷ xs) ys = carried-append b xs ys
carried-append b (exit_item ∷ xs) ys = carried-append b xs ys
carried-append b (undefined ∷ xs) ys = carried-append b xs ys

pub times_released-append :
    (b : Pointer) (xs ys : List Action)
    → times_released b (xs ++ ys) ≡ times_released b xs + times_released b ys
unfolding times_released
times_released-append b [] ys = omega arith
times_released-append b (processed d a ∷ xs) ys = times_released-append b xs ys
times_released-append b (released a ∷ xs) ys = ground (arith, times_released-append b xs ys)
times_released-append b (freed d ∷ xs) ys = times_released-append b xs ys

pub processed_of-append :
    (c : Pointer) (xs ys : List Action)
    → processed_of c (xs ++ ys) ≡ processed_of c xs ++ processed_of c ys
unfolding processed_of
processed_of-append c [] ys = refl
processed_of-append c (processed d a ∷ xs) ys = ground (arith, processed_of-append c xs ys)
processed_of-append c (released a ∷ xs) ys = processed_of-append c xs ys
processed_of-append c (freed d ∷ xs) ys = processed_of-append c xs ys

-- `RemoveAll` releases the buffers of the tasks that it takes out, once each.
pub removed-released :
    (b c : Pointer) (xs : List QueueItem) (log : List Action)
    → times_released b (visit_all (release_task c) xs log)
        + carried b (picked (λ x. not (is_task_of c x)) xs)
      ≡ times_released b log + carried b xs
unfolding visit_all picked carried times_released
removed-released b c [] log = refl
removed-released b c (task_item e d a ∷ xs) log = elim (Bool-cases (d == c)) [
  | inl q ↦
      let one : times_released b (released a ∷ []) + carried b xs
          ≡ carried b (task_item e d a ∷ xs) =
        ground arith in
      rw q (
        removed-released b c xs (log ++ released a ∷ [])
        ∙ omega (arith, times_released-append b log (released a ∷ []), one))
  | inr q ↦ rw q (ground (arith, removed-released b c xs log))
]
removed-released b c (event_item e d ∷ xs) log = removed-released b c xs log
removed-released b c (data_item p ∷ xs) log = removed-released b c xs log
removed-released b c (exit_item ∷ xs) log = removed-released b c xs log
removed-released b c (undefined ∷ xs) log = removed-released b c xs log

-- It lets no handler process anything.
pub removed-processed :
    (b c : Pointer) (xs : List QueueItem) (log : List Action)
    → processed_of b (visit_all (release_task c) xs log) ≡ processed_of b log
unfolding visit_all processed_of
removed-processed b c [] log = refl
removed-processed b c (task_item e d a ∷ xs) log = elim (Bool-cases (d == c)) [
  | inl q ↦ rw q (
      removed-processed b c xs (log ++ released a ∷ [])
      ∙ (processed_of-append b log (released a ∷ []) ∙ append-nil (processed_of b log)))
  | inr q ↦ rw q (removed-processed b c xs log)
]
removed-processed b c (event_item e d ∷ xs) log = removed-processed b c xs log
removed-processed b c (data_item p ∷ xs) log = removed-processed b c xs log
removed-processed b c (exit_item ∷ xs) log = removed-processed b c xs log
removed-processed b c (undefined ∷ xs) log = removed-processed b c xs log

-- What is left for another connection is as before, and nothing is left for the closed one.
pub before_close-other :
    (b c : Pointer) (xs : List QueueItem)
    → (b == c) ≡ false
    → before_close b (picked (λ x. not (is_task_of c x)) xs) ≡ before_close b xs
unfolding picked before_close
before_close-other b c [] h = refl
before_close-other b c (task_item e d a ∷ xs) h = ground (arith, before_close-other b c xs h)
before_close-other b c (event_item e d ∷ xs) h = ground (arith, before_close-other b c xs h)
before_close-other b c (data_item p ∷ xs) h = before_close-other b c xs h
before_close-other b c (exit_item ∷ xs) h = before_close-other b c xs h
before_close-other b c (undefined ∷ xs) h = before_close-other b c xs h

pub before_close-none :
    (c : Pointer) (xs : List QueueItem)
    → before_close c (picked (λ x. not (is_task_of c x)) xs) ≡ []
unfolding picked before_close
before_close-none c [] = refl
before_close-none c (task_item e d a ∷ xs) = elim (Bool-cases (d == c)) [
  | inl q ↦ rw q (before_close-none c xs)
  | inr q ↦ rw (q, q) (before_close-none c xs)
]
before_close-none c (event_item e d ∷ xs) = ground (arith, before_close-none c xs)
before_close-none c (data_item p ∷ xs) = before_close-none c xs
before_close-none c (exit_item ∷ xs) = before_close-none c xs
before_close-none c (undefined ∷ xs) = before_close-none c xs
