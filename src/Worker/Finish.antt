-- ===== src/Worker/Finish.antt =====
-- The thread with an exit item at the end of its queue.
use aio4c.Prelude.{
  ℕ, zero, suc, ◌<◌, ◌≤◌, ◌≡◌, refl, sym, ap, ◌∙◌, ◌==◌, Bool, true, false, not, Bool-cases, inl,
  inr, Option, none, some, List, [], ◌∷◌, ◌++◌, length, append_assoc, append-nil, arith,
  if◌then◌else◌,
}
use mathlib.Core.Path.{subst}
use aio4c.Event.{Pointer}
use aio4c.Event.Kind.{Event}
use aio4c.Queue.{
  QueueItem, undefined, event_item, data_item, task_item, exit_item, dequeue_enter, take_item,
}
use aio4c.Queue.Remove.{picked, visit_all}
use aio4c.Queue.Fifo.{NoExit}
use aio4c.Connection.Kinds.{Owner}
use aio4c.Connection.{Core, connection_no_more_used}
use aio4c.Worker.{
  Action, processed, released, freed, Worker, is_task_of, release_task, close_connection,
  worker_item, Outcome, exited, waiting, worker_run,
}
use aio4c.Worker.Items.{
  before_close, processed_of, processed_of-append, removed-processed, before_close-other,
  before_close-none,
}
use aio4c.Worker.Serve.{worker_item-close}

-- The thread has exited, its queue is empty, and the handlers of every connection got the data of its
-- tasks up to the close of the connection.
abbrev pub Finished : List QueueItem → List Action → Option (Outcome × Worker) → Type 0
Finished xs log none = ⊥
Finished xs log (some (waiting, w)) = ⊥
Finished xs log (some (exited, w)) =
    (w.queue.busy ≡ [])
    × ((c : Pointer) → processed_of c w.log ≡ processed_of c log ++ before_close c xs)

module _ (has_lock : Bool) where
  abbrev worker_of :
      (busy free : List QueueItem) (exit emptied : Bool) (cores : Pointer → Core)
      (log : List Action)
      → Worker
  worker_of busy free exit emptied cores log = record {
    queue = record {
      busy = busy;
      free = free;
      has_lock = has_lock;
      exit = exit;
      emptied = emptied;
    };
    cores = cores;
    log = log;
  }

  abbrev continue : ℕ → Bool × Worker → Option (Outcome × Worker)
  continue fuel (more, w) = let rest = worker_run fuel w in if more then rest else some (exited, w)

  -- One round of the loop, where more than one item is in the queue.
  run_step :
      (fuel : ℕ) (x : QueueItem) (xs free : List QueueItem) (exit : Bool) (cores : Pointer → Core)
      (log : List Action)
      → worker_run (suc fuel) (worker_of (x ∷ (xs ++ exit_item ∷ [])) free exit false cores log)
        ≡ continue fuel
            (worker_item x (worker_of (xs ++ exit_item ∷ []) (free ++ x ∷ []) exit false cores log))
  unfolding worker_run dequeue_enter take_item
  run_step fuel x [] free false cores log = refl
  run_step fuel x [] free true cores log = refl
  run_step fuel x (y ∷ ys) free false cores log = refl
  run_step fuel x (y ∷ ys) free true cores log = refl

  run_exit :
      (fuel : ℕ) (free : List QueueItem) (exit : Bool) (cores : Pointer → Core) (log : List Action)
      → Finished [] log
          (worker_run (suc fuel) (worker_of (exit_item ∷ []) free exit false cores log))
  unfolding worker_run dequeue_enter take_item worker_item before_close
  run_exit fuel free false cores log = (refl, λ c. sym (append-nil (processed_of c log)))
  run_exit fuel free true cores log = (refl, λ c. sym (append-nil (processed_of c log)))

picked-exit :
    (c : Pointer) (xs : List QueueItem)
    → picked (λ x. not (is_task_of c x)) (xs ++ exit_item ∷ [])
      ≡ picked (λ x. not (is_task_of c x)) xs ++ exit_item ∷ []
unfolding picked
picked-exit c [] = refl
picked-exit c (x ∷ xs) = ground (arith, picked-exit c xs)

picked-shorter : (p : QueueItem → Bool) (xs : List QueueItem) → length (picked p xs) ≤ length xs
unfolding picked
picked-shorter p [] = omega arith
picked-shorter p (x ∷ xs) = ground (arith, picked-shorter p xs)

picked-NoExit : (p : QueueItem → Bool) (xs : List QueueItem) → NoExit xs → NoExit (picked p xs)
unfolding picked
picked-NoExit p [] n = tt
picked-NoExit p (x ∷ xs) (e, n) = elim (Bool-cases (p x)) [
  | inl q ↦ rw q (e, picked-NoExit p xs n)
  | inr q ↦ rw q (picked-NoExit p xs n)
]

Finished-mono :
    (xs ys : List QueueItem) (log log' : List Action) (r : Option (Outcome × Worker))
    → ((c : Pointer)
        → processed_of c log' ++ before_close c ys ≡ processed_of c log ++ before_close c xs)
    → Finished ys log' r
    → Finished xs log r
Finished-mono xs ys log log' (some (exited, w)) h (e, f) = (e, λ c. f c ∙ h c)
Finished-mono xs ys log log' (some (waiting, w)) h f = f
Finished-mono xs ys log log' none h f = f

processed_task :
    (c d b : Pointer) (e : Event) (xs : List QueueItem) (log : List Action)
    → processed_of c (log ++ processed d b ∷ released b ∷ []) ++ before_close c xs
      ≡ processed_of c log ++ before_close c (task_item e d b ∷ xs)
unfolding before_close processed_of
processed_task c d b e xs log =
    ap (λ t. t ++ before_close c xs) (processed_of-append c log (processed d b ∷ released b ∷ []))
    ∙ (append_assoc (processed_of c log) (processed_of c (processed d b ∷ released b ∷ []))
          (before_close c xs)
        ∙ ap (λ t. processed_of c log ++ t) (ground arith))

-- The connection that is closed, and the others.
processed_close :
    (c d : Pointer) (e : Event) (xs : List QueueItem) (w : Worker)
    → processed_of c
          (close_connection d
            (record w { log = visit_all (release_task d) (xs ++ exit_item ∷ []) w.log })).log
        ++ before_close c (picked (λ x. not (is_task_of d x)) xs)
      ≡ processed_of c w.log ++ before_close c (event_item e d ∷ xs)
unfolding before_close close_connection processed_of
processed_close c d e xs w =
    let log = visit_all (release_task d) (xs ++ exit_item ∷ []) w.log in
    let last = (connection_no_more_used Owner.worker (w.cores d)).0 in
    let same : processed_of c (if last then log ++ freed d ∷ [] else log) ≡ processed_of c w.log =
      elim (Bool-cases last) [
        | inl q ↦ rw q (processed_of-append c log (freed d ∷ []) ∙ append-nil (processed_of c log))
        | inr q ↦ rw q
      ]
      ∙ removed-processed c d (xs ++ exit_item ∷ []) w.log in
    ap (λ t. t ++ before_close c (picked (λ x. not (is_task_of d x)) xs)) same
    ∙ ap (λ t. processed_of c w.log ++ t)
        (elim (Bool-cases (d == c)) [
          | inl q ↦
              let d_c : d ≡ c = ground arith in
              rw q (
                subst (λ n. before_close c (picked (λ x. not (is_task_of n x)) xs) ≡ []) (sym d_c)
                  (before_close-none c xs))
          | inr q ↦ rw q (before_close-other c d xs (ground arith))
        ])

module _ (has_lock : Bool) where
  run-Finished :
      (fuel : ℕ) (xs free : List QueueItem) (exit : Bool) (cores : Pointer → Core)
      (log : List Action)
      → NoExit xs
      → length xs < fuel
      → Finished xs log
          (worker_run fuel (worker_of has_lock (xs ++ exit_item ∷ []) free exit false cores log))
  unfolding worker_item before_close close_connection
  run-Finished zero xs free exit cores log n h = absurd (omega arith)
  run-Finished (suc fuel) [] free exit cores log n h = run_exit has_lock fuel free exit cores log
  run-Finished (suc fuel) (task_item e c b ∷ xs) free exit cores log (m, n) h =
      subst (Finished (task_item e c b ∷ xs) log)
        (sym (run_step has_lock fuel (task_item e c b) xs free exit cores log))
        (Finished-mono (task_item e c b ∷ xs) xs log (log ++ processed c b ∷ released b ∷ []) _
          (λ d. processed_task d c b e xs log)
          (run-Finished fuel xs (free ++ task_item e c b ∷ []) exit cores
            (log ++ processed c b ∷ released b ∷ []) n (omega arith)))
  run-Finished (suc fuel) (event_item e c ∷ xs) free exit cores log (m, n) h =
      let event = event_item e c in
      let keep : QueueItem → Bool = λ x. not (is_task_of c x) in
      let w = worker_of has_lock (xs ++ exit_item ∷ []) (free ++ event ∷ []) exit false cores log in
      let free' = (free ++ event ∷ []) ++ picked (is_task_of c) (xs ++ exit_item ∷ []) in
      let w' = close_connection c (record w {
        queue = record w.queue { busy = picked keep (xs ++ exit_item ∷ []); free = free' };
        log = visit_all (release_task c) (xs ++ exit_item ∷ []) log;
      }) in
      subst (Finished (event ∷ xs) log) (sym (run_step has_lock fuel event xs free exit cores log))
        (subst (λ v. Finished (event ∷ xs) log (worker_run fuel v)) (sym (worker_item-close e c w))
          (Finished-mono (event ∷ xs) (picked keep xs) log w'.log _
            (λ d. processed_close d c e xs w)
            (subst
              (λ busy.
                Finished (picked keep xs) w'.log
                  (worker_run fuel (worker_of has_lock busy free' exit false w'.cores w'.log)))
              (sym (picked-exit c xs))
              (run-Finished fuel (picked keep xs) free' exit w'.cores w'.log
                (picked-NoExit keep xs n) (omega (arith, picked-shorter keep xs, h))))))
  run-Finished (suc fuel) (data_item p ∷ xs) free exit cores log (m, n) h =
      subst (Finished (data_item p ∷ xs) log)
        (sym (run_step has_lock fuel (data_item p) xs free exit cores log))
        (Finished-mono (data_item p ∷ xs) xs log log _ (λ c. refl)
          (run-Finished fuel xs (free ++ data_item p ∷ []) exit cores log n (omega arith)))
  run-Finished (suc fuel) (undefined ∷ xs) free exit cores log (m, n) h =
      subst (Finished (undefined ∷ xs) log)
        (sym (run_step has_lock fuel undefined xs free exit cores log))
        (Finished-mono (undefined ∷ xs) xs log log _ (λ c. refl)
          (run-Finished fuel xs (free ++ undefined ∷ []) exit cores log n (omega arith)))
  run-Finished (suc fuel) (exit_item ∷ xs) free exit cores log (m, n) h = absurd (cc)

-- A thread whose queue ends with the item that tells it to exit, and that is run for as many rounds as there are items and
-- two more, exits: with an empty queue, and after the handlers of every connection got to process the data of
-- its tasks, each once and in the order of the queue, up to the item that closes the connection.
pub worker_run-Finished :
    (fuel : ℕ) (w : Worker) (xs : List QueueItem)
    → NoExit xs
    → w.queue.busy ≡ xs ++ exit_item ∷ []
    → suc (length xs) < fuel
    → Finished xs w.log (worker_run fuel w)
unfolding worker_run dequeue_enter
worker_run-Finished fuel w xs n e h =
    subst
      (λ busy. Finished xs w.log (
        worker_run fuel (
          worker_of w.queue.has_lock busy w.queue.free w.queue.exit w.queue.emptied w.cores w.log)))
      (sym e) (go fuel w.queue.emptied h)
  where
    go :
        (fuel : ℕ) (emptied : Bool)
        → suc (length xs) < fuel
        → Finished xs w.log (
            worker_run fuel (
              worker_of w.queue.has_lock
                (xs ++ exit_item ∷ [])
                w.queue.free
                w.queue.exit
                emptied
                w.cores
                w.log))
    go fuel false h =
        run-Finished w.queue.has_lock fuel xs w.queue.free w.queue.exit w.cores w.log n
          (omega arith)
    go zero true h = absurd (omega arith)
    go (suc fuel) true h =
        run-Finished w.queue.has_lock fuel xs w.queue.free w.queue.exit w.cores w.log n
          (omega arith)
