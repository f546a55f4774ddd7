-- ===== src/Worker/Serve.antt =====
-- What one item does, and any interleaving of the worker with the threads that hand it items.
use aio4c.Prelude.{
  ◌+◌, ◌≡◌, refl, sym, ap, ◌∙◌, Bool, not, Bool-cases, inl, inr, List, [], ◌∷◌, ◌++◌, arith,
}
use mathlib.Core.Path.{subst}
use aio4c.Machine.Defs.{ok}
use aio4c.Event.{Pointer}
use aio4c.Event.Kind.{Event}
use aio4c.Queue.{
  Queue, QueueItem, undefined, event_item, data_item, task_item, exit_item, enqueue_item,
}
use aio4c.Queue.Remove.{picked, visit_all, remove_all-picked}
use aio4c.Queue.Fifo.{Step, Step-fifo, one_if}
use aio4c.Connection.Kinds.{Owner}
use aio4c.Connection.{connection_no_more_used}
use aio4c.Worker.{
  Action, processed, released, freed, Worker, is_task_of, release_task, close_connection,
  worker_item,
}
use aio4c.Worker.Items.{
  carried, times_released, carried-append, times_released-append, removed-released,
}

-- The switch on the item of a closed connection.
pub worker_item-close :
    (e : Event) (c : Pointer) (w : Worker)
    → (worker_item (event_item e c) w).1
      ≡ close_connection c (record w {
        queue = record w.queue {
          busy = picked (λ x. not (is_task_of c x)) w.queue.busy;
          free = w.queue.free ++ picked (is_task_of c) w.queue.busy;
        };
        log = visit_all (release_task c) w.queue.busy w.log;
      })
unfolding worker_item
worker_item-close e c w =
    ap
      (λ (r : Bool × Queue × List Action). close_connection c (record w { queue = r.1; log = r.2 }))
      (remove_all-picked (is_task_of c) (release_task c) w.queue w.log)

close_connection-released :
    (b c : Pointer) (w : Worker)
    → times_released b (close_connection c w).log ≡ times_released b w.log
unfolding close_connection times_released
close_connection-released b c w =
    elim (Bool-cases (connection_no_more_used Owner.worker (w.cores c)).0) [
      | inl e ↦ rw e (
          omega (
            arith,
            times_released-append b w.log (freed c ∷ []),
            (let n : times_released b (freed c ∷ []) ≡ 0 = refl in n),
          ))
      | inr e ↦ rw e
    ]

pub close_connection-queue : (c : Pointer) (w : Worker) → (close_connection c w).queue ≡ w.queue
unfolding close_connection
close_connection-queue c w = refl

-- An item adds to the releases what it takes out of the queue.
worker_item-released :
    (b : Pointer) (x : QueueItem) (w : Worker)
    → times_released b (worker_item x w).1.log + carried b (worker_item x w).1.queue.busy
      ≡ times_released b w.log + carried b (x ∷ w.queue.busy)
unfolding worker_item carried times_released
worker_item-released b exit_item w = refl
worker_item-released b (task_item e c a) w =
    ground (arith, times_released-append b w.log (processed c a ∷ released a ∷ []))
worker_item-released b (event_item e c) w =
    rw (worker_item-close e c w, close_connection-queue c _, close_connection-released b c _)
      (removed-released b c w.queue.busy w.log)
worker_item-released b (data_item p) w = refl
worker_item-released b undefined w = refl

-- The worker between the other threads: they put items in its queue, its calls of `Dequeue` take an item
-- out or none, and it serves the item that it took. The list holds the items that were put in.
pub data Serves (w : Worker) : Worker → List QueueItem → Type 0 where
  begun : Serves w w []
  handed :
      {ins : List QueueItem} (v : Worker) (q : Queue) (malloc done : Bool) (x : QueueItem)
      → Serves w v ins
      → enqueue_item malloc v.queue x ≡ ok (done, q)
      → Serves w (record v { queue = q }) (ins ++ one_if done x)
  idle :
      {ins : List QueueItem} (v : Worker) (q : Queue)
      → Serves w v ins
      → Step v.queue q [] []
      → Serves w (record v { queue = q }) ins
  served :
      {ins : List QueueItem} {v' : Worker} (v : Worker) (q : Queue) (x : QueueItem)
      → Serves w v ins
      → Step v.queue q [] (x ∷ [])
      → (worker_item x (record v { queue = q })).1 ≡ v'
      → Serves w v' ins

carried-Step :
    (b : Pointer) {q q' : Queue} {ins outs : List QueueItem}
    → Step q q' ins outs
    → carried b outs + carried b q'.busy ≡ carried b q.busy + carried b ins
carried-Step b {q} {q'} {ins} {outs} st =
    sym (carried-append b outs q'.busy)
    ∙ (ap (carried b) (Step-fifo st) ∙ carried-append b q.busy ins)

-- However the worker and the threads that hand it items interleave, tasks that are removed because their connection was
-- closed included: each buffer was released as often as tasks that carry it were in the queue or put in it, less
-- the tasks that are still in it. So no buffer of a task is leaked or released twice.
pub Serves-released :
    {w v : Worker} {ins : List QueueItem} (b : Pointer)
    → Serves w v ins
    → times_released b v.log + carried b v.queue.busy
      ≡ times_released b w.log + (carried b w.queue.busy + carried b ins)
unfolding carried
Serves-released b begun = omega arith
Serves-released b (handed {ins} v q malloc done x r e) = omega (
  arith,
  Serves-released b r,
  carried-Step b (Step.put malloc done x e),
  carried-append b ins (one_if done x),
)
Serves-released b (idle v q r st) = omega (arith, Serves-released b r, carried-Step b st)
Serves-released {w} {ins} b (served v q x r st e) =
    subst
      (λ (v'' : Worker).
        times_released b v''.log + carried b v''.queue.busy
        ≡ times_released b w.log + (carried b w.queue.busy + carried b ins))
      e
      (worker_item-released b x (record v { queue = q })
        ∙ omega (arith, Serves-released b r, carried-Step b st, carried-append b (x ∷ []) q.busy))
