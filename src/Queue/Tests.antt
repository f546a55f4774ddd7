-- ===== src/Queue/Tests.antt =====
-- The queue theorems at concrete queues.
use aio4c.Prelude.{◌≡◌, ◌+◌, refl, Bool, true, false, some, List, [], ◌∷◌, ◌++◌, arith}
use aio4c.Queue.{
  Queue, QueueItem, data_item, exit_item, undefined, enqueue_item, dequeue_enter, take_item,
  remove_all,
}
use aio4c.Queue.Fifo.{Step, Steps, Closed, Steps-Closed}
use aio4c.Queue.Order.{Visits, count, Part, Visits-fifo}
use aio4c.Queue.Drain.{drain, drain_all}
use aio4c.Queue.Remove.{picked, any_picked, visit_all, remove_all-picked}

abbrev queue_with : List QueueItem → List QueueItem → (exit emptied : Bool) → Queue
queue_with busy free exit emptied = record {
  busy = busy;
  free = free;
  has_lock = true;
  exit = exit;
  emptied = emptied;
}

abbrev fresh : Queue
fresh = queue_with [] [] false false

-- One thread puts in 1 and the exit item, another takes out 1.
abbrev ended : Queue
ended = queue_with (exit_item ∷ []) (data_item 1 ∷ []) true false

abbrev one_in : Queue
one_in = queue_with (data_item 1 ∷ []) [] false false

abbrev two_in : Queue
two_in = queue_with (data_item 1 ∷ exit_item ∷ []) [] true false

put_data : Step fresh one_in (data_item 1 ∷ []) []
unfolding enqueue_item
put_data = Step.put true true (data_item 1) refl

put_exit : Step one_in two_in (exit_item ∷ []) []
unfolding enqueue_item
put_exit = Step.put true true exit_item refl

take_data : Step two_in ended [] (data_item 1 ∷ [])
unfolding dequeue_enter take_item
take_data = Step.enter undefined true true (data_item 1) refl

two_threads : Steps fresh ended (data_item 1 ∷ exit_item ∷ []) (data_item 1 ∷ [])
two_threads = Steps.more (Steps.more (Steps.more Steps.start put_data) put_exit) take_data

-- Then the exit item is removed, too.
visited :
    Visits Unit fresh
      (remove_all {0} (λ (x : QueueItem) (s : Unit). (true, s)) ended tt).1
      (data_item 1 ∷ exit_item ∷ [])
      (data_item 1 ∷ [])
      (exit_item ∷ [])
unfolding picked
visited =
    Visits.remove (λ x. true) (λ x s. s) tt
      (Visits.visit (Visits.visit (Visits.visit Visits.nobody put_data) put_exit) take_data)

Visits-fifo_example :
    ((t : QueueItem → Bool)
      → count t (data_item 1 ∷ [])
          + count t (remove_all {0} (λ (x : QueueItem) (s : Unit). (true, s)) ended tt).1.busy
          + count t (exit_item ∷ [])
        ≡ count t [] + count t (data_item 1 ∷ exit_item ∷ []))
    × Part
        ((data_item 1 ∷ [])
          ++ (remove_all {0} (λ (x : QueueItem) (s : Unit). (true, s)) ended tt).1.busy)
        ([] ++ (data_item 1 ∷ exit_item ∷ []))
unfolding picked
Visits-fifo_example = Visits-fifo visited

Steps-Closed_example : Closed true (data_item 1 ∷ exit_item ∷ [])
Steps-Closed_example = Steps-Closed {q = fresh} {q' = ended} refl two_threads

drain_all_example :
    drain 3 (queue_with (data_item 1 ∷ data_item 2 ∷ []) [] false false)
    ≡ some
        (data_item 1 ∷ data_item 2 ∷ [], queue_with [] (data_item 1 ∷ data_item 2 ∷ []) false false)
drain_all_example =
    drain_all 3 (queue_with (data_item 1 ∷ data_item 2 ∷ []) [] false false) refl (omega arith)

abbrev is_exit_item : QueueItem → Bool
is_exit_item exit_item = true
is_exit_item _ = false

-- The exit item goes; the callback keeps the items that it saw.
remove_all-picked_example :
    remove_all
      (λ x s. (is_exit_item x, s ++ x ∷ []))
      (queue_with (data_item 1 ∷ exit_item ∷ []) [] true false)
      []
    ≡ (
      true,
      queue_with (data_item 1 ∷ []) (exit_item ∷ []) true false,
      data_item 1 ∷ exit_item ∷ [],
    )
unfolding picked any_picked visit_all
remove_all-picked_example =
    remove_all-picked is_exit_item (λ x s. s ++ x ∷ [])
      (queue_with (data_item 1 ∷ exit_item ∷ []) [] true false) []
