-- ===== src/Queue.antt =====
-- src/queue.c: queues of items between threads. Every operation runs between `TakeLock` and
-- `ReleaseLock`, so it is one step on the queue; only `WaitCondition` lets other threads in. The two
-- lists of nodes are the sequences of the items at their nodes (LinkedList has the nodes).
pub mod Fifo
pub mod Drain
pub mod Remove
pub mod Order
mod Tests
use aio4c.Prelude.{
  Bool, true, false, not, ◌&&◌, ◌||◌, Option, none, some, List, [], ◌∷◌, ◌++◌, if◌then◌else◌, ℕ,
}
use aio4c.Machine.Defs.{Run, ok, fault, ◌>>=◌}
use aio4c.Event.Kind.{Event}

-- An address; 0 is `NULL`.
abbrev pub Pointer : Type 0
Pointer = ℕ

-- `QueueItem`: the type of an item with the member of the union that goes with it. `undefined` is also
-- what `memset(item, 0, ...)` leaves.
pub data QueueItem : Type 0 where
  undefined : QueueItem
  event_item : Event → (source : Pointer) → QueueItem
  data_item : Pointer → QueueItem
  task_item : Event → (connection buffer : Pointer) → QueueItem
  exit_item : QueueItem

-- `struct s_Queue`; `has_lock` is `lock != NULL`.
pub record Queue : Type 0 where
  pub busy : List QueueItem
  pub free : List QueueItem
  pub has_lock : Bool
  pub exit : Bool
  pub emptied : Bool

-- `malloc` says whether the queue can be allocated, `lock` whether `NewLock` succeeds.
unfoldable pub new_queue : (malloc lock : Bool) → Option Queue
new_queue false lock = none
new_queue true lock =
    some (record { busy = []; free = []; has_lock = lock; exit = false; emptied = false })

unfoldable pub new_queue_item : (malloc : Bool) → Option QueueItem
new_queue_item malloc = if malloc then some undefined else none

abbrev pub list_empty {ℓ} : {A : Type ℓ} → List A → Bool
list_empty [] = true
list_empty (x ∷ xs) = false

-- Whether `Dequeue` goes to sleep.
abbrev pub sleeps : Bool → Queue → Bool
sleeps wait q = not q.exit && (wait && list_empty q.busy)

abbrev pub take_from : List QueueItem → Queue → Bool × QueueItem × Queue
take_from [] q = (false, undefined, q)
take_from (x ∷ xs) q =
    (true, x, record q { busy = xs; free = q.free ++ (x ∷ []); emptied = list_empty xs })

-- The end of `Dequeue`: whether it took an item, and what it stores in `*item`.
unfoldable pub take_item : Queue → Bool × QueueItem × Queue
take_item q = take_from q.busy q

-- What a visit to the queue under its lock comes to: `Dequeue` returns, or sleeps.
pub data Visit : Type 0 where
  returns : Bool → QueueItem → Queue → Visit
  asleep : Visit

abbrev pub returned : Bool × QueueItem × Queue → Visit
returned (done, item, q) = returns done item q

-- `Dequeue` from its start up to its return or its first sleep. `item` is what `*item` holds before.
unfoldable pub dequeue_enter : Queue → QueueItem → (wait : Bool) → Visit
dequeue_enter q item wait =
    if q.emptied
    then returns false item (record q { emptied = false })
    else if sleeps wait q
    then asleep
    else returned (take_item q)

-- The same from a wake-up on; `woken` is the result of `WaitCondition`.
unfoldable pub dequeue_wake : (woken : Bool) → Queue → Visit
dequeue_wake woken q = if woken && sleeps true q then asleep else returned (take_item q)

-- A whole call. Each element of `wakes` is a wake-up, with the queue as other threads left it; a call
-- that has no wake-up left is still asleep.
unfoldable pub sleep : List (Bool × Queue) → Visit
sleep [] = asleep
sleep ((woken, q) ∷ wakes) =
    let again = sleep wakes in
    elim (dequeue_wake woken q) [ returns done item q' ↦ returns done item q' | asleep ↦ again ]

unfoldable pub dequeue : Queue → QueueItem → (wait : Bool) → List (Bool × Queue) → Visit
dequeue q item wait wakes = elim (dequeue_enter q item wait) [
  | returns done item' q' ↦ returns done item' q'
  | asleep ↦ sleep wakes
]

abbrev pub is_exit : QueueItem → Bool
is_exit exit_item = true
is_exit _ = false

abbrev pub rest_of : List QueueItem → List QueueItem
rest_of [] = []
rest_of (x ∷ xs) = xs

-- `_Enqueue` on a queue that is not `NULL`. `malloc` says whether a node can be allocated where no
-- free one is left; where it cannot, `ListAddLast` calls `abort`.
unfoldable pub enqueue_item : (malloc : Bool) → Queue → QueueItem → Run (Bool × Queue)
enqueue_item malloc q item =
    if not q.has_lock || q.exit
    then ok (false, q)
    else if list_empty q.free && not malloc
    then fault
    else ok (
      true,
      record q {
        free = rest_of q.free;
        busy = q.busy ++ (item ∷ []);
        exit = q.exit || is_exit item;
      },
    )

unfoldable pub enqueue : (malloc : Bool) → Option Queue → QueueItem → Run (Bool × Option Queue)
enqueue malloc none item = ok (false, none)
enqueue malloc (some q) item = enqueue_item malloc q item >>= λ (done, q'). ok (done, some q')

unfoldable pub enqueue_data_item : Bool → Option Queue → Pointer → Run (Bool × Option Queue)
enqueue_data_item malloc q p = enqueue malloc q (data_item p)

unfoldable pub enqueue_exit_item : Bool → Option Queue → Run (Bool × Option Queue)
enqueue_exit_item malloc q = enqueue malloc q exit_item

unfoldable pub enqueue_event_item :
    Bool → Option Queue → Event → Pointer → Run (Bool × Option Queue)
enqueue_event_item malloc q type source = enqueue malloc q (event_item type source)

unfoldable pub enqueue_task_item :
    Bool → Option Queue → Event → Pointer → Pointer → Run (Bool × Option Queue)
enqueue_task_item malloc q event connection buffer =
    enqueue malloc q (task_item event connection buffer)

-- `RemoveAll`: the loop over the busy nodes. The callback may change a state `S` of its own; it
-- returns whether the item goes. `kept` and `dropped` are the items passed so far.
unfoldable pub remove_loop {ℓ} :
    {S : Type ℓ} (callback : QueueItem → S → Bool × S)
    → (kept dropped todo : List QueueItem) → S
    → List QueueItem × List QueueItem × S
remove_loop callback kept dropped [] s = (kept, dropped, s)
remove_loop callback kept dropped (x ∷ xs) s =
    let (gone, s') = callback x s in
    remove_loop callback (if gone then kept else kept ++ (x ∷ []))
      (if gone then dropped ++ (x ∷ []) else dropped) xs s'

unfoldable pub remove_all {ℓ} :
    {S : Type ℓ} (callback : QueueItem → S → Bool × S) → Queue → S → Bool × Queue × S
unfolding remove_loop
remove_all callback q s =
    let (kept, dropped, s') = remove_loop callback [] [] q.busy s in
    (not (list_empty dropped), record q { busy = kept; free = q.free ++ dropped }, s')
