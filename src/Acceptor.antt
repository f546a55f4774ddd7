-- ===== src/Acceptor.antt =====
-- src/acceptor.c: the thread that accepts connections and hands each to one of its readers. `loads` are the loads of
-- the readers, which the readers change. `handlers` are the queues `systemHandlers` of the connections. The parameters of the last section are
-- the address of `_AcceptorCloseHandler` and `ConnectionClose`. The log says which connections were handed out, which were closed, and
-- which of those this thread has freed.
pub mod Choose
pub mod Accepted
pub mod Exit
mod Tests
use aio4c.Prelude.{
  update, ℕ, zero, suc, ◌==◌, ◌+◌, Bool, true, false, Option, some, none, List, [], ◌∷◌, ◌++◌,
  if◌then◌else◌,
}
use aio4c.Prelude.Int.{ℤ, pos, ltb_ℤ}
use aio4c.Machine.Defs.{Run, ok, fault, ◌>>=◌, int_max}
use aio4c.Event.{Pointer, EventQueue, event_handler_remove}
use aio4c.Event.Kind.{Event, same}
use aio4c.Queue.{
  Queue, QueueItem, Visit, returns, asleep, undefined, event_item, data_item, task_item, exit_item,
  enqueue_item, dequeue_enter, remove_all,
}
use aio4c.Connection.Kinds.{Owner}
use aio4c.Connection.{Core, connection_no_more_used}

pub data Action : Type 0 where
  handed : (reader : ℕ) (connection : Pointer) → Action
  closed : (connection : Pointer) (freed : Bool) → Action

pub record Acceptor : Type 0 where
  pub queue : Queue
  pub loads : List ℤ
  pub cores : Pointer → Core
  pub handlers : Pointer → EventQueue
  pub log : List Action

abbrev pub put_core : Pointer → Core → Acceptor → Acceptor
put_core c core a = record a { cores = λ d. if d == c then core else a.cores d }

-- The loop of `_ChooseReader`, for the readers from the index `i` on.
unfoldable pub choose_loop : List ℤ → (i : ℕ) (min_load : ℤ) (choosen : Option ℕ) → Option ℕ
choose_loop [] i min_load choosen = choosen
choose_loop (load ∷ loads) i min_load choosen =
    let less = ltb_ℤ load min_load in
    choose_loop loads (suc i) (if less then load else min_load) (if less then some i else choosen)

-- `_ChooseReader`. Where it has chosen none, it reads `readers[-1]`.
unfoldable pub choose_reader : List ℤ → Run ℕ
choose_reader loads = elim (choose_loop loads 0 (pos int_max) none) [ none ↦ fault | some i ↦ ok i ]

-- The body of the loop of `_AcceptorRun` for a connection that was accepted, from `EnqueueDataItem` on.
unfoldable pub accept_connection : (malloc : Bool) → Pointer → Acceptor → Run Acceptor
accept_connection malloc c a = do
  (done, q) ← enqueue_item malloc a.queue (data_item c)
  reader ← choose_reader a.loads
  ok (record a { queue = q; log = a.log ++ handed reader c ∷ [] })

-- `_AcceptorRemoveCallback`.
abbrev pub acceptor_remove : Pointer → QueueItem → Bool
acceptor_remove c (data_item d) = d == c
acceptor_remove c _ = false

-- `_AcceptorCloseHandler`.
unfoldable pub acceptor_close : Event → Pointer → Acceptor → Acceptor
acceptor_close event c a =
    if same event Event.close
    then (let (some_gone, q, t) =
          remove_all {0} (λ (x : QueueItem) (s : Unit). (acceptor_remove c x, s)) a.queue tt in
        let (last, core) = connection_no_more_used Owner.acceptor (a.cores c) in
        record (put_core c core a) { queue = q; log = a.log ++ closed c last ∷ [] })
    else a

-- `EventHandlerRemove(connection->systemHandlers, AIO4C_CLOSE_EVENT, handler)`.
abbrev pub remove_handler : (handler c : Pointer) → Acceptor → Acceptor
remove_handler handler c a = record a {
  handlers = update c (event_handler_remove (a.handlers c) Event.close handler) a.handlers;
}

module _ (handler : Pointer) (close : Pointer → EventQueue → Core → Core) where
  -- The body of the loop of `_AcceptorExit`. `ConnectionClose` runs the handlers that are left.
  unfoldable pub close_item : QueueItem → Acceptor → Acceptor
  close_item (data_item c) a =
      let b = remove_handler handler c a in
      let (last, core) =
        connection_no_more_used Owner.acceptor (close c (b.handlers c) (b.cores c)) in
      record (put_core c core b) { log = b.log ++ closed c last ∷ [] }
  close_item _ a = a

  -- The loop, with fuel; none where the fuel ran out.
  unfoldable pub acceptor_exit : ℕ → Acceptor → Option Acceptor
  acceptor_exit zero a = none
  acceptor_exit (suc fuel) a = elim (dequeue_enter a.queue undefined false) [
    | asleep ↦ none
    | returns false x q ↦ some (record a { queue = q })
    | returns true x q ↦ acceptor_exit fuel (close_item x (record a { queue = q }))
  ]
