-- ===== src/Client.antt =====
-- src/client.c: the thread that connects a client, and connects it again where the connection is lost. The
-- section's parameters are what the functions of a connection do: `create` is `NewConnection` with its handlers and
-- `ConnectionInit`, `connect` is `ConnectionConnect`, and `finish` is `ConnectionFinishConnect`. A negative number of
-- retries is 0.
pub mod Retry
pub mod Exit
mod Tests
use aio4c.Prelude.{
  ℕ, suc, ◌==◌, ltb, Bool, true, false, not, ◌||◌, List, [], ◌∷◌, ◌++◌, if◌then◌else◌,
}
use aio4c.Event.{Pointer}
use aio4c.Event.Kind.{Event}
use aio4c.Queue.{QueueItem, undefined, event_item, data_item, task_item, exit_item}
use aio4c.Connection.Kinds.{State, Owner, is_state}
use aio4c.Connection.{Core, connection_no_more_used}

-- What the client does to connections: it makes one, gives one to the reader, frees one.
pub data Action : Type 0 where
  opened managed freed : (connection : Pointer) → Action

-- `struct s_Client`, with the connections by their addresses.
pub record Client : Type 0 where
  pub connection : Pointer
  pub retries : ℕ
  pub retry_count : ℕ
  pub connected : Bool
  pub exiting : Bool
  pub cores : Pointer → Core
  pub log : List Action

abbrev pub put_core : Pointer → Core → Client → Client
put_core c core s = record s { cores = λ d. if d == c then core else s.cores d }

-- Whether the client frees a connection that was closed: it does not ask the other owners before it is
-- connected.
unfoldable pub free_closed : Pointer → Client → Client
free_closed c s =
    let (last, core) = connection_no_more_used Owner.client (s.cores c) in
    if not s.connected
    then record s { log = s.log ++ freed c ∷ [] }
    else if last
    then record (put_core c core s) { log = s.log ++ freed c ∷ [] }
    else put_core c core s

module _ (create : Client → Pointer × Core) (connect finish : Core → Core) where
  -- `_connection`.
  unfoldable pub open_connection : Client → Client
  open_connection s =
      let (c, core) = create s in
      record (put_core c core s) { connected = false; connection = c; log = s.log ++ opened c ∷ [] }

  -- What follows where the connection was closed for an error, or not.
  unfoldable pub retry : (closed_for_error : Bool) → Client → Client
  retry false s = record s { exiting = true }
  retry true s =
      if ltb s.retry_count s.retries
      then open_connection (record s { retry_count = suc s.retry_count })
      else record s { exiting = true }

  unfoldable pub manage : Pointer → Client → Client
  manage c s =
      if is_state (s.cores c).state State.closed
      then s
      else record s { log = s.log ++ managed c ∷ [] }

  -- The inner switch of `_clientRun`; the first result is whether the loop goes on.
  unfoldable pub client_event : Event → Pointer → Client → Bool × Client
  client_event Event.init c s = (true, put_core c (connect (s.cores c)) s)
  client_event Event.connecting c s = (true, manage c (put_core c (finish (s.cores c)) s))
  client_event Event.connected c s = (true, record s { connected = true; retry_count = 0 })
  client_event Event.close c s = (true, retry (s.cores c).closed_for_error (free_closed c s))
  client_event Event.free c s = (not s.exiting, s)
  client_event Event.read c s = (true, s)
  client_event Event.inbound_data c s = (true, s)
  client_event Event.write c s = (true, s)
  client_event Event.outbound_data c s = (true, s)
  client_event Event.pending_close c s = (true, s)

  unfoldable pub client_item : QueueItem → Client → Bool × Client
  client_item exit_item s = (false, s)
  client_item (event_item e c) s = client_event e c s
  client_item (data_item p) s = (true, s)
  client_item (task_item e c b) s = (true, s)
  client_item undefined s = (true, s)

  -- `_clientRun` on the items that `Dequeue` hands it one after the other: whether it would take another one.
  unfoldable pub client_run : List QueueItem → Client → Bool × Client
  client_run [] s = (true, s)
  client_run (x ∷ xs) s =
      let (more, s') = client_item x s in
      let rest = client_run xs s' in if more then rest else (false, s')
