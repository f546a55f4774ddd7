-- ===== src/Connection.antt =====
-- src/connection.c and include/aio4c/connection.h: a connection, its state machine and its buffers.
-- Left out: log messages and the name that they print, probes, and the locks. A callback that changes
-- the state while `_ConnectionState` runs it would wait for `stateLock` for ever.
pub mod Kinds
pub mod Flags
pub mod Calls
pub mod Guards
pub mod Owned
pub mod Transfer
mod Tests
use aio4c.Prelude.{
  ℕ, Bool, true, false, not, ◌&&◌, Option, none, some, List, [], ◌∷◌, ◌++◌, if◌then◌else◌, ◌==◌,
  length,
}
use aio4c.Prelude.Int.{ℤ, pos, negsuc, ltb_ℤ}
use aio4c.Machine.Defs.{Run, ok, fault, ◌>>=◌, add_int, sub_int, load_bytes, store_bytes}
use Kinds.{State, state_index, is_state, Owner, Error, is_disconnected, Connect}
use aio4c.Event.Kind.{Event}
use aio4c.Event.{
  Pointer, EventHandler, EventQueue, event_handle, copy_event_queue, event_handler_add,
  new_event_handler,
}
use aio4c.Buffer.{
  Buffer, buffer_limit, buffer_has_remaining, buffer_reset, buffer_flip, buffer_position,
  buffer_remaining,
}

-- An array of booleans that is indexed by owners.
pub record Owners : Type 0 where
  pub reader : Bool
  pub worker : Bool
  pub writer : Bool
  pub acceptor : Bool
  pub client : Bool

abbrev pub no_owner : Owners
no_owner = record {
  reader = false;
  worker = false;
  writer = false;
  acceptor = false;
  client = false;
}

abbrev pub mark : Owner → Owners → Owners
mark Owner.reader s = record s { reader = true }
mark Owner.worker s = record s { worker = true }
mark Owner.writer s = record s { writer = true }
mark Owner.acceptor s = record s { acceptor = true }
mark Owner.client s = record s { client = true }

-- The loop over an array, `result = result && flags[i]`.
abbrev pub all_owners : Owners → Bool
all_owners s = s.reader && (s.worker && (s.writer && (s.acceptor && s.client)))

-- `struct s_Connection` without the queues of handlers: what a callback may change.
pub record Core : Type 0 where
  pub read_buffer : Buffer
  pub write_buffer : Buffer
  pub socket : ℤ
  pub state : State
  pub closed_for_error : Bool
  pub closed_by : Owners
  pub managed_by : Owners
  pub can_read : Bool
  pub can_write : Bool

pub record Connection : Type 0 where
  pub core : Core
  pub system_handlers : EventQueue
  pub user_handlers : EventQueue

-- `NewConnection` where memory suffices, with the two buffers that `AllocateBuffer` returned.
unfoldable pub new_connection : (read_buffer write_buffer : Buffer) → Connection
new_connection read_buffer write_buffer = record {
  core = record {
    read_buffer = read_buffer;
    write_buffer = (buffer_limit write_buffer (pos 0)).1;
    socket = negsuc 0;
    state = State.none;
    closed_for_error = false;
    closed_by = record no_owner { acceptor = true };
    managed_by = record no_owner { acceptor = true; client = true };
    can_read = false;
    can_write = false;
  };
  system_handlers = λ e. [];
  user_handlers = λ e. [];
}

-- `ConnectionNoMoreUsed`: whether all owners are through with the connection.
unfoldable pub connection_no_more_used : Owner → Core → Bool × Core
connection_no_more_used owner c =
    let closed_by = mark owner c.closed_by in
    let result = all_owners closed_by in
    (result, record c { closed_by = if result then no_owner else closed_by })

abbrev pub allow : (can_read can_write : Bool) → Core → Core
allow can_read can_write k = record k { can_read = can_read; can_write = can_write }

module _ {X : Type 0} where
  abbrev pub with_core : (Core → Core) → Connection × X → Connection × X
  with_core f (c, x) = (record c { core = f c.core }, x)

  abbrev pub set_read_buffer : Buffer → Connection × X → Connection × X
  set_read_buffer b w = with_core (λ k. record k { read_buffer = b }) w

  abbrev pub set_write_buffer : Buffer → Connection × X → Connection × X
  set_write_buffer b w = with_core (λ k. record k { write_buffer = b }) w

-- `X` is the rest of the program, `self` the connection's address, and `run` what a callback does to
-- the connection and that rest.
module _ {X : Type 0} (self : Pointer)
    (run : Pointer → Event → Pointer → Pointer → Core × X → Core × X) where
  -- `_ConnectionEventHandle`.
  unfoldable pub connection_event_handle : Event → Connection × X → Connection × X
  connection_event_handle e (c, x) =
      let (system, w) = event_handle run c.system_handlers e self (c.core, x) in
      let (user, w') = event_handle run c.user_handlers e self w in
      (record { core = w'.0; system_handlers = system; user_handlers = user }, w'.1)

  -- The switch of `_ConnectionState`, after the state has been stored.
  unfoldable pub enter_state : State → Connection × X → Connection × X
  enter_state State.none w = w
  enter_state State.initialized w = connection_event_handle Event.init w
  enter_state State.connecting w =
      connection_event_handle Event.connecting (with_core (allow false false) w)
  enter_state State.connected w =
      connection_event_handle Event.connected (with_core (allow true true) w)
  enter_state State.pending_close w =
      connection_event_handle Event.pending_close (with_core (allow false true) w)
  enter_state State.closed w = connection_event_handle Event.close (with_core (allow false false) w)

  unfoldable pub connection_state : State → Connection × X → Connection × X
  connection_state s w =
      if is_state w.0.core.state s
      then w
      else enter_state s (with_core (λ k. record k { state = s }) w)

  unfoldable pub connection_close : (force : Bool) → Connection × X → Connection × X
  connection_close force w =
      connection_state (if force then State.closed else State.pending_close) w

  -- `_ConnectionHandleError`.
  unfoldable pub connection_handle_error : Error → Connection × X → Connection × X
  connection_handle_error error w =
      connection_close true
        (with_core (λ k. record k { closed_for_error = not (is_disconnected error) }) w)

  -- `malloc` says whether `NewEventHandler` gets its memory.
  unfoldable pub connection_add_handler :
      (malloc : Bool)
      → Event
      → (callback arg : Pointer) → (once : Bool) → Connection × X
      → Connection × X
  unfolding new_event_handler
  connection_add_handler malloc event callback arg once w =
      elim (new_event_handler malloc event callback arg once) [
        | none ↦ connection_handle_error Error.event_handler w
        | some h ↦ (record w.0 { user_handlers = event_handler_add w.0.user_handlers h }, w.1)
      ]

  unfoldable pub connection_add_system_handler :
      (malloc : Bool)
      → Event
      → (callback arg : Pointer) → (once : Bool) → Connection × X
      → Connection × X
  unfolding new_event_handler
  connection_add_system_handler malloc event callback arg once w =
      elim (new_event_handler malloc event callback arg once) [
        | none ↦ connection_handle_error Error.event_handler w
        | some h ↦ (record w.0 { system_handlers = event_handler_add w.0.system_handlers h }, w.1)
      ]

  -- `descriptor` is what `socket` returns, -1 on an error; `nonblocking` whether `fcntl` succeeds.
  unfoldable pub connection_init :
      (descriptor : ℤ) (nonblocking : Bool) → Connection × X → Connection × X
  connection_init descriptor nonblocking w =
      let w' = with_core (λ k. record k { socket = descriptor }) w in
      elim descriptor [
        | negsuc n ↦ connection_handle_error Error.socket w'
        | pos n ↦
            if nonblocking
            then connection_state State.initialized w'
            else connection_handle_error Error.fcntl w'
      ]

  unfoldable pub connection_connect : Connect → Connection × X → Connection × X
  connection_connect answer w =
      if not (is_state w.0.core.state State.initialized)
      then connection_handle_error Error.connection_state w
      else elim answer [
        | Connect.done ↦ connection_state State.connected w
        | Connect.in_progress ↦ connection_state State.connecting w
        | Connect.failed ↦ connection_handle_error Error.connect w
      ]

  -- `ready` is the answer of `poll` (`none` on an error), `pending` that of `getsockopt(SO_ERROR)`.
  unfoldable pub connection_finish_connect :
      (ready : Option Bool) (pending : Option ℕ) → Connection × X → Connection × X
  connection_finish_connect none pending w = connection_handle_error Error.poll w
  connection_finish_connect (some false) pending w = w
  connection_finish_connect (some true) none w = connection_handle_error Error.getsockopt w
  connection_finish_connect (some true) (some error) w =
      if error == 0 then w else connection_handle_error Error.finish_connect w

  unfoldable pub connection_managed_by : Owner → Connection × X → Connection × X
  connection_managed_by owner w =
      let w' = with_core (λ k. record k { managed_by = mark owner k.managed_by }) w in
      if all_owners w'.0.core.managed_by then connection_state State.connected w' else w'

  unfoldable pub connection_process_data : Connection × X → Connection × X
  connection_process_data w = connection_event_handle Event.read w

  unfoldable pub enable_write_interest : Connection × X → Connection × X
  enable_write_interest w =
      if w.0.core.can_write then connection_event_handle Event.outbound_data w else w

  -- `ConnectionRead` behind the call of `recv`: none is an error, and no byte the end of the stream.
  unfoldable pub finish_read : Option (List ℕ) → Connection × X → Run (Connection × X)
  finish_read none w = ok (connection_handle_error Error.read w)
  finish_read (some []) w = ok (
      if is_state w.0.core.state State.pending_close
      then connection_state State.closed w
      else connection_handle_error Error.disconnected w)
  finish_read (some (x ∷ xs)) w =
      let b = w.0.core.read_buffer in
      store_bytes b.bytes b.position (x ∷ xs) >>= λ bytes.
      let b' = record b { bytes = bytes } in
      if not w.0.core.can_read
      then (buffer_reset b' >>= λ cleared. ok (set_read_buffer cleared w))
      else (add_int b.position (pos (length (x ∷ xs))) >>= λ end. ok (
          connection_event_handle Event.inbound_data
            (set_read_buffer (buffer_position b' end).1 w)))

  -- `recv n` is what arrives where there is room for `n` bytes.
  unfoldable pub connection_read :
      (recv : ℤ → Option (List ℕ)) → Connection × X → Run (Connection × X)
  connection_read recv w =
      let b = w.0.core.read_buffer in
      if not (buffer_has_remaining b)
      then ok (connection_handle_error Error.buffer_overflow w)
      else buffer_remaining b >>= λ room. finish_read (recv room) w

  -- `ConnectionWrite` up to the call of `send`: the callbacks of the write event fill an empty buffer.
  unfoldable pub prepare_write : Connection × X → Run (Connection × X)
  prepare_write w = if buffer_has_remaining w.0.core.write_buffer then ok w else do
    b ← buffer_reset w.0.core.write_buffer
    let w' = connection_event_handle Event.write (set_write_buffer b w)
    ok (set_write_buffer (buffer_flip w'.0.core.write_buffer) w')

  -- `send xs` is how many of the bytes are sent, `none` on an error, and what it does to the rest of the
  -- program; `shutdown` is what `ConnectionShutdown` does to it. The result is whether bytes are left.
  unfoldable pub finish_write :
      (pending : Bool) (shutdown : X → X)
      → Option ℕ
      → Connection × X
      → Run (Bool × (Connection × X))
  finish_write pending shutdown none w = ok (false, connection_handle_error Error.write w)
  finish_write pending shutdown (some k) w =
      let b = w.0.core.write_buffer in
      add_int b.position (pos k) >>= λ end.
      let b' = (buffer_position b end).1 in
      let w' = set_write_buffer b' w in
      ok (
        if buffer_has_remaining b'
        then (true, w')
        else (false, if pending then (w'.0, shutdown w'.1) else w'))

  unfoldable pub connection_write :
      (send : List ℕ → X → Option ℕ × X) (shutdown : X → X)
      → Connection × X
      → Run (Bool × (Connection × X))
  unfolding finish_write
  connection_write send shutdown w =
      if not w.0.core.can_write
      then ok (false, connection_handle_error Error.connection_state w)
      else prepare_write w >>= λ w'.
          let b = w'.0.core.write_buffer in
          buffer_remaining b >>= λ n.
          if ltb_ℤ n (pos 0)
          then ok (false, connection_handle_error Error.buffer_underflow w')
          else load_bytes b.bytes b.position n >>= λ xs.
              let (answer, x) = send xs w'.1 in
              finish_write (is_state w.0.core.state State.pending_close) shutdown answer (w'.0, x)

  -- `ConnectionFactoryCreate`, with the connection that `NewConnection` returned. `nonblocking` is
  -- whether `fcntl` succeeds, `arg` what the factory's callback returns.
  unfoldable pub connection_factory_create :
      (factory connection : Connection) (socket : ℤ) (nonblocking : Bool) (arg : Pointer)
      → Option Connection
  connection_factory_create factory connection socket nonblocking arg =
      if nonblocking
      then some (record {
        core = record connection.core {
          socket = socket;
          closed_by = record connection.core.closed_by { acceptor = false; client = true };
        };
        user_handlers = copy_event_queue connection.user_handlers factory.user_handlers arg;
        system_handlers = copy_event_queue connection.system_handlers factory.system_handlers 0;
      })
      else none
