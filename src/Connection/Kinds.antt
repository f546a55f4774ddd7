-- ===== src/Connection/Kinds.antt =====
-- The enumerations of include/aio4c/connection.h and include/aio4c/error.h.
use aio4c.Prelude.{ℕ, Bool, true, false, ◌==◌}

-- `enum e_ConnectionState`.
pub data State : Type 0 where
  none initialized connecting connected pending_close closed : State

abbrev pub state_index : State → ℕ
state_index State.none = 0
state_index State.initialized = 1
state_index State.connecting = 2
state_index State.connected = 3
state_index State.pending_close = 4
state_index State.closed = 5

abbrev pub is_state : State → State → Bool
is_state a b = state_index a == state_index b

-- `enum e_ConnectionOwner`.
pub data Owner : Type 0 where
  reader worker writer acceptor client : Owner

-- The errors that close a connection.
pub data Error : Type 0 where
  socket fcntl getsockopt connect finish_connect disconnected poll read write : Error
  buffer_overflow buffer_underflow connection_state event_handler : Error

abbrev pub is_disconnected : Error → Bool
is_disconnected Error.disconnected = true
is_disconnected _ = false

-- What `connect` answers: success, `EINPROGRESS`, or another error.
pub data Connect : Type 0 where
  done in_progress failed : Connect
