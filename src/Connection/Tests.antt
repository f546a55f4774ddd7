-- ===== src/Connection/Tests.antt =====
-- The connection theorems at concrete connections. The rest of the program is the list of the bytes sent.
use aio4c.Prelude.{
  ℕ, ◌≡◌, refl, Bool, true, false, Option, some, List, [], ◌∷◌, ◌++◌, length, take, arith, min,
}
use aio4c.Prelude.Int.{pos}
use aio4c.Machine.Defs.{Returns}
use aio4c.Event.Kind.{Event}
use aio4c.Event.{Pointer, EventQueue, event_handle, handle_loop}
use aio4c.Buffer.{Buffer}
use aio4c.Buffer.Inv.{buffer_of, IsValid, valid}
use aio4c.Connection.Kinds.{State, Owner, Connect}
use aio4c.Connection.{
  no_owner, Core, Connection, new_connection, connection_init, connection_state, enter_state,
  connection_event_handle,
}
use aio4c.Connection.Flags.{Quiet, status}
use aio4c.Connection.Calls.{Call, call, fails, call-fails}
use aio4c.Connection.Owned.{mark_all, release_all, release_all-last}
use aio4c.Connection.Guards.{Reached, Orderly, Permits, Reached-Permits}
use aio4c.Connection.Transfer.{Sends, write_rounds, AllSent, write_rounds-sent}

-- No callback does anything.
abbrev run : Pointer → Event → Pointer → Pointer → Core × List ℕ → Core × List ℕ
run callback e self arg w = w

run-Quiet : Quiet run
run-Quiet callback e self arg k x l = refl

run-Orderly : Orderly run
run-Orderly callback e self arg k x c = c

abbrev buffer : Buffer
buffer = buffer_of 0 4 (1 ∷ 2 ∷ 3 ∷ 0 ∷ 0 ∷ 0 ∷ []) 0 3

buffer-IsValid : IsValid buffer
buffer-IsValid =
    valid {pool = 0} (record {
      position_le = omega arith;
      limit_le = omega arith;
      small = omega arith;
      ends = refl;
    })

abbrev no_handlers : EventQueue
no_handlers e = []

-- A connection in a state, with the permissions given.
abbrev connection_in : State → (can_read can_write : Bool) → Connection
connection_in s can_read can_write = record {
  core = record {
    read_buffer = buffer;
    write_buffer = buffer;
    socket = pos 3;
    state = s;
    closed_for_error = false;
    closed_by = record no_owner { acceptor = true };
    managed_by = record no_owner { acceptor = true; client = true };
    can_read = can_read;
    can_write = can_write;
  };
  system_handlers = no_handlers;
  user_handlers = no_handlers;
}

-- A connection that is not connected yet.
abbrev unconnected : Connection × List ℕ
unconnected = (connection_in State.initialized false false, [])

call-fails_example :
    (fails 9 run (Call.connect_call Connect.failed) unconnected ≡ true
      → status (call 9 run (Call.connect_call Connect.failed) unconnected).0.core
        ≡ (State.closed, false, false, true))
    × (fails 9 run (Call.connect_call Connect.failed) unconnected ≡ false
        → (call 9 run (Call.connect_call Connect.failed) unconnected).0.core.closed_for_error
          ≡ false)
call-fails_example =
    call-fails 9 run run-Quiet (Call.connect_call Connect.failed) unconnected (refl, refl)

-- A new connection is initialised.
initialised :
    Reached 9 run (call 9 run (Call.init_call (pos 3) true) (new_connection buffer buffer, []))
unfolding new_connection
initialised =
    Reached.next (Call.init_call (pos 3) true)
      (Reached.start buffer buffer no_handlers no_handlers []) refl

-- A byte arrives at it, and it is asked to send.
abbrev sends_all : List ℕ → List ℕ → Option ℕ × List ℕ
sends_all xs x = (some (length xs), x ++ xs)

Reached-Permits_example :
    Permits 9 run sends_all
      (λ x. x)
      (λ n. some (5 ∷ []))
      (call 9 run (Call.init_call (pos 3) true) (new_connection buffer buffer, []))
unfolding new_connection call connection_init connection_state enter_state connection_event_handle
    event_handle handle_loop
Reached-Permits_example =
    Reached-Permits 9 run run-Quiet run-Orderly sends_all (λ x. x) (λ n. some (5 ∷ [])) 5 []
      initialised buffer-IsValid refl (omega arith)

release_all-last_example :
    release_all
      (Owner.reader ∷ Owner.worker ∷ Owner.reader ∷ Owner.client ∷ Owner.writer ∷ [])
      (connection_in State.closed false false).core
    ≡ (
      false ∷ false ∷ false ∷ false ∷ true ∷ [],
      record (connection_in State.closed false false).core { closed_by = no_owner },
    )
unfolding mark_all
release_all-last_example =
    release_all-last (Owner.reader ∷ Owner.worker ∷ Owner.reader ∷ Owner.client ∷ []) Owner.writer
      (connection_in State.closed false false).core refl refl (λ p. ground arith)

-- A socket that takes at most two bytes at a time.
abbrev send_two : List ℕ → List ℕ → Option ℕ × List ℕ
send_two xs x = (some (min 2 (length xs)), x ++ take (min 2 (length xs)) xs)

sends_two : Sends 9 run (λ x. x) send_two (λ x. x)
sends_two = record {
  amount = λ xs x. min 2 (length xs);
  after = λ xs x. x ++ take (min 2 (length xs)) xs;
  answers = λ xs x. refl;
  some_sent = λ xs x h. omega arith;
  no_more = λ xs x. omega arith;
  appended = λ xs x. refl;
  silent = λ x. refl;
}

write_rounds-sent_example :
    Returns (AllSent 9 run (λ x. x) send_two (λ x. x) (7 ∷ 1 ∷ 2 ∷ 3 ∷ [])) (
      write_rounds 9 run
        (λ x. x)
        send_two
        (λ x. x)
        3
        (connection_in State.connected true true, 7 ∷ []))
write_rounds-sent_example =
    write_rounds-sent 9 run (λ x. x) send_two (λ x. x) sends_two 3
      (connection_in State.connected true true, 7 ∷ []) buffer-IsValid refl (omega arith)
      (omega arith)
