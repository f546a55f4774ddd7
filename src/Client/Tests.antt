-- ===== src/Client/Tests.antt =====
-- The client's theorems at a client with one retry, whose connection is closed twice.
use aio4c.Prelude.{◌+◌, ◌≤◌, ◌≡◌, refl, true, false, List, [], ◌∷◌, ◌++◌, arith}
use aio4c.Prelude.Int.{pos}
use aio4c.Event.{Pointer}
use aio4c.Event.Kind.{Event}
use aio4c.Queue.{QueueItem, event_item}
use aio4c.Buffer.{Buffer}
use aio4c.Buffer.Inv.{buffer_of}
use aio4c.Connection.Kinds.{State}
use aio4c.Connection.{Core, no_owner}
use aio4c.Client.{Client, client_run}
use aio4c.Client.Retry.{openings}
use aio4c.Client.Exit.{client_run-bounded, client_run-exits}

abbrev buffer : Buffer
buffer = buffer_of 0 1 (0 ∷ 0 ∷ 0 ∷ []) 0 1

abbrev lost : Core
lost = record {
  read_buffer = buffer;
  write_buffer = buffer;
  socket = pos 5;
  state = State.closed;
  closed_for_error = true;
  closed_by = no_owner;
  managed_by = no_owner;
  can_read = false;
  can_write = false;
}

abbrev create : Client → Pointer × Core
create s = (8, lost)

abbrev one_retry : Client
one_retry = record {
  connection = 7;
  retries = 1;
  retry_count = 0;
  connected = false;
  exiting = false;
  cores = λ c. lost;
  log = [];
}

abbrev two_closes : List QueueItem
two_closes = event_item Event.close 7 ∷ event_item Event.free 7 ∷ event_item Event.close 8 ∷ []

client_run-bounded_example :
    (openings (client_run create (λ k. k) (λ k. k) two_closes one_retry).1.log
        + one_retry.retry_count
      ≡ openings one_retry.log
        + (client_run create (λ k. k) (λ k. k) two_closes one_retry).1.retry_count)
    × ((client_run create (λ k. k) (λ k. k) two_closes one_retry).1.retry_count ≤ one_retry.retries)
client_run-bounded_example =
    client_run-bounded create (λ k. k) (λ k. k) two_closes one_retry (refl, (refl, (refl, tt)))
      (omega arith)

client_run-exits_example :
    (client_run create (λ k. k) (λ k. k) (two_closes ++ event_item Event.free 8 ∷ []) one_retry).0
    ≡ false
client_run-exits_example =
    client_run-exits create (λ k. k) (λ k. k) two_closes [] 8 one_retry (refl, (refl, (refl, tt)))
      (omega arith) (omega arith)
