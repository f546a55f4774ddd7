-- ===== src/Writer/Tests.antt =====
-- The writer's theorem at a connection whose first write leaves data.
use aio4c.Prelude.{refl, Bool, true, false, List, [], ◌∷◌}
use aio4c.Prelude.Int.{pos}
use aio4c.Event.{Pointer}
use aio4c.Event.Kind.{Event, same}
use aio4c.Queue.{Queue, QueueItem, event_item, enqueue_item, dequeue_enter, take_item}
use aio4c.Queue.Fifo.{Step}
use aio4c.Buffer.{Buffer}
use aio4c.Buffer.Inv.{buffer_of}
use aio4c.Connection.Kinds.{State}
use aio4c.Connection.{Core, no_owner}
use aio4c.Writer.{wrote, Writer, put_core, write_outbound, writer_item}
use aio4c.Writer.Watched.{pending, Watches, Serves, Serves-Watches}

abbrev buffer : Buffer
buffer = buffer_of 0 1 (0 ∷ 0 ∷ 0 ∷ []) 0 1

abbrev core : Core
core = record {
  read_buffer = buffer;
  write_buffer = buffer;
  socket = pos 5;
  state = State.connected;
  closed_for_error = false;
  closed_by = no_owner;
  managed_by = no_owner;
  can_read = false;
  can_write = true;
}

-- Every write leaves data.
abbrev write : Pointer → Core → Bool × Core
write c k = (true, k)

abbrev queue_with : (busy free : List QueueItem) (emptied : Bool) → Queue
queue_with busy free emptied = record {
  busy = busy;
  free = free;
  has_lock = true;
  exit = false;
  emptied = emptied;
}

abbrev outbound : QueueItem
outbound = event_item Event.outbound_data 7

abbrev idle_writer : Writer
idle_writer = record { queue = queue_with [] [] false; cores = λ c. core; log = [] }

idle_writer-Watches : Watches 7 idle_writer
unfolding pending
idle_writer-Watches = record { has_lock = refl; watched = λ h. absurd (cc) }

abbrev after_write : Writer
after_write = record (put_core 7 core idle_writer) {
  queue = queue_with (outbound ∷ []) [] true;
  log = wrote 7 true ∷ [];
}

one_served : Serves write idle_writer after_write
unfolding enqueue_item dequeue_enter take_item writer_item write_outbound same
one_served =
    Serves.served (record idle_writer { queue = queue_with (outbound ∷ []) [] false })
      (queue_with [] (outbound ∷ []) true) outbound true true
      (Serves.handed idle_writer (queue_with (outbound ∷ []) [] false) true true outbound
        Serves.begun refl)
      (Step.enter outbound true true outbound refl) refl

Serves-Watches_example : Watches 7 after_write
Serves-Watches_example = Serves-Watches write 7 idle_writer-Watches one_served
