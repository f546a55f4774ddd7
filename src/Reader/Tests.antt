-- ===== src/Reader/Tests.antt =====
-- A reader of two connections, of which the second is closed.
use aio4c.Prelude.{ℕ, ◌+◌, ◌==◌, refl, true, false, none, some, [], ◌∷◌, arith, if◌then◌else◌}
use aio4c.Prelude.Int.{pos}
use aio4c.Machine.Defs.{Returns}
use aio4c.Event.{Pointer}
use aio4c.Event.Kind.{Event}
use aio4c.Queue.{event_item}
use aio4c.Buffer.Inv.{buffer_of}
use aio4c.Connection.Kinds.{State}
use aio4c.Connection.{Core, no_owner}
use aio4c.Selector.{SelectionKey, Selector, zero_poll, zero_key}
use aio4c.Selector.Table.{IsTable}
use aio4c.Reader.{Reader, reader_item}
use aio4c.Reader.Managed.{Manages, closed, Watching, reader_item-Watching}

abbrev core : Core
core = record {
  read_buffer = buffer_of 0 1 (0 ∷ 0 ∷ 0 ∷ []) 0 1;
  write_buffer = buffer_of 0 1 (0 ∷ 0 ∷ 0 ∷ []) 0 1;
  socket = pos 5;
  state = State.closed;
  closed_for_error = false;
  closed_by = no_owner;
  managed_by = no_owner;
  can_read = false;
  can_write = false;
}

-- The descriptor of a connection.
abbrev descriptor : Pointer → ℕ
descriptor c = c + 100

abbrev key_at : (i : ℕ) (c : Pointer) → SelectionKey
key_at i c = record {
  operation = 1;
  has_node = true;
  fd = c + 100;
  attachment = c;
  poll = some i;
  count = 1;
  cur_count = 0;
  result = 0;
}

abbrev selector : Selector
selector = record {
  busy_keys = 10 ∷ 20 ∷ [];
  free_keys = 30 ∷ [];
  keys = λ k. if k == 10 then key_at 1 7 else if k == 20 then key_at 2 8 else zero_key;
  cur_key = none;
  polls = λ i.
      if i == 1
      then record { fd = 107; events = 1; revents = 0 }
      else if i == 2
      then record { fd = 108; events = 1; revents = 1 }
      else zero_poll;
  num_polls = 3;
  max_polls = 3;
  locked = false;
}

selector-IsTable : IsTable selector
selector-IsTable = record {
  apart = ((omega arith, (omega arith, tt)), ((omega arith, tt), (tt, tt)));
  one_each = ((omega arith, tt), (tt, tt));
  aligned = (
    record { index = refl; node = refl; same_fd = refl; same_events = refl; counted = omega arith },
    (
      record {
        index = refl;
        node = refl;
        same_fd = refl;
        same_events = refl;
        counted = omega arith;
      },
      tt,
    ),
  );
  idle = (refl, tt);
  filled = refl;
  room = omega arith;
}

abbrev reader : Reader
reader = record {
  selector = selector;
  queue = none;
  load = pos 2;
  read_key = λ c. if c == 7 then some 10 else if c == 8 then some 20 else none;
  cores = λ c. core;
  freed = [];
}

reader-Manages : Manages descriptor 1 (7 ∷ 8 ∷ []) reader
reader-Manages = record {
  table_valid = selector-IsTable;
  apart = ((omega arith, tt), (tt, tt));
  keyed = (refl, refl, (refl, refl, tt));
  load = refl;
}

reader_item-Watching_example :
    Returns
      (Watching descriptor 1 (7 ∷ []))
      (reader_item descriptor 1 (λ c k. k) (some 40) true (event_item Event.close 8) reader)
reader_item-Watching_example =
    reader_item-Watching descriptor 1 (λ c k. k) 40 (event_item Event.close 8) (7 ∷ 8 ∷ []) (7 ∷ [])
      reader reader-Manages (closed (7 ∷ []) 8 [])
