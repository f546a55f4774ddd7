-- ===== src/Reader.antt =====
-- src/reader.c: the thread that waits for data of its connections. The section's parameters are the descriptor of a
-- connection, the flag for reading, and `ConnectionManagedBy` for the reader. `read_key` is the field of that name of
-- each connection. The log says which connections this thread was the last to give up, and frees.
-- The load is an integer without bounds, where the source has an `int` that it does not check.
pub mod Keyed
pub mod Managed
mod Tests
use aio4c.Prelude.{
  ℕ, ◌==◌, Bool, true, false, Option, some, none, List, [], ◌∷◌, ◌++◌, update, if◌then◌else◌,
}
use aio4c.Prelude.Int.{ℤ, pos, ◌+ℤ◌, ◌-ℤ◌}
use aio4c.Machine.Defs.{Run, ok, ◌>>=◌}
use aio4c.Event.{Pointer}
use aio4c.Event.Kind.{Event, same}
use aio4c.Queue.{
  Queue, QueueItem, undefined, event_item, data_item, task_item, exit_item, enqueue_data_item,
  enqueue_event_item,
}
use aio4c.Connection.Kinds.{Owner}
use aio4c.Connection.{Core, connection_no_more_used}
use aio4c.Selector.{Selector, register, unregister}

pub record Reader : Type 0 where
  pub selector : Selector
  pub queue : Option Queue
  pub load : ℤ
  pub read_key : Pointer → Option Pointer
  pub cores : Pointer → Core
  pub freed : List Pointer

abbrev pub put_core : Pointer → Core → Reader → Reader
put_core c core r = record r { cores = update c core r.cores }

-- `ConnectionNoMoreUsed` for the reader, and `FreeConnection`.
abbrev pub give_up : Pointer → Reader → Reader
give_up c r =
    let (last, core) = connection_no_more_used Owner.reader (r.cores c) in
    record (put_core c core r) { freed = if last then r.freed ++ c ∷ [] else r.freed }

-- The case `AIO4C_CLOSE_EVENT` of `_ReaderRun`: up to `reader->load--`, and whole.
unfoldable pub drop_read_key : Option Pointer → Pointer → Reader → Run Reader
drop_read_key none c r = ok r
drop_read_key (some k) c r = unregister k true r.selector >>= λ (last, selector).
    ok (record r { selector = selector; read_key = update c none r.read_key })

unfoldable pub reader_close : Pointer → Reader → Run Reader
reader_close c r = drop_read_key (r.read_key c) c r >>= λ r'.
    ok (give_up c (record r' { load = r'.load -ℤ pos 1 }))

module _ (fd : Pointer → ℕ) (op_read : ℕ) (managed_by : Pointer → Core → Core) where
  -- The case `AIO4C_QUEUE_ITEM_DATA`. `made` and `realloc` are as for `register`.
  unfoldable pub reader_add :
      (made : Option Pointer) (realloc : Bool) → Pointer → Reader → Run Reader
  reader_add made realloc c r =
      register made realloc op_read (fd c) c r.selector >>= λ (key, selector).
      ok (record (put_core c (managed_by c (r.cores c)) r) {
        selector = selector;
        read_key = update c key r.read_key;
        load = r.load +ℤ pos 1;
      })

  -- The switch of `_ReaderRun`; the first result is whether the loop goes on.
  unfoldable pub reader_item :
      (made : Option Pointer) (realloc : Bool) → QueueItem → Reader → Run (Bool × Reader)
  reader_item made realloc exit_item r = ok (false, r)
  reader_item made realloc (data_item c) r = reader_add made realloc c r >>= λ r'. ok (true, r')
  reader_item made realloc (event_item e c) r =
      if same e Event.close then (reader_close c r >>= λ r'. ok (true, r')) else ok (true, r)
  reader_item made realloc (task_item e c b) r = ok (true, r)
  reader_item made realloc undefined r = ok (true, r)

-- `_ReaderEventHandler`, in the thread that changes the connection, without waking up the selector.
unfoldable pub reader_event_handler : (malloc : Bool) → Event → Pointer → Reader → Run Reader
reader_event_handler malloc event c r = enqueue_event_item malloc r.queue event c >>= λ (done, q).
    ok (if done then record r { queue = q } else give_up c (record r { queue = q }))

-- The start of `ReaderManageConnection`, in the thread of the acceptor or of a client; the result is whether it goes on.
unfoldable pub reader_manage : (malloc : Bool) → Pointer → Reader → Run (Bool × Reader)
reader_manage malloc c r =
    enqueue_data_item malloc r.queue c >>= λ (done, q). ok (done, record r { queue = q })
