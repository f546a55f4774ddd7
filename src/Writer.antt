-- ===== src/Writer.antt =====
-- src/writer.c: the thread that writes the data of connections to their sockets. `write` is what
-- `ConnectionWrite` does to a connection, and whether it left data; the log, its newest entry first, says which
-- connections were written and closed.
pub mod Watched
mod Tests
use aio4c.Prelude.{ℕ, ◌==◌, Bool, true, false, List, [], ◌∷◌, if◌then◌else◌}
use aio4c.Machine.Defs.{Run, ok, ◌>>=◌}
use aio4c.Event.{Pointer}
use aio4c.Event.Kind.{Event, same}
use aio4c.Queue.{
  Queue, QueueItem, undefined, event_item, data_item, task_item, exit_item, enqueue_item,
  remove_all,
}
use aio4c.Connection.Kinds.{Owner}
use aio4c.Connection.{Core, connection_no_more_used}

pub data Action : Type 0 where
  wrote : (connection : Pointer) (left : Bool) → Action
  closed : (connection : Pointer) (freed : Bool) → Action

pub record Writer : Type 0 where
  pub queue : Queue
  pub cores : Pointer → Core
  pub log : List Action

abbrev pub put_core : Pointer → Core → Writer → Writer
put_core c core w = record w { cores = λ d. if d == c then core else w.cores d }

-- `_WriterRemove`, which keeps nothing of its own.
abbrev pub writer_remove : Pointer → QueueItem → Bool
writer_remove c (event_item e d) = d == c
writer_remove c _ = false

-- The case `AIO4C_CLOSE_EVENT` of `_WriterRun`.
unfoldable pub writer_close : Pointer → Writer → Writer
writer_close c w =
    let (some_gone, q, t) =
      remove_all {0} (λ (x : QueueItem) (s : Unit). (writer_remove c x, s)) w.queue tt in
    let (last, core) = connection_no_more_used Owner.writer (w.cores c) in
    record (put_core c core w) { queue = q; log = closed c last ∷ w.log }

module _ (write : Pointer → Core → Bool × Core) (malloc : Bool) where
  -- The case `AIO4C_OUTBOUND_DATA_EVENT`: the event is put in the queue again where data is left.
  unfoldable pub write_outbound : Pointer → Writer → Run Writer
  write_outbound c w =
      let (left, core) = write c (w.cores c) in
      let w' = record (put_core c core w) { log = wrote c left ∷ w.log } in
      if left
      then (enqueue_item malloc w.queue (event_item Event.outbound_data c) >>= λ (done, q).
          ok (record w' { queue = q }))
      else ok w'

  -- The switch of `_WriterRun`; the first result is whether the loop goes on.
  unfoldable pub writer_item : QueueItem → Writer → Run (Bool × Writer)
  writer_item exit_item w = ok (false, w)
  writer_item (event_item e c) w =
      if same e Event.outbound_data
      then (write_outbound c w >>= λ w'. ok (true, w'))
      else ok (true, if same e Event.close then writer_close c w else w)
  writer_item (data_item p) w = ok (true, w)
  writer_item (task_item e c b) w = ok (true, w)
  writer_item undefined w = ok (true, w)
