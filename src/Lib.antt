-- ===== src/Lib.antt =====
-- Aio4c: a library for asynchronous network I/O in C. This development models the parts that carry its
-- own logic and that the threads of a server or a client share.
--
-- The parts, and how they interact:
-- - Buffer (src/buffer.c): bytes with a position and a limit. Connections read from a socket into one
--   buffer and write to it from another.
-- - Event (src/event.c): for each event a list of handlers; a connection calls them when it changes state
--   and when data arrives or is wanted.
-- - Pools (src/buffer.c): queues of buffers that wait to be used by connections.
-- - Queue (src/queue.c): items that threads hand to each other: tasks for the worker, events for the
--   reader and the writer, buffers of a pool, and the item that tells a thread to exit.
-- - Connection (src/connection.c): the state machine of a connection, its owners, and the transfer of data
--   between its buffers and its socket.
-- - Selector (src/selector.c): the keys of the descriptors that a reader or an acceptor waits for, and the
--   table that is handed to `poll`.
-- - Worker (src/worker.c): the thread that a reader hands the data of its connections to. Its handler copies what a
--   connection read to a buffer of its pool and puts a task in its queue; the thread runs the handlers of the
--   connection on the buffer and releases it.
-- - Writer (src/writer.c): the thread that writes to the sockets of connections whose handlers have data.
-- - Client (src/client.c): the thread that connects, and connects again after an error.
-- - Reader (src/reader.c): the thread that waits for data of its connections, with a selector.
-- - Acceptor (src/acceptor.c): the thread that accepts connections and hands each to the reader with the least load.
-- - Thread (src/thread.c): starting, stopping and joining the threads of all parts, and the table of the threads.
-- - Lock and Condition (src/lock.c, src/condition.c): what the parts exclude each other with.
-- - Log (src/log.c) and Stats (src/stats.c): lines and dumps that are logged, and counters.
-- - Startup (src/aio4c.c): the options of a program that are meant for the library.
-- - Allocation (src/alloc.c): the functions through which all parts get their memory.
--
-- The files:
-- - Prelude: shared names, Boolean tests, lists and integers over the native numbers.
-- - Machine: `int` with undefined overflow, a block of bytes with undefined access outside of it (a `fault`),
--   and the C functions memcpy, memset, memchr and strlen on such a block.
-- - Buffer: the functions `BufferFlip` to `BufferRemaining` as `buffer_flip` to `buffer_remaining`; below it
--   Inv (the invariant), Access (get and put), Text and PutText (strings), Reset, Copy, Safety (any calls).
-- - Event: `EventHandle` as `event_handle` and so on, with Kind for the events; a callback is known by its
--   address and what it does is a parameter of the model. Laws says which callbacks an event reaches.
-- - Queue: `_Enqueue` is `enqueue_item`; `Dequeue` is cut where it waits, `dequeue_enter` and
--   `dequeue_wake`. Below it Fifo (any interleaving of calls), Drain (`Dequeue` until it returns false),
--   Remove (`RemoveAll`), Order (any interleaving, `RemoveAll` included).
-- - Connection: `_ConnectionState` is `connection_state`, `ConnectionWrite` is `connection_write` and so on,
--   with Kinds for the enumerations; what a call of the operating system answers is a parameter. Below it
--   Flags (states and permissions), Calls (what ends in an error), Guards (what the permissions do), Owned (owners), Transfer (writing).
-- - Pool: `NewBufferPool`, `AllocateBuffer`, `ReleaseBuffer` and `FreeBufferPool` on top of Buffer and Queue,
--   with the buffers in a memory of their own. Below it Inv (which buffers wait and
--   which are in use), Allocate, Release and Free.
-- - LinkedList (src/list.c): the nodes on a heap, `ListPop` as `list_pop` and so on. Below it Linked (which
--   nodes a list holds) and Ends (`ListAddLast` and `ListPop` against sequences). Event and Queue use
--   the sequences.
-- - Selector: `Register` and `Unregister` as `register` and `unregister`, as they are compiled with `poll`, and below it
--   Iterate with `Select` and `SelectionKeyReady`. On the former: Table (the invariant: how the keys and the table of
--   polls match), Register, Shift, Unregister and Kept (one call each), Reached (any calls); on the latter: Polled (the
--   answer of `poll`), Scan and Ready (the iteration over keys that are ready).
-- - Worker: `_WorkerRun` is `worker_run`, with `worker_item` for its switch, and the handlers
--   are `worker_read_handler` and `worker_close_handler`. Below it Items (tasks in a queue against the log), Serve (any
--   interleaving), Finish (a run to the exit item), Receive (the handler on top of Pool, Buffer and Queue).
-- - Writer: `writer_item` is the switch of `_WriterRun`; below it Watched (any interleaving).
-- - Client: `_clientRun` is `client_run` on the items that it takes, `client_event` is its inner switch. Below it
--   Retry (what one item changes) and Exit (whole runs).
-- - Reader: `reader_item` is the switch of `_ReaderRun` on top of Selector. Below it Keyed (connections and their
--   keys) and Managed (which connections it watches).
-- - Acceptor: `_ChooseReader` is `choose_reader`, `accept_connection` is what `_AcceptorRun` does with a connection,
--   `acceptor_close` its handler and `acceptor_exit` the loop of `_AcceptorExit`. Below it Choose, Accepted (the queue) and Exit.
-- - Thread: a step relation between the thread that starts, stops and joins, and the one that is started; Life says
--   what it calls and when it is freed, and Finish how it ends once it is told to stop. The table is a list, with Table on `_ThreadSelf`.
-- - Lock: a step relation on any number of threads, one lock and one condition; Exclusion is its invariant.
-- - Log: `Log` is `log`, `LogBuffer` is `log_buffer`. Below it Text (printing into a block), Line, Rows (reading a dump back) and Dump.
-- - Stats: `_ProbeSize`, `_ProbeTime`, `_WriteStats` and `_ConvertSize`, on integers; Column adds up the lines of
--   the file, and Convert is on units.
-- - Startup: `_ParseArguments` is `parse_arguments`; Options says what it makes of arguments.
-- - Alloc: `aio4c_malloc`, `aio4c_realloc` and `aio4c_free`; Resize says what they leave in a block.
-- - The Tests of each part apply its theorems to concrete data.
--
-- Fuel: the loops that empty a queue or a pool get more fuel than there are items, the loop that writes a buffer
-- one unit for each byte, and the worker's loop one for each item and two more; all are proved to end within it.
--
-- Not modelled: failures of pthread but in creation, the code for Windows, the pipe that wakes up a selector, the server,
-- sockets that listen, addresses, errors, the thread of the log, the bindings to Java, memory that runs
-- out where the code does not look at it, negative sizes of blocks, and callbacks that change the list of handlers
-- that is being walked. The counters of keys and polls in a selector and the load of a reader are numbers without bounds, so their
-- overflow is not modelled, and the first line of a dump is a given text. A visit to a queue or a selector under its lock is one step.
pub mod Prelude
pub mod Machine
pub mod Buffer
pub mod Event
pub mod Queue
pub mod Connection
pub mod Pool
pub mod LinkedList
pub mod Selector
pub mod Alloc
pub mod Worker
pub mod Client
pub mod Writer
pub mod Log
pub mod Lock
pub mod Thread
pub mod Acceptor
pub mod Stats
pub mod Reader
pub mod Startup
