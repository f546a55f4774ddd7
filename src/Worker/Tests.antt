-- ===== src/Worker/Tests.antt =====
-- The worker's theorems at two connections.
use aio4c.Prelude.{◌+◌, ◌≡◌, refl, Bool, true, false, some, List, [], ◌∷◌, ◌++◌, arith}
use aio4c.Prelude.Int.{pos}
use aio4c.Machine.Defs.{Returns}
use aio4c.Event.Kind.{Event}
use aio4c.Queue.{
  Queue, QueueItem, event_item, task_item, exit_item, enqueue_item, dequeue_enter, take_item,
}
use aio4c.Queue.Fifo.{Step}
use aio4c.Buffer.{Buffer, buffer_flip}
use aio4c.Buffer.Inv.{buffer_of, IsValid, valid}
use aio4c.Buffer.Text.{remaining_bytes}
use aio4c.Pool.{Memory}
use aio4c.Pool.Inv.{blank, queue_of, Holds}
use aio4c.Connection.Kinds.{State}
use aio4c.Connection.{Core, no_owner}
use aio4c.Worker.{released, processed, Worker, worker_item, worker_run, worker_read_handler}
use aio4c.Worker.Items.{carried, times_released}
use aio4c.Worker.Serve.{Serves, Serves-released}
use aio4c.Worker.Finish.{Finished, worker_run-Finished}
use aio4c.Worker.Receive.{Received, worker_read_handler-Received}

abbrev queue_with : List QueueItem → (emptied : Bool) → List QueueItem → (exit : Bool) → Queue
queue_with busy emptied free exit = record {
  busy = busy;
  free = free;
  has_lock = true;
  exit = exit;
  emptied = emptied;
}

abbrev read_buffer : Buffer
read_buffer = buffer_of 100 4 (65 ∷ 66 ∷ 0 ∷ 0 ∷ 0 ∷ 0 ∷ []) 2 4

abbrev core : Core
core = record {
  read_buffer = read_buffer;
  write_buffer = read_buffer;
  socket = pos 5;
  state = State.connected;
  closed_for_error = false;
  closed_by = no_owner;
  managed_by = no_owner;
  can_read = true;
  can_write = true;
}

-- Two tasks of 7, which is closed between them, and one of 8.
abbrev items : List QueueItem
items =
    task_item Event.read 7 70
    ∷ event_item Event.close 7
    ∷ task_item Event.read 8 80
    ∷ task_item Event.read 7 71
    ∷ []

abbrev busy_worker : Worker
busy_worker = record {
  queue = queue_with (items ++ exit_item ∷ []) true [] true;
  cores = λ c. core;
  log = [];
}

worker_run-Finished_example : Finished items [] (worker_run 6 busy_worker)
worker_run-Finished_example =
    worker_run-Finished 6 busy_worker items (refl, (refl, (refl, (refl, tt)))) refl (omega arith)

abbrev idle_worker : Worker
idle_worker = record { queue = queue_with [] false [] false; cores = λ c. core; log = [] }

abbrev task : QueueItem
task = task_item Event.read 7 70

abbrev one_in : Queue
one_in = queue_with (task ∷ []) false [] false

abbrev one_out : Queue
one_out = queue_with [] true (task ∷ []) false

abbrev after_task : Worker
after_task = record { queue = one_out; cores = λ c. core; log = processed 7 70 ∷ released 70 ∷ [] }

one_served : Serves idle_worker after_task (task ∷ [])
unfolding enqueue_item dequeue_enter take_item worker_item
one_served =
    Serves.served (record idle_worker { queue = one_in }) one_out task
      (Serves.handed idle_worker one_in true true task Serves.begun refl)
      (Step.enter task true true task refl) refl

Serves-released_example :
    times_released 70 after_task.log + carried 70 after_task.queue.busy
    ≡ times_released 70 idle_worker.log
      + (carried 70 idle_worker.queue.busy + carried 70 (task ∷ []))
Serves-released_example = Serves-released 70 one_served

abbrev memory : Memory
memory = record { cells = λ p. blank 100 4; next = 3 }

memory-Holds : Holds 100 4 memory (1 ∷ []) (2 ∷ [])
memory-Holds = record {
  apart = ((λ e. absurd (omega (arith, e)), tt), (tt, tt));
  below = (omega arith, (omega arith, tt));
  clean = (refl, tt);
}

read_buffer-IsValid : IsValid read_buffer
read_buffer-IsValid =
    valid (record {
      position_le = omega arith;
      limit_le = omega arith;
      small = omega arith;
      ends = refl;
    })

worker_read_handler-Received_example :
    Returns (Received 100 4 7 (remaining_bytes (buffer_flip read_buffer)) (task ∷ []) (2 ∷ [])) (
      worker_read_handler
        (λ m n. true)
        (λ m. true)
        (pos 40)
        100
        Event.inbound_data
        7
        (record {
          core = core;
          tasks = some one_in;
          pool = record {
            buffers = some (queue_of (1 ∷ []) [] false);
            batch = 16;
            buffer_size = pos 4;
          };
          memory = memory;
        }))
unfolding buffer_flip
worker_read_handler-Received_example =
    worker_read_handler-Received (λ m n. true) (λ m. true) (pos 40) 100 4 16 (λ m. refl)
      (omega arith) (λ m n. refl) (λ e. absurd (omega (arith, e))) 7 core (some one_in) memory
      (1 ∷ []) (2 ∷ []) [] false (task ∷ []) refl read_buffer-IsValid (omega arith)
      (record {
        queue = one_in;
        same_queue = refl;
        same_busy = refl;
        has_lock = refl;
        no_exit = refl;
      })
      memory-Holds
