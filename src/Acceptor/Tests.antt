-- ===== src/Acceptor/Tests.antt =====
-- Three connections arrive, the second is closed, and the acceptor ends.
use aio4c.Prelude.{refl, if◌then◌else◌, true, false, List, [], ◌∷◌, arith}
use aio4c.Prelude.Int.{pos, negsuc}
use aio4c.Machine.Defs.{Returns}
use aio4c.Event.{Pointer, EventQueue}
use aio4c.Event.Kind.{Event, same}
use aio4c.Queue.{data_item}
use aio4c.Buffer.Inv.{buffer_of}
use aio4c.Connection.Kinds.{State}
use aio4c.Connection.{Core, no_owner}
use aio4c.Acceptor.{Acceptor, choose_reader}
use aio4c.Acceptor.Choose.{IsFirstLeast, choose_reader-IsFirstLeast}
use aio4c.Acceptor.Accepted.{
  Happening, arrives, closes, happen_all, open_after, Waits, happen_all-Waits,
}

abbrev core : Core
core = record {
  read_buffer = buffer_of 0 1 (0 ∷ 0 ∷ 0 ∷ []) 0 1;
  write_buffer = buffer_of 0 1 (0 ∷ 0 ∷ 0 ∷ []) 0 1;
  socket = pos 5;
  state = State.initialized;
  closed_for_error = false;
  closed_by = no_owner;
  managed_by = no_owner;
  can_read = false;
  can_write = false;
}

abbrev idle : Acceptor
idle = record {
  queue = record { busy = []; free = []; has_lock = true; exit = false; emptied = false };
  loads = [];
  cores = λ c. core;
  handlers = λ c e. [];
  log = [];
}

abbrev happenings : List Happening
happenings =
    arrives 7 (pos 0) (pos 0 ∷ [])
    ∷ arrives 8 (pos 1) (pos 0 ∷ [])
    ∷ closes 7
    ∷ arrives 9 (pos 1) (negsuc 0 ∷ [])
    ∷ []

choose_reader-IsFirstLeast_example :
    Returns (IsFirstLeast (pos 3 ∷ pos 1 ∷ pos 1 ∷ [])) (choose_reader (pos 3 ∷ pos 1 ∷ pos 1 ∷ []))
choose_reader-IsFirstLeast_example =
    choose_reader-IsFirstLeast (pos 3) (pos 1 ∷ pos 1 ∷ [])
      (omega arith, (omega arith, (omega arith, tt)))

idle-Waits : Waits [] idle
idle-Waits = record { has_lock = refl; no_exit = refl; busy = refl; full = refl }

happen_all-Waits_example : Returns (Waits (open_after happenings [])) (happen_all happenings idle)
happen_all-Waits_example =
    happen_all-Waits happenings [] idle
      (
        (omega arith, (omega arith, tt)),
        ((omega arith, (omega arith, tt)), ((omega arith, (omega arith, tt)), tt)),
      )
      idle-Waits

abbrev ending : Acceptor
ending = record idle {
  handlers = λ c e.
      if same e Event.close
      then record { event = Event.close; callback = 77; arg = 1; once = true } ∷ []
      else [];
  queue = record idle.queue { busy = data_item 8 ∷ data_item 9 ∷ [] };
}

-- `ConnectionClose` on a connection without handlers.
abbrev close : Pointer → EventQueue → Core → Core
close c q k = record k { state = State.closed; can_read = false; can_write = false }
