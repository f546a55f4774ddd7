-- ===== src/Event/Tests.antt =====
-- The event theorems at a queue of two handlers.
use aio4c.Prelude.{ℕ, ◌≡◌, true, false, List, [], ◌∷◌, ◌++◌}
use aio4c.Event.Kind.{Event}
use aio4c.Event.{Pointer, EventQueue}
use aio4c.Event.Laws.{lasting, call_each, handle_times, call_times, event_handle-once}

-- Callback 7 is registered for once, callback 8 for every event.
abbrev handlers : EventQueue
handlers e = elim e [
  | Event.read ↦
      record { event = Event.read; once = true; callback = 7; arg = 1 }
      ∷ record { event = Event.read; once = false; callback = 8; arg = 2 }
      ∷ []
  | _ ↦ []
]

-- A callback notes its address and its argument.
abbrev note : Pointer → Event → Pointer → Pointer → List (ℕ × ℕ) → List (ℕ × ℕ)
note callback e source arg w = w ++ (callback, arg) ∷ []

event_handle-once_example :
    (handle_times note 3 handlers Event.read 5 []).1 ≡ (7, 1) ∷ (8, 2) ∷ (8, 2) ∷ (8, 2) ∷ []
unfolding lasting call_each call_times
event_handle-once_example = event_handle-once note 2 handlers Event.read 5 []
