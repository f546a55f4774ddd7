-- ===== src/Event.antt =====
-- src/event.c: queues of event handlers. A callback is known by its address; what a call of it does to
-- the rest of the program, of type `W`, is a parameter. That rest holds everything but the list that is
-- walked: a callback that adds or removes handlers of the event that is being handled is not modelled.
-- Memory is taken to suffice: where `NewNode` returns `NULL`, `ListAddLast` ends the process by `abort`.
pub mod Kind
pub mod Laws
mod Tests
use aio4c.Prelude.{
  ℕ, Bool, true, false, not, Option, none, some, List, [], ◌∷◌, ◌++◌, map, if◌then◌else◌, ◌==◌,
}
use aio4c.Event.Kind.{Event, same}

abbrev pub Pointer : Type 0
Pointer = ℕ

pub record EventHandler : Type 0 where
  pub event : Event
  pub once : Bool
  pub callback : Pointer
  pub arg : Pointer

-- `struct s_EventQueue`: a list for each event.
abbrev pub EventQueue : Type 0
EventQueue = Event → List EventHandler

abbrev pub set_list : EventQueue → Event → List EventHandler → EventQueue
set_list q e hs e' = if same e e' then hs else q e'

unfoldable pub new_event_queue : (malloc : Bool) → Option EventQueue
new_event_queue malloc = if malloc then some (λ e. []) else none

unfoldable pub new_event_handler :
    (malloc : Bool) → Event → (callback arg : Pointer) → (once : Bool) → Option EventHandler
new_event_handler malloc event callback arg once =
    if malloc
    then some (record { event = event; once = once; callback = callback; arg = arg })
    else none

unfoldable pub event_handler_add : EventQueue → EventHandler → EventQueue
event_handler_add q h = set_list q h.event (q h.event ++ (h ∷ []))

module _ {ℓ} {W : Type ℓ}
    (run : (callback : Pointer) → Event → (source arg : Pointer) → W → W) where
  -- The loop of `EventHandle` over the rest of the list; returns what stays of it.
  unfoldable pub handle_loop : Event → Pointer → List EventHandler → W → List EventHandler × W
  handle_loop e source [] w = ([], w)
  handle_loop e source (h ∷ hs) w =
      let (rest, w') = handle_loop e source hs (run h.callback e source h.arg w) in
      (if h.once then rest else h ∷ rest, w')

  unfoldable pub event_handle : EventQueue → Event → (source : Pointer) → W → EventQueue × W
  event_handle q e source w =
      let (rest, w') = handle_loop e source (q e) w in (set_list q e rest, w')

abbrev pub without : Pointer → List EventHandler → List EventHandler
without callback [] = []
without callback (h ∷ hs) =
    if h.callback == callback then without callback hs else h ∷ without callback hs

unfoldable pub event_handler_remove : EventQueue → Event → (callback : Pointer) → EventQueue
event_handler_remove q e callback = set_list q e (without callback (q e))

-- A copy of a handler, with its argument replaced unless the new one is `NULL`.
abbrev pub with_arg : Pointer → EventHandler → EventHandler
with_arg arg h = record h { arg = if arg == 0 then h.arg else arg }

unfoldable pub copy_event_queue : (dst src : EventQueue) → (arg : Pointer) → EventQueue
copy_event_queue dst src arg e = dst e ++ map (with_arg arg) (src e)
