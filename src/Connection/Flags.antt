-- ===== src/Connection/Flags.antt =====
-- The state machine: which states come with which permissions, and what an error does.
use aio4c.Prelude.{
  ◌≡◌, ◌≢◌, refl, ap, sym, ◌∙◌, Bool, true, false, not, Bool-cases, inl, inr, List, [], ◌∷◌, arith,
  if◌then◌else◌,
}
use mathlib.Core.Path.{subst}
use aio4c.Event.Kind.{Event}
use aio4c.Event.{Pointer, EventHandler, EventQueue, event_handle}
use aio4c.Event.Laws.{call_each, event_handle-eq}
use aio4c.Connection.Kinds.{State, is_state, Error, is_disconnected}
use aio4c.Connection.{
  Core, Connection, with_core, connection_event_handle, enter_state, connection_state,
  connection_close, connection_handle_error,
}

-- What the state machine keeps: state, permissions, and the error mark.
abbrev pub Status : Type 0
Status = State × Bool × Bool × Bool

abbrev pub status : Core → Status
status k = (k.state, k.can_read, k.can_write, k.closed_for_error)

abbrev pub may_read : State → Bool
may_read State.connected = true
may_read _ = false

abbrev pub may_write : State → Bool
may_write State.connected = true
may_write State.pending_close = true
may_write _ = false

-- The permissions are those that belong to the state.
abbrev pub Consistent : Status → Type 0
Consistent (s, r, v, m) = (r ≡ may_read s) × (v ≡ may_write s)

-- The events that `_ConnectionState` raises.
abbrev pub is_lifecycle : Event → Bool
is_lifecycle Event.init = true
is_lifecycle Event.connecting = true
is_lifecycle Event.connected = true
is_lifecycle Event.pending_close = true
is_lifecycle Event.close = true
is_lifecycle _ = false

-- No callback of such an event changes the status: one that did would wait for `stateLock`, which its
-- own thread holds.
abbrev pub Quiet :
    {X : Type 0} → (Pointer → Event → Pointer → Pointer → Core × X → Core × X) → Type 0
Quiet {X} run =
    (callback : Pointer) (e : Event) (self arg : Pointer) (k : Core) (x : X)
    → is_lifecycle e ≡ true
    → status (run callback e self arg (k, x)).0 ≡ status k

-- The status that a state comes with.
abbrev pub entered : State → Status → Status
entered State.none (s, r, v, m) = (State.none, r, v, m)
entered State.initialized (s, r, v, m) = (State.initialized, r, v, m)
entered State.connecting (s, r, v, m) = (State.connecting, false, false, m)
entered State.connected (s, r, v, m) = (State.connected, true, true, m)
entered State.pending_close (s, r, v, m) = (State.pending_close, false, true, m)
entered State.closed (s, r, v, m) = (State.closed, false, false, m)

-- The status after `_ConnectionState`.
abbrev pub next_status : State → Status → Status
next_status s t = if is_state t.0 s then t else entered s t

pub next_status-Consistent :
    (s : State) (t : Status)
    → s ≢ State.none
    → (s ≡ State.initialized → t.0 ≡ State.none)
    → Consistent t
    → Consistent (next_status s t)
next_status-Consistent State.none t a b c = absurd (a refl)
next_status-Consistent State.initialized (q, r, v, m) a b c = ground (arith, b refl)
next_status-Consistent State.connecting (q, r, v, m) a b c = ground arith
next_status-Consistent State.connected (q, r, v, m) a b c = ground arith
next_status-Consistent State.pending_close (q, r, v, m) a b c = ground arith
next_status-Consistent State.closed (q, r, v, m) a b c = ground arith

module _ {X : Type 0} (self : Pointer)
    (run : Pointer → Event → Pointer → Pointer → Core × X → Core × X) (quiet : Quiet run) where
  call_each-status :
      (e : Event) (hs : List EventHandler) (w : Core × X)
      → is_lifecycle e ≡ true
      → status (call_each run e self hs w).0 ≡ status w.0
  unfolding call_each
  call_each-status e [] w l = refl
  call_each-status e (h ∷ hs) (k, x) l =
      call_each-status e hs (run h.callback e self h.arg (k, x)) l
      ∙ quiet h.callback e self h.arg k x l

  event_handle-status :
      (q : EventQueue) (e : Event) (w : Core × X)
      → is_lifecycle e ≡ true
      → status (event_handle run q e self w).1.0 ≡ status w.0
  event_handle-status q e w l =
      ap (λ (p : EventQueue × (Core × X)). status p.1.0) (event_handle-eq run q e self w)
      ∙ call_each-status e (q e) w l

  connection_event_handle-status :
      (e : Event) (w : Connection × X)
      → is_lifecycle e ≡ true
      → status (connection_event_handle self run e w).0.core ≡ status w.0.core
  unfolding connection_event_handle
  connection_event_handle-status e (c, x) l =
      event_handle-status c.user_handlers e
        (event_handle run c.system_handlers e self (c.core, x)).1 l
      ∙ event_handle-status c.system_handlers e (c.core, x) l

  enter_state-status :
      (s : State) (w : Connection × X)
      → status (enter_state self run s (with_core (λ k. record k { state = s }) w)).0.core
        ≡ entered s (status w.0.core)
  unfolding enter_state
  enter_state-status State.none w = refl
  enter_state-status State.initialized w = connection_event_handle-status Event.init _ refl
  enter_state-status State.connecting w = connection_event_handle-status Event.connecting _ refl
  enter_state-status State.connected w = connection_event_handle-status Event.connected _ refl
  enter_state-status State.pending_close w =
      connection_event_handle-status Event.pending_close _ refl
  enter_state-status State.closed w = connection_event_handle-status Event.close _ refl

  -- `_ConnectionState`, with callbacks that leave the status alone: nothing changes where the connection is
  -- in the state already; otherwise it is in the new state, with that state's permissions (those for
  -- none and initialized are the old ones), and the error mark is kept.
  pub connection_state-status :
      (s : State) (w : Connection × X)
      → status (connection_state self run s w).0.core ≡ next_status s (status w.0.core)
  unfolding connection_state
  connection_state-status s w = elim (Bool-cases (is_state w.0.core.state s)) [
    | inl e ↦ rw e
    | inr e ↦ rw e (enter_state-status s w)
  ]

  pub connection_handle_error-status :
      (error : Error) (w : Connection × X)
      → status (connection_handle_error self run error w).0.core ≡ (
          if is_state w.0.core.state State.closed
          then (w.0.core.state, w.0.core.can_read, w.0.core.can_write, not (is_disconnected error))
          else (State.closed, false, false, not (is_disconnected error)))
  unfolding connection_handle_error connection_close
  connection_handle_error-status error w = connection_state-status State.closed _

  pub connection_state-Consistent :
      (s : State) (w : Connection × X)
      → s ≢ State.none
      → (s ≡ State.initialized → w.0.core.state ≡ State.none)
      → Consistent (status w.0.core)
      → Consistent (status (connection_state self run s w).0.core)
  connection_state-Consistent s w a b c =
      subst Consistent (sym (connection_state-status s w))
        (next_status-Consistent s (status w.0.core) a b c)
