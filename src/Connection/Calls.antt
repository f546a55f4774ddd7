-- ===== src/Connection/Calls.antt =====
-- The calls of the interface besides the transfer of data: which end in an error, and what they make of the status.
use aio4c.Prelude.{
  ℕ, ◌≡◌, ◌≢◌, refl, ap, sym, ◌∙◌, Bool, true, false, not, Bool-cases, inl, inr, ◌⊎◌, Option, none,
  some, arith, if◌then◌else◌, ◌==◌,
}
use mathlib.Core.Path.{subst}
use aio4c.Prelude.Int.{ℤ, pos, negsuc}
use aio4c.Event.Kind.{Event}
use aio4c.Event.{Pointer}
use aio4c.Connection.Kinds.{State, is_state, Owner, Error, is_disconnected, Connect}
use aio4c.Connection.{
  Core, Connection, connection_close, connection_handle_error, connection_init, connection_connect,
  connection_finish_connect, connection_managed_by, all_owners, mark, connection_add_handler,
  connection_add_system_handler,
}
use aio4c.Connection.Flags.{
  Status, status, may_read, may_write, Consistent, Quiet, entered, next_status,
  next_status-Consistent, connection_state-status, connection_handle_error-status,
}

-- A call of the interface besides the transfer of data, with what the operating system answers.
pub data Call : Type 0 where
  init_call : (descriptor : ℤ) (nonblocking : Bool) → Call
  connect_call : Connect → Call
  finish_call : (ready : Option Bool) (pending : Option ℕ) → Call
  managed_call : Owner → Call
  close_call : (force : Bool) → Call
  add_call add_system_call :
      (malloc : Bool) → Event → (callback arg : Pointer) → (once : Bool) → Call

-- `ConnectionInit` is called once, on a new connection.
abbrev pub InTime : Call → Status → Type 0
InTime (init_call d n) t = t.0 ≡ State.none
InTime _ _ = Unit

abbrev mark_of : Status → Bool
mark_of (s, r, v, m) = m

next_status-mark : (s : State) (t : Status) → mark_of (next_status s t) ≡ mark_of t
next_status-mark s (q, r, v, m) = elim (Bool-cases (is_state q s)) [
  | inl e ↦ rw e
  | inr e ↦ rw e (entered-mark s q r v m)
]
  where
    entered-mark : (s q : State) (r v m : Bool) → mark_of (entered s (q, r, v, m)) ≡ m
    entered-mark State.none q r v m = refl
    entered-mark State.initialized q r v m = refl
    entered-mark State.connecting q r v m = refl
    entered-mark State.connected q r v m = refl
    entered-mark State.pending_close q r v m = refl
    entered-mark State.closed q r v m = refl

-- An error on a consistent status.
closed_by_error :
    (s : State) (r v : Bool) (error : Error)
    → is_disconnected error ≡ false
    → r ≡ may_read s
    → v ≡ may_write s
    → ◌≡◌ {A = Status}
        (if is_state s State.closed
          then (s, r, v, not (is_disconnected error))
          else (State.closed, false, false, not (is_disconnected error)))
        (State.closed, false, false, true)
closed_by_error State.closed r v error d a b = rw (d, a, b)
closed_by_error State.none r v error d a b = rw d
closed_by_error State.initialized r v error d a b = rw d
closed_by_error State.connecting r v error d a b = rw d
closed_by_error State.connected r v error d a b = rw d
closed_by_error State.pending_close r v error d a b = rw d

module _ {X : Type 0} (self : Pointer)
    (run : Pointer → Event → Pointer → Pointer → Core × X → Core × X) where
  unfoldable pub call : Call → Connection × X → Connection × X
  call (init_call d n) w = connection_init self run d n w
  call (connect_call a) w = connection_connect self run a w
  call (finish_call r p) w = connection_finish_connect self run r p w
  call (managed_call o) w = connection_managed_by self run o w
  call (close_call f) w = connection_close self run f w
  call (add_call m e callback arg once) w = connection_add_handler self run m e callback arg once w
  call (add_system_call m e callback arg once) w =
      connection_add_system_handler self run m e callback arg once w

  -- Whether the call ends in `_ConnectionHandleError`.
  unfoldable pub fails : Call → Connection × X → Bool
  fails (init_call (negsuc d) n) w = true
  fails (init_call (pos d) n) w = not n
  fails (connect_call Connect.failed) w = true
  fails (connect_call a) w = not (is_state w.0.core.state State.initialized)
  fails (finish_call none p) w = true
  fails (finish_call (some true) none) w = true
  fails (finish_call (some true) (some e)) w = not (e == 0)
  fails (finish_call (some false) p) w = false
  fails (managed_call o) w = false
  fails (close_call f) w = false
  fails (add_call m e callback arg once) w = not m
  fails (add_system_call m e callback arg once) w = not m

module _ {X : Type 0} (self : Pointer)
    (run : Pointer → Event → Pointer → Pointer → Core × X → Core × X) (quiet : Quiet run) where
  handle_error-closed :
      (error : Error) (w : Connection × X)
      → is_disconnected error ≡ false
      → Consistent (status w.0.core)
      → status (connection_handle_error self run error w).0.core
        ≡ (State.closed, false, false, true)
  handle_error-closed error w d c =
      connection_handle_error-status self run quiet error w
      ∙ closed_by_error w.0.core.state w.0.core.can_read w.0.core.can_write error d c.0 c.1

  failing_calls-status :
      (c : Call) (w : Connection × X)
      → fails self run c w ≡ true
      → Consistent (status w.0.core)
      → status (call self run c w).0.core ≡ (State.closed, false, false, true)
  unfolding call fails connection_init connection_connect connection_finish_connect
      connection_add_handler connection_add_system_handler
  failing_calls-status (init_call (negsuc d) n) w f c = handle_error-closed Error.socket _ refl c
  failing_calls-status (init_call (pos d) true) w f c = absurd (cc)
  failing_calls-status (init_call (pos d) false) w f c = handle_error-closed Error.fcntl _ refl c
  failing_calls-status (connect_call Connect.failed) w f c =
      elim (Bool-cases (is_state w.0.core.state State.initialized)) [
        | inl e ↦ rw e (handle_error-closed Error.connect w refl c)
        | inr e ↦ rw e (handle_error-closed Error.connection_state w refl c)
      ]
  failing_calls-status (connect_call Connect.done) w f c =
      rw f (handle_error-closed Error.connection_state w refl c)
  failing_calls-status (connect_call Connect.in_progress) w f c =
      rw f (handle_error-closed Error.connection_state w refl c)
  failing_calls-status (finish_call none p) w f c = handle_error-closed Error.poll w refl c
  failing_calls-status (finish_call (some true) none) w f c =
      handle_error-closed Error.getsockopt w refl c
  failing_calls-status (finish_call (some true) (some e)) w f c = elim (Bool-cases (e == 0)) [
    | inl z ↦ absurd (ground arith)
    | inr z ↦ rw z (handle_error-closed Error.finish_connect w refl c)
  ]
  failing_calls-status (finish_call (some false) p) w f c = absurd (cc)
  failing_calls-status (managed_call o) w f c = absurd (cc)
  failing_calls-status (close_call b) w f c = absurd (cc)
  failing_calls-status (add_call false e callback arg once) w f c =
      handle_error-closed Error.event_handler w refl c
  failing_calls-status (add_call true e callback arg once) w f c = absurd (cc)
  failing_calls-status (add_system_call false e callback arg once) w f c =
      handle_error-closed Error.event_handler w refl c
  failing_calls-status (add_system_call true e callback arg once) w f c = absurd (cc)

  -- What a call that does not fail does: nothing to the status, or it enters a state.
  abbrev Moved : Call → Connection × X → Status → Type 0
  Moved c w t =
      t ≡ status w.0.core
      ⊎ ((s : State) × (s ≢ State.none)
          × (InTime c (status w.0.core) → s ≡ State.initialized → w.0.core.state ≡ State.none)
          × (t ≡ next_status s (status w.0.core)))

  ready_calls-Moved :
      (c : Call) (w : Connection × X)
      → fails self run c w ≡ false
      → Moved c w (status (call self run c w).0.core)
  unfolding call fails connection_init connection_connect connection_finish_connect
      connection_add_handler connection_add_system_handler connection_managed_by connection_close
  ready_calls-Moved (init_call (negsuc d) n) w f = absurd (cc)
  ready_calls-Moved (init_call (pos d) true) w f = inr (
    State.initialized,
    (cc),
    (λ t e. t),
    connection_state-status self run quiet State.initialized _,
  )
  ready_calls-Moved (init_call (pos d) false) w f = absurd (cc)
  ready_calls-Moved (connect_call Connect.failed) w f = absurd (cc)
  ready_calls-Moved (connect_call Connect.done) w f = rw f (
      inr (
        State.connected,
        (cc),
        (λ t e. absurd (cc)),
        connection_state-status self run quiet State.connected _,
      ))
  ready_calls-Moved (connect_call Connect.in_progress) w f = rw f (
      inr (
        State.connecting,
        (cc),
        (λ t e. absurd (cc)),
        connection_state-status self run quiet State.connecting _,
      ))
  ready_calls-Moved (finish_call none p) w f = absurd (cc)
  ready_calls-Moved (finish_call (some true) none) w f = absurd (cc)
  ready_calls-Moved (finish_call (some true) (some e)) w f = elim (Bool-cases (e == 0)) [
    | inl z ↦ rw z (inl refl)
    | inr z ↦ absurd (ground arith)
  ]
  ready_calls-Moved (finish_call (some false) p) w f = inl refl
  ready_calls-Moved (managed_call o) w f =
      elim (Bool-cases (all_owners (mark o w.0.core.managed_by))) [
        | inl z ↦ rw z (
            inr (
              State.connected,
              (cc),
              (λ t e. absurd (cc)),
              connection_state-status self run quiet State.connected _,
            ))
        | inr z ↦ rw z (inl refl)
      ]
  ready_calls-Moved (close_call true) w f = inr (
    State.closed,
    (cc),
    (λ t e. absurd (cc)),
    connection_state-status self run quiet State.closed _,
  )
  ready_calls-Moved (close_call false) w f = inr (
    State.pending_close,
    (cc),
    (λ t e. absurd (cc)),
    connection_state-status self run quiet State.pending_close _,
  )
  ready_calls-Moved (add_call true e callback arg once) w f = inl refl
  ready_calls-Moved (add_call false e callback arg once) w f = absurd (cc)
  ready_calls-Moved (add_system_call true e callback arg once) w f = inl refl
  ready_calls-Moved (add_system_call false e callback arg once) w f = absurd (cc)

  ready_calls-Consistent :
      (c : Call) (w : Connection × X)
      → fails self run c w ≡ false
      → InTime c (status w.0.core)
      → Consistent (status w.0.core)
      → Consistent (status (call self run c w).0.core)
  ready_calls-Consistent c w f t h = elim (ready_calls-Moved c w f) [
    | inl e ↦ subst Consistent (sym e) h
    | inr (s, a, b, e) ↦
        subst Consistent (sym e) (next_status-Consistent s (status w.0.core) a (b t) h)
  ]

  ready_calls-mark :
      (c : Call) (w : Connection × X)
      → fails self run c w ≡ false
      → (call self run c w).0.core.closed_for_error ≡ w.0.core.closed_for_error
  ready_calls-mark c w f = elim (ready_calls-Moved c w f) [
    | inl e ↦ ap mark_of e
    | inr (s, a, b, e) ↦ ap mark_of e ∙ next_status-mark s (status w.0.core)
  ]

  -- With callbacks that leave the status alone in events of the state machine, in whichever state with its permissions: a call of
  -- ConnectionInit, ConnectionConnect, ConnectionFinishConnect, ConnectionAddHandler or ConnectionAddSystemHandler that ends in
  -- `_ConnectionHandleError`, at whichever step, leaves the connection closed, neither readable nor writable,
  -- and marked as closed for an error. Any other of these calls, and any of ConnectionManagedBy and ConnectionClose, leaves that mark as it was.
  pub call-fails :
      (c : Call) (w : Connection × X)
      → Consistent (status w.0.core)
      → (fails self run c w ≡ true
          → status (call self run c w).0.core ≡ (State.closed, false, false, true))
        × (fails self run c w ≡ false
            → (call self run c w).0.core.closed_for_error ≡ w.0.core.closed_for_error)
  call-fails c w h = ((λ f. failing_calls-status c w f h), λ f. ready_calls-mark c w f)

  pub call-Consistent :
      (c : Call) (w : Connection × X)
      → InTime c (status w.0.core)
      → Consistent (status w.0.core)
      → Consistent (status (call self run c w).0.core)
  call-Consistent c w t h = elim (Bool-cases (fails self run c w)) [
    | inl f ↦ subst Consistent (sym (failing_calls-status c w f h)) (refl, refl)
    | inr f ↦ ready_calls-Consistent c w f t h
  ]
