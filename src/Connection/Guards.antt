-- ===== src/Connection/Guards.antt =====
-- What the permissions do: `ConnectionRead` and `ConnectionWrite` in every state that the calls can reach.
use aio4c.Prelude.{
  ◌≡◌, refl, ap, sym, ◌∙◌, Bool, true, false, not, Bool-cases, inl, inr, List, [], ◌∷◌, Option,
  none, some, arith, if◌then◌else◌, ◌≤◌, ◌-◌, ℕ, length, ltb,
}
use mathlib.Core.Path.{subst}
use aio4c.Prelude.Int.{ℤ, pos, ltb_ℤ}
use aio4c.Machine.Defs.{ok, splice, zeros, store_bytes, load_bytes, add_int}
use aio4c.Machine.Laws.{Whenever, Whenever-bind, Whenever-if, sub_int-ok, store_bytes-ok}
use aio4c.Buffer.{Buffer, buffer_has_remaining, buffer_remaining, buffer_reset, buffer_position}
use aio4c.Buffer.Inv.{IsValid, valid, Fits, buffer_of, Fits-splice, length_bytes, buffer_reset-eq}
use aio4c.Buffer.Text.{remaining_bytes, length_unread}
use aio4c.Buffer.Reset.{Cleared, reset_bytes}
use aio4c.Event.Kind.{Event}
use aio4c.Event.{Pointer, EventHandler, EventQueue, event_handle}
use aio4c.Event.Laws.{call_each, event_handle-eq}
use aio4c.Connection.Kinds.{State, is_state, Error, is_disconnected}
use aio4c.Connection.{
  Core, Connection, connection_event_handle, connection_handle_error, connection_read, finish_read,
  connection_write, prepare_write, finish_write, set_read_buffer, set_write_buffer, new_connection,
}
use aio4c.Connection.Flags.{
  status, may_read, may_write, Consistent, Quiet, connection_state-Consistent,
  connection_handle_error-status,
}
use aio4c.Connection.Calls.{Call, InTime, call, call-Consistent}

if_true : {A : Type 0} (b : Bool) (x y : A) → b ≡ true → (if b then x else y) ≡ x
if_true true x y e = refl
if_true false x y e = absurd (cc)

-- Callbacks leave the permissions in line with the state, whatever else they do: they call the same interface.
abbrev pub Orderly :
    {X : Type 0} → (Pointer → Event → Pointer → Pointer → Core × X → Core × X) → Type 0
Orderly {X} run =
    (callback : Pointer) (e : Event) (self arg : Pointer) (k : Core) (x : X)
    → Consistent (status k)
    → Consistent (status (run callback e self arg (k, x)).0)

module _ {X : Type 0} (self : Pointer)
    (run : Pointer → Event → Pointer → Pointer → Core × X → Core × X) where
  -- What calls can make of a new connection, whatever handlers were added to it, and whatever arrives and is sent.
  pub data Reached : Connection × X → Type 0 where
    start :
        (read_buffer write_buffer : Buffer) (system user : EventQueue) (x : X)
        → Reached (
          record (new_connection read_buffer write_buffer) {
            system_handlers = system;
            user_handlers = user;
          },
          x,
        )
    next :
        {w : Connection × X} (c : Call)
        → Reached w
        → InTime c (status w.0.core)
        → Reached (call self run c w)
    read :
        {w w' : Connection × X} (recv : ℤ → Option (List ℕ))
        → Reached w
        → connection_read self run recv w ≡ ok w'
        → Reached w'
    write :
        {w w' : Connection × X} {more : Bool} (send : List ℕ → X → Option ℕ × X) (shutdown : X → X)
        → Reached w
        → connection_write self run send shutdown w ≡ ok (more, w')
        → Reached w'

  -- The permissions of a state.
  abbrev Lawful : Connection × X → Type 0
  Lawful w = Consistent (status w.0.core)

  -- The permissions are those of the state, and decide: without the one to write, a write is an error, with nothing sent; without
  -- the one to read, what arrives is thrown away, and no callback runs.
  abbrev pub Permits :
      (send : List ℕ → X → Option ℕ × X) (shutdown : X → X) (recv : ℤ → Option (List ℕ))
      → Connection × X
      → Type 0
  Permits send shutdown recv w =
      Consistent (status w.0.core)
      × (may_write w.0.core.state ≡ false
          → connection_write self run send shutdown w
            ≡ ok (false, connection_handle_error self run Error.connection_state w))
      × (may_read w.0.core.state ≡ false
          → (b : Buffer) × Cleared b × (connection_read self run recv w ≡ ok (set_read_buffer b w)))

  refuses_write :
      (send : List ℕ → X → Option ℕ × X) (shutdown : X → X) (w : Connection × X)
      → w.0.core.can_write ≡ false
      → connection_write self run send shutdown w
        ≡ ok (false, connection_handle_error self run Error.connection_state w)
  unfolding connection_write
  refuses_write send shutdown w e = if_true (not w.0.core.can_write) _ _ (ap not e)

  refuses_read :
      (recv : ℤ → Option (List ℕ)) (x : ℕ) (xs : List ℕ) (w : Connection × X) (b : Buffer)
      → w.0.core.read_buffer ≡ b
      → w.0.core.can_read ≡ false
      → IsValid b
      → recv (pos (length (remaining_bytes b))) ≡ some (x ∷ xs)
      → length (x ∷ xs) ≤ length (remaining_bytes b)
      → (c : Buffer) × Cleared c × (connection_read self run recv w ≡ ok (set_read_buffer c w))
  unfolding connection_read finish_read buffer_has_remaining buffer_remaining
  refuses_read recv x xs w _ same e (valid {pool} {size} {position} {limit} {bytes} f) answer room =
      let n = length_unread f in
      let stored : Fits size (splice position (x ∷ xs) bytes) position limit =
        Fits-splice f position (x ∷ xs) position limit
          (omega (arith, room, n, f.position_le, f.limit_le)) f.position_le f.limit_le in
      let answer' : recv (pos (limit - position)) ≡ some (x ∷ xs) =
        ap (λ m. recv (pos m)) (sym n) ∙ answer in
      (
        buffer_of pool size (splice 0 (zeros size) (splice position (x ∷ xs) bytes)) 0 size,
        (refl, refl, reset_bytes size (splice position (x ∷ xs) bytes)),
        rw (
          same,
          (let h : ltb position limit ≡ true = ground (arith, room, n) in h),
          sub_int-ok limit position f.position_le (omega (arith, f.limit_le, f.small)),
          answer',
          store_bytes-ok bytes position (x ∷ xs)
              (omega (arith, room, n, length_bytes f, f.limit_le, f.position_le)),
          e,
          buffer_reset-eq stored,
        ),
      )

  error_status-Consistent :
      (s : State) (r v m b : Bool)
      → Consistent (s, r, v, m)
      → Consistent
          (if is_state s State.closed then (s, r, v, b) else (State.closed, false, false, b))
  error_status-Consistent s r v m b c = elim (Bool-cases (is_state s State.closed)) [
    | inl e ↦ rw e c
    | inr e ↦ rw e (refl, refl)
  ]

module _ {X : Type 0} (self : Pointer)
    (run : Pointer → Event → Pointer → Pointer → Core × X → Core × X) (quiet : Quiet run)
    (orderly : Orderly run) where
  call_each-Consistent :
      (e : Event) (hs : List EventHandler) (w : Core × X)
      → Consistent (status w.0)
      → Consistent (status (call_each run e self hs w).0)
  unfolding call_each
  call_each-Consistent e [] w c = c
  call_each-Consistent e (h ∷ hs) (k, x) c =
      call_each-Consistent e hs (run h.callback e self h.arg (k, x))
        (orderly h.callback e self h.arg k x c)

  event_handle-Consistent :
      (q : EventQueue) (e : Event) (w : Core × X)
      → Consistent (status w.0)
      → Consistent (status (event_handle run q e self w).1.0)
  event_handle-Consistent q e w c =
      subst (λ (p : EventQueue × (Core × X)). Consistent (status p.1.0))
        (sym (event_handle-eq run q e self w)) (call_each-Consistent e (q e) w c)

  connection_event_handle-Consistent :
      (e : Event) (w : Connection × X)
      → Lawful self run w
      → Lawful self run (connection_event_handle self run e w)
  unfolding connection_event_handle
  connection_event_handle-Consistent e (c, x) l =
      event_handle-Consistent c.user_handlers e
        (event_handle run c.system_handlers e self (c.core, x)).1
        (event_handle-Consistent c.system_handlers e (c.core, x) l)

  handle_error-Consistent :
      (error : Error) (w : Connection × X)
      → Lawful self run w
      → Lawful self run (connection_handle_error self run error w)
  handle_error-Consistent error w l =
      subst Consistent (sym (connection_handle_error-status self run quiet error w)) (
        error_status-Consistent self run w.0.core.state w.0.core.can_read w.0.core.can_write
          w.0.core.closed_for_error (not (is_disconnected error)) l)

  finish_read-Consistent :
      (answer : Option (List ℕ)) (w : Connection × X)
      → Lawful self run w
      → Whenever (Lawful self run) (finish_read self run answer w)
  unfolding finish_read
  finish_read-Consistent none w l = handle_error-Consistent Error.read w l
  finish_read-Consistent (some []) w l =
      elim (Bool-cases (is_state w.0.core.state State.pending_close)) [
        | inl e ↦
            rw e
              (connection_state-Consistent self run quiet State.closed w (cc) (λ e. absurd (cc)) l)
        | inr e ↦ rw e (handle_error-Consistent Error.disconnected w l)
      ]
  finish_read-Consistent (some (x ∷ xs)) w l =
      Whenever-bind (Lawful self run) (store_bytes _ _ _) _ λ bytes _.
        Whenever-if (Lawful self run) (not w.0.core.can_read) _ _
          (Whenever-bind (Lawful self run) (buffer_reset _) _
            λ b _. let kept : Lawful self run (set_read_buffer b w) = l in kept)
          (Whenever-bind (Lawful self run) (add_int _ _) _
            λ end _. connection_event_handle-Consistent Event.inbound_data (set_read_buffer _ w) l)

  connection_read-Consistent :
      (recv : ℤ → Option (List ℕ)) (w : Connection × X)
      → Lawful self run w
      → Whenever (Lawful self run) (connection_read self run recv w)
  unfolding connection_read
  connection_read-Consistent recv w l =
      elim (Bool-cases (buffer_has_remaining w.0.core.read_buffer)) [
        | inl e ↦ rw e (
            Whenever-bind (Lawful self run) (buffer_remaining _) _
              λ room _. finish_read-Consistent (recv room) w l)
        | inr e ↦ rw e (handle_error-Consistent Error.buffer_overflow w l)
      ]

  prepare_write-Consistent :
      (w : Connection × X)
      → Lawful self run w
      → Whenever (Lawful self run) (prepare_write self run w)
  unfolding prepare_write
  prepare_write-Consistent w l = elim (Bool-cases (buffer_has_remaining w.0.core.write_buffer)) [
    | inl e ↦ rw e l
    | inr e ↦ rw e (
        Whenever-bind (Lawful self run) (buffer_reset _) _
          λ b _. connection_event_handle-Consistent Event.write (set_write_buffer b w) l)
  ]

  abbrev Sent : Bool × (Connection × X) → Type 0
  Sent r = Lawful self run r.1

  finish_write-Consistent :
      (pending : Bool) (shutdown : X → X) (answer : Option ℕ) (w : Connection × X)
      → Lawful self run w
      → Whenever Sent (finish_write self run pending shutdown answer w)
  unfolding finish_write
  finish_write-Consistent pending shutdown none w l = handle_error-Consistent Error.write w l
  finish_write-Consistent pending shutdown (some k) w l =
      Whenever-bind Sent (add_int _ _) _ λ end _.
        elim (Bool-cases (buffer_has_remaining (buffer_position w.0.core.write_buffer end).1)) [
          | inl e ↦ rw e l
          | inr e ↦ rw e (elim (Bool-cases pending) [ inl p ↦ rw p l | inr p ↦ rw p l ])
        ]

  connection_write-Consistent :
      (send : List ℕ → X → Option ℕ × X) (shutdown : X → X) (w : Connection × X)
      → Lawful self run w
      → Whenever Sent (connection_write self run send shutdown w)
  unfolding connection_write
  connection_write-Consistent send shutdown w l =
      Whenever-if Sent (not w.0.core.can_write) _ _
        (handle_error-Consistent Error.connection_state w l)
        (Whenever-bind Sent (prepare_write self run w) _ λ w' e.
          let l' : Lawful self run w' =
            subst (Whenever (Lawful self run)) e (prepare_write-Consistent w l) in
          Whenever-bind Sent (buffer_remaining w'.0.core.write_buffer) _ λ n _.
            Whenever-if Sent (ltb_ℤ n (pos 0)) _ _
              (handle_error-Consistent Error.buffer_underflow w' l')
              (Whenever-bind Sent (load_bytes _ _ n) _ λ xs _.
                finish_write-Consistent (is_state w.0.core.state State.pending_close) shutdown
                  (send xs w'.1).0 (w'.0, (send xs w'.1).1) l'))

  -- In all that the calls can reach, the permissions are those of the state.
  Reached-Consistent : {w : Connection × X} → Reached self run w → Lawful self run w
  unfolding new_connection
  Reached-Consistent (start read_buffer write_buffer system user x) = (refl, refl)
  Reached-Consistent (next {w} c r t) = call-Consistent self run quiet c w t (Reached-Consistent r)
  Reached-Consistent (read {w} recv r e) =
      subst (Whenever (Lawful self run)) e
        (connection_read-Consistent recv w (Reached-Consistent r))
  Reached-Consistent (write {w} send shutdown r e) =
      subst (Whenever Sent) e (connection_write-Consistent send shutdown w (Reached-Consistent r))

  -- With callbacks that leave the status alone in events of the state machine, and the permissions in line with the state in all
  -- others: in every connection that calls can make of a new one, each call in its time, reads and writes included, with any answers of
  -- the operating system, the permissions are those of the state, readable while it is connected, and writable while it is
  -- connected or about to be closed. In the other states `ConnectionWrite` is an error and sends nothing, and of
  -- bytes that arrive, which fit in the valid read buffer, `ConnectionRead` leaves none there and runs no callback.
  pub Reached-Permits :
      {w : Connection × X} (send : List ℕ → X → Option ℕ × X) (shutdown : X → X)
      (recv : ℤ → Option (List ℕ)) (x : ℕ) (xs : List ℕ)
      → Reached self run w
      → IsValid w.0.core.read_buffer
      → recv (pos (length (remaining_bytes w.0.core.read_buffer))) ≡ some (x ∷ xs)
      → length (x ∷ xs) ≤ length (remaining_bytes w.0.core.read_buffer)
      → Permits self run send shutdown recv w
  Reached-Permits {w} send shutdown recv x xs r v answer room =
      let l = Reached-Consistent r in
      (
        l,
        λ m. refuses_write self run send shutdown w (l.1 ∙ m),
        λ m. refuses_read self run recv x xs w w.0.core.read_buffer refl (l.0 ∙ m) v answer room,
      )
