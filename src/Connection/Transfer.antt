-- ===== src/Connection/Transfer.antt =====
-- `ConnectionWrite`, called again while it reports that bytes are left, as the writer thread does.
use aio4c.Prelude.{
  ℕ, zero, suc, ◌+◌, ◌-◌, ◌≤◌, ◌<◌, ◌≡◌, refl, ap, sym, ◌∙◌, Bool, true, false, Bool-cases, inl,
  inr, List, [], ◌∷◌, ◌++◌, Option, some, arith, length, take, drop, ltb, ltb→lt, take-append-drop,
  append_assoc, append-nil,
}
use aio4c.Prelude.Int.{pos, ltb_ℤ}
use aio4c.Machine.Defs.{Run, ok, ◌>>=◌, Returns}
use aio4c.Machine.Laws.{
  Returns-bind, Returns-mono, sub_int-ok, add_int-ok, load_bytes-ok, drop-drop, take_all,
}
use aio4c.Event.Kind.{Event}
use aio4c.Event.{Pointer}
use aio4c.Buffer.{Buffer, buffer_has_remaining, buffer_position, buffer_remaining}
use aio4c.Buffer.Inv.{buffer_of, Fits, IsValid, valid, Fits-move, length_bytes}
use aio4c.Buffer.Text.{remaining_bytes, length_unread}
use aio4c.Connection.Kinds.{State, is_state}
use aio4c.Connection.{
  Core, Connection, prepare_write, finish_write, connection_write, set_write_buffer, with_core,
}

drop-take : (k n : ℕ) (xs : List ℕ) → k ≤ n → drop k (take n xs) ≡ take (n - k) (drop k xs)
drop-take zero n xs h = ap (λ m. take m xs) (let e : n ≡ n - 0 = omega arith in e)
drop-take (suc k) zero xs h = absurd (omega arith)
drop-take (suc k) (suc n) [] h = sym (take_all (suc n - suc k) [] (omega arith))
drop-take (suc k) (suc n) (x ∷ xs) h =
    drop-take k n xs (omega arith)
    ∙ ap (λ m. take m (drop k xs)) (let e : n - k ≡ suc n - suc k = omega arith in e)

module _ {X : Type 0} (self : Pointer)
    (run : Pointer → Event → Pointer → Pointer → Core × X → Core × X) (sent : X → List ℕ)
    (send : List ℕ → X → Option ℕ × X) (shutdown : X → X) where
  -- What `send` documents, on a connection that takes data: it takes a first part of the bytes, at least
  -- one if there is one, which is appended to what was sent before. `shutdown` sends nothing.
  pub record Sends : Type 0 where
    pub amount : List ℕ → X → ℕ
    pub after : List ℕ → X → X
    pub answers : (xs : List ℕ) (x : X) → send xs x ≡ (some (amount xs x), after xs x)
    pub some_sent : (xs : List ℕ) (x : X) → 0 < length xs → 0 < amount xs x
    pub no_more : (xs : List ℕ) (x : X) → amount xs x ≤ length xs
    pub appended : (xs : List ℕ) (x : X) → sent (after xs x) ≡ sent x ++ take (amount xs x) xs
    pub silent : (x : X) → sent (shutdown x) ≡ sent x

  -- The calls, at most `n`, until one reports that no bytes are left.
  pub write_rounds : ℕ → Connection × X → Run (Bool × (Connection × X))
  write_rounds zero w = ok (true, w)
  write_rounds (suc n) w = connection_write self run send shutdown w >>= λ (more, w'). elim more [
    | true ↦ write_rounds n w'
    | false ↦ ok (false, w')
  ]

  -- One call on a connection whose buffer holds bytes.
  abbrev Wrote : List ℕ → List ℕ → Bool × (Connection × X) → Type 0
  Wrote before xs (more, w) =
      IsValid w.0.core.write_buffer
      × (w.0.core.can_write ≡ true)
      × (sent w.1 ++ remaining_bytes w.0.core.write_buffer ≡ before ++ xs)
      × (length (remaining_bytes w.0.core.write_buffer) < length xs)
      × (more ≡ true → 0 < length (remaining_bytes w.0.core.write_buffer))
      × (more ≡ false → remaining_bytes w.0.core.write_buffer ≡ [])

  abbrev pub AllSent : List ℕ → Bool × (Connection × X) → Type 0
  AllSent total (more, w) = (more ≡ false) × (sent w.1 ≡ total)

  module _ (sends : Sends) where
    module _ (pool : ℕ) {size position limit : ℕ} {bytes : List ℕ}
        (f : Fits size bytes position limit) where
      finished :
          (w : Connection × X) (pending : Bool)
          → position < limit
          → w.0.core.can_write ≡ true
          → Returns (Wrote (sent w.1) (take (limit - position) (drop position bytes))) (
              finish_write self run pending shutdown
                (some (sends.amount (take (limit - position) (drop position bytes)) w.1))
                (
                  (set_write_buffer (buffer_of pool size bytes position limit) w).0,
                  sends.after (take (limit - position) (drop position bytes)) w.1,
                ))
      unfolding finish_write buffer_position buffer_has_remaining
      finished w pending h can =
          let xs = take (limit - position) (drop position bytes) in
          let k = sends.amount xs w.1 in
          let x = sends.after xs w.1 in
          let n = length_unread f in
          let le : k ≤ limit - position = omega (arith, sends.no_more xs w.1, n) in
          let moved : Fits size bytes (position + k) limit =
            Fits-move f (position + k) limit (omega (arith, f.position_le)) f.limit_le in
          let rest : take (limit - (position + k)) (drop (position + k) bytes) ≡ drop k xs =
            ap (λ m. take m (drop (position + k) bytes))
              (let e : limit - (position + k) ≡ limit - position - k = omega arith in e)
            ∙ ap (λ t. take (limit - position - k) t) (sym (drop-drop k position bytes))
            ∙ sym (drop-take k (limit - position) (drop position bytes) le) in
          let total : sent x ++ take (limit - (position + k)) (drop (position + k) bytes)
              ≡ sent w.1 ++ xs =
            rw (sends.appended xs w.1, rest)
              (append_assoc (sent w.1) (take k xs) (drop k xs)
                ∙ ap (λ t. sent w.1 ++ t) (take-append-drop k xs)) in
          let fewer : length (take (limit - (position + k)) (drop (position + k) bytes))
              < length xs =
            omega (arith, length_unread moved, n, sends.some_sent xs w.1) in
          let in_range : ltb limit (position + k) ≡ false = ground (arith, f.position_le) in
          rw (add_int-ok position k (omega (arith, f.limit_le, f.small)), in_range)
            (elim (Bool-cases (ltb (position + k) limit)) [
              | inl m ↦ rw m (
                valid moved,
                can,
                total,
                fewer,
                λ e. omega (arith, length_unread moved, ltb→lt (position + k) limit m),
                λ e. absurd (cc),
              )
              | inr m ↦
                  let none_left : ltb (position + k) limit ≡ false
                      → take (limit - (position + k)) (drop (position + k) bytes) ≡ [] =
                    λ e.
                      ap (λ m. take m (drop (position + k) bytes))
                        (let e : limit - (position + k) ≡ 0 = ground arith in e) in
                  rw m (elim (Bool-cases pending) [
                    | inl p ↦
                        rw (p, sends.silent x)
                          (valid moved, can, total, fewer, λ e. absurd (cc), λ e. none_left m)
                    | inr p ↦
                        rw p (valid moved, can, total, fewer, λ e. absurd (cc), λ e. none_left m)
                  ])
            ])

      write_round :
          (w : Connection × X)
          → position < limit
          → w.0.core.can_write ≡ true
          → Returns (Wrote (sent w.1) (take (limit - position) (drop position bytes))) (
              connection_write self run send shutdown
                (set_write_buffer (buffer_of pool size bytes position limit) w))
      unfolding connection_write prepare_write buffer_has_remaining buffer_remaining
      write_round w h can =
          let some_left : ltb position limit ≡ true = ground arith in
          let enough : position + (limit - position) ≤ length bytes =
            omega (arith, length_bytes f, f.limit_le) in
          let not_negative : ltb_ℤ (pos (limit - position)) (pos 0) ≡ false = ground arith in
          rw
            (
              can,
              some_left,
              sub_int-ok limit position f.position_le (omega (arith, f.limit_le, f.small)),
              load_bytes-ok bytes position (limit - position) enough,
              not_negative,
              sends.answers (take (limit - position) (drop position bytes)) w.1,
            )
            (finished (with_core (λ k. record k { can_write = true }) w)
              (is_state w.0.core.state State.pending_close) h refl)

    write_buffer_round :
        (b : Buffer) (w : Connection × X)
        → IsValid b
        → 0 < length (remaining_bytes b)
        → w.0.core.can_write ≡ true
        → Returns
            (Wrote (sent w.1) (remaining_bytes b))
            (connection_write self run send shutdown (set_write_buffer b w))
    write_buffer_round b w (valid {pool} {size} {position} {limit} {bytes} f) h can =
        write_round pool f w (omega (arith, length_unread f)) can

    -- As long as the connection takes data, calling `ConnectionWrite` while it reports that bytes are
    -- left ends with the report that none are, within one call for each byte that the valid write
    -- buffer holds, at least one: exactly these bytes have been sent, in their order.
    pub write_rounds-sent :
        (n : ℕ) (w : Connection × X)
        → IsValid w.0.core.write_buffer
        → w.0.core.can_write ≡ true
        → 0 < length (remaining_bytes w.0.core.write_buffer)
        → length (remaining_bytes w.0.core.write_buffer) ≤ n
        → Returns (AllSent (sent w.1 ++ remaining_bytes w.0.core.write_buffer)) (write_rounds n w)
    unfolding write_rounds
    write_rounds-sent zero w v can some_left enough = absurd (omega arith)
    write_rounds-sent (suc n) w v can some_left enough =
        let total = sent w.1 ++ remaining_bytes w.0.core.write_buffer in
        Returns-bind (Wrote (sent w.1) (remaining_bytes w.0.core.write_buffer)) (AllSent total)
          (connection_write self run send shutdown w)
          (λ (more, w'). elim more [ true ↦ write_rounds n w' | false ↦ ok (false, w') ])
          (write_buffer_round w.0.core.write_buffer w v some_left can)
          λ (more, w'). λ (v', can', total', fewer, again, done). elim (Bool-cases more) [
            | inl e ↦ rw e (
                Returns-mono (AllSent (sent w'.1 ++ remaining_bytes w'.0.core.write_buffer))
                  (AllSent total) (write_rounds n w')
                  (write_rounds-sent n w' v' can' (again e) (omega arith))
                  λ r (a, b). (a, b ∙ total'))
            | inr e ↦ rw e (
              refl,
              sym (append-nil (sent w'.1)) ∙ ap (λ t. sent w'.1 ++ t) (sym (done e)) ∙ total',
            )
          ]
