-- ===== src/Buffer/Safety.antt =====
-- Any sequence of calls on one buffer: no call faults and the invariant holds throughout, while the
-- caller keeps to the conditions of `Allowed`.
use aio4c.Prelude.{
  ℕ, ◌+◌, ◌≤◌, ◌≡◌, refl, some, List, [], ◌∷◌, length, arith, ltb, Bool-cases, inl, inr,
}
use aio4c.Prelude.Int.{pos, pos_part, ◌≤ℤ◌}
use aio4c.Machine.Defs.{Run, ok, fault, ◌>>=◌, Returns, int_max, find_nul}
use aio4c.Machine.Laws.{Returns-step, Returns-bind_eq}
use aio4c.Buffer.{
  Buffer, buffer_flip, buffer_position, buffer_limit, buffer_reset, buffer_get, buffer_put,
  buffer_get_string, buffer_put_string,
}
use aio4c.Buffer.Inv.{
  IsValid, valid, Fits-splice, Fits-move, buffer_flip-IsValid, buffer_position-IsValid,
  buffer_limit-IsValid, buffer_reset-IsValid,
}
use aio4c.Buffer.Access.{buffer_get-eq, buffer_put-eq}
use aio4c.Buffer.Text.{buffer_get_string_lem}
use aio4c.Buffer.PutText.{put_string-get_string}

-- A call of the buffer's interface; `put` copies a whole block.
pub data Call : Type 0 where
  flip reset get_string : Call
  position limit get : ℕ → Call
  put put_string : List ℕ → Call

abbrev pub only {ℓ} : {A : Type ℓ} → Run (A × Buffer) → Run Buffer
only r = r >>= λ (a, b). ok b

pub call : Call → Buffer → Run Buffer
call flip b = ok (buffer_flip b)
call reset b = buffer_reset b
call get_string b = only (buffer_get_string b)
call (position p) b = ok (buffer_position b (pos p)).1
call (limit l) b = ok (buffer_limit b (pos l)).1
call (get n) b = only (buffer_get b (pos n))
call (put xs) b = only (buffer_put b xs (pos (length xs)))
call (put_string xs) b = only (buffer_put_string b xs)

-- The caller's part: a new limit is not set before the position, `position + size` is an `int`, and a
-- string has an end.
abbrev pub Allowed : Call → Buffer → Type 0
Allowed flip b = Unit
Allowed reset b = Unit
Allowed get_string b = Unit
Allowed (position p) b = Unit
Allowed (limit l) b = b.position ≤ℤ pos l
Allowed (get n) b = pos_part b.position + n ≤ int_max
Allowed (put xs) b = pos_part b.position + length xs ≤ int_max
Allowed (put_string xs) b = (k : ℕ) × (find_nul xs ≡ some k)

pub call_all : List Call → Buffer → Run Buffer
call_all [] b = ok b
call_all (c ∷ cs) b = call c b >>= call_all cs

pub data AllAllowed : List Call → Buffer → Type 0 where
  done : {b : Buffer} → AllAllowed [] b
  next :
      {c : Call} {cs : List Call} {b : Buffer}
      → Allowed c b
      → ((b' : Buffer) → call c b ≡ ok b' → AllAllowed cs b')
      → AllAllowed (c ∷ cs) b

only-IsValid {ℓ} :
    {A : Type ℓ} (P : A × Buffer → Type 0) (r : Run (A × Buffer))
    → Returns P r
    → ((x : A × Buffer) → P x → IsValid x.1)
    → Returns IsValid (only r)
only-IsValid P (ok x) h keep = keep x h
only-IsValid P fault h keep = absurd h

-- One call, of any kind.
call-IsValid : (c : Call) {b : Buffer} → IsValid b → Allowed c b → Returns IsValid (call c b)
unfolding call
call-IsValid flip v a = buffer_flip-IsValid v
call-IsValid reset v a = buffer_reset-IsValid v
call-IsValid get_string v a = only-IsValid _ _ (buffer_get_string_lem v) λ x r. r.1
call-IsValid (position p) v a = buffer_position-IsValid p v
call-IsValid (limit l) v a = buffer_limit-IsValid l v a
call-IsValid (get n) (valid {pool} {position} {limit} f) a =
    Returns-step IsValid _ (buffer_get-eq pool f n a)
      (elim (Bool-cases (ltb limit (position + n))) [
        | inl e ↦ rw e (valid f)
        | inr e ↦ rw e (valid (Fits-move f (position + n) limit (ground arith) f.limit_le))
      ])
call-IsValid (put xs) (valid {pool} {position} {limit} f) a =
    Returns-step IsValid _ (buffer_put-eq pool f xs a)
      (elim (Bool-cases (ltb limit (position + length xs))) [
        | inl e ↦ rw e (valid f)
        | inr e ↦
            let le : position + length xs ≤ limit = ground arith in
            rw e (
              valid (
                Fits-splice f position xs (position + length xs) limit (omega (arith, f.limit_le))
                  le f.limit_le))
      ])
call-IsValid (put_string xs) v (k, e) = only-IsValid _ _ (put_string-get_string xs k v e) λ x r. r.1

-- Whatever calls a client makes of a valid buffer, but for `BufferCopy`, with arguments that are not negative, in whatever order, as long as each is allowed when
-- it is made: every one returns without undefined behaviour, and the buffer is valid at the end.
pub call_all-IsValid :
    (cs : List Call) {b : Buffer} → IsValid b → AllAllowed cs b → Returns IsValid (call_all cs b)
unfolding call_all
call_all-IsValid [] v a = v
call_all-IsValid (c ∷ cs) {b} v (next a later) =
    Returns-bind_eq IsValid IsValid (call c b) (call c b) (call_all cs) refl (call-IsValid c v a)
      λ b' e w. call_all-IsValid cs w (later b' e)
