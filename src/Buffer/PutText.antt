-- ===== src/Buffer/PutText.antt =====
-- `BufferPutString`: the string that it writes is the one that `BufferGetString` reads back; its check
-- relies on a position at or below the limit.
use aio4c.Prelude.{
  ℕ, suc, ◌+◌, ◌-◌, ◌≤◌, ◌<◌, ◌≡◌, refl, ap, sym, ◌∙◌, true, false, some, List, ◌++◌, length, take,
  drop, arith, ltb, if◌then◌else◌, Bool-cases, inl, inr, length-take,
}
use aio4c.Prelude.Int.{pos_part}
use aio4c.Machine.Defs.{ok, fault, Returns, int_max, splice, find_nul, text}
use aio4c.Machine.Laws.{
  store_bytes-ok, load_bytes-ok, add_int-ok, sub_int-ok, take-take, find_nul-take, Returns-mono,
  find_nul-lt-length, find_nul-append_left, memchr_nul-some, memchr_nul-negative, drop_at-splice,
  store_bytes-fault, sub_int-negative, take-append_le, text-take, text_of_some, strlen_at-ok,
}
use aio4c.Buffer.{Buffer, buffer_position, buffer_get_string, buffer_put_string}
use aio4c.Buffer.Inv.{buffer_of, Fits, IsValid, valid, length_bytes, Fits-splice}
use aio4c.Buffer.Text.{GotString, buffer_get_string-Got}

module _ (pool : ℕ) {size position limit : ℕ} {bytes : List ℕ} (f : Fits size bytes position limit)
    (xs : List ℕ) (k : ℕ) (e : find_nul xs ≡ some k) where
  -- The string and its 0.
  abbrev written : List ℕ
  written = take (suc k) xs

  length-written : length written ≡ suc k
  length-written = omega (arith, length-take (suc k) xs, find_nul-lt-length xs k e)

  pub buffer_put_string-refused :
      limit - position ≤ k
      → buffer_put_string (buffer_of pool size bytes position limit) xs
        ≡ ok (false, buffer_of pool size bytes position limit)
  unfolding buffer_put_string
  buffer_put_string-refused h =
      let full : ltb k (limit - position) ≡ false = ground arith in
      rw (
        sub_int-ok limit position f.position_le (omega (arith, f.small, f.limit_le)),
        memchr_nul-some xs k (limit - position) e,
        full,
      )

  pub buffer_put_string-ok :
      k < limit - position
      → buffer_put_string (buffer_of pool size bytes position limit) xs
        ≡ ok (
          true,
          buffer_of pool size (splice position (take (suc k) xs) bytes) (position + suc k) limit,
        )
  unfolding buffer_put_string
  buffer_put_string-ok h =
      let fits : ltb k (limit - position) ≡ true = ground arith in
      let n = length-written in
      rw (
        sub_int-ok limit position f.position_le (omega (arith, f.small, f.limit_le)),
        memchr_nul-some xs k (limit - position) e,
        fits,
        strlen_at-ok xs 0 k e,
        load_bytes-ok xs 0 (suc k) (omega (arith, find_nul-lt-length xs k e)),
        store_bytes-ok bytes position (take (suc k) xs)
            (omega (arith, length_bytes f, f.limit_le, n)),
        add_int-ok position (suc k) (omega (arith, f.limit_le, f.small)),
      )

  find_nul-written : find_nul written ≡ some k
  find_nul-written =
      let inside : ltb k (suc k) ≡ true = ground arith in
      ground (arith, find_nul-take xs k (suc k) e)

  -- The string at the old position, read back after `BufferPutString`.
  get-put_string :
      k < limit - position
      → Returns
          (λ (s, _). s ≡ text xs)
          (buffer_get_string
            (buffer_of pool size (splice position (take (suc k) xs) bytes) position limit))
  get-put_string h =
      let n = length-written in
      let inside : position + length written ≤ length bytes =
        omega (arith, n, length_bytes f, f.limit_le) in
      let f' : Fits size (splice position written bytes) position limit =
        Fits-splice f position written position limit (omega (arith, n, f.limit_le)) f.position_le
          f.limit_le in
      let more = drop (position + length written) bytes in
      let here : drop position (splice position written bytes) ≡ written ++ more =
        drop_at-splice position written bytes inside in
      let ends : find_nul (drop position (splice position written bytes)) ≡ some k =
        ap find_nul here ∙ find_nul-append_left written more k find_nul-written in
      Returns-mono
        (GotString pool size position limit
          (take (limit - position) (drop position (splice position written bytes))))
        (λ (s, _). s ≡ text xs) _ (buffer_get_string-Got pool f')
        λ (s, b') r.
          r.0
          ∙ text-take _ k (limit - position) ends h
          ∙ ap (λ t. take k t) here
          ∙ take-append_le k written more (omega (arith, n))
          ∙ take-take k (suc k) xs (omega arith)
          ∙ sym (text_of_some xs k e)

-- The C string at `in` goes into a valid buffer exactly when it and its 0 fit between the position and
-- the limit. Where it does not fit the buffer is left as it is; where it fits the buffer stays valid,
-- and `BufferGetString` at the old position reads the same string back.
pub put_string-get_string :
    {b : Buffer} (xs : List ℕ) (k : ℕ)
    → IsValid b
    → find_nul xs ≡ some k
    → Returns
        (λ (done, b').
          (done ≡ ltb k (pos_part b.limit - pos_part b.position))
          × IsValid b'
          × (if done
              then Returns
                  (λ (s, _). s ≡ text xs)
                  (buffer_get_string (buffer_position b' b.position).1)
              else b' ≡ b))
        (buffer_put_string b xs)
unfolding buffer_position
put_string-get_string xs k (valid {pool} {size} {position} {limit} {bytes} f) e =
    elim (Bool-cases (ltb k (limit - position))) [
      | inl h ↦
          let le : position + suc k ≤ limit = ground (arith, f.position_le) in
          let n = length-written pool f xs k e in
          let before : ltb limit position ≡ false = ground (arith, f.position_le) in
          rw (buffer_put_string-ok pool f xs k e (ground arith), h, before)
            (
              refl,
              valid (
                  Fits-splice f position (take (suc k) xs) (position + suc k) limit
                    (omega (arith, n, f.limit_le)) le f.limit_le),
              get-put_string pool f xs k e (ground arith),
            )
      | inr h ↦ rw (buffer_put_string-refused pool f xs k e (ground arith), h) (refl, valid f, refl)
    ]

-- `BufferPutString` looks for the end of the string within `limit - position` bytes, converted to an
-- unsigned number. In a buffer whose position stands behind its limit, as `BufferLimit` can leave it,
-- the check therefore passes for every string, and one that is longer than the rest of the block is
-- written past its end.
pub put_string_overruns :
    (pool size : ℕ) (bytes : List ℕ) (position limit k : ℕ) (xs : List ℕ)
    → limit < position
    → position ≤ int_max
    → find_nul xs ≡ some k
    → length bytes < position + suc k
    → buffer_put_string (buffer_of pool size bytes position limit) xs ≡ fault
unfolding buffer_put_string
put_string_overruns pool size bytes position limit k xs behind small e long = rw (
  sub_int-negative limit position behind small,
  memchr_nul-negative xs k (position - limit - 1) e,
  strlen_at-ok xs 0 k e,
  load_bytes-ok xs 0 (suc k) (omega (arith, find_nul-lt-length xs k e)),
  store_bytes-fault bytes position (take (suc k) xs)
      (omega (arith, length-take (suc k) xs, find_nul-lt-length xs k e)),
)
