-- ===== src/Buffer/Tests.antt =====
-- The buffer theorems at concrete buffers of four bytes.
use aio4c.Prelude.{◌≡◌, refl, true, some, [], ◌∷◌, arith, if◌then◌else◌}
use aio4c.Prelude.Int.{pos}
use aio4c.Machine.Defs.{◌>>=◌, Returns, text, find_nul}
use aio4c.Buffer.{
  Buffer, buffer_flip, buffer_position, buffer_reset, buffer_get_string, buffer_put_string,
}
use aio4c.Buffer.Inv.{buffer_of, IsValid, valid}
use aio4c.Buffer.Access.{put_all, get_all, put_all-get_all}
use aio4c.Buffer.PutText.{put_string-get_string}
use aio4c.Buffer.Safety.{Call, call_all, AllAllowed, call_all-IsValid}

abbrev empty : Buffer
empty = buffer_of 0 4 (0 ∷ 0 ∷ 0 ∷ 0 ∷ 0 ∷ 0 ∷ []) 0 4

empty-IsValid : IsValid empty
empty-IsValid =
    valid {pool = 0} (record {
      position_le = omega arith;
      limit_le = omega arith;
      small = omega arith;
      ends = refl;
    })

-- The string "AB" with its 0, unread, at the end of the capacity.
abbrev with_text : Buffer
with_text = buffer_of 0 4 (9 ∷ 65 ∷ 66 ∷ 0 ∷ 0 ∷ 0 ∷ []) 1 4

with_text-IsValid : IsValid with_text
with_text-IsValid =
    valid {pool = 0} (record {
      position_le = omega arith;
      limit_le = omega arith;
      small = omega arith;
      ends = refl;
    })

-- A buffer of ten bytes, all unread.
abbrev big : Buffer
big = buffer_of 0 10 (1 ∷ 2 ∷ 3 ∷ 4 ∷ 5 ∷ 6 ∷ 7 ∷ 8 ∷ 9 ∷ 10 ∷ 0 ∷ 0 ∷ []) 0 10

big-IsValid : IsValid big
big-IsValid =
    valid {pool = 0} (record {
      position_le = omega arith;
      limit_le = omega arith;
      small = omega arith;
      ends = refl;
    })

put_all-get_all_example :
    Returns
      (λ (out, _). out ≡ some ((1 ∷ 2 ∷ []) ∷ (3 ∷ []) ∷ []))
      (buffer_reset with_text >>= put_all ((1 ∷ 2 ∷ []) ∷ (3 ∷ []) ∷ []) >>= λ (stored, b').
        get_all (2 ∷ 1 ∷ []) (buffer_flip b'))
put_all-get_all_example =
    put_all-get_all ((1 ∷ 2 ∷ []) ∷ (3 ∷ []) ∷ []) with_text-IsValid (omega arith)

put_string-get_string_example :
    Returns
      (λ (stored, b').
        (stored ≡ true)
        × IsValid b'
        × (if stored
            then Returns
                (λ (s, _). s ≡ 72 ∷ 105 ∷ [])
                (buffer_get_string (buffer_position b' (pos 1)).1)
            else b' ≡ with_text))
      (buffer_put_string with_text (72 ∷ 105 ∷ 0 ∷ []))
unfolding text find_nul
put_string-get_string_example = put_string-get_string (72 ∷ 105 ∷ 0 ∷ []) 2 with_text-IsValid refl

script-AllAllowed : AllAllowed (Call.put (7 ∷ 8 ∷ []) ∷ Call.flip ∷ []) empty
script-AllAllowed = AllAllowed.next (omega arith) λ b e. AllAllowed.next tt λ b' e'. AllAllowed.done

call_all-IsValid_example : Returns IsValid (call_all (Call.put (7 ∷ 8 ∷ []) ∷ Call.flip ∷ []) empty)
call_all-IsValid_example =
    call_all-IsValid (Call.put (7 ∷ 8 ∷ []) ∷ Call.flip ∷ []) empty-IsValid script-AllAllowed
