-- ===== src/Buffer/Reset.antt =====
-- `BufferReset` of src/buffer.c: what it leaves of a buffer.
use aio4c.Prelude.{
  ℕ, zero, suc, ◌-◌, ◌+◌, ◌≡◌, refl, ap, ◌∙◌, List, ◌∷◌, ◌++◌, length, take, drop, arith,
}
use mathlib.Core.Path.{subst}
use aio4c.Prelude.Int.{pos, pos_part}
use aio4c.Machine.Defs.{Returns, splice, zeros}
use aio4c.Buffer.{Buffer, buffer_reset}
use aio4c.Buffer.Inv.{IsValid, valid, buffer_reset-IsValid, buffer_reset-eq}
use aio4c.Buffer.Text.{remaining_bytes}

-- A buffer as `BufferReset` leaves it: all of it is there to be written to, and no byte of what was read is left.
abbrev pub Cleared : Buffer → Type 0
Cleared b =
    (b.position ≡ pos 0) × (b.limit ≡ b.size) × (remaining_bytes b ≡ zeros (pos_part b.size))

take-zeros : (n : ℕ) (rest : List ℕ) → take n (zeros n ++ rest) ≡ zeros n
take-zeros zero rest = refl
take-zeros (suc n) rest = ap (λ xs. 0 ∷ xs) (take-zeros n rest)

pub reset_bytes :
    (size : ℕ) (bytes : List ℕ)
    → take (size - 0) (drop 0 (splice 0 (zeros size) bytes)) ≡ zeros size
unfolding splice
reset_bytes size bytes =
    ap (λ n. take n (zeros size ++ drop (0 + length (zeros size)) bytes))
      (let e : size - 0 ≡ size = omega arith in e)
    ∙ take-zeros size (drop (0 + length (zeros size)) bytes)

pub buffer_reset-Cleared :
    {b : Buffer} → IsValid b → Returns (λ (r : Buffer). IsValid r × Cleared r) (buffer_reset b)
buffer_reset-Cleared (valid {size} {bytes} f) = rw (buffer_reset-eq f) (
  subst (Returns IsValid) (buffer_reset-eq f) (buffer_reset-IsValid (valid f)),
  (refl, refl, reset_bytes size bytes),
)
