-- ===== src/Machine/Defs.antt =====
-- `Run`, `int` arithmetic, and memcpy, memset, memchr, strlen on byte lists.
use aio4c.Prelude.{
  ℕ, suc, ◌+◌, Bool, false, ◌||◌, Option, none, some, List, [], ◌∷◌, ◌++◌, length, take, drop,
  replicate, leb, ltb, ◌==◌, if◌then◌else◌,
}
use aio4c.Prelude.Int.{ℤ, pos, negsuc, pos_part, ltb_ℤ, ◌+ℤ◌, ◌-ℤ◌}

-- What a piece of code does: it returns, or its behaviour is undefined.
pub data Run {ℓ} (A : Type ℓ) : Type ℓ where
  ok : A → Run A
  fault : Run A

infixl 5 ◌>>=◌
abbrev pub ◌>>=◌ {ℓ κ} : {A : Type ℓ} {B : Type κ} → Run A → (A → Run B) → Run B
ok a >>= f = f a
fault >>= f = fault

-- The run returns, and the result has the property.
abbrev pub Returns {ℓ} : {A : Type ℓ} → (A → Type 0) → Run A → Type 0
Returns P (ok a) = P a
Returns P fault = ⊥

abbrev pub int_max : ℕ
int_max = 2147483647

-- The values of `int`: from -2^31 to 2^31 - 1.
abbrev pub fits_int : ℤ → Bool
fits_int (pos n) = leb n int_max
fits_int (negsuc n) = leb n int_max

-- `a + b` and `a - b` on `int`; a result out of range is undefined.
unfoldable pub add_int : ℤ → ℤ → Run ℤ
unfolding ◌+ℤ◌
add_int a b = if fits_int (a +ℤ b) then ok (a +ℤ b) else fault

unfoldable pub sub_int : ℤ → ℤ → Run ℤ
unfolding ◌-ℤ◌
sub_int a b = if fits_int (a -ℤ b) then ok (a -ℤ b) else fault

abbrev pub zeros : ℕ → List ℕ
zeros n = replicate n 0

-- Both numbers are at least 0 and the range lies in a block of `size` bytes.
abbrev pub in_block : ℤ → ℤ → ℕ → Bool
in_block (pos i) (pos n) size = leb (i + n) size
in_block (pos i) (negsuc n) size = false
in_block (negsuc i) n size = false

-- The bytes that `memcpy(_, &block[i], n)` reads.
unfoldable pub load_bytes : List ℕ → ℤ → ℤ → Run (List ℕ)
load_bytes block i n =
    if in_block i n (length block) then ok (take (pos_part n) (drop (pos_part i) block)) else fault

-- `block` with `xs` written over it from the index `i` on.
unfoldable pub splice : ℕ → List ℕ → List ℕ → List ℕ
splice i xs block = take i block ++ (xs ++ drop (i + length xs) block)

-- The block after `memcpy(&block[i], xs, length xs)`.
unfoldable pub store_bytes : List ℕ → ℤ → List ℕ → Run (List ℕ)
store_bytes block i xs =
    if in_block i (pos (length xs)) (length block) then ok (splice (pos_part i) xs block) else fault

-- The index of the first 0, which ends a C string.
unfoldable pub find_nul : List ℕ → Option ℕ
find_nul [] = none
find_nul (x ∷ xs) =
    let rest = find_nul xs in
    if x == 0 then some 0 else elim rest [ none ↦ none | some i ↦ some (suc i) ]

-- The C string that a block starts with.
unfoldable pub text : List ℕ → List ℕ
unfolding find_nul
text xs = elim (find_nul xs) [ none ↦ xs | some k ↦ take k xs ]

-- `strlen(&block[i])`: undefined if no 0 follows inside the block.
unfoldable pub strlen_at : List ℕ → ℤ → Run ℕ
strlen_at block (negsuc i) = fault
strlen_at block (pos i) = elim (find_nul (drop i block)) [ none ↦ fault | some k ↦ ok k ]

-- `memchr(block, '\0', n) != NULL`, which reads no further than the first 0. A negative `n` is
-- converted to a `size_t` larger than any block.
unfoldable pub memchr_nul : List ℕ → ℤ → Run Bool
memchr_nul block n = elim (find_nul block) [
  | some k ↦ ok (ltb_ℤ (pos k) n || ltb_ℤ n (pos 0))
  | none ↦ if ltb_ℤ n (pos 0) || ltb (length block) (pos_part n) then fault else ok false
]
