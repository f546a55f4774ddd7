-- ===== src/Buffer/Inv.antt =====
-- The invariant of a buffer: 0 <= position <= limit <= size, and two bytes 0 behind the `size`
-- bytes of data (`NewBuffer` allocates `size + 2`), which stop every search for the end of a string.
use aio4c.Prelude.{
  zero, inl, inr, Bool-cases, ℕ, suc, ◌+◌, ◌≤◌, ◌≡◌, refl, ap, ◌∙◌, Bool, true, false, Option, none,
  some, List, [], ◌∷◌, length, drop, arith, ltb, if◌then◌else◌, length-drop, length-replicate,
}
use aio4c.Prelude.Int.{ℤ, pos, ◌≤ℤ◌}
use aio4c.Machine.Defs.{Returns, ok, int_max, zeros, splice}
use aio4c.Machine.Laws.{store_bytes-ok, add_int-ok, drop-splice}
use aio4c.Buffer.{Buffer, new_buffer, buffer_flip, buffer_position, buffer_limit, buffer_reset}

abbrev pub buffer_of : (pool size : ℕ) → List ℕ → (position limit : ℕ) → Buffer
buffer_of pool size bytes position limit = record {
  pool = pool;
  size = pos size;
  bytes = bytes;
  position = pos position;
  limit = pos limit;
}

pub record Fits (size : ℕ) (bytes : List ℕ) (position limit : ℕ) : Type 0 where
  pub position_le : position ≤ limit
  pub limit_le : limit ≤ size
  pub small : size + 2 ≤ int_max
  pub ends : drop size bytes ≡ 0 ∷ 0 ∷ []

pub data IsValid : Buffer → Type 0 where
  valid :
      {pool size position limit : ℕ} {bytes : List ℕ}
      → Fits size bytes position limit
      → IsValid (buffer_of pool size bytes position limit)

module _ {size position limit : ℕ} {bytes : List ℕ} (f : Fits size bytes position limit) where
  pub length_bytes : length bytes ≡ size + 2
  length_bytes = omega (arith, length-drop size bytes, ap (λ t. length t) f.ends)

  -- Bytes may be written anywhere below `size`, the cursor set anywhere below the limit.
  pub Fits-splice :
      (i : ℕ) (ys : List ℕ) (position' limit' : ℕ)
      → i + length ys ≤ size
      → position' ≤ limit'
      → limit' ≤ size
      → Fits size (splice i ys bytes) position' limit'
  Fits-splice i ys position' limit' h p l = record {
    position_le = p;
    limit_le = l;
    small = f.small;
    ends = drop-splice i ys bytes (omega (arith, length_bytes)) size h ∙ f.ends;
  }

  pub Fits-move :
      (position' limit' : ℕ) → position' ≤ limit' → limit' ≤ size → Fits size bytes position' limit'
  Fits-move position' limit' p l = record {
    position_le = p;
    limit_le = l;
    small = f.small;
    ends = f.ends;
  }

pub length-zeros : (n : ℕ) → length (zeros n) ≡ n
length-zeros n = length-replicate n (let z : ℕ = 0 in z)

pub drop-zeros : (n k : ℕ) → drop n (zeros (n + k)) ≡ zeros k
drop-zeros zero k = zeros-eq (0 + k) k (omega arith)
  where
    zeros-eq : (m n : ℕ) → m ≡ n → zeros m ≡ zeros n
    zeros-eq m n e = ap (λ t. zeros t) e
drop-zeros (suc n) k = drop_zeros-eq (suc n + k) (suc (n + k)) (omega arith) ∙ drop-zeros n k
  where
    drop_zeros-eq : (m m' : ℕ) → m ≡ m' → drop (suc n) (zeros m) ≡ drop (suc n) (zeros m')
    drop_zeros-eq m m' e = ap (λ t. drop (suc n) (zeros t)) e

-- What `NewBuffer` returns.
abbrev pub NewBuffer : ℕ → Option Buffer → Type 0
NewBuffer size none = Unit
NewBuffer size (some b) = IsValid b × (b ≡ buffer_of 0 size (zeros (size + 2)) 0 size)

-- A new buffer is valid and empty: position 0, the limit at the capacity, every byte 0.
pub new_buffer-IsValid :
    (malloc : ℤ → Bool) (sizeof_buffer : ℤ) (size : ℕ)
    → size + 2 ≤ int_max
    → Returns (NewBuffer size) (new_buffer malloc sizeof_buffer (pos size))
unfolding new_buffer
new_buffer-IsValid malloc sizeof_buffer size h =
    rw (add_int-ok size 2 h) (go (malloc sizeof_buffer) (malloc (pos (size + 2))))
  where
    f : Fits size (zeros (size + 2)) 0 size
    f = record {
      position_le = omega arith;
      limit_le = omega arith;
      small = h;
      ends = drop-zeros size 2;
    }

    go :
        (a b : Bool)
        → Returns (NewBuffer size) (
            if a
            then ok (if b then some (buffer_of 0 size (zeros (size + 2)) 0 size) else none)
            else ok none)
    go false b = tt
    go true false = tt
    go true true = (valid f, refl)

pub buffer_flip-IsValid : {b : Buffer} → IsValid b → IsValid (buffer_flip b)
unfolding buffer_flip
buffer_flip-IsValid (valid {position} f) =
    valid (Fits-move f 0 position (omega arith) (omega arith))

-- `BufferPosition` refuses a position behind the limit.
pub buffer_position-IsValid :
    {b : Buffer} (p : ℕ) → IsValid b → IsValid (buffer_position b (pos p)).1
unfolding buffer_position
buffer_position-IsValid p (valid {limit} f) = elim (Bool-cases (ltb limit p)) [
  | inl e ↦ rw e (valid f)
  | inr e ↦ rw e (valid (Fits-move f p limit (ground arith) (omega arith)))
]

-- `BufferLimit` refuses a limit behind the capacity. It does not look at the position, which the
-- caller must keep at or below the new limit.
pub buffer_limit-IsValid :
    {b : Buffer} (l : ℕ) → IsValid b → b.position ≤ℤ pos l → IsValid (buffer_limit b (pos l)).1
unfolding buffer_limit
buffer_limit-IsValid l (valid {size} {position} f) h = elim (Bool-cases (ltb size l)) [
  | inl e ↦ rw e (valid f)
  | inr e ↦ rw e (valid (Fits-move f position l (omega arith) (ground arith)))
]

not-lt-zero : (n : ℕ) → ltb n 0 ≡ false
not-lt-zero n = ground arith

pub buffer_reset-eq :
    {pool size position limit : ℕ} {bytes : List ℕ}
    → Fits size bytes position limit
    → buffer_reset (buffer_of pool size bytes position limit)
      ≡ ok (buffer_of pool size (splice 0 (zeros size) bytes) 0 size)
unfolding buffer_reset
buffer_reset-eq {size} {bytes} f = rw (
  not-lt-zero size,
  store_bytes-ok bytes 0 (zeros size) (omega (arith, length_bytes f, length-zeros size)),
)

pub buffer_reset-IsValid : {b : Buffer} → IsValid b → Returns IsValid (buffer_reset b)
buffer_reset-IsValid (valid {size} f) = rw (buffer_reset-eq f) (
    valid (
      Fits-splice f 0 (zeros size) 0 size (omega (arith, length-zeros size)) (omega arith)
        (omega arith)))
