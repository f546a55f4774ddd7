-- ===== src/Alloc/Resize.antt =====
-- What a sequence of calls of `aio4c_realloc` leaves in a block.
use aio4c.Prelude.{
  ℕ, ◌+◌, ◌-◌, ◌≤◌, ◌<◌, ◌≡◌, ◌≢◌, refl, sym, ap, ◌∙◌, ◌==◌, ltb, true, false, inl, inr, Bool-cases,
  Option, none, some, List, [], ◌∷◌, ◌++◌, length, take, drop, length-append, length-take,
  append-nil, arith, min, if◌then◌else◌,
}
use mathlib.Core.Path.{subst}
use aio4c.Prelude.Int.{pos}
use aio4c.Machine.Defs.{ok, fault, Returns, zeros, store_bytes, splice}
use aio4c.Machine.Laws.{store_bytes-ok, Returns-step, take_all}
use aio4c.Buffer.Inv.{length-zeros}
use aio4c.Event.{Pointer}
use aio4c.Alloc.{
  Block, Memory, put, Answer, aio4c_malloc, resize_block, aio4c_realloc, free_block, aio4c_free,
}

-- The bytes with a new length: cut off, or followed by zeros.
unfoldable pub resize : ℕ → List ℕ → List ℕ
resize n xs = take n xs ++ zeros (n - length xs)

-- `realloc` returns a block of the size that was asked for, which starts with the old bytes as far as both
-- sizes go. It is another one than all others in use.
pub record IsMoved (m : Memory) (p : Pointer) (xs : List ℕ) (size : ℕ) (a : Answer) : Type 0 where
  pub long : length a.bytes ≡ size
  pub kept : take (min (length xs) size) a.bytes ≡ take (min (length xs) size) xs
  pub apart : a.address ≢ p → m a.address ≡ none

abbrev pub block : List ℕ → Option Block
block xs = some (record { size = length xs; bytes = xs })

put-same : (p : Pointer) (b : Option Block) (m : Memory) → put p b m p ≡ b
put-same p b m = rw (let e : (p == p) ≡ true = ground arith in e)

put-other : (p q : Pointer) (b : Option Block) (m : Memory) → q ≢ p → put p b m q ≡ m q
put-other p q b m h = rw (let e : (q == p) ≡ false = ground (arith, h) in e)

drop_all : (ys : List ℕ) → drop (length ys) ys ≡ []
drop_all [] = refl
drop_all (y ∷ ys) = drop_all ys

-- What a block holds behind the end of the old bytes is overwritten.
splice-resize :
    (xs ys : List ℕ) (size : ℕ)
    → length xs < size
    → length ys ≡ size
    → take (length xs) ys ≡ xs
    → splice (length xs) (zeros (size - length xs)) ys ≡ resize size xs
unfolding splice resize
splice-resize xs ys size h long kept =
    let n = size - length xs in
    let all : length xs + length (zeros n) ≡ length ys = omega (arith, long, h, length-zeros n) in
    ap (λ t. take (length xs) ys ++ (zeros n ++ drop t ys)) all
    ∙ (ap (λ t. take (length xs) ys ++ (zeros n ++ t)) (drop_all ys)
        ∙ (ap (λ t. take (length xs) ys ++ t) (append-nil (zeros n))
            ∙ (ap (λ t. t ++ zeros n) kept
                ∙ ap (λ t. t ++ zeros n) (sym (take_all size xs (omega (arith, h)))))))

take-resize :
    (xs ys : List ℕ) (size : ℕ)
    → size ≤ length xs
    → length ys ≡ size
    → take size ys ≡ take size xs
    → ys ≡ resize size xs
unfolding resize
take-resize xs ys size h long kept =
    sym (take_all size ys (omega (arith, long)))
    ∙ (kept
        ∙ (sym (append-nil (take size xs))
            ∙ ap (λ t. take size xs ++ zeros t)
                (let e : 0 ≡ size - length xs = omega (arith, h) in e)))

length-resize : (size : ℕ) (xs : List ℕ) → length (resize size xs) ≡ size
unfolding resize
length-resize size xs = omega (
  arith,
  length-append (take size xs) (zeros (size - length xs)),
  length-take size xs,
  length-zeros (size - length xs),
)

-- The bytes that `aio4c_realloc` leaves in the new block.
moved :
    (m : Memory) (p : Pointer) (xs : List ℕ) (size : ℕ) (a : Answer)
    → IsMoved m p xs size a
    → (if ltb (length xs) size
        then store_bytes a.bytes (pos (length xs)) (zeros (size - length xs))
        else ok a.bytes)
      ≡ ok (resize size xs)
moved m p xs size a h = elim (Bool-cases (ltb (length xs) size)) [
  | inl e ↦
      let lt : length xs < size = ground arith in
      let least : min (length xs) size ≡ length xs = omega (arith, lt) in
      let kept : take (length xs) a.bytes ≡ xs =
        subst (λ k. take k a.bytes ≡ take k xs) least h.kept
        ∙ take_all (length xs) xs (omega arith) in
      rw
        (
          e,
          store_bytes-ok a.bytes (length xs) (zeros (size - length xs))
              (omega (arith, lt, h.long, length-zeros (size - length xs))),
        )
        (ap ok (splice-resize xs a.bytes size lt h.long kept))
  | inr e ↦
      let le : size ≤ length xs = ground arith in
      let least : min (length xs) size ≡ size = omega (arith, le) in
      rw e (
        ap ok (
          take-resize xs a.bytes size le h.long
            (subst (λ k. take k a.bytes ≡ take k xs) least h.kept)))
]

abbrev pub Resized :
    Memory → (p : Pointer) (xs : List ℕ) (size : ℕ) (a : Answer) → Option Pointer × Memory → Type 0
Resized m p xs size a (r, m') =
    (r ≡ some a.address)
    × (m' a.address ≡ block (resize size xs))
    × (a.address ≢ p → m' p ≡ none)
    × ((q : Pointer) → q ≢ p → q ≢ a.address → m' q ≡ m q)

-- `aio4c_realloc` of a block in use, where `realloc` succeeds: the bytes of the new block are the old ones, cut off
-- at the new size or followed by zeros up to it, and its size is the number of its bytes. The old block is not in use
-- any more, where the address differs, and all other blocks are as before.
pub aio4c_realloc-Resized :
    (m : Memory) (p : Pointer) (xs : List ℕ) (size : ℕ) (a : Answer)
    → m p ≡ block xs
    → IsMoved m p xs size a
    → Returns (Resized m p xs size a) (aio4c_realloc (some a) (some p) size m)
unfolding aio4c_realloc resize_block
aio4c_realloc-Resized m p xs size a e h = rw e (
    Returns-step (Resized m p xs size a)
      (λ bytes. ok (
        some a.address,
        put a.address (some (record { size = size; bytes = bytes })) (put p none m),
      ))
      (moved m p xs size a h)
      (
        refl,
        put-same a.address (some (record { size = size; bytes = resize size xs })) (put p none m)
            ∙ ap (λ n. some (record { size = n; bytes = resize size xs }))
                (sym (length-resize size xs)),
        λ apart. put-other a.address p _ (put p none m) (λ q. apart (sym q)) ∙ put-same p none m,
        λ q not_p not_a. put-other a.address q _ (put p none m) not_a ∙ put-other p q none m not_p,
      ))

abbrev pub Zeroed : Memory → (size : ℕ) (a : Answer) → Option Pointer × Memory → Type 0
Zeroed m size a (r, m') =
    (r ≡ some a.address)
    × (m' a.address ≡ block (zeros size))
    × ((q : Pointer) → q ≢ a.address → m' q ≡ m q)

-- `aio4c_malloc`, where `malloc` returns a block of the size that was asked for, returns a block that consists
-- of zeros, whatever was in it; its size is the number of its bytes, and all other blocks are as before.
pub aio4c_malloc-Zeroed :
    (m : Memory) (size : ℕ) (a : Answer)
    → length a.bytes ≡ size
    → Returns (Zeroed m size a) (aio4c_malloc (some a) size m)
unfolding aio4c_malloc splice
aio4c_malloc-Zeroed m size a long =
    Returns-step (Zeroed m size a)
      (λ bytes. ok (some a.address, put a.address (some (record { size = size; bytes = bytes })) m))
      (store_bytes-ok a.bytes 0 (zeros size) (omega (arith, long, length-zeros size))
        ∙ ap ok (
            ap (λ n. zeros size ++ drop n a.bytes)
              (let e : 0 + length (zeros size) ≡ length a.bytes =
                  omega (arith, long, length-zeros size) in
                e)
            ∙ (ap (λ t. zeros size ++ t) (drop_all a.bytes) ∙ append-nil (zeros size))))
      (
        refl,
        put-same a.address (some (record { size = size; bytes = zeros size })) m
            ∙ ap (λ n. some (record { size = n; bytes = zeros size })) (sym (length-zeros size)),
        λ q h. put-other a.address q _ m h,
      )

-- After `aio4c_free` of a block in use, the other blocks are as before, and a second `aio4c_free` or
-- `aio4c_realloc` of it does not return.
pub aio4c_free-once :
    (m : Memory) (p : Pointer) (xs : List ℕ)
    → m p ≡ block xs
    → Returns
        (λ (m' : Memory).
          (aio4c_free p m' ≡ fault)
          × ((answer : Option Answer) (size : ℕ) → aio4c_realloc answer (some p) size m' ≡ fault)
          × ((q : Pointer) → q ≢ p → m' q ≡ m q))
        (aio4c_free p m)
unfolding aio4c_free aio4c_realloc resize_block
aio4c_free-once m p xs e = rw e (
  ap (λ b. free_block b p (put p none m)) (put-same p none m),
  λ answer size. ap (λ b. resize_block b answer p size (put p none m)) (put-same p none m),
  λ q h. put-other p q none m h,
)
