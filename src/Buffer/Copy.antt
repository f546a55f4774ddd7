-- ===== src/Buffer/Copy.antt =====
-- `BufferCopy`: the unread bytes of one buffer become the contents of another.
use aio4c.Prelude.{
  ℕ, ◌+◌, ◌-◌, ◌≤◌, ◌<◌, ◌≡◌, refl, ap, ◌∙◌, false, List, length, take, drop, arith, ltb,
}
use aio4c.Prelude.Int.{pos, ◌≤ℤ◌}
use aio4c.Machine.Defs.{ok, fault, Returns, splice, zeros}
use aio4c.Machine.Laws.{
  store_bytes-ok, store_bytes-fault, load_bytes-ok, sub_int-ok, take_end-splice,
}
use aio4c.Buffer.{Buffer, buffer_copy, buffer_limit}
use aio4c.Buffer.Inv.{
  buffer_of, Fits, IsValid, valid, length_bytes, length-zeros, Fits-splice, buffer_reset-eq,
}
use aio4c.Buffer.Text.{remaining_bytes, length_unread}

take-eq : (m n : ℕ) (xs : List ℕ) → m ≡ n → take m xs ≡ take n xs
take-eq m n xs e = ap (λ k. take k xs) e

module _ (pool size : ℕ) {position limit : ℕ} {bytes : List ℕ}
    (f : Fits size bytes position limit) where
  cleared : Fits size (splice 0 (zeros size) bytes) 0 size
  cleared =
      Fits-splice f 0 (zeros size) 0 size (omega (arith, length-zeros size)) (omega arith)
        (omega arith)

module _ (pool pool' : ℕ) {size position limit size' position' limit' : ℕ} {bytes bytes' : List ℕ}
    (f : Fits size bytes position limit) (g : Fits size' bytes' position' limit') where
  buffer_copy-ok :
      limit' - position' ≤ size
      → buffer_copy
          (buffer_of pool size bytes position limit)
          (buffer_of pool' size' bytes' position' limit')
        ≡ ok (
            buffer_of pool size
              (splice 0
                (take (limit' - position') (drop position' bytes'))
                (splice 0 (zeros size) bytes))
              0
              (limit' - position'))
  unfolding buffer_copy buffer_limit
  buffer_copy-ok h =
      let fits : ltb size (limit' - position') ≡ false = ground arith in
      rw (
        buffer_reset-eq f,
        sub_int-ok limit' position' g.position_le (omega (arith, g.limit_le, g.small)),
        load_bytes-ok bytes' position' (limit' - position')
            (omega (arith, g.limit_le, length_bytes g)),
        store_bytes-ok (splice 0 (zeros size) bytes) 0
            (take (limit' - position') (drop position' bytes'))
            (omega (arith, length_unread g, length_bytes (cleared pool size f))),
        fits,
      )

  buffer_copy-fault :
      size + 2 < limit' - position'
      → buffer_copy
          (buffer_of pool size bytes position limit)
          (buffer_of pool' size' bytes' position' limit')
        ≡ fault
  unfolding buffer_copy buffer_limit
  buffer_copy-fault h = rw (
    buffer_reset-eq f,
    sub_int-ok limit' position' g.position_le (omega (arith, g.limit_le, g.small)),
    load_bytes-ok bytes' position' (limit' - position') (omega (arith, g.limit_le, length_bytes g)),
    store_bytes-fault (splice 0 (zeros size) bytes) 0
        (take (limit' - position') (drop position' bytes'))
        (omega (arith, length_unread g, length_bytes (cleared pool size f))),
  )

-- Where the unread bytes of a valid source fit into the capacity of a valid destination, the copy
-- succeeds: the destination then holds exactly those bytes between its position 0 and its limit, and
-- is valid.
pub buffer_copy_lem :
    {dst src : Buffer}
    → IsValid dst
    → IsValid src
    → pos (length (remaining_bytes src)) ≤ℤ dst.size
    → Returns
        (λ b. IsValid b × (remaining_bytes b ≡ remaining_bytes src) × (b.position ≡ pos 0))
        (buffer_copy dst src)
buffer_copy_lem (valid {pool} {size} {bytes} f)
      (valid {pool = pool'} {position = position'} {limit = limit'} {bytes = bytes'} g) h =
    let n = length_unread g in
    let room = cleared pool size f in
    let xs = take (limit' - position') (drop position' bytes') in
    let blank = splice 0 (zeros size) bytes in
    let contents : take (limit' - position' - 0) (splice 0 xs blank) ≡ xs =
      take-eq (limit' - position' - 0) (0 + length xs) (splice 0 xs blank) (omega (arith, n))
      ∙ take_end-splice 0 xs blank (omega (arith, n, h, length_bytes room)) in
    rw (buffer_copy-ok pool pool' f g (omega (arith, n, h))) (
      valid (
          Fits-splice room 0 xs 0 (limit' - position') (omega (arith, n, h)) (omega arith)
            (omega (arith, n, h))),
      contents,
      refl,
    )

-- `BufferCopy` does not compare the sizes: where a valid source holds more unread bytes than the whole
-- block of a valid destination, its two spare bytes included, it writes past the end.
pub buffer_copy_overruns :
    {dst src : Buffer}
    → IsValid dst
    → IsValid src
    → length dst.bytes < length (remaining_bytes src)
    → buffer_copy dst src ≡ fault
buffer_copy_overruns (valid {pool} {size} f) (valid {pool = pool'} g) h =
    buffer_copy-fault pool pool' f g (omega (arith, length_unread g, length_bytes f, h))
