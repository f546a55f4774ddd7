-- ===== src/Buffer.antt =====
-- src/buffer.c: byte buffers with a position and a limit. `out` parameters and changed buffers are
-- returned; a C `NULL` or `false` result is the first component.
pub mod Inv
pub mod Access
pub mod Text
pub mod Reset
pub mod PutText
pub mod Copy
pub mod Safety
mod Tests
use aio4c.Prelude.{
  ℕ, suc, ◌+◌, ◌-◌, Bool, true, false, Option, none, some, List, [], ◌∷◌, ◌++◌, length, take, drop,
  leb, ltb, if◌then◌else◌,
}
use aio4c.Prelude.Int.{ℤ, pos, pos_part, ltb_ℤ}
use aio4c.Machine.Defs.{
  Run, ok, fault, ◌>>=◌, add_int, sub_int, zeros, load_bytes, store_bytes, text, strlen_at,
  memchr_nul,
}

-- `struct s_Buffer`; `pool` is the address of the pool, 0 for `NULL`, and `bytes` is the block at
-- `data`.
pub record Buffer : Type 0 where
  pub pool : ℕ
  pub size : ℤ
  pub bytes : List ℕ
  pub position : ℤ
  pub limit : ℤ

-- `malloc size` says whether `aio4c_malloc(size)` succeeds; it returns zeroed memory.
unfoldable pub new_buffer : (malloc : ℤ → Bool) (sizeof_buffer size : ℤ) → Run (Option Buffer)
new_buffer malloc sizeof_buffer size =
    if malloc sizeof_buffer
    then (do
      bytes ← add_int size (pos 2)
      ok (
          if malloc bytes
          then some (record {
            pool = 0;
            size = size;
            bytes = zeros (pos_part bytes);
            position = pos 0;
            limit = size;
          })
          else none))
    else ok none

unfoldable pub buffer_flip : Buffer → Buffer
buffer_flip b = record b { limit = b.position; position = pos 0 }

unfoldable pub buffer_position : Buffer → ℤ → Bool × Buffer
buffer_position b position =
    if ltb_ℤ b.limit position then (false, b) else (true, record b { position = position })

unfoldable pub buffer_limit : Buffer → ℤ → Bool × Buffer
buffer_limit b limit = if ltb_ℤ b.size limit then (false, b) else (true, record b { limit = limit })

-- `memset(data, 0, size)`, with a negative size converted to a huge one.
unfoldable pub buffer_reset : Buffer → Run Buffer
buffer_reset b = if ltb_ℤ b.size (pos 0) then fault else do
  bytes ← store_bytes b.bytes (pos 0) (zeros (pos_part b.size))
  ok (record b { bytes = bytes; position = pos 0; limit = b.size })

-- The two buffers are distinct objects.
unfoldable pub buffer_copy : (dst src : Buffer) → Run Buffer
buffer_copy dst src = do
  dst ← buffer_reset dst
  n ← sub_int src.limit src.position
  xs ← load_bytes src.bytes src.position n
  bytes ← store_bytes dst.bytes (pos 0) xs
  ok (buffer_limit (record dst { bytes = bytes }) n).1

unfoldable pub buffer_has_remaining : Buffer → Bool
buffer_has_remaining b = ltb_ℤ b.position b.limit

-- `none` is the underflow error; `some xs` are the bytes written to `out`.
unfoldable pub buffer_get : Buffer → ℤ → Run (Option (List ℕ) × Buffer)
buffer_get b size = do
  end ← add_int b.position size
  if ltb_ℤ b.limit end
      then ok (none, b)
      else do xs ← load_bytes b.bytes b.position size; ok (some xs, record b { position = end })

-- What `*out` points at: the C string in `bytes` from an index on.
unfoldable pub c_string : List ℕ → ℤ → List ℕ
c_string bytes i = text (drop (pos_part i) bytes)

-- Where no 0 stands before the limit, two are written at it.
unfoldable pub buffer_get_string : Buffer → Run (List ℕ × Buffer)
buffer_get_string b = do
  k ← strlen_at b.bytes b.position
  len ← add_int (pos k) (pos 1)
  remaining ← sub_int b.limit b.position
  if ltb_ℤ remaining len
      then (do
        bytes ← store_bytes b.bytes b.limit (0 ∷ [])
        next ← add_int b.limit (pos 1)
        bytes ← store_bytes bytes next (0 ∷ [])
        end ← add_int b.position remaining
        ok (c_string bytes b.position, record b { bytes = bytes; position = end }))
      else (do
        end ← add_int b.position len
        ok (c_string b.bytes b.position, record b { position = end }))

-- `false` is the overflow error. `xs` is the block at `in`, of which `size` bytes are read.
unfoldable pub buffer_put : Buffer → List ℕ → ℤ → Run (Bool × Buffer)
buffer_put b xs size = do
  end ← add_int b.position size
  if ltb_ℤ b.limit end then ok (false, b) else do
    ys ← load_bytes xs (pos 0) size
    bytes ← store_bytes b.bytes b.position ys
    ok (true, record b { bytes = bytes; position = end })

unfoldable pub buffer_put_string : Buffer → List ℕ → Run (Bool × Buffer)
buffer_put_string b xs = do
  remaining ← sub_int b.limit b.position
  found ← memchr_nul xs remaining
  if found
      then (do
        k ← strlen_at xs (pos 0)
        let len = pos (suc k)
        ys ← load_bytes xs (pos 0) len
        bytes ← store_bytes b.bytes b.position ys
        end ← add_int b.position len
        ok (true, record b { bytes = bytes; position = end }))
      else ok (false, b)

unfoldable pub buffer_remaining : Buffer → Run ℤ
buffer_remaining b = sub_int b.limit b.position
