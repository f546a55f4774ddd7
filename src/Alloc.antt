-- ===== src/Alloc.antt =====
-- src/alloc.c: `malloc`, `realloc` and `free` with the size of each block in front of it. What the C library's
-- functions return is a parameter; a block is known by the address that `aio4c_malloc` returns, behind its
-- size. Left out: probes, and negative sizes.
pub mod Resize
mod Tests
use aio4c.Prelude.{
  ℕ, ◌+◌, ◌-◌, ◌≤◌, ◌≡◌, ◌==◌, ltb, Option, none, some, List, length, take, min, if◌then◌else◌,
}
use aio4c.Prelude.Int.{pos}
use aio4c.Machine.Defs.{Run, ok, fault, ◌>>=◌, zeros, store_bytes}
use aio4c.Event.{Pointer}

-- A block that is in use.
pub record Block : Type 0 where
  pub size : ℕ
  pub bytes : List ℕ

-- The blocks in use. The size in front of a block that was freed is -1.
abbrev pub Memory : Type 0
Memory = Pointer → Option Block

abbrev pub put : Pointer → Option Block → Memory → Memory
put p b m q = if q == p then b else m q

-- The block that the C library returns, with the bytes behind the size.
pub record Answer : Type 0 where
  pub address : Pointer
  pub bytes : List ℕ

unfoldable pub aio4c_malloc : Option Answer → (size : ℕ) → Memory → Run (Option Pointer × Memory)
aio4c_malloc none size m = ok (none, m)
aio4c_malloc (some a) size m = store_bytes a.bytes (pos 0) (zeros size) >>= λ bytes.
    ok (some a.address, put a.address (some (record { size = size; bytes = bytes })) m)

-- `aio4c_realloc` on a block. A block that was freed has no size: that aborts where -1 is still there.
unfoldable pub resize_block :
    Option Block → Option Answer → (p : Pointer) (size : ℕ) → Memory → Run (Option Pointer × Memory)
resize_block none answer p size m = fault
resize_block (some b) none p size m = ok (none, m)
resize_block (some b) (some a) p size m =
    (if ltb b.size size
      then store_bytes a.bytes (pos b.size) (zeros (size - b.size))
      else ok a.bytes)
    >>= λ bytes. ok (
      some a.address,
      put a.address (some (record { size = size; bytes = bytes })) (put p none m),
    )

unfoldable pub aio4c_realloc :
    Option Answer → Option Pointer → (size : ℕ) → Memory → Run (Option Pointer × Memory)
aio4c_realloc answer none size m = aio4c_malloc answer size m
aio4c_realloc answer (some p) size m = resize_block (m p) answer p size m

abbrev pub free_block : Option Block → Pointer → Memory → Run Memory
free_block none p m = fault
free_block (some b) p m = ok (put p none m)

unfoldable pub aio4c_free : Pointer → Memory → Run Memory
aio4c_free p m = free_block (m p) p m
