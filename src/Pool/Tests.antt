-- ===== src/Pool/Tests.antt =====
-- The pool theorems at a pool of buffers of four bytes, at the address 100.
use aio4c.Prelude.{◌≡◌, refl, Bool, true, false, some, [], ◌∷◌, arith}
use aio4c.Prelude.Int.{ℤ, pos}
use aio4c.Machine.Defs.{Returns}
use aio4c.Buffer.Inv.{Fits}
use aio4c.Pool.{Memory, allocate_buffer, release_buffer}
use aio4c.Pool.Inv.{blank, queue_of, Holds}
use aio4c.Pool.Allocate.{Allocated, allocate_buffer-Allocated}
use aio4c.Pool.Release.{Released, release_buffer-Released}

abbrev plenty : Memory → ℤ → Bool
plenty m n = true

abbrev nodes_left : Memory → Bool
nodes_left m = true

all_nodes : (m : Memory) → nodes_left m ≡ true
all_nodes m = refl

abbrev none_made : Memory
none_made = record { cells = λ p. blank 100 4; next = 1 }

-- The buffer at 1 waits, the one at 2 is in use.
abbrev two_made : Memory
two_made = record { cells = λ p. blank 100 4; next = 3 }

two_made-Holds : Holds 100 4 two_made (1 ∷ []) (2 ∷ [])
two_made-Holds = record {
  apart = ((λ e. absurd (omega (arith, e)), tt), (tt, tt));
  below = (omega arith, (omega arith, tt));
  clean = (refl, tt);
}

allocate_buffer-Allocated_example : Returns (Allocated plenty 100 4 16 (2 ∷ [])) (
    allocate_buffer plenty nodes_left
      (pos 40)
      100
      (record { buffers = some (queue_of (1 ∷ []) [] false); batch = 16; buffer_size = pos 4 })
      two_made)
allocate_buffer-Allocated_example =
    allocate_buffer-Allocated plenty nodes_left (pos 40) 100 4 all_nodes (omega arith) 16 two_made
      (1 ∷ []) (2 ∷ []) [] false two_made-Holds

empty-Fits : Fits 4 (0 ∷ 0 ∷ 0 ∷ 0 ∷ 0 ∷ 0 ∷ []) 0 4
empty-Fits = record {
  position_le = omega arith;
  limit_le = omega arith;
  small = omega arith;
  ends = refl;
}

release_buffer-Released_example : Returns (Released 100 4 16 (1 ∷ 2 ∷ []) []) (
    release_buffer nodes_left 2
      (record { buffers = some (queue_of (1 ∷ []) [] false); batch = 16; buffer_size = pos 4 })
      two_made)
release_buffer-Released_example =
    release_buffer-Released nodes_left 100 4 all_nodes (λ e. absurd (omega (arith, e))) 16 two_made
      (1 ∷ []) [] [] 2 [] false two_made-Holds empty-Fits refl
