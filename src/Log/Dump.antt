-- ===== src/Log/Dump.antt =====
-- `LogBuffer`: the block that it allocates is large enough.
use aio4c.Prelude.{ℕ, ◌≡◌, some, Option, List, ◌++◌, length}
use aio4c.Machine.Defs.{text}
use aio4c.Buffer.{Buffer}
use aio4c.Log.{dump_size}
use aio4c.Log.Rows.{IsDump}
use aio4c.Log.Line.{prefix_of}

-- What the handler gets.
abbrev pub Dumped :
    (name : Option (List ℕ)) (header : List ℕ) (position : ℕ) (xs : List ℕ)
    → Option (List ℕ)
    → Type 0
Dumped name header position xs r =
    (block : List ℕ) × (r ≡ some block)
    × (length block ≡ dump_size (length xs))
    × ((dump : List ℕ) × (text block ≡ prefix_of name ++ (header ++ dump))
        × IsDump position xs dump)
