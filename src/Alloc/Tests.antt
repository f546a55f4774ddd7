-- ===== src/Alloc/Tests.antt =====
-- The allocation theorems at a block of two bytes.
use aio4c.Prelude.{refl, none, some, [], ◌∷◌}
use aio4c.Machine.Defs.{Returns}
use aio4c.Alloc.{Memory, Answer, put, aio4c_realloc}
use aio4c.Alloc.Resize.{block, Resized, aio4c_realloc-Resized}

abbrev memory : Memory
memory = put 100 (block (7 ∷ 8 ∷ [])) (λ q. none)

abbrev larger : Answer
larger = record { address = 200; bytes = 7 ∷ 8 ∷ 91 ∷ 92 ∷ [] }

aio4c_realloc-Resized_example :
    Returns
      (Resized memory 100 (7 ∷ 8 ∷ []) 4 larger)
      (aio4c_realloc (some larger) (some 100) 4 memory)
aio4c_realloc-Resized_example =
    aio4c_realloc-Resized memory 100 (7 ∷ 8 ∷ []) 4 larger refl
      (record { long = refl; kept = refl; apart = λ h. refl })
