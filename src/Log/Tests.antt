-- ===== src/Log/Tests.antt =====
-- The log's theorems at a thread "T" and two short texts.
use aio4c.Prelude.{◌≡◌, refl, ℕ, true, false, Option, some, List, [], ◌∷◌, ◌++◌, arith}
use aio4c.Machine.Defs.{fault, Returns, text, zeros, find_nul}
use aio4c.Buffer.{Buffer}
use aio4c.Buffer.Inv.{buffer_of, length-zeros}
use aio4c.Log.{Logger, log, newline}
use aio4c.Log.Text.{NoNul}
use aio4c.Log.Line.{prefix_of, log_lem, log_overruns}

abbrev logger : Logger
logger = record { level = 4; custom = false; has_handler = true }

abbrev name : Option (List ℕ)
name = some (84 ∷ [])

abbrev hello : List ℕ
hello = 104 ∷ 105 ∷ []

-- Two bytes are unread, one of which can be printed.
abbrev buffer : Buffer
buffer = buffer_of 0 4 (9 ∷ 65 ∷ 200 ∷ 0 ∷ 0 ∷ 0 ∷ []) 1 3

name-NoNul : (n : List ℕ) → name ≡ some n → NoNul n
unfolding find_nul
name-NoNul n e = ground (arith, e)

log_lem_example :
    Returns
      (λ (r : Option (List ℕ)).
        (block : List ℕ) × (r ≡ some block) × (text block ≡ prefix_of name ++ (hello ++ newline)))
      (log logger true name 2 hello)
unfolding find_nul
log_lem_example = log_lem logger name 2 hello refl name-NoNul refl (omega arith)

log_overruns_example : log logger true name 2 (zeros 300) ≡ fault
log_overruns_example = log_overruns logger name 2 (zeros 300) refl (omega (arith, length-zeros 300))
