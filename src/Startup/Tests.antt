-- ===== src/Startup/Tests.antt =====
-- Options on a `strtol` and a `strcasecmp` for short texts.
use aio4c.Prelude.{
  ℕ, zero, suc, ap, length-replicate, ◌≡◌, refl, ◌==◌, Bool, true, false, ◌&&◌, some, none, List,
  [], ◌∷◌, replicate, length, arith,
}
use aio4c.Prelude.Int.{ℤ, pos}
use aio4c.Startup.{Text, Settings, defaults, goes_on, parse_arguments}
use aio4c.Startup.Options.{
  Usable, IsDecimal, arguments_of, parse_arguments-Usable, parse_arguments-arguments_of,
}

-- A number in unary: as many codes 49.
abbrev decimal : ℕ → Text
decimal n = replicate n 49

abbrev strtol : Text → ℤ
strtol v = pos (length v)

-- Texts without letters are compared as they are.
abbrev equal : Text → Text → Bool
equal [] [] = true
equal (x ∷ xs) (y ∷ ys) = (x == y) && equal xs ys
equal xs ys = false

no_word : (x : ℕ) (xs : Text) (n : ℕ) → (x == 49) ≡ false → equal (x ∷ xs) (decimal n) ≡ false
no_word x xs zero h = refl
no_word x xs (suc n) h = rw h refl

IsDecimal-decimal : IsDecimal equal strtol decimal
IsDecimal-decimal = record {
  back = λ n h. ap pos (length-replicate n 49);
  not_fatal = λ n. no_word 102 (97 ∷ 116 ∷ 97 ∷ 108 ∷ []) n refl;
  not_error = λ n. no_word 101 (114 ∷ 114 ∷ 111 ∷ 114 ∷ []) n refl;
  not_warn = λ n. no_word 119 (97 ∷ 114 ∷ 110 ∷ []) n refl;
  not_info = λ n. no_word 105 (110 ∷ 102 ∷ 111 ∷ []) n refl;
  not_debug = λ n. no_word 100 (101 ∷ 98 ∷ 117 ∷ 103 ∷ []) n refl;
}

abbrev settings : Settings
settings = record {
  log_file = some (97 ∷ []);
  log_level = 3;
  stats_output_file = none;
  stats_interval = 2;
  stats_periodic = true;
}

parse_arguments-arguments_of_example :
    parse_arguments equal strtol (arguments_of decimal settings) defaults ≡ goes_on settings
parse_arguments-arguments_of_example =
    parse_arguments-arguments_of equal strtol decimal IsDecimal-decimal settings
      (record { level = omega arith; interval = omega arith })

-- An argument that is no option, a level that is too large, and -Se.
abbrev texts : List Text
texts = (97 ∷ []) ∷ (45 ∷ 76 ∷ 108 ∷ []) ∷ decimal 9 ∷ (45 ∷ 83 ∷ 101 ∷ []) ∷ []

parse_arguments-Usable_example : Usable (parse_arguments equal strtol texts defaults)
parse_arguments-Usable_example =
    parse_arguments-Usable equal strtol texts defaults
      (record { level = omega arith; interval = omega arith })
