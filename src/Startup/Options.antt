-- ===== src/Startup/Options.antt =====
-- What the options come to.
use aio4c.Prelude.{
  ℕ, ◌<◌, ◌≡◌, refl, ap, ◌∙◌, Bool, true, false, Option, some, none, List, [], ◌∷◌, ◌++◌, arith,
}
use aio4c.Prelude.Int.{ℤ, pos, negsuc}
use aio4c.Machine.Defs.{int_max}
use aio4c.Startup.{
  Text, Settings, defaults, log_level_max, fatal, error, warn, info, debug, Valued, takes, periodic,
  help, ignored, code_at, log_argument, stats_argument, argument, set_below, Parsed, goes_on, exits,
  level_of, set_value, parse_arguments,
}

-- Settings that the rest of the library can use: the level is one, and the interval fits in an `int`.
pub record IsUsable (s : Settings) : Type 0 where
  pub level : s.log_level < log_level_max
  pub interval : s.stats_interval < int_max

abbrev pub Usable : Parsed → Type 0
Usable (goes_on s) = IsUsable s
Usable exits = Unit {0}

set_below-lt : (limit old : ℕ) (v : ℤ) → old < limit → set_below limit v old < limit
set_below-lt limit old (pos n) h = ground (arith, h)
set_below-lt limit old (negsuc n) h = h

module _ (strcasecmp : Text → Text → Bool) (strtol : Text → ℤ) where
  level_of-lt :
      (v : Text) (old : ℕ) → old < log_level_max → level_of strcasecmp strtol v old < log_level_max
  unfolding level_of
  level_of-lt v old h = ground (arith, set_below-lt log_level_max old (strtol v) h)

  set_value-IsUsable :
      (o : Valued) (v : Text) (s : Settings)
      → IsUsable s
      → IsUsable (set_value strcasecmp strtol o v s)
  unfolding set_value
  set_value-IsUsable Valued.log_file v s u = record { level = u.level; interval = u.interval }
  set_value-IsUsable Valued.log_level v s u = record {
    level = level_of-lt v s.log_level u.level;
    interval = u.interval;
  }
  set_value-IsUsable Valued.stats_file v s u = record { level = u.level; interval = u.interval }
  set_value-IsUsable Valued.stats_interval v s u = record {
    level = u.level;
    interval = set_below-lt int_max s.stats_interval (strtol v) u.interval;
  }

  -- Whatever the arguments are, and whatever `strtol` makes of them: where the program goes on, the level of the log is one of the
  -- five, and the interval of the statistics is less than the largest `int`.
  pub parse_arguments-Usable :
      (xs : List Text) (s : Settings) → IsUsable s → Usable (parse_arguments strcasecmp strtol xs s)
  unfolding parse_arguments
  parse_arguments-Usable [] s u = u
  parse_arguments-Usable (a ∷ []) s u =
      elim (argument a)
        as (λ r. Usable (elim r as (λ _. Parsed) [
          | takes o ↦ goes_on s
          | periodic ↦ goes_on (record s { stats_periodic = true })
          | help ↦ exits
          | ignored ↦ goes_on s
        ])) [
          | takes o ↦ u
          | periodic ↦ record { level = u.level; interval = u.interval }
          | help ↦ tt
          | ignored ↦ u
        ]
  parse_arguments-Usable (a ∷ v ∷ rest) s u =
      elim (argument a)
        as (λ r. Usable (elim r as (λ _. Parsed) [
          | takes o ↦ parse_arguments strcasecmp strtol rest (set_value strcasecmp strtol o v s)
          | periodic ↦
              parse_arguments strcasecmp strtol (v ∷ rest) (record s { stats_periodic = true })
          | help ↦ exits
          | ignored ↦ parse_arguments strcasecmp strtol (v ∷ rest) s
        ])) [
          | takes o ↦
              parse_arguments-Usable rest (set_value strcasecmp strtol o v s)
                (set_value-IsUsable o v s u)
          | periodic ↦
              parse_arguments-Usable (v ∷ rest) (record s { stats_periodic = true })
                (record { level = u.level; interval = u.interval })
          | help ↦ tt
          | ignored ↦ parse_arguments-Usable (v ∷ rest) s u
        ]

-- The options that stand for settings; `decimal` prints a number.
abbrev pub option_of : (letters value : Text) → List Text
option_of letters value = (45 ∷ letters) ∷ value ∷ []

abbrev pub optional : (letters : Text) → Option Text → List Text
optional letters none = []
optional letters (some value) = option_of letters value

abbrev pub flag : Bool → List Text
flag true = (45 ∷ 83 ∷ 101 ∷ []) ∷ []
flag false = []

abbrev pub arguments_of : (decimal : ℕ → Text) → Settings → List Text
arguments_of decimal s =
    option_of (76 ∷ 108 ∷ []) (decimal s.log_level)
    ++ (option_of (83 ∷ 105 ∷ []) (decimal s.stats_interval)
        ++ (optional (76 ∷ 111 ∷ []) s.log_file
            ++ (optional (83 ∷ 111 ∷ []) s.stats_output_file ++ flag s.stats_periodic)))

-- How a number below the largest `int` is printed: `strtol` reads it back, and it is not the name of a level.
pub record IsDecimal (strcasecmp : Text → Text → Bool) (strtol : Text → ℤ) (decimal : ℕ → Text)
    : Type 0 where
  pub back : (n : ℕ) → n < int_max → strtol (decimal n) ≡ pos n
  pub not_fatal : (n : ℕ) → strcasecmp fatal (decimal n) ≡ false
  pub not_error : (n : ℕ) → strcasecmp error (decimal n) ≡ false
  pub not_warn : (n : ℕ) → strcasecmp warn (decimal n) ≡ false
  pub not_info : (n : ℕ) → strcasecmp info (decimal n) ≡ false
  pub not_debug : (n : ℕ) → strcasecmp debug (decimal n) ≡ false

module _ (strcasecmp : Text → Text → Bool) (strtol : Text → ℤ) where
  parse-takes :
      (a v : Text) (rest : List Text) (s : Settings) (o : Valued)
      → argument a ≡ takes o
      → parse_arguments strcasecmp strtol (a ∷ v ∷ rest) s
        ≡ parse_arguments strcasecmp strtol rest (set_value strcasecmp strtol o v s)
  unfolding parse_arguments
  parse-takes a v rest s o e = rw (e, parse_arguments) refl

  parse-log_file :
      (file : Option Text) (rest : List Text) (s : Settings)
      → s.log_file ≡ none
      → parse_arguments strcasecmp strtol (optional (76 ∷ 111 ∷ []) file ++ rest) s
        ≡ parse_arguments strcasecmp strtol rest (record s { log_file = file })
  unfolding argument code_at log_argument set_value
  parse-log_file none rest s h =
      ap (λ (f : Option Text). parse_arguments strcasecmp strtol rest (record s { log_file = f })) h
  parse-log_file (some v) rest s h = parse-takes _ v rest s Valued.log_file refl

  parse-stats_file :
      (file : Option Text) (rest : List Text) (s : Settings)
      → s.stats_output_file ≡ none
      → parse_arguments strcasecmp strtol (optional (83 ∷ 111 ∷ []) file ++ rest) s
        ≡ parse_arguments strcasecmp strtol rest (record s { stats_output_file = file })
  unfolding argument code_at stats_argument set_value
  parse-stats_file none rest s h =
      ap
        (λ (f : Option Text).
          parse_arguments strcasecmp strtol rest (record s { stats_output_file = f }))
        h
  parse-stats_file (some v) rest s h = parse-takes _ v rest s Valued.stats_file refl

  parse-flag :
      (b : Bool) (s : Settings)
      → s.stats_periodic ≡ false
      → parse_arguments strcasecmp strtol (flag b) s ≡ goes_on (record s { stats_periodic = b })
  unfolding parse_arguments argument code_at stats_argument
  parse-flag true s h = refl
  parse-flag false s h = ap (λ (b : Bool). goes_on (record s { stats_periodic = b })) h

  module _ (decimal : ℕ → Text) (d : IsDecimal strcasecmp strtol decimal) where
    level_of-decimal :
        (n old : ℕ) → n < log_level_max → level_of strcasecmp strtol (decimal n) old ≡ n
    unfolding level_of
    level_of-decimal n old h =
        rw
          (
            d.not_fatal n,
            d.not_error n,
            d.not_warn n,
            d.not_info n,
            d.not_debug n,
            d.back n (omega (arith, h)),
          )
          (ground (arith, h))

    interval-decimal : (n old : ℕ) → n < int_max → set_below int_max (strtol (decimal n)) old ≡ n
    interval-decimal n old h = rw (d.back n h) (ground (arith, h))

    -- Where `strtol` reads back what is printed of a number below the largest `int`, and that is not the name of a level: any settings with
    -- a level and an interval that are valid can be given as arguments, and `_ParseArguments` reads them back.
    pub parse_arguments-arguments_of :
        (s : Settings)
        → IsUsable s
        → parse_arguments strcasecmp strtol (arguments_of decimal s) defaults ≡ goes_on s
    unfolding argument code_at log_argument stats_argument set_value
    parse_arguments-arguments_of s u =
        let rest = optional (83 ∷ 111 ∷ []) s.stats_output_file ++ flag s.stats_periodic in
        let later = optional (76 ∷ 111 ∷ []) s.log_file ++ rest in
        parse-takes _ (decimal s.log_level)
          (option_of (83 ∷ 105 ∷ []) (decimal s.stats_interval) ++ later) defaults Valued.log_level
          refl
        ∙ (ap
              (λ (n : ℕ).
                parse_arguments strcasecmp strtol
                  (option_of (83 ∷ 105 ∷ []) (decimal s.stats_interval) ++ later)
                  (record defaults { log_level = n }))
              (level_of-decimal s.log_level 0 u.level)
            ∙ (parse-takes _ (decimal s.stats_interval) later
                  (record defaults { log_level = s.log_level }) Valued.stats_interval refl
                ∙ (ap
                      (λ (n : ℕ).
                        parse_arguments strcasecmp strtol later
                          (record defaults { log_level = s.log_level; stats_interval = n }))
                      (interval-decimal s.stats_interval 0 u.interval)
                    ∙ (parse-log_file s.log_file rest _ refl
                        ∙ (parse-stats_file s.stats_output_file (flag s.stats_periodic) _ refl
                            ∙ parse-flag s.stats_periodic _ refl)))))
