-- ===== src/Startup.antt =====
-- src/aio4c.c: the options that a program passes on to the library. A text is the list of its codes. The section's parameters are
-- `strcasecmp`, whether it returns 0, and `strtol` with the base 10.
pub mod Options
mod Tests
use aio4c.Prelude.{
  ℕ, zero, suc, ◌==◌, ltb, Bool, true, false, Option, some, none, List, [], ◌∷◌, if◌then◌else◌,
}
use aio4c.Prelude.Int.{ℤ, pos, negsuc}
use aio4c.Machine.Defs.{int_max}

abbrev pub Text : Type 0
Text = List ℕ

-- `AIO4C_LOG_FILE`, `AIO4C_LOG_LEVEL`, `AIO4C_STATS_OUTPUT_FILE`, `AIO4C_STATS_INTERVAL` and `AIO4C_STATS_ENABLE_PERIODIC_OUTPUT`.
pub record Settings : Type 0 where
  pub log_file : Option Text
  pub log_level : ℕ
  pub stats_output_file : Option Text
  pub stats_interval : ℕ
  pub stats_periodic : Bool

-- Their values before the options are read.
abbrev pub defaults : Settings
defaults = record {
  log_file = none;
  log_level = 0;
  stats_output_file = none;
  stats_interval = 0;
  stats_periodic = false;
}

-- `AIO4C_LOG_LEVEL_MAX`.
abbrev pub log_level_max : ℕ
log_level_max = 5

abbrev pub fatal : Text
fatal = 102 ∷ 97 ∷ 116 ∷ 97 ∷ 108 ∷ []

abbrev pub error : Text
error = 101 ∷ 114 ∷ 114 ∷ 111 ∷ 114 ∷ []

abbrev pub warn : Text
warn = 119 ∷ 97 ∷ 114 ∷ 110 ∷ []

abbrev pub info : Text
info = 105 ∷ 110 ∷ 102 ∷ 111 ∷ []

abbrev pub debug : Text
debug = 100 ∷ 101 ∷ 98 ∷ 117 ∷ 103 ∷ []

-- What an argument is: an option that takes the next argument, -Se, -Ah, or none.
pub data Valued : Type 0 where
  log_file log_level stats_file stats_interval : Valued

pub data Argument : Type 0 where
  takes : Valued → Argument
  periodic help ignored : Argument

-- The code at an index, which is 0 at the end of the text.
unfoldable pub code_at : ℕ → Text → ℕ
code_at i [] = 0
code_at zero (x ∷ xs) = x
code_at (suc i) (x ∷ xs) = code_at i xs

-- The three switches, which look at the first three codes only.
unfoldable pub log_argument : ℕ → Argument
log_argument c =
    if c == 111 then takes Valued.log_file else if c == 108 then takes Valued.log_level else ignored

unfoldable pub stats_argument : ℕ → Argument
stats_argument c =
    if c == 111
    then takes Valued.stats_file
    else if c == 105
    then takes Valued.stats_interval
    else if c == 101
    then periodic
    else ignored

unfoldable pub argument : Text → Argument
argument a =
    if code_at 0 a == 45
    then (if code_at 1 a == 76
        then log_argument (code_at 2 a)
        else if code_at 1 a == 83
        then stats_argument (code_at 2 a)
        else if code_at 1 a == 65
        then (if code_at 2 a == 104 then help else ignored)
        else ignored)
    else ignored

-- A number below a limit replaces what was set.
abbrev pub set_below : (limit : ℕ) → ℤ → ℕ → ℕ
set_below limit (pos n) old = if ltb n limit then n else old
set_below limit (negsuc n) old = old

-- What becomes of the program.
pub data Parsed : Type 0 where
  goes_on : Settings → Parsed
  exits : Parsed

module _ (strcasecmp : Text → Text → Bool) (strtol : Text → ℤ) where
  -- The case `l` of the option -L.
  unfoldable pub level_of : Text → (old : ℕ) → ℕ
  level_of v old =
      if strcasecmp fatal v
      then 0
      else if strcasecmp error v
      then 1
      else if strcasecmp warn v
      then 2
      else if strcasecmp info v
      then 3
      else if strcasecmp debug v
      then 4
      else set_below log_level_max (strtol v) old

  unfoldable pub set_value : Valued → Text → Settings → Settings
  set_value Valued.log_file v s = record s { log_file = some v }
  set_value Valued.log_level v s = record s { log_level = level_of v s.log_level }
  set_value Valued.stats_file v s = record s { stats_output_file = some v }
  set_value Valued.stats_interval v s = record s {
    stats_interval = set_below int_max (strtol v) s.stats_interval;
  }

  -- `_ParseArguments`, for the arguments behind the name of the program.
  unfoldable pub parse_arguments : List Text → Settings → Parsed
  parse_arguments [] s = goes_on s
  parse_arguments (a ∷ []) s = elim (argument a) [
    | takes o ↦ goes_on s
    | periodic ↦ goes_on (record s { stats_periodic = true })
    | help ↦ exits
    | ignored ↦ goes_on s
  ]
  parse_arguments (a ∷ v ∷ rest) s = elim (argument a) [
    | takes o ↦ parse_arguments rest (set_value o v s)
    | periodic ↦ parse_arguments (v ∷ rest) (record s { stats_periodic = true })
    | help ↦ exits
    | ignored ↦ parse_arguments (v ∷ rest) s
  ]
