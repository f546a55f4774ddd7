-- ===== src/Log.antt =====
-- src/log.c: the lines that are logged. A message is the text that `vsnprintf` makes of a format and its arguments;
-- `vsnprintf` is taken to succeed. `malloc` says whether the block for a line can be allocated.
pub mod Text
pub mod Line
pub mod Rows
pub mod Dump
mod Tests
use aio4c.Prelude.{
  ℕ, zero, suc, ◌+◌, ◌-◌, ◌*◌, ◌/◌, ◌%◌, ◌==◌, leb, ltb, Bool, true, false, not, ◌&&◌, ◌||◌, Option,
  none, some, List, [], ◌∷◌, ◌++◌, length, take, drop, if◌then◌else◌,
}
use aio4c.Prelude.Int.{pos, pos_part}
use aio4c.Machine.Defs.{Run, ok, fault, ◌>>=◌, int_max, zeros, sub_int, load_bytes, store_bytes}
use aio4c.Buffer.{Buffer}

-- `AIO4C_LOG_MESSAGE_SIZE` and `AIO4C_LOG_BUFFER_SIZE`.
abbrev pub message_size : ℕ
message_size = 288

abbrev pub row_size : ℕ
row_size = 77

-- What `vsnprintf(_, n, ...)` writes of a text. A size that was negative is a `size_t` larger than any text.
abbrev pub printed : (len p : ℕ) → List ℕ → List ℕ
printed len p text =
    if ltb len p then text ++ 0 ∷ [] else if len == p then [] else take (len - p - 1) text ++ 0 ∷ []

-- `_logsnprintf`: the block and the position behind the text, which counts what did not fit too.
unfoldable pub logsnprintf : List ℕ × ℕ → (len : ℕ) → (text : List ℕ) → Run (List ℕ × ℕ)
logsnprintf (block, p) len text = store_bytes block (pos p) (printed len p text) >>= λ block'.
    if leb (p + length text) int_max then ok (block', p + length text) else fault

-- Calls one after the other.
unfoldable pub logsnprintf_all : List ℕ × ℕ → (len : ℕ) → List (List ℕ) → Run (List ℕ × ℕ)
logsnprintf_all s len [] = ok s
logsnprintf_all s len (t ∷ ts) = logsnprintf s len t >>= λ s'. logsnprintf_all s' len ts

-- `": "`, which follows the name of the thread.
abbrev pub colon : List ℕ
colon = 58 ∷ 32 ∷ []

abbrev pub newline : List ℕ
newline = 10 ∷ []

-- `_logprefix`, with the name of the thread that logs, if it has one.
unfoldable pub logprefix : (name : Option (List ℕ)) → List ℕ × ℕ → Run (List ℕ × ℕ)
logprefix none s = ok s
logprefix (some name) s = logsnprintf s message_size (name ++ colon)

-- The part of `Logger` that decides whether a message is logged.
pub record Logger : Type 0 where
  pub level : ℕ
  pub custom : Bool
  pub has_handler : Bool

abbrev pub is_logged : Logger → (level : ℕ) → Bool
is_logged logger level =
    not ((not logger.custom && ltb logger.level level) || not logger.has_handler)

-- `Log`: the block that the handler gets, if any. Without memory, it takes the address of an element of `NULL`.
unfoldable pub log :
    Logger
    → (malloc : Bool) (name : Option (List ℕ)) (level : ℕ) (message : List ℕ)
    → Run (Option (List ℕ))
log logger malloc name level message =
    if not (is_logged logger level) then ok none else if not malloc then fault else do
      s ← logprefix name (zeros message_size, 0)
      s ← logsnprintf s message_size message
      (block, p) ← logsnprintf s message_size newline
      ok (some block)

-- The last `n` hexadecimal digits of a number, as `%02x` and `%08x` print one that has no more.
abbrev pub digit : ℕ → ℕ
digit d = if ltb d 10 then 48 + d else 87 + d

unfoldable pub hex : ℕ → ℕ → List ℕ
hex zero x = []
hex (suc n) x = hex n (x / 16) ++ digit (x % 16) ∷ []

-- `"0x%08x: "`.
abbrev pub offset_text : ℕ → List ℕ
offset_text i = 48 ∷ 120 ∷ (hex 8 i ++ colon)

-- The two inner loops of `LogBuffer`, for `n` more columns: `"%02x "` or three blanks, then one character each.
unfoldable pub hex_columns : ℕ → List ℕ → List (List ℕ)
hex_columns zero xs = []
hex_columns (suc n) [] = (32 ∷ 32 ∷ 32 ∷ []) ∷ hex_columns n []
hex_columns (suc n) (x ∷ xs) = (hex 2 x ++ 32 ∷ []) ∷ hex_columns n xs

abbrev pub isprint : ℕ → Bool
isprint c = leb 32 c && leb c 126

unfoldable pub char_columns : ℕ → List ℕ → List (List ℕ)
char_columns zero xs = []
char_columns (suc n) [] = []
char_columns (suc n) (x ∷ xs) = ((if isprint x then x else 46) ∷ []) ∷ char_columns n xs

-- One round of the outer loop, for the bytes `xs` from the index `i` on.
unfoldable pub row : ℕ → List ℕ → List (List ℕ)
row i xs = offset_text i ∷ (hex_columns 16 xs ++ (char_columns 16 xs ++ newline ∷ []))

-- The outer loop, for at most `n` rounds.
unfoldable pub rows : (n i : ℕ) → List ℕ → List (List ℕ)
rows zero i xs = []
rows (suc n) i [] = []
rows (suc n) i (x ∷ xs) = row i (x ∷ xs) ++ rows n (i + 16) (drop 16 (x ∷ xs))

-- The size of the block for `n` bytes.
abbrev pub dump_size : ℕ → ℕ
dump_size n = row_size * n / 16 + ((if n % 16 == 0 then 0 else row_size) + message_size)

-- `LogBuffer` of a buffer whose position is not behind its limit; `header` is the first line.
unfoldable pub log_bytes :
    (malloc : Bool) (name : Option (List ℕ)) (header : List ℕ) (position : ℕ) (xs : List ℕ)
    → Run (Option (List ℕ))
log_bytes malloc name header position xs =
    if not (leb (dump_size (length xs)) int_max) then fault else if not malloc then ok none else do
      s ← logprefix name (zeros (dump_size (length xs)), 0)
      (block, p) ← logsnprintf_all s (dump_size (length xs)) (header ∷ rows (length xs) position xs)
      ok (some block)

unfoldable pub log_buffer :
    Logger
    → (malloc : Bool) (name : Option (List ℕ)) (header : List ℕ) (level : ℕ) → Buffer
    → Run (Option (List ℕ))
log_buffer logger malloc name header level b =
    if not (is_logged logger level)
    then ok none
    else sub_int b.limit b.position >>= λ n. load_bytes b.bytes b.position n >>= λ xs.
        log_bytes malloc name header (pos_part b.position) xs
