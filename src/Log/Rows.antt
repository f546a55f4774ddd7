-- ===== src/Log/Rows.antt =====
-- The rows of a dump, as `LogBuffer` prints them, read back.
use aio4c.Prelude.{
  ℕ, zero, suc, ◌+◌, ◌-◌, ◌*◌, ◌/◌, ◌%◌, ◌^◌, ◌≤◌, ◌<◌, ◌≡◌, refl, sym, ap, ◌∙◌, leb, ◌&&◌, some,
  none, Option, List, [], ◌∷◌, ◌++◌, append_assoc, length, concat, length-drop, drop, arith,
  if◌then◌else◌,
}
use mathlib.Core.Path.{subst}
use aio4c.Log.{hex, digit, colon, newline, hex_columns, char_columns, isprint, row, rows}

-- The value of a hexadecimal digit, with small letters.
abbrev pub value_of : ℕ → Option ℕ
value_of c =
    if leb 48 c && leb c 57
    then some (c - 48)
    else if leb 97 c && leb c 102
    then some (c - 87)
    else none

-- `n` digits are read as a number.
pub data Reads : (n x : ℕ) → List ℕ → Type 0 where
  no_digit : Reads 0 0 []
  more_digits :
      {n : ℕ} (q d c : ℕ) (o : List ℕ)
      → Reads n q o
      → value_of c ≡ some d
      → Reads (suc n) (16 * q + d) (o ++ c ∷ [])

-- `n` columns, for the first bytes: each byte as two digits and a blank, and three blanks where there are none left.
pub data Columns : (n : ℕ) → List ℕ → List ℕ → Type 0 where
  no_column : {xs : List ℕ} → Columns 0 xs []
  byte :
      {n : ℕ} (x : ℕ) {xs : List ℕ} (o t : List ℕ)
      → Reads 2 x o
      → Columns n xs t
      → Columns (suc n) (x ∷ xs) (o ++ 32 ∷ t)
  blanks : {n : ℕ} {t : List ℕ} → Columns n [] t → Columns (suc n) [] (32 ∷ 32 ∷ 32 ∷ t)

-- A byte that can be printed stands for itself, and a dot for any other.
abbrev pub Shown : (x c : ℕ) → Type 0
Shown x c = (32 ≤ x → x ≤ 126 → c ≡ x) × (x < 32 → c ≡ 46) × (126 < x → c ≡ 46)

pub data Characters : (n : ℕ) → List ℕ → List ℕ → Type 0 where
  no_character : {xs : List ℕ} → Characters 0 xs []
  no_more : {n : ℕ} → Characters (suc n) [] []
  character :
      {n x c : ℕ} {xs t : List ℕ}
      → Shown x c
      → Characters n xs t
      → Characters (suc n) (x ∷ xs) (c ∷ t)

-- `0x`, the offset in eight digits, a colon and a blank, sixteen columns, up to sixteen characters, and the end of the line.
pub data IsRow (i : ℕ) (xs : List ℕ) : List ℕ → Type 0 where
  printed :
      (o columns characters : List ℕ)
      → Reads 8 i o
      → Columns 16 xs columns
      → Characters 16 xs characters
      → IsRow i xs (48 ∷ 120 ∷ (o ++ 58 ∷ 32 ∷ (columns ++ (characters ++ 10 ∷ []))))

-- A row for each sixteen bytes, the last one for what is left, the first one with the offset `i`.
pub data IsDump : (i : ℕ) → List ℕ → List ℕ → Type 0 where
  no_row : {i : ℕ} → IsDump i [] []
  one_row :
      {i : ℕ} (x : ℕ) {xs : List ℕ} (r t : List ℕ)
      → IsRow i (x ∷ xs) r
      → IsDump (i + 16) (drop 16 (x ∷ xs)) t
      → IsDump i (x ∷ xs) (r ++ t)

abbrev pub AllBytes : List ℕ → Type 0
AllBytes [] = Unit {0}
AllBytes (x ∷ xs) = (x < 256) × AllBytes xs

AllBytes-drop : (n : ℕ) (xs : List ℕ) → AllBytes xs → AllBytes (drop n xs)
AllBytes-drop zero xs h = h
AllBytes-drop (suc n) [] h = h
AllBytes-drop (suc n) (x ∷ xs) h = AllBytes-drop n xs h.1

value_of-digit : (d : ℕ) → d < 16 → value_of (digit d) ≡ some d
value_of-digit d h = ground (arith, h)

hex-Reads : (n x : ℕ) → x < 16 ^ n → Reads n x (hex n x)
unfolding hex
hex-Reads zero x h = subst (λ m. Reads 0 m []) (let e : 0 ≡ x = omega (arith, h) in e) no_digit
hex-Reads (suc n) x h =
    subst (λ m. Reads (suc n) m (hex n (x / 16) ++ digit (x % 16) ∷ []))
      (let e : 16 * (x / 16) + x % 16 ≡ x = omega arith in e)
      (more_digits _ _ _ _ (hex-Reads n (x / 16) (omega (arith, h)))
        (value_of-digit (x % 16) (omega arith)))

hex_columns-Columns : (n : ℕ) (xs : List ℕ) → AllBytes xs → Columns n xs (concat (hex_columns n xs))
unfolding hex_columns
hex_columns-Columns zero xs h = no_column
hex_columns-Columns (suc n) [] h = blanks (hex_columns-Columns n [] h)
hex_columns-Columns (suc n) (x ∷ xs) h =
    subst (Columns (suc n) (x ∷ xs))
      (sym (append_assoc (hex 2 x) (32 ∷ []) (concat (hex_columns n xs))))
      (byte _ _ _ (hex-Reads 2 x h.0) (hex_columns-Columns n xs h.1))

char_columns-Characters : (n : ℕ) (xs : List ℕ) → Characters n xs (concat (char_columns n xs))
unfolding char_columns
char_columns-Characters zero xs = no_character
char_columns-Characters (suc n) [] = no_more
char_columns-Characters (suc n) (x ∷ xs) = character (shown x) (char_columns-Characters n xs)
  where
    shown : (x : ℕ) → Shown x (if isprint x then x else 46)
    shown x = (λ l u. ground (arith, l, u), λ l. ground (arith, l), λ u. ground (arith, u))

pub concat-append : (ts us : List (List ℕ)) → concat (ts ++ us) ≡ concat ts ++ concat us
concat-append [] us = refl
concat-append (t ∷ ts) us =
    ap (λ r. t ++ r) (concat-append ts us) ∙ sym (append_assoc t (concat ts) (concat us))

concat-row :
    (i : ℕ) (xs : List ℕ)
    → concat (row i xs)
      ≡ 48
        ∷ 120
        ∷ (hex 8 i
            ++ 58 ∷ 32 ∷ (concat (hex_columns 16 xs) ++ (concat (char_columns 16 xs) ++ 10 ∷ [])))
unfolding row
concat-row i xs =
    ap (λ t. 48 ∷ 120 ∷ t)
      (append_assoc (hex 8 i) colon
          (concat (hex_columns 16 xs ++ (char_columns 16 xs ++ newline ∷ [])))
        ∙ ap (λ t. hex 8 i ++ 58 ∷ 32 ∷ t)
            (concat-append (hex_columns 16 xs) (char_columns 16 xs ++ newline ∷ [])
              ∙ ap (λ t. concat (hex_columns 16 xs) ++ t)
                  (concat-append (char_columns 16 xs) (newline ∷ []))))

row-IsRow : (i : ℕ) (xs : List ℕ) → i < 16 ^ 8 → AllBytes xs → IsRow i xs (concat (row i xs))
row-IsRow i xs h bytes = subst (IsRow i xs) (sym (concat-row i xs)) (
    printed _ _ _ (hex-Reads 8 i h) (hex_columns-Columns 16 xs bytes)
      (char_columns-Characters 16 xs))

pub rows-IsDump :
    (n i : ℕ) (xs : List ℕ)
    → length xs ≤ n
    → (0 < length xs → i + length xs ≤ 16 ^ 8)
    → AllBytes xs
    → IsDump i xs (concat (rows n i xs))
unfolding rows
rows-IsDump zero i [] h small bytes = no_row
rows-IsDump zero i (x ∷ xs) h small bytes = absurd (omega (arith, h))
rows-IsDump (suc n) i [] h small bytes = no_row
rows-IsDump (suc n) i (x ∷ xs) h small bytes =
    subst (IsDump i (x ∷ xs))
      (sym (concat-append (row i (x ∷ xs)) (rows n (i + 16) (drop 16 (x ∷ xs)))))
      (one_row x _ _ (row-IsRow i (x ∷ xs) (omega (arith, small (omega arith))) bytes) (
        rows-IsDump n (i + 16) (drop 16 (x ∷ xs)) (omega (arith, length-drop 16 (x ∷ xs), h))
          (λ l. omega (arith, length-drop 16 (x ∷ xs), l, small (omega arith)))
          (AllBytes-drop 16 (x ∷ xs) bytes)))
