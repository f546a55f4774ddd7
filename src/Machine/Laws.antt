-- ===== src/Machine/Laws.antt =====
-- What the memory functions do on a range that lies in the block.
use aio4c.Prelude.{
  ℕ, zero, suc, ◌+◌, ◌-◌, ◌≤◌, ◌<◌, ◌≡◌, refl, sym, ap, ◌∙◌, true, none, some, List, [], ◌∷◌, ◌++◌,
  Bool, false, length, take, drop, arith, ltb, ◌==◌, if◌then◌else◌, Bool-cases, inl, inr,
  length-append, length-drop, length-take,
}
use aio4c.Prelude.Int.{pos, negsuc}
use aio4c.Machine.Defs.{
  ◌>>=◌, Returns, Run, ok, fault, int_max, add_int, sub_int, splice, load_bytes, store_bytes,
  find_nul, strlen_at, text, memchr_nul,
}

-- A run followed by another: the postcondition of the first is handed to the second.
pub Returns-bind {ℓ κ} :
    {A : Type ℓ} {B : Type κ} (P : A → Type 0) (Q : B → Type 0) (r : Run A) (k : A → Run B)
    → Returns P r
    → ((a : A) → P a → Returns Q (k a))
    → Returns Q (r >>= k)
Returns-bind P Q (ok a) k h next = next a h
Returns-bind P Q fault k h next = absurd h

-- The same with the equation of the first run's result at hand.
pub Returns-bind_eq {ℓ κ} :
    {A : Type ℓ} {B : Type κ} (P : A → Type 0) (Q : B → Type 0) (r s : Run A) (k : A → Run B)
    → s ≡ r
    → Returns P r
    → ((a : A) → s ≡ ok a → P a → Returns Q (k a))
    → Returns Q (r >>= k)
Returns-bind_eq P Q (ok a) s k e h next = next a e h
Returns-bind_eq P Q fault s k e h next = absurd h

-- The same where the result of the first run is known.
pub Returns-step {ℓ κ} :
    {A : Type ℓ} {B : Type κ} (Q : B → Type 0) (k : A → Run B) {r : Run A} {a : A}
    → r ≡ ok a
    → Returns Q (k a)
    → Returns Q (r >>= k)
Returns-step Q k e h = rw e h

pub Returns-mono {ℓ} :
    {A : Type ℓ} (P Q : A → Type 0) (r : Run A)
    → Returns P r
    → ((a : A) → P a → Returns Q (ok a))
    → Returns Q r
Returns-mono P Q (ok a) h next = next a h
Returns-mono P Q fault h next = absurd h

-- Where code may fault, which it is not asked about: what it returns, if it returns.
abbrev pub Whenever {ℓ} : {A : Type ℓ} → (A → Type 0) → Run A → Type 0
Whenever P (ok a) = P a
Whenever P fault = Unit

pub Whenever-bind {ℓ κ} :
    {A : Type ℓ} {B : Type κ} (Q : B → Type 0) (r : Run A) (k : A → Run B)
    → ((a : A) → r ≡ ok a → Whenever Q (k a))
    → Whenever Q (r >>= k)
Whenever-bind Q (ok a) k h = h a refl
Whenever-bind Q fault k h = tt

pub Whenever-if {ℓ} :
    {A : Type ℓ} (P : A → Type 0) (b : Bool) (r s : Run A)
    → Whenever P r
    → Whenever P s
    → Whenever P (if b then r else s)
Whenever-if P true r s x y = x
Whenever-if P false r s x y = y

pub Whenever-mono {ℓ} :
    {A : Type ℓ} (P Q : A → Type 0) (r : Run A)
    → Whenever P r
    → ((a : A) → P a → Q a)
    → Whenever Q r
Whenever-mono P Q (ok a) h next = next a h
Whenever-mono P Q fault h next = tt

-- What holds of a result that there is, wherever there is one.
pub Returns-Whenever {ℓ} :
    {A : Type ℓ} (P Q : A → Type 0) (r : Run A)
    → Returns P r
    → Whenever Q r
    → Returns (λ a. P a × Q a) r
Returns-Whenever P Q (ok a) p q = (p, q)
Returns-Whenever P Q fault p q = absurd p

pub add_int-ok : (a b : ℕ) → a + b ≤ int_max → add_int (pos a) (pos b) ≡ ok (pos (a + b))
unfolding add_int
add_int-ok a b h = ground arith

pub sub_int-ok : (a b : ℕ) → b ≤ a → a ≤ int_max → sub_int (pos a) (pos b) ≡ ok (pos (a - b))
unfolding sub_int
sub_int-ok a b h k = ground arith

pub load_bytes-ok :
    (xs : List ℕ) (i n : ℕ)
    → i + n ≤ length xs
    → load_bytes xs (pos i) (pos n) ≡ ok (take n (drop i xs))
unfolding load_bytes
load_bytes-ok xs i n h = ground arith

pub store_bytes-fault :
    (xs : List ℕ) (i : ℕ) (ys : List ℕ)
    → length xs < i + length ys
    → store_bytes xs (pos i) ys ≡ fault
unfolding store_bytes
store_bytes-fault xs i ys h = ground arith

pub sub_int-negative :
    (a b : ℕ) → a < b → b ≤ int_max → sub_int (pos a) (pos b) ≡ ok (negsuc (b - a - 1))
unfolding sub_int
sub_int-negative a b h k = ground arith

pub store_bytes-ok :
    (xs : List ℕ) (i : ℕ) (ys : List ℕ)
    → i + length ys ≤ length xs
    → store_bytes xs (pos i) ys ≡ ok (splice i ys xs)
unfolding store_bytes
store_bytes-ok xs i ys h = ground arith

pub strlen_at-ok :
    (xs : List ℕ) (i k : ℕ) → find_nul (drop i xs) ≡ some k → strlen_at xs (pos i) ≡ ok k
unfolding strlen_at
strlen_at-ok xs i k e = rw (e, strlen_at)

module _ {ℓ} {A : Type ℓ} where
  pub take_all : (n : ℕ) (xs : List A) → length xs ≤ n → take n xs ≡ xs
  take_all zero [] h = refl
  take_all zero (x ∷ xs) h = absurd (omega arith)
  take_all (suc n) [] h = refl
  take_all (suc n) (x ∷ xs) h = ap (λ t. x ∷ t) (take_all n xs (omega arith))

  pub drop-append_le :
      (n : ℕ) (xs ys : List A) → n ≤ length xs → drop n (xs ++ ys) ≡ drop n xs ++ ys
  drop-append_le zero xs ys h = refl
  drop-append_le (suc n) [] ys h = absurd (omega arith)
  drop-append_le (suc n) (x ∷ xs) ys h = drop-append_le n xs ys (omega arith)

  drop-eq : (m n : ℕ) (xs : List A) → m ≡ n → drop m xs ≡ drop n xs
  drop-eq m n xs e = ap (λ k. drop k xs) e

  pub drop-append_add : (xs ys : List A) (k : ℕ) → drop (length xs + k) (xs ++ ys) ≡ drop k ys
  drop-append_add [] ys k = drop-eq (0 + k) k ys (omega arith)
  drop-append_add (x ∷ xs) ys k =
      drop-eq (suc (length xs) + k) (suc (length xs + k)) (x ∷ xs ++ ys) (omega arith)
      ∙ drop-append_add xs ys k

  drop-nil : (n : ℕ) → drop {A = A} n [] ≡ []
  drop-nil zero = refl
  drop-nil (suc n) = refl

  pub drop-drop : (m n : ℕ) (xs : List A) → drop m (drop n xs) ≡ drop (n + m) xs
  drop-drop m zero xs = drop-eq m (0 + m) xs (omega arith)
  drop-drop m (suc n) [] = drop-nil m ∙ sym (drop-nil (suc n + m))
  drop-drop m (suc n) (x ∷ xs) =
      drop-drop m n xs ∙ drop-eq (suc (n + m)) (suc n + m) (x ∷ xs) (omega arith)

  pub take-append_le : (n : ℕ) (xs ys : List A) → n ≤ length xs → take n (xs ++ ys) ≡ take n xs
  take-append_le zero xs ys h = refl
  take-append_le (suc n) [] ys h = absurd (omega arith)
  take-append_le (suc n) (x ∷ xs) ys h = ap (λ t. x ∷ t) (take-append_le n xs ys (omega arith))

  pub take-append_add :
      (xs ys : List A) (m k : ℕ) → m ≡ length xs + k → take m (xs ++ ys) ≡ xs ++ take k ys
  take-append_add [] ys m k e = ap (λ n. take n ys) (let q : m ≡ k = omega arith in q)
  take-append_add (x ∷ xs) ys zero k e = absurd (omega arith)
  take-append_add (x ∷ xs) ys (suc m) k e =
      ap (λ t. x ∷ t) (take-append_add xs ys m k (omega arith))

  pub take-take : (m n : ℕ) (xs : List A) → m ≤ n → take m (take n xs) ≡ take m xs
  take-take zero n xs h = refl
  take-take (suc m) zero xs h = absurd (omega arith)
  take-take (suc m) (suc n) [] h = refl
  take-take (suc m) (suc n) (x ∷ xs) h = ap (λ t. x ∷ t) (take-take m n xs (omega arith))

-- Behind the bytes that were read stand the next ones.
pub drop_past :
    (xs rest : List ℕ) (p : ℕ) (bytes : List ℕ)
    → drop p bytes ≡ xs ++ rest
    → drop (p + length xs) bytes ≡ rest
drop_past xs rest p bytes e =
    sym (drop-drop (length xs) p bytes)
    ∙ ap (λ t. drop (length xs) t) e
    ∙ drop-eq (length xs) (length xs + 0) (xs ++ rest) (omega arith)
    ∙ drop-append_add xs rest 0

module _ (p : ℕ) (ys xs : List ℕ) (h : p + length ys ≤ length xs) where
  length-take_p : length (take p xs) ≡ p
  length-take_p = omega (arith, length-take p xs)

  pub length-splice : length (splice p ys xs) ≡ length xs
  unfolding splice
  length-splice = omega (
    arith,
    length-append (take p xs) (ys ++ drop (p + length ys) xs),
    length-append ys (drop (p + length ys) xs),
    length-drop (p + length ys) xs,
    length-take_p,
  )

  -- What stands behind the range is not touched.
  pub drop-splice : (k : ℕ) → p + length ys ≤ k → drop k (splice p ys xs) ≡ drop k xs
  unfolding splice
  drop-splice k le =
      let m = k - (p + length ys) in
      let e₁ : k ≡ p + (length ys + m) = omega arith in
      let e₂ : k ≡ length (take p xs) + (length ys + m) = omega (arith, length-take_p) in
      drop-eq k (length (take p xs) + (length ys + m)) _ e₂
      ∙ drop-append_add (take p xs) _ (length ys + m)
      ∙ drop-append_add ys _ m
      ∙ drop-drop m (p + length ys) xs
      ∙ drop-eq (p + length ys + m) k xs (omega arith)

  pub take-splice : (k : ℕ) → k ≤ p → take k (splice p ys xs) ≡ take k xs
  unfolding splice
  take-splice k le =
      take-append_le k (take p xs) _ (omega (arith, length-take_p)) ∙ take-take k p xs le

  pub drop_at-splice : drop p (splice p ys xs) ≡ ys ++ drop (p + length ys) xs
  unfolding splice
  drop_at-splice =
      drop-eq p (length (take p xs) + 0) _ (omega (arith, length-take_p))
      ∙ drop-append_add (take p xs) _ 0

  -- The bytes before and in the range.
  pub take_end-splice : take (p + length ys) (splice p ys xs) ≡ take p xs ++ ys
  unfolding splice
  take_end-splice =
      take-append_add (take p xs) (ys ++ drop (p + length ys) xs) (p + length ys) (length ys)
        (omega (arith, length-take_p))
      ∙ ap (λ t. take p xs ++ t)
          (take-append_le (length ys) ys _ (omega arith) ∙ take_all (length ys) ys (omega arith))

  -- Reading the range gives what was written.
  pub load-splice : take (length ys) (drop p (splice p ys xs)) ≡ ys
  load-splice =
      ap (λ t. take (length ys) t) drop_at-splice
      ∙ take-append_le (length ys) ys _ (omega arith)
      ∙ take_all (length ys) ys (omega arith)

-- A write into the rest of a block that a pointer into it sees.
pub drop_into-splice :
    (k p q : ℕ) (ys xs : List ℕ)
    → p ≡ k + q
    → k ≤ length xs
    → drop k (splice p ys xs) ≡ splice q ys (drop k xs)
unfolding splice
drop_into-splice zero p q ys xs e h =
    ap (λ n. take n xs ++ (ys ++ drop (n + length ys) xs)) (let s : p ≡ q = omega arith in s)
drop_into-splice (suc k) p q ys [] e h = absurd (omega arith)
drop_into-splice (suc k) zero q ys (x ∷ xs) e h = absurd (omega arith)
drop_into-splice (suc k) (suc p) q ys (x ∷ xs) e h =
    ap (λ t. drop k (take p xs ++ (ys ++ t)))
      (drop-eq (suc p + length ys) (suc (p + length ys)) (x ∷ xs) (omega arith))
    ∙ drop_into-splice k p q ys xs (omega arith) (omega arith)

-- The first 0 of a block, and of its parts.
pub find_nul-take :
    (xs : List ℕ) (k r : ℕ)
    → find_nul xs ≡ some k
    → find_nul (take r xs) ≡ (if ltb k r then some k else none)
unfolding find_nul
find_nul-take [] k r e = cc
find_nul-take (x ∷ xs) k zero e = ground arith
find_nul-take (x ∷ xs) zero (suc r) e = ground arith
find_nul-take (x ∷ xs) (suc k) (suc r) e = ground (arith, find_nul-take xs k r)

pub find_nul-append :
    (xs ys : List ℕ) → find_nul xs ≡ none → find_nul (xs ++ 0 ∷ ys) ≡ some (length xs)
unfolding find_nul
find_nul-append [] ys e = refl
find_nul-append (x ∷ xs) ys e = ground (arith, find_nul-append xs ys)

pub find_nul-append_some :
    (xs ys : List ℕ) → (k : ℕ) × (find_nul (xs ++ 0 ∷ ys) ≡ some k) × (k ≤ length xs)
unfolding find_nul
find_nul-append_some [] ys = (0, refl, omega arith)
find_nul-append_some (x ∷ xs) ys =
    let (k, e, h) = find_nul-append_some xs ys in
    elim (Bool-cases (x == 0)) [
      | inl z ↦ (0, rw z, omega arith)
      | inr z ↦ (suc k, rw (z, e), omega arith)
    ]

pub find_nul-append_left :
    (xs ys : List ℕ) (k : ℕ) → find_nul xs ≡ some k → find_nul (xs ++ ys) ≡ some k
unfolding find_nul
find_nul-append_left [] ys k e = cc
find_nul-append_left (x ∷ xs) ys zero e = ground arith
find_nul-append_left (x ∷ xs) ys (suc k) e = ground (arith, find_nul-append_left xs ys k)

pub find_nul-lt-length : (xs : List ℕ) (k : ℕ) → find_nul xs ≡ some k → k < length xs
unfolding find_nul
find_nul-lt-length [] k e = cc
find_nul-lt-length (x ∷ xs) zero e = omega arith
find_nul-lt-length (x ∷ xs) (suc k) e = ground (arith, find_nul-lt-length xs k)

pub memchr_nul-some :
    (xs : List ℕ) (k n : ℕ) → find_nul xs ≡ some k → memchr_nul xs (pos n) ≡ ok (ltb k n)
unfolding memchr_nul
memchr_nul-some xs k n e = rw (e, memchr_nul) (ground arith)

pub memchr_nul-negative :
    (xs : List ℕ) (k n : ℕ) → find_nul xs ≡ some k → memchr_nul xs (negsuc n) ≡ ok true
unfolding memchr_nul
memchr_nul-negative xs k n e = rw (e, memchr_nul)

pub text_of_some : (xs : List ℕ) (k : ℕ) → find_nul xs ≡ some k → text xs ≡ take k xs
unfolding text
text_of_some xs k e = rw (e, text)

pub text_of_none : (xs : List ℕ) → find_nul xs ≡ none → text xs ≡ xs
unfolding text
text_of_none xs e = rw (e, text)

pub text-append : (xs ys : List ℕ) → find_nul xs ≡ none → text (xs ++ 0 ∷ ys) ≡ xs
text-append xs ys e =
    text_of_some (xs ++ 0 ∷ ys) (length xs) (find_nul-append xs ys e)
    ∙ take-append_le (length xs) xs (0 ∷ ys) (omega arith)
    ∙ take_all (length xs) xs (omega arith)

-- A string that ends inside a part of the block is the string of that part.
pub text-take :
    (xs : List ℕ) (k r : ℕ) → find_nul xs ≡ some k → k < r → text (take r xs) ≡ take k xs
text-take xs k r e h =
    let inside : find_nul (take r xs) ≡ some k = ground (arith, find_nul-take xs k r e) in
    text_of_some (take r xs) k inside ∙ take-take k r xs (omega arith)
