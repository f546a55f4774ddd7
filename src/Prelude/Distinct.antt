-- ===== src/Prelude/Distinct.antt =====
-- Sequences of addresses without repetition, all below a bound.
use aio4c.Prelude.{ℕ, suc, ◌<◌, ◌≢◌, sym, List, [], ◌∷◌, ◌++◌, arith}

abbrev pub NotIn : ℕ → List ℕ → Type 0
NotIn p [] = Unit
NotIn p (x ∷ xs) = (p ≢ x) × NotIn p xs

abbrev pub Distinct : List ℕ → Type 0
Distinct [] = Unit
Distinct (x ∷ xs) = NotIn x xs × Distinct xs

abbrev pub Below : ℕ → List ℕ → Type 0
Below n [] = Unit
Below n (x ∷ xs) = (x < n) × Below n xs

NotIn-insert : (q p : ℕ) (xs ys : List ℕ) → q ≢ p → NotIn q (xs ++ ys) → NotIn q (xs ++ p ∷ ys)
NotIn-insert q p [] ys h n = (h, n)
NotIn-insert q p (x ∷ xs) ys h n = (n.0, NotIn-insert q p xs ys h n.1)

pub Distinct-insert :
    (p : ℕ) (xs ys : List ℕ) → NotIn p (xs ++ ys) → Distinct (xs ++ ys) → Distinct (xs ++ p ∷ ys)
Distinct-insert p [] ys n d = (n, d)
Distinct-insert p (x ∷ xs) ys n d =
    (NotIn-insert x p xs ys (λ e. n.0 (sym e)) d.0, Distinct-insert p xs ys n.1 d.1)

NotIn-remove : (q p : ℕ) (xs ys : List ℕ) → NotIn q (xs ++ p ∷ ys) → (q ≢ p) × NotIn q (xs ++ ys)
NotIn-remove q p [] ys n = n
NotIn-remove q p (x ∷ xs) ys n = let (h, rest) = NotIn-remove q p xs ys n.1 in (h, (n.0, rest))

pub Distinct-remove :
    (p : ℕ) (xs ys : List ℕ) → Distinct (xs ++ p ∷ ys) → NotIn p (xs ++ ys) × Distinct (xs ++ ys)
Distinct-remove p [] ys d = d
Distinct-remove p (x ∷ xs) ys d =
    let (h, rest) = NotIn-remove x p xs ys d.0 in
    let (n, d') = Distinct-remove p xs ys d.1 in ((λ e. h (sym e), n), (rest, d'))

pub Below-insert : (n p : ℕ) (xs ys : List ℕ) → p < n → Below n (xs ++ ys) → Below n (xs ++ p ∷ ys)
Below-insert n p [] ys h b = (h, b)
Below-insert n p (x ∷ xs) ys h b = (b.0, Below-insert n p xs ys h b.1)

pub Below-remove :
    (n p : ℕ) (xs ys : List ℕ) → Below n (xs ++ p ∷ ys) → (p < n) × Below n (xs ++ ys)
Below-remove n p [] ys b = b
Below-remove n p (x ∷ xs) ys b = let (h, rest) = Below-remove n p xs ys b.1 in (h, (b.0, rest))

pub Below-suc : (n : ℕ) (xs : List ℕ) → Below n xs → Below (suc n) xs
Below-suc n [] b = tt
Below-suc n (x ∷ xs) b = (omega (arith, b.0), Below-suc n xs b.1)

pub NotIn-fresh : (n : ℕ) (xs : List ℕ) → Below n xs → NotIn n xs
NotIn-fresh n [] b = tt
NotIn-fresh n (x ∷ xs) b = (λ e. absurd (omega (arith, b.0, e)), NotIn-fresh n xs b.1)

pub NotIn-left : (p : ℕ) (xs ys : List ℕ) → NotIn p (xs ++ ys) → NotIn p xs
NotIn-left p [] ys n = tt
NotIn-left p (x ∷ xs) ys n = (n.0, NotIn-left p xs ys n.1)

pub Distinct-left : (xs ys : List ℕ) → Distinct (xs ++ ys) → Distinct xs
Distinct-left [] ys d = tt
Distinct-left (x ∷ xs) ys d = (NotIn-left x xs ys d.0, Distinct-left xs ys d.1)

pub NotIn-right : (p : ℕ) (xs ys : List ℕ) → NotIn p (xs ++ ys) → NotIn p ys
NotIn-right p [] ys n = n
NotIn-right p (x ∷ xs) ys n = NotIn-right p xs ys n.1

pub NotIn-nil : (p : ℕ) (xs : List ℕ) → NotIn p xs → NotIn p (xs ++ [])
NotIn-nil p [] n = tt
NotIn-nil p (x ∷ xs) n = (n.0, NotIn-nil p xs n.1)

pub Distinct-nil : (xs : List ℕ) → Distinct xs → Distinct (xs ++ [])
Distinct-nil [] d = tt
Distinct-nil (x ∷ xs) d = (NotIn-nil x xs d.0, Distinct-nil xs d.1)

-- One more at the end.
pub Distinct-append : (p : ℕ) (xs : List ℕ) → NotIn p xs → Distinct xs → Distinct (xs ++ p ∷ [])
Distinct-append p xs n d = Distinct-insert p xs [] (NotIn-nil p xs n) (Distinct-nil xs d)
