-- ===== src/LinkedList/Linked.antt =====
-- Which nodes a list holds, and what a write elsewhere leaves alone.
use aio4c.Prelude.{◌≡◌, ◌≢◌, ◌==◌, true, false, List, [], ◌∷◌, ◌++◌, arith, sym, refl}
use aio4c.Queue.{Pointer}
use aio4c.Prelude.Distinct.{NotIn, Distinct}
use aio4c.LinkedList.{Node, NodeList, Heap, write, set_prev, set_next}

abbrev pub first_of : List Pointer → Pointer
first_of [] = 0
first_of (x ∷ xs) = x

abbrev pub last_of : Pointer → List Pointer → Pointer
last_of p [] = p
last_of p (x ∷ xs) = last_of x xs

-- The nodes `xs` follow each other, in both directions; `p` is before them.
abbrev pub Linked : Heap → Pointer → List Pointer → Type 0
Linked h p [] = Unit
Linked h p (x ∷ xs) = (x ≢ 0) × ((h x).prev ≡ p) × ((h x).next ≡ first_of xs) × Linked h x xs

-- The list with the nodes `xs`.
abbrev pub list_of : List Pointer → NodeList
list_of xs = record { first = first_of xs; last = last_of 0 xs }

pub neq-test : (p q : Pointer) → p ≢ q → (p == q) ≡ false
neq-test p q h = ground (arith, h)

pub eq_test_self : (p : Pointer) → (p == p) ≡ true
eq_test_self p = ground arith

pub last_of-neq : (x y : Pointer) (ys : List Pointer) → NotIn x (y ∷ ys) → last_of y ys ≢ x
last_of-neq x y [] n e = n.0 (sym e)
last_of-neq x y (z ∷ zs) n e = last_of-neq x z zs n.1 e

pub Linked-write :
    (h : Heap) (p : Pointer) (xs : List Pointer) (q : Pointer) (n : Node)
    → NotIn q xs
    → Linked h p xs
    → Linked (write q n h) p xs
Linked-write h p [] q n a l = tt
Linked-write h p (x ∷ xs) q n a (x₀, before, after, l) = (
  x₀,
  rw (neq-test x q (λ e. a.0 (sym e))) before,
  rw (neq-test x q (λ e. a.0 (sym e))) after,
  Linked-write h x xs q n a.1 l,
)

pub write-same : (p : Pointer) (n : Node) (h : Heap) → write p n h p ≡ n
write-same p n h = rw (eq_test_self p)

-- The first of the nodes loses the one before it.
pub Linked-set_prev :
    (h : Heap) (x y : Pointer) (ys : List Pointer)
    → Distinct (y ∷ ys)
    → Linked h x (y ∷ ys)
    → (p : Pointer) → Linked (set_prev y p h) p (y ∷ ys)
Linked-set_prev h x y ys d (y₀, b, a, l) p =
    (y₀, rw (eq_test_self y) refl, rw (eq_test_self y) a, Linked-write h y ys y _ d.0 l)

pub last_of-append : (p : Pointer) (xs : List Pointer) (n : Pointer) → last_of p (xs ++ n ∷ []) ≡ n
last_of-append p [] n = refl
last_of-append p (x ∷ xs) n = last_of-append x xs n

pub last_of-nonzero :
    (h : Heap) (p x : Pointer) (xs : List Pointer) → Linked h p (x ∷ xs) → last_of x xs ≢ 0
last_of-nonzero h p x [] l = l.0
last_of-nonzero h p x (y ∷ ys) (x₀, before, after, l) = last_of-nonzero h x y ys l

pub last_of-next :
    (h : Heap) (p x : Pointer) (xs : List Pointer)
    → Linked h p (x ∷ xs)
    → (h (last_of x xs)).next ≡ 0
last_of-next h p x [] (x₀, before, after, l) = after
last_of-next h p x (y ∷ ys) (x₀, before, after, l) = last_of-next h x y ys l

-- A node that points back at the last one becomes the one after it.
pub Linked-set_next :
    (h : Heap) (p x : Pointer) (xs : List Pointer) (n : Pointer)
    → Linked h p (x ∷ xs)
    → Distinct (x ∷ xs)
    → NotIn n (x ∷ xs)
    → n ≢ 0
    → (h n).prev ≡ last_of x xs
    → (h n).next ≡ 0
    → Linked (set_next (last_of x xs) n h) p ((x ∷ xs) ++ n ∷ [])
Linked-set_next h p x [] n (x₀, before, after, l) d a n₀ back end = (
  x₀,
  rw (eq_test_self x) before,
  rw (eq_test_self x) refl,
  (n₀, rw (neq-test n x a.0) back, rw (neq-test n x a.0) end, tt),
)
Linked-set_next h p x (y ∷ ys) n (x₀, before, after, l) d a n₀ back end =
    let other = neq-test x (last_of y ys) (λ e. last_of-neq x y ys d.0 (sym e)) in
    (x₀, rw other before, rw other after, Linked-set_next h x y ys n l d.1 a.1 n₀ back end)
