-- ===== src/LinkedList/Ends.antt =====
-- `ListAddLast` and `ListPop` as operations on sequences of nodes.
use aio4c.Prelude.{◌≡◌, ◌≢◌, List, [], ◌∷◌, ◌++◌, sym, refl, ap}
use aio4c.Machine.Defs.{Returns}
use aio4c.Queue.{Pointer}
use aio4c.Prelude.Distinct.{NotIn, Distinct}
use aio4c.LinkedList.{
  Node, NodeList, Heap, write, set_prev, list_remove, list_pop, list_add_last, list_add_first,
  list_add_after,
}
use aio4c.LinkedList.Linked.{
  last_of, Linked, list_of, neq-test, eq_test_self, write-same, Linked-write, Linked-set_prev,
  last_of-neq, last_of-append, last_of-nonzero, last_of-next, Linked-set_next,
}

-- What `ListPop` returns.
abbrev pub Popped : Heap → Pointer → List Pointer → Pointer × (NodeList × Heap) → Type 0
Popped h x xs (p, (l, h')) =
    (p ≡ x) × (l ≡ list_of xs) × Linked h' 0 xs × (h' x ≡ record (h x) { next = 0; prev = 0 })

-- `ListPop` on the list of the distinct nodes `x ∷ xs`: none of its checks aborts. It returns `x`, with its data
-- kept and both of its links cleared, and the list is that of `xs`, linked in both directions.
pub list_pop-Popped :
    (h : Heap) (x : Pointer) (xs : List Pointer)
    → Linked h 0 (x ∷ xs)
    → Distinct (x ∷ xs)
    → Returns (Popped h x xs) (list_pop (list_of (x ∷ xs), h))
unfolding list_pop list_remove
list_pop-Popped h x [] (x₀, before, after, l) d =
    let x_null = neq-test 0 x (λ e. x₀ (sym e)) in
    let self = eq_test_self x in
    rw (neq-test x 0 x₀, before, self, after, self, x_null, self, before, x_null)
      (refl, refl, tt, write-same x _ (set_prev x 0 h))
list_pop-Popped h x (y ∷ ys) (x₀, before, after, (y₀, b, a, l)) d =
    let xy = neq-test x y d.0.0 in
    let yx = neq-test y x (λ e. d.0.0 (sym e)) in
    let self = eq_test_self x in
    rw
      (
        neq-test x 0 x₀,
        before,
        self,
        after,
        neq-test y 0 y₀,
        xy,
        self,
        yx,
        before,
        neq-test (last_of y ys) x (last_of-neq x y ys d.0),
      )
      (
        refl,
        refl,
        Linked-write (write x (record (h x) { prev = 0 }) (set_prev y 0 h)) 0 (y ∷ ys) x _ d.0 (
            Linked-write (set_prev y 0 h) 0 (y ∷ ys) x _ d.0
              (Linked-set_prev h x y ys d.1 (y₀, b, a, l) 0)),
        write-same x _ (write x (record (h x) { prev = 0 }) (set_prev y 0 h)),
      )

-- What `ListAddLast` leaves.
abbrev pub AddedLast : List Pointer → Pointer → NodeList × Heap → Type 0
AddedLast xs n (l, h') = (l ≡ list_of (xs ++ n ∷ [])) × Linked h' 0 (xs ++ n ∷ [])

-- `ListAddLast` of a node that is not `NULL`, has data and is not in the list of the distinct nodes `xs`: none
-- of its checks aborts, and the list is that of `xs` followed by the node, linked in both directions.
pub list_add_last-AddedLast :
    (h : Heap) (xs : List Pointer) (n : Pointer)
    → Linked h 0 xs
    → Distinct xs
    → NotIn n xs
    → n ≢ 0
    → (h n).data_pointer ≢ 0
    → Returns (AddedLast xs n) (list_add_last n (list_of xs, h))
unfolding list_add_last list_add_first list_add_after
list_add_last-AddedLast h [] n l d a n₀ data₀ =
    rw
      (
        neq-test n 0 n₀,
        neq-test (h n).data_pointer 0 data₀,
        eq_test_self n,
        eq_test_self n,
        eq_test_self n,
      )
      (refl, (n₀, refl, refl, tt))
list_add_last-AddedLast h (x ∷ xs) n l d a n₀ data₀ =
    let z₀ = neq-test (last_of x xs) 0 (last_of-nonzero h 0 x xs l) in
    let zn = neq-test (last_of x xs) n (last_of-neq n x xs a) in
    let nz = neq-test n (last_of x xs) (λ e. last_of-neq n x xs a (sym e)) in
    let node : Node = record (h n) { next = 0; prev = last_of x xs } in
    let added : Heap = write n node (set_prev n (last_of x xs) h) in
    rw
      (
        neq-test n 0 n₀,
        neq-test (h n).data_pointer 0 data₀,
        z₀,
        zn,
        last_of-next h 0 x xs l,
        eq_test_self n,
        nz,
      )
      (
        ap (λ t. record { first = x; last = t }) (sym (last_of-append x xs n)),
        Linked-set_next added 0 x xs n
            (Linked-write (set_prev n (last_of x xs) h) 0 (x ∷ xs) n node a
              (Linked-write h 0 (x ∷ xs) n (record (h n) { prev = last_of x xs }) a l))
            d a n₀ (ap (λ (c : Node). c.prev) (write-same n node (set_prev n (last_of x xs) h)))
            (ap (λ (c : Node). c.next) (write-same n node (set_prev n (last_of x xs) h))),
      )
