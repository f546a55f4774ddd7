-- ===== src/LinkedList/Tests.antt =====
-- The list theorems at lists of one and two nodes.
use aio4c.Prelude.{refl, ◌==◌, [], ◌∷◌, arith, if◌then◌else◌}
use aio4c.Machine.Defs.{Returns}
use aio4c.LinkedList.{Heap, list_pop, list_add_last}
use aio4c.LinkedList.Linked.{Linked, list_of}
use aio4c.LinkedList.Ends.{Popped, list_pop-Popped, AddedLast, list_add_last-AddedLast}

-- The nodes 1 and 2 are linked, every other node stands alone.
abbrev heap : Heap
heap p =
    if p == 1
    then record { data_pointer = 10; next = 2; prev = 0 }
    else if p == 2
    then record { data_pointer = 20; next = 0; prev = 1 }
    else record { data_pointer = 30; next = 0; prev = 0 }

heap-Linked : Linked heap 0 (1 ∷ 2 ∷ [])
heap-Linked =
    (λ e. absurd (omega (arith, e)), refl, refl, (λ e. absurd (omega (arith, e)), refl, refl, tt))

list_pop-Popped_example : Returns (Popped heap 1 (2 ∷ [])) (list_pop (list_of (1 ∷ 2 ∷ []), heap))
list_pop-Popped_example =
    list_pop-Popped heap 1 (2 ∷ []) heap-Linked ((λ e. absurd (omega (arith, e)), tt), (tt, tt))

list_add_last-AddedLast_example :
    Returns (AddedLast (1 ∷ 2 ∷ []) 3) (list_add_last 3 (list_of (1 ∷ 2 ∷ []), heap))
list_add_last-AddedLast_example =
    list_add_last-AddedLast heap (1 ∷ 2 ∷ []) 3 heap-Linked
      ((λ e. absurd (omega (arith, e)), tt), (tt, tt))
      (λ e. absurd (omega (arith, e)), (λ e. absurd (omega (arith, e)), tt))
      (λ e. absurd (omega (arith, e))) (λ e. absurd (omega (arith, e)))
