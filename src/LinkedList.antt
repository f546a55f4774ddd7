-- ===== src/LinkedList.antt =====
-- src/list.c: lists of doubly linked nodes, on a heap. Address 0 is `NULL`. A call of `abort`, and an access
-- through `NULL`, is a `fault`.
pub mod Linked
pub mod Ends
mod Tests
use aio4c.Prelude.{ℕ, ◌==◌, Bool, true, false, not, ◌||◌, ◌&&◌, if◌then◌else◌}
use aio4c.Machine.Defs.{Run, ok, fault, ◌>>=◌}
use aio4c.Queue.{Pointer}

-- `struct s_Node`.
pub record Node : Type 0 where
  pub data_pointer : Pointer
  pub next : Pointer
  pub prev : Pointer

abbrev pub Heap : Type 0
Heap = Pointer → Node

-- `struct s_List`.
pub record NodeList : Type 0 where
  pub first : Pointer
  pub last : Pointer

abbrev pub write : Pointer → Node → Heap → Heap
write p n h q = if q == p then n else h q

abbrev pub set_next : Pointer → Pointer → Heap → Heap
set_next p q h = write p (record (h p) { next = q }) h

abbrev pub set_prev : Pointer → Pointer → Heap → Heap
set_prev p q h = write p (record (h p) { prev = q }) h

-- `p` is the address that `malloc` returns where there is memory.
unfoldable pub new_node : (malloc : Bool) (p content : Pointer) → Heap → Pointer × Heap
new_node malloc p content h =
    if malloc
    then (p, write p (record { data_pointer = content; next = 0; prev = 0 }) h)
    else (0, h)

unfoldable pub list_empty : NodeList → Bool
list_empty l = l.first == 0

unfoldable pub list_add_after : (node new_node : Pointer) → NodeList × Heap → NodeList × Heap
list_add_after node new_node (l, h) =
    let h₁ = set_prev new_node node h in
    let h₂ = set_next new_node (h₁ node).next h₁ in
    let (l', h₃) =
      if (h₂ node).next == 0
      then (record l { last = new_node }, h₂)
      else (l, set_prev (h₂ node).next new_node h₂) in
    (l', set_next node new_node h₃)

unfoldable pub list_add_before : (node new_node : Pointer) → NodeList × Heap → NodeList × Heap
list_add_before node new_node (l, h) =
    let h₁ = set_prev new_node (h node).prev h in
    let h₂ = set_next new_node node h₁ in
    let (l', h₃) =
      if (h₂ node).prev == 0
      then (record l { first = new_node }, h₂)
      else (l, set_next (h₂ node).prev new_node h₂) in
    (l', set_prev node new_node h₃)

unfoldable pub list_add_first : (new_node : Pointer) → NodeList × Heap → Run (NodeList × Heap)
list_add_first new_node (l, h) =
    if (new_node == 0) || ((h new_node).data_pointer == 0)
    then fault
    else let (l', h') =
        if l.first == 0
        then (
          record l { first = new_node; last = new_node },
          set_next new_node 0 (set_prev new_node 0 h),
        )
        else list_add_before l.first new_node (l, h) in
      if not (l'.first == new_node) || not ((h' new_node).prev == 0) then fault else ok (l', h')

unfoldable pub list_add_last : (new_node : Pointer) → NodeList × Heap → Run (NodeList × Heap)
list_add_last new_node (l, h) =
    if (new_node == 0) || ((h new_node).data_pointer == 0)
    then fault
    else (if l.last == 0
        then list_add_first new_node (l, h)
        else ok (list_add_after l.last new_node (l, h)))
      >>= λ (l', h').
          if not (l'.last == new_node) || not ((h' new_node).next == 0) then fault else ok (l', h')

unfoldable pub list_remove : (node : Pointer) → NodeList × Heap → Run (NodeList × Heap)
list_remove node (l, h) =
    (if (h node).prev == 0
      then (if not (l.first == node) then fault else ok (record l { first = (h node).next }, h))
      else ok (l, set_next (h node).prev (h node).next h))
    >>= λ (l₁, h₁).
        (if (h₁ node).next == 0
          then (if not (l₁.last == node)
              then fault
              else ok (record l₁ { last = (h₁ node).prev }, h₁))
          else ok (l₁, set_prev (h₁ node).next (h₁ node).prev h₁))
        >>= λ (l₂, h₂). ok (l₂, set_next node 0 (set_prev node 0 h₂))

-- The result is 0 on an empty list.
unfoldable pub list_pop : NodeList × Heap → Run (Pointer × (NodeList × Heap))
list_pop (l, h) =
    if l.first == 0
    then ok (0, (l, h))
    else if not ((h l.first).prev == 0)
    then fault
    else list_remove l.first (l, h) >>= λ (l', h').
        if (l'.first == l.first)
          || (not ((h' l.first).prev == 0)
              || (not ((h' l.first).next == 0) || (l'.last == l.first)))
        then fault
        else ok (l.first, (l', h'))
