-- ===== src/Selector.antt =====
-- src/selector.c, as it is compiled with `poll`: the keys that are registered with a selector, the table
-- that it hands to `poll`, and the iteration over the keys that are ready. A key is known by the address of
-- its node. `locked` is whether the selector's lock is held: every operation takes it first. The counts of registrations, turns and
-- polls are numbers without a bound, where the source has `int`.
pub mod Table
pub mod Register
pub mod Shift
pub mod Unregister
pub mod Kept
pub mod Iterate
pub mod Scan
pub mod Ready
pub mod Polled
pub mod Reached
mod Tests
use aio4c.Prelude.{
  update, ℕ, zero, suc, ◌+◌, ◌-◌, ◌%◌, ◌==◌, ltb, Bool, true, false, not, ◌&&◌, Option, none, some,
  List, [], ◌∷◌, ◌++◌, if◌then◌else◌,
}
use Prim.Native.Nat.{bit_and}
use aio4c.Machine.Defs.{Run, ok, fault, ◌>>=◌}
use aio4c.Event.{Pointer}

-- `aio4c_poll_t`.
pub record Poll : Type 0 where
  pub fd : ℕ
  pub events : ℕ
  pub revents : ℕ

-- `struct s_SelectionKey`; `has_node` is `node != NULL`, and `none` is the index -1 of no poll.
pub record SelectionKey : Type 0 where
  pub operation : ℕ
  pub has_node : Bool
  pub fd : ℕ
  pub attachment : Pointer
  pub poll : Option ℕ
  pub count : ℕ
  pub cur_count : ℕ
  pub result : ℕ

-- `struct s_Selector`; `polls` has `max_polls` elements.
pub record Selector : Type 0 where
  pub busy_keys : List Pointer
  pub free_keys : List Pointer
  pub keys : Pointer → SelectionKey
  pub cur_key : Option Pointer
  pub polls : ℕ → Poll
  pub num_polls : ℕ
  pub max_polls : ℕ
  pub locked : Bool

abbrev pub zero_poll : Poll
zero_poll = record { fd = 0; events = 0; revents = 0 }

-- What `memset(key, 0, sizeof(SelectionKey))` leaves.
abbrev pub zero_key : SelectionKey
zero_key = record {
  operation = 0;
  has_node = false;
  fd = 0;
  attachment = 0;
  poll = some 0;
  count = 0;
  cur_count = 0;
  result = 0;
}

abbrev pub new_selection_key : SelectionKey
new_selection_key = record zero_key { poll = none }

-- `memset` or `memcpy` on `polls[i]`.
abbrev pub put_poll : ℕ → ℕ → Poll → (ℕ → Poll) → Run (ℕ → Poll)
put_poll max i p polls = if ltb i max then ok (update i p polls) else fault

-- `NewSelector`: `malloc` and `malloc_polls` are whether the selector and its first poll can be allocated,
-- `pipe` is the descriptor of the reading end of the pipe, none where it cannot be made, and the last two are
-- whether `fcntl` succeeds on its ends.
unfoldable pub new_selector :
    (malloc malloc_polls : Bool) (pipe : Option ℕ) (read_nonblocking write_nonblocking : Bool)
    (op_read : ℕ)
    → Option Selector
new_selector malloc malloc_polls none read_nonblocking write_nonblocking op_read = none
new_selector malloc malloc_polls (some fd) read_nonblocking write_nonblocking op_read =
    if malloc && (malloc_polls && (read_nonblocking && write_nonblocking))
    then some (record {
      busy_keys = [];
      free_keys = [];
      keys = λ k. zero_key;
      cur_key = none;
      polls = update 0 (record { fd = fd; events = op_read; revents = 0 }) (λ i. zero_poll);
      num_polls = 1;
      max_polls = 1;
      locked = false;
    })
    else none

-- `SelectionKeyIsOperationSuccessful`; the flags fit in 16 bits.
unfoldable pub is_operation_successful : SelectionKey → Bool
is_operation_successful k = bit_and (k.result % 65536) (k.operation % 65536) == k.operation % 65536

-- The first loop of `Register`.
unfoldable pub find_key : (Pointer → SelectionKey) → ℕ → List Pointer → Option Pointer
find_key keys fd [] = none
find_key keys fd (k ∷ ks) = if (keys k).fd == fd then some k else find_key keys fd ks

-- A free key, or a new one, which `ListAddLast` puts at the end of the busy keys. `made` is the address of
-- the node that `NewNode(_NewSelectionKey())` returns; where it returns none `ListAddLast` aborts.
abbrev pub take_free :
    (free : List Pointer) (made : Option Pointer) → Selector → Run (Pointer × Selector)
take_free (k ∷ ks) made s = ok (k, record s { free_keys = ks; busy_keys = s.busy_keys ++ k ∷ [] })
take_free [] none s = fault
take_free [] (some k) s = ok (
  k,
  record s {
    free_keys = [];
    keys = update k new_selection_key s.keys;
    busy_keys = s.busy_keys ++ k ∷ [];
  },
)

-- The array of polls gets room for one more where it is full; `realloc` says whether that succeeds.
unfoldable pub make_room : (realloc : Bool) → Selector → Option Selector
make_room realloc s =
    if s.num_polls == s.max_polls
    then (if realloc
        then some
            (record s { polls = update s.max_polls zero_poll s.polls; max_polls = suc s.max_polls })
        else none)
    else some s

-- The key and its poll are filled in.
unfoldable pub fill_key : (operation fd : ℕ) (attachment k : Pointer) → Selector → Run Selector
fill_key operation fd attachment k s =
    put_poll s.max_polls s.num_polls (record { fd = fd; events = operation; revents = 0 }) s.polls
    >>= λ polls. ok (record s {
      keys =
          update k
            (record (s.keys k) {
              poll = some s.num_polls;
              has_node = true;
              operation = operation;
              fd = fd;
              attachment = attachment;
              count = 0;
              cur_count = 0;
            })
            s.keys;
      polls = polls;
      num_polls = suc s.num_polls;
    })

-- The end of `Register`: one more registration of the key.
abbrev pub count_key : Pointer → Selector → Option Pointer × Selector
count_key k s = (
  some k,
  record s {
    keys = update k (record (s.keys k) { count = suc (s.keys k).count }) s.keys;
    locked = false;
  },
)

-- `Register` after its first loop, which found a key or none.
abbrev pub register_at :
    (found made : Option Pointer) (realloc : Bool) (operation fd : ℕ) (attachment : Pointer)
    → Selector
    → Run (Option Pointer × Selector)
register_at (some k) made realloc operation fd attachment s = ok (count_key k s)
register_at none made realloc operation fd attachment s =
    take_free s.free_keys made s >>= λ (k, s₁). elim (make_room realloc s₁) [
      | none ↦ ok (none, record s₁ { locked = false })
      | some s₂ ↦ fill_key operation fd attachment k s₂ >>= λ s₃. ok (count_key k s₃)
    ]

-- The result is the key, or none where memory runs out.
unfoldable pub register :
    (made : Option Pointer) (realloc : Bool) (operation fd : ℕ) (attachment : Pointer)
    → Selector
    → Run (Option Pointer × Selector)
register made realloc operation fd attachment s =
    register_at (find_key s.keys fd s.busy_keys) made realloc operation fd attachment s

abbrev pub poll_is : Option ℕ → ℕ → Bool
poll_is none n = false
poll_is (some m) n = m == n

-- The inner loop of `Unregister`, over the busy keys.
unfoldable pub lower_keys : ℕ → List Pointer → (Pointer → SelectionKey) → Pointer → SelectionKey
lower_keys i [] keys = keys
lower_keys i (k ∷ ks) keys = lower_keys i ks (
    if poll_is (keys k).poll (suc i)
    then update k (record (keys k) { poll = some i }) keys
    else keys)

-- Its outer loop, for `n` more rounds from the index `i` on.
unfoldable pub shift_loop :
    (max : ℕ) (busy : List Pointer) (n i : ℕ) (keys : Pointer → SelectionKey) (polls : ℕ → Poll)
    → Run ((Pointer → SelectionKey) × (ℕ → Poll))
shift_loop max busy zero i keys polls = ok (keys, polls)
shift_loop max busy (suc n) i keys polls =
    if ltb (suc i) max
    then (put_poll max i (polls (suc i)) polls >>= λ polls'.
        shift_loop max busy n (suc i) (lower_keys i busy keys) polls')
    else fault

abbrev pub without_key : Pointer → List Pointer → List Pointer
without_key k [] = []
without_key k (x ∷ xs) = if x == k then xs else x ∷ without_key k xs

-- `Unregister` from `ListRemove` on, for the key's old index `i`.
unfoldable pub drop_key : (k : Pointer) (i : ℕ) → Selector → Run Selector
drop_key k i s =
    let busy = without_key k s.busy_keys in
    let rounds = s.num_polls - 1 - i in
    shift_loop s.max_polls busy rounds i (update k zero_key s.keys) s.polls >>= λ (keys, polls).
    put_poll s.max_polls (i + rounds) zero_poll polls >>= λ polls'. ok (record s {
      busy_keys = busy;
      free_keys = s.free_keys ++ k ∷ [];
      keys = keys;
      polls = polls';
      num_polls = s.num_polls - 1;
      locked = false;
    })

abbrev pub drop_at : (poll : Option ℕ) (k : Pointer) → Selector → Run (Bool × Selector)
drop_at none k s = fault
drop_at (some i) k s = drop_key k i s >>= λ s'. ok (true, s')

-- The first result is `*isLastRegistration`. The index of a key that has a node is never -1, and its
-- count is never 0.
unfoldable pub unregister : (k : Pointer) (unregister_all : Bool) → Selector → Run (Bool × Selector)
unregister k unregister_all s =
    let key = s.keys k in
    let key' = record key { count = key.count - 1 } in
    if not key.has_node
    then ok (true, record s { locked = false })
    else if not unregister_all && ltb 0 key'.count
    then ok (false, record s { keys = update k key' s.keys; locked = false })
    else drop_at key.poll k s
