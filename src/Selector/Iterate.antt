-- ===== src/Selector/Iterate.antt =====
-- src/selector.c: `SelectionKeyReady` and `Select`.
use aio4c.Prelude.{
  update, ℕ, suc, ◌-◌, ◌==◌, ltb, Bool, true, false, not, Option, none, some, List, [], ◌∷◌,
  if◌then◌else◌,
}
use Prim.Native.Nat.{bit_and}
use aio4c.Machine.Defs.{Run, ok, fault}
use aio4c.Event.{Pointer}
use aio4c.Selector.{Selector, Poll}

-- The key behind `k` in the list of busy keys.
unfoldable pub next_key : Pointer → List Pointer → Option Pointer
next_key k [] = none
next_key k (x ∷ []) = none
next_key k (x ∷ y ∷ ys) = if x == k then some y else next_key k (y ∷ ys)

abbrev pub first_key : List Pointer → Option Pointer
first_key [] = none
first_key (x ∷ xs) = some x

-- The keys from `k` on.
unfoldable pub keys_from : Pointer → List Pointer → List Pointer
keys_from k [] = []
keys_from k (x ∷ xs) = if x == k then x ∷ xs else keys_from k xs

-- The first part of `SelectionKeyReady`, where the current key `k` was handed out before: whether it is
-- handed out again. `again` is the answer of `poll` on its descriptor alone, none on an error.
unfoldable pub current_again : (again : Option ℕ) (k : Pointer) → Selector → Bool × Selector
current_again again k s =
    let key = s.keys k in
    if ltb key.cur_count key.count
    then (elim again [
      | none ↦ (false, s)
      | some revents ↦
          if not (bit_and revents key.operation == 0)
          then (
            true,
            record s {
              keys =
                  update k (record key { result = revents; cur_count = suc key.cur_count }) s.keys;
            },
          )
          else (false, record s { cur_key = next_key k s.busy_keys })
    ])
    else (
      false,
      record s {
        keys = update k (record key { cur_count = 0 }) s.keys;
        cur_key = next_key k s.busy_keys;
      },
    )

-- The key `k`, whose poll has the index `i`, is handed out.
abbrev pub hand_out : ℕ → Pointer → Selector → Selector
hand_out i k s = record s {
  keys =
      update k
        (record (s.keys k) { result = (s.polls i).revents; cur_count = suc (s.keys k).cur_count })
        s.keys;
  cur_key = some k;
  polls = update i (record (s.polls i) { revents = 0 }) s.polls;
  locked = false;
}

-- The last loop, over the keys from the current one on; `later` is what it does with the keys behind `k`.
abbrev pub scan_at :
    (poll : Option ℕ) (k : Pointer) (later : Run (Option Pointer × Selector))
    → Selector
    → Run (Option Pointer × Selector)
scan_at none k later s = fault
scan_at (some i) k later s =
    if not (ltb i s.max_polls)
    then fault
    else if ltb 0 (s.polls i).revents
    then ok (some k, hand_out i k s)
    else later

unfoldable pub scan : List Pointer → Selector → Run (Option Pointer × Selector)
scan [] s = ok (none, record s { cur_key = none; locked = false })
scan (k ∷ ks) s = scan_at (s.keys k).poll k (scan ks s) s

abbrev pub scan_from : Pointer → Selector → Run (Option Pointer × Selector)
scan_from k s = scan (if (s.keys k).has_node then keys_from k s.busy_keys else []) s

-- What `SelectionKeyReady` does with the current key, and whether that key is handed out again.
abbrev pub resume : (current : Option Pointer) (again : Option ℕ) → Selector → Bool × Selector
resume none again s = (false, s)
resume (some k) again s = if ltb 0 (s.keys k).cur_count then current_again again k s else (false, s)

-- Its second part. Without busy keys it returns with the lock held.
abbrev pub scan_current :
    (current first : Option Pointer) → Selector → Run (Option Pointer × Selector)
scan_current (some k) first s = scan_from k s
scan_current none (some k) s = scan_from k (record s { cur_key = some k })
scan_current none none s = ok (none, record s { locked = true })

-- The result is the key that is ready, if any.
unfoldable pub selection_key_ready : (again : Option ℕ) → Selector → Run (Option Pointer × Selector)
selection_key_ready again s =
    let (handed_out, s') = resume s.cur_key again s in
    if handed_out
    then ok (s'.cur_key, record s' { locked = false })
    else scan_current s'.cur_key (first_key s'.busy_keys) s'

-- The answer of `poll`, unless it fails: the number of descriptors that are ready, and what it stores in
-- the polls' `revents`.
pub record Answer : Type 0 where
  pub ready : ℕ
  pub revents : ℕ → ℕ

-- `Select`; a byte that woke it up is read from the pipe. The result is the number of descriptors that
-- are ready besides the pipe.
unfoldable pub select : Option Answer → (op_read : ℕ) → Selector → ℕ × Selector
select none op_read s = (0, record s { locked = false })
select (some a) op_read s =
    let polls : ℕ → Poll =
      λ i. if ltb i s.num_polls then record (s.polls i) { revents = a.revents i } else s.polls i in
    if not (bit_and (polls 0).revents op_read == 0)
    then (
      a.ready - 1,
      record s { polls = update 0 (record (polls 0) { revents = 0 }) polls; locked = false },
    )
    else (a.ready, record s { polls = polls; locked = false })
