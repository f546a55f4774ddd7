-- ===== src/Selector/Kept.antt =====
-- Which keys `Register` and `Unregister` make busy, and that they leave the other keys as they are.
use aio4c.Prelude.{
  ℕ, zero, suc, ◌+◌, ◌-◌, ◌≡◌, ◌≢◌, refl, ap, ◌∙◌, ◌==◌, ltb, Bool, true, false, Bool-cases, inl,
  inr, Option, none, some, List, [], ◌∷◌, ◌++◌, update, arith, if◌then◌else◌,
}
use mathlib.Core.Path.{subst}
use aio4c.Machine.Defs.{ok, ◌>>=◌, Returns}
use aio4c.Machine.Laws.{Whenever, Whenever-bind, Whenever-mono, Returns-Whenever}
use aio4c.Event.{Pointer}
use aio4c.Prelude.Distinct.{NotIn}
use aio4c.Selector.{
  Poll, SelectionKey, Selector, zero_poll, zero_key, new_selection_key, find_key, take_free,
  make_room, fill_key, count_key, register, put_poll, poll_is, lower_keys, shift_loop, without_key,
  drop_key, drop_at, unregister,
}
use aio4c.Selector.Table.{IsTable, entry, update-other}
use aio4c.Selector.Register.{Registered, register-Registered}

-- A new key stands behind the others, and they are as they were.
pub record AddedKey (operation fd : ℕ) (attachment : Pointer) (s : Selector)
    (r : Option Pointer × Selector) : Type 0 where
  pub key : Pointer
  pub returned : r.0 ≡ some key
  pub busy : r.1.busy_keys ≡ s.busy_keys ++ key ∷ []
  pub at_key :
      entry (r.1.keys key)
      ≡ record { fd = fd; operation = operation; attachment = attachment; count = 1 }
  pub others : (x : Pointer) → x ≢ key → r.1.keys x ≡ s.keys x

module _ (operation fd : ℕ) (attachment : Pointer) (s : Selector) where
  fill_key-AddedKey :
      (k : Pointer) (free : List Pointer) (keys : Pointer → SelectionKey) (polls : ℕ → Poll)
      (max : ℕ)
      → ((x : Pointer) → x ≢ k → keys x ≡ s.keys x)
      → Whenever (AddedKey operation fd attachment s) (
          fill_key operation fd attachment k (record s {
            busy_keys = s.busy_keys ++ k ∷ [];
            free_keys = free;
            keys = keys;
            polls = polls;
            max_polls = max;
          })
          >>= λ s'. ok (count_key k s'))
  unfolding fill_key
  fill_key-AddedKey k free keys polls max same = elim (Bool-cases (ltb s.num_polls max)) [
    | inl e ↦ rw e (record {
      key = k;
      returned = refl;
      busy = refl;
      at_key = ground arith;
      others = λ x h. ground (arith, h, same x h);
    })
    | inr e ↦ rw e tt
  ]

  make_room-AddedKey :
      (k : Pointer) (free : List Pointer) (keys : Pointer → SelectionKey)
      → ((x : Pointer) → x ≢ k → keys x ≡ s.keys x)
      → Whenever
          (AddedKey operation fd attachment s)
          (elim (make_room true
            (record s { busy_keys = s.busy_keys ++ k ∷ []; free_keys = free; keys = keys })) [
              | none ↦ ok (
                none,
                record s {
                  busy_keys = s.busy_keys ++ k ∷ [];
                  free_keys = free;
                  keys = keys;
                  locked = false;
                },
              )
              | some s₂ ↦ fill_key operation fd attachment k s₂ >>= λ s₃. ok (count_key k s₃)
            ])
  unfolding make_room
  make_room-AddedKey k free keys same = elim (Bool-cases (s.num_polls == s.max_polls)) [
    | inl e ↦ rw e (
        fill_key-AddedKey k free keys (update s.max_polls zero_poll s.polls) (suc s.max_polls) same)
    | inr e ↦ rw e (fill_key-AddedKey k free keys s.polls s.max_polls same)
  ]

  take_free-AddedKey :
      (made : Pointer) (free : List Pointer)
      → Whenever (AddedKey operation fd attachment s) (
          take_free free (some made) s >>= λ (k, s₁). elim (make_room true s₁) [
            | none ↦ ok (none, record s₁ { locked = false })
            | some s₂ ↦ fill_key operation fd attachment k s₂ >>= λ s₃. ok (count_key k s₃)
          ])
  take_free-AddedKey made [] =
      make_room-AddedKey made [] (update made new_selection_key s.keys)
        (λ x h. update-other made x new_selection_key s.keys h)
  take_free-AddedKey made (k ∷ ks) = make_room-AddedKey k ks s.keys (λ x h. refl)

  -- `Register` of a descriptor that has no key yet, where memory suffices.
  pub register-AddedKey :
      (made : Pointer)
      → IsTable s
      → NotIn made s.busy_keys
      → find_key s.keys fd s.busy_keys ≡ none
      → Returns
          (λ r. Registered operation fd attachment s r × AddedKey operation fd attachment s r)
          (register (some made) true operation fd attachment s)
  unfolding register
  register-AddedKey made t n new =
      Returns-Whenever (Registered operation fd attachment s) (AddedKey operation fd attachment s) _
        (register-Registered made operation fd attachment s t n)
        (rw new (take_free-AddedKey made s.free_keys))

-- The key is gone, and the entries of the others are as they were.
pub record DroppedKey (k : Pointer) (s : Selector) (r : Bool × Selector) : Type 0 where
  pub busy : r.1.busy_keys ≡ without_key k s.busy_keys
  pub others : (x : Pointer) → x ≢ k → entry (r.1.keys x) ≡ entry (s.keys x)

lower_keys-entry :
    (i : ℕ) (ks : List Pointer) (keys : Pointer → SelectionKey) (x : Pointer)
    → entry (lower_keys i ks keys x) ≡ entry (keys x)
unfolding lower_keys
lower_keys-entry i [] keys x = refl
lower_keys-entry i (k ∷ ks) keys x =
    lower_keys-entry i ks _ x ∙ lowered (poll_is (keys k).poll (suc i))
  where
    lowered :
        (here : Bool)
        → entry ((if here then update k (record (keys k) { poll = some i }) keys else keys) x)
          ≡ entry (keys x)
    lowered false = refl
    lowered true = ground arith

abbrev SameEntries : (Pointer → SelectionKey) → (Pointer → SelectionKey) × (ℕ → Poll) → Type 0
SameEntries keys r = (x : Pointer) → entry (r.0 x) ≡ entry (keys x)

shift_loop-SameEntries :
    (max : ℕ) (busy : List Pointer) (n i : ℕ) (keys : Pointer → SelectionKey) (polls : ℕ → Poll)
    → Whenever (SameEntries keys) (shift_loop max busy n i keys polls)
unfolding shift_loop
shift_loop-SameEntries max busy zero i keys polls = λ x. refl
shift_loop-SameEntries max busy (suc n) i keys polls = elim (Bool-cases (ltb (suc i) max)) [
  | inl e ↦ rw e (
      Whenever-bind (SameEntries keys) (put_poll max i (polls (suc i)) polls) _ λ polls' _.
        Whenever-mono (SameEntries (lower_keys i busy keys)) (SameEntries keys) _
          (shift_loop-SameEntries max busy n (suc i) (lower_keys i busy keys) polls')
          λ r h x. h x ∙ lower_keys-entry i busy keys x)
  | inr e ↦ rw e tt
]

-- The end of `Unregister`, once the others have moved up.
put_poll-DroppedKey :
    (k : Pointer) (j : ℕ) (s : Selector) (keys : Pointer → SelectionKey) (polls : ℕ → Poll)
    → SameEntries (update k zero_key s.keys) (keys, polls)
    → Whenever
        (λ s'. DroppedKey k s (true, s'))
        (put_poll s.max_polls j zero_poll polls >>= λ polls'. ok (record s {
          busy_keys = without_key k s.busy_keys;
          free_keys = s.free_keys ++ k ∷ [];
          keys = keys;
          polls = polls';
          num_polls = s.num_polls - 1;
          locked = false;
        }))
put_poll-DroppedKey k j s keys polls same = elim (Bool-cases (ltb j s.max_polls)) [
  | inl e ↦ rw e (record {
    busy = refl;
    others = λ x h. same x ∙ ap entry (update-other k x zero_key s.keys h);
  })
  | inr e ↦ rw e tt
]

drop_key-DroppedKey :
    (k : Pointer) (i : ℕ) (s : Selector)
    → Whenever (λ s'. DroppedKey k s (true, s')) (drop_key k i s)
unfolding drop_key
drop_key-DroppedKey k i s =
    let keys : Pointer → SelectionKey = update k zero_key s.keys in
    let rounds = s.num_polls - 1 - i in
    Whenever-bind (λ s'. DroppedKey k s (true, s'))
      (shift_loop s.max_polls (without_key k s.busy_keys) rounds i keys s.polls) _
      λ r e. put_poll-DroppedKey k (i + rounds) s r.0 r.1 (
        subst (Whenever (SameEntries keys)) e
          (shift_loop-SameEntries s.max_polls (without_key k s.busy_keys) rounds i keys s.polls))

-- `Unregister` of all registrations of a key.
pub unregister-DroppedKey :
    (k : Pointer) (s : Selector)
    → (s.keys k).has_node ≡ true
    → Whenever (DroppedKey k s) (unregister k true s)
unfolding unregister
unregister-DroppedKey k s node = rw node (go (s.keys k).poll)
  where
    go : (poll : Option ℕ) → Whenever (DroppedKey k s) (drop_at poll k s)
    go none = tt
    go (some i) =
        Whenever-bind (DroppedKey k s) (drop_key k i s) (λ s'. ok (true, s'))
          λ s' e. subst (Whenever (λ s'. DroppedKey k s (true, s'))) e (drop_key-DroppedKey k i s)
