-- ===== src/Selector/Register.antt =====
-- `Register` as an operation on the registrations.
use aio4c.Prelude.{
  update, ℕ, suc, ◌<◌, ◌≡◌, ◌≢◌, refl, sym, ap, ◌∙◌, ◌==◌, ltb, Bool, true, false, inl, inr,
  Bool-cases, Option, none, some, List, [], ◌∷◌, ◌++◌, map, append_assoc, length-append, map-append,
  arith, if◌then◌else◌,
}
use mathlib.Core.Path.{subst}
use aio4c.Prelude.Distinct.{
  NotIn, Distinct, Distinct-remove, NotIn-left, Distinct-left, NotIn-right, Distinct-append,
}
use aio4c.Machine.Defs.{ok, ◌>>=◌, Returns}
use aio4c.Event.{Pointer}
use aio4c.Selector.{
  Poll, SelectionKey, Selector, zero_poll, new_selection_key, find_key, take_free, register_at,
  make_room, fill_key, count_key, register,
}
use aio4c.Selector.Table.{
  Slot, AllIdle, fds, IsTable, Entry, entry, entries, table, update-same, update-other,
  Aligned-append, map-update, IsTable-key, Aligned-only, AllIdle-only, map-only,
}

-- One more registration: of the entry of that descriptor, or of a new one at the end.
pub register_entry : (operation fd : ℕ) (attachment : Pointer) → List Entry → List Entry
register_entry operation fd attachment [] =
    record { fd = fd; operation = operation; attachment = attachment; count = 1 } ∷ []
register_entry operation fd attachment (e ∷ es) =
    if e.fd == fd
    then record e { count = suc e.count } ∷ es
    else e ∷ register_entry operation fd attachment es

find_key-fd :
    (keys : Pointer → SelectionKey) (fd : ℕ) (ks : List Pointer) (k : Pointer)
    → find_key keys fd ks ≡ some k
    → (keys k).fd ≡ fd
unfolding find_key
find_key-fd keys fd [] k e = absurd (cc)
find_key-fd keys fd (x ∷ xs) k e = elim (Bool-cases ((keys x).fd == fd)) [
  | inl t ↦ ground arith
  | inr t ↦ find_key-fd keys fd xs k (ground arith)
]

find_key-none :
    (keys : Pointer → SelectionKey) (fd : ℕ) (ks : List Pointer)
    → find_key keys fd ks ≡ none
    → NotIn fd (fds keys ks)
unfolding find_key
find_key-none keys fd [] e = tt
find_key-none keys fd (x ∷ xs) e = elim (Bool-cases ((keys x).fd == fd)) [
  | inl t ↦ absurd (ground arith)
  | inr t ↦ (λ q. absurd (ground arith), find_key-none keys fd xs (ground arith))
]

register_entry-found :
    (operation : ℕ) (attachment : Pointer) (keys : Pointer → SelectionKey) (fd : ℕ)
    (ks : List Pointer) (k : Pointer)
    → Distinct ks
    → find_key keys fd ks ≡ some k
    → entries (update k (record (keys k) { count = suc (keys k).count }) keys) ks
      ≡ register_entry operation fd attachment (entries keys ks)
unfolding find_key register_entry
register_entry-found operation attachment keys fd [] k d e = absurd (cc)
register_entry-found operation attachment keys fd (x ∷ xs) k d e =
    elim (Bool-cases ((keys x).fd == fd)) [
      | inl t ↦ rw t (first k (let k_x : k ≡ x = ground arith in k_x))
      | inr t ↦
          let later : find_key keys fd xs ≡ some k = ground arith in
          let key = record (keys k) { count = suc (keys k).count } in
          let other : x ≢ k = λ q. absurd (ground (arith, q, find_key-fd keys fd xs k later)) in
          rw (t, update-other k x key keys other)
            (ap (λ r. entry (keys x) ∷ r)
              (register_entry-found operation attachment keys fd xs k d.1 later))
    ]
  where
    first :
        (k : Pointer)
        → k ≡ x
        → entries (update k (record (keys k) { count = suc (keys k).count }) keys) (x ∷ xs)
          ≡ record (entry (keys x)) { count = suc (keys x).count } ∷ entries keys xs
    first k q =
        subst
          (λ k.
            entries (update k (record (keys k) { count = suc (keys k).count }) keys) (x ∷ xs)
            ≡ record (entry (keys x)) { count = suc (keys x).count } ∷ entries keys xs)
          (sym q)
          (rw (update-same x (record (keys x) { count = suc (keys x).count }) keys) (
            ap (λ r. record (entry (keys x)) { count = suc (keys x).count } ∷ r)
              (map-update entry keys xs x (record (keys x) { count = suc (keys x).count }) d.0)))

register_entry-new :
    (operation : ℕ) (attachment : Pointer) (keys : Pointer → SelectionKey) (fd : ℕ)
    (ks : List Pointer)
    → NotIn fd (fds keys ks)
    → register_entry operation fd attachment (entries keys ks)
      ≡ entries keys ks
        ++ record { fd = fd; operation = operation; attachment = attachment; count = 1 } ∷ []
unfolding register_entry
register_entry-new operation attachment keys fd [] n = refl
register_entry-new operation attachment keys fd (x ∷ xs) n =
    rw (let e : ((keys x).fd == fd) ≡ false = ground (arith, n.0) in e)
      (ap (λ t. entry (keys x) ∷ t) (register_entry-new operation attachment keys fd xs n.1))

-- The key of a registration that is counted once more.
counted_again :
    (s : Selector) (operation fd : ℕ) (attachment : Pointer) (k : Pointer)
    → IsTable s
    → find_key s.keys fd s.busy_keys ≡ some k
    → IsTable (count_key k s).1
      × (table (count_key k s).1 ≡ register_entry operation fd attachment (table s))
counted_again s operation fd attachment k t e =
    let key = record (s.keys k) { count = suc (s.keys k).count } in
    (
      IsTable-key s k key s.cur_key false refl refl refl refl (omega arith) t,
      register_entry-found operation attachment s.keys fd s.busy_keys k
          (Distinct-left s.busy_keys s.free_keys t.apart) e,
    )

module _ (s : Selector) (k : Pointer) (free : List Pointer) (keys : Pointer → SelectionKey)
    (polls : ℕ → Poll) (max : ℕ) (cur_key : Option Pointer) (locked : Bool) where
  abbrev added : Selector
  added = record {
    busy_keys = s.busy_keys ++ k ∷ [];
    free_keys = free;
    keys = keys;
    cur_key = cur_key;
    polls = polls;
    num_polls = suc s.num_polls;
    max_polls = max;
    locked = locked;
  }

  last_too {ℓ} :
      {B : Type ℓ} (f : SelectionKey → B)
      → NotIn k s.busy_keys
      → ((x : Pointer) → x ≢ k → keys x ≡ s.keys x)
      → map (λ x. f (keys x)) (s.busy_keys ++ k ∷ [])
        ≡ map (λ x. f (s.keys x)) s.busy_keys ++ f (keys k) ∷ []
  last_too f n same =
      map-append (λ x. f (keys x)) s.busy_keys (k ∷ [])
      ∙ ap (λ r. r ++ f (keys k) ∷ [])
          (map-only (λ x. f (keys x)) (λ x. f (s.keys x)) s.busy_keys k n (λ x h. ap f (same x h)))

  IsTable-added :
      IsTable s
      → Distinct (s.busy_keys ++ k ∷ free)
      → ((x : Pointer) → x ≢ k → keys x ≡ s.keys x)
      → ((j : ℕ) → j < s.num_polls → polls j ≡ s.polls j)
      → Slot (keys k) (polls s.num_polls) s.num_polls
      → NotIn (keys k).fd (fds s.keys s.busy_keys)
      → AllIdle s.keys free
      → s.num_polls < max
      → IsTable added × (table added ≡ table s ++ entry (keys k) ∷ [])
  IsTable-added t d same_keys same_polls slot n idle room =
      let (kn, d') = Distinct-remove k s.busy_keys free d in
      let k_busy = NotIn-left k s.busy_keys free kn in
      (
        record {
          apart = subst Distinct (sym (append_assoc s.busy_keys (k ∷ []) free)) d;
          one_each =
              subst Distinct (sym (last_too (λ y. y.fd) k_busy same_keys))
                (Distinct-append (keys k).fd (fds s.keys s.busy_keys) n t.one_each);
          aligned =
              Aligned-append keys polls 1 s.num_polls s.busy_keys k (omega (arith, t.filled))
                (Aligned-only s.keys keys s.polls polls 1 s.num_polls s.busy_keys k k_busy same_keys
                  same_polls (omega (arith, t.filled)) t.aligned)
                slot;
          idle = AllIdle-only s.keys keys free k (NotIn-right k s.busy_keys free kn) same_keys idle;
          filled = omega (arith, t.filled, length-append s.busy_keys (k ∷ []));
          room = room;
        },
        last_too entry k_busy same_keys,
      )

-- What `Register` returns and leaves.
abbrev pub Registered :
    (operation fd : ℕ) (attachment : Pointer) → Selector → Option Pointer × Selector → Type 0
Registered operation fd attachment s (r, s') =
    IsTable s'
    × (table s' ≡ register_entry operation fd attachment (table s))
    × (r ≢ none)
    × (s'.locked ≡ false)

module _ (operation fd : ℕ) (attachment : Pointer) (s : Selector) (t : IsTable s)
    (new : find_key s.keys fd s.busy_keys ≡ none) where
  -- A key that is not busy is filled in.
  fill_key-Registered :
      (k : Pointer) (free : List Pointer) (keys : Pointer → SelectionKey) (polls : ℕ → Poll)
      (max : ℕ)
      → Distinct (s.busy_keys ++ k ∷ free)
      → ((x : Pointer) → x ≢ k → keys x ≡ s.keys x)
      → ((j : ℕ) → j < s.num_polls → polls j ≡ s.polls j)
      → AllIdle s.keys free
      → s.num_polls < max
      → Returns (Registered operation fd attachment s) (
          fill_key operation fd attachment k (record s {
            busy_keys = s.busy_keys ++ k ∷ [];
            free_keys = free;
            keys = keys;
            polls = polls;
            max_polls = max;
          })
          >>= λ s'. ok (count_key k s'))
  unfolding fill_key
  fill_key-Registered k free keys polls max d same_keys same_polls idle room =
      let key = record (keys k) {
        poll = some s.num_polls;
        has_node = true;
        operation = operation;
        fd = fd;
        attachment = attachment;
        count = 0;
        cur_count = 0;
      } in
      let keys₁ = update k key keys in
      let keys₂ = update k (record (keys₁ k) { count = suc (keys₁ k).count }) keys₁ in
      let poll : Poll = record { fd = fd; events = operation; revents = 0 } in
      let at_k : keys₂ k ≡ record key { count = 1 } =
        update-same k (record (keys₁ k) { count = suc (keys₁ k).count }) keys₁
        ∙ ap (λ (y : SelectionKey). record y { count = suc y.count }) (update-same k key keys) in
      let slot : Slot (keys₂ k) (update s.num_polls poll polls s.num_polls) s.num_polls =
        rw (at_k, update-same s.num_polls poll polls)
          (record {
            index = refl;
            node = refl;
            same_fd = refl;
            same_events = refl;
            counted = omega arith;
          }) in
      let unfilled : NotIn (keys₂ k).fd (fds s.keys s.busy_keys) =
        rw at_k (find_key-none s.keys fd s.busy_keys new) in
      let (t', e') =
        IsTable-added s k free keys₂ (update s.num_polls poll polls) max s.cur_key false t d
          (λ x h.
            update-other k x (record (keys₁ k) { count = suc (keys₁ k).count }) keys₁ h
            ∙ update-other k x key keys h
            ∙ same_keys x h)
          (λ j h.
            update-other s.num_polls j poll polls (λ q. absurd (omega (arith, h, q)))
            ∙ same_polls j h)
          slot unfilled idle room in
      rw (let e : ltb s.num_polls max ≡ true = ground arith in e) (
        t',
        e'
            ∙ ap (λ (y : SelectionKey). table s ++ entry y ∷ []) at_k
            ∙ sym (
                register_entry-new operation attachment s.keys fd s.busy_keys
                  (find_key-none s.keys fd s.busy_keys new)),
        λ q. absurd (cc),
        refl,
      )

  make_room-Registered :
      (k : Pointer) (free : List Pointer) (keys : Pointer → SelectionKey)
      → Distinct (s.busy_keys ++ k ∷ free)
      → ((x : Pointer) → x ≢ k → keys x ≡ s.keys x)
      → AllIdle s.keys free
      → Returns
          (Registered operation fd attachment s)
          (elim (make_room true
            (record s { busy_keys = s.busy_keys ++ k ∷ []; free_keys = free; keys = keys })) [
              | none ↦ ok (
                none,
                record s {
                  busy_keys = s.busy_keys ++ k ∷ [];
                  free_keys = free;
                  keys = keys;
                  locked = false;
                },
              )
              | some s₂ ↦ fill_key operation fd attachment k s₂ >>= λ s₃. ok (count_key k s₃)
            ])
  unfolding make_room
  make_room-Registered k free keys d same idle = elim (Bool-cases (s.num_polls == s.max_polls)) [
    | inl e ↦ rw e (
        fill_key-Registered k free keys (update s.max_polls zero_poll s.polls) (suc s.max_polls) d
          same
          (λ j h.
            update-other s.max_polls j zero_poll s.polls
              (λ q. absurd (omega (arith, h, q, t.room))))
          idle (omega (arith, t.room)))
    | inr e ↦ rw e (
        fill_key-Registered k free keys s.polls s.max_polls d same (λ j h. refl) idle
          (ground (arith, t.room)))
  ]

  take_free-Registered :
      (made : Pointer) (free : List Pointer)
      → s.free_keys ≡ free
      → NotIn made s.busy_keys
      → Returns (Registered operation fd attachment s) (
          take_free free (some made) s >>= λ (k, s₁). elim (make_room true s₁) [
            | none ↦ ok (none, record s₁ { locked = false })
            | some s₂ ↦ fill_key operation fd attachment k s₂ >>= λ s₃. ok (count_key k s₃)
          ])
  take_free-Registered made [] e n =
      make_room-Registered made [] (update made new_selection_key s.keys)
        (Distinct-append made s.busy_keys n (Distinct-left s.busy_keys s.free_keys t.apart))
        (λ x h. update-other made x new_selection_key s.keys h) tt
  take_free-Registered made (k ∷ ks) e n =
      make_room-Registered k ks s.keys (subst (λ r. Distinct (s.busy_keys ++ r)) e t.apart)
        (λ x h. refl) (subst (λ r. AllIdle s.keys r) e t.idle).1

-- `Register` on a selector whose invariant holds, where memory suffices: the invariant holds again, the lock is
-- free, a key is returned, and the registrations are those that were there, with one more for the descriptor: its
-- count is one higher if it had an entry (whose operation and attachment stay), otherwise a new entry stands at
-- the end.
pub register-Registered :
    (made : Pointer) (operation fd : ℕ) (attachment : Pointer) (s : Selector)
    → IsTable s
    → NotIn made s.busy_keys
    → Returns
        (Registered operation fd attachment s)
        (register (some made) true operation fd attachment s)
unfolding register
register-Registered made operation fd attachment s t n = go (find_key s.keys fd s.busy_keys) refl
  where
    go :
        (r : Option Pointer)
        → find_key s.keys fd s.busy_keys ≡ r
        → Returns
            (Registered operation fd attachment s)
            (register_at r (some made) true operation fd attachment s)
    go none e = take_free-Registered operation fd attachment s t e made s.free_keys refl n
    go (some k) e =
        let (t', e') = counted_again s operation fd attachment k t e in
        (t', e', λ q. absurd (cc), refl)
