-- ===== src/Selector/Unregister.antt =====
-- `Unregister` as an operation on the registrations.
use aio4c.Prelude.{
  update, ℕ, suc, ◌+◌, ◌-◌, ◌≤◌, ◌<◌, ◌≡◌, refl, sym, ap, ◌∙◌, ◌==◌, ltb, Bool, true, false, not,
  ◌||◌, inl, inr, Bool-cases, none, some, List, [], ◌∷◌, ◌++◌, map, map-append, length,
  length-append, append_assoc, arith, if◌then◌else◌,
}
use mathlib.Core.Path.{subst}
use aio4c.Prelude.Distinct.{
  NotIn, Distinct, Distinct-remove, Distinct-append, NotIn-left, NotIn-right,
}
use aio4c.Machine.Defs.{Run, Returns}
use aio4c.Machine.Laws.{Returns-bind}
use aio4c.Event.{Pointer}
use aio4c.Selector.{
  Poll, SelectionKey, Selector, zero_poll, zero_key, without_key, drop_key, drop_at, unregister,
}
use aio4c.Selector.Table.{
  Aligned, AllIdle, fds, IsTable, Entry, entry, entries, table, update-same, update-other,
  IsTable-key, map-update, Aligned-update_poll, Aligned-update_key, Aligned-only, AllIdle-update,
  AllIdle-mono, map-cong,
}
use aio4c.Selector.Shift.{Shifted, shift_loop-Shifted}

Aligned-split :
    (keys : Pointer → SelectionKey) (polls : ℕ → Poll) (i j : ℕ) (xs ys : List Pointer)
    → i + length xs ≡ j
    → Aligned keys polls i (xs ++ ys)
    → Aligned keys polls i xs × Aligned keys polls j ys
Aligned-split keys polls i j [] ys e a =
    (tt, subst (λ t. Aligned keys polls t ys) (let e' : i ≡ j = omega arith in e') a)
Aligned-split keys polls i j (x ∷ xs) ys e (s, a) =
    let (b, c) = Aligned-split keys polls (suc i) j xs ys (omega arith) a in ((s, b), c)

Aligned-join :
    (keys : Pointer → SelectionKey) (polls : ℕ → Poll) (i j : ℕ) (xs ys : List Pointer)
    → i + length xs ≡ j
    → Aligned keys polls i xs
    → Aligned keys polls j ys
    → Aligned keys polls i (xs ++ ys)
Aligned-join keys polls i j [] ys e a b =
    subst (λ t. Aligned keys polls t ys) (let e' : j ≡ i = omega arith in e') b
Aligned-join keys polls i j (x ∷ xs) ys e (s, a) b =
    (s, Aligned-join keys polls (suc i) j xs ys (omega arith) a b)

-- Below the index `i` nothing changes.
Aligned-low :
    (keys keys' : Pointer → SelectionKey) (polls polls' : ℕ → Poll) (i j : ℕ) (ks : List Pointer)
    → ((x : Pointer) (m : ℕ) → (keys x).poll ≡ some m → m ≤ i → keys' x ≡ keys x)
    → ((m : ℕ) → m < i → polls' m ≡ polls m)
    → j + length ks ≤ i
    → Aligned keys polls j ks
    → Aligned keys' polls' j ks
Aligned-low keys keys' polls polls' i j [] h g b a = tt
Aligned-low keys keys' polls polls' i j (x ∷ xs) h g b (s, a) = (
  rw (h x j s.index (omega (arith, b)), g j (omega (arith, b))) s,
  Aligned-low keys keys' polls polls' i (suc j) xs h g (omega (arith, b)) a,
)

pub without_key-middle :
    (k : Pointer) (before after : List Pointer)
    → NotIn k before
    → without_key k (before ++ k ∷ after) ≡ before ++ after
without_key-middle k [] after n = rw (let e : (k == k) ≡ true = ground arith in e)
without_key-middle k (x ∷ xs) after n =
    rw (let e : (x == k) ≡ false = ground (arith, n.0) in e)
      (ap (λ r. x ∷ r) (without_key-middle k xs after n.1))

-- What `Unregister` returns and leaves, for the key `k` between `before` and `after`.
abbrev pub left_entry : Bool → SelectionKey → List Entry
left_entry true k = []
left_entry false k = record (entry k) { count = k.count - 1 } ∷ []

abbrev pub Unregistered :
    (k : Pointer) (before after : List Pointer) (unregister_all : Bool)
    → Selector
    → Bool × Selector
    → Type 0
Unregistered k before after unregister_all s (last, s') =
    IsTable s'
    × (last ≡ (unregister_all || (s.keys k).count == 1))
    × (table s' ≡ entries s.keys before ++ (left_entry last (s.keys k) ++ entries s.keys after))
    × (s'.locked ≡ false)

AllIdle-append :
    (keys : Pointer → SelectionKey) (ks : List Pointer) (k : Pointer)
    → AllIdle keys ks
    → (keys k).has_node ≡ false
    → AllIdle keys (ks ++ k ∷ [])
AllIdle-append keys [] k a e = (e, tt)
AllIdle-append keys (x ∷ xs) k (h, a) e = (h, AllIdle-append keys xs k a e)

module _ (k : Pointer) (before after : List Pointer) (s : Selector) (t : IsTable s)
    (place : s.busy_keys ≡ before ++ k ∷ after) where
  out : NotIn k (before ++ (after ++ s.free_keys)) × Distinct (before ++ (after ++ s.free_keys))
  out = Distinct-remove k before (after ++ s.free_keys) (
      subst Distinct
        (ap (λ r. r ++ s.free_keys) place ∙ append_assoc before (k ∷ after) s.free_keys) t.apart)

  nowhere : NotIn k ((before ++ after) ++ s.free_keys)
  nowhere = subst (λ r. NotIn k r) (sym (append_assoc before after s.free_keys)) out.0

  outside : NotIn k (before ++ after)
  outside = NotIn-left k (before ++ after) s.free_keys nowhere

  outside_before : NotIn k before
  outside_before = NotIn-left k before after outside

  outside_after : NotIn k after
  outside_after = NotIn-right k before after outside

  parts : Aligned s.keys s.polls 1 before × Aligned s.keys s.polls (suc (length before)) (k ∷ after)
  parts =
      Aligned-split s.keys s.polls 1 (suc (length before)) before (k ∷ after) (omega arith)
        (subst (λ r. Aligned s.keys s.polls 1 r) place t.aligned)

  size : s.num_polls ≡ suc (suc (length before + length after))
  size =
      omega (
        arith,
        t.filled,
        ap (λ (r : List Pointer). length r) place,
        length-append before (k ∷ after),
      )

  -- One registration less.
  counted_down :
      1 < (s.keys k).count
      → Unregistered k before after false s (
        false,
        record s {
          keys = update k (record (s.keys k) { count = (s.keys k).count - 1 }) s.keys;
          locked = false;
        },
      )
  counted_down more =
      let key = record (s.keys k) { count = (s.keys k).count - 1 } in
      let keys = update k key s.keys in
      (
        IsTable-key s k key s.cur_key false refl refl refl refl (omega arith) t,
        ground arith,
        ap (λ r. entries keys r) place
            ∙ map-append (λ x. entry (keys x)) before (k ∷ after)
            ∙ ap (λ r. r ++ (entry (keys k) ∷ entries keys after))
                (map-update entry s.keys before k key outside_before)
            ∙ ap (λ e. entries s.keys before ++ (entry e ∷ entries keys after))
                (update-same k key s.keys)
            ∙ ap (λ r. entries s.keys before ++ (entry key ∷ r))
                (map-update entry s.keys after k key outside_after),
        refl,
      )

  abbrev keys₀ : Pointer → SelectionKey
  keys₀ = update k zero_key s.keys

  -- After the loops.
  module _ (r : (Pointer → SelectionKey) × (ℕ → Poll))
      (h : Shifted after (suc (length before)) keys₀ s.polls r) where
    fields {ℓ} :
        {B : Type ℓ} (f : SelectionKey → B)
        → ((x : SelectionKey) → f (record x { poll = none }) ≡ f x)
        → map (λ x. f (r.0 x)) (before ++ after)
          ≡ map (λ x. f (s.keys x)) before ++ map (λ x. f (s.keys x)) after
    fields f g =
        map-cong (λ x. f (r.0 x)) (λ x. f (keys₀ x)) (before ++ after)
          (λ x. sym (g (r.0 x)) ∙ ap f (h.kept x) ∙ g (keys₀ x))
        ∙ map-update f s.keys (before ++ after) k zero_key outside
        ∙ map-append (λ x. f (s.keys x)) before after

    dropped : Unregistered k before after true s (
      true,
      record s {
        busy_keys = before ++ after;
        free_keys = s.free_keys ++ k ∷ [];
        keys = r.0;
        polls = update (s.num_polls - 1) zero_poll r.1;
        num_polls = s.num_polls - 1;
        locked = false;
      },
    )
    dropped = (
      record {
        apart = subst Distinct (append_assoc (before ++ after) s.free_keys (k ∷ [])) (
            Distinct-append k ((before ++ after) ++ s.free_keys) nowhere
              (subst Distinct (sym (append_assoc before after s.free_keys)) out.1));
        one_each = subst Distinct (sym (fields (λ x. x.fd) (λ x. refl))) one_each';
        aligned =
            Aligned-update_poll r.0 r.1 1 (before ++ after) (s.num_polls - 1) zero_poll
              (omega (arith, size, length-append before after))
              (Aligned-join r.0 r.1 1 (suc (length before)) before after (omega arith)
                (Aligned-low keys₀ r.0 s.polls r.1 (suc (length before)) 1 before h.low h.low_polls
                  (omega arith)
                  (Aligned-only s.keys keys₀ s.polls s.polls 1 (suc (length before)) before k
                    outside_before (λ x g. update-other k x zero_key s.keys g) (λ j g. refl)
                    (omega arith) parts.0))
                h.aligned);
        idle =
            AllIdle-mono keys₀ r.0 (s.free_keys ++ k ∷ [])
              (λ x. ap (λ (y : SelectionKey). y.has_node) (h.kept x))
              (AllIdle-append keys₀ s.free_keys k
                (AllIdle-update s.keys s.free_keys k zero_key
                  (NotIn-right k (before ++ after) s.free_keys nowhere) t.idle)
                (ap (λ (y : SelectionKey). y.has_node) (update-same k zero_key s.keys)));
        filled = omega (arith, size, length-append before after);
        room = omega (arith, t.room);
      },
      refl,
      fields entry (λ x. refl),
      refl,
    )
      where
        one_each' : Distinct (map (λ x. (s.keys x).fd) before ++ map (λ x. (s.keys x).fd) after)
        one_each' =
            (Distinct-remove (s.keys k).fd (fds s.keys before) (fds s.keys after) (
              subst Distinct
                (ap (λ ks. fds s.keys ks) place
                  ∙ map-append (λ x. (s.keys x).fd) before (k ∷ after))
                t.one_each)).1

  drop_key-dropped :
      Returns
        (λ s'. Unregistered k before after true s (true, s'))
        (drop_key k (suc (length before)) s)
  unfolding drop_key
  drop_key-dropped =
      let rounds : s.num_polls - 1 - suc (length before) ≡ length after = omega (arith, size) in
      rw
        (ap (λ r. without_key k r) place ∙ without_key-middle k before after outside_before, rounds)
        (Returns-bind (Shifted after (suc (length before)) keys₀ s.polls)
          (λ s'. Unregistered k before after true s (true, s')) _ _
          (shift_loop-Shifted s.max_polls (before ++ after) before after (suc (length before)) keys₀
            s.polls refl
            (Aligned-update_key s.keys s.polls (suc (suc (length before))) after k zero_key
              outside_after parts.1.1)
            (omega (arith, size, t.room)))
          λ r h.
            rw
              (
                let e : suc (length before) + length after ≡ s.num_polls - 1 =
                      omega (arith, size) in
                    e,
                let e : ltb (s.num_polls - 1) s.max_polls ≡ true = ground (arith, size, t.room) in
                    e,
              )
              (dropped r h))

  with_node :
      (Q : Bool × Selector → Type 0) (x y : Run (Bool × Selector))
      → Returns Q y
      → Returns Q (if not (s.keys k).has_node then x else y)
  with_node Q x y h = rw parts.1.0.node h

  -- The last registration goes.
  drop_at-dropped :
      (unregister_all : Bool)
      → true ≡ (unregister_all || (s.keys k).count == 1)
      → Returns
          (Unregistered k before after unregister_all s)
          (drop_at (some (suc (length before))) k s)
  drop_at-dropped unregister_all e =
      Returns-bind (λ s'. Unregistered k before after true s (true, s'))
        (Unregistered k before after unregister_all s) _ _ drop_key-dropped
        λ s' (u, l, e', f). (u, e, e', f)

  -- `Unregister` of a busy key of a selector whose invariant holds: the invariant holds again and the lock is free.
  -- Where all registrations are to go, or the key has one only, its entry is gone, and the caller is told that it was
  -- the last registration; otherwise the entry counts one less. The other entries stay as they are, in their order.
  pub unregister-Unregistered :
      (unregister_all : Bool)
      → Returns (Unregistered k before after unregister_all s) (unregister k unregister_all s)
  unfolding unregister
  unregister-Unregistered true = rw (parts.1.0.node, parts.1.0.index) (drop_at-dropped true refl)
  unregister-Unregistered false = elim (Bool-cases (ltb 0 ((s.keys k).count - 1))) [
    | inl e ↦
        with_node (Unregistered k before after false s) _ _ (rw e (counted_down (ground arith)))
    | inr e ↦
        rw (parts.1.0.node, e, parts.1.0.index)
          (drop_at-dropped false (
            let one : ((s.keys k).count == 1) ≡ true = ground (arith, parts.1.0.counted) in
            sym one))
  ]
