-- ===== src/Selector/Shift.antt =====
-- The loops of `Unregister`: everything behind the index `i` moves down by one.
use aio4c.Prelude.{
  update, ℕ, suc, ◌+◌, ◌≤◌, ◌<◌, ◌≡◌, ◌≢◌, refl, sym, ap, ◌∙◌, ◌==◌, ltb, true, inl, inr,
  Bool-cases, Option, none, some, List, [], ◌∷◌, ◌++◌, length, append_assoc, arith, if◌then◌else◌,
}
use mathlib.Core.Path.{subst}
use aio4c.Machine.Defs.{Returns}
use aio4c.Machine.Laws.{Returns-mono}
use aio4c.Event.{Pointer}
use aio4c.Selector.{Poll, SelectionKey, poll_is, lower_keys, shift_loop}
use aio4c.Selector.Table.{Slot, Aligned, update-same, update-other, update-keep}

-- One round for one key.
abbrev lowered : ℕ → Pointer → (Pointer → SelectionKey) → Pointer → SelectionKey
lowered i k keys =
    if poll_is (keys k).poll (suc i)
    then update k (record (keys k) { poll = some i }) keys
    else keys

lowered-other :
    (i m : ℕ) (k : Pointer) (keys : Pointer → SelectionKey) (x : Pointer)
    → (keys x).poll ≡ some m
    → m ≢ suc i
    → lowered i k keys x ≡ keys x
lowered-other i m k keys x e h = elim (Bool-cases (poll_is (keys k).poll (suc i))) [
  | inl t ↦ rw t (
      update-other k x (record (keys k) { poll = some i }) keys
        λ q. absurd (ground (arith, h, e, ap (λ y. (keys y).poll) q)))
  | inr t ↦ rw t
]

lower_keys-other :
    (i m : ℕ) (ks : List Pointer) (keys : Pointer → SelectionKey) (x : Pointer)
    → (keys x).poll ≡ some m
    → m ≢ suc i
    → lower_keys i ks keys x ≡ keys x
unfolding lower_keys
lower_keys-other i m [] keys x e h = refl
lower_keys-other i m (k ∷ ks) keys x e h =
    let same = lowered-other i m k keys x e h in
    lower_keys-other i m ks (lowered i k keys) x (ap (λ (y : SelectionKey). y.poll) same ∙ e) h
    ∙ same

lowered-hit :
    (i : ℕ) (keys : Pointer → SelectionKey) (x : Pointer)
    → (keys x).poll ≡ some (suc i)
    → lowered i x keys x ≡ record (keys x) { poll = some i }
lowered-hit i keys x e =
    rw (e, let t : (suc i == suc i) ≡ true = ground arith in t)
      (update-same x (record (keys x) { poll = some i }) keys)

lowered-elsewhere :
    (i : ℕ) (k : Pointer) (keys : Pointer → SelectionKey) (x : Pointer)
    → x ≢ k
    → lowered i k keys x ≡ keys x
lowered-elsewhere i k keys x h = elim (Bool-cases (poll_is (keys k).poll (suc i))) [
  | inl t ↦ rw t (update-other k x (record (keys k) { poll = some i }) keys h)
  | inr t ↦ rw t
]

-- The key after a round that lowered it.
lower_keys-done :
    (i : ℕ) (ks : List Pointer) (keys : Pointer → SelectionKey) (key : SelectionKey) (x : Pointer)
    → keys x ≡ record key { poll = some i }
    → lower_keys i ks keys x ≡ record key { poll = some i }
lower_keys-done i ks keys key x e =
    lower_keys-other i i ks keys x (ap (λ (y : SelectionKey). y.poll) e)
      (λ q. absurd (omega (arith, q)))
    ∙ e

lower_keys-hit :
    (i : ℕ) (before after : List Pointer) (keys : Pointer → SelectionKey) (x : Pointer)
    → (keys x).poll ≡ some (suc i)
    → lower_keys i (before ++ x ∷ after) keys x ≡ record (keys x) { poll = some i }
unfolding lower_keys
lower_keys-hit i [] after keys x e =
    lower_keys-done i after (lowered i x keys) (keys x) x (lowered-hit i keys x e)
lower_keys-hit i (k ∷ ks) after keys x e = elim (Bool-cases (x == k)) [
  | inl q ↦ lower_keys-done i (ks ++ x ∷ after) (lowered i k keys) (keys x) x (
      subst (λ t. lowered i t keys x ≡ record (keys x) { poll = some i })
        (let x_k : x ≡ k = ground arith in x_k) (lowered-hit i keys x e))
  | inr q ↦
      let same = lowered-elsewhere i k keys x (λ p. absurd (ground arith)) in
      lower_keys-hit i ks after (lowered i k keys) x (ap (λ (y : SelectionKey). y.poll) same ∙ e)
      ∙ ap (λ (y : SelectionKey). record y { poll = some i }) same
]

lower_keys-keep {ℓ} :
    {B : Type ℓ} (f : SelectionKey → B)
    → ((k : SelectionKey) (p : Option ℕ) → f (record k { poll = p }) ≡ f k)
    → (i : ℕ) (ks : List Pointer) (keys : Pointer → SelectionKey) (x : Pointer)
    → f (lower_keys i ks keys x) ≡ f (keys x)
unfolding lower_keys
lower_keys-keep f h i [] keys x = refl
lower_keys-keep f h i (k ∷ ks) keys x =
    lower_keys-keep f h i ks (lowered i k keys) x
    ∙ elim (Bool-cases (poll_is (keys k).poll (suc i))) [
      | inl t ↦
          rw t (update-keep f k (record (keys k) { poll = some i }) keys (h (keys k) (some i)) x)
      | inr t ↦ rw t
    ]

Aligned-lower :
    (i j : ℕ) (p : Poll) (bs ks : List Pointer) (keys : Pointer → SelectionKey) (polls : ℕ → Poll)
    → suc i < j
    → Aligned keys polls j ks
    → Aligned (lower_keys i bs keys) (update i p polls) j ks
Aligned-lower i j p bs [] keys polls h a = tt
Aligned-lower i j p bs (k ∷ ks) keys polls h (s, a) = (
  rw
      (
        lower_keys-other i j bs keys k s.index (λ q. absurd (omega (arith, h, q))),
        update-other i j p polls (λ q. absurd (omega (arith, h, q))),
      )
      s,
  Aligned-lower i (suc j) p bs ks keys polls (omega (arith, h)) a,
)

-- The keys `xs` have moved to the indices from `i` on; below, nothing has changed, and no key has lost
-- anything but its index.
pub record Shifted (xs : List Pointer) (i : ℕ) (keys : Pointer → SelectionKey) (polls : ℕ → Poll)
    (r : (Pointer → SelectionKey) × (ℕ → Poll)) : Type 0 where
  pub aligned : Aligned r.0 r.1 i xs
  pub low : (x : Pointer) (m : ℕ) → (keys x).poll ≡ some m → m ≤ i → r.0 x ≡ keys x
  pub kept : (x : Pointer) → record (r.0 x) { poll = none } ≡ record (keys x) { poll = none }
  pub low_polls : (j : ℕ) → j < i → r.1 j ≡ polls j

shift_round :
    (bs prefix : List Pointer) (x : Pointer) (xs : List Pointer) (i : ℕ)
    (keys : Pointer → SelectionKey) (polls : ℕ → Poll) (r : (Pointer → SelectionKey) × (ℕ → Poll))
    → bs ≡ prefix ++ x ∷ xs
    → Slot (keys x) (polls (suc i)) (suc i)
    → Shifted xs (suc i) (lower_keys i bs keys) (update i (polls (suc i)) polls) r
    → Shifted (x ∷ xs) i keys polls r
shift_round bs prefix x xs i keys polls r e s h =
    let lowered_x : lower_keys i bs keys x ≡ record (keys x) { poll = some i } =
      subst (λ t. lower_keys i t keys x ≡ record (keys x) { poll = some i }) (sym e)
        (lower_keys-hit i prefix xs keys x s.index) in
    let now_x : r.0 x ≡ record (keys x) { poll = some i } =
      h.low x i (ap (λ (y : SelectionKey). y.poll) lowered_x) (omega arith) ∙ lowered_x in
    let now_poll : r.1 i ≡ polls (suc i) =
      h.low_polls i (omega arith) ∙ update-same i (polls (suc i)) polls in
    record {
      aligned = (
        rw (now_x, now_poll)
            (record {
              index = refl;
              node = s.node;
              same_fd = s.same_fd;
              same_events = s.same_events;
              counted = s.counted;
            }),
        h.aligned,
      );
      low = λ y m q b.
          let same = lower_keys-other i m bs keys y q (λ t. absurd (omega (arith, b, t))) in
          h.low y m (ap (λ (z : SelectionKey). z.poll) same ∙ q) (omega (arith, b)) ∙ same;
      kept =
          λ y. h.kept y ∙ lower_keys-keep (λ k. record k { poll = none }) (λ k p. refl) i bs keys y;
      low_polls = λ j b.
          h.low_polls j (omega (arith, b))
          ∙ update-other i j (polls (suc i)) polls (λ t. absurd (omega (arith, b, t)));
    }

pub shift_loop-Shifted :
    (max : ℕ) (bs prefix xs : List Pointer) (i : ℕ) (keys : Pointer → SelectionKey)
    (polls : ℕ → Poll)
    → bs ≡ prefix ++ xs
    → Aligned keys polls (suc i) xs
    → i + length xs < max
    → Returns (Shifted xs i keys polls) (shift_loop max bs (length xs) i keys polls)
unfolding shift_loop
shift_loop-Shifted max bs prefix [] i keys polls e a h = record {
  aligned = tt;
  low = λ x m q b. refl;
  kept = λ x. refl;
  low_polls = λ j b. refl;
}
shift_loop-Shifted max bs prefix (x ∷ xs) i keys polls e (s, a) h =
    rw
      (
        let t : ltb (suc i) max ≡ true = ground arith in t,
        let t : ltb i max ≡ true = ground arith in t,
      )
      (Returns-mono (Shifted xs (suc i) (lower_keys i bs keys) (update i (polls (suc i)) polls))
        (Shifted (x ∷ xs) i keys polls) _
        (shift_loop-Shifted max bs (prefix ++ x ∷ []) xs (suc i) (lower_keys i bs keys)
          (update i (polls (suc i)) polls) (e ∙ sym (append_assoc prefix (x ∷ []) xs))
          (Aligned-lower i (suc (suc i)) (polls (suc i)) bs xs keys polls (omega arith) a)
          (omega (arith, h)))
        λ r t. shift_round bs prefix x xs i keys polls r e s t)
