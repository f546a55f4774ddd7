-- ===== src/Selector/Table.antt =====
-- The table of polls against the list of busy keys.
use aio4c.Prelude.{
  update, ℕ, suc, ◌+◌, ◌≤◌, ◌<◌, ◌≡◌, ◌≢◌, refl, sym, ap, ◌∙◌, ◌==◌, Bool, true, false, inl, inr,
  Bool-cases, Option, some, List, [], ◌∷◌, ◌++◌, map, length, arith,
}
use mathlib.Core.Path.{fun_ext, subst}
use aio4c.Prelude.Distinct.{NotIn, Distinct}
use aio4c.Event.{Pointer}
use aio4c.Selector.{Poll, SelectionKey, Selector}

-- A key that stands at the index `i` of the table.
pub record Slot (k : SelectionKey) (p : Poll) (i : ℕ) : Type 0 where
  pub index : k.poll ≡ some i
  pub node : k.has_node ≡ true
  pub same_fd : p.fd ≡ k.fd
  pub same_events : p.events ≡ k.operation
  pub counted : 0 < k.count

-- The keys stand at the indices from `i` on, in their order.
abbrev pub Aligned : (Pointer → SelectionKey) → (ℕ → Poll) → ℕ → List Pointer → Type 0
Aligned keys polls i [] = Unit
Aligned keys polls i (k ∷ ks) = Slot (keys k) (polls i) i × Aligned keys polls (suc i) ks

abbrev pub AllIdle : (Pointer → SelectionKey) → List Pointer → Type 0
AllIdle keys [] = Unit
AllIdle keys (k ∷ ks) = ((keys k).has_node ≡ false) × AllIdle keys ks

abbrev pub fds : (Pointer → SelectionKey) → List Pointer → List ℕ
fds keys ks = map (λ k. (keys k).fd) ks

-- The invariant of a selector: behind the pipe, which has the index 0, stand the busy keys in their order,
-- one for each descriptor.
pub record IsTable (s : Selector) : Type 0 where
  pub apart : Distinct (s.busy_keys ++ s.free_keys)
  pub one_each : Distinct (fds s.keys s.busy_keys)
  pub aligned : Aligned s.keys s.polls 1 s.busy_keys
  pub idle : AllIdle s.keys s.free_keys
  pub filled : s.num_polls ≡ suc (length s.busy_keys)
  pub room : s.num_polls ≤ s.max_polls

-- What a registration amounts to.
pub record Entry : Type 0 where
  pub fd : ℕ
  pub operation : ℕ
  pub attachment : Pointer
  pub count : ℕ

abbrev pub entry : SelectionKey → Entry
entry k = record { fd = k.fd; operation = k.operation; attachment = k.attachment; count = k.count }

abbrev pub entries : (Pointer → SelectionKey) → List Pointer → List Entry
entries keys ks = map (λ k. entry (keys k)) ks

abbrev pub table : Selector → List Entry
table s = entries s.keys s.busy_keys

pub update-same {ℓ} : {A : Type ℓ} (i : ℕ) (a : A) (f : ℕ → A) → update i a f i ≡ a
update-same i a f = rw (let e : (i == i) ≡ true = ground arith in e)

pub update-other {ℓ} : {A : Type ℓ} (i j : ℕ) (a : A) (f : ℕ → A) → j ≢ i → update i a f j ≡ f j
update-other i j a f h = rw (let e : (j == i) ≡ false = ground (arith, h) in e)

-- A write to a key elsewhere.
pub Aligned-update_key :
    (keys : Pointer → SelectionKey) (polls : ℕ → Poll) (i : ℕ) (ks : List Pointer) (k : Pointer)
    (key : SelectionKey)
    → NotIn k ks
    → Aligned keys polls i ks
    → Aligned (update k key keys) polls i ks
Aligned-update_key keys polls i [] k key n a = tt
Aligned-update_key keys polls i (x ∷ xs) k key n (s, a) = (
  rw (update-other k x key keys (λ e. n.0 (sym e))) s,
  Aligned-update_key keys polls (suc i) xs k key n.1 a,
)

pub Aligned-update_poll :
    (keys : Pointer → SelectionKey) (polls : ℕ → Poll) (i : ℕ) (ks : List Pointer) (j : ℕ)
    (p : Poll)
    → i + length ks ≤ j
    → Aligned keys polls i ks
    → Aligned keys (update j p polls) i ks
Aligned-update_poll keys polls i [] j p h a = tt
Aligned-update_poll keys polls i (x ∷ xs) j p h (s, a) = (
  rw (update-other j i p polls (λ e. absurd (omega (arith, h, e)))) s,
  Aligned-update_poll keys polls (suc i) xs j p (omega arith) a,
)

pub Aligned-append :
    (keys : Pointer → SelectionKey) (polls : ℕ → Poll) (i j : ℕ) (ks : List Pointer) (k : Pointer)
    → i + length ks ≡ j
    → Aligned keys polls i ks
    → Slot (keys k) (polls j) j
    → Aligned keys polls i (ks ++ k ∷ [])
Aligned-append keys polls i j [] k e a s = (rw (let e' : i ≡ j = omega arith in e') s, tt)
Aligned-append keys polls i j (x ∷ xs) k e (t, a) s =
    (t, Aligned-append keys polls (suc i) j xs k (omega arith) a s)

pub AllIdle-update :
    (keys : Pointer → SelectionKey) (ks : List Pointer) (k : Pointer) (key : SelectionKey)
    → NotIn k ks
    → AllIdle keys ks
    → AllIdle (update k key keys) ks
AllIdle-update keys [] k key n a = tt
AllIdle-update keys (x ∷ xs) k key n (e, a) =
    (rw (update-other k x key keys (λ e. n.0 (sym e))) e, AllIdle-update keys xs k key n.1 a)

module _ {ℓ} {B : Type ℓ} (f : SelectionKey → B) where
  pub map-update :
      (keys : Pointer → SelectionKey) (ks : List Pointer) (k : Pointer) (key : SelectionKey)
      → NotIn k ks
      → map (λ x. f (update k key keys x)) ks ≡ map (λ x. f (keys x)) ks
  map-update keys [] k key n = refl
  map-update keys (x ∷ xs) k key n =
      rw (update-other k x key keys (λ e. n.0 (sym e)))
        (ap (λ t. f (keys x) ∷ t) (map-update keys xs k key n.1))

-- A write to a key that keeps a field.
pub update-keep {ℓ} :
    {B : Type ℓ} (f : SelectionKey → B) (k : Pointer) (key : SelectionKey)
    (keys : Pointer → SelectionKey)
    → f key ≡ f (keys k)
    → (x : Pointer) → f (update k key keys x) ≡ f (keys x)
update-keep f k key keys e x = elim (Bool-cases (x == k)) [
  | inl q ↦ rw q (e ∙ ap (λ t. f (keys t)) (let k_x : k ≡ x = ground arith in k_x))
  | inr q ↦ rw q
]

pub map-cong {ℓ} :
    {B : Type ℓ} (f g : Pointer → B) (ks : List Pointer)
    → ((x : Pointer) → f x ≡ g x)
    → map f ks ≡ map g ks
map-cong f g ks h = ap (λ t. map t ks) (fun_ext h)

pub Aligned-mono :
    (keys keys' : Pointer → SelectionKey) (polls : ℕ → Poll) (i : ℕ) (ks : List Pointer)
    → ((x : Pointer) (p : Poll) (j : ℕ) → Slot (keys x) p j → Slot (keys' x) p j)
    → Aligned keys polls i ks
    → Aligned keys' polls i ks
Aligned-mono keys keys' polls i [] h a = tt
Aligned-mono keys keys' polls i (x ∷ xs) h (s, a) =
    (h x (polls i) i s, Aligned-mono keys keys' polls (suc i) xs h a)

pub AllIdle-mono :
    (keys keys' : Pointer → SelectionKey) (ks : List Pointer)
    → ((x : Pointer) → (keys' x).has_node ≡ (keys x).has_node)
    → AllIdle keys ks
    → AllIdle keys' ks
AllIdle-mono keys keys' [] h a = tt
AllIdle-mono keys keys' (x ∷ xs) h (e, a) = (h x ∙ e, AllIdle-mono keys keys' xs h a)

module _ (k : Pointer) (key : SelectionKey) (keys : Pointer → SelectionKey)
    (index : key.poll ≡ (keys k).poll) (node : key.has_node ≡ (keys k).has_node)
    (same_fd : key.fd ≡ (keys k).fd) (same_operation : key.operation ≡ (keys k).operation)
    (counted : 0 < key.count) where
  Slot-update :
      (x : Pointer) (p : Poll) (j : ℕ) → Slot (keys x) p j → Slot (update k key keys x) p j
  Slot-update x p j h = record {
    index = update-keep (λ y. y.poll) k key keys index x ∙ h.index;
    node = update-keep (λ y. y.has_node) k key keys node x ∙ h.node;
    same_fd = h.same_fd ∙ sym (update-keep (λ y. y.fd) k key keys same_fd x);
    same_events = h.same_events ∙ sym (update-keep (λ y. y.operation) k key keys same_operation x);
    counted = elim (Bool-cases (x == k)) [ inl q ↦ rw q counted | inr q ↦ rw q h.counted ];
  }

-- A write to a key that keeps its index, its node, its descriptor and its operation.
pub IsTable-key :
    (s : Selector) (k : Pointer) (key : SelectionKey) (cur_key : Option Pointer) (locked : Bool)
    → key.poll ≡ (s.keys k).poll
    → key.has_node ≡ (s.keys k).has_node
    → key.fd ≡ (s.keys k).fd
    → key.operation ≡ (s.keys k).operation
    → 0 < key.count
    → IsTable s
    → IsTable (record s { keys = update k key s.keys; cur_key = cur_key; locked = locked })
IsTable-key s k key cur_key locked index node same_fd same_operation counted t =
    let keys = update k key s.keys in
    record {
      apart = t.apart;
      one_each =
          subst Distinct
            (sym (
              map-cong (λ x. (keys x).fd) (λ x. (s.keys x).fd) s.busy_keys
                (update-keep (λ x. x.fd) k key s.keys same_fd)))
            t.one_each;
      aligned =
          Aligned-mono s.keys keys s.polls 1 s.busy_keys
            (Slot-update k key s.keys index node same_fd same_operation counted) t.aligned;
      idle =
          AllIdle-mono s.keys keys s.free_keys (update-keep (λ x. x.has_node) k key s.keys node)
            t.idle;
      filled = t.filled;
      room = t.room;
    }

-- What differs at one key only agrees on lists without that key.
pub map-only {ℓ} :
    {B : Type ℓ} (f g : Pointer → B) (ks : List Pointer) (k : Pointer)
    → NotIn k ks
    → ((x : Pointer) → x ≢ k → f x ≡ g x)
    → map f ks ≡ map g ks
map-only f g [] k n h = refl
map-only f g (x ∷ xs) k n h =
    ap (λ b. b ∷ map f xs) (h x (λ e. n.0 (sym e))) ∙ ap (λ r. g x ∷ r) (map-only f g xs k n.1 h)

pub AllIdle-only :
    (keys keys' : Pointer → SelectionKey) (ks : List Pointer) (k : Pointer)
    → NotIn k ks
    → ((x : Pointer) → x ≢ k → keys' x ≡ keys x)
    → AllIdle keys ks
    → AllIdle keys' ks
AllIdle-only keys keys' [] k n h a = tt
AllIdle-only keys keys' (x ∷ xs) k n h (e, a) = (
  ap (λ (y : SelectionKey). y.has_node) (h x (λ q. n.0 (sym q))) ∙ e,
  AllIdle-only keys keys' xs k n.1 h a,
)

pub Aligned-only :
    (keys keys' : Pointer → SelectionKey) (polls polls' : ℕ → Poll) (i end : ℕ) (ks : List Pointer)
    (k : Pointer)
    → NotIn k ks
    → ((x : Pointer) → x ≢ k → keys' x ≡ keys x)
    → ((j : ℕ) → j < end → polls' j ≡ polls j)
    → i + length ks ≤ end
    → Aligned keys polls i ks
    → Aligned keys' polls' i ks
Aligned-only keys keys' polls polls' i end [] k n h g b a = tt
Aligned-only keys keys' polls polls' i end (x ∷ xs) k n h g b (s, a) = (
  rw (h x (λ q. n.0 (sym q)), g i (omega (arith, b))) s,
  Aligned-only keys keys' polls polls' (suc i) end xs k n.1 h g (omega (arith, b)) a,
)
