-- ===== src/Selector/Scan.antt =====
-- The last loop of `SelectionKeyReady`.
use aio4c.Prelude.{
  update, ℕ, suc, ◌+◌, ◌≤◌, ◌<◌, ◌≡◌, ◌≢◌, refl, ◌==◌, ap, ltb, true, false, inl, inr, Bool-cases,
  Option, none, some, List, [], ◌∷◌, ◌++◌, length, arith, if◌then◌else◌,
}
use aio4c.Machine.Defs.{Returns}
use aio4c.Machine.Laws.{Returns-mono}
use aio4c.Event.{Pointer}
use aio4c.Selector.{Poll, Selector}
use aio4c.Selector.Iterate.{hand_out, scan}
use aio4c.Selector.Table.{Aligned, update-other}

-- The keys that `poll` reported, of those that stand at the indices from `i` on.
unfoldable pub ready_keys : (ℕ → Poll) → ℕ → List Pointer → List Pointer
ready_keys polls i [] = []
ready_keys polls i (k ∷ ks) =
    if ltb 0 (polls i).revents then k ∷ ready_keys polls (suc i) ks else ready_keys polls (suc i) ks

pub ready_keys-append :
    (polls : ℕ → Poll) (i j : ℕ) (xs ys : List Pointer)
    → i + length xs ≡ j
    → ready_keys polls i (xs ++ ys) ≡ ready_keys polls i xs ++ ready_keys polls j ys
unfolding ready_keys
ready_keys-append polls i j [] ys e =
    ap (λ n. ready_keys polls n ys) (let e' : i ≡ j = omega arith in e')
ready_keys-append polls i j (x ∷ xs) ys e = ground (
  arith,
  ready_keys-append polls (suc i) j xs ys (let e' : suc i + length xs ≡ j = omega arith in e'),
)

-- A write to a poll elsewhere.
pub ready_keys-update :
    (polls : ℕ → Poll) (i j : ℕ) (p : Poll) (ks : List Pointer)
    → ((m : ℕ) → i ≤ m → m < i + length ks → m ≢ j)
    → ready_keys (update j p polls) i ks ≡ ready_keys polls i ks
unfolding ready_keys
ready_keys-update polls i j p [] h = refl
ready_keys-update polls i j p (k ∷ ks) h = rw (
  update-other j i p polls (h i (omega arith) (omega arith)),
  ready_keys-update polls (suc i) j p ks (λ m a b. h m (omega (arith, a)) (omega (arith, b))),
)

-- What is different in `s'` where the key `k`, whose poll is at the index `j`, is handed out of `s`: the key has the events that were
-- reported, and one turn more; the poll reports nothing any more; `k` is the current key; and the lock is free.
pub record HandedOut (j : ℕ) (k : Pointer) (s s' : Selector) : Type 0 where
  pub result : (s'.keys k).result ≡ (s.polls j).revents
  pub turn : (s'.keys k).cur_count ≡ suc (s.keys k).cur_count
  pub count : (s'.keys k).count ≡ (s.keys k).count
  pub index : (s'.keys k).poll ≡ (s.keys k).poll
  pub node : (s'.keys k).has_node ≡ (s.keys k).has_node
  pub descriptor : (s'.keys k).fd ≡ (s.keys k).fd
  pub operation : (s'.keys k).operation ≡ (s.keys k).operation
  pub attachment : (s'.keys k).attachment ≡ (s.keys k).attachment
  pub other_keys : (other : Pointer) → other ≢ k → s'.keys other ≡ s.keys other
  pub reset : (s'.polls j).revents ≡ 0
  pub same_fd : (s'.polls j).fd ≡ (s.polls j).fd
  pub same_events : (s'.polls j).events ≡ (s.polls j).events
  pub other_polls : (i : ℕ) → i ≢ j → s'.polls i ≡ s.polls i
  pub cur_key : s'.cur_key ≡ some k
  pub unlocked : s'.locked ≡ false
  pub same_busy : s'.busy_keys ≡ s.busy_keys
  pub same_free : s'.free_keys ≡ s.free_keys
  pub same_num : s'.num_polls ≡ s.num_polls
  pub same_max : s'.max_polls ≡ s.max_polls

hand_out-HandedOut : (j : ℕ) (k : Pointer) (s : Selector) → HandedOut j k s (hand_out j k s)
hand_out-HandedOut j k s =
    let here : (k == k) ≡ true = ground arith in
    let there : (j == j) ≡ true = ground arith in
    record {
      result = rw here;
      turn = rw here;
      count = rw here;
      index = rw here;
      node = rw here;
      descriptor = rw here;
      operation = rw here;
      attachment = rw here;
      other_keys = λ other n. update-other k other _ s.keys n;
      reset = rw there;
      same_fd = rw there;
      same_events = rw there;
      other_polls = λ i n. update-other j i _ s.polls n;
      cur_key = refl;
      unlocked = refl;
      same_busy = refl;
      same_free = refl;
      same_num = refl;
      same_max = refl;
    }

-- The loop stops at the first key that is ready, or at the end.
pub data Scanned (s : Selector) (i : ℕ) (ks : List Pointer)
    : Option Pointer × Selector → Type 0 where
  found :
      (skipped after : List Pointer) {k : Pointer} {j : ℕ} {s' : Selector}
      → ks ≡ skipped ++ k ∷ after
      → i + length skipped ≡ j
      → ready_keys s.polls i skipped ≡ []
      → ltb 0 (s.polls j).revents ≡ true
      → HandedOut j k s s'
      → Scanned s i ks (some k, s')
  nothing :
      ready_keys s.polls i ks ≡ []
      → Scanned s i ks (none, record s { cur_key = none; locked = false })

pub scan-Scanned :
    (s : Selector) (i : ℕ) (ks : List Pointer)
    → Aligned s.keys s.polls i ks
    → i + length ks ≤ s.max_polls
    → Returns (Scanned s i ks) (scan ks s)
unfolding scan ready_keys
scan-Scanned s i [] a h = nothing refl
scan-Scanned s i (k ∷ ks) (slot, a) h = elim (Bool-cases (ltb 0 (s.polls i).revents)) [
  | inl e ↦
      rw (slot.index, let t : ltb i s.max_polls ≡ true = ground arith in t, e)
        (found [] ks refl (omega arith) refl e (hand_out-HandedOut i k s))
  | inr e ↦
      rw (slot.index, let t : ltb i s.max_polls ≡ true = ground arith in t, e)
        (Returns-mono (Scanned s (suc i) ks) (Scanned s i (k ∷ ks)) _
          (scan-Scanned s (suc i) ks a (omega arith)) λ r x. later e r x)
]
  where
    later :
        ltb 0 (s.polls i).revents ≡ false
        → (r : Option Pointer × Selector) → Scanned s (suc i) ks r
        → Scanned s i (k ∷ ks) r
    later e _ (found skipped after p q n t out) =
        found (k ∷ skipped) after (ap (λ r. k ∷ r) p) (omega (arith, q)) (rw e n) t out
    later e _ (nothing n) = nothing (rw e n)
