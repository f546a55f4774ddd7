-- ===== src/Selector/Ready.antt =====
-- Where `SelectionKeyReady` goes on after the key that it handed out before.
use aio4c.Prelude.{update, ℕ, ◌+◌, ◌<◌, ◌≡◌, Option, none, some, List, [], ◌∷◌, ◌++◌, length}
use aio4c.Prelude.Distinct.{Distinct}
use aio4c.Event.{Pointer}
use aio4c.Selector.{Selector}

-- The current key is behind its last turn: `curCount = 0`.
abbrev pub ended : Pointer → Selector → Option Pointer → Selector
ended k s cur_key = record s {
  keys = update k (record (s.keys k) { cur_count = 0 }) s.keys;
  cur_key = cur_key;
}

-- Where the search for a key that is ready starts, and what the selector is like then: at the first key
-- where there is no current key, and also behind a current key that is the last one and was handed out as
-- often as it is registered; otherwise behind such a key.
pub data Starts (s : Selector) : ℕ → List Pointer → Selector → Type 0 where
  at_first :
      {k : Pointer} {after : List Pointer}
      → s.cur_key ≡ none
      → s.busy_keys ≡ k ∷ after
      → Starts s 1 (k ∷ after) (record s { cur_key = some k })
  behind :
      (before : List Pointer) (k : Pointer) {y : Pointer} {after : List Pointer} {i : ℕ}
      → s.cur_key ≡ some k
      → s.busy_keys ≡ before ++ k ∷ y ∷ after
      → 0 < (s.keys k).cur_count
      → (s.keys k).count ≡ (s.keys k).cur_count
      → length before + 2 ≡ i
      → Starts s i (y ∷ after) (ended k s (some y))
  around :
      (before : List Pointer) (k : Pointer) {y : Pointer} {after : List Pointer}
      → s.cur_key ≡ some k
      → s.busy_keys ≡ before ++ k ∷ []
      → s.busy_keys ≡ y ∷ after
      → 0 < (s.keys k).cur_count
      → (s.keys k).count ≡ (s.keys k).cur_count
      → Starts s 1 (y ∷ after) (ended k s (some y))
