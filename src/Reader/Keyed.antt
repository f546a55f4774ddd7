-- ===== src/Reader/Keyed.antt =====
-- Connections and the keys that a selector has for them.
use aio4c.Prelude.{
  ℕ, ◌≡◌, ◌≢◌, refl, sym, ap, ◌∙◌, ◌==◌, false, Option, none, some, List, [], ◌∷◌, ◌++◌, map, arith,
}
use aio4c.Prelude.Distinct.{NotIn}
use aio4c.Event.{Pointer}
use aio4c.Selector.{SelectionKey, find_key}
use aio4c.Selector.Table.{Entry, entry, entries}

module _ (fd : Pointer → ℕ) (op_read : ℕ) where
  -- The registration of a connection for reading.
  abbrev pub entry_of : Pointer → Entry
  entry_of c = record { fd = fd c; operation = op_read; attachment = c; count = 1 }

  -- Connections and their keys, pairwise.
  abbrev pub Keyed :
      (Pointer → Option Pointer) → (Pointer → SelectionKey) → (cs ks : List Pointer) → Type 0
  Keyed read_key keys [] [] = Unit {0}
  Keyed read_key keys (c ∷ cs) (k ∷ ks) =
      (read_key c ≡ some k) × (entry (keys k) ≡ entry_of c) × Keyed read_key keys cs ks
  Keyed read_key keys [] (k ∷ ks) = ⊥
  Keyed read_key keys (c ∷ cs) [] = ⊥

  module _ (read_key read_key' : Pointer → Option Pointer) (keys keys' : Pointer → SelectionKey)
      (c k : Pointer) (same_read_key : (x : Pointer) → x ≢ c → read_key' x ≡ read_key x)
      (same_entry : (x : Pointer) → x ≢ k → entry (keys' x) ≡ entry (keys x)) where
    pub Keyed-kept :
        (cs ks : List Pointer)
        → NotIn c cs
        → NotIn k ks
        → Keyed read_key keys cs ks
        → Keyed read_key' keys' cs ks
    Keyed-kept [] [] n m h = tt
    Keyed-kept [] (y ∷ ks) n m h = absurd h
    Keyed-kept (x ∷ cs) [] n m h = absurd h
    Keyed-kept (x ∷ cs) (y ∷ ks) n m h = (
      same_read_key x (λ e. n.0 (sym e)) ∙ h.0,
      same_entry y (λ e. m.0 (sym e)) ∙ h.1,
      Keyed-kept cs ks n.1 m.1 h.2,
    )

  module _ (read_key : Pointer → Option Pointer) (keys : Pointer → SelectionKey) where
    pub Keyed-append :
        (cs ks es is : List Pointer)
        → Keyed read_key keys cs ks
        → Keyed read_key keys es is
        → Keyed read_key keys (cs ++ es) (ks ++ is)
    Keyed-append [] [] es is h g = g
    Keyed-append [] (k ∷ ks) es is h g = absurd h
    Keyed-append (c ∷ cs) [] es is h g = absurd h
    Keyed-append (c ∷ cs) (k ∷ ks) es is h g = (h.0, h.1, Keyed-append cs ks es is h.2 g)

    -- The key of one of the connections, among the others.
    pub record Place (before : List Pointer) (c : Pointer) (after ks : List Pointer) : Type 0 where
      pub left : List Pointer
      pub right : List Pointer
      pub key : Pointer
      pub place : ks ≡ left ++ key ∷ right
      pub keyed_left : Keyed read_key keys before left
      pub keyed_right : Keyed read_key keys after right
      pub at : read_key c ≡ some key

    pub Keyed-Place :
        (before : List Pointer) (c : Pointer) (after ks : List Pointer)
        → Keyed read_key keys (before ++ c ∷ after) ks
        → Place before c after ks
    Keyed-Place [] c after [] h = absurd h
    Keyed-Place (b ∷ before) c after [] h = absurd h
    Keyed-Place [] c after (k ∷ ks) h = record {
      left = [];
      right = ks;
      key = k;
      place = refl;
      keyed_left = tt;
      keyed_right = h.2;
      at = h.0;
    }
    Keyed-Place (b ∷ before) c after (k ∷ ks) h =
        let p = Keyed-Place before c after ks h.2 in
        record {
          left = k ∷ p.left;
          right = p.right;
          key = p.key;
          place = ap (λ r. k ∷ r) p.place;
          keyed_left = (h.0, h.1, p.keyed_left);
          keyed_right = p.keyed_right;
          at = p.at;
        }

    pub Keyed-entries :
        (cs ks : List Pointer) → Keyed read_key keys cs ks → entries keys ks ≡ map entry_of cs
    Keyed-entries [] [] h = refl
    Keyed-entries [] (k ∷ ks) h = absurd h
    Keyed-entries (c ∷ cs) [] h = absurd h
    Keyed-entries (c ∷ cs) (k ∷ ks) h = rw (h.1, Keyed-entries cs ks h.2) refl

    pub find_key-Keyed :
        (d : ℕ) (cs ks : List Pointer)
        → NotIn d (map fd cs)
        → Keyed read_key keys cs ks
        → find_key keys d ks ≡ none
    unfolding find_key
    find_key-Keyed d [] [] n h = refl
    find_key-Keyed d [] (k ∷ ks) n h = absurd h
    find_key-Keyed d (c ∷ cs) [] n h = absurd h
    find_key-Keyed d (c ∷ cs) (k ∷ ks) n h =
        let same_fd : (keys k).fd ≡ fd c = ap (λ (e : Entry). e.fd) h.1 in
        rw (let e : ((keys k).fd == d) ≡ false = ground (arith, same_fd, n.0) in e)
          (find_key-Keyed d cs ks n.1 h.2)
