-- ===== src/Reader/Managed.antt =====
-- Which connections a reader watches.
use aio4c.Prelude.{
  ℕ, suc, ◌+◌, ◌≡◌, refl, sym, ap, ◌∙◌, Bool, true, false, Option, none, some, List, [], ◌∷◌, ◌++◌,
  length, map, length-append, update, arith,
}
use mathlib.Core.Path.{subst}
use aio4c.Prelude.Int.{ℤ, pos, ◌+ℤ◌, ◌-ℤ◌}
use aio4c.Prelude.Distinct.{
  NotIn, Distinct, Distinct-remove, Distinct-append, Distinct-left, NotIn-left,
}
use aio4c.Machine.Defs.{Returns}
use aio4c.Machine.Laws.{Returns-bind, Returns-Whenever}
use aio4c.Event.{Pointer}
use aio4c.Event.Kind.{Event, same}
use aio4c.Queue.{QueueItem, event_item, data_item}
use aio4c.Connection.{Core, connection_no_more_used}
use aio4c.Selector.{Poll, SelectionKey, Selector, without_key}
use aio4c.Selector.Table.{IsTable, Aligned, entry, table, update-same, update-other}
use aio4c.Selector.Register.{Registered}
use aio4c.Selector.Unregister.{Unregistered, unregister-Unregistered, without_key-middle}
use aio4c.Selector.Kept.{AddedKey, register-AddedKey, DroppedKey, unregister-DroppedKey}
use aio4c.Reader.Keyed.{
  entry_of, Keyed, Keyed-kept, Keyed-append, Place, Keyed-Place, Keyed-entries, find_key-Keyed,
}
use aio4c.Reader.{Reader, drop_read_key, reader_close, reader_add, reader_item}

load_up : (load : ℤ) (n : ℕ) → load ≡ pos n → load +ℤ pos 1 ≡ pos (n + 1)
unfolding ◌+ℤ◌
load_up load n h = ground (arith, h)

load_down : (load : ℤ) (n : ℕ) → load ≡ pos (n + 1) → load -ℤ pos 1 ≡ pos n
unfolding ◌-ℤ◌
load_down load n h = ground (arith, h)

Aligned-node :
    (keys : Pointer → SelectionKey) (polls : ℕ → Poll) (i : ℕ) (before after : List Pointer)
    (k : Pointer)
    → Aligned keys polls i (before ++ k ∷ after)
    → (keys k).has_node ≡ true
Aligned-node keys polls i [] after k a = a.0.node
Aligned-node keys polls i (x ∷ before) after k a =
    Aligned-node keys polls (suc i) before after k a.1

module _ (fd : Pointer → ℕ) (op_read : ℕ) where
  -- A reader that watches these connections: its selector has one key for each of them, in their order, which is their
  -- `readKey` and is registered for reading from their descriptor, once and with the connection attached; and its load is
  -- their number.
  pub record Manages (cs : List Pointer) (r : Reader) : Type 0 where
    pub table_valid : IsTable r.selector
    pub apart : Distinct cs
    pub keyed : Keyed fd op_read r.read_key r.selector.keys cs r.selector.busy_keys
    pub load : r.load ≡ pos (length cs)

  module _ (managed_by : Pointer → Core → Core) where
    reader_add-Manages :
        (made : Pointer) (c : Pointer) (cs : List Pointer) (r : Reader)
        → Manages cs r
        → NotIn c cs
        → NotIn (fd c) (map fd cs)
        → NotIn made r.selector.busy_keys
        → Returns (Manages (cs ++ c ∷ [])) (reader_add fd op_read managed_by (some made) true c r)
    unfolding reader_add
    reader_add-Manages made c cs r m new new_fd fresh =
        Returns-bind
          (λ x. Registered op_read (fd c) c r.selector x × AddedKey op_read (fd c) c r.selector x)
          (Manages (cs ++ c ∷ [])) _ _
          (register-AddedKey op_read (fd c) c r.selector made m.table_valid fresh (
            find_key-Keyed fd op_read r.read_key r.selector.keys (fd c) cs r.selector.busy_keys
              new_fd m.keyed))
          λ x (registered, added). added_Manages x registered added
      where
        added_Manages :
            (x : Option Pointer × Selector)
            → Registered op_read (fd c) c r.selector x
            → AddedKey op_read (fd c) c r.selector x
            → Manages (cs ++ c ∷ []) (record r {
              cores = update c (managed_by c (r.cores c)) r.cores;
              selector = x.1;
              read_key = update c x.0 r.read_key;
              load = r.load +ℤ pos 1;
            })
        added_Manages x registered added =
            let outside : NotIn added.key r.selector.busy_keys =
              NotIn-left added.key r.selector.busy_keys []
                (Distinct-remove added.key r.selector.busy_keys [] (
                  subst Distinct added.busy
                    (Distinct-left x.1.busy_keys x.1.free_keys registered.0.apart))).0 in
            record {
              table_valid = registered.0;
              apart = Distinct-append c cs new m.apart;
              keyed =
                  subst (Keyed fd op_read (update c x.0 r.read_key) x.1.keys (cs ++ c ∷ []))
                    (sym added.busy)
                    (Keyed-append fd op_read (update c x.0 r.read_key) x.1.keys cs
                      r.selector.busy_keys (c ∷ []) (added.key ∷ [])
                      (Keyed-kept fd op_read r.read_key (update c x.0 r.read_key) r.selector.keys
                        x.1.keys c added.key (λ y h. update-other c y x.0 r.read_key h)
                        (λ y h. ap entry (added.others y h)) cs r.selector.busy_keys new outside
                        m.keyed)
                      (update-same c x.0 r.read_key ∙ added.returned, added.at_key, tt));
              load =
                  load_up r.load (length cs) m.load
                  ∙ ap pos (omega (arith, length-append cs (c ∷ [])));
            }

  module _ (before : List Pointer) (c : Pointer) (after : List Pointer) (r : Reader)
      (m : Manages (before ++ c ∷ after) r)
      (p : Place fd op_read r.read_key r.selector.keys before c after r.selector.busy_keys) where
    others : NotIn p.key (p.left ++ p.right)
    others =
        (Distinct-remove p.key p.left p.right (
          subst Distinct p.place
            (Distinct-left r.selector.busy_keys r.selector.free_keys m.table_valid.apart))).0

    -- The connection has no key any more.
    record Left (r' : Reader) : Type 0 where
      table_valid : IsTable r'.selector
      keyed : Keyed fd op_read r'.read_key r'.selector.keys (before ++ after) r'.selector.busy_keys
      same_load : r'.load ≡ r.load

    node : (r.selector.keys p.key).has_node ≡ true
    node =
        Aligned-node r.selector.keys r.selector.polls 1 p.left p.right p.key (
          subst (λ ks. Aligned r.selector.keys r.selector.polls 1 ks) p.place m.table_valid.aligned)

    Left-dropped :
        (x : Bool × Selector)
        → IsTable x.1
        → DroppedKey p.key r.selector x
        → Left (record r { selector = x.1; read_key = update c none r.read_key })
    Left-dropped x valid dropped = record {
      table_valid = valid;
      same_load = refl;
      keyed =
          subst (Keyed fd op_read (update c none r.read_key) x.1.keys (before ++ after))
            (sym (
              dropped.busy
              ∙ (ap (λ ks. without_key p.key ks) p.place
                  ∙ without_key-middle p.key p.left p.right
                      (NotIn-left p.key p.left p.right others))))
            (Keyed-kept fd op_read r.read_key (update c none r.read_key) r.selector.keys x.1.keys c
              p.key (λ y h. update-other c y none r.read_key h) dropped.others (before ++ after)
              (p.left ++ p.right) (Distinct-remove c before after m.apart).0 others
              (Keyed-append fd op_read r.read_key r.selector.keys before p.left after p.right
                p.keyed_left p.keyed_right));
    }

    drop_read_key-Left : Returns Left (drop_read_key (some p.key) c r)
    unfolding drop_read_key
    drop_read_key-Left =
        Returns-bind
          (λ x. Unregistered p.key p.left p.right true r.selector x × DroppedKey p.key r.selector x)
          Left _ _
          (Returns-Whenever (Unregistered p.key p.left p.right true r.selector)
            (DroppedKey p.key r.selector) _
            (unregister-Unregistered p.key p.left p.right r.selector m.table_valid p.place true)
            (unregister-DroppedKey p.key r.selector node))
          λ x (gone, dropped). Left-dropped x gone.0 dropped

    reader_close-Left : Returns (Manages (before ++ after)) (reader_close c r)
    unfolding reader_close connection_no_more_used
    reader_close-Left = rw p.at (
        Returns-bind Left (Manages (before ++ after)) _ _ drop_read_key-Left λ r' l. record {
          table_valid = l.table_valid;
          apart = (Distinct-remove c before after m.apart).1;
          keyed = l.keyed;
          load = load_down r'.load (length (before ++ after)) (
              l.same_load
              ∙ (m.load
                  ∙ ap pos (
                      omega
                        (arith, length-append before (c ∷ after), length-append before after))));
        })

  -- What an item means for the connections: one is handed to the reader, whose descriptor no other has; one of them is closed; or
  -- the item is another event. `made` is the address of a new key.
  pub data Change (made : Pointer) (r : Reader) : QueueItem → (cs cs' : List Pointer) → Type 0 where
    added :
        (c : Pointer) (cs : List Pointer)
        → NotIn c cs
        → NotIn (fd c) (map fd cs)
        → NotIn made r.selector.busy_keys
        → Change made r (data_item c) cs (cs ++ c ∷ [])
    closed :
        (before : List Pointer) (c : Pointer) (after : List Pointer)
        → Change made r (event_item Event.close c) (before ++ c ∷ after) (before ++ after)
    other :
        (e : Event) (c : Pointer) (cs : List Pointer)
        → same e Event.close ≡ false
        → Change made r (event_item e c) cs cs

  -- What an item leaves: the thread goes on, watches these connections, and the registrations of its selector are theirs.
  pub record Watching (cs : List Pointer) (x : Bool × Reader) : Type 0 where
    pub goes_on : x.0 ≡ true
    pub manages : Manages cs x.1
    pub registrations : table x.1.selector ≡ map (entry_of fd op_read) cs

  Manages-Watching : (cs : List Pointer) (r : Reader) → Manages cs r → Watching cs (true, r)
  Manages-Watching cs r m = record {
    goes_on = refl;
    manages = m;
    registrations =
        Keyed-entries fd op_read r.read_key r.selector.keys cs r.selector.busy_keys m.keyed;
  }

  -- A reader that watches some connections takes an item out of its queue, where memory suffices: no fault occurs, and it watches the connections
  -- that the item leaves. A connection that is handed to it is added behind the others, one that is closed is taken out, wherever it
  -- stands, and any other event changes nothing: the selector has one registration for each connection, for reading, the
  -- connections' `readKey` are their keys, and the load is their number.
  pub reader_item-Watching :
      (managed_by : Pointer → Core → Core) (made : Pointer) (item : QueueItem)
      (cs cs' : List Pointer) (r : Reader)
      → Manages cs r
      → Change made r item cs cs'
      → Returns (Watching cs') (reader_item fd op_read managed_by (some made) true item r)
  unfolding reader_item same
  reader_item-Watching managed_by made _ _ _ r m (added c cs new new_fd fresh) =
      Returns-bind (Manages (cs ++ c ∷ [])) (Watching (cs ++ c ∷ [])) _ _
        (reader_add-Manages managed_by made c cs r m new new_fd fresh)
        (Manages-Watching (cs ++ c ∷ []))
  reader_item-Watching managed_by made _ _ _ r m (closed before c after) =
      Returns-bind (Manages (before ++ after)) (Watching (before ++ after)) _ _
        (reader_close-Left before c after r m (
          Keyed-Place fd op_read r.read_key r.selector.keys before c after r.selector.busy_keys
            m.keyed))
        (Manages-Watching (before ++ after))
  reader_item-Watching managed_by made _ _ _ r m (other e c cs h) = rw h (Manages-Watching cs r m)
