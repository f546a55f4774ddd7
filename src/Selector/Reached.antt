-- ===== src/Selector/Reached.antt =====
-- Any sequence of calls of `Register` and `Unregister` on a selector.
use aio4c.Prelude.{
  ℕ, ◌-◌, ◌≡◌, refl, sym, ap, ◌∙◌, ◌==◌, Bool, true, false, ◌||◌, inl, inr, Bool-cases, Option,
  none, some, List, [], ◌∷◌, ◌++◌, map-append, arith, if◌then◌else◌,
}
use mathlib.Core.Path.{subst}
use aio4c.Prelude.Distinct.{NotIn, Distinct, Distinct-remove, NotIn-left}
use aio4c.Machine.Defs.{ok, Returns}
use aio4c.Event.{Pointer}
use aio4c.Selector.{SelectionKey, Selector, new_selector, register, unregister}
use aio4c.Selector.Table.{IsTable, Entry, entry, entries, table, fds}
use aio4c.Selector.Register.{register_entry, Registered, register-Registered}
use aio4c.Selector.Unregister.{left_entry, Unregistered, unregister-Unregistered}

-- What `Unregister` means for the entry of a descriptor: it counts one less, or goes.
abbrev pub unregister_entry : (unregister_all : Bool) (fd : ℕ) → List Entry → List Entry
unregister_entry unregister_all fd [] = []
unregister_entry unregister_all fd (e ∷ es) =
    if e.fd == fd
    then (if unregister_all || e.count == 1 then es else record e { count = e.count - 1 } ∷ es)
    else e ∷ unregister_entry unregister_all fd es

unregister_entry-at :
    (keys : Pointer → SelectionKey) (before after : List Pointer) (k : Pointer)
    (unregister_all : Bool)
    → NotIn (keys k).fd (fds keys before)
    → unregister_entry unregister_all (keys k).fd (entries keys (before ++ k ∷ after))
      ≡ entries keys before
        ++ (left_entry (unregister_all || (keys k).count == 1) (keys k) ++ entries keys after)
unregister_entry-at keys [] after k unregister_all n =
    elim (Bool-cases (unregister_all || (keys k).count == 1)) [
      | inl e ↦ rw ((let h : ((keys k).fd == (keys k).fd) ≡ true = ground arith in h), e)
      | inr e ↦ rw ((let h : ((keys k).fd == (keys k).fd) ≡ true = ground arith in h), e)
    ]
unregister_entry-at keys (x ∷ before) after k unregister_all n =
    rw ((let h : ((keys x).fd == (keys k).fd) ≡ false = ground (arith, n.0) in h))
      (ap (λ r. entry (keys x) ∷ r) (unregister_entry-at keys before after k unregister_all n.1))

-- A selector that calls lead to, with the entries that the calls amount to.
pub data Reached : Selector → List Entry → Type 0 where
  made :
      (malloc malloc_polls read_nonblocking write_nonblocking : Bool) (pipe : Option ℕ)
      (op_read : ℕ) {s : Selector}
      → new_selector malloc malloc_polls pipe read_nonblocking write_nonblocking op_read ≡ some s
      → Reached s []
  added :
      {s' : Selector} {es : List Entry} (s : Selector) (node : Pointer) (operation fd : ℕ)
      (attachment : Pointer) (r : Option Pointer)
      → Reached s es
      → NotIn node s.busy_keys
      → register (some node) true operation fd attachment s ≡ ok (r, s')
      → Reached s' (register_entry operation fd attachment es)
  removed :
      {s' : Selector} (s : Selector) (es : List Entry) (before after : List Pointer) (k : Pointer)
      (unregister_all last : Bool)
      → Reached s es
      → s.busy_keys ≡ before ++ k ∷ after
      → unregister k unregister_all s ≡ ok (last, s')
      → Reached s' (unregister_entry unregister_all (s.keys k).fd es)

abbrev pub Represents : Selector → List Entry → Type 0
Represents s es = IsTable s × (table s ≡ es) × (s.locked ≡ false)

made-Represents :
    (malloc malloc_polls read_nonblocking write_nonblocking : Bool) (pipe : Option ℕ) (op_read : ℕ)
    (s : Selector)
    → new_selector malloc malloc_polls pipe read_nonblocking write_nonblocking op_read ≡ some s
    → Represents s []
unfolding new_selector
made-Represents malloc malloc_polls r w none op_read s e = absurd (cc)
made-Represents false malloc_polls r w (some fd) op_read s e = absurd (cc)
made-Represents true false r w (some fd) op_read s e = absurd (cc)
made-Represents true true false w (some fd) op_read s e = absurd (cc)
made-Represents true true true false (some fd) op_read s e = absurd (cc)
made-Represents true true true true (some fd) op_read s e =
    subst (λ (o : Option Selector). elim o [ none ↦ Unit | some x ↦ Represents x [] ]) e
      (
        record {
          apart = tt;
          one_each = tt;
          aligned = tt;
          idle = tt;
          filled = refl;
          room = omega arith;
        },
        refl,
        refl,
      )

-- The entry of a busy key is the only one for its descriptor.
removed-entries :
    (s : Selector) (before after : List Pointer) (k : Pointer) (unregister_all : Bool)
    → IsTable s
    → s.busy_keys ≡ before ++ k ∷ after
    → unregister_entry unregister_all (s.keys k).fd (table s)
      ≡ entries s.keys before
        ++ (left_entry (unregister_all || (s.keys k).count == 1) (s.keys k) ++ entries s.keys after)
removed-entries s before after k unregister_all t place =
    let d : Distinct (fds s.keys before ++ fds s.keys (k ∷ after)) =
      subst Distinct (ap (fds s.keys) place ∙ map-append (λ x. (s.keys x).fd) before (k ∷ after))
        t.one_each in
    ap (λ ks. unregister_entry unregister_all (s.keys k).fd (entries s.keys ks)) place
    ∙ unregister_entry-at s.keys before after k unregister_all (
        NotIn-left (s.keys k).fd (fds s.keys before) (fds s.keys after)
          (Distinct-remove (s.keys k).fd (fds s.keys before) (fds s.keys after) d).0)

-- After any sequence of successful calls of `Register`, with memory that suffices, and of `Unregister` on busy keys, on
-- a selector that `NewSelector` made, the table of polls and the lists of keys match: behind the pipe
-- there is one poll for each busy key, in order, with the key's descriptor and operation, and no descriptor has two
-- keys. The registrations are those that the calls amount to on a list of entries, and the lock is free.
pub Reached-Represents : {s : Selector} {es : List Entry} → Reached s es → Represents s es
Reached-Represents (made malloc malloc_polls r w pipe op_read {s} e) =
    made-Represents malloc malloc_polls r w pipe op_read s e
Reached-Represents (added {s'} {es} s node operation fd attachment r reached n e) =
    let (t, same, free) = Reached-Represents reached in
    let (t', same', b, free') : Registered operation fd attachment s (r, s') =
      subst (Returns (Registered operation fd attachment s)) e
        (register-Registered node operation fd attachment s t n) in
    (t', same' ∙ ap (register_entry operation fd attachment) same, free')
Reached-Represents (removed {s'} s es before after k unregister_all last reached place e) =
    let (t, same, free) = Reached-Represents reached in
    let (t', is_last, same', free') : Unregistered k before after unregister_all s (last, s') =
      subst (Returns (Unregistered k before after unregister_all s)) e
        (unregister-Unregistered k before after s t place unregister_all) in
    (
      t',
      same'
          ∙ (ap (λ l. entries s.keys before ++ (left_entry l (s.keys k) ++ entries s.keys after))
                is_last
              ∙ (sym (removed-entries s before after k unregister_all t place)
                  ∙ ap (unregister_entry unregister_all (s.keys k).fd) same)),
      free',
    )
