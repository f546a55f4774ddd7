-- ===== src/Connection/Owned.antt =====
-- Owners: who manages a connection, and when it may be freed.
use aio4c.Prelude.{
  ◌≡◌, refl, ap, ◌∙◌, Bool, true, false, ◌||◌, List, [], ◌∷◌, ◌++◌, arith, replicate, length,
}
use aio4c.Event.Kind.{Event}
use aio4c.Event.{Pointer}
use aio4c.Connection.Kinds.{State, Owner}
use aio4c.Connection.{
  Core, Connection, Owners, no_owner, mark, all_owners, connection_no_more_used,
  connection_managed_by, with_core,
}
use aio4c.Connection.Flags.{Quiet, status, next_status, connection_state-status}

unfoldable pub mark_all : List Owner → Owners → Owners
mark_all [] s = s
mark_all (o ∷ os) s = mark_all os (mark o s)

-- The calls of `ConnectionNoMoreUsed` by some owners one after the other, with their results.
pub release_all : List Owner → Core → List Bool × Core
release_all [] c = ([], c)
release_all (o ∷ os) c =
    let (result, c') = connection_no_more_used o c in
    let (results, c'') = release_all os c' in (result ∷ results, c'')

all_owners-mark : (o : Owner) (s : Owners) → all_owners (mark o s) ≡ false → all_owners s ≡ false
all_owners-mark Owner.reader s h = ground arith
all_owners-mark Owner.worker s h = ground arith
all_owners-mark Owner.writer s h = ground arith
all_owners-mark Owner.acceptor s h = ground arith
all_owners-mark Owner.client s h = ground arith

all_owners-mark_all :
    (os : List Owner) (s : Owners) → all_owners (mark_all os s) ≡ false → all_owners s ≡ false
unfolding mark_all
all_owners-mark_all [] s h = h
all_owners-mark_all (o ∷ os) s h = all_owners-mark o s (all_owners-mark_all os (mark o s) h)

-- The mark of one owner, and whether an owner is among some.
abbrev pub has : Owner → Owners → Bool
has Owner.reader s = s.reader
has Owner.worker s = s.worker
has Owner.writer s = s.writer
has Owner.acceptor s = s.acceptor
has Owner.client s = s.client

abbrev pub is_owner : Owner → Owner → Bool
is_owner Owner.reader Owner.reader = true
is_owner Owner.worker Owner.worker = true
is_owner Owner.writer Owner.writer = true
is_owner Owner.acceptor Owner.acceptor = true
is_owner Owner.client Owner.client = true
is_owner p q = false

abbrev pub among : Owner → List Owner → Bool
among p [] = false
among p (q ∷ qs) = is_owner p q || among p qs

has-mark : (p q : Owner) (s : Owners) → has p (mark q s) ≡ (is_owner p q || has p s)
has-mark p q s = ground arith

has-mark_all :
    (p : Owner) (os : List Owner) (s : Owners) → has p (mark_all os s) ≡ (among p os || has p s)
unfolding mark_all
has-mark_all p [] s = refl
has-mark_all p (q ∷ qs) s = ground (arith, has-mark_all p qs (mark q s), has-mark p q s)

all_owners-has : (s : Owners) → ((p : Owner) → has p s ≡ true) → all_owners s ≡ true
all_owners-has s h =
    ground (arith, h Owner.reader, h Owner.worker, h Owner.writer, h Owner.acceptor, h Owner.client)

all_owners-missing : (p : Owner) (s : Owners) → has p s ≡ false → all_owners s ≡ false
all_owners-missing p s h = ground (arith, h)

-- The calls of some owners, of which the last completes the marks.
release_all_complete :
    (os : List Owner) (o : Owner) (c : Core)
    → all_owners (mark_all os c.closed_by) ≡ false
    → all_owners (mark o (mark_all os c.closed_by)) ≡ true
    → release_all (os ++ (o ∷ [])) c
      ≡ (replicate (length os) false ++ (true ∷ []), record c { closed_by = no_owner })
unfolding release_all mark_all connection_no_more_used
release_all_complete [] o c missing complete = rw complete
release_all_complete (p ∷ os) o c missing complete =
    rw (all_owners-mark_all os (mark p c.closed_by) missing) (
      ap {B = List Bool × Core} (λ r. (false ∷ r.0, r.1))
        (release_all_complete os o (record c { closed_by = mark p c.closed_by }) missing complete))

-- Some owners call `ConnectionNoMoreUsed`, in whatever order and however often, and then one that has not called yet, after
-- which each of the five owners has called: reader, worker, writer, acceptor and client. Then every call but
-- the last answers false, the last answers true, and it clears all marks.
pub release_all-last :
    (os : List Owner) (o : Owner) (c : Core)
    → has o c.closed_by ≡ false
    → among o os ≡ false
    → ((p : Owner) → (has p c.closed_by || among p (o ∷ os)) ≡ true)
    → release_all (os ++ (o ∷ [])) c
      ≡ (replicate (length os) false ++ (true ∷ []), record c { closed_by = no_owner })
release_all-last os o c unmarked new all =
    let s = mark_all os c.closed_by in
    release_all_complete os o c
      (all_owners-missing o s (ground (arith, has-mark_all o os c.closed_by, unmarked, new)))
      (all_owners-has (mark o s)
        λ p. ground (arith, has-mark p o s, has-mark_all p os c.closed_by, all p))

module _ {X : Type 0} (self : Pointer)
    (run : Pointer → Event → Pointer → Pointer → Core × X → Core × X) where
  -- The calls of `ConnectionManagedBy` by some owners one after the other.
  pub manage_all : List Owner → Connection × X → Connection × X
  manage_all [] w = w
  manage_all (o ∷ os) w = manage_all os (connection_managed_by self run o w)

module _ {X : Type 0} (self : Pointer)
    (run : Pointer → Event → Pointer → Pointer → Core × X → Core × X) (quiet : Quiet run) where
  abbrev marked : Owner → Connection × X → Connection × X
  marked o w = with_core (λ k. record k { managed_by = mark o k.managed_by }) w

  managed_by_missing :
      (o : Owner) (w : Connection × X)
      → all_owners (mark o w.0.core.managed_by) ≡ false
      → connection_managed_by self run o w ≡ marked o w
  unfolding connection_managed_by
  managed_by_missing o w missing = rw missing

  managed_by_complete :
      (o : Owner) (w : Connection × X)
      → all_owners (mark o w.0.core.managed_by) ≡ true
      → status (connection_managed_by self run o w).0.core
        ≡ next_status State.connected (status w.0.core)
  unfolding connection_managed_by
  managed_by_complete o w complete =
      rw complete (connection_state-status self run quiet State.connected (marked o w))

  -- The calls of `ConnectionManagedBy`, in whatever order and however often, with callbacks that leave the
  -- status alone in events of the state machine: nothing happens to the status
  -- while an owner is missing, and the call of the last one connects the connection, whatever its state
  -- is by then. So a connection that was closed meanwhile is connected again, readable and writable.
  pub manage_all-last :
      (os : List Owner) (o : Owner) (w : Connection × X)
      → all_owners (mark_all os w.0.core.managed_by) ≡ false
      → all_owners (mark o (mark_all os w.0.core.managed_by)) ≡ true
      → (status (manage_all self run os w).0.core ≡ status w.0.core)
        × (status (manage_all self run (os ++ (o ∷ [])) w).0.core
            ≡ next_status State.connected (status w.0.core))
  unfolding manage_all mark_all
  manage_all-last [] o w missing complete = (refl, managed_by_complete o w complete)
  manage_all-last (p ∷ os) o w missing complete =
      let e =
        managed_by_missing p w (all_owners-mark_all os (mark p w.0.core.managed_by) missing) in
      let (before, after) = manage_all-last os o (marked p w) missing complete in
      (
        ap (λ v. status (manage_all self run os v).0.core) e ∙ before,
        ap (λ v. status (manage_all self run (os ++ (o ∷ [])) v).0.core) e ∙ after,
      )
