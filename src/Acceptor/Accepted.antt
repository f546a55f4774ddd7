-- ===== src/Acceptor/Accepted.antt =====
-- Which connections wait in the queue of the acceptor.
use aio4c.Prelude.{
  ◌≡◌, refl, sym, ap, ◌∙◌, ◌==◌, Bool, true, false, not, Bool-cases, inl, inr, List, [], ◌∷◌, ◌++◌,
  map, map-append, arith, if◌then◌else◌, ◌&&◌,
}
use mathlib.Core.Path.{subst}
use aio4c.Prelude.Int.{ℤ, pos, ◌<ℤ◌}
use aio4c.Machine.Defs.{Run, ok, ◌>>=◌, Returns, int_max}
use aio4c.Machine.Laws.{Returns-bind}
use aio4c.Event.{Pointer}
use aio4c.Event.Kind.{Event, same}
use aio4c.Queue.{Queue, data_item, enqueue_item, list_empty}
use aio4c.Queue.Remove.{picked, remove_all-picked}
use aio4c.Connection.Kinds.{Owner}
use aio4c.Connection.{connection_no_more_used}
use aio4c.Acceptor.{closed, Acceptor, put_core, accept_connection, acceptor_remove, acceptor_close}
use aio4c.Acceptor.Choose.{AllLoads, IsFirstLeast, choose_reader-IsFirstLeast}

-- What happens to the acceptor: a connection arrives, at given loads of the readers; or one is closed.
pub data Happening : Type 0 where
  arrives : (connection : Pointer) (load : ℤ) (loads : List ℤ) → Happening
  closes : (connection : Pointer) → Happening

unfoldable pub happen_all : List Happening → Acceptor → Run Acceptor
happen_all [] a = ok a
happen_all (arrives c load loads ∷ hs) a =
    accept_connection true c (record a { loads = load ∷ loads }) >>= happen_all hs
happen_all (closes c ∷ hs) a = happen_all hs (acceptor_close Event.close c a)

-- The connections that were accepted and not closed, oldest first.
unfoldable pub without : Pointer → List Pointer → List Pointer
without c [] = []
without c (d ∷ ds) = if d == c then without c ds else d ∷ without c ds

unfoldable pub open_after : List Happening → List Pointer → List Pointer
open_after [] cs = cs
open_after (arrives c load loads ∷ hs) cs = open_after hs (cs ++ c ∷ [])
open_after (closes c ∷ hs) cs = open_after hs (without c cs)

abbrev pub AllReady : List Happening → Type 0
AllReady [] = Unit {0}
AllReady (arrives c load loads ∷ hs) =
    AllLoads (λ other. other <ℤ pos int_max) (load ∷ loads) × AllReady hs
AllReady (closes c ∷ hs) = AllReady hs

picked-without :
    (c : Pointer) (cs : List Pointer)
    → picked (λ x. not (acceptor_remove c x)) (map data_item cs) ≡ map data_item (without c cs)
unfolding picked without
picked-without c [] = refl
picked-without c (d ∷ ds) = elim (Bool-cases (d == c)) [
  | inl e ↦ rw e (picked-without c ds)
  | inr e ↦ rw e (ap (λ r. data_item d ∷ r) (picked-without c ds))
]

-- The queue of an acceptor that has these connections.
pub record Waits (cs : List Pointer) (a : Acceptor) : Type 0 where
  pub has_lock : a.queue.has_lock ≡ true
  pub no_exit : a.queue.exit ≡ false
  pub busy : a.queue.busy ≡ map data_item cs
  pub full : a.queue.emptied ≡ false

accept_connection-Waits :
    (c : Pointer) (load : ℤ) (loads : List ℤ) (cs : List Pointer) (a : Acceptor)
    → AllLoads (λ other. other <ℤ pos int_max) (load ∷ loads)
    → Waits cs a
    → Returns (Waits (cs ++ c ∷ [])) (accept_connection true c (record a { loads = load ∷ loads }))
unfolding accept_connection enqueue_item
accept_connection-Waits c load loads cs a small w =
    let added : a.queue.busy ++ data_item c ∷ [] ≡ map data_item (cs ++ c ∷ []) =
      ap (λ r. r ++ data_item c ∷ []) w.busy ∙ sym (map-append data_item cs (c ∷ [])) in
    rw
      (
        w.has_lock,
        w.no_exit,
        (let e : (list_empty a.queue.free && false) ≡ false = ground arith in e),
      )
      (Returns-bind (IsFirstLeast (load ∷ loads)) (Waits (cs ++ c ∷ [])) _ _
        (choose_reader-IsFirstLeast load loads small)
        λ i first. record { has_lock = refl; no_exit = refl; busy = added; full = w.full })

acceptor_close-Waits :
    (c : Pointer) (cs : List Pointer) (a : Acceptor)
    → Waits cs a
    → Waits (without c cs) (acceptor_close Event.close c a)
unfolding acceptor_close same
acceptor_close-Waits c cs a w =
    subst
      (λ (r : Bool × Queue × Unit {0}).
        Waits (without c cs)
          (record (put_core c (connection_no_more_used Owner.acceptor (a.cores c)).1 a) {
            queue = r.1;
            log = a.log ++ closed c (connection_no_more_used Owner.acceptor (a.cores c)).0 ∷ [];
          }))
      (sym (remove_all-picked (acceptor_remove c) (λ x s. s) a.queue tt))
      (record {
        has_lock = w.has_lock;
        no_exit = w.no_exit;
        busy = ap (picked (λ x. not (acceptor_remove c x))) w.busy ∙ picked-without c cs;
        full = w.full;
      })

-- Whatever connections arrive and are closed, as long as there is a reader whenever one arrives, the loads of all readers are below INT_MAX, and memory suffices: no fault occurs, and
-- the queue of the acceptor has exactly the connections that arrived and were not closed since, in their order.
pub happen_all-Waits :
    (hs : List Happening) (cs : List Pointer) (a : Acceptor)
    → AllReady hs
    → Waits cs a
    → Returns (Waits (open_after hs cs)) (happen_all hs a)
unfolding happen_all open_after
happen_all-Waits [] cs a ready w = w
happen_all-Waits (arrives c load loads ∷ hs) cs a ready w =
    Returns-bind (Waits (cs ++ c ∷ [])) (Waits (open_after hs (cs ++ c ∷ []))) _ _
      (accept_connection-Waits c load loads cs a ready.0 w)
      λ a' w'. happen_all-Waits hs (cs ++ c ∷ []) a' ready.1 w'
happen_all-Waits (closes c ∷ hs) cs a ready w =
    happen_all-Waits hs (without c cs) (acceptor_close Event.close c a) ready
      (acceptor_close-Waits c cs a w)
