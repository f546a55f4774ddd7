-- ===== src/Acceptor/Exit.antt =====
-- What becomes of the connections in the queue of the acceptor when it ends.
use aio4c.Prelude.{◌≡◌, Bool, Option, some, List, [], ◌∷◌, ◌++◌}
use aio4c.Event.{Pointer, EventQueue, event_handler_remove}
use aio4c.Prelude.Distinct.{NotIn, Distinct}
use aio4c.Event.Kind.{Event}
use aio4c.Queue.{Queue}
use aio4c.Connection.Kinds.{Owner}
use aio4c.Connection.{Core, connection_no_more_used}
use aio4c.Acceptor.{Action, closed, Acceptor}

module _ (handler : Pointer) (close : Pointer → EventQueue → Core → Core) where
  -- What the connection `c` of the acceptor `a` comes to when it is closed and its owner gives it up: the close runs
  -- without the acceptor's handler.
  abbrev pub given_up : Acceptor → Pointer → Bool × Core
  given_up a c =
      connection_no_more_used Owner.acceptor
        (close c (event_handler_remove (a.handlers c) Event.close handler) (a.cores c))

  abbrev pub AllGivenUp : (a a' : Acceptor) → List Pointer → Type 0
  AllGivenUp a a' [] = Unit {0}
  AllGivenUp a a' (c ∷ cs) =
      ((a'.cores c ≡ (given_up a c).1)
        × (a'.handlers c ≡ event_handler_remove (a.handlers c) Event.close handler))
      × AllGivenUp a a' cs

  -- The entries of the log: each connection, and whether it was freed.
  abbrev pub entries : Acceptor → List Pointer → List Action
  entries a [] = []
  entries a (c ∷ cs) = closed c (given_up a c).0 ∷ entries a cs

  -- The loop has ended, and `cs` are the connections that it closed, in their order.
  abbrev pub HasClosed : List Pointer → Acceptor → Option Acceptor → Type 0
  HasClosed cs a r =
      (a' : Acceptor) × (r ≡ some a')
      × (a'.queue.busy ≡ [])
      × AllGivenUp a a' cs
      × ((d : Pointer) → NotIn d cs → (a'.cores d ≡ a.cores d) × (a'.handlers d ≡ a.handlers d))
      × (a'.log ≡ a.log ++ entries a cs)
