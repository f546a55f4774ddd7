-- ===== src/Event/Kind.antt =====
-- `enum e_EventType`, whose values index the lists of handlers.
use aio4c.Prelude.{ℕ, ◌≡◌, Bool, true, ◌==◌, arith}

pub data Event : Type 0 where
  init connecting connected read inbound_data write outbound_data pending_close close free : Event

abbrev pub index : Event → ℕ
index init = 0
index connecting = 1
index connected = 2
index read = 3
index inbound_data = 4
index write = 5
index outbound_data = 6
index pending_close = 7
index close = 8
index free = 9

unfoldable pub same : Event → Event → Bool
same a b = index a == index b

pub same_self : (a : Event) → same a a ≡ true
unfolding same
same_self a = ground arith

pub index-injective : (a b : Event) → index a ≡ index b → a ≡ b
index-injective a b e = ground arith

pub eq_of_same : (a b : Event) → same a b ≡ true → a ≡ b
unfolding same
eq_of_same a b e = index-injective a b (ground arith)
