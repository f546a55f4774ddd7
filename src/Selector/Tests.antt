-- ===== src/Selector/Tests.antt =====
-- The selector theorems at a selector with two busy keys and a free one.
use aio4c.Prelude.{update, ℕ, refl, none, some, [], ◌∷◌, true, false, ◌==◌, arith, if◌then◌else◌}
use aio4c.Machine.Defs.{Run, ok, fault}
use aio4c.Selector.{
  SelectionKey, Selector, zero_poll, zero_key, new_selector, register, find_key, make_room,
  fill_key, drop_key, shift_loop, lower_keys, unregister,
}
use aio4c.Selector.Iterate.{Answer, select}
use aio4c.Selector.Table.{IsTable}
use aio4c.Selector.Register.{register_entry}
use aio4c.Selector.Polled.{reported, IsAnswer, broken_pipe, Polled, select-Polled}
use aio4c.Selector.Reached.{unregister_entry, Reached, Represents, Reached-Represents}

abbrev key_at : (i fd : ℕ) → SelectionKey
key_at i fd = record {
  operation = 1;
  has_node = true;
  fd = fd;
  attachment = 50;
  poll = some i;
  count = 1;
  cur_count = 0;
  result = 0;
}

abbrev two_busy : Selector
two_busy = record {
  busy_keys = 10 ∷ 20 ∷ [];
  free_keys = 30 ∷ [];
  keys = λ k. if k == 10 then key_at 1 7 else if k == 20 then key_at 2 8 else zero_key;
  cur_key = none;
  polls = λ i.
      if i == 1
      then record { fd = 7; events = 1; revents = 0 }
      else if i == 2
      then record { fd = 8; events = 1; revents = 1 }
      else zero_poll;
  num_polls = 3;
  max_polls = 3;
  locked = false;
}

two_busy-IsTable : IsTable two_busy
two_busy-IsTable = record {
  apart = ((omega arith, (omega arith, tt)), ((omega arith, tt), (tt, tt)));
  one_each = ((omega arith, tt), (tt, tt));
  aligned = (
    record { index = refl; node = refl; same_fd = refl; same_events = refl; counted = omega arith },
    (
      record {
        index = refl;
        node = refl;
        same_fd = refl;
        same_events = refl;
        counted = omega arith;
      },
      tt,
    ),
  );
  idle = (refl, tt);
  filled = refl;
  room = omega arith;
}

-- A new selector, on which one descriptor is registered and unregistered.
abbrev empty : Selector
empty = record {
  busy_keys = [];
  free_keys = [];
  keys = λ k. zero_key;
  cur_key = none;
  polls = update 0 (record { fd = 3; events = 1; revents = 0 }) (λ i. zero_poll);
  num_polls = 1;
  max_polls = 1;
  locked = false;
}

empty-Reached : Reached empty []
unfolding new_selector
empty-Reached = Reached.made true true true true (some 3) 1 refl

abbrev value {ℓ} : {A : Type ℓ} → Run (A × Selector) → Selector
value (ok (a, s)) = s
value fault = empty

abbrev one_in : Selector
one_in = value (register (some 10) true 4 7 50 empty)

abbrev one_out : Selector
one_out = value (unregister 10 false one_in)

one_in-Reached : Reached one_in (register_entry 4 7 50 [])
unfolding register find_key make_room fill_key
one_in-Reached = Reached.added empty 10 4 7 50 (some 10) empty-Reached tt refl

one_out-Reached : Reached one_out (unregister_entry false 7 (register_entry 4 7 50 []))
unfolding unregister drop_key shift_loop lower_keys register find_key make_room fill_key
one_out-Reached =
    Reached.removed one_in (register_entry 4 7 50 []) [] [] 10 false true one_in-Reached refl refl

Reached-Represents_example :
    Represents one_out (unregister_entry false 7 (register_entry 4 7 50 []))
Reached-Represents_example = Reached-Represents one_out-Reached

-- `poll` reports the pipe and the second key.
abbrev two_reported : Answer
two_reported = record { ready = 2; revents = λ i. if i == 1 then 0 else 1 }

two_reported-IsAnswer : IsAnswer two_reported 3
unfolding reported
two_reported-IsAnswer = refl

select-Polled_example :
    Polled two_busy two_reported.revents (broken_pipe 1 1) (select (some two_reported) 1 two_busy)
select-Polled_example = select-Polled two_reported 1 two_busy two_busy-IsTable two_reported-IsAnswer
