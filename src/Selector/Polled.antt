-- ===== src/Selector/Polled.antt =====
-- What `Select` makes of the answer of `poll`.
use aio4c.Prelude.{
  update, ℕ, zero, suc, ◌+◌, ◌-◌, ◌≤◌, ◌<◌, ◌≡◌, refl, sym, ap, ◌∙◌, ◌==◌, ltb, Bool, true, false,
  not, ◌&&◌, inl, inr, Bool-cases, some, List, [], ◌∷◌, length, arith, if◌then◌else◌,
}
use Prim.Native.Nat.{bit_and, bit_and-bitwise}
use mathlib.Core.Path.{subst}
use aio4c.Event.{Pointer}
use aio4c.Selector.{Poll, SelectionKey, Selector}
use aio4c.Selector.Iterate.{Answer, select}
use aio4c.Selector.Table.{Aligned, IsTable, table}
use aio4c.Selector.Scan.{ready_keys}

-- How many of the `n` descriptors from the index `i` on are reported.
unfoldable pub reported : (ℕ → ℕ) → ℕ → ℕ → ℕ
reported revents i zero = 0
reported revents i (suc n) = (if ltb 0 (revents i) then 1 else 0) + reported revents (suc i) n

-- `poll` returns the number of descriptors that it reports.
abbrev pub IsAnswer : Answer → (n : ℕ) → Type 0
IsAnswer a n = a.ready ≡ reported a.revents 0 n

-- 1 where the pipe is reported, but not for reading: for an error, or as closed.
abbrev pub broken_pipe : (op_read revents : ℕ) → ℕ
broken_pipe op_read revents = if ltb 0 revents && (bit_and revents op_read == 0) then 1 else 0

-- A descriptor that is not reported is not reported for reading.
not_reported : (op_read r : ℕ) → ltb 0 r ≡ false → (bit_and r op_read == 0) ≡ true
not_reported op_read r e =
    let z : 0 ≡ r = ground (arith, e) in
    let none_set : bit_and 0 op_read ≡ 0 = bit_and-bitwise 0 op_read in
    subst (λ n. (bit_and n op_read == 0) ≡ true) z (ground (arith, none_set))

ready_keys-reported :
    (polls : ℕ → Poll) (revents : ℕ → ℕ) (i : ℕ) (ks : List Pointer)
    → ((j : ℕ) → i ≤ j → j < i + length ks → (polls j).revents ≡ revents j)
    → length (ready_keys polls i ks) ≡ reported revents i (length ks)
unfolding ready_keys reported
ready_keys-reported polls revents i [] h = refl
ready_keys-reported polls revents i (k ∷ ks) h =
    let first : (polls i).revents ≡ revents i = h i (omega arith) (omega arith) in
    ground (
      arith,
      first,
      ready_keys-reported polls revents (suc i) ks
          (λ j a b. h j (omega (arith, a)) (omega (arith, b))),
    )

Aligned-polls :
    (keys : Pointer → SelectionKey) (polls polls' : ℕ → Poll) (i : ℕ) (ks : List Pointer)
    → ((j : ℕ) → ((polls' j).fd ≡ (polls j).fd) × ((polls' j).events ≡ (polls j).events))
    → Aligned keys polls i ks
    → Aligned keys polls' i ks
Aligned-polls keys polls polls' i [] h a = tt
Aligned-polls keys polls polls' i (k ∷ ks) h (s, a) = (
  record {
    index = s.index;
    node = s.node;
    same_fd = (h i).0 ∙ s.same_fd;
    same_events = (h i).1 ∙ s.same_events;
    counted = s.counted;
  },
  Aligned-polls keys polls polls' (suc i) ks h a,
)

-- A selector that differs from `s` in what is reported only; `extra` more than the keys that are ready are counted.
abbrev pub Polled : (s : Selector) (revents : ℕ → ℕ) (extra : ℕ) → ℕ × Selector → Type 0
Polled s revents extra (n, s') =
    IsTable s'
    × (table s' ≡ table s)
    × (n ≡ length (ready_keys s'.polls 1 s'.busy_keys) + extra)
    × ((j : ℕ) → 1 ≤ j → j < s.num_polls → (s'.polls j).revents ≡ revents j)
    × (s'.locked ≡ false)

module _ (a : Answer) (op_read : ℕ) (s : Selector) (t : IsTable s)
    (answer : IsAnswer a s.num_polls) where
  abbrev extra : ℕ
  extra = broken_pipe op_read (a.revents 0)

  abbrev polls_of : ℕ → Poll
  polls_of i = if ltb i s.num_polls then record (s.polls i) { revents = a.revents i } else s.polls i

  polled :
      (n : ℕ) (polls : ℕ → Poll)
      → ((j : ℕ) → ((polls j).fd ≡ (s.polls j).fd) × ((polls j).events ≡ (s.polls j).events))
      → ((j : ℕ) → 1 ≤ j → j < s.num_polls → (polls j).revents ≡ a.revents j)
      → n ≡ reported a.revents 1 (length s.busy_keys) + extra
      → Polled s a.revents extra (n, record s { polls = polls; locked = false })
  polled n polls same revents count = (
    record {
      apart = t.apart;
      one_each = t.one_each;
      aligned = Aligned-polls s.keys s.polls polls 1 s.busy_keys same t.aligned;
      idle = t.idle;
      filled = t.filled;
      room = t.room;
    },
    refl,
    count
        ∙ ap (λ m. m + extra)
            (sym (
              ready_keys-reported polls a.revents 1 s.busy_keys
                (λ j l u. revents j l (omega (arith, u, t.filled))))),
    revents,
    refl,
  )

  same_polls :
      (j : ℕ) → ((polls_of j).fd ≡ (s.polls j).fd) × ((polls_of j).events ≡ (s.polls j).events)
  same_polls j = elim (Bool-cases (ltb j s.num_polls)) [
    | inl e ↦ rw e (refl, refl)
    | inr e ↦ rw e (refl, refl)
  ]

  same_revents : (j : ℕ) → j < s.num_polls → (polls_of j).revents ≡ a.revents j
  same_revents j h = rw (let e : ltb j s.num_polls ≡ true = ground arith in e)

  pipe_first :
      reported a.revents 0 s.num_polls
      ≡ (if ltb 0 (a.revents 0) then 1 else 0) + reported a.revents 1 (length s.busy_keys)
  unfolding reported
  pipe_first = ap (reported a.revents 0) t.filled

  pick :
      (b : Bool) (x y : ℕ × Selector)
      → (b ≡ true → Polled s a.revents extra x)
      → (b ≡ false → Polled s a.revents extra y)
      → Polled s a.revents extra (if b then x else y)
  pick true x y p q = p refl
  pick false x y p q = q refl

  -- On a selector whose invariant holds, where `poll` returns the number of descriptors that it reports: `Select` returns
  -- the number of keys that are reported, and one more where the pipe is reported, but not for reading. The polls of the keys hold what
  -- was reported, the invariant holds again, the registrations are as before, and the lock is free.
  pub select-Polled :
      Polled s a.revents (broken_pipe op_read (a.revents 0)) (select (some a) op_read s)
  unfolding select
  select-Polled =
      let zeroth : (polls_of 0).revents ≡ a.revents 0 = same_revents 0 (omega (arith, t.filled)) in
      let test : (bit_and (polls_of 0).revents op_read == 0)
          ≡ (bit_and (a.revents 0) op_read == 0) =
        ap (λ r. bit_and r op_read == 0) zeroth in
      pick (not (bit_and (polls_of 0).revents op_read == 0)) _ _
        (λ e.
          polled (a.ready - 1) (update 0 (record (polls_of 0) { revents = 0 }) polls_of)
            (λ j. elim (Bool-cases (j == 0)) [
              | inl q ↦
                  let z : 0 ≡ j = ground arith in
                  subst
                    (λ m.
                      ((update 0 (record (polls_of 0) { revents = 0 }) polls_of m).fd
                        ≡ (s.polls m).fd)
                      × ((update 0 (record (polls_of 0) { revents = 0 }) polls_of m).events
                          ≡ (s.polls m).events))
                    z (same_polls 0)
              | inr q ↦ rw q (same_polls j)
            ])
            (λ j l u. rw (let q : (j == 0) ≡ false = ground (arith, l) in q) (same_revents j u))
            (read (ground (arith, e, test))))
        (λ e.
          polled a.ready polls_of same_polls (λ j l u. same_revents j u)
            (not_read (ground (arith, e, test))))
    where
      read :
          (bit_and (a.revents 0) op_read == 0) ≡ false
          → a.ready - 1 ≡ reported a.revents 1 (length s.busy_keys) + extra
      read e = elim (Bool-cases (ltb 0 (a.revents 0))) [
        | inl q ↦ ground (arith, answer, pipe_first, q, e)
        | inr q ↦ absurd (cc (not_reported op_read (a.revents 0) q, e))
      ]

      not_read :
          (bit_and (a.revents 0) op_read == 0) ≡ true
          → a.ready ≡ reported a.revents 1 (length s.busy_keys) + extra
      not_read e = elim (Bool-cases (ltb 0 (a.revents 0))) [
        | inl q ↦ ground (arith, answer, pipe_first, q, e)
        | inr q ↦ ground (arith, answer, pipe_first, q, e)
      ]
