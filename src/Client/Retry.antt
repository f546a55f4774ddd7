-- ===== src/Client/Retry.antt =====
-- How often a client tries to connect.
use aio4c.Prelude.{
  ℕ, suc, ◌+◌, ◌≤◌, ◌≡◌, refl, ◌∙◌, ◌⊎◌, ltb, Bool, true, false, not, Bool-cases, inl, inr, List,
  [], ◌∷◌, ◌++◌, arith, if◌then◌else◌,
}
use aio4c.Event.{Pointer}
use aio4c.Event.Kind.{Event}
use aio4c.Queue.{QueueItem, undefined, event_item, data_item, task_item, exit_item}
use aio4c.Connection.Kinds.{State, Owner, is_state}
use aio4c.Connection.{Core, connection_no_more_used}
use aio4c.Client.{
  put_core, Action, opened, managed, freed, Client, free_closed, open_connection, retry, manage,
  client_event, client_item,
}

-- How many connections the log opens, and how many closes are in a sequence of items.
unfoldable pub openings : List Action → ℕ
openings [] = 0
openings (opened c ∷ log) = suc (openings log)
openings (managed c ∷ log) = openings log
openings (freed c ∷ log) = openings log

abbrev pub is_close : QueueItem → Bool
is_close (event_item Event.close c) = true
is_close _ = false

abbrev pub is_connected : QueueItem → Bool
is_connected (event_item Event.connected c) = true
is_connected _ = false

abbrev pub closes : List QueueItem → ℕ
closes [] = 0
closes (x ∷ xs) = if is_close x then suc (closes xs) else closes xs

-- The client is not told in between that it is connected.
abbrev pub NoConnected : List QueueItem → Type 0
NoConnected [] = Unit
NoConnected (x ∷ xs) = (is_connected x ≡ false) × NoConnected xs

openings-append : (xs ys : List Action) → openings (xs ++ ys) ≡ openings xs + openings ys
unfolding openings
openings-append [] ys = omega arith
openings-append (opened c ∷ xs) ys = omega (arith, openings-append xs ys)
openings-append (managed c ∷ xs) ys = openings-append xs ys
openings-append (freed c ∷ xs) ys = openings-append xs ys

-- What changes from `s` to `s'` while `n` closes are handled.
pub record Progress (s s' : Client) (n : ℕ) : Type 0 where
  pub same_retries : s'.retries ≡ s.retries
  pub counted : openings s'.log + s.retry_count ≡ openings s.log + s'.retry_count
  pub within : s.retry_count ≤ s.retries → s'.retry_count ≤ s.retries
  pub stays : s.exiting ≡ true → s'.exiting ≡ true
  pub gives_up : (s'.exiting ≡ true) ⊎ (s'.retry_count ≡ s.retry_count + n)

pub Progress-join :
    (s s' s'' : Client) (m n : ℕ) → Progress s s' m → Progress s' s'' n → Progress s s'' (m + n)
Progress-join s s' s'' m n p q = record {
  same_retries = q.same_retries ∙ p.same_retries;
  counted = omega (arith, p.counted, q.counted);
  within = λ h.
      omega
        (arith, p.within h, q.within (omega (arith, p.within h, p.same_retries)), p.same_retries);
  stays = λ h. q.stays (p.stays h);
  gives_up = elim q.gives_up [
    | inl e ↦ inl e
    | inr e ↦ elim p.gives_up [ inl e' ↦ inl (q.stays e') | inr e' ↦ inr (omega (arith, e, e')) ]
  ];
}

-- Nothing that counts changes.
pub Progress-same :
    (s s' : Client)
    → s'.retries ≡ s.retries
    → s'.retry_count ≡ s.retry_count
    → s'.exiting ≡ s.exiting
    → openings s'.log ≡ openings s.log
    → Progress s s' 0
Progress-same s s' a b c d = record {
  same_retries = a;
  counted = omega (arith, b, d);
  within = λ h. omega (arith, b, h);
  stays = λ h. c ∙ h;
  gives_up = inr (omega (arith, b));
}

Progress-if :
    (b : Bool) (s x y : Client) (n : ℕ)
    → Progress s x n
    → Progress s y n
    → Progress s (if b then x else y) n
Progress-if true s x y n p q = p
Progress-if false s x y n p q = q

module _ (create : Client → Pointer × Core) (connect finish : Core → Core) where
  free_closed-Progress : (c : Pointer) (s : Client) → Progress s (free_closed c s) 0
  unfolding free_closed openings
  free_closed-Progress c s =
      let gone = openings-append s.log (freed c ∷ []) ∙ omega arith in
      Progress-if (not s.connected) s _ _ 0 (Progress-same s _ refl refl refl gone) (
        Progress-if (connection_no_more_used Owner.client (s.cores c)).0 s _ _ 0
          (Progress-same s _ refl refl refl gone) (Progress-same s _ refl refl refl refl))

  retry-Progress :
      (closed_for_error : Bool) (s : Client)
      → Progress s (retry create connect finish closed_for_error s) 1
  unfolding retry open_connection openings
  retry-Progress false s = record {
    same_retries = refl;
    counted = omega arith;
    within = λ h. h;
    stays = λ h. refl;
    gives_up = inl refl;
  }
  retry-Progress true s = elim (Bool-cases (ltb s.retry_count s.retries)) [
    | inl e ↦ rw e (record {
      same_retries = refl;
      counted = omega (
        arith,
        openings-append s.log
            (opened (create (record s { retry_count = suc s.retry_count })).0 ∷ []),
      );
      within = λ h. ground arith;
      stays = λ h. h;
      gives_up = inr (omega arith);
    })
    | inr e ↦ rw e (record {
      same_retries = refl;
      counted = omega arith;
      within = λ h. h;
      stays = λ h. refl;
      gives_up = inl refl;
    })
  ]

  manage-Progress : (c : Pointer) (s : Client) → Progress s (manage create connect finish c s) 0
  unfolding manage openings
  manage-Progress c s =
      Progress-if (is_state (s.cores c).state State.closed) s _ _ 0
        (Progress-same s _ refl refl refl refl)
        (Progress-same s _ refl refl refl (openings-append s.log (managed c ∷ []) ∙ omega arith))

  client_event-Progress :
      (e : Event) (c : Pointer) (s : Client)
      → is_connected (event_item e c) ≡ false
      → Progress s
          (client_event create connect finish e c s).1
          (if is_close (event_item e c) then 1 else 0)
  unfolding client_event
  client_event-Progress Event.init c s h = Progress-same s _ refl refl refl refl
  client_event-Progress Event.connecting c s h =
      Progress-join s (put_core c (finish (s.cores c)) s) _ 0 0
        (Progress-same s _ refl refl refl refl)
        (manage-Progress c (put_core c (finish (s.cores c)) s))
  client_event-Progress Event.connected c s h = absurd (cc)
  client_event-Progress Event.close c s h =
      Progress-join s (free_closed c s) _ 0 1 (free_closed-Progress c s)
        (retry-Progress (s.cores c).closed_for_error (free_closed c s))
  client_event-Progress Event.free c s h = Progress-same s _ refl refl refl refl
  client_event-Progress Event.read c s h = Progress-same s _ refl refl refl refl
  client_event-Progress Event.inbound_data c s h = Progress-same s _ refl refl refl refl
  client_event-Progress Event.write c s h = Progress-same s _ refl refl refl refl
  client_event-Progress Event.outbound_data c s h = Progress-same s _ refl refl refl refl
  client_event-Progress Event.pending_close c s h = Progress-same s _ refl refl refl refl

  pub client_item-Progress :
      (x : QueueItem) (s : Client)
      → is_connected x ≡ false
      → Progress s (client_item create connect finish x s).1 (if is_close x then 1 else 0)
  unfolding client_item
  client_item-Progress exit_item s h = Progress-same s _ refl refl refl refl
  client_item-Progress (event_item e c) s h = client_event-Progress e c s h
  client_item-Progress (data_item p) s h = Progress-same s _ refl refl refl refl
  client_item-Progress (task_item e c b) s h = Progress-same s _ refl refl refl refl
  client_item-Progress undefined s h = Progress-same s _ refl refl refl refl
