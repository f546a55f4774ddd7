-- ===== src/Client/Exit.antt =====
-- A client that loses its connections gives up after its retries, and its thread ends.
use aio4c.Prelude.{
  ℕ, ◌+◌, ◌≤◌, ◌<◌, ◌≡◌, refl, ap, ◌∙◌, inl, inr, Bool, true, false, List, [], ◌∷◌, ◌++◌, arith,
  if◌then◌else◌,
}
use aio4c.Event.{Pointer}
use aio4c.Event.Kind.{Event}
use aio4c.Queue.{QueueItem, event_item}
use aio4c.Connection.{Core}
use aio4c.Client.{Client, client_event, client_item, client_run}
use aio4c.Client.Retry.{
  openings, is_close, closes, NoConnected, Progress, Progress-join, Progress-same,
  client_item-Progress,
}

-- What a run changes, where it took the closes among the first of its items.
abbrev Ran : Client → List QueueItem → Bool × Client → Type 0
Ran s xs (more, s') = (m : ℕ) × Progress s s' m × (more ≡ true → m ≡ closes xs)

Ran-more :
    (b : Bool) (s s' : Client) (x : QueueItem) (xs : List QueueItem) (r : Bool × Client)
    → Progress s s' (if is_close x then 1 else 0)
    → Ran s' xs r
    → Ran s (x ∷ xs) (if b then r else (false, s'))
Ran-more true s s' x xs (more, s'') p (m, q, e) =
    let k : ℕ = if is_close x then 1 else 0 in
    (k + m, Progress-join s s' s'' k m p q, λ h. ground (arith, e h))
Ran-more false s s' x xs r p q = (if is_close x then 1 else 0, p, λ h. absurd (cc))

module _ (create : Client → Pointer × Core) (connect finish : Core → Core) where
  client_run-Ran :
      (xs : List QueueItem) (s : Client)
      → NoConnected xs
      → Ran s xs (client_run create connect finish xs s)
  unfolding client_run
  client_run-Ran [] s n = (0, Progress-same s s refl refl refl refl, λ h. refl)
  client_run-Ran (x ∷ xs) s (h, n) =
      let (more, s') = client_item create connect finish x s in
      Ran-more more s s' x xs (client_run create connect finish xs s')
        (client_item-Progress create connect finish x s h) (client_run-Ran xs s' n)

  client_run-append :
      (xs ys : List QueueItem) (s : Client)
      → client_run create connect finish (xs ++ ys) s ≡ (
          let (more, s') = client_run create connect finish xs s in
          if more then client_run create connect finish ys s' else (false, s'))
  unfolding client_run
  client_run-append [] ys s = refl
  client_run-append (x ∷ xs) ys s =
      go (client_item create connect finish x s) (client_run-append xs ys)
    where
      go :
          (r : Bool × Client)
          → ((s' : Client)
              → client_run create connect finish (xs ++ ys) s' ≡ (
                  let (more, s'') = client_run create connect finish xs s' in
                  if more then client_run create connect finish ys s'' else (false, s'')))
          → (if r.0 then client_run create connect finish (xs ++ ys) r.1 else (false, r.1)) ≡ (
              let (more, s') =
                (if r.0 then client_run create connect finish xs r.1 else (false, r.1)) in
              if more then client_run create connect finish ys s' else (false, s'))
      go (true, s') again = again s'
      go (false, s') again = refl

  -- While the client is not told that it is connected, whatever else it is told: each connection that it opens is one
  -- more retry, and it never has more retries than it was given. So it opens no more connections than it has
  -- retries left.
  pub client_run-bounded :
      (xs : List QueueItem) (s : Client)
      → NoConnected xs
      → s.retry_count ≤ s.retries
      → (openings (client_run create connect finish xs s).1.log + s.retry_count
          ≡ openings s.log + (client_run create connect finish xs s).1.retry_count)
        × ((client_run create connect finish xs s).1.retry_count ≤ s.retries)
  client_run-bounded xs s n h = let (m, p, e) = client_run-Ran xs s n in (p.counted, p.within h)

  -- A client whose connections were closed more often than it has retries left, without being told in between that it is
  -- connected, ends its thread at the latest when it is told that a connection is freed.
  pub client_run-exits :
      (xs ys : List QueueItem) (c : Pointer) (s : Client)
      → NoConnected xs
      → s.retry_count ≤ s.retries
      → s.retries < s.retry_count + closes xs
      → (client_run create connect finish (xs ++ event_item Event.free c ∷ ys) s).0 ≡ false
  unfolding client_run client_item client_event
  client_run-exits xs ys c s n h k =
      ap (λ (r : Bool × Client). r.0) (client_run-append xs (event_item Event.free c ∷ ys) s)
      ∙ last (client_run create connect finish xs s) (client_run-Ran xs s n)
    where
      last :
          (r : Bool × Client)
          → Ran s xs r
          → (if r.0
              then client_run create connect finish (event_item Event.free c ∷ ys) r.1
              else (false, r.1)).0
            ≡ false
      last (false, s') ran = refl
      last (true, s') (m, p, e) = elim p.gives_up [
        | inl q ↦ rw q
        | inr q ↦ absurd (omega (arith, q, e refl, p.within h, k))
      ]
