-- ===== src/Thread/Table.antt =====
-- `_ThreadSelf` finds the thread that runs.
use aio4c.Prelude.{
  ℕ, ◌+◌, ◌≤◌, ◌<◌, ◌≡◌, refl, ◌==◌, ltb, true, Bool-cases, inl, inr, ◌∙◌, take_all, Option, some,
  none, List, [], ◌∷◌, ◌++◌, length, length-append, arith, update, if◌then◌else◌,
}
use aio4c.Machine.Defs.{Run, ok, ◌>>=◌, Returns}
use aio4c.Machine.Laws.{Returns-mono}
use aio4c.Lock.{Thread}
use aio4c.Thread.{
  max_threads, Table, thread_main, add_thread, clear_slot, clear_thread, find_thread, thread_self,
}

-- What happens to the table: ThreadStart adds a thread, and a thread that ends takes itself off.
pub data Change : Type 0 where
  added ended : Thread → Change

unfoldable pub change_all : List Change → Table → Run Table
change_all [] xs = ok xs
change_all (added t ∷ cs) xs = add_thread t xs >>= change_all cs
change_all (ended t ∷ cs) xs = change_all cs (clear_thread t xs)

abbrev pub adds : List Change → ℕ
adds [] = 0
adds (added t ∷ cs) = adds cs + 1
adds (ended t ∷ cs) = adds cs

module _ (id : Thread → ℕ) where
  -- Which thread has an identifier.
  abbrev pub owner_after : List Change → (ℕ → Option Thread) → ℕ → Option Thread
  owner_after [] owner = owner
  owner_after (added t ∷ cs) owner = owner_after cs (update (id t) (some t) owner)
  owner_after (ended t ∷ cs) owner = owner_after cs (update (id t) none owner)

  -- A thread that is added has an identifier that no thread has, and a thread that ends was added.
  abbrev pub Possible : List Change → (ℕ → Option Thread) → Type 0
  Possible [] owner = Unit {0}
  Possible (added t ∷ cs) owner = (owner (id t) ≡ none) × Possible cs (update (id t) (some t) owner)
  Possible (ended t ∷ cs) owner = (owner (id t) ≡ some t) × Possible cs (update (id t) none owner)

  -- The threads of the table own their identifiers, and they are all threads that own one.
  abbrev Own : Table → (ℕ → Option Thread) → Type 0
  Own [] owner = Unit {0}
  Own (none ∷ xs) owner = Own xs owner
  Own (some t ∷ xs) owner = (owner (id t) ≡ some t) × Own xs owner

  abbrev Represents : Table → (ℕ → Option Thread) → Type 0
  Represents xs owner = Own xs owner × ((i : ℕ) → find_thread id i xs ≡ owner i)

  find-append :
      (i : ℕ) (t : Thread) (xs : Table)
      → find_thread id i (xs ++ some t ∷ []) ≡ elim (find_thread id i xs) [
        | none ↦ (if id t == i then some t else none)
        | some u ↦ some u
      ]
  unfolding find_thread
  find-append i t [] = refl
  find-append i t (none ∷ xs) = find-append i t xs
  find-append i t (some u ∷ xs) = elim (Bool-cases (id u == i)) [
    | inl e ↦ rw e refl
    | inr e ↦ rw e (find-append i t xs)
  ]

  -- Two owners that agree on the threads that there are.
  Own-add :
      (t : Thread) (xs : Table) (owner : ℕ → Option Thread)
      → owner (id t) ≡ none
      → Own xs owner
      → Own (xs ++ some t ∷ []) (update (id t) (some t) owner)
  Own-add t [] owner free own = (ground arith, tt)
  Own-add t (none ∷ xs) owner free own = Own-add t xs owner free own
  Own-add t (some u ∷ xs) owner free own =
      (ground (arith, own.0, free), Own-add t xs owner free own.1)

  Own-clear :
      (t : Thread) (xs : Table) (owner : ℕ → Option Thread)
      → owner (id t) ≡ some t
      → Own xs owner
      → Own (clear_thread t xs) (update (id t) none owner)
  unfolding clear_thread clear_slot
  Own-clear t [] owner h own = own
  Own-clear t (none ∷ xs) owner h own = Own-clear t xs owner h own
  Own-clear t (some u ∷ xs) owner h own = elim (Bool-cases (u == t)) [
    | inl e ↦ rw e (Own-clear t xs owner h own.1)
    | inr e ↦ rw e (ground (arith, e, h, own.0), Own-clear t xs owner h own.1)
  ]

  find-clear :
      (t : Thread) (xs : Table) (owner : ℕ → Option Thread) (i : ℕ)
      → owner (id t) ≡ some t
      → Own xs owner
      → find_thread id i (clear_thread t xs) ≡ (if i == id t then none else find_thread id i xs)
  unfolding find_thread clear_thread clear_slot
  find-clear t [] owner i h own = ground arith
  find-clear t (none ∷ xs) owner i h own = find-clear t xs owner i h own
  find-clear t (some u ∷ xs) owner i h own = elim (Bool-cases (u == t)) [
    | inl e ↦ rw e (find-clear t xs owner i h own.1 ∙ ground (arith, e))
    | inr e ↦ rw e (ground (arith, e, h, own.0, find-clear t xs owner i h own.1))
  ]

  Represents-add :
      (t : Thread) (xs : Table) (owner : ℕ → Option Thread)
      → owner (id t) ≡ none
      → Represents xs owner
      → Represents (xs ++ some t ∷ []) (update (id t) (some t) owner)
  Represents-add t xs owner free (own, same) =
      (Own-add t xs owner free own, λ i. find-append i t xs ∙ ground (arith, free, same i))

  Represents-clear :
      (t : Thread) (xs : Table) (owner : ℕ → Option Thread)
      → owner (id t) ≡ some t
      → Represents xs owner
      → Represents (clear_thread t xs) (update (id t) none owner)
  Represents-clear t xs owner h (own, same) =
      (Own-clear t xs owner h own, λ i. find-clear t xs owner i h own ∙ ground (arith, same i))

  length-clear_thread : (t : Thread) (xs : Table) → length (clear_thread t xs) ≡ length xs
  unfolding clear_thread
  length-clear_thread t [] = refl
  length-clear_thread t (x ∷ xs) = rw (length-clear_thread t xs) refl

  change_all-Represents :
      (cs : List Change) (xs : Table) (owner : ℕ → Option Thread)
      → Represents xs owner
      → Possible cs owner
      → length xs + adds cs ≤ max_threads
      → Returns
          (λ ys. Represents ys (owner_after cs owner) × (length ys ≤ max_threads))
          (change_all cs xs)
  unfolding change_all add_thread
  change_all-Represents [] xs owner r p small = (r, omega (arith, small))
  change_all-Represents (added t ∷ cs) xs owner r p small =
      rw (let e : ltb (length xs) max_threads ≡ true = ground (arith, small) in e) (
        change_all-Represents cs (xs ++ some t ∷ []) _ (Represents-add t xs owner p.0 r) p.1
          (omega (arith, small, length-append xs (some t ∷ []))))
  change_all-Represents (ended t ∷ cs) xs owner r p small =
      change_all-Represents cs (clear_thread t xs) _ (Represents-clear t xs owner p.0 r) p.1
        (omega (arith, small, length-clear_thread t xs))

  main-found :
      (main : Thread) (i : ℕ)
      → find_thread id i (thread_main main) ≡ update (id main) (some main) (λ j. none) i
  unfolding find_thread
  main-found main i = ground arith

  -- After ThreadMain and any sequence of threads that are started and that end, `_ThreadSelf` returns the thread that has the identifier
  -- of the one that runs, and NULL where there is none. The identifiers of the threads that have not ended
  -- differ. No more threads are started than the table has places, since the place of a thread that has ended is not used again.
  pub thread_self-Represents :
      (main : Thread) (cs : List Change)
      → Possible cs (update (id main) (some main) (λ i. none))
      → adds cs < max_threads
      → Returns
          (λ xs.
            (i : ℕ)
            → thread_self id i (some xs)
              ≡ owner_after cs (update (id main) (some main) (λ j. none)) i)
          (change_all cs (thread_main main))
  thread_self-Represents main cs p small =
      let none_but_main : Represents (thread_main main) (update (id main) (some main) (λ i. none)) =
        ((ground arith, tt), main-found main) in
      Returns-mono _ _ (change_all cs (thread_main main))
        (change_all-Represents cs (thread_main main) _ none_but_main p (omega (arith, small)))
        λ xs (r, small'). λ i. rw (take_all max_threads xs small') (r.1 i)
