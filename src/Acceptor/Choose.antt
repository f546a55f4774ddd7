-- ===== src/Acceptor/Choose.antt =====
-- The choice of a reader.
use aio4c.Prelude.{
  ℕ, suc, ◌+◌, ◌≡◌, refl, sym, ap, ◌∙◌, inl, inr, Bool-cases, Option, some, none, List, [], ◌∷◌,
  get_elem?, take, arith,
}
use mathlib.Core.Path.{subst}
use aio4c.Prelude.Int.{ℤ, pos, ◌≤ℤ◌, ◌<ℤ◌, ltb_ℤ}
use aio4c.Machine.Defs.{Run, ok, fault, Returns, int_max}
use aio4c.Acceptor.{choose_loop, choose_reader}

abbrev pub AllLoads : (ℤ → Type 0) → List ℤ → Type 0
AllLoads P [] = Unit {0}
AllLoads P (load ∷ loads) = P load × AllLoads P loads

-- The reader has the smallest load, and those before it have larger ones.
pub record IsFirstLeast (loads : List ℤ) (i : ℕ) : Type 0 where
  pub load : ℤ
  pub at : get_elem? loads i ≡ some load
  pub least : AllLoads (λ other. load ≤ℤ other) loads
  pub before : AllLoads (λ other. load <ℤ other) (take i loads)

-- What the loop returns from the index `i` on: what was chosen before, where no load is smaller than `low`; or the first reader
-- with the smallest load.
data Chosen (loads : List ℤ) (i : ℕ) (low : ℤ) (choosen r : Option ℕ) : Type 0 where
  old : r ≡ choosen → AllLoads (λ other. low ≤ℤ other) loads → Chosen loads i low choosen r
  new :
      (k : ℕ) (first : IsFirstLeast loads k)
      → r ≡ some (i + k)
      → first.load <ℤ low
      → Chosen loads i low choosen r

Chosen-skip :
    (load : ℤ) (loads : List ℤ) (i : ℕ) (low : ℤ) (choosen r : Option ℕ)
    → low ≤ℤ load
    → Chosen loads (suc i) low choosen r
    → Chosen (load ∷ loads) i low choosen r
Chosen-skip load loads i low choosen r h (old e all) = old e (h, all)
Chosen-skip load loads i low choosen r h (new k first e less) =
    new (suc k)
      (record {
        load = first.load;
        at = first.at;
        least = (omega (arith, h, less), first.least);
        before = (omega (arith, h, less), first.before);
      })
      (e ∙ ap some (omega arith)) less

Chosen-take :
    (load : ℤ) (loads : List ℤ) (i : ℕ) (low : ℤ) (choosen r : Option ℕ)
    → load <ℤ low
    → Chosen loads (suc i) load (some i) r
    → Chosen (load ∷ loads) i low choosen r
Chosen-take load loads i low choosen r h (old e all) =
    new 0 (record { load = load; at = refl; least = (omega arith, all); before = tt })
      (e ∙ ap some (omega arith)) h
Chosen-take load loads i low choosen r h (new k first e less) =
    new (suc k)
      (record {
        load = first.load;
        at = first.at;
        least = (omega (arith, less), first.least);
        before = (less, first.before);
      })
      (e ∙ ap some (omega arith)) (omega (arith, h, less))

choose_loop-Chosen :
    (loads : List ℤ) (i : ℕ) (low : ℤ) (choosen : Option ℕ)
    → Chosen loads i low choosen (choose_loop loads i low choosen)
unfolding choose_loop
choose_loop-Chosen [] i low choosen = old refl tt
choose_loop-Chosen (load ∷ loads) i low choosen = elim (Bool-cases (ltb_ℤ load low)) [
  | inl e ↦ rw e (
      Chosen-take load loads i low choosen _ (ground (arith, e))
        (choose_loop-Chosen loads (suc i) load (some i)))
  | inr e ↦ rw e (
      Chosen-skip load loads i low choosen _ (ground (arith, e))
        (choose_loop-Chosen loads (suc i) low choosen))
]

-- Where there is a reader, and no load is `INT_MAX` or more, `_ChooseReader` returns the first of the readers with the smallest load.
pub choose_reader-IsFirstLeast :
    (load : ℤ) (loads : List ℤ)
    → AllLoads (λ other. other <ℤ pos int_max) (load ∷ loads)
    → Returns (IsFirstLeast (load ∷ loads)) (choose_reader (load ∷ loads))
unfolding choose_reader
choose_reader-IsFirstLeast load loads small =
    go (choose_loop (load ∷ loads) 0 (pos int_max) none) (choose_loop-Chosen _ _ _ _)
  where
    go :
        (r : Option ℕ)
        → Chosen (load ∷ loads) 0 (pos int_max) none r
        → Returns
            (IsFirstLeast (load ∷ loads))
            (elim r as (λ _. Run ℕ) [ none ↦ fault | some i ↦ ok i ])
    go r (old e all) = absurd (omega (arith, all.0, small.0))
    go r (new k first e less) =
        subst
          (λ (o : Option ℕ).
            Returns (IsFirstLeast (load ∷ loads))
              (elim o as (λ _. Run ℕ) [ none ↦ fault | some i ↦ ok i ]))
          (sym (e ∙ ap some (omega arith))) first
