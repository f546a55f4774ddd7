-- ===== src/Log/Text.antt =====
-- Texts that are printed one behind the other.
use aio4c.Prelude.{
  ℕ, zero, suc, ◌+◌, ◌-◌, ◌≤◌, ◌<◌, ◌≡◌, refl, sym, ap, ◌∙◌, ◌==◌, leb, ltb, true, false,
  Bool-cases, inl, inr, none, List, [], ◌∷◌, ◌++◌, append_assoc, append-nil, length, length-append,
  concat, take, drop, take-append-drop, arith,
}
use mathlib.Core.Path.{subst}
use aio4c.Machine.Defs.{fault, Returns, int_max, zeros, splice, find_nul, text}
use aio4c.Machine.Laws.{
  Returns-bind, store_bytes-ok, store_bytes-fault, length-splice, take_end-splice, take-append_le,
  take_all, take-take, text-append,
}
use aio4c.Buffer.Inv.{length-zeros}
use aio4c.Log.{printed, logsnprintf, logsnprintf_all}

-- A block of `len` bytes that starts with `written` and a 0.
pub record IsPrinted (len : ℕ) (written : List ℕ) (s : List ℕ × ℕ) : Type 0 where
  pub long : length s.0 ≡ len
  pub starts : take (length written + 1) s.0 ≡ written ++ 0 ∷ []
  pub behind : s.1 ≡ length written
  pub room : length written < len

pub zeros-IsPrinted : (len : ℕ) → 0 < len → IsPrinted len [] (zeros len, 0)
zeros-IsPrinted zero h = absurd (omega arith)
zeros-IsPrinted (suc n) h = record {
  long = length-zeros (suc n);
  starts = refl;
  behind = refl;
  room = h;
}

-- The C string that the block holds.
pub text-IsPrinted :
    (len : ℕ) (written : List ℕ) (s : List ℕ × ℕ)
    → IsPrinted len written s
    → find_nul written ≡ none
    → text s.0 ≡ written
text-IsPrinted len written s h n =
    let rest = drop (length written + 1) s.0 in
    ap text (
      sym (take-append-drop (length written + 1) s.0)
      ∙ (ap (λ t. t ++ rest) h.starts ∙ append_assoc written (0 ∷ []) rest))
    ∙ text-append written rest n

printed-fits : (len p : ℕ) (t : List ℕ) → p + length t < len → printed len p t ≡ t ++ 0 ∷ []
printed-fits len p t h = rw (
  (let e : ltb len p ≡ false = ground arith in e),
  (let e : (len == p) ≡ false = ground arith in e),
  take_all (len - p - 1) t (omega arith),
)

-- A text that fits below the limit `len`, which is not behind the end of the block, is printed whole.
pub logsnprintf-IsPrinted :
    (size len : ℕ) (written t : List ℕ) (s : List ℕ × ℕ)
    → len ≤ size
    → len ≤ int_max
    → IsPrinted size written s
    → length written + length t < len
    → Returns (IsPrinted size (written ++ t)) (logsnprintf s len t)
unfolding logsnprintf
logsnprintf-IsPrinted size len written t (block, p) inner small h fits =
    let ys = t ++ 0 ∷ [] in
    let count : length ys ≡ length t + 1 = length-append t (0 ∷ []) in
    let inside : p + length ys ≤ length block =
      omega (arith, count, fits, h.long, h.behind, inner) in
    rw
      (
        printed-fits len p t (omega (arith, fits, h.behind)),
        store_bytes-ok block p ys inside,
        (let e : leb (p + length t) int_max ≡ true = ground (arith, fits, h.behind, small) in e),
      )
      (record {
        long = length-splice p ys block inside ∙ h.long;
        starts =
            ap (λ n. take n (splice p ys block))
              (let e : length (written ++ t) + 1 ≡ p + length ys =
                  omega (arith, count, h.behind, length-append written t) in
                e)
            ∙ (take_end-splice p ys block inside
                ∙ (ap (λ r. r ++ ys) before ∙ sym (append_assoc written t (0 ∷ []))));
        behind = omega (arith, h.behind, length-append written t);
        room = omega (arith, fits, inner, length-append written t);
      })
  where
    before : take p block ≡ written
    before =
        sym (take-take p (length written + 1) block (omega (arith, h.behind)))
        ∙ (ap (take p) h.starts
            ∙ (take-append_le p written (0 ∷ []) (omega (arith, h.behind))
                ∙ take_all p written (omega (arith, h.behind))))

pub logsnprintf_all-IsPrinted :
    (len : ℕ) (written : List ℕ) (ts : List (List ℕ)) (s : List ℕ × ℕ)
    → len ≤ int_max
    → IsPrinted len written s
    → length written + length (concat ts) < len
    → Returns (IsPrinted len (written ++ concat ts)) (logsnprintf_all s len ts)
unfolding logsnprintf_all
logsnprintf_all-IsPrinted len written [] s small h fits =
    subst (λ w. IsPrinted len w s) (sym (append-nil written)) h
logsnprintf_all-IsPrinted len written (t ∷ ts) s small h fits =
    Returns-bind (IsPrinted len (written ++ t)) (IsPrinted len (written ++ (t ++ concat ts))) _ _
      (logsnprintf-IsPrinted len len written t s (omega arith) small h
        (omega (arith, fits, length-append t (concat ts))))
      λ s' h'.
        subst (λ w. Returns (IsPrinted len w) (logsnprintf_all s' len ts))
          (append_assoc written t (concat ts))
          (logsnprintf_all-IsPrinted len (written ++ t) ts s' small h'
            (omega (arith, fits, length-append t (concat ts), length-append written t)))

-- A text behind the end of the block is written all the same.
pub logsnprintf-overruns :
    (len p : ℕ) (block t : List ℕ)
    → length block ≡ len
    → len < p
    → logsnprintf (block, p) len t ≡ fault
unfolding logsnprintf
logsnprintf-overruns len p block t long h = rw (
  (let e : ltb len p ≡ true = ground arith in e),
  store_bytes-fault block p (t ++ 0 ∷ []) (omega (arith, long, h)),
)

-- A text that contains no 0.
abbrev pub NoNul : List ℕ → Type 0
NoNul xs = find_nul xs ≡ none

pub NoNul-cons : (x : ℕ) (xs : List ℕ) → (x == 0) ≡ false → NoNul xs → NoNul (x ∷ xs)
unfolding find_nul
NoNul-cons x xs h n = ground (arith, h, n)

pub NoNul-append : (xs ys : List ℕ) → NoNul xs → NoNul ys → NoNul (xs ++ ys)
unfolding find_nul
NoNul-append [] ys h n = n
NoNul-append (x ∷ xs) ys h n = elim (Bool-cases (x == 0)) [
  | inl e ↦ absurd (ground (arith, h, e))
  | inr e ↦ NoNul-cons x (xs ++ ys) e (NoNul-append xs ys (ground (arith, h, e)) n)
]
