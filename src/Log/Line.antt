-- ===== src/Log/Line.antt =====
-- `Log`: one line.
use aio4c.Prelude.{
  ℕ, ◌+◌, ◌-◌, ◌≤◌, ◌<◌, ◌≡◌, refl, ◌∙◌, leb, ltb, true, Bool-cases, inl, inr, none, some, Option,
  List, [], ◌∷◌, ◌++◌, append_assoc, length, length-append, length-take, take, arith,
}
use aio4c.Machine.Defs.{Run, ok, fault, ◌>>=◌, Returns, int_max, zeros, splice, find_nul, text}
use aio4c.Machine.Laws.{Returns-bind, store_bytes-ok, length-splice}
use aio4c.Buffer.Inv.{length-zeros}
use aio4c.Log.{
  printed, logsnprintf, logprefix, Logger, is_logged, log, message_size, colon, newline,
}
use aio4c.Log.Text.{
  IsPrinted, zeros-IsPrinted, text-IsPrinted, logsnprintf-IsPrinted, logsnprintf-overruns, NoNul,
  NoNul-append,
}

-- The name of the thread at the start of a line.
abbrev pub prefix_of : Option (List ℕ) → List ℕ
prefix_of none = []
prefix_of (some name) = name ++ colon

pub logprefix-IsPrinted :
    (size : ℕ) (name : Option (List ℕ))
    → message_size ≤ size
    → length (prefix_of name) < message_size
    → Returns (IsPrinted size (prefix_of name)) (logprefix name (zeros size, 0))
unfolding logprefix
logprefix-IsPrinted size none h k = zeros-IsPrinted size (omega arith)
logprefix-IsPrinted size (some name) h k =
    logsnprintf-IsPrinted size message_size [] (name ++ colon) (zeros size, 0) h (omega arith)
      (zeros-IsPrinted size (omega arith)) (omega (arith, k))

pub prefix_of-NoNul :
    (name : Option (List ℕ)) → ((n : List ℕ) → name ≡ some n → NoNul n) → NoNul (prefix_of name)
unfolding find_nul
prefix_of-NoNul none h = refl
prefix_of-NoNul (some n) h = NoNul-append n colon (h n refl) refl

-- A message that is logged, and that fits in a line with the name of the thread in front of it and the end of
-- the line: where memory suffices, `Log` returns, and the handler gets exactly that line.
pub log_lem :
    (logger : Logger) (name : Option (List ℕ)) (level : ℕ) (message : List ℕ)
    → is_logged logger level ≡ true
    → ((n : List ℕ) → name ≡ some n → NoNul n)
    → NoNul message
    → length (prefix_of name) + length message + 1 < message_size
    → Returns
        (λ (r : Option (List ℕ)).
          (block : List ℕ) × (r ≡ some block)
          × (text block ≡ prefix_of name ++ (message ++ newline)))
        (log logger true name level message)
unfolding log find_nul
log_lem logger name level message logged nul_name nul_message fits =
    let start = prefix_of name in
    rw logged (
      Returns-bind (IsPrinted message_size start) Line _ _
        (logprefix-IsPrinted message_size name (omega arith) (omega (arith, fits)))
        λ s h.
          Returns-bind (IsPrinted message_size (start ++ message)) Line _ _
            (logsnprintf-IsPrinted message_size message_size start message s (omega arith)
              (omega arith) h (omega (arith, fits)))
            λ s' h'.
              Returns-bind (IsPrinted message_size ((start ++ message) ++ newline)) Line _ _
                (logsnprintf-IsPrinted message_size message_size (start ++ message) newline s'
                  (omega arith) (omega arith) h' (omega (arith, fits, length-append start message)))
                λ s'' h''. (
                  s''.0,
                  refl,
                  text-IsPrinted message_size ((start ++ message) ++ newline) s'' h'' (
                        NoNul-append (start ++ message) newline
                          (NoNul-append start message (prefix_of-NoNul name nul_name) nul_message)
                          refl)
                      ∙ append_assoc start message newline,
                ))
  where
    Line : Option (List ℕ) → Type 0
    Line r =
        (block : List ℕ) × (r ≡ some block) × (text block ≡ prefix_of name ++ (message ++ newline))

-- A text that starts inside of a block of `message_size` bytes, of whatever length.
data Kept (p : ℕ) (t : List ℕ) : Run (List ℕ × ℕ) → Type 0 where
  too_long : Kept p t fault
  kept : (block : List ℕ) → length block ≡ message_size → Kept p t (ok (block, p + length t))

logsnprintf-Kept :
    (block : List ℕ) (p : ℕ) (t : List ℕ)
    → length block ≡ message_size
    → p ≤ message_size
    → Kept p t (logsnprintf (block, p) message_size t)
unfolding logsnprintf
logsnprintf-Kept block p t long h =
    let ys = printed message_size p t in
    let inside : p + length ys ≤ length block = ground (
      arith,
      long,
      h,
      length-append (take (message_size - p - 1) t) (0 ∷ []),
      length-take (message_size - p - 1) t,
    ) in
    rw (store_bytes-ok block p ys inside) (elim (Bool-cases (leb (p + length t) int_max)) [
      | inl e ↦ rw e (kept (splice p ys block) (length-splice p ys block inside ∙ long))
      | inr e ↦ rw e too_long
    ])

-- The rest of `Log`.
abbrev message_line : List ℕ → List ℕ × ℕ → Run (Option (List ℕ))
message_line message s = logsnprintf s message_size message >>= λ s'.
    logsnprintf s' message_size newline >>= λ s''. ok (some s''.0)

message_line-overruns :
    (block : List ℕ) (p : ℕ) (message : List ℕ)
    → length block ≡ message_size
    → message_size < p + length message
    → message_line message (block, p) ≡ fault
message_line-overruns block p message long h = elim (Bool-cases (ltb message_size p)) [
  | inl e ↦ rw (logsnprintf-overruns message_size p block message long (ground (arith, e)))
  | inr e ↦
      go (logsnprintf (block, p) message_size message)
        (logsnprintf-Kept block p message long (ground (arith, e)))
]
  where
    go :
        (r : Run (List ℕ × ℕ))
        → Kept p message r
        → (r >>= λ s'. logsnprintf s' message_size newline >>= λ s''. ok (some s''.0)) ≡ fault
    go _ too_long = refl
    go _ (kept block' long') =
        rw (logsnprintf-overruns message_size (p + length message) block' newline long' h)

-- `Log` does not check whether a message fits: where the message, with the name of the thread in front of it, is longer than
-- the block, the end of the line is written behind the end of the block.
pub log_overruns :
    (logger : Logger) (name : Option (List ℕ)) (level : ℕ) (message : List ℕ)
    → is_logged logger level ≡ true
    → message_size < length (prefix_of name) + length message
    → log logger true name level message ≡ fault
unfolding log logprefix
log_overruns logger none level message logged h = rw logged (
    message_line-overruns (zeros message_size) 0 message (length-zeros message_size)
      (omega (arith, h)))
log_overruns logger (some name) level message logged h = rw logged (
    go (logsnprintf (zeros message_size, 0) message_size (name ++ colon)) (
      logsnprintf-Kept (zeros message_size) 0 (name ++ colon) (length-zeros message_size)
        (omega arith)))
  where
    go : (r : Run (List ℕ × ℕ)) → Kept 0 (name ++ colon) r → (r >>= message_line message) ≡ fault
    go _ too_long = refl
    go _ (kept block long) =
        message_line-overruns block (0 + length (name ++ colon)) message long (omega (arith, h))
