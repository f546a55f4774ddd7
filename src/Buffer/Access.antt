-- ===== src/Buffer/Access.antt =====
-- `BufferGet` and `BufferPut`: the bounds check, the bytes that go through, and what a reader gets
-- back from a flipped buffer.
use aio4c.Prelude.{
  ℕ, ◌+◌, ◌≤◌, ◌≡◌, refl, ap, sym, ◌∙◌, Bool, true, false, Option, none, some, List, [], ◌∷◌, ◌++◌,
  length, take, drop, arith, ltb, if◌then◌else◌, Bool-cases, inl, inr, take-append-drop, map,
  append-nil, append_assoc, length-append, concat,
}
use aio4c.Prelude.Int.{pos, ◌≤ℤ◌}
use aio4c.Machine.Defs.{Run, ok, ◌>>=◌, Returns, int_max, splice, zeros}
use aio4c.Machine.Laws.{
  drop_past, take-append_le, Returns-bind, Returns-step, Returns-mono, take_end-splice,
  store_bytes-ok, load_bytes-ok, add_int-ok, take_all,
}
use aio4c.Buffer.{Buffer, buffer_get, buffer_put, buffer_flip, buffer_reset}
use aio4c.Buffer.Inv.{
  buffer_of, Fits, IsValid, valid, length-zeros, buffer_reset-eq, length_bytes, Fits-splice,
  Fits-move,
}

module _ (pool : ℕ) {size position limit : ℕ} {bytes : List ℕ}
    (f : Fits size bytes position limit) where
  pub buffer_get-eq :
      (n : ℕ)
      → position + n ≤ int_max
      → buffer_get (buffer_of pool size bytes position limit) (pos n)
        ≡ ok (
            if ltb limit (position + n) then (none, buffer_of pool size bytes position limit) else (
              some (take n (drop position bytes)),
              buffer_of pool size bytes (position + n) limit,
            ))
  unfolding buffer_get
  buffer_get-eq n h = rw (add_int-ok position n h) (elim (Bool-cases (ltb limit (position + n))) [
    | inl e ↦ rw e
    | inr e ↦ rw (e, load_bytes-ok bytes position n (ground (arith, length_bytes f)))
  ])

  pub buffer_put-eq :
      (xs : List ℕ)
      → position + length xs ≤ int_max
      → buffer_put (buffer_of pool size bytes position limit) xs (pos (length xs))
        ≡ ok (
            if ltb limit (position + length xs)
            then (false, buffer_of pool size bytes position limit)
            else (
              true,
              buffer_of pool size (splice position xs bytes) (position + length xs) limit,
            ))
  unfolding buffer_put
  buffer_put-eq xs h =
      rw (add_int-ok position (length xs) h) (elim (Bool-cases (ltb limit (position + length xs))) [
        | inl e ↦ rw e
        | inr e ↦ rw (
          e,
          load_bytes-ok xs 0 (length xs) (omega arith),
          take_all (length xs) xs (omega arith),
          store_bytes-ok bytes position xs (ground (arith, length_bytes f)),
        )
      ])

  pub buffer_get-ok :
      (xs rest : List ℕ)
      → drop position bytes ≡ xs ++ rest
      → position + length xs ≤ limit
      → buffer_get (buffer_of pool size bytes position limit) (pos (length xs))
        ≡ ok (some xs, buffer_of pool size bytes (position + length xs) limit)
  buffer_get-ok xs rest e h =
      let in_range : ltb limit (position + length xs) ≡ false = ground arith in
      let got : take (length xs) (drop position bytes) ≡ xs = rw e (
        take-append_le (length xs) xs rest (omega arith) ∙ take_all (length xs) xs (omega arith)) in
      buffer_get-eq (length xs) (omega (arith, f.small)) ∙ rw (in_range, got)

  pub buffer_put-ok :
      (xs : List ℕ)
      → position + length xs ≤ limit
      → buffer_put (buffer_of pool size bytes position limit) xs (pos (length xs))
        ≡ ok (true, buffer_of pool size (splice position xs bytes) (position + length xs) limit)
  buffer_put-ok xs h =
      let in_range : ltb limit (position + length xs) ≡ false = ground arith in
      buffer_put-eq xs (omega (arith, f.small)) ∙ rw in_range

-- A client that writes several blocks, and one that reads blocks of given sizes; each stops where
-- the buffer refuses.
pub put_all : List (List ℕ) → Buffer → Run (Bool × Buffer)
put_all [] b = ok (true, b)
put_all (c ∷ cs) b = buffer_put b c (pos (length c)) >>= λ (done, b). elim done [
  | true ↦ put_all cs b
  | false ↦ ok (false, b)
]

abbrev pub join : List ℕ → Option (List (List ℕ)) × Buffer → Run (Option (List (List ℕ)) × Buffer)
join xs (none, b) = ok (none, b)
join xs (some xss, b) = ok (some (xs ∷ xss), b)

pub get_all : List ℕ → Buffer → Run (Option (List (List ℕ)) × Buffer)
get_all [] b = ok (some [], b)
get_all (n ∷ ns) b = buffer_get b (pos n) >>= λ (out, b). elim out [
  | none ↦ ok (none, b)
  | some xs ↦ get_all ns b >>= join xs
]

join-some :
    (c : List ℕ) (cs : List (List ℕ)) (r : Option (List (List ℕ)) × Buffer)
    → r.0 ≡ some cs
    → Returns (λ (out, b). out ≡ some (c ∷ cs)) (join c r)
join-some c cs (none, b) e = cc
join-some c cs (some xss, b) e = cc

get_all-concat :
    (pool : ℕ) (cs : List (List ℕ)) {size position limit : ℕ} {bytes : List ℕ} (rest : List ℕ)
    → Fits size bytes position limit
    → drop position bytes ≡ concat cs ++ rest
    → position + length (concat cs) ≤ limit
    → Returns
        (λ (out, b). out ≡ some cs)
        (get_all (map length cs) (buffer_of pool size bytes position limit))
unfolding get_all
get_all-concat pool [] rest f e h = refl
get_all-concat pool (c ∷ cs) {size} {position} {limit} {bytes} rest f e h =
    let le : position + length c ≤ limit = omega (arith, length-append c (concat cs)) in
    Returns-step (λ (out, b). out ≡ some (c ∷ cs)) _
      (buffer_get-ok pool f c (concat cs ++ rest) (e ∙ append_assoc c (concat cs) rest) le)
      (Returns-bind (λ (out, b). out ≡ some cs) (λ (out, b). out ≡ some (c ∷ cs)) _ (join c)
        (get_all-concat pool cs rest (Fits-move f (position + length c) limit le f.limit_le)
          (drop_past c (concat cs ++ rest) position bytes (e ∙ append_assoc c (concat cs) rest))
          (omega (arith, length-append c (concat cs))))
        (join-some c cs))

-- What `put_all` leaves behind: the cursor moved by the bytes of `xs`, and these bytes behind those
-- that stood before the cursor.
abbrev Holds : ℕ → ℕ → List ℕ → ℕ → ℕ → List ℕ → Bool × Buffer → Type 0
Holds pool size bytes position limit xs (done, b) =
    (bytes' : List ℕ) × (end : ℕ) × (done ≡ true)
    × (b ≡ buffer_of pool size bytes' end limit)
    × Fits size bytes' end limit
    × (end ≡ position + length xs)
    × (take end bytes' ≡ take position bytes ++ xs)

put_all-concat :
    (pool : ℕ) (cs : List (List ℕ)) {size position limit : ℕ} {bytes : List ℕ}
    → Fits size bytes position limit
    → position + length (concat cs) ≤ limit
    → Returns
        (Holds pool size bytes position limit (concat cs))
        (put_all cs (buffer_of pool size bytes position limit))
unfolding put_all
put_all-concat pool [] {position} {bytes} f h =
    (bytes, position, refl, refl, f, omega arith, sym (append-nil (take position bytes)))
put_all-concat pool (c ∷ cs) {size} {position} {limit} {bytes} f h =
    let le : position + length c ≤ limit = omega (arith, length-append c (concat cs)) in
    let room : position + length c ≤ length bytes = omega (arith, length_bytes f, f.limit_le) in
    let f' : Fits size (splice position c bytes) (position + length c) limit =
      Fits-splice f position c (position + length c) limit (omega (arith, f.limit_le)) le
        f.limit_le in
    Returns-step (Holds pool size bytes position limit (c ++ concat cs)) _
      (buffer_put-ok pool f c le)
      (Returns-mono
        (Holds pool size (splice position c bytes) (position + length c) limit (concat cs))
        (Holds pool size bytes position limit (c ++ concat cs)) _
        (put_all-concat pool cs f' (omega (arith, length-append c (concat cs))))
        λ (done, b) (bytes', end, d, e, g, n, t). (
          bytes',
          end,
          d,
          e,
          g,
          omega (arith, length-append c (concat cs)),
          t
              ∙ ap (λ s. s ++ concat cs) (take_end-splice position c bytes room)
              ∙ append_assoc (take position bytes) c (concat cs),
        ))

read_back :
    (pool size : ℕ) (bytes : List ℕ) (cs : List (List ℕ)) (r : Bool × Buffer)
    → Holds pool size bytes 0 size (concat cs) r
    → Returns (λ (out, _). out ≡ some cs) (get_all (map length cs) (buffer_flip r.1))
unfolding buffer_flip
read_back pool size bytes cs (done, b) (bytes', end, d, e, g, n, t) = rw e (
    get_all-concat pool cs (drop end bytes') (Fits-move g 0 end (omega arith) g.position_le)
      (sym (take-append-drop end bytes') ∙ ap (λ s. s ++ drop end bytes') t) (omega arith))

-- A buffer that is reset, filled with blocks that fit together into its capacity, and flipped hands
-- the same blocks to a reader that asks for them by their sizes; no access leaves the buffer.
pub put_all-get_all :
    {b : Buffer} (cs : List (List ℕ))
    → IsValid b
    → pos (length (concat cs)) ≤ℤ b.size
    → Returns
        (λ (out, _). out ≡ some cs)
        (buffer_reset b >>= put_all cs >>= λ (done, b'). get_all (map length cs) (buffer_flip b'))
unfolding buffer_flip
put_all-get_all cs (valid {pool} {size} {bytes} f) h =
    let zeroed : Fits size (splice 0 (zeros size) bytes) 0 size =
      Fits-splice f 0 (zeros size) 0 size (omega (arith, length-zeros size)) (omega arith)
        (omega arith) in
    Returns-bind (Holds pool size (splice 0 (zeros size) bytes) 0 size (concat cs))
      (λ (out, _). out ≡ some cs) _ _
      (Returns-step (Holds pool size (splice 0 (zeros size) bytes) 0 size (concat cs)) _
        (buffer_reset-eq f) (put_all-concat pool cs zeroed (omega arith)))
      (read_back pool size (splice 0 (zeros size) bytes) cs)
