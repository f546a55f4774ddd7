-- ===== src/Buffer/Text.antt =====
-- `BufferGetString` and `BufferPutString`: strings in a buffer end in a 0, and the two bytes behind
-- the capacity stop every search.
use aio4c.Prelude.{
  ℕ, zero, suc, ◌+◌, ◌-◌, ◌≤◌, ◌<◌, ◌≡◌, refl, ap, sym, ◌∙◌, true, false, none, some, List, [], ◌∷◌,
  ◌++◌, length, take, drop, arith, ltb, Bool-cases, inl, inr, min, append_assoc, take-append-drop,
  length-drop, length-take,
}
use aio4c.Prelude.Int.{pos, pos_part}
use aio4c.Machine.Defs.{Returns, splice, find_nul, text}
use aio4c.Machine.Laws.{
  store_bytes-ok, add_int-ok, sub_int-ok, length-splice, take_end-splice, drop-drop,
  drop_into-splice, find_nul-take, find_nul-append_some, Returns-mono, text-append, text-take,
  text_of_none, text_of_some, strlen_at-ok,
}
use aio4c.Buffer.{Buffer, buffer_get_string, c_string}
use aio4c.Buffer.Inv.{buffer_of, Fits, IsValid, valid, length_bytes, Fits-splice, Fits-move}

-- The bytes between the position and the limit.
abbrev pub remaining_bytes : Buffer → List ℕ
remaining_bytes b =
    take (pos_part b.limit - pos_part b.position) (drop (pos_part b.position) b.bytes)

module _ {size position limit : ℕ} {bytes : List ℕ} (f : Fits size bytes position limit) where
  -- A 0 is found at the latest behind the capacity.
  strlen-ok : (k : ℕ) × (find_nul (drop position bytes) ≡ some k) × (k ≤ size - position)
  strlen-ok =
      let gap = size - position in
      let back : drop gap (drop position bytes) ≡ 0 ∷ 0 ∷ [] =
        drop-drop gap position bytes
        ∙ ap (λ n. drop n bytes)
            (let e : position + gap ≡ size = omega (arith, f.limit_le, f.position_le) in e)
        ∙ f.ends in
      let (k, e, h) = find_nul-append_some (take gap (drop position bytes)) (0 ∷ []) in
      (
        k,
        ap find_nul (
              sym (take-append-drop gap (drop position bytes))
              ∙ ap (λ t. take gap (drop position bytes) ++ t) back)
            ∙ e,
        omega (arith, h, length-take gap (drop position bytes)),
      )

  pub length_unread : length (take (limit - position) (drop position bytes)) ≡ limit - position
  length_unread = omega (
    arith,
    length-take (limit - position) (drop position bytes),
    length-drop position bytes,
    length_bytes f,
    f.limit_le,
  )

  -- A 0 written at or behind the limit keeps the end of the block.
  Fits-zero :
      (i position' : ℕ)
      → i ≤ size + 1
      → position' ≤ limit
      → Fits size (splice i (0 ∷ []) bytes) position' limit
  unfolding splice
  Fits-zero i position' h p = elim (Bool-cases (ltb i size)) [
    | inl e ↦ Fits-splice f i (0 ∷ []) position' limit (ground arith) p f.limit_le
    | inr e ↦ record {
      position_le = p;
      limit_le = f.limit_le;
      small = f.small;
      ends =
          drop_into-splice size i (i - size) (0 ∷ []) bytes (ground arith)
            (omega (arith, length_bytes f))
          ∙ ap (λ t. splice (i - size) (0 ∷ []) t) f.ends
          ∙ splice_ends (i - size) (omega arith);
    }
  ]
    where
      splice_ends : (q : ℕ) → q ≤ 1 → splice q (0 ∷ []) (0 ∷ 0 ∷ []) ≡ 0 ∷ 0 ∷ []
      splice_ends zero h = refl
      splice_ends (suc zero) h = refl
      splice_ends (suc (suc q)) h = absurd (omega arith)

  -- What a reader at the position sees after the two zeros were written at the limit.
  drop-zeroed :
      (rest : List ℕ) × (drop position (splice (limit + 1) (0 ∷ []) (splice limit (0 ∷ []) bytes))
        ≡ take (limit - position) (drop position bytes) ++ 0 ∷ rest)
  unfolding splice
  drop-zeroed =
      let r = limit - position in
      let d = drop position bytes in
      let once = splice limit (0 ∷ []) bytes in
      let small : position ≤ limit = f.position_le in
      let inside : limit + 1 ≤ length bytes = omega (arith, f.limit_le, length_bytes f) in
      let seen : drop position once ≡ splice r (0 ∷ []) d =
        drop_into-splice position limit r (0 ∷ []) bytes (omega arith) (omega arith) in
      let tail = 0 ∷ drop (r + 1 + 1) (splice r (0 ∷ []) d) in
      (
        tail,
        drop_into-splice position (limit + 1) (r + 1) (0 ∷ []) once (omega arith)
              (omega (arith, length-splice limit (0 ∷ []) bytes inside))
            ∙ ap (λ t. splice (r + 1) (0 ∷ []) t) seen
            ∙ ap (λ t. t ++ tail)
                (take_end-splice r (0 ∷ []) d (omega (arith, length-drop position bytes)))
            ∙ append_assoc (take r d) (0 ∷ []) tail,
      )

-- What `BufferGetString` promises on a buffer with `remaining` unread bytes `xs`.
abbrev pub GotString : ℕ → ℕ → ℕ → ℕ → List ℕ → List ℕ × Buffer → Type 0
GotString pool size position limit xs (s, b) =
    (s ≡ text xs)
    × (bytes' : List ℕ) × (end : ℕ) × (b ≡ buffer_of pool size bytes' end limit)
    × Fits size bytes' end limit
    × (end ≡ position + min (length (text xs) + 1) (length xs))

module _ (pool : ℕ) {size position limit : ℕ} {bytes : List ℕ}
    (f : Fits size bytes position limit) where
  buffer_get_string-cut :
      (k : ℕ)
      → find_nul (drop position bytes) ≡ some k
      → k ≤ size - position
      → limit - position ≤ k
      → Returns
          (GotString pool size position limit (take (limit - position) (drop position bytes)))
          (buffer_get_string (buffer_of pool size bytes position limit))
  unfolding buffer_get_string c_string
  buffer_get_string-cut k e far h =
      let cut : ltb (limit - position) (k + 1) ≡ true = ground arith in
      let back : position + (limit - position) ≡ limit = omega (arith, f.position_le) in
      let unended : find_nul (take (limit - position) (drop position bytes)) ≡ none =
        ground (arith, find_nul-take (drop position bytes) k (limit - position) e) in
      let inside : limit + 1 + 1 ≤ length bytes = omega (arith, f.limit_le, length_bytes f) in
      let once = splice limit (0 ∷ []) bytes in
      let f₁ = Fits-zero f limit limit (omega (arith, f.limit_le)) (omega arith) in
      let (rest, seen) = drop-zeroed f in
      let xs = take (limit - position) (drop position bytes) in
      rw
        (
          strlen_at-ok bytes position k e,
          add_int-ok k 1 (omega (arith, f.small)),
          sub_int-ok limit position f.position_le (omega (arith, f.small, f.limit_le)),
          cut,
          store_bytes-ok bytes limit (0 ∷ []) (omega arith),
          add_int-ok limit 1 (omega (arith, f.small, f.limit_le)),
          store_bytes-ok once (limit + 1) (0 ∷ [])
              (omega (arith, length-splice limit (0 ∷ []) bytes (omega arith))),
          add_int-ok position (limit - position) (omega (arith, f.small, f.limit_le)),
          back,
        )
        (
          ap text seen ∙ text-append xs rest unended ∙ sym (text_of_none xs unended),
          splice (limit + 1) (0 ∷ []) once,
          limit,
          refl,
          Fits-zero f₁ (limit + 1) limit (omega (arith, f.limit_le)) (omega arith),
          omega
              (arith, ap (λ t. length t) (text_of_none xs unended), length_unread f, f.position_le),
        )

  buffer_get_string-whole :
      (k : ℕ)
      → find_nul (drop position bytes) ≡ some k
      → k < limit - position
      → Returns
          (GotString pool size position limit (take (limit - position) (drop position bytes)))
          (buffer_get_string (buffer_of pool size bytes position limit))
  unfolding buffer_get_string c_string
  buffer_get_string-whole k e h =
      let cut : ltb (limit - position) (k + 1) ≡ false = ground arith in
      let same = text-take (drop position bytes) k (limit - position) e h in
      rw
        (
          strlen_at-ok bytes position k e,
          add_int-ok k 1 (omega (arith, f.small, f.limit_le)),
          sub_int-ok limit position f.position_le (omega (arith, f.small, f.limit_le)),
          cut,
          add_int-ok position (k + 1) (omega (arith, f.small, f.limit_le)),
        )
        (
          text_of_some (drop position bytes) k e ∙ sym same,
          bytes,
          position + (k + 1),
          refl,
          Fits-move f (position + (k + 1)) limit (omega arith) f.limit_le,
          omega (
            arith,
            ap (λ t. length t) same,
            length_unread f,
            length-take k (drop position bytes),
            length-drop position bytes,
            length_bytes f,
            f.limit_le,
          ),
        )

  -- The unread bytes are cut off at their first 0; at most they are passed over.
  pub buffer_get_string-Got :
      Returns
        (GotString pool size position limit (take (limit - position) (drop position bytes)))
        (buffer_get_string (buffer_of pool size bytes position limit))
  buffer_get_string-Got =
      let (k, e, far) = strlen-ok f in
      elim (Bool-cases (ltb k (limit - position))) [
        | inl h ↦ buffer_get_string-whole k e (ground arith)
        | inr h ↦ buffer_get_string-cut k e far (ground arith)
      ]

-- On a valid buffer `BufferGetString` never reads or writes outside the block. The string that it
-- hands out is what the unread bytes hold up to their first 0, or all of them if they hold none; the
-- position moves behind the string and its 0, and never behind the limit; the buffer stays valid and
-- keeps its limit.
pub buffer_get_string_lem :
    {b : Buffer}
    → IsValid b
    → Returns
        (λ (s, b').
          (s ≡ text (remaining_bytes b))
          × IsValid b'
          × (b'.limit ≡ b.limit)
          × (b'.position
              ≡ pos (pos_part b.position + min (length s + 1) (length (remaining_bytes b)))))
        (buffer_get_string b)
buffer_get_string_lem (valid {pool} {size} {position} {limit} {bytes} f) =
    Returns-mono
      (GotString pool size position limit (take (limit - position) (drop position bytes))) _ _
      (buffer_get_string-Got pool f)
      λ (s, b') (t, bytes', end, e, g, n). (t, rw e (valid g), rw e, rw (e, n, t))
