-- ===== src/Queue/Repaired.antt =====
-- internal/queue/utf8.go: what the repair makes of a payload.
use statusengine_worker.Prelude.{
  ℕ, suc, zero, ◌+◌, ◌/◌, ◌%◌, ◌≤◌, ◌<◌, true, not, some, [], ◌∷◌, ◌++◌, Bytes, ltb, length,
  length-append, ◌≡◌, refl, sym, ap, ◌∙◌, subst, arith, ◌⊎◌, inl, inr, Bool-cases, Option-cases,
}
use statusengine_worker.Queue.Repair.{
  in_range, Lead, ascii, bad, lead, lead_of, continuation, tail_of, next_rune, encode_rune,
  valid_from, valid, repair_from, repair_utf8,
}

-- The bytes after the first one of a rune, whatever follows them.
record IsRune (b : ℕ) (t : Bytes) : Type 0 where
  next : (q : Bytes) → next_rune b (t ++ q) ≡ some (b ∷ t, q)

continuation-some :
    (n : ℕ) (p bytes rest : Bytes)
    → continuation n p ≡ some (bytes, rest)
    → (p ≡ bytes ++ rest) × ((q : Bytes) → continuation n (bytes ++ q) ≡ some (bytes, q))
unfolding continuation
continuation-some zero p bytes rest e = ground arith
continuation-some (suc n) [] bytes rest e = ground arith
continuation-some (suc n) (b ∷ p) bytes rest e = elim (Option-cases (continuation n p)) [
  | inl cut ↦ ground arith
  | inr ((more, left), found) ↦
      let (split, again) = continuation-some n p more left found in
      elim (Bool-cases (in_range 0x80 0xBF b)) [
        | inr other ↦ ground arith
        | inl inside ↦
            let here : (b ∷ more ≡ bytes) × (left ≡ rest) = ground arith in
            (
              ground arith,
              λ q.
                  subst (λ bs. continuation (suc n) (bs ++ q) ≡ some (bs, q)) here.0
                    (rw (inside, again q, continuation) refl),
            )
      ]
]

tail_of-some :
    (l : Lead) (b : ℕ) (p rune rest : Bytes)
    → tail_of l b p ≡ some (rune, rest)
    → (t : Bytes) × (rune ≡ b ∷ t)
      × (p ≡ t ++ rest)
      × ((q : Bytes) → tail_of l b (t ++ q) ≡ some (b ∷ t, q))
unfolding tail_of
tail_of-some ascii b p rune rest e = ([], ground arith, ground arith, λ q. refl)
tail_of-some bad b p rune rest e = ground arith
tail_of-some (lead n lo hi) b [] rune rest e = ground arith
tail_of-some (lead n lo hi) b (c ∷ p) rune rest e = elim (Option-cases (continuation n p)) [
  | inl cut ↦ ground arith
  | inr ((more, left), found) ↦
      let (split, again) = continuation-some n p more left found in
      elim (Bool-cases (in_range lo hi c)) [
        | inr other ↦ ground arith
        | inl inside ↦
            (c ∷ more, ground arith, ground arith, λ q. rw (inside, again q, tail_of) refl)
      ]
]

encode_rune-IsRune :
    (r : ℕ)
    → (r < 0xD800) ⊎ ((0xE000 ≤ r) × (r < 0x10000))
    → (b : ℕ) × (t : Bytes) × (encode_rune r ≡ b ∷ t) × IsRune b t
unfolding encode_rune next_rune lead_of tail_of continuation
encode_rune-IsRune r scalar = elim (Bool-cases (ltb r 0x80)) [
  | inl one ↦ (r, [], rw (one, encode_rune) refl, record { next = λ q. ground arith })
  | inr more ↦ elim (Bool-cases (ltb r 0x800)) [
    | inl two ↦ (
      0xC0 + r / 64,
      (0x80 + r % 64) ∷ [],
      rw (more, two, encode_rune) refl,
      record { next = λ q. ground arith },
    )
    | inr three ↦ (
      0xE0 + r / 4096,
      (0x80 + (r / 64) % 64) ∷ (0x80 + r % 64) ∷ [],
      ground arith,
      record { next = λ q. ground arith },
    )
  ]
]

next_rune-IsRune :
    (b : ℕ) (p rune rest : Bytes)
    → next_rune b p ≡ some (rune, rest)
    → (t : Bytes) × (rune ≡ b ∷ t) × (p ≡ t ++ rest) × IsRune b t
unfolding next_rune
next_rune-IsRune b p rune rest e =
    let (t, whole, split, again) = tail_of-some (lead_of b) b p rune rest e in
    (t, whole, split, record { next = again })

valid_from-rune :
    (b : ℕ) (t : Bytes)
    → IsRune b t
    → (fuel : ℕ) (q : Bytes) → valid_from (suc fuel) (b ∷ (t ++ q)) ≡ valid_from fuel q
unfolding valid_from
valid_from-rune b t is fuel q = rw (is.next q, valid_from) refl

-- More fuel changes nothing.
valid_from-more :
    (fuel more : ℕ) (p : Bytes) → valid_from fuel p ≡ true → fuel ≤ more → valid_from more p ≡ true
unfolding valid_from
valid_from-more fuel more [] e h = ground arith
valid_from-more zero more (b ∷ p) e h = ground arith
valid_from-more (suc fuel) zero (b ∷ p) e h = ground arith
valid_from-more (suc fuel) (suc more) (b ∷ p) e h = elim (Option-cases (next_rune b p)) [
  | inl cut ↦ ground arith
  | inr ((rune, rest), found) ↦
      let tail : valid_from fuel rest ≡ true = rw (found, valid_from) at e in
      rw (found, valid_from) (valid_from-more fuel more rest tail (omega (arith, h)))
]

-- Valid, in no more rounds than there are bytes.
abbrev Runes : Bytes → Type 0
Runes p = (n : ℕ) × (n ≤ length p) × (valid_from n p ≡ true)

rune-Runes : (b : ℕ) (t q : Bytes) → IsRune b t → Runes q → Runes (b ∷ (t ++ q))
rune-Runes b t q is (n, small, ok) =
    (suc n, omega (arith, small, length-append t q), valid_from-rune b t is n q ∙ ok)

module _ (cp1252 : ℕ → ℕ)
    (scalar : (b : ℕ) → (cp1252 b < 0xD800) ⊎ ((0xE000 ≤ cp1252 b) × (cp1252 b < 0x10000))) where
  repair_from-Runes : (fuel : ℕ) (p : Bytes) → length p ≤ fuel → Runes (repair_from cp1252 fuel p)
  unfolding repair_from valid_from
  repair_from-Runes fuel [] h = (0, omega arith, refl)
  repair_from-Runes zero (b ∷ p) h = (0, omega arith, refl)
  repair_from-Runes (suc fuel) (b ∷ p) h = elim (Option-cases (next_rune b p)) [
    | inl cut ↦
        let rest = repair_from cp1252 fuel p in
        let (c, t, encoded, is) = encode_rune-IsRune (cp1252 b) (scalar b) in
        let step : repair_from cp1252 (suc fuel) (b ∷ p) ≡ (c ∷ t) ++ rest =
          rw (cut, repair_from) (ap (λ xs. xs ++ rest) encoded) in
        subst Runes (sym step)
          (rune-Runes c t rest is (repair_from-Runes fuel p (omega (arith, h))))
    | inr ((rune, later), found) ↦
        let rest = repair_from cp1252 fuel later in
        let (t, whole, split, is) = next_rune-IsRune b p rune later found in
        let step : repair_from cp1252 (suc fuel) (b ∷ p) ≡ (b ∷ t) ++ rest =
          rw (found, repair_from) (ap (λ xs. xs ++ rest) whole) in
        let sizes : length p ≡ length (t ++ later) = ap (λ xs. length xs) split in
        let short : length later ≤ fuel = omega (arith, h, sizes, length-append t later) in
        subst Runes (sym step) (rune-Runes b t rest is (repair_from-Runes fuel later short))
  ]

  -- Where every byte of the code page is a character below U+10000 that is no surrogate, the
  -- repaired payload is valid UTF-8, a payload that was valid is returned as it is, and the flag
  -- tells which it was.
  pub repair_utf8-valid :
      (payload : Bytes)
      → (valid (repair_utf8 cp1252 payload).0 ≡ true)
        × (((repair_utf8 cp1252 payload).1 ≡ true) ⊎ ((repair_utf8 cp1252 payload).0 ≡ payload))
        × ((repair_utf8 cp1252 payload).1 ≡ not (valid payload))
  unfolding repair_utf8
  repair_utf8-valid payload = elim (Bool-cases (valid payload)) [
    | inl fine ↦ rw (fine, repair_utf8) (fine, inr refl, refl)
    | inr broken ↦
        let (n, small, ok) = repair_from-Runes (length payload) payload (omega arith) in
        rw (broken, repair_utf8)
          (
            valid_from-more n _ (repair_from cp1252 (length payload) payload) ok small,
            inl refl,
            refl,
          )
  ]
