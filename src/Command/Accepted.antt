-- ===== src/Command/Accepted.antt =====
-- internal/command/validate.go: what is known of a raw command that `validateRaw` lets pass.
use Prim.Native.Char.{Char, code}
use statusengine_worker.Prelude.{
  ℕ, ◌≤◌, Bool, true, false, ◌||◌, ◌&&◌, Option, some, [], ◌∷◌, ◌++◌, Bytes, ◌==◌, leb, ◌≡◌, refl,
  ap, ◌∙◌, map, cut_at, arith, subst, All, Bool-cases, Option-cases, inl, inr, Chars,
}
use statusengine_worker.Queue.{no_items}
use statusengine_worker.Command.{
  ok, trim_left, trim_right, trim_space, starts_with_bracket, has_closing_bracket, has_control,
  is_denied, add_entry_time, validate_raw,
}
use statusengine_worker.Command.Spelled.{forbidden_names, Spells, allowed-Spells}
use statusengine_worker.Command.Names.{
  Without, trim_space-is_flush, add_entry_time-same, add_entry_time-stamps,
  raw_command_name-add_entry_time, cut_at-append,
}

-- What is relied on of the encoding of a JSON string.
pub record IsJson (unmarshal : Bytes → Option Chars) (marshal : Chars → Option Bytes) : Type 0 where
  pub round_trip : (s : Chars) (out : Bytes) → marshal s ≡ some out → unmarshal out ≡ some s
  pub not_empty : (s : Chars) (out : Bytes) → marshal s ≡ some out → no_items out ≡ false

trim_left-has_control : (cs : Chars) → has_control cs ≡ false → has_control (trim_left cs) ≡ false
unfolding trim_left
trim_left-has_control [] e = refl
trim_left-has_control (c ∷ cs) e = ground (arith, trim_left-has_control cs)

trim_right-has_control : (cs : Chars) → has_control cs ≡ false → has_control (trim_right cs) ≡ false
unfolding trim_right
trim_right-has_control [] e = refl
trim_right-has_control (c ∷ cs) e = ground (arith, trim_right-has_control cs)

append-has_control :
    (a b : Chars) → has_control a ≡ false → has_control b ≡ false → has_control (a ++ b) ≡ false
append-has_control [] b e f = f
append-has_control (c ∷ a) b e f = ground (arith, append-has_control a b)

-- A text in brackets, then the rest.
abbrev pub IsBracketed : Bytes → Type 0
IsBracketed text = (inside : Bytes) × (rest : Bytes) × (text ≡ b'[' ∷ (inside ++ b']' ∷ rest))

cut_at-split :
    (cs : Chars)
    → has_closing_bracket cs ≡ true
    → (a : Bytes) × (b : Bytes) × (map code cs ≡ a ++ b']' ∷ b)
unfolding cut_at
cut_at-split [] e = cc
cut_at-split (c ∷ cs) e = elim (Bool-cases (code c == b']')) [
  | inl close ↦
      let same : code c ≡ b']' = ground (arith, close) in
      ([], map code cs, ap (λ n. n ∷ map code cs) same)
  | inr other ↦
      let found : has_closing_bracket cs ≡ true = ground (arith, other) in
      let (a, b, is) = cut_at-split cs found in (code c ∷ a, b, ap (λ xs. code c ∷ xs) is)
]

bracketed :
    (cs : Chars)
    → starts_with_bracket cs && has_closing_bracket cs ≡ true
    → IsBracketed (map code cs)
unfolding cut_at
bracketed [] e = cc
bracketed (c ∷ cs) e =
    let opened : code c ≡ b'[' = ground arith in
    let found : has_closing_bracket cs ≡ true = ground arith in
    let (a, b, is) = cut_at-split cs found in
    (a, b, ap (λ n. n ∷ map code cs) opened ∙ ap (λ xs. b'[' ∷ xs) is)

-- The digits that `%d` writes for the clock.
abbrev pub is_digit : Char → Bool
is_digit c = (leb b'0' (code c) && leb (code c) b'9') || (code c == b'-')

module _ (stamp : Chars) (digits : All (λ c. is_digit c ≡ true) stamp) where
  no_mark : (n : ℕ) → 58 ≤ n → (s : Chars) → All (λ c. is_digit c ≡ true) s → Without n s
  no_mark n far [] d = tt
  no_mark n far (c ∷ s) d = (ground (arith, d.0), no_mark n far s d.1)

  no_control : (s : Chars) → All (λ c. is_digit c ≡ true) s → has_control s ≡ false
  no_control [] d = refl
  no_control (c ∷ s) d = ground (arith, d.0, no_control s d.1)

  stamped-has_control :
      (raw : Chars) → has_control raw ≡ false → has_control (add_entry_time stamp raw) ≡ false
  unfolding add_entry_time
  stamped-has_control raw e =
      ground (arith, append-has_control stamp ("]" ∷ " " ∷ raw) (no_control stamp digits))

  stamped-brackets :
      (raw : Chars)
      → let cs = add_entry_time stamp raw in starts_with_bracket cs && has_closing_bracket cs ≡ true
  stamped-brackets raw = elim (Bool-cases (starts_with_bracket raw && has_closing_bracket raw)) [
    | inl had_one ↦ rw (add_entry_time-same stamp raw had_one) had_one
    | inr bare ↦
        let found =
          cut_at-append ("[" ∷ stamp) (" " ∷ raw) (refl, no_mark b']' (omega arith) stamp digits) in
        rw (add_entry_time-stamps stamp raw bare, found) refl
  ]

  module _ (upper : Char → Char) (unmarshal : Bytes → Option Chars) (marshal : Chars → Option Bytes)
      (json : IsJson unmarshal marshal) where
    -- A raw command that begins with brackets, that spells none of the forbidden names, and that
    -- breaks no log line.
    pub record IsSafeRaw (payload : Bytes) : Type 0 where
      pub text : Chars
      pub decodes : unmarshal payload ≡ some text
      pub has_brackets : IsBracketed (map code text)
      pub not_forbidden : All (λ d. ¬ Spells text d) forbidden_names
      pub one_line : has_control text ≡ false

    safe_text :
        (raw : Chars) (out : Bytes)
        → has_control raw ≡ false
        → is_denied upper (trim_space raw) ≡ false
        → marshal (add_entry_time stamp (trim_space raw)) ≡ some out
        → IsSafeRaw out × (no_items out ≡ false)
    unfolding trim_space trim_right
    safe_text raw out clean allowed made =
        let text = add_entry_time stamp (trim_space raw) in
        let still : is_denied upper text ≡ false =
          rw
            (raw_command_name-add_entry_time upper stamp (trim_space raw)
              (no_mark b';' (omega arith) stamp digits) (no_mark b']' (omega arith) stamp digits)
              (trim_space-is_flush raw))
            allowed in
        (
          record {
            text = text;
            decodes = json.round_trip _ out made;
            has_brackets = bracketed text (stamped-brackets (trim_space raw));
            not_forbidden = allowed-Spells upper text still;
            one_line =
                stamped-has_control (trim_space raw)
                  (trim_right-has_control (trim_left raw) (trim_left-has_control raw clean));
          },
          json.not_empty _ out made,
        )

    pub validate_raw-safe :
        (payload out : Bytes)
        → validate_raw upper stamp unmarshal marshal payload ≡ ok out
        → IsSafeRaw out × (no_items out ≡ false)
    unfolding validate_raw
    validate_raw-safe payload out e = elim (Option-cases (unmarshal payload)) [
      | inl bad ↦ ground arith
      | inr (raw, good) ↦ elim (Bool-cases (no_items (trim_space raw))) [
        | inl empty ↦ ground arith
        | inr some_text ↦ elim (Bool-cases (has_control raw)) [
          | inl control ↦ ground arith
          | inr clean ↦ elim (Bool-cases (is_denied upper (trim_space raw))) [
            | inl denied ↦ ground arith
            | inr allowed ↦ elim (Option-cases (marshal (add_entry_time stamp (trim_space raw)))) [
              | inl unencoded ↦ ground arith
              | inr (encoded, made) ↦
                  let same : encoded ≡ out = ground arith in
                  subst (λ o. IsSafeRaw o × (no_items o ≡ false)) same
                    (safe_text raw encoded clean allowed made)
            ]
          ]
        ]
      ]
    ]
