-- ===== src/Command/Names.antt =====
-- internal/command/validate.go: the entry time does not change the name that the deny list is asked for.
use Prim.Native.Char.{Char, code}
use statusengine_worker.Prelude.{
  ℕ, Bool, true, false, ◌&&◌, not, none, some, [], ◌∷◌, ◌++◌, ◌==◌, ◌≡◌, refl, sym, ap, ◌∙◌, arith,
  map, All, Bool-cases, Option-cases, inl, inr, Chars, cut_at,
}
use statusengine_worker.Queue.{no_items}
use statusengine_worker.Command.{
  is_space, trim_left, trim_right, trim_space, before_semicolon, starts_with_bracket,
  has_closing_bracket, without_stamp, upper_code, raw_command_name, add_entry_time,
}

-- A text without a mark.
abbrev pub Without : ℕ → Chars → Type 0
Without n cs = All (λ c. (code c == n) ≡ false) cs

pub before-append :
    (a b : Chars) → Without b';' a → before_semicolon (a ++ b) ≡ a ++ before_semicolon b
unfolding before_semicolon
before-append [] b w = refl
before-append (c ∷ a) b w = ground (arith, w.0, before-append a b w.1)

pub cut_at-append : (a b : Chars) → Without b']' a → cut_at "]" (a ++ "]" ∷ b) ≡ some (a, b)
unfolding cut_at
cut_at-append [] b w = refl
cut_at-append (c ∷ a) b w = ground (arith, w.0, cut_at-append a b w.1)

cut_at-before : (cs : Chars) → cut_at "]" cs ≡ none → cut_at "]" (before_semicolon cs) ≡ none
unfolding cut_at before_semicolon
cut_at-before [] e = refl
cut_at-before (c ∷ cs) e = elim (Bool-cases (code c == b';')) [
  | inl semi ↦ ground arith
  | inr other ↦ ground (arith, cut_at-before cs)
]

cut_at-trim_right : (cs : Chars) → cut_at "]" cs ≡ none → cut_at "]" (trim_right cs) ≡ none
unfolding cut_at trim_right
cut_at-trim_right [] e = refl
cut_at-trim_right (c ∷ cs) e = ground (arith, cut_at-trim_right cs)

append-not_empty : (a : Chars) (c : Char) (b : Chars) → no_items (a ++ c ∷ b) ≡ false
append-not_empty [] c b = refl
append-not_empty (x ∷ a) c b = refl

trim_right-append :
    (a : Chars) (c : Char) (b : Chars)
    → is_space c ≡ false
    → trim_right (a ++ c ∷ b) ≡ a ++ c ∷ trim_right b
unfolding trim_right
trim_right-append [] c b e = ground arith
trim_right-append (x ∷ a) c b e =
    ground (arith, trim_right-append a c b e, append-not_empty a c (trim_right b))

trim_right_idem : (cs : Chars) → trim_right (trim_right cs) ≡ trim_right cs
unfolding trim_right
trim_right_idem [] = refl
trim_right_idem (c ∷ cs) = ground (arith, trim_right_idem cs)

trim_left-trim_right : (cs : Chars) → trim_left (trim_right cs) ≡ trim_right (trim_left cs)
unfolding trim_left trim_right
trim_left-trim_right [] = refl
trim_left-trim_right (c ∷ cs) = ground (arith, trim_left-trim_right cs)

-- No space in front.
abbrev pub is_flush : Chars → Bool
is_flush [] = true
is_flush (c ∷ cs) = not (is_space c)

trim_left-is_flush : (cs : Chars) → is_flush (trim_left cs) ≡ true
unfolding trim_left
trim_left-is_flush [] = refl
trim_left-is_flush (c ∷ cs) = ground (arith, trim_left-is_flush cs)

trim_right-is_flush : (cs : Chars) → is_flush cs ≡ true → is_flush (trim_right cs) ≡ true
unfolding trim_right
trim_right-is_flush [] e = refl
trim_right-is_flush (c ∷ cs) e = ground arith

pub trim_space-is_flush : (cs : Chars) → is_flush (trim_space cs) ≡ true
unfolding trim_space
trim_space-is_flush cs = trim_right-is_flush (trim_left cs) (trim_left-is_flush cs)

space_before : (n : Chars) → trim_space (trim_right (" " ∷ n)) ≡ trim_space n
unfolding trim_space trim_left is_space
space_before n = ap trim_right (trim_left-trim_right (" " ∷ n)) ∙ trim_right_idem (trim_left n)

trim_space-flush : (cs : Chars) → is_flush cs ≡ true → trim_space cs ≡ trim_right cs
unfolding trim_space trim_left
trim_space-flush [] e = refl
trim_space-flush (c ∷ cs) e = ground arith

before-is_flush : (cs : Chars) → is_flush cs ≡ true → is_flush (before_semicolon cs) ≡ true
unfolding before_semicolon
before-is_flush [] e = refl
before-is_flush (c ∷ cs) e = ground arith

before-unbracketed :
    (cs : Chars)
    → starts_with_bracket cs ≡ false
    → starts_with_bracket (trim_right (before_semicolon cs)) ≡ false
unfolding before_semicolon trim_right
before-unbracketed [] e = refl
before-unbracketed (c ∷ cs) e = elim (Bool-cases (code c == b';')) [
  | inl semi ↦ ground arith
  | inr other ↦ ground arith
]

-- A name in brackets has no closing bracket where the whole command has none.
unclosed :
    (raw : Chars)
    → is_flush raw ≡ true
    → starts_with_bracket raw && has_closing_bracket raw ≡ false
    → without_stamp (trim_space (before_semicolon raw)) ≡ trim_space (before_semicolon raw)
unfolding without_stamp
unclosed raw f e =
    let same = trim_space-flush (before_semicolon raw) (before-is_flush raw f) in
    elim (Bool-cases (starts_with_bracket raw)) [
      | inr other ↦ ground (arith, same, before-unbracketed raw other)
      | inl bracket ↦ elim (Option-cases (cut_at "]" raw)) [
        | inr (at, found) ↦ ground arith
        | inl none_there ↦
            ground
              (arith, same, cut_at-trim_right (before_semicolon raw) (cut_at-before raw none_there))
      ]
    ]

-- With a stamp in front.
pub stamped :
    (stamp raw : Chars)
    → Without b';' stamp
    → Without b']' stamp
    → without_stamp (trim_space (before_semicolon ("[" ∷ (stamp ++ "]" ∷ " " ∷ raw))))
      ≡ trim_space (before_semicolon raw)
unfolding without_stamp before_semicolon is_space
stamped stamp raw no_semi no_close =
    let n = before_semicolon raw in
    let cut : before_semicolon ("[" ∷ (stamp ++ "]" ∷ " " ∷ raw)) ≡ "[" ∷ (stamp ++ "]" ∷ " " ∷ n) =
      before-append ("[" ∷ stamp) ("]" ∷ " " ∷ raw) (refl, no_semi) in
    let trimmed : trim_space ("[" ∷ (stamp ++ "]" ∷ " " ∷ n))
        ≡ "[" ∷ (stamp ++ "]" ∷ trim_right (" " ∷ n)) =
      trim_space-flush ("[" ∷ (stamp ++ "]" ∷ " " ∷ n)) refl
      ∙ trim_right-append ("[" ∷ stamp) "]" (" " ∷ n) refl in
    let found = cut_at-append ("[" ∷ stamp) (trim_right (" " ∷ n)) (refl, no_close) in
    ap (λ cs. without_stamp (trim_space cs)) cut
    ∙ (ap without_stamp trimmed ∙ (rw found refl ∙ space_before n))

module _ (stamp raw : Chars) where
  pub add_entry_time-same :
      starts_with_bracket raw && has_closing_bracket raw ≡ true → add_entry_time stamp raw ≡ raw
  unfolding add_entry_time
  add_entry_time-same e = rw e refl

  pub add_entry_time-stamps :
      starts_with_bracket raw && has_closing_bracket raw ≡ false
      → add_entry_time stamp raw ≡ "[" ∷ (stamp ++ "]" ∷ " " ∷ raw)
  unfolding add_entry_time
  add_entry_time-stamps e = rw e refl

-- The entry time in front of a trimmed command does not change its name.
pub raw_command_name-add_entry_time :
    (upper : Char → Char) (stamp raw : Chars)
    → Without b';' stamp
    → Without b']' stamp
    → is_flush raw ≡ true
    → raw_command_name upper (add_entry_time stamp raw) ≡ raw_command_name upper raw
unfolding raw_command_name
raw_command_name-add_entry_time upper stamp raw no_semi no_close f =
    elim (Bool-cases (starts_with_bracket raw && has_closing_bracket raw)) [
      | inl had_one ↦ ap (raw_command_name upper) (add_entry_time-same stamp raw had_one)
      | inr bare ↦
          ap (raw_command_name upper) (add_entry_time-stamps stamp raw bare)
          ∙ ap (map (upper_code upper))
              (stamped stamp raw no_semi no_close ∙ sym (unclosed raw f bare))
    ]
