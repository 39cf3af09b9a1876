-- ===== src/Command/Spelled.antt =====
-- internal/command/validate.go: a command as Naemon's log writes it, in any ASCII case, and the name that
-- the deny list is asked for.
use Prim.Native.Char.{Char, code}
use statusengine_worker.Prelude.{
  ℕ, zero, suc, ◌-◌, Bool, true, false, ◌||◌, ◌&&◌, List, [], ◌∷◌, ◌++◌, Bytes, ◌==◌, leb, ◌≡◌,
  refl, ap, ◌∙◌, arith, map, All, codes, replicate, Chars, if◌then◌else◌, append-nil,
}
use statusengine_worker.Command.{
  is_space, trim_left, trim_right, trim_space, before_semicolon, upper_code, raw_command_name,
  is_listed, denied_raw_commands, is_denied,
}
use statusengine_worker.Command.Names.{Without, before-append, stamped}

-- The names that no raw command may have.
abbrev pub forbidden_names : List Bytes
forbidden_names =
    codes "SHUTDOWN_PROGRAM"
    ∷ codes "SHUTDOWN_PROCESS"
    ∷ codes "RESTART_PROGRAM"
    ∷ codes "RESTART_PROCESS"
    ∷ codes "PROCESS_FILE"
    ∷ []

-- A letter of ASCII or an underscore.
abbrev pub is_word : Char → Bool
is_word c =
    (leb b'A' (code c) && leb (code c) b'Z')
    || ((leb b'a' (code c) && leb (code c) b'z') || (code c == b'_'))

-- Small letters as capital ones.
abbrev pub capital : Char → ℕ
capital c = if leb b'a' (code c) && leb (code c) b'z' then code c - 32 else code c

-- `[time] name;arguments`, with blanks around the name, and with or without arguments.
pub record Spells (text : Chars) (name : Bytes) : Type 0 where
  pub time : Chars
  pub left : ℕ
  pub word : Chars
  pub right : ℕ
  pub arguments : Chars
  pub text_is :
      text
      ≡ "["
        ∷ (time ++ "]" ∷ " " ∷ (replicate left " " ++ (word ++ (replicate right " " ++ arguments))))
  pub no_semicolon : Without b';' time
  pub no_bracket : Without b']' time
  pub letters : All (λ c. is_word c ≡ true) word
  pub word_is : map capital word ≡ name
  pub cut : before_semicolon arguments ≡ []

blanks-Without : (n : ℕ) → Without b';' (replicate n " ")
blanks-Without zero = tt
blanks-Without (suc n) = (refl, blanks-Without n)

word-Without : (word : Chars) → All (λ c. is_word c ≡ true) word → Without b';' word
word-Without [] l = tt
word-Without (c ∷ word) (p, l) = (ground arith, word-Without word l)

trim_left-blanks : (n : ℕ) (cs : Chars) → trim_left (replicate n " " ++ cs) ≡ trim_left cs
unfolding trim_left is_space
trim_left-blanks zero cs = refl
trim_left-blanks (suc n) cs = trim_left-blanks n cs

trim_right-blanks : (n : ℕ) → trim_right (replicate n " ") ≡ []
unfolding trim_right is_space
trim_right-blanks zero = refl
trim_right-blanks (suc n) = rw (trim_right-blanks n) refl

word-solid : (c : Char) → is_word c ≡ true → is_space c ≡ false
unfolding is_space
word-solid c w = ground arith

trim_right-word :
    (word : Chars) (n : ℕ)
    → All (λ c. is_word c ≡ true) word
    → trim_right (word ++ replicate n " ") ≡ word
unfolding trim_right
trim_right-word [] n l = trim_right-blanks n
trim_right-word (c ∷ word) n (p, l) = rw (word-solid c p, trim_right-word word n l) refl

trim_left-solid : (c : Char) (cs : Chars) → is_space c ≡ false → trim_left (c ∷ cs) ≡ c ∷ cs
unfolding trim_left
trim_left-solid c cs e = rw (e, trim_left) refl

trim_left-word :
    (word : Chars) (n : ℕ)
    → All (λ c. is_word c ≡ true) word
    → trim_right (trim_left (word ++ replicate n " ")) ≡ word
unfolding trim_left trim_right is_space
trim_left-word [] zero l = refl
trim_left-word [] (suc n) l = trim_left-word [] n l
trim_left-word (c ∷ word) n (p, l) =
    ap trim_right (trim_left-solid c (word ++ replicate n " ") (word-solid c p))
    ∙ trim_right-word (c ∷ word) n (p, l)

-- Blanks and arguments aside, the word is the name.
named :
    (left right : ℕ) (word arguments : Chars)
    → All (λ c. is_word c ≡ true) word
    → before_semicolon arguments ≡ []
    → trim_space
        (before_semicolon (replicate left " " ++ (word ++ (replicate right " " ++ arguments))))
      ≡ word
unfolding trim_space
named left right word arguments l cut =
    let kept : before_semicolon (replicate left " " ++ (word ++ (replicate right " " ++ arguments)))
        ≡ replicate left " " ++ (word ++ replicate right " ") =
      before-append (replicate left " ") _ (blanks-Without left)
      ∙ ap (λ xs. replicate left " " ++ xs)
          (before-append word _ (word-Without word l)
            ∙ ap (λ xs. word ++ xs)
                (before-append (replicate right " ") arguments (blanks-Without right)
                  ∙ (ap (λ xs. replicate right " " ++ xs) cut
                      ∙ append-nil (replicate right " ")))) in
    ap (λ cs. trim_right (trim_left cs)) kept
    ∙ (ap trim_right (trim_left-blanks left (word ++ replicate right " "))
        ∙ trim_left-word word right l)

module _ (upper : Char → Char) where
  capitals :
      (word : Chars)
      → All (λ c. is_word c ≡ true) word
      → map (upper_code upper) word ≡ map capital word
  capitals [] l = refl
  capitals (c ∷ word) (p, l) = ground (arith, capitals word l)

  raw_command_name-Spells :
      (text : Chars) (name : Bytes) → Spells text name → raw_command_name upper text ≡ name
  unfolding raw_command_name
  raw_command_name-Spells text name s =
      let command = replicate s.left " " ++ (s.word ++ (replicate s.right " " ++ s.arguments)) in
      ap (raw_command_name upper) s.text_is
      ∙ (ap (map (upper_code upper)) (
            stamped s.time command s.no_semicolon s.no_bracket
            ∙ named s.left s.right s.word s.arguments s.letters s.cut)
          ∙ (capitals s.word s.letters ∙ s.word_is))

  not_spelled :
      (text : Chars) (name : Bytes)
      → is_listed name denied_raw_commands ≡ true
      → is_denied upper text ≡ false
      → ¬ Spells text name
  not_spelled text name listed allowed s =
      let same = raw_command_name-Spells text name s in
      cc (ap (λ n. is_listed n denied_raw_commands) same)

  -- A text that is not denied spells none of the names, whatever the case of its letters.
  pub allowed-Spells :
      (text : Chars) → is_denied upper text ≡ false → All (λ d. ¬ Spells text d) forbidden_names
  allowed-Spells text a = (
    not_spelled text (codes "SHUTDOWN_PROGRAM") refl a,
    (
      not_spelled text (codes "SHUTDOWN_PROCESS") refl a,
      (
        not_spelled text (codes "RESTART_PROGRAM") refl a,
        (
          not_spelled text (codes "RESTART_PROCESS") refl a,
          (not_spelled text (codes "PROCESS_FILE") refl a, tt),
        ),
      ),
    ),
  )
