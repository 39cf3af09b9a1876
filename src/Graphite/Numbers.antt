-- ===== src/Graphite/Numbers.antt =====
-- The digits that the client writes, read back.
use statusengine_worker.Prelude.{
  ℕ, zero, suc, ◌+◌, ◌-◌, ◌*◌, ◌/◌, ◌%◌, ◌≤◌, ◌<◌, ◌≡◌, refl, ap, ◌∙◌, true, false, ◌&&◌, Option,
  none, some, [], ◌∷◌, Bytes, ℤ, pos, negsuc, length, All, arith, ◌==◌, leb, ltb, digits,
  format_int, Bool-cases, inl, inr,
}

read_digits : ℕ → Bytes → Option ℕ
read_digits n [] = some n
read_digits n (b ∷ bs) = elim (leb b'0' b && leb b b'9') [
  | true ↦ read_digits (10 * n + (b - b'0')) bs
  | false ↦ none
]

abbrev pub minus : ℕ → ℤ
minus zero = pos 0
minus (suc n) = negsuc n

unfoldable pub read_int : Bytes → Option ℤ
unfolding read_digits
read_int [] = none
read_int (b ∷ bs) = elim (b == b'-') [
  | true ↦ elim (read_digits 0 bs) [ none ↦ none | some n ↦ some (minus n) ]
  | false ↦ elim (read_digits 0 (b ∷ bs)) [ none ↦ none | some n ↦ some (pos n) ]
]

abbrev pub IsDigit : ℕ → Type 0
IsDigit b = (leb b'0' b && leb b b'9') ≡ true

pub digits-IsDigit :
    (fuel n : ℕ) (after : Bytes) → All IsDigit after → All IsDigit (digits fuel n after)
unfolding digits
digits-IsDigit zero n after h = h
digits-IsDigit (suc fuel) n after h = elim (Bool-cases (ltb n 10)) [
  | inl e ↦ rw (e, digits) (ground arith, h)
  | inr e ↦ rw (e, digits) (digits-IsDigit fuel (n / 10) _ (ground arith, h))
]

read_digits-digit :
    (n d m : ℕ) (after : Bytes)
    → d < 10
    → 10 * n + d ≡ m
    → read_digits n ((b'0' + d) ∷ after) ≡ read_digits m after
unfolding read_digits
read_digits-digit n d m after h e =
    let is_digit : IsDigit (b'0' + d) = ground arith in
    let number : 10 * n + ((b'0' + d) - b'0') ≡ m = omega arith in
    rw (is_digit, read_digits, number) refl

read_digits-digits :
    (fuel n : ℕ) (after : Bytes)
    → n < fuel
    → read_digits 0 (digits fuel n after) ≡ read_digits n after
unfolding digits
read_digits-digits zero n after h = absurd (omega arith)
read_digits-digits (suc fuel) n after h = elim (Bool-cases (ltb n 10)) [
  | inl e ↦ rw (e, digits) (read_digits-digit 0 n n after (ground arith) (omega arith))
  | inr e ↦
      rw (e, digits)
        (read_digits-digits fuel (n / 10) _ (ground arith)
          ∙ read_digits-digit (n / 10) (n % 10) n after (omega arith) (omega arith))
]

-- The digits of a number do not start with a minus sign.
read_int-digits :
    (bs : Bytes) (n : ℕ)
    → All IsDigit bs
    → 1 ≤ length bs
    → read_digits 0 bs ≡ some n
    → read_int bs ≡ some (pos n)
unfolding read_int
read_int-digits [] n d h e = absurd (omega arith)
read_int-digits (b ∷ bs) n (d, ds) h e =
    let no_minus : (b == b'-') ≡ false = ground arith in rw (no_minus, read_int, e) refl

length-digits : (fuel n : ℕ) (after : Bytes) → length after ≤ length (digits fuel n after)
unfolding digits
length-digits zero n after = omega arith
length-digits (suc fuel) n after = elim (Bool-cases (ltb n 10)) [
  | inl e ↦ rw (e, digits) (omega arith)
  | inr e ↦ rw (e, digits) (omega (arith, length-digits fuel (n / 10) ((b'0' + n % 10) ∷ after)))
]

some_digits : (fuel n : ℕ) → 1 ≤ length (digits (suc fuel) n [])
unfolding digits
some_digits fuel n = elim (Bool-cases (ltb n 10)) [
  | inl e ↦ rw (e, digits) (omega arith)
  | inr e ↦ rw (e, digits) (omega (arith, length-digits fuel (n / 10) ((b'0' + n % 10) ∷ [])))
]

read_int-minus :
    (bs : Bytes) (n : ℕ) → read_digits 0 bs ≡ some n → read_int (b'-' ∷ bs) ≡ some (minus n)
unfolding read_int
read_int-minus bs n e = rw (e, read_int) refl

pub read_int-format_int : (z : ℤ) → read_int (format_int z) ≡ some z
unfolding format_int
read_int-format_int (pos n) =
    read_int-digits (digits (suc n) n []) n (digits-IsDigit (suc n) n [] tt) (some_digits n n)
      (read_digits-digits (suc n) n [] (omega arith) ∙ unfold read_digits in refl)
read_int-format_int (negsuc n) =
    let number : read_digits 0 (digits (n + 2) (n + 1) []) ≡ some (n + 1) =
      read_digits-digits (n + 2) (n + 1) [] (omega arith) ∙ unfold read_digits in refl in
    let number' : read_digits 0 (digits (n + 2) (n + 1) []) ≡ some (suc n) =
      number ∙ ap (λ k. some k) (omega arith) in
    read_int-minus (digits (n + 2) (n + 1) []) (suc n) number'
