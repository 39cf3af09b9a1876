-- ===== src/Perfdata/Readings.antt =====
-- internal/queue/perfdata.go: `parseGauge` on a gauge in the format of perf_data.
use Prim.Native.Char.{Char, code}
use statusengine_worker.Prelude.{
  Chars, cut_at, ◌≤◌, Bool, true, false, ◌&&◌, ◌||◌, not, some, [], ◌∷◌, ◌++◌, ◌==◌, ◌≡◌, refl, ap,
  arith, map, length, All, Bool-cases, inl, inr, append-nil, append_assoc, if◌then◌else◌,
}
use statusengine_worker.Perfdata.{is_quote, Reading, is_number_char, read_char, read_gauge}
use statusengine_worker.Perfdata.Gauges.{is_token, normalized}

-- One metric: the label, the number, the unit, and from the first semicolon on what is not kept.
pub record Metric : Type 0 where
  pub label : Chars
  pub value : Chars
  pub unit : Chars
  pub limits : Chars

abbrev pub render : Metric → Chars
render m = m.label ++ "=" ∷ (m.value ++ (m.unit ++ m.limits))

abbrev pub is_plain : Char → Bool
is_plain c = not (is_quote c) && not (code c == b' ')

abbrev pub is_value_char : Char → Bool
is_value_char c = (code c == b',') || is_number_char c

abbrev pub starts_unit : Chars → Bool
starts_unit [] = true
starts_unit (c ∷ cs) = not (is_value_char c)

abbrev pub starts_limits : Chars → Bool
starts_limits [] = true
starts_limits (c ∷ cs) = code c == b';'

pub record IsMetric (m : Metric) : Type 0 where
  pub closed_quotes : is_token false m.label ≡ true
  pub no_equals : All (λ c. (code c == b'=') ≡ false) m.label
  pub some_value : 1 ≤ length m.value
  pub value_chars : All (λ c. is_value_char c ≡ true) m.value
  pub unit_starts : starts_unit m.unit ≡ true
  pub unit_chars : All (λ c. is_plain c && not (code c == b';') ≡ true) m.unit
  pub limits_start : starts_limits m.limits ≡ true
  pub limits_chars : All (λ c. is_plain c ≡ true) m.limits

-- The decimal comma becomes a point.
abbrev pub decimal : Char → Char
decimal c = if code c == b',' then "." else c

value_char-plain : (c : Char) → is_value_char c ≡ true → is_plain c ≡ true
value_char-plain c e = ground arith

pub is_token-append :
    (q : Bool) (a b : Chars) → is_token q a ≡ true → is_token q (a ++ b) ≡ is_token false b
unfolding is_token
is_token-append q [] b e = ground arith
is_token-append q (c ∷ a) b e = elim (Bool-cases (is_quote c)) [
  | inl quote ↦ ground (arith, is_token-append (not q) a b)
  | inr other ↦ elim (Bool-cases (not q && (code c == b' '))) [
    | inl sp ↦ ground arith
    | inr sp ↦ ground (arith, is_token-append q a b)
  ]
]

pub plain-token : (a : Chars) → All (λ c. is_plain c ≡ true) a → is_token false a ≡ true
unfolding is_token
plain-token [] all = refl
plain-token (c ∷ a) all = ground (arith, plain-token a all.1)

pub plain-normalized : (a : Chars) → All (λ c. is_plain c ≡ true) a → map normalized a ≡ a
plain-normalized [] all = refl
plain-normalized (c ∷ a) all = ground (arith, plain-normalized a all.1)

pub values_plain :
    (a : Chars) → All (λ c. is_value_char c ≡ true) a → All (λ c. is_plain c ≡ true) a
values_plain [] all = tt
values_plain (c ∷ a) all = (value_char-plain c all.0, values_plain a all.1)

pub unit_plain :
    (a : Chars)
    → All (λ c. is_plain c && not (code c == b';') ≡ true) a
    → All (λ c. is_plain c ≡ true) a
unit_plain [] all = tt
unit_plain (c ∷ a) all = (ground (arith, all.0), unit_plain a all.1)

pub cut_at-equals :
    (a b : Chars)
    → All (λ c. (code c == b'=') ≡ false) a
    → cut_at "=" (map normalized a ++ "=" ∷ b) ≡ some (map normalized a, b)
unfolding cut_at
cut_at-equals [] b all = refl
cut_at-equals (c ∷ a) b all =
    let other : (code (normalized c) == b'=') ≡ false = elim (Bool-cases (is_quote c)) [
      | inl q ↦ rw q refl
      | inr q ↦ rw q all.0
    ] in
    ground (arith, other, cut_at-equals a b all.1)

read_value-char :
    (v : Chars) (c : Char)
    → is_value_char c ≡ true
    → ((code c == b';') ≡ false)
      × (read_char c (record { value = v; unit = []; in_unit = false })
          ≡ record { value = v ++ decimal c ∷ []; unit = []; in_unit = false })
unfolding read_char
read_value-char v c e = ground arith

pub read_gauge-value :
    (v a b : Chars)
    → All (λ c. is_value_char c ≡ true) a
    → read_gauge (record { value = v; unit = []; in_unit = false }) (a ++ b)
      ≡ read_gauge (record { value = v ++ map decimal a; unit = []; in_unit = false }) b
unfolding read_gauge
read_gauge-value v [] b all = ground (arith, append-nil v)
read_gauge-value v (c ∷ a) b all =
    let (more, read) = read_value-char v c all.0 in
    ground (
      arith,
      more,
      read,
      read_gauge-value (v ++ decimal c ∷ []) a b all.1,
      append_assoc v (decimal c ∷ []) (map decimal a),
    )

read_gauge-limits : (r : Reading) (b : Chars) → starts_limits b ≡ true → read_gauge r b ≡ r
unfolding read_gauge
read_gauge-limits r [] e = refl
read_gauge-limits r (c ∷ b) e = ground arith

read_gauge-unit :
    (v u a b : Chars)
    → All (λ c. is_plain c && not (code c == b';') ≡ true) a
    → starts_limits b ≡ true
    → read_gauge (record { value = v; unit = u; in_unit = true }) (a ++ b)
      ≡ record { value = v; unit = u ++ a; in_unit = true }
unfolding read_gauge read_char
read_gauge-unit v u [] b all e =
    ground
      (arith, append-nil u, read_gauge-limits (record { value = v; unit = u; in_unit = true }) b e)
read_gauge-unit v u (c ∷ a) b all e =
    ground (arith, all.0, read_gauge-unit v (u ++ c ∷ []) a b all.1 e, append_assoc u (c ∷ []) a)

-- After the number: the unit, unless the limits begin at once.
pub read_gauge-rest :
    (v a b : Chars)
    → All (λ c. is_plain c && not (code c == b';') ≡ true) a
    → starts_unit a ≡ true
    → starts_limits b ≡ true
    → let r = read_gauge (record { value = v; unit = []; in_unit = false }) (a ++ b) in
      (r.value ≡ v) × (r.unit ≡ a)
unfolding read_gauge read_char
read_gauge-rest v [] b all s e =
    let same = read_gauge-limits (record { value = v; unit = []; in_unit = false }) b e in
    (ap (λ (r : Reading). r.value) same, ap (λ (r : Reading). r.unit) same)
read_gauge-rest v (c ∷ a) b all s e = ground (arith, all.0, read_gauge-unit v (c ∷ []) a b all.1 e)
