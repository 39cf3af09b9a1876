-- ===== src/Graphite/Reading.antt =====
-- The lines of a batch, read the way Carbon reads its plaintext protocol: a line is a path, a value
-- and a time stamp, with a space between them.
use Prim.Native.Char.{code}
use statusengine_worker.Prelude.{
  ℕ, zero, suc, ◌+◌, ◌≤◌, ◌≡◌, refl, true, false, ◌&&◌, Option, none, some, List, [], ◌∷◌, ◌++◌,
  Bytes, ℤ, pos, negsuc, map, length, All, All-append, arith, ◌==◌, leb, append_assoc, format_int,
}
use statusengine_worker.Perfdata.Handler.{Metric}
use statusengine_worker.Graphite.Lines.{line, lines}
use statusengine_worker.Graphite.Numbers.{IsDigit, digits-IsDigit, read_int, read_int-format_int}

-- The text before the first `mark`, and what follows it.
cut : ℕ → Bytes → Option (Bytes × Bytes)
cut mark [] = none
cut mark (b ∷ bs) = elim (b == mark) [
  | true ↦ some ([], bs)
  | false ↦ elim (cut mark bs) [ none ↦ none | some (before, after) ↦ some (b ∷ before, after) ]
]

-- No byte of a text is the mark.
abbrev pub IsFree : ℕ → Bytes → Type 0
IsFree mark = All (λ b. (b == mark) ≡ false)

cut-mark :
    (mark : ℕ) (xs rest : Bytes) → IsFree mark xs → cut mark (xs ++ mark ∷ rest) ≡ some (xs, rest)
unfolding cut
cut-mark mark [] rest h = ground arith
cut-mark mark (x ∷ xs) rest (h, hs) = rw (h, cut, cut-mark mark xs rest hs) refl

digit-IsFree :
    (mark : ℕ)
    → (leb b'0' mark && leb mark b'9') ≡ false
    → (bs : Bytes) → All IsDigit bs
    → IsFree mark bs
digit-IsFree mark other [] h = tt
digit-IsFree mark other (b ∷ bs) (h, hs) = (ground arith, digit-IsFree mark other bs hs)

format_int-IsFree :
    (mark : ℕ)
    → (leb b'0' mark && leb mark b'9') ≡ false
    → (mark == b'-') ≡ false
    → (z : ℤ) → IsFree mark (format_int z)
unfolding format_int
format_int-IsFree mark other differs (pos n) =
    digit-IsFree mark other _ (digits-IsDigit (suc n) n [] tt)
format_int-IsFree mark other differs (negsuc n) =
    (ground arith, digit-IsFree mark other _ (digits-IsDigit (n + 2) (n + 1) [] tt))

-- What a line says.
pub record Point (F : Type 0) : Type 0 where
  pub path : Bytes
  pub value : F
  pub timestamp : ℤ

module _ {F : Type 0} (parse_float : Bytes → Option F) where
  read_fields : Bytes → Option (Point F)
  unfolding cut read_int
  read_fields text = elim (cut b' ' text) [
    | none ↦ none
    | some (path, fields) ↦ elim (cut b' ' fields) [
      | none ↦ none
      | some (value, stamp) ↦ elim (parse_float value) [
        | none ↦ none
        | some v ↦ elim (read_int stamp) [
          | none ↦ none
          | some t ↦ some (record { path = path; value = v; timestamp = t })
        ]
      ]
    ]
  ]

  -- As many lines as there are rounds at most.
  unfoldable pub read_lines : ℕ → Bytes → Option (List (Point F))
  unfolding cut read_fields
  read_lines rounds [] = some []
  read_lines zero (b ∷ text) = none
  read_lines (suc rounds) (b ∷ text) = elim (cut b'\n' (b ∷ text)) [
    | none ↦ none
    | some (first, rest) ↦ elim (read_fields first) [
      | none ↦ none
      | some p ↦ elim (read_lines rounds rest) [ none ↦ none | some ps ↦ some (p ∷ ps) ]
    ]
  ]

  module _ (append_float : F → Bytes) where
    -- A metric whose path and value have no blanks, and whose value is read back.
    pub record IsPlain (m : Metric F) : Type 0 where
      pub path_spaces : IsFree b' ' (map code m.path)
      pub path_lines : IsFree b'\n' (map code m.path)
      pub value_spaces : IsFree b' ' (append_float m.value)
      pub value_lines : IsFree b'\n' (append_float m.value)
      pub value_reads : parse_float (append_float m.value) ≡ some m.value

    abbrev pub point : Metric F → Point F
    point m = record { path = map code m.path; value = m.value; timestamp = m.timestamp }

    -- A line without its end.
    abbrev fields : Metric F → Bytes
    fields m = map code m.path ++ b' ' ∷ (append_float m.value ++ b' ' ∷ format_int m.timestamp)

    read_fields-fields : (m : Metric F) → IsPlain m → read_fields (fields m) ≡ some (point m)
    unfolding read_fields
    read_fields-fields m p =
        rw
          (
            cut-mark b' ' (map code m.path) _ p.path_spaces,
            read_fields,
            cut-mark b' ' (append_float m.value) (format_int m.timestamp) p.value_spaces,
            p.value_reads,
            read_int-format_int m.timestamp,
          )
          refl

    cut-line :
        (m : Metric F) (rest : Bytes)
        → IsPlain m
        → cut b'\n' (line append_float m ++ rest) ≡ some (fields m, rest)
    unfolding line
    cut-line m rest p =
        let regroup : line append_float m ++ rest ≡ fields m ++ b'\n' ∷ rest = simp append_assoc in
        rw regroup (
          cut-mark b'\n' (fields m) rest (
            All-append _ (map code m.path) _ p.path_lines (
              refl,
              All-append _ (append_float m.value) _ p.value_lines
                  (refl, format_int-IsFree b'\n' refl refl m.timestamp),
            )))

    read_lines-step :
        (rounds : ℕ) (text first rest : Bytes) (p : Point F) (ps : List (Point F))
        → cut b'\n' text ≡ some (first, rest)
        → read_fields first ≡ some p
        → read_lines rounds rest ≡ some ps
        → read_lines (suc rounds) text ≡ some (p ∷ ps)
    unfolding read_lines
    read_lines-step rounds [] first rest p ps c f r = unfold cut in cc
    read_lines-step rounds (b ∷ text) first rest p ps c f r = rw (c, read_lines, f, r) refl

    -- What a flush writes is read back: the lines of the metrics give their paths, values and time
    -- stamps, in order, if no path and no written value has a space or a line break in it, and if
    -- each written value reads as the value. As many rounds as there are metrics are enough.
    pub read_lines-lines :
        (rounds : ℕ) (metrics : List (Metric F))
        → length metrics ≤ rounds
        → All IsPlain metrics
        → read_lines rounds (lines append_float metrics) ≡ some (map point metrics)
    unfolding lines
    read_lines-lines zero [] h all = unfold read_lines in refl
    read_lines-lines (suc rounds) [] h all = unfold read_lines in refl
    read_lines-lines zero (m ∷ ms) h all = absurd (omega arith)
    read_lines-lines (suc rounds) (m ∷ ms) h (p, all) =
        read_lines-step rounds (line append_float m ++ lines append_float ms) (fields m)
          (lines append_float ms) (point m) (map point ms) (cut-line m (lines append_float ms) p)
          (read_fields-fields m p) (read_lines-lines rounds ms (omega arith) all)
