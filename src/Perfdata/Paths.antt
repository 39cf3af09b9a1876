-- ===== src/Perfdata/Paths.antt =====
-- internal/queue/processor.go: what the paths of graphite metrics look like.
use Prim.Native.Char.{Char, code}
use statusengine_worker.Prelude.{
  Chars, characters, ℕ, ◌+◌, Bool, true, ◌||◌, [], ◌∷◌, ◌++◌, ◌==◌, ◌≡◌, refl, arith, All,
  All-append, count, count-append, map, inl, inr, Bool-cases, if◌then◌else◌,
}
use statusengine_worker.Tables.HistoryRows.{PerfdataMetric}
use statusengine_worker.Perfdata.Handler.{
  is_legal, legal, sanitize_graphite_path_segment, graphite_metric_path,
}

abbrev pub is_dot : Char → Bool
is_dot c = code c == b'.'

abbrev pub is_path_char : Char → Bool
is_path_char c = is_legal c || (code c == b'_')

legal-path_char : (c : Char) → is_path_char (legal c) ≡ true
legal-path_char c = elim (Bool-cases (is_legal c)) [
  | inl ok ↦ rw (ok, ok) refl
  | inr bad ↦ rw bad refl
]

legal-dot : (c : Char) → is_dot (legal c) ≡ is_dot c
legal-dot c = elim (Bool-cases (is_legal c)) [
  | inl ok ↦ rw ok refl
  | inr bad ↦ elim (Bool-cases (is_dot c)) [
    | inl dot ↦ ground arith
    | inr other ↦ rw (bad, other) refl
  ]
]

dots_kept : (s : Chars) → count is_dot (map legal s) ≡ count is_dot s
dots_kept [] = refl
dots_kept (c ∷ s) =
    let same : ◌≡◌ {A = ℕ} (if is_dot (legal c) then 1 else 0) (if is_dot c then 1 else 0) =
      rw (legal-dot c) refl in
    omega (arith, dots_kept s, same)

sanitized_legal : (s : Chars) → All (λ c. is_path_char c ≡ true) (map legal s)
sanitized_legal [] = tt
sanitized_legal (c ∷ s) = (legal-path_char c, sanitized_legal s)

-- Every character of a path is legal or an underscore, and its dots are the three that separate the four parts and
-- every dot of the parts themselves: a host, a service or a label with a dot in it adds a segment.
pub graphite_metric_path-dots :
    {F : Type 0} (prefix : Chars) (m : PerfdataMetric F)
    → let path = graphite_metric_path (sanitize_graphite_path_segment prefix) m in
      All (λ c. is_path_char c ≡ true) path
      × (count is_dot path
          ≡ 3
            + (count is_dot prefix
                + (count is_dot (characters m.host_name)
                    + (count is_dot (characters m.service_description)
                        + count is_dot (characters m.label)))))
unfolding graphite_metric_path
graphite_metric_path-dots prefix m =
    let p = map legal prefix in
    let h = map legal (characters m.host_name) in
    let s = map legal (characters m.service_description) in
    let l = map legal (characters m.label) in
    (
      All-append (λ c. is_path_char c ≡ true) p ("." ∷ (h ++ "." ∷ (s ++ "." ∷ l)))
          (sanitized_legal prefix)
          (
            refl,
            All-append (λ c. is_path_char c ≡ true) h ("." ∷ (s ++ "." ∷ l))
                (sanitized_legal (characters m.host_name))
                (
                  refl,
                  All-append (λ c. is_path_char c ≡ true) s ("." ∷ l)
                      (sanitized_legal (characters m.service_description))
                      (refl, sanitized_legal (characters m.label)),
                ),
          ),
      omega (
        arith,
        count-append is_dot p ("." ∷ (h ++ "." ∷ (s ++ "." ∷ l))),
        count-append is_dot h ("." ∷ (s ++ "." ∷ l)),
        count-append is_dot s ("." ∷ l),
        dots_kept prefix,
        dots_kept (characters m.host_name),
        dots_kept (characters m.service_description),
        dots_kept (characters m.label),
      ),
    )
