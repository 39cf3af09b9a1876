-- ===== src/Perfdata/RoundTrip.antt =====
-- internal/queue/perfdata.go: `parsePerfData` reads what is written in the format of perf_data.
use Prim.Native.String.{String}
use text.Mathlib.TextBridge.{of_list}
use statusengine_worker.Prelude.{
  Chars, characters, cut_at, ◌≤◌, true, false, Option, none, some, List, [], ◌∷◌, ◌++◌, ◌≡◌, refl,
  ap, ◌∙◌, arith, map, map-append, length, length-append, All, All-append,
}
use statusengine_worker.Queue.{no_items}
use statusengine_worker.Perfdata.{
  collapse_percent, Gauge, parse_gauge, PerfDataPoint, point_of, points_of, parse_perf_data,
  split_gauges,
}
use statusengine_worker.Perfdata.Gauges.{IsToken, normalized, join_gauges, split_gauges-join}
use statusengine_worker.Perfdata.Readings.{
  Metric, render, IsMetric, decimal, is_plain, is_token-append, plain-token, plain-normalized,
  values_plain, unit_plain, cut_at-equals, read_gauge-value, read_gauge-rest,
}

some_decimal : (v : Chars) → 1 ≤ length v → no_items (map decimal v) ≡ false
some_decimal [] h = ground arith
some_decimal (c ∷ v) h = refl

abbrev pub result_of : Metric → Gauge
result_of m = record {
  label = map normalized m.label;
  value = map decimal m.value;
  unit = collapse_percent m.unit;
}

module _ (m : Metric) (w : IsMetric m) where
  after_plain : All (λ c. is_plain c ≡ true) (m.value ++ (m.unit ++ m.limits))
  after_plain =
      All-append (λ c. is_plain c ≡ true) m.value (m.unit ++ m.limits)
        (values_plain m.value w.value_chars)
        (All-append (λ c. is_plain c ≡ true) m.unit m.limits (unit_plain m.unit w.unit_chars)
          w.limits_chars)

  render-IsToken : IsToken (render m)
  render-IsToken = (
    is_token-append false m.label ("=" ∷ (m.value ++ (m.unit ++ m.limits))) w.closed_quotes
        ∙ plain-token ("=" ∷ (m.value ++ (m.unit ++ m.limits))) (refl, after_plain),
    ground (arith, length-append m.label ("=" ∷ (m.value ++ (m.unit ++ m.limits)))),
  )

  parse_gauge-render : parse_gauge (map normalized (render m)) ≡ some (result_of m)
  unfolding parse_gauge
  parse_gauge-render =
      let rest = m.value ++ (m.unit ++ m.limits) in
      let shape : map normalized (render m) ≡ map normalized m.label ++ "=" ∷ rest =
        map-append normalized m.label ("=" ∷ rest)
        ∙ ap (λ x. map normalized m.label ++ "=" ∷ x) (plain-normalized rest after_plain) in
      let cut = ap (cut_at "=") shape ∙ cut_at-equals m.label rest w.no_equals in
      let read = read_gauge-value [] m.value (m.unit ++ m.limits) w.value_chars in
      let (v, u) =
        read_gauge-rest (map decimal m.value) m.unit m.limits w.unit_chars w.unit_starts
          w.limits_start in
      ground (arith, cut, read, v, u, some_decimal m.value w.some_value)

abbrev pub point : {F : Type 0} → (Chars → Option F) → Metric → List (PerfDataPoint F)
point parse_float m = elim (parse_float (map decimal m.value)) [
  | none ↦ []
  | some value ↦
      record {
        label = of_list (map normalized m.label);
        value = value;
        unit = of_list (collapse_percent m.unit);
      }
      ∷ []
]

abbrev pub points : {F : Type 0} → (Chars → Option F) → List Metric → List (PerfDataPoint F)
points parse_float [] = []
points parse_float (m ∷ ms) = point parse_float m ++ points parse_float ms

rendered_tokens : (ms : List Metric) → All IsMetric ms → All IsToken (map render ms)
rendered_tokens [] w = tt
rendered_tokens (m ∷ ms) w = (render-IsToken m w.0, rendered_tokens ms w.1)

module _ {F : Type 0} (parse_float : Chars → Option F) where
  points_of-render :
      (ms : List Metric)
      → All IsMetric ms
      → points_of parse_float (map (map normalized) (map render ms)) ≡ points parse_float ms
  unfolding points_of point_of
  points_of-render [] w = refl
  points_of-render (m ∷ ms) w = ground (arith, parse_gauge-render m w.0, points_of-render ms w.1)

  -- Metrics in the format label=value[unit][;limits], joined by single spaces, are read back one by
  -- one: the label with single quotes for its quotes, the number with a point for a decimal comma,
  -- and the unit, a double percent sign as a single one. A metric whose number does not parse is
  -- left out, and no other with it. Quotes of a label are closed and spaces inside them only; it has
  -- no equals sign; the number is not empty; a unit does not begin like a number; unit and limits
  -- have neither spaces nor quotes.
  pub parse_perf_data-render :
      (raw : String) (ms : List Metric)
      → All IsMetric ms
      → characters raw ≡ join_gauges (map render ms)
      → parse_perf_data parse_float raw ≡ points parse_float ms
  unfolding parse_perf_data
  parse_perf_data-render raw ms w text =
      ap (λ cs. points_of parse_float (split_gauges cs)) text
      ∙ (ap (points_of parse_float) (split_gauges-join (map render ms) (rendered_tokens ms w))
          ∙ points_of-render ms w)
