-- ===== src/Perfdata.antt =====
-- internal/queue/perfdata.go: the metrics in the perf_data of a service check. Go walks the bytes of the
-- text and tests them for ASCII characters only, here they are characters. `strconv.ParseFloat` is a
-- parameter.
mod Gauges
mod Readings
mod RoundTrip
pub mod Handler
mod Routes
mod Paths
mod Tests
use Prim.Native.Char.{Char, code}
use Prim.Native.String.{String}
use text.Mathlib.TextBridge.{of_list}
use statusengine_worker.Prelude.{
  Bool, true, false, ◌||◌, ◌&&◌, not, Option, none, some, List, [], ◌∷◌, ◌++◌, ◌==◌, leb,
  if◌then◌else◌, Chars, characters, cut_at,
}
use statusengine_worker.Queue.{no_items}

abbrev pub single_quote : Char
single_quote = "'"

abbrev pub is_quote : Char → Bool
is_quote c = (code c == b'\'') || (code c == b'"')

-- The variables of the loop of `splitGauges`.
pub record Scan : Type 0 where
  pub gauges : List Chars
  pub cur : Chars
  pub in_quotes : Bool

-- `if len(cur) > 0`.
abbrev pub end_gauge : Scan → Scan
end_gauge s = if no_items s.cur then s else record s { gauges = s.gauges ++ s.cur ∷ []; cur = [] }

-- One round of the loop.
unfoldable pub scan_char : Char → Scan → Scan
scan_char c s =
    if is_quote c && not s.in_quotes
    then record s { in_quotes = true; cur = s.cur ++ single_quote ∷ [] }
    else if s.in_quotes && is_quote c
    then record s { in_quotes = false; cur = s.cur ++ single_quote ∷ [] }
    else if s.in_quotes
    then record s { cur = s.cur ++ c ∷ [] }
    else if code c == b' '
    then end_gauge s
    else record s { cur = s.cur ++ c ∷ [] }

unfoldable pub scan : Scan → Chars → Scan
unfolding scan_char
scan s [] = s
scan s (c ∷ raw) = scan (scan_char c s) raw

abbrev pub no_gauges : Scan
no_gauges = record { gauges = []; cur = []; in_quotes = false }

unfoldable pub split_gauges : Chars → List Chars
unfolding scan
split_gauges raw = (end_gauge (scan no_gauges raw)).gauges

-- The variables of the loop of `parseGauge`.
pub record Reading : Type 0 where
  pub value : Chars
  pub unit : Chars
  pub in_unit : Bool

abbrev pub is_number_char : Char → Bool
is_number_char c =
    (code c == b'.') || ((code c == b'-') || (leb b'0' (code c) && leb (code c) b'9'))

unfoldable pub read_char : Char → Reading → Reading
read_char c r =
    if r.in_unit
    then record r { unit = r.unit ++ c ∷ [] }
    else if code c == b','
    then record r { value = r.value ++ "." ∷ [] }
    else if is_number_char c
    then record r { value = r.value ++ c ∷ [] }
    else record r { in_unit = true; unit = r.unit ++ c ∷ [] }

unfoldable pub read_gauge : Reading → Chars → Reading
unfolding read_char
read_gauge r [] = r
read_gauge r (c ∷ cs) = elim (code c == b';') [ true ↦ r | false ↦ read_gauge (read_char c r) cs ]

-- `if unit == "%%"`.
unfoldable pub collapse_percent : Chars → Chars
collapse_percent (a ∷ b ∷ []) =
    if (code a == b'%') && (code b == b'%') then "%" ∷ [] else a ∷ b ∷ []
collapse_percent unit = unit

pub record Gauge : Type 0 where
  pub label : Chars
  pub value : Chars
  pub unit : Chars

unfoldable pub parse_gauge : Chars → Option Gauge
unfolding cut_at read_gauge collapse_percent
parse_gauge gauge = elim (cut_at "=" gauge) [
  | none ↦ none
  | some (label, rest) ↦
      let r = read_gauge (record { value = []; unit = []; in_unit = false }) rest in
      if no_items r.value
      then none
      else some (record { label = label; value = r.value; unit = collapse_percent r.unit })
]

pub record PerfDataPoint (F : Type 0) : Type 0 where
  pub label : String
  pub value : F
  pub unit : String

module _ {F : Type 0} (parse_float : Chars → Option F) where
  -- One round of the loop of `parsePerfData`: a gauge that does not parse is skipped.
  unfoldable pub point_of : Chars → List (PerfDataPoint F)
  unfolding parse_gauge
  point_of gauge = elim (parse_gauge gauge) [
    | none ↦ []
    | some g ↦ elim (parse_float g.value) [
      | none ↦ []
      | some value ↦ record { label = of_list g.label; value = value; unit = of_list g.unit } ∷ []
    ]
  ]

  unfoldable pub points_of : List Chars → List (PerfDataPoint F)
  unfolding point_of
  points_of [] = []
  points_of (gauge ∷ gauges) = point_of gauge ++ points_of gauges

  unfoldable pub parse_perf_data : String → List (PerfDataPoint F)
  unfolding split_gauges points_of
  parse_perf_data raw = points_of (split_gauges (characters raw))
