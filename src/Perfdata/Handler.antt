-- ===== src/Perfdata/Handler.antt =====
-- internal/queue/processor.go: the paths of graphite and the handler of the perfdata queue. The
-- inserter, the graphite client and JSON are parameters; `M` and `G` are the states behind them.
use Prim.Native.Char.{Char, code}
use Prim.Native.String.{String}
use statusengine_worker.Prelude.{
  Chars, characters, ℤ, Bool, true, false, ◌||◌, ◌&&◌, Option, none, some, List, [], ◌∷◌, ◌++◌,
  Bytes, ◌==◌, leb, map, if◌then◌else◌,
}
use statusengine_worker.Hub.{has_clients}
use statusengine_worker.Queue.{HandlerError, decode_failed, publish_batch}
use statusengine_worker.Queue.Handlers.{World, Enqueue, Handler, enqueue_all}
use statusengine_worker.Events.Checks.{ServiceCheckPayload, PerfdataEvent}
use statusengine_worker.Tables.HistoryRows.{PerfdataMetric}
use statusengine_worker.Perfdata.{PerfDataPoint, parse_perf_data}

pub data PerfdataRoute : Type 0 where
  mysql graphite both : PerfdataRoute

abbrev pub to_mysql : PerfdataRoute → Bool
to_mysql graphite = false
to_mysql _ = true

abbrev pub to_graphite : PerfdataRoute → Bool
to_graphite mysql = false
to_graphite _ = true

-- What `graphiteIllegalCharacters` does not match.
abbrev pub is_legal : Char → Bool
is_legal c =
    (leb b'a' (code c) && leb (code c) b'z')
    || ((leb b'A' (code c) && leb (code c) b'Z')
        || ((code c == b'^')
            || ((leb b'0' (code c) && leb (code c) b'9')
                || ((code c == b'-') || (code c == b'.')))))

abbrev pub legal : Char → Char
legal c = if is_legal c then c else "_"

unfoldable pub sanitize_graphite_path_segment : Chars → Chars
sanitize_graphite_path_segment s = map legal s

-- `graphite.Metric`.
pub record Metric (F : Type 0) : Type 0 where
  pub path : Chars
  pub value : F
  pub timestamp : ℤ

unfoldable pub graphite_metric_path : {F : Type 0} → Chars → PerfdataMetric F → Chars
unfolding sanitize_graphite_path_segment
graphite_metric_path sanitized_prefix m =
    sanitized_prefix
    ++ "."
      ∷ (sanitize_graphite_path_segment (characters m.host_name)
          ++ "."
            ∷ (sanitize_graphite_path_segment (characters m.service_description)
                ++ "." ∷ sanitize_graphite_path_segment (characters m.label)))

abbrev pub graphite_metric : {F : Type 0} → Chars → PerfdataMetric F → Metric F
graphite_metric sanitized_prefix m = record {
  path = graphite_metric_path sanitized_prefix m;
  value = m.value;
  timestamp = m.timestamp;
}

module _ {F : Type 0} (parse_float : Chars → Option F) where
  abbrev pub metric_of : PerfdataEvent F → PerfDataPoint F → PerfdataMetric F
  metric_of ev p = record {
    host_name = ev.payload.host_name;
    service_description = ev.payload.service_description;
    label = p.label;
    timestamp = ev.timestamp;
    value = p.value;
    unit = p.unit;
  }

  unfoldable pub metrics_of : PerfdataEvent F → List (PerfdataMetric F)
  metrics_of ev = map (metric_of ev) (parse_perf_data parse_float ev.payload.perf_data)

module _ {F M G : Type 0} (route : PerfdataRoute) (mysql_ins : Enqueue (PerfdataMetric F) M)
    (gc : Enqueue (Metric F) G) (sanitized_prefix : Chars) where
  -- Both destinations of one metric.
  unfoldable pub enqueue_metric : Enqueue (PerfdataMetric F) (M × G)
  enqueue_metric metric (m, g) =
      let (stored, m') = if to_mysql route then mysql_ins metric m else (true, m) in
      if stored
      then (let (sent, g') =
            if to_graphite route
            then gc (graphite_metric sanitized_prefix metric) g
            else (true, g) in
          (sent, (m', g')))
      else (false, (m', g))

  unfoldable pub store_events :
      (Chars → Option F)
      → List (PerfdataEvent F)
      → World (M × G)
      → Option HandlerError × World (M × G)
  unfolding metrics_of
  store_events parse_float [] w = (none, w)
  store_events parse_float (ev ∷ events) w =
      let (err, w') = enqueue_all enqueue_metric (metrics_of parse_float ev) w in
      elim err [ some e ↦ (some e, w') | none ↦ store_events parse_float events w' ]

module _ {F M G : Type 0} (marshal : List (ServiceCheckPayload F) → Option Bytes) (topic : String)
    (decode : Bytes → Option (List (PerfdataEvent F))) (parse_float : Chars → Option F) where
  unfoldable pub new_perfdata_handler :
      PerfdataRoute → Enqueue (PerfdataMetric F) M → Enqueue (Metric F) G → Chars → Handler (M × G)
  unfolding store_events enqueue_metric
  new_perfdata_handler route mysql_ins gc graphite_prefix payload w = elim (decode payload) [
    | none ↦ (some decode_failed, w)
    | some events ↦
        store_events route mysql_ins gc (sanitize_graphite_path_segment graphite_prefix) parse_float
          events
          (record w {
            hub =
                if has_clients w.hub
                then publish_batch marshal w.hub topic (map (λ ev. ev.payload) events)
                else w.hub;
          })
  ]
