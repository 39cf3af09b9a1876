-- ===== src/Perfdata/Tests.antt =====
-- A check with three metrics, and where they go.
use Prim.Native.String.{String}
use statusengine_worker.Prelude.{
  Chars, characters, cut_at, ℕ, ◌+◌, pos, true, Option, some, List, [], ◌∷◌, ◌++◌, Bytes, codes,
  ◌≡◌, refl, arith, All, count, map, length,
}
use statusengine_worker.Hub.{new_hub, has_clients}
use statusengine_worker.Queue.{publish_batch}
use statusengine_worker.Queue.Handlers.{World, Enqueue, enqueue_all}
use statusengine_worker.Queue.Enqueued.{Records, itself}
use statusengine_worker.Events.Checks.{ServiceCheckPayload, PerfdataEvent}
use statusengine_worker.Tables.HistoryRows.{PerfdataMetric}
use statusengine_worker.Perfdata.{
  parse_perf_data, parse_gauge, point_of, points_of, split_gauges, scan, scan_char, read_gauge,
  read_char, collapse_percent,
}
use statusengine_worker.Perfdata.Gauges.{is_token}
use statusengine_worker.Perfdata.Readings.{Metric, IsMetric}
use statusengine_worker.Perfdata.RoundTrip.{points, parse_perf_data-render}
use statusengine_worker.Perfdata.Handler as Handler
use statusengine_worker.Perfdata.Handler.{
  both, to_mysql, to_graphite, sanitize_graphite_path_segment, graphite_metric_path,
  graphite_metric, enqueue_metric, metrics_of, store_events, new_perfdata_handler,
}
use statusengine_worker.Perfdata.Routes.{only, all_metrics, new_perfdata_handler-delivers}
use statusengine_worker.Perfdata.Paths.{graphite_metric_path-dots, is_path_char, is_dot}

-- The number of characters stands for the float.
abbrev size : Chars → Option ℕ
size cs = some (length cs)

abbrev metric : String → String → String → String → Metric
metric label value unit limits = record {
  label = characters label;
  value = characters value;
  unit = characters unit;
  limits = characters limits;
}

abbrev rta : Metric
rta = metric "rta" "0.069" "ms" ";100;500"

abbrev quoted : Metric
quoted = metric "\"resp time\"" "3,7" "%%" ""

both_metrics : IsMetric rta × IsMetric quoted
unfolding is_token
both_metrics = (
  record {
    closed_quotes = refl;
    no_equals = (refl, (refl, (refl, tt)));
    some_value = omega arith;
    value_chars = (refl, (refl, (refl, (refl, (refl, tt)))));
    unit_starts = refl;
    unit_chars = (refl, (refl, tt));
    limits_start = refl;
    limits_chars = (refl, (refl, (refl, (refl, (refl, (refl, (refl, (refl, tt))))))));
  },
  record {
    closed_quotes = refl;
    no_equals =
        (refl, (refl, (refl, (refl, (refl, (refl, (refl, (refl, (refl, (refl, (refl, tt)))))))))));
    some_value = omega arith;
    value_chars = (refl, (refl, (refl, tt)));
    unit_starts = refl;
    unit_chars = (refl, (refl, tt));
    limits_start = refl;
    limits_chars = tt;
  },
)

parsed_text :
    parse_perf_data size "rta=0.069ms;100;500 \"resp time\"=3,7%%"
    ≡ record { label = "rta"; value = 5; unit = "ms" }
      ∷ record { label = "'resp time'"; value = 3; unit = "%" }
      ∷ []
unfolding parse_perf_data split_gauges scan scan_char points_of point_of parse_gauge cut_at
    read_gauge read_char collapse_percent
parsed_text = refl

parse_perf_data-render_example :
    parse_perf_data size "rta=0.069ms;100;500 \"resp time\"=3,7%%" ≡ points size (rta ∷ quoted ∷ [])
parse_perf_data-render_example =
    parse_perf_data-render size "rta=0.069ms;100;500 \"resp time\"=3,7%%" (rta ∷ quoted ∷ [])
      (both_metrics.0, (both_metrics.1, tt)) refl

dotted : PerfdataMetric ℕ
dotted = record {
  host_name = "db.example";
  service_description = "Load avg";
  label = "'a'";
  timestamp = pos 7;
  value = 1;
  unit = "";
}

graphite_metric_path-dots_example :
    All
      (λ c. is_path_char c ≡ true)
      (graphite_metric_path (sanitize_graphite_path_segment (characters "se")) dotted)
    × (count is_dot (graphite_metric_path (sanitize_graphite_path_segment (characters "se")) dotted)
        ≡ 3
          + (count is_dot (characters "se")
              + (count is_dot (characters dotted.host_name)
                  + (count is_dot (characters dotted.service_description)
                      + count is_dot (characters dotted.label)))))
graphite_metric_path-dots_example = graphite_metric_path-dots (characters "se") dotted

abbrev check : PerfdataEvent ℕ
check = record {
  timestamp = pos 7;
  payload = record {
    host_name = "h";
    service_description = "s";
    command_line = "";
    command_name = "";
    output = "";
    long_output = "";
    perf_data = "a=1";
    check_type = pos 0;
    current_attempt = pos 1;
    max_attempts = pos 3;
    state_type = pos 1;
    state = pos 0;
    timeout = pos 60;
    start_time = pos 6;
    end_time = pos 7;
    early_timeout = pos 0;
    execution_time = 1;
    latency = 0;
    return_code = pos 0;
  };
}

-- A sink that takes everything.
abbrev taken : {P : Type 0} → Enqueue P (List P)
taken p s = (true, s ++ p ∷ [])

taken-Records : {P : Type 0} → Records taken (λ (s : List P). s) itself
taken-Records = record { accepted = λ p s ok. refl; refused = λ p s full. ground arith }

abbrev marshal : List (ServiceCheckPayload ℕ) → Option Bytes
marshal ps = some (codes "[]")

abbrev one_check : Bytes → Option (List (PerfdataEvent ℕ))
one_check raw = some (check ∷ [])

abbrev stored_metric : PerfdataMetric ℕ
stored_metric = record {
  host_name = "h";
  service_description = "s";
  label = "a";
  timestamp = pos 7;
  value = 1;
  unit = "";
}

abbrev world :
    List (PerfdataMetric ℕ)
    → List (Handler.Metric ℕ)
    → World (List (PerfdataMetric ℕ) × List (Handler.Metric ℕ))
world rows sent = record { hub = new_hub; inserters = (rows, sent); ticks = [] }

abbrev after : World (List (PerfdataMetric ℕ) × List (Handler.Metric ℕ))
after =
    world (stored_metric ∷ [])
      (record { path = characters "se.h.s.a"; value = 1; timestamp = pos 7 } ∷ [])

new_perfdata_handler-delivers_example :
    (events : List (PerfdataEvent ℕ)) × (one_check [] ≡ some events)
    × (after.inserters.0 ≡ [] ++ only (to_mysql both) (all_metrics size events))
    × (after.inserters.1
        ≡ []
          ++ only (to_graphite both) (
              map
                (graphite_metric (sanitize_graphite_path_segment (characters "se")))
                (all_metrics size events)))
    × (after.hub ≡ publish_batch marshal new_hub "t" (map (λ ev. ev.payload) events))
unfolding new_perfdata_handler store_events enqueue_all enqueue_metric metrics_of parse_perf_data
    split_gauges scan scan_char points_of point_of parse_gauge cut_at read_gauge read_char
    collapse_percent new_hub has_clients sanitize_graphite_path_segment graphite_metric_path
new_perfdata_handler-delivers_example =
    new_perfdata_handler-delivers size taken taken (λ s. s) (λ s. s) taken-Records taken-Records
      marshal "t" one_check both (characters "se") [] (world [] []) after refl
