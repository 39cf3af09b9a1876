-- ===== src/Metrics.antt =====
-- internal/metrics/metrics.go: the counters and gauges that the modelled code moves. A metric is
-- only ever added to or set, so what the code does to them is the list of those calls, newest
-- first. `Inc()` is an addition of 1; a label stands as an argument.
use statusengine_worker.Prelude.{ℕ, Bool, Bytes, String}

pub data Component : Type 0 where
  component_mysql component_graphite component_websocket component_queue component_command :
      Component

pub data Tick : Type 0 where
  pipeline_errors : Component → Tick
  db_events_written : Bytes → ℕ → Tick
  db_flushes : Bytes → Tick
  db_batch_retries db_connection_retries db_flush_duration : Tick
  db_batch_size_at_flush : ℕ → Tick
  db_available : Bool → Tick
  graphite_written graphite_dropped : ℕ → Tick
  graphite_flushes : Tick
  graphite_available : Bool → Tick
  downtime_updates_unmatched : Bytes → Tick
  payloads_repaired stale_discarded : String → Tick
  clients_inc clients_dec : Tick
  frames_sent : Tick
  broadcasted websocket_dropped publish_dropped : ℕ → Tick
  commands_received commands_rejected : String → Tick
  commands_published command_publish_errors : Tick
