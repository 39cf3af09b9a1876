-- ===== src/Downtime/Tests.antt =====
-- A service downtime, over a database in memory.
use statusengine_worker.Prelude.{
  true, false, Option, none, some, List, [], Bytes, ◌≡◌, refl, ℤ, pos, length,
}
use statusengine_worker.Hub.{new_hub}
use statusengine_worker.Bulk.Placeholders.{marks}
use statusengine_worker.Downtime.{
  DowntimePayload, DowntimeMessage, scheduled_downtimes_table, delete,
}
use statusengine_worker.Downtime.Queries.{
  DowntimeRow, delete_scheduled_downtime_query, downtime_history_exists_query,
}
use statusengine_worker.Downtime.Exec.{World, handle_message, downtime_handler, query_for}
use statusengine_worker.Downtime.Tables.{Key, write}
use statusengine_worker.Downtime.Memory.{in_memory, in_memory_laws, run_query}
use statusengine_worker.Downtime.Effects.{key_for, next_history, next_scheduled}
use statusengine_worker.Downtime.Binding.{query_for-IsBound}
use statusengine_worker.Downtime.Lifecycle.{downtime_handler-rows, in_order_life}

abbrev patching : DowntimePayload
patching = record {
  host_name = "db1";
  service_description = "mysql";
  author_name = "admin";
  comment_data = "patching";
  downtime_type = pos 1;
  entry_time = pos 900;
  start_time = pos 1000;
  end_time = pos 2000;
  triggered_by = pos 0;
  downtime_id = pos 7;
  fixed = pos 1;
  duration = pos 1000;
}

abbrev message : ℤ → ℤ → ℤ → DowntimeMessage
message type attr timestamp = record {
  type = type;
  flags = pos 0;
  attr = attr;
  timestamp = timestamp;
  timestamp_usec = pos 0;
  downtime = patching;
}

abbrev add : DowntimeMessage
add = message (pos 1100) (pos 0) (pos 900)

abbrev start : DowntimeMessage
start = message (pos 1103) (pos 0) (pos 1001)

abbrev stop : DowntimeMessage
stop = message (pos 1104) (pos 2) (pos 1500)

abbrev nowhere : List DowntimeMessage → Option Bytes
nowhere ms = none

abbrev empty : World in_memory
empty = record {
  hub = new_hub;
  db = record { history = λ k. none; scheduled = λ k. none };
  ticks = [];
}

abbrev after : DowntimeMessage → World in_memory → World in_memory
after msg w = (handle_message in_memory nowhere "statusngin_downtimes" "node1" msg w).1

abbrev patching_key : Key
patching_key = key_for patching "node1"

in_order_life_example :
    ((after stop (after start (after add empty))).db.history patching_key
      ≡ some (record {
        was_started = true;
        actual_start_time = pos 1001;
        actual_end_time = pos 1500;
        was_cancelled = true;
      }))
    × ((after stop (after start (after add empty))).db.scheduled patching_key ≡ none)
unfolding handle_message run_query
in_order_life_example =
    in_order_life in_memory in_memory_laws nowhere "statusngin_downtimes" "node1" add start stop
      empty (after add empty) (after start (after add empty))
      (after stop (after start (after add empty))) refl refl refl refl refl refl refl refl

downtime_handler-rows_example :
    let w = after add empty in
    ((after start w).db.history patching_key
      ≡ write patching_key
          (next_history start (w.db.history patching_key))
          w.db.history
          patching_key)
    × ((after start w).db.scheduled patching_key
        ≡ write patching_key
            (next_scheduled start (w.db.scheduled patching_key))
            w.db.scheduled
            patching_key)
unfolding handle_message run_query downtime_handler
downtime_handler-rows_example =
    downtime_handler-rows in_memory in_memory_laws nowhere "statusngin_downtimes" "node1"
      (λ payload. some start) [] start (after add empty) (after start (after add empty))
      patching_key refl refl

abbrev stopped_row : DowntimeRow
stopped_row = record {
  is_host_downtime = true;
  host_name = "db1";
  service_description = "";
  node_name = "node1";
  internal_downtime_id = pos 7;
  entry_time = pos 900;
  entry_time_usec = pos 0;
  author_name = "admin";
  comment_data = "patching";
  triggered_by_id = pos 0;
  is_fixed = true;
  duration = pos 1000;
  scheduled_start_time = pos 1000;
  scheduled_end_time = pos 2000;
  was_started = false;
  actual_start_time = pos 0;
  actual_end_time = pos 1500;
  was_cancelled = true;
}

query_for-IsBound_example :
    (marks (delete_scheduled_downtime_query stopped_row).0
      ≡ length (delete_scheduled_downtime_query stopped_row).1)
    × (marks (downtime_history_exists_query stopped_row).0
        ≡ length (downtime_history_exists_query stopped_row).1)
unfolding query_for
query_for-IsBound_example =
    query_for-IsBound scheduled_downtimes_table delete stopped_row
      (delete_scheduled_downtime_query stopped_row) refl
