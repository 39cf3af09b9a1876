-- ===== src/Downtime/Exec.antt =====
-- internal/queue/registry.go: a downtime action is turned into its statement, executed and counted,
-- and the handler of the downtime queue. MySQL and the driver are a parameter.
use statusengine_worker.Prelude.{
  ℕ, String, Bool, true, false, Option, none, some, List, [], ◌∷◌, ◌++◌, Bytes, codes, ◌==◌,
  if◌then◌else◌,
}
use statusengine_worker.Metrics.{
  Tick, pipeline_errors, component_mysql, db_events_written, downtime_updates_unmatched,
}
use statusengine_worker.Hub.{Hub}
use statusengine_worker.Queue
use statusengine_worker.Queue.{HandlerError, decode_failed, write_failed, unhandled_action}
use statusengine_worker.Downtime.{
  DowntimeMessage, DowntimeTargetTable, scheduled_downtimes_table, downtime_history_table,
  DowntimeActionType, upsert, update_started, update_stopped, delete, DowntimeAction,
  determine_downtime_actions,
}
use statusengine_worker.Downtime.Queries.{
  DowntimeRow, Query, upsert_scheduled_downtime_query, delete_scheduled_downtime_query,
  upsert_downtime_history_query, update_downtime_history_started_query,
  update_downtime_history_stopped_query, delete_downtime_history_query,
  downtime_history_exists_query,
}

-- The reply to `ExecContext`: an error, or a result whose `RowsAffected` may be unknown.
pub data ExecReply : Type 0 where
  refused : ExecReply
  done : Option ℕ → ExecReply

-- The reply to `QueryRowContext(…).Scan`: a row, `sql.ErrNoRows`, or another error.
pub data LookupReply : Type 0 where
  found no_rows lookup_failed : LookupReply

pub record Mysql : Type 1 where
  pub Db : Type 0
  pub exec : Query → Db → ExecReply × Db
  pub query_row : Query → Db → LookupReply

unfoldable pub table_suffix : DowntimeTargetTable → Bytes
table_suffix downtime_history_table = codes "downtimehistory"
table_suffix scheduled_downtimes_table = codes "scheduleddowntimes"

abbrev pub downtime_table_name : Bytes → Bytes → Bytes
downtime_table_name scope base = codes "statusengine_" ++ (scope ++ (codes "_" ++ base))

unfoldable pub downtime_metrics_table : DowntimeAction → Bytes
unfolding table_suffix
downtime_metrics_table a =
    downtime_table_name (if a.row.is_host_downtime then codes "host" else codes "service")
      (table_suffix a.table)

unfoldable pub downtime_row_for : DowntimeAction → DowntimeRow
downtime_row_for a = record {
  is_host_downtime = r.is_host_downtime;
  host_name = r.host_name;
  service_description = r.service_description;
  node_name = r.node_name;
  internal_downtime_id = r.internal_downtime_id;
  entry_time = r.entry_time;
  entry_time_usec = r.entry_time_usec;
  author_name = r.author_name;
  comment_data = r.comment_data;
  triggered_by_id = r.triggered_by_id;
  is_fixed = r.is_fixed;
  duration = r.duration;
  scheduled_start_time = r.scheduled_start_time;
  scheduled_end_time = r.scheduled_end_time;
  was_started = r.was_started;
  actual_start_time = r.actual_start_time;
  actual_end_time = r.actual_end_time;
  was_cancelled = r.was_cancelled;
}
  where
    open a use {row as r}

-- The `switch` of `execDowntimeAction`; `none` is its default.
unfoldable pub query_for : DowntimeTargetTable → DowntimeActionType → DowntimeRow → Option Query
query_for scheduled_downtimes_table upsert row = some (upsert_scheduled_downtime_query row)
query_for scheduled_downtimes_table delete row = some (delete_scheduled_downtime_query row)
query_for downtime_history_table upsert row = some (upsert_downtime_history_query row)
query_for downtime_history_table update_started row =
    some (update_downtime_history_started_query row)
query_for downtime_history_table update_stopped row =
    some (update_downtime_history_stopped_query row)
query_for downtime_history_table delete row = some (delete_downtime_history_query row)
query_for _ _ row = none

abbrev pub is_update : DowntimeActionType → Bool
is_update update_started = true
is_update update_stopped = true
is_update _ = false

-- `err != nil || affected != 0`.
abbrev changed_or_unknown : Option ℕ → Bool
changed_or_unknown none = true
changed_or_unknown (some n) = if n == 0 then false else true

module _ (m : Mysql) where
  open m use {Db, exec, query_row}

  -- The hub is the handler's, the ticks are the metrics that it moves.
  pub record World : Type 0 where
    pub hub : Hub
    pub db : Db
    pub ticks : List Tick

  unfoldable pub report_unmatched_downtime_update :
      Option ℕ → DowntimeAction → Bytes → World → World
  report_unmatched_downtime_update affected a table w =
      if is_update a.action
      then (if changed_or_unknown affected
          then w
          else elim (query_row (downtime_history_exists_query (downtime_row_for a)) w.db) [
            | found ↦ w
            | lookup_failed ↦ w
            | no_rows ↦ record w { ticks = downtime_updates_unmatched table ∷ w.ticks }
          ])
      else w

  unfoldable pub after_exec : DowntimeAction → ExecReply × Db → World → Option HandlerError × World
  after_exec a (refused, db) w =
      (some write_failed, record w { db = db; ticks = pipeline_errors component_mysql ∷ w.ticks })
  after_exec a (done affected, db) w =
      let table = downtime_metrics_table a in
      let reported = report_unmatched_downtime_update affected a table (record w { db = db }) in
      (none, record reported { ticks = db_events_written table 1 ∷ reported.ticks })

  unfoldable pub exec_downtime_action : DowntimeAction → World → Option HandlerError × World
  exec_downtime_action a w = elim (query_for a.table a.action (downtime_row_for a)) [
    | none ↦ (some unhandled_action, w)
    | some query ↦ after_exec a (exec query w.db) w
  ]

  -- The loop of the handler: it stops at the first error.
  unfoldable pub exec_actions : List DowntimeAction → World → Option HandlerError × World
  exec_actions [] w = (none, w)
  exec_actions (a ∷ rest) w =
      let (err, w') = exec_downtime_action a w in
      elim err [ some e ↦ (some e, w') | none ↦ exec_actions rest w' ]

  module _ (marshal : List DowntimeMessage → Option Bytes) (topic node_name : String) where
    -- What the handler does with a decoded message.
    unfoldable pub handle_message : DowntimeMessage → World → Option HandlerError × World
    unfolding exec_actions exec_downtime_action after_exec query_for downtime_row_for
        determine_downtime_actions
    handle_message msg w =
        exec_actions (determine_downtime_actions msg node_name)
          (record w { hub = Queue.publish marshal w.hub topic msg })

    unfoldable pub downtime_handler :
        (Bytes → Option DowntimeMessage) → Bytes → World → Option HandlerError × World
    unfolding handle_message
    downtime_handler decode payload w = elim (decode payload) [
      | none ↦ (some decode_failed, w)
      | some msg ↦ handle_message msg w
    ]
