-- ===== src/Tables/Inserters.antt =====
-- internal/queue/registry.go: the bulk inserter of each table, as `NewRouter` builds it. `none` is a
-- panic.
use statusengine_worker.Prelude.{ℤ, String, Option, none, some, List, [], ◌∷◌, Bytes, ℕ}
use statusengine_worker.Bulk.{
  BulkInserter, RowFunc, with_max_batch_size, new_bulk_inserter, new_upsert_bulk_inserter,
}
use statusengine_worker.Events.Status.{HostStatusEvent, ServiceStatusEvent}
use statusengine_worker.Events.Checks.{HostCheckEvent, ServiceCheckEvent}
use statusengine_worker.Events.History.{
  StateChangeEvent, LogEntryPayload, NotificationLogEvent, NotificationMethodEvent,
  AcknowledgementEvent,
}
use statusengine_worker.Tables.{Value}
use statusengine_worker.Tables.Columns.{
  Table, host_status, service_status, host_checks, service_checks, log_entries, host_state_history,
  service_state_history, host_acks, service_acks, perfdata, host_notifications,
  service_notifications, host_notifications_log, service_notifications_log, table_name, columns_of,
  host_status_update_columns, service_status_update_columns, redelivery_safe_pk_column,
  lookup_column,
}
use statusengine_worker.Tables.StatusRows.{
  new_host_status_row, new_service_status_row, host_check_row, service_check_row,
}
use statusengine_worker.Tables.HistoryRows.{
  new_log_entry_row, host_state_history_row, service_state_history_row, host_acknowledgement_row,
  service_acknowledgement_row, host_notification_row, service_notification_row,
  host_notification_log_row, service_notification_log_row, PerfdataMetric, perfdata_row,
}

unfoldable pub new_redelivery_safe_inserter :
    {P V : Type 0} → Bytes → List Bytes → RowFunc P V → List (ℕ → ℕ) → Option (BulkInserter P V)
new_redelivery_safe_inserter table columns to_row opts =
    elim (lookup_column table redelivery_safe_pk_column) [
      | none ↦ none
      | some pk_column ↦ new_upsert_bulk_inserter table columns (pk_column ∷ []) to_row opts
    ]

module _ {F : Type 0} (truncate : F → ℤ) (node_name : String) where
  abbrev pub Item : Table → Type 0
  Item host_status = HostStatusEvent F
  Item service_status = ServiceStatusEvent F
  Item host_checks = HostCheckEvent F
  Item service_checks = ServiceCheckEvent F
  Item log_entries = LogEntryPayload
  Item host_state_history = StateChangeEvent
  Item service_state_history = StateChangeEvent
  Item host_acks = AcknowledgementEvent
  Item service_acks = AcknowledgementEvent
  Item perfdata = PerfdataMetric F
  Item host_notifications = NotificationMethodEvent
  Item service_notifications = NotificationMethodEvent
  Item host_notifications_log = NotificationLogEvent
  Item service_notifications_log = NotificationLogEvent

  unfoldable pub row_of : (t : Table) → RowFunc (Item t) (Value F)
  row_of host_status = new_host_status_row truncate node_name
  row_of service_status = new_service_status_row truncate node_name
  row_of host_checks = host_check_row
  row_of service_checks = service_check_row
  row_of log_entries = new_log_entry_row node_name
  row_of host_state_history = host_state_history_row
  row_of service_state_history = service_state_history_row
  row_of host_acks = host_acknowledgement_row
  row_of service_acks = service_acknowledgement_row
  row_of perfdata = perfdata_row
  row_of host_notifications = host_notification_row
  row_of service_notifications = service_notification_row
  row_of host_notifications_log = host_notification_log_row
  row_of service_notifications_log = service_notification_log_row

  abbrev plain : (t : Table) → List (ℕ → ℕ) → Option (BulkInserter (Item t) (Value F))
  plain t opts = new_bulk_inserter (table_name t) (columns_of t) (row_of t) opts

  abbrev redelivery_safe : (t : Table) → List (ℕ → ℕ) → Option (BulkInserter (Item t) (Value F))
  redelivery_safe t opts =
      new_redelivery_safe_inserter (table_name t) (columns_of t) (row_of t) opts

  unfoldable pub inserter_with :
      (t : Table) → List (ℕ → ℕ) → Option (BulkInserter (Item t) (Value F))
  inserter_with host_status opts =
      new_upsert_bulk_inserter (table_name host_status) (columns_of host_status)
        host_status_update_columns (row_of host_status) opts
  inserter_with service_status opts =
      new_upsert_bulk_inserter (table_name service_status) (columns_of service_status)
        service_status_update_columns (row_of service_status) opts
  inserter_with log_entries opts = plain log_entries opts
  inserter_with perfdata opts = plain perfdata opts
  inserter_with t opts = redelivery_safe t opts

  unfoldable pub inserter_of : (t : Table) → ℤ → Option (BulkInserter (Item t) (Value F))
  unfolding inserter_with
  inserter_of t mysql_batch_size = inserter_with t (with_max_batch_size mysql_batch_size ∷ [])
