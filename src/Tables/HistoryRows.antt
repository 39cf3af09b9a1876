-- ===== src/Tables/HistoryRows.antt =====
-- internal/queue/registry.go: the rows of the history tables.
use statusengine_worker.Prelude.{negsuc, sub_ℕ, suc, ◌*◌, ℤ, String, [], ◌∷◌, ◌++◌, pos}
use statusengine_worker.Bulk.{RowFunc}
use statusengine_worker.Tables.{Value, text, int, float, optional, is_hard_state}
use statusengine_worker.Events.History.{
  StateChangeEvent, LogEntryPayload, NotificationLogEvent, NotificationMethodEvent,
  AcknowledgementEvent,
}

unfoldable pub new_log_entry_row : {F : Type 0} → String → RowFunc LogEntryPayload (Value F)
new_log_entry_row node_name p dst =
    dst ++ (int p.entry_time ∷ int p.data_type ∷ text p.entry_data ∷ text node_name ∷ [])

unfoldable pub host_state_history_row : {F : Type 0} → RowFunc StateChangeEvent (Value F)
host_state_history_row ev dst =
    dst
    ++ (text ev.payload.host_name
        ∷ int ev.timestamp
        ∷ int ev.timestamp_usec
        ∷ int ev.payload.state_change_type
        ∷ int ev.payload.state
        ∷ int (is_hard_state ev.payload.state_type)
        ∷ int ev.payload.current_attempt
        ∷ int ev.payload.max_attempts
        ∷ int ev.payload.last_state
        ∷ int ev.payload.last_hard_state
        ∷ text ev.payload.output
        ∷ text ev.payload.long_output
        ∷ [])

unfoldable pub service_state_history_row : {F : Type 0} → RowFunc StateChangeEvent (Value F)
service_state_history_row ev dst =
    dst
    ++ (text ev.payload.service_description
        ∷ int ev.timestamp
        ∷ int ev.timestamp_usec
        ∷ text ev.payload.host_name
        ∷ int ev.payload.state_change_type
        ∷ int ev.payload.state
        ∷ int (is_hard_state ev.payload.state_type)
        ∷ int ev.payload.current_attempt
        ∷ int ev.payload.max_attempts
        ∷ int ev.payload.last_state
        ∷ int ev.payload.last_hard_state
        ∷ text ev.payload.output
        ∷ text ev.payload.long_output
        ∷ [])

unfoldable pub host_acknowledgement_row : {F : Type 0} → RowFunc AcknowledgementEvent (Value F)
host_acknowledgement_row ev dst =
    dst
    ++ (text ev.payload.host_name
        ∷ int ev.entry_time
        ∷ int ev.entry_time_usec
        ∷ int ev.payload.state
        ∷ text ev.payload.author_name
        ∷ text ev.payload.comment_data
        ∷ int ev.payload.acknowledgement_type
        ∷ int ev.payload.is_sticky
        ∷ int ev.payload.persistent_comment
        ∷ int ev.payload.notify_contacts
        ∷ [])

unfoldable pub service_acknowledgement_row : {F : Type 0} → RowFunc AcknowledgementEvent (Value F)
service_acknowledgement_row ev dst =
    dst
    ++ (text ev.payload.service_description
        ∷ int ev.entry_time
        ∷ int ev.entry_time_usec
        ∷ text ev.payload.host_name
        ∷ int ev.payload.state
        ∷ text ev.payload.author_name
        ∷ text ev.payload.comment_data
        ∷ int ev.payload.acknowledgement_type
        ∷ int ev.payload.is_sticky
        ∷ int ev.payload.persistent_comment
        ∷ int ev.payload.notify_contacts
        ∷ [])

unfoldable pub host_notification_row : {F : Type 0} → RowFunc NotificationMethodEvent (Value F)
host_notification_row ev dst =
    dst
    ++ (text ev.payload.host_name
        ∷ int ev.payload.start_time
        ∷ int ev.timestamp_usec
        ∷ text ev.payload.contact_name
        ∷ text ev.payload.command_name
        ∷ optional ev.payload.command_args
        ∷ int ev.payload.state
        ∷ int ev.payload.end_time
        ∷ int ev.payload.reason_type
        ∷ text ev.payload.output
        ∷ text ev.payload.ack_author
        ∷ text ev.payload.ack_data
        ∷ [])

unfoldable pub service_notification_row : {F : Type 0} → RowFunc NotificationMethodEvent (Value F)
service_notification_row ev dst =
    dst
    ++ (text ev.payload.service_description
        ∷ int ev.payload.start_time
        ∷ int ev.timestamp_usec
        ∷ text ev.payload.host_name
        ∷ text ev.payload.contact_name
        ∷ text ev.payload.command_name
        ∷ optional ev.payload.command_args
        ∷ int ev.payload.state
        ∷ int ev.payload.end_time
        ∷ int ev.payload.reason_type
        ∷ text ev.payload.output
        ∷ text ev.payload.ack_author
        ∷ text ev.payload.ack_data
        ∷ [])

unfoldable pub host_notification_log_row : {F : Type 0} → RowFunc NotificationLogEvent (Value F)
host_notification_log_row ev dst =
    dst
    ++ (text ev.payload.host_name
        ∷ int ev.payload.start_time
        ∷ int ev.timestamp_usec
        ∷ int ev.payload.end_time
        ∷ int ev.payload.state
        ∷ int ev.payload.reason_type
        ∷ int ev.payload.escalated
        ∷ int ev.payload.contacts_notified
        ∷ text ev.payload.output
        ∷ text ev.payload.ack_author
        ∷ text ev.payload.ack_data
        ∷ [])

unfoldable pub service_notification_log_row : {F : Type 0} → RowFunc NotificationLogEvent (Value F)
service_notification_log_row ev dst =
    dst
    ++ (text ev.payload.host_name
        ∷ text ev.payload.service_description
        ∷ int ev.payload.start_time
        ∷ int ev.timestamp_usec
        ∷ int ev.payload.end_time
        ∷ int ev.payload.state
        ∷ int ev.payload.reason_type
        ∷ int ev.payload.escalated
        ∷ int ev.payload.contacts_notified
        ∷ text ev.payload.output
        ∷ text ev.payload.ack_author
        ∷ text ev.payload.ack_data
        ∷ [])

-- internal/queue/processor.go: one measured value of a service check.
pub record PerfdataMetric (F : Type 0) : Type 0 where
  pub host_name : String
  pub service_description : String
  pub label : String
  pub timestamp : ℤ
  pub value : F
  pub unit : String

unfoldable pub milliseconds : ℤ → ℤ
milliseconds (pos n) = pos (n * 1000)
milliseconds (negsuc n) = sub_ℕ 0 (suc n * 1000)

unfoldable pub perfdata_row : {F : Type 0} → RowFunc (PerfdataMetric F) (Value F)
perfdata_row m dst =
    dst
    ++ (text m.host_name
        ∷ text m.service_description
        ∷ text m.label
        ∷ int (milliseconds m.timestamp)
        ∷ int m.timestamp
        ∷ float m.value
        ∷ text m.unit
        ∷ [])
