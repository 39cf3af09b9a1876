-- ===== src/Tables/Columns.antt =====
-- internal/queue/registry.go: the tables that `NewRouter` builds a bulk inserter for, with their
-- columns. `names` are the bytes of each name.
use statusengine_worker.Prelude.{
  String, Option, none, some, List, [], ◌∷◌, Bytes, codes, map, bytes_eq, if◌then◌else◌,
}

pub data Table : Type 0 where
  host_status service_status host_checks service_checks log_entries host_state_history
        service_state_history host_acks service_acks perfdata host_notifications
        service_notifications host_notifications_log service_notifications_log :
      Table

abbrev names : List String → List Bytes
names = map codes

unfoldable pub host_status_columns : List Bytes
host_status_columns = names (
    "hostname" ∷ "status_update_time" ∷ "output" ∷ "long_output" ∷ "perfdata" ∷ "current_state"
    ∷ "current_check_attempt" ∷ "max_check_attempts" ∷ "last_check" ∷ "next_check"
    ∷ "is_passive_check" ∷ "last_state_change" ∷ "last_hard_state_change" ∷ "last_hard_state"
    ∷ "is_hardstate" ∷ "last_notification" ∷ "next_notification" ∷ "notifications_enabled"
    ∷ "problem_has_been_acknowledged" ∷ "acknowledgement_type" ∷ "passive_checks_enabled"
    ∷ "active_checks_enabled" ∷ "event_handler_enabled" ∷ "flap_detection_enabled" ∷ "is_flapping"
    ∷ "latency" ∷ "execution_time" ∷ "scheduled_downtime_depth" ∷ "process_performance_data"
    ∷ "obsess_over_host" ∷ "normal_check_interval" ∷ "retry_check_interval" ∷ "check_timeperiod"
    ∷ "node_name" ∷ "last_time_up" ∷ "last_time_down" ∷ "last_time_unreachable"
    ∷ "current_notification_number" ∷ "percent_state_change" ∷ "event_handler" ∷ "check_command"
    ∷ [])

unfoldable pub service_status_columns : List Bytes
service_status_columns = names (
    "hostname" ∷ "service_description" ∷ "status_update_time" ∷ "output" ∷ "long_output"
    ∷ "perfdata" ∷ "current_state" ∷ "current_check_attempt" ∷ "max_check_attempts" ∷ "last_check"
    ∷ "next_check" ∷ "is_passive_check" ∷ "last_state_change" ∷ "last_hard_state_change"
    ∷ "last_hard_state" ∷ "is_hardstate" ∷ "last_notification" ∷ "next_notification"
    ∷ "notifications_enabled" ∷ "problem_has_been_acknowledged" ∷ "acknowledgement_type"
    ∷ "passive_checks_enabled" ∷ "active_checks_enabled" ∷ "event_handler_enabled"
    ∷ "flap_detection_enabled" ∷ "is_flapping" ∷ "latency" ∷ "execution_time"
    ∷ "scheduled_downtime_depth" ∷ "process_performance_data" ∷ "obsess_over_service"
    ∷ "normal_check_interval" ∷ "retry_check_interval" ∷ "check_timeperiod" ∷ "node_name"
    ∷ "last_time_ok" ∷ "last_time_warning" ∷ "last_time_critical" ∷ "last_time_unknown"
    ∷ "current_notification_number" ∷ "percent_state_change" ∷ "event_handler" ∷ "check_command"
    ∷ [])

-- The slices `columns[1:]` and `columns[2:]`.
abbrev tail {ℓ} : {A : Type ℓ} → List A → List A
tail [] = []
tail (x ∷ xs) = xs

unfoldable pub host_status_update_columns : List Bytes
unfolding host_status_columns
host_status_update_columns = tail host_status_columns

unfoldable pub service_status_update_columns : List Bytes
unfolding service_status_columns
service_status_update_columns = tail (tail service_status_columns)

unfoldable pub table_name : Table → Bytes
table_name host_status = codes "statusengine_hoststatus"
table_name service_status = codes "statusengine_servicestatus"
table_name host_checks = codes "statusengine_hostchecks"
table_name service_checks = codes "statusengine_servicechecks"
table_name log_entries = codes "statusengine_logentries"
table_name host_state_history = codes "statusengine_host_statehistory"
table_name service_state_history = codes "statusengine_service_statehistory"
table_name host_acks = codes "statusengine_host_acknowledgements"
table_name service_acks = codes "statusengine_service_acknowledgements"
table_name perfdata = codes "statusengine_perfdata"
table_name host_notifications = codes "statusengine_host_notifications"
table_name service_notifications = codes "statusengine_service_notifications"
table_name host_notifications_log = codes "statusengine_host_notifications_log"
table_name service_notifications_log = codes "statusengine_service_notifications_log"

unfoldable pub columns_of : Table → List Bytes
unfolding host_status_columns service_status_columns
columns_of host_status = host_status_columns
columns_of service_status = service_status_columns
columns_of host_checks = names (
    "hostname" ∷ "start_time" ∷ "start_time_usec" ∷ "state" ∷ "is_hardstate" ∷ "end_time" ∷ "output"
    ∷ "long_output" ∷ "timeout" ∷ "early_timeout" ∷ "latency" ∷ "execution_time" ∷ "perfdata"
    ∷ "command" ∷ "current_check_attempt" ∷ "max_check_attempts" ∷ [])
columns_of service_checks = names (
    "service_description" ∷ "start_time" ∷ "start_time_usec" ∷ "hostname" ∷ "state" ∷ "is_hardstate"
    ∷ "end_time" ∷ "output" ∷ "long_output" ∷ "timeout" ∷ "early_timeout" ∷ "latency"
    ∷ "execution_time" ∷ "perfdata" ∷ "command" ∷ "current_check_attempt" ∷ "max_check_attempts"
    ∷ [])
columns_of log_entries = names ("entry_time" ∷ "logentry_type" ∷ "logentry_data" ∷ "node_name" ∷ [])
columns_of host_state_history = names (
    "hostname" ∷ "state_time" ∷ "state_time_usec" ∷ "state_change" ∷ "state" ∷ "is_hardstate"
    ∷ "current_check_attempt" ∷ "max_check_attempts" ∷ "last_state" ∷ "last_hard_state" ∷ "output"
    ∷ "long_output" ∷ [])
columns_of service_state_history = names (
    "service_description" ∷ "state_time" ∷ "state_time_usec" ∷ "hostname" ∷ "state_change" ∷ "state"
    ∷ "is_hardstate" ∷ "current_check_attempt" ∷ "max_check_attempts" ∷ "last_state"
    ∷ "last_hard_state" ∷ "output" ∷ "long_output" ∷ [])
columns_of host_acks = names (
    "hostname" ∷ "entry_time" ∷ "entry_time_usec" ∷ "state" ∷ "author_name" ∷ "comment_data"
    ∷ "acknowledgement_type" ∷ "is_sticky" ∷ "persistent_comment" ∷ "notify_contacts" ∷ [])
columns_of service_acks = names (
    "service_description" ∷ "entry_time" ∷ "entry_time_usec" ∷ "hostname" ∷ "state" ∷ "author_name"
    ∷ "comment_data" ∷ "acknowledgement_type" ∷ "is_sticky" ∷ "persistent_comment"
    ∷ "notify_contacts" ∷ [])
columns_of perfdata = names (
    "hostname" ∷ "service_description" ∷ "label" ∷ "timestamp" ∷ "timestamp_unix" ∷ "value" ∷ "unit"
    ∷ [])
columns_of host_notifications = names (
    "hostname" ∷ "start_time" ∷ "start_time_usec" ∷ "contact_name" ∷ "command_name" ∷ "command_args"
    ∷ "state" ∷ "end_time" ∷ "reason_type" ∷ "output" ∷ "ack_author" ∷ "ack_data" ∷ [])
columns_of service_notifications = names (
    "service_description" ∷ "start_time" ∷ "start_time_usec" ∷ "hostname" ∷ "contact_name"
    ∷ "command_name" ∷ "command_args" ∷ "state" ∷ "end_time" ∷ "reason_type" ∷ "output"
    ∷ "ack_author" ∷ "ack_data" ∷ [])
columns_of host_notifications_log = names (
    "hostname" ∷ "start_time" ∷ "start_time_usec" ∷ "end_time" ∷ "state" ∷ "reason_type"
    ∷ "is_escalated" ∷ "contacts_notified_count" ∷ "output" ∷ "ack_author" ∷ "ack_data" ∷ [])
columns_of service_notifications_log = names (
    "hostname" ∷ "service_description" ∷ "start_time" ∷ "start_time_usec" ∷ "end_time" ∷ "state"
    ∷ "reason_type" ∷ "is_escalated" ∷ "contacts_notified_count" ∷ "output" ∷ "ack_author"
    ∷ "ack_data" ∷ [])

-- The map of the primary-key column that a repeated row overwrites with itself.
abbrev pub redelivery_safe_pk_column : List (Bytes × Bytes)
redelivery_safe_pk_column =
    (codes "statusengine_hostchecks", codes "hostname")
    ∷ (codes "statusengine_servicechecks", codes "service_description")
    ∷ (codes "statusengine_host_statehistory", codes "hostname")
    ∷ (codes "statusengine_service_statehistory", codes "service_description")
    ∷ (codes "statusengine_host_acknowledgements", codes "hostname")
    ∷ (codes "statusengine_service_acknowledgements", codes "service_description")
    ∷ (codes "statusengine_host_notifications", codes "hostname")
    ∷ (codes "statusengine_service_notifications", codes "service_description")
    ∷ (codes "statusengine_host_notifications_log", codes "hostname")
    ∷ (codes "statusengine_service_notifications_log", codes "hostname")
    ∷ []

abbrev pub lookup_column : Bytes → List (Bytes × Bytes) → Option Bytes
lookup_column table [] = none
lookup_column table ((k, c) ∷ rest) = if bytes_eq k table then some c else lookup_column table rest
