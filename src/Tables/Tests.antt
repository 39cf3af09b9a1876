-- ===== src/Tables/Tests.antt =====
-- The inserter of the log entries, of the host checks and of a size that is out of range.
use statusengine_worker.Prelude.{ℕ, ◌≤◌, ◌≡◌, pos, none, some, [], ◌∷◌, arith, length, ◌↔◌, codes}
use statusengine_worker.Bulk.{BulkInserter, max_placeholders_per_statement}
use statusengine_worker.Bulk.Statement.{build_insert}
use statusengine_worker.Bulk.Placeholders.{marks}
use statusengine_worker.Events.Status.{HostStatusEvent, ServiceStatusEvent}
use statusengine_worker.Events.History.{AcknowledgementEvent}
use statusengine_worker.Tables.{Value, int}
use statusengine_worker.Tables.StatusRows.{new_host_status_row, new_service_status_row}
use statusengine_worker.Tables.Flags.{value_of, status_row_flags}
use statusengine_worker.Tables.Columns.{host_acks, host_status_columns, service_status_columns}
use statusengine_worker.Tables.Inserters.{inserter_of}
use statusengine_worker.Tables.Fits.{inserter_of-total, inserter_of-statement_fits}

abbrev ack_inserter : BulkInserter AcknowledgementEvent (Value ℕ)
ack_inserter = (inserter_of-total pos "node1" host_acks (pos 2)).0

ack_inserter_made : inserter_of pos "node1" host_acks (pos 2) ≡ some ack_inserter
ack_inserter_made = (inserter_of-total pos "node1" host_acks (pos 2)).1

abbrev ack : AcknowledgementEvent
ack = record {
  entry_time = pos 1000;
  entry_time_usec = pos 5;
  payload = record {
    host_name = "db1";
    service_description = "";
    author_name = "admin";
    comment_data = "known";
    acknowledgement_type = pos 0;
    state = pos 1;
    is_sticky = pos 1;
    persistent_comment = pos 0;
    notify_contacts = pos 1;
  };
}

inserter_of-statement_fits_example :
    (marks (build_insert ack_inserter (ack ∷ [])).0
      ≡ length (build_insert ack_inserter (ack ∷ [])).1)
    × (length (build_insert ack_inserter (ack ∷ [])).1 ≤ max_placeholders_per_statement)
inserter_of-statement_fits_example =
    inserter_of-statement_fits pos "node1" host_acks (pos 2) ack_inserter (ack ∷ [])
      ack_inserter_made (omega (arith, (inserter_of-total pos "node1" host_acks (pos 2)).2))

abbrev host : HostStatusEvent ℕ
host = record {
  timestamp = pos 1000;
  payload = record {
    name = "db1";
    plugin_output = "";
    long_plugin_output = "";
    event_handler = none;
    perf_data = "";
    check_command = "";
    check_period = "";
    current_state = pos 0;
    has_been_checked = pos 0;
    should_be_scheduled = pos 0;
    current_attempt = pos 0;
    max_attempts = pos 0;
    last_check = pos 0;
    next_check = pos 0;
    check_type = pos 0;
    last_state_change = pos 0;
    last_hard_state_change = pos 0;
    last_hard_state = pos 0;
    last_time_up = pos 0;
    last_time_down = pos 0;
    last_time_unreachable = pos 0;
    state_type = pos 1;
    last_notification = pos 0;
    next_notification = pos 0;
    no_more_notifications = pos 0;
    notifications_enabled = pos 0;
    problem_has_been_acknowledged = pos 0;
    acknowledgement_type = pos 0;
    current_notification_number = pos 0;
    accept_passive_checks = pos 0;
    event_handler_enabled = pos 0;
    checks_enabled = pos 0;
    flap_detection_enabled = pos 0;
    is_flapping = pos 0;
    percent_state_change = 0;
    latency = 0;
    execution_time = 0;
    scheduled_downtime_depth = pos 0;
    process_performance_data = pos 0;
    obsess = pos 0;
    modified_attributes = pos 0;
    check_interval = 0;
    retry_interval = 0;
  };
}

abbrev service : ServiceStatusEvent ℕ
service = record {
  timestamp = pos 1000;
  payload = record {
    host_name = "db1";
    description = "ping";
    plugin_output = "";
    long_plugin_output = "";
    event_handler = none;
    perf_data = "";
    check_command = "";
    check_period = "";
    current_state = pos 0;
    has_been_checked = pos 0;
    should_be_scheduled = pos 0;
    current_attempt = pos 0;
    max_attempts = pos 0;
    last_check = pos 0;
    next_check = pos 0;
    check_type = pos 1;
    last_state_change = pos 0;
    last_hard_state_change = pos 0;
    last_hard_state = pos 0;
    last_time_ok = pos 0;
    last_time_warning = pos 0;
    last_time_critical = pos 0;
    last_time_unknown = pos 0;
    state_type = pos 0;
    last_notification = pos 0;
    next_notification = pos 0;
    no_more_notifications = pos 0;
    notifications_enabled = pos 0;
    problem_has_been_acknowledged = pos 0;
    acknowledgement_type = pos 0;
    current_notification_number = pos 0;
    accept_passive_checks = pos 0;
    event_handler_enabled = pos 0;
    checks_enabled = pos 0;
    flap_detection_enabled = pos 0;
    is_flapping = pos 0;
    percent_state_change = 0;
    latency = 0;
    execution_time = 0;
    scheduled_downtime_depth = pos 0;
    process_performance_data = pos 0;
    obsess = pos 0;
    modified_attributes = pos 0;
    check_interval = 0;
    retry_interval = 0;
  };
}

status_row_flags_example :
    ((value_of
          (codes "is_passive_check")
          host_status_columns
          (new_host_status_row {F = ℕ} pos "node1" host [])
        ≡ some (int (pos 1)))
      ↔ (host.payload.check_type ≡ pos 0))
    × ((value_of
            (codes "is_hardstate")
            host_status_columns
            (new_host_status_row {F = ℕ} pos "node1" host [])
          ≡ some (int (pos 1)))
        ↔ (host.payload.state_type ≡ pos 1))
    × ((value_of
            (codes "is_passive_check")
            service_status_columns
            (new_service_status_row {F = ℕ} pos "node1" service [])
          ≡ some (int (pos 1)))
        ↔ (service.payload.check_type ≡ pos 0))
    × ((value_of
            (codes "is_hardstate")
            service_status_columns
            (new_service_status_row {F = ℕ} pos "node1" service [])
          ≡ some (int (pos 1)))
        ↔ (service.payload.state_type ≡ pos 1))
status_row_flags_example = status_row_flags pos "node1" host service
