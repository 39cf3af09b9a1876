-- ===== src/Tables/StatusRows.antt =====
-- internal/queue/registry.go: the rows of the status and check tables. `truncate` is the conversion of
-- a float64 to an int.
use statusengine_worker.Prelude.{ℤ, String, [], ◌∷◌, ◌++◌}
use statusengine_worker.Bulk.{RowFunc}
use statusengine_worker.Tables.{Value, text, int, float, optional, is_hard_state, is_passive_check}
use statusengine_worker.Events.Status.{HostStatusEvent, ServiceStatusEvent}
use statusengine_worker.Events.Checks.{HostCheckEvent, ServiceCheckEvent}

unfoldable pub new_host_status_row :
    {F : Type 0} → (F → ℤ) → String → RowFunc (HostStatusEvent F) (Value F)
new_host_status_row truncate node_name ev dst =
    dst
    ++ (text ev.payload.name
        ∷ int ev.timestamp
        ∷ text ev.payload.plugin_output
        ∷ text ev.payload.long_plugin_output
        ∷ text ev.payload.perf_data
        ∷ int ev.payload.current_state
        ∷ int ev.payload.current_attempt
        ∷ int ev.payload.max_attempts
        ∷ int ev.payload.last_check
        ∷ int ev.payload.next_check
        ∷ int (is_passive_check ev.payload.check_type)
        ∷ int ev.payload.last_state_change
        ∷ int ev.payload.last_hard_state_change
        ∷ int ev.payload.last_hard_state
        ∷ int (is_hard_state ev.payload.state_type)
        ∷ int ev.payload.last_notification
        ∷ int ev.payload.next_notification
        ∷ int ev.payload.notifications_enabled
        ∷ int ev.payload.problem_has_been_acknowledged
        ∷ int ev.payload.acknowledgement_type
        ∷ int ev.payload.accept_passive_checks
        ∷ int ev.payload.checks_enabled
        ∷ int ev.payload.event_handler_enabled
        ∷ int ev.payload.flap_detection_enabled
        ∷ int ev.payload.is_flapping
        ∷ float ev.payload.latency
        ∷ float ev.payload.execution_time
        ∷ int ev.payload.scheduled_downtime_depth
        ∷ int ev.payload.process_performance_data
        ∷ int ev.payload.obsess
        ∷ int (truncate ev.payload.check_interval)
        ∷ int (truncate ev.payload.retry_interval)
        ∷ text ev.payload.check_period
        ∷ text node_name
        ∷ int ev.payload.last_time_up
        ∷ int ev.payload.last_time_down
        ∷ int ev.payload.last_time_unreachable
        ∷ int ev.payload.current_notification_number
        ∷ float ev.payload.percent_state_change
        ∷ optional ev.payload.event_handler
        ∷ text ev.payload.check_command
        ∷ [])

unfoldable pub new_service_status_row :
    {F : Type 0} → (F → ℤ) → String → RowFunc (ServiceStatusEvent F) (Value F)
new_service_status_row truncate node_name ev dst =
    dst
    ++ (text ev.payload.host_name
        ∷ text ev.payload.description
        ∷ int ev.timestamp
        ∷ text ev.payload.plugin_output
        ∷ text ev.payload.long_plugin_output
        ∷ text ev.payload.perf_data
        ∷ int ev.payload.current_state
        ∷ int ev.payload.current_attempt
        ∷ int ev.payload.max_attempts
        ∷ int ev.payload.last_check
        ∷ int ev.payload.next_check
        ∷ int (is_passive_check ev.payload.check_type)
        ∷ int ev.payload.last_state_change
        ∷ int ev.payload.last_hard_state_change
        ∷ int ev.payload.last_hard_state
        ∷ int (is_hard_state ev.payload.state_type)
        ∷ int ev.payload.last_notification
        ∷ int ev.payload.next_notification
        ∷ int ev.payload.notifications_enabled
        ∷ int ev.payload.problem_has_been_acknowledged
        ∷ int ev.payload.acknowledgement_type
        ∷ int ev.payload.accept_passive_checks
        ∷ int ev.payload.checks_enabled
        ∷ int ev.payload.event_handler_enabled
        ∷ int ev.payload.flap_detection_enabled
        ∷ int ev.payload.is_flapping
        ∷ float ev.payload.latency
        ∷ float ev.payload.execution_time
        ∷ int ev.payload.scheduled_downtime_depth
        ∷ int ev.payload.process_performance_data
        ∷ int ev.payload.obsess
        ∷ int (truncate ev.payload.check_interval)
        ∷ int (truncate ev.payload.retry_interval)
        ∷ text ev.payload.check_period
        ∷ text node_name
        ∷ int ev.payload.last_time_ok
        ∷ int ev.payload.last_time_warning
        ∷ int ev.payload.last_time_critical
        ∷ int ev.payload.last_time_unknown
        ∷ int ev.payload.current_notification_number
        ∷ float ev.payload.percent_state_change
        ∷ optional ev.payload.event_handler
        ∷ text ev.payload.check_command
        ∷ [])

unfoldable pub host_check_row : {F : Type 0} → RowFunc (HostCheckEvent F) (Value F)
host_check_row ev dst =
    dst
    ++ (text ev.payload.host_name
        ∷ int ev.payload.start_time
        ∷ int ev.timestamp_usec
        ∷ int ev.payload.state
        ∷ int (is_hard_state ev.payload.state_type)
        ∷ int ev.payload.end_time
        ∷ text ev.payload.output
        ∷ text ev.payload.long_output
        ∷ int ev.payload.timeout
        ∷ int ev.payload.early_timeout
        ∷ float ev.payload.latency
        ∷ float ev.payload.execution_time
        ∷ text ev.payload.perf_data
        ∷ text ev.payload.command_line
        ∷ int ev.payload.current_attempt
        ∷ int ev.payload.max_attempts
        ∷ [])

unfoldable pub service_check_row : {F : Type 0} → RowFunc (ServiceCheckEvent F) (Value F)
service_check_row ev dst =
    dst
    ++ (text ev.payload.service_description
        ∷ int ev.payload.start_time
        ∷ int ev.timestamp_usec
        ∷ text ev.payload.host_name
        ∷ int ev.payload.state
        ∷ int (is_hard_state ev.payload.state_type)
        ∷ int ev.payload.end_time
        ∷ text ev.payload.output
        ∷ text ev.payload.long_output
        ∷ int ev.payload.timeout
        ∷ int ev.payload.early_timeout
        ∷ float ev.payload.latency
        ∷ float ev.payload.execution_time
        ∷ text ev.payload.perf_data
        ∷ text ev.payload.command_line
        ∷ int ev.payload.current_attempt
        ∷ int ev.payload.max_attempts
        ∷ [])
