-- ===== src/Events/Status.antt =====
-- internal/types/events.go and internal/queue/decode.go: the status snapshots of hosts and services.
-- `F` is the type of Go's float64 values.
use statusengine_worker.Prelude.{ℤ, String, Option, List}
use statusengine_worker.Events.Envelope.{Envelope}

pub record HostStatusPayload (F : Type 0) : Type 0 where
  pub name : String
  pub plugin_output : String
  pub long_plugin_output : String
  pub event_handler : Option String
  pub perf_data : String
  pub check_command : String
  pub check_period : String
  pub current_state : ℤ
  pub has_been_checked : ℤ
  pub should_be_scheduled : ℤ
  pub current_attempt : ℤ
  pub max_attempts : ℤ
  pub last_check : ℤ
  pub next_check : ℤ
  pub check_type : ℤ
  pub last_state_change : ℤ
  pub last_hard_state_change : ℤ
  pub last_hard_state : ℤ
  pub last_time_up : ℤ
  pub last_time_down : ℤ
  pub last_time_unreachable : ℤ
  pub state_type : ℤ
  pub last_notification : ℤ
  pub next_notification : ℤ
  pub no_more_notifications : ℤ
  pub notifications_enabled : ℤ
  pub problem_has_been_acknowledged : ℤ
  pub acknowledgement_type : ℤ
  pub current_notification_number : ℤ
  pub accept_passive_checks : ℤ
  pub event_handler_enabled : ℤ
  pub checks_enabled : ℤ
  pub flap_detection_enabled : ℤ
  pub is_flapping : ℤ
  pub percent_state_change : F
  pub latency : F
  pub execution_time : F
  pub scheduled_downtime_depth : ℤ
  pub process_performance_data : ℤ
  pub obsess : ℤ
  pub modified_attributes : ℤ
  pub check_interval : F
  pub retry_interval : F

pub record HostStatusMessage (F : Type 0) : Type 0 where
  pub envelope : Envelope
  pub host_status : HostStatusPayload F

pub record HostStatusBulk (F : Type 0) : Type 0 where
  pub messages : List (HostStatusMessage F)
  pub format : String

pub record ServiceStatusPayload (F : Type 0) : Type 0 where
  pub host_name : String
  pub description : String
  pub plugin_output : String
  pub long_plugin_output : String
  pub event_handler : Option String
  pub perf_data : String
  pub check_command : String
  pub check_period : String
  pub current_state : ℤ
  pub has_been_checked : ℤ
  pub should_be_scheduled : ℤ
  pub current_attempt : ℤ
  pub max_attempts : ℤ
  pub last_check : ℤ
  pub next_check : ℤ
  pub check_type : ℤ
  pub last_state_change : ℤ
  pub last_hard_state_change : ℤ
  pub last_hard_state : ℤ
  pub last_time_ok : ℤ
  pub last_time_warning : ℤ
  pub last_time_critical : ℤ
  pub last_time_unknown : ℤ
  pub state_type : ℤ
  pub last_notification : ℤ
  pub next_notification : ℤ
  pub no_more_notifications : ℤ
  pub notifications_enabled : ℤ
  pub problem_has_been_acknowledged : ℤ
  pub acknowledgement_type : ℤ
  pub current_notification_number : ℤ
  pub accept_passive_checks : ℤ
  pub event_handler_enabled : ℤ
  pub checks_enabled : ℤ
  pub flap_detection_enabled : ℤ
  pub is_flapping : ℤ
  pub percent_state_change : F
  pub latency : F
  pub execution_time : F
  pub scheduled_downtime_depth : ℤ
  pub process_performance_data : ℤ
  pub obsess : ℤ
  pub modified_attributes : ℤ
  pub check_interval : F
  pub retry_interval : F

pub record ServiceStatusMessage (F : Type 0) : Type 0 where
  pub envelope : Envelope
  pub service_status : ServiceStatusPayload F

pub record ServiceStatusBulk (F : Type 0) : Type 0 where
  pub messages : List (ServiceStatusMessage F)
  pub format : String

-- A payload with what its message says of it.
pub record HostStatusEvent (F : Type 0) : Type 0 where
  pub timestamp : ℤ
  pub payload : HostStatusPayload F

pub record ServiceStatusEvent (F : Type 0) : Type 0 where
  pub timestamp : ℤ
  pub payload : ServiceStatusPayload F
