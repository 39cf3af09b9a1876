-- ===== src/Events/Checks.antt =====
-- internal/types/events.go and internal/queue/decode.go: the results of host and service checks.
use statusengine_worker.Prelude.{ℤ, String, List}
use statusengine_worker.Events.Envelope.{Envelope}

pub record HostCheckPayload (F : Type 0) : Type 0 where
  pub host_name : String
  pub command_line : String
  pub command_name : String
  pub output : String
  pub long_output : String
  pub perf_data : String
  pub check_type : ℤ
  pub current_attempt : ℤ
  pub max_attempts : ℤ
  pub state_type : ℤ
  pub state : ℤ
  pub timeout : ℤ
  pub start_time : ℤ
  pub end_time : ℤ
  pub early_timeout : ℤ
  pub execution_time : F
  pub latency : F
  pub return_code : ℤ

pub record HostCheckMessage (F : Type 0) : Type 0 where
  pub envelope : Envelope
  pub host_check : HostCheckPayload F

pub record HostCheckBulk (F : Type 0) : Type 0 where
  pub messages : List (HostCheckMessage F)
  pub format : String

pub record ServiceCheckPayload (F : Type 0) : Type 0 where
  pub host_name : String
  pub service_description : String
  pub command_line : String
  pub command_name : String
  pub output : String
  pub long_output : String
  pub perf_data : String
  pub check_type : ℤ
  pub current_attempt : ℤ
  pub max_attempts : ℤ
  pub state_type : ℤ
  pub state : ℤ
  pub timeout : ℤ
  pub start_time : ℤ
  pub end_time : ℤ
  pub early_timeout : ℤ
  pub execution_time : F
  pub latency : F
  pub return_code : ℤ

pub record ServiceCheckMessage (F : Type 0) : Type 0 where
  pub envelope : Envelope
  pub service_check : ServiceCheckPayload F

pub record ServiceCheckBulk (F : Type 0) : Type 0 where
  pub messages : List (ServiceCheckMessage F)
  pub format : String

-- A payload with what its message says of it.
pub record HostCheckEvent (F : Type 0) : Type 0 where
  pub timestamp_usec : ℤ
  pub payload : HostCheckPayload F

pub record ServiceCheckEvent (F : Type 0) : Type 0 where
  pub timestamp_usec : ℤ
  pub payload : ServiceCheckPayload F

pub record PerfdataEvent (F : Type 0) : Type 0 where
  pub timestamp : ℤ
  pub payload : ServiceCheckPayload F
