-- ===== src/Events/History.antt =====
-- internal/types/events.go and internal/queue/decode.go: state changes, log entries, notifications, acknowledgements and core restarts.
use statusengine_worker.Prelude.{ℤ, String, Option, List}
use statusengine_worker.Events.Envelope.{Envelope}

pub record StateChangePayload : Type 0 where
  pub host_name : String
  pub service_description : String
  pub output : String
  pub long_output : String
  pub state_change_type : ℤ
  pub state : ℤ
  pub state_type : ℤ
  pub current_attempt : ℤ
  pub max_attempts : ℤ
  pub last_state : ℤ
  pub last_hard_state : ℤ

pub record StateChangeMessage : Type 0 where
  pub envelope : Envelope
  pub state_change : StateChangePayload

pub record StateChangeBulk : Type 0 where
  pub messages : List StateChangeMessage
  pub format : String

pub record LogEntryPayload : Type 0 where
  pub entry_time : ℤ
  pub data_type : ℤ
  pub entry_data : String

pub record LogEntryMessage : Type 0 where
  pub envelope : Envelope
  pub log_entry : LogEntryPayload

pub record LogEntryBulk : Type 0 where
  pub messages : List LogEntryMessage
  pub format : String

pub record NotificationPayload : Type 0 where
  pub host_name : String
  pub service_description : String
  pub output : String
  pub long_output : String
  pub ack_author : String
  pub ack_data : String
  pub notification_type : ℤ
  pub start_time : ℤ
  pub end_time : ℤ
  pub reason_type : ℤ
  pub state : ℤ
  pub escalated : ℤ
  pub contacts_notified : ℤ

pub record NotificationMessage : Type 0 where
  pub envelope : Envelope
  pub notification_data : NotificationPayload

pub record NotificationBulk : Type 0 where
  pub messages : List NotificationMessage
  pub format : String

pub record ContactNotificationMethodPayload : Type 0 where
  pub host_name : String
  pub service_description : String
  pub output : String
  pub ack_author : String
  pub ack_data : String
  pub contact_name : String
  pub command_name : String
  pub command_args : Option String
  pub reason_type : ℤ
  pub state : ℤ
  pub start_time : ℤ
  pub end_time : ℤ

pub record ContactNotificationMethodMessage : Type 0 where
  pub envelope : Envelope
  pub contact_notification_method : ContactNotificationMethodPayload

pub record AcknowledgementPayload : Type 0 where
  pub host_name : String
  pub service_description : String
  pub author_name : String
  pub comment_data : String
  pub acknowledgement_type : ℤ
  pub state : ℤ
  pub is_sticky : ℤ
  pub persistent_comment : ℤ
  pub notify_contacts : ℤ

pub record AcknowledgementMessage : Type 0 where
  pub envelope : Envelope
  pub acknowledgement : AcknowledgementPayload

pub record CoreRestartMessage : Type 0 where
  pub object_type : ℤ
  pub timestamp : ℤ

-- A payload with what its message says of it.
pub record StateChangeEvent : Type 0 where
  pub timestamp : ℤ
  pub timestamp_usec : ℤ
  pub payload : StateChangePayload

pub record NotificationLogEvent : Type 0 where
  pub type : ℤ
  pub timestamp_usec : ℤ
  pub payload : NotificationPayload

pub record NotificationMethodEvent : Type 0 where
  pub type : ℤ
  pub timestamp : ℤ
  pub timestamp_usec : ℤ
  pub payload : ContactNotificationMethodPayload

pub record AcknowledgementEvent : Type 0 where
  pub entry_time : ℤ
  pub entry_time_usec : ℤ
  pub payload : AcknowledgementPayload
