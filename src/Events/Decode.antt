-- ===== src/Events/Decode.antt =====
-- internal/queue/decode.go: a payload is parsed, and each of its messages becomes an event. Parsing,
-- `json.Unmarshal` into the message type, is a parameter: `none` is an error.
use statusengine_worker.Prelude.{Option, none, some, List, [], ◌∷◌, Bytes, map}
use statusengine_worker.Events.Status.{
  HostStatusMessage, HostStatusBulk, HostStatusEvent, ServiceStatusMessage, ServiceStatusBulk,
  ServiceStatusEvent,
}
use statusengine_worker.Events.Checks.{
  HostCheckMessage, HostCheckBulk, HostCheckEvent, ServiceCheckMessage, ServiceCheckBulk,
  ServiceCheckEvent, PerfdataEvent,
}
use statusengine_worker.Events.History.{
  StateChangeMessage, StateChangeBulk, StateChangeEvent, LogEntryMessage, LogEntryBulk,
  LogEntryPayload, NotificationMessage, NotificationBulk, NotificationLogEvent,
  ContactNotificationMethodMessage, NotificationMethodEvent, AcknowledgementMessage,
  AcknowledgementEvent, CoreRestartMessage,
}

-- The error of the parser ends the decoding.
abbrev parsed {ℓ κ} : {A : Type ℓ} {B : Type κ} → Option A → (A → B) → Option B
parsed none f = none
parsed (some a) f = some (f a)

abbrev host_status_event_of : {F : Type 0} → HostStatusMessage F → HostStatusEvent F
host_status_event_of m = record { timestamp = m.envelope.timestamp; payload = m.host_status }

unfoldable pub decode_host_status :
    {F : Type 0} → (Bytes → Option (HostStatusBulk F)) → Bytes → Option (List (HostStatusEvent F))
decode_host_status unmarshal payload =
    parsed (unmarshal payload) (λ bulk. map host_status_event_of bulk.messages)

abbrev service_status_event_of : {F : Type 0} → ServiceStatusMessage F → ServiceStatusEvent F
service_status_event_of m = record { timestamp = m.envelope.timestamp; payload = m.service_status }

unfoldable pub decode_service_status :
    {F : Type 0}
    → (Bytes → Option (ServiceStatusBulk F))
    → Bytes
    → Option (List (ServiceStatusEvent F))
decode_service_status unmarshal payload =
    parsed (unmarshal payload) (λ bulk. map service_status_event_of bulk.messages)

abbrev host_check_event_of : {F : Type 0} → HostCheckMessage F → HostCheckEvent F
host_check_event_of m = record {
  timestamp_usec = m.envelope.timestamp_usec;
  payload = m.host_check;
}

unfoldable pub decode_host_check :
    {F : Type 0} → (Bytes → Option (HostCheckBulk F)) → Bytes → Option (List (HostCheckEvent F))
decode_host_check unmarshal payload =
    parsed (unmarshal payload) (λ bulk. map host_check_event_of bulk.messages)

abbrev service_check_event_of : {F : Type 0} → ServiceCheckMessage F → ServiceCheckEvent F
service_check_event_of m = record {
  timestamp_usec = m.envelope.timestamp_usec;
  payload = m.service_check;
}

unfoldable pub decode_service_check :
    {F : Type 0}
    → (Bytes → Option (ServiceCheckBulk F))
    → Bytes
    → Option (List (ServiceCheckEvent F))
decode_service_check unmarshal payload =
    parsed (unmarshal payload) (λ bulk. map service_check_event_of bulk.messages)

abbrev perfdata_event_of : {F : Type 0} → ServiceCheckMessage F → PerfdataEvent F
perfdata_event_of m = record { timestamp = m.envelope.timestamp; payload = m.service_check }

unfoldable pub decode_perfdata :
    {F : Type 0} → (Bytes → Option (ServiceCheckBulk F)) → Bytes → Option (List (PerfdataEvent F))
decode_perfdata unmarshal payload =
    parsed (unmarshal payload) (λ bulk. map perfdata_event_of bulk.messages)

abbrev state_change_event_of : StateChangeMessage → StateChangeEvent
state_change_event_of m = record {
  timestamp = m.envelope.timestamp;
  timestamp_usec = m.envelope.timestamp_usec;
  payload = m.state_change;
}

unfoldable pub decode_state_change :
    (Bytes → Option StateChangeBulk) → Bytes → Option (List StateChangeEvent)
decode_state_change unmarshal payload =
    parsed (unmarshal payload) (λ bulk. map state_change_event_of bulk.messages)

abbrev log_entry_of : LogEntryMessage → LogEntryPayload
log_entry_of m = m.log_entry

unfoldable pub decode_log_entry :
    (Bytes → Option LogEntryBulk) → Bytes → Option (List LogEntryPayload)
decode_log_entry unmarshal payload =
    parsed (unmarshal payload) (λ bulk. map log_entry_of bulk.messages)

abbrev notification_log_event_of : NotificationMessage → NotificationLogEvent
notification_log_event_of m = record {
  type = m.envelope.type;
  timestamp_usec = m.envelope.timestamp_usec;
  payload = m.notification_data;
}

unfoldable pub decode_notification_log :
    (Bytes → Option NotificationBulk) → Bytes → Option (List NotificationLogEvent)
decode_notification_log unmarshal payload =
    parsed (unmarshal payload) (λ bulk. map notification_log_event_of bulk.messages)

abbrev notification_method_event_of : ContactNotificationMethodMessage → NotificationMethodEvent
notification_method_event_of m = record {
  type = m.envelope.type;
  timestamp = m.envelope.timestamp;
  timestamp_usec = m.envelope.timestamp_usec;
  payload = m.contact_notification_method;
}

unfoldable pub decode_contact_notification_method :
    (Bytes → Option ContactNotificationMethodMessage)
    → Bytes
    → Option (List NotificationMethodEvent)
decode_contact_notification_method unmarshal payload =
    parsed (unmarshal payload) (λ m. notification_method_event_of m ∷ [])

abbrev acknowledgement_event_of : AcknowledgementMessage → AcknowledgementEvent
acknowledgement_event_of m = record {
  entry_time = m.envelope.timestamp;
  entry_time_usec = m.envelope.timestamp_usec;
  payload = m.acknowledgement;
}

unfoldable pub decode_acknowledgement :
    (Bytes → Option AcknowledgementMessage) → Bytes → Option (List AcknowledgementEvent)
decode_acknowledgement unmarshal payload =
    parsed (unmarshal payload) (λ m. acknowledgement_event_of m ∷ [])

unfoldable pub decode_core_restart :
    (Bytes → Option CoreRestartMessage) → Bytes → Option (List CoreRestartMessage)
decode_core_restart unmarshal payload = parsed (unmarshal payload) (λ m. m ∷ [])
