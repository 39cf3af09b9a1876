-- ===== src/Queue/Routed.antt =====
-- internal/queue/registry.go: the handlers whose events go to a host table or to a service table. The
-- state of the inserters is the pair of both.
use statusengine_worker.Prelude.{
  String, Bool, not, ◌&&◌, Option, none, some, List, Bytes, ℤ, pos, ltb_ℤ, eqb_ℤ, str_eq, map,
  if◌then◌else◌,
}
use statusengine_worker.Queue.{decode_failed, publish_batch, publish_filtered}
use statusengine_worker.Queue.Handlers.{Enqueue, Handler, enqueue_all, enqueue_stored}
use statusengine_worker.Events.History.{
  StateChangeEvent, AcknowledgementEvent, NotificationMethodEvent, NotificationLogEvent,
}

-- `ins := hostIns; if … { ins = serviceIns }`.
unfoldable pub routed :
    {P H T : Type 0} → (P → Bool) → Enqueue P H → Enqueue P T → Enqueue P (H × T)
routed to_service host service ev (h, t) =
    if to_service ev
    then (let (accepted, t') = service ev t in (accepted, (h, t')))
    else (let (accepted, h') = host ev h in (accepted, (h', t)))

abbrev pub is_service_change : StateChangeEvent → Bool
is_service_change ev = eqb_ℤ ev.payload.state_change_type (pos 1)

abbrev pub is_service_acknowledgement : AcknowledgementEvent → Bool
is_service_acknowledgement ev = eqb_ℤ ev.payload.acknowledgement_type (pos 1)

abbrev pub notification_type_contact_notification_method_end : ℤ
notification_type_contact_notification_method_end = pos 605

abbrev pub notification_type_contact_notification_method_start : ℤ
notification_type_contact_notification_method_start = pos 604

abbrev pub notification_type_end : ℤ
notification_type_end = pos 601

abbrev pub has_service : String → Bool
has_service description = not (str_eq description "")

abbrev pub stored_type : Bool → ℤ
stored_type store_notification_start =
    if store_notification_start
    then notification_type_contact_notification_method_start
    else notification_type_contact_notification_method_end

-- A START event gets its start time for its end time.
unfoldable pub fill_end_time : NotificationMethodEvent → NotificationMethodEvent
fill_end_time ev =
    if eqb_ℤ ev.type notification_type_contact_notification_method_start
    then record ev { payload = record (ev.payload) { end_time = ev.payload.start_time } }
    else ev

unfoldable pub fill_end_times : Bool → List NotificationMethodEvent → List NotificationMethodEvent
unfolding fill_end_time
fill_end_times store_notification_start events =
    if store_notification_start then map fill_end_time events else events

abbrev pub is_stored_method : Bool → NotificationMethodEvent → Bool
is_stored_method store_notification_start ev = eqb_ℤ ev.type (stored_type store_notification_start)

abbrev pub is_stored_notification : NotificationLogEvent → Bool
is_stored_notification ev =
    eqb_ℤ ev.type notification_type_end && ltb_ℤ (pos 0) ev.payload.contacts_notified

module _ {H T : Type 0} (topic : String) where
  unfoldable pub new_state_change_handler :
      (List StateChangeEvent → Option Bytes)
      → (Bytes → Option (List StateChangeEvent))
      → Enqueue StateChangeEvent H
      → Enqueue StateChangeEvent T
      → Handler (H × T)
  new_state_change_handler marshal decode host service payload w = elim (decode payload) [
    | none ↦ (some decode_failed, w)
    | some events ↦
        enqueue_all (routed is_service_change host service) events
          (record w { hub = publish_batch marshal w.hub topic events })
  ]

  unfoldable pub new_acknowledgement_handler :
      (List AcknowledgementEvent → Option Bytes)
      → (Bytes → Option (List AcknowledgementEvent))
      → Enqueue AcknowledgementEvent H
      → Enqueue AcknowledgementEvent T
      → Handler (H × T)
  new_acknowledgement_handler marshal decode host service payload w = elim (decode payload) [
    | none ↦ (some decode_failed, w)
    | some events ↦
        enqueue_all (routed is_service_acknowledgement host service) events
          (record w { hub = publish_batch marshal w.hub topic events })
  ]

  unfoldable pub new_contact_notification_method_handler :
      (List NotificationMethodEvent → Option Bytes)
      → (Bytes → Option (List NotificationMethodEvent))
      → Enqueue NotificationMethodEvent H
      → Enqueue NotificationMethodEvent T
      → Bool
      → Handler (H × T)
  unfolding fill_end_times
  new_contact_notification_method_handler marshal decode host service start payload w =
      elim (decode payload) [
        | none ↦ (some decode_failed, w)
        | some decoded ↦
            let events = fill_end_times start decoded in
            enqueue_stored (routed (λ ev. has_service ev.payload.service_description) host service)
              (is_stored_method start) events
              (record w {
                hub = publish_filtered marshal w.hub topic events (is_stored_method start);
              })
      ]

  unfoldable pub new_notification_handler :
      (List NotificationLogEvent → Option Bytes)
      → (Bytes → Option (List NotificationLogEvent))
      → Enqueue NotificationLogEvent H
      → Enqueue NotificationLogEvent T
      → Handler (H × T)
  new_notification_handler marshal decode host service payload w = elim (decode payload) [
    | none ↦ (some decode_failed, w)
    | some events ↦
        enqueue_stored (routed (λ ev. has_service ev.payload.service_description) host service)
          is_stored_notification events
          (record w { hub = publish_filtered marshal w.hub topic events is_stored_notification })
  ]
