-- ===== src/Queue/Tests.antt =====
-- Handlers at work, over sinks that take two items and refuse the next.
use statusengine_worker.Prelude.{
  ℕ, ◌+◌, String, true, false, not, Option, none, some, List, [], ◌∷◌, ◌++◌, Bytes, codes, ◌≡◌,
  refl, ℤ, pos, ltb_ℤ, ◌-ℤ◌, arith, filter, count, length, ltb, All, ◌⊎◌, if◌then◌else◌,
}
use statusengine_worker.Hub.{new_hub, has_clients}
use statusengine_worker.Metrics.{stale_discarded}
use statusengine_worker.Queue.{publish_filtered, is_permanent, publish_batch, enqueue_failed}
use statusengine_worker.Queue.Handlers.{
  World, Enqueue, cutoff_of, enqueue_all, enqueue_fresh, enqueue_stored, unix_seconds, new_handler,
  new_stale_dropping_handler,
}
use statusengine_worker.Queue.Routed.{
  routed, has_service, is_stored_method, fill_end_times, new_contact_notification_method_handler,
}
use statusengine_worker.Queue.Enqueued.{Records, itself}
use statusengine_worker.Queue.Delivery.{
  new_handler-delivers, new_handler-fails, new_stale_dropping_handler-delivers,
}
use statusengine_worker.Queue.Routing.{new_contact_notification_method_handler-delivers}
use statusengine_worker.Events.History.{
  StateChangeEvent, NotificationLogEvent, NotificationMethodEvent,
}

-- The sink.
abbrev pub two_items : {P : Type 0} → Enqueue P (List P)
two_items p s = if ltb (length s) 2 then (true, s ++ p ∷ []) else (false, s)

pub two_items-Records : {P : Type 0} → Records two_items (λ (s : List P). s) itself
two_items-Records = record { accepted = λ p s ok. ground arith; refused = λ p s full. ground arith }

abbrev pub marshal : {P : Type 0} → List P → Option Bytes
marshal ps = some (codes "[]")

abbrev pub numbers : Bytes → Option (List ℕ)
numbers [] = none
numbers (x ∷ xs) = some (x ∷ xs)

abbrev pub quiet : World (List ℕ)
quiet = record { hub = new_hub; inserters = []; ticks = [] }

-- A payload of two, of three and of none.
abbrev two : World (List ℕ)
two = record { hub = new_hub; inserters = 3 ∷ 4 ∷ []; ticks = [] }

new_handler-delivers_example :
    (items : List ℕ) × (numbers (3 ∷ 4 ∷ []) ≡ some items)
    × (two.inserters ≡ [] ++ items)
    × (two.hub ≡ publish_batch marshal new_hub "t" items)
unfolding new_handler enqueue_all publish_batch new_hub has_clients
new_handler-delivers_example =
    new_handler-delivers marshal "t" numbers two_items (λ s. s) two_items-Records (3 ∷ 4 ∷ []) quiet
      two refl

new_handler-fails_example :
    ((numbers (3 ∷ 4 ∷ 5 ∷ []) ≡ none) × (two ≡ quiet) × (is_permanent enqueue_failed ≡ true))
    ⊎ ((before : List ℕ) × (x : ℕ) × (after : List ℕ) × (numbers (3 ∷ 4 ∷ 5 ∷ [])
          ≡ some (before ++ x ∷ after))
        × (two.hub ≡ publish_batch marshal new_hub "t" (before ++ x ∷ after))
        × ((s : List ℕ) × (s ≡ [] ++ before) × (two_items x s ≡ (false, two.inserters)))
        × (two.inserters ≡ [] ++ before)
        × (is_permanent enqueue_failed ≡ false))
unfolding new_handler enqueue_all publish_batch new_hub has_clients
new_handler-fails_example =
    new_handler-fails marshal "t" numbers two_items (λ s. s) two_items-Records (3 ∷ 4 ∷ 5 ∷ [])
      quiet two enqueue_failed refl

-- At 10 seconds after the epoch, with a limit of 5 seconds.
abbrev now_ns : ℤ
now_ns = pos 10000000000

abbrev limit_ns : ℤ
limit_ns = pos 5000000000

abbrev one_stale : World (List ℕ)
one_stale = record { hub = new_hub; inserters = 5 ∷ []; ticks = stale_discarded "t" ∷ [] }

new_stale_dropping_handler-delivers_example :
    (items : List ℕ) × (numbers (4 ∷ 5 ∷ []) ≡ some items)
    × (one_stale.inserters
        ≡ [] ++ filter (λ x. not (ltb_ℤ (pos x) (cutoff_of now_ns limit_ns))) items)
    × (one_stale.hub
        ≡ publish_batch marshal new_hub "t"
            (filter (λ x. not (ltb_ℤ (pos x) (cutoff_of now_ns limit_ns))) items))
    × (length one_stale.ticks ≡ 0 + count (λ x. ltb_ℤ (pos x) (cutoff_of now_ns limit_ns)) items)
unfolding new_stale_dropping_handler enqueue_fresh publish_filtered new_hub has_clients unix_seconds
    ◌-ℤ◌
new_stale_dropping_handler-delivers_example =
    new_stale_dropping_handler-delivers marshal "t" numbers two_items (λ s. s) two_items-Records
      (λ x. pos x) now_ns limit_ns (4 ∷ 5 ∷ []) quiet one_stale refl refl

-- One event for each table, and one that is not stored.
abbrev notified : ℤ → String → ℤ → NotificationLogEvent
notified kind service contacts = record {
  type = kind;
  timestamp_usec = pos 0;
  payload = record {
    host_name = "h";
    service_description = service;
    output = "";
    long_output = "";
    ack_author = "";
    ack_data = "";
    notification_type = pos 0;
    start_time = pos 7;
    end_time = pos 8;
    reason_type = pos 0;
    state = pos 0;
    escalated = pos 0;
    contacts_notified = contacts;
  };
}

abbrev three_notifications : Bytes → Option (List NotificationLogEvent)
three_notifications raw = some (
    notified (pos 601) "" (pos 1)
    ∷ notified (pos 601) "s" (pos 0)
    ∷ notified (pos 601) "s" (pos 2)
    ∷ [])

abbrev split : {P : Type 0} → List P → List P → World (List P × List P)
split hosts services = record { hub = new_hub; inserters = (hosts, services); ticks = [] }

abbrev notification_split : World (List NotificationLogEvent × List NotificationLogEvent)
notification_split =
    split (notified (pos 601) "" (pos 1) ∷ []) (notified (pos 601) "s" (pos 2) ∷ [])

abbrev method_event : ℤ → ℤ → NotificationMethodEvent
method_event kind end = record {
  type = kind;
  timestamp = pos 7;
  timestamp_usec = pos 0;
  payload = record {
    host_name = "h";
    service_description = "";
    output = "";
    ack_author = "";
    ack_data = "";
    contact_name = "c";
    command_name = "n";
    command_args = none;
    reason_type = pos 0;
    state = pos 0;
    start_time = pos 7;
    end_time = end;
  };
}

abbrev start_and_end : Bytes → Option (List NotificationMethodEvent)
start_and_end raw = some (method_event (pos 604) (pos 0) ∷ method_event (pos 605) (pos 9) ∷ [])

abbrev start_stored : World (List NotificationMethodEvent × List NotificationMethodEvent)
start_stored = split (method_event (pos 604) (pos 7) ∷ []) []

new_contact_notification_method_handler-delivers_example :
    (events : List NotificationMethodEvent) × (start_and_end [] ≡ some events)
    × (start_stored.inserters.0
        ≡ []
          ++ filter
              (λ ev. not (has_service ev.payload.service_description))
              (filter (is_stored_method true) (fill_end_times true events)))
    × (start_stored.inserters.1
        ≡ []
          ++ filter
              (λ ev. has_service ev.payload.service_description)
              (filter (is_stored_method true) (fill_end_times true events)))
    × (start_stored.hub
        ≡ publish_batch marshal new_hub "t"
            (filter (is_stored_method true) (fill_end_times true events)))
    × All
        (λ ev. (ev.payload.end_time ≡ ev.payload.start_time) ⊎ (true ≡ false))
        (filter (is_stored_method true) (fill_end_times true events))
unfolding new_contact_notification_method_handler fill_end_times enqueue_stored routed
    publish_filtered new_hub has_clients
new_contact_notification_method_handler-delivers_example =
    new_contact_notification_method_handler-delivers "t" marshal start_and_end two_items two_items
      (λ s. s) (λ s. s) two_items-Records two_items-Records true [] (split [] []) start_stored refl

abbrev changed : ℤ → StateChangeEvent
changed kind = record {
  timestamp = pos 7;
  timestamp_usec = pos 0;
  payload = record {
    host_name = "h";
    service_description = "";
    output = "";
    long_output = "";
    state_change_type = kind;
    state = pos 0;
    state_type = pos 1;
    current_attempt = pos 1;
    max_attempts = pos 3;
    last_state = pos 0;
    last_hard_state = pos 0;
  };
}

abbrev both_kinds : Bytes → Option (List StateChangeEvent)
both_kinds raw = some (changed (pos 1) ∷ changed (pos 0) ∷ [])

abbrev change_split : World (List StateChangeEvent × List StateChangeEvent)
change_split = split (changed (pos 0) ∷ []) (changed (pos 1) ∷ [])
