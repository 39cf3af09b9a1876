-- ===== src/Queue/Routing.antt =====
-- Which events reach the host table and which the service table.
use statusengine_worker.Prelude.{
  String, Bool, true, false, not, Option, none, some, List, [], ◌∷◌, ◌++◌, Bytes, ◌≡◌, refl, sym,
  ap, ◌∙◌, arith, filter, map, All, ◌⊎◌, inl, inr, Option-cases, append-nil, if◌then◌else◌,
}
use statusengine_worker.Queue.{publish_batch, publish_filtered}
use statusengine_worker.Queue.Handlers.{World, Enqueue, enqueue_stored}
use statusengine_worker.Queue.Routed.{
  routed, has_service, is_stored_method, is_stored_notification, fill_end_time, fill_end_times,
  new_contact_notification_method_handler, new_notification_handler, is_service_change,
  new_state_change_handler,
}
use statusengine_worker.Queue.Enqueued.{
  Records, given, itself, enqueue_stored-log, enqueue_all-stored,
}
use statusengine_worker.Queue.Delivery.{publish_filtered-batch, filter-true}
use statusengine_worker.Events.History.{
  StateChangeEvent, NotificationMethodEvent, NotificationLogEvent,
}

module _ {P H T : Type 0} (to_service : P → Bool) (host : Enqueue P H) (service : Enqueue P T)
    (hosts : H → List P) (services : T → List P) (rh : Records host hosts itself)
    (rt : Records service services itself) where
  abbrev host_gives : P → List P
  host_gives ev = if to_service ev then [] else ev ∷ []

  abbrev service_gives : P → List P
  service_gives ev = if to_service ev then ev ∷ [] else []

  routed-hosts : Records (routed to_service host service) (λ s. hosts s.0) host_gives
  unfolding routed
  routed-hosts = record {
    accepted = λ p s ok. ground (arith, rh.accepted p s.0, append-nil (hosts s.0));
    refused = λ p s no_room. ground (arith, rh.refused p s.0);
  }

  routed-services : Records (routed to_service host service) (λ s. services s.1) service_gives
  unfolding routed
  routed-services = record {
    accepted = λ p s ok. ground (arith, rt.accepted p s.1, append-nil (services s.1));
    refused = λ p s no_room. ground (arith, rt.refused p s.1);
  }

  given-host : (xs : List P) → given host_gives xs ≡ filter (λ ev. not (to_service ev)) xs
  given-host [] = refl
  given-host (x ∷ xs) = ground (arith, given-host xs)

  given-service : (xs : List P) → given service_gives xs ≡ filter to_service xs
  given-service [] = refl
  given-service (x ∷ xs) = ground (arith, given-service xs)

  routed-log :
      (stored : P → Bool) (items : List P) (w w' : World (H × T))
      → enqueue_stored (routed to_service host service) stored items w ≡ (none, w')
      → (hosts w'.inserters.0
          ≡ hosts w.inserters.0 ++ filter (λ ev. not (to_service ev)) (filter stored items))
        × (services w'.inserters.1
            ≡ services w.inserters.1 ++ filter to_service (filter stored items))
        × (w'.hub ≡ w.hub)
  routed-log stored items w w' e =
      let h =
        enqueue_stored-log (routed to_service host service) (λ s. hosts s.0) host_gives routed-hosts
          stored items w w' e in
      let t =
        enqueue_stored-log (routed to_service host service) (λ s. services s.1) service_gives
          routed-services stored items w w' e in
      (
        h.0 ∙ ap (λ ys. hosts w.inserters.0 ++ ys) (given-host (filter stored items)),
        t.0 ∙ ap (λ ys. services w.inserters.1 ++ ys) (given-service (filter stored items)),
        h.1,
      )

module _ {H T : Type 0} (topic : String) (marshal : List NotificationLogEvent → Option Bytes)
    (decode : Bytes → Option (List NotificationLogEvent)) (host : Enqueue NotificationLogEvent H)
    (service : Enqueue NotificationLogEvent T) (hosts : H → List NotificationLogEvent)
    (services : T → List NotificationLogEvent) (rh : Records host hosts itself)
    (rt : Records service services itself) where
  -- Of a notification batch exactly the ends of notifications that reached a contact are published
  -- and enqueued: those with a service description for the service table, the others for the host
  -- table, each in order.
  pub new_notification_handler-delivers :
      (payload : Bytes) (w w' : World (H × T))
      → new_notification_handler topic marshal decode host service payload w ≡ (none, w')
      → (events : List NotificationLogEvent) × (decode payload ≡ some events)
        × (hosts w'.inserters.0
            ≡ hosts w.inserters.0
              ++ filter
                  (λ ev. not (has_service ev.payload.service_description))
                  (filter is_stored_notification events))
        × (services w'.inserters.1
            ≡ services w.inserters.1
              ++ filter
                  (λ ev. has_service ev.payload.service_description)
                  (filter is_stored_notification events))
        × (w'.hub ≡ publish_batch marshal w.hub topic (filter is_stored_notification events))
  unfolding new_notification_handler
  new_notification_handler-delivers payload w w' e = elim (Option-cases (decode payload)) [
    | inl bad ↦ ground arith
    | inr (events, good) ↦
        let w₀ : World (H × T) = record w {
          hub = publish_filtered marshal w.hub topic events is_stored_notification;
        } in
        let loop =
          routed-log (λ ev. has_service ev.payload.service_description) host service hosts services
            rh rt is_stored_notification events w₀ w' (rw (good, new_notification_handler) at e) in
        (
          events,
          good,
          loop.0,
          loop.1,
          loop.2 ∙ publish_filtered-batch marshal w.hub topic events is_stored_notification,
        )
  ]

abbrev EndsAtStart : Bool → NotificationMethodEvent → Type 0
EndsAtStart start ev = (ev.payload.end_time ≡ ev.payload.start_time) ⊎ (start ≡ false)

filled_starts :
    (events : List NotificationMethodEvent)
    → All (EndsAtStart true) (filter (is_stored_method true) (map fill_end_time events))
unfolding fill_end_time
filled_starts [] = tt
filled_starts (ev ∷ events) = ground (arith, filled_starts events)

unstarted : (events : List NotificationMethodEvent) → All (EndsAtStart false) events
unstarted [] = tt
unstarted (ev ∷ events) = (inr refl, unstarted events)

filled :
    (start : Bool) (events : List NotificationMethodEvent)
    → All (EndsAtStart start) (filter (is_stored_method start) (fill_end_times start events))
unfolding fill_end_times
filled true events = filled_starts events
filled false events = unstarted _

module _ {H T : Type 0} (topic : String) (marshal : List NotificationMethodEvent → Option Bytes)
    (decode : Bytes → Option (List NotificationMethodEvent))
    (host : Enqueue NotificationMethodEvent H) (service : Enqueue NotificationMethodEvent T)
    (hosts : H → List NotificationMethodEvent) (services : T → List NotificationMethodEvent)
    (rh : Records host hosts itself) (rt : Records service services itself) where
  -- Of the contact notification events exactly those of the stored type, END or by configuration
  -- START, are published and enqueued, each for its table; a stored START has its start time for its
  -- end time.
  pub new_contact_notification_method_handler-delivers :
      (start : Bool) (payload : Bytes) (w w' : World (H × T))
      → new_contact_notification_method_handler topic marshal decode host service start payload w
        ≡ (none, w')
      → (events : List NotificationMethodEvent) × (decode payload ≡ some events)
        × (hosts w'.inserters.0
            ≡ hosts w.inserters.0
              ++ filter
                  (λ ev. not (has_service ev.payload.service_description))
                  (filter (is_stored_method start) (fill_end_times start events)))
        × (services w'.inserters.1
            ≡ services w.inserters.1
              ++ filter
                  (λ ev. has_service ev.payload.service_description)
                  (filter (is_stored_method start) (fill_end_times start events)))
        × (w'.hub
            ≡ publish_batch marshal w.hub topic
                (filter (is_stored_method start) (fill_end_times start events)))
        × All
            (λ ev. (ev.payload.end_time ≡ ev.payload.start_time) ⊎ (start ≡ false))
            (filter (is_stored_method start) (fill_end_times start events))
  unfolding new_contact_notification_method_handler
  new_contact_notification_method_handler-delivers start payload w w' e =
      elim (Option-cases (decode payload)) [
        | inl bad ↦ ground arith
        | inr (decoded, good) ↦
            let events = fill_end_times start decoded in
            let w₀ : World (H × T) = record w {
              hub = publish_filtered marshal w.hub topic events (is_stored_method start);
            } in
            let loop =
              routed-log (λ ev. has_service ev.payload.service_description) host service hosts
                services rh rt (is_stored_method start) events w₀ w'
                (rw (good, new_contact_notification_method_handler) at e) in
            (
              decoded,
              good,
              loop.0,
              loop.1,
              loop.2 ∙ publish_filtered-batch marshal w.hub topic events (is_stored_method start),
              filled start decoded,
            )
      ]

module _ {H T : Type 0} (topic : String) (marshal : List StateChangeEvent → Option Bytes)
    (decode : Bytes → Option (List StateChangeEvent)) (host : Enqueue StateChangeEvent H)
    (service : Enqueue StateChangeEvent T) (hosts : H → List StateChangeEvent)
    (services : T → List StateChangeEvent) (rh : Records host hosts itself)
    (rt : Records service services itself) where
  -- Every state change of a batch is enqueued, in order: those of type 1 for the service table, all
  -- others for the host table.
  pub new_state_change_handler-delivers :
      (payload : Bytes) (w w' : World (H × T))
      → new_state_change_handler topic marshal decode host service payload w ≡ (none, w')
      → (events : List StateChangeEvent) × (decode payload ≡ some events)
        × (hosts w'.inserters.0
            ≡ hosts w.inserters.0 ++ filter (λ ev. not (is_service_change ev)) events)
        × (services w'.inserters.1 ≡ services w.inserters.1 ++ filter is_service_change events)
        × (w'.hub ≡ publish_batch marshal w.hub topic events)
  unfolding new_state_change_handler
  new_state_change_handler-delivers payload w w' e = elim (Option-cases (decode payload)) [
    | inl bad ↦ ground arith
    | inr (events, good) ↦
        let w₀ : World (H × T) = record w { hub = publish_batch marshal w.hub topic events } in
        let rest : enqueue_stored (routed is_service_change host service) (λ x. true) events w₀
            ≡ (none, w') =
          sym (
            enqueue_all-stored (routed is_service_change host service) (λ s. hosts s.0)
              (host_gives is_service_change host service hosts services rh rt)
              (routed-hosts is_service_change host service hosts services rh rt) events w₀)
          ∙ (rw (good, new_state_change_handler) at e) in
        let loop =
          routed-log is_service_change host service hosts services rh rt (λ x. true) events w₀ w'
            rest in
        let whole = filter-true events in
        (
          events,
          good,
          loop.0
              ∙ ap (λ ys. hosts w.inserters.0 ++ filter (λ ev. not (is_service_change ev)) ys)
                  whole,
          loop.1 ∙ ap (λ ys. services w.inserters.1 ++ filter is_service_change ys) whole,
          loop.2,
        )
  ]
