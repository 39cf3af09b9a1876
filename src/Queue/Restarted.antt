-- ===== src/Queue/Restarted.antt =====
-- What the handler of core restarts has done when it returns.
use statusengine_worker.Prelude.{
  ℕ, ◌+◌, ◌≡◌, refl, ap, ◌∙◌, String, Bool, true, false, Option, some, List, [], ◌∷◌, ◌++◌, Bytes,
  eqb_ℤ, append_assoc, Bool-cases, if-either, is_some, ◌⊎◌, inl, inr, if◌then◌else◌,
}
use statusengine_worker.Hub.{Hub}
use statusengine_worker.Queue.{HandlerError, publish}
use statusengine_worker.Events.History.{CoreRestartMessage}
use statusengine_worker.Bulk.Paused.{with_paused}
use statusengine_worker.Queue.Restart.{
  Statement, host_query, service_query, RestartCall, RestartWorld, cleanup_args, clean_hosts,
  clean_services, handle_restarts, new_core_restart_handler, core_restart_object_type,
}

module _ {P Q : Type 0} (tweaks : Bool) where
  -- The specification: two statements for each restart, none for any other event.
  abbrev pub statements_for : (ℕ → RestartCall P Q) → ℕ → List CoreRestartMessage → List Statement
  statements_for calls k [] = []
  statements_for calls k (ev ∷ events) = elim (eqb_ℤ ev.object_type core_restart_object_type) [
    | false ↦ statements_for calls k events
    | true ↦
        (host_query tweaks, cleanup_args tweaks ev (calls k))
        ∷ (service_query tweaks, cleanup_args tweaks ev (calls k))
        ∷ statements_for calls (k + 1) events
  ]

module _ {P V Q U : Type 0} where
  -- A statement is sent, or the inserter was not paused and nothing is.
  abbrev Sends : Statement → RestartWorld P V Q U → Bool × RestartWorld P V Q U → Type 0
  Sends s w r =
      (r.1.statements ≡ w.statements ++ s ∷ []) ⊎ ((r.0 ≡ false) × (r.1.statements ≡ w.statements))

  clean_hosts-Sends :
      (tweaks : Bool) (ev : CoreRestartMessage) (call : RestartCall P Q) (w : RestartWorld P V Q U)
      → Sends (host_query tweaks, cleanup_args tweaks ev call) w (clean_hosts tweaks ev call w)
  unfolding clean_hosts
  clean_hosts-Sends tweaks ev call w =
      if-either (Sends (host_query tweaks, cleanup_args tweaks ev call) w)
        (with_paused call.host_pause w.hosts).ran (inl refl) (inr (refl, refl))

  clean_services-Sends :
      (tweaks : Bool) (ev : CoreRestartMessage) (call : RestartCall P Q) (w : RestartWorld P V Q U)
      → Sends
          (service_query tweaks, cleanup_args tweaks ev call)
          w
          (clean_services tweaks ev call w)
  unfolding clean_services
  clean_services-Sends tweaks ev call w =
      if-either (Sends (service_query tweaks, cleanup_args tweaks ev call) w)
        (with_paused call.service_pause w.services).ran (inl refl) (inr (refl, refl))

  Sends-prefix :
      (s : Statement) (rest : List Statement) (w : RestartWorld P V Q U)
      (r : Bool × RestartWorld P V Q U)
      → Sends s w r
      → (unsent : List Statement) × (r.1.statements ++ unsent ≡ w.statements ++ s ∷ rest)
  Sends-prefix s rest w r (inl sent) =
      (rest, ap (λ xs. xs ++ rest) sent ∙ append_assoc w.statements (s ∷ []) rest)
  Sends-prefix s rest w r (inr (_, unsent)) = (s ∷ rest, ap (λ xs. xs ++ s ∷ rest) unsent)

  Sends-accepted :
      (s : Statement) (rest : List Statement) (w : RestartWorld P V Q U)
      (r : Bool × RestartWorld P V Q U)
      → r.0 ≡ true
      → Sends s w r
      → r.1.statements ++ rest ≡ w.statements ++ s ∷ rest
  Sends-accepted s rest w r accepted (inl sent) =
      ap (λ xs. xs ++ rest) sent ∙ append_assoc w.statements (s ∷ []) rest
  Sends-accepted s rest w r accepted (inr (failed, _)) = cc

  -- What is sent is the beginning of `all`, and the whole if there is no error.
  abbrev SendsOf :
      List Statement → RestartWorld P V Q U → Option HandlerError × RestartWorld P V Q U → Type 0
  SendsOf all w r =
      (unsent : List Statement) × (r.1.statements ++ unsent ≡ w.statements ++ all)
      × ((if is_some r.0 then [] else unsent) ≡ [])

  handle_restarts-SendsOf :
      (publish_event : CoreRestartMessage → Hub → Hub) (tweaks : Bool) (calls : ℕ → RestartCall P Q)
      (k : ℕ) (events : List CoreRestartMessage) (w : RestartWorld P V Q U)
      → SendsOf
          (statements_for tweaks calls k events)
          w
          (handle_restarts publish_event tweaks calls k events w)
  unfolding handle_restarts
  handle_restarts-SendsOf publish_event tweaks calls k [] w = ([], refl, refl)
  handle_restarts-SendsOf publish_event tweaks calls k (ev ∷ events) w =
      let w₀ : RestartWorld P V Q U = record w { hub = publish_event ev w.hub } in
      let h = clean_hosts tweaks ev (calls k) w₀ in
      let s = clean_services tweaks ev (calls k) h.1 in
      let host : Statement = (host_query tweaks, cleanup_args tweaks ev (calls k)) in
      let service : Statement = (service_query tweaks, cleanup_args tweaks ev (calls k)) in
      let rest = statements_for tweaks calls (k + 1) events in
      let host_sends : Sends host w₀ h = clean_hosts-Sends tweaks ev (calls k) w₀ in
      let service_sends : Sends service h.1 s = clean_services-Sends tweaks ev (calls k) h.1 in
      elim (Bool-cases (eqb_ℤ ev.object_type core_restart_object_type)) [
        | inr other ↦
            rw (other, handle_restarts, statements_for)
              (handle_restarts-SendsOf publish_event tweaks calls k events w)
        | inl restart ↦ elim (Bool-cases h.0) [
          | inr fails ↦
              let (unsent, sum) = Sends-prefix host (service ∷ rest) w₀ h host_sends in
              rw (restart, handle_restarts, statements_for, fails) (unsent, sum, refl)
          | inl cleaned ↦
              let before = Sends-accepted host (service ∷ rest) w₀ h cleaned host_sends in
              elim (Bool-cases s.0) [
                | inr fails ↦
                    let (unsent, sum) = Sends-prefix service rest h.1 s service_sends in
                    rw (restart, handle_restarts, statements_for, cleaned, fails)
                      (unsent, sum ∙ before, refl)
                | inl both ↦
                    let (unsent, sum, all) =
                      handle_restarts-SendsOf publish_event tweaks calls (k + 1) events s.1 in
                    rw (restart, handle_restarts, statements_for, cleaned, both)
                      (
                        unsent,
                        sum ∙ (Sends-accepted service rest h.1 s both service_sends ∙ before),
                        all,
                      )
              ]
        ]
      ]

  -- A payload that is decoded: for each restart among its events, in order, the handler sends the
  -- statement for the host status and then the one for the service status, with the cutoff of this
  -- event, and for other events none. It may stop before the end, but only with an error.
  pub new_core_restart_handler-sends :
      (marshal : List CoreRestartMessage → Option Bytes) (topic : String)
      (decode : Bytes → Option (List CoreRestartMessage)) (tweaks : Bool)
      (calls : ℕ → RestartCall P Q) (payload : Bytes) (events : List CoreRestartMessage)
      (w : RestartWorld P V Q U)
      → decode payload ≡ some events
      → let (err, w') = new_core_restart_handler marshal topic decode tweaks calls payload w in
        (unsent : List Statement) × (w'.statements ++ unsent
          ≡ w.statements ++ statements_for tweaks calls 0 events)
        × ((if is_some err then [] else unsent) ≡ [])
  unfolding new_core_restart_handler
  new_core_restart_handler-sends marshal topic decode tweaks calls payload events w e =
      rw (e, new_core_restart_handler)
        (handle_restarts-SendsOf (λ ev hub. publish marshal hub topic ev) tweaks calls 0 events w)
