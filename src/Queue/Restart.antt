-- ===== src/Queue/Restart.antt =====
-- internal/queue/registry.go: the handler of core restarts, on the inserters of the two status tables.
-- What MySQL answers a statement, the clock, and how the two pauses of an event go are the input
-- `RestartCall` of that event.
use statusengine_worker.Prelude.{
  ℕ, ◌+◌, String, Bool, true, false, Option, none, some, List, [], ◌∷◌, ◌++◌, Bytes, codes, ℤ, pos,
  ltb_ℤ, eqb_ℤ, if◌then◌else◌,
}
use statusengine_worker.Hub.{Hub}
use statusengine_worker.Queue.{HandlerError, decode_failed, cleanup_failed, publish}
use statusengine_worker.Events.History.{CoreRestartMessage}
use statusengine_worker.Bulk.Run as Run
use statusengine_worker.Bulk.Paused.{PauseCall, with_paused}

abbrev pub core_restart_object_type : ℤ
core_restart_object_type = pos 102

abbrev pub hoststatus_stale_delete_query : Bytes
hoststatus_stale_delete_query =
    codes "DELETE FROM statusengine_hoststatus WHERE status_update_time < ?"

abbrev pub servicestatus_stale_delete_query : Bytes
servicestatus_stale_delete_query =
    codes "DELETE FROM statusengine_servicestatus WHERE status_update_time < ?"

abbrev pub hoststatus_openitcockpit_delete_query : Bytes
hoststatus_openitcockpit_delete_query =
    codes "DELETE FROM statusengine_hoststatus WHERE NOT EXISTS "
    ++ codes
        "(SELECT hosts.uuid FROM hosts WHERE statusengine_hoststatus.hostname = hosts.uuid AND hosts.disabled=0)"

abbrev pub servicestatus_openitcockpit_delete_query : Bytes
servicestatus_openitcockpit_delete_query =
    codes "DELETE FROM statusengine_servicestatus WHERE NOT EXISTS "
    ++ codes
        "(SELECT services.uuid FROM services WHERE statusengine_servicestatus.service_description = services.uuid AND services.disabled=0)"

-- A statement, with its values.
abbrev pub Statement : Type 0
Statement = Bytes × List ℤ

abbrev pub host_query : Bool → Bytes
host_query tweaks =
    if tweaks then hoststatus_openitcockpit_delete_query else hoststatus_stale_delete_query

abbrev pub service_query : Bool → Bytes
service_query tweaks =
    if tweaks then servicestatus_openitcockpit_delete_query else servicestatus_stale_delete_query

pub record RestartCall (P Q : Type 0) : Type 0 where
  pub now : ℤ
  pub host_pause : PauseCall P
  pub host_accepted : Bool
  pub service_pause : PauseCall Q
  pub service_accepted : Bool

-- The statements that were sent to MySQL, oldest first.
pub record RestartWorld (P V Q U : Type 0) : Type 0 where
  pub hub : Hub
  pub hosts : Run.World P V
  pub services : Run.World Q U
  pub statements : List Statement

module _ {P Q : Type 0} where
  abbrev pub cutoff_for : CoreRestartMessage → RestartCall P Q → ℤ
  cutoff_for ev call = if ltb_ℤ (pos 0) ev.timestamp then ev.timestamp else call.now

  abbrev pub cleanup_args : Bool → CoreRestartMessage → RestartCall P Q → List ℤ
  cleanup_args tweaks ev call = if tweaks then [] else cutoff_for ev call ∷ []

module _ {P V Q U : Type 0} where
  abbrev pub send : Statement → RestartWorld P V Q U → RestartWorld P V Q U
  send s w = record w { statements = w.statements ++ s ∷ [] }

  unfoldable pub clean_services :
      Bool
      → CoreRestartMessage
      → RestartCall P Q
      → RestartWorld P V Q U
      → Bool × RestartWorld P V Q U
  clean_services tweaks ev call w =
      let p = with_paused call.service_pause w.services in
      let w' : RestartWorld P V Q U = record w { services = p.at_end } in
      if p.ran
      then (call.service_accepted, send (service_query tweaks, cleanup_args tweaks ev call) w')
      else (false, w')

  unfoldable pub clean_hosts :
      Bool
      → CoreRestartMessage
      → RestartCall P Q
      → RestartWorld P V Q U
      → Bool × RestartWorld P V Q U
  clean_hosts tweaks ev call w =
      let p = with_paused call.host_pause w.hosts in
      let w' : RestartWorld P V Q U = record w { hosts = p.at_end } in
      if p.ran
      then (call.host_accepted, send (host_query tweaks, cleanup_args tweaks ev call) w')
      else (false, w')

  -- The loop of the handler; `calls` has one entry for each restart that it reaches.
  unfoldable pub handle_restarts :
      (CoreRestartMessage → Hub → Hub)
      → Bool
      → (ℕ → RestartCall P Q)
      → ℕ
      → List CoreRestartMessage
      → RestartWorld P V Q U
      → Option HandlerError × RestartWorld P V Q U
  unfolding clean_hosts clean_services
  handle_restarts publish_event tweaks calls k [] w = (none, w)
  handle_restarts publish_event tweaks calls k (ev ∷ events) w =
      elim (eqb_ℤ ev.object_type core_restart_object_type) [
        | false ↦ handle_restarts publish_event tweaks calls k events w
        | true ↦
            let (hosts_clean, w₁) =
              clean_hosts tweaks ev (calls k) (record w { hub = publish_event ev w.hub }) in
            elim hosts_clean [
              | false ↦ (some cleanup_failed, w₁)
              | true ↦
                  let (services_clean, w₂) = clean_services tweaks ev (calls k) w₁ in
                  elim services_clean [
                    | false ↦ (some cleanup_failed, w₂)
                    | true ↦ handle_restarts publish_event tweaks calls (k + 1) events w₂
                  ]
            ]
      ]

  unfoldable pub new_core_restart_handler :
      (List CoreRestartMessage → Option Bytes)
      → String
      → (Bytes → Option (List CoreRestartMessage))
      → Bool
      → (ℕ → RestartCall P Q)
      → Bytes
      → RestartWorld P V Q U
      → Option HandlerError × RestartWorld P V Q U
  unfolding handle_restarts
  new_core_restart_handler marshal topic decode tweaks calls payload w = elim (decode payload) [
    | none ↦ (some decode_failed, w)
    | some events ↦ handle_restarts (λ ev hub. publish marshal hub topic ev) tweaks calls 0 events w
  ]
