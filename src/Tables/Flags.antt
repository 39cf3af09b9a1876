-- ===== src/Tables/Flags.antt =====
-- What the two flags of a status row say of the event.
use statusengine_worker.Prelude.{
  ℤ, pos, String, Option, none, some, List, [], ◌∷◌, Bytes, codes, ◌≡◌, ◌↔◌, bytes_eq, arith,
  if◌then◌else◌, eqb_ℤ_iff,
}
use statusengine_worker.Events.Status.{HostStatusEvent, ServiceStatusEvent}
use statusengine_worker.Tables.{Value, int, is_hard_state, is_passive_check}
use statusengine_worker.Tables.Columns.{host_status_columns, service_status_columns}
use statusengine_worker.Tables.StatusRows.{new_host_status_row, new_service_status_row}

-- The value that stands under a column's name.
abbrev pub value_of : {V : Type 0} → Bytes → List Bytes → List V → Option V
value_of name [] vs = none
value_of name (c ∷ cs) [] = none
value_of name (c ∷ cs) (v ∷ vs) = if bytes_eq c name then some v else value_of name cs vs

is_passive_check_iff :
    {F : Type 0} (n : ℤ)
    → (◌≡◌ {A = Option (Value F)} (some (int (is_passive_check n))) (some (int (pos 1))))
      ↔ (n ≡ pos 0)
unfolding is_passive_check
is_passive_check_iff n = ground (arith, eqb_ℤ_iff n (pos 0))

is_hard_state_iff :
    {F : Type 0} (n : ℤ)
    → (◌≡◌ {A = Option (Value F)} (some (int (is_hard_state n))) (some (int (pos 1)))) ↔ (n ≡ pos 1)
unfolding is_hard_state
is_hard_state_iff n = ground (arith, eqb_ℤ_iff n (pos 1))

module _ {F : Type 0} (truncate : F → ℤ) (node_name : String) where
  -- In the rows of both status tables `is_passive_check` is 1 exactly when the event's `check_type` is
  -- 0, the type of an active check, and `is_hardstate` is 1 exactly when `state_type` is 1.
  pub status_row_flags :
      (host : HostStatusEvent F) (service : ServiceStatusEvent F)
      → ((value_of
              (codes "is_passive_check")
              host_status_columns
              (new_host_status_row truncate node_name host [])
            ≡ some (int (pos 1)))
          ↔ (host.payload.check_type ≡ pos 0))
        × ((value_of
                (codes "is_hardstate")
                host_status_columns
                (new_host_status_row truncate node_name host [])
              ≡ some (int (pos 1)))
            ↔ (host.payload.state_type ≡ pos 1))
        × ((value_of
                (codes "is_passive_check")
                service_status_columns
                (new_service_status_row truncate node_name service [])
              ≡ some (int (pos 1)))
            ↔ (service.payload.check_type ≡ pos 0))
        × ((value_of
                (codes "is_hardstate")
                service_status_columns
                (new_service_status_row truncate node_name service [])
              ≡ some (int (pos 1)))
            ↔ (service.payload.state_type ≡ pos 1))
  unfolding new_host_status_row new_service_status_row host_status_columns service_status_columns
  status_row_flags host service = (
    is_passive_check_iff host.payload.check_type,
    is_hard_state_iff host.payload.state_type,
    is_passive_check_iff service.payload.check_type,
    is_hard_state_iff service.payload.state_type,
  )
