-- ===== src/Tables/Names.antt =====
-- Facts about each table: its names hold no placeholder, it has at most 46 columns, and its row
-- function fills a row.
use statusengine_worker.Prelude.{
  ◌≤◌, ◌≡◌, ◌||◌, refl, ℤ, String, Bool, true, false, List, [], ◌∷◌, Bytes, codes, arith, length,
  length-append, All, bytes_eq, ltb,
}
use statusengine_worker.Bulk.Placeholders.{IsName, FillsRow}
use statusengine_worker.Tables.Columns.{
  Table, host_status, service_status, host_checks, service_checks, log_entries, host_state_history,
  service_state_history, host_acks, service_acks, perfdata, host_notifications,
  service_notifications, host_notifications_log, service_notifications_log, table_name, columns_of,
  host_status_update_columns, service_status_update_columns,
}
use statusengine_worker.Tables.StatusRows.{
  new_host_status_row, new_service_status_row, host_check_row, service_check_row,
}
use statusengine_worker.Tables.HistoryRows.{
  new_log_entry_row, host_state_history_row, service_state_history_row, host_acknowledgement_row,
  service_acknowledgement_row, host_notification_row, service_notification_row,
  host_notification_log_row, service_notification_log_row, perfdata_row,
}
use statusengine_worker.Tables.Inserters.{row_of}

-- The columns that a repeated row overwrites.
abbrev pub updates_of : Table → List Bytes
updates_of host_status = host_status_update_columns
updates_of service_status = service_status_update_columns
updates_of host_checks = codes "hostname" ∷ []
updates_of service_checks = codes "service_description" ∷ []
updates_of log_entries = []
updates_of host_state_history = codes "hostname" ∷ []
updates_of service_state_history = codes "service_description" ∷ []
updates_of host_acks = codes "hostname" ∷ []
updates_of service_acks = codes "service_description" ∷ []
updates_of perfdata = []
updates_of host_notifications = codes "hostname" ∷ []
updates_of service_notifications = codes "service_description" ∷ []
updates_of host_notifications_log = codes "hostname" ∷ []
updates_of service_notifications_log = codes "hostname" ∷ []

pub table_name-IsName : (t : Table) → IsName (table_name t)
unfolding table_name
table_name-IsName host_status = refl
table_name-IsName service_status = refl
table_name-IsName host_checks = refl
table_name-IsName service_checks = refl
table_name-IsName log_entries = refl
table_name-IsName host_state_history = refl
table_name-IsName service_state_history = refl
table_name-IsName host_acks = refl
table_name-IsName service_acks = refl
table_name-IsName perfdata = refl
table_name-IsName host_notifications = refl
table_name-IsName service_notifications = refl
table_name-IsName host_notifications_log = refl
table_name-IsName service_notifications_log = refl

pub columns_of-IsName : (t : Table) → All IsName (columns_of t)
unfolding columns_of
columns_of-IsName host_status = omega arith
columns_of-IsName service_status = omega arith
columns_of-IsName host_checks = omega arith
columns_of-IsName service_checks = omega arith
columns_of-IsName log_entries = omega arith
columns_of-IsName host_state_history = omega arith
columns_of-IsName service_state_history = omega arith
columns_of-IsName host_acks = omega arith
columns_of-IsName service_acks = omega arith
columns_of-IsName perfdata = omega arith
columns_of-IsName host_notifications = omega arith
columns_of-IsName service_notifications = omega arith
columns_of-IsName host_notifications_log = omega arith
columns_of-IsName service_notifications_log = omega arith

pub updates_of-IsName : (t : Table) → All IsName (updates_of t)
unfolding host_status_update_columns service_status_update_columns
updates_of-IsName host_status = omega arith
updates_of-IsName service_status = omega arith
updates_of-IsName host_checks = omega arith
updates_of-IsName service_checks = omega arith
updates_of-IsName log_entries = omega arith
updates_of-IsName host_state_history = omega arith
updates_of-IsName service_state_history = omega arith
updates_of-IsName host_acks = omega arith
updates_of-IsName service_acks = omega arith
updates_of-IsName perfdata = omega arith
updates_of-IsName host_notifications = omega arith
updates_of-IsName service_notifications = omega arith
updates_of-IsName host_notifications_log = omega arith
updates_of-IsName service_notifications_log = omega arith

pub columns_of-le : (t : Table) → length (columns_of t) ≤ 46
unfolding columns_of
columns_of-le host_status = omega arith
columns_of-le service_status = omega arith
columns_of-le host_checks = omega arith
columns_of-le service_checks = omega arith
columns_of-le log_entries = omega arith
columns_of-le host_state_history = omega arith
columns_of-le service_state_history = omega arith
columns_of-le host_acks = omega arith
columns_of-le service_acks = omega arith
columns_of-le perfdata = omega arith
columns_of-le host_notifications = omega arith
columns_of-le service_notifications = omega arith
columns_of-le host_notifications_log = omega arith
columns_of-le service_notifications_log = omega arith

module _ {F : Type 0} (truncate : F → ℤ) (node_name : String) where
  pub row_of-FillsRow : (t : Table) → FillsRow (row_of truncate node_name t) (length (columns_of t))
  unfolding row_of columns_of new_host_status_row new_service_status_row host_check_row
      service_check_row new_log_entry_row host_state_history_row service_state_history_row
      host_acknowledgement_row service_acknowledgement_row perfdata_row host_notification_row
      service_notification_row host_notification_log_row service_notification_log_row
  row_of-FillsRow host_status ev dst = length-append dst _
  row_of-FillsRow service_status ev dst = length-append dst _
  row_of-FillsRow host_checks ev dst = length-append dst _
  row_of-FillsRow service_checks ev dst = length-append dst _
  row_of-FillsRow log_entries ev dst = length-append dst _
  row_of-FillsRow host_state_history ev dst = length-append dst _
  row_of-FillsRow service_state_history ev dst = length-append dst _
  row_of-FillsRow host_acks ev dst = length-append dst _
  row_of-FillsRow service_acks ev dst = length-append dst _
  row_of-FillsRow perfdata ev dst = length-append dst _
  row_of-FillsRow host_notifications ev dst = length-append dst _
  row_of-FillsRow service_notifications ev dst = length-append dst _
  row_of-FillsRow host_notifications_log ev dst = length-append dst _
  row_of-FillsRow service_notifications_log ev dst = length-append dst _

-- Every table but the log entries and the perfdata.
abbrev pub has_key : Table → Bool
has_key log_entries = false
has_key perfdata = false
has_key _ = true

abbrev pub has_column : Bytes → List Bytes → Bool
has_column c [] = false
has_column c (x ∷ xs) = bytes_eq x c || has_column c xs

pub updates_of-columns : (t : Table) → All (λ c. has_column c (columns_of t) ≡ true) (updates_of t)
unfolding host_status_update_columns service_status_update_columns columns_of
updates_of-columns host_status = ground arith
updates_of-columns service_status = ground arith
updates_of-columns log_entries = tt
updates_of-columns perfdata = tt
updates_of-columns _ = (refl, tt)

pub updates_of-has_key : (t : Table) → ltb 0 (length (updates_of t)) ≡ has_key t
unfolding host_status_update_columns service_status_update_columns
updates_of-has_key log_entries = refl
updates_of-has_key _ = refl
