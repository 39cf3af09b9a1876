-- ===== src/Downtime.antt =====
-- internal/queue/downtime_processor.go and the downtime types of internal/types/events.go: which
-- SQL operations one downtime message requires. Go's `int` and `int64` fields are integers.
pub mod Queries
pub mod Exec
pub mod Tables
pub mod Effects
pub mod Binding
pub mod Lifecycle
pub mod Memory
mod Tests
use statusengine_worker.Prelude.{
  ℕ, String, Bool, true, false, not, Option, none, some, List, [], ◌∷◌, ◌++◌, ℤ, pos, eqb_ℤ, ltb_ℤ,
  if◌then◌else◌,
}

abbrev pub event_type_downtime_add : ℤ
event_type_downtime_add = pos 1100

abbrev pub event_type_downtime_delete : ℤ
event_type_downtime_delete = pos 1101

abbrev pub event_type_downtime_load : ℤ
event_type_downtime_load = pos 1102

abbrev pub event_type_downtime_start : ℤ
event_type_downtime_start = pos 1103

abbrev pub event_type_downtime_stop : ℤ
event_type_downtime_stop = pos 1104

abbrev pub downtime_attr_stop_cancelled : ℤ
downtime_attr_stop_cancelled = pos 2

abbrev pub downtime_type_host : ℤ
downtime_type_host = pos 2

pub record DowntimePayload : Type 0 where
  pub host_name : String
  pub service_description : String
  pub author_name : String
  pub comment_data : String
  pub downtime_type : ℤ
  pub entry_time : ℤ
  pub start_time : ℤ
  pub end_time : ℤ
  pub triggered_by : ℤ
  pub downtime_id : ℤ
  pub fixed : ℤ
  pub duration : ℤ

-- The envelope's fields stand beside the payload.
pub record DowntimeMessage : Type 0 where
  pub type : ℤ
  pub flags : ℤ
  pub attr : ℤ
  pub timestamp : ℤ
  pub timestamp_usec : ℤ
  pub downtime : DowntimePayload

pub data DowntimeTargetTable : Type 0 where
  scheduled_downtimes_table downtime_history_table : DowntimeTargetTable

pub data DowntimeActionType : Type 0 where
  upsert update_started update_stopped delete : DowntimeActionType

pub record DowntimeRowData : Type 0 where
  pub is_host_downtime : Bool
  pub host_name : String
  pub service_description : String
  pub node_name : String
  pub internal_downtime_id : ℤ
  pub entry_time : ℤ
  pub entry_time_usec : ℤ
  pub author_name : String
  pub comment_data : String
  pub triggered_by_id : ℤ
  pub is_fixed : Bool
  pub duration : ℤ
  pub scheduled_start_time : ℤ
  pub scheduled_end_time : ℤ
  pub was_started : Bool
  pub actual_start_time : ℤ
  pub actual_end_time : ℤ
  pub was_cancelled : Bool

pub record DowntimeAction : Type 0 where
  pub table : DowntimeTargetTable
  pub action : DowntimeActionType
  pub row : DowntimeRowData

unfoldable pub was_downtime_never_started : ℤ → ℤ → Bool
was_downtime_never_started scheduled_start_time event_timestamp =
    ltb_ℤ event_timestamp scheduled_start_time

-- The row that every action starts from.
unfoldable pub base_row : DowntimeMessage → String → DowntimeRowData
base_row msg node_name = record {
  is_host_downtime = eqb_ℤ p.downtime_type downtime_type_host;
  host_name = p.host_name;
  service_description = p.service_description;
  node_name = node_name;
  internal_downtime_id = p.downtime_id;
  entry_time = p.entry_time;
  entry_time_usec = msg.timestamp_usec;
  author_name = p.author_name;
  comment_data = p.comment_data;
  triggered_by_id = p.triggered_by;
  is_fixed = not (eqb_ℤ p.fixed (pos 0));
  duration = p.duration;
  scheduled_start_time = p.start_time;
  scheduled_end_time = p.end_time;
  was_started = false;
  actual_start_time = pos 0;
  actual_end_time = pos 0;
  was_cancelled = false;
}
  where
    open msg use {downtime as p}

abbrev act : DowntimeTargetTable → DowntimeActionType → DowntimeRowData → DowntimeAction
act table action row = record { table = table; action = action; row = row }

-- The cases of the `switch` on the message type.
on_add : DowntimeRowData → List DowntimeAction
on_add row = act downtime_history_table upsert row ∷ act scheduled_downtimes_table upsert row ∷ []

on_start : DowntimeMessage → DowntimeRowData → List DowntimeAction
on_start msg base =
    let row : DowntimeRowData = record base {
      was_started = true;
      actual_start_time = msg.timestamp;
    } in
    act downtime_history_table update_started row ∷ act scheduled_downtimes_table upsert row ∷ []

on_stop : DowntimeMessage → DowntimeRowData → List DowntimeAction
on_stop msg base =
    let row : DowntimeRowData = record base {
      actual_end_time = msg.timestamp;
      was_cancelled = eqb_ℤ msg.attr downtime_attr_stop_cancelled;
    } in
    act downtime_history_table update_stopped row ∷ act scheduled_downtimes_table delete row ∷ []

on_delete : DowntimeMessage → DowntimeRowData → List DowntimeAction
on_delete msg row =
    act scheduled_downtimes_table delete row
    ∷ (if was_downtime_never_started msg.downtime.start_time msg.timestamp
        then act downtime_history_table delete row ∷ []
        else [])

unfoldable pub determine_downtime_actions : DowntimeMessage → String → List DowntimeAction
unfolding base_row on_add on_start on_stop on_delete was_downtime_never_started
determine_downtime_actions msg node_name =
    if eqb_ℤ msg.type event_type_downtime_add
    then on_add (base_row msg node_name)
    else if eqb_ℤ msg.type event_type_downtime_load
    then []
    else if eqb_ℤ msg.type event_type_downtime_start
    then on_start msg (base_row msg node_name)
    else if eqb_ℤ msg.type event_type_downtime_stop
    then on_stop msg (base_row msg node_name)
    else if eqb_ℤ msg.type event_type_downtime_delete
    then on_delete msg (base_row msg node_name)
    else []
