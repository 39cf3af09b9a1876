-- ===== src/Downtime/Queries.antt =====
-- internal/db/downtime.go: the text and the arguments of each downtime statement.
use statusengine_worker.Prelude.{
  String, Bool, true, false, List, [], ◌∷◌, ◌++◌, ℤ, Bytes, codes, join, map, length, if◌then◌else◌,
}
use statusengine_worker.Bulk.{repeat_text, trim_comma}

-- A value bound to a placeholder.
pub data Arg : Type 0 where
  text : String → Arg
  int : ℤ → Arg
  bool : Bool → Arg

pub record DowntimeRow : Type 0 where
  pub is_host_downtime : Bool
  pub host_name : String
  pub service_description : String
  pub node_name : String
  pub internal_downtime_id : ℤ
  pub entry_time : ℤ
  pub entry_time_usec : ℤ
  pub author_name : String
  pub comment_data : String
  pub triggered_by_id : ℤ
  pub is_fixed : Bool
  pub duration : ℤ
  pub scheduled_start_time : ℤ
  pub scheduled_end_time : ℤ
  pub was_started : Bool
  pub actual_start_time : ℤ
  pub actual_end_time : ℤ
  pub was_cancelled : Bool

abbrev pub Query : Type 0
Query = Bytes × List Arg

unfoldable pub downtime_table : String → Bool → Bytes
downtime_table base true = codes "statusengine_host_" ++ codes base
downtime_table base false = codes "statusengine_service_" ++ codes base

abbrev pub names : List String → List Bytes
names = map codes

unfoldable pub downtime_identity_columns : Bool → List Bytes
downtime_identity_columns true = codes "hostname" ∷ []
downtime_identity_columns false = codes "hostname" ∷ codes "service_description" ∷ []

identity_args : Bool → DowntimeRow → List Arg
identity_args true row = text row.host_name ∷ []
identity_args false row = text row.host_name ∷ text row.service_description ∷ []

unfoldable pub downtime_identity_args : DowntimeRow → List Arg
unfolding identity_args
downtime_identity_args row = identity_args row.is_host_downtime row

unfoldable pub key_columns : Bool → List Bytes
unfolding downtime_identity_columns
key_columns is_host =
    downtime_identity_columns is_host
    ++ (codes "node_name" ∷ codes "scheduled_start_time" ∷ codes "internal_downtime_id" ∷ [])

unfoldable pub key_args : DowntimeRow → List Arg
unfolding downtime_identity_args
key_args row =
    downtime_identity_args row
    ++ (text row.node_name ∷ int row.scheduled_start_time ∷ int row.internal_downtime_id ∷ [])

abbrev placed : Bytes → Bytes
placed c = c ++ codes "=?"

unfoldable pub downtime_primary_key_where : DowntimeRow → Query
unfolding key_columns key_args
downtime_primary_key_where row =
    (join (codes " AND ") (map placed (key_columns row.is_host_downtime)), key_args row)

-- The loop over `updateCols`; the flag is `i > 0`.
unfoldable pub update_list : Bool → List Bytes → Bytes
update_list later [] = []
update_list later (c ∷ cs) =
    (if later then codes ", " else [])
    ++ (c ++ (codes "=VALUES(" ++ (c ++ (codes ")" ++ update_list true cs))))

unfoldable pub build_downtime_upsert : Bytes → List Bytes → List Bytes → Bytes
unfolding update_list repeat_text trim_comma
build_downtime_upsert table cols update_cols =
    codes "INSERT INTO "
    ++ (table
        ++ (codes " ("
            ++ (join (codes ", ") cols
                ++ (codes ") VALUES ("
                    ++ (trim_comma (repeat_text (length cols) (codes "?,"))
                        ++ (codes ") ON DUPLICATE KEY UPDATE "
                            ++ update_list false update_cols))))))

abbrev scheduled_update_cols : List Bytes
scheduled_update_cols = names (
    "entry_time" ∷ "author_name" ∷ "comment_data" ∷ "triggered_by_id" ∷ "is_fixed" ∷ "duration"
    ∷ "scheduled_end_time" ∷ "was_started" ∷ "actual_start_time" ∷ [])

unfoldable pub upsert_scheduled_downtime_query : DowntimeRow → Query
unfolding downtime_table downtime_identity_columns downtime_identity_args build_downtime_upsert
upsert_scheduled_downtime_query row = (
  build_downtime_upsert (downtime_table "scheduleddowntimes" row.is_host_downtime)
      (downtime_identity_columns row.is_host_downtime
        ++ (names ("internal_downtime_id" ∷ "scheduled_start_time" ∷ "node_name" ∷ [])
            ++ scheduled_update_cols))
      scheduled_update_cols,
  downtime_identity_args row
      ++ (int row.internal_downtime_id
          ∷ int row.scheduled_start_time
          ∷ text row.node_name
          ∷ int row.entry_time
          ∷ text row.author_name
          ∷ text row.comment_data
          ∷ int row.triggered_by_id
          ∷ bool row.is_fixed
          ∷ int row.duration
          ∷ int row.scheduled_end_time
          ∷ bool row.was_started
          ∷ int row.actual_start_time
          ∷ []),
)

unfoldable pub delete_scheduled_downtime_query : DowntimeRow → Query
unfolding downtime_table downtime_primary_key_where
delete_scheduled_downtime_query row =
    let (where_text, args) = downtime_primary_key_where row in
    (
      codes "DELETE FROM "
          ++ (downtime_table "scheduleddowntimes" row.is_host_downtime
              ++ (codes " WHERE " ++ where_text)),
      args,
    )

abbrev history_update_cols : List Bytes
history_update_cols = names (
    "entry_time" ∷ "entry_time_usec" ∷ "author_name" ∷ "comment_data" ∷ "triggered_by_id"
    ∷ "is_fixed" ∷ "duration" ∷ "scheduled_end_time" ∷ "was_started" ∷ "actual_start_time"
    ∷ "actual_end_time" ∷ "was_cancelled" ∷ [])

unfoldable pub upsert_downtime_history_query : DowntimeRow → Query
unfolding downtime_table downtime_identity_columns downtime_identity_args build_downtime_upsert
upsert_downtime_history_query row = (
  build_downtime_upsert (downtime_table "downtimehistory" row.is_host_downtime)
      (downtime_identity_columns row.is_host_downtime
        ++ (names ("internal_downtime_id" ∷ "scheduled_start_time" ∷ "node_name" ∷ [])
            ++ history_update_cols))
      history_update_cols,
  downtime_identity_args row
      ++ (int row.internal_downtime_id
          ∷ int row.scheduled_start_time
          ∷ text row.node_name
          ∷ int row.entry_time
          ∷ int row.entry_time_usec
          ∷ text row.author_name
          ∷ text row.comment_data
          ∷ int row.triggered_by_id
          ∷ bool row.is_fixed
          ∷ int row.duration
          ∷ int row.scheduled_end_time
          ∷ bool row.was_started
          ∷ int row.actual_start_time
          ∷ int row.actual_end_time
          ∷ bool row.was_cancelled
          ∷ []),
)

abbrev update_text : String → Bool → Bytes → Bytes
update_text sets is_host where_text =
    codes "UPDATE "
    ++ (downtime_table "downtimehistory" is_host ++ (codes sets ++ (codes " WHERE " ++ where_text)))

unfoldable pub update_downtime_history_started_query : DowntimeRow → Query
unfolding downtime_table downtime_primary_key_where
update_downtime_history_started_query row =
    let (where_text, args) = downtime_primary_key_where row in
    (
      update_text " SET was_started=?, actual_start_time=?" row.is_host_downtime where_text,
      (bool row.was_started ∷ int row.actual_start_time ∷ []) ++ args,
    )

unfoldable pub update_downtime_history_stopped_query : DowntimeRow → Query
unfolding downtime_table downtime_primary_key_where
update_downtime_history_stopped_query row =
    let (where_text, args) = downtime_primary_key_where row in
    (
      update_text " SET actual_end_time=?, was_cancelled=?" row.is_host_downtime where_text,
      (int row.actual_end_time ∷ bool row.was_cancelled ∷ []) ++ args,
    )

unfoldable pub downtime_history_exists_query : DowntimeRow → Query
unfolding downtime_table downtime_primary_key_where
downtime_history_exists_query row =
    let (where_text, args) = downtime_primary_key_where row in
    (
      codes "SELECT 1 FROM "
          ++ (downtime_table "downtimehistory" row.is_host_downtime
              ++ (codes " WHERE " ++ (where_text ++ codes " LIMIT 1"))),
      args,
    )

unfoldable pub delete_downtime_history_query : DowntimeRow → Query
unfolding downtime_table downtime_primary_key_where
delete_downtime_history_query row =
    let (where_text, args) = downtime_primary_key_where row in
    (
      codes "DELETE FROM "
          ++ (downtime_table "downtimehistory" row.is_host_downtime
              ++ (codes " WHERE " ++ where_text)),
      args,
    )
