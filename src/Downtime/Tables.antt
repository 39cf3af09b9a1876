-- ===== src/Downtime/Tables.antt =====
-- What the downtime statements rely on of MySQL, as the documented effect of each on the two tables
-- of its kind (host or service): an upsert writes the row of its key, an update changes it where it
-- exists, a delete removes it, and rows of other keys and of the other tables stay as they were.
use mathlib.Core.Logic.{ite, if_pos, if_neg}
use mathlib.Core.List.{List-discrete}
use statusengine_worker.Prelude.{
  ℕ, Bool, Option, none, some, List, ◌≡◌, ◌≢◌, ℤ, ℤ-discrete, String, str_eq, eq_iff, Bool-cases,
  inl, inr, refl,
}
use statusengine_worker.Downtime.Queries.{
  Arg, DowntimeRow, key_args, upsert_scheduled_downtime_query, delete_scheduled_downtime_query,
  upsert_downtime_history_query, update_downtime_history_started_query,
  update_downtime_history_stopped_query, delete_downtime_history_query,
}
use statusengine_worker.Downtime.Exec.{Mysql, done}

-- A primary key, of the host tables or of the service tables.
pub record Key : Type 0 where
  pub is_host : Bool
  pub args : List Arg

abbrev pub key_of : DowntimeRow → Key
key_of row = record { is_host = row.is_host_downtime; args = key_args row }

-- The columns that a downtime's life changes.
pub record History : Type 0 where
  pub was_started : Bool
  pub actual_start_time : ℤ
  pub actual_end_time : ℤ
  pub was_cancelled : Bool

pub record Scheduled : Type 0 where
  pub was_started : Bool
  pub actual_start_time : ℤ

abbrev pub history_of : DowntimeRow → History
history_of row = record {
  was_started = row.was_started;
  actual_start_time = row.actual_start_time;
  actual_end_time = row.actual_end_time;
  was_cancelled = row.was_cancelled;
}

abbrev pub scheduled_of : DowntimeRow → Scheduled
scheduled_of row = record {
  was_started = row.was_started;
  actual_start_time = row.actual_start_time;
}

abbrev pub started : DowntimeRow → Option History → Option History
started row none = none
started row (some h) =
    some (record h { was_started = row.was_started; actual_start_time = row.actual_start_time })

abbrev pub stopped : DowntimeRow → Option History → Option History
stopped row none = none
stopped row (some h) =
    some (record h { actual_end_time = row.actual_end_time; was_cancelled = row.was_cancelled })

-- The rows of the four tables.
pub record Rows : Type 0 where
  pub history : Key → Option History
  pub scheduled : Key → Option Scheduled

String-discrete : Discrete String
String-discrete s t = elim (Bool-cases (str_eq s t)) [
  | inl same ↦ yes ((eq_iff s t).0 same)
  | inr other ↦ no (λ e. cc ((eq_iff s t).1 e))
]

Bool-discrete : Discrete Bool
Bool-discrete = hlevel

Arg-discrete : Discrete Arg
Arg-discrete = hlevel (String-discrete, ℤ-discrete)

pub Key-discrete : Discrete Key
Key-discrete = hlevel (List-discrete Arg-discrete)

-- One key's row is replaced.
unfoldable pub write {ℓ} : {T : Type ℓ} → Key → T → (Key → T) → Key → T
write k v f j = ite (Key-discrete j k) v (f j)

pub write_self {ℓ} : {T : Type ℓ} (k : Key) (v : T) (f : Key → T) → write k v f k ≡ v
unfolding write
write_self k v f = if_pos (Key-discrete k k) refl v (f k)

pub write_other {ℓ} : {T : Type ℓ} (k j : Key) (v : T) (f : Key → T) → j ≢ k → write k v f j ≡ f j
unfolding write
write_other k j v f h = if_neg (Key-discrete j k) h v (f j)

abbrev pub set_history : DowntimeRow → Option History → Rows → Rows
set_history row v r = record r { history = write (key_of row) v r.history }

abbrev pub set_scheduled : DowntimeRow → Option Scheduled → Rows → Rows
set_scheduled row v r = record r { scheduled = write (key_of row) v r.scheduled }

-- The documented effect of each statement that MySQL accepts.
module _ (m : Mysql) where
  open m use {Db, exec}

  pub record Laws : Type 0 where
    pub rows : Db → Rows
    pub upserts_history :
        (row : DowntimeRow) (n : Option ℕ) (db db' : Db)
        → exec (upsert_downtime_history_query row) db ≡ (done n, db')
        → rows db' ≡ set_history row (some (history_of row)) (rows db)
    pub updates_started :
        (row : DowntimeRow) (n : Option ℕ) (db db' : Db)
        → exec (update_downtime_history_started_query row) db ≡ (done n, db')
        → rows db' ≡ set_history row (started row ((rows db).history (key_of row))) (rows db)
    pub updates_stopped :
        (row : DowntimeRow) (n : Option ℕ) (db db' : Db)
        → exec (update_downtime_history_stopped_query row) db ≡ (done n, db')
        → rows db' ≡ set_history row (stopped row ((rows db).history (key_of row))) (rows db)
    pub deletes_history :
        (row : DowntimeRow) (n : Option ℕ) (db db' : Db)
        → exec (delete_downtime_history_query row) db ≡ (done n, db')
        → rows db' ≡ set_history row none (rows db)
    pub upserts_scheduled :
        (row : DowntimeRow) (n : Option ℕ) (db db' : Db)
        → exec (upsert_scheduled_downtime_query row) db ≡ (done n, db')
        → rows db' ≡ set_scheduled row (some (scheduled_of row)) (rows db)
    pub deletes_scheduled :
        (row : DowntimeRow) (n : Option ℕ) (db db' : Db)
        → exec (delete_scheduled_downtime_query row) db ≡ (done n, db')
        → rows db' ≡ set_scheduled row none (rows db)
