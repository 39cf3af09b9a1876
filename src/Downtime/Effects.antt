-- ===== src/Downtime/Effects.antt =====
-- What the statements of one message do to the rows, where MySQL accepts them: one after the
-- other, and in sum.
use statusengine_worker.Prelude.{
  ℕ, String, Bool, true, false, Option, none, some, List, [], ◌∷◌, Bytes, ◌≡◌, refl, sym, ap, ◌∙◌,
  ℤ, pos, eqb_ℤ, ltb_ℤ, if◌then◌else◌, ◌&&◌, ◌||◌, arith, inl, inr, Option-cases,
}
use statusengine_worker.Downtime.{
  DowntimeMessage, DowntimePayload, DowntimeTargetTable, scheduled_downtimes_table,
  downtime_history_table, DowntimeActionType, upsert, update_started, update_stopped, delete,
  DowntimeAction, determine_downtime_actions, base_row, downtime_attr_stop_cancelled,
  event_type_downtime_add, event_type_downtime_start, event_type_downtime_stop,
  event_type_downtime_delete,
}
use statusengine_worker.Downtime.Queries.{DowntimeRow, Query, key_args}
use statusengine_worker.Downtime.Exec.{
  Mysql, ExecReply, refused, done, World, query_for, after_exec, exec_downtime_action, exec_actions,
  report_unmatched_downtime_update, downtime_row_for, downtime_metrics_table,
}
use statusengine_worker.Downtime.Tables.{
  Key, key_of, History, Scheduled, history_of, scheduled_of, started, stopped, Rows, write,
  write_self, write_other, Key-discrete, set_history, set_scheduled, Laws,
}

-- The specification: what each action does to the rows.
abbrev pub effect : DowntimeTargetTable → DowntimeActionType → DowntimeRow → Rows → Rows
effect downtime_history_table upsert row r = set_history row (some (history_of row)) r
effect downtime_history_table update_started row r =
    set_history row (started row (r.history (key_of row))) r
effect downtime_history_table update_stopped row r =
    set_history row (stopped row (r.history (key_of row))) r
effect downtime_history_table delete row r = set_history row none r
effect scheduled_downtimes_table upsert row r = set_scheduled row (some (scheduled_of row)) r
effect scheduled_downtimes_table delete row r = set_scheduled row none r
effect _ _ row r = r

abbrev pub effects : List DowntimeAction → Rows → Rows
effects [] r = r
effects (a ∷ rest) r = effects rest (effect a.table a.action (downtime_row_for a) r)

module _ (m : Mysql) (laws : Laws m) where
  open m use {Db, exec}
  open laws use {rows}

  report-db :
      (affected : Option ℕ) (a : DowntimeAction) (table : Bytes) (w : World m)
      → (report_unmatched_downtime_update m affected a table w).db ≡ w.db
  unfolding report_unmatched_downtime_update
  report-db affected a table w = ground arith

  after_exec-done :
      (a : DowntimeAction) (reply : ExecReply) (db : Db) (w w' : World m)
      → after_exec m a (reply, db) w ≡ (none, w')
      → (n : Option ℕ) × (reply ≡ done n) × (w'.db ≡ db)
  unfolding after_exec
  after_exec-done a refused db w w' e = cc
  after_exec-done a (done n) db w w' e = (
    n,
    refl,
    sym (ap (λ r. r.1.db) e) ∙ report-db n a (downtime_metrics_table a) (record w { db = db }),
  )

  -- Each accepted statement of `query_for` does to the rows what its action stands for.
  query_for-effect :
      (t : DowntimeTargetTable) (act : DowntimeActionType) (row : DowntimeRow) (q : Query)
      (n : Option ℕ) (db db' : Db)
      → query_for t act row ≡ some q
      → exec q db ≡ (done n, db')
      → rows db' ≡ effect t act row (rows db)
  unfolding query_for
  query_for-effect scheduled_downtimes_table upsert row q n db db' e x =
      laws.upserts_scheduled row n db db' cc
  query_for-effect scheduled_downtimes_table delete row q n db db' e x =
      laws.deletes_scheduled row n db db' cc
  query_for-effect scheduled_downtimes_table update_started row q n db db' e x = cc
  query_for-effect scheduled_downtimes_table update_stopped row q n db db' e x = cc
  query_for-effect downtime_history_table upsert row q n db db' e x =
      laws.upserts_history row n db db' cc
  query_for-effect downtime_history_table update_started row q n db db' e x =
      laws.updates_started row n db db' cc
  query_for-effect downtime_history_table update_stopped row q n db db' e x =
      laws.updates_stopped row n db db' cc
  query_for-effect downtime_history_table delete row q n db db' e x =
      laws.deletes_history row n db db' cc

  exec_downtime_action-effect :
      (a : DowntimeAction) (w w' : World m)
      → exec_downtime_action m a w ≡ (none, w')
      → rows w'.db ≡ effect a.table a.action (downtime_row_for a) (rows w.db)
  unfolding exec_downtime_action
  exec_downtime_action-effect a w w' e =
      elim (Option-cases (query_for a.table a.action (downtime_row_for a))) [
        | inl no_query ↦ cc
        | inr (q, is_q) ↦
            let (n, was_done, same_db) : (n : Option ℕ) × ((exec q w.db).0 ≡ done n)
                × (w'.db ≡ (exec q w.db).1) =
              after_exec-done a (exec q w.db).0 (exec q w.db).1 w w' cc in
            ap rows same_db
            ∙ query_for-effect a.table a.action (downtime_row_for a) q n w.db (exec q w.db).1 is_q
                cc
      ]

  pub exec_actions-effects :
      (actions : List DowntimeAction) (w w' : World m)
      → exec_actions m actions w ≡ (none, w')
      → rows w'.db ≡ effects actions (rows w.db)
  unfolding exec_actions
  exec_actions-effects [] w w' e = sym (ap (λ r. rows r.1.db) e)
  exec_actions-effects (a ∷ rest) w w' e = elim (Option-cases (exec_downtime_action m a w).0) [
    | inl fine ↦
        let later : exec_actions m rest (exec_downtime_action m a w).1 ≡ (none, w') =
          rw (fine, exec_actions) at e in
        exec_actions-effects rest (exec_downtime_action m a w).1 w' later
        ∙ ap (effects rest) (exec_downtime_action-effect a w (exec_downtime_action m a w).1 cc)
    | inr (e', failed) ↦ cc (rw (failed, exec_actions) at e)
  ]

-- The rows' key, which the payload and the worker's node name fix.
abbrev pub key_for : DowntimePayload → String → Key
key_for p node_name = key_of (
    downtime_row_for (record {
      table = downtime_history_table;
      action = upsert;
      row =
          base_row
            (record {
              type = pos 0;
              flags = pos 0;
              attr = pos 0;
              timestamp = pos 0;
              timestamp_usec = pos 0;
              downtime = p;
            })
            node_name;
    }))

abbrev pub fresh : History
fresh = record {
  was_started = false;
  actual_start_time = pos 0;
  actual_end_time = pos 0;
  was_cancelled = false;
}

abbrev pub started_at : ℤ → Option History → Option History
started_at time none = none
started_at time (some h) = some (record h { was_started = true; actual_start_time = time })

abbrev pub stopped_at : ℤ → Bool → Option History → Option History
stopped_at time cancelled none = none
stopped_at time cancelled (some h) =
    some (record h { actual_end_time = time; was_cancelled = cancelled })

-- What a message makes of the history row and of the scheduled row of its downtime.
abbrev pub next_history : DowntimeMessage → Option History → Option History
next_history msg h =
    if eqb_ℤ msg.type event_type_downtime_add
    then some fresh
    else if eqb_ℤ msg.type event_type_downtime_start
    then started_at msg.timestamp h
    else if eqb_ℤ msg.type event_type_downtime_stop
    then stopped_at msg.timestamp (eqb_ℤ msg.attr downtime_attr_stop_cancelled) h
    else if eqb_ℤ msg.type event_type_downtime_delete && ltb_ℤ msg.timestamp msg.downtime.start_time
    then none
    else h

abbrev pub next_scheduled : DowntimeMessage → Option Scheduled → Option Scheduled
next_scheduled msg s =
    if eqb_ℤ msg.type event_type_downtime_add
    then some (record { was_started = false; actual_start_time = pos 0 })
    else if eqb_ℤ msg.type event_type_downtime_start
    then some (record { was_started = true; actual_start_time = msg.timestamp })
    else if eqb_ℤ msg.type event_type_downtime_stop || eqb_ℤ msg.type event_type_downtime_delete
    then none
    else s

module _ {ℓ} {T : Type ℓ} (k : Key) (f : Key → T) (j : Key) where
  write_same : write k (f k) f j ≡ f j
  write_same = elim (Key-discrete j k) [
    | yes same ↦ rw same (write_self k (f k) f)
    | no other ↦ write_other k j (f k) f other
  ]

module _ (msg : DowntimeMessage) (node_name : String) (r : Rows) (j : Key) where
  abbrev pub key : Key
  key = key_for msg.downtime node_name

  pub effects_rows :
      ((effects (determine_downtime_actions msg node_name) r).history j
        ≡ write key (next_history msg (r.history key)) r.history j)
      × ((effects (determine_downtime_actions msg node_name) r).scheduled j
          ≡ write key (next_scheduled msg (r.scheduled key)) r.scheduled j)
  unfolding determine_downtime_actions key_args downtime_row_for
  effects_rows = ground (arith, write_same key r.history j, write_same key r.scheduled j)
