-- ===== src/Downtime/Memory.antt =====
-- A database in memory that runs the downtime statements, for tests: it reads what to do off a
-- statement's values, and off its text where two statements carry the same values.
use statusengine_worker.Prelude.{
  Bool, true, false, Option, none, some, List, [], ◌∷◌, Bytes, ℤ, ℕ, ◌≡◌, refl, ◌||◌, bytes_eq, pos,
}
use statusengine_worker.Downtime.Queries.{
  Arg, text, int, bool, DowntimeRow, Query, key_args, upsert_scheduled_downtime_query,
  delete_scheduled_downtime_query, upsert_downtime_history_query,
  update_downtime_history_started_query, update_downtime_history_stopped_query,
  delete_downtime_history_query,
}
use statusengine_worker.Downtime.Exec.{Mysql, ExecReply, refused, done, no_rows}
use statusengine_worker.Downtime.Tables.{
  Key, key_of, History, Rows, write, Laws, history_of, scheduled_of, set_history, set_scheduled,
  started, stopped,
}

-- A host's key has two texts in front of its times, a service's has three.
abbrev key_from : List Arg → Key
key_from (text h ∷ text n ∷ int s ∷ rest) = record {
  is_host = true;
  args = text h ∷ text n ∷ int s ∷ rest;
}
key_from args = record { is_host = false; args = args }

-- The values of an upsert behind its key.
abbrev upsert_tail : Key → List Arg → Rows → Option Rows
upsert_tail k
      (int e ∷ int u ∷ a ∷ c ∷ t ∷ f ∷ d ∷ end ∷ bool ws ∷ int start ∷ int stop ∷ bool wc ∷ []) r =
    some (record r {
      history =
          write k
            (some (record {
              was_started = ws;
              actual_start_time = start;
              actual_end_time = stop;
              was_cancelled = wc;
            }))
            r.history;
    })
upsert_tail k (int e ∷ text a ∷ c ∷ t ∷ f ∷ d ∷ end ∷ bool ws ∷ int start ∷ []) r = some (record r {
  scheduled = write k (some (record { was_started = ws; actual_start_time = start })) r.scheduled;
})
upsert_tail k _ r = none

abbrev set_started : Bool → ℤ → Option History → Option History
set_started ws start none = none
set_started ws start (some h) = some (record h { was_started = ws; actual_start_time = start })

abbrev set_stopped : Bool → ℤ → Option History → Option History
set_stopped wc stop none = none
set_stopped wc stop (some h) = some (record h { actual_end_time = stop; was_cancelled = wc })

abbrev apply : Bool → List Arg → Rows → Option Rows
apply of_history (bool ws ∷ int start ∷ ks) r = some (record r {
  history = write (key_from ks) (set_started ws start (r.history (key_from ks))) r.history;
})
apply of_history (int stop ∷ bool wc ∷ ks) r = some (record r {
  history = write (key_from ks) (set_stopped wc stop (r.history (key_from ks))) r.history;
})
apply of_history (text h ∷ int id ∷ int s ∷ text n ∷ rest) r =
    upsert_tail (record { is_host = true; args = text h ∷ text n ∷ int s ∷ int id ∷ [] }) rest r
apply of_history (text h ∷ text v ∷ int id ∷ int s ∷ text n ∷ rest) r =
    upsert_tail (record { is_host = false; args = text h ∷ text v ∷ text n ∷ int s ∷ int id ∷ [] })
      rest r
apply true ks r = some (record r { history = write (key_from ks) none r.history })
apply false ks r = some (record r { scheduled = write (key_from ks) none r.scheduled })

abbrev host_row : DowntimeRow
host_row = record {
  is_host_downtime = true;
  host_name = "";
  service_description = "";
  node_name = "";
  internal_downtime_id = pos 0;
  entry_time = pos 0;
  entry_time_usec = pos 0;
  author_name = "";
  comment_data = "";
  triggered_by_id = pos 0;
  is_fixed = true;
  duration = pos 0;
  scheduled_start_time = pos 0;
  scheduled_end_time = pos 0;
  was_started = false;
  actual_start_time = pos 0;
  actual_end_time = pos 0;
  was_cancelled = false;
}

pub is_history_delete : Bytes → Bool
unfolding delete_downtime_history_query
is_history_delete query =
    bytes_eq query (delete_downtime_history_query host_row).0
    || bytes_eq query
        (delete_downtime_history_query (record host_row { is_host_downtime = false })).0

abbrev reply : Rows → Option Rows → ExecReply × Rows
reply r none = (refused, r)
reply r (some r') = (done (some 1), r')

unfoldable pub run_query : Query → Rows → ExecReply × Rows
unfolding is_history_delete upsert_scheduled_downtime_query delete_scheduled_downtime_query
    upsert_downtime_history_query update_downtime_history_started_query
    update_downtime_history_stopped_query
run_query (query, args) r = reply r (apply (is_history_delete query) args r)

abbrev pub in_memory : Mysql
in_memory = record { Db = Rows; exec = run_query; query_row = λ q r. no_rows }

-- What each statement does, for a row of either kind.
module _ (db : Rows) (row : DowntimeRow) where
  abbrev pub as_kind : Bool → DowntimeRow
  as_kind is_host = record row { is_host_downtime = is_host }

  abbrev pub Ran : Query → Rows → Type 0
  Ran q r = run_query q db ≡ (done (some 1), r)

  pub Ran-upsert_history :
      (h : Bool)
      → Ran
          (upsert_downtime_history_query (as_kind h))
          (set_history (as_kind h) (some (history_of (as_kind h))) db)
  unfolding run_query upsert_downtime_history_query key_args
  Ran-upsert_history true = refl
  Ran-upsert_history false = refl

  pub Ran-upsert_scheduled :
      (h : Bool)
      → Ran
          (upsert_scheduled_downtime_query (as_kind h))
          (set_scheduled (as_kind h) (some (scheduled_of (as_kind h))) db)
  unfolding run_query upsert_scheduled_downtime_query key_args
  Ran-upsert_scheduled true = refl
  Ran-upsert_scheduled false = refl

  set_started-started :
      (o : Option History) → set_started row.was_started row.actual_start_time o ≡ started row o
  set_started-started none = refl
  set_started-started (some h) = refl

  set_stopped-stopped :
      (o : Option History) → set_stopped row.was_cancelled row.actual_end_time o ≡ stopped row o
  set_stopped-stopped none = refl
  set_stopped-stopped (some h) = refl

  pub Ran-started :
      (h : Bool)
      → Ran
          (update_downtime_history_started_query (as_kind h))
          (set_history (as_kind h) (started row (db.history (key_of (as_kind h)))) db)
  unfolding run_query update_downtime_history_started_query key_args
  Ran-started true = rw (← set_started-started (db.history (key_of (as_kind true)))) refl
  Ran-started false = rw (← set_started-started (db.history (key_of (as_kind false)))) refl

  pub Ran-stopped :
      (h : Bool)
      → Ran
          (update_downtime_history_stopped_query (as_kind h))
          (set_history (as_kind h) (stopped row (db.history (key_of (as_kind h)))) db)
  unfolding run_query update_downtime_history_stopped_query key_args
  Ran-stopped true = rw (← set_stopped-stopped (db.history (key_of (as_kind true)))) refl
  Ran-stopped false = rw (← set_stopped-stopped (db.history (key_of (as_kind false)))) refl

  pub Ran-delete_history :
      (h : Bool) → Ran (delete_downtime_history_query (as_kind h)) (set_history (as_kind h) none db)
  unfolding run_query delete_downtime_history_query key_args
  Ran-delete_history true = refl
  Ran-delete_history false = refl

  pub Ran-delete_scheduled :
      (h : Bool)
      → Ran (delete_scheduled_downtime_query (as_kind h)) (set_scheduled (as_kind h) none db)
  unfolding run_query delete_scheduled_downtime_query key_args
  Ran-delete_scheduled true = refl
  Ran-delete_scheduled false = refl

pub after :
    (q : Query) (n : Option ℕ) (db db' r : Rows)
    → run_query q db ≡ (done (some 1), r)
    → run_query q db ≡ (done n, db')
    → db' ≡ r
after q n db db' r ran x = cc

-- The database in memory is one that behaves as documented.
abbrev pub in_memory_laws : Laws in_memory
in_memory_laws = record {
  rows = λ db. db;
  upserts_history =
      λ row n db db' x. after _ n db db' _ (Ran-upsert_history db row row.is_host_downtime) x;
  updates_started =
      λ row n db db' x. after _ n db db' _ (Ran-started db row row.is_host_downtime) x;
  updates_stopped =
      λ row n db db' x. after _ n db db' _ (Ran-stopped db row row.is_host_downtime) x;
  deletes_history =
      λ row n db db' x. after _ n db db' _ (Ran-delete_history db row row.is_host_downtime) x;
  upserts_scheduled =
      λ row n db db' x. after _ n db db' _ (Ran-upsert_scheduled db row row.is_host_downtime) x;
  deletes_scheduled =
      λ row n db db' x. after _ n db db' _ (Ran-delete_scheduled db row row.is_host_downtime) x;
}
