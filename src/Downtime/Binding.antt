-- ===== src/Downtime/Binding.antt =====
-- Every downtime statement has as many placeholders as values are bound to it.
use statusengine_worker.Prelude.{Bool, true, false, some, ◌≡◌, refl, length, subst}
use statusengine_worker.Bulk.Placeholders.{marks}
use statusengine_worker.Downtime.{
  DowntimeTargetTable, scheduled_downtimes_table, downtime_history_table, DowntimeActionType,
  upsert, update_started, update_stopped, delete,
}
use statusengine_worker.Downtime.Queries.{
  DowntimeRow, Query, upsert_scheduled_downtime_query, delete_scheduled_downtime_query,
  upsert_downtime_history_query, update_downtime_history_started_query,
  update_downtime_history_stopped_query, delete_downtime_history_query,
  downtime_history_exists_query,
}
use statusengine_worker.Downtime.Exec.{query_for}

abbrev IsBound : Query → Type 0
IsBound q = marks q.0 ≡ length q.1

module _ (row : DowntimeRow) where
  abbrev as_kind : Bool → DowntimeRow
  as_kind is_host = record row { is_host_downtime = is_host }

  upsert_scheduled-IsBound : (h : Bool) → IsBound (upsert_scheduled_downtime_query (as_kind h))
  unfolding upsert_scheduled_downtime_query
  upsert_scheduled-IsBound true = refl
  upsert_scheduled-IsBound false = refl

  delete_scheduled-IsBound : (h : Bool) → IsBound (delete_scheduled_downtime_query (as_kind h))
  unfolding delete_scheduled_downtime_query
  delete_scheduled-IsBound true = refl
  delete_scheduled-IsBound false = refl

  upsert_history-IsBound : (h : Bool) → IsBound (upsert_downtime_history_query (as_kind h))
  unfolding upsert_downtime_history_query
  upsert_history-IsBound true = refl
  upsert_history-IsBound false = refl

  started-IsBound : (h : Bool) → IsBound (update_downtime_history_started_query (as_kind h))
  unfolding update_downtime_history_started_query
  started-IsBound true = refl
  started-IsBound false = refl

  stopped-IsBound : (h : Bool) → IsBound (update_downtime_history_stopped_query (as_kind h))
  unfolding update_downtime_history_stopped_query
  stopped-IsBound true = refl
  stopped-IsBound false = refl

  delete_history-IsBound : (h : Bool) → IsBound (delete_downtime_history_query (as_kind h))
  unfolding delete_downtime_history_query
  delete_history-IsBound true = refl
  delete_history-IsBound false = refl

  exists-IsBound : (h : Bool) → IsBound (downtime_history_exists_query (as_kind h))
  unfolding downtime_history_exists_query
  exists-IsBound true = refl
  exists-IsBound false = refl

some-IsBound : (p q : Query) → some p ≡ some q → IsBound p → IsBound q
some-IsBound p q e bound = let same : p ≡ q = cc in subst IsBound same bound

-- The statement of every action that has one, and the lookup after an update, has as many
-- placeholders as values are bound to it.
pub query_for-IsBound :
    (t : DowntimeTargetTable) (a : DowntimeActionType) (row : DowntimeRow) (q : Query)
    → query_for t a row ≡ some q
    → (marks q.0 ≡ length q.1)
      × (marks (downtime_history_exists_query row).0 ≡ length (downtime_history_exists_query row).1)
unfolding query_for
query_for-IsBound t a row q e = (go t a e, exists-IsBound row row.is_host_downtime)
  where
    go : (t : DowntimeTargetTable) (a : DowntimeActionType) → query_for t a row ≡ some q → IsBound q
    go scheduled_downtimes_table upsert e =
        some-IsBound _ q e (upsert_scheduled-IsBound row row.is_host_downtime)
    go scheduled_downtimes_table delete e =
        some-IsBound _ q e (delete_scheduled-IsBound row row.is_host_downtime)
    go scheduled_downtimes_table update_started e = cc
    go scheduled_downtimes_table update_stopped e = cc
    go downtime_history_table upsert e =
        some-IsBound _ q e (upsert_history-IsBound row row.is_host_downtime)
    go downtime_history_table update_started e =
        some-IsBound _ q e (started-IsBound row row.is_host_downtime)
    go downtime_history_table update_stopped e =
        some-IsBound _ q e (stopped-IsBound row row.is_host_downtime)
    go downtime_history_table delete e =
        some-IsBound _ q e (delete_history-IsBound row row.is_host_downtime)
