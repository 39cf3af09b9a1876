-- ===== src/Bulk/Tests.antt =====
-- An inserter with two columns, at work.
use statusengine_worker.Prelude.{
  ℕ, ◌+◌, ◌≤◌, ◌<◌, ◌≡◌, refl, true, false, none, some, List, [], ◌∷◌, ◌++◌, arith, Bytes, codes,
  is_some, length, length-append, All, pos, ◌⊎◌, count,
}
use statusengine_worker.Bulk.{
  BulkInserter, new_upsert_bulk_inserter, with_max_batch_size, RowFunc, build_row_placeholder,
  build_update_clause, max_placeholders_per_statement,
}
use statusengine_worker.Bulk.Statement.{build_insert}
use statusengine_worker.Bulk.Retry.{
  ExecError, mysql_error, eof, Answer, written, exec_with_retry, is_transient_lock_error,
  is_connection_error,
}
use statusengine_worker.Bulk.Flush.{drain, stored, refused, flush_buffer, drain_pending}
use statusengine_worker.Bulk.Paused.{PauseCall, with_paused, with_paused-quiet}
use statusengine_worker.Bulk.Run.{
  World, Input, enqueues, enqueue, reads, flush_requested, run, step, start,
}
use statusengine_worker.Bulk.Placeholders.{marks, upsert_statement_fits}
use statusengine_worker.Bulk.Attempts.{
  IsTransient, lock_failure, exec_with_retry-written, exec_with_retry-failed,
}
use statusengine_worker.Bulk.Conservation.{shipped, run_accounts}
use statusengine_worker.Bulk.Bounds.{IsBatchSize, run_bounds, drain_overshoots}

abbrev pair_row : RowFunc ℕ ℕ
pair_row p dst = dst ++ (p ∷ (p + 1) ∷ [])

abbrev names : List Bytes
names = codes "hostname" ∷ codes "state" ∷ []

abbrev small : BulkInserter ℕ ℕ
small = record {
  table = codes "t";
  columns = names;
  to_row = pair_row;
  update_columns = codes "hostname" ∷ [];
  row_placeholder = codes "(?,?)";
  update_clause = codes " ON DUPLICATE KEY UPDATE hostname = VALUES(hostname)";
  in_chan = [];
  max_batch_size = 2;
  buffer = [];
  flushes_since_stats = 0;
  rows_since_stats = 0;
  processed = 0;
  ticks = [];
}

constructed :
    new_upsert_bulk_inserter
      (codes "t")
      names
      (codes "hostname" ∷ [])
      pair_row
      (with_max_batch_size (pos 2) ∷ [])
    ≡ some small
unfolding new_upsert_bulk_inserter with_max_batch_size build_row_placeholder build_update_clause
constructed = refl

sent_statement :
    (build_insert small (7 ∷ 9 ∷ [])).0
    ≡ codes
        "INSERT INTO t (hostname, state) VALUES (?,?), (?,?) ON DUPLICATE KEY UPDATE hostname = VALUES(hostname)"
unfolding build_insert
sent_statement = refl

pair_row_fills : (item : ℕ) (dst : List ℕ) → length (pair_row item dst) ≡ length dst + 2
pair_row_fills item dst = length-append dst (item ∷ (item + 1) ∷ [])

upsert_statement_fits_example :
    (marks (build_insert small (7 ∷ 9 ∷ [])).0 ≡ length (build_insert small (7 ∷ 9 ∷ [])).1)
    × (length (build_insert small (7 ∷ 9 ∷ [])).1 ≤ max_placeholders_per_statement)
upsert_statement_fits_example =
    upsert_statement_fits (codes "t") names (codes "hostname" ∷ []) pair_row
      (with_max_batch_size (pos 2) ∷ []) small (7 ∷ 9 ∷ []) constructed refl (refl, (refl, tt))
      (refl, tt) pair_row_fills (omega arith)

abbrev fine : Answer
fine = record { result = none; cancelled = false; slept = true }

abbrev failing : ExecError → Answer
failing e = record { result = some e; cancelled = false; slept = true }

exec_with_retry-written_example :
    (exec_with_retry (failing (mysql_error 1213) ∷ failing eof ∷ fine ∷ []) []).0 ≡ written
unfolding is_transient_lock_error is_connection_error
exec_with_retry-written_example =
    exec_with_retry-written (failing (mysql_error 1213) ∷ failing eof ∷ []) [] fine []
      ((refl, refl, refl), ((refl, refl, refl), tt)) (omega arith) refl

abbrev deadlocks : List Answer
deadlocks =
    failing (mysql_error 1213) ∷ failing (mysql_error 1205) ∷ failing (mysql_error 1213) ∷ []

exec_with_retry-failed_example :
    (before : List Answer) × (last : Answer) × (unread : List Answer) × (deadlocks
      ≡ before ++ last ∷ unread)
    × All IsTransient before
    × (last.result ≡ some (mysql_error 1213))
    × (((is_transient_lock_error (mysql_error 1213) ≡ true) × (count lock_failure before ≡ 2))
        ⊎ ((is_transient_lock_error (mysql_error 1213) ≡ false)
            × (is_connection_error (mysql_error 1213) ≡ false)))
unfolding exec_with_retry
exec_with_retry-failed_example =
    exec_with_retry-failed deadlocks [] (mysql_error 1213)
      ((refl, refl), ((refl, refl), ((refl, refl), tt))) refl

abbrev story : List (Input ℕ)
story =
    enqueues 1
    ∷ enqueues 2
    ∷ reads []
    ∷ reads (fine ∷ [])
    ∷ enqueues 3
    ∷ flush_requested [] (failing (mysql_error 1406) ∷ [])
    ∷ enqueues 4
    ∷ []

story_batches :
    (run (start small) story).batches
    ≡ record { rows = 1 ∷ 2 ∷ []; result = stored }
      ∷ record { rows = 3 ∷ []; result = refused (mysql_error 1406) }
      ∷ []
unfolding run step flush_buffer build_insert exec_with_retry is_transient_lock_error
    is_connection_error drain_pending
story_batches = refl

run_accounts_example :
    let w = run (start small) story in
    w.accepted ≡ shipped w.batches ++ (w.inserter.buffer ++ w.inserter.in_chan)
run_accounts_example = run_accounts small story refl refl

run_bounds_example :
    let w = run (start small) story in
    (length w.inserter.buffer < 2) × (length w.inserter.in_chan ≤ 2) × All (IsBatchSize 2) w.batches
run_bounds_example =
    run_bounds small story (omega arith) refl refl (tt, (tt, (tt, (tt, (tt, (refl, (tt, tt)))))))

drain_overshoots_example :
    drain {P = ℕ} (1 ∷ []) (2 ∷ 3 ∷ []) (some 4 ∷ some 5 ∷ [])
    ≡ (1 ∷ 2 ∷ 3 ∷ 4 ∷ 5 ∷ [], 4 ∷ 5 ∷ [])
drain_overshoots_example = drain_overshoots 2 (1 ∷ []) (3 ∷ []) (4 ∷ 5 ∷ [])

-- A pause while an item waits in the channel.
-- One item is enqueued and one read before the flush, another is enqueued before the pause.
abbrev pause : PauseCall ℕ
pause = record {
  flush_call = record {
    rounds_before = enqueues 2 ∷ reads [] ∷ [];
    request_sent = true;
    arrivals = [];
    answers = fine ∷ [];
    reply_read = true;
  };
  rounds_between = enqueues 3 ∷ reads [] ∷ [];
  request_sent = true;
  paused_seen = true;
  enqueued_meanwhile = 4 ∷ [];
  interrupted = none;
}

abbrev waiting_item : World ℕ ℕ
waiting_item = record {
  inserter = record small { in_chan = 1 ∷ [] };
  accepted = 1 ∷ [];
  batches = [];
  returned = false;
}

with_paused-quiet_example :
    let p = with_paused pause waiting_item in
    ((later : List ℕ) × (shipped p.at_start.batches ≡ (1 ∷ []) ++ later))
    × ((is_some pause.interrupted ≡ true)
        ⊎ ((p.at_end.batches ≡ p.at_start.batches)
            × (p.at_end.inserter.buffer ≡ p.at_start.inserter.buffer)))
unfolding with_paused run step enqueue flush_buffer build_insert exec_with_retry drain_pending
with_paused-quiet_example = with_paused-quiet pause waiting_item refl refl

-- The item of before the pause is held back, and the one of during the pause waits in the channel.
held_back :
    let p = with_paused pause waiting_item in
    (p.at_start.inserter.buffer ≡ 3 ∷ []) × (p.at_end.inserter.in_chan ≡ 4 ∷ [])
unfolding with_paused run step enqueue flush_buffer build_insert exec_with_retry drain_pending
held_back = (refl, refl)
