-- ===== src/Bulk/Flush.antt =====
-- internal/db/db.go: `flushBuffer`, `drainPending` and `logStats`.
use statusengine_worker.Prelude.{
  u64, ◌+◌, ◌*◌, not, Option, none, some, List, [], ◌∷◌, ◌++◌, ◌==◌, if◌then◌else◌, length,
}
use statusengine_worker.Metrics.{
  pipeline_errors, component_mysql, db_flush_duration, db_batch_size_at_flush, db_events_written,
  db_flushes,
}
use statusengine_worker.Bulk.{BulkInserter}
use statusengine_worker.Bulk.Statement.{build_insert}
use statusengine_worker.Bulk.Retry.{
  ExecError, Answer, Outcome, written, failed, blocked, exec_with_retry,
}

-- What became of the rows of one flush. `misaligned` is the refusal to send a statement whose
-- values do not match its columns.
pub data FlushResult : Type 0 where
  stored : FlushResult
  misaligned : FlushResult
  refused : ExecError → FlushResult

pub record Batch (P : Type 0) : Type 0 where
  pub rows : List P
  pub result : FlushResult

-- Nothing was buffered; or a batch left the buffer; or the call still waits for MySQL.
pub data Flushed (P : Type 0) : Type 0 where
  nothing : Flushed P
  flushed : Batch P → Flushed P
  waiting : Flushed P

-- The loop of `drainPending` reads until the channel is empty. After each read a blocked
-- `Enqueue` may get its item into the free slot: `arrivals` says after which reads, and the last
-- component of the result is what was accepted that way.
unfoldable pub drain : {P : Type 0} → List P → List P → List (Option P) → List P × List P
drain buffer chan [] = (buffer ++ chan, [])
drain buffer [] (a ∷ rest) = (buffer, [])
drain buffer (x ∷ chan) (none ∷ rest) = drain (buffer ++ x ∷ []) chan rest
drain buffer (x ∷ chan) (some y ∷ rest) =
    let (buffer', accepted) = drain (buffer ++ x ∷ []) (chan ++ y ∷ []) rest in
    (buffer', y ∷ accepted)

module _ {P V : Type 0} where
  unfoldable pub after_exec : BulkInserter P V → List P → Outcome → BulkInserter P V × Flushed P
  after_exec b items blocked = (b, waiting)
  after_exec b items written = (
    record b {
      processed = u64 (b.processed + length items);
      flushes_since_stats = u64 (b.flushes_since_stats + 1);
      rows_since_stats = u64 (b.rows_since_stats + length items);
      buffer = [];
      ticks =
          db_flushes b.table
          ∷ db_events_written b.table (length items)
          ∷ db_batch_size_at_flush (length items)
          ∷ db_flush_duration
          ∷ b.ticks;
    },
    flushed (record { rows = items; result = stored }),
  )
  after_exec b items (failed e) = (
    record b {
      buffer = [];
      ticks =
          pipeline_errors component_mysql
          ∷ db_batch_size_at_flush (length items)
          ∷ db_flush_duration
          ∷ b.ticks;
    },
    flushed (record { rows = items; result = refused e }),
  )

  -- `flushBuffer` on the rows that it finds in the buffer.
  unfoldable pub flush_items :
      List Answer → BulkInserter P V → List P → BulkInserter P V × Flushed P
  unfolding after_exec
  flush_items answers b [] = (b, nothing)
  flush_items answers b (item ∷ more) =
      let items = item ∷ more in
      let (query, args) = build_insert b items in
      if not (length args == length items * length b.columns)
      then (
        record b { buffer = []; ticks = pipeline_errors component_mysql ∷ b.ticks },
        flushed (record { rows = items; result = misaligned }),
      )
      else (let (out, r) = exec_with_retry answers b.ticks in
          after_exec (record b { ticks = r.ticks }) items out)

  unfoldable pub flush_buffer : List Answer → BulkInserter P V → BulkInserter P V × Flushed P
  unfolding flush_items
  flush_buffer answers b = flush_items answers b b.buffer

  unfoldable pub drain_pending : List (Option P) → BulkInserter P V → BulkInserter P V × List P
  unfolding drain
  drain_pending arrivals b =
      let (buffer, accepted) = drain b.buffer b.in_chan arrivals in
      (record b { buffer = buffer; in_chan = [] }, accepted)

  unfoldable pub log_stats : BulkInserter P V → BulkInserter P V
  log_stats b =
      if b.flushes_since_stats == 0
      then b
      else record b { flushes_since_stats = 0; rows_since_stats = 0 }
