-- ===== src/Graphite/Flush.antt =====
-- internal/graphite/graphite.go: `flushBuffer`, `recordDrop`, `drainPending` and `logStats`.
use statusengine_worker.Prelude.{
  u64, ℕ, ◌+◌, true, false, Option, none, some, List, [], ◌∷◌, Bytes, ◌==◌, length, if◌then◌else◌,
}
use statusengine_worker.Metrics.{
  pipeline_errors, component_graphite, graphite_written, graphite_dropped, graphite_flushes,
  graphite_available,
}
use statusengine_worker.Perfdata.Handler.{Metric}
use statusengine_worker.Bulk.Flush.{drain}
use statusengine_worker.Graphite.{Client, Attempt, wrote, close_conn, ensure_conn}
use statusengine_worker.Graphite.Lines.{lines}

-- The error that a flush returns.
pub data FlushError : Type 0 where
  dial_failed write_failed : FlushError

-- What left the buffer, and with which error.
pub record Batch (F : Type 0) : Type 0 where
  pub metrics : List (Metric F)
  pub error : Option FlushError

module _ {F : Type 0} where
  unfoldable pub record_drop : ℕ → Client F → Client F
  record_drop metrics c = record c {
    ticks = graphite_available false ∷ graphite_dropped metrics ∷ c.ticks;
  }

  -- The failure paths of `flushBuffer`.
  abbrev pub drop : ℕ → Client F → Client F
  drop metrics c =
      record_drop metrics (record c { ticks = pipeline_errors component_graphite ∷ c.ticks })

module _ {F : Type 0} (append_float : F → Bytes) where
  -- From the write of the rendered lines on.
  unfoldable pub write_lines : Attempt → List (Metric F) → Client F → Client F × Option (Batch F)
  unfolding record_drop close_conn
  write_lines a metrics c =
      let n = length metrics in
      let c' = record c {
        wire = wrote a.now (lines append_float metrics) a.write_succeeds ∷ c.wire;
      } in
      if a.write_succeeds
      then (
        record c' {
          processed = u64 (c.processed + n);
          flushes_since_stats = u64 (c.flushes_since_stats + 1);
          metrics_since_stats = u64 (c.metrics_since_stats + n);
          ticks = graphite_available true ∷ graphite_flushes ∷ graphite_written n ∷ c.ticks;
          buffer = [];
        },
        some (record { metrics = metrics; error = none }),
      )
      else (
        record (close_conn (drop n c')) { buffer = [] },
        some (record { metrics = metrics; error = some write_failed }),
      )

  -- `flushBuffer` on the metrics that it finds in the buffer.
  unfoldable pub flush_metrics : Attempt → List (Metric F) → Client F → Client F × Option (Batch F)
  unfolding write_lines
  flush_metrics a [] c = (c, none)
  flush_metrics a (m ∷ more) c =
      let (live, c') = ensure_conn a c in
      if live then write_lines a (m ∷ more) c' else (
        record (drop (length (m ∷ more)) c') { buffer = [] },
        some (record { metrics = m ∷ more; error = some dial_failed }),
      )

  unfoldable pub flush_buffer : Attempt → Client F → Client F × Option (Batch F)
  unfolding flush_metrics
  flush_buffer a c = flush_metrics a c.buffer c

module _ {F : Type 0} where
  -- The loop is that of the bulk inserter's `drainPending`.
  unfoldable pub drain_pending : List (Option (Metric F)) → Client F → Client F × List (Metric F)
  unfolding drain
  drain_pending arrivals c =
      let (buffer, accepted) = drain c.buffer c.in_chan arrivals in
      (record c { buffer = buffer; in_chan = [] }, accepted)

  unfoldable pub log_stats : Client F → Client F
  log_stats c =
      if c.flushes_since_stats == 0
      then c
      else record c { flushes_since_stats = 0; metrics_since_stats = 0 }
