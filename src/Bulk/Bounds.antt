-- ===== src/Bulk/Bounds.antt =====
-- How many rows a batch can have.
use statusengine_worker.Prelude.{
  ℕ, suc, ◌*◌, ◌-◌, ◌≤◌, ◌<◌, ◌≡◌, refl, ap, Option, some, List, [], ◌∷◌, ◌++◌, arith, append-nil,
  append_assoc, if-either, length, length-append, map, All, All-append, ◌∙◌,
}
use statusengine_worker.Bulk.{BulkInserter}
use statusengine_worker.Bulk.Retry.{Answer}
use statusengine_worker.Bulk.Flush.{
  Batch, Flushed, nothing, flushed, waiting, flush_buffer, drain, drain_pending,
}
use statusengine_worker.Bulk.Run.{
  Input, enqueues, cancelled, reads, ticks, stats, flush_requested, paused_and_resumed,
  paused_and_cancelled, World, enqueue, settle, drain_and_flush, stop, read_into, round, step, run,
  start,
}
use statusengine_worker.Bulk.Conservation.{IsFlushed, flush_buffer-Flushes, log_stats-same}

-- No `Enqueue` gets an item into the channel while a drain empties it.
abbrev pub IsUndisturbed : {P : Type 0} → Input P → Type 0
IsUndisturbed (cancelled arrivals answers) = arrivals ≡ []
IsUndisturbed (flush_requested arrivals answers) = arrivals ≡ []
IsUndisturbed (paused_and_cancelled arrivals answers) = arrivals ≡ []
IsUndisturbed _ = Unit

abbrev pub IsBatchSize : {P : Type 0} → ℕ → Batch P → Type 0
IsBatchSize n b = (1 ≤ length b.rows) × (length b.rows ≤ 2 * n - 1)

module _ {P V : Type 0} (n : ℕ) where
  pub record Fits (w : World P V) : Type 0 where
    pub sized : w.inserter.max_batch_size ≡ n
    pub buffered : length w.inserter.buffer < n
    pub queued : length w.inserter.in_chan ≤ n
    pub batched : All (IsBatchSize n) w.batches

  settle-Fits :
      (w : World P V) (more : List P) (b : BulkInserter P V) (r : BulkInserter P V × Flushed P)
      → Fits w
      → b.max_batch_size ≡ n
      → length b.buffer ≤ 2 * n - 1
      → length b.in_chan ≤ n
      → IsFlushed b r
      → Fits (settle w more r)
  unfolding settle
  settle-Fits w more b (b', nothing) f size room chan s = ground arith
  settle-Fits w more b (b', flushed batch) f size room chan s =
      let size_ok : IsBatchSize n batch =
        (omega (arith, s.shape.some_rows), omega (arith, ap length s.shape.all_rows, room)) in
      record {
        sized = s.shape.same_size ∙ size;
        buffered = omega (arith, ap length s.shape.emptied, f.buffered);
        queued = omega (arith, ap length s.shape.same_chan, chan);
        batched = All-append (IsBatchSize n) w.batches (batch ∷ []) f.batched (size_ok, tt);
      }
  settle-Fits w more b (b', waiting) f size room chan s = f

  drain_and_flush-Fits :
      (arrivals : List (Option P)) (answers : List Answer) (w : World P V)
      → arrivals ≡ []
      → Fits w
      → Fits (drain_and_flush arrivals answers w)
  unfolding drain_and_flush drain_pending drain
  drain_and_flush-Fits [] answers w e f =
      settle-Fits w [] (drain_pending [] w.inserter).0 _ f f.sized
        (omega (arith, length-append w.inserter.buffer w.inserter.in_chan, f.buffered, f.queued))
        (omega arith) (flush_buffer-Flushes answers _)
  drain_and_flush-Fits (a ∷ rest) answers w e f = cc

  stop-Fits :
      (arrivals : List (Option P)) (answers : List Answer) (w : World P V)
      → arrivals ≡ []
      → Fits w
      → Fits (stop arrivals answers w)
  unfolding stop
  stop-Fits arrivals answers w e f =
      let f' = drain_and_flush-Fits arrivals answers w e f in
      ground (arith, f', log_stats-same (drain_and_flush arrivals answers w).inserter)

  read_into-Fits :
      (chan : List P) (answers : List Answer) (w : World P V)
      → chan ≡ w.inserter.in_chan
      → Fits w
      → Fits (read_into chan answers w)
  unfolding read_into
  read_into-Fits [] answers w e f = f
  read_into-Fits (p ∷ chan) answers w e f =
      let b : BulkInserter P V = record (w.inserter) {
        in_chan = chan;
        buffer = w.inserter.buffer ++ p ∷ [];
      } in
      let longer = length-append w.inserter.buffer (p ∷ []) in
      let shorter : suc (length chan) ≡ length w.inserter.in_chan = ap length e in
      ground (
        arith,
        longer,
        shorter,
        settle-Fits w [] b (flush_buffer answers b) f f.sized (omega (arith, longer, f.buffered))
            (omega (arith, shorter, f.queued)) (flush_buffer-Flushes answers b),
      )

  enqueue-Fits : (p : P) (w : World P V) → Fits w → Fits (enqueue p w)
  unfolding enqueue
  enqueue-Fits p w f = ground (arith, length-append w.inserter.in_chan (p ∷ []))

  round-Fits : (i : Input P) (w : World P V) → IsUndisturbed i → Fits w → Fits (round i w)
  unfolding round
  round-Fits (enqueues p) w u f = enqueue-Fits p w f
  round-Fits (cancelled arrivals answers) w u f = stop-Fits arrivals answers w u f
  round-Fits (reads answers) w u f = read_into-Fits w.inserter.in_chan answers w refl f
  round-Fits (ticks answers) w u f =
      settle-Fits w [] w.inserter _ f f.sized (omega (arith, f.buffered)) f.queued
        (flush_buffer-Flushes answers w.inserter)
  round-Fits stats w u f = ground (arith, log_stats-same w.inserter)
  round-Fits (flush_requested arrivals answers) w u f = drain_and_flush-Fits arrivals answers w u f
  round-Fits paused_and_resumed w u f = f
  round-Fits (paused_and_cancelled arrivals answers) w u f = stop-Fits arrivals answers w u f

  step-Fits : (w : World P V) (i : Input P) → IsUndisturbed i → Fits w → Fits (step w i)
  unfolding step
  step-Fits w (enqueues p) u f = enqueue-Fits p w f
  step-Fits w i u f = if-either Fits w.returned {x = w} {y = round i w} f (round-Fits i w u f)

  run-Fits : (w : World P V) (is : List (Input P)) → All IsUndisturbed is → Fits w → Fits (run w is)
  unfolding run
  run-Fits w [] u f = f
  run-Fits w (i ∷ is) (u, us) f = run-Fits (step w i) is us (step-Fits w i u f)

-- Over any rounds of `Run` and calls of `Enqueue` none of which disturbs a drain, from an empty
-- inserter with the batch size n: between two rounds the buffer holds fewer than n items and the
-- channel at most n, and every batch that was cut has between 1 and 2n-1 rows.
pub run_bounds :
    {P V : Type 0} (b : BulkInserter P V) (is : List (Input P))
    → 1 ≤ b.max_batch_size
    → b.buffer ≡ []
    → b.in_chan ≡ []
    → All IsUndisturbed is
    → let w = run (start b) is in
      (length w.inserter.buffer < b.max_batch_size)
      × (length w.inserter.in_chan ≤ b.max_batch_size)
      × All (IsBatchSize b.max_batch_size) w.batches
run_bounds b is sized empty quiet u =
    let f = run-Fits b.max_batch_size (start b) is u (record {
      sized = refl;
      buffered = omega (arith, ap length empty, sized);
      queued = omega (arith, ap length quiet);
      batched = tt;
    }) in
    (f.buffered, f.queued, f.batched)

-- With `Enqueue` calls waiting for a free slot a drain has no such bound: it takes as many further
-- items as they get into the channel while it empties it.
pub drain_overshoots :
    {P : Type 0} (x : P) (buffer chan more : List P)
    → drain buffer (x ∷ chan) (map some more) ≡ (buffer ++ (x ∷ (chan ++ more)), more)
unfolding drain
drain_overshoots x buffer chan [] = simp append-nil
drain_overshoots x buffer [] (y ∷ more) =
    rw (drain_overshoots y (buffer ++ x ∷ []) [] more) (simp append_assoc)
drain_overshoots x buffer (z ∷ chan) (y ∷ more) =
    rw (drain_overshoots z (buffer ++ x ∷ []) (chan ++ y ∷ []) more) (simp append_assoc)
