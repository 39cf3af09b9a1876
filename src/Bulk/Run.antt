-- ===== src/Bulk/Run.antt =====
-- internal/db/db.go: `Enqueue` and the loop of `Run`, one `select` at a time. The ticker carries no
-- state of its own: that it fires is an input. A round whose flush still waits for MySQL is not
-- over, and leaves the world as it was until the answers that end it are there.
use statusengine_worker.Prelude.{
  Bool, true, false, Option, List, [], ◌∷◌, ◌++◌, ltb, leb, if◌then◌else◌, length,
}
use statusengine_worker.Bulk.{BulkInserter}
use statusengine_worker.Bulk.Retry.{Answer}
use statusengine_worker.Bulk.Flush.{
  Batch, Flushed, nothing, flushed, waiting, flush_buffer, drain_pending, log_stats,
}

-- What a round receives. A flush comes with the answers of MySQL, a drain with the items that
-- blocked `Enqueue` calls get in meanwhile. A pause ends by `resume`, or by the context.
pub data Input (P : Type 0) : Type 0 where
  enqueues : P → Input P
  cancelled : List (Option P) → List Answer → Input P
  reads : List Answer → Input P
  ticks : List Answer → Input P
  stats : Input P
  flush_requested : List (Option P) → List Answer → Input P
  paused_and_resumed : Input P
  paused_and_cancelled : List (Option P) → List Answer → Input P

-- The inserter with its history: every item that `Enqueue` accepted, oldest first, and every batch
-- that left the buffer.
pub record World (P V : Type 0) : Type 0 where
  pub inserter : BulkInserter P V
  pub accepted : List P
  pub batches : List (Batch P)
  pub returned : Bool

module _ {P V : Type 0} where
  -- The select of `Enqueue` takes the item while the channel has room.
  unfoldable pub enqueue : P → World P V → World P V
  enqueue p w =
      if ltb (length w.inserter.in_chan) w.inserter.max_batch_size
      then record w {
        inserter = record (w.inserter) { in_chan = w.inserter.in_chan ++ p ∷ [] };
        accepted = w.accepted ++ p ∷ [];
      }
      else w

  unfoldable pub settle : World P V → List P → BulkInserter P V × Flushed P → World P V
  settle w more (b, nothing) = record w { inserter = b; accepted = w.accepted ++ more }
  settle w more (b, flushed batch) = record w {
    inserter = b;
    accepted = w.accepted ++ more;
    batches = w.batches ++ batch ∷ [];
  }
  settle w more (b, waiting) = w

  -- A drain and a flush: the `Flush` request, and with `returned` the way out of `Run`.
  unfoldable pub drain_and_flush : List (Option P) → List Answer → World P V → World P V
  unfolding settle
  drain_and_flush arrivals answers w =
      let (b, more) = drain_pending arrivals w.inserter in settle w more (flush_buffer answers b)

  unfoldable pub has_settled : BulkInserter P V × Flushed P → Bool
  has_settled (b, waiting) = false
  has_settled _ = true

  unfoldable pub stop : List (Option P) → List Answer → World P V → World P V
  unfolding drain_and_flush has_settled
  stop arrivals answers w =
      let w' = drain_and_flush arrivals answers w in
      if has_settled (flush_buffer answers (drain_pending arrivals w.inserter).0)
      then record w' { inserter = log_stats w'.inserter; returned = true }
      else w'

  unfoldable pub read_into : List P → List Answer → World P V → World P V
  unfolding settle
  read_into [] answers w = w
  read_into (p ∷ chan) answers w =
      let b : BulkInserter P V = record (w.inserter) {
        in_chan = chan;
        buffer = w.inserter.buffer ++ p ∷ [];
      } in
      if leb b.max_batch_size (length b.buffer)
      then settle w [] (flush_buffer answers b)
      else record w { inserter = b }

  unfoldable pub round : Input P → World P V → World P V
  unfolding enqueue stop read_into drain_and_flush settle
  round (enqueues p) w = enqueue p w
  round (cancelled arrivals answers) w = stop arrivals answers w
  round (reads answers) w = read_into w.inserter.in_chan answers w
  round (ticks answers) w = settle w [] (flush_buffer answers w.inserter)
  round stats w = record w { inserter = log_stats w.inserter }
  round (flush_requested arrivals answers) w = drain_and_flush arrivals answers w
  round paused_and_resumed w = w
  round (paused_and_cancelled arrivals answers) w = stop arrivals answers w

  -- After `Run` has returned only the channel is left.
  unfoldable pub step : World P V → Input P → World P V
  unfolding round
  step w (enqueues p) = enqueue p w
  step w i = if w.returned then w else round i w

  unfoldable pub run : World P V → List (Input P) → World P V
  run w [] = w
  run w (i ∷ rest) = run (step w i) rest

  abbrev pub start : BulkInserter P V → World P V
  start b = record { inserter = b; accepted = []; batches = []; returned = false }
