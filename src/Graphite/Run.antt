-- ===== src/Graphite/Run.antt =====
-- internal/graphite/graphite.go: `Enqueue` and the loop of `Run`, one `select` at a time. The ticker
-- carries no state of its own: that it fires is an input. A flush ends in bounded time, and so is one
-- step.
use statusengine_worker.Prelude.{
  Bool, true, false, Option, none, some, List, [], ◌∷◌, ◌++◌, Bytes, ltb, leb, if◌then◌else◌,
  length,
}
use statusengine_worker.Perfdata.Handler.{Metric}
use statusengine_worker.Graphite.{Client, Attempt, close_conn}
use statusengine_worker.Graphite.Flush.{Batch, flush_buffer, drain_pending, log_stats}

-- What a round receives. A drain comes with the metrics that blocked `Enqueue` calls get in
-- meanwhile.
pub data Input (F : Type 0) : Type 0 where
  enqueues : Metric F → Input F
  cancelled : List (Option (Metric F)) → Attempt → Input F
  reads : Attempt → Input F
  ticks : Attempt → Input F
  stats : Input F
  flush_requested : List (Option (Metric F)) → Attempt → Input F

-- The client with its history: every metric that `Enqueue` accepted, oldest first, and every batch
-- that left the buffer.
pub record World (F : Type 0) : Type 0 where
  pub client : Client F
  pub accepted : List (Metric F)
  pub batches : List (Batch F)
  pub returned : Bool

abbrev pub with_batch : {F : Type 0} → List (Batch F) → Option (Batch F) → List (Batch F)
with_batch batches none = batches
with_batch batches (some b) = batches ++ b ∷ []

module _ {F : Type 0} where
  unfoldable pub enqueue : Metric F → World F → World F
  enqueue m w =
      if ltb (length w.client.in_chan) w.client.max_batch_size
      then record w {
        client = record (w.client) { in_chan = w.client.in_chan ++ m ∷ [] };
        accepted = w.accepted ++ m ∷ [];
      }
      else w

module _ {F : Type 0} (append_float : F → Bytes) where
  -- A flush of a client that holds `more` besides what was accepted before.
  unfoldable pub flush : Attempt → List (Metric F) → Client F → World F → World F
  flush a more c w =
      let (c', batch) = flush_buffer append_float a c in
      record w { client = c'; accepted = w.accepted ++ more; batches = with_batch w.batches batch }

  unfoldable pub drain_and_flush : List (Option (Metric F)) → Attempt → World F → World F
  unfolding flush
  drain_and_flush arrivals a w = let (c, more) = drain_pending arrivals w.client in flush a more c w

  -- The way out of `Run`: the last flush, then what is deferred.
  unfoldable pub stop : List (Option (Metric F)) → Attempt → World F → World F
  unfolding drain_and_flush
  stop arrivals a w =
      let w' = drain_and_flush arrivals a w in
      record w' { client = close_conn (log_stats w'.client); returned = true }

  unfoldable pub read_into : List (Metric F) → Attempt → World F → World F
  unfolding flush
  read_into [] a w = w
  read_into (m ∷ chan) a w =
      let c : Client F = record (w.client) { in_chan = chan; buffer = w.client.buffer ++ m ∷ [] } in
      if leb c.max_batch_size (length c.buffer) then flush a [] c w else record w { client = c }

  unfoldable pub round : Input F → World F → World F
  unfolding enqueue stop read_into drain_and_flush flush
  round (enqueues m) w = enqueue m w
  round (cancelled arrivals a) w = stop arrivals a w
  round (reads a) w = read_into w.client.in_chan a w
  round (ticks a) w = flush a [] w.client w
  round stats w = record w { client = log_stats w.client }
  round (flush_requested arrivals a) w = drain_and_flush arrivals a w

  -- After `Run` has returned only the channel is left.
  unfoldable pub step : World F → Input F → World F
  unfolding round
  step w (enqueues m) = enqueue m w
  step w i = if w.returned then w else round i w

  unfoldable pub run : World F → List (Input F) → World F
  unfolding step
  run w [] = w
  run w (i ∷ rest) = run (step w i) rest

abbrev pub start : {F : Type 0} → Client F → World F
start c = record { client = c; accepted = []; batches = []; returned = false }
