-- ===== src/Bulk/Growth.antt =====
-- internal/db/db.go: the history of an inserter is only ever added to.
use statusengine_worker.Prelude.{
  Option, List, [], ◌∷◌, ◌++◌, ◌≡◌, refl, sym, ap, ◌∙◌, ltb, length, append-nil, append_assoc,
  if-either, leb,
}
use statusengine_worker.Bulk.{BulkInserter}
use statusengine_worker.Bulk.Retry.{Answer}
use statusengine_worker.Bulk.Flush.{
  Batch, Flushed, nothing, flushed, waiting, flush_buffer, drain_pending,
}
use statusengine_worker.Bulk.Run.{
  Input, enqueues, cancelled, reads, ticks, stats, flush_requested, paused_and_resumed,
  paused_and_cancelled, World, enqueue, settle, drain_and_flush, has_settled, stop, read_into,
  round, step, run,
}

module _ {P V : Type 0} where
  -- What `Enqueue` accepted, and the batches, come after those of before.
  pub record Grows (w w' : World P V) : Type 0 where
    pub more : List P
    pub accepted : w'.accepted ≡ w.accepted ++ more
    pub flushes : List (Batch P)
    pub batches : w'.batches ≡ w.batches ++ flushes

  pub Grows-refl : (w : World P V) → Grows w w
  Grows-refl w = record {
    more = [];
    accepted = sym (append-nil w.accepted);
    flushes = [];
    batches = sym (append-nil w.batches);
  }

  pub Grows-trans : (u v w : World P V) → Grows u v → Grows v w → Grows u w
  Grows-trans u v w g h = record {
    more = g.more ++ h.more;
    accepted =
        h.accepted ∙ (ap (λ xs. xs ++ h.more) g.accepted ∙ append_assoc u.accepted g.more h.more);
    flushes = g.flushes ++ h.flushes;
    batches =
        h.batches
        ∙ (ap (λ xs. xs ++ h.flushes) g.batches ∙ append_assoc u.batches g.flushes h.flushes);
  }

  settle-Grows :
      (w : World P V) (more : List P) (r : BulkInserter P V × Flushed P) → Grows w (settle w more r)
  unfolding settle
  settle-Grows w more (b, nothing) = record {
    more = more;
    accepted = refl;
    flushes = [];
    batches = sym (append-nil w.batches);
  }
  settle-Grows w more (b, flushed batch) = record {
    more = more;
    accepted = refl;
    flushes = batch ∷ [];
    batches = refl;
  }
  settle-Grows w more (b, waiting) = Grows-refl w

  pub enqueue-Grows : (p : P) (w : World P V) → Grows w (enqueue p w)
  unfolding enqueue
  enqueue-Grows p w =
      if-either (Grows w) (ltb (length w.inserter.in_chan) w.inserter.max_batch_size)
        (record {
          more = p ∷ [];
          accepted = refl;
          flushes = [];
          batches = sym (append-nil w.batches);
        })
        (Grows-refl w)

  drain_and_flush-Grows :
      (arrivals : List (Option P)) (answers : List Answer) (w : World P V)
      → Grows w (drain_and_flush arrivals answers w)
  unfolding drain_and_flush
  drain_and_flush-Grows arrivals answers w =
      let (b, more) = drain_pending arrivals w.inserter in
      settle-Grows w more (flush_buffer answers b)

  stop-Grows :
      (arrivals : List (Option P)) (answers : List Answer) (w : World P V)
      → Grows w (stop arrivals answers w)
  unfolding stop
  stop-Grows arrivals answers w =
      let g = drain_and_flush-Grows arrivals answers w in
      if-either (Grows w) (has_settled (flush_buffer answers (drain_pending arrivals w.inserter).0))
        (record { more = g.more; accepted = g.accepted; flushes = g.flushes; batches = g.batches })
        g

  read_into-Grows :
      (chan : List P) (answers : List Answer) (w : World P V) → Grows w (read_into chan answers w)
  unfolding read_into
  read_into-Grows [] answers w = Grows-refl w
  read_into-Grows (p ∷ chan) answers w =
      let b : BulkInserter P V = record (w.inserter) {
        in_chan = chan;
        buffer = w.inserter.buffer ++ p ∷ [];
      } in
      if-either (Grows w) (leb b.max_batch_size (length b.buffer))
        (settle-Grows w [] (flush_buffer answers b))
        (record {
          more = [];
          accepted = sym (append-nil w.accepted);
          flushes = [];
          batches = sym (append-nil w.batches);
        })

  round-Grows : (i : Input P) (w : World P V) → Grows w (round i w)
  unfolding round
  round-Grows (enqueues p) w = enqueue-Grows p w
  round-Grows (cancelled arrivals answers) w = stop-Grows arrivals answers w
  round-Grows (reads answers) w = read_into-Grows w.inserter.in_chan answers w
  round-Grows (ticks answers) w = settle-Grows w [] (flush_buffer answers w.inserter)
  round-Grows stats w = record {
    more = [];
    accepted = sym (append-nil w.accepted);
    flushes = [];
    batches = sym (append-nil w.batches);
  }
  round-Grows (flush_requested arrivals answers) w = drain_and_flush-Grows arrivals answers w
  round-Grows paused_and_resumed w = Grows-refl w
  round-Grows (paused_and_cancelled arrivals answers) w = stop-Grows arrivals answers w

  pub step-Grows : (w : World P V) (i : Input P) → Grows w (step w i)
  unfolding step
  step-Grows w (enqueues p) = enqueue-Grows p w
  step-Grows w i = if-either (Grows w) w.returned (Grows-refl w) (round-Grows i w)

  pub run-Grows : (w : World P V) (is : List (Input P)) → Grows w (run w is)
  unfolding run
  run-Grows w [] = Grows-refl w
  run-Grows w (i ∷ is) =
      Grows-trans w (step w i) (run (step w i) is) (step-Grows w i) (run-Grows (step w i) is)
