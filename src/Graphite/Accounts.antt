-- ===== src/Graphite/Accounts.antt =====
-- No metric that `Enqueue` accepted is lost without being counted, repeated or reordered.
use statusengine_worker.Prelude.{
  u64, ◌≡◌, refl, sym, ap, Bool, true, Option, none, some, List, [], ◌∷◌, ◌++◌, Bytes, arith,
  append-nil, append_assoc, if-either, length, leb, ◌∙◌, ◌≡⟨◌⟩◌, ◌∎,
}
use statusengine_worker.Perfdata.Handler.{Metric}
use statusengine_worker.Bulk.Flush.{drain}
use statusengine_worker.Bulk.Conservation.{drain_lem}
use statusengine_worker.Graphite.{Client, ClientOptions, Attempt, close_conn, new_client}
use statusengine_worker.Graphite.Flush.{Batch, flush_buffer, drain_pending, log_stats}
use statusengine_worker.Graphite.Run.{
  Input, enqueues, cancelled, reads, ticks, stats, flush_requested, World, with_batch, enqueue,
  flush, drain_and_flush, stop, read_into, round, step, run, start,
}
use statusengine_worker.Graphite.Batches.{
  written_by, dropped_by, shipped, all_sent, all_lost, shipped-append, all_sent-append,
  all_lost-append, IsSame, Flushes, close_conn-IsSame, flush_metrics-Flushes,
}

module _ {F : Type 0} (append_float : F → Bytes) where
  pub record IsAccounted (w : World F) : Type 0 where
    pub balance : w.accepted ≡ shipped w.batches ++ (w.client.buffer ++ w.client.in_chan)
    pub total : w.client.processed ≡ u64 (all_sent w.batches)
    pub written : written_by w.client.ticks ≡ all_sent w.batches
    pub dropped : dropped_by w.client.ticks ≡ all_lost w.batches

  -- Of a client that is about to flush, and that also holds `more`.
  record IsReady (w : World F) (more : List (Metric F)) (c : Client F) : Type 0 where
    holds : w.accepted ++ more ≡ shipped w.batches ++ (c.buffer ++ c.in_chan)
    same_total : c.processed ≡ w.client.processed
    same_ticks : c.ticks ≡ w.client.ticks

  settle-IsAccounted :
      (more : List (Metric F)) (c : Client F) (w : World F) (r : Client F × Option (Batch F))
      → IsAccounted w
      → IsReady w more c
      → Flushes c r
      → IsAccounted (record w {
        client = r.0;
        accepted = w.accepted ++ more;
        batches = with_batch w.batches r.1;
      })
  settle-IsAccounted more c w (c', none) i ready f = record {
    balance = ground (arith, i, ready, f);
    total = ground (arith, i, ready, f);
    written = ground (arith, i, ready, f);
    dropped = ground (arith, i, ready, f);
  }
  settle-IsAccounted more c w (c', some b) i ready f = record {
    balance = ground (
      arith,
      ready.holds,
      f.emptied,
      f.all_metrics,
      f.chan,
      shipped-append w.batches b,
      append_assoc (shipped w.batches) c.buffer c.in_chan,
    );
    total =
        f.counted (all_sent w.batches) (ready.same_total ∙ i.total)
        ∙ ap u64 (sym (all_sent-append w.batches b));
    written = f.written ∙ ground (arith, ready.same_ticks, i.written, all_sent-append w.batches b);
    dropped = f.dropped ∙ ground (arith, ready.same_ticks, i.dropped, all_lost-append w.batches b);
  }

  same-IsAccounted :
      (w : World F) (d : Client F) (over : Bool)
      → IsAccounted w
      → IsSame w.client d
      → IsAccounted (record w { client = d; returned = over })
  same-IsAccounted w d over i s = record {
    balance = ground (arith, i.balance, s);
    total = s.same_count ∙ i.total;
    written = ap written_by s.same_ticks ∙ i.written;
    dropped = ap dropped_by s.same_ticks ∙ i.dropped;
  }

  flush-IsAccounted :
      (a : Attempt) (more : List (Metric F)) (c : Client F) (w : World F)
      → IsAccounted w
      → IsReady w more c
      → IsAccounted (flush append_float a more c w)
  unfolding flush flush_buffer
  flush-IsAccounted a more c w i ready =
      settle-IsAccounted more c w _ i ready (flush_metrics-Flushes append_float a c.buffer c refl)

  drain_and_flush-IsAccounted :
      (arrivals : List (Option (Metric F))) (a : Attempt) (w : World F)
      → IsAccounted w
      → IsAccounted (drain_and_flush append_float arrivals a w)
  unfolding drain_and_flush drain_pending
  drain_and_flush-IsAccounted arrivals a w i =
      let more = (drain w.client.buffer w.client.in_chan arrivals).1 in
      flush-IsAccounted a more _ w i (record {
        holds =
            w.accepted ++ more
            ≡⟨ ap (λ xs. xs ++ more) i.balance ⟩
              (shipped w.batches ++ (w.client.buffer ++ w.client.in_chan)) ++ more
            ≡⟨ (simp
                (append_assoc, append-nil, drain_lem arrivals w.client.buffer w.client.in_chan)) ⟩
              shipped w.batches ++ ((drain w.client.buffer w.client.in_chan arrivals).0 ++ []) ∎;
        same_total = refl;
        same_ticks = refl;
      })

  log_stats-IsSame : (c : Client F) → IsSame c (log_stats c)
  unfolding log_stats
  log_stats-IsSame c = record {
    same_buffer = ground arith;
    same_chan = ground arith;
    same_size = ground arith;
    same_count = ground arith;
    same_ticks = ground arith;
  }

  read_into-IsAccounted :
      (chan : List (Metric F)) (a : Attempt) (w : World F)
      → chan ≡ w.client.in_chan
      → IsAccounted w
      → IsAccounted (read_into append_float chan a w)
  unfolding read_into
  read_into-IsAccounted [] a w e i = i
  read_into-IsAccounted (m ∷ chan) a w e i =
      let c : Client F = record (w.client) { in_chan = chan; buffer = w.client.buffer ++ m ∷ [] } in
      let moved : w.accepted ≡ shipped w.batches ++ (c.buffer ++ c.in_chan) =
        ground (arith, i.balance, append_assoc w.client.buffer (m ∷ []) chan) in
      if-either IsAccounted (leb c.max_batch_size (length c.buffer))
        (flush-IsAccounted a [] c w i
          (record { holds = append-nil w.accepted ∙ moved; same_total = refl; same_ticks = refl }))
        (record { balance = moved; total = i.total; written = i.written; dropped = i.dropped })

  enqueue-IsAccounted : (m : Metric F) (w : World F) → IsAccounted w → IsAccounted (enqueue m w)
  unfolding enqueue
  enqueue-IsAccounted m w i = record {
    balance = ground (
      arith,
      i.balance,
      append_assoc (shipped w.batches) (w.client.buffer ++ w.client.in_chan) (m ∷ []),
      append_assoc w.client.buffer w.client.in_chan (m ∷ []),
    );
    total = ground (arith, i.total);
    written = ground (arith, i.written);
    dropped = ground (arith, i.dropped);
  }

  round-IsAccounted :
      (i : Input F) (w : World F) → IsAccounted w → IsAccounted (round append_float i w)
  unfolding round stop
  round-IsAccounted (enqueues m) w i = enqueue-IsAccounted m w i
  round-IsAccounted (cancelled arrivals a) w i =
      let w' = drain_and_flush append_float arrivals a w in
      let i' = drain_and_flush-IsAccounted arrivals a w i in
      let logged : World F = record w' { client = log_stats w'.client } in
      same-IsAccounted logged (close_conn logged.client) true
        (same-IsAccounted w' logged.client w'.returned i' (log_stats-IsSame w'.client))
        (close_conn-IsSame logged.client)
  round-IsAccounted (reads a) w i = read_into-IsAccounted w.client.in_chan a w refl i
  round-IsAccounted (ticks a) w i =
      flush-IsAccounted a [] w.client w i
        (record { holds = append-nil w.accepted ∙ i.balance; same_total = refl; same_ticks = refl })
  round-IsAccounted stats w i = same-IsAccounted w _ w.returned i (log_stats-IsSame w.client)
  round-IsAccounted (flush_requested arrivals a) w i = drain_and_flush-IsAccounted arrivals a w i

  step-IsAccounted :
      (w : World F) (i : Input F) → IsAccounted w → IsAccounted (step append_float w i)
  unfolding step
  step-IsAccounted w (enqueues m) c = enqueue-IsAccounted m w c
  step-IsAccounted w i c =
      if-either IsAccounted w.returned {x = w} {y = round append_float i w} c
        (round-IsAccounted i w c)

  pub run-IsAccounted :
      (w : World F) (is : List (Input F)) → IsAccounted w → IsAccounted (run append_float w is)
  unfolding run
  run-IsAccounted w [] c = c
  run-IsAccounted w (i ∷ is) c = run-IsAccounted (step append_float w i) is (step-IsAccounted w i c)

  -- Over any rounds of `Run` and calls of `Enqueue`, from a new client, and whatever the network
  -- answers: the metrics of all batches, then the buffer, then the channel are exactly what `Enqueue`
  -- accepted, in the order of acceptance; the metrics of the batches that were written are what the
  -- counter of written metrics shows, and modulo 2 ^ 64 the total of the client; those of the
  -- batches that were given up are what the counter of dropped metrics shows.
  pub client_accounts :
      (addr : Bytes) (opts : List (ClientOptions → ClientOptions)) (is : List (Input F))
      → let w = run append_float (start (new_client addr opts)) is in
        (w.accepted ≡ shipped w.batches ++ (w.client.buffer ++ w.client.in_chan))
        × (written_by w.client.ticks ≡ all_sent w.batches)
        × (w.client.processed ≡ u64 (all_sent w.batches))
        × (dropped_by w.client.ticks ≡ all_lost w.batches)
  unfolding new_client
  client_accounts addr opts is =
      let i =
        run-IsAccounted (start (new_client addr opts)) is
          (record { balance = refl; total = refl; written = refl; dropped = refl }) in
      (i.balance, i.written, i.total, i.dropped)
