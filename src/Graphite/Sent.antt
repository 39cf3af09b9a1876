-- ===== src/Graphite/Sent.antt =====
-- Over a whole run: the discipline of the connections, and what Carbon is sent.
use statusengine_worker.Prelude.{
  ℕ, ◌≡◌, refl, sym, ap, ◌∙◌, Bool, true, false, Option, none, some, List, [], ◌∷◌, ◌++◌, Bytes,
  arith, append-nil, append_assoc, if-either, if-cases, length, leb, ltb, if◌then◌else◌,
}
use statusengine_worker.Perfdata.Handler.{Metric}
use statusengine_worker.Graphite.{Client, ClientOptions, Attempt, new_client}
use statusengine_worker.Graphite.Flush.{Batch, flush_buffer, drain_pending, log_stats}
use statusengine_worker.Graphite.Run.{
  Input, enqueues, cancelled, reads, ticks, stats, flush_requested, World, with_batch, enqueue,
  flush, drain_and_flush, stop, read_into, round, step, run, start,
}
use statusengine_worker.Graphite.Connection.{
  Link, down, up, link_of, IsProper, writes, IsLinked, closed-IsLinked, close_conn-writes,
  close_conn-shut,
}
use statusengine_worker.Graphite.Writes.{attempted, attempted_by, flush_metrics-Flushed}

module _ {F : Type 0} (append_float : F → Bytes) where
  abbrev pub all_attempted : List (Batch F) → List (Bytes × Bool)
  all_attempted [] = []
  all_attempted (b ∷ bs) = attempted append_float b ++ all_attempted bs

  all_attempted-append :
      (bs : List (Batch F)) (r : Option (Batch F))
      → all_attempted (with_batch bs r) ≡ all_attempted bs ++ attempted_by append_float r
  all_attempted-append bs none = sym (append-nil _)
  all_attempted-append [] (some b) = append-nil _
  all_attempted-append (x ∷ bs) (some b) =
      ap (λ ws. attempted append_float x ++ ws) (all_attempted-append bs (some b))
      ∙ sym (append_assoc (attempted append_float x) (all_attempted bs) _)

module _ {F : Type 0} (append_float : F → Bytes) (lifetime : ℕ) where
  pub record IsDisciplined (w : World F) : Type 0 where
    pub is_linked : IsLinked lifetime w.client
    pub sends : writes w.client.wire ≡ all_attempted append_float w.batches
    pub disconnected : w.returned ≡ true → w.client.connected ≡ false

  -- A change to the client that leaves its connection alone.
  record IsAside (c c' : Client F) : Type 0 where
    same_lifetime : c'.conn_max_lifetime ≡ c.conn_max_lifetime
    same_wire : c'.wire ≡ c.wire
    same_state : c'.connected ≡ c.connected
    same_since : c'.conn_since ≡ c.conn_since

  aside-IsLinked : (c c' : Client F) → IsAside c c' → IsLinked lifetime c → IsLinked lifetime c'
  aside-IsLinked c c' s i = record {
    same_lifetime = s.same_lifetime ∙ i.same_lifetime;
    proper = rw s.same_wire i.proper;
    linked = ap link_of s.same_wire ∙ ground (arith, i.linked, s.same_state, s.same_since);
  }

  aside-IsDisciplined :
      (w : World F) (c' : Client F) (accepted : List (Metric F))
      → IsAside w.client c'
      → IsDisciplined w
      → IsDisciplined (record w { client = c'; accepted = accepted })
  aside-IsDisciplined w c' accepted s d = record {
    is_linked = aside-IsLinked w.client c' s d.is_linked;
    sends = ap writes s.same_wire ∙ d.sends;
    disconnected = λ over. s.same_state ∙ d.disconnected over;
  }

  flush-IsDisciplined :
      (a : Attempt) (more : List (Metric F)) (c : Client F) (w : World F)
      → w.returned ≡ false
      → IsAside w.client c
      → IsDisciplined w
      → IsDisciplined (flush append_float a more c w)
  unfolding flush flush_buffer
  flush-IsDisciplined a more c w running s d =
      let f =
        flush_metrics-Flushed lifetime append_float a c.buffer c
          (aside-IsLinked w.client c s d.is_linked) in
      record {
        is_linked = f.stays;
        sends =
            f.sends
            ∙ (ap (λ ws. ws ++ attempted_by append_float (flush_buffer append_float a c).1)
                  (ap writes s.same_wire ∙ d.sends)
                ∙ sym (all_attempted-append append_float w.batches _));
        disconnected = λ over. cc running;
      }

  drain_and_flush-IsDisciplined :
      (arrivals : List (Option (Metric F))) (a : Attempt) (w : World F)
      → w.returned ≡ false
      → IsDisciplined w
      → IsDisciplined (drain_and_flush append_float arrivals a w)
  unfolding drain_and_flush drain_pending
  drain_and_flush-IsDisciplined arrivals a w running d =
      flush-IsDisciplined a _ _ w running
        (record { same_lifetime = refl; same_wire = refl; same_state = refl; same_since = refl }) d

  log_stats-IsAside : (c : Client F) → IsAside c (log_stats c)
  unfolding log_stats
  log_stats-IsAside c = record {
    same_lifetime = ground arith;
    same_wire = ground arith;
    same_state = ground arith;
    same_since = ground arith;
  }

  stop-IsDisciplined :
      (arrivals : List (Option (Metric F))) (a : Attempt) (w : World F)
      → w.returned ≡ false
      → IsDisciplined w
      → IsDisciplined (stop append_float arrivals a w)
  unfolding stop
  stop-IsDisciplined arrivals a w running d =
      let w' = drain_and_flush append_float arrivals a w in
      let d' = drain_and_flush-IsDisciplined arrivals a w running d in
      let c = log_stats w'.client in
      let s = log_stats-IsAside w'.client in
      record {
        is_linked = closed-IsLinked lifetime c (aside-IsLinked w'.client c s d'.is_linked);
        sends = close_conn-writes lifetime c ∙ (ap writes s.same_wire ∙ d'.sends);
        disconnected = λ over. close_conn-shut lifetime c;
      }

  read_into-IsDisciplined :
      (chan : List (Metric F)) (a : Attempt) (w : World F)
      → w.returned ≡ false
      → IsDisciplined w
      → IsDisciplined (read_into append_float chan a w)
  unfolding read_into
  read_into-IsDisciplined [] a w running d = d
  read_into-IsDisciplined (m ∷ chan) a w running d =
      let c : Client F = record (w.client) { in_chan = chan; buffer = w.client.buffer ++ m ∷ [] } in
      let s : IsAside w.client c = record {
        same_lifetime = refl;
        same_wire = refl;
        same_state = refl;
        same_since = refl;
      } in
      if-either IsDisciplined (leb c.max_batch_size (length c.buffer))
        (flush-IsDisciplined a [] c w running s d) (aside-IsDisciplined w c w.accepted s d)

  enqueue-IsDisciplined :
      (m : Metric F) (w : World F) → IsDisciplined w → IsDisciplined (enqueue m w)
  unfolding enqueue
  enqueue-IsDisciplined m w d =
      if-either IsDisciplined (ltb (length w.client.in_chan) w.client.max_batch_size)
        (aside-IsDisciplined w _ _
          (record { same_lifetime = refl; same_wire = refl; same_state = refl; same_since = refl })
          d)
        d

  round-IsDisciplined :
      (i : Input F) (w : World F)
      → w.returned ≡ false
      → IsDisciplined w
      → IsDisciplined (round append_float i w)
  unfolding round
  round-IsDisciplined (enqueues m) w running d = enqueue-IsDisciplined m w d
  round-IsDisciplined (cancelled arrivals a) w running d = stop-IsDisciplined arrivals a w running d
  round-IsDisciplined (reads a) w running d = read_into-IsDisciplined w.client.in_chan a w running d
  round-IsDisciplined (ticks a) w running d =
      flush-IsDisciplined a [] w.client w running
        (record { same_lifetime = refl; same_wire = refl; same_state = refl; same_since = refl }) d
  round-IsDisciplined stats w running d =
      aside-IsDisciplined w (log_stats w.client) w.accepted (log_stats-IsAside w.client) d
  round-IsDisciplined (flush_requested arrivals a) w running d =
      drain_and_flush-IsDisciplined arrivals a w running d

  step-IsDisciplined :
      (w : World F) (i : Input F) → IsDisciplined w → IsDisciplined (step append_float w i)
  unfolding step
  step-IsDisciplined w (enqueues m) d = enqueue-IsDisciplined m w d
  step-IsDisciplined w i d =
      if-cases IsDisciplined w.returned {x = w} {y = round append_float i w} (λ over. d)
        (λ running. round-IsDisciplined i w running d)

  run-IsDisciplined :
      (w : World F) (is : List (Input F)) → IsDisciplined w → IsDisciplined (run append_float w is)
  unfolding run
  run-IsDisciplined w [] d = d
  run-IsDisciplined w (i ∷ is) d =
      run-IsDisciplined (step append_float w i) is (step-IsDisciplined w i d)

module _ {F : Type 0} (append_float : F → Bytes) where
  -- Of a new client, over any rounds of `Run` and calls of `Enqueue`, and whatever the network
  -- answers: it dials only without a connection, closes only one that it has, and writes only to one
  -- that is open, on which no write has failed, and which at the start of the flush was younger than
  -- the lifetime, if that is not 0. When `Run` has returned, no connection is open. The writes are,
  -- in order, the lines of the batches that were sent or whose write failed.
  pub run-IsProper :
      (addr : Bytes) (opts : List (ClientOptions → ClientOptions)) (is : List (Input F))
      → let w = run append_float (start (new_client addr opts)) is in
        IsProper (new_client {F = F} addr opts).conn_max_lifetime w.client.wire
        × ((if w.returned then link_of w.client.wire else down) ≡ down)
        × (writes w.client.wire ≡ all_attempted append_float w.batches)
  unfolding new_client
  run-IsProper addr opts is =
      let w = run append_float (start (new_client addr opts)) is in
      let d =
        run-IsDisciplined append_float (new_client {F = F} addr opts).conn_max_lifetime
          (start (new_client addr opts)) is
          (record {
            is_linked = record { same_lifetime = refl; proper = tt; linked = refl };
            sends = refl;
            disconnected = λ over. refl;
          }) in
      (
        d.is_linked.proper,
        if-cases (λ (link : Link). link ≡ down) w.returned
            (λ over.
              d.is_linked.linked
              ∙ ap (λ (b : Bool). if b then up w.client.conn_since else down) (d.disconnected over))
            (λ running. refl),
        d.sends,
      )
