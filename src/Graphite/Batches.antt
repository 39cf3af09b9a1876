-- ===== src/Graphite/Batches.antt =====
-- What a flush does to the buffer and to the counters, whatever the network answers.
use statusengine_worker.Prelude.{
  ℕ, u64, ◌+◌, ◌≡◌, refl, sym, ap, true, false, Option, none, some, List, [], ◌∷◌, ◌++◌, Bytes,
  arith, append-nil, append_assoc, inl, inr, Bool-cases, if-either, length, ◌∙◌, if◌then◌else◌,
}
use statusengine_worker.Metrics.{Tick, graphite_written, graphite_dropped}
use statusengine_worker.Perfdata.Handler.{Metric}
use statusengine_worker.Graphite.{
  Client, Attempt, Event, wrote, close_conn, ensure_conn, dial_carbon, is_outlived,
}
use statusengine_worker.Graphite.Lines.{lines}
use statusengine_worker.Graphite.Flush.{
  FlushError, dial_failed, write_failed, Batch, write_lines, flush_metrics, record_drop, drop,
}

-- What the counters have been moved by.
abbrev pub written_by : List Tick → ℕ
written_by [] = 0
written_by (graphite_written n ∷ ts) = n + written_by ts
written_by (_ ∷ ts) = written_by ts

abbrev pub dropped_by : List Tick → ℕ
dropped_by [] = 0
dropped_by (graphite_dropped n ∷ ts) = n + dropped_by ts
dropped_by (_ ∷ ts) = dropped_by ts

module _ {F : Type 0} where
  -- Everything that left the buffer, oldest first, and how much of it was written or dropped.
  abbrev pub shipped : List (Batch F) → List (Metric F)
  shipped [] = []
  shipped (b ∷ bs) = b.metrics ++ shipped bs

  abbrev pub sent : Batch F → ℕ
  sent b = elim b.error [ none ↦ length b.metrics | some e ↦ 0 ]

  abbrev pub lost : Batch F → ℕ
  lost b = elim b.error [ none ↦ 0 | some e ↦ length b.metrics ]

  abbrev pub all_sent : List (Batch F) → ℕ
  all_sent [] = 0
  all_sent (b ∷ bs) = sent b + all_sent bs

  abbrev pub all_lost : List (Batch F) → ℕ
  all_lost [] = 0
  all_lost (b ∷ bs) = lost b + all_lost bs

  pub shipped-append :
      (xs : List (Batch F)) (b : Batch F) → shipped (xs ++ b ∷ []) ≡ shipped xs ++ b.metrics
  shipped-append [] b = append-nil b.metrics
  shipped-append (x ∷ xs) b = simp (shipped-append xs b, append_assoc)

  pub all_sent-append :
      (xs : List (Batch F)) (b : Batch F) → all_sent (xs ++ b ∷ []) ≡ all_sent xs + sent b
  all_sent-append [] b = omega arith
  all_sent-append (x ∷ xs) b = omega (arith, all_sent-append xs b)

  pub all_lost-append :
      (xs : List (Batch F)) (b : Batch F) → all_lost (xs ++ b ∷ []) ≡ all_lost xs + lost b
  all_lost-append [] b = omega arith
  all_lost-append (x ∷ xs) b = omega (arith, all_lost-append xs b)

  -- What the connection does not touch.
  pub record IsSame (c c' : Client F) : Type 0 where
    pub same_buffer : c'.buffer ≡ c.buffer
    pub same_chan : c'.in_chan ≡ c.in_chan
    pub same_size : c'.max_batch_size ≡ c.max_batch_size
    pub same_count : c'.processed ≡ c.processed
    pub same_ticks : c'.ticks ≡ c.ticks

  pub close_conn-IsSame : (c : Client F) → IsSame c (close_conn c)
  unfolding close_conn
  close_conn-IsSame c = record {
    same_buffer = ground arith;
    same_chan = ground arith;
    same_size = ground arith;
    same_count = ground arith;
    same_ticks = ground arith;
  }

  dial_carbon-IsSame : (a : Attempt) (d : Option ℕ) (c : Client F) → IsSame c (dial_carbon a d c).1
  unfolding dial_carbon
  dial_carbon-IsSame a none c = record {
    same_buffer = refl;
    same_chan = refl;
    same_size = refl;
    same_count = refl;
    same_ticks = refl;
  }
  dial_carbon-IsSame a (some t) c = record {
    same_buffer = refl;
    same_chan = refl;
    same_size = refl;
    same_count = refl;
    same_ticks = refl;
  }

  IsSame-trans : (c c' c'' : Client F) → IsSame c c' → IsSame c' c'' → IsSame c c''
  IsSame-trans c c' c'' s t = record {
    same_buffer = t.same_buffer ∙ s.same_buffer;
    same_chan = t.same_chan ∙ s.same_chan;
    same_size = t.same_size ∙ s.same_size;
    same_count = t.same_count ∙ s.same_count;
    same_ticks = t.same_ticks ∙ s.same_ticks;
  }

  IsSame-refl : (c : Client F) → IsSame c c
  IsSame-refl c = record {
    same_buffer = refl;
    same_chan = refl;
    same_size = refl;
    same_count = refl;
    same_ticks = refl;
  }

  ensure_conn-IsSame : (a : Attempt) (c : Client F) → IsSame c (ensure_conn a c).1
  unfolding ensure_conn
  ensure_conn-IsSame a c =
      let c' : Client F = if is_outlived a c then close_conn c else c in
      let kept : IsSame c c' =
        if-either (IsSame c) (is_outlived a c) (close_conn-IsSame c) (IsSame-refl c) in
      if-either (λ r. IsSame c r.1) c'.connected {x = (true, c')} {y = dial_carbon a a.dial c'} kept
        (IsSame-trans c c' _ kept (dial_carbon-IsSame a a.dial c'))

  -- What a flush does to the client, if it found something to send.
  pub record IsFlush (c c' : Client F) (b : Batch F) : Type 0 where
    pub emptied : c'.buffer ≡ []
    pub all_metrics : b.metrics ≡ c.buffer
    pub chan : c'.in_chan ≡ c.in_chan
    pub size : c'.max_batch_size ≡ c.max_batch_size
    pub counted : (k : ℕ) → c.processed ≡ u64 k → c'.processed ≡ u64 (k + sent b)
    pub written : written_by c'.ticks ≡ written_by c.ticks + sent b
    pub dropped : dropped_by c'.ticks ≡ dropped_by c.ticks + lost b

  abbrev pub Flushes : Client F → Client F × Option (Batch F) → Type 0
  Flushes c (c', none) = (c' ≡ c) × (c.buffer ≡ [])
  Flushes c (c', some b) = IsFlush c c' b

  -- A batch that is dropped, after which the connection may be closed.
  drop-IsFlush :
      (c c' d : Client F) (metrics : List (Metric F)) (events : List Event) (e : FlushError)
      → metrics ≡ c.buffer
      → IsSame c c'
      → IsSame (drop (length metrics) (record c' { wire = events })) d
      → IsFlush c (record d { buffer = [] }) (record { metrics = metrics; error = some e })
  unfolding record_drop
  drop-IsFlush c c' d metrics events e all s t = record {
    emptied = refl;
    all_metrics = all;
    chan = t.same_chan ∙ s.same_chan;
    size = t.same_size ∙ s.same_size;
    counted = λ k h. ground (arith, s.same_count, t.same_count);
    written = ap written_by t.same_ticks ∙ ground (arith, s.same_ticks);
    dropped = ap dropped_by t.same_ticks ∙ ground (arith, s.same_ticks);
  }

  module _ (append_float : F → Bytes) where
    write_lines-Flushes :
        (a : Attempt) (metrics : List (Metric F)) (c c' : Client F)
        → metrics ≡ c.buffer
        → IsSame c c'
        → Flushes c (write_lines append_float a metrics c')
    unfolding write_lines
    write_lines-Flushes a metrics c c' all s = elim (Bool-cases a.write_succeeds) [
      | inl ok ↦
          rw (ok, write_lines)
            (record {
              emptied = refl;
              all_metrics = all;
              chan = s.same_chan;
              size = s.same_size;
              counted = λ k e. ground (arith, s.same_count);
              written = ground (arith, s.same_ticks);
              dropped = ground (arith, s.same_ticks);
            })
      | inr broken ↦
          rw (broken, write_lines)
            (drop-IsFlush c c' _ metrics (wrote a.now (lines append_float metrics) false ∷ c'.wire)
              write_failed all s (close_conn-IsSame _))
    ]

    pub flush_metrics-Flushes :
        (a : Attempt) (metrics : List (Metric F)) (c : Client F)
        → metrics ≡ c.buffer
        → Flushes c (flush_metrics append_float a metrics c)
    unfolding flush_metrics
    flush_metrics-Flushes a [] c all = (refl, sym all)
    flush_metrics-Flushes a (m ∷ more) c all = elim (Bool-cases (ensure_conn a c).0) [
      | inl live ↦
          rw (live, flush_metrics)
            (write_lines-Flushes a (m ∷ more) c (ensure_conn a c).1 all (ensure_conn-IsSame a c))
      | inr dead ↦
          rw (dead, flush_metrics)
            (drop-IsFlush c (ensure_conn a c).1 _ (m ∷ more) (ensure_conn a c).1.wire dial_failed
              all (ensure_conn-IsSame a c) (IsSame-refl _))
    ]
