-- ===== src/Bulk/Conservation.antt =====
-- No item that `Enqueue` accepted is lost, repeated or reordered on its way into a batch.
use statusengine_worker.Prelude.{
  suc, ◌≤◌, ◌≡◌, refl, sym, ap, Option, none, some, List, [], ◌∷◌, ◌++◌, arith, append-nil,
  append_assoc, inl, inr, Bool-cases, if-either, length, ◌==◌, ◌*◌, ◌∙◌, ◌≡⟨◌⟩◌, ◌∎,
}
use statusengine_worker.Metrics.{Tick}
use statusengine_worker.Bulk.{BulkInserter}
use statusengine_worker.Bulk.Statement.{build_insert}
use statusengine_worker.Bulk.Retry.{Answer, Outcome, written, failed, blocked, exec_with_retry}
use statusengine_worker.Bulk.Flush.{
  Batch, Flushed, nothing, flushed, waiting, flush_items, flush_buffer, after_exec, drain,
  drain_pending, log_stats,
}
use statusengine_worker.Bulk.Run.{
  Input, enqueues, cancelled, reads, ticks, stats, flush_requested, paused_and_resumed,
  paused_and_cancelled, World, enqueue, settle, drain_and_flush, stop, read_into, round, step, run,
  start,
}

-- Everything that left the buffer, oldest first.
abbrev pub shipped : {P : Type 0} → List (Batch P) → List P
shipped [] = []
shipped (b ∷ bs) = b.rows ++ shipped bs

pub shipped-append_all :
    {P : Type 0} (xs ys : List (Batch P)) → shipped (xs ++ ys) ≡ shipped xs ++ shipped ys
shipped-append_all [] ys = refl
shipped-append_all (x ∷ xs) ys = simp (shipped-append_all xs ys, append_assoc)

shipped-append :
    {P : Type 0} (xs : List (Batch P)) (b : Batch P) → shipped (xs ++ b ∷ []) ≡ shipped xs ++ b.rows
shipped-append [] b = append-nil b.rows
shipped-append (x ∷ xs) b = simp (shipped-append xs b, append_assoc)

pub drain_lem :
    {P : Type 0} (arrivals : List (Option P)) (buffer chan : List P)
    → let (buffer', accepted) = drain buffer chan arrivals in buffer' ≡ buffer ++ (chan ++ accepted)
unfolding drain
drain_lem [] buffer chan = simp append-nil
drain_lem (a ∷ rest) buffer [] = simp append-nil
drain_lem (none ∷ rest) buffer (x ∷ chan) =
    drain_lem rest (buffer ++ x ∷ []) chan ∙ append_assoc buffer (x ∷ []) _
drain_lem (some y ∷ rest) buffer (x ∷ chan) =
    let (buffer', accepted) = drain (buffer ++ x ∷ []) (chan ++ y ∷ []) rest in
    drain_lem rest (buffer ++ x ∷ []) (chan ++ y ∷ []) ∙ simp append_assoc

module _ {P V : Type 0} where
  -- What a flush does to the buffer, for each thing that may become of it.
  pub record IsFlush (b b' : BulkInserter P V) (rows : List P) : Type 0 where
    pub emptied : b'.buffer ≡ []
    pub all_rows : rows ≡ b.buffer
    pub same_chan : b'.in_chan ≡ b.in_chan
    pub same_size : b'.max_batch_size ≡ b.max_batch_size
    pub some_rows : 1 ≤ length rows

  abbrev pub Flushes : BulkInserter P V → BulkInserter P V × Flushed P → Type 0
  Flushes b (b', nothing) = (b' ≡ b) × (b.buffer ≡ [])
  Flushes b (b', flushed batch) = IsFlush b b' batch.rows
  Flushes b (b', waiting) = Unit

  pub record IsFlushed (b : BulkInserter P V) (r : BulkInserter P V × Flushed P) : Type 0 where
    pub shape : Flushes b r

  after_exec-Flushes :
      (b : BulkInserter P V) (items : List P) (out : Outcome) (ts : List Tick)
      → items ≡ b.buffer
      → 1 ≤ length items
      → IsFlushed b (after_exec (record b { ticks = ts }) items out)
  unfolding after_exec
  after_exec-Flushes b items written ts e h = record {
    shape = record {
      emptied = refl;
      all_rows = e;
      same_chan = refl;
      same_size = refl;
      some_rows = h;
    };
  }
  after_exec-Flushes b items (failed x) ts e h = record {
    shape = record {
      emptied = refl;
      all_rows = e;
      same_chan = refl;
      same_size = refl;
      some_rows = h;
    };
  }
  after_exec-Flushes b items blocked ts e h = record { shape = tt }

  flush_items-Flushes :
      (answers : List Answer) (b : BulkInserter P V) (items : List P)
      → items ≡ b.buffer
      → IsFlushed b (flush_items answers b items)
  unfolding flush_items
  flush_items-Flushes answers b [] e = record { shape = (refl, sym e) }
  flush_items-Flushes answers b (item ∷ more) e =
      let (out, r) = exec_with_retry answers b.ticks in
      let h : 1 ≤ suc (length more) = omega arith in
      let kept = after_exec-Flushes b (item ∷ more) out r.ticks e h in
      elim (Bool-cases
        (length (build_insert b (item ∷ more)).1 == suc (length more) * length b.columns)) [
          | inl fits ↦ rw (fits, flush_items) kept
          | inr differs ↦
              rw (differs, flush_items)
                (record {
                  shape = record {
                    emptied = refl;
                    all_rows = e;
                    same_chan = refl;
                    same_size = refl;
                    some_rows = h;
                  };
                })
        ]

  pub flush_buffer-Flushes :
      (answers : List Answer) (b : BulkInserter P V) → IsFlushed b (flush_buffer answers b)
  unfolding flush_buffer
  flush_buffer-Flushes answers b = flush_items-Flushes answers b b.buffer refl

  -- Every accepted item is in a batch, in the buffer or in the channel, in the order of acceptance.
  pub record Conserved (w : World P V) : Type 0 where
    pub balance : w.accepted ≡ shipped w.batches ++ (w.inserter.buffer ++ w.inserter.in_chan)

  -- A flush of an inserter that holds what was accepted.
  settle-Conserved :
      (w : World P V) (more : List P) (b : BulkInserter P V) (r : BulkInserter P V × Flushed P)
      → Conserved w
      → w.accepted ++ more ≡ shipped w.batches ++ (b.buffer ++ b.in_chan)
      → IsFlushed b r
      → Conserved (settle w more r)
  unfolding settle
  settle-Conserved w more b (b', nothing) c e f = ground arith
  settle-Conserved w more b (b', flushed batch) c e f =
      ground
        (arith, shipped-append w.batches batch, append_assoc (shipped w.batches) b.buffer b.in_chan)
  settle-Conserved w more b (b', waiting) c e f = c

  drain_pending-Conserved :
      (arrivals : List (Option P)) (w : World P V)
      → Conserved w
      → let (b, more) = drain_pending arrivals w.inserter in
        w.accepted ++ more ≡ shipped w.batches ++ (b.buffer ++ b.in_chan)
  unfolding drain_pending
  drain_pending-Conserved arrivals w c =
      let more = (drain w.inserter.buffer w.inserter.in_chan arrivals).1 in
      w.accepted ++ more
      ≡⟨ ap (λ xs. xs ++ more) c.balance ⟩
        (shipped w.batches ++ (w.inserter.buffer ++ w.inserter.in_chan)) ++ more
      ≡⟨ (simp
          (append_assoc, append-nil, drain_lem arrivals w.inserter.buffer w.inserter.in_chan)) ⟩
        shipped w.batches ++ ((drain w.inserter.buffer w.inserter.in_chan arrivals).0 ++ []) ∎

  drain_and_flush-Conserved :
      (arrivals : List (Option P)) (answers : List Answer) (w : World P V)
      → Conserved w
      → Conserved (drain_and_flush arrivals answers w)
  unfolding drain_and_flush drain_pending
  drain_and_flush-Conserved arrivals answers w c =
      settle-Conserved w _ (drain_pending arrivals w.inserter).0 _ c
        (drain_pending-Conserved arrivals w c) (flush_buffer-Flushes answers _)

  pub log_stats-same :
      (b : BulkInserter P V)
      → ((log_stats b).buffer ≡ b.buffer)
        × ((log_stats b).in_chan ≡ b.in_chan)
        × ((log_stats b).max_batch_size ≡ b.max_batch_size)
  unfolding log_stats
  log_stats-same b = ground arith

  stop-Conserved :
      (arrivals : List (Option P)) (answers : List Answer) (w : World P V)
      → Conserved w
      → Conserved (stop arrivals answers w)
  unfolding stop
  stop-Conserved arrivals answers w c =
      let c' = drain_and_flush-Conserved arrivals answers w c in
      ground (arith, c', log_stats-same (drain_and_flush arrivals answers w).inserter)

  read_into-Conserved :
      (chan : List P) (answers : List Answer) (w : World P V)
      → chan ≡ w.inserter.in_chan
      → Conserved w
      → Conserved (read_into chan answers w)
  unfolding read_into
  read_into-Conserved [] answers w e c = c
  read_into-Conserved (p ∷ chan) answers w e c =
      let b : BulkInserter P V = record (w.inserter) {
        in_chan = chan;
        buffer = w.inserter.buffer ++ p ∷ [];
      } in
      let moved : w.accepted ++ [] ≡ shipped w.batches ++ (b.buffer ++ b.in_chan) =
        ground (arith, append-nil w.accepted, append_assoc w.inserter.buffer (p ∷ []) chan) in
      ground (
        arith,
        append-nil w.accepted,
        settle-Conserved w [] b (flush_buffer answers b) c moved (flush_buffer-Flushes answers b),
      )

  pub enqueue-Conserved : (p : P) (w : World P V) → Conserved w → Conserved (enqueue p w)
  unfolding enqueue
  enqueue-Conserved p w c = ground (
    arith,
    append_assoc (shipped w.batches) (w.inserter.buffer ++ w.inserter.in_chan) (p ∷ []),
    append_assoc w.inserter.buffer w.inserter.in_chan (p ∷ []),
  )

  round-Conserved : (i : Input P) (w : World P V) → Conserved w → Conserved (round i w)
  unfolding round
  round-Conserved (enqueues p) w c = enqueue-Conserved p w c
  round-Conserved (cancelled arrivals answers) w c = stop-Conserved arrivals answers w c
  round-Conserved (reads answers) w c = read_into-Conserved w.inserter.in_chan answers w refl c
  round-Conserved (ticks answers) w c =
      settle-Conserved w [] w.inserter (flush_buffer answers w.inserter) c
        (append-nil w.accepted ∙ c.balance) (flush_buffer-Flushes answers w.inserter)
  round-Conserved stats w c = ground (arith, log_stats-same w.inserter)
  round-Conserved (flush_requested arrivals answers) w c =
      drain_and_flush-Conserved arrivals answers w c
  round-Conserved paused_and_resumed w c = c
  round-Conserved (paused_and_cancelled arrivals answers) w c = stop-Conserved arrivals answers w c

  step-Conserved : (w : World P V) (i : Input P) → Conserved w → Conserved (step w i)
  unfolding step
  step-Conserved w (enqueues p) c = enqueue-Conserved p w c
  step-Conserved w i c =
      if-either Conserved w.returned {x = w} {y = round i w} c (round-Conserved i w c)

  pub run-Conserved : (w : World P V) (is : List (Input P)) → Conserved w → Conserved (run w is)
  unfolding run
  run-Conserved w [] c = c
  run-Conserved w (i ∷ is) c = run-Conserved (step w i) is (step-Conserved w i c)

  -- Over any rounds of `Run` and calls of `Enqueue`, from an inserter that holds nothing: the rows
  -- of all batches, then the buffer, then the channel are exactly what `Enqueue` accepted, in the
  -- order of acceptance.
  pub run_accounts :
      (b : BulkInserter P V) (is : List (Input P))
      → b.buffer ≡ []
      → b.in_chan ≡ []
      → let w = run (start b) is in
        w.accepted ≡ shipped w.batches ++ (w.inserter.buffer ++ w.inserter.in_chan)
  run_accounts b is empty quiet =
      (run-Conserved (start b) is (record { balance = ground arith })).balance
