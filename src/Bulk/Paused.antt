-- ===== src/Bulk/Paused.antt =====
-- internal/db/db.go: `Flush` and `WithPaused`. Which of two ready cases a `select` takes is an input,
-- as are the rounds of `Run` and the `Enqueue` calls that come before the flush, between the flush and
-- the pause, and during the pause.
use statusengine_worker.Prelude.{
  ◌≡◌, refl, sym, ap, ◌∙◌, Bool, true, false, not, ◌||◌, Option, List, [], ◌∷◌, ◌++◌, arith,
  append-nil, append_assoc, subst, if◌then◌else◌, if-cases, ltb, length, ◌⊎◌, inl, inr, is_some,
  none, some,
}
use statusengine_worker.Bulk.{BulkInserter}
use statusengine_worker.Bulk.Retry.{Answer}
use statusengine_worker.Bulk.Flush.{
  Flushed, nothing, flushed, waiting, FlushResult, stored, misaligned, refused, flush_buffer,
  drain_pending,
}
use statusengine_worker.Bulk.Run.{
  Input, flush_requested, paused_and_resumed, paused_and_cancelled, World, enqueue, settle,
  drain_and_flush, round, step, run,
}
use statusengine_worker.Bulk.Growth.{Grows, Grows-trans, step-Grows, run-Grows}
use statusengine_worker.Bulk.Conservation.{
  shipped, shipped-append_all, Conserved, run-Conserved, Flushes, flush_buffer-Flushes,
}

-- What the caller of `Flush` gets. A flush that still waits for MySQL sends nothing.
pub data Reply : Type 0 where
  no_reply replied_ok : Reply
  replied_error : FlushResult → Reply

-- A call of `Flush`: the rounds and `Enqueue` calls while it waits for its request to be taken, and
-- whether it is, before the context is done.
pub record FlushCall (P : Type 0) : Type 0 where
  pub rounds_before : List (Input P)
  pub request_sent : Bool
  pub arrivals : List (Option P)
  pub answers : List Answer
  pub reply_read : Bool

-- A call of `WithPaused`: what happens between the reply to its flush and the pause, what `Enqueue` is
-- called with during the pause, and how the drain and the flush go if a shutdown interrupts it.
pub record PauseCall (P : Type 0) : Type 0 where
  pub flush_call : FlushCall P
  pub rounds_between : List (Input P)
  pub request_sent : Bool
  pub paused_seen : Bool
  pub enqueued_meanwhile : List P
  pub interrupted : Option (List (Option P) × List Answer)

-- Whether `fn` runs, and the inserter when it starts and after the pause.
pub record Pause (P V : Type 0) : Type 0 where
  pub ran : Bool
  pub at_start : World P V
  pub at_end : World P V

unfoldable pub result_reply : FlushResult → Reply
result_reply stored = replied_ok
result_reply misaligned = replied_error misaligned
result_reply (refused e) = replied_error (refused e)

module _ {P V : Type 0} where
  unfoldable pub reply_of : BulkInserter P V × Flushed P → Reply
  unfolding result_reply
  reply_of (b, nothing) = replied_ok
  reply_of (b, flushed batch) = result_reply batch.result
  reply_of (b, waiting) = no_reply

  -- A `Run` that has returned takes no request.
  unfoldable pub flush : FlushCall P → World P V → Reply × World P V
  unfolding reply_of
  flush call w =
      let w₀ = run w call.rounds_before in
      if not call.request_sent || w₀.returned then (no_reply, w₀) else (
        if call.reply_read
            then reply_of (flush_buffer call.answers (drain_pending call.arrivals w₀.inserter).0)
            else no_reply,
        step w₀ (flush_requested call.arrivals call.answers),
      )

  unfoldable pub enqueue_each : List P → World P V → World P V
  enqueue_each [] w = w
  enqueue_each (p ∷ ps) w = enqueue_each ps (enqueue p w)

  unfoldable pub end_pause : Option (List (Option P) × List Answer) → World P V → World P V
  end_pause none w = step w paused_and_resumed
  end_pause (some (arrivals, answers)) w = step w (paused_and_cancelled arrivals answers)

  abbrev pub not_run : World P V → Pause P V
  not_run w = record { ran = false; at_start = w; at_end = w }

  unfoldable pub after_flush : PauseCall P → Reply × World P V → Pause P V
  unfolding enqueue_each end_pause
  after_flush call (replied_ok, w) =
      let w' = run w call.rounds_between in
      if not call.request_sent || w'.returned then not_run w' else record {
        ran = call.paused_seen;
        at_start = w';
        at_end = end_pause call.interrupted (enqueue_each call.enqueued_meanwhile w');
      }
  after_flush call (r, w) = not_run w

  unfoldable pub with_paused : PauseCall P → World P V → Pause P V
  unfolding flush after_flush
  with_paused call w = after_flush call (flush call.flush_call w)

  record IsEmptied (w : World P V) : Type 0 where
    buffer : w.inserter.buffer ≡ []
    chan : w.inserter.in_chan ≡ []

  settle-IsEmptied :
      (w : World P V) (more : List P) (b : BulkInserter P V) (r : BulkInserter P V × Flushed P)
      → b.in_chan ≡ []
      → Flushes b r
      → reply_of r ≡ replied_ok
      → IsEmptied (settle w more r)
  unfolding settle reply_of
  settle-IsEmptied w more b (b', nothing) e f ok = record {
    buffer = ground arith;
    chan = ground arith;
  }
  settle-IsEmptied w more b (b', flushed batch) e f ok = record {
    buffer = f.emptied;
    chan = f.same_chan ∙ e;
  }
  settle-IsEmptied w more b (b', waiting) e f ok = cc

  abbrev Sound : Reply × World P V → Type 0
  Sound r = r.0 ≡ replied_ok → IsEmptied r.1

  step-running :
      (w : World P V) (arrivals : List (Option P)) (answers : List Answer)
      → w.returned ≡ false
      → step w (flush_requested arrivals answers) ≡ drain_and_flush arrivals answers w
  unfolding step round
  step-running w arrivals answers running =
      if-cases (λ d. d ≡ drain_and_flush arrivals answers w) w.returned (λ over. cc) (λ _. refl)

  flush-Sound : (call : FlushCall P) (w : World P V) → Sound (flush call w)
  unfolding flush drain_and_flush drain_pending
  flush-Sound call w =
      let w₀ = run w call.rounds_before in
      if-cases Sound (not call.request_sent || w₀.returned) (λ _ ok. cc)
        (λ go ok.
          let running : w₀.returned ≡ false = ground arith in
          let (b, more) = drain_pending call.arrivals w₀.inserter in
          let replied : reply_of (flush_buffer call.answers b) ≡ replied_ok = ground arith in
          subst IsEmptied (sym (step-running w₀ call.arrivals call.answers running)) (
            settle-IsEmptied w₀ more b (flush_buffer call.answers b) refl
              (flush_buffer-Flushes call.answers b).shape replied))

  flush-Conserved : (call : FlushCall P) (w : World P V) → Conserved w → Conserved (flush call w).1
  unfolding flush run
  flush-Conserved call w c =
      let w₀ = run w call.rounds_before in
      let c₀ : Conserved w₀ = run-Conserved w call.rounds_before c in
      if-cases (λ (r : Reply × World P V). Conserved r.1) (not call.request_sent || w₀.returned)
        (λ _. c₀) (λ _. run-Conserved w₀ (flush_requested call.arrivals call.answers ∷ []) c₀)

  flush-Grows : (call : FlushCall P) (w : World P V) → Grows w (flush call w).1
  unfolding flush
  flush-Grows call w =
      let w₀ = run w call.rounds_before in
      let g = run-Grows w call.rounds_before in
      if-cases (λ (r : Reply × World P V). Grows w r.1) (not call.request_sent || w₀.returned)
        (λ _. g)
        (λ _. Grows-trans w w₀ _ g (step-Grows w₀ (flush_requested call.arrivals call.answers)))

  -- During the pause `Enqueue` only reaches the channel.
  Untouched : World P V → World P V → Type 0
  Untouched w w' = (w'.batches ≡ w.batches) × (w'.inserter.buffer ≡ w.inserter.buffer)

  enqueue_each-Untouched : (ps : List P) (w : World P V) → Untouched w (enqueue_each ps w)
  unfolding enqueue_each enqueue Untouched
  enqueue_each-Untouched [] w = (refl, refl)
  enqueue_each-Untouched (p ∷ ps) w =
      let first : Untouched w (enqueue p w) =
        if-cases (Untouched w) (ltb (length w.inserter.in_chan) w.inserter.max_batch_size)
          (λ room. (refl, refl)) (λ full. (refl, refl)) in
      let later = enqueue_each-Untouched ps (enqueue p w) in (later.0 ∙ first.0, later.1 ∙ first.1)

  step-paused : (w : World P V) → step w paused_and_resumed ≡ w
  unfolding step round
  step-paused w = if-cases (λ d. d ≡ w) w.returned (λ over. refl) (λ running. refl)

  end_pause-Untouched :
      (cut : Option (List (Option P) × List Answer)) (w w' : World P V)
      → Untouched w w'
      → (is_some cut ≡ true) ⊎ Untouched w (end_pause cut w')
  unfolding end_pause
  end_pause-Untouched none w w' u = inr (subst (Untouched w) (sym (step-paused w')) u)
  end_pause-Untouched (some how) w w' u = inl refl

  -- What was accepted before the call has left in batches when `fn` starts.
  record IsQuiet (call : PauseCall P) (before : List P) (p : Pause P V) : Type 0 where
    later : List P
    left : shipped p.at_start.batches ≡ before ++ later
    untouched : (is_some call.interrupted ≡ true) ⊎ Untouched p.at_start p.at_end

  after_flush-IsQuiet :
      (call : PauseCall P) (before more : List P) (r : Reply × World P V)
      → Sound r
      → Conserved r.1
      → r.1.accepted ≡ before ++ more
      → (after_flush call r).ran ≡ true
      → IsQuiet call before (after_flush call r)
  unfolding after_flush
  after_flush-IsQuiet call before more (replied_ok, w) s c since on =
      let w' = run w call.rounds_between in
      let g = run-Grows w call.rounds_between in
      let q = s refl in
      let all : w.accepted ≡ shipped w.batches =
        c.balance ∙ (ground (arith, q.buffer, q.chan) ∙ append-nil (shipped w.batches)) in
      let newer = shipped g.flushes in
      let left : shipped w'.batches ≡ before ++ (more ++ newer) =
        ap shipped g.batches
        ∙ (shipped-append_all w.batches g.flushes
            ∙ (ap (λ xs. xs ++ newer) (sym all ∙ since) ∙ append_assoc before more newer)) in
      if-cases (λ (p : Pause P V). p.ran ≡ true → IsQuiet call before p)
        (not call.request_sent || w'.returned) (λ no ran. cc)
        (λ yes ran. record {
          later = more ++ newer;
          left = left;
          untouched =
              end_pause-Untouched call.interrupted w' (enqueue_each call.enqueued_meanwhile w')
                (enqueue_each-Untouched call.enqueued_meanwhile w');
        })
        on
  after_flush-IsQuiet call before more (no_reply, w) s c since on = cc
  after_flush-IsQuiet call before more (replied_error x, w) s c since on = cc

  -- When `WithPaused` runs the function it is given, everything that `Enqueue` had accepted before the
  -- call has left in batches, in order. During the pause no batch leaves the inserter and its buffer
  -- stays as it is, unless a shutdown interrupts the pause.
  pub with_paused-quiet :
      (call : PauseCall P) (w : World P V)
      → w.accepted ≡ shipped w.batches ++ (w.inserter.buffer ++ w.inserter.in_chan)
      → (with_paused call w).ran ≡ true
      → let p = with_paused call w in
        ((later : List P) × (shipped p.at_start.batches ≡ w.accepted ++ later))
        × ((is_some call.interrupted ≡ true)
            ⊎ ((p.at_end.batches ≡ p.at_start.batches)
                × (p.at_end.inserter.buffer ≡ p.at_start.inserter.buffer)))
  unfolding with_paused Untouched
  with_paused-quiet call w balance on =
      let g = flush-Grows call.flush_call w in
      let q =
        after_flush-IsQuiet call w.accepted g.more (flush call.flush_call w)
          (flush-Sound call.flush_call w)
          (flush-Conserved call.flush_call w (record { balance = balance })) g.accepted on in
      ((q.later, q.left), q.untouched)
