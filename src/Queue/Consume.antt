-- ===== src/Queue/Consume.antt =====
-- internal/queue/router.go and rabbitmq.go: `observeHandler`, and the loop that consumes the deliveries
-- of one queue. The gauge of jobs in flight and the duration of a handler are left out, and that a
-- call of Ack or Nack fails is only logged.
use statusengine_worker.Prelude.{
  u64, ℕ, ◌+◌, String, Bool, true, false, Option, none, some, List, [], ◌∷◌, ◌++◌, Bytes,
  if◌then◌else◌,
}
use statusengine_worker.Metrics.{payloads_repaired, pipeline_errors, component_queue}
use statusengine_worker.Queue.{HandlerError, is_permanent}
use statusengine_worker.Queue.Handlers.{World, Handler}
use statusengine_worker.Queue.Repair.{repair_utf8}

-- What became of a delivery.
pub data Disposition : Type 0 where
  acked dropped requeued : Disposition

-- The counters of a consumer, and what it answered, oldest first.
pub record Consumer : Type 0 where
  pub processed : ℕ
  pub errors : ℕ
  pub dropped : ℕ
  pub answers : List (Bytes × Disposition)

-- A delivery, and whether the pause before its requeueing would run to its end.
pub record Delivery : Type 0 where
  pub body : Bytes
  pub paused : Bool

module _ {S : Type 0} (cp1252 : ℕ → ℕ) (queue_name : String) (handle : Handler S) where
  unfoldable pub observe_handler : Handler S
  unfolding repair_utf8
  observe_handler payload w =
      let (repaired, changed) = repair_utf8 cp1252 payload in
      if changed
      then handle repaired (record w { ticks = payloads_repaired queue_name ∷ w.ticks })
      else handle payload w

  abbrev pub answer : Bytes → Disposition → Consumer → Consumer
  answer body how c = record c { answers = c.answers ++ (body, how) ∷ [] }

  abbrev pub count_error : World S → World S
  count_error w = record w { ticks = pipeline_errors component_queue ∷ w.ticks }

  -- What follows the handler; `true` is the way out of the loop.
  unfoldable pub after_handler :
      Delivery → Consumer → Option HandlerError × World S → Bool × (Consumer × World S)
  after_handler d c (none, w) =
      (false, (answer d.body acked (record c { processed = u64 (c.processed + 1) }), w))
  after_handler d c (some err, w) =
      let failed : Consumer = record c { errors = u64 (c.errors + 1) } in
      if is_permanent err
      then (
        false,
        (
          answer d.body dropped (record failed { dropped = u64 (failed.dropped + 1) }),
          count_error w,
        ),
      )
      else if d.paused
      then (false, (answer d.body requeued failed, count_error w))
      else (true, (failed, count_error w))

  unfoldable pub consume_one : Delivery → Consumer × World S → Bool × (Consumer × World S)
  unfolding observe_handler after_handler
  consume_one d (c, w) = after_handler d c (observe_handler d.body w)

  unfoldable pub consume_loop : List Delivery → Consumer × World S → Consumer × World S
  unfolding consume_one
  consume_loop [] s = s
  consume_loop (d ∷ deliveries) s =
      let (left, s') = consume_one d s in
      elim left [ true ↦ s' | false ↦ consume_loop deliveries s' ]
