-- ===== src/Queue/Settled.antt =====
-- What a consumer of RabbitMQ has acknowledged is in the bulk inserter, while `Run` and the handlers of
-- other payloads work on it too.
use statusengine_worker.Prelude.{
  ℕ, String, Bool, true, false, Option, none, some, List, [], ◌∷◌, ◌++◌, Bytes, ◌≡◌, sym, subst,
  if-either,
}
use statusengine_worker.Metrics.{payloads_repaired}
use statusengine_worker.Queue.{HandlerError, is_permanent}
use statusengine_worker.Bulk.{BulkInserter}
use statusengine_worker.Bulk.Run.{Input, run, start}
use statusengine_worker.Bulk.Conservation.{shipped}
use statusengine_worker.Queue.Handlers.{World, Handler, new_handler}
use statusengine_worker.Queue.Repair.{repair_utf8}
use statusengine_worker.Queue.Consume.{
  Consumer, Delivery, observe_handler, after_handler, consume_one, consume_loop,
}
use statusengine_worker.Queue.Shared.{Turn, Shared, db_enqueue}
use statusengine_worker.Queue.Acknowledged.{
  Sublist, IsPart, db_enqueue-Records, new_handler-IsPart, start-IsPart, IsPart-found,
}
use statusengine_worker.Queue.Deliveries.{new_consumer, IsHonest, consume_loop-IsHonest}

module _ {S : Type 0} (cp1252 : ℕ → ℕ) (queue_name : String) (handle : Handler S) (Q : S → Type 0)
    (keeps : (payload : Bytes) (w : World S)
      → Q w.inserters
      → Q (handle payload w).1.inserters) where
  after_handler-keeps :
      (d : Delivery) (c : Consumer) (r : Option HandlerError × World S)
      → Q r.1.inserters
      → Q (after_handler cp1252 queue_name handle d c r).1.1.inserters
  unfolding after_handler
  after_handler-keeps d c (none, w) q = q
  after_handler-keeps d c (some err, w) q =
      if-either (λ (x : Bool × (Consumer × World S)). Q x.1.1.inserters) (is_permanent err) q
        (if-either (λ (x : Bool × (Consumer × World S)). Q x.1.1.inserters) d.paused q q)

  observe_handler-keeps :
      (payload : Bytes) (w : World S)
      → Q w.inserters
      → Q (observe_handler cp1252 queue_name handle payload w).1.inserters
  unfolding observe_handler
  observe_handler-keeps payload w q =
      let (repaired, changed) = repair_utf8 cp1252 payload in
      if-either (λ (r : Option HandlerError × World S). Q r.1.inserters) changed
        (keeps repaired (record w { ticks = payloads_repaired queue_name ∷ w.ticks }) q)
        (keeps payload w q)

  abbrev Kept : Consumer × World S → Type 0
  Kept s = Q s.1.inserters

  either_way :
      (one : Bool × (Consumer × World S)) (rest : Consumer × World S)
      → Kept one.1
      → Kept rest
      → Kept (elim one.0 [ true ↦ one.1 | false ↦ rest ])
  either_way (true, s) rest q k = q
  either_way (false, s) rest q k = k

  consume_loop-keeps :
      (deliveries : List Delivery) (c : Consumer) (w : World S)
      → Q w.inserters
      → Q (consume_loop cp1252 queue_name handle deliveries (c, w)).1.inserters
  unfolding consume_loop consume_one
  consume_loop-keeps [] c w q = q
  consume_loop-keeps (d ∷ deliveries) c w q =
      let one = consume_one cp1252 queue_name handle d (c, w) in
      let first : Q one.1.1.inserters =
        after_handler-keeps d c (observe_handler cp1252 queue_name handle d.body w)
          (observe_handler-keeps d.body w q) in
      either_way one (consume_loop cp1252 queue_name handle deliveries one.1) first
        (consume_loop-keeps deliveries one.1.0 one.1.1 first)

module _ {P V : Type 0} (cp1252 : ℕ → ℕ) (marshal : List P → Option Bytes) (topic : String)
    (decode : Bytes → Option (List P)) where
  -- A new consumer of a queue whose handler `newHandler` makes gets any deliveries, on an inserter
  -- that started empty and has made any rounds; whenever the handler blocks in `Enqueue`, `Run` and
  -- other handlers may go on in any way. Of what the handler has enqueued, the events of every
  -- acknowledged delivery, its bytes repaired where they were not UTF-8, are a stretch, in order; and
  -- whatever calls and rounds follow, all of it is, in order, among the rows of the batches, the
  -- buffer and the channel that come after those accepted before. The counters of processed and of
  -- dropped messages are, modulo 2 ^ 64, the numbers of those acknowledged and rejected for good.
  pub consume_loop-settles :
      (queue_name : String) (b : BulkInserter P V) (rounds later : List (Input P))
      (deliveries : List Delivery) (w : World (Shared P V)) (turns : List (Turn P))
      → b.buffer ≡ []
      → b.in_chan ≡ []
      → w.inserters ≡ record { world = run (start b) rounds; turns = turns; mine = [] }
      → let s =
          consume_loop cp1252 queue_name
            (new_handler marshal topic decode db_enqueue)
            deliveries
            (new_consumer, w) in
        let z = run s.1.inserters.world later in
        IsHonest cp1252 marshal topic decode db_enqueue
          (λ (t : Shared P V). t.mine)
          db_enqueue-Records
          s
        × ((since : List P) × (shipped z.batches ++ (z.inserter.buffer ++ z.inserter.in_chan)
              ≡ (run (start b) rounds).accepted ++ since)
            × Sublist s.1.inserters.mine since)
  consume_loop-settles queue_name b rounds later deliveries w turns empty quiet history =
      let base = (run (start b) rounds).accepted in
      let handle : Handler (Shared P V) = new_handler marshal topic decode db_enqueue in
      let begun : IsPart base w.inserters =
        subst (IsPart base) (sym history) (start-IsPart b rounds turns empty quiet) in
      let over =
        consume_loop-keeps cp1252 queue_name handle (IsPart base)
          (new_handler-IsPart base marshal topic decode) deliveries new_consumer w begun in
      (
        consume_loop-IsHonest cp1252 marshal topic decode db_enqueue (λ (t : Shared P V). t.mine)
            db_enqueue-Records queue_name deliveries w,
        IsPart-found base
            (consume_loop cp1252 queue_name handle deliveries (new_consumer, w)).1.inserters later
            over,
      )
