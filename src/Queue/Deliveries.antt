-- ===== src/Queue/Deliveries.antt =====
-- What a consumer of RabbitMQ has acknowledged, its handler has enqueued.
use statusengine_worker.Prelude.{
  u64, ℕ, String, Bool, true, false, Option, none, some, List, [], ◌∷◌, ◌++◌, Bytes, ◌≡◌, refl, sym,
  ap, ◌∙◌, subst, arith, All, All-append, count, count-append, ◌⊎◌, inl, inr, Bool-cases,
  Option-cases, append-nil, append_assoc, if-either,
}
use statusengine_worker.Metrics.{payloads_repaired}
use statusengine_worker.Queue.{HandlerError, is_permanent}
use statusengine_worker.Queue.Handlers.{World, Enqueue, new_handler}
use statusengine_worker.Queue.Enqueued.{Records, itself}
use statusengine_worker.Queue.Delivery.{new_handler-delivers, new_handler-fails}
use statusengine_worker.Queue.Repair.{repair_utf8, valid}
use statusengine_worker.Queue.Consume.{
  Disposition, acked, dropped, requeued, Consumer, Delivery, observe_handler, after_handler,
  consume_one, consume_loop,
}

abbrev pub is_acked : Bytes × Disposition → Bool
is_acked (body, acked) = true
is_acked _ = false

abbrev pub is_dropped : Bytes × Disposition → Bool
is_dropped (body, dropped) = true
is_dropped _ = false

abbrev pub new_consumer : Consumer
new_consumer = record { processed = 0; errors = 0; dropped = 0; answers = [] }

module _ {P S : Type 0} (cp1252 : ℕ → ℕ) (marshal : List P → Option Bytes) (topic : String)
    (decode : Bytes → Option (List P)) (enqueue : Enqueue P S) (log : S → List P)
    (r : Records enqueue log itself) where
  -- The events of a payload, repaired, lie in the log next to each other.
  pub record IsStored (logged : List P) (body : Bytes) : Type 0 where
    pub items : List P
    pub before : List P
    pub after : List P
    pub decoded : decode (repair_utf8 cp1252 body).0 ≡ some items
    pub found : logged ≡ before ++ (items ++ after)

  abbrev pub Settled : List P → Bytes × Disposition → Type 0
  Settled logged a = (is_acked a ≡ false) ⊎ IsStored logged a.0

  pub record IsHonest (s : Consumer × World S) : Type 0 where
    pub stored : All (Settled (log s.1.inserters)) s.0.answers
    pub processed : s.0.processed ≡ u64 (count is_acked s.0.answers)
    pub dropped : s.0.dropped ≡ u64 (count is_dropped s.0.answers)

  more_logged :
      (logged more : List P) (old : List (Bytes × Disposition))
      → All (Settled logged) old
      → All (Settled (logged ++ more)) old
  more_logged logged more [] h = tt
  more_logged logged more (a ∷ old) (inl other, h) = (inl other, more_logged logged more old h)
  more_logged logged more (a ∷ old) (inr s, h) = (
    inr (record {
      items = s.items;
      before = s.before;
      after = s.after ++ more;
      decoded = s.decoded;
      found =
          ap (λ xs. xs ++ more) s.found
          ∙ (append_assoc s.before (s.items ++ s.after) more
              ∙ ap (λ xs. s.before ++ xs) (append_assoc s.items s.after more));
    }),
    more_logged logged more old h,
  )

  -- Observed, the handler is the handler on the repaired payload.
  observed :
      (queue_name : String) (body : Bytes) (w : World S)
      → (w₀ : World S) × (w₀.inserters ≡ w.inserters)
        × (observe_handler cp1252 queue_name (new_handler marshal topic decode enqueue) body w
            ≡ new_handler marshal topic decode enqueue (repair_utf8 cp1252 body).0 w₀)
  unfolding observe_handler repair_utf8
  observed queue_name body w = elim (Bool-cases (valid body)) [
    | inr changed ↦ (
      record w { ticks = payloads_repaired queue_name ∷ w.ticks },
      refl,
      rw (changed, observe_handler, repair_utf8) refl,
    )
    | inl whole ↦ (w, refl, rw (whole, observe_handler, repair_utf8) refl)
  ]

  -- Whatever the outcome, the log only grows, and without an error by the whole payload.
  record IsOutcome (payload : Bytes) (w : World S) (res : Option HandlerError × World S)
      : Type 0 where
    more : List P
    grown : log res.1.inserters ≡ log w.inserters ++ more
    whole : (decode payload ≡ some more) ⊎ ((err : HandlerError) × (res.0 ≡ some err))

  handler-IsOutcome :
      (payload : Bytes) (w : World S)
      → IsOutcome payload w (new_handler marshal topic decode enqueue payload w)
  handler-IsOutcome payload w =
      let res = new_handler marshal topic decode enqueue payload w in
      elim (Option-cases res.0) [
        | inl done ↦
            let (items, good, grown, hub) =
              new_handler-delivers marshal topic decode enqueue log r payload w res.1
                (ap (λ o. (o, res.1)) done) in
            record { more = items; grown = grown; whole = inl good }
        | inr (err, bad) ↦
            elim (new_handler-fails marshal topic decode enqueue log r payload w res.1 err
              (ap (λ o. (o, res.1)) bad)) [
                | inl (undecoded, same, permanent) ↦ record {
                  more = [];
                  grown =
                      ap (λ (v : World S). log v.inserters) same
                      ∙ sym (append-nil (log w.inserters));
                  whole = inr (err, bad);
                }
                | inr (before, x, after, items, hub, at, grown, transient) ↦ record {
                  more = before;
                  grown = grown;
                  whole = inr (err, bad);
                }
              ]
      ]

  observed-IsOutcome :
      (queue_name : String) (body : Bytes) (w : World S)
      → IsOutcome
          (repair_utf8 cp1252 body).0
          w
          (observe_handler cp1252 queue_name (new_handler marshal topic decode enqueue) body w)
  observed-IsOutcome queue_name body w =
      let (w₀, same, is) = observed queue_name body w in
      let o = handler-IsOutcome (repair_utf8 cp1252 body).0 w₀ in
      subst (IsOutcome (repair_utf8 cp1252 body).0 w) (sym is) (record {
        more = o.more;
        grown = o.grown ∙ ap (λ s. log s ++ o.more) same;
        whole = o.whole;
      })

  after_handler-IsHonest :
      (queue_name : String) (d : Delivery) (c : Consumer) (w : World S)
      (res : Option HandlerError × World S)
      → IsHonest (c, w)
      → IsOutcome (repair_utf8 cp1252 d.body).0 w res
      → IsHonest
          (after_handler cp1252 queue_name (new_handler marshal topic decode enqueue) d c res).1
  unfolding after_handler
  after_handler-IsHonest queue_name d c w (none, w') h o =
      let old : All (Settled (log w'.inserters)) c.answers =
        subst (λ xs. All (Settled xs) c.answers) (sym o.grown)
          (more_logged (log w.inserters) o.more c.answers h.stored) in
      let new : IsStored (log w'.inserters) d.body = record {
        items = o.more;
        before = log w.inserters;
        after = [];
        decoded = elim o.whole [ inl good ↦ good | inr (err, bad) ↦ cc bad ];
        found = o.grown ∙ ap (λ xs. log w.inserters ++ xs) (sym (append-nil o.more));
      } in
      record {
        stored =
            All-append (Settled (log w'.inserters)) c.answers ((d.body, acked) ∷ []) old
              (inr new, tt);
        processed =
            omega (arith, h.processed, count-append is_acked c.answers ((d.body, acked) ∷ []));
        dropped =
            omega (arith, h.dropped, count-append is_dropped c.answers ((d.body, acked) ∷ []));
      }
  after_handler-IsHonest queue_name d c w (some err, w') h o =
      let old : All (Settled (log w'.inserters)) c.answers =
        subst (λ xs. All (Settled xs) c.answers) (sym o.grown)
          (more_logged (log w.inserters) o.more c.answers h.stored) in
      if-either (λ (x : Bool × (Consumer × World S)). IsHonest x.1) (is_permanent err)
        (record {
          stored =
              All-append (Settled (log w'.inserters)) c.answers ((d.body, dropped) ∷ []) old
                (inl refl, tt);
          processed =
              omega (arith, h.processed, count-append is_acked c.answers ((d.body, dropped) ∷ []));
          dropped =
              omega (arith, h.dropped, count-append is_dropped c.answers ((d.body, dropped) ∷ []));
        })
        (if-either (λ (x : Bool × (Consumer × World S)). IsHonest x.1) d.paused
          (record {
            stored =
                All-append (Settled (log w'.inserters)) c.answers ((d.body, requeued) ∷ []) old
                  (inl refl, tt);
            processed =
                omega
                  (arith, h.processed, count-append is_acked c.answers ((d.body, requeued) ∷ []));
            dropped =
                omega
                  (arith, h.dropped, count-append is_dropped c.answers ((d.body, requeued) ∷ []));
          })
          (record { stored = old; processed = h.processed; dropped = h.dropped }))

  either_way :
      (one : Bool × (Consumer × World S)) (rest : Consumer × World S)
      → IsHonest one.1
      → IsHonest rest
      → IsHonest (elim one.0 [ true ↦ one.1 | false ↦ rest ])
  either_way (true, s) rest h k = h
  either_way (false, s) rest h k = k

  consume_loop_keeps :
      (queue_name : String) (deliveries : List Delivery) (s : Consumer × World S)
      → IsHonest s
      → IsHonest
          (consume_loop cp1252 queue_name (new_handler marshal topic decode enqueue) deliveries s)
  unfolding consume_loop consume_one
  consume_loop_keeps queue_name [] s h = h
  consume_loop_keeps queue_name (d ∷ deliveries) (c, w) h =
      let one = consume_one cp1252 queue_name (new_handler marshal topic decode enqueue) d (c, w) in
      let kept : IsHonest one.1 =
        after_handler-IsHonest queue_name d c w
          (observe_handler cp1252 queue_name (new_handler marshal topic decode enqueue) d.body w) h
          (observed-IsOutcome queue_name d.body w) in
      either_way one
        (consume_loop cp1252 queue_name (new_handler marshal topic decode enqueue) deliveries one.1)
        kept (consume_loop_keeps queue_name deliveries one.1 kept)

  -- Over any deliveries to a new consumer whose handler `newHandler` makes: the events of every
  -- delivery that was acknowledged, its bytes repaired where they were not UTF-8, lie in what the
  -- handler enqueued, next to each other and in order; and the counters of processed and of dropped
  -- messages are, modulo 2 ^ 64, the numbers of those acknowledged and of those rejected for good.
  pub consume_loop-IsHonest :
      (queue_name : String) (deliveries : List Delivery) (w : World S)
      → IsHonest (
          consume_loop cp1252 queue_name
            (new_handler marshal topic decode enqueue)
            deliveries
            (new_consumer, w))
  consume_loop-IsHonest queue_name deliveries w =
      consume_loop_keeps queue_name deliveries (new_consumer, w)
        (record { stored = tt; processed = refl; dropped = refl })
