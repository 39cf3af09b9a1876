-- ===== src/Queue/Delivery.antt =====
-- What each handler delivers: to the inserters, to the websocket clients, and as its error.
use statusengine_worker.Prelude.{
  ◌⊎◌, ◌+◌, String, Bool, true, false, not, Option, none, some, List, [], ◌∷◌, ◌++◌, Bytes, ◌≡◌,
  refl, sym, ap, ◌∙◌, ℤ, pos, ltb_ℤ, arith, filter, count, length, inl, inr, Option-cases,
}
use statusengine_worker.Hub.{Hub}
use statusengine_worker.Queue.{HandlerError, is_permanent, publish_batch, publish_filtered}
use statusengine_worker.Queue.Handlers.{
  World, Enqueue, enqueue_stored, enqueue_fresh, cutoff_of, new_handler, new_stale_dropping_handler,
}
use statusengine_worker.Queue.Enqueued.{
  Records, itself, given-itself, enqueue_stored-log, enqueue_stored-refused, enqueue_all-stored,
  enqueue_fresh-log,
}

pub filter-true : {P : Type 0} (xs : List P) → filter (λ x. true) xs ≡ xs
filter-true [] = refl
filter-true (x ∷ xs) = ap (λ ys. x ∷ ys) (filter-true xs)

pub publish_filtered-batch :
    {P : Type 0} (marshal : List P → Option Bytes) (hub : Hub) (topic : String) (items : List P)
    (keep : P → Bool)
    → publish_filtered marshal hub topic items keep
      ≡ publish_batch marshal hub topic (filter keep items)
unfolding publish_filtered
publish_filtered-batch marshal hub topic items keep = ground arith

module _ {P S : Type 0} (marshal : List P → Option Bytes) (topic : String)
    (decode : Bytes → Option (List P)) (enqueue : Enqueue P S) (log : S → List P)
    (r : Records enqueue log itself) where
  -- A handler that returns no error has decoded the payload, published the whole batch and enqueued
  -- every event of it, in order.
  pub new_handler-delivers :
      (payload : Bytes) (w w' : World S)
      → new_handler marshal topic decode enqueue payload w ≡ (none, w')
      → (items : List P) × (decode payload ≡ some items)
        × (log w'.inserters ≡ log w.inserters ++ items)
        × (w'.hub ≡ publish_batch marshal w.hub topic items)
  unfolding new_handler
  new_handler-delivers payload w w' e = elim (Option-cases (decode payload)) [
    | inl bad ↦ ground arith
    | inr (items, good) ↦
        let w₀ : World S = record w { hub = publish_batch marshal w.hub topic items } in
        let rest : enqueue_stored enqueue (λ x. true) items w₀ ≡ (none, w') =
          sym (enqueue_all-stored enqueue log itself r items w₀) ∙ (rw (good, new_handler) at e) in
        let loop = enqueue_stored-log enqueue log itself r (λ x. true) items w₀ w' rest in
        (
          items,
          good,
          loop.0
              ∙ ap (λ ys. log w.inserters ++ ys)
                  (given-itself (filter (λ x. true) items) ∙ filter-true items),
          loop.1,
        )
  ]

  -- A handler that returns an error has either failed to decode the payload, an error that is
  -- permanent and leaves everything as it was; or published the whole batch and enqueued the events
  -- before one that `Enqueue` then refused, and none after it, with an error that is not permanent,
  -- so that the payload is worth redelivering.
  pub new_handler-fails :
      (payload : Bytes) (w w' : World S) (err : HandlerError)
      → new_handler marshal topic decode enqueue payload w ≡ (some err, w')
      → ((decode payload ≡ none) × (w' ≡ w) × (is_permanent err ≡ true))
        ⊎ ((before : List P) × (x : P) × (after : List P) × (decode payload
              ≡ some (before ++ x ∷ after))
            × (w'.hub ≡ publish_batch marshal w.hub topic (before ++ x ∷ after))
            × ((s : S) × (log s ≡ log w.inserters ++ before)
                × (enqueue x s ≡ (false, w'.inserters)))
            × (log w'.inserters ≡ log w.inserters ++ before)
            × (is_permanent err ≡ false))
  unfolding new_handler is_permanent
  new_handler-fails payload w w' err e = elim (Option-cases (decode payload)) [
    | inl bad ↦ inl (bad, ground arith, ground arith)
    | inr (items, good) ↦
        let w₀ : World S = record w { hub = publish_batch marshal w.hub topic items } in
        let rest : enqueue_stored enqueue (λ x. true) items w₀ ≡ (some err, w') =
          sym (enqueue_all-stored enqueue log itself r items w₀) ∙ (rw (good, new_handler) at e) in
        let (before, x, after, split, (s, logged, stops), hub, is) =
          enqueue_stored-refused enqueue log itself r (λ x. true) items w₀ w' err rest in
        let whole : items ≡ before ++ x ∷ after = sym (filter-true items) ∙ split in
        let so_far : log s ≡ log w.inserters ++ before =
          logged ∙ ap (λ ys. log w.inserters ++ ys) (given-itself before) in
        let same : log w'.inserters ≡ log s =
          sym (ap (λ (q : Bool × S). log q.1) stops)
          ∙ r.refused x s (ap (λ (q : Bool × S). q.0) stops) in
        inr (
          before,
          x,
          after,
          good ∙ ap some whole,
          hub ∙ ap (publish_batch marshal w.hub topic) whole,
          (s, so_far, stops),
          same ∙ so_far,
          rw is refl,
        )
  ]

  -- A handler that drops stale events and returns no error has enqueued exactly the events that are
  -- at most `max_age` old, in order, has published that same batch, and has counted each of the
  -- others.
  pub new_stale_dropping_handler-delivers :
      (event_timestamp : P → ℤ) (now max_age : ℤ) (payload : Bytes) (w w' : World S)
      → ltb_ℤ (pos 0) max_age ≡ true
      → new_stale_dropping_handler marshal topic decode event_timestamp enqueue now max_age payload
          w
        ≡ (none, w')
      → (items : List P) × (decode payload ≡ some items)
        × (log w'.inserters
            ≡ log w.inserters
              ++ filter (λ x. not (ltb_ℤ (event_timestamp x) (cutoff_of now max_age))) items)
        × (w'.hub
            ≡ publish_batch marshal w.hub topic
                (filter (λ x. not (ltb_ℤ (event_timestamp x) (cutoff_of now max_age))) items))
        × (length w'.ticks
            ≡ length w.ticks + count (λ x. ltb_ℤ (event_timestamp x) (cutoff_of now max_age)) items)
  unfolding new_stale_dropping_handler
  new_stale_dropping_handler-delivers event_timestamp now max_age payload w w' limited e =
      elim (Option-cases (decode payload)) [
        | inl bad ↦ ground arith
        | inr (items, good) ↦
            let keep : P → Bool = λ x. not (ltb_ℤ (event_timestamp x) (cutoff_of now max_age)) in
            let w₀ : World S = record w { hub = publish_filtered marshal w.hub topic items keep } in
            let rest : enqueue_fresh enqueue event_timestamp topic (cutoff_of now max_age) items w₀
                ≡ (none, w') =
              rw (limited, good, new_stale_dropping_handler) at e in
            let loop =
              enqueue_fresh-log enqueue log itself r event_timestamp topic (cutoff_of now max_age)
                items w₀ w' rest in
            (
              items,
              good,
              loop.0 ∙ ap (λ ys. log w.inserters ++ ys) (given-itself (filter keep items)),
              loop.1 ∙ publish_filtered-batch marshal w.hub topic items keep,
              loop.2,
            )
      ]
