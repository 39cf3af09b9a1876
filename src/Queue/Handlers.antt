-- ===== src/Queue/Handlers.antt =====
-- internal/queue/router.go and internal/queue/registry.go: the handlers of the queues. `Enqueue` of a
-- bulk inserter is a parameter: it answers whether the item was accepted, and moves the state `S` of
-- the inserters. The clock is an argument.
use statusengine_worker.Prelude.{
  ◌/◌, String, Bool, true, false, not, Option, none, some, List, [], ◌∷◌, Bytes, ℤ, pos, negsuc,
  ◌-ℤ◌, ltb_ℤ, if◌then◌else◌,
}
use statusengine_worker.Metrics.{Tick, stale_discarded}
use statusengine_worker.Hub.{Hub}
use statusengine_worker.Queue.{
  HandlerError, decode_failed, enqueue_failed, publish_batch, publish_filtered,
}

pub record World (S : Type 0) : Type 0 where
  pub hub : Hub
  pub inserters : S
  pub ticks : List Tick

abbrev pub Enqueue : Type 0 → Type 0 → Type 0
Enqueue P S = P → S → Bool × S

abbrev pub Handler : Type 0 → Type 0
Handler S = Bytes → World S → Option HandlerError × World S

module _ {P S : Type 0} (enqueue : Enqueue P S) where
  -- The loops of the handlers. An item that is not stored is passed over.
  unfoldable pub enqueue_stored : (P → Bool) → List P → World S → Option HandlerError × World S
  enqueue_stored stored [] w = (none, w)
  enqueue_stored stored (item ∷ items) w = elim (stored item) [
    | false ↦ enqueue_stored stored items w
    | true ↦
        let (accepted, s) = enqueue item w.inserters in
        elim accepted [
          | false ↦ (some enqueue_failed, record w { inserters = s })
          | true ↦ enqueue_stored stored items (record w { inserters = s })
        ]
  ]

  unfoldable pub enqueue_all : List P → World S → Option HandlerError × World S
  enqueue_all [] w = (none, w)
  enqueue_all (item ∷ items) w =
      let (accepted, s) = enqueue item w.inserters in
      elim accepted [
        | false ↦ (some enqueue_failed, record w { inserters = s })
        | true ↦ enqueue_all items (record w { inserters = s })
      ]

  module _ (event_timestamp : P → ℤ) (topic : String) (cutoff : ℤ) where
    abbrev pub is_fresh : P → Bool
    is_fresh item = not (ltb_ℤ (event_timestamp item) cutoff)

    unfoldable pub enqueue_fresh : List P → World S → Option HandlerError × World S
    enqueue_fresh [] w = (none, w)
    enqueue_fresh (item ∷ items) w = elim (ltb_ℤ (event_timestamp item) cutoff) [
      | true ↦ enqueue_fresh items (record w { ticks = stale_discarded topic ∷ w.ticks })
      | false ↦
          let (accepted, s) = enqueue item w.inserters in
          elim accepted [
            | false ↦ (some enqueue_failed, record w { inserters = s })
            | true ↦ enqueue_fresh items (record w { inserters = s })
          ]
    ]

-- `time.Now().Add(-maxAge).Unix()`, from nanoseconds to whole seconds, rounded down.
unfoldable pub unix_seconds : ℤ → ℤ
unix_seconds (pos n) = pos (n / 1000000000)
unix_seconds (negsuc n) = negsuc (n / 1000000000)

abbrev pub cutoff_of : ℤ → ℤ → ℤ
cutoff_of now max_age = unix_seconds (now -ℤ max_age)

module _ {P S : Type 0} (marshal : List P → Option Bytes) (topic : String)
    (decode : Bytes → Option (List P)) where
  unfoldable pub new_handler : Enqueue P S → Handler S
  new_handler enqueue payload w = elim (decode payload) [
    | none ↦ (some decode_failed, w)
    | some items ↦
        enqueue_all enqueue items (record w { hub = publish_batch marshal w.hub topic items })
  ]

  unfoldable pub new_stale_dropping_handler : (P → ℤ) → Enqueue P S → ℤ → ℤ → Handler S
  unfolding new_handler
  new_stale_dropping_handler event_timestamp enqueue now max_age payload w =
      if not (ltb_ℤ (pos 0) max_age) then new_handler enqueue payload w else elim (decode payload) [
        | none ↦ (some decode_failed, w)
        | some items ↦
            let cutoff = cutoff_of now max_age in
            enqueue_fresh enqueue event_timestamp topic cutoff items (record w {
              hub =
                  publish_filtered marshal w.hub topic items
                    (λ item. not (ltb_ℤ (event_timestamp item) cutoff));
            })
      ]

  unfoldable pub new_broadcast_handler : Handler S
  new_broadcast_handler payload w = elim (decode payload) [
    | none ↦ (some decode_failed, w)
    | some items ↦ (none, record w { hub = publish_batch marshal w.hub topic items })
  ]
