-- ===== src/Queue.antt =====
-- internal/queue/router.go: what handlers return, and how a batch of events is published. JSON
-- encoding of a value is `marshal`, an argument: `none` is an encoding error.
pub mod Handlers
pub mod Routed
pub mod Enqueued
pub mod Delivery
pub mod Routing
pub mod Shared
pub mod Acknowledged
pub mod Repair
pub mod Consume
pub mod Restart
pub mod Restarted
mod RestartTests
mod Deliveries
mod Settled
mod Repaired
pub mod Tests
pub mod SharedTests
mod ConsumeTests
use statusengine_worker.Prelude.{
  String, Bool, true, false, ◌||◌, not, Option, none, some, List, [], ◌∷◌, Bytes, length, filter,
  if◌then◌else◌,
}
use statusengine_worker.Hub
use statusengine_worker.Hub.{Hub, has_clients}

-- The error of a handler; only a decode failure is `ErrPermanent`.
pub data HandlerError : Type 0 where
  decode_failed : HandlerError
  enqueue_failed : HandlerError
  write_failed : HandlerError
  unhandled_action : HandlerError
  cleanup_failed : HandlerError

unfoldable pub is_permanent : HandlerError → Bool
is_permanent decode_failed = true
is_permanent _ = false

abbrev pub no_items {ℓ} : {P : Type ℓ} → List P → Bool
no_items [] = true
no_items (x ∷ xs) = false

module _ {P : Type 0} (marshal : List P → Option Bytes) where
  unfoldable pub publish_batch : Hub → String → List P → Hub
  publish_batch hub topic items =
      if no_items items || not (has_clients hub)
      then hub
      else elim (marshal items) [ none ↦ hub | some raw ↦ Hub.publish hub topic raw (length items) ]

  unfoldable pub publish : Hub → String → P → Hub
  unfolding publish_batch
  publish hub topic item =
      if not (has_clients hub) then hub else publish_batch hub topic (item ∷ [])

  unfoldable pub publish_filtered : Hub → String → List P → (P → Bool) → Hub
  unfolding publish_batch
  publish_filtered hub topic items keep =
      if not (has_clients hub) then hub else publish_batch hub topic (filter keep items)
