-- ===== src/Hub/Run.antt =====
-- internal/websocket/hub.go: the loop of `Run`, one received message at a time, between the receives
-- of the write pumps of client.go.
use statusengine_worker.Prelude.{
  u64, ℕ, ◌+◌, String, true, Option, List, [], ◌∷◌, Bytes, if◌then◌else◌,
}
use statusengine_worker.Hub.{
  Event, Client, SubscriptionMessage, Hub, register, remove_client, apply_subscription_update,
  close_all, write_pump,
}
use statusengine_worker.Hub.Dispatch.{dispatch}

-- What one round of `Run` may receive; the first is `ctx.Done()`. The read pump of a client sends
-- `updates` and `unregisters`; `writes` is no round, but a frame that the write pump of a client
-- takes from its channel.
pub data Input : Type 0 where
  cancelled : Input
  registers : Client → Input
  unregisters : ℕ → Input
  updates : ℕ → SubscriptionMessage → Input
  receives : Input
  stats : Input
  writes : ℕ → Input

module _ (encode_topic : String → Option Bytes) where
  unfoldable pub receive : List Event → Hub → Hub
  receive [] h = h
  receive (e ∷ rest) h =
      dispatch encode_topic e
        (record h { broadcast = rest; received = u64 (h.received + e.events) })

  -- One round of the loop of `Run`. Nothing is read once `Run` has returned, and `receives` is
  -- ready only while the channel holds an event.
  unfoldable pub step : Hub → Input → Hub
  unfolding receive write_pump
  step h cancelled = if h.done then h else record (close_all h) { done = true }
  step h (registers c) = if h.done then h else register c h
  step h (unregisters id) = if h.done then h else remove_client id h
  step h (updates id sub) = if h.done then h else apply_subscription_update id sub h
  step h receives = if h.done then h else receive h.broadcast h
  step h stats = h
  step h (writes id) = write_pump id h

  unfoldable pub run : Hub → List Input → Hub
  run h [] = h
  run h (i ∷ is) = run (step h i) is
