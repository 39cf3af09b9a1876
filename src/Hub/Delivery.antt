-- ===== src/Hub/Delivery.antt =====
-- What `dispatch` does to each client, and how it counts it.
use statusengine_worker.Prelude.{
  u64, ℕ, ◌+◌, ◌*◌, ◌≡◌, refl, String, Option, none, some, List, [], ◌∷◌, ◌++◌, Bytes, arith, map,
  count, length, ltb, inl, inr, Bool-cases, if◌then◌else◌,
}
use statusengine_worker.Hub.{Event, Client, Hub, send_buffer_size, wants_topic}
use statusengine_worker.Hub.Dispatch.{prefix_of, encode, message, deliver, dispatch_from, dispatch}
use statusengine_worker.Hub.Encoding.{frame, IsCached, encode_lem}

-- What one client gets of a frame: nothing that it did not ask for, the frame while its buffer has
-- room, and otherwise a longer count of dropped events.
abbrev pub offer : Event → Bytes → Client → Client
offer event m c =
    if wants_topic c event.topic
    then (if ltb (length c.send) send_buffer_size
        then record c { send = c.send ++ m ∷ [] }
        else record c { dropped = u64 (c.dropped + event.events) })
    else c

abbrev pub wanting : Event → List Client → ℕ
wanting event = count (λ c. wants_topic c event.topic)

module _ (encode_topic : String → Option Bytes) (event : Event) (m : Bytes) where
  dispatch_from-offer :
      (cs : List Client) (h : Hub)
      → (dispatch_from encode_topic event (some m) cs h).0 ≡ map (offer event m) cs
  unfolding dispatch_from message deliver
  dispatch_from-offer [] h = refl
  dispatch_from-offer (c ∷ cs) h = elim (Bool-cases (wants_topic c event.topic)) [
    | inl wants ↦ ground (arith, dispatch_from-offer cs (deliver encode_topic event m c h).1)
    | inr other ↦ ground (arith, dispatch_from-offer cs h)
  ]

  dispatch_from-built :
      (cs : List Client) (h : Hub)
      → IsCached encode_topic h.topic_prefix
      → frame encode_topic event ≡ some m
      → (dispatch_from encode_topic event none cs h).0 ≡ map (offer event m) cs
  unfolding dispatch_from message deliver
  dispatch_from-built [] h c f = refl
  dispatch_from-built (x ∷ cs) h c f = elim (Bool-cases (wants_topic x event.topic)) [
    | inl wants ↦ ground (
      arith,
      encode_lem encode_topic event h c,
      dispatch_from-offer cs (deliver encode_topic event m x (encode encode_topic event h).1).1,
    )
    | inr other ↦ ground (arith, dispatch_from-built cs h c f)
  ]

  -- The frame reaches the clients that want its topic and have room, once, at the end of their
  -- buffers; for those without room only the count of dropped events grows; no other client changes.
  pub dispatch-offer :
      (h : Hub)
      → IsCached encode_topic h.topic_prefix
      → frame encode_topic event ≡ some m
      → (dispatch encode_topic event h).clients ≡ map (offer event m) h.clients
  unfolding dispatch
  dispatch-offer h c f = dispatch_from-built h.clients h c f

  -- The events of the frame are counted once for each client that wants it.
  abbrev Counted : ℕ → Hub → Hub → Type 0
  Counted n h h' =
      u64 (h'.dispatched + h'.dropped) ≡ u64 (h.dispatched + h.dropped + event.events * n)

  dispatch_from-Counted :
      (cs : List Client) (h : Hub)
      → Counted (wanting event cs) h (dispatch_from encode_topic event (some m) cs h).1
  unfolding dispatch_from message deliver
  dispatch_from-Counted [] h = omega arith
  dispatch_from-Counted (c ∷ cs) h = elim (Bool-cases (wants_topic c event.topic)) [
    | inl wants ↦ ground (arith, dispatch_from-Counted cs (deliver encode_topic event m c h).1)
    | inr other ↦ ground (arith, dispatch_from-Counted cs h)
  ]

  encode-counters :
      (h : Hub)
      → ((encode encode_topic event h).1.dispatched ≡ h.dispatched)
        × ((encode encode_topic event h).1.dropped ≡ h.dropped)
  unfolding encode prefix_of
  encode-counters h = ground arith

  dispatch_from_built-Counted :
      (cs : List Client) (h : Hub)
      → IsCached encode_topic h.topic_prefix
      → frame encode_topic event ≡ some m
      → Counted (wanting event cs) h (dispatch_from encode_topic event none cs h).1
  unfolding dispatch_from message deliver
  dispatch_from_built-Counted [] h c f = omega arith
  dispatch_from_built-Counted (x ∷ cs) h c f = elim (Bool-cases (wants_topic x event.topic)) [
    | inl wants ↦ ground (
      arith,
      encode_lem encode_topic event h c,
      encode-counters h,
      dispatch_from-Counted cs (deliver encode_topic event m x (encode encode_topic event h).1).1,
    )
    | inr other ↦ ground (arith, dispatch_from_built-Counted cs h c f)
  ]

  -- Over one frame, what is dispatched and what is dropped grow together by the frame's events for
  -- each client that wants the topic, counted modulo 2^64.
  pub dispatch-counted :
      (h : Hub)
      → IsCached encode_topic h.topic_prefix
      → frame encode_topic event ≡ some m
      → u64 ((dispatch encode_topic event h).dispatched + (dispatch encode_topic event h).dropped)
        ≡ u64 (h.dispatched + h.dropped + event.events * wanting event h.clients)
  unfolding dispatch
  dispatch-counted h c f = dispatch_from_built-Counted h.clients h c f
