-- ===== src/Hub/Dispatch.antt =====
-- internal/websocket/hub.go: `encode` and `dispatch`.
use statusengine_worker.Prelude.{
  u64, ◌+◌, String, true, false, Option, none, some, List, [], ◌∷◌, ◌++◌, Bytes, codes, ltb,
  if◌then◌else◌, length,
}
use statusengine_worker.Metrics.{
  frames_sent, broadcasted, websocket_dropped, pipeline_errors, component_websocket,
}
use statusengine_worker.Hub.{
  Event, Client, Hub, send_buffer_size, wants_topic, lookup_prefix, topic_key, payload_key,
}

-- `json.Marshal` of the topic.
module _ (encode_topic : String → Option Bytes) where
  unfoldable pub prefix_of : String → Hub → Option Bytes × Hub
  prefix_of topic h = elim (lookup_prefix topic h.topic_prefix) [
    | some prefix ↦ (some prefix, h)
    | none ↦ elim (encode_topic topic) [
      | none ↦ (none, record h { ticks = pipeline_errors component_websocket ∷ h.ticks })
      | some encoded ↦
          let prefix = topic_key ++ (encoded ++ payload_key) in
          (some prefix, record h { topic_prefix = (topic, prefix) ∷ h.topic_prefix })
    ]
  ]

  unfoldable pub close_frame : Event → Option Bytes → Option Bytes
  close_frame event none = none
  close_frame event (some prefix) = some (prefix ++ (event.payload ++ codes "}"))

  unfoldable pub encode : Event → Hub → Option Bytes × Hub
  unfolding prefix_of close_frame
  encode event h = let (prefix, h') = prefix_of event.topic h in (close_frame event prefix, h')

  -- The message is built for the first client that wants the topic.
  unfoldable pub message : Event → Option Bytes → Hub → Option Bytes × Hub
  message event (some m) h = (some m, h)
  message event none h = encode event h

  -- The `select` on one client's send buffer.
  unfoldable pub deliver : Event → Bytes → Client → Hub → Client × Hub
  deliver event m c h =
      if ltb (length c.send) send_buffer_size
      then (
        record c { send = c.send ++ m ∷ [] },
        record h {
          dispatched = u64 (h.dispatched + event.events);
          ticks = frames_sent ∷ broadcasted event.events ∷ h.ticks;
        },
      )
      else (
        record c { dropped = u64 (c.dropped + event.events) },
        record h {
          dropped = u64 (h.dropped + event.events);
          ticks = websocket_dropped event.events ∷ h.ticks;
        },
      )

  -- The loop of `dispatch`, with `msg` as it stands before the next client.
  unfoldable pub dispatch_from : Event → Option Bytes → List Client → Hub → List Client × Hub
  dispatch_from event msg [] h = ([], h)
  dispatch_from event msg (c ∷ cs) h = elim (wants_topic c event.topic) [
    | false ↦ let (cs', h') = dispatch_from event msg cs h in (c ∷ cs', h')
    | true ↦
        let (built, h') = message event msg h in
        elim built [
          | none ↦ (c ∷ cs, h')
          | some m ↦
              let (c', sent) = deliver event m c h' in
              let (cs', h'') = dispatch_from event (some m) cs sent in (c' ∷ cs', h'')
        ]
  ]

  unfoldable pub dispatch : Event → Hub → Hub
  unfolding dispatch_from deliver message encode
  dispatch event h =
      let (cs, h') = dispatch_from event none h.clients h in record h' { clients = cs }
