-- ===== src/Hub/Fanout.antt =====
-- What a dispatch leaves as it was, whatever the frame.
use statusengine_worker.Prelude.{
  ◌≡◌, refl, String, Option, none, some, List, [], ◌∷◌, Bytes, arith, length, length-append, inl,
  inr, Option-cases, All,
}
use statusengine_worker.Hub.{Event, Client, Hub}
use statusengine_worker.Hub.Dispatch.{prefix_of, encode, message, deliver, dispatch_from, dispatch}
use statusengine_worker.Hub.Encoding.{IsCached, encode_lem}
use statusengine_worker.Hub.Invariant.{IsLive, Inv}

module _ (encode_topic : String → Option Bytes) where
  dispatch_from-IsCached :
      (event : Event) (msg : Option Bytes) (cs : List Client) (h : Hub)
      → IsCached encode_topic h.topic_prefix
      → IsCached encode_topic (dispatch_from encode_topic event msg cs h).1.topic_prefix
  unfolding dispatch_from message deliver
  dispatch_from-IsCached event msg [] h c = c
  dispatch_from-IsCached event (some m) (x ∷ cs) h c = ground (
    arith,
    dispatch_from-IsCached event (some m) cs h c,
    dispatch_from-IsCached event (some m) cs (deliver encode_topic event m x h).1,
  )
  dispatch_from-IsCached event none (x ∷ cs) h c =
      elim (Option-cases (encode encode_topic event h).0) [
        | inl bad ↦
            ground
              (arith, dispatch_from-IsCached event none cs h c, encode_lem encode_topic event h c)
        | inr (m, good) ↦ ground (
          arith,
          dispatch_from-IsCached event none cs h c,
          encode_lem encode_topic event h c,
          dispatch_from-IsCached event (some m) cs
              (deliver encode_topic event m x (encode encode_topic event h).1).1,
        )
      ]

  dispatch_from-length :
      (event : Event) (msg : Option Bytes) (cs : List Client) (h : Hub)
      → length (dispatch_from encode_topic event msg cs h).0 ≡ length cs
  unfolding dispatch_from message deliver
  dispatch_from-length event msg [] h = refl
  dispatch_from-length event (some m) (x ∷ cs) h = ground (
    arith,
    dispatch_from-length event (some m) cs h,
    dispatch_from-length event (some m) cs (deliver encode_topic event m x h).1,
  )
  dispatch_from-length event none (x ∷ cs) h = elim (Option-cases (encode encode_topic event h).0) [
    | inl bad ↦ ground (arith, dispatch_from-length event none cs h)
    | inr (m, good) ↦ ground (
      arith,
      dispatch_from-length event none cs h,
      dispatch_from-length event (some m) cs
          (deliver encode_topic event m x (encode encode_topic event h).1).1,
    )
  ]

  deliver-IsLive :
      (event : Event) (m : Bytes) (c : Client) (h : Hub)
      → IsLive c
      → IsLive (deliver encode_topic event m c h).0
  unfolding deliver
  deliver-IsLive event m c h l = ground (arith, length-append c.send (m ∷ []))

  dispatch_from-IsLive :
      (event : Event) (msg : Option Bytes) (cs : List Client) (h : Hub)
      → All IsLive cs
      → All IsLive (dispatch_from encode_topic event msg cs h).0
  unfolding dispatch_from message
  dispatch_from-IsLive event msg [] h l = tt
  dispatch_from-IsLive event (some m) (x ∷ cs) h l = ground (
    arith,
    deliver-IsLive event m x h l.0,
    dispatch_from-IsLive event (some m) cs h l.1,
    dispatch_from-IsLive event (some m) cs (deliver encode_topic event m x h).1 l.1,
  )
  dispatch_from-IsLive event none (x ∷ cs) h l =
      elim (Option-cases (encode encode_topic event h).0) [
        | inl bad ↦ ground (arith, dispatch_from-IsLive event none cs h l.1)
        | inr (m, good) ↦ ground (
          arith,
          deliver-IsLive event m x (encode encode_topic event h).1 l.0,
          dispatch_from-IsLive event none cs h l.1,
          dispatch_from-IsLive event (some m) cs
              (deliver encode_topic event m x (encode encode_topic event h).1).1 l.1,
        )
      ]

  -- The fields that a dispatch never writes.
  abbrev Keeps : Hub → Hub → Type 0
  Keeps h h' = (h'.client_count ≡ h.client_count) × (h'.broadcast ≡ h.broadcast)

  encode-Keeps : (event : Event) (h : Hub) → Keeps h (encode encode_topic event h).1
  unfolding encode prefix_of
  encode-Keeps event h = ground arith

  dispatch_from-Keeps :
      (event : Event) (msg : Option Bytes) (cs : List Client) (h : Hub)
      → Keeps h (dispatch_from encode_topic event msg cs h).1
  unfolding dispatch_from message deliver
  dispatch_from-Keeps event msg [] h = (refl, refl)
  dispatch_from-Keeps event (some m) (x ∷ cs) h = ground (
    arith,
    dispatch_from-Keeps event (some m) cs h,
    dispatch_from-Keeps event (some m) cs (deliver encode_topic event m x h).1,
  )
  dispatch_from-Keeps event none (x ∷ cs) h = elim (Option-cases (encode encode_topic event h).0) [
    | inl bad ↦ ground (arith, dispatch_from-Keeps event none cs h, encode-Keeps event h)
    | inr (m, good) ↦ ground (
      arith,
      dispatch_from-Keeps event none cs h,
      encode-Keeps event h,
      dispatch_from-Keeps event (some m) cs
          (deliver encode_topic event m x (encode encode_topic event h).1).1,
    )
  ]

  pub dispatch-Inv :
      (event : Event) (h : Hub)
      → Inv encode_topic h
      → Inv encode_topic (dispatch encode_topic event h)
  unfolding dispatch
  dispatch-Inv event h v = ground (
    arith,
    dispatch_from-Keeps event none h.clients h,
    dispatch_from-length event none h.clients h,
    dispatch_from-IsLive event none h.clients h v.live,
    dispatch_from-IsCached event none h.clients h v.cached,
  )
