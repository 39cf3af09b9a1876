-- ===== src/Hub/Encoding.antt =====
-- What `encode` builds does not depend on the cache of encoded topics.
use statusengine_worker.Prelude.{
  String, Option, none, some, List, [], ◌∷◌, ◌++◌, Bytes, codes, str_eq,
}
use statusengine_worker.Prelude.{◌≡◌, arith, eq_iff, Bool-cases, inl, inr, Option-cases}
use statusengine_worker.Hub.{Event, Hub, lookup_prefix, topic_key, payload_key}
use statusengine_worker.Hub.Dispatch.{prefix_of, close_frame, encode}

module _ (encode_topic : String → Option Bytes) where
  -- The frame without a cache.
  abbrev pub frame : Event → Option Bytes
  frame event = elim (encode_topic event.topic) [
    | none ↦ none
    | some encoded ↦ some ((topic_key ++ (encoded ++ payload_key)) ++ (event.payload ++ codes "}"))
  ]

  -- Every cached prefix is the one that its topic encodes to.
  abbrev pub IsCached : List (String × Bytes) → Type 0
  IsCached [] = Unit
  IsCached ((k, p) ∷ rest) =
      ((e : Bytes) × (encode_topic k ≡ some e) × (p ≡ topic_key ++ (e ++ payload_key)))
      × IsCached rest

  lookup_prefix-IsCached :
      (t : String) (m : List (String × Bytes)) (p : Bytes)
      → IsCached m
      → lookup_prefix t m ≡ some p
      → (e : Bytes) × (encode_topic t ≡ some e) × (p ≡ topic_key ++ (e ++ payload_key))
  lookup_prefix-IsCached t [] p h q = cc
  lookup_prefix-IsCached t ((k, p') ∷ rest) p h q = elim (Bool-cases (str_eq k t)) [
    | inl same ↦ (h.0.0, ground (arith, eq_iff k t), ground (arith, eq_iff k t))
    | inr other ↦ lookup_prefix-IsCached t rest p h.1 (ground arith)
  ]

  pub encode_lem :
      (event : Event) (h : Hub)
      → IsCached h.topic_prefix
      → ((encode encode_topic event h).0 ≡ frame event)
        × IsCached (encode encode_topic event h).1.topic_prefix
  unfolding encode prefix_of close_frame
  encode_lem event h c = elim (Option-cases (lookup_prefix event.topic h.topic_prefix)) [
    | inr (p, hit) ↦
        let (e, encodes, same) = lookup_prefix-IsCached event.topic h.topic_prefix p c hit in
        (ground arith, ground arith)
    | inl miss ↦ elim (Option-cases (encode_topic event.topic)) [
      | inl bad ↦ (ground arith, ground arith)
      | inr (e, good) ↦ (ground arith, ground arith)
    ]
  ]
