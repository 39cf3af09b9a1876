-- ===== src/Hub/Invariant.antt =====
-- What holds of the hub between two rounds of `Run`, and after it has returned.
use statusengine_worker.Prelude.{
  ℕ, suc, ◌≤◌, ◌≡◌, refl, String, true, false, Option, List, [], ◌∷◌, ◌++◌, pos, ◌+ℤ◌, Bytes, arith,
  length, length-append, ◌==◌, inl, inr, Bool-cases, All,
}
use statusengine_worker.Hub.{
  Client, SubscriptionMessage, Hub, new_hub, publish, is_registered, delete_client, update_client,
  subscribe, register, remove_client, apply_subscription_update, send_buffer_size,
  broadcast_buffer_size, take_frame, write_pump,
}
use statusengine_worker.Hub.Encoding.{IsCached}

-- A registered client's channel is open and within its capacity.
abbrev pub IsLive : Client → Type 0
IsLive c = (c.closed ≡ false) × (length c.send ≤ send_buffer_size)

module _ (encode_topic : String → Option Bytes) where
  pub record Inv (h : Hub) : Type 0 where
    pub count_exact : h.client_count ≡ pos (length h.clients)
    pub live : All IsLive h.clients
    pub bounded : length h.broadcast ≤ broadcast_buffer_size
    pub cached : IsCached encode_topic h.topic_prefix

  pub new_hub-Inv : Inv new_hub
  unfolding new_hub
  new_hub-Inv = record { count_exact = refl; live = tt; bounded = omega arith; cached = tt }

  pub publish-Inv :
      (h : Hub) (topic : String) (payload : Bytes) (events : ℕ)
      → Inv h
      → Inv (publish h topic payload events)
  unfolding publish
  publish-Inv h topic payload events v = grind (arith, length-append {0})

  All-add_client :
      (c : Client) (cs : List Client) → IsLive c → All IsLive cs → All IsLive (cs ++ c ∷ [])
  All-add_client c [] h k = (h, tt)
  All-add_client c (x ∷ cs) h (p, k) = (p, All-add_client c cs h k)

  pub register-Inv :
      (c : Client) (h : Hub)
      → IsLive c
      → is_registered c.id h.clients ≡ false
      → Inv h
      → Inv (register c h)
  unfolding register ◌+ℤ◌
  register-Inv c h l fresh v =
      ground (arith, length-append h.clients (c ∷ []), All-add_client c h.clients l v.live)

  delete_client_lem :
      (id : ℕ) (cs : List Client)
      → is_registered id cs ≡ true
      → suc (length (delete_client id cs)) ≡ length cs
  delete_client_lem id [] h = cc
  delete_client_lem id (c ∷ cs) h = ground (arith, delete_client_lem id cs)

  All-delete_client : (id : ℕ) (cs : List Client) → All IsLive cs → All IsLive (delete_client id cs)
  All-delete_client id [] h = tt
  All-delete_client id (c ∷ cs) (p, h) = elim (Bool-cases (c.id == id)) [
    | inl same ↦ rw same h
    | inr other ↦ rw other (p, All-delete_client id cs h)
  ]

  pub remove_client-Inv : (id : ℕ) (h : Hub) → Inv h → Inv (remove_client id h)
  unfolding remove_client ◌+ℤ◌
  remove_client-Inv id h v =
      ground (arith, delete_client_lem id h.clients, All-delete_client id h.clients v.live)

  All-update_client :
      (id : ℕ) (f : Client → Client) (cs : List Client)
      → ((c : Client) → IsLive c → IsLive (f c))
      → All IsLive cs
      → All IsLive (update_client id f cs)
  All-update_client id f [] k h = tt
  All-update_client id f (c ∷ cs) k (p, h) = elim (Bool-cases (c.id == id)) [
    | inl same ↦ rw same (k c p, h)
    | inr other ↦ rw other (p, All-update_client id f cs k h)
  ]

  length-update_client :
      (id : ℕ) (f : Client → Client) (cs : List Client) → length (update_client id f cs) ≡ length cs
  length-update_client id f [] = refl
  length-update_client id f (c ∷ cs) = ground (arith, length-update_client id f cs)

  pub update-Inv :
      (id : ℕ) (sub : SubscriptionMessage) (h : Hub)
      → Inv h
      → Inv (apply_subscription_update id sub h)
  unfolding apply_subscription_update
  update-Inv id sub h v = ground (
    arith,
    length-update_client id (subscribe sub) h.clients,
    All-update_client id (subscribe sub) h.clients (λ c l. l) v.live,
  )

  take_frame-IsLive : (c : Client) → IsLive c → IsLive (take_frame c)
  unfolding take_frame
  take_frame-IsLive c l = go c.send refl
    where
      go : (ms : List Bytes) → c.send ≡ ms → IsLive (take_frame c)
      go [] e = ground arith
      go (m ∷ ms) e = ground arith

  pub write_pump-Inv : (id : ℕ) (h : Hub) → Inv h → Inv (write_pump id h)
  unfolding write_pump
  write_pump-Inv id h v = ground (
    arith,
    length-update_client id take_frame h.clients,
    All-update_client id take_frame h.clients take_frame-IsLive v.live,
  )
