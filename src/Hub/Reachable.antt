-- ===== src/Hub/Reachable.antt =====
-- The hubs that can arise between two rounds of `Run`: from `NewHub`, by rounds, by frames that the
-- write pumps take, and by calls of `Publish` from the ingestion goroutines, in any order.
use statusengine_worker.Prelude.{
  ℕ, ◌≡◌, ◌≢◌, ◌↔◌, refl, sym, String, Bool, true, false, Option, List, [], ◌∷◌, ◌++◌, pos, negsuc,
  ◌+ℤ◌, Bytes, arith, length, map, append-nil, append_assoc, ap, ◌∙◌, subst, ◌==◌, Bool-cases, inl,
  inr, if◌then◌else◌, if-cases,
}
use statusengine_worker.Metrics.{clients_dec}
use statusengine_worker.Hub.{
  Event, Client, Hub, new_hub, has_clients, publish, is_registered, close_from, close_all, closing,
  after_first, take_frame, update_client, write_pump,
}
use statusengine_worker.Hub.Run.{
  Input, cancelled, registers, unregisters, updates, receives, stats, writes, receive, step, run,
}
use statusengine_worker.Hub.Invariant.{
  IsLive, Inv, new_hub-Inv, publish-Inv, register-Inv, remove_client-Inv, update-Inv,
  write_pump-Inv,
}
use statusengine_worker.Hub.Fanout.{dispatch-Inv}

-- A client registers once, with an open channel that is within its capacity.
abbrev pub Allowed : Hub → Input → Type 0
Allowed h (registers c) =
    IsLive c × (is_registered c.id h.clients ≡ false) × (is_registered c.id h.gone ≡ false)
Allowed h _ = Unit

module _ (encode_topic : String → Option Bytes) where
  close_from_lem :
      (cs : List Client) (h : Hub)
      → h.client_count ≡ pos (length cs)
      → ((close_from cs h).client_count ≡ pos 0)
        × ((close_from cs h).clients ≡ [])
        × ((close_from cs h).gone ≡ h.gone ++ map closing cs)
        × ((close_from cs h).broadcast ≡ h.broadcast)
        × ((close_from cs h).topic_prefix ≡ h.topic_prefix)
  unfolding close_from ◌+ℤ◌
  close_from_lem [] h e = (e, refl, sym (append-nil h.gone), refl, refl)
  close_from_lem (c ∷ cs) h e =
      let h' : Hub = record h {
        gone = h.gone ++ closing c ∷ [];
        client_count = h.client_count +ℤ negsuc 0;
        ticks = clients_dec ∷ h.ticks;
      } in
      let less : h.client_count +ℤ negsuc 0 ≡ pos (length cs) = ground arith in
      ground
        (arith, close_from_lem cs h' less, append_assoc h.gone (closing c ∷ []) (map closing cs))

  close_all-Inv : (h : Hub) → Inv encode_topic h → Inv encode_topic (close_all h)
  unfolding close_all
  close_all-Inv h v = ground (arith, close_from_lem h.clients h v.count_exact)

  if-Inv :
      (b : Bool) {x y : Hub}
      → Inv encode_topic x
      → Inv encode_topic y
      → Inv encode_topic (if b then x else y)
  if-Inv true v w = v
  if-Inv false v w = w

  done-Inv : (h : Hub) → Inv encode_topic h → Inv encode_topic (record h { done = true })
  done-Inv h v = record {
    count_exact = v.count_exact;
    live = v.live;
    bounded = v.bounded;
    cached = v.cached;
  }

  receive-Inv :
      (es : List Event) (h : Hub)
      → es ≡ h.broadcast
      → Inv encode_topic h
      → Inv encode_topic (receive encode_topic es h)
  unfolding receive
  receive-Inv [] h e v = v
  receive-Inv (x ∷ es) h e v = dispatch-Inv encode_topic x _ (record {
    count_exact = v.count_exact;
    live = v.live;
    bounded = omega (arith, ap length e, v.bounded);
    cached = v.cached;
  })

  step-Inv :
      (h : Hub) (i : Input)
      → Allowed h i
      → Inv encode_topic h
      → Inv encode_topic (step encode_topic h i)
  unfolding step
  step-Inv h cancelled a v = if-Inv h.done v (done-Inv _ (close_all-Inv h v))
  step-Inv h (registers c) (live, fresh, new) v =
      if-Inv h.done v (register-Inv encode_topic c h live fresh v)
  step-Inv h (unregisters id) a v = if-Inv h.done v (remove_client-Inv encode_topic id h v)
  step-Inv h (updates id sub) a v = if-Inv h.done v (update-Inv encode_topic id sub h v)
  step-Inv h receives a v = if-Inv h.done v (receive-Inv h.broadcast h refl v)
  step-Inv h stats a v = v
  step-Inv h (writes id) a v = write_pump-Inv encode_topic id h v

  pub data Reachable : Hub → Type 0 where
    created : Reachable new_hub
    stepped : {h : Hub} (i : Input) → Allowed h i → Reachable h → Reachable (step encode_topic h i)
    published :
        {h : Hub} (topic : String) (payload : Bytes) (events : ℕ)
        → Reachable h
        → Reachable (publish h topic payload events)

  -- In every hub that can arise between two rounds the client count is the number of registered clients, every
  -- registered client's channel is open and within its capacity, the inbound buffer is within its
  -- own, and every cached prefix is the encoding of its topic.
  pub Reachable-Inv : {h : Hub} → Reachable h → Inv encode_topic h
  Reachable-Inv created = new_hub-Inv encode_topic
  Reachable-Inv (stepped {h} i a r) = step-Inv h i a (Reachable-Inv r)
  Reachable-Inv (published {h} topic payload events r) =
      publish-Inv encode_topic h topic payload events (Reachable-Inv r)

  -- So a call of `HasClients` between two rounds answers whether a client is registered. During a
  -- round, which changes the map and the count one after the other, it may not.
  pub has_clients_iff : {h : Hub} → Reachable h → (has_clients h ≡ true) ↔ (h.clients ≢ [])
  unfolding has_clients
  has_clients_iff {h} r = go h.clients refl
    where
      go : (cs : List Client) → h.clients ≡ cs → (has_clients h ≡ true) ↔ (h.clients ≢ [])
      go [] e = ground (arith, (Reachable-Inv r).count_exact)
      go (c ∷ cs) e = ground (arith, (Reachable-Inv r).count_exact)

  -- A client that has at most had frames taken from its channel.
  abbrev pub IsDrained : Client → Client → Type 0
  IsDrained c d = (taken : List Bytes) × (c ≡ record d { send = taken ++ d.send })

  abbrev pub AreDrained : List Client → List Client → Type 0
  AreDrained [] [] = Unit
  AreDrained (c ∷ cs) (d ∷ ds) = IsDrained c d × AreDrained cs ds
  AreDrained _ _ = ◌≡◌ {A = Bool} true false

  AreDrained-refl : (cs : List Client) → AreDrained cs cs
  AreDrained-refl [] = tt
  AreDrained-refl (c ∷ cs) = (([], refl), AreDrained-refl cs)

  take_frame-IsDrained : (c d : Client) → IsDrained c d → IsDrained c (take_frame d)
  unfolding take_frame
  take_frame-IsDrained c d (taken, e) = go d.send refl
    where
      go : (ms : List Bytes) → d.send ≡ ms → IsDrained c (record d { send = after_first d.send })
      go [] f = (taken, e ∙ ap (λ xs. record d { send = taken ++ xs }) (f ∙ sym (ap after_first f)))
      go (m ∷ ms) f = (
        taken ++ m ∷ [],
        e
            ∙ ap (λ xs. record d { send = xs })
                (ap (λ xs. taken ++ xs) f
                  ∙ (sym (append_assoc taken (m ∷ []) ms)
                      ∙ ap (λ xs. (taken ++ m ∷ []) ++ after_first xs) (sym f))),
      )

  update_client-AreDrained :
      (id : ℕ) (cs ds : List Client)
      → AreDrained cs ds
      → AreDrained cs (update_client id take_frame ds)
  update_client-AreDrained id [] [] a = tt
  update_client-AreDrained id [] (d ∷ ds) a = cc
  update_client-AreDrained id (c ∷ cs) [] a = cc
  update_client-AreDrained id (c ∷ cs) (d ∷ ds) (a, rest) = elim (Bool-cases (d.id == id)) [
    | inl same ↦ rw same (take_frame-IsDrained c d a, rest)
    | inr other ↦ rw other (a, update_client-AreDrained id cs ds rest)
  ]

  record IsOver (left : List Client) (h : Hub) : Type 0 where
    returned : h.done ≡ true
    none_there : h.clients ≡ []
    none_counted : h.client_count ≡ pos 0
    drained : AreDrained left h.gone

  step-IsOver :
      (left : List Client) (h : Hub) (i : Input)
      → IsOver left h
      → IsOver left (step encode_topic h i)
  unfolding step write_pump
  step-IsOver left h (writes id) o = record {
    returned = o.returned;
    none_there = ap (update_client id take_frame) o.none_there;
    none_counted = o.none_counted;
    drained = update_client-AreDrained id left h.gone o.drained;
  }
  step-IsOver left h stats o = o
  step-IsOver left h cancelled o =
      if-cases (IsOver left) h.done (λ over. o) (λ running. cc (o.returned))
  step-IsOver left h (registers c) o =
      if-cases (IsOver left) h.done (λ over. o) (λ running. cc (o.returned))
  step-IsOver left h (unregisters id) o =
      if-cases (IsOver left) h.done (λ over. o) (λ running. cc (o.returned))
  step-IsOver left h (updates id sub) o =
      if-cases (IsOver left) h.done (λ over. o) (λ running. cc (o.returned))
  step-IsOver left h receives o =
      if-cases (IsOver left) h.done (λ over. o) (λ running. cc (o.returned))

  run-IsOver :
      (left : List Client) (h : Hub) (is : List Input)
      → IsOver left h
      → IsOver left (run encode_topic h is)
  unfolding run
  run-IsOver left h [] o = o
  run-IsOver left h (i ∷ is) o = run-IsOver left (step encode_topic h i) is (step-IsOver left h i o)

  -- A hub that `ctx` cancels leaves no client behind: whatever arrives afterwards, no client is
  -- registered, none is counted, and those that were registered have their channel closed, from
  -- which, as from those closed before, at most frames have been taken in their order.
  pub cancelled_final :
      {h : Hub} (later : List Input)
      → Reachable h
      → h.done ≡ false
      → let h' = run encode_topic (step encode_topic h cancelled) later in
        (h'.clients ≡ [])
        × (h'.client_count ≡ pos 0)
        × AreDrained (h.gone ++ map closing h.clients) h'.gone
  unfolding step close_all
  cancelled_final {h} later r d =
      let closed = close_from_lem h.clients h (Reachable-Inv r).count_exact in
      let left = h.gone ++ map closing h.clients in
      let over : IsOver left (step encode_topic h cancelled) =
        if-cases (IsOver left) h.done (λ done. cc d)
          (λ running. record {
            returned = refl;
            none_there = closed.1;
            none_counted = closed.0;
            drained = subst (AreDrained left) (sym closed.2) (AreDrained-refl left);
          }) in
      let o = run-IsOver left (step encode_topic h cancelled) later over in
      (o.none_there, o.none_counted, o.drained)
