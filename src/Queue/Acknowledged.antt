-- ===== src/Queue/Acknowledged.antt =====
-- A handler whose inserter is the bulk inserter of internal/db/db.go: what becomes of the events of a
-- payload that it returns no error for, and that the consumer therefore acknowledges.
use statusengine_worker.Prelude.{
  Option, none, some, List, [], ◌∷◌, ◌++◌, Bytes, String, ◌≡◌, refl, sym, ap, ◌∙◌, subst, arith,
  true, false, ◌⊎◌, append-nil, append_assoc, Bool-cases, Option-cases, inl, inr,
}
use statusengine_worker.Queue.{HandlerError, publish_batch}
use statusengine_worker.Bulk.{BulkInserter}
use statusengine_worker.Bulk.Run as Run
use statusengine_worker.Bulk.Run.{Input, enqueue, step, run, start}
use statusengine_worker.Bulk.Conservation.{shipped, Conserved, enqueue-Conserved, run-Conserved}
use statusengine_worker.Bulk.Growth.{step-Grows, run-Grows}
use statusengine_worker.Queue.Handlers.{World, Enqueue, enqueue_all, new_handler}
use statusengine_worker.Queue.Enqueued.{Records, itself}
use statusengine_worker.Queue.Delivery.{new_handler-delivers}
use statusengine_worker.Queue.Shared.{Turn, others, self, Shared, has_room, block, db_enqueue}

-- The first list is what is left of the second when some of its items are passed over.
pub data Sublist {A : Type 0} : List A → List A → Type 0 where
  nil : Sublist [] []
  passed : {x : A} {xs ys : List A} → Sublist xs ys → Sublist xs (x ∷ ys)
  kept : {x : A} {xs ys : List A} → Sublist xs ys → Sublist (x ∷ xs) (x ∷ ys)

none_kept : {A : Type 0} (ys : List A) → Sublist [] ys
none_kept [] = nil
none_kept (y ∷ ys) = passed (none_kept ys)

pub Sublist-more :
    {A : Type 0} {xs ys : List A} (zs : List A) → Sublist xs ys → Sublist xs (ys ++ zs)
Sublist-more zs nil = none_kept zs
Sublist-more zs (passed s) = passed (Sublist-more zs s)
Sublist-more zs (kept s) = kept (Sublist-more zs s)

Sublist-last :
    {A : Type 0} {xs ys : List A} (z : A) → Sublist xs ys → Sublist (xs ++ z ∷ []) (ys ++ z ∷ [])
Sublist-last z nil = kept nil
Sublist-last z (passed s) = passed (Sublist-last z s)
Sublist-last z (kept s) = kept (Sublist-last z s)

-- What `Enqueue` keeps, the loop of a handler keeps.
enqueue_all-keeps :
    {P S : Type 0} (enq : Enqueue P S) (Q : S → Type 0)
    → ((p : P) (s : S) → Q s → Q (enq p s).1)
    → (items : List P) (w : World S) → Q w.inserters
    → Q (enqueue_all enq items w).1.inserters
unfolding enqueue_all
enqueue_all-keeps enq Q keeps [] w q = q
enqueue_all-keeps enq Q keeps (x ∷ items) w q =
    let s = (enq x w.inserters).1 in
    let first : Q s = keeps x w.inserters q in
    elim (Bool-cases (enq x w.inserters).0) [
      | inl taken ↦
          rw (taken, enqueue_all)
            (enqueue_all-keeps enq Q keeps items (record w { inserters = s }) first)
      | inr refused ↦ rw (refused, enqueue_all) first
    ]

module _ {P V : Type 0} where
  -- The inserter is in order, and of what it accepted beyond `base`, the handler's items are a part.
  pub record IsPart (base : List P) (s : Shared P V) : Type 0 where
    pub conserved : Conserved s.world
    pub since : List P
    pub accepted : s.world.accepted ≡ base ++ since
    pub part : Sublist s.mine since

  block-IsPart :
      (base : List P) (p : P) (turns : List (Turn P)) (w : Run.World P V) (mine since : List P)
      → Conserved w
      → w.accepted ≡ base ++ since
      → Sublist mine since
      → IsPart base (block p turns w mine).1
  unfolding block enqueue run
  block-IsPart base p [] w mine since c e s = record {
    conserved = c;
    since = since;
    accepted = e;
    part = s;
  }
  block-IsPart base p (others i ∷ turns) w mine since c e s =
      let g = step-Grows w i in
      block-IsPart base p turns (step w i) mine (since ++ g.more) (run-Conserved w (i ∷ []) c)
        (g.accepted ∙ (ap (λ xs. xs ++ g.more) e ∙ append_assoc base since g.more))
        (Sublist-more g.more s)
  block-IsPart base p (self ∷ turns) w mine since c e s = elim (Bool-cases (has_room w)) [
    | inl room ↦
        let added : (enqueue p w).accepted ≡ w.accepted ++ p ∷ [] = rw (room, enqueue) refl in
        rw (room, block)
          (record {
            conserved = enqueue-Conserved p w c;
            since = since ++ p ∷ [];
            accepted = added ∙ (ap (λ xs. xs ++ p ∷ []) e ∙ append_assoc base since (p ∷ []));
            part = Sublist-last p s;
          })
    | inr full ↦ rw (full, block) (block-IsPart base p turns w mine since c e s)
  ]

  pub db_enqueue-IsPart :
      (base : List P) (p : P) (s : Shared P V) → IsPart base s → IsPart base (db_enqueue p s).1
  unfolding db_enqueue
  db_enqueue-IsPart base p s h =
      block-IsPart base p s.turns s.world s.mine h.since h.conserved h.accepted h.part

  -- The inserter after some turns at which nothing is accepted from the handler.
  abbrev pub elapsed : Run.World P V → List (Turn P) → Run.World P V
  elapsed w [] = w
  elapsed w (others i ∷ turns) = elapsed (step w i) turns
  elapsed w (self ∷ turns) = elapsed w turns

  block-mine :
      (p : P) (turns : List (Turn P)) (w : Run.World P V) (mine : List P)
      → (((block p turns w mine).0 ≡ true) × ((block p turns w mine).1.mine ≡ mine ++ p ∷ []))
        ⊎ (((block p turns w mine).0 ≡ false) × ((block p turns w mine).1.mine ≡ mine))
  unfolding block
  block-mine p [] w mine = inr (refl, refl)
  block-mine p (others i ∷ turns) w mine = block-mine p turns (step w i) mine
  block-mine p (self ∷ turns) w mine = elim (Bool-cases (has_room w)) [
    | inl room ↦ rw (room, block) (inl (refl, refl))
    | inr full ↦ rw (full, block) (block-mine p turns w mine)
  ]

  pub db_enqueue-Records : Records db_enqueue (λ (s : Shared P V). s.mine) itself
  unfolding db_enqueue
  db_enqueue-Records = record {
    accepted = λ p s ok. elim (block-mine p s.turns s.world s.mine) [
      | inl (taken, added) ↦ added
      | inr (refused, same) ↦ cc
    ];
    refused = λ p s full. elim (block-mine p s.turns s.world s.mine) [
      | inl (taken, added) ↦ cc
      | inr (refused, same) ↦ same
    ];
  }

  pub new_handler-IsPart :
      (base : List P) (marshal : List P → Option Bytes) (topic : String)
      (decode : Bytes → Option (List P)) (payload : Bytes) (w : World (Shared P V))
      → IsPart base w.inserters
      → IsPart base (new_handler marshal topic decode db_enqueue payload w).1.inserters
  unfolding new_handler
  new_handler-IsPart base marshal topic decode payload w h = elim (Option-cases (decode payload)) [
    | inl bad ↦ rw (bad, new_handler) h
    | inr (items, good) ↦
        rw (good, new_handler)
          (enqueue_all-keeps db_enqueue (IsPart base) (db_enqueue-IsPart base) items
            (record w { hub = publish_batch marshal w.hub topic items }) h)
  ]

  -- What has happened to an inserter that started empty.
  pub start-IsPart :
      (b : BulkInserter P V) (rounds : List (Input P)) (turns : List (Turn P))
      → b.buffer ≡ []
      → b.in_chan ≡ []
      → IsPart
          (run (start b) rounds).accepted
          (record { world = run (start b) rounds; turns = turns; mine = [] })
  start-IsPart b rounds turns empty quiet = record {
    conserved = run-Conserved (start b) rounds (record { balance = ground arith });
    since = [];
    accepted = sym (append-nil (run (start b) rounds).accepted);
    part = nil;
  }

  -- Whatever follows, the rows are found, after all that was accepted before.
  pub IsPart-found :
      (base : List P) (s : Shared P V) (later : List (Input P))
      → IsPart base s
      → let z = run s.world later in
        (since : List P) × (shipped z.batches ++ (z.inserter.buffer ++ z.inserter.in_chan)
          ≡ base ++ since)
        × Sublist s.mine since
  IsPart-found base s later h =
      let g = run-Grows s.world later in
      let balance = (run-Conserved s.world later h.conserved).balance in
      (
        h.since ++ g.more,
        sym balance
            ∙ (g.accepted
                ∙ (ap (λ xs. xs ++ g.more) h.accepted ∙ append_assoc base h.since g.more)),
        Sublist-more g.more h.part,
      )

module _ {P V : Type 0} (marshal : List P → Option Bytes) (topic : String)
    (decode : Bytes → Option (List P)) where
  -- A handler that `newHandler` makes returned no error, on an inserter that started empty and has
  -- made any rounds; at each of its calls of `Enqueue`, as long as it blocks, `Run` and other
  -- handlers may go on in any way. Then, whatever calls and rounds follow, the rows of all batches,
  -- the buffer and the channel taken together are those accepted before the handler began, followed
  -- by rows among which all decoded events of the payload are, in their order.
  pub new_handler-run :
      (b : BulkInserter P V) (rounds later : List (Input P)) (turns : List (Turn P))
      (payload : Bytes) (w w' : World (Shared P V))
      → b.buffer ≡ []
      → b.in_chan ≡ []
      → w.inserters ≡ record { world = run (start b) rounds; turns = turns; mine = [] }
      → new_handler marshal topic decode db_enqueue payload w ≡ (none, w')
      → let z = run w'.inserters.world later in
        (items : List P) × (since : List P) × (decode payload ≡ some items)
        × (shipped z.batches ++ (z.inserter.buffer ++ z.inserter.in_chan)
            ≡ (run (start b) rounds).accepted ++ since)
        × Sublist items since
  new_handler-run b rounds later turns payload w w' empty quiet history e =
      let base = (run (start b) rounds).accepted in
      let (items, good, taken, hub) =
        new_handler-delivers marshal topic decode db_enqueue (λ (s : Shared P V). s.mine)
          db_enqueue-Records payload w w' e in
      let begun : IsPart base w.inserters =
        subst (IsPart base) (sym history) (start-IsPart b rounds turns empty quiet) in
      let over : IsPart base w'.inserters =
        subst (λ (r : Option HandlerError × World (Shared P V)). IsPart base r.1.inserters) e
          (new_handler-IsPart base marshal topic decode payload w begun) in
      let (since, found, part) = IsPart-found base w'.inserters later over in
      let mine : w'.inserters.mine ≡ items =
        taken ∙ ap (λ (s : Shared P V). s.mine ++ items) history in
      (items, since, good, found, subst (λ xs. Sublist xs since) mine part)
