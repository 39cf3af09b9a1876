-- ===== src/Queue/Shared.antt =====
-- internal/db/db.go: `Enqueue` as the handlers call it, on a bulk inserter that its `Run` and the handlers
-- of other payloads work on at the same time. The turns are what happens from now on, one after the
-- other; they end when the context of the handler is done.
use statusengine_worker.Prelude.{Bool, true, false, List, [], ◌∷◌, ◌++◌, ltb, length}
use statusengine_worker.Bulk.Run.{Input, World, enqueue, step}
use statusengine_worker.Queue.Handlers.{Enqueue}

-- A turn of the others is a round of `Run`, or an item that another handler enqueues.
pub data Turn (P : Type 0) : Type 0 where
  others : Input P → Turn P
  self : Turn P

-- The inserter, the turns to come, and what the handler has enqueued, oldest first.
pub record Shared (P V : Type 0) : Type 0 where
  pub world : World P V
  pub turns : List (Turn P)
  pub mine : List P

module _ {P V : Type 0} where
  abbrev pub has_room : World P V → Bool
  has_room w = ltb (length w.inserter.in_chan) w.inserter.max_batch_size

  -- The item is accepted at a turn of one's own at which the channel has room; as long as there is
  -- none, the call blocks.
  unfoldable pub block : P → List (Turn P) → World P V → List P → Bool × Shared P V
  block p [] w mine = (false, record { world = w; turns = []; mine = mine })
  block p (others i ∷ turns) w mine = block p turns (step w i) mine
  block p (self ∷ turns) w mine = elim (has_room w) [
    | true ↦ (true, record { world = enqueue p w; turns = turns; mine = mine ++ p ∷ [] })
    | false ↦ block p turns w mine
  ]

  unfoldable pub db_enqueue : Enqueue P (Shared P V)
  unfolding block
  db_enqueue p s = block p s.turns s.world s.mine
