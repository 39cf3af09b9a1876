-- ===== src/Queue/SharedTests.antt =====
-- A handler on a bulk inserter that `Run` and another handler work on at the same time.
use statusengine_worker.Prelude.{ℕ, true, false, none, some, List, [], ◌∷◌, ◌++◌, codes, ◌≡◌, refl}
use statusengine_worker.Hub.{new_hub, has_clients}
use statusengine_worker.Bulk.{BulkInserter}
use statusengine_worker.Bulk.Retry.{Answer}
use statusengine_worker.Bulk.Run as Run
use statusengine_worker.Bulk.Run.{run, start, enqueues, reads}
use statusengine_worker.Bulk.Conservation.{shipped}
use statusengine_worker.Queue.{publish_batch}
use statusengine_worker.Queue.Handlers.{World, enqueue_all, new_handler}
use statusengine_worker.Queue.Shared.{Turn, others, self, Shared, db_enqueue}
use statusengine_worker.Queue.Acknowledged.{Sublist, new_handler-run}
use statusengine_worker.Queue.Tests.{marshal, numbers}

-- The bulk inserter behind the handler.
abbrev pub empty_inserter : BulkInserter ℕ ℕ
empty_inserter = record {
  table = codes "t";
  columns = codes "x" ∷ [];
  to_row = λ p dst. dst ++ p ∷ [];
  update_columns = [];
  row_placeholder = codes "(?)";
  update_clause = [];
  in_chan = [];
  max_batch_size = 2;
  buffer = [];
  flushes_since_stats = 0;
  rows_since_stats = 0;
  processed = 0;
  ticks = [];
}

abbrev pub ok : Answer
ok = record { result = none; cancelled = false; slept = true }

-- `Run` reads one of the two items before the other finds room, behind that of another handler.
abbrev pub turns : List (Turn ℕ)
turns = self ∷ others (enqueues 9) ∷ self ∷ others (reads []) ∷ self ∷ others (reads (ok ∷ [])) ∷ []

abbrev pub before_payload : World (Shared ℕ ℕ)
before_payload = record {
  hub = new_hub;
  inserters = record { world = run (start empty_inserter) []; turns = turns; mine = [] };
  ticks = [];
}

-- The channel is full, and the third turn finds it read.
abbrev crowded : Shared ℕ ℕ
crowded = record {
  world = run (start empty_inserter) (enqueues 7 ∷ enqueues 8 ∷ []);
  turns = self ∷ others (reads []) ∷ self ∷ [];
  mine = [];
}

abbrev after_payload : World (Shared ℕ ℕ)
after_payload = (new_handler marshal "t" numbers db_enqueue (3 ∷ 4 ∷ []) before_payload).1

new_handler-run_example :
    let z = run after_payload.inserters.world (reads [] ∷ reads (ok ∷ []) ∷ []) in
    (items : List ℕ) × (since : List ℕ) × (numbers (3 ∷ 4 ∷ []) ≡ some items)
    × (shipped z.batches ++ (z.inserter.buffer ++ z.inserter.in_chan)
        ≡ (run (start empty_inserter) []).accepted ++ since)
    × Sublist items since
unfolding new_handler enqueue_all db_enqueue publish_batch new_hub has_clients run Run.enqueue
    Run.step Run.round Run.read_into
new_handler-run_example =
    new_handler-run marshal "t" numbers empty_inserter [] (reads [] ∷ reads (ok ∷ []) ∷ []) turns
      (3 ∷ 4 ∷ []) before_payload after_payload refl refl refl refl
