-- ===== src/Queue/ConsumeTests.antt =====
-- A consumer that gets three deliveries: one is stored, one cannot be decoded, one finds no room.
use statusengine_worker.Prelude.{
  ◌<◌, ◌≤◌, ◌⊎◌, not, ltb, arith, if◌then◌else◌, ℕ, true, List, [], ◌∷◌, ◌++◌, ◌≡◌, refl,
}
use statusengine_worker.Hub.{new_hub, has_clients}
use statusengine_worker.Queue.{publish_batch, is_permanent}
use statusengine_worker.Queue.Handlers.{World, new_handler, enqueue_all}
use statusengine_worker.Queue.Repaired.{repair_utf8-valid}
use statusengine_worker.Queue.Repair.{
  valid, repair_utf8, valid_from, next_rune, lead_of, tail_of, repair_from, encode_rune,
  continuation,
}
use statusengine_worker.Queue.Consume.{
  acked, dropped, requeued, Delivery, Consumer, consume_loop, consume_one, after_handler,
  observe_handler,
}
use statusengine_worker.Queue.Deliveries.{new_consumer, IsHonest}
use statusengine_worker.Queue.Settled.{consume_loop-settles}
use statusengine_worker.Queue.Shared.{Shared, db_enqueue}
use statusengine_worker.Queue.Acknowledged.{Sublist, db_enqueue-Records}
use statusengine_worker.Bulk.Run.{reads, run, enqueue, step, start}
use statusengine_worker.Bulk.Conservation.{shipped}
use statusengine_worker.Queue.Tests.{two_items, marshal, numbers, quiet}
use statusengine_worker.Queue.SharedTests.{empty_inserter, before_payload, turns, ok}

-- A code page.
abbrev umlaut : ℕ → ℕ
umlaut b = if ltb b 0x100 then b else 0xFFFD

umlaut_scalar : (b : ℕ) → (umlaut b < 0xD800) ⊎ ((0xE000 ≤ umlaut b) × (umlaut b < 0x10000))
umlaut_scalar b = ground arith

-- An umlaut of the code page, between two letters, becomes two bytes.
repaired_text :
    repair_utf8 umlaut (0x61 ∷ 0xFC ∷ 0x62 ∷ []) ≡ (0x61 ∷ 0xC3 ∷ 0xBC ∷ 0x62 ∷ [], true)
unfolding repair_utf8 valid_from next_rune lead_of tail_of repair_from encode_rune continuation
repaired_text = refl

abbrev deliveries : List Delivery
deliveries =
    record { body = 3 ∷ 4 ∷ []; paused = true }
    ∷ record { body = []; paused = true }
    ∷ record { body = 5 ∷ []; paused = true }
    ∷ []

abbrev after : Consumer × World (List ℕ)
after =
    consume_loop umlaut "q" (new_handler marshal "t" numbers two_items) deliveries
      (new_consumer, quiet)

answers_given : after.0.answers ≡ (3 ∷ 4 ∷ [], acked) ∷ ([], dropped) ∷ (5 ∷ [], requeued) ∷ []
unfolding consume_loop consume_one after_handler observe_handler repair_utf8 valid_from next_rune
    lead_of tail_of new_handler enqueue_all publish_batch new_hub has_clients is_permanent
answers_given = refl

-- The same deliveries, on the bulk inserter: the last one finds no room before the turns end.
abbrev settled : Consumer × World (Shared ℕ ℕ)
settled =
    consume_loop umlaut "q" (new_handler marshal "t" numbers db_enqueue) deliveries
      (new_consumer, before_payload)

consume_loop-settles_example :
    let z = run settled.1.inserters.world (reads [] ∷ reads (ok ∷ []) ∷ []) in
    IsHonest umlaut marshal "t" numbers db_enqueue
      (λ (t : Shared ℕ ℕ). t.mine)
      db_enqueue-Records
      settled
    × ((since : List ℕ) × (shipped z.batches ++ (z.inserter.buffer ++ z.inserter.in_chan)
          ≡ (run (start empty_inserter) []).accepted ++ since)
        × Sublist settled.1.inserters.mine since)
consume_loop-settles_example =
    consume_loop-settles umlaut marshal "t" numbers "q" empty_inserter []
      (reads [] ∷ reads (ok ∷ []) ∷ []) deliveries before_payload turns refl refl refl

stored_items : settled.1.inserters.mine ≡ 3 ∷ 4 ∷ []
unfolding consume_loop consume_one after_handler observe_handler repair_utf8 valid_from next_rune
    lead_of tail_of new_handler enqueue_all db_enqueue publish_batch new_hub has_clients
    is_permanent run enqueue step
stored_items = refl

repair_utf8-valid_example :
    (valid (repair_utf8 umlaut (0x61 ∷ 0xFC ∷ [])).0 ≡ true)
    × (((repair_utf8 umlaut (0x61 ∷ 0xFC ∷ [])).1 ≡ true)
        ⊎ ((repair_utf8 umlaut (0x61 ∷ 0xFC ∷ [])).0 ≡ 0x61 ∷ 0xFC ∷ []))
    × ((repair_utf8 umlaut (0x61 ∷ 0xFC ∷ [])).1 ≡ not (valid (0x61 ∷ 0xFC ∷ [])))
repair_utf8-valid_example = repair_utf8-valid umlaut umlaut_scalar (0x61 ∷ 0xFC ∷ [])
