-- ===== src/Gearman/Tests.antt =====
-- A consumer of one queue, in two orders of its goroutines.
use statusengine_worker.Prelude.{
  ◌⊎◌, ℕ, u64, ◌+◌, ◌<◌, ◌≡◌, refl, Bool, true, false, not, ◌&&◌, none, some, List, [], ◌∷◌, ◌++◌,
  Bytes, codes, arith, count, ◌==◌, if◌then◌else◌,
}
use statusengine_worker.Hub.{new_hub}
use statusengine_worker.Queue.{decode_failed}
use statusengine_worker.Queue.Handlers.{World, Handler}
use statusengine_worker.Queue.Consume.{observe_handler}
use statusengine_worker.Queue.Repair.{repair_utf8, repair_from, next_rune, lead_of, tail_of}
use statusengine_worker.Gearman.{
  Job, GearmanConsumer, begin_handler, offer_copy, after_handler, begin_stop, close_one, close_gate,
  close_out, start_work, put, closed, started, job_limit_for,
}
use statusengine_worker.Gearman.Steps.{
  Router, works, dispatches, begins, offers, handles, stops, closes, all_closed, gates, waits,
  Reachable, here, next,
}
use statusengine_worker.Gearman.Shutdown.{is_finished, Reachable-no_panic}
use statusengine_worker.Gearman.Generations.{Reachable-snapshot}
use statusengine_worker.Gearman.Jobs.{answered, completes, failures, Reachable-jobs}
use statusengine_worker.Gearman.Late.{hung_in-outlives}

in_order : job_limit_for 64 "statusngin_downtimes" ≡ 1
unfolding job_limit_for
in_order = refl

concurrent : job_limit_for 64 "statusngin_hoststatus" ≡ 64
unfolding job_limit_for
concurrent = refl

-- Keeps the payloads, and refuses an empty one.
abbrev keep : Handler (List Bytes)
keep [] w = (some decode_failed, w)
keep (b ∷ payload) w = (none, record w { inserters = (b ∷ payload) ∷ w.inserters })

abbrev one_queue : Router (List Bytes)
one_queue = record { size = 1; name = λ i. "statusngin_logentries"; handle = λ i. keep }

abbrev same : ℕ → ℕ
same b = b

abbrev fresh_world : World (List Bytes)
fresh_world = record { hub = new_hub; inserters = []; ticks = [] }

abbrev hello : Job
hello = record { queue = 0; payload = codes "hello" }

abbrev Reached : GearmanConsumer (List Bytes) → Type 0
Reached = Reachable same one_queue (started fresh_world)

-- A job arrives, `Stop` closes the worker, the job is handled, and `Stop` ends.
abbrev c₁ : GearmanConsumer (List Bytes)
c₁ = start_work 0 0 (started fresh_world)

abbrev c₂ : GearmanConsumer (List Bytes)
c₂ = record (c₁) { received = hello ∷ []; dispatched = hello ∷ [] }

abbrev c₃ : GearmanConsumer (List Bytes)
c₃ = begin_handler hello (record (c₂) { dispatched = [] })

abbrev found : ℕ → ℕ
found i = (c₃.queues i).worker

abbrev c₄ : GearmanConsumer (List Bytes)
c₄ = begin_stop c₃

abbrev c₅ : GearmanConsumer (List Bytes)
c₅ = offer_copy hello (record (c₄) { begun = [] })

abbrev c₆ : GearmanConsumer (List Bytes)
c₆ = close_one 0 found (λ i. false) c₅

abbrev c₇ : GearmanConsumer (List Bytes)
c₇ =
    after_handler hello (observe_handler same "statusngin_logentries" keep (codes "hello") c₆.world)
      (record (c₆) { offered = [] })

abbrev c₈ : GearmanConsumer (List Bytes)
c₈ = record (c₇) { stop = closed found }

abbrev c₉ : GearmanConsumer (List Bytes)
c₉ = close_gate found c₈

r₃ : Reached c₃
unfolding started start_work put
r₃ =
    next
      (next (next here (works 0 0 _ (omega arith) refl)) (dispatches 0 hello c₁ (omega arith) refl))
      (begins hello [] [] c₂ refl)

r₄ : Reached c₄
unfolding started start_work begin_handler
r₄ = next r₃ (stops c₃ refl)

r₇ : Reached c₇
unfolding started start_work begin_handler begin_stop offer_copy close_one
r₇ =
    next
      (next (next r₄ (offers hello [] [] c₄ refl))
        (closes 0 found (λ i. false) c₅ (omega arith) refl))
      (handles hello [] [] c₆ refl)

all_done : (i : ℕ) → i < 1 → put 0 true (λ j. false) i ≡ true
unfolding put
all_done i h = ground arith

r₉ : Reached c₉
unfolding close_one after_handler observe_handler repair_utf8 next_rune lead_of tail_of repair_from
r₉ =
    next (next r₇ (all_closed found (put 0 true (λ j. false)) c₇ refl all_done))
      (gates found c₈ refl)

abbrev c₁₀ : GearmanConsumer (List Bytes)
c₁₀ = close_out found c₉

r₁₀ : Reached c₁₀
unfolding start_work started begin_handler begin_stop offer_copy close_one after_handler close_gate
    observe_handler repair_utf8 next_rune lead_of tail_of repair_from
r₁₀ = next r₉ (waits found c₉ refl refl refl)

stored : c₁₀.world.inserters ≡ codes "hello" ∷ []
unfolding start_work started begin_handler begin_stop offer_copy close_one after_handler close_gate
    close_out observe_handler repair_utf8 next_rune lead_of tail_of repair_from
stored = refl

Reachable-no_panic_example :
    (c₁₀.panicked ≡ false)
    × ((if c₁₀.out_closed then c₁₀.begun ++ c₁₀.offered else []) ≡ [])
    × ((c₁₀.out_closed && not c₁₀.stopped) ≡ false)
Reachable-no_panic_example = Reachable-no_panic same one_queue fresh_world c₁₀ r₁₀

abbrev is_first : Job → Bool
is_first job = job.queue == 0

Reachable-jobs_example :
    (count is_first c₁₀.received
      ≡ count is_first c₁₀.dispatched
        + count is_first c₁₀.begun
        + count is_first c₁₀.offered
        + count is_first (answered c₁₀.answers))
    × (c₁₀.processed ≡ u64 (completes c₁₀.answers))
    × (c₁₀.errors ≡ u64 (failures c₁₀.answers))
Reachable-jobs_example = Reachable-jobs is_first same one_queue fresh_world c₁₀ r₁₀

Reachable-snapshot_example :
    ((c₄.queues 0).worker ≡ 0) × ((c₄.working 0 1 ≡ false) ⊎ (◌≡◌ {A = ℕ} 1 0))
unfolding started start_work begin_handler begin_stop put
Reachable-snapshot_example = Reachable-snapshot same one_queue fresh_world c₄ 0 1 0 r₄ refl

hung_in-outlives_example :
    (d : GearmanConsumer (List Bytes)) × Reachable same one_queue (started fresh_world) d
    × (is_finished d.stop ≡ true)
    × (d.working 0 0 ≡ true)
unfolding started
hung_in-outlives_example =
    hung_in-outlives same one_queue (started fresh_world) 0 0 (omega arith) refl refl refl refl
