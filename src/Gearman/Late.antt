-- ===== src/Gearman/Late.antt =====
-- A worker whose `Work` begins after `Stop` has closed it.
use statusengine_worker.Prelude.{
  ℕ, zero, suc, ◌<◌, ◌≤◌, ◌≡◌, refl, ap, ◌∙◌, Bool, true, false, [], arith,
}
use statusengine_worker.Gearman.{
  hung_in, QueueWorker, not_stopped, closing, closed, GearmanConsumer, put, start_work, begin_stop,
  close_one, close_gate, close_out,
}
use statusengine_worker.Gearman.Steps.{
  Router, works, stops, closes, all_closed, gates, waits, Reachable, here, next,
}
use statusengine_worker.Gearman.Shutdown.{is_finished}
use statusengine_worker.Gearman.Sound.{put_self}

module _ {S : Type 0} (cp1252 : ℕ → ℕ) (router : Router S) where
  -- `Stop` has closed the first `k` workers of its snapshot.
  record HasClosed (s c : GearmanConsumer S) (workers : ℕ → ℕ) (k : ℕ) : Type 0 where
    d : GearmanConsumer S
    path : Reachable cp1252 router s d
    done : ℕ → Bool
    at : d.stop ≡ closing workers done
    below : (j : ℕ) → j < k → done j ≡ true
    same_queues : d.queues ≡ c.queues
    same_begun : d.begun ≡ c.begun
    same_offered : d.offered ≡ c.offered

  put_below :
      (done : ℕ → Bool) (k : ℕ)
      → ((j : ℕ) → j < k → done j ≡ true)
      → (j : ℕ) → j < suc k
      → put k true done j ≡ true
  unfolding put
  put_below done k h j lt = ground (arith, h j)

  closes_below :
      (s c : GearmanConsumer S) (workers : ℕ → ℕ) (done : ℕ → Bool) (k : ℕ)
      → k ≤ router.size
      → Reachable cp1252 router s c
      → c.stop ≡ closing workers done
      → HasClosed s c workers k
  unfolding close_one
  closes_below s c workers done zero h r e = record {
    d = c;
    path = r;
    done = done;
    at = e;
    below = λ j lt. absurd (omega arith);
    same_queues = refl;
    same_begun = refl;
    same_offered = refl;
  }
  closes_below s c workers done (suc k) h r e =
      let p = closes_below s c workers done k (omega arith) r e in
      record {
        d = close_one k workers p.done p.d;
        path = next p.path (closes k workers p.done p.d (omega arith) p.at);
        done = put k true p.done;
        at = refl;
        below = put_below p.done k p.below;
        same_queues = p.same_queues;
        same_begun = p.same_begun;
        same_offered = p.same_offered;
      }

  -- Whenever a supervisor has stored a new worker and has not started its `Work` yet, and no job has
  -- begun, the goroutines may go on in an order in which `Stop` runs from its beginning to its end
  -- and the stored worker asks for jobs thereafter.
  pub hung_in-outlives :
      (c : GearmanConsumer S) (i worker : ℕ)
      → i < router.size
      → c.stop ≡ not_stopped
      → (c.queues i).supervisor ≡ hung_in worker
      → c.begun ≡ []
      → c.offered ≡ []
      → (d : GearmanConsumer S) × Reachable cp1252 router c d
        × (is_finished d.stop ≡ true)
        × (d.working i worker ≡ true)
  unfolding begin_stop close_gate close_out start_work
  hung_in-outlives c i worker in_range no_stop stored no_begun no_offered =
      let workers = λ (j : ℕ). (c.queues j).worker in
      let p =
        closes_below c (begin_stop c) workers (λ j. false) router.size (omega arith)
          (next here (stops c no_stop)) refl in
      let c₁ : GearmanConsumer S = record (p.d) { stop = closed workers } in
      let c₂ : GearmanConsumer S = close_gate workers c₁ in
      let c₃ : GearmanConsumer S = close_out workers c₂ in
      let path =
        next
          (next (next p.path (all_closed workers p.done p.d p.at p.below)) (gates workers c₁ refl))
          (waits workers c₂ refl (p.same_begun ∙ no_begun) (p.same_offered ∙ no_offered)) in
      (
        start_work i worker c₃,
        next path (
            works i worker c₃ in_range
              (ap (λ (q : ℕ → QueueWorker). (q i).supervisor) p.same_queues ∙ stored)),
        refl,
        ap (λ (f : ℕ → Bool). f worker) (put_self i (put worker true (p.d.working i)) p.d.working)
            ∙ put_self worker true (p.d.working i),
      )
