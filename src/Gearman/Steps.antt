-- ===== src/Gearman/Steps.antt =====
-- internal/queue/gearman.go: the steps that the goroutines of a consumer may take, in any order. A
-- supervisor also ends when the context is done, after which `Stop` begins; that is `quit` here.
use statusengine_worker.Prelude.{ℕ, ◌<◌, ◌≡◌, ◌⊎◌, String, Bool, true, List, [], ◌∷◌, ◌++◌, ◌-◌}
use statusengine_worker.Queue.Handlers.{Handler}
use statusengine_worker.Queue.Consume.{observe_handler}
use statusengine_worker.Gearman.{
  Job, watching, ending, retrying, ended, built, hung_in, not_stopped, closing, closed, draining,
  GearmanConsumer, supervise, report_lost, take_lost, end_dead, build, hang_in, start_work,
  begin_handler, offer_copy, after_handler, begin_stop, close_one, close_gate, close_out,
}

-- The queues, with their names and handlers.
pub record Router (S : Type 0) : Type 0 where
  pub size : ℕ
  pub name : ℕ → String
  pub handle : ℕ → Handler S

module _ {S : Type 0} (cp1252 : ℕ → ℕ) (router : Router S) where
  pub data Step : GearmanConsumer S → GearmanConsumer S → Type 0 where
    loses : (i : ℕ) (c : GearmanConsumer S) → i < router.size → Step c (report_lost i c)
    takes :
        (i : ℕ) (c : GearmanConsumer S)
        → i < router.size
        → (c.queues i).supervisor ≡ watching
        → (c.queues i).lost ≡ true
        → Step c (take_lost i c)
    ends :
        (i : ℕ) (c : GearmanConsumer S)
        → i < router.size
        → (c.queues i).supervisor ≡ ending
        → Step c (end_dead i c)
    quits :
        (i : ℕ) (c : GearmanConsumer S)
        → i < router.size
        → ((c.queues i).supervisor ≡ watching) ⊎ ((c.queues i).supervisor ≡ retrying)
        → Step c (supervise i ended c)
    builds :
        (i : ℕ) (c : GearmanConsumer S)
        → i < router.size
        → (c.queues i).supervisor ≡ retrying
        → Step c (build i c)
    hangs :
        (i fresh : ℕ) (c : GearmanConsumer S)
        → i < router.size
        → (c.queues i).supervisor ≡ built fresh
        → Step c (hang_in i fresh c)
    works :
        (i fresh : ℕ) (c : GearmanConsumer S)
        → i < router.size
        → (c.queues i).supervisor ≡ hung_in fresh
        → Step c (start_work i fresh c)
    -- A worker hands a job to a goroutine of its own.
    dispatches :
        (worker : ℕ) (job : Job) (c : GearmanConsumer S)
        → job.queue < router.size
        → c.working job.queue worker ≡ true
        → Step c (record c { received = job ∷ c.received; dispatched = job ∷ c.dispatched })
    begins :
        (job : Job) (before after : List Job) (c : GearmanConsumer S)
        → c.dispatched ≡ before ++ job ∷ after
        → Step c (begin_handler job (record c { dispatched = before ++ after }))
    offers :
        (job : Job) (before after : List Job) (c : GearmanConsumer S)
        → c.begun ≡ before ++ job ∷ after
        → Step c (offer_copy job (record c { begun = before ++ after }))
    handles :
        (job : Job) (before after : List Job) (c : GearmanConsumer S)
        → c.offered ≡ before ++ job ∷ after
        → Step c (
            after_handler job
              (observe_handler cp1252
                (router.name job.queue)
                (router.handle job.queue)
                job.payload
                c.world)
              (record c { offered = before ++ after }))
    -- Whoever reads the channel that `Start` returned.
    observes : (c : GearmanConsumer S) → Step c (record c { out_length = c.out_length - 1 })
    stops : (c : GearmanConsumer S) → c.stop ≡ not_stopped → Step c (begin_stop c)
    closes :
        (i : ℕ) (workers : ℕ → ℕ) (done : ℕ → Bool) (c : GearmanConsumer S)
        → i < router.size
        → c.stop ≡ closing workers done
        → Step c (close_one i workers done c)
    all_closed :
        (workers : ℕ → ℕ) (done : ℕ → Bool) (c : GearmanConsumer S)
        → c.stop ≡ closing workers done
        → ((i : ℕ) → i < router.size → done i ≡ true)
        → Step c (record c { stop = closed workers })
    gates :
        (workers : ℕ → ℕ) (c : GearmanConsumer S)
        → c.stop ≡ closed workers
        → Step c (close_gate workers c)
    -- `handlerWG.Wait` has returned.
    waits :
        (workers : ℕ → ℕ) (c : GearmanConsumer S)
        → c.stop ≡ draining workers
        → c.begun ≡ []
        → c.offered ≡ []
        → Step c (close_out workers c)

  pub data Reachable (s : GearmanConsumer S) : GearmanConsumer S → Type 0 where
    here : Reachable s s
    next : {c d : GearmanConsumer S} → Reachable s c → Step c d → Reachable s d

  pub Reachable-trans : {s c d : GearmanConsumer S} → Reachable s c → Reachable c d → Reachable s d
  Reachable-trans r here = r
  Reachable-trans r (next q st) = next (Reachable-trans r q) st
