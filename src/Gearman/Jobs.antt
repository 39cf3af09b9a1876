-- ===== src/Gearman/Jobs.antt =====
-- Every job that the consumer is given is answered once, or still under way.
use statusengine_worker.Prelude.{
  ℕ, u64, ◌+◌, ◌≡◌, refl, ap, ◌∙◌, Bool, false, Option, none, some, List, [], ◌∷◌, ◌++◌, map, arith,
  count, count-append, if◌then◌else◌, if-either, if-cases,
}
use statusengine_worker.Queue.{HandlerError}
use statusengine_worker.Queue.Handlers.{World}
use statusengine_worker.Gearman.{
  Job, Result, complete, stopped_consumer, handler_failed, QueueWorker, StopPhase, GearmanConsumer,
  report_lost, take_lost, end_dead, build, hang_in, start_work, begin_handler, offer_copy,
  after_handler, begin_stop, close_one, close_gate, close_out, started,
}
use statusengine_worker.Gearman.Steps.{
  Router, Step, loses, takes, ends, quits, builds, hangs, works, dispatches, begins, offers,
  handles, observes, stops, closes, all_closed, gates, waits, Reachable, here, next,
}
use statusengine_worker.Gearman.Shutdown.{Reachable-no_panic}

abbrev pub completes : List (Job × Result) → ℕ
completes [] = 0
completes ((job, complete) ∷ answers) = completes answers + 1
completes ((job, stopped_consumer) ∷ answers) = completes answers
completes ((job, handler_failed e) ∷ answers) = completes answers

abbrev pub failures : List (Job × Result) → ℕ
failures [] = 0
failures ((job, complete) ∷ answers) = failures answers
failures ((job, stopped_consumer) ∷ answers) = failures answers
failures ((job, handler_failed e) ∷ answers) = failures answers + 1

abbrev pub answered : List (Job × Result) → List Job
answered answers = map (λ a. a.0) answers

count-pick :
    (p : Job → Bool) (xs before after : List Job) (job : Job)
    → xs ≡ before ++ job ∷ after
    → count p xs ≡ count p (before ++ after) + (if p job then 1 else 0)
count-pick p xs before after job e =
    ap (count p) e ∙ omega (arith, count-append p before (job ∷ after), count-append p before after)

module _ {S : Type 0} (p : Job → Bool) where
  -- The jobs of a kind, wherever they are.
  abbrev under_way : GearmanConsumer S → ℕ
  under_way c = count p c.dispatched + count p c.begun + count p c.offered

  pub record IsCounted (c : GearmanConsumer S) : Type 0 where
    pub jobs : count p c.received ≡ under_way c + count p (answered c.answers)
    pub total : c.processed ≡ u64 (completes c.answers)
    pub failed : c.errors ≡ u64 (failures c.answers)
    pub calm : c.panicked ≡ false

  aside-IsCounted :
      (c : GearmanConsumer S) (queues : ℕ → QueueWorker) (working : ℕ → ℕ → Bool)
      (next_worker out_length reconnects : ℕ) (stopping stopped out_closed : Bool)
      (stop : StopPhase)
      → IsCounted c
      → IsCounted (record c {
        queues = queues;
        working = working;
        next_worker = next_worker;
        out_length = out_length;
        reconnects = reconnects;
        stopping = stopping;
        stopped = stopped;
        out_closed = out_closed;
        stop = stop;
      })
  aside-IsCounted c _ _ _ _ _ _ _ _ _ i = record {
    jobs = i.jobs;
    total = i.total;
    failed = i.failed;
    calm = i.calm;
  }

  unpanicked-open :
      (job : Job) (c : GearmanConsumer S)
      → (offer_copy job c).panicked ≡ false
      → c.out_closed ≡ false
  unfolding offer_copy
  unpanicked-open job c h = ground arith

  -- A job that has left `offered` is answered.
  after_handler-IsCounted :
      (job : Job) (r : Option HandlerError × World S) (c : GearmanConsumer S)
      → count p c.received ≡ under_way c + (if p job then 1 else 0) + count p (answered c.answers)
      → c.processed ≡ u64 (completes c.answers)
      → c.errors ≡ u64 (failures c.answers)
      → c.panicked ≡ false
      → IsCounted (after_handler job r c)
  unfolding after_handler
  after_handler-IsCounted job (none, w) c j t f n = record {
    jobs = omega arith;
    total = omega arith;
    failed = f;
    calm = n;
  }
  after_handler-IsCounted job (some e, w) c j t f n = record {
    jobs = omega arith;
    total = t;
    failed = omega arith;
    calm = n;
  }

  module _ (cp1252 : ℕ → ℕ) (router : Router S) where
    Step-IsCounted :
        {c d : GearmanConsumer S}
        → Step cp1252 router c d
        → d.panicked ≡ false
        → IsCounted c
        → IsCounted d
    unfolding report_lost take_lost end_dead build hang_in start_work begin_handler offer_copy
        begin_stop close_one close_gate close_out
    Step-IsCounted (loses i c h) n t = aside-IsCounted c _ _ _ _ _ _ _ _ _ t
    Step-IsCounted (takes i c h s l) n t = aside-IsCounted c _ _ _ _ _ _ _ _ _ t
    Step-IsCounted (ends i c h s) n t = aside-IsCounted c _ _ _ _ _ _ _ _ _ t
    Step-IsCounted (quits i c h s) n t = aside-IsCounted c _ _ _ _ _ _ _ _ _ t
    Step-IsCounted (builds i c h s) n t = aside-IsCounted c _ _ _ _ _ _ _ _ _ t
    Step-IsCounted (hangs i fresh c h s) n t =
        if-either IsCounted c.stopping (aside-IsCounted c _ _ _ _ _ _ _ _ _ t)
          (aside-IsCounted c _ _ _ _ _ _ _ _ _ t)
    Step-IsCounted (works i fresh c h s) n t = aside-IsCounted c _ _ _ _ _ _ _ _ _ t
    Step-IsCounted (dispatches w job c h s) n t = record {
      jobs = omega (arith, t.jobs);
      total = t.total;
      failed = t.failed;
      calm = t.calm;
    }
    Step-IsCounted (begins job before after c e) n t =
        let picked = count-pick p c.dispatched before after job e in
        if-either IsCounted c.stopped
          (record {
            jobs = omega (arith, t.jobs, picked);
            total = t.total;
            failed = t.failed;
            calm = t.calm;
          })
          (record {
            jobs = omega (arith, t.jobs, picked);
            total = t.total;
            failed = t.failed;
            calm = t.calm;
          })
    Step-IsCounted (offers job before after c e) n t =
        let picked = count-pick p c.begun before after job e in
        let unclosed = unpanicked-open job (record c { begun = before ++ after }) n in
        if-cases IsCounted c.out_closed (λ o. cc)
          (λ o. record {
            jobs = omega (arith, t.jobs, picked);
            total = t.total;
            failed = t.failed;
            calm = t.calm;
          })
    Step-IsCounted (handles job before after c e) n t =
        let picked = count-pick p c.offered before after job e in
        after_handler-IsCounted job _ (record c { offered = before ++ after })
          (omega (arith, t.jobs, picked)) t.total t.failed t.calm
    Step-IsCounted (observes c) n t = aside-IsCounted c _ _ _ _ _ _ _ _ _ t
    Step-IsCounted (stops c e) n t = aside-IsCounted c _ _ _ _ _ _ _ _ _ t
    Step-IsCounted (closes i workers done c h e) n t = aside-IsCounted c _ _ _ _ _ _ _ _ _ t
    Step-IsCounted (all_closed workers done c e h) n t = aside-IsCounted c _ _ _ _ _ _ _ _ _ t
    Step-IsCounted (gates workers c e) n t = aside-IsCounted c _ _ _ _ _ _ _ _ _ t
    Step-IsCounted (waits workers c e b o) n t = aside-IsCounted c _ _ _ _ _ _ _ _ _ t

    Reachable-IsCounted :
        (w : World S) {c : GearmanConsumer S} → Reachable cp1252 router (started w) c → IsCounted c
    unfolding started
    Reachable-IsCounted w here = record { jobs = refl; total = refl; failed = refl; calm = refl }
    Reachable-IsCounted w {c} (next r st) =
        Step-IsCounted st (Reachable-no_panic cp1252 router w c (next r st)).0
          (Reachable-IsCounted w r)

    -- In every order in which the goroutines of a started consumer may run: of the jobs of any kind
    -- that the consumer was given, as many as there are have been answered, wait to begin, or have
    -- begun and are not answered yet; and the counters show, modulo 2 ^ 64, how many jobs were
    -- reported as complete and how many as failed by their handler.
    pub Reachable-jobs :
        (w : World S) (c : GearmanConsumer S)
        → Reachable cp1252 router (started w) c
        → (count p c.received
            ≡ count p c.dispatched
              + count p c.begun
              + count p c.offered
              + count p (answered c.answers))
          × (c.processed ≡ u64 (completes c.answers))
          × (c.errors ≡ u64 (failures c.answers))
    Reachable-jobs w c r = let t = Reachable-IsCounted w r in (t.jobs, t.total, t.failed)
