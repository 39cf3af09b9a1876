-- ===== src/Gearman/Generations.antt =====
-- Which workers of a consumer ask for jobs, before and after `Stop` has begun.
use statusengine_worker.Prelude.{
  ℕ, ◌≡◌, refl, sym, ap, subst, ◌∙◌, Bool, false, Option, none, some, ◌++◌, if-cases, if-either,
  ◌⊎◌, inl, inr, Bool-cases,
}
use statusengine_worker.Queue.{HandlerError}
use statusengine_worker.Queue.Handlers.{World}
use statusengine_worker.Gearman.{
  Job, QueueWorker, GearmanConsumer, put, report_lost, take_lost, end_dead, build, hang_in,
  start_work, begin_handler, offer_copy, after_handler, begin_stop, close_one, close_gate,
  close_out, started,
}
use statusengine_worker.Gearman.Shutdown.{IsGuarded, started-IsGuarded, Reachable-IsGuarded}
use statusengine_worker.Gearman.Steps.{
  Router, Step, loses, takes, ends, quits, builds, hangs, works, dispatches, begins, offers,
  handles, observes, stops, closes, all_closed, gates, waits, Reachable, here, next,
}
use statusengine_worker.Gearman.Sound.{
  snapshot, is_rebuilding, IsSound, put-either, put-both, close-IsSound, closed-idle, start-only,
  no_snapshot,
}

module _ {S : Type 0} where
  pub record AreSound (c : GearmanConsumer S) : Type 0 where
    pub each : (i : ℕ) → IsSound (c.queues i) (c.working i) (snapshot c.stop i)

  -- A step of one supervisor, or of its worker.
  queue-AreSound :
      (c d : GearmanConsumer S) (i : ℕ) (q : QueueWorker) (working : ℕ → Bool)
      → d.queues ≡ put i q c.queues
      → d.working ≡ put i working c.working
      → d.stop ≡ c.stop
      → AreSound c
      → IsSound q working (snapshot c.stop i)
      → AreSound d
  queue-AreSound c d i q working qs ws p s one = record {
    each = λ j.
        rw (qs, ws, p)
          (put-both (λ k a b. IsSound a b (snapshot c.stop k)) i q working c.queues c.working one
            s.each j);
  }

  -- A step of a supervisor that leaves the workers alone.
  supervisor-AreSound :
      (c d : GearmanConsumer S) (i : ℕ) (q : QueueWorker)
      → d.queues ≡ put i q c.queues
      → d.working ≡ c.working
      → d.stop ≡ c.stop
      → AreSound c
      → IsSound q (c.working i) (snapshot c.stop i)
      → AreSound d
  supervisor-AreSound c d i q qs ws p s one = record {
    each = λ j.
        rw (qs, ws, p)
          (put-either (λ k a. IsSound a (c.working k) (snapshot c.stop k)) i q c.queues one s.each
            j);
  }

  aside-AreSound :
      (c d : GearmanConsumer S)
      → d.queues ≡ c.queues
      → d.working ≡ c.working
      → ((i : ℕ) → snapshot d.stop i ≡ snapshot c.stop i)
      → AreSound c
      → AreSound d
  aside-AreSound c d qs ws p s = record { each = λ j. rw (qs, ws, p j) (s.each j) }

  after_handler-AreSound :
      (job : Job) (r : Option HandlerError × World S) (c : GearmanConsumer S)
      → AreSound c
      → AreSound (after_handler job r c)
  unfolding after_handler
  after_handler-AreSound job (none, w) c s = aside-AreSound c _ refl refl (λ i. refl) s
  after_handler-AreSound job (some e, w) c s = aside-AreSound c _ refl refl (λ i. refl) s

  pub started-AreSound : (w : World S) → AreSound (started w)
  unfolding started
  started-AreSound w = record {
    each =
        λ i. record { only = λ v on. cc; idle = λ e v. refl; hung = λ v it. cc; kept = λ v it. cc };
  }

  module _ (cp1252 : ℕ → ℕ) (router : Router S) where
    Step-AreSound :
        {c d : GearmanConsumer S} → Step cp1252 router c d → IsGuarded c → AreSound c → AreSound d
    unfolding report_lost take_lost end_dead build hang_in start_work begin_handler offer_copy
        begin_stop close_one close_gate close_out
    Step-AreSound (loses i c h) g s =
        let t = close-IsSound _ _ _ (c.queues i).worker (s.each i) in
        queue-AreSound c _ i _ _ refl refl refl s
          (record { only = t.only; idle = t.idle; hung = t.hung; kept = t.kept })
    Step-AreSound (takes i c h e l) g s = supervisor-AreSound c _ i _ refl refl refl s (record {
      only = (s.each i).only;
      idle = λ no. cc;
      hung = λ w no. cc;
      kept = (s.each i).kept;
    })
    Step-AreSound (ends i c h e) g s = queue-AreSound c _ i _ _ refl refl refl s (record {
      only = (close-IsSound _ _ _ (c.queues i).worker (s.each i)).only;
      idle = λ _. closed-idle _ _ _ (s.each i);
      hung = λ w no. cc;
      kept = (s.each i).kept;
    })
    Step-AreSound (quits i c h e) g s = supervisor-AreSound c _ i _ refl refl refl s (record {
      only = (s.each i).only;
      idle = λ no. cc;
      hung = λ w no. cc;
      kept = (s.each i).kept;
    })
    Step-AreSound (builds i c h e) g s = supervisor-AreSound c _ i _ refl refl refl s (record {
      only = (s.each i).only;
      idle = λ _. (s.each i).idle (ap is_rebuilding e);
      hung = λ w no. cc;
      kept = (s.each i).kept;
    })
    Step-AreSound (hangs i fresh c h e) g s =
        if-cases AreSound c.stopping
          (λ stopping. supervisor-AreSound c _ i _ refl refl refl s (record {
            only = (s.each i).only;
            idle = λ no. cc;
            hung = λ w no. cc;
            kept = (s.each i).kept;
          }))
          (λ running. supervisor-AreSound c _ i _ refl refl refl s (record {
            only = λ w on. cc ((s.each i).idle (ap is_rebuilding e) w);
            idle = λ no. cc;
            hung = λ w it. cc;
            kept = λ w it. cc (no_snapshot c.stop i (sym g.begun_stop ∙ running));
          }))
    Step-AreSound (works i fresh c h e) g s = queue-AreSound c _ i _ _ refl refl refl s (record {
      only = start-only _ _ _ fresh (s.each i) e;
      idle = λ no. cc;
      hung = λ w no. cc;
      kept = (s.each i).kept;
    })
    Step-AreSound (dispatches w job c h e) g s = aside-AreSound c _ refl refl (λ i. refl) s
    Step-AreSound (begins job before after c e) g s =
        if-either AreSound c.stopped (aside-AreSound c _ refl refl (λ i. refl) s)
          (aside-AreSound c _ refl refl (λ i. refl) s)
    Step-AreSound (offers job before after c e) g s =
        if-either AreSound c.out_closed (aside-AreSound c _ refl refl (λ i. refl) s)
          (aside-AreSound c _ refl refl (λ i. refl) s)
    Step-AreSound (handles job before after c e) g s =
        after_handler-AreSound job _ (record c { offered = before ++ after })
          (aside-AreSound c _ refl refl (λ i. refl) s)
    Step-AreSound (observes c) g s = aside-AreSound c _ refl refl (λ i. refl) s
    Step-AreSound (stops c e) g s = record {
      each = λ i. record {
        only = (s.each i).only;
        idle = (s.each i).idle;
        hung = (s.each i).hung;
        kept = λ w it. cc;
      };
    }
    Step-AreSound (closes i workers done c h e) g s =
        let found : (j : ℕ) → IsSound (c.queues j) (c.working j) (some (workers j)) =
          λ j. subst (λ p. IsSound (c.queues j) (c.working j) (snapshot p j)) e (s.each j) in
        record {
          each =
              put-either (λ j on. IsSound (c.queues j) on (some (workers j))) i _ c.working
                (close-IsSound _ _ _ (workers i) (found i)) found;
        }
    Step-AreSound (all_closed workers done c e h) g s =
        aside-AreSound c _ refl refl (λ i. sym (ap (λ p. snapshot p i) e)) s
    Step-AreSound (gates workers c e) g s =
        aside-AreSound c _ refl refl (λ i. sym (ap (λ p. snapshot p i) e)) s
    Step-AreSound (waits workers c e b o) g s =
        aside-AreSound c _ refl refl (λ i. sym (ap (λ p. snapshot p i) e)) s

    pub Reachable-AreSound :
        {s c : GearmanConsumer S}
        → Reachable cp1252 router s c
        → IsGuarded s
        → AreSound s
        → AreSound c
    Reachable-AreSound here g s = s
    Reachable-AreSound (next r st) g s =
        Step-AreSound st (Reachable-IsGuarded cp1252 router r g) (Reachable-AreSound r g s)

    -- In every order of the steps of a started consumer, of which the start of a stored worker and
    -- the way back of its supervisor are one: once `Stop` has taken its snapshot, which found `found`
    -- as the worker of a queue, `found` stays the worker of this queue, and no other one asks for
    -- its jobs.
    pub Reachable-snapshot :
        (w : World S) (c : GearmanConsumer S) (i worker found : ℕ)
        → Reachable cp1252 router (started w) c
        → snapshot c.stop i ≡ some found
        → ((c.queues i).worker ≡ found) × ((c.working i worker ≡ false) ⊎ (worker ≡ found))
    Reachable-snapshot w c i worker found r at =
        let s = (Reachable-AreSound r (started-IsGuarded w) (started-AreSound w)).each i in
        (
          s.kept found at,
          elim (Bool-cases (c.working i worker)) [
            | inl on ↦ inr (s.only worker on ∙ s.kept found at)
            | inr off ↦ inl off
          ],
        )
