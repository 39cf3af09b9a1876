-- ===== src/Gearman/Shutdown.antt =====
-- What holds of a consumer in whatever order its goroutines run.
use statusengine_worker.Prelude.{
  ℕ, ◌≡◌, inl, inr, refl, sym, ap, ◌∙◌, Bool, true, false, Option, none, some, List, [], ◌∷◌, ◌++◌,
  arith, not, ◌&&◌, if◌then◌else◌, Bool-cases, if-cases, if-either,
}
use statusengine_worker.Queue.{HandlerError}
use statusengine_worker.Queue.Handlers.{World}
use statusengine_worker.Gearman.{
  Job, Result, QueueWorker, StopPhase, not_stopped, closing, closed, draining, finished,
  GearmanConsumer, report_lost, take_lost, end_dead, build, hang_in, start_work, begin_handler,
  offer_copy, after_handler, begin_stop, close_one, close_gate, close_out, started,
}
use statusengine_worker.Gearman.Steps.{
  Router, Step, loses, takes, ends, quits, builds, hangs, works, dispatches, begins, offers,
  handles, observes, stops, closes, all_closed, gates, waits, Reachable, here, next,
}

abbrev is_gated : StopPhase → Bool
is_gated (draining workers) = true
is_gated (finished workers) = true
is_gated _ = false

abbrev pub is_finished : StopPhase → Bool
is_finished (finished workers) = true
is_finished _ = false

abbrev pub has_begun : StopPhase → Bool
has_begun not_stopped = false
has_begun _ = true

is_finished-is_gated : (p : StopPhase) → is_gated p ≡ false → is_finished p ≡ false
is_finished-is_gated not_stopped h = refl
is_finished-is_gated (closing w d) h = refl
is_finished-is_gated (closed w) h = refl
is_finished-is_gated (draining w) h = refl
is_finished-is_gated (finished w) h = cc

not_empty : {A : Type 0} (xs before after : List A) (x : A) → xs ≡ before ++ x ∷ after → xs ≡ [] → ⊥
not_empty xs [] after x e n = cc
not_empty xs (b ∷ before) after x e n = cc

module _ {S : Type 0} where
  -- The phase of `Stop` and the gates agree, and no job that has begun is left when `out` closes.
  pub record IsGuarded (c : GearmanConsumer S) : Type 0 where
    pub begun_stop : c.stopping ≡ has_begun c.stop
    pub gate : c.stopped ≡ is_gated c.stop
    pub out : c.out_closed ≡ is_finished c.stop
    pub no_begun : c.out_closed ≡ true → c.begun ≡ []
    pub no_offered : c.out_closed ≡ true → c.offered ≡ []
    pub no_panic : c.panicked ≡ false

  -- A step that touches none of these.
  aside-IsGuarded :
      (c : GearmanConsumer S) (queues : ℕ → QueueWorker) (working : ℕ → ℕ → Bool)
      (next_worker out_length reconnects processed errors : ℕ) (received dispatched : List Job)
      (answers : List (Job × Result)) (world : World S)
      → IsGuarded c
      → IsGuarded (record c {
        queues = queues;
        working = working;
        next_worker = next_worker;
        out_length = out_length;
        reconnects = reconnects;
        processed = processed;
        errors = errors;
        received = received;
        dispatched = dispatched;
        answers = answers;
        world = world;
      })
  aside-IsGuarded c _ _ _ _ _ _ _ _ _ _ _ g = record {
    begun_stop = g.begun_stop;
    gate = g.gate;
    out = g.out;
    no_begun = g.no_begun;
    no_offered = g.no_offered;
    no_panic = g.no_panic;
  }

  open_out : (c : GearmanConsumer S) → IsGuarded c → c.stopped ≡ false → c.out_closed ≡ false
  open_out c g h = g.out ∙ is_finished-is_gated c.stop (sym g.gate ∙ h)

  after_handler-IsGuarded :
      (job : Job) (r : Option HandlerError × World S) (c : GearmanConsumer S)
      → IsGuarded c
      → IsGuarded (after_handler job r c)
  unfolding after_handler
  after_handler-IsGuarded job (none, w) c g = aside-IsGuarded c _ _ _ _ _ _ _ _ _ _ _ g
  after_handler-IsGuarded job (some e, w) c g = aside-IsGuarded c _ _ _ _ _ _ _ _ _ _ _ g

  -- `Stop` goes on to a phase in which the gates are as they were.
  phase-IsGuarded :
      (c : GearmanConsumer S) (p : StopPhase) (working : ℕ → ℕ → Bool)
      → has_begun p ≡ true
      → is_gated p ≡ is_gated c.stop
      → is_finished p ≡ is_finished c.stop
      → IsGuarded c
      → IsGuarded (record c { stop = p; stopping = true; working = working })
  phase-IsGuarded c p working b s f g = record {
    begun_stop = sym b;
    gate = g.gate ∙ sym s;
    out = g.out ∙ sym f;
    no_begun = g.no_begun;
    no_offered = g.no_offered;
    no_panic = g.no_panic;
  }

  pub started-IsGuarded : (w : World S) → IsGuarded (started w)
  unfolding started
  started-IsGuarded w = record {
    begun_stop = refl;
    gate = refl;
    out = refl;
    no_begun = λ h. refl;
    no_offered = λ h. refl;
    no_panic = refl;
  }

  module _ (cp1252 : ℕ → ℕ) (router : Router S) where
    Step-IsGuarded : {c d : GearmanConsumer S} → Step cp1252 router c d → IsGuarded c → IsGuarded d
    unfolding report_lost take_lost end_dead build hang_in start_work begin_handler offer_copy
        begin_stop close_one close_gate close_out
    Step-IsGuarded (loses i c h) g = aside-IsGuarded c _ _ _ _ _ _ _ _ _ _ _ g
    Step-IsGuarded (takes i c h s l) g = aside-IsGuarded c _ _ _ _ _ _ _ _ _ _ _ g
    Step-IsGuarded (ends i c h s) g = aside-IsGuarded c _ _ _ _ _ _ _ _ _ _ _ g
    Step-IsGuarded (quits i c h s) g = aside-IsGuarded c _ _ _ _ _ _ _ _ _ _ _ g
    Step-IsGuarded (builds i c h s) g = aside-IsGuarded c _ _ _ _ _ _ _ _ _ _ _ g
    Step-IsGuarded (hangs i fresh c h s) g =
        if-either IsGuarded c.stopping (aside-IsGuarded c _ _ _ _ _ _ _ _ _ _ _ g)
          (aside-IsGuarded c _ _ _ _ _ _ _ _ _ _ _ g)
    Step-IsGuarded (works i fresh c h s) g = aside-IsGuarded c _ _ _ _ _ _ _ _ _ _ _ g
    Step-IsGuarded (dispatches w job c h s) g = aside-IsGuarded c _ _ _ _ _ _ _ _ _ _ _ g
    Step-IsGuarded (begins job before after c e) g =
        if-cases IsGuarded c.stopped (λ h. aside-IsGuarded c _ _ _ _ _ _ _ _ _ _ _ g)
          (λ h. record {
            begun_stop = g.begun_stop;
            gate = g.gate;
            out = g.out;
            no_begun = λ o. cc (open_out c g h);
            no_offered = g.no_offered;
            no_panic = g.no_panic;
          })
    Step-IsGuarded (offers job before after c e) g =
        if-cases IsGuarded c.out_closed
          (λ o. absurd (not_empty c.begun before after job e (g.no_begun o)))
          (λ o. record {
            begun_stop = g.begun_stop;
            gate = g.gate;
            out = g.out;
            no_begun = λ o'. cc;
            no_offered = λ o'. cc;
            no_panic = g.no_panic;
          })
    Step-IsGuarded (handles job before after c e) g =
        after_handler-IsGuarded job _ (record c { offered = before ++ after })
          (record {
            begun_stop = g.begun_stop;
            gate = g.gate;
            out = g.out;
            no_begun = g.no_begun;
            no_offered = λ o. absurd (not_empty c.offered before after job e (g.no_offered o));
            no_panic = g.no_panic;
          })
    Step-IsGuarded (observes c) g = aside-IsGuarded c _ _ _ _ _ _ _ _ _ _ _ g
    Step-IsGuarded (stops c e) g =
        phase-IsGuarded c _ _ refl (sym (ap is_gated e)) (sym (ap is_finished e)) g
    Step-IsGuarded (closes i workers done c h e) g = record {
      begun_stop = g.begun_stop ∙ ap has_begun e;
      gate = g.gate ∙ ap is_gated e;
      out = g.out ∙ ap is_finished e;
      no_begun = g.no_begun;
      no_offered = g.no_offered;
      no_panic = g.no_panic;
    }
    Step-IsGuarded (all_closed workers done c e h) g = record {
      begun_stop = g.begun_stop ∙ ap has_begun e;
      gate = g.gate ∙ ap is_gated e;
      out = g.out ∙ ap is_finished e;
      no_begun = g.no_begun;
      no_offered = g.no_offered;
      no_panic = g.no_panic;
    }
    Step-IsGuarded (gates workers c e) g = record {
      begun_stop = g.begun_stop ∙ ap has_begun e;
      gate = refl;
      out = g.out ∙ ap is_finished e;
      no_begun = g.no_begun;
      no_offered = g.no_offered;
      no_panic = g.no_panic;
    }
    Step-IsGuarded (waits workers c e b o) g = record {
      begun_stop = g.begun_stop ∙ ap has_begun e;
      gate = g.gate ∙ ap is_gated e;
      out = refl;
      no_begun = λ h. b;
      no_offered = λ h. o;
      no_panic = g.no_panic;
    }

    pub Reachable-IsGuarded :
        {s c : GearmanConsumer S} → Reachable cp1252 router s c → IsGuarded s → IsGuarded c
    Reachable-IsGuarded here g = g
    Reachable-IsGuarded (next r st) g = Step-IsGuarded st (Reachable-IsGuarded r g)

    -- In every order in which the goroutines of a started consumer may run: nothing is ever sent on
    -- the closed output channel; once `Stop` has closed it, no job is between its beginning and its
    -- answer, and the gate is shut behind which every further job is answered with the error of a
    -- stopped consumer.
    pub Reachable-no_panic :
        (w : World S) (c : GearmanConsumer S)
        → Reachable cp1252 router (started w) c
        → (c.panicked ≡ false)
          × ((if c.out_closed then c.begun ++ c.offered else []) ≡ [])
          × ((c.out_closed && not c.stopped) ≡ false)
    Reachable-no_panic w c r =
        let g = Reachable-IsGuarded r (started-IsGuarded w) in
        (
          g.no_panic,
          if-cases (λ (jobs : List Job). jobs ≡ []) c.out_closed
              (λ o. ground (arith, g.no_begun o, g.no_offered o)) (λ o. refl),
          elim (Bool-cases c.stopped) [
            | inl shut ↦ rw shut (ground arith)
            | inr unshut ↦ let o = open_out c g unshut in rw o refl
          ],
        )
