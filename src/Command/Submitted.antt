-- ===== src/Command/Submitted.antt =====
-- internal/command/publisher.go: what a call of `Publish` has handed to the client library.
use statusengine_worker.Prelude.{
  ℕ, suc, ◌+◌, ◌≤◌, Bool, true, false, List, [], ◌∷◌, ◌++◌, Bytes, ◌≡◌, refl, sym, ap, ◌∙◌, arith,
  length, replicate, append-nil, append_assoc, ◌||◌, not, if-cases, ◌⊎◌, inl, inr,
}
use statusengine_worker.Command.Publisher.{
  Backend, Attempt, Submission, Publisher, Outcome, published, gave_up, try_again, is_usable,
  submit, publish_once, publish,
}

module _ (backend : Backend) (payload : Bytes) where
  abbrev pub failure : Submission
  failure = record { payload = payload; accepted = false }

  abbrev pub success : Submission
  success = record { payload = payload; accepted = true }

  -- All submissions are of the payload, only the last may have succeeded, and there are no more than
  -- `limit`.
  abbrev pub Submits : ℕ → Publisher → Bool × Publisher → Type 0
  Submits limit p r =
      (failed : ℕ) × (((r.0 ≡ true)
          × (failed + 1 ≤ limit)
          × (r.1.submissions ≡ p.submissions ++ (replicate failed failure ++ success ∷ [])))
        ⊎ ((r.0 ≡ false)
            × (failed ≤ limit)
            × (r.1.submissions ≡ p.submissions ++ replicate failed failure)))

  Submits-more :
      (limit : ℕ) (p q : Publisher) (r : Bool × Publisher)
      → q.submissions ≡ p.submissions
      → Submits limit q r
      → Submits (suc limit) p r
  Submits-more limit p q r e (n, inl (ok, few, is)) = (
    n,
    inl (ok, omega (arith, few), is ∙ ap (λ xs. xs ++ (replicate n failure ++ success ∷ [])) e),
  )
  Submits-more limit p q r e (n, inr (bad, few, is)) =
      (n, inr (bad, omega (arith, few), is ∙ ap (λ xs. xs ++ replicate n failure) e))

  Submits-after :
      (limit : ℕ) (p : Publisher) (r : Bool × Publisher)
      → Submits limit (submit backend payload false p) r
      → Submits (suc limit) p r
  Submits-after limit p r (n, inl (ok, few, is)) =
      (suc n, inl (ok, omega (arith, few), is ∙ append_assoc p.submissions (failure ∷ []) _))
  Submits-after limit p r (n, inr (bad, few, is)) =
      (suc n, inr (bad, omega (arith, few), is ∙ append_assoc p.submissions (failure ∷ []) _))

  abbrev next : List Attempt → Outcome × Publisher → Bool × Publisher
  next attempts r = elim r.0 [
    | published ↦ (true, r.1)
    | gave_up ↦ (false, r.1)
    | try_again ↦ publish backend payload attempts r.1
  ]

  pub publish-Submits :
      (attempts : List Attempt) (p : Publisher)
      → Submits (length attempts) p (publish backend payload attempts p)
  unfolding publish publish_once
  publish-Submits [] p = (0, inr (refl, omega arith, sym (append-nil p.submissions)))
  publish-Submits (a ∷ attempts) p =
      let goal : Outcome × Publisher → Type 0 =
        λ r. Submits (suc (length attempts)) p (next attempts r) in
      let round : goal (publish_once backend payload a p) =
        if-cases goal a.context_done
          (λ late. (0, inr (refl, omega arith, sym (append-nil p.submissions))))
          (λ on_time.
            if-cases goal (not (is_usable backend payload a p || a.dialed))
              (λ unreached.
                Submits-more (length attempts) p (record p { connected = false })
                  (publish backend payload attempts (record p { connected = false })) refl
                  (publish-Submits attempts (record p { connected = false })))
              (λ there.
                if-cases goal a.sent (λ sent. (0, inl (refl, omega arith, refl)))
                  (λ lost.
                    Submits-after (length attempts) p
                      (publish backend payload attempts (submit backend payload false p))
                      (publish-Submits attempts (submit backend payload false p))))) in
      round
