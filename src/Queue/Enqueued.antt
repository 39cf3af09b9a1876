-- ===== src/Queue/Enqueued.antt =====
-- What the loops of the handlers get into the inserters.
use statusengine_worker.Prelude.{
  ◌+◌, String, Bool, true, false, none, some, List, [], ◌∷◌, ◌++◌, ◌≡◌, refl, sym, ap, ◌∙◌, ℤ,
  ltb_ℤ, arith, filter, count, length, inl, inr, Bool-cases, append-nil, append_assoc,
}
use statusengine_worker.Metrics.{stale_discarded}
use statusengine_worker.Queue.{HandlerError, enqueue_failed}
use statusengine_worker.Queue.Handlers.{
  World, Enqueue, enqueue_stored, enqueue_all, enqueue_fresh, is_fresh,
}

-- What is read off the inserters as accepted so far: an accepted item adds what it gives, and a
-- refused one adds nothing.
pub record Records {P Q S : Type 0} (enqueue : Enqueue P S) (log : S → List Q) (gives : P → List Q)
    : Type 0 where
  pub accepted : (p : P) (s : S) → (enqueue p s).0 ≡ true → log (enqueue p s).1 ≡ log s ++ gives p
  pub refused : (p : P) (s : S) → (enqueue p s).0 ≡ false → log (enqueue p s).1 ≡ log s

abbrev pub given : {P Q : Type 0} → (P → List Q) → List P → List Q
given gives [] = []
given gives (x ∷ xs) = gives x ++ given gives xs

abbrev pub itself : {P : Type 0} → P → List P
itself p = p ∷ []

pub given-itself : {P : Type 0} (xs : List P) → given itself xs ≡ xs
given-itself [] = refl
given-itself (x ∷ xs) = ap (λ ys. x ∷ ys) (given-itself xs)

module _ {P Q S : Type 0} (enqueue : Enqueue P S) (log : S → List Q) (gives : P → List Q)
    (r : Records enqueue log gives) where
  -- The loop came to its end: the log holds what all stored items give, and nothing else changed.
  pub enqueue_stored-log :
      (stored : P → Bool) (items : List P) (w w' : World S)
      → enqueue_stored enqueue stored items w ≡ (none, w')
      → (log w'.inserters ≡ log w.inserters ++ given gives (filter stored items))
        × (w'.hub ≡ w.hub)
        × (w'.ticks ≡ w.ticks)
  unfolding enqueue_stored
  enqueue_stored-log stored [] w w' e = ground (arith, append-nil (log w.inserters))
  enqueue_stored-log stored (x ∷ items) w w' e = elim (Bool-cases (stored x)) [
    | inr skipped ↦
        let rest : enqueue_stored enqueue stored items w ≡ (none, w') =
          rw (skipped, enqueue_stored) at e in
        rw skipped (enqueue_stored-log stored items w w' rest)
    | inl kept ↦ elim (Bool-cases (enqueue x w.inserters).0) [
      | inr no_room ↦ ground arith
      | inl room ↦
          let s = (enqueue x w.inserters).1 in
          let later = enqueue_stored-log stored items (record w { inserters = s }) w' in
          let added = r.accepted x w.inserters room in
          ground (
            arith,
            later,
            added,
            append_assoc (log w.inserters) (gives x) (given gives (filter stored items)),
          )
    ]
  ]

  -- An item was refused, in a state whose log holds what the stored items before it give, and the
  -- error is that of `Enqueue`.
  pub enqueue_stored-refused :
      (stored : P → Bool) (items : List P) (w w' : World S) (err : HandlerError)
      → enqueue_stored enqueue stored items w ≡ (some err, w')
      → (before : List P) × (x : P) × (after : List P) × (filter stored items ≡ before ++ x ∷ after)
        × ((s : S) × (log s ≡ log w.inserters ++ given gives before)
            × (enqueue x s ≡ (false, w'.inserters)))
        × (w'.hub ≡ w.hub)
        × (err ≡ enqueue_failed)
  unfolding enqueue_stored
  enqueue_stored-refused stored [] w w' err e = cc
  enqueue_stored-refused stored (x ∷ items) w w' err e = elim (Bool-cases (stored x)) [
    | inr skipped ↦
        let rest : enqueue_stored enqueue stored items w ≡ (some err, w') =
          rw (skipped, enqueue_stored) at e in
        rw skipped (enqueue_stored-refused stored items w w' err rest)
    | inl kept ↦ elim (Bool-cases (enqueue x w.inserters).0) [
      | inr no_room ↦ (
        [],
        x,
        filter stored items,
        rw kept,
        (w.inserters, sym (append-nil (log w.inserters)), ground arith),
        ground arith,
        ground arith,
      )
      | inl room ↦
          let s = (enqueue x w.inserters).1 in
          let added = r.accepted x w.inserters room in
          let rest : enqueue_stored enqueue stored items (record w { inserters = s })
              ≡ (some err, w') =
            ground arith in
          let (before, y, after, split, (u, logged, stops), hub, is) =
            enqueue_stored-refused stored items (record w { inserters = s }) w' err rest in
          (
            x ∷ before,
            y,
            after,
            rw kept (ap (λ ys. x ∷ ys) split),
            (
              u,
              logged
                  ∙ (ap (λ ys. ys ++ given gives before) added
                      ∙ append_assoc (log w.inserters) (gives x) (given gives before)),
              stops,
            ),
            hub,
            is,
          )
    ]
  ]

  pub enqueue_all-stored :
      (items : List P) (w : World S)
      → enqueue_all enqueue items w ≡ enqueue_stored enqueue (λ x. true) items w
  unfolding enqueue_all enqueue_stored
  enqueue_all-stored [] w = refl
  enqueue_all-stored (x ∷ items) w =
      let s = (enqueue x w.inserters).1 in
      ground (arith, enqueue_all-stored items (record w { inserters = s }))

  -- The loop that drops stale items does with the fresh ones what the other loop does, and counts
  -- each of the others.
  pub enqueue_fresh-log :
      (event_timestamp : P → ℤ) (topic : String) (cutoff : ℤ) (items : List P) (w w' : World S)
      → enqueue_fresh enqueue event_timestamp topic cutoff items w ≡ (none, w')
      → (log w'.inserters
          ≡ log w.inserters
            ++ given gives (filter (is_fresh enqueue event_timestamp topic cutoff) items))
        × (w'.hub ≡ w.hub)
        × (length w'.ticks ≡ length w.ticks + count (λ x. ltb_ℤ (event_timestamp x) cutoff) items)
  unfolding enqueue_fresh
  enqueue_fresh-log event_timestamp topic cutoff [] w w' e =
      ground (arith, append-nil (log w.inserters))
  enqueue_fresh-log event_timestamp topic cutoff (x ∷ items) w w' e =
      elim (Bool-cases (ltb_ℤ (event_timestamp x) cutoff)) [
        | inl stale ↦
            let rest : enqueue_fresh enqueue event_timestamp topic cutoff items
                  (record w { ticks = stale_discarded topic ∷ w.ticks })
                ≡ (none, w') =
              rw (stale, enqueue_fresh) at e in
            let later =
              enqueue_fresh-log event_timestamp topic cutoff items
                (record w { ticks = stale_discarded topic ∷ w.ticks }) w' rest in
            rw stale (later.0, later.1, omega (arith, later.2))
        | inr fresh ↦ elim (Bool-cases (enqueue x w.inserters).0) [
          | inr no_room ↦ ground arith
          | inl room ↦
              let s = (enqueue x w.inserters).1 in
              let later =
                enqueue_fresh-log event_timestamp topic cutoff items (record w { inserters = s })
                  w' in
              let added = r.accepted x w.inserters room in
              ground (
                arith,
                later,
                added,
                append_assoc (log w.inserters) (gives x)
                    (given gives (filter (is_fresh enqueue event_timestamp topic cutoff) items)),
              )
        ]
      ]
