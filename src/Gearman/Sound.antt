-- ===== src/Gearman/Sound.antt =====
-- One queue of a consumer: its current worker, the workers that ask for jobs, and the snapshot.
use statusengine_worker.Prelude.{
  ℕ, ◌≡◌, inl, inr, refl, sym, subst, ◌∙◌, Bool, true, false, Option, none, some, arith, ◌==◌,
  ==_iff, Bool-cases, if-cases,
}
use statusengine_worker.Gearman.{
  Supervisor, retrying, built, hung_in, QueueWorker, StopPhase, not_stopped, closing, closed,
  draining, finished, put,
}
use statusengine_worker.Gearman.Shutdown.{has_begun}

-- The workers that `Stop` has found, from its beginning on.
abbrev pub snapshot : StopPhase → ℕ → Option ℕ
snapshot not_stopped i = none
snapshot (closing workers done) i = some (workers i)
snapshot (closed workers) i = some (workers i)
snapshot (draining workers) i = some (workers i)
snapshot (finished workers) i = some (workers i)

abbrev pub is_rebuilding : Supervisor → Bool
is_rebuilding retrying = true
is_rebuilding (built w) = true
is_rebuilding _ = false

-- One queue: only its current worker may ask for jobs, none while the connection is rebuilt, and
-- the current worker is the one of the snapshot.
pub record IsSound (q : QueueWorker) (working : ℕ → Bool) (found : Option ℕ) : Type 0 where
  pub only : (w : ℕ) → working w ≡ true → w ≡ q.worker
  pub idle : is_rebuilding q.supervisor ≡ true → (w : ℕ) → working w ≡ false
  pub hung : (w : ℕ) → q.supervisor ≡ hung_in w → w ≡ q.worker
  pub kept : (w : ℕ) → found ≡ some w → q.worker ≡ w

pub put_self {ℓ} : {A : Type ℓ} (i : ℕ) (a : A) (f : ℕ → A) → put i a f i ≡ a
unfolding put
put_self i a f = rw ((==_iff i i).1 refl) refl

pub put-either {ℓ κ} :
    {A : Type ℓ} (P : ℕ → A → Type κ) (i : ℕ) (a : A) (f : ℕ → A)
    → P i a
    → ((j : ℕ) → P j (f j))
    → (j : ℕ) → P j (put i a f j)
unfolding put
put-either P i a f p h j =
    if-cases (P j) (j == i) {x = a} {y = f j} (λ e. subst (λ k. P k a) (sym ((==_iff j i).0 e)) p)
      (λ e. h j)

-- Two functions at once.
pub put-both {ℓ κ} :
    {A : Type ℓ} {B : Type κ} (P : ℕ → A → B → Type 0) (i : ℕ) (a : A) (b : B) (f : ℕ → A)
    (g : ℕ → B)
    → P i a b
    → ((j : ℕ) → P j (f j) (g j))
    → (j : ℕ) → P j (put i a f j) (put i b g j)
unfolding put
put-both P i a b f g p h j = elim (Bool-cases (j == i)) [
  | inl e ↦ rw e (subst (λ k. P k a b) (sym ((==_iff j i).0 e)) p)
  | inr e ↦ rw e (h j)
]

pub close-IsSound :
    (q : QueueWorker) (working : ℕ → Bool) (found : Option ℕ) (w : ℕ)
    → IsSound q working found
    → IsSound q (put w false working) found
unfolding put
close-IsSound q working found w s = record {
  only = λ v h. ground (arith, s.only v);
  idle = λ e v. ground (arith, s.idle e v);
  hung = s.hung;
  kept = s.kept;
}

pub closed-idle :
    (q : QueueWorker) (working : ℕ → Bool) (found : Option ℕ)
    → IsSound q working found
    → (w : ℕ) → put q.worker false working w ≡ false
unfolding put
closed-idle q working found s w = elim (Bool-cases (working w)) [
  | inl on ↦ ground (arith, s.only w on)
  | inr off ↦ ground arith
]

-- The worker that has been stored begins to ask for jobs.
pub start-only :
    (q : QueueWorker) (working : ℕ → Bool) (found : Option ℕ) (fresh : ℕ)
    → IsSound q working found
    → q.supervisor ≡ hung_in fresh
    → (w : ℕ) → put fresh true working w ≡ true
    → w ≡ q.worker
unfolding put
start-only q working found fresh s e w on = elim (Bool-cases (w == fresh)) [
  | inl it ↦ (==_iff w fresh).0 it ∙ s.hung fresh e
  | inr other ↦ s.only w (rw other at on)
]

pub no_snapshot : (p : StopPhase) (i : ℕ) → has_begun p ≡ false → snapshot p i ≡ none
no_snapshot not_stopped i h = refl
no_snapshot (closing w d) i h = cc
no_snapshot (closed w) i h = cc
no_snapshot (draining w) i h = cc
no_snapshot (finished w) i h = cc
