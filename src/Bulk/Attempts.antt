-- ===== src/Bulk/Attempts.antt =====
-- When the retry loop writes its batch, when it drops it, and how long it waits in between.
use statusengine_worker.Prelude.{
  ℕ, zero, suc, ◌+◌, ◌≤◌, ◌≡◌, refl, ap, Bool, true, false, none, some, List, [], ◌∷◌, ◌++◌, arith,
  count, ◌⊎◌, inl, inr, Option-cases, All, ◌||◌, if◌then◌else◌,
}
use statusengine_worker.Metrics.{Tick}
use statusengine_worker.Bulk.Retry.{
  ExecError, is_transient_lock_error, is_connection_error, Answer, written, failed, Retry, attempt,
  exec_from, exec_with_retry, backoff_at, flush_retry_backoff, conn_retry_max_backoff, first_try,
}

-- Neither shutdown nor a deadline interferes with the answer or the wait after it.
abbrev pub IsQuiet : Answer → Type 0
IsQuiet a = (a.cancelled ≡ false) × (a.slept ≡ true)

abbrev pub lock_failure : Answer → Bool
lock_failure a = elim a.result [ none ↦ false | some e ↦ is_transient_lock_error e ]

abbrev pub connection_failure : Answer → Bool
connection_failure a = elim a.result [ none ↦ false | some e ↦ is_connection_error e ]

abbrev pub IsTransient : Answer → Type 0
IsTransient a =
    (a.cancelled ≡ false) × (a.slept ≡ true) × ((lock_failure a || connection_failure a) ≡ true)

attempt_transient :
    (a : Answer) (r : Retry)
    → IsTransient a
    → r.lock_attempts + (if lock_failure a then 1 else 0) ≤ 2
    → ((attempt a r).0 ≡ none)
      × ((attempt a r).1.lock_attempts ≡ r.lock_attempts + (if lock_failure a then 1 else 0))
unfolding attempt
attempt_transient a r t h = elim (Option-cases a.result) [
  | inl fine ↦ ground arith
  | inr (e, bad) ↦ ground arith
]

attempt_success : (a : Answer) (r : Retry) → a.result ≡ none → (attempt a r).0 ≡ some written
unfolding attempt
attempt_success a r h = ground arith

exec_from-written :
    (fails rest : List Answer) (a : Answer) (r : Retry)
    → All IsTransient fails
    → a.result ≡ none
    → r.lock_attempts + count lock_failure fails ≤ 2
    → (exec_from (fails ++ a ∷ rest) r).0 ≡ written
unfolding exec_from
exec_from-written [] rest a r t w h = ground (arith, attempt_success a r w)
exec_from-written (x ∷ fails) rest a r (t, ts) w h =
    ground (arith, attempt_transient x r t, exec_from-written fails rest a (attempt x r).1 ts w)

-- A batch is held through any outage: after any number of connection failures and at most two lock
-- failures, none of them cut short by a shutdown, the first execution that succeeds writes it.
pub exec_with_retry-written :
    (fails rest : List Answer) (a : Answer) (ts : List Tick)
    → All IsTransient fails
    → count lock_failure fails ≤ 2
    → a.result ≡ none
    → (exec_with_retry (fails ++ a ∷ rest) ts).0 ≡ written
unfolding exec_with_retry
exec_with_retry-written fails rest a ts t h w =
    exec_from-written fails rest a (first_try ts) t w (omega (arith, h))

-- The execution that ended in `e`, with `locks` lock failures before all of `answers`.
record Ending (e : ExecError) (locks : ℕ) (answers : List Answer) : Type 0 where
  before : List Answer
  last : Answer
  unread : List Answer
  split : answers ≡ before ++ last ∷ unread
  held : All IsTransient before
  error : last.result ≡ some e
  why :
      ((is_transient_lock_error e ≡ true) × (locks + count lock_failure before ≡ 2))
      ⊎ ((is_transient_lock_error e ≡ false) × (is_connection_error e ≡ false))

attempt_quiet :
    (a : Answer) (r : Retry) (e : ExecError)
    → IsQuiet a
    → r.lock_attempts ≤ 2
    → (attempt a r).0 ≡ some (failed e)
    → (a.result ≡ some e)
      × (((is_transient_lock_error e ≡ true) × (r.lock_attempts ≡ 2))
          ⊎ ((is_transient_lock_error e ≡ false) × (is_connection_error e ≡ false)))
unfolding attempt
attempt_quiet a r e q few h = elim (Option-cases a.result) [
  | inl fine ↦ ground arith
  | inr (e', bad) ↦ ground arith
]

attempt_again :
    (a : Answer) (r : Retry)
    → IsQuiet a
    → r.lock_attempts ≤ 2
    → (attempt a r).0 ≡ none
    → ((attempt a r).1.lock_attempts ≡ r.lock_attempts + (if lock_failure a then 1 else 0))
      × ((attempt a r).1.lock_attempts ≤ 2)
      × IsTransient a
unfolding attempt
attempt_again a r q few h = elim (Option-cases a.result) [
  | inl fine ↦ ground arith
  | inr (e', bad) ↦ ground arith
]

exec_from-failed :
    (answers : List Answer) (r : Retry) (e : ExecError)
    → All IsQuiet answers
    → r.lock_attempts ≤ 2
    → (exec_from answers r).0 ≡ failed e
    → Ending e r.lock_attempts answers
unfolding exec_from
exec_from-failed [] r e q few h = cc
exec_from-failed (a ∷ answers) r e (q, qs) few h = elim (Option-cases (attempt a r).0) [
  | inl again ↦
      let (counted, still, held) = attempt_again a r q few again in
      let later =
        exec_from-failed answers (attempt a r).1 e qs still (rw (again, exec_from) at h) in
      record {
        before = a ∷ later.before;
        last = later.last;
        unread = later.unread;
        split = ap (λ xs. a ∷ xs) later.split;
        held = (held, later.held);
        error = later.error;
        why = elim later.why [
          | inl (lock, two) ↦ inl (lock, ground (arith, two, counted))
          | inr other ↦ inr other
        ];
      }
  | inr (out, over) ↦
      let is : (attempt a r).0 ≡ some (failed e) = ground arith in
      let (error, why) = attempt_quiet a r e q few is in
      record {
        before = [];
        last = a;
        unread = answers;
        split = refl;
        held = tt;
        error = error;
        why = elim why [ inl (lock, two) ↦ inl (lock, omega (arith, two)) | inr other ↦ inr other ];
      }
]

-- Where no shutdown interferes, the execution of a statement with retries fails for two reasons
-- only: its last attempt met a third lock failure, or an error that is neither a lock failure nor a
-- connection failure. All attempts before it failed with one of these two, exactly two of them, in
-- the first case, with a lock failure.
pub exec_with_retry-failed :
    (answers : List Answer) (ts : List Tick) (e : ExecError)
    → All IsQuiet answers
    → (exec_with_retry answers ts).0 ≡ failed e
    → (before : List Answer) × (last : Answer) × (unread : List Answer) × (answers
        ≡ before ++ last ∷ unread)
      × All IsTransient before
      × (last.result ≡ some e)
      × (((is_transient_lock_error e ≡ true) × (count lock_failure before ≡ 2))
          ⊎ ((is_transient_lock_error e ≡ false) × (is_connection_error e ≡ false)))
unfolding exec_with_retry
exec_with_retry-failed answers ts e q h =
    let s = exec_from-failed answers (first_try ts) e q (omega arith) h in
    (
      s.before,
      s.last,
      s.unread,
      s.split,
      s.held,
      s.error,
      elim s.why [ inl (lock, two) ↦ inl (lock, omega (arith, two)) | inr other ↦ inr other ],
    )

record IsPatient (r : Retry) : Type 0 where
  backoff : r.conn_backoff ≤ conn_retry_max_backoff
  waited : All (λ w. w ≤ conn_retry_max_backoff) r.waits

backoff_at_le : (i : ℕ) → backoff_at i flush_retry_backoff ≤ conn_retry_max_backoff
backoff_at_le zero = omega arith
backoff_at_le (suc zero) = omega arith
backoff_at_le (suc (suc i)) = omega arith

attempt-IsPatient : (a : Answer) (r : Retry) → IsPatient r → IsPatient (attempt a r).1
unfolding attempt
attempt-IsPatient a r h = elim (Option-cases a.result) [
  | inl fine ↦ ground arith
  | inr (e, bad) ↦ ground (arith, backoff_at_le r.lock_attempts)
]

exec_from-IsPatient :
    (answers : List Answer) (r : Retry) → IsPatient r → IsPatient (exec_from answers r).1
unfolding exec_from
exec_from-IsPatient [] r h = h
exec_from-IsPatient (a ∷ answers) r h =
    let kept = attempt-IsPatient a r h in
    elim (Option-cases (attempt a r).0) [
      | inl again ↦ rw (again, exec_from) (exec_from-IsPatient answers (attempt a r).1 kept)
      | inr (out, over) ↦ rw (over, exec_from) kept
    ]

-- No single wait is longer than five seconds, however long MySQL stays away.
pub exec_with_retry_waits :
    (answers : List Answer) (ts : List Tick)
    → All (λ w. w ≤ conn_retry_max_backoff) (exec_with_retry answers ts).1.waits
unfolding exec_with_retry
exec_with_retry_waits answers ts =
    (exec_from-IsPatient answers (first_try ts)
      (record { backoff = omega arith; waited = tt })).waited
