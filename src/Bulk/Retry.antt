-- ===== src/Bulk/Retry.antt =====
-- internal/db/db.go: `execWithRetry` and the classes of errors. What MySQL and the context answer
-- is not the code's to decide: it is given as the list of answers, one for each execution of the
-- statement. Waits are in milliseconds.
use statusengine_worker.Prelude.{
  ℕ, ◌+◌, ◌*◌, Bool, true, false, ◌||◌, Option, none, some, List, [], ◌∷◌, ltb, leb, ◌==◌,
  if◌then◌else◌, length,
}
use statusengine_worker.Metrics.{Tick, db_batch_retries, db_connection_retries, db_available}

-- An error of the driver, up to what the code tells apart: a server error by its number.
pub data ExecError : Type 0 where
  mysql_error : ℕ → ExecError
  bad_conn invalid_conn eof net_error : ExecError
  other_error : ℕ → ExecError

abbrev pub mysql_err_too_many_connections : ℕ
mysql_err_too_many_connections = 1040

abbrev pub mysql_err_server_shutdown : ℕ
mysql_err_server_shutdown = 1053

abbrev pub mysql_err_lock_wait_timeout : ℕ
mysql_err_lock_wait_timeout = 1205

abbrev pub mysql_err_deadlock : ℕ
mysql_err_deadlock = 1213

abbrev pub mysql_err_connection_killed : ℕ
mysql_err_connection_killed = 1927

unfoldable pub is_transient_lock_error : ExecError → Bool
is_transient_lock_error (mysql_error n) =
    n == mysql_err_deadlock || n == mysql_err_lock_wait_timeout
is_transient_lock_error _ = false

unfoldable pub is_connection_error : ExecError → Bool
is_connection_error (mysql_error n) =
    n == mysql_err_server_shutdown
    || n == mysql_err_too_many_connections
    || n == mysql_err_connection_killed
is_connection_error (other_error n) = false
is_connection_error _ = true

abbrev pub flush_retry_backoff : List ℕ
flush_retry_backoff = 50 ∷ 200 ∷ []

abbrev pub conn_retry_initial_backoff : ℕ
conn_retry_initial_backoff = 100

abbrev pub conn_retry_max_backoff : ℕ
conn_retry_max_backoff = 5000

-- One execution: its error, whether the context is done by then, and whether the wait that may
-- follow runs to its end.
pub record Answer : Type 0 where
  pub result : Option ExecError
  pub cancelled : Bool
  pub slept : Bool

-- `blocked` is a call that has used up the answers given and still waits for MySQL.
pub data Outcome : Type 0 where
  written : Outcome
  failed : ExecError → Outcome
  blocked : Outcome

-- What the loop keeps between two executions; `waits` are the pauses made, newest first.
pub record Retry : Type 0 where
  pub lock_attempts : ℕ
  pub conn_attempts : ℕ
  pub conn_backoff : ℕ
  pub waits : List ℕ
  pub ticks : List Tick

abbrev pub backoff_at : ℕ → List ℕ → ℕ
backoff_at i [] = 0
backoff_at ℕ.zero (w ∷ ws) = w
backoff_at (ℕ.suc i) (w ∷ ws) = backoff_at i ws

-- `if connBackoff *= 2; connBackoff > connRetryMaxBackoff`.
unfoldable pub next_backoff : ℕ → ℕ
next_backoff n = if ltb conn_retry_max_backoff (n * 2) then conn_retry_max_backoff else n * 2

abbrev outage_ticks : ℕ → List Tick → List Tick
outage_ticks n ts = if n == 0 then db_available false ∷ ts else ts

abbrev recovery_ticks : ℕ → List Tick → List Tick
recovery_ticks n ts = if ltb 0 n then db_available true ∷ ts else ts

-- The branch of one failed execution: the loop ends with the error, or goes on.
pub data Verdict : Type 0 where
  gives_up : Verdict
  retries : Verdict

unfoldable pub on_lock_error : Answer → Retry → Verdict × Retry
on_lock_error a r =
    if leb (length flush_retry_backoff) r.lock_attempts
    then (gives_up, r)
    else (let r' : Retry = record r {
      waits = backoff_at r.lock_attempts flush_retry_backoff ∷ r.waits;
      ticks = db_batch_retries ∷ r.ticks;
    } in
        if a.slept
        then (retries, record r' { lock_attempts = r.lock_attempts + 1 })
        else (gives_up, r'))

unfoldable pub on_connection_error : Answer → Retry → Verdict × Retry
unfolding next_backoff
on_connection_error a r =
    let r' : Retry = record r {
      waits = r.conn_backoff ∷ r.waits;
      ticks = db_connection_retries ∷ outage_ticks r.conn_attempts r.ticks;
    } in
    if a.slept
    then (
      retries,
      record r' { conn_attempts = r.conn_attempts + 1; conn_backoff = next_backoff r.conn_backoff },
    )
    else (gives_up, r')

unfoldable pub on_error : ExecError → Answer → Retry → Verdict × Retry
unfolding on_lock_error on_connection_error is_transient_lock_error is_connection_error
on_error e a r =
    if a.cancelled
    then (gives_up, r)
    else if is_transient_lock_error e
    then on_lock_error a r
    else if is_connection_error e
    then on_connection_error a r
    else (gives_up, r)

-- One execution of the statement: `none` goes round the loop again.
unfoldable pub attempt : Answer → Retry → Option Outcome × Retry
unfolding on_error
attempt a r = elim a.result [
  | none ↦ (some written, record r { ticks = recovery_ticks r.conn_attempts r.ticks })
  | some e ↦
      let (v, r') = on_error e a r in
      elim v [ gives_up ↦ (some (failed e), r') | retries ↦ (none, r') ]
]

unfoldable pub exec_from : List Answer → Retry → Outcome × Retry
exec_from [] r = (blocked, r)
exec_from (a ∷ rest) r =
    let (o, r') = attempt a r in elim o [ some out ↦ (out, r') | none ↦ exec_from rest r' ]

abbrev pub first_try : List Tick → Retry
first_try ts = record {
  lock_attempts = 0;
  conn_attempts = 0;
  conn_backoff = conn_retry_initial_backoff;
  waits = [];
  ticks = ts;
}

unfoldable pub exec_with_retry : List Answer → List Tick → Outcome × Retry
unfolding exec_from attempt
exec_with_retry answers ts = exec_from answers (first_try ts)
