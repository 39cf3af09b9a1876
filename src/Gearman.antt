-- ===== src/Gearman.antt =====
-- internal/queue/gearman.go: the consumer of a Gearman job server, as what its goroutines do to what
-- they share: the job handlers, one supervisor of the connection for each queue, and `Stop`. One
-- function is what one of them does between two points at which another may go on. A queue is its
-- place in the router; a worker, which is one generation of its connection, is a number.
--
-- Of the library, `working` holds the workers of each queue whose `Work` loop asks for jobs. `Work` begins that;
-- `Close` ends it, and does nothing to a worker whose `Work` has not begun; a lost connection ends it
-- too. Draining the jobs of a closed worker is the steps of these jobs.
pub mod Steps
pub mod Shutdown
pub mod Jobs
pub mod Sound
pub mod Generations
pub mod Late
mod Tests
use statusengine_worker.Prelude.{
  u64, ℕ, ◌+◌, String, str_eq, Bool, true, false, Option, none, some, List, [], ◌∷◌, ◌++◌, Bytes,
  ltb, ◌==◌, if◌then◌else◌,
}
use statusengine_worker.Metrics.{pipeline_errors, component_queue}
use statusengine_worker.Queue.{HandlerError}
use statusengine_worker.Queue.Handlers.{World, Handler}

abbrev pub outbound_buffer_size : ℕ
outbound_buffer_size = 256

-- The value of `QueueDowntimes`.
unfoldable pub requires_in_order_processing : String → Bool
requires_in_order_processing queue_name = str_eq queue_name "statusngin_downtimes"

unfoldable pub job_limit_for : ℕ → String → ℕ
unfolding requires_in_order_processing
job_limit_for max_concurrent_jobs_per_queue queue_name =
    if requires_in_order_processing queue_name then 1 else max_concurrent_jobs_per_queue

pub record Job : Type 0 where
  pub queue : ℕ
  pub payload : Bytes

-- What the job server is told of a job.
pub data Result : Type 0 where
  complete stopped_consumer : Result
  handler_failed : HandlerError → Result

-- Where the supervisor of a connection stands: it waits for a loss; it ends the dead worker; it
-- waits to try again; it has a new worker that nobody else knows of; it has stored the new worker,
-- whose `Work` it is about to start; it has returned.
pub data Supervisor : Type 0 where
  watching ending retrying ended : Supervisor
  built hung_in : ℕ → Supervisor

pub record QueueWorker : Type 0 where
  pub worker : ℕ
  pub lost : Bool
  pub supervisor : Supervisor

-- Where `Stop` stands. `closing` has the workers of the snapshot, and which it has closed.
pub data StopPhase : Type 0 where
  not_stopped : StopPhase
  closing : (ℕ → ℕ) → (ℕ → Bool) → StopPhase
  closed draining finished : (ℕ → ℕ) → StopPhase

-- `handlerWG` counts the jobs that have begun, whether or not they have been offered to `out`.
-- `panicked` is a send on the closed `out`. `received` are all jobs that came from the server.
pub record GearmanConsumer (S : Type 0) : Type 0 where
  pub queues : ℕ → QueueWorker
  pub working : ℕ → ℕ → Bool
  pub next_worker : ℕ
  pub stopping : Bool
  pub stopped : Bool
  pub stop : StopPhase
  pub out_length : ℕ
  pub out_closed : Bool
  pub panicked : Bool
  pub received : List Job
  pub dispatched : List Job
  pub begun : List Job
  pub offered : List Job
  pub answers : List (Job × Result)
  pub processed : ℕ
  pub errors : ℕ
  pub reconnects : ℕ
  pub world : World S

-- A function with one value replaced.
unfoldable pub put {ℓ} : {A : Type ℓ} → ℕ → A → (ℕ → A) → ℕ → A
put i a f j = if j == i then a else f j

module _ {S : Type 0} where
  abbrev pub set_queue : ℕ → QueueWorker → GearmanConsumer S → GearmanConsumer S
  set_queue i q c = record c { queues = put i q c.queues }

  abbrev pub supervise : ℕ → Supervisor → GearmanConsumer S → GearmanConsumer S
  supervise i s c = set_queue i (record (c.queues i) { supervisor = s }) c

  -- The library's `Work` and `Close`.
  abbrev pub work : ℕ → ℕ → GearmanConsumer S → GearmanConsumer S
  work i w c = record c { working = put i (put w true (c.working i)) c.working }

  abbrev pub close : ℕ → ℕ → GearmanConsumer S → GearmanConsumer S
  close i w c = record c { working = put i (put w false (c.working i)) c.working }

  -- The error handler of a queue, for a connection that is lost: the request is kept if there is none.
  unfoldable pub report_lost : ℕ → GearmanConsumer S → GearmanConsumer S
  unfolding put
  report_lost i c =
      close i (c.queues i).worker (set_queue i (record (c.queues i) { lost = true }) c)

  unfoldable pub take_lost : ℕ → GearmanConsumer S → GearmanConsumer S
  unfolding put
  take_lost i c =
      record (set_queue i (record (c.queues i) { lost = false; supervisor = ending }) c) {
        reconnects = u64 (c.reconnects + 1);
      }

  unfoldable pub end_dead : ℕ → GearmanConsumer S → GearmanConsumer S
  unfolding put
  end_dead i c = close i (c.queues i).worker (supervise i retrying c)

  unfoldable pub build : ℕ → GearmanConsumer S → GearmanConsumer S
  unfolding put
  build i c = record (supervise i (built c.next_worker) c) { next_worker = c.next_worker + 1 }

  -- Under `mu`: a supervisor that sees the shutdown closes its new worker, which is not working.
  unfoldable pub hang_in : ℕ → ℕ → GearmanConsumer S → GearmanConsumer S
  unfolding put
  hang_in i fresh c =
      if c.stopping
      then supervise i ended c
      else set_queue i (record (c.queues i) { worker = fresh; supervisor = hung_in fresh }) c

  -- `go fresh.Work()` and the way back to the select are one step: the model has no order in which
  -- the connection of the new worker is lost before its `Work` runs.
  unfoldable pub start_work : ℕ → ℕ → GearmanConsumer S → GearmanConsumer S
  unfolding put
  start_work i fresh c = work i fresh (supervise i watching c)

  -- The parts of `jobHandler`: `beginHandler`, the copy for observation, and what follows the
  -- handler.
  unfoldable pub begin_handler : Job → GearmanConsumer S → GearmanConsumer S
  begin_handler job c =
      if c.stopped
      then record c { answers = (job, stopped_consumer) ∷ c.answers }
      else record c { begun = job ∷ c.begun }

  unfoldable pub offer_copy : Job → GearmanConsumer S → GearmanConsumer S
  offer_copy job c = if c.out_closed then record c { panicked = true } else record c {
    offered = job ∷ c.offered;
    out_length = if ltb c.out_length outbound_buffer_size then c.out_length + 1 else c.out_length;
  }

  unfoldable pub after_handler :
      Job → Option HandlerError × World S → GearmanConsumer S → GearmanConsumer S
  after_handler job (none, w) c = record c {
    world = w;
    processed = u64 (c.processed + 1);
    answers = (job, complete) ∷ c.answers;
  }
  after_handler job (some e, w) c = record c {
    world = record w { ticks = pipeline_errors component_queue ∷ w.ticks };
    errors = u64 (c.errors + 1);
    answers = (job, handler_failed e) ∷ c.answers;
  }

  -- The parts of `Stop`. The first runs under `mu`, and once.
  unfoldable pub begin_stop : GearmanConsumer S → GearmanConsumer S
  begin_stop c = record c {
    stopping = true;
    stop = closing (λ i. (c.queues i).worker) (λ i. false);
  }

  unfoldable pub close_one : ℕ → (ℕ → ℕ) → (ℕ → Bool) → GearmanConsumer S → GearmanConsumer S
  unfolding put
  close_one i workers done c =
      close i (workers i) (record c { stop = closing workers (put i true done) })

  unfoldable pub close_gate : (ℕ → ℕ) → GearmanConsumer S → GearmanConsumer S
  close_gate workers c = record c { stopped = true; stop = draining workers }

  unfoldable pub close_out : (ℕ → ℕ) → GearmanConsumer S → GearmanConsumer S
  close_out workers c = record c { out_closed = true; stop = finished workers }

  -- What `Start` leaves once every connection stands: the worker of each queue is about to work.
  unfoldable pub started : World S → GearmanConsumer S
  started w = record {
    queues = λ i. record { worker = 0; lost = false; supervisor = hung_in 0 };
    working = λ i w. false;
    next_worker = 1;
    stopping = false;
    stopped = false;
    stop = not_stopped;
    out_length = 0;
    out_closed = false;
    panicked = false;
    received = [];
    dispatched = [];
    begun = [];
    offered = [];
    answers = [];
    processed = 0;
    errors = 0;
    reconnects = 0;
    world = w;
  }
