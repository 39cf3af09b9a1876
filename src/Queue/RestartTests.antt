-- ===== src/Queue/RestartTests.antt =====
-- A restart whose second pause is cancelled, after one that goes well.
use statusengine_worker.Prelude.{
  ℕ, ◌≡◌, refl, true, false, Option, none, some, List, [], ◌∷◌, ◌++◌, Bytes, codes, ℤ, pos, is_some,
  if◌then◌else◌,
}
use statusengine_worker.Hub.{new_hub, has_clients}
use statusengine_worker.Queue.{cleanup_failed, publish}
use statusengine_worker.Events.History.{CoreRestartMessage}
use statusengine_worker.Bulk.{BulkInserter}
use statusengine_worker.Bulk.Flush.{flush_buffer, drain_pending}
use statusengine_worker.Bulk.Run as Run
use statusengine_worker.Bulk.Run.{step}
use statusengine_worker.Bulk.Paused.{PauseCall, with_paused}
use statusengine_worker.Queue.Tests.{marshal}
use statusengine_worker.Queue.Restart.{
  Statement, hoststatus_stale_delete_query, servicestatus_stale_delete_query, RestartCall,
  RestartWorld, new_core_restart_handler,
}
use statusengine_worker.Queue.Restarted.{statements_for, new_core_restart_handler-sends}

abbrev status : BulkInserter ℕ ℕ
status = record {
  table = codes "t";
  columns = codes "hostname" ∷ [];
  to_row = λ p dst. dst ++ p ∷ [];
  update_columns = [];
  row_placeholder = codes "(?)";
  update_clause = [];
  in_chan = [];
  max_batch_size = 2;
  buffer = [];
  flushes_since_stats = 0;
  rows_since_stats = 0;
  processed = 0;
  ticks = [];
}

abbrev idle : RestartWorld ℕ ℕ ℕ ℕ
idle = record {
  hub = new_hub;
  hosts = Run.start status;
  services = Run.start status;
  statements = [];
}

abbrev pause : PauseCall ℕ
pause = record {
  flush_call = record {
    rounds_before = [];
    request_sent = true;
    arrivals = [];
    answers = [];
    reply_read = true;
  };
  rounds_between = [];
  request_sent = true;
  paused_seen = true;
  enqueued_meanwhile = [];
  interrupted = none;
}

abbrev fine : RestartCall ℕ ℕ
fine = record {
  now = pos 1700000000;
  host_pause = pause;
  host_accepted = true;
  service_pause = pause;
  service_accepted = true;
}

abbrev calls : ℕ → RestartCall ℕ ℕ
calls ℕ.zero = fine
calls (ℕ.suc k) = record fine { service_pause = record pause { paused_seen = false } }

abbrev event : ℤ → ℤ → CoreRestartMessage
event object_type timestamp = record { object_type = object_type; timestamp = timestamp }

abbrev events : List CoreRestartMessage
events = event (pos 102) (pos 0) ∷ event (pos 100) (pos 5) ∷ event (pos 102) (pos 1700000123) ∷ []

abbrev decoded : Bytes → Option (List CoreRestartMessage)
decoded payload = some events

two_restarts :
    (new_core_restart_handler marshal "statusngin_core_restart" decoded false calls [] idle).0
    ≡ some cleanup_failed
unfolding new_core_restart_handler publish new_hub with_paused Run.run step flush_buffer
    drain_pending has_clients
two_restarts = refl

three_statements :
    (new_core_restart_handler marshal "statusngin_core_restart" decoded false calls []
      idle).1.statements
    ≡ (hoststatus_stale_delete_query, pos 1700000000 ∷ [])
      ∷ (servicestatus_stale_delete_query, pos 1700000000 ∷ [])
      ∷ (hoststatus_stale_delete_query, pos 1700000123 ∷ [])
      ∷ []
unfolding new_core_restart_handler publish new_hub with_paused Run.run step flush_buffer
    drain_pending has_clients
three_statements = refl

new_core_restart_handler-sends_example :
    let (err, w') =
      new_core_restart_handler marshal "statusngin_core_restart" decoded false calls [] idle in
    (unsent : List Statement) × (w'.statements ++ unsent
      ≡ idle.statements ++ statements_for false calls 0 events)
    × ((if is_some err then [] else unsent) ≡ [])
new_core_restart_handler-sends_example =
    new_core_restart_handler-sends marshal "statusngin_core_restart" decoded false calls [] events
      idle refl
