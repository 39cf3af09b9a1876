-- ===== src/Cleanup/Tests.antt =====
-- Witnesses for the cleanup of tables, and runs.
use statusengine_worker.Prelude.{
  ℕ, ◌≤◌, ◌<◌, Bool, true, false, not, inl, inr, some, List, [], ◌∷◌, Bytes, codes, ◌≡◌, refl, ℤ,
  pos, negsuc, ltb_ℤ, ◌*◌, ◌-ℤ◌, filter, count, length, arith,
}
use statusengine_worker.Cleanup.{
  Table, done, Outside, World, delete_query, delete_batches, run, invalid_batch_size, table_failed,
  delete_batch,
}
use statusengine_worker.Cleanup.Retention.{delete_batches-Ends, Ends}
use statusengine_worker.Cleanup.Passes.{run-keeps}
use statusengine_worker.Cleanup.Finished.{run-cleans}
use statusengine_worker.Cleanup.Server.{
  remove, server, server_laws, stamps, log_entries, missing, in_twos,
}

-- The clock stands at 200,000 seconds, so that the cutoff of two days is at 27,200.
abbrev calm_day : Outside
calm_day = record {
  mysql = server;
  Time = ℤ;
  now = λ k. pos 200000;
  days_before = λ t d. t -ℤ pos (86400 * elim d [ pos n ↦ n | negsuc n ↦ 0 ]);
  interrupted_at = λ k. false;
}

abbrev filled : World calm_day
filled = record {
  db = pos 100 ∷ pos 199000 ∷ pos 5 ∷ pos 7 ∷ pos 27200 ∷ [];
  asked = 0;
  clock_reads = 0;
}

abbrev both : List Table
both = missing ∷ log_entries ∷ []

pass : run calm_day 9 both in_twos filled ≡ (
  table_failed (codes "statusengine_perfdata") (delete_batch 1) ∷ [],
  record { db = pos 199000 ∷ pos 27200 ∷ []; asked = 6; clock_reads = 2 },
)
unfolding run delete_query remove ◌-ℤ◌
pass = refl

no_batch :
    run calm_day 9 both (record { batch_size = pos 0; pause = pos 0 }) filled
    ≡ (invalid_batch_size ∷ [], filled)
unfolding run
no_batch = refl

delete_batches-Ends_example :
    Ends calm_day in_twos server_laws log_entries
      (pos 27200)
      (delete_batches calm_day 2 log_entries in_twos (pos 27200) 0 filled).0
      (delete_batches calm_day 2 log_entries in_twos (pos 27200) 0 filled).1
delete_batches-Ends_example =
    delete_batches-Ends calm_day in_twos server_laws log_entries (inl refl) 2 refl (pos 27200) 2 0
      filled (omega arith)

abbrev recent : Bytes → ℤ → Bool
recent name row = not (ltb_ℤ row (pos 200000))

young_enough :
    (d : ℤ)
    → 86400 * elim d [ pos n ↦ n | negsuc n ↦ 0 ] ≤ 200000
    → ltb_ℤ (pos 0) d ≡ true
    → (k : ℕ) (row : ℤ) → recent log_entries.name row ≡ true
    → ltb_ℤ row (pos 200000 -ℤ pos (86400 * elim d [ pos n ↦ n | negsuc n ↦ 0 ])) ≡ false
unfolding ◌-ℤ◌
young_enough d h on k row keep = ground arith

run-keeps_example :
    filter
      (recent log_entries.name)
      (stamps log_entries.name (run calm_day 9 both in_twos filled).1.db)
    ≡ filter (recent log_entries.name) (stamps log_entries.name filled.db)
run-keeps_example =
    run-keeps calm_day in_twos server_laws recent filled 9 both (inr refl, (inl refl, tt))
      (young_enough (pos 1) (omega arith), (young_enough (pos 2) (omega arith), tt))
      log_entries.name

accepts :
    (cutoff : ℤ) (db : List ℤ)
    → (n : ℕ) × ((server.exec (delete_query log_entries in_twos) cutoff db).0 ≡ done (some n))
unfolding delete_query
accepts cutoff db = ((remove 2 cutoff db).0, refl)

few : (name : Bytes) → length (stamps name filled.db) < 9
few name = ground arith

run-cleans_example :
    count
      (λ r. ltb_ℤ r (calm_day.days_before (calm_day.now 1) log_entries.days))
      (stamps log_entries.name (run calm_day 9 both in_twos filled).1.db)
    ≡ 0
run-cleans_example =
    run-cleans calm_day in_twos server_laws 2 refl (omega arith) (λ k. refl) log_entries (inl refl)
      accepts 9 (missing ∷ []) [] filled refl (inr refl, tt) tt tt few
