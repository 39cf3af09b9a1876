-- ===== src/Cleanup/Finished.antt =====
-- That a run leaves no old row, whatever becomes of the other tables.
use statusengine_worker.Prelude.{
  ℕ, ◌+◌, ◌≤◌, ◌<◌, true, false, not, inl, inr, some, List, [], ◌∷◌, ◌++◌, Bytes, ◌≡◌, ◌≢◌, refl,
  sym, ℤ, pos, ltb_ℤ, count, length, All, Bool-cases, arith,
}
use statusengine_worker.Cleanup.{
  Table, Options, Reply, refused, done, Outside, Outcome, finished, interrupted, unfinished, failed,
  delete_batch, rows_affected, World, ask, delete_query, clean_table, clean_tables, run,
}
use statusengine_worker.Cleanup.Rows.{Laws, count-split, count-of-filter}
use statusengine_worker.Cleanup.Retention.{expired, delete_batches-keeps, delete_batches-Ends, Ends}
use statusengine_worker.Cleanup.Passes.{
  Bytes-discrete, is_enabled, cutoff_at, Kept, opened, clean_tables-keeps,
}

module _ (o : Outside) (opts : Options) (laws : Laws o.mysql opts) where
  open o use {mysql, Time, now, days_before, interrupted_at}
  open mysql use {Db, exec}
  open laws use {IsTable, Row, rows, value}

  module _ (limit : ℕ) (is_limit : opts.batch_size ≡ pos limit) (some_limit : 1 ≤ limit)
      (calm : (k : ℕ) → interrupted_at k ≡ false) where
    abbrev AllBelow : ℕ → Db → Type 0
    AllBelow fuel db = (name : Bytes) → length (rows name db) < fuel

    -- No table grows.
    AllBelow-Kept :
        (fuel : ℕ) (table : Table) (cutoff : ℤ) (reply : Reply) (db db' : Db)
        → IsTable table
        → exec (delete_query table opts) cutoff db ≡ (reply, db')
        → AllBelow fuel db
        → AllBelow fuel db'
    AllBelow-Kept fuel table cutoff refused db db' is_table x below name =
        rw (laws.refuses _ _ db db' x name) (below name)
    AllBelow-Kept fuel table cutoff (done n) db db' is_table x below name =
        elim (Bytes-discrete name table.name) [
          | no other ↦ rw (laws.spares table cutoff db db' n name is_table other x) (below name)
          | yes it ↦
              let (removed, _, balance, _, _) =
                laws.removes table limit cutoff db db' n is_table is_limit x in
              let stale = λ (r : Row). ltb_ℤ (value table.column r) cutoff in
              let fresh : count (λ (r : Row). not (stale r)) (rows table.name db')
                  ≡ count (λ (r : Row). not (stale r)) (rows table.name db) =
                count-of-filter (λ r. not (stale r)) _ _
                  (laws.keeps table cutoff db db' n is_table x) in
              let old = count-split stale (rows table.name db) in
              let new = count-split stale (rows table.name db') in
              let bound = below table.name in rw it (omega arith)
        ]

    -- A table whose statements MySQL accepts is finished with.
    module _ (table : Table) (is_table : IsTable table)
        (accepted : (cutoff : ℤ) (db : Db)
          → (n : ℕ) × ((exec (delete_query table opts) cutoff db).0 ≡ done (some n))) where
      Ends-finished :
          (cutoff : ℤ) (out : Outcome) (w : World o)
          → Ends o opts laws table cutoff out w
          → expired o opts laws table cutoff w.db ≡ 0
      Ends-finished cutoff finished w h = h
      Ends-finished cutoff interrupted w (k, h) = cc (calm k)
      Ends-finished cutoff unfinished w h = elim h [ ]
      Ends-finished cutoff (failed (delete_batch n)) w (db, h) = cc (accepted cutoff db).1
      Ends-finished cutoff (failed (rows_affected n)) w (db, h) = cc (accepted cutoff db).1

      clean_table-finished :
          (fuel : ℕ) (k : ℕ) (w : World o)
          → AllBelow fuel w.db
          → expired o opts laws table
              (cutoff_at o opts laws k table)
              (clean_table o fuel table opts (now k) w).1.db
            ≡ 0
      unfolding clean_table
      clean_table-finished fuel k w below =
          let split =
            count-split (λ (r : Row). ltb_ℤ (value table.column r) (cutoff_at o opts laws k table))
              (rows table.name w.db) in
          let bound = below table.name in
          Ends-finished _ _ _ (
            delete_batches-Ends o opts laws table is_table limit is_limit
              (cutoff_at o opts laws k table) fuel 0 w (grind arith))

      Expired-Kept :
          (cutoff : ℤ) (other : Table)
          → IsTable other
          → other.name ≢ table.name
          → Kept o opts laws (λ db. expired o opts laws table cutoff db ≡ 0) other
      Expired-Kept cutoff other is_other differ e k refused db db' x none_left =
          rw (laws.refuses _ _ db db' x table.name) none_left
      Expired-Kept cutoff other is_other differ e k (done n) db db' x none_left =
          rw (laws.spares other _ db db' n table.name is_other (λ same. differ (sym same)) x)
            none_left

      Expired-All :
          (cutoff : ℤ) (tables : List Table)
          → All IsTable tables
          → All (λ (t : Table). t.name ≢ table.name) tables
          → All (Kept o opts laws (λ db. expired o opts laws table cutoff db ≡ 0)) tables
      Expired-All cutoff [] known h = tt
      Expired-All cutoff (t ∷ tables) (k, known) (h, rest) =
          (Expired-Kept cutoff t k h, Expired-All cutoff tables known rest)

      clean_tables-cleans :
          (fuel k : ℕ) (before after : List Table) (w : World o)
          → k ≡ w.clock_reads + count (is_enabled o opts laws) before
          → is_enabled o opts laws table ≡ true
          → All IsTable before
          → All IsTable after
          → All (λ (t : Table). t.name ≢ table.name) after
          → AllBelow fuel w.db
          → expired o opts laws table
              (cutoff_at o opts laws k table)
              (clean_tables o fuel (before ++ table ∷ after) opts w).1.db
            ≡ 0
      unfolding clean_tables
      clean_tables-cleans fuel k [] after w reading on known later others below =
          let it : k ≡ w.clock_reads = omega arith in
          rw (calm w.asked, on, clean_tables, it)
            (clean_tables-keeps o opts laws
              (λ db. expired o opts laws table (cutoff_at o opts laws w.clock_reads table) db ≡ 0)
              fuel after
              (clean_table o fuel table opts (now w.clock_reads) (opened o opts laws w)).1
              (Expired-All (cutoff_at o opts laws w.clock_reads table) after later others)
              (clean_table-finished fuel w.clock_reads (opened o opts laws w) below))
      clean_tables-cleans fuel k (t ∷ before) after w reading on (is_t, known) later others below =
          elim (Bool-cases (is_enabled o opts laws t)) [
            | inr off ↦
                rw (calm w.asked, off, clean_tables)
                  (clean_tables-cleans fuel k before after (ask o w) (ground arith) on known later
                    others below)
            | inl enabled ↦
                let w' = (clean_table o fuel t opts (now w.clock_reads) (opened o opts laws w)).1 in
                let one_reading : w'.clock_reads ≡ w.clock_reads + 1 =
                  unfold clean_table in
                  delete_batches-keeps o opts laws (λ db reads. reads ≡ w.clock_reads + 1) t
                    (cutoff_at o opts laws w.clock_reads t) (λ reply db db' reads x same. same) fuel
                    0 (opened o opts laws w) refl in
                let still_below : AllBelow fuel w'.db =
                  unfold clean_table in
                  delete_batches-keeps o opts laws (λ db reads. AllBelow fuel db) t
                    (cutoff_at o opts laws w.clock_reads t)
                    (λ reply db db' reads.
                      AllBelow-Kept fuel t (cutoff_at o opts laws w.clock_reads t) reply db db'
                        is_t)
                    fuel 0 (opened o opts laws w) below in
                rw (calm w.asked, enabled, clean_tables)
                  (clean_tables-cleans fuel k before after w' (ground arith) on known later others
                    still_below)
          ]

      -- If nothing interrupts the run, and MySQL accepts every statement for an enabled table that
      -- no later entry names again, then the run leaves no row in this table that is older than the
      -- cutoff of its clock reading, whatever becomes of the other tables. More rounds of fuel than
      -- the largest table has rows are enough.
      pub run-cleans :
          (fuel : ℕ) (before after : List Table) (w : World o)
          → is_enabled o opts laws table ≡ true
          → All IsTable before
          → All IsTable after
          → All (λ (t : Table). t.name ≢ table.name) after
          → ((name : Bytes) → length (rows name w.db) < fuel)
          → count
              (λ r. ltb_ℤ (value table.column r) (
                cutoff_at o opts laws
                  (w.clock_reads + count (is_enabled o opts laws) before)
                  table))
              (rows table.name (run o fuel (before ++ table ∷ after) opts w).1.db)
            ≡ 0
      unfolding run
      run-cleans fuel before after w on known later others below =
          let valid : ltb_ℤ opts.batch_size (pos 1) ≡ false = rw is_limit (ground arith) in
          rw valid (clean_tables-cleans fuel _ before after w refl on known later others below)
