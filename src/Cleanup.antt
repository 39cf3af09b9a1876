-- ===== src/Cleanup.antt =====
-- internal/cleanup/cleanup.go: the pass that deletes old rows. MySQL, the clock and the context are
-- parameters: `interrupted_at` says what the context answers each time that it is asked, `now` what
-- the clock shows at each reading, and `days_before` is `AddDate(0, 0, -days).Unix()`. The counts of
-- deleted rows and the durations, which are only logged, are left out.
pub mod Rows
pub mod Retention
pub mod Passes
pub mod Finished
mod Server
mod Tests
use statusengine_worker.Prelude.{
  ℕ, zero, suc, ◌+◌, Bool, true, false, Option, none, some, List, [], ◌∷◌, ◌++◌, Bytes, codes, ℤ,
  pos, ltb_ℤ, format_int, if◌then◌else◌,
}

pub record Table : Type 0 where
  pub name : Bytes
  pub column : Bytes
  pub days : ℤ

pub record Options : Type 0 where
  pub batch_size : ℤ
  pub pause : ℤ

-- The answer to a statement. The count of affected rows may be missing.
pub data Reply : Type 0 where
  refused : Reply
  done : Option ℕ → Reply

-- The database, as far as a statement with one bound value uses it.
pub record Mysql : Type 1 where
  pub Db : Type 0
  pub exec : Bytes → ℤ → Db → Reply × Db

pub record Outside : Type 1 where
  pub mysql : Mysql
  pub Time : Type 0
  pub now : ℕ → Time
  pub days_before : Time → ℤ → ℤ
  pub interrupted_at : ℕ → Bool

-- With the number of the batch, counted from 1.
pub data TableError : Type 0 where
  delete_batch : ℕ → TableError
  rows_affected : ℕ → TableError

-- How a table ends. `finished` and `interrupted` are nil errors; `unfinished` is the model's fuel.
pub data Outcome : Type 0 where
  finished interrupted unfinished : Outcome
  failed : TableError → Outcome

pub data RunError : Type 0 where
  invalid_batch_size : RunError
  table_failed : Bytes → TableError → RunError

-- "DELETE FROM `%s` WHERE `%s` < ? LIMIT %d"
unfoldable pub delete_query : Table → Options → Bytes
unfolding format_int
delete_query table opts =
    codes "DELETE FROM `"
    ++ (table.name
        ++ (codes "` WHERE `"
            ++ (table.column ++ (codes "` < ? LIMIT " ++ format_int opts.batch_size))))

module _ (o : Outside) where
  open o use {mysql, Time, now, days_before, interrupted_at}
  open mysql use {Db, exec}

  -- The database, and how often the context was asked and the clock read.
  pub record World : Type 0 where
    pub db : Db
    pub asked : ℕ
    pub clock_reads : ℕ

  abbrev pub ask : World → World
  ask w = record w { asked = w.asked + 1 }

  abbrev pub is_interrupted : World → Bool
  is_interrupted w = interrupted_at w.asked

  -- What stands after the statement in the loop of cleanTable. `next` is the rest of the loop, and
  -- `batch` the number of this batch.
  unfoldable pub pause_between : (World → Outcome × World) → Options → World → Outcome × World
  pause_between next opts w =
      if ltb_ℤ (pos 0) opts.pause
      then (if is_interrupted w then (interrupted, ask w) else next (ask w))
      else next w

  unfoldable pub after_exec :
      (World → Outcome × World) → Options → ℕ → Reply → World → Outcome × World
  unfolding pause_between
  after_exec next opts batch refused w =
      if is_interrupted w then (interrupted, ask w) else (failed (delete_batch batch), ask w)
  after_exec next opts batch (done none) w = (failed (rows_affected batch), w)
  after_exec next opts batch (done (some affected)) w =
      if ltb_ℤ (pos affected) opts.batch_size then (finished, w) else pause_between next opts w

  unfoldable pub delete_batches : ℕ → Table → Options → ℤ → ℕ → World → Outcome × World
  unfolding after_exec
  delete_batches zero table opts cutoff batches w = (unfinished, w)
  delete_batches (suc fuel) table opts cutoff batches w = elim (is_interrupted w) [
    | true ↦ (interrupted, ask w)
    | false ↦
        let (reply, db) = exec (delete_query table opts) cutoff w.db in
        after_exec (delete_batches fuel table opts cutoff (batches + 1)) opts (batches + 1) reply
          (record w { db = db; asked = w.asked + 1 })
  ]

  unfoldable pub clean_table : ℕ → Table → Options → Time → World → Outcome × World
  unfolding delete_batches
  clean_table fuel table opts time w =
      delete_batches fuel table opts (days_before time table.days) 0 w

  abbrev pub errors_of : Table → Outcome → List RunError
  errors_of table (failed e) = table_failed table.name e ∷ []
  errors_of table _ = []

  -- The loop of Run over the tables, with the errors in the order of the tables.
  unfoldable pub clean_tables : ℕ → List Table → Options → World → List RunError × World
  unfolding clean_table
  clean_tables fuel [] opts w = ([], w)
  clean_tables fuel (table ∷ tables) opts w = elim (is_interrupted w) [
    | true ↦ ([], ask w)
    | false ↦ elim (ltb_ℤ (pos 0) table.days) [
      | false ↦ clean_tables fuel tables opts (ask w)
      | true ↦
          let (out, w') =
            clean_table fuel table opts (now w.clock_reads)
              (record w { asked = w.asked + 1; clock_reads = w.clock_reads + 1 }) in
          let (errors, w'') = clean_tables fuel tables opts w' in
          (errors_of table out ++ errors, w'')
    ]
  ]

  unfoldable pub run : ℕ → List Table → Options → World → List RunError × World
  unfolding clean_tables
  run fuel tables opts w =
      if ltb_ℤ opts.batch_size (pos 1)
      then (invalid_batch_size ∷ [], w)
      else clean_tables fuel tables opts w
