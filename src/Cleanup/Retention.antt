-- ===== src/Cleanup/Retention.antt =====
-- What the pass may delete, and that the loop over the batches ends.
use statusengine_worker.Prelude.{
  ℕ, zero, suc, ◌+◌, ◌*◌, ◌≤◌, ◌<◌, true, ◌⊎◌, inl, inr, none, some, ◌≡◌, refl, ap, ℤ, pos, ltb,
  ltb_ℤ, count, Bool-cases, arith,
}
use statusengine_worker.Cleanup.{
  Table, Options, Reply, refused, done, Outside, Outcome, finished, interrupted, unfinished, failed,
  delete_batch, rows_affected, World, ask, is_interrupted, pause_between, after_exec, delete_query,
  delete_batches,
}
use statusengine_worker.Cleanup.Rows.{Laws}

ltb_ℤ-pos : (n m : ℕ) → ltb_ℤ (pos n) (pos m) ≡ ltb n m
ltb_ℤ-pos n m = ground arith

module _ (o : Outside) (opts : Options) (laws : Laws o.mysql opts) where
  open o use {mysql, Time, now, days_before, interrupted_at}
  open mysql use {Db, exec}
  open laws use {IsTable, Row, rows, value}

  abbrev pub expired : Table → ℤ → Db → ℕ
  expired table cutoff db = count (λ r. ltb_ℤ (value table.column r) cutoff) (rows table.name db)

  -- What any way of running the loop keeps of the database and of the count of clock readings.
  module _ (P : Db → ℕ → Type 0) (table : Table) (cutoff : ℤ)
      (kept : (reply : Reply) (db db' : Db) (reads : ℕ)
        → exec (delete_query table opts) cutoff db ≡ (reply, db')
        → P db reads
        → P db' reads) where
    abbrev Holds : World o → Type 0
    Holds w = P w.db w.clock_reads

    pub after_exec-keeps :
        (next : World o → Outcome × World o)
        → ((w : World o) → Holds w → Holds (next w).1)
        → (batch : ℕ) (reply : Reply) (w : World o) → Holds w
        → Holds (after_exec o next opts batch reply w).1
    unfolding after_exec pause_between
    after_exec-keeps next h batch refused w p = ground arith
    after_exec-keeps next h batch (done none) w p = p
    after_exec-keeps next h batch (done (some n)) w p = ground (arith, h w, h (ask o w))

    pub delete_batches-keeps :
        (fuel batches : ℕ) (w : World o)
        → Holds w
        → Holds (delete_batches o fuel table opts cutoff batches w).1
    unfolding delete_batches
    delete_batches-keeps zero batches w p = p
    delete_batches-keeps (suc fuel) batches w p = elim (Bool-cases (is_interrupted o w)) [
      | inl e ↦ rw (e, delete_batches) p
      | inr e ↦
          rw (e, delete_batches)
            (after_exec-keeps (delete_batches o fuel table opts cutoff (batches + 1))
              (delete_batches-keeps fuel (batches + 1)) (batches + 1)
              (exec (delete_query table opts) cutoff w.db).0
              (record w {
                db = (exec (delete_query table opts) cutoff w.db).1;
                asked = w.asked + 1;
              })
              (kept _ w.db _ w.clock_reads refl p))
    ]

  -- How the work on a table may end: with no row left to delete, because the context said so, or
  -- with an answer of MySQL that is an error.
  abbrev pub Ends : Table → ℤ → Outcome → World o → Type 0
  Ends table cutoff finished w = expired table cutoff w.db ≡ 0
  Ends table cutoff interrupted w = (k : ℕ) × (interrupted_at k ≡ true)
  Ends table cutoff (failed (delete_batch n)) w =
      (db : Db) × ((exec (delete_query table opts) cutoff db).0 ≡ refused)
  Ends table cutoff (failed (rows_affected n)) w =
      (db : Db) × ((exec (delete_query table opts) cutoff db).0 ≡ done none)
  Ends table cutoff unfinished w = ⊥

  module _ (table : Table) (is_table : IsTable table) (limit : ℕ)
      (is_limit : opts.batch_size ≡ pos limit) (cutoff : ℤ) where
    abbrev EndsIn : Outcome × World o → Type 0
    EndsIn r = Ends table cutoff r.0 r.1

    pause_between-ends :
        (next : World o → Outcome × World o) (w : World o)
        → ((w' : World o) → w'.db ≡ w.db → EndsIn (next w'))
        → EndsIn (pause_between o next opts w)
    unfolding pause_between
    pause_between-ends next w h = elim (Bool-cases (ltb_ℤ (pos 0) opts.pause)) [
      | inr e ↦ rw e (h w refl)
      | inl e ↦ elim (Bool-cases (is_interrupted o w)) [
        | inl i ↦ rw (e, i) (w.asked, i)
        | inr i ↦ rw (e, i) (h (ask o w) refl)
      ]
    ]

    -- A full batch removes `limit` rows, a short one the last.
    after_exec-ends :
        (next : World o → Outcome × World o) (batch : ℕ) (reply : Reply) (from : Db) (w : World o)
        → exec (delete_query table opts) cutoff from ≡ (reply, w.db)
        → ((w' : World o)
            → w'.db ≡ w.db
            → limit + expired table cutoff w'.db ≡ expired table cutoff from
            → EndsIn (next w'))
        → EndsIn (after_exec o next opts batch reply w)
    unfolding after_exec
    after_exec-ends next batch refused from w e h = elim (Bool-cases (is_interrupted o w)) [
      | inl i ↦ rw i (w.asked, i)
      | inr i ↦ rw i (from, ap (λ r. r.0) e)
    ]
    after_exec-ends next batch (done none) from w e h = (from, ap (λ r. r.0) e)
    after_exec-ends next batch (done (some n)) from w e h =
        let (removed, counted, balance, most, last) : (removed : ℕ) × ((some n ≡ none)
              ⊎ (some n ≡ some removed))
            × (removed + expired table cutoff w.db ≡ expired table cutoff from)
            × (removed ≤ limit)
            × (removed < limit → expired table cutoff w.db ≡ 0) =
          laws.removes table limit cutoff from w.db (some n) is_table is_limit e in
        let same : n ≡ removed = ground arith in
        let is_short : ltb_ℤ (pos n) opts.batch_size ≡ ltb n limit =
          rw is_limit (ltb_ℤ-pos n limit) in
        elim (Bool-cases (ltb n limit)) [
          | inl short ↦ rw (is_short, short) (last (ground arith))
          | inr full ↦
              let balanced : limit + expired table cutoff w.db ≡ expired table cutoff from =
                ground arith in
              rw (is_short, full)
                (pause_between-ends next w (λ w' unchanged. h w' unchanged (rw unchanged balanced)))
        ]

    -- The loop of cleanTable ends, whatever MySQL and the context answer, if rounds times batch size
    -- exceed the expired rows: with no expired row left; or interrupted, and then the context was
    -- done at some time; or with the error of a batch, and then MySQL refused the statement or did
    -- not say how many rows it deleted.
    pub delete_batches-Ends :
        (fuel batches : ℕ) (w : World o)
        → expired table cutoff w.db < fuel * limit
        → Ends table cutoff
            (delete_batches o fuel table opts cutoff batches w).0
            (delete_batches o fuel table opts cutoff batches w).1
    unfolding delete_batches
    delete_batches-Ends zero batches w h = absurd (grind arith)
    delete_batches-Ends (suc fuel) batches w h = elim (Bool-cases (is_interrupted o w)) [
      | inl i ↦ rw (i, delete_batches) (w.asked, i)
      | inr i ↦
          rw (i, delete_batches)
            (after_exec-ends (delete_batches o fuel table opts cutoff (batches + 1)) (batches + 1)
              (exec (delete_query table opts) cutoff w.db).0 w.db
              (record w {
                db = (exec (delete_query table opts) cutoff w.db).1;
                asked = w.asked + 1;
              })
              refl
              (λ w' unchanged balance. delete_batches-Ends fuel (batches + 1) w' (grind arith)))
    ]
