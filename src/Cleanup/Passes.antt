-- ===== src/Cleanup/Passes.antt =====
-- What a run over all tables leaves of the rows.
use native.Mathlib.Decide.{ℕ_discrete}
use mathlib.Core.List.{List-discrete}
use statusengine_worker.Prelude.{
  ℕ, ◌+◌, Bool, true, false, inl, inr, List, [], ◌∷◌, Bytes, ◌≡◌, refl, sym, ap, subst, ◌∙◌, ℤ, pos,
  ltb_ℤ, filter, All, Bool-cases, arith,
}
use statusengine_worker.Cleanup.{
  Table, Options, Reply, refused, done, Outside, World, ask, is_interrupted, delete_query,
  clean_table, clean_tables, run,
}
use statusengine_worker.Cleanup.Rows.{Laws, filter-sublist}
use statusengine_worker.Cleanup.Retention.{delete_batches-keeps}

pub Bytes-discrete : Discrete Bytes
Bytes-discrete = List-discrete ℕ_discrete

module _ (o : Outside) (opts : Options) (laws : Laws o.mysql opts) where
  open o use {mysql, Time, now, days_before, interrupted_at}
  open mysql use {Db, exec}
  open laws use {IsTable, Row, rows, value}

  abbrev pub is_enabled : Table → Bool
  is_enabled table = ltb_ℤ (pos 0) table.days

  abbrev pub cutoff_at : ℕ → Table → ℤ
  cutoff_at k table = days_before (now k) table.days

  -- A property of the database that the statements of a table keep, if it is not disabled.
  abbrev pub Kept : (Db → Type 0) → Table → Type 0
  Kept P table =
      is_enabled table ≡ true
      → (k : ℕ) (reply : Reply) (db db' : Db)
      → exec (delete_query table opts) (cutoff_at k table) db ≡ (reply, db')
      → P db
      → P db'

  -- The world in which the work on an enabled table starts.
  abbrev pub opened : World o → World o
  opened w = record w { asked = w.asked + 1; clock_reads = w.clock_reads + 1 }

  pub clean_tables-keeps :
      (P : Db → Type 0) (fuel : ℕ) (tables : List Table) (w : World o)
      → All (Kept P) tables
      → P w.db
      → P (clean_tables o fuel tables opts w).1.db
  unfolding clean_tables clean_table
  clean_tables-keeps P fuel [] w h p = p
  clean_tables-keeps P fuel (table ∷ tables) w (h, rest) p =
      elim (Bool-cases (is_interrupted o w)) [
        | inl i ↦ rw (i, clean_tables) p
        | inr i ↦ elim (Bool-cases (is_enabled table)) [
          | inr e ↦ rw (i, e, clean_tables) (clean_tables-keeps P fuel tables (ask o w) rest p)
          | inl e ↦
              rw (i, e, clean_tables)
                (clean_tables-keeps P fuel tables
                  (clean_table o fuel table opts (now w.clock_reads) (opened w)).1 rest
                  (delete_batches-keeps o opts laws (λ db k. P db) table
                    (cutoff_at w.clock_reads table)
                    (λ reply db db' k. h e w.clock_reads reply db db') fuel 0 (opened w) p))
        ]
      ]

  module _ (keep : Bytes → Row → Bool) (w : World o) where
    abbrev Same : Db → Type 0
    Same db =
        (name : Bytes) → filter (keep name) (rows name db) ≡ filter (keep name) (rows name w.db)

    -- Whoever is younger than the cutoff, whenever the clock is read, is to be kept.
    abbrev pub IsYoung : Table → Type 0
    IsYoung table =
        is_enabled table ≡ true
        → (k : ℕ) (row : Row) → keep table.name row ≡ true
        → ltb_ℤ (value table.column row) (cutoff_at k table) ≡ false

    Same-Kept : (table : Table) → IsTable table → IsYoung table → Kept Same table
    Same-Kept table is_table young e k refused db db' x same name =
        ap (filter (keep name)) (laws.refuses _ _ db db' x name) ∙ same name
    Same-Kept table is_table young e k (done n) db db' x same name =
        elim (Bytes-discrete name table.name) [
          | no other ↦
              ap (filter (keep name)) (laws.spares table _ db db' n name is_table other x)
              ∙ same name
          | yes it ↦
              subst (λ nm. filter (keep nm) (rows nm db') ≡ filter (keep nm) (rows nm w.db))
                (sym it)
                (filter-sublist (keep table.name) _ (λ row h. ground (arith, young e k row h)) _ _
                    (laws.keeps table _ db db' n is_table x)
                  ∙ same table.name)
        ]

    All-Kept :
        (tables : List Table) → All IsTable tables → All IsYoung tables → All (Kept Same) tables
    All-Kept [] known h = tt
    All-Kept (table ∷ tables) (k, known) (h, rest) =
        (Same-Kept table k h, All-Kept tables known rest)

    -- Whatever the fuel, the answers of MySQL and the context, a run deletes no row of a table that
    -- is, for each enabled entry of this table, younger than the cutoff by every reading of the
    -- clock: of the rows of each table, those stay as they were, in their order. Rows of disabled
    -- tables and of tables that the run is not given are among them.
    pub run-keeps :
        (fuel : ℕ) (tables : List Table)
        → All IsTable tables
        → All IsYoung tables
        → (name : Bytes)
        → filter (keep name) (rows name (run o fuel tables opts w).1.db)
          ≡ filter (keep name) (rows name w.db)
    unfolding run
    run-keeps fuel tables known young name = elim (Bool-cases (ltb_ℤ opts.batch_size (pos 1))) [
      | inl e ↦ rw e refl
      | inr e ↦
          rw e
            (clean_tables-keeps Same fuel tables w (All-Kept tables known young) (λ nm. refl) name)
    ]
