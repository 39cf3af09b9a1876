-- ===== src/Bulk/Statement.antt =====
-- internal/db/db.go: `buildInsert`.
use statusengine_worker.Prelude.{
  Bool, true, false, List, [], ◌∷◌, ◌++◌, Bytes, codes, join, if◌then◌else◌,
}
use statusengine_worker.Bulk.{BulkInserter}

module _ {P V : Type 0} (b : BulkInserter P V) where
  -- The loop over the items; the flag is `i > 0`.
  unfoldable pub value_rows : Bool → List P → Bytes
  value_rows later [] = []
  value_rows later (item ∷ items) =
      (if later then codes ", " else []) ++ (b.row_placeholder ++ value_rows true items)

  unfoldable pub row_values : List P → List V → List V
  row_values [] args = args
  row_values (item ∷ items) args = row_values items (b.to_row item args)

  unfoldable pub build_insert : List P → Bytes × List V
  unfolding value_rows row_values
  build_insert items = (
    codes "INSERT INTO "
        ++ (b.table
            ++ (codes " ("
                ++ (join (codes ", ") b.columns
                    ++ (codes ") VALUES " ++ (value_rows false items ++ b.update_clause))))),
    row_values items [],
  )
