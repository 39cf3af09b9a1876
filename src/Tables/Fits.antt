-- ===== src/Tables/Fits.antt =====
-- The bulk inserter of every table can be built, and its statements fit.
use statusengine_worker.Prelude.{
  ℕ, ◌*◌, ◌-◌, ◌≤◌, ◌≡◌, refl, ℤ, String, true, false, some, List, [], ◌∷◌, ◌∙◌, Bytes, arith,
  length, All, sym, ap, ltb,
}
use mathlib.Core.Option.{some-injective}
use statusengine_worker.Bulk.{
  BulkInserter, RowFunc, with_max_batch_size, apply_options, new_bulk_inserter,
  new_upsert_bulk_inserter, build_update_clause, build_row_placeholder,
  max_placeholders_per_statement, is_upsert, default_max_batch_size,
}
use statusengine_worker.Bulk.Statement.{build_insert}
use statusengine_worker.Bulk.Placeholders.{marks, upsert_statement_fits}
use statusengine_worker.Tables.{Value}
use statusengine_worker.Tables.Columns.{
  Table, host_status, service_status, host_checks, service_checks, log_entries, host_state_history,
  service_state_history, host_acks, service_acks, perfdata, host_notifications,
  service_notifications, host_notifications_log, service_notifications_log, table_name, columns_of,
}
use statusengine_worker.Tables.Inserters.{
  Item, row_of, inserter_with, inserter_of, new_redelivery_safe_inserter,
}
use statusengine_worker.Tables.Names.{
  updates_of, table_name-IsName, columns_of-IsName, updates_of-IsName, columns_of-le,
  row_of-FillsRow, has_key, has_column, updates_of-columns, updates_of-has_key,
}

new_bulk_inserter-upsert :
    {P V : Type 0} (table : Bytes) (columns : List Bytes) (to_row : RowFunc P V)
    (opts : List (ℕ → ℕ))
    → new_bulk_inserter table columns to_row opts
      ≡ new_upsert_bulk_inserter table columns [] to_row opts
unfolding new_upsert_bulk_inserter build_update_clause
new_bulk_inserter-upsert table columns to_row opts = ground arith

product-le : (a b : ℕ) → a ≤ 1399 → b ≤ 46 → a * b ≤ 64354
product-le a b h k = grind arith

not-ltb : (a b : ℕ) → b ≤ a → ltb a b ≡ false
not-ltb a b h = ground arith

new_upsert_bulk_inserter-total :
    {P V : Type 0} (table : Bytes) (columns updates : List Bytes) (to_row : RowFunc P V)
    (opts : List (ℕ → ℕ))
    → length columns ≤ 46
    → apply_options opts default_max_batch_size ≤ 700
    → (b : BulkInserter P V) × (new_upsert_bulk_inserter table columns updates to_row opts ≡ some b)
      × (b.max_batch_size ≡ apply_options opts default_max_batch_size)
      × (b.columns ≡ columns)
      × (b.update_columns ≡ updates)
      × (b.table ≡ table)
unfolding new_upsert_bulk_inserter
new_upsert_bulk_inserter-total table columns updates to_row opts few small =
    let n : ℕ = apply_options opts default_max_batch_size in
    let fits : ltb max_placeholders_per_statement ((2 * n - 1) * length columns) ≡ false =
      not-ltb _ _ (omega (arith, product-le (2 * n - 1) (length columns) (omega arith) few)) in
    (
      record {
        table = table;
        columns = columns;
        to_row = to_row;
        update_columns = updates;
        row_placeholder = build_row_placeholder (length columns);
        update_clause = build_update_clause updates;
        in_chan = [];
        max_batch_size = n;
        buffer = [];
        flushes_since_stats = 0;
        rows_since_stats = 0;
        processed = 0;
        ticks = [];
      },
      rw (fits, new_upsert_bulk_inserter),
      refl,
      refl,
      refl,
      refl,
    )

with_max_batch_size-le :
    (size : ℤ) (o : ℕ) → (1 ≤ with_max_batch_size size o) × (with_max_batch_size size o ≤ 700)
unfolding with_max_batch_size
with_max_batch_size-le size o = ground arith

module _ {F : Type 0} (truncate : F → ℤ) (node_name : String) where
  inserter_with-upsert :
      (t : Table) (opts : List (ℕ → ℕ))
      → inserter_with truncate node_name t opts
        ≡ new_upsert_bulk_inserter
            (table_name t)
            (columns_of t)
            (updates_of t)
            (row_of truncate node_name t)
            opts
  unfolding inserter_with new_redelivery_safe_inserter table_name
  inserter_with-upsert host_status opts = refl
  inserter_with-upsert service_status opts = refl
  inserter_with-upsert host_checks opts = refl
  inserter_with-upsert service_checks opts = refl
  inserter_with-upsert log_entries opts = new_bulk_inserter-upsert _ _ _ opts
  inserter_with-upsert host_state_history opts = refl
  inserter_with-upsert service_state_history opts = refl
  inserter_with-upsert host_acks opts = refl
  inserter_with-upsert service_acks opts = refl
  inserter_with-upsert perfdata opts = new_bulk_inserter-upsert _ _ _ opts
  inserter_with-upsert host_notifications opts = refl
  inserter_with-upsert service_notifications opts = refl
  inserter_with-upsert host_notifications_log opts = refl
  inserter_with-upsert service_notifications_log opts = refl

  -- For every table and every configured batch size, out of range or not, the inserter is built
  -- without a panic, its batch size lies between 1 and 700, and it writes to the table's columns.
  pub inserter_of-total :
      (t : Table) (mysql_batch_size : ℤ)
      → (b : BulkInserter (Item truncate node_name t) (Value F)) × (inserter_of truncate node_name t
            mysql_batch_size
          ≡ some b)
        × (1 ≤ b.max_batch_size)
        × (b.max_batch_size ≤ 700)
        × (b.table ≡ table_name t)
        × (b.columns ≡ columns_of t)
  unfolding inserter_of
  inserter_of-total t size =
      let sized = with_max_batch_size-le size default_max_batch_size in
      let (b, made, n, cols, upd, tab) =
        new_upsert_bulk_inserter-total (table_name t) (columns_of t) (updates_of t)
          (row_of truncate node_name t) (with_max_batch_size size ∷ []) (columns_of-le t) sized.1 in
      (
        b,
        inserter_with-upsert t (with_max_batch_size size ∷ []) ∙ made,
        omega (arith, n, sized.0),
        omega (arith, n, sized.1),
        tab,
        cols,
      )

  -- For every table, every configured batch size n and every batch of at most 2n-1 items, the
  -- statement has exactly as many placeholders as values, and no more than the 65535 that MySQL
  -- accepts.
  pub inserter_of-statement_fits :
      (t : Table) (mysql_batch_size : ℤ) (b : BulkInserter (Item truncate node_name t) (Value F))
      (items : List (Item truncate node_name t))
      → inserter_of truncate node_name t mysql_batch_size ≡ some b
      → length items ≤ 2 * b.max_batch_size - 1
      → let (query, args) = build_insert b items in
        (marks query ≡ length args) × (length args ≤ max_placeholders_per_statement)
  unfolding inserter_of
  inserter_of-statement_fits t size b items made few =
      upsert_statement_fits (table_name t) (columns_of t) (updates_of t)
        (row_of truncate node_name t) (with_max_batch_size size ∷ []) b items
        (sym (inserter_with-upsert t (with_max_batch_size size ∷ [])) ∙ made) (table_name-IsName t)
        (columns_of-IsName t) (updates_of-IsName t) (row_of-FillsRow truncate node_name t) few

  -- What a repeated row overwrites: in the two status tables every column but those of the key, in
  -- the history tables one column of the key, so that the row stays what it was. The log entries and
  -- the perfdata, which have no such key, are plain inserts.
  pub inserter_of-updates :
      (t : Table) (mysql_batch_size : ℤ) (b : BulkInserter (Item truncate node_name t) (Value F))
      → inserter_of truncate node_name t mysql_batch_size ≡ some b
      → (b.update_columns ≡ updates_of t)
        × (is_upsert b ≡ has_key t)
        × All (λ c. has_column c (columns_of t) ≡ true) b.update_columns
  unfolding inserter_of is_upsert
  inserter_of-updates t size b made =
      let (b', made', n, cols, upd, tab) =
        new_upsert_bulk_inserter-total (table_name t) (columns_of t) (updates_of t)
          (row_of truncate node_name t) (with_max_batch_size size ∷ []) (columns_of-le t)
          (with_max_batch_size-le size default_max_batch_size).1 in
      let same : b' ≡ b =
        some-injective b' b
          (sym made' ∙ (sym (inserter_with-upsert t (with_max_batch_size size ∷ [])) ∙ made)) in
      let updated : b.update_columns ≡ updates_of t = rw (← same) upd in
      (
        updated,
        (ap (λ (cs : List Bytes). ltb 0 (length cs)) updated ∙ updates_of-has_key t),
        rw updated (updates_of-columns t),
      )
