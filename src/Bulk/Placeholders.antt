-- ===== src/Bulk/Placeholders.antt =====
-- The statement that `buildInsert` renders has as many placeholders as there are values.
use statusengine_worker.Prelude.{
  ℕ, suc, zero, ◌+◌, ◌*◌, ◌≤◌, ◌≡◌, refl, ap, sym, ◌∙◌, Bool, true, false, List, [], ◌∷◌, ◌++◌,
  arith, Bytes, codes, join, count, count-append, length, inl, inr, Bool-cases, ◌==◌, ◌-◌, some,
  All,
}
use statusengine_worker.Bulk.{
  BulkInserter, repeat_text, trim_comma, build_row_placeholder, update_items, build_update_clause,
  RowFunc, max_placeholders_per_statement, new_upsert_bulk_inserter,
}
use statusengine_worker.Bulk.Statement.{value_rows, row_values, build_insert}

-- The number of `?` in a statement.
abbrev pub marks : Bytes → ℕ
marks = count (λ c. c == b'?')

trim_comma-marks : (n : ℕ) → marks (trim_comma (repeat_text n (codes "?,"))) ≡ n
unfolding trim_comma repeat_text
trim_comma-marks zero = refl
trim_comma-marks (suc zero) = refl
trim_comma-marks (suc (suc n)) = omega (arith, trim_comma-marks (suc n))

build_row_placeholder-marks : (n : ℕ) → marks (build_row_placeholder n) ≡ n
unfolding build_row_placeholder
build_row_placeholder-marks n = elim (Bool-cases (n == 0)) [
  | inl empty ↦ ground arith
  | inr filled ↦ ground (
    arith,
    trim_comma-marks n,
    count-append (λ c. c == b'?') (trim_comma (repeat_text n (codes "?,"))) (codes ")"),
  )
]

-- A name with no `?` in it.
abbrev pub IsName : Bytes → Type 0
IsName s = marks s ≡ 0

marks-append : (xs ys : Bytes) → marks (xs ++ ys) ≡ marks xs + marks ys
marks-append = count-append (λ c. c == b'?')

join-marks : (names : List Bytes) → All IsName names → marks (join (codes ", ") names) ≡ 0
join-marks [] h = refl
join-marks (x ∷ []) h = h.0
join-marks (x ∷ y ∷ names) (p, h) = omega (
  arith,
  marks-append x (codes ", " ++ join (codes ", ") (y ∷ names)),
  join-marks (y ∷ names) h,
  p,
)

update_items-marks :
    (later : Bool) (names : List Bytes) → All IsName names → marks (update_items later names) ≡ 0
unfolding update_items
update_items-marks later [] h = refl
update_items-marks true (x ∷ names) (p, h) = omega (
  arith,
  marks-append x (codes " = VALUES(" ++ (x ++ (codes ")" ++ update_items true names))),
  marks-append x (codes ")" ++ update_items true names),
  update_items-marks true names h,
  p,
)
update_items-marks false (x ∷ names) (p, h) = omega (
  arith,
  marks-append x (codes " = VALUES(" ++ (x ++ (codes ")" ++ update_items true names))),
  marks-append x (codes ")" ++ update_items true names),
  update_items-marks true names h,
  p,
)

build_update_clause-marks :
    (names : List Bytes) → All IsName names → marks (build_update_clause names) ≡ 0
unfolding build_update_clause
build_update_clause-marks [] h = refl
build_update_clause-marks (x ∷ names) h = omega (arith, update_items-marks false (x ∷ names) h)

times_mono : {m n : ℕ} (k : ℕ) → m ≤ n → m * k ≤ n * k
times_mono k h = grind arith

-- The contract of a row function: as many values as the table has columns.
abbrev pub FillsRow : {P V : Type 0} → RowFunc P V → ℕ → Type 0
FillsRow {P} {V} to_row n = (item : P) (dst : List V) → length (to_row item dst) ≡ length dst + n

module _ {P V : Type 0} (b : BulkInserter P V) where
  value_rows-marks :
      (later : Bool) (items : List P)
      → marks (value_rows b later items) ≡ length items * marks b.row_placeholder
  unfolding value_rows
  value_rows-marks later [] = omega arith
  value_rows-marks true (item ∷ items) =
      omega (
        arith,
        marks-append b.row_placeholder (value_rows b true items),
        value_rows-marks true items,
      )
  value_rows-marks false (item ∷ items) =
      omega (
        arith,
        marks-append b.row_placeholder (value_rows b true items),
        value_rows-marks true items,
      )

  row_values-length :
      FillsRow b.to_row (length b.columns)
      → (items : List P) (args : List V)
      → length (row_values b items args) ≡ length args + length items * length b.columns
  unfolding row_values
  row_values-length f [] args = omega arith
  row_values-length f (item ∷ items) args =
      omega (arith, row_values-length f items (b.to_row item args), f item args)

  build_insert-length :
      FillsRow b.to_row (length b.columns)
      → (items : List P) → length (build_insert b items).1 ≡ length items * length b.columns
  unfolding build_insert
  build_insert-length f items = omega (arith, row_values-length f items [])

  build_insert-marks :
      (items : List P)
      → IsName b.table
      → All IsName b.columns
      → marks b.row_placeholder ≡ length b.columns
      → marks b.update_clause ≡ 0
      → marks (build_insert b items).0 ≡ length items * length b.columns
  unfolding build_insert
  build_insert-marks items t c p u =
      let tail = value_rows b false items ++ b.update_clause in
      let all_rows : length items * marks b.row_placeholder ≡ length items * length b.columns =
        ap (λ n. length items * n) p in
      omega (
        arith,
        marks-append b.table
            (codes " (" ++ (join (codes ", ") b.columns ++ (codes ") VALUES " ++ tail))),
        marks-append (join (codes ", ") b.columns) (codes ") VALUES " ++ tail),
        marks-append (value_rows b false items) b.update_clause,
        join-marks b.columns c,
        value_rows-marks false items,
        all_rows,
        t,
        u,
      )

record Built {P V : Type 0} (table : Bytes) (columns updates : List Bytes) (to_row : RowFunc P V)
    (b : BulkInserter P V) : Type 0 where
  same_table : b.table ≡ table
  same_columns : b.columns ≡ columns
  same_row : b.to_row ≡ to_row
  placeholder : b.row_placeholder ≡ build_row_placeholder (length columns)
  clause : b.update_clause ≡ build_update_clause updates
  narrow : (2 * b.max_batch_size - 1) * length columns ≤ max_placeholders_per_statement

new_upsert_bulk_inserter-Built :
    {P V : Type 0} (table : Bytes) (columns updates : List Bytes) (to_row : RowFunc P V)
    (opts : List (ℕ → ℕ)) (b : BulkInserter P V)
    → new_upsert_bulk_inserter table columns updates to_row opts ≡ some b
    → Built table columns updates to_row b
unfolding new_upsert_bulk_inserter
new_upsert_bulk_inserter-Built table columns updates to_row opts b e = ground arith

-- For an inserter that `NewUpsertBulkInserter` returns with the batch size `n`, whose names hold no
-- `?` and whose row function fills a row: every statement over at most 2n-1 rows has exactly as
-- many placeholders as it has values, and no more than the 65535 that MySQL accepts.
pub upsert_statement_fits :
    {P V : Type 0} (table : Bytes) (columns updates : List Bytes) (to_row : RowFunc P V)
    (opts : List (ℕ → ℕ)) (b : BulkInserter P V) (items : List P)
    → new_upsert_bulk_inserter table columns updates to_row opts ≡ some b
    → IsName table
    → All IsName columns
    → All IsName updates
    → FillsRow to_row (length columns)
    → length items ≤ 2 * b.max_batch_size - 1
    → let (query, args) = build_insert b items in
      (marks query ≡ length args) × (length args ≤ max_placeholders_per_statement)
upsert_statement_fits table columns updates to_row opts b items e t c u f few =
    let made = new_upsert_bulk_inserter-Built table columns updates to_row opts b e in
    let fills : FillsRow b.to_row (length b.columns) = rw (made.same_row, made.same_columns) f in
    let names : All IsName b.columns = rw (made.same_columns) c in
    let table_name : IsName b.table = rw (made.same_table) t in
    let query_marks =
      build_insert-marks b items table_name names
        (ap marks made.placeholder
          ∙ build_row_placeholder-marks (length columns)
          ∙ sym (ap length made.same_columns))
        (ap marks made.clause ∙ build_update_clause-marks updates u) in
    let values = build_insert-length b fills items in
    let widths : length items * length b.columns ≡ length items * length columns =
      ap (λ (cs : List Bytes). length items * length cs) made.same_columns in
    let few_values = times_mono (length columns) few in
    (omega (arith, query_marks, values), omega (arith, values, widths, few_values, made.narrow))
