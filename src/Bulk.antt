-- ===== src/Bulk.antt =====
-- internal/db/db.go: the bulk inserter of one table, its options and its constructor. A channel is
-- the list of what it holds, oldest first; `P` is the type of the buffered items and `V` that of
-- the values of a row (`any` in Go).
pub mod Statement
pub mod Retry
pub mod Flush
pub mod Run
pub mod Placeholders
pub mod Attempts
pub mod Conservation
pub mod Growth
pub mod Paused
pub mod Bounds
mod Tests
use statusengine_worker.Prelude.{
  u64, ℕ, ◌+◌, ◌*◌, ◌-◌, ◌%◌, Bool, true, false, Option, none, some, List, [], ◌∷◌, ◌++◌, Bytes,
  codes, ltb, ◌==◌, if◌then◌else◌, length, ℤ, pos, ltb_ℤ, pos_part,
}
use statusengine_worker.Metrics.{Tick}

abbrev pub default_max_batch_size : ℕ
default_max_batch_size = 100

abbrev pub max_configurable_batch_size : ℕ
max_configurable_batch_size = 700

abbrev pub max_placeholders_per_statement : ℕ
max_placeholders_per_statement = 65535

-- `append(dst, …)`: a row function extends the values that it is given.
abbrev pub RowFunc : Type 0 → Type 0 → Type 0
RowFunc P V = P → List V → List V

pub record BulkInserter (P V : Type 0) : Type 0 where
  pub table : Bytes
  pub columns : List Bytes
  pub to_row : RowFunc P V
  pub update_columns : List Bytes
  pub row_placeholder : Bytes
  pub update_clause : Bytes
  pub in_chan : List P
  pub max_batch_size : ℕ
  pub buffer : List P
  pub flushes_since_stats : ℕ
  pub rows_since_stats : ℕ
  pub processed : ℕ
  pub ticks : List Tick

-- The option of `WithMaxBatchSize`: the given size, brought into the accepted range.
unfoldable pub with_max_batch_size : ℤ → ℕ → ℕ
with_max_batch_size n o =
    let n' : ℕ = if ltb_ℤ n (pos 1) then 1 else pos_part n in
    if ltb max_configurable_batch_size n' then max_configurable_batch_size else n'

abbrev pub apply_options : List (ℕ → ℕ) → ℕ → ℕ
apply_options [] o = o
apply_options (f ∷ fs) o = apply_options fs (f o)

unfoldable pub repeat_text : ℕ → Bytes → Bytes
repeat_text ℕ.zero s = []
repeat_text (ℕ.suc n) s = s ++ repeat_text n s

-- `strings.TrimSuffix(s, ",")`.
unfoldable pub trim_comma : Bytes → Bytes
trim_comma [] = []
trim_comma (c ∷ []) = if c == b',' then [] else c ∷ []
trim_comma (c ∷ d ∷ s) = c ∷ trim_comma (d ∷ s)

unfoldable pub build_row_placeholder : ℕ → Bytes
unfolding repeat_text trim_comma
build_row_placeholder n =
    if n == 0
    then codes "()"
    else codes "(" ++ (trim_comma (repeat_text n (codes "?,")) ++ codes ")")

-- The loop of `buildUpdateClause`; the flag is `i > 0`.
update_items : Bool → List Bytes → Bytes
update_items later [] = []
update_items later (col ∷ cols) =
    (if later then codes ", " else [])
    ++ (col ++ (codes " = VALUES(" ++ (col ++ (codes ")" ++ update_items true cols))))

unfoldable pub build_update_clause : List Bytes → Bytes
unfolding update_items
build_update_clause [] = []
build_update_clause (col ∷ cols) =
    codes " ON DUPLICATE KEY UPDATE " ++ update_items false (col ∷ cols)

module _ {P V : Type 0} where
  -- `none` is the panic of a table that is too wide for its batch size.
  unfoldable pub new_bulk_inserter :
      Bytes → List Bytes → RowFunc P V → List (ℕ → ℕ) → Option (BulkInserter P V)
  new_bulk_inserter table columns to_row opts =
      let n = apply_options opts default_max_batch_size in
      if ltb max_placeholders_per_statement ((2 * n - 1) * length columns)
      then none
      else some (record {
        table = table;
        columns = columns;
        to_row = to_row;
        update_columns = [];
        row_placeholder = build_row_placeholder (length columns);
        update_clause = [];
        in_chan = [];
        max_batch_size = n;
        buffer = [];
        flushes_since_stats = 0;
        rows_since_stats = 0;
        processed = 0;
        ticks = [];
      })

  abbrev with_updates : List Bytes → Option (BulkInserter P V) → Option (BulkInserter P V)
  with_updates cols none = none
  with_updates cols (some b) =
      some (record b { update_columns = cols; update_clause = build_update_clause cols })

  unfoldable pub new_upsert_bulk_inserter :
      Bytes → List Bytes → List Bytes → RowFunc P V → List (ℕ → ℕ) → Option (BulkInserter P V)
  unfolding new_bulk_inserter
  new_upsert_bulk_inserter table columns update_columns to_row opts =
      with_updates update_columns (new_bulk_inserter table columns to_row opts)

  unfoldable pub is_upsert : BulkInserter P V → Bool
  is_upsert b = ltb 0 (length b.update_columns)
