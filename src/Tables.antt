-- ===== src/Tables.antt =====
-- internal/queue/registry.go: the values of a row, and what each table stores of an event. `F` is the
-- type of Go's float64 values.
pub mod StatusRows
pub mod HistoryRows
pub mod Columns
pub mod Inserters
pub mod Names
pub mod Fits
pub mod Flags
mod Tests
use statusengine_worker.Prelude.{ℤ, String, Option, pos, eqb_ℤ, if◌then◌else◌}

-- A value bound to a placeholder; `optional` is a `*string`.
pub data Value (F : Type 0) : Type 0 where
  text : String → Value F
  int : ℤ → Value F
  float : F → Value F
  optional : Option String → Value F

unfoldable pub is_hard_state : ℤ → ℤ
is_hard_state state_type = if eqb_ℤ state_type (pos 1) then pos 1 else pos 0

unfoldable pub is_passive_check : ℤ → ℤ
is_passive_check check_type = if eqb_ℤ check_type (pos 0) then pos 1 else pos 0
