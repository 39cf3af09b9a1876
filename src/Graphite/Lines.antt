-- ===== src/Graphite/Lines.antt =====
-- internal/graphite/graphite.go: the plaintext lines of a batch. `append_float` is
-- `strconv.AppendFloat` with format 'f' and precision -1. A path is ASCII, since its sanitizing
-- leaves nothing else.
use Prim.Native.Char.{code}
use statusengine_worker.Prelude.{List, [], ◌∷◌, ◌++◌, Bytes, map, format_int}
use statusengine_worker.Perfdata.Handler.{Metric}

module _ {F : Type 0} (append_float : F → Bytes) where
  unfoldable pub line : Metric F → Bytes
  line m =
      map code m.path
      ++ b' ' ∷ (append_float m.value ++ b' ' ∷ (format_int m.timestamp ++ b'\n' ∷ []))

  unfoldable pub lines : List (Metric F) → Bytes
  unfolding line
  lines [] = []
  lines (m ∷ ms) = line m ++ lines ms
