-- ===== src/Prelude/Text.antt =====
-- Text as bytes where the program builds or walks it, native strings where it only compares it.
use Prim.Native.Nat.{ℕ, zero, suc, ◌+◌, ◌/◌, ◌%◌}
use Prim.Native.Char.{Char, code}
use Prim.Native.String.{String}
use mathlib.Core.Bool.{Bool, true, false, ◌&&◌}
use mathlib.Core.Option.{Option, none, some}
use mathlib.Core.List.{List, [], ◌∷◌, ◌++◌}
use statusengine_worker.Prelude.Tests.{◌==◌, ltb}
use statusengine_worker.Prelude.Int.{ℤ, pos, negsuc}
unfoldable pub use text.Mathlib.Text.{◌==◌ as str_eq}
pub use text.Mathlib.TextEquality.{eq_iff}
pub use text.Mathlib.TextPositions.{eq_refl}

-- A byte sequence: Go's `[]byte`, and a `string` that is built or scanned byte by byte.
abbrev pub Bytes : Type 0
Bytes = List ℕ

-- The bytes of an ASCII literal.
abbrev pub codes : String → Bytes
codes String.[] = []
codes (String.◌∷◌ c s) = code c ∷ codes s

-- `strings.Join(parts, sep)`.
abbrev pub join : Bytes → List Bytes → Bytes
join sep [] = []
join sep (x ∷ []) = x
join sep (x ∷ y ∷ xs) = x ++ (sep ++ join sep (y ∷ xs))

-- `a == b` on texts that are byte sequences.
abbrev pub bytes_eq : Bytes → Bytes → Bool
bytes_eq [] [] = true
bytes_eq (a ∷ xs) (b ∷ ys) = (a == b) && bytes_eq xs ys
bytes_eq _ _ = false

-- Text that is walked character by character.
abbrev pub Chars : Type 0
Chars = List Char

abbrev pub characters : String → Chars
characters String.[] = []
characters (String.◌∷◌ c s) = c ∷ characters s

-- `strings.IndexByte(text, mark)`, as what stands before it and after it.
unfoldable pub cut_at : Char → Chars → Option (Chars × Chars)
cut_at mark [] = none
cut_at mark (c ∷ cs) = elim (code c == code mark) [
  | true ↦ some ([], cs)
  | false ↦ elim (cut_at mark cs) [ none ↦ none | some (before, after) ↦ some (c ∷ before, after) ]
]

-- `%d` and `strconv.AppendInt` in base 10. A number has fewer digits than its successor has units,
-- which is the fuel.
unfoldable pub digits : ℕ → ℕ → Bytes → Bytes
digits zero n after = after
digits (suc fuel) n after = elim (ltb n 10) [
  | true ↦ (b'0' + n) ∷ after
  | false ↦ digits fuel (n / 10) ((b'0' + n % 10) ∷ after)
]

unfoldable pub format_int : ℤ → Bytes
unfolding digits
format_int (pos n) = digits (suc n) n []
format_int (negsuc n) = b'-' ∷ digits (n + 2) (n + 1) []
