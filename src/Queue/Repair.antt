-- ===== src/Queue/Repair.antt =====
-- internal/queue/utf8.go: the repair of payloads that are not UTF-8. `cp1252` is DecodeByte of
-- charmap.Windows1252, a parameter.
use statusengine_worker.Prelude.{
  ℕ, suc, zero, ◌+◌, ◌/◌, ◌%◌, Bool, true, false, ◌&&◌, Option, none, some, [], ◌∷◌, ◌++◌, Bytes,
  ltb, leb, ◌==◌, length, if◌then◌else◌,
}

abbrev pub in_range : ℕ → ℕ → ℕ → Bool
in_range lo hi b = leb lo b && leb b hi

-- The first byte of a sequence: how many bytes follow the second one, and the range of the second.
pub data Lead : Type 0 where
  ascii bad : Lead
  lead : ℕ → ℕ → ℕ → Lead

unfoldable pub lead_of : ℕ → Lead
lead_of b =
    if ltb b 0x80
    then ascii
    else if ltb b 0xC2
    then bad
    else if ltb b 0xE0
    then lead 0 0x80 0xBF
    else if b == 0xE0
    then lead 1 0xA0 0xBF
    else if b == 0xED
    then lead 1 0x80 0x9F
    else if ltb b 0xF0
    then lead 1 0x80 0xBF
    else if b == 0xF0
    then lead 2 0x90 0xBF
    else if ltb b 0xF4
    then lead 2 0x80 0xBF
    else if b == 0xF4
    then lead 2 0x80 0x8F
    else bad

-- `n` continuation bytes, and the rest.
unfoldable pub continuation : ℕ → Bytes → Option (Bytes × Bytes)
continuation zero p = some ([], p)
continuation (suc n) [] = none
continuation (suc n) (b ∷ p) =
    let more = continuation n p in
    if in_range 0x80 0xBF b
    then elim more [ none ↦ none | some (bytes, rest) ↦ some (b ∷ bytes, rest) ]
    else none

unfoldable pub tail_of : Lead → ℕ → Bytes → Option (Bytes × Bytes)
unfolding continuation
tail_of ascii b p = some (b ∷ [], p)
tail_of bad b p = none
tail_of (lead n lo hi) b [] = none
tail_of (lead n lo hi) b (c ∷ p) =
    if in_range lo hi c
    then elim (continuation n p) [ none ↦ none | some (bytes, rest) ↦ some (b ∷ c ∷ bytes, rest) ]
    else none

-- `utf8.DecodeRune` of a text that begins with `b`: the bytes of the rune and the rest, or none where
-- it answers RuneError with size 1.
unfoldable pub next_rune : ℕ → Bytes → Option (Bytes × Bytes)
unfolding lead_of tail_of
next_rune b p = tail_of (lead_of b) b p

-- `utf8.AppendRune`.
unfoldable pub encode_rune : ℕ → Bytes
encode_rune r =
    if ltb r 0x80
    then r ∷ []
    else if ltb r 0x800
    then (0xC0 + r / 64) ∷ (0x80 + r % 64) ∷ []
    else if ltb r 0x10000
    then (0xE0 + r / 4096) ∷ (0x80 + (r / 64) % 64) ∷ (0x80 + r % 64) ∷ []
    else (0xF0 + r / 262144)
      ∷ (0x80 + (r / 4096) % 64)
      ∷ (0x80 + (r / 64) % 64)
      ∷ (0x80 + r % 64)
      ∷ []

-- `utf8.Valid`. Every round takes at least one byte: the length is fuel enough.
unfoldable pub valid_from : ℕ → Bytes → Bool
unfolding next_rune
valid_from fuel [] = true
valid_from zero (b ∷ p) = false
valid_from (suc fuel) (b ∷ p) = elim (next_rune b p) [
  | none ↦ false
  | some (rune, rest) ↦ valid_from fuel rest
]

abbrev pub valid : Bytes → Bool
valid p = valid_from (length p) p

module _ (cp1252 : ℕ → ℕ) where
  -- The loop of `repairUTF8`.
  unfoldable pub repair_from : ℕ → Bytes → Bytes
  unfolding next_rune encode_rune
  repair_from fuel [] = []
  repair_from zero (b ∷ p) = []
  repair_from (suc fuel) (b ∷ p) = elim (next_rune b p) [
    | none ↦ encode_rune (cp1252 b) ++ repair_from fuel p
    | some (rune, rest) ↦ rune ++ repair_from fuel rest
  ]

  unfoldable pub repair_utf8 : Bytes → Bytes × Bool
  unfolding repair_from valid_from
  repair_utf8 payload =
      if valid payload then (payload, false) else (repair_from (length payload) payload, true)
