-- ===== src/Perfdata/Gauges.antt =====
-- internal/queue/perfdata.go: `splitGauges` on gauges that are joined by spaces.
use Prim.Native.Char.{Char, code}
use statusengine_worker.Prelude.{
  Chars, ◌≤◌, Bool, true, false, ◌&&◌, not, List, [], ◌∷◌, ◌++◌, ◌==◌, ◌≡◌, refl, sym, ap, ◌∙◌,
  arith, map, length, All, Bool-cases, inl, inr, append-nil, append_assoc, if◌then◌else◌,
}
use statusengine_worker.Perfdata.{
  single_quote, is_quote, Scan, end_gauge, scan_char, scan, split_gauges,
}

-- A gauge with closed quotes, spaces inside them only.
unfoldable pub is_token : Bool → Chars → Bool
is_token in_quotes [] = not in_quotes
is_token in_quotes (c ∷ cs) = elim (is_quote c) [
  | true ↦ is_token (not in_quotes) cs
  | false ↦ elim (not in_quotes && (code c == b' ')) [
    | true ↦ false
    | false ↦ is_token in_quotes cs
  ]
]

abbrev pub IsToken : Chars → Type 0
IsToken g = (is_token false g ≡ true) × (1 ≤ length g)

-- Every quote becomes a single quote.
abbrev pub normalized : Char → Char
normalized c = if is_quote c then single_quote else c

abbrev pub join_gauges : List Chars → Chars
join_gauges [] = []
join_gauges (g ∷ []) = g
join_gauges (g ∷ h ∷ gs) = g ++ " " ∷ join_gauges (h ∷ gs)

-- A character of a token goes into the current gauge.
token_char :
    (s : Scan) (c : Char) (t : Chars)
    → is_token s.in_quotes (c ∷ t) ≡ true
    → let s' = scan_char c s in
      (s'.gauges ≡ s.gauges)
      × (s'.cur ≡ s.cur ++ normalized c ∷ [])
      × (is_token s'.in_quotes t ≡ true)
unfolding is_token scan_char
token_char s c t e = elim (Bool-cases (is_quote c)) [
  | inl quote ↦ elim (Bool-cases s.in_quotes) [ inl q ↦ ground arith | inr q ↦ ground arith ]
  | inr other ↦ elim (Bool-cases s.in_quotes) [
    | inl q ↦ ground arith
    | inr q ↦ elim (Bool-cases (code c == b' ')) [ inl sp ↦ ground arith | inr sp ↦ ground arith ]
  ]
]

scan-token :
    (s : Scan) (t : Chars)
    → is_token s.in_quotes t ≡ true
    → scan s t ≡ record { gauges = s.gauges; cur = s.cur ++ map normalized t; in_quotes = false }
unfolding scan is_token
scan-token s [] e = ground (arith, append-nil s.cur)
scan-token s (c ∷ t) e =
    let (same, grown, rest) = token_char s c t e in
    ground (
      arith,
      scan-token (scan_char c s) t rest,
      same,
      grown,
      append_assoc s.cur (normalized c ∷ []) (map normalized t),
    )

scan-append : (s : Scan) (a b : Chars) → scan s (a ++ b) ≡ scan (scan s a) b
unfolding scan
scan-append s [] b = refl
scan-append s (c ∷ a) b = scan-append (scan_char c s) a b

abbrev between : List Chars → Scan
between gauges = record { gauges = gauges; cur = []; in_quotes = false }

-- A space ends a gauge that is not empty.
scan-space :
    (done : List Chars) (g rest : Chars)
    → IsToken g
    → scan (between done) (g ++ " " ∷ rest) ≡ scan (between (done ++ map normalized g ∷ [])) rest
unfolding scan scan_char
scan-space done (c ∷ g) rest t =
    scan-append (between done) (c ∷ g) (" " ∷ rest)
    ∙ ap (λ s. scan s (" " ∷ rest)) (scan-token (between done) (c ∷ g) t.0)
scan-space done [] rest t = ground arith

scan-last :
    (done : List Chars) (g : Chars)
    → IsToken g
    → (end_gauge (scan (between done) g)).gauges ≡ done ++ map normalized g ∷ []
scan-last done (c ∷ g) t = ap (λ s. (end_gauge s).gauges) (scan-token (between done) (c ∷ g) t.0)
scan-last done [] t = ground arith

scan-join :
    (done gs : List Chars)
    → All IsToken gs
    → (end_gauge (scan (between done) (join_gauges gs))).gauges ≡ done ++ map (map normalized) gs
unfolding scan
scan-join done [] all = sym (append-nil done)
scan-join done (g ∷ []) all = scan-last done g all.0
scan-join done (g ∷ h ∷ gs) all =
    ap (λ s. (end_gauge s).gauges) (scan-space done g (join_gauges (h ∷ gs)) all.0)
    ∙ (scan-join (done ++ map normalized g ∷ []) (h ∷ gs) all.1
        ∙ append_assoc done (map normalized g ∷ []) (map (map normalized) (h ∷ gs)))

-- Gauges that are joined by spaces are split again, each with single quotes for its quotes.
pub split_gauges-join :
    (gs : List Chars) → All IsToken gs → split_gauges (join_gauges gs) ≡ map (map normalized) gs
unfolding split_gauges
split_gauges-join gs all = scan-join [] gs all
