-- ===== src/Graphite/Connection.antt =====
-- What the client does to its connections: the order of dials, writes and closings.
use statusengine_worker.Prelude.{
  ℕ, ◌+◌, ◌<◌, ◌≡◌, ◌≢◌, ◌⊎◌, inl, inr, refl, ◌∙◌, Bool, true, false, Option, none, some, List, [],
  ◌∷◌, ◌++◌, Bytes, arith, Bool-cases, if-cases, if◌then◌else◌, ltb,
}
use statusengine_worker.Graphite.{
  Client, Attempt, Event, dialed, wrote, closed, close_conn, ensure_conn, dial_carbon, is_outlived,
}

-- There is no connection; there is one, since a time; there is one, and a write on it has failed.
pub data Link : Type 0 where
  down broken : Link
  up : ℕ → Link

abbrev pub link_of : List Event → Link
link_of [] = down
link_of (dialed t ∷ past) = up t
link_of (closed ∷ past) = down
link_of (wrote now text true ∷ past) = link_of past
link_of (wrote now text false ∷ past) = broken

-- When an event may happen. `lifetime` 0 is none.
abbrev pub Fits : ℕ → Event → Link → Type 0
Fits lifetime (dialed t) link = link ≡ down
Fits lifetime closed link = link ≢ down
Fits lifetime (wrote now text ok) link =
    (t : ℕ) × (link ≡ up t) × ((lifetime ≡ 0) ⊎ (now < t + lifetime))

abbrev pub IsProper : ℕ → List Event → Type 0
IsProper lifetime [] = Unit
IsProper lifetime (e ∷ past) = Fits lifetime e (link_of past) × IsProper lifetime past

-- The texts of the writes, oldest first, and whether they succeeded.
abbrev pub writes : List Event → List (Bytes × Bool)
writes [] = []
writes (wrote now text ok ∷ past) = writes past ++ (text, ok) ∷ []
writes (_ ∷ past) = writes past

young_enough : (lifetime now took : ℕ) → (lifetime ≡ 0) ⊎ (now < (now + took) + lifetime)
young_enough lifetime now took = elim (Bool-cases (ltb 0 lifetime)) [
  | inl some_time ↦ inr (ground arith)
  | inr no_limit ↦ inl (ground arith)
]

module _ {F : Type 0} where
  abbrev pub has_link : Client F → Link
  has_link c = if c.connected then up c.conn_since else down

  -- Between two flushes.
  pub record IsLinked (lifetime : ℕ) (c : Client F) : Type 0 where
    pub same_lifetime : c.conn_max_lifetime ≡ lifetime
    pub proper : IsProper lifetime c.wire
    pub linked : link_of c.wire ≡ has_link c

  module _ (lifetime : ℕ) where
    pub close_conn-IsLinked :
        (c : Client F)
        → c.conn_max_lifetime ≡ lifetime
        → IsProper lifetime c.wire
        → (c.connected ≡ true → link_of c.wire ≢ down)
        → (c.connected ≡ false → link_of c.wire ≡ down)
        → IsLinked lifetime (close_conn c)
    unfolding close_conn
    close_conn-IsLinked c l p was_open was_shut =
        if-cases (IsLinked lifetime) c.connected
          (λ on. record { same_lifetime = l; proper = (was_open on, p); linked = refl })
          (λ off. record { same_lifetime = l; proper = p; linked = was_shut off ∙ ground arith })

    has_link-open :
        (c : Client F) → IsLinked lifetime c → c.connected ≡ true → link_of c.wire ≢ down
    has_link-open c i e = ground (arith, i.linked)

    has_link-shut :
        (c : Client F) → IsLinked lifetime c → c.connected ≡ false → link_of c.wire ≡ down
    has_link-shut c i e = ground (arith, i.linked)

    pub closed-IsLinked : (c : Client F) → IsLinked lifetime c → IsLinked lifetime (close_conn c)
    closed-IsLinked c i =
        close_conn-IsLinked c i.same_lifetime i.proper (has_link-open c i) (has_link-shut c i)

    pub close_conn-writes : (c : Client F) → writes (close_conn c).wire ≡ writes c.wire
    unfolding close_conn
    close_conn-writes c = ground arith

    -- A connection that may be written to by a flush that starts at `now`.
    pub record IsUsable (now : ℕ) (c : Client F) : Type 0 where
      pub is_linked : IsLinked lifetime c
      pub is_connected : c.connected ≡ true
      pub is_young : (lifetime ≡ 0) ⊎ (now < c.conn_since + lifetime)

    abbrev pub Ensures : Attempt → Client F → Bool × Client F → Type 0
    Ensures a c (true, c') = IsUsable a.now c' × (writes c'.wire ≡ writes c.wire)
    Ensures a c (false, c') = IsLinked lifetime c' × (writes c'.wire ≡ writes c.wire)

    dial_carbon-Ensures :
        (a : Attempt) (d : Option ℕ) (c c' : Client F)
        → IsLinked lifetime c'
        → c'.connected ≡ false
        → writes c'.wire ≡ writes c.wire
        → Ensures a c (dial_carbon a d c')
    unfolding dial_carbon
    dial_carbon-Ensures a none c c' i e same = (i, same)
    dial_carbon-Ensures a (some took) c c' i e same = (
      record {
        is_linked = record {
          same_lifetime = i.same_lifetime;
          proper = (has_link-shut c' i e, i.proper);
          linked = refl;
        };
        is_connected = refl;
        is_young = young_enough lifetime a.now took;
      },
      same,
    )

    pub close_conn-shut : (c : Client F) → (close_conn c).connected ≡ false
    unfolding close_conn
    close_conn-shut c = ground arith

    is_outlived-young :
        (a : Attempt) (c : Client F)
        → IsLinked lifetime c
        → is_outlived a c ≡ false
        → c.connected ≡ true
        → (lifetime ≡ 0) ⊎ (a.now < c.conn_since + lifetime)
    is_outlived-young a c i young on = elim (Bool-cases (ltb 0 lifetime)) [
      | inl some_time ↦ inr (ground (arith, i.same_lifetime))
      | inr no_limit ↦ inl (ground arith)
    ]

    pub ensure_conn-Ensures :
        (a : Attempt) (c : Client F) → IsLinked lifetime c → Ensures a c (ensure_conn a c)
    unfolding ensure_conn
    ensure_conn-Ensures a c i =
        let c' : Client F = if is_outlived a c then close_conn c else c in
        let prepared : IsLinked lifetime c'
            × (writes c'.wire ≡ writes c.wire)
            × (c'.connected ≡ true → (lifetime ≡ 0) ⊎ (a.now < c'.conn_since + lifetime)) =
          if-cases
            (λ d.
              IsLinked lifetime d
              × (writes d.wire ≡ writes c.wire)
              × (d.connected ≡ true → (lifetime ≡ 0) ⊎ (a.now < d.conn_since + lifetime)))
            (is_outlived a c) {x = close_conn c} {y = c}
            (λ old. (closed-IsLinked c i, close_conn-writes c, λ on. cc (close_conn-shut c)))
            (λ young. (i, refl, is_outlived-young a c i young)) in
        if-cases (Ensures a c) c'.connected
          (λ on. (
            record { is_linked = prepared.0; is_connected = on; is_young = prepared.2 on },
            prepared.1,
          ))
          (λ off. dial_carbon-Ensures a a.dial c c' prepared.0 off prepared.1)
