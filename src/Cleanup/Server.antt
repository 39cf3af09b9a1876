-- ===== src/Cleanup/Server.antt =====
-- A database with a table of time stamps and a table that refuses every statement: what is asked of
-- MySQL can hold.
use statusengine_worker.Prelude.{
  ℕ, zero, suc, ◌+◌, ◌≤◌, ◌<◌, Bool, true, false, not, ◌⊎◌, inl, inr, Option, none, some, List, [],
  ◌∷◌, Bytes, codes, bytes_eq, ◌≡◌, ◌≢◌, refl, sym, ap, subst, ◌∙◌, ℤ, pos, ltb_ℤ, filter, count,
  if◌then◌else◌, Bool-cases, arith,
}
use statusengine_worker.Cleanup.{Table, Options, refused, done, Mysql, delete_query}
use statusengine_worker.Cleanup.Rows.{Laws}

abbrev pub log_entries : Table
log_entries = record {
  name = codes "statusengine_logentries";
  column = codes "entry_time";
  days = pos 2;
}

abbrev pub missing : Table
missing = record { name = codes "statusengine_perfdata"; column = codes "timestamp"; days = pos 1 }

abbrev pub in_twos : Options
in_twos = record { batch_size = pos 2; pause = pos 0 }

bytes_eq-eq : (a b : Bytes) → bytes_eq a b ≡ true → a ≡ b
bytes_eq-eq [] [] h = refl
bytes_eq-eq [] (y ∷ ys) h = cc
bytes_eq-eq (x ∷ xs) [] h = cc
bytes_eq-eq (x ∷ xs) (y ∷ ys) h = ground (arith, bytes_eq-eq xs ys)

-- The first `limit` rows below the cutoff go.
unfoldable pub remove : ℕ → ℤ → List ℤ → ℕ × List ℤ
remove zero cutoff rows = (0, rows)
remove (suc limit) cutoff [] = (0, [])
remove (suc limit) cutoff (r ∷ rows) = elim (ltb_ℤ r cutoff) [
  | true ↦ let (n, left) = remove limit cutoff rows in (n + 1, left)
  | false ↦ let (n, left) = remove (suc limit) cutoff rows in (n, r ∷ left)
]

module _ (cutoff : ℤ) where
  old : ℤ → Bool
  old r = ltb_ℤ r cutoff

  remove-keeps :
      (limit : ℕ) (rows : List ℤ)
      → filter (λ r. not (ltb_ℤ r cutoff)) (remove limit cutoff rows).1
        ≡ filter (λ r. not (ltb_ℤ r cutoff)) rows
  unfolding remove
  remove-keeps zero rows = refl
  remove-keeps (suc limit) [] = refl
  remove-keeps (suc limit) (r ∷ rows) =
      ground (arith, remove-keeps limit rows, remove-keeps (suc limit) rows)

  remove-balance :
      (limit : ℕ) (rows : List ℤ)
      → ((remove limit cutoff rows).0 + count (λ r. ltb_ℤ r cutoff) (remove limit cutoff rows).1
          ≡ count (λ r. ltb_ℤ r cutoff) rows)
        × ((remove limit cutoff rows).0 ≤ limit)
        × ((remove limit cutoff rows).0 < limit
            → count (λ r. ltb_ℤ r cutoff) (remove limit cutoff rows).1 ≡ 0)
  unfolding remove
  remove-balance zero rows = (omega arith, omega arith, λ h. absurd (omega arith))
  remove-balance (suc limit) [] = (omega arith, omega arith, λ h. refl)
  remove-balance (suc limit) (r ∷ rows) = elim (Bool-cases (ltb_ℤ r cutoff)) [
    | inl e ↦
        let (balance, most, last) = remove-balance limit rows in
        rw (e, remove) (ground arith, ground arith, λ h. last (omega arith))
    | inr e ↦
        let (balance, most, last) = remove-balance (suc limit) rows in
        rw (e, remove) (ground arith, ground arith, λ h. ground (arith, last h))
  ]

abbrev pub server : Mysql
server = record {
  Db = List ℤ;
  exec = λ query cutoff db.
      if bytes_eq query (delete_query log_entries in_twos)
      then (let (n, left) = remove 2 cutoff db in (done (some n), left))
      else (refused, db);
}

abbrev pub stamps : Bytes → List ℤ → List ℤ
stamps name db = if bytes_eq name log_entries.name then db else []

abbrev pub IsSample : Table → Type 0
IsSample t = (t ≡ log_entries) ⊎ (t ≡ missing)

pub server-refuses :
    (query : Bytes) (cutoff : ℤ) (db db' : List ℤ)
    → server.exec query cutoff db ≡ (refused, db')
    → (name : Bytes) → stamps name db' ≡ stamps name db
server-refuses query cutoff db db' x name =
    let same : db' ≡ db = ground arith in ap (stamps name) same

-- What holds of the two tables holds of each that is one of them.
either_table : (Q : Table → Type 0) → Q log_entries → Q missing → (t : Table) → IsSample t → Q t
either_table Q p q t (inl e) = subst Q (sym e) p
either_table Q p q t (inr e) = subst Q (sym e) q

module _ (cutoff : ℤ) (db db' : List ℤ) (n : Option ℕ) where
  pub server-keeps :
      (t : Table)
      → IsSample t
      → server.exec (delete_query t in_twos) cutoff db ≡ (done n, db')
      → filter (λ r. not (ltb_ℤ r cutoff)) (stamps t.name db')
        ≡ filter (λ r. not (ltb_ℤ r cutoff)) (stamps t.name db)
  unfolding delete_query
  server-keeps =
      either_table _
        (λ x.
          let same : (remove 2 cutoff db).1 ≡ db' = cc in
          ap (filter (λ r. not (ltb_ℤ r cutoff))) (sym same) ∙ remove-keeps cutoff 2 db)
        (λ x. cc)

  pub server-removes :
      (t : Table)
      → IsSample t
      → (limit : ℕ) → pos 2 ≡ pos limit
      → server.exec (delete_query t in_twos) cutoff db ≡ (done n, db')
      → (removed : ℕ) × ((n ≡ none) ⊎ (n ≡ some removed))
        × (removed + count (λ r. ltb_ℤ r cutoff) (stamps t.name db')
            ≡ count (λ r. ltb_ℤ r cutoff) (stamps t.name db))
        × (removed ≤ limit)
        × (removed < limit → count (λ r. ltb_ℤ r cutoff) (stamps t.name db') ≡ 0)
  unfolding delete_query
  server-removes =
      either_table _
        (λ limit l x.
          let same : (remove 2 cutoff db).1 ≡ db' = cc in
          let told : n ≡ some (remove 2 cutoff db).0 = cc in
          let two : 2 ≡ limit = ground arith in
          let (balance, most, last) = remove-balance cutoff 2 db in
          (
            (remove 2 cutoff db).0,
            inr told,
            rw (← same) balance,
            omega arith,
            λ h. rw (← same) (last (omega arith)),
          ))
        (λ limit l x. cc)

  pub server-spares :
      (t : Table)
      → IsSample t
      → (name : Bytes) → name ≢ t.name
      → server.exec (delete_query t in_twos) cutoff db ≡ (done n, db')
      → stamps name db' ≡ stamps name db
  unfolding delete_query
  server-spares =
      either_table _
        (λ name other x. elim (Bool-cases (bytes_eq name log_entries.name)) [
          | inl e ↦ absurd (other (bytes_eq-eq name log_entries.name e))
          | inr e ↦ rw e refl
        ])
        (λ name other x. cc)

abbrev pub server_laws : Laws server in_twos
server_laws = record {
  IsTable = IsSample;
  Row = ℤ;
  rows = stamps;
  value = λ column r. r;
  refuses = server-refuses;
  keeps = λ t cutoff db db' n is. server-keeps cutoff db db' n t is;
  removes = λ t limit cutoff db db' n is. server-removes cutoff db db' n t is limit;
  spares = λ t cutoff db db' n name is. server-spares cutoff db db' n t is name;
}
