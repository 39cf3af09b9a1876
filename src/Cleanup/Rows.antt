-- ===== src/Cleanup/Rows.antt =====
-- What the pass relies on of MySQL: the documented effect of `DELETE … WHERE column < ? LIMIT n` on
-- the rows, while nothing else writes to them, for the options of the run and the tables of the
-- schema.
use statusengine_worker.Prelude.{
  ℕ, ◌+◌, ◌≤◌, ◌<◌, Bool, true, not, ◌⊎◌, Option, none, some, List, [], ◌∷◌, Bytes, ◌≡◌, ◌≢◌, refl,
  sym, ap, ◌∙◌, ℤ, pos, ltb_ℤ, filter, count, length, length-filter, arith,
}
use statusengine_worker.Cleanup.{Table, Options, refused, done, Mysql, delete_query}

module _ (m : Mysql) (opts : Options) where
  open m use {Db, exec}

  pub record Laws : Type 1 where
    pub IsTable : Table → Type 0
    pub Row : Type 0
    pub rows : Bytes → Db → List Row
    pub value : Bytes → Row → ℤ
    -- A refused statement changes nothing.
    pub refuses :
        (query : Bytes) (cutoff : ℤ) (db db' : Db)
        → exec query cutoff db ≡ (refused, db')
        → (name : Bytes) → rows name db' ≡ rows name db
    -- The rows at or above the cutoff stay, and of the others `limit` are removed, or all where
    -- there are fewer.
    pub keeps :
        (table : Table) (cutoff : ℤ) (db db' : Db) (n : Option ℕ)
        → IsTable table
        → exec (delete_query table opts) cutoff db ≡ (done n, db')
        → filter (λ r. not (ltb_ℤ (value table.column r) cutoff)) (rows table.name db')
          ≡ filter (λ r. not (ltb_ℤ (value table.column r) cutoff)) (rows table.name db)
    pub removes :
        (table : Table) (limit : ℕ) (cutoff : ℤ) (db db' : Db) (n : Option ℕ)
        → IsTable table
        → opts.batch_size ≡ pos limit
        → exec (delete_query table opts) cutoff db ≡ (done n, db')
        → (removed : ℕ) × ((n ≡ none) ⊎ (n ≡ some removed))
          × (removed + count (λ r. ltb_ℤ (value table.column r) cutoff) (rows table.name db')
              ≡ count (λ r. ltb_ℤ (value table.column r) cutoff) (rows table.name db))
          × (removed ≤ limit)
          × (removed < limit
              → count (λ r. ltb_ℤ (value table.column r) cutoff) (rows table.name db') ≡ 0)
    -- The other tables stay as they are.
    pub spares :
        (table : Table) (cutoff : ℤ) (db db' : Db) (n : Option ℕ) (name : Bytes)
        → IsTable table
        → name ≢ table.name
        → exec (delete_query table opts) cutoff db ≡ (done n, db')
        → rows name db' ≡ rows name db

-- Two tests of which one implies the other, and a test with its negation.
module _ {A : Type 0} (keep fresh : A → Bool)
    (implied : (a : A) → keep a ≡ true → fresh a ≡ true) where
  pub filter-filter : (xs : List A) → filter keep (filter fresh xs) ≡ filter keep xs
  filter-filter [] = refl
  filter-filter (x ∷ xs) = ground (arith, implied x, filter-filter xs)

  pub filter-sublist :
      (xs ys : List A) → filter fresh xs ≡ filter fresh ys → filter keep xs ≡ filter keep ys
  filter-sublist xs ys e = sym (filter-filter xs) ∙ (ap (filter keep) e ∙ filter-filter ys)

pub count-split :
    {A : Type 0} (p : A → Bool) (xs : List A) → count p xs + count (λ a. not (p a)) xs ≡ length xs
count-split p [] = omega arith
count-split p (x ∷ xs) = ground (arith, count-split p xs)

pub count-of-filter :
    {A : Type 0} (p : A → Bool) (xs ys : List A)
    → filter p xs ≡ filter p ys
    → count p xs ≡ count p ys
count-of-filter p xs ys e = sym (length-filter p xs) ∙ (ap length e ∙ length-filter p ys)
