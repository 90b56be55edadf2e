-- ===== src/Sql.antt =====
-- What the SQL statements of backend/src/db/sqlite.ts do to a table. A table is the list of its
-- rows in insertion order; a WHERE clause, a conflict target or a unique column is a Boolean test
-- of the row.
pub mod Laws
pub mod Keys
pub mod Order
pub mod Unique
use nyxfinance.Common.{ℕ, Bool, Option, none, some, List, [], ◌∷◌, ◌++◌, if◌then◌else◌, ltb, any}

module _ {R : Type 0} where
  -- SELECT … WHERE p, the first row
  unfoldable pub find : (R → Bool) → List R → Option R
  find p [] = none
  find p (r ∷ rs) = if p r then some r else find p rs

  -- UPDATE … SET f WHERE p
  unfoldable pub update_where : (R → Bool) → (R → R) → List R → List R
  update_where p f [] = []
  update_where p f (r ∷ rs) = (if p r then f r else r) ∷ update_where p f rs

  -- INSERT INTO …; `none` is the error of a violated PRIMARY KEY or UNIQUE constraint
  unfoldable pub insert : (R → Bool) → R → List R → Option (List R)
  insert clash new rows = if any clash rows then none else some (rows ++ new ∷ [])

  -- INSERT OR IGNORE INTO …
  unfoldable pub insert_or_ignore : (R → Bool) → R → List R → List R
  insert_or_ignore clash new rows = if any clash rows then rows else rows ++ new ∷ []

  -- INSERT INTO … ON CONFLICT(target) DO UPDATE SET f. SQLite checks the conflict target before
  -- the other unique columns.
  unfoldable pub upsert : (R → Bool) → (R → Bool) → (R → R) → R → List R → Option (List R)
  unfolding update_where insert
  upsert target clash f new rows =
      if any target rows then some (update_where target f rows) else insert clash new rows

  -- The same where the conflict target is the only unique column, so that no error is left.
  unfoldable pub upsert_by : (R → Bool) → (R → R) → R → List R → List R
  unfolding update_where
  upsert_by target f new rows =
      if any target rows then update_where target f rows else rows ++ new ∷ []

  abbrev later : (R → ℕ) → R → Option R → R
  later stamp r none = r
  later stamp r (some s) = if ltb (stamp r) (stamp s) then s else r

  abbrev earlier : (R → ℕ) → R → Option R → R
  earlier stamp r none = r
  earlier stamp r (some s) = if ltb (stamp s) (stamp r) then s else r

  -- SELECT … WHERE p ORDER BY stamp DESC LIMIT 1. Among equal stamps, which SQL leaves open, the
  -- first row of the table.
  unfoldable pub latest : (R → Bool) → (R → ℕ) → List R → Option R
  latest p stamp [] = none
  latest p stamp (r ∷ rs) =
      let rest = latest p stamp rs in if p r then some (later stamp r rest) else rest

  -- SELECT … WHERE p ORDER BY stamp LIMIT 1
  unfoldable pub earliest : (R → Bool) → (R → ℕ) → List R → Option R
  earliest p stamp [] = none
  earliest p stamp (r ∷ rs) =
      let rest = earliest p stamp rs in if p r then some (earlier stamp r rest) else rest

  -- The rows of `ORDER BY stamp DESC`.
  unfoldable pub place : (R → ℕ) → R → List R → List R
  place stamp r [] = r ∷ []
  place stamp r (s ∷ rs) = if ltb (stamp r) (stamp s) then s ∷ place stamp r rs else r ∷ s ∷ rs

  unfoldable pub newest_first : (R → ℕ) → List R → List R
  unfolding place
  newest_first stamp [] = []
  newest_first stamp (r ∷ rs) = place stamp r (newest_first stamp rs)
