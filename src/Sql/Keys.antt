-- ===== src/Sql/Keys.antt =====
-- Tables with a text key: what SELECT by key finds after a write.
use mathlib.Core.Option
use nyxfinance.Common.{
  String, ◌≡◌, refl, ap, ◌∙◌, inl, inr, Bool, false, Option, none, some, List, [], ◌∷◌, ◌++◌, ◌==◌,
  eq_iff, arith, if◌then◌else◌, Bool-cases, any,
}
use nyxfinance.Sql.{find, update_where, insert, upsert, upsert_by}
use nyxfinance.Sql.Laws.{find-update_where, find-append, is_some-find, find_sound}

module _ {R : Type 0} (key : R → String) where
  abbrev pub keyed : String → R → Bool
  keyed k r = key r == k

  -- An UPDATE of one key leaves every other row as it was.
  pub find-update_where_key :
      (f : R → R) (k j : String) (rows : List R)
      → ((r : R) → key (f r) ≡ key r)
      → find (keyed j) (update_where (keyed k) f rows)
        ≡ (if k == j then Option.map f (find (keyed j) rows) else find (keyed j) rows)
  find-update_where_key f k j rows h =
      find-update_where (keyed j) (keyed k) f rows (λ r. ap (λ t. t == j) (h r))
      ∙ tidy (find (keyed j) rows) refl
    where
      tidy :
          (o : Option R)
          → find (keyed j) rows ≡ o
          → Option.map (λ r. if keyed k r then f r else r) o
            ≡ (if k == j then Option.map f o else o)
      tidy none e = ground arith
      tidy (some r) e =
          ground
            (arith, find_sound (keyed j) rows r e, eq_iff (key r) j, eq_iff (key r) k, eq_iff k j)

  abbrev pub merged : (R → R) → R → Option R → R
  merged f new none = new
  merged f new (some old) = f old

  pub find-insert :
      (clash : R → Bool) (new : R) (rows rows' : List R) (j : String)
      → any (keyed (key new)) rows ≡ false
      → insert clash new rows ≡ some rows'
      → find (keyed j) rows' ≡ (if key new == j then some new else find (keyed j) rows)
  unfolding insert
  find-insert clash new rows rows' j fresh h =
      ground
        (arith, find-append (keyed j) rows new, eq_iff (key new) j, is_some-find (keyed j) rows)

  pub find-upsert :
      (clash : R → Bool) (f : R → R) (new : R) (rows rows' : List R) (j : String)
      → ((r : R) → key (f r) ≡ key r)
      → upsert (keyed (key new)) clash f new rows ≡ some rows'
      → find (keyed j) rows' ≡ (
          if key new == j
          then some (merged f new (find (keyed (key new)) rows))
          else find (keyed j) rows)
  unfolding upsert
  find-upsert clash f new rows rows' j keep h = elim (Bool-cases (any (keyed (key new)) rows)) [
    | inl old ↦ ground (
      arith,
      find-update_where_key f (key new) j rows keep,
      eq_iff (key new) j,
      is_some-find (keyed j) rows,
    )
    | inr fresh ↦ ground (
      arith,
      find-insert clash new rows rows' j fresh,
      eq_iff (key new) j,
      is_some-find (keyed j) rows,
    )
  ]

  pub find-upsert_by :
      (f : R → R) (new : R) (rows : List R) (j : String)
      → ((r : R) → key (f r) ≡ key r)
      → find (keyed j) (upsert_by (keyed (key new)) f new rows) ≡ (
          if key new == j
          then some (merged f new (find (keyed (key new)) rows))
          else find (keyed j) rows)
  unfolding upsert_by
  find-upsert_by f new rows j keep = ground (
    arith,
    find-update_where_key f (key new) j rows keep,
    find-append (keyed j) rows new,
    eq_iff (key new) j,
    is_some-find (keyed j) rows,
  )

  pub upsert_total :
      (clash : R → Bool) (f : R → R) (new : R) (rows : List R)
      → (find (keyed (key new)) rows ≡ none → any clash rows ≡ false)
      → (rows' : List R) × (upsert (keyed (key new)) clash f new rows ≡ some rows')
  unfolding upsert
  upsert_total clash f new rows h = elim (Bool-cases (any (keyed (key new)) rows)) [
    | inl old ↦ (update_where (keyed (key new)) f rows, rw old)
    | inr fresh ↦ (rows ++ new ∷ [], ground (arith, is_some-find (keyed (key new)) rows))
  ]
