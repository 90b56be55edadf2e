-- ===== src/Sql/Unique.antt =====
-- A primary key as an invariant of a table, and what ORDER BY … LIMIT 1 then selects.
use nyxfinance.Common.{
  ℕ, suc, String, ◌≡◌, refl, sym, ap, ◌∙◌, inl, inr, Bool, true, false, ◌||◌, some, List, [], ◌∷◌,
  ◌++◌, ◌==◌, eq_iff, eq_refl, arith, if◌then◌else◌, Bool-cases, Option-cases, any, All,
}
use nyxfinance.Sql.{find, insert, update_where, earliest}
use nyxfinance.Sql.Keys.{keyed}
use nyxfinance.Sql.Laws.{is_some-find}

module _ {R : Type 0} where
  abbrev pub count : (R → Bool) → List R → ℕ
  count p [] = 0
  count p (r ∷ rs) = let rest = count p rs in if p r then suc rest else rest

  pub count-zero : (p : R → Bool) (rows : List R) → All (λ s. p s ≡ false) rows → count p rows ≡ 0
  count-zero p [] h = refl
  count-zero p (r ∷ rs) h = ground (arith, h.0, count-zero p rs h.1)

module _ {R : Type 0} (key : R → String) where
  abbrev pub IsUnique : List R → Type 0
  IsUnique [] = Unit
  IsUnique (r ∷ rs) = (any (keyed key (key r)) rs ≡ false) × IsUnique rs

  any-update_where_key :
      (f : R → R) (p : R → Bool) (k : String) (rows : List R)
      → ((r : R) → key (f r) ≡ key r)
      → any (keyed key k) (update_where p f rows) ≡ any (keyed key k) rows
  unfolding update_where
  any-update_where_key f p k [] h = refl
  any-update_where_key f p k (r ∷ rs) h = ground (arith, h r, any-update_where_key f p k rs h)

  pub update_where-IsUnique :
      (f : R → R) (p : R → Bool) (rows : List R)
      → ((r : R) → key (f r) ≡ key r)
      → IsUnique rows
      → IsUnique (update_where p f rows)
  unfolding update_where
  update_where-IsUnique f p [] h u = tt
  update_where-IsUnique f p (r ∷ rs) h u = (
    ground (arith, h r, any-update_where_key f p (key r) rs h, u.0),
    update_where-IsUnique f p rs h u.1,
  )

  any-append_one :
      (q : R → Bool) (new : R) (rows : List R) → any q (rows ++ new ∷ []) ≡ (any q rows || q new)
  any-append_one q new [] = ground arith
  any-append_one q new (r ∷ rs) = ground (arith, any-append_one q new rs)

  append-IsUnique :
      (new : R) (rows : List R)
      → any (keyed key (key new)) rows ≡ false
      → IsUnique rows
      → IsUnique (rows ++ new ∷ [])
  append-IsUnique new [] h u = (refl, tt)
  append-IsUnique new (r ∷ rs) h u = (
    ground (
      arith,
      any-append_one (keyed key (key r)) new rs,
      eq_iff (key r) (key new),
      eq_iff (key new) (key r),
      u.0,
    ),
    append-IsUnique new rs (ground arith) u.1,
  )

  pub insert-IsUnique :
      (new : R) (rows rows' : List R)
      → insert (keyed key (key new)) new rows ≡ some rows'
      → IsUnique rows
      → IsUnique rows'
  unfolding insert
  insert-IsUnique new rows rows' h u = ground (arith, append-IsUnique new rows, u)

  find-tail :
      (x r : R) (rs : List R)
      → any (keyed key (key x)) rs ≡ false
      → find (keyed key (key r)) rs ≡ some r
      → find (keyed key (key r)) (x ∷ rs) ≡ some r
  unfolding find
  find-tail x r rs fresh h =
      ground (arith, eq_iff (key x) (key r), is_some-find (keyed key (key x)) rs)

  -- With the key unique, the row that is selected is the one its key finds.
  pub find-earliest :
      (p : R → Bool) (stamp : R → ℕ) (rows : List R) (r : R)
      → IsUnique rows
      → earliest p stamp rows ≡ some r
      → find (keyed key (key r)) rows ≡ some r
  unfolding earliest find
  find-earliest p stamp [] r u h = ground arith
  find-earliest p stamp (x ∷ rs) r u h = elim (Option-cases (earliest p stamp rs)) [
    | inl e ↦ ground (arith, eq_refl (key r))
    | inr (s, e) ↦
        ground (arith, eq_refl (key r), find-tail x s rs u.0, find-earliest p stamp rs s u.1 e)
  ]

  -- Two updates of one key are one.
  pub update_where-fused :
      (k : String) (f g : R → R) (rows : List R)
      → ((r : R) → key (f r) ≡ key r)
      → update_where (keyed key k) g (update_where (keyed key k) f rows)
        ≡ update_where (keyed key k) (λ r. g (f r)) rows
  unfolding update_where
  update_where-fused k f g [] h = refl
  update_where-fused k f g (r ∷ rs) h = ground (arith, h r, update_where-fused k f g rs h)

  update_where-none :
      (q : R → Bool) (f : R → R) (rows : List R) → any q rows ≡ false → update_where q f rows ≡ rows
  unfolding update_where
  update_where-none q f [] h = refl
  update_where-none q f (r ∷ rs) h = ground (arith, update_where-none q f rs)

  -- An update by key that takes its row out of a selection makes the selection smaller by one.
  pub count-update_where :
      (p : R → Bool) (f : R → R) (k : String) (rows : List R) (r : R)
      → IsUnique rows
      → find (keyed key k) rows ≡ some r
      → p r ≡ true
      → p (f r) ≡ false
      → count p rows ≡ suc (count p (update_where (keyed key k) f rows))
  unfolding update_where find
  count-update_where p f k [] r u h before after = ground arith
  count-update_where p f k (x ∷ rs) r u h before after = elim (Bool-cases (key x == k)) [
    | inl same ↦
        let fresh : any (keyed key k) rs ≡ false =
          ap (λ j. any (keyed key j) rs) (sym ((eq_iff (key x) k).0 same)) ∙ u.0 in
        ground (arith, before, after, ap (count p) (update_where-none (keyed key k) f rs fresh))
    | inr other ↦ ground (arith, count-update_where p f k rs r u.1, before, after)
  ]
