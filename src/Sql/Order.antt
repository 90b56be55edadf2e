-- ===== src/Sql/Order.antt =====
-- The row that ORDER BY … LIMIT 1 yields.
use nyxfinance.Common.{
  ℕ, Bool, true, false, none, some, List, [], ◌∷◌, ◌≡◌, ◌≤◌, arith, All, Option-cases, inl, inr,
}
use nyxfinance.Sql.{earliest}

module _ {R : Type 0} (p : R → Bool) (stamp : R → ℕ) where
  pub earliest_sound : (rows : List R) (r : R) → earliest p stamp rows ≡ some r → p r ≡ true
  unfolding earliest
  earliest_sound [] r h = ground arith
  earliest_sound (x ∷ rs) r h = grind (arith, earliest_sound rs)

  pub earliest-none : (rows : List R) → earliest p stamp rows ≡ none → All (λ s. p s ≡ false) rows
  unfolding earliest
  earliest-none [] h = tt
  earliest-none (x ∷ rs) h = (ground arith, earliest-none rs (ground arith))

  pub All-later :
      (a b : ℕ) (rows : List R)
      → a ≤ b
      → All (λ s. p s ≡ true → b ≤ stamp s) rows
      → All (λ s. p s ≡ true → a ≤ stamp s) rows
  All-later a b [] le h = tt
  All-later a b (x ∷ rs) le h = ((λ e. let q = h.0 e in omega arith), All-later a b rs le h.1)

  All-none :
      (a : ℕ) (rows : List R)
      → All (λ s. p s ≡ false) rows
      → All (λ s. p s ≡ true → a ≤ stamp s) rows
  All-none a [] h = tt
  All-none a (x ∷ rs) h = ((λ e. ground (arith, h.0)), All-none a rs h.1)

  pub earliest_least :
      (rows : List R) (r : R)
      → earliest p stamp rows ≡ some r
      → All (λ s. p s ≡ true → stamp r ≤ stamp s) rows
  unfolding earliest
  earliest_least [] r h = tt
  earliest_least (x ∷ rs) r h = elim (Option-cases (earliest p stamp rs)) [
    | inl e ↦ (ground arith, All-none (stamp r) rs (earliest-none rs e))
    | inr (s, e) ↦
        (ground arith, All-later (stamp r) (stamp s) rs (ground arith) (earliest_least rs s e))
  ]
