-- ===== src/Sql/Laws.antt =====
-- Laws of the statements that write: what a later SELECT finds.
use nyxfinance.Common.{
  Bool, true, none, some, List, [], ◌∷◌, ◌++◌, ◌≡◌, refl, if◌then◌else◌, arith, any, is_some, All,
  length,
}
use mathlib.Core.Option
use nyxfinance.Sql.{find, update_where}

module _ {R : Type 0} where
  -- A read by a column that the update does not touch.
  pub find-update_where :
      (q p : R → Bool) (f : R → R) (rows : List R)
      → ((r : R) → q (f r) ≡ q r)
      → find q (update_where p f rows) ≡ Option.map (λ r. if p r then f r else r) (find q rows)
  unfolding find update_where
  find-update_where q p f [] h = refl
  find-update_where q p f (r ∷ rs) h = ground (arith, h r, find-update_where q p f rs h)

  pub any-update_where :
      (q p : R → Bool) (f : R → R) (rows : List R)
      → ((r : R) → q (f r) ≡ q r)
      → any q (update_where p f rows) ≡ any q rows
  unfolding update_where
  any-update_where q p f [] h = refl
  any-update_where q p f (r ∷ rs) h = ground (arith, h r, any-update_where q p f rs h)

  pub is_some-find : (q : R → Bool) (rows : List R) → is_some (find q rows) ≡ any q rows
  unfolding find
  is_some-find q [] = refl
  is_some-find q (r ∷ rs) = ground (arith, is_some-find q rs)

  pub find-append :
      (q : R → Bool) (rows : List R) (new : R)
      → find q (rows ++ new ∷ [])
        ≡ (if any q rows then find q rows else if q new then some new else none)
  unfolding find
  find-append q [] new = refl
  find-append q (r ∷ rs) new = ground (arith, find-append q rs new)

  pub find_sound : (q : R → Bool) (rows : List R) (r : R) → find q rows ≡ some r → q r ≡ true
  unfolding find
  find_sound q [] r h = ground arith
  find_sound q (x ∷ rs) r h = ground (arith, find_sound q rs r)

  pub All-update_where :
      (P : R → Type 0) (p : R → Bool) (f : R → R) (rows : List R)
      → ((r : R) → p r ≡ true → P r → P (f r))
      → All P rows
      → All P (update_where p f rows)
  unfolding update_where
  All-update_where P p f [] h a = tt
  All-update_where P p f (r ∷ rs) h a = (ground (arith, h r, a.0), All-update_where P p f rs h a.1)

  pub length-update_where :
      (p : R → Bool) (f : R → R) (rows : List R) → length (update_where p f rows) ≡ length rows
  unfolding update_where
  length-update_where p f [] = refl
  length-update_where p f (r ∷ rs) = ground (arith, length-update_where p f rs)
