-- ===== src/Emitted/Payload.antt =====
-- What the payload of a transfer's event holds (backend/src/services/confidential-token-transfer.ts), by the
-- places of the names.
use mathlib.Core.Path.{subst}
use mathlib.Core.Option
use nyxfinance.Common.{
  ℕ, zero, suc, String, ◌≡◌, refl, sym, ap, ◌∙◌, inl, inr, true, false, Option, none, some, List,
  [], ◌∷◌, ◌==◌, if◌then◌else◌, eq_iff, eq_refl, arith, taken, skipped, Bool-cases, any, or_else,
  get_elem?, some-injective,
}
use nyxfinance.Json.{str, Fields, get}
use nyxfinance.Emitted.{Scalar, bytes_like_to_hex, with_entry, entries}

-- The names of a payload's values by position, for the event of a spender's transfer and for the other.
abbrev pub spender_names : List String
spender_names = "r_e" ∷ "v_tilde" ∷ "sigma_a" ∷ "v_aud_r" ∷ "r_aud_r" ∷ "v_aud_s" ∷ "a_aud_s" ∷ []

abbrev pub transfer_names : List String
transfer_names =
    "r_e" ∷ "v_tilde" ∷ "sigma" ∷ "b_tilde" ∷ "v_aud_r" ∷ "r_aud_r" ∷ "v_aud_s" ∷ "b_aud_s" ∷ []

-- The payload has, under the name at each position, the hexadecimal text of the value there, if it has one, and
-- nothing under any other name.
abbrev pub Holds : List String → List Scalar → Fields → Type 0
Holds names values fields =
    ((i : ℕ) (name : String)
      → get_elem? names i ≡ some name
      → get name fields ≡ Option.map str (bytes_like_to_hex (get_elem? values i)))
    × ((name : String) → any (λ n. n == name) names ≡ false → get name fields ≡ none)

get-with_entry :
    (j k : String) (o : Option String) (rest : Fields)
    → get j (with_entry k o rest)
      ≡ (if k == j then or_else (Option.map str o) (get j rest) else get j rest)
unfolding get
get-with_entry j k none rest = ground arith
get-with_entry j k (some h) rest = ground arith

get-entries_absent :
    (names : List String) (values : List Scalar) (name : String)
    → any (λ n. n == name) names ≡ false
    → get name (entries names values) ≡ none
unfolding entries get
get-entries_absent [] values name h = refl
get-entries_absent (k ∷ names) [] name h = refl
get-entries_absent (k ∷ names) (v ∷ values) name h =
    let rest = entries names values in
    let other : (k == name) ≡ false = ground (arith, h) in
    get-with_entry name k (bytes_like_to_hex (some v)) rest
    ∙ skipped _ _ other
    ∙ get-entries_absent names values name (ground (arith, h))

abbrev pub Distinct : List String → Type 0
Distinct [] = Unit
Distinct (k ∷ names) = (any (λ n. n == k) names ≡ false) × Distinct names

elem-any :
    (names : List String) (i : ℕ) (name : String)
    → get_elem? names i ≡ some name
    → any (λ n. n == name) names ≡ true
elem-any [] i name h = absurd (ground arith)
elem-any (k ∷ names) zero name h = ground (arith, (eq_iff k name).1 (some-injective h))
elem-any (k ∷ names) (suc i) name h = ground (arith, elem-any names i name h)

or_else-none : {A : Type 0} (o : Option A) → or_else o none ≡ o
or_else-none none = refl
or_else-none (some a) = refl

other_name :
    (k name : String) (names : List String) (i : ℕ)
    → any (λ n. n == k) names ≡ false
    → get_elem? names i ≡ some name
    → (k == name) ≡ false
other_name k name names i fresh at = elim (Bool-cases (k == name)) [
  | inl same ↦
      let there : any (λ n. n == k) names ≡ true =
        subst (λ x. any (λ n. n == x) names ≡ true) (sym ((eq_iff k name).0 same))
          (elem-any names i name at) in
      absurd (ground (arith, fresh, there))
  | inr other ↦ other
]

get-entries :
    (names : List String) (values : List Scalar) (i : ℕ) (name : String)
    → Distinct names
    → get_elem? names i ≡ some name
    → get name (entries names values) ≡ Option.map str (bytes_like_to_hex (get_elem? values i))
unfolding entries get
get-entries [] values i name distinct h = absurd (ground arith)
get-entries (k ∷ names) [] zero name distinct h = refl
get-entries (k ∷ names) [] (suc i) name distinct h = refl
get-entries (k ∷ names) (v ∷ values) zero name (fresh, distinct) h =
    let same : k ≡ name = some-injective h in
    let absent = get-entries_absent names values k fresh in
    subst
      (λ x. get x (entries (k ∷ names) (v ∷ values)) ≡ Option.map str (bytes_like_to_hex (some v)))
      same
      (get-with_entry k k (bytes_like_to_hex (some v)) (entries names values)
        ∙ taken _ _ (eq_refl k)
        ∙ ap (or_else (Option.map str (bytes_like_to_hex (some v)))) absent
        ∙ or_else-none (Option.map str (bytes_like_to_hex (some v))))
get-entries (k ∷ names) (v ∷ values) (suc i) name (fresh, distinct) h =
    get-with_entry name k (bytes_like_to_hex (some v)) (entries names values)
    ∙ skipped _ _ (other_name k name names i fresh h)
    ∙ get-entries names values i name distinct h

pub entries-Holds :
    (names : List String) (values : List Scalar)
    → Distinct names
    → Holds names values (entries names values)
entries-Holds names values distinct = (
  λ i name at. get-entries names values i name distinct at,
  λ name absent. get-entries_absent names values name absent,
)
