-- ===== src/Result.antt =====
-- Results of fallible code. A JavaScript exception is a value; `coded` is one whose `statusCode`
-- the services set, `constraint` is the driver's error for a violated key of a table.
use mathlib.Core.Path.{subst}
use nyxfinance.Common.{
  ℕ, Bool, true, false, Option, none, some, String, ◌<>◌, ◌≡◌, refl, ◌⊎◌, inl, inr,
}

pub data Fault : Type 0 where
  error : String → Fault
  coded : String → ℕ → Fault
  constraint : String → Fault

-- `error.message`
unfoldable pub message : Fault → String
message (error m) = m
message (coded m code) = m
message (constraint table) = "UNIQUE constraint failed: " <> table

pub data Result {ℓ} (A : Type ℓ) : Type ℓ where
  ok : A → Result A
  err : Fault → Result A

abbrev pub or_fail {ℓ} : {A : Type ℓ} → Option A → Fault → Result A
or_fail none e = err e
or_fail (some a) e = ok a

abbrev pub is_ok {ℓ} : {A : Type ℓ} → Result A → Bool
is_ok (ok a) = true
is_ok (err e) = false

module _ {ℓ κ} {A : Type ℓ} {B : Type κ} where
  infixl 5 ◌>>=◌
  abbrev pub ◌>>=◌ : Result A → (A → Result B) → Result B
  ok value >>= next = next value
  err fault >>= next = err fault

-- A statement and what follows it.
infixl 5 ◌>>◌
abbrev pub ◌>>◌ {ℓ} : {B : Type ℓ} → Result (Unit {0}) → Result B → Result B
step >> rest = step >>= λ _. rest

-- `if (b) throw e`
abbrev pub throw_if : Bool → Fault → Result (Unit {0})
throw_if true e = err e
throw_if false e = ok tt

pub Result-cases {ℓ} :
    {A : Type ℓ} (r : Result A) → ((a : A) × (r ≡ ok a)) ⊎ ((e : Fault) × (r ≡ err e))
Result-cases (ok a) = inl (a, refl)
Result-cases (err e) = inr (e, refl)

-- A property of the value of a result, if there is one, and its rules.
abbrev pub OnOk {ℓ κ} : {A : Type ℓ} → (A → Type κ) → Result A → Type κ
OnOk P (ok a) = P a
OnOk P (err e) = Unit

pub OnOk->>= {ℓ κ μ} :
    {A : Type ℓ} {B : Type κ} (P : B → Type μ) (m : Result A) (f : A → Result B)
    → ((a : A) → m ≡ ok a → OnOk P (f a))
    → OnOk P (m >>= f)
OnOk->>= P (ok a) f h = h a refl
OnOk->>= P (err e) f h = tt

pub OnOk_out {ℓ κ} :
    {A : Type ℓ} (P : A → Type κ) (r : Result A) {a : A} → OnOk P r → r ≡ ok a → P a
OnOk_out P r h e = subst (OnOk P) e h
