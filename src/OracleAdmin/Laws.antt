-- ===== src/OracleAdmin/Laws.antt =====
-- `fetchReflectorPriceE7` and `scaleReflectorPriceToE7` of backend/src/services/oracle-admin.ts.
use mathlib.Core.Path.{subst}
use native.Mathlib.Nat.{div-mul-le_self, lt-div-mul-add, one-le-pow, div-eq_of_lt-le}
use nyxfinance.Common.{
  pos, negsuc, ℤ, ℕ, suc, ◌+◌, ◌-◌, ◌*◌, ◌/◌, ◌^◌, ◌≤◌, ◌<◌, ◌≡◌, ◌↔◌, refl, sym, ap, ◌∙◌, inl, inr,
  Bool, true, false, arith, ltb, eqb, taken, skipped, Bool-cases, Option, none, some, String,
}
use nyxfinance.Result.{Fault, Result, ok, err, or_fail, throw_if, OnOk, OnOk->>=, OnOk_out}
use nyxfinance.Db.Anchor.{given}
use nyxfinance.Config.{AppConfig}
use nyxfinance.OracleAdmin.{
  scale_positive, scale_reflector_price_to_e7, is_stale, usable_decimals, Reflector, ReflectorPrice,
  price_of, fetch_reflector_price_e7,
}

floor_bounds : (n d : ℕ) → 0 < d → (n / d * d ≤ n) × (n < (n / d + 1) * d)
floor_bounds n d h =
    let le = div-mul-le_self n d in
    let lt : n < n / d * d + d = lt-div-mul-add h in (le, omega (arith, lt))

scale_up :
    (price decimals : ℕ)
    → decimals ≤ 7
    → scale_positive price decimals ≡ price * 10 ^ (7 - decimals)
scale_up price decimals h = elim (Bool-cases (eqb decimals 7)) [
  | inl e ↦
      let seven : decimals ≡ 7 = ground (arith, e) in
      taken _ _ e ∙ the_same ∙ ap (λ d. price * 10 ^ (7 - d)) (sym seven)
  | inr e ↦
      let not_more : ltb 7 decimals ≡ false = ground (arith, h) in
      skipped _ _ e ∙ skipped _ _ not_more
]
  where
    the_same : price ≡ price * 10 ^ 0
    the_same = omega arith

scale_down :
    (price decimals : ℕ)
    → 7 < decimals
    → scale_positive price decimals ≡ price / 10 ^ (decimals - 7)
scale_down price decimals h =
    let other : eqb decimals 7 ≡ false = ground (arith, h) in
    let more : ltb 7 decimals ≡ true = ground (arith, h) in skipped _ _ other ∙ taken _ _ more

-- A price in seven decimals is the price itself, exactly, for at most seven decimals, and otherwise its part
-- rounded down.
scale_positive-bounds :
    (price decimals : ℕ)
    → (decimals ≤ 7 → scale_positive price decimals ≡ price * 10 ^ (7 - decimals))
      × (7 < decimals
          → (scale_positive price decimals * 10 ^ (decimals - 7) ≤ price)
            × (price < (scale_positive price decimals + 1) * 10 ^ (decimals - 7)))
scale_positive-bounds price decimals = (
  scale_up price decimals,
  λ h.
      rw (scale_down price decimals h)
        (floor_bounds price (10 ^ (decimals - 7)) (one-le-pow (decimals - 7) 10 (omega arith))),
)

-- A time that is not stale lies at most the limit before now.
abbrev pub IsRecent : ℕ → ℤ → ℕ → Type 0
IsRecent now (pos t) limit = now ≤ t + limit
IsRecent now (negsuc n) limit = now + suc n ≤ limit

is_stale-IsRecent :
    (now : ℕ) (t : ℤ) (limit : ℕ) → is_stale now t limit ≡ false → IsRecent now t limit
is_stale-IsRecent now (pos t) limit h = ground (arith, h)
is_stale-IsRecent now (negsuc n) limit h = ground (arith, h)

-- The price of a symbol by the contract's record and decimals: it is positive and recent, and the answer is
-- the price with seven decimals, exact for at most seven and rounded down for more.
abbrev pub Prices : Reflector → AppConfig → String → ℕ → ReflectorPrice → Type 0
Prices reflector config symbol now answer =
    (contract_id text : String) × (price : ℕ) × (given config.reflector_pulse_contract_id
      ≡ some contract_id)
    × (reflector.last_price contract_id symbol ≡ ok (some (ok (pos price), ok answer.timestamp)))
    × (reflector.decimals contract_id ≡ ok (some answer.decimals, text))
    × (0 < price)
    × (answer.decimals ≤ 18)
    × IsRecent now answer.timestamp config.reflector_staleness_seconds
    × (answer.decimals ≤ 7 → answer.price_e7 ≡ price * 10 ^ (7 - answer.decimals))
    × (7 < answer.decimals
        → (answer.price_e7 * 10 ^ (answer.decimals - 7) ≤ price)
          × (price < (answer.price_e7 + 1) * 10 ^ (answer.decimals - 7)))

ok_inv : {A : Type 0} {a b : A} → (Result.ok a) ≡ ok b → a ≡ b
ok_inv h = cc

ok_not_err : {A : Type 0} {a : A} {e : Fault} → (err e) ≡ ok a → ⊥
ok_not_err h = cc

or_fail-some : {A : Type 0} (o : Option A) (e : Fault) (a : A) → or_fail o e ≡ ok a → o ≡ some a
or_fail-some none e a h = absurd (ok_not_err h)
or_fail-some (some b) e a h = ap some (ok_inv h)

both_fields :
    (fields : Result ℤ × Result ℤ) (price timestamp : ℤ)
    → fields.0 ≡ ok price
    → fields.1 ≡ ok timestamp
    → fields ≡ (ok price, ok timestamp)
both_fields (r, q) price timestamp first second = rw (first, second) refl

usable_decimals-some :
    (o : Option ℕ) (text : String) (n : ℕ) → usable_decimals o text ≡ ok n → (o ≡ some n) × (n ≤ 18)
usable_decimals-some none text n h = absurd (ok_not_err h)
usable_decimals-some (some m) text n h = elim (Bool-cases (ltb 18 m)) [
  | inl more ↦ absurd (ok_not_err (sym (taken _ _ more) ∙ h))
  | inr few ↦
      let same : m ≡ n = ok_inv (sym (skipped _ _ few) ∙ h) in
      (ap some same, ground (arith, few, same))
]

not_thrown : (b : Bool) (e : Fault) (u : Unit {0}) → throw_if b e ≡ ok u → b ≡ false
not_thrown true e u h = absurd (ok_not_err h)
not_thrown false e u h = refl

IsRecent-is_stale :
    (now : ℕ) (t : ℤ) (limit : ℕ) → IsRecent now t limit → is_stale now t limit ≡ false
IsRecent-is_stale now (pos t) limit h = ground (arith, h)
IsRecent-is_stale now (negsuc n) limit h = ground (arith, h)

-- The bounds determine the scaled price.
scale_positive_from :
    (price decimals e7 : ℕ)
    → (decimals ≤ 7 → e7 ≡ price * 10 ^ (7 - decimals))
    → (7 < decimals → (e7 * 10 ^ (decimals - 7) ≤ price) × (price < (e7 + 1) * 10 ^ (decimals - 7)))
    → scale_positive price decimals ≡ e7
scale_positive_from price decimals e7 low high = elim (Bool-cases (ltb 7 decimals)) [
  | inl more ↦
      let le : 7 < decimals = ground (arith, more) in
      let (floor, above) = high le in
      scale_down price decimals le ∙ div-eq_of_lt-le (10 ^ (decimals - 7)) floor above
  | inr not_more ↦
      let le : decimals ≤ 7 = ground (arith, not_more) in scale_up price decimals le ∙ sym (low le)
]

module _ (reflector : Reflector) (config : AppConfig) (symbol : String) (now : ℕ) where
  by_scaling :
      (contract_id text : String) (decimals : ℕ) (timestamp : ℤ) (price : ℤ)
      → given config.reflector_pulse_contract_id ≡ some contract_id
      → reflector.last_price contract_id symbol ≡ ok (some (ok price, ok timestamp))
      → reflector.decimals contract_id ≡ ok (some decimals, text)
      → decimals ≤ 18
      → IsRecent now timestamp config.reflector_staleness_seconds
      → (scaled : ℕ) → scale_reflector_price_to_e7 price decimals ≡ ok scaled
      → Prices reflector config symbol now
          (record { price_e7 = scaled; timestamp = timestamp; decimals = decimals })
  unfolding scale_reflector_price_to_e7
  by_scaling contract_id text decimals timestamp (negsuc n) named at has few recent scaled h =
      absurd (ok_not_err h)
  by_scaling contract_id text decimals timestamp (pos price) named at has few recent scaled h =
      elim (Bool-cases (eqb price 0)) [
        | inl zero' ↦ absurd (ok_not_err (sym (taken _ _ zero') ∙ h))
        | inr positive ↦
            let same : scale_positive price decimals ≡ scaled =
              ok_inv (sym (skipped _ _ positive) ∙ h) in
            let bounds = scale_positive-bounds price decimals in
            (
              contract_id,
              text,
              price,
              named,
              at,
              has,
              ground (arith, positive),
              few,
              recent,
              λ le. sym same ∙ bounds.0 le,
              λ more.
                  subst
                    (λ s.
                      (s * 10 ^ (decimals - 7) ≤ price) × (price < (s + 1) * 10 ^ (decimals - 7)))
                    same (bounds.1 more),
            )
      ]

  answered-Prices :
      OnOk
        (Prices reflector config symbol now)
        (fetch_reflector_price_e7 reflector config symbol now)
  unfolding fetch_reflector_price_e7 price_of
  answered-Prices =
      OnOk->>= P (or_fail (given config.reflector_pulse_contract_id) _) _ λ contract_id named.
        OnOk->>= P (reflector.last_price contract_id symbol) _ λ last_price at.
          OnOk->>= P (reflector.decimals contract_id) _ λ raw has.
            OnOk->>= P (or_fail last_price _) _ λ fields present.
              OnOk->>= P (usable_decimals raw.0 raw.1) _ λ decimals usable.
                OnOk->>= P (fields.0) _ λ price first. OnOk->>= P (fields.1) _ λ timestamp second.
                  OnOk->>= P (throw_if (is_stale now timestamp _) _) _ λ _ fresh.
                    OnOk->>= P (scale_reflector_price_to_e7 price decimals) _ λ scaled e.
                      let (has_decimals, few) =
                        usable_decimals-some (raw.0) (raw.1) decimals usable in
                      by_scaling contract_id (raw.1) decimals timestamp price
                        (or_fail-some _ _ contract_id named)
                        (at
                          ∙ ap ok (
                              or_fail-some last_price _ fields present
                              ∙ ap some (both_fields fields price timestamp first second)))
                        (has ∙ ap (λ o. ok (o, raw.1)) has_decimals) few
                        (is_stale-IsRecent now timestamp config.reflector_staleness_seconds
                          (not_thrown _ _ tt fresh))
                        scaled e
    where
      P : ReflectorPrice → Type 0
      P = Prices reflector config symbol now

  Prices-answered :
      (answer : ReflectorPrice)
      → Prices reflector config symbol now answer
      → fetch_reflector_price_e7 reflector config symbol now ≡ ok answer
  unfolding fetch_reflector_price_e7 price_of scale_reflector_price_to_e7
  Prices-answered answer h =
      let (contract_id, text, price, named, at, has, positive, few, recent, low, high) = h in
      let not_more : ltb 18 answer.decimals ≡ false = ground (arith, few) in
      let not_zero : eqb price 0 ≡ false = ground (arith, positive) in
      let fresh =
        IsRecent-is_stale now answer.timestamp config.reflector_staleness_seconds recent in
      let scaled = scale_positive_from price answer.decimals answer.price_e7 low high in
      rw (named, at, has, not_more, fresh, not_zero, scaled) refl

  -- A price of Reflector is answered exactly if the contract is configured, its record of the symbol has a
  -- positive price and a time that is at most the configured seconds before now, its decimals are at most
  -- 18, and the answer has this time, these decimals, and the price with seven decimals: exactly if the
  -- contract has at most seven, and otherwise rounded down to the greatest that does not exceed it.
  pub fetch_reflector-Prices :
      (answer : ReflectorPrice)
      → (fetch_reflector_price_e7 reflector config symbol now ≡ ok answer)
        ↔ Prices reflector config symbol now answer
  fetch_reflector-Prices answer = (
    λ e.
        OnOk_out (Prices reflector config symbol now)
          (fetch_reflector_price_e7 reflector config symbol now) answered-Prices e,
    Prices-answered answer,
  )
