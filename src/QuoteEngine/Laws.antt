-- ===== src/QuoteEngine/Laws.antt =====
-- The terms of a quote of backend/src/services/quote-engine.ts, and where it is stored.
use nyxfinance.Common.{
  ℕ, ◌+◌, ◌*◌, ◌≤◌, ◌<◌, String, ◌≡◌, refl, ◌⊎◌, inl, inr, Bool, true, false, not, some, [], ◌∷◌,
  ◌++◌, arith, Bool-cases, or_else, any,
}
use nyxfinance.Status.{credit_quote_ready}
use nyxfinance.Sql.{insert}
use nyxfinance.Result.{Fault, Result, ok, err}
use nyxfinance.Db.{Db, Quote}
use nyxfinance.Db.Anchor.{given}
use nyxfinance.Db.Quotes.{insert_quote, quote_row, has_quote_id}
use nyxfinance.Config.{AppConfig}
use nyxfinance.World.{World, Chain, address, then_run, write}
use nyxfinance.World.Laws.{address_cases, lift_cases, require_cases, throw_if_cases}
use nyxfinance.CreditLine.{set_product}
use nyxfinance.CreditLine.Laws.{product_set, set_product-pure}
use nyxfinance.QuoteEngine.{Reader, QuoteRequest, calculate_fee, tenor_refused, create_quote}

-- The fee is the amount's share in basis points, rounded down.
fee_bounds :
    (amount bps : ℕ)
    → (calculate_fee amount bps * 10000 ≤ amount * bps)
      × (amount * bps < (calculate_fee amount bps + 1) * 10000)
fee_bounds amount bps = (omega arith, omega arith)

tenor_bounds :
    (tenor max_tenor : ℕ)
    → tenor_refused tenor max_tenor ≡ false
    → (1 ≤ tenor) × (tenor ≤ 5) × (tenor ≤ max_tenor)
tenor_bounds tenor max_tenor h = (ground (arith, h), ground (arith, h), ground (arith, h))

-- Adds a quote to the table.
abbrev pub with_quote : Quote → ℕ → Db → Db
with_quote quote now db = record db { quotes = db.quotes ++ quote_row quote now ∷ [] }

insert_quote-cases :
    (quote : Quote) (now : ℕ) (db : Db)
    → ((e : Fault) × (insert_quote quote now db ≡ err e))
      ⊎ (insert_quote quote now db ≡ ok (with_quote quote now db))
unfolding insert_quote insert
insert_quote-cases quote now db = elim (Bool-cases (any (has_quote_id quote.id) db.quotes)) [
  | inl clash ↦ inl (rw clash (_, refl))
  | inr free ↦ inr (rw free)
]

module _ (chain : Chain) (reader : Reader) (big_int : String → Result ℕ) (config : AppConfig)
    (fresh : String) (now : ℕ) (input : QuoteRequest) (w : World) where
  -- What the participant policy says of the account: it is approved.
  abbrev pub ParticipantAllows : Type 0
  ParticipantAllows =
      (participant account : String) × (given config.contracts.participant_policy
        ≡ some participant)
      × (chain.check_address input.account ≡ ok account)
      × (reader.read_boolean participant "is_approved" (address account ∷ []) ≡ ok true)

  -- What the collateral policy and the oracle that it names say of the collateral of a quote: it is eligible, and
  -- the haircut, the greatest tenor, the price and its ledger are theirs.
  abbrev pub CollateralAllows : Quote → Type 0
  CollateralAllows quote =
      (collateral token oracle : String) × (ledger : ℕ) × (given config.contracts.collateral_policy
        ≡ some collateral)
      × (given (or_else input.collateral_token config.contracts.collateral_token)
          ≡ some quote.collateral_token)
      × (chain.check_address quote.collateral_token ≡ ok token)
      × (reader.read_boolean collateral "is_eligible" (address token ∷ []) ≡ ok true)
      × (reader.read_number collateral "haircut_bps" (address token ∷ []) ≡ ok quote.haircut_bps)
      × (reader.read_number collateral "max_tenor_days" (address token ∷ [])
          ≡ ok quote.max_tenor_days)
      × (reader.read_text collateral "oracle" (address token ∷ []) ≡ ok oracle)
      × (reader.read_text oracle "price_e7" (address token ∷ []) ≡ ok quote.oracle_price_e7)
      × (reader.read_number oracle "updated_ledger" (address token ∷ []) ≡ ok ledger)
      × (quote.oracle_updated_ledger ≡ some ledger)

  -- The terms of a quote.
  abbrev pub IsQuote : Quote → Type 0
  IsQuote quote =
      (quote.id ≡ fresh)
      × (quote.account ≡ input.account)
      × (quote.tenor_days ≡ input.tenor_days)
      × (quote.requested_credit_amount ≡ input.requested_credit_amount)
      × ParticipantAllows
      × CollateralAllows quote
      × (1 ≤ quote.tenor_days)
      × (quote.tenor_days ≤ 5)
      × (quote.tenor_days ≤ quote.max_tenor_days)
      × (quote.expires_at ≡ now + 300000)
      × ((amount : ℕ) × (big_int input.requested_credit_amount ≡ ok amount)
          × (quote.fee_amount * 10000 ≤ amount * config.prefunding_fee_bps)
          × (amount * config.prefunding_fee_bps < (quote.fee_amount + 1) * 10000))

  -- A quote fails and changes nothing, or is answered and stored, with its transaction, if one is given,
  -- ready for credit; no call is submitted.
  abbrev pub Quoted : World × Result Quote → Type 0
  Quoted q =
      ((e : Fault) × (q ≡ (w, err e)))
      ⊎ ((quote : Quote) × IsQuote quote
          × (q ≡ (
            record w {
              db =
                  product_set (given input.anchor_transaction_id) credit_quote_ready now
                    (with_quote quote now w.db);
            },
            ok quote,
          )))

  stored_quote :
      (quote : Quote)
      → IsQuote quote
      → Quoted (
          then_run (write (insert_quote quote now) w) (λ _ v.
            then_run
              (set_product (given input.anchor_transaction_id) credit_quote_ready now v)
              (λ _ u. (u, ok quote))))
  stored_quote quote says = elim (insert_quote-cases quote now w.db) [
    | inl (e, failed) ↦ inl (e, rw failed refl)
    | inr done ↦ inr (
      quote,
      says,
      rw done (
          set_product-pure (given input.anchor_transaction_id) credit_quote_ready now quote
            (record w { db = with_quote quote now w.db })),
    )
  ]

  -- A quote that fails changes nothing. One that is answered is for an account that the participant
  -- policy approves and a collateral that the collateral policy says is eligible; its haircut and greatest
  -- tenor are what that policy says of the collateral, and its price and ledger what the oracle says that the policy
  -- names. Its tenor is the requested one, from 1 day to 5 and to the policy's greatest; it lives for five
  -- minutes, and has the amount's share of the configured basis points, rounded down, as fee. It is
  -- added to the table, the product status of its transaction, if one is given, is
  -- `credit_quote_ready`, and nothing else changes.
  pub create_quote-Quoted : Quoted (create_quote chain reader big_int config fresh now input w)
  unfolding create_quote
  create_quote-Quoted =
      require_cases P (given config.contracts.collateral_policy) _ _ w (λ _. inl (_, refl))
        λ collateral h1.
          require_cases P (given config.contracts.participant_policy) _ _ w (λ _. inl (_, refl))
            λ participant h2.
              require_cases P
                (given (or_else input.collateral_token config.contracts.collateral_token)) _ _ w
                (λ _. inl (_, refl))
                λ token h3.
                  address_cases P chain token _ w (λ e _. inl (e, refl))
                    λ token_address h4.
                      address_cases P chain input.account _ w (λ e _. inl (e, refl))
                        λ account_address h5.
                          lift_cases P (reader.read_boolean participant _ _) _ w
                            (λ e _. inl (e, refl))
                            λ approved h6.
                              lift_cases P (reader.read_boolean collateral _ _) _ w
                                (λ e _. inl (e, refl))
                                λ eligible h7.
                                  lift_cases P (reader.read_number collateral _ _) _ w
                                    (λ e _. inl (e, refl))
                                    λ haircut h8.
                                      lift_cases P (reader.read_number collateral _ _) _ w
                                        (λ e _. inl (e, refl))
                                        λ max_tenor h9.
                                          lift_cases P (reader.read_text collateral _ _) _ w
                                            (λ e _. inl (e, refl))
                                            λ oracle h10.
                                              throw_if_cases P (not approved) _ _ w
                                                (λ _. inl (_, refl))
                                                λ yes1.
                                                  throw_if_cases P (not eligible) _ _ w
                                                    (λ _. inl (_, refl))
                                                    λ yes2.
                                                      throw_if_cases P
                                                        (tenor_refused input.tenor_days max_tenor) _
                                                        _ w (λ _. inl (_, refl))
                                                        λ tenor.
                                                          lift_cases P (reader.read_text oracle _ _)
                                                            _ w (λ e _. inl (e, refl))
                                                            λ price h11.
                                                            lift_cases P
                                                            (reader.read_number oracle _ _) _ w
                                                            (λ e _. inl (e, refl))
                                                            λ ledger h12.
                                                            lift_cases P
                                                            (big_int input.requested_credit_amount)
                                                            _ w (λ e _. inl (e, refl))
                                                            λ amount read.
                                                            let (low, five, most) =
                                                            tenor_bounds input.tenor_days max_tenor
                                                            tenor in
                                                            let fees =
                                                            fee_bounds amount
                                                            config.prefunding_fee_bps in
                                                            stored_quote _ (
                                                            refl,
                                                            refl,
                                                            refl,
                                                            refl,
                                                            (
                                                            participant,
                                                            account_address,
                                                            h2,
                                                            h5,
                                                            holds approved _ h6 yes1,
                                                            ),
                                                            (
                                                            collateral,
                                                            token_address,
                                                            oracle,
                                                            ledger,
                                                            h1,
                                                            h3,
                                                            h4,
                                                            holds eligible _ h7 yes2,
                                                            h8,
                                                            h9,
                                                            h10,
                                                            h11,
                                                            h12,
                                                            refl,
                                                            ),
                                                            low,
                                                            five,
                                                            most,
                                                            refl,
                                                            (amount, read, fees.0, fees.1),
                                                            )
    where
      holds : (b : Bool) (r : Result Bool) → r ≡ ok b → not b ≡ false → r ≡ ok true
      holds true r h yes' = h
      holds false r h yes' = absurd (ground (arith, yes'))

      P : World × Result Quote → Type 0
      P = Quoted
