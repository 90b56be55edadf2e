-- ===== src/OracleAdmin.antt =====
-- backend/src/services/oracle-admin.ts: the price that the operator writes to the oracle adapter.
pub mod Laws
use nyxfinance.Common.{
  ℕ, ℤ, pos, negsuc, ◌+◌, ◌-◌, ◌*◌, ◌/◌, ◌^◌, Bool, true, false, not, ◌&&◌, Option, none, some,
  String, [], ◌∷◌, ◌==◌, ◌<>◌, if◌then◌else◌, eqb, ltb, get_or, or_else,
}
use nyxfinance.Result.{Result, ok, err, error, or_fail, ◌>>=◌, ◌>>◌, throw_if}
use nyxfinance.Db.Anchor.{given}
use nyxfinance.Config.{AppConfig}
use nyxfinance.World
use nyxfinance.World.{u32, i128, Tx, Chain, Action, lift, require}
use nyxfinance.PolicySync.{operator_keypair, submit_operator_contract_call}
use nyxfinance.CreditLine.{to_address, all_args}

-- A positive price with `decimals` decimals as one with seven, rounded down.
abbrev pub scale_positive : ℕ → ℕ → ℕ
scale_positive price decimals =
    if eqb decimals 7
    then price
    else (if ltb 7 decimals then price / 10 ^ (decimals - 7) else price * 10 ^ (7 - decimals))

-- `scaleReflectorPriceToE7`
unfoldable pub scale_reflector_price_to_e7 : ℤ → ℕ → Result ℕ
scale_reflector_price_to_e7 (negsuc n) decimals = err (error "Reflector price is not positive")
scale_reflector_price_to_e7 (pos price) decimals =
    if eqb price 0
    then err (error "Reflector price is not positive")
    else ok (scale_positive price decimals)

-- The contract `lastprice` and `decimals` of Reflector: what `asBigInt` makes of the two fields of the
-- record, if there is a record, and the number of decimals, absent where it is no integer from 0 on,
-- beside its text.
pub record Reflector : Type 0 where
  pub last_price : String → String → Result (Option (Result ℤ × Result ℤ))
  pub decimals : String → Result (Option ℕ × String)

pub record ReflectorPrice : Type 0 where
  pub price_e7 : ℕ
  pub timestamp : ℤ
  pub decimals : ℕ

abbrev pub is_stale : ℕ → ℤ → ℕ → Bool
is_stale now (pos t) limit = ltb t now && ltb limit (now - t)
is_stale now (negsuc n) limit = ltb limit (now + n + 1)

-- `now` is in seconds.
unfoldable pub price_of : AppConfig → String → ℕ → ℕ → Result ℤ × Result ℤ → Result ReflectorPrice
price_of config symbol now decimals fields = do
  price ← fields.0
  timestamp ← fields.1
  throw_if (is_stale now timestamp config.reflector_staleness_seconds)
      (error ("Reflector price for " <> symbol <> " is stale"))
  scaled ← scale_reflector_price_to_e7 price decimals
  ok (record { price_e7 = scaled; timestamp = timestamp; decimals = decimals })

abbrev pub usable_decimals : Option ℕ → String → Result ℕ
usable_decimals none text = err (error ("Reflector decimals out of range: " <> text))
usable_decimals (some n) text =
    if ltb 18 n then err (error ("Reflector decimals out of range: " <> text)) else ok n

unfoldable pub fetch_reflector_price_e7 : Reflector → AppConfig → String → ℕ → Result ReflectorPrice
fetch_reflector_price_e7 reflector config symbol now = do
  contract_id ←
      or_fail (given config.reflector_pulse_contract_id)
        (error "REFLECTOR_PULSE_CONTRACT_ID is not configured")
  last_price ← reflector.last_price contract_id symbol
  raw_decimals ← reflector.decimals contract_id
  fields ← or_fail last_price (error ("Reflector has no lastprice for " <> symbol))
  decimals ← usable_decimals raw_decimals.0 raw_decimals.1
  price_of config symbol now decimals fields

pub record RefreshInput : Type 0 where
  pub asset : Option String
  pub price_e7 : Option String
  pub updated_ledger : Option ℕ

-- `input.updatedLedger ?? Number((await fetchLatestLedger(…)).sequence ?? 0)`
abbrev pub latest_ledger : Result ℕ → Option ℕ → Result ℕ
latest_ledger fetched none = fetched
latest_ledger fetched (some n) = ok n

-- The price: Reflector's in its mode without a given price, or the given one, or 1.
unfoldable pub chosen_price :
    Reflector → (String → Result ℤ) → AppConfig → ℕ → Option String → Result ℤ
chosen_price reflector big_int config now given_price =
    if config.oracle_mode == "reflector" && not (is_given (given given_price))
    then from_reflector (fetch_reflector_price_e7 reflector config config.reflector_quote_asset now)
    else big_int (get_or given_price "10000000")
  where
    is_given : Option String → Bool
    is_given none = false
    is_given (some t) = true

    from_reflector : Result ReflectorPrice → Result ℤ
    from_reflector (ok p) = ok (pos p.price_e7)
    from_reflector (err e) = err e

unfoldable pub refresh_oracle :
    Chain → Reflector → (String → Result ℤ) → Result ℕ → AppConfig → ℕ → RefreshInput → Action Tx
refresh_oracle chain reflector big_int fetched config now input =
    World.◌>>=◌
      (require (given config.contracts.oracle_adapter)
        (error "ORACLE_ADAPTER_CONTRACT_ID is not configured"))
      λ contract_id.
        World.◌>>=◌
          (require (given (or_else input.asset config.contracts.collateral_token))
            (error "COLLATERAL_TOKEN_CONTRACT_ID is not configured"))
          λ asset. World.◌>>=◌ (lift (latest_ledger fetched input.updated_ledger)) λ ledger.
            World.◌>>=◌ (World.throw_if (eqb ledger 0) (error "latest ledger is unavailable")) λ _.
              World.◌>>=◌ (operator_keypair chain config) λ operator.
                World.◌>>=◌ (lift (chosen_price reflector big_int config now input.price_e7))
                  λ price.
                    World.◌>>=◌
                      (lift (
                        all_args (
                          to_address (chain.check_address asset)
                          ∷ ok (i128 price)
                          ∷ ok (u32 ledger)
                          ∷ to_address (chain.check_address operator)
                          ∷ [])))
                      λ args.
                        submit_operator_contract_call chain config contract_id "set_price" args
