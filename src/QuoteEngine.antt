-- ===== src/QuoteEngine.antt =====
-- backend/src/services/quote-engine.ts: the price of a prefunding credit.
pub mod Laws
use nyxfinance.Common.{
  ℕ, ◌+◌, ◌*◌, ◌/◌, min, Bool, not, ◌||◌, Option, some, String, List, [], ◌∷◌, ◌<>◌, if◌then◌else◌,
  ltb, leb, or_else, decimal,
}
use nyxfinance.Status.{credit_quote_ready}
use nyxfinance.Result.{Result, error}
use nyxfinance.Db.{Quote}
use nyxfinance.Db.Anchor.{given}
use nyxfinance.Db.Quotes.{insert_quote}
use nyxfinance.Config.{AppConfig}
use nyxfinance.World.{
  Arg, Chain, Action, pure, lift, write, throw_if, require, ◌>>=◌, ◌>>◌, address_arg,
}
use nyxfinance.CreditLine.{set_product}

-- `ContractReader.invokeRead` by contract, method and arguments, for the contracts' return types: a
-- Boolean, a number, and a value as `String` writes it.
pub record Reader : Type 0 where
  pub read_boolean : String → String → List Arg → Result Bool
  pub read_number : String → String → List Arg → Result ℕ
  pub read_text : String → String → List Arg → Result String

pub record QuoteRequest : Type 0 where
  pub anchor_transaction_id : Option String
  pub account : String
  pub collateral_token : Option String
  pub requested_credit_amount : String
  pub tenor_days : ℕ

-- `calculateFee`, of the amount's value
abbrev pub calculate_fee : ℕ → ℕ → ℕ
calculate_fee amount fee_bps = amount * fee_bps / 10000

abbrev pub tenor_refused : ℕ → ℕ → Bool
tenor_refused tenor max_tenor = leb tenor 0 || ltb 5 tenor || ltb max_tenor tenor

-- `expiresIn(5 * 60 * 1000)`, in milliseconds
abbrev pub quote_lifetime : ℕ
quote_lifetime = 300000

-- `big_int` is `BigInt`, which throws on a text that is no integer; `fresh` is `newId("quote")`. The reads of
-- a `Promise.all` are in the order of the array.
unfoldable pub create_quote :
    Chain → Reader → (String → Result ℕ) → AppConfig → String → ℕ → QuoteRequest → Action Quote
create_quote chain reader big_int config fresh now input = do
  collateral_policy ←
      require (given config.contracts.collateral_policy)
        (error "COLLATERAL_POLICY_CONTRACT_ID is not configured")
  participant_policy ←
      require (given config.contracts.participant_policy)
        (error "PARTICIPANT_POLICY_CONTRACT_ID is not configured")
  token ←
      require (given (or_else input.collateral_token config.contracts.collateral_token))
        (error "COLLATERAL_TOKEN_CONTRACT_ID is not configured")
  token_arg ← address_arg chain token
  account_arg ← address_arg chain input.account
  approved ← lift (reader.read_boolean participant_policy "is_approved" (account_arg ∷ []))
  eligible ← lift (reader.read_boolean collateral_policy "is_eligible" (token_arg ∷ []))
  haircut ← lift (reader.read_number collateral_policy "haircut_bps" (token_arg ∷ []))
  max_tenor ← lift (reader.read_number collateral_policy "max_tenor_days" (token_arg ∷ []))
  oracle ← lift (reader.read_text collateral_policy "oracle" (token_arg ∷ []))
  throw_if (not approved)
      (error ("Participant " <> input.account <> " is not approved by ParticipantPolicy"))
  throw_if (not eligible) (error ("Collateral token " <> token <> " is not eligible"))
  throw_if (tenor_refused input.tenor_days max_tenor) (
      error (
        "Tenor " <> decimal input.tenor_days <> " exceeds max tenor " <> decimal (min 5 max_tenor)))
  price ← lift (reader.read_text oracle "price_e7" (token_arg ∷ []))
  updated_ledger ← lift (reader.read_number oracle "updated_ledger" (token_arg ∷ []))
  amount ← lift (big_int input.requested_credit_amount)
  let quote : Quote = record {
    id = fresh;
    account = input.account;
    anchor_transaction_id = input.anchor_transaction_id;
    collateral_token = token;
    requested_credit_amount = input.requested_credit_amount;
    tenor_days = input.tenor_days;
    oracle_price_e7 = price;
    oracle_updated_ledger = some updated_ledger;
    haircut_bps = haircut;
    max_tenor_days = max_tenor;
    fee_bps = config.prefunding_fee_bps;
    fee_amount = calculate_fee amount config.prefunding_fee_bps;
    expires_at = now + quote_lifetime;
  }
  write (insert_quote quote now)
  set_product (given quote.anchor_transaction_id) credit_quote_ready now
  pure quote
