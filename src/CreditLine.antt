-- ===== src/CreditLine.antt =====
-- backend/src/services/credit-line.ts: opening, drawing and repaying a prefunding position.
pub mod Laws
pub mod Transfer
pub mod Repayment
pub mod Drawing
use nyxfinance.Common.{
  ℕ, not, Option, none, some, String, List, [], ◌∷◌, ◌==◌, ◌<>◌, if◌then◌else◌, or_else,
}
use nyxfinance.Status.{ProductStatus, proof_verified}
use nyxfinance.Result.{Result, ok, err, error}
use nyxfinance.Db.Anchor.{given, update_product_status}
use nyxfinance.Config.{AppConfig}
use nyxfinance.World.{
  Arg, address, u32, u128, Tx, Chain, Action, pure, lift, modify, throw_if, require, ◌>>=◌, ◌>>◌,
  call_contract,
}
use nyxfinance.PolicySync.{operator_keypair}
use nyxfinance.Hex.{bytes_arg, bytes32_arg}

-- `Address.fromString(a).toScVal()`
abbrev pub to_address : Result String → Result Arg
to_address (ok a) = ok (address a)
to_address (err e) = err e

-- The arguments of a call, evaluated in order.
abbrev pub next_arg : Result Arg → Result (List Arg) → Result (List Arg)
next_arg (err e) rest = err e
next_arg (ok a) (err e) = err e
next_arg (ok a) (ok rest) = ok (a ∷ rest)

abbrev pub all_args : List (Result Arg) → Result (List Arg)
all_args [] = ok []
all_args (r ∷ rs) = next_arg r (all_args rs)

-- `keypairFromSecret`, by its public key
unfoldable pub keypair_from_secret : Chain → Option String → String → Action String
keypair_from_secret chain secret_key env_name = do
  secret ← require (given secret_key) (error (env_name <> " is not configured"))
  lift (chain.public_key secret)

pub record OpenCreditInput : Type 0 where
  pub anchor_transaction_id : Option String
  pub position_id : String
  pub anchor : String
  pub anchor_secret_key : String
  pub collateral_token : Option String
  pub lock_key : String
  pub credit_commitment_x : String
  pub credit_commitment_y : String
  pub oracle_price_e7 : String
  pub haircut_bps : ℕ
  pub tenor_days : ℕ
  pub position_nullifier : String
  pub public_inputs_hex : String
  pub proof_hex : String

-- `big_int` is `nativeToScVal(BigInt(text), { type: "u128" })`, which throws on a text that is no number
-- of that type.
unfoldable pub open_args :
    Chain → (String → Result ℕ) → OpenCreditInput → String → String → Result (List Arg)
open_args chain big_int input token operator = all_args (
    bytes32_arg input.position_id "positionId"
    ∷ to_address (chain.check_address input.anchor)
    ∷ to_address (chain.check_address token)
    ∷ bytes32_arg input.lock_key "lockKey"
    ∷ bytes32_arg input.credit_commitment_x "creditCommitmentX"
    ∷ bytes32_arg input.credit_commitment_y "creditCommitmentY"
    ∷ to_u128 (big_int input.oracle_price_e7)
    ∷ ok (u32 input.haircut_bps)
    ∷ ok (u32 input.tenor_days)
    ∷ bytes32_arg input.position_nullifier "positionNullifier"
    ∷ bytes_arg input.public_inputs_hex "publicInputsHex"
    ∷ bytes_arg input.proof_hex "proofHex"
    ∷ to_address (chain.check_address operator)
    ∷ [])
  where
    to_u128 : Result ℕ → Result Arg
    to_u128 (ok n) = ok (u128 n)
    to_u128 (err e) = err e

-- `if (input.anchorTransactionId) updateProductStatus(db, input.anchorTransactionId, …)`
abbrev pub set_product : Option String → ProductStatus → ℕ → Action (Unit {0})
set_product none product now = pure tt
set_product (some id) product now = modify (update_product_status id product now)

unfoldable pub open_credit_line :
    Chain → AppConfig → (String → Result ℕ) → ℕ → OpenCreditInput → Action Tx
open_credit_line chain config big_int now input = do
  operator ← operator_keypair chain config
  token ←
      require (given (or_else input.collateral_token config.contracts.collateral_token))
        (error "COLLATERAL_TOKEN_CONTRACT_ID is not configured")
  throw_if (input.anchor_secret_key == "")
      (error "anchorSecretKey is required: open_credit needs the anchor's own require_auth()")
  anchor ← lift (chain.public_key input.anchor_secret_key)
  throw_if (not (anchor == input.anchor))
      (error "anchorSecretKey does not match the anchor account")
  contract_id ←
      require (given config.contracts.prefunding_credit_line)
        (error "PREFUNDING_CREDIT_LINE_CONTRACT_ID is not configured")
  args ← lift (open_args chain big_int input token operator)
  result ← call_contract chain (record {
    signer = operator;
    auth_signers = anchor ∷ [];
    contract_id = contract_id;
    method = "open_credit";
    args = args;
  })
  set_product (given input.anchor_transaction_id) proof_verified now
  pure result
