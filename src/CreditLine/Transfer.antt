-- ===== src/CreditLine/Transfer.antt =====
-- backend/src/services/credit-line.ts: drawing and repaying, whose confidential transfer is part of the
-- contract's call and is recorded after it.
use nyxfinance.Common.{ℕ, not, Option, none, some, String, List, [], ◌∷◌, ◌==◌, or_else}
use nyxfinance.Json.{str, Fields, end, field}
use nyxfinance.Status.{credit_drawn, repaid}
use nyxfinance.Result.{Result, ok, error}
use nyxfinance.Db.{draw, repayment, confidential_transfer, confidential_transfer_from}
use nyxfinance.Db.Anchor.{given, update_product_status}
use nyxfinance.Config.{AppConfig}
use nyxfinance.World.{
  Arg, bytes, Call, Tx, Chain, Action, pure, lift, modify, throw_if, require, ◌>>=◌, ◌>>◌,
  call_contract,
}
use nyxfinance.PolicySync.{operator_keypair}
use nyxfinance.Sep31.{TransactionView, mark_sep31_payment_submitted}
use nyxfinance.Hex.{bytes32_arg}
use nyxfinance.Evidence.{
  Platform, EvidenceInput, TransferResult, standard_base64, record_confidential_transfer_evidence,
}
use nyxfinance.CreditLine.{to_address, all_args, keypair_from_secret, set_product}

-- `ConfidentialTransferRequest`, the fields that these operations read
pub record TransferRequest : Type 0 where
  pub token_contract_id : Option String
  pub from_account : String
  pub to_account : String
  pub data_xdr_base64 : String
  pub auditor_payload : Option Fields
  pub event_payload : Option Fields

pub record DrawCreditInput : Type 0 where
  pub anchor_transaction_id : Option String
  pub position_id : String
  pub facility : String
  pub transfer_commitment_x : String
  pub transfer_commitment_y : String
  pub credit_executor_secret_key : String
  pub confidential_transfer : TransferRequest

pub record RepayCreditInput : Type 0 where
  pub anchor_transaction_id : Option String
  pub position_id : String
  pub facility : String
  pub anchor_secret_key : String
  pub repayment_commitment : String
  pub confidential_transfer : TransferRequest

-- `CreditLineTxResult`; `drawRecorded` and `repaymentRecorded` repeat the transaction.
pub record TransferTxResult : Type 0 where
  pub tx : Tx
  pub confidential_transfer : TransferResult

unfoldable pub draw_args : Chain → DrawCreditInput → String → String → String → Result (List Arg)
draw_args chain input executor transfer_data operator = all_args (
    bytes32_arg input.position_id "positionId"
    ∷ to_address (chain.check_address input.facility)
    ∷ to_address (chain.check_address executor)
    ∷ bytes32_arg input.transfer_commitment_x "transferCommitmentX"
    ∷ bytes32_arg input.transfer_commitment_y "transferCommitmentY"
    ∷ ok (bytes transfer_data)
    ∷ to_address (chain.check_address operator)
    ∷ [])

abbrev pub draw_call : String → String → String → List Arg → Call
draw_call operator executor contract_id args = record {
  signer = operator;
  auth_signers = executor ∷ [];
  contract_id = contract_id;
  method = "execute_draw";
  args = args;
}

abbrev pub draw_evidence : DrawCreditInput → String → String → Tx → EvidenceInput
draw_evidence input executor token result = record {
  anchor_transaction_id = input.anchor_transaction_id;
  position_id = input.position_id;
  direction = draw;
  transfer_commitment = some input.transfer_commitment_x;
  token_contract_id = token;
  method = confidential_transfer_from;
  signer = executor;
  spender = some executor;
  from_account = input.facility;
  to_account = input.confidential_transfer.to_account;
  data_xdr_base64 = input.confidential_transfer.data_xdr_base64;
  tx_hash = result.hash;
  ledger = some result.ledger;
  auditor_payload = input.confidential_transfer.auditor_payload;
  event_payload = input.confidential_transfer.event_payload;
}

abbrev ignore : TransactionView → Action (Unit {0})
ignore view = pure tt

-- The object that `executeDraw` merges into the transaction's raw object.
abbrev pub drawn_update : Tx → Fields
drawn_update result = field "stellar_transaction_id" (str result.hash) (
    field "c_usdc_transfer_tx_hash" (str result.hash)
      (field "draw_recorded_tx_hash" (str result.hash) end))

-- `if (input.anchorTransactionId) { updateProductStatus(…); markSep31PaymentSubmitted(…); }`
unfoldable pub mark_drawn : AppConfig → ℕ → Tx → Option String → Action (Unit {0})
mark_drawn config now result none = pure tt
mark_drawn config now result (some id) = do
  modify (update_product_status id credit_drawn now)
  view ← mark_sep31_payment_submitted config now id (drawn_update result)
  ignore view

-- What follows the contract's call.
unfoldable pub record_draw :
    Platform
    → AppConfig
    → String
    → ℕ
    → DrawCreditInput
    → String
    → String
    → Tx
    → Action TransferTxResult
record_draw platform config fresh now input executor token result = do
  transfer ←
      record_confidential_transfer_evidence platform fresh now
        (draw_evidence input executor token result)
  mark_drawn config now result (given input.anchor_transaction_id)
  pure (record { tx = result; confidential_transfer = transfer })

unfoldable pub execute_draw :
    Chain → Platform → AppConfig → String → ℕ → DrawCreditInput → Action TransferTxResult
execute_draw chain platform config fresh now input = do
  let request = input.confidential_transfer
  operator ← operator_keypair chain config
  throw_if (not (request.from_account == input.facility))
      (error "draw confidentialTransfer.from must match facility")
  contract_id ←
      require (given config.contracts.prefunding_credit_line)
        (error "PREFUNDING_CREDIT_LINE_CONTRACT_ID is not configured")
  executor ←
      keypair_from_secret chain (some input.credit_executor_secret_key) "creditExecutorSecretKey"
  token ←
      require (given (or_else request.token_contract_id config.contracts.confidential_cusdc))
        (error "CONFIDENTIAL_CUSDC_CONTRACT_ID is not configured")
  let transfer_data = platform.from_base64 (standard_base64 request.data_xdr_base64)
  throw_if (transfer_data == "") (error "draw confidentialTransfer.dataXdrBase64 is empty")
  args ← lift (draw_args chain input executor transfer_data operator)
  result ← call_contract chain (draw_call operator executor contract_id args)
  record_draw platform config fresh now input executor token result

unfoldable pub repay_args : Chain → RepayCreditInput → String → String → Result (List Arg)
repay_args chain input transfer_data operator = all_args (
    bytes32_arg input.position_id "positionId"
    ∷ to_address (chain.check_address input.facility)
    ∷ bytes32_arg input.repayment_commitment "repaymentCommitment"
    ∷ ok (bytes transfer_data)
    ∷ to_address (chain.check_address operator)
    ∷ [])

abbrev pub repay_call : String → String → String → List Arg → Call
repay_call operator anchor contract_id args = record {
  signer = operator;
  auth_signers = anchor ∷ [];
  contract_id = contract_id;
  method = "repay";
  args = args;
}

abbrev pub repay_evidence : RepayCreditInput → String → String → Tx → EvidenceInput
repay_evidence input anchor token result = record {
  anchor_transaction_id = input.anchor_transaction_id;
  position_id = input.position_id;
  direction = repayment;
  transfer_commitment = some input.repayment_commitment;
  token_contract_id = token;
  method = confidential_transfer;
  signer = anchor;
  spender = none;
  from_account = anchor;
  to_account = input.facility;
  data_xdr_base64 = input.confidential_transfer.data_xdr_base64;
  tx_hash = result.hash;
  ledger = some result.ledger;
  auditor_payload = input.confidential_transfer.auditor_payload;
  event_payload = input.confidential_transfer.event_payload;
}

-- What follows the contract's call.
unfoldable pub record_repayment :
    Platform → String → ℕ → RepayCreditInput → String → String → Tx → Action TransferTxResult
record_repayment platform fresh now input anchor token result = do
  transfer ←
      record_confidential_transfer_evidence platform fresh now
        (repay_evidence input anchor token result)
  set_product (given input.anchor_transaction_id) repaid now
  pure (record { tx = result; confidential_transfer = transfer })

unfoldable pub repay_credit_line :
    Chain → Platform → AppConfig → String → ℕ → RepayCreditInput → Action TransferTxResult
repay_credit_line chain platform config fresh now input = do
  let request = input.confidential_transfer
  operator ← operator_keypair chain config
  contract_id ←
      require (given config.contracts.prefunding_credit_line)
        (error "PREFUNDING_CREDIT_LINE_CONTRACT_ID is not configured")
  anchor ← keypair_from_secret chain (some input.anchor_secret_key) "anchorSecretKey"
  token ←
      require (given (or_else request.token_contract_id config.contracts.confidential_cusdc))
        (error "CONFIDENTIAL_CUSDC_CONTRACT_ID is not configured")
  throw_if (not (request.from_account == anchor))
      (error "repay confidentialTransfer.from must match the anchor")
  let transfer_data = platform.from_base64 (standard_base64 request.data_xdr_base64)
  throw_if (transfer_data == "") (error "repay confidentialTransfer.dataXdrBase64 is empty")
  args ← lift (repay_args chain input transfer_data operator)
  result ← call_contract chain (repay_call operator anchor contract_id args)
  record_repayment platform fresh now input anchor token result
