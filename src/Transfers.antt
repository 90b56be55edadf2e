-- ===== src/Transfers.antt =====
-- backend/src/services/confidential-token-transfer.ts: a confidential transfer that is a transaction of its own, the
-- merge of a balance, and what the network reports of a transfer.
use nyxfinance.Common.{
  ℕ, String, Bool, true, false, not, Option, none, some, List, [], ◌∷◌, ◌==◌, or_else, get_or,
  decimal,
}
use nyxfinance.Json.{num, str, Fields, end, field, obj, spread}
use nyxfinance.Result.{Result, ok, error}
use nyxfinance.Db.{
  TransferEvidence, Direction, TransferMethod, confidential_transfer, confidential_transfer_from,
}
use nyxfinance.Db.Anchor.{given}
use nyxfinance.Db.Evidence.{insert_evidence}
use nyxfinance.Config.{AppConfig}
use nyxfinance.World.{
  Arg, bytes, Call, Tx, Chain, Action, pure, lift, throw_if, write, require, ◌>>=◌, ◌>>◌,
  address_arg, call_contract,
}
use nyxfinance.Evidence.{
  Platform, EvidenceInput, TransferResult, decode_data_xdr, method_text, base_fields, spread_event,
  evidence_row, transfer_result,
}
use nyxfinance.CreditLine.{keypair_from_secret, to_address, all_args}

-- `submitContractCallWithKeypair`
abbrev pub keypair_call : String → String → String → List Arg → Call
keypair_call signer contract_id method args = record {
  signer = signer;
  auth_signers = [];
  contract_id = contract_id;
  method = method;
  args = args;
}

unfoldable pub merge_confidential_balance : Chain → String → String → Action Tx
merge_confidential_balance chain token_contract_id account_secret_key = do
  signer ← keypair_from_secret chain (some account_secret_key) "accountSecretKey"
  account ← address_arg chain signer
  call_contract chain (keypair_call signer token_contract_id "merge" (account ∷ []))

-- `ConfidentialTransferRequest`
pub record SubmitRequest : Type 0 where
  pub token_contract_id : Option String
  pub method : Option TransferMethod
  pub signer_secret_key : Option String
  pub spender : Option String
  pub from_account : String
  pub to_account : String
  pub data_xdr_base64 : String
  pub merge_before_transfer : Bool
  pub auditor_payload : Option Fields
  pub event_payload : Option Fields

pub record SubmitInput : Type 0 where
  pub anchor_transaction_id : Option String
  pub position_id : String
  pub direction : Direction
  pub transfer_commitment : Option String
  pub request : SubmitRequest

pub record Signer : Type 0 where
  pub key : String
  pub spender : Option String

abbrev signer_name : Option String → String
signer_name none = "DEMO_ANCHOR_SECRET_KEY"
signer_name (some secret) = "profile signerSecretKey"

unfoldable pub resolve_signer : Chain → AppConfig → TransferMethod → SubmitRequest → Action Signer
resolve_signer chain config confidential_transfer_from request = do
  signer ← keypair_from_secret chain config.credit_executor_secret_key "CREDIT_EXECUTOR_SECRET_KEY"
  let spender = get_or request.spender signer
  throw_if (not (spender == signer))
      (error "confidential_transfer_from spender must match CREDIT_EXECUTOR_SECRET_KEY public key")
  pure (record { key = signer; spender = some spender })
resolve_signer chain config confidential_transfer request = do
  signer ←
      keypair_from_secret chain (or_else request.signer_secret_key config.demo_anchor_secret_key)
        (signer_name (given request.signer_secret_key))
  throw_if (not (request.from_account == signer))
      (error "confidential_transfer signer must match the from account")
  pure (record { key = signer; spender = none })

unfoldable pub transfer_args :
    Chain → TransferMethod → SubmitRequest → Signer → String → Result (List Arg)
transfer_args chain confidential_transfer_from request signer decoded = all_args (
    to_address (chain.check_address (get_or signer.spender signer.key))
    ∷ to_address (chain.check_address request.from_account)
    ∷ to_address (chain.check_address request.to_account)
    ∷ ok (bytes decoded)
    ∷ [])
transfer_args chain confidential_transfer request signer decoded = all_args (
    to_address (chain.check_address request.from_account)
    ∷ to_address (chain.check_address request.to_account)
    ∷ ok (bytes decoded)
    ∷ [])

-- `method === "confidential_transfer" && input.request.mergeBeforeTransfer ? await … : null`
abbrev only_direct : TransferMethod → Bool → Bool
only_direct confidential_transfer merge = merge
only_direct confidential_transfer_from merge = false

abbrev merge_if : Chain → Bool → String → String → SubmitRequest → Action (Option Tx)
merge_if chain false key token request = pure none
merge_if chain true key token request = do
  account ← address_arg chain request.from_account
  tx ← call_contract chain (keypair_call key token "merge" (account ∷ []))
  pure (some tx)

-- The two fields of the merge, which stand before what the network reports.
abbrev merge_fields : Option Tx → Fields
merge_fields none = end
merge_fields (some tx) =
    field "mergeTxHash" (str tx.hash) (field "mergeLedger" (num (decimal tx.ledger)) end)

abbrev pub submitted_evidence : SubmitInput → TransferMethod → String → Signer → Tx → EvidenceInput
submitted_evidence input method token signer tx = record {
  anchor_transaction_id = input.anchor_transaction_id;
  position_id = input.position_id;
  direction = input.direction;
  transfer_commitment = input.transfer_commitment;
  token_contract_id = token;
  method = method;
  signer = signer.key;
  spender = signer.spender;
  from_account = input.request.from_account;
  to_account = input.request.to_account;
  data_xdr_base64 = input.request.data_xdr_base64;
  tx_hash = tx.hash;
  ledger = some tx.ledger;
  auditor_payload = input.request.auditor_payload;
  event_payload = input.request.event_payload;
}

-- The row, whose event payload has the fields of the merge as well.
abbrev pub submitted_row :
    Platform → String → ℕ → EvidenceInput → Option Tx → String → TransferEvidence
submitted_row platform fresh now evidence merge_tx sha256 =
    record (evidence_row platform fresh now evidence sha256) {
      event_payload = obj (
          spread_event platform evidence
            (spread (base_fields evidence sha256) (merge_fields merge_tx)));
    }

unfoldable pub submit_and_record_confidential_transfer :
    Chain → Platform → AppConfig → String → ℕ → SubmitInput → Action TransferResult
unfolding resolve_signer transfer_args
submit_and_record_confidential_transfer chain platform config fresh now input = do
  let method = get_or input.request.method confidential_transfer_from
  token ←
      require (or_else input.request.token_contract_id config.contracts.confidential_cusdc)
        (error "CONFIDENTIAL_CUSDC_CONTRACT_ID is not configured")
  throw_if (token == "") (error "CONFIDENTIAL_CUSDC_CONTRACT_ID is not configured")
  signer ← resolve_signer chain config method input.request
  decoded ← lift (decode_data_xdr platform input.request.data_xdr_base64)
  let sha256 = platform.sha256_hex decoded
  args ← lift (transfer_args chain method input.request signer decoded)
  merge_tx ←
      merge_if chain (only_direct method input.request.merge_before_transfer) signer.key token
        input.request
  tx ← call_contract chain (keypair_call signer.key token (method_text method) args)
  let evidence = submitted_evidence input method token signer tx
  write (insert_evidence (submitted_row platform fresh now evidence merge_tx sha256))
  pure (transfer_result evidence sha256)
