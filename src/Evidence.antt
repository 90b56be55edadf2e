-- ===== src/Evidence.antt =====
-- backend/src/services/confidential-token-transfer.ts: the record of a confidential transfer that
-- another transaction carried.
pub mod Laws
use Prim.Native.String
use nyxfinance.Common.{
  ℕ, code, Option, none, some, String, [], ◌∷◌, ◌==◌, eqb, if◌then◌else◌, get_or, is_some, decimal,
}
use nyxfinance.Json.{Json, num, str, obj, Fields, end, field, spread, of_option}
use nyxfinance.Result.{Result, ok, err, error, message}
use nyxfinance.Db.{
  TransferEvidence, Direction, TransferMethod, confidential_transfer, confidential_transfer_from,
}
use nyxfinance.Db.Evidence.{insert_evidence}
use nyxfinance.World.{Action, pure, lift, write, ◌>>=◌, ◌>>◌}

-- Node's `Buffer.from(text, "base64")` and `createHash("sha256")`, the bytes and the digest in
-- hexadecimal; and `fetchEmittedConfidentialEventPayload`, what the network reports of a transfer by the
-- token contract, the hash, the ledger and the name of the event.
pub record Platform : Type 0 where
  pub from_base64 : String → String
  pub sha256_hex : String → String
  pub emitted : String → String → Option ℕ → String → Result (Option Fields)

-- `value.replace(/-/g, "+").replace(/_/g, "/")`
unfoldable pub standard_base64 : String → String
standard_base64 String.[] = ""
standard_base64 (String.◌∷◌ c s) =
    String.◌∷◌ (if eqb (code c) b'-' then "+" else (if eqb (code c) b'_' then "/" else c))
      (standard_base64 s)

abbrev pub not_empty : String → Result String
not_empty decoded =
    if decoded == "" then err (error "confidential transfer dataXdrBase64 is empty") else ok decoded

unfoldable pub decode_data_xdr : Platform → String → Result String
decode_data_xdr platform value = not_empty (platform.from_base64 (standard_base64 value))

abbrev pub method_text : TransferMethod → String
method_text confidential_transfer = "confidential_transfer"
method_text confidential_transfer_from = "confidential_transfer_from"

-- `input.method === "confidential_transfer_from" ? "spender_transfer" : "transfer"`
abbrev pub emitted_event : TransferMethod → String
emitted_event confidential_transfer = "transfer"
emitted_event confidential_transfer_from = "spender_transfer"

pub record EvidenceInput : Type 0 where
  pub anchor_transaction_id : Option String
  pub position_id : String
  pub direction : Direction
  pub transfer_commitment : Option String
  pub token_contract_id : String
  pub method : TransferMethod
  pub signer : String
  pub spender : Option String
  pub from_account : String
  pub to_account : String
  pub data_xdr_base64 : String
  pub tx_hash : String
  pub ledger : Option ℕ
  pub auditor_payload : Option Fields
  pub event_payload : Option Fields

-- A property that is `undefined` is not written to the JSON text.
abbrev ledger_field : Option ℕ → Fields → Fields
ledger_field none rest = rest
ledger_field (some n) rest = field "ledger" (num (decimal n)) rest

-- `.catch((error) => ({ emittedEventFetchError: … }))`, spread where it is not null
abbrev pub emitted_fields : Result (Option Fields) → Fields
emitted_fields (ok none) = end
emitted_fields (ok (some fields)) = fields
emitted_fields (err e) = field "emittedEventFetchError" (str (message e)) end

-- The object literal `eventPayload`, up to what is spread into it.
unfoldable pub base_fields : EvidenceInput → String → Fields
base_fields input sha256 = field "eventName" (str (emitted_event input.method)) (
    field "tokenContractId" (str input.token_contract_id) (
      field "method" (str (method_text input.method)) (
        field "txHash" (str input.tx_hash) (
          ledger_field input.ledger (
            field "from" (str input.from_account) (
              field "to" (str input.to_account) (
                field "spender" (of_option input.spender)
                  (field "dataXdrSha256" (str sha256) end))))))))

-- `...(emittedPayload ?? {}), ...(input.eventPayload ?? {})` over the properties before them
unfoldable pub spread_event : Platform → EvidenceInput → Fields → Fields
spread_event platform input before =
    spread
      (spread before (
        emitted_fields (
          platform.emitted input.token_contract_id input.tx_hash input.ledger
            (emitted_event input.method))))
      (get_or input.event_payload end)

unfoldable pub event_fields : Platform → EvidenceInput → String → Fields
unfolding base_fields spread_event
event_fields platform input sha256 = spread_event platform input (base_fields input sha256)

abbrev pub object_or_none : Option Fields → Option Json
object_or_none none = none
object_or_none (some fields) = some (obj fields)

-- `newId("ctf")` is `fresh`.
abbrev pub evidence_row : Platform → String → ℕ → EvidenceInput → String → TransferEvidence
evidence_row platform fresh now input sha256 = record {
  id = fresh;
  anchor_transaction_id = input.anchor_transaction_id;
  position_id = input.position_id;
  direction = input.direction;
  token_contract_id = input.token_contract_id;
  method = input.method;
  signer = input.signer;
  spender = input.spender;
  from_account = input.from_account;
  to_account = input.to_account;
  transfer_commitment = input.transfer_commitment;
  tx_hash = input.tx_hash;
  ledger = input.ledger;
  auditor_payload = object_or_none input.auditor_payload;
  event_payload = obj (event_fields platform input sha256);
  data_xdr_sha256 = sha256;
  data_xdr_base64 = some input.data_xdr_base64;
  created_at = now;
}

pub record TransferResult : Type 0 where
  pub token_contract_id : String
  pub method : TransferMethod
  pub signer : String
  pub spender : Option String
  pub from_account : String
  pub to_account : String
  pub tx_hash : String
  pub ledger : Option ℕ
  pub data_xdr_sha256 : String
  pub data_xdr_base64 : String
  pub auditor_payload_ref : String

abbrev pub transfer_result : EvidenceInput → String → TransferResult
transfer_result input sha256 = record {
  token_contract_id = input.token_contract_id;
  method = input.method;
  signer = input.signer;
  spender = input.spender;
  from_account = input.from_account;
  to_account = input.to_account;
  tx_hash = input.tx_hash;
  ledger = input.ledger;
  data_xdr_sha256 = sha256;
  data_xdr_base64 = input.data_xdr_base64;
  auditor_payload_ref = if is_some input.auditor_payload then "live_ciphertext" else "not_provided";
}

unfoldable pub record_confidential_transfer_evidence :
    Platform → String → ℕ → EvidenceInput → Action TransferResult
record_confidential_transfer_evidence platform fresh now input = do
  decoded ← lift (decode_data_xdr platform input.data_xdr_base64)
  let sha256 = platform.sha256_hex decoded
  write (insert_evidence (evidence_row platform fresh now input sha256))
  pure (transfer_result input sha256)
