-- ===== src/DemoFlow/State.antt =====
-- backend/src/services/demo-flow.ts: the state of the flow and its row in the table snapshots. A time is its
-- number of milliseconds, here written out as the text that the JSON holds.
pub mod Laws
use nyxfinance.Common.{
  ℕ, String, Bool, true, false, Option, none, some, get_or, decimal, read_digits,
}
use nyxfinance.Json.{
  Json, null, bool, num, str, obj, Fields, end, field, get, put, spread, of_option, truthy,
}
use nyxfinance.Db.{Db, Quote, Snapshot}
use nyxfinance.Db.Snapshots.{upsert_snapshot, get_snapshot}
use nyxfinance.World.{Action, gets, modify, pure, ◌>>=◌, ◌>>◌}
use nyxfinance.Sep31.{record_or_empty}
pub use nyxfinance.DemoFlow.Records.{ProofRef, OpenRef, DrawRef, RepayRef, HistoryRef, DemoState}
unfoldable pub use nyxfinance.DemoFlow.Records.{blank_state}

-- The JSON values of the parts.
abbrev number : ℕ → Json
number n = num (decimal n)

abbrev number_or_null : Option ℕ → Json
number_or_null none = null
number_or_null (some n) = number n

abbrev or_null : {A : Type 0} → (A → Fields) → Option A → Json
or_null write none = null
or_null write (some a) = obj (write a)

abbrev quote_fields : Quote → Fields
quote_fields q = field "id" (str q.id) (
    field "account" (str q.account) (
      field "anchorTransactionId" (of_option q.anchor_transaction_id) (
        field "collateralToken" (str q.collateral_token) (
          field "requestedCreditAmount" (str q.requested_credit_amount) (
            field "tenorDays" (number q.tenor_days) (
              field "participantApproved" (bool true) (
                field "oraclePriceE7" (str q.oracle_price_e7) (
                  field "oracleUpdatedLedger" (number_or_null q.oracle_updated_ledger) (
                    field "haircutBps" (number q.haircut_bps) (
                      field "maxTenorDays" (number q.max_tenor_days) (
                        field "feeBps" (number q.fee_bps) (
                          field "feeAmount" (str (decimal q.fee_amount)) (
                            field "expiresAt" (str (decimal q.expires_at))
                              (field "source" (str "chain") end))))))))))))))

abbrev proof_fields : ProofRef → Fields
proof_fields p = field "jobId" (str p.job_id) (
    field "status" (str p.status) (
      field "publicInputsHex" (of_option p.public_inputs_hex) (
        field "proofHex" (of_option p.proof_hex)
          (field "verifierContractId" (of_option p.verifier_contract_id) end))))

abbrev open_fields : OpenRef → Fields
open_fields o = field "txHash" (str o.tx_hash) (field "ledger" (number_or_null o.ledger) end)

abbrev draw_fields : DrawRef → Fields
draw_fields d = field "txHash" (str d.tx_hash) (
    field "ledger" (number_or_null d.ledger) (
      field "confidentialTransferTxHash" (of_option d.confidential_transfer_tx_hash)
        (field "transferCommitment" (str d.transfer_commitment) end)))

abbrev repay_fields : RepayRef → Fields
repay_fields r = field "txHash" (str r.tx_hash) (
    field "ledger" (number_or_null r.ledger) (
      field "repaymentCommitment" (str r.repayment_commitment)
        (field "confidentialTransferTxHash" (of_option r.confidential_transfer_tx_hash) end)))

abbrev history_fields : HistoryRef → Fields
history_fields h = field "jobId" (str h.job_id) (
    field "status" (str h.status) (
      field "verified" (bool h.verified) (
        field "txHash" (str h.tx_hash) (
          field "ledger" (number_or_null h.ledger) (
            field "proofNullifier" (str h.proof_nullifier) (
              field "historyRoot" (str h.history_root) (
                field "threshold" (number h.threshold) (
                  field "onTimeCount" (number h.on_time_count) (
                    field "leafCount" (number h.leaf_count) (
                      field "publicInputsHex" (str h.public_inputs_hex) (
                        field "verifierContractId" (of_option h.verifier_contract_id) end)))))))))))

-- The object that `JSON.stringify` writes.
unfoldable pub state_fields : DemoState → Fields
state_fields s = field "profileId" (of_option s.profile_id) (
    field "anchorTransactionId" (of_option s.anchor_transaction_id) (
      field "positionId" (of_option s.position_id) (
        field "quote" (or_null quote_fields s.quote) (
          field "proof" (or_null proof_fields s.proof) (
            field "open" (or_null open_fields s.opened) (
              field "draw" (or_null draw_fields s.drawn) (
                field "repay" (or_null repay_fields s.repaid) (
                  field "historyProof" (or_null history_fields s.history_proof)
                    (field "updatedAt" (str (decimal s.updated_at)) end)))))))))

-- The cast of a parsed value to the type of the state, with something where the JSON has another type.
abbrev pub text_or_null : Option Json → Option String
text_or_null (some (str t)) = some t
text_or_null _ = none

abbrev text_at : String → Fields → String
text_at k fs = get_or (text_or_null (get k fs)) ""

abbrev maybe_text_at : String → Fields → Option String
maybe_text_at k fs = text_or_null (get k fs)

abbrev read_number : Option Json → Option ℕ
read_number (some (num t)) = some (read_digits 0 t)
read_number _ = none

abbrev maybe_number_at : String → Fields → Option ℕ
maybe_number_at k fs = read_number (get k fs)

abbrev number_at : String → Fields → ℕ
number_at k fs = get_or (read_number (get k fs)) 0

abbrev read_or_null : {A : Type 0} → (Fields → A) → Option Json → Option A
read_or_null read (some (obj fs)) = some (read fs)
read_or_null read _ = none

abbrev truthy_at : String → Fields → Bool
truthy_at k fs = elim (get k fs) [ none ↦ false | some v ↦ truthy v ]

abbrev read_quote : Fields → Quote
read_quote fs = record {
  id = text_at "id" fs;
  account = text_at "account" fs;
  anchor_transaction_id = maybe_text_at "anchorTransactionId" fs;
  collateral_token = text_at "collateralToken" fs;
  requested_credit_amount = text_at "requestedCreditAmount" fs;
  tenor_days = number_at "tenorDays" fs;
  oracle_price_e7 = text_at "oraclePriceE7" fs;
  oracle_updated_ledger = maybe_number_at "oracleUpdatedLedger" fs;
  haircut_bps = number_at "haircutBps" fs;
  max_tenor_days = number_at "maxTenorDays" fs;
  fee_bps = number_at "feeBps" fs;
  fee_amount = read_digits 0 (text_at "feeAmount" fs);
  expires_at = read_digits 0 (text_at "expiresAt" fs);
}

abbrev read_proof : Fields → ProofRef
read_proof fs = record {
  job_id = text_at "jobId" fs;
  status = text_at "status" fs;
  public_inputs_hex = maybe_text_at "publicInputsHex" fs;
  proof_hex = maybe_text_at "proofHex" fs;
  verifier_contract_id = maybe_text_at "verifierContractId" fs;
}

abbrev read_open : Fields → OpenRef
read_open fs = record { tx_hash = text_at "txHash" fs; ledger = maybe_number_at "ledger" fs }

abbrev read_draw : Fields → DrawRef
read_draw fs = record {
  tx_hash = text_at "txHash" fs;
  ledger = maybe_number_at "ledger" fs;
  confidential_transfer_tx_hash = maybe_text_at "confidentialTransferTxHash" fs;
  transfer_commitment = text_at "transferCommitment" fs;
}

abbrev read_repay : Fields → RepayRef
read_repay fs = record {
  tx_hash = text_at "txHash" fs;
  ledger = maybe_number_at "ledger" fs;
  repayment_commitment = text_at "repaymentCommitment" fs;
  confidential_transfer_tx_hash = maybe_text_at "confidentialTransferTxHash" fs;
}

abbrev read_history : Fields → HistoryRef
read_history fs = record {
  job_id = text_at "jobId" fs;
  status = text_at "status" fs;
  verified = truthy_at "verified" fs;
  tx_hash = text_at "txHash" fs;
  ledger = maybe_number_at "ledger" fs;
  proof_nullifier = text_at "proofNullifier" fs;
  history_root = text_at "historyRoot" fs;
  threshold = number_at "threshold" fs;
  on_time_count = number_at "onTimeCount" fs;
  leaf_count = number_at "leafCount" fs;
  public_inputs_hex = text_at "publicInputsHex" fs;
  verifier_contract_id = maybe_text_at "verifierContractId" fs;
}

unfoldable pub read_state : Fields → DemoState
unfolding get
read_state fs = record {
  profile_id = maybe_text_at "profileId" fs;
  anchor_transaction_id = maybe_text_at "anchorTransactionId" fs;
  position_id = maybe_text_at "positionId" fs;
  quote = read_or_null read_quote (get "quote" fs);
  proof = read_or_null read_proof (get "proof" fs);
  opened = read_or_null read_open (get "open" fs);
  drawn = read_or_null read_draw (get "draw" fs);
  repaid = read_or_null read_repay (get "repay" fs);
  history_proof = read_or_null read_history (get "historyProof" fs);
  updated_at = read_digits 0 (text_at "updatedAt" fs);
}

abbrev pub snapshot_key : String
snapshot_key = "demo_flow_state"

-- `stored ? { ...blankState(), ...stored.payload } : blankState()`
abbrev pub restored : ℕ → Option Snapshot → DemoState
restored now none = blank_state now
restored now (some row) =
    read_state (spread (state_fields (blank_state now)) (record_or_empty (some row.payload)))

unfoldable pub get_stored_state : ℕ → Db → DemoState
unfolding blank_state state_fields read_state
get_stored_state now db = restored now (get_snapshot snapshot_key db)

unfoldable pub stored_state : ℕ → DemoState → Db → Db
stored_state now state db =
    upsert_snapshot snapshot_key (obj (state_fields (record state { updated_at = now }))) "live" now
      db

unfoldable pub put_stored_state : ℕ → DemoState → Action DemoState
unfolding stored_state
put_stored_state now state = do
  modify (stored_state now state)
  pure (record state { updated_at = now })
