-- ===== src/DemoFlow/Records.antt =====
-- backend/src/services/demo-flow.ts, `DemoFlowSnapshot`: the state of the demo flow.
use nyxfinance.Common.{ℕ, Bool, String, Option, none}
use nyxfinance.Db.{Quote}

pub record ProofRef : Type 0 where
  pub job_id : String
  pub status : String
  pub public_inputs_hex : Option String
  pub proof_hex : Option String
  pub verifier_contract_id : Option String

pub record OpenRef : Type 0 where
  pub tx_hash : String
  pub ledger : Option ℕ

pub record DrawRef : Type 0 where
  pub tx_hash : String
  pub ledger : Option ℕ
  pub confidential_transfer_tx_hash : Option String
  pub transfer_commitment : String

pub record RepayRef : Type 0 where
  pub tx_hash : String
  pub ledger : Option ℕ
  pub repayment_commitment : String
  pub confidential_transfer_tx_hash : Option String

pub record HistoryRef : Type 0 where
  pub job_id : String
  pub status : String
  pub verified : Bool
  pub tx_hash : String
  pub ledger : Option ℕ
  pub proof_nullifier : String
  pub history_root : String
  pub threshold : ℕ
  pub on_time_count : ℕ
  pub leaf_count : ℕ
  pub public_inputs_hex : String
  pub verifier_contract_id : Option String

-- `DemoFlowSnapshot`
pub record DemoState : Type 0 where
  pub profile_id : Option String
  pub anchor_transaction_id : Option String
  pub position_id : Option String
  pub quote : Option Quote
  pub proof : Option ProofRef
  pub opened : Option OpenRef
  pub drawn : Option DrawRef
  pub repaid : Option RepayRef
  pub history_proof : Option HistoryRef
  pub updated_at : ℕ

unfoldable pub blank_state : ℕ → DemoState
blank_state now = record {
  profile_id = none;
  anchor_transaction_id = none;
  position_id = none;
  quote = none;
  proof = none;
  opened = none;
  drawn = none;
  repaid = none;
  history_proof = none;
  updated_at = now;
}
