-- ===== src/Repayments.antt =====
-- backend/src/services/repayment-history.ts: the leaves of a position's repayment history.
pub mod Laws
use nyxfinance.Common.{ℕ, some, String, List, [], ◌∷◌, ◌++◌, leb}
use nyxfinance.Result.{Result, ok, error}
use nyxfinance.Db.{RepaymentLeaf}
use nyxfinance.Db.Anchor.{given}
use nyxfinance.Db.Disclosures.{insert_repayment_leaf}
use nyxfinance.Config.{AppConfig}
use nyxfinance.World.{Arg, u32, Tx, Chain, Action, pure, lift, modify, require, ◌>>=◌, ◌>>◌}
use nyxfinance.PolicySync.{operator_keypair, submit_operator_contract_call}
use nyxfinance.Hex.{normalize_hex, bytes_arg, bytes32_arg}
use nyxfinance.CreditLine.{to_address, all_args}

-- The contract is looked up after the caller has built the arguments.
unfoldable pub submit_repayment_call : Chain → AppConfig → String → List Arg → Action Tx
submit_repayment_call chain config method args = do
  contract_id ←
      require (given config.contracts.repayment_history)
        (error "REPAYMENT_HISTORY_CONTRACT_ID is not configured")
  submit_operator_contract_call chain config contract_id method args

pub record LeafInput : Type 0 where
  pub position_id : String
  pub leaf_nullifier : String
  pub repayment_commitment : String
  pub paid_ledger : ℕ
  pub due_ledger : ℕ

-- The operator's address is the last argument, so that its key is read after the others.
unfoldable pub leaf_args : LeafInput → Result (List Arg)
leaf_args input = all_args (
    bytes32_arg input.position_id "positionId"
    ∷ bytes32_arg input.leaf_nullifier "leafNullifier"
    ∷ bytes32_arg input.repayment_commitment "repaymentCommitment"
    ∷ ok (u32 input.paid_ledger)
    ∷ ok (u32 input.due_ledger)
    ∷ [])

-- `addressArg(getOperator(config).publicKey())` after the arguments before it
unfoldable pub operator_last : Chain → AppConfig → Result (List Arg) → Action (List Arg)
operator_last chain config before = do
  args ← lift before
  operator ← operator_keypair chain config
  last_arg ← lift (to_address (chain.check_address operator))
  pure (args ++ last_arg ∷ [])

-- `newId("leaf")` is `fresh`.
abbrev pub leaf_row : String → ℕ → LeafInput → String → String → String → Tx → RepaymentLeaf
leaf_row fresh now input position nullifier commitment tx = record {
  id = fresh;
  position_id = position;
  leaf_nullifier = nullifier;
  repayment_commitment = commitment;
  paid_ledger = input.paid_ledger;
  due_ledger = input.due_ledger;
  on_time = leb input.paid_ledger input.due_ledger;
  tx_hash = some tx.hash;
  created_at = now;
}

unfoldable pub seed_repayment_leaf : Chain → AppConfig → String → ℕ → LeafInput → Action Tx
seed_repayment_leaf chain config fresh now input = do
  args ← operator_last chain config (leaf_args input)
  tx ← submit_repayment_call chain config "seed_leaf" args
  position ← lift (normalize_hex input.position_id "positionId")
  nullifier ← lift (normalize_hex input.leaf_nullifier "leafNullifier")
  commitment ← lift (normalize_hex input.repayment_commitment "repaymentCommitment")
  modify (insert_repayment_leaf (leaf_row fresh now input position nullifier commitment tx))
  pure tx

unfoldable pub set_repayment_history_root : Chain → AppConfig → String → Action Tx
set_repayment_history_root chain config position_id = do
  args ← operator_last chain config (all_args (bytes32_arg position_id "positionId" ∷ []))
  submit_repayment_call chain config "finalize_history_root" args

pub record HistoryProof : Type 0 where
  pub position_id : String
  pub threshold : ℕ
  pub proof_nullifier : String
  pub public_inputs_hex : String
  pub proof_hex : String

unfoldable pub verify_repayment_history : Chain → AppConfig → HistoryProof → Action Tx
verify_repayment_history chain config input = do
  args ← operator_last chain config (
      all_args (
        bytes32_arg input.position_id "positionId"
        ∷ ok (u32 input.threshold)
        ∷ bytes32_arg input.proof_nullifier "proofNullifier"
        ∷ bytes_arg input.public_inputs_hex "publicInputsHex"
        ∷ bytes_arg input.proof_hex "proofHex"
        ∷ []))
  submit_repayment_call chain config "verify_history" args
