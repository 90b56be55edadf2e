-- ===== src/DemoFlow/History.antt =====
-- backend/src/services/demo-flow.ts, `proveDemoRepaymentHistory`: the leaves, the root and the proof of the
-- repayment history of the position that was repaid.
use nyxfinance.Common.{
  ℕ, suc, String, Bool, true, false, not, Option, none, some, List, [], ◌∷◌, if◌then◌else◌, or_else,
  get_or, length, select, ◌<>◌, decimal,
}
use nyxfinance.Json.{Json, num, str, Fields, end, field, obj}
use nyxfinance.Result.{Fault, Result, ok, err, error}
use nyxfinance.Db.{ProofJob}
use nyxfinance.Db.Anchor.{given}
use nyxfinance.Config.{AppConfig}
use nyxfinance.World.{Tx, Action, pure, lift, gets, require, throw_if, ◌>>=◌, ◌>>◌}
use nyxfinance.ProofJobs.{create_repayment_history_job}
use nyxfinance.Repayments.{
  LeafInput, seed_repayment_leaf, set_repayment_history_root, verify_repayment_history,
}
use nyxfinance.DemoFlow.State.{DemoState, HistoryRef, get_stored_state, put_stored_state}
use nyxfinance.DemoFlow.Profile.{normalize_profile_id}
use nyxfinance.DemoFlow.Jobs.{status_text, run_target_proof_job}
use nyxfinance.DemoFlow.Fixtures.{HistoryFixture, FixtureLeaf, create_repayment_history_fixture}
use nyxfinance.DemoFlow.Setting.{Setting, on_db, changing_db}
use nyxfinance.DemoFlow.Opening.{result_text, is_text}
use nyxfinance.DemoFlow.Drawing.{no_position}

pub record HistoryInput : Type 0 where
  pub position_id : Option String
  pub profile : Option String

-- The values that the step draws at random, an id for the row of each leaf among them.
pub record HistoryFresh : Type 0 where
  pub proof_secret : String
  pub job_id : String
  pub leaf_id : ℕ → String

abbrev pub leaf_input : String → FixtureLeaf → LeafInput
leaf_input position_id leaf = record {
  position_id = position_id;
  leaf_nullifier = leaf.leaf_nullifier;
  repayment_commitment = leaf.repayment_commitment;
  paid_ledger = leaf.paid_ledger;
  due_ledger = leaf.due_ledger;
}

-- `for (const leaf of fixture.leaves) { … }` from the leaf of a number on
unfoldable pub seed_leaves :
    Setting → HistoryFresh → ℕ → String → ℕ → List FixtureLeaf → Action (List Tx)
seed_leaves s fresh now position_id i [] = pure []
seed_leaves s fresh now position_id i (leaf ∷ leaves) = do
  tx ← seed_repayment_leaf s.chain s.config (fresh.leaf_id i) now (leaf_input position_id leaf)
  txs ← seed_leaves s fresh now position_id (suc i) leaves
  pure (tx ∷ txs)

abbrev leaf_fields : String → FixtureLeaf → Fields → Fields
leaf_fields n leaf rest = field ("repaymentAmount" <> n) (str leaf.repayment_amount) (
    field ("paidLedger" <> n) (num (decimal leaf.paid_ledger)) (
      field ("dueLedger" <> n) (num (decimal leaf.due_ledger))
        (field ("leafSecret" <> n) (str leaf.leaf_secret) rest)))

-- The payload of `createRepaymentHistoryJob`.
unfoldable pub history_payload : HistoryFixture → FixtureLeaf → FixtureLeaf → FixtureLeaf → Json
history_payload fixture leaf0 leaf1 leaf2 = obj (
    field "positionId" (str fixture.position_id) (
      leaf_fields "0" leaf0 (
        leaf_fields "1" leaf1 (
          leaf_fields "2" leaf2 (
            field "proofSecret" (str fixture.proof_secret) (
              field "historyRoot" (str fixture.history_root) (
                field "threshold" (num (decimal fixture.threshold))
                  (field "proofNullifier" (str fixture.proof_nullifier) end))))))))

abbrev pub three_leaves : List FixtureLeaf → Result (FixtureLeaf × FixtureLeaf × FixtureLeaf)
three_leaves (a ∷ b ∷ c ∷ rest) = ok (a, b, c)
three_leaves _ = err (error "repayment history fixture must contain three leaves")

-- `leaves.filter((leaf) => leaf.onTime).length`
abbrev pub on_time_count : List FixtureLeaf → ℕ
on_time_count leaves = length (select (λ leaf. leaf.on_time) leaves)

unfoldable pub history_ref : AppConfig → HistoryFixture → ProofJob → String → Tx → HistoryRef
history_ref config fixture proof public_inputs verified_by = record {
  job_id = proof.id;
  status = status_text proof.status;
  verified = true;
  tx_hash = verified_by.hash;
  ledger = some verified_by.ledger;
  proof_nullifier = fixture.hex.proof_nullifier;
  history_root = fixture.hex.history_root;
  threshold = fixture.threshold;
  on_time_count = on_time_count fixture.leaves;
  leaf_count = length fixture.leaves;
  public_inputs_hex = public_inputs;
  verifier_contract_id = config.contracts.repayment_history_verifier;
}

-- The reply without `fixture`, `rootTx` and `verifyTx`, which repeat counts of the proof and the answers of two calls.
pub record HistoryResult : Type 0 where
  pub state : DemoState
  pub history_proof : HistoryRef
  pub already_verified : Bool
  pub seed_leaf_txs : List Tx

-- The leaves, the root and the job that proves them.
unfoldable pub prove_leaves :
    Setting → HistoryFresh → ℕ → String → HistoryFixture → Action (List Tx × ProofJob)
unfolding seed_leaves
prove_leaves s fresh now position_id fixture = do
  leaves ← lift (three_leaves fixture.leaves)
  txs ← seed_leaves s fresh now position_id 0 fixture.leaves
  root ← set_repayment_history_root s.chain s.config position_id
  job ← changing_db (
      create_repayment_history_job fresh.job_id now
        (history_payload fixture (leaves.0) (leaves.1) (leaves.2)))
  proof ← on_db (run_target_proof_job s.prover s.clock job.id)
  pure (txs, proof)

-- The proof on the chain, and the state that is stored. A result without a text `proofHex` is not modelled: the
-- prover always writes one.
unfoldable pub verify_and_store :
    Setting
    → ℕ
    → DemoState
    → String
    → String
    → HistoryFixture
    → List Tx
    → ProofJob
    → Action HistoryResult
verify_and_store s now current profile_id position_id fixture txs proof = do
  result ← require proof.result (error "repayment history proof job succeeded without result")
  throw_if (not (is_text fixture.public_inputs_hex (result_text "publicInputsHex" result)))
      (error "repayment history proof public inputs do not match fixture")
  tx ← verify_repayment_history s.chain s.config (record {
    position_id = position_id;
    threshold = fixture.threshold;
    proof_nullifier = fixture.hex.proof_nullifier;
    public_inputs_hex = fixture.public_inputs_hex;
    proof_hex = get_or (result_text "proofHex" result) "";
  })
  let ref = history_ref s.config fixture proof fixture.public_inputs_hex tx
  state ← put_stored_state now (record current {
    profile_id = some profile_id;
    position_id = some position_id;
    history_proof = some ref;
  })
  pure
      (record { state = state; history_proof = ref; already_verified = false; seed_leaf_txs = txs })

unfoldable pub prove_history :
    Setting → HistoryFresh → ℕ → DemoState → String → String → Action HistoryResult
unfolding prove_leaves verify_and_store
prove_history s fresh now current profile_id position_id = do
  fixture ← lift (create_repayment_history_fixture s.runner fresh.proof_secret position_id)
  proved ← prove_leaves s fresh now position_id fixture
  verify_and_store s now current profile_id position_id fixture (proved.0) (proved.1)

-- `if (current.historyProof?.verified) return …`
abbrev pub unless_verified :
    DemoState → Option HistoryRef → Action HistoryResult → Action HistoryResult
unless_verified current none rest = rest
unless_verified current (some ref) rest =
    if ref.verified
    then pure (record {
      state = current;
      history_proof = ref;
      already_verified = true;
      seed_leaf_txs = [];
    })
    else rest

abbrev pub no_repayment : Fault
no_repayment = error "No repaid demo position found. Run /api/demo-flow/repay first."

unfoldable pub prove_demo_repayment_history :
    Setting → HistoryFresh → ℕ → HistoryInput → Action HistoryResult
unfolding prove_history
prove_demo_repayment_history s fresh now input = do
  current ← gets (get_stored_state now)
  let profile_id = normalize_profile_id s.env (or_else input.profile current.profile_id)
  position_id ← require (given (or_else input.position_id current.position_id)) no_position
  repaid ← require current.repaid no_repayment
  unless_verified current current.history_proof
      (prove_history s fresh now current profile_id position_id)
