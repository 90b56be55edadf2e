-- ===== src/DemoFlow/Opening.antt =====
-- backend/src/services/demo-flow.ts, `openDemoCredit`: a proof of collateral for a quote, and the position that it opens.
use nyxfinance.Common.{
  ℕ, String, Bool, false, not, ◌||◌, Option, none, some, List, ◌==◌, eqb, or_else, get_or, decimal,
  get_elem?,
}
use nyxfinance.Json.{Json, num, str, end, field, obj, get}
use nyxfinance.Result.{error}
use nyxfinance.Db.{Quote, ProofJob}
use nyxfinance.Config.{AppConfig}
use nyxfinance.World.{Tx, Action, pure, lift, gets, throw_if, require, ◌>>=◌, ◌>>◌}
use nyxfinance.Sep31.{record_or_empty}
use nyxfinance.ProofJobs.{create_collateral_sufficiency_job}
use nyxfinance.CreditLine.{OpenCreditInput, open_credit_line}
use nyxfinance.DemoFlow.State.{DemoState, get_stored_state, put_stored_state, text_or_null}
use nyxfinance.DemoFlow.Profile.{DemoAnchorProfile}
use nyxfinance.DemoFlow.Jobs.{status_text, run_target_proof_job}
use nyxfinance.DemoFlow.Fixtures.{
  CollateralFixture, create_collateral_fixture, public_inputs_from_fixture, joined, resolve_quote,
  resolve_anchor_transaction_id,
}
use nyxfinance.DemoFlow.Setting.{Setting, on_db, changing_db, profile_of}

pub record OpenDemoInput : Type 0 where
  pub quote_id : Option String
  pub anchor_transaction_id : Option String
  pub profile : Option String

-- The values that the step draws at random.
pub record OpenFresh : Type 0 where
  pub position_id : String
  pub lock_key : String
  pub position_secret : String
  pub job_id : String

-- The payload of `createCollateralSufficiencyJob`.
unfoldable pub collateral_payload : Quote → CollateralFixture → Json
collateral_payload quote fixture = obj (
    field "quoteId" (str quote.id) (
      field "sk" (str fixture.sk) (
        field "collateralAmount" (str fixture.collateral_amount) (
          field "collateralRandomness" (str fixture.collateral_randomness) (
            field "creditAmount" (str fixture.credit_amount) (
              field "creditRandomness" (str fixture.credit_randomness) (
                field "positionSecret" (str fixture.position_secret) (
                  field "collateralCommitmentX" (str fixture.collateral_commitment_x) (
                    field "collateralCommitmentY" (str fixture.collateral_commitment_y) (
                      field "yX" (str fixture.y_x) (
                        field "yY" (str fixture.y_y) (
                          field "creditCommitmentX" (str fixture.credit_commitment_x) (
                            field "creditCommitmentY" (str fixture.credit_commitment_y) (
                              field "oraclePriceE7" (str quote.oracle_price_e7) (
                                field "haircutBps" (num (decimal quote.haircut_bps)) (
                                  field "tenorDays" (num (decimal quote.tenor_days)) (
                                    field "lockKey" (str fixture.lock_key) (
                                      field "positionNullifier" (str fixture.position_nullifier)
                                        end))))))))))))))))))

-- The price, the haircut or the tenor of the quote is not that of the fixture.
abbrev pub differs : Quote → CollateralFixture → Bool
differs quote fixture =
    not (quote.oracle_price_e7 == fixture.oracle_price_e7)
    || not (eqb quote.haircut_bps fixture.haircut_bps)
    || not (eqb quote.tenor_days fixture.tenor_days)

-- `result.k` of a proof's result, a text
abbrev pub result_text : String → Json → Option String
result_text k result = text_or_null (get k (record_or_empty (some result)))

abbrev pub is_text : String → Option String → Bool
is_text t none = false
is_text t (some s) = s == t

-- `publicInputs[i] ?? …`
abbrev pub input_or : List String → ℕ → String → String
input_or inputs i fallback = get_or (get_elem? inputs i) fallback

unfoldable pub open_input :
    OpenFresh
    → Quote
    → Option String
    → CollateralFixture
    → String
    → String
    → String
    → OpenCreditInput
open_input fresh quote anchor_transaction_id fixture secret public_inputs_hex proof_hex =
    let inputs = public_inputs_from_fixture fixture in
    record {
      anchor_transaction_id = anchor_transaction_id;
      position_id = fresh.position_id;
      anchor = quote.account;
      anchor_secret_key = secret;
      collateral_token = some quote.collateral_token;
      lock_key = input_or inputs 9 fixture.hex.lock_key;
      credit_commitment_x = input_or inputs 4 fixture.hex.credit_commitment_x;
      credit_commitment_y = input_or inputs 5 fixture.hex.credit_commitment_y;
      oracle_price_e7 = quote.oracle_price_e7;
      haircut_bps = quote.haircut_bps;
      tenor_days = quote.tenor_days;
      position_nullifier = input_or inputs 10 fixture.hex.position_nullifier;
      public_inputs_hex = public_inputs_hex;
      proof_hex = proof_hex;
    }

-- The state that the step stores, over the one that it reads again.
unfoldable pub opened_state :
    AppConfig
    → OpenFresh
    → DemoAnchorProfile
    → Option String
    → Quote
    → ProofJob
    → Option String
    → Option String
    → Tx
    → DemoState
    → DemoState
opened_state config fresh profile anchor_transaction_id quote proof public_inputs proof_hex opened
      state =
    record state {
      profile_id = some profile.id;
      anchor_transaction_id = anchor_transaction_id;
      position_id = some fresh.position_id;
      quote = some quote;
      proof = some (record {
        job_id = proof.id;
        status = status_text proof.status;
        public_inputs_hex = public_inputs;
        proof_hex = proof_hex;
        verifier_contract_id = config.contracts.collateral_sufficiency_verifier;
      });
      opened = some (record { tx_hash = opened.hash; ledger = some opened.ledger });
      drawn = none;
      repaid = none;
      history_proof = none;
    }

pub record OpenDemoResult : Type 0 where
  pub state : DemoState
  pub proof_job : ProofJob
  pub open_tx : Tx

-- The proof, from the fixture to the job that succeeded.
unfoldable pub prove_collateral :
    Setting → OpenFresh → ℕ → Quote → CollateralFixture → Action ProofJob
prove_collateral s fresh now quote fixture = do
  throw_if (differs quote fixture) (error "quote does not match generated collateral proof fixture")
  job ←
      changing_db
        (create_collateral_sufficiency_job fresh.job_id now (collateral_payload quote fixture))
  on_db (run_target_proof_job s.prover s.clock job.id)

-- What follows the proof. A proof's result without a text `proofHex` is not modelled: the prover always
-- writes one.
unfoldable pub open_position :
    Setting
    → OpenFresh
    → ℕ
    → DemoAnchorProfile
    → Option String
    → Quote
    → CollateralFixture
    → ProofJob
    → Action OpenDemoResult
open_position s fresh now profile anchor_transaction_id quote fixture proof = do
  result ← require proof.result (error "proof job succeeded without result")
  let public_inputs = joined (public_inputs_from_fixture fixture)
  throw_if (not (is_text public_inputs (result_text "publicInputsHex" result)))
      (error "proof public inputs do not match generated credit-open payload")
  secret ←
      require profile.signer_secret_key
        (error "anchor signer secret is not configured for this profile (ANCHOR_SECRET_KEY)")
  opened ← open_credit_line s.chain s.config s.big_int now (
      open_input fresh quote anchor_transaction_id fixture secret public_inputs
        (get_or (result_text "proofHex" result) ""))
  current ← gets (get_stored_state now)
  state ← put_stored_state now (
      opened_state s.config fresh profile anchor_transaction_id quote proof (some public_inputs)
        (result_text "proofHex" result) opened current)
  pure (record { state = state; proof_job = proof; open_tx = opened })

unfoldable pub open_demo_credit : Setting → OpenFresh → ℕ → OpenDemoInput → Action OpenDemoResult
unfolding prove_collateral open_position
open_demo_credit s fresh now input = do
  found ← gets (resolve_quote input.quote_id)
  quote ← lift found
  current ← gets (get_stored_state now)
  profile ← lift (profile_of s (or_else input.profile current.profile_id) (some quote.account))
  anchor_transaction_id ← gets (resolve_anchor_transaction_id input.anchor_transaction_id quote)
  fixture ← lift (
      create_collateral_fixture s.runner fresh.lock_key fresh.position_secret quote.oracle_price_e7
        profile)
  proof ← prove_collateral s fresh now quote fixture
  open_position s fresh now profile anchor_transaction_id quote fixture proof
