-- ===== src/Examples/Flow.antt =====
-- The theorems on the guided run at a concrete environment, runner and prover.
use Prim.Native.String.{len}
use nyxfinance.Common.{
  String, ◌≡◌, refl, true, false, none, some, [], ◌∷◌, ◌==◌, arith, All, decimal,
}
use nyxfinance.Json.{end, obj}
use nyxfinance.Result.{ok, err, error}
use nyxfinance.Db.{Quote, ProofJob}
use nyxfinance.Db.Snapshots.{get_snapshot}
use nyxfinance.Sql.{find}
use nyxfinance.Db.Jobs.{get_proof_job}
use nyxfinance.ProofJobs.{queued_job}
use nyxfinance.Examples.{test_config, test_chain, test_world, test_db}
use nyxfinance.Examples.Credit.{bytes_text, test_platform, test_number}
use nyxfinance.Examples.Jobs.{test_prover, jobs}
use nyxfinance.DemoFlow.State.{DemoState, blank_state, get_stored_state, stored_state, snapshot_key}
use nyxfinance.DemoFlow.State.Laws.{get-stored_state}
use nyxfinance.DemoFlow.Fixtures.{
  CollateralFixture, CollateralHex, HistoryFixture, FixtureLeaf, public_inputs_from_fixture, joined,
}
use nyxfinance.DemoFlow.Setting.{Setting}
use nyxfinance.DemoFlow.Jobs.{run_target_proof_job}
use nyxfinance.DemoFlow.Jobs.Laws.{Finished, run_target_proof_job-Finished}
use nyxfinance.DemoFlow.Opening.{OpenFresh, OpenDemoInput, open_demo_credit, open_input}
use nyxfinance.DemoFlow.Drawing.{StepInput, StepContext, draw_input, draw_demo_credit}
use nyxfinance.DemoFlow.Repaying.{repay_demo_credit}
use nyxfinance.DemoFlow.History.{HistoryInput, HistoryFresh, prove_demo_repayment_history}
use nyxfinance.DemoFlow.Laws.{Tracks}
use nyxfinance.DemoFlow.Laws.Proofs.{steps-Tracks}
use nyxfinance.DemoFlow.Commitments.{draw-open_commitments}

abbrev pub test_hex : CollateralHex
test_hex = record {
  collateral_commitment_x = bytes_text;
  collateral_commitment_y = bytes_text;
  y_x = bytes_text;
  y_y = bytes_text;
  credit_commitment_x = bytes_text;
  credit_commitment_y = bytes_text;
  oracle_price_e7 = bytes_text;
  haircut_bps = bytes_text;
  tenor_days = bytes_text;
  lock_key = bytes_text;
  position_nullifier = bytes_text;
}

abbrev pub test_fixture : CollateralFixture
test_fixture = record {
  sk = "7";
  collateral_amount = "100";
  collateral_randomness = "11";
  credit_amount = "80";
  credit_randomness = "12";
  position_secret = "13";
  collateral_commitment_x = "1";
  collateral_commitment_y = "2";
  y_x = "3";
  y_y = "4";
  credit_commitment_x = "5";
  credit_commitment_y = "6";
  oracle_price_e7 = "10000000";
  haircut_bps = 500;
  tenor_days = 3;
  lock_key = "8";
  position_nullifier = "9";
  hex = test_hex;
}

abbrev pub test_leaf : FixtureLeaf
test_leaf = record {
  repayment_amount = "10";
  paid_ledger = 5;
  due_ledger = 6;
  leaf_secret = "1";
  leaf_nullifier = bytes_text;
  repayment_commitment = bytes_text;
  on_time = true;
}

abbrev pub test_history : HistoryFixture
test_history = record {
  position_id = bytes_text;
  proof_secret = "2";
  threshold = 2;
  history_root = bytes_text;
  proof_nullifier = bytes_text;
  public_inputs_hex = "c0de";
  leaves = test_leaf ∷ test_leaf ∷ test_leaf ∷ [];
  hex = record {
    position_id = bytes_text;
    history_root = bytes_text;
    threshold = "2";
    proof_nullifier = bytes_text;
  };
}

abbrev pub test_setting : Setting
test_setting = record {
  config = test_config;
  env = λ name. some "AAAA";
  chain = test_chain;
  platform = test_platform;
  prover = record {
    collateral_sufficiency = λ job. err (error "nargo failed");
    repayment_history =
        λ job. ok (record { proof_hex = "aa"; public_inputs_hex = "c0de"; artifacts_dir = "" });
  };
  runner = record {
    spawn = λ args. record { status = some 0; stdout = "{}"; stderr = "" };
    parse_collateral = λ text. ok test_fixture;
    parse_history = λ text. ok test_history;
  };
  parse_json = λ text. ok end;
  big_int = test_number;
  clock = λ n. 50;
}

abbrev pub repaid_demo : DemoState
repaid_demo = record (blank_state 1) {
  profile_id = some "alpha";
  position_id = some bytes_text;
  repaid = some (record {
    tx_hash = "repay";
    ledger = some 7;
    repayment_commitment = bytes_text;
    confidential_transfer_tx_hash = none;
  });
}

get-stored_state_example :
    (get_stored_state 9 (stored_state 5 repaid_demo test_db)
      ≡ record repaid_demo { updated_at = 5 })
    × ((key : String)
        → (snapshot_key == key) ≡ false
        → get_snapshot key (stored_state 5 repaid_demo test_db) ≡ get_snapshot key test_db)
    × (record (stored_state 5 repaid_demo test_db) { snapshots = test_db.snapshots } ≡ test_db)
get-stored_state_example = get-stored_state 5 9 repaid_demo test_db

abbrev pub first_job : (job : ProofJob) × (get_proof_job "proof_2" jobs ≡ some job)
unfolding get_proof_job find
first_job = (queued_job "proof_2" 20 "repayment_history" (obj end), refl)

run_target_proof_job-Finished_example :
    Finished "proof_2" (run_target_proof_job test_prover (λ n. 50) "proof_2" jobs)
run_target_proof_job-Finished_example =
    run_target_proof_job-Finished test_prover (λ n. 50) "proof_2" jobs first_job (refl, (refl, tt))
      (refl, (refl, tt)) (omega arith)

abbrev pub test_quote : Quote
test_quote = record {
  id = "quote_1";
  account = "GANCHOR";
  anchor_transaction_id = none;
  collateral_token = "CTOKEN";
  requested_credit_amount = "100";
  tenor_days = 3;
  oracle_price_e7 = "10000000";
  oracle_updated_ledger = none;
  haircut_bps = 500;
  max_tenor_days = 5;
  fee_bps = 25;
  fee_amount = 1;
  expires_at = 9;
}

test_fixture_lengths : All (λ t. len t ≡ 64) (public_inputs_from_fixture test_fixture)
unfolding public_inputs_from_fixture
test_fixture_lengths =
    (refl, (refl, (refl, (refl, (refl, (refl, (refl, (refl, (refl, (refl, (refl, tt)))))))))))

abbrev pub open_fresh : OpenFresh
open_fresh = record {
  position_id = bytes_text;
  lock_key = bytes_text;
  position_secret = "13";
  job_id = "proof_3";
}

abbrev pub history_fresh : HistoryFresh
history_fresh = record { proof_secret = "2"; job_id = "proof_4"; leaf_id = λ n. decimal n }

abbrev pub open_demo : OpenDemoInput
open_demo = record { quote_id = none; anchor_transaction_id = none; profile = none }

abbrev pub step : StepInput
step = record { anchor_transaction_id = none; position_id = none; profile = none }

abbrev pub history : HistoryInput
history = record { position_id = none; profile = none }

steps-Tracks_example :
    Tracks
      (λ r. r.state)
      9
      test_world
      (open_demo_credit test_setting open_fresh 9 open_demo test_world)
    × Tracks (λ r. r.state) 9 test_world (draw_demo_credit test_setting "ctf_1" 9 step test_world)
    × Tracks (λ r. r.state) 9 test_world (repay_demo_credit test_setting "ctf_2" 9 step test_world)
    × Tracks
        (λ r. r.state)
        9
        test_world
        (prove_demo_repayment_history test_setting history_fresh 9 history test_world)
steps-Tracks_example =
    steps-Tracks test_setting 9 test_world open_fresh "ctf_1" "ctf_2" history_fresh open_demo step
      step history

abbrev pub test_context : StepContext
test_context = record {
  profile = record {
    id = "alpha";
    account = "GANCHOR";
    signer_secret_key = some "GANCHOR";
    confidential_sk = none;
    collateral_amount = none;
    collateral_randomness = none;
    organization_name = "Alpha Remit";
    email_address = "ops@alpha-remit.example";
    draw_transfer_data_xdr_base64 = "AAAA";
    draw_auditor_payload = none;
    repayment_transfer_data_xdr_base64 = "AAAA";
    repayment_auditor_payload = none;
  };
  anchor_transaction_id = none;
  position_id = bytes_text;
  quote = test_quote;
  facility = "GFACILITY";
}

draw-open_commitments_example :
    ((draw_input test_setting test_context
        (joined (public_inputs_from_fixture test_fixture))
        "GEXECUTOR").transfer_commitment_x
      ≡ (open_input open_fresh test_quote none test_fixture "GANCHOR"
          (joined (public_inputs_from_fixture test_fixture))
          "aa").credit_commitment_x)
    × ((draw_input test_setting test_context
          (joined (public_inputs_from_fixture test_fixture))
          "GEXECUTOR").transfer_commitment_y
        ≡ (open_input open_fresh test_quote none test_fixture "GANCHOR"
            (joined (public_inputs_from_fixture test_fixture))
            "aa").credit_commitment_y)
draw-open_commitments_example =
    draw-open_commitments test_setting open_fresh test_quote test_fixture none "GANCHOR" "GEXECUTOR"
      "aa" test_context test_fixture_lengths
