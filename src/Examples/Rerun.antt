-- ===== src/Examples/Rerun.antt =====
-- The theorems on a second proof of the history and on a reset, at runs that are evaluated.
use nyxfinance.Common.{
  ◌≡◌, refl, false, none, some, [], to_lower, strip_slash, encode_uri_component, decimal,
  read_digits,
}
use nyxfinance.Result.{Result, ok, err}
use nyxfinance.Db.Snapshots.{get_snapshot}
use nyxfinance.Sep31.{map_row}
use nyxfinance.PolicySync.{not_synced}
use nyxfinance.Examples.{test_transaction}
use nyxfinance.World.{World}
use nyxfinance.Sql.{find}
use nyxfinance.Db.Jobs.{get_proof_job}
use nyxfinance.Examples.{test_config, test_db}
use nyxfinance.DemoFlow.State.{HistoryRef, blank_state, get_stored_state, stored_state}
use nyxfinance.DemoFlow.Jobs.{run_target_proof_job}
use nyxfinance.DemoFlow.Drawing.{draw_demo_credit}
use nyxfinance.DemoFlow.Repaying.{repay_demo_credit}
use nyxfinance.DemoFlow.History.{HistoryResult, prove_demo_repayment_history}
use nyxfinance.DemoFlow.Bootstrap.{BootstrapInput, BootstrapFresh, BootstrapResult, reset_demo_flow}
use nyxfinance.DemoFlow.Order.{Refused}
use nyxfinance.DemoFlow.Restart.{reset-starts_over}
use nyxfinance.DemoFlow.Verified.{known_result, prove-prove_demo}
use nyxfinance.Db.Snapshots.{upsert_snapshot}
use nyxfinance.Sql.{upsert_by, earliest, insert, insert_or_ignore, update_where}
use nyxfinance.Json.{spread, put, get}
use nyxfinance.DemoFlow.Fixtures.{create_repayment_history_fixture}
use nyxfinance.Repayments.{
  seed_repayment_leaf, operator_last, leaf_args, set_repayment_history_root, submit_repayment_call,
  verify_repayment_history,
}
use nyxfinance.Hex.{bytes32_arg, normalize_hex, strip_0x, all_hex, text_length, bytes_arg}
use nyxfinance.Common.{digits, drop_end, drop_start, lower, lower_in, trim}
use nyxfinance.Db.Disclosures.{insert_repayment_leaf}
use nyxfinance.Db.Jobs.{claim_next_proof_job, complete_proof_job, insert_proof_job, next_queued}
use nyxfinance.DemoFlow.History.{
  history_payload, history_ref, prove_history, prove_leaves, seed_leaves, verify_and_store,
}
use nyxfinance.DemoFlow.Jobs.{run_target_rounds}
use nyxfinance.DemoFlow.Profile.{normalize_profile_id}
use nyxfinance.DemoFlow.State.{put_stored_state, read_state, state_fields}
use nyxfinance.PolicySync.{operator_keypair, submit_operator_contract_call}
use nyxfinance.ProofJobs.{create_proof_job, process_next_proof_job, prove}
use nyxfinance.Result.{message}
use nyxfinance.World.{call_contract}
use nyxfinance.Examples.Flow.{test_setting, repaid_demo, history_fresh, step, history}
use nyxfinance.DemoFlow.Profile.{
  resolve_demo_profile, configured, demo_sep31_transaction_id, optional_profile_json_env,
  profile_env, profile_prefix, required_profile_env,
}
use nyxfinance.DemoFlow.Fixtures.{resolve_facility}
use nyxfinance.Sep31.{create_sep31_transaction, build_more_info_url, created_raw}
use nyxfinance.Db.Anchor.{
  upsert_anchor_transaction, get_anchor_transaction_by_id, upsert_customer_status,
}
use nyxfinance.AnchorPlatform.{text_of_first, sync_decided}
use nyxfinance.DemoFlow.Bootstrap.{demo_transaction, bootstrap_demo_flow, demo_customer}
use nyxfinance.Json.{to_text}
use nyxfinance.Sep12.{put_sep12_customer, to_internal_status, to_sep12_status}
use nyxfinance.Common.{replace_others, to_upper, upper, upper_in}
use nyxfinance.PolicySync.{set_participant, sync_participant_policy, sync_with}
use nyxfinance.Sql.{upsert}
use nyxfinance.Status.{
  customer_text, normalize_product_status, normalize_sep_status, parse_sep, product_text, sep_text,
}

abbrev repaid_world : World
repaid_world = record { db = stored_state 5 repaid_demo test_db; calls = [] }

abbrev proved_world : World
proved_world = (prove_demo_repayment_history test_setting history_fresh 9 history repaid_world).0

abbrev result_or : HistoryResult → Result HistoryResult → HistoryResult
result_or d (ok r) = r
result_or d (err e) = d

abbrev no_history : HistoryRef
no_history = record {
  job_id = "";
  status = "";
  verified = false;
  tx_hash = "";
  ledger = none;
  proof_nullifier = "";
  history_root = "";
  threshold = 0;
  on_time_count = 0;
  leaf_count = 0;
  public_inputs_hex = "";
  verifier_contract_id = none;
}

abbrev proved_result : HistoryResult
proved_result =
    result_or (known_result repaid_demo no_history)
      (prove_demo_repayment_history test_setting history_fresh 9 history repaid_world).1

proved_once :
    prove_demo_repayment_history test_setting history_fresh 9 history repaid_world
    ≡ (proved_world, ok proved_result)
unfolding prove_demo_repayment_history get_stored_state get_snapshot find stored_state decimal
    read_digits get_proof_job run_target_proof_job blank_state upsert_snapshot upsert_by earliest
    insert insert_or_ignore update_where spread get put create_repayment_history_fixture
    seed_repayment_leaf operator_last leaf_args set_repayment_history_root submit_repayment_call
    verify_repayment_history bytes32_arg normalize_hex strip_0x all_hex text_length bytes_arg
    to_lower digits drop_end drop_start lower lower_in trim insert_repayment_leaf
    claim_next_proof_job complete_proof_job insert_proof_job next_queued history_payload history_ref
    prove_history prove_leaves seed_leaves verify_and_store run_target_rounds normalize_profile_id
    put_stored_state read_state state_fields operator_keypair submit_operator_contract_call
    create_proof_job process_next_proof_job prove message call_contract
proved_once = refl

newly_proved : proved_result.already_verified ≡ false
unfolding prove_demo_repayment_history get_stored_state get_snapshot find stored_state decimal
    read_digits get_proof_job run_target_proof_job blank_state upsert_snapshot upsert_by earliest
    insert insert_or_ignore update_where spread get put create_repayment_history_fixture
    seed_repayment_leaf operator_last leaf_args set_repayment_history_root submit_repayment_call
    verify_repayment_history bytes32_arg normalize_hex strip_0x all_hex text_length bytes_arg
    to_lower digits drop_end drop_start lower lower_in trim insert_repayment_leaf
    claim_next_proof_job complete_proof_job insert_proof_job next_queued history_payload history_ref
    prove_history prove_leaves seed_leaves verify_and_store run_target_rounds normalize_profile_id
    put_stored_state read_state state_fields operator_keypair submit_operator_contract_call
    create_proof_job process_next_proof_job prove message call_contract
newly_proved = refl

prove-prove_demo_example :
    prove_demo_repayment_history test_setting history_fresh 12 history proved_world ≡ (
      proved_world,
      ok (known_result (get_stored_state 12 proved_world.db) proved_result.history_proof),
    )
prove-prove_demo_example =
    prove-prove_demo test_setting history_fresh history_fresh 9 12 history repaid_world proved_world
      proved_result proved_once newly_proved

abbrev reset_input : BootstrapInput
reset_input = record {
  profile = none;
  anchor_transaction_id = none;
  account = none;
  kyb_status = some "NEEDS_INFO";
}

abbrev reset_fresh : BootstrapFresh
reset_fresh = record { sep31_id = "sep31_9"; tx_id = "tx_9"; customer_id = "customer_9" }

abbrev reset_world : World
reset_world = (reset_demo_flow test_setting reset_fresh "20260101" 9 reset_input repaid_world).0

abbrev boot_or : BootstrapResult → Result BootstrapResult → BootstrapResult
boot_or d (ok r) = r
boot_or d (err e) = d

abbrev reset_default : BootstrapResult
reset_default = record {
  transaction = map_row test_config test_transaction;
  customer = record {
    id = "";
    account = "";
    status = "";
    type = "";
    participant_policy = not_synced "";
  };
  state = repaid_demo;
  profile_id = "";
  participant_policy_synced = false;
}

abbrev reset_result : BootstrapResult
reset_result =
    boot_or reset_default
      (reset_demo_flow test_setting reset_fresh "20260101" 9 reset_input repaid_world).1

reset_once :
    reset_demo_flow test_setting reset_fresh "20260101" 9 reset_input repaid_world
    ≡ (reset_world, ok reset_result)
unfolding reset_demo_flow resolve_demo_profile put_stored_state resolve_facility
    create_sep31_transaction upsert_anchor_transaction upsert_snapshot text_of_first get
    demo_transaction to_text to_lower trim get_anchor_transaction_by_id find put_sep12_customer
    sync_decided to_internal_status decimal digits read_digits drop_end drop_start lower lower_in
    replace_others strip_slash to_upper upper upper_in encode_uri_component upsert_customer_status
    get_snapshot bootstrap_demo_flow demo_customer configured demo_sep31_transaction_id
    normalize_profile_id optional_profile_json_env profile_env profile_prefix required_profile_env
    blank_state get_stored_state read_state state_fields stored_state put spread operator_keypair
    set_participant submit_operator_contract_call sync_participant_policy sync_with message
    to_sep12_status build_more_info_url created_raw map_row insert update_where upsert upsert_by
    customer_text normalize_product_status normalize_sep_status parse_sep product_text sep_text
    call_contract
reset_once = refl

reset-starts_over_example :
    Refused reset_world (draw_demo_credit test_setting "ctf_1" 12 step reset_world)
    × Refused reset_world (repay_demo_credit test_setting "ctf_2" 12 step reset_world)
    × Refused reset_world
        (prove_demo_repayment_history test_setting history_fresh 12 history reset_world)
reset-starts_over_example =
    reset-starts_over test_setting reset_fresh "20260101" 9 12 reset_input repaid_world reset_world
      reset_result "ctf_1" "ctf_2" history_fresh step step history reset_once refl
