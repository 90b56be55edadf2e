-- ===== src/Examples/Hosts.antt =====
-- The theorems on requests to decrypt and on the runs of the provers at concrete inputs.
use nyxfinance.Common.{true, read_digits, String, ◌≡◌, refl, none, some, List, [], ◌∷◌, map}
use nyxfinance.Json.{Json, null, str, num, obj, Fields, end, field, get, put, spread}
use nyxfinance.Result.{ok, error}
use nyxfinance.Db.{TransferEvidence, ProofJob, queued, draw, confidential_transfer, empty_db}
use nyxfinance.World.{World}
use nyxfinance.Examples.{test_config}
use nyxfinance.Emitted.{scalar, other, fetch_emitted_confidential_event_payload, find_event}
use nyxfinance.Sql.{find, update_where}
use nyxfinance.Db.Evidence.{get_evidence_by_id, update_evidence}
use nyxfinance.Hex.{all_hex, strip_0x}
use nyxfinance.DemoFlow.Profile.{configured}
use nyxfinance.Auditor.Reading.{parsed}
use nyxfinance.Auditor.{
  Auditor, merge_defined, merge_all, merge_into, as_record, find_string, inspect_transfer_data_xdr,
  run_runner_json, decrypt_auditor_payload, fallback_auditor_payload,
}
use nyxfinance.Auditor.Request.{
  decrypt_route, parse_decrypt_request, parse_fields, has_decrypt_salt, merged_payload,
}
use nyxfinance.Auditor.Laws.{Preserves, decrypt_route-Preserves}
use nyxfinance.Auditor.Merging.{winner, get-merge_defined}
use nyxfinance.Sep31.{record_or_empty}
use nyxfinance.ProofRoutes.{post_collateral, fits_all, fits, all_digits, collateral_schema}
use nyxfinance.ProofRoutes.Laws.{Accepted, post_collateral-Accepted}
use nyxfinance.ProverRun.{Host, run_circuit_proof, collateral_names}
use nyxfinance.ProverRun.Laws.{Ran, run_circuit_proof-Ran}

-- A runner that reads the transfer and decrypts it, and a network without events.
abbrev test_auditor : Auditor
test_auditor = record {
  env = λ name. none;
  source = record {
    get_events = λ ledger token. ok (some []);
    decode_sc_val = λ t. ok (scalar other);
  };
  spawn = λ args. record { status = some 0; stdout = "{}"; stderr = "" };
  parse_object = λ t. ok (
      field "kind" (str "confidential_transfer")
        (field "r_e" (str "0a") (field "v_aud_r" (str "0b") (field "sigma" (str "0c") end))));
  parse_json = λ t. ok null;
  schema_error = error "invalid";
}

abbrev test_evidence : TransferEvidence
test_evidence = record {
  id = "ctf_1";
  anchor_transaction_id = none;
  position_id = "aa";
  direction = draw;
  token_contract_id = "CCUSDC";
  method = confidential_transfer;
  signer = "GANCHOR";
  spender = none;
  from_account = "GANCHOR";
  to_account = "GFACILITY";
  transfer_commitment = none;
  tx_hash = "hash";
  ledger = some 7;
  auditor_payload = none;
  event_payload = obj end;
  data_xdr_sha256 = "digest";
  data_xdr_base64 = none;
  created_at = 1;
}

abbrev evidence_world : World
evidence_world = record { db = record empty_db { evidence = test_evidence ∷ [] }; calls = [] }

abbrev decrypt_body : Json
decrypt_body = obj (field "evidenceId" (str "ctf_1") (field "dataXdrBase64" (str "AAAA") end))

decrypt_route-Preserves_example :
    Preserves evidence_world (decrypt_route test_auditor test_config decrypt_body evidence_world)
decrypt_route-Preserves_example =
    decrypt_route-Preserves test_auditor test_config decrypt_body evidence_world

-- The request is answered, and its data stand in the row that it names.
decrypt_answers :
    let (after, reply) = decrypt_route test_auditor test_config decrypt_body evidence_world in
    (reply.code ≡ 200)
    × (map (λ (e : TransferEvidence). e.data_xdr_base64) after.db.evidence ≡ some "AAAA" ∷ [])
unfolding decrypt_route parse_decrypt_request parse_fields as_record find_string get
    get_evidence_by_id find update_evidence update_where merge_all merge_into put has_decrypt_salt
    fetch_emitted_confidential_event_payload find_event inspect_transfer_data_xdr run_runner_json
    configured merged_payload parsed all_hex strip_0x decrypt_auditor_payload spread
    fallback_auditor_payload
decrypt_answers = (refl, refl)

abbrev two_sources : List Fields
two_sources =
    field "sigma" (str "0c") end ∷ field "sigma" (str "") (field "r_e" (str "0a") end) ∷ []

get-merge_defined_example : get "sigma" (merge_defined two_sources) ≡ winner "sigma" two_sources
get-merge_defined_example = get-merge_defined "sigma" two_sources

abbrev test_host : Host
test_host = record {
  resolve = λ path. "/app/oz";
  made = λ deeds. ok tt;
  exited = λ deeds. record { status = some 0; stdout = "ok"; stderr = "" };
  contents = λ deeds. ok "c0de";
}

abbrev test_job : ProofJob
test_job = record {
  id = "job_1";
  type = "collateral_sufficiency";
  status = queued;
  payload = obj (field "sk" (str "7") end);
  result = none;
  failure = none;
  attempts = 1;
  created_at = 1;
  updated_at = 2;
}

run_circuit_proof-Ran_example :
    Ran test_host "/app/oz" "collateral_sufficiency" collateral_names test_job []
      (run_circuit_proof test_host "/app/oz" "collateral_sufficiency" collateral_names test_job [])
run_circuit_proof-Ran_example =
    run_circuit_proof-Ran test_host "/app/oz" "collateral_sufficiency" collateral_names test_job []

abbrev with_sevens : List String → Fields → Fields
with_sevens [] rest = rest
with_sevens (key ∷ keys) rest = field key (str "7") (with_sevens keys rest)

abbrev collateral_body : Json
collateral_body = obj (
    with_sevens
      ("sk" ∷ "collateralAmount" ∷ "collateralRandomness" ∷ "creditAmount" ∷ "creditRandomness"
        ∷ "positionSecret" ∷ "collateralCommitmentX" ∷ "collateralCommitmentY" ∷ "yX" ∷ "yY"
        ∷ "creditCommitmentX" ∷ "creditCommitmentY" ∷ "lockKey" ∷ "positionNullifier"
        ∷ "oraclePriceE7" ∷ [])
      (field "haircutBps" (num "500") (field "tenorDays" (num "3") end)))

post_collateral-Accepted_example :
    Accepted empty_db (post_collateral (error "invalid") "proof_1" 5 collateral_body empty_db)
post_collateral-Accepted_example =
    post_collateral-Accepted (error "invalid") "proof_1" 5 collateral_body empty_db

collateral_fits : fits_all collateral_schema (record_or_empty (some collateral_body)) ≡ true
unfolding fits_all fits get all_digits read_digits
collateral_fits = refl
