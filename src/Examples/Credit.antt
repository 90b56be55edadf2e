-- ===== src/Examples/Credit.antt =====
-- The theorems on credit lines, quotes, disclosures, repayments and the oracle at concrete inputs.
use mathlib.Core.Option
use nyxfinance.Common.{pos, ℕ, String, ◌≡◌, ◌↔◌, refl, true, none, some, ◌==◌, if◌then◌else◌}
use nyxfinance.Sql.{find}
use nyxfinance.Result.{Result, ok}
use nyxfinance.Db.{TransferEvidence}
use nyxfinance.Db.Anchor.{get_anchor_transaction_by_id}
use nyxfinance.Db.Disclosures.{set_revoked, get_disclosure_bundle}
use nyxfinance.World.{Tx}
use nyxfinance.World.Laws.{Submits}
use nyxfinance.Evidence.{Platform, TransferResult, record_confidential_transfer_evidence}
use nyxfinance.Evidence.Laws.{IsEvidenceOf, with_evidence, record_evidence_total}
use nyxfinance.CreditLine.{OpenCreditInput, open_credit_line}
use nyxfinance.CreditLine.Laws.{PositionCall, Opened, open_credit_line-Submits}
use nyxfinance.CreditLine.Transfer.{
  TransferRequest, DrawCreditInput, RepayCreditInput, repay_evidence, execute_draw,
  repay_credit_line,
}
use nyxfinance.CreditLine.Repayment.{Repaid, repay_credit_line-Submits}
use nyxfinance.CreditLine.Drawing.{DrawCall, Drawn, execute_draw-Submits}
use nyxfinance.QuoteEngine.{Reader, QuoteRequest, create_quote}
use nyxfinance.QuoteEngine.Laws.{Quoted, create_quote-Quoted}
use nyxfinance.Repayments.{LeafInput, seed_repayment_leaf}
use nyxfinance.Repayments.Laws.{HistoryCall, Seeded, seed_repayment_leaf-Submits}
use nyxfinance.Disclosure.{OnChain, revoke_disclosure_grant}
use nyxfinance.Disclosure.Laws.{AtMostOne, revoke_disclosure_grant_total}
use nyxfinance.Config.{AppConfig}
use nyxfinance.OracleAdmin.{
  Reflector, ReflectorPrice, fetch_reflector_price_e7, price_of, scale_reflector_price_to_e7,
}
use nyxfinance.OracleAdmin.Laws.{Prices, fetch_reflector-Prices}
use nyxfinance.Examples.{test_config, test_chain, test_transaction, test_db, test_world}

abbrev pub bytes_text : String
bytes_text = "0123456789abcdef0123456789abcdef0123456789abcdef0123456789abcdef"

abbrev pub test_platform : Platform
test_platform = record {
  from_base64 = λ t. "c0de";
  sha256_hex = λ t. bytes_text;
  emitted = λ token hash ledger event. ok none;
}

abbrev pub test_number : String → Result ℕ
test_number t = ok 1000000

abbrev open_input : OpenCreditInput
open_input = record {
  anchor_transaction_id = some "sep31_1";
  position_id = bytes_text;
  anchor = "GANCHOR";
  anchor_secret_key = "GANCHOR";
  collateral_token = none;
  lock_key = bytes_text;
  credit_commitment_x = bytes_text;
  credit_commitment_y = bytes_text;
  oracle_price_e7 = "1000000";
  haircut_bps = 500;
  tenor_days = 3;
  position_nullifier = bytes_text;
  public_inputs_hex = "c0de";
  proof_hex = "c0de";
}

open_credit_line-Submits_example :
    Submits test_chain test_world
      (PositionCall test_chain test_config "open_credit" "GANCHOR")
      (Opened test_chain test_config test_number 9 open_input test_world)
      (open_credit_line test_chain test_config test_number 9 open_input test_world)
open_credit_line-Submits_example =
    open_credit_line-Submits test_chain test_config test_number 9 open_input test_world

abbrev test_request : TransferRequest
test_request = record {
  token_contract_id = none;
  from_account = "GFROM";
  to_account = "GTO";
  data_xdr_base64 = "wN4=";
  auditor_payload = none;
  event_payload = none;
}

abbrev draw_input : DrawCreditInput
draw_input = record {
  anchor_transaction_id = some "sep31_1";
  position_id = bytes_text;
  facility = "GFROM";
  transfer_commitment_x = bytes_text;
  transfer_commitment_y = bytes_text;
  credit_executor_secret_key = "GEXECUTOR";
  confidential_transfer = test_request;
}

abbrev repay_input : RepayCreditInput
repay_input = record {
  anchor_transaction_id = some "sep31_1";
  position_id = bytes_text;
  facility = "GFACILITY";
  anchor_secret_key = "GFROM";
  repayment_commitment = bytes_text;
  confidential_transfer = test_request;
}

abbrev test_tx : Tx
test_tx = record { hash = "hash"; ledger = 7 }

execute_draw-Submits_example :
    Submits test_chain test_world
      (DrawCall test_chain test_platform test_config "ctf_1" 9 draw_input test_world)
      (Drawn test_chain test_platform test_config "ctf_1" 9 draw_input test_world)
      (execute_draw test_chain test_platform test_config "ctf_1" 9 draw_input test_world)
execute_draw-Submits_example =
    execute_draw-Submits test_chain test_platform test_config "ctf_1" 9 draw_input test_world refl

repay_credit_line-Submits_example :
    Submits test_chain test_world
      (PositionCall test_chain test_config "repay" "GFROM")
      (Repaid test_chain test_platform test_config "ctf_1" 9 repay_input test_world)
      (repay_credit_line test_chain test_platform test_config "ctf_1" 9 repay_input test_world)
repay_credit_line-Submits_example =
    repay_credit_line-Submits test_chain test_platform test_config "ctf_1" 9 repay_input test_world
      refl

record_evidence_total_example :
    (row : TransferEvidence) × (result : TransferResult) × IsEvidenceOf
      (repay_evidence repay_input "GFROM" "CCUSDC" test_tx)
      row
    × (record_confidential_transfer_evidence test_platform "ctf_1" 9
          (repay_evidence repay_input "GFROM" "CCUSDC" test_tx)
          test_world
        ≡ (record test_world { db = with_evidence row test_db }, ok result))
record_evidence_total_example =
    record_evidence_total test_platform "ctf_1" 9
      (repay_evidence repay_input "GFROM" "CCUSDC" test_tx) test_world refl refl

known_transaction : get_anchor_transaction_by_id "sep31_1" test_db ≡ some test_transaction
unfolding get_anchor_transaction_by_id find
known_transaction = refl

unknown_transaction : get_anchor_transaction_by_id "sep31_9" test_db ≡ none
unfolding get_anchor_transaction_by_id find
unknown_transaction = refl

abbrev test_reader : Reader
test_reader = record {
  read_boolean = λ contract method args. ok true;
  read_number = λ contract method args. ok 5;
  read_text = λ contract method args. ok "10000000";
}

abbrev quote_request : QuoteRequest
quote_request = record {
  anchor_transaction_id = some "sep31_1";
  account = "GANCHOR";
  collateral_token = none;
  requested_credit_amount = "1000000";
  tenor_days = 3;
}

create_quote-Quoted_example :
    Quoted test_chain test_reader test_number test_config "quote_1" 9 quote_request test_world (
      create_quote test_chain test_reader test_number test_config "quote_1" 9 quote_request
        test_world)
create_quote-Quoted_example =
    create_quote-Quoted test_chain test_reader test_number test_config "quote_1" 9 quote_request
      test_world

abbrev leaf_input : LeafInput
leaf_input = record {
  position_id = bytes_text;
  leaf_nullifier = bytes_text;
  repayment_commitment = bytes_text;
  paid_ledger = 5;
  due_ledger = 9;
}

seed_repayment_leaf-Submits_example :
    Submits test_chain test_world
      (HistoryCall test_chain test_config "seed_leaf")
      (Seeded test_chain test_config "leaf_1" 9 leaf_input test_world)
      (seed_repayment_leaf test_chain test_config "leaf_1" 9 leaf_input test_world)
seed_repayment_leaf-Submits_example =
    seed_repayment_leaf-Submits test_chain test_config "leaf_1" 9 leaf_input test_world

revoke_disclosure_grant_total_example :
    ((on_chain : OnChain) × ((revoke_disclosure_grant test_chain test_config 9 bytes_text
          test_world).1
        ≡ ok on_chain))
    × AtMostOne test_world.calls
        (revoke_disclosure_grant test_chain test_config 9 bytes_text test_world).0.calls
    × ((j : String)
        → get_disclosure_bundle j
            (revoke_disclosure_grant test_chain test_config 9 bytes_text test_world).0.db
          ≡ (if bytes_text == j
              then Option.map (set_revoked 9) (get_disclosure_bundle j test_world.db)
              else get_disclosure_bundle j test_world.db))
revoke_disclosure_grant_total_example =
    revoke_disclosure_grant_total test_chain test_config 9 bytes_text test_world

-- A record of 123456789 with nine decimals.
abbrev test_reflector : Reflector
test_reflector = record {
  last_price = λ contract symbol. ok (some (ok (pos 123456789), ok (pos 1000)));
  decimals = λ contract. ok (some 9, "9");
}

abbrev reflector_config : AppConfig
reflector_config = record test_config { reflector_pulse_contract_id = some "CREFLECTOR" }

abbrev scaled_price : ReflectorPrice
scaled_price = record { price_e7 = 1234567; timestamp = pos 1000; decimals = 9 }

fetch_reflector-Prices_example :
    (fetch_reflector_price_e7 test_reflector reflector_config "USDC" 1500 ≡ ok scaled_price)
    ↔ Prices test_reflector reflector_config "USDC" 1500 scaled_price
fetch_reflector-Prices_example =
    fetch_reflector-Prices test_reflector reflector_config "USDC" 1500 scaled_price

-- The record is scaled to seven decimals.
fetched_price :
    fetch_reflector_price_e7 test_reflector reflector_config "USDC" 1500 ≡ ok scaled_price
unfolding fetch_reflector_price_e7 price_of scale_reflector_price_to_e7
fetched_price = refl
