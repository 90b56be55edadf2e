-- ===== src/Examples/Network.antt =====
-- The theorems on submissions and on emitted events at a concrete network.
use nyxfinance.Common.{◌≡◌, refl, none, some, List, [], ◌∷◌, ◌==◌, arith, ltb, if◌then◌else◌}
use nyxfinance.Json.{str, end, field}
use nyxfinance.Result.{ok, OnOk}
use nyxfinance.World.{Call}
use nyxfinance.SimulationErrors.{summarize_simulation_error}
use nyxfinance.OperatorTx.{Rpc, AuthEntry, simulated, submit, poll}
use nyxfinance.OperatorTx.Laws.{Confirmed, submit-Confirmed}
use nyxfinance.OperatorTx.Polling.{Spends, submit-Spends, polls, polled, poll-Settles}
use nyxfinance.Hex.{strip_0x, all_hex}
use nyxfinance.Emitted.{
  EventSource, scalar, array, text, bytes, fetch_emitted_confidential_event_payload,
}
use nyxfinance.Emitted.Laws.{Says, fetch_emitted-IsPayloadOf}

-- A server that finds the transaction at the third poll, and a simulation that wants the anchor's signature.
abbrev test_rpc : Rpc
test_rpc = record {
  passphrase = "Test";
  account = λ log. ok "1";
  simulation = λ log. ok (
      simulated (some (record { required_address = some "GANCHOR"; xdr = "entry" } ∷ []))
        "resources");
  latest_ledger = λ log. ok 7;
  sent = λ log. ok (record { status = "PENDING"; hash = "hash"; error_result = "" });
  transaction = λ log.
      if ltb (polls log) 3
      then ok (record { status = "NOT_FOUND"; ledger = 0 })
      else ok (record { status = "SUCCESS"; ledger = 9 });
  authorize_entry = λ entry key valid_until passphrase. ok (record entry { xdr = "signed" });
  check_contract = λ id. ok tt;
  assemble = λ draft auth resources. ok resources;
  sign = λ envelope key. envelope;
}

abbrev test_call : Call
test_call = record {
  signer = "GOPERATOR";
  auth_signers = "GANCHOR" ∷ [];
  contract_id = "CLINE";
  method = "open_credit";
  args = [];
}

submit-Spends_example : Spends 65 1 31 [] (submit test_rpc test_call [])
submit-Spends_example = submit-Spends test_rpc test_call []

submit-Confirmed_example : Confirmed test_rpc (submit test_rpc test_call [])
submit-Confirmed_example = submit-Confirmed test_rpc test_call []

poll-Settles_example :
    poll test_rpc "hash" 30 (record { status = "NOT_FOUND"; ledger = 0 }) []
    ≡ (polled "hash" 3 [], ok (record { status = "SUCCESS"; ledger = 9 }))
poll-Settles_example =
    poll-Settles test_rpc "hash" 3 30 (record { status = "NOT_FOUND"; ledger = 0 })
      (record { status = "SUCCESS"; ledger = 9 }) [] (omega arith)
      (
        refl,
        (
          record { status = "NOT_FOUND"; ledger = 0 },
          refl,
          (
            refl,
            (
              record { status = "NOT_FOUND"; ledger = 0 },
              refl,
              (refl, (record { status = "SUCCESS"; ledger = 9 }, refl, (refl, refl))),
            ),
          ),
        ),
      )

abbrev test_entries : List AuthEntry
test_entries =
    record { required_address = some "GANCHOR"; xdr = "one" }
    ∷ record { required_address = none; xdr = "two" }
    ∷ []

stale_price :
    summarize_simulation_error "open_credit" "HostError: Error(Contract, #4504)"
    ≡ "open_credit simulation failed: PrefundingCreditLine StaleOraclePrice."
unfolding summarize_simulation_error
stale_price = refl

abbrev test_source : EventSource
test_source = record {
  get_events = λ start token. ok (
      some (
        record {
          contract_id_camel = some "CCUSDC";
          contract_id_snake = none;
          topics = some ("transfer" ∷ []);
          topic = none;
          value = some "value";
          tx_hash_camel = some "hash";
          tx_hash_snake = none;
        }
        ∷ []));
  decode_sc_val = λ t.
      if t == "value" then ok (array (bytes "c0de" ∷ text "0xff" ∷ [])) else ok (scalar (text t));
}

fetch_emitted-IsPayloadOf_example :
    OnOk
      (Says test_source "CCUSDC" "hash" 9 "transfer")
      (fetch_emitted_confidential_event_payload test_source "CCUSDC" "hash" (some 9) "transfer")
fetch_emitted-IsPayloadOf_example =
    fetch_emitted-IsPayloadOf test_source "CCUSDC" "hash" 9 "transfer"

-- The payload has the two values that the event carries.
fetched :
    fetch_emitted_confidential_event_payload test_source "CCUSDC" "hash" (some 9) "transfer"
    ≡ ok (some (field "r_e" (str "c0de") (field "v_tilde" (str "ff") end)))
unfolding fetch_emitted_confidential_event_payload strip_0x all_hex
fetched = refl
