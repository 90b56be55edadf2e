-- ===== src/Examples/View.antt =====
-- The theorem on the view of the system at a concrete network.
use nyxfinance.Common.{◌≡◌, refl, none, some, decimal}
use nyxfinance.Json.{Json, num, str, obj, Fields, end, field, get}
use nyxfinance.Result.{ok, err, error, message}
use nyxfinance.Db.{Db}
use nyxfinance.Examples.{test_config, empty_db}
use nyxfinance.StellarRpc.{Net, rpc_request, fetch_horizon_root, fetch_anchor_toml, property}
use nyxfinance.LiveState.{Answers, live_key, put_last_known_good, fetch_all, stellar_fields}
use nyxfinance.LiveState.View.{live, cache, get_demo_state, build_live_snapshot, snapshot_fields}
use nyxfinance.LiveState.Laws.{get_demo_state-falls_back}

abbrev test_net : Net
test_net = record {
  post = λ url method. ok (record {
    status = 200;
    body = ok (record {
      result = some (obj (field "status" (str "healthy") (field "sequence" (num "9") end)));
      failure = none;
    });
  });
  get_json = λ url.
      ok (record { status = 200; body = ok (obj (field "core_latest_ledger" (num "8") end)) });
  get_text = λ url. ok (record { status = 503; body = ok "" });
  first = λ e es. e;
}

abbrev no_net : Net
no_net = record test_net { post = λ url method. err (error "fetch failed") }

abbrev test_answers : Answers
test_answers = record {
  rpc_health = obj (field "status" (str "healthy") (field "sequence" (num "9") end));
  latest_ledger = obj (field "status" (str "healthy") (field "sequence" (num "9") end));
  horizon_root = obj (field "core_latest_ledger" (num "8") end);
  anchor_toml = err (error "Anchor TOML failed with HTTP 503");
}

abbrev stellar : Fields
stellar =
    field "rpc" (obj (field "status" (str "healthy") (field "latestLedgerSequence" (num "9") end)))
      (field "horizon"
        (obj (
          field "coreLatestLedger" (num "8")
            (field "historyLatestLedger" Json.null (field "networkPassphrase" Json.null end))))
        end)

abbrev snapshot : Fields
snapshot = snapshot_fields test_config 5 empty_db test_answers stellar

abbrev after : Db
after = put_last_known_good live_key (obj snapshot) "live" 5 empty_db

seen_live : get_demo_state test_net test_config 5 empty_db ≡ (after, live snapshot)
unfolding get_demo_state build_live_snapshot fetch_all rpc_request fetch_horizon_root stellar_fields
    property fetch_anchor_toml get decimal
seen_live = refl

net_fails : fetch_all no_net test_config ≡ err (error "fetch failed")
unfolding fetch_all rpc_request
net_fails = refl

get_demo_state-falls_back_example :
    get_demo_state no_net test_config 9 after
    ≡ (after, cache (obj snapshot) "live" 5 5 "fetch failed")
unfolding message
get_demo_state-falls_back_example =
    get_demo_state-falls_back test_net no_net test_config 5 9 empty_db after after snapshot
      (error "fetch failed") seen_live net_fails refl
