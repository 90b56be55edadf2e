-- ===== src/Examples.antt =====
-- Concrete inputs: a configuration, a network, small tables, and the theorems applied to them.
pub mod Sep
pub mod Jobs
pub mod Events
pub mod Credit
pub mod Grants
pub mod Network
pub mod Flow
pub mod Rerun
pub mod View
pub mod Hosts
use nyxfinance.Common.{none, some, [], ◌∷◌, ◌==◌, if◌then◌else◌}
use nyxfinance.Json.{str, obj, end, field}
use nyxfinance.Status.{pending_sender, credit_drawn}
use nyxfinance.Result.{ok, err, error}
use nyxfinance.Db.{Db, AnchorTransaction, empty_db}
use nyxfinance.Config.{Contracts, AppConfig}
use nyxfinance.World.{Chain, World}

abbrev pub test_contracts : Contracts
test_contracts = record {
  participant_policy = some "CPOLICY";
  collateral_policy = some "CCOLLATERAL";
  oracle_adapter = some "CORACLE";
  collateral_lock = none;
  prefunding_credit_line = some "CLINE";
  collateral_token = some "CTOKEN";
  confidential_cusdc = some "CCUSDC";
  collateral_sufficiency_verifier = some "CVERIFIER";
  repayment_history_verifier = some "CHISTORYVERIFIER";
  disclosure_grant_registry = none;
  repayment_history = some "CHISTORY";
}

abbrev pub test_config : AppConfig
test_config = record {
  stellar_rpc_url = "https://rpc.example";
  stellar_horizon_url = "https://horizon.example";
  stellar_network_passphrase = "Test";
  anchor_platform_public_url = "https://anchor.example/";
  prefunding_fee_bps = 25;
  anchor_stellar_toml_url = "https://anchor.example/stellar.toml";
  oracle_mode = "mock";
  oracle_source = "demo_adapter";
  reflector_pulse_contract_id = none;
  reflector_quote_asset = "USDC";
  reflector_staleness_seconds = 900;
  prover_mode = "alpha_demo_prover_worker";
  oz_confidential_root = "./oz-confidential";
  participant_policy_operator_secret_key = some "SOPERATOR";
  credit_executor_secret_key = some "GEXECUTOR";
  distribution_account = "REPLACE_ME";
  demo_anchor_account = "GANCHOR";
  demo_anchor_secret_key = some "GANCHOR";
  demo_anchor_confidential_sk = some "7";
  demo_anchor_collateral_amount = some "100";
  demo_anchor_collateral_randomness = some "11";
  demo_accounts = record { alpha = some "GANCHOR"; facility = some "GFACILITY"; auditor = none };
  contracts = test_contracts;
}

-- A network that accepts every call, at ledger 7.
abbrev pub test_chain : Chain
test_chain = record {
  public_key = λ s. ok s;
  check_address = λ a. if a == "" then err (error "Unsupported address type") else ok a;
  submit = λ calls call. ok (record { hash = call.method; ledger = 7 });
}

abbrev pub test_transaction : AnchorTransaction
test_transaction = record {
  id = "tx_1";
  anchor_transaction_id = "sep31_1";
  stellar_transaction_id = none;
  account = "GANCHOR";
  sep_status = pending_sender;
  product_status = credit_drawn;
  amount_in = some "100";
  amount_out = none;
  asset_code = some "USDC";
  raw = obj (field "id" (str "sep31_1") end);
  created_at = 1;
  updated_at = 2;
}

abbrev pub test_db : Db
test_db = record empty_db { anchor_transactions = test_transaction ∷ [] }

abbrev pub test_world : World
test_world = record { db = test_db; calls = [] }
