-- ===== src/LiveState.antt =====
-- backend/src/services/demo-state.ts: the view of the whole system that the console shows, built from the
-- network and the database, with the last good one as fallback; and backend/src/services/snapshot-cache.ts.
pub mod View
pub mod Laws
use Prim.Native.String
use nyxfinance.Common.{
  ℕ, Char, code, true, false, Option, none, some, String, List, [], ◌∷◌, ◌==◌, eqb, if◌then◌else◌,
  or_else, is_some, take,
}
use nyxfinance.Json.{
  Json, null, bool, num, str, arr, obj, Items, nil, cons, Fields, end, field, get, as_string,
  nullish, of_option,
}
use nyxfinance.Result.{Fault, Result, ok, err, error, message, ◌>>=◌}
use nyxfinance.Db.{Db, AnchorTransaction, Snapshot}
use nyxfinance.Db.Anchor.{given, get_anchor_transaction_by_id, get_latest_anchor_transaction}
use nyxfinance.Db.Snapshots.{get_snapshot, upsert_snapshot}
use nyxfinance.Config.{AppConfig, Contracts}
use nyxfinance.Sep31.{record_or_empty}
use nyxfinance.Watcher.{present}
use nyxfinance.StellarRpc.{
  Net, fetch_rpc_health, fetch_latest_ledger, fetch_horizon_root, fetch_anchor_toml, property,
  failures,
}

abbrev pub live_key : String
live_key = "demo_state"

abbrev pub flow_key : String
flow_key = "demo_flow_state"

-- `snapshotCache`
abbrev pub get_last_known_good : String → Db → Option Snapshot
get_last_known_good key db = get_snapshot key db

abbrev pub put_last_known_good : String → Json → String → ℕ → Db → Db
put_last_known_good key payload source_status now db =
    upsert_snapshot key payload source_status now db

-- An object literal, and an array of texts.
abbrev pub object : List (String × Json) → Fields
object [] = end
object ((key, value) ∷ rest) = field key value (object rest)

abbrev pub texts : List String → Json
texts ts = arr (items ts)
  where
    items : List String → Items
    items [] = nil
    items (t ∷ ts) = cons (str t) (items ts)

abbrev pub source_status : Option String → Json
source_status value = str (if is_some (given value) then "chain" else "missing_config")

-- `!value ? text : null`
abbrev pub missing_if : Option String → String → Option String
missing_if value text = if is_some (given value) then none else some text

abbrev first_line : Char → List String → List String
first_line c [] = String.◌∷◌ c "" ∷ []
first_line c (l ∷ ls) = String.◌∷◌ c l ∷ ls

-- `text.split("\n")`
unfoldable pub lines : String → List String
lines String.[] = "" ∷ []
lines (String.◌∷◌ c s) =
    let rest = lines s in if eqb (code c) 10 then "" ∷ rest else first_line c rest

-- What the network answers: the health, the ledger and the root of Horizon, which must be there, and the TOML.
pub record Answers : Type 0 where
  pub rpc_health : Json
  pub latest_ledger : Json
  pub horizon_root : Json
  pub anchor_toml : Result String

abbrev answers_or : Net → List Fault → Result Answers → Result Answers
answers_or net [] answers = answers
answers_or net (e ∷ es) answers = err (net.first e es)

-- `Promise.all`
abbrev together : Net → Result Json → Result Json → Result Json → Result String → Result Answers
together net health ledger root toml = answers_or net (failures (health ∷ ledger ∷ root ∷ [])) do
  rpc_health ← health
  latest_ledger ← ledger
  horizon_root ← root
  ok (record {
    rpc_health = rpc_health;
    latest_ledger = latest_ledger;
    horizon_root = horizon_root;
    anchor_toml = toml;
  })

unfoldable pub fetch_all : Net → AppConfig → Result Answers
fetch_all net config =
    together net (fetch_rpc_health net config.stellar_rpc_url)
      (fetch_latest_ledger net config.stellar_rpc_url)
      (fetch_horizon_root net config.stellar_horizon_url)
      (fetch_anchor_toml net config.anchor_stellar_toml_url)

-- `Object.entries(config.contracts).filter(…)`
abbrev with_contract : String → Option String → Fields → Fields
with_contract key none rest = rest
with_contract key (some value) rest = if value == "" then rest else field key (str value) rest

unfoldable pub contract_fields : Contracts → Fields
contract_fields c = with_contract "participantPolicy" c.participant_policy (
    with_contract "collateralPolicy" c.collateral_policy (
      with_contract "oracleAdapter" c.oracle_adapter (
        with_contract "collateralLock" c.collateral_lock (
          with_contract "prefundingCreditLine" c.prefunding_credit_line (
            with_contract "collateralSufficiencyVerifier" c.collateral_sufficiency_verifier (
              with_contract "collateralToken" c.collateral_token (
                with_contract "confidentialCusdc" c.confidential_cusdc (
                  with_contract "disclosureGrantRegistry" c.disclosure_grant_registry (
                    with_contract "repaymentHistory" c.repayment_history (
                      with_contract "repaymentHistoryVerifier" c.repayment_history_verifier
                        end))))))))))

-- `flowState?.key` as a text that is not empty
abbrev flow_text : String → Fields → Option String
flow_text key flow = given (as_string (get key flow))

-- The stored payload of the demo flow; its absence has no properties either.
abbrev payload_of : Option Snapshot → Fields
payload_of none = end
payload_of (some row) = record_or_empty (some row.payload)

abbrev flow_state : Db → Fields
flow_state db = payload_of (get_snapshot flow_key db)

abbrev active_transaction : Option String → Option AnchorTransaction → Db → Option AnchorTransaction
active_transaction none latest db = latest
active_transaction (some id) latest db = get_anchor_transaction_by_id id db

abbrev pub from_row : {A : Type 0} → (AnchorTransaction → A) → Option AnchorTransaction → Option A
from_row f none = none
from_row f (some row) = some (f row)

unfoldable pub account_fields : AppConfig → Db → Fields
account_fields config db =
    let flow = flow_state db in
    let latest = get_latest_anchor_transaction db in
    let active = active_transaction (flow_text "anchorTransactionId" flow) latest db in
    object (
      ("alpha", of_option config.demo_accounts.alpha)
      ∷ ("facility", of_option config.demo_accounts.facility)
      ∷ ("auditor", of_option config.demo_accounts.auditor)
      ∷ (
        "activeAnchor",
        obj (
            object (
              ("profileId", of_option (as_string (get "profileId" flow)))
              ∷ (
                "account",
                of_option (or_else (from_row (λ r. r.account) active) config.demo_accounts.alpha),
              )
              ∷ (
                "transactionId",
                of_option (
                    or_else (as_string (get "anchorTransactionId" flow))
                      (from_row (λ r. r.anchor_transaction_id) latest)),
              )
              ∷ [])),
      )
      ∷ (
        "missing",
        texts (
            present (
              missing_if config.demo_accounts.alpha "ALPHA_PUBLIC_KEY missing"
              ∷ missing_if config.demo_accounts.facility "FACILITY_PUBLIC_KEY missing"
              ∷ missing_if config.demo_accounts.auditor "AUDITOR_PUBLIC_KEY missing"
              ∷ [])),
      )
      ∷ [])

abbrev toml_fields : Result String → List (String × Json)
toml_fields (ok text) =
    ("stellarTomlPreview", texts (take 6 (lines text))) ∷ ("reachable", bool true) ∷ []
toml_fields (err e) =
    ("stellarTomlPreview", texts []) ∷ ("reachable", bool false) ∷ ("error", str (message e)) ∷ []

unfoldable pub anchor_platform_fields : AppConfig → Answers → Fields
unfolding lines
anchor_platform_fields config answers =
    object (("publicUrl", str config.anchor_platform_public_url) ∷ toml_fields answers.anchor_toml)

abbrev or_json : Option Json → Json → Json
or_json none default = default
or_json (some value) default = value

-- `typeof v === "number" ? v : null` and `typeof v === "string" ? v : null`
abbrev number_or_null : Option Json → Json
number_or_null (some (num t)) = num t
number_or_null other = null

abbrev text_or_null : Option Json → Json
text_or_null value = of_option (as_string value)

unfoldable pub stellar_fields : Answers → Result Fields
stellar_fields answers = do
  status ← property "status" answers.rpc_health
  sequence ← property "sequence" answers.latest_ledger
  core ← property "core_latest_ledger" answers.horizon_root
  history ← property "history_latest_ledger" answers.horizon_root
  passphrase ← property "network_passphrase" answers.horizon_root
  ok (
      object (
        (
          "rpc",
          obj (
              object (
                ("status", or_json (nullish status) (str "unknown"))
                ∷ ("latestLedgerSequence", or_json (nullish sequence) null)
                ∷ [])),
        )
        ∷ (
          "horizon",
          obj (
              object (
                ("coreLatestLedger", number_or_null core)
                ∷ ("historyLatestLedger", number_or_null history)
                ∷ ("networkPassphrase", text_or_null passphrase)
                ∷ [])),
        )
        ∷ []))
