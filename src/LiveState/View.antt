-- ===== src/LiveState/View.antt =====
-- backend/src/services/demo-state.ts: the rest of the view, how it is built and kept, and the fallback.
use nyxfinance.Common.{
  ℕ, false, ◌||◌, Option, none, some, String, [], ◌∷◌, ◌==◌, ◌<>◌, if◌then◌else◌, is_some, decimal,
}
use nyxfinance.Json.{Json, null, bool, str, obj, Fields, of_option}
use nyxfinance.Result.{Result, ok, err, message}
use nyxfinance.Status.{sep_text, product_text}
use nyxfinance.Db.{Db, AnchorTransaction, WatcherState, Snapshot}
use nyxfinance.Db.Anchor.{get_latest_anchor_transaction}
use nyxfinance.Db.Quotes.{get_latest_quote_id}
use nyxfinance.Db.Jobs.{get_latest_proof_job_id}
use nyxfinance.Db.Disclosures.{get_latest_disclosure_grant_id}
use nyxfinance.Db.Evidence.{get_latest_evidence}
use nyxfinance.Config.{AppConfig}
use nyxfinance.Watcher.{present, tracked_contracts, get_watcher_state}
use nyxfinance.StellarRpc.{Net}
use nyxfinance.LiveState.{
  Answers, fetch_all, object, texts, source_status, missing_if, contract_fields, account_fields,
  anchor_platform_fields, stellar_fields, live_key, get_last_known_good, put_last_known_good,
}

-- A time stands in a snapshot by its number.
abbrev time : ℕ → Json
time t = str (decimal t)

abbrev or_null : {A : Type 0} → (A → Json) → Option A → Json
or_null write none = null
or_null write (some a) = write a

unfoldable pub transaction_fields : AnchorTransaction → Fields
transaction_fields tx = object (
    ("id", str tx.anchor_transaction_id)
    ∷ ("status", str (sep_text tx.sep_status))
    ∷ ("productStatus", str (product_text tx.product_status))
    ∷ ("amountIn", of_option tx.amount_in)
    ∷ ("amountOut", of_option tx.amount_out)
    ∷ ("assetCode", of_option tx.asset_code)
    ∷ ("senderId", str tx.account)
    ∷ ("account", str tx.account)
    ∷ ("stellarTransactionId", of_option tx.stellar_transaction_id)
    ∷ ("startedAt", time tx.created_at)
    ∷ ("updatedAt", time tx.updated_at)
    ∷ [])

unfoldable pub product_fields : Db → Fields
unfolding transaction_fields
product_fields db =
    let latest = get_latest_anchor_transaction db in
    object (
      ("latestSepStatus", or_null (λ tx. str (sep_text tx.sep_status)) latest)
      ∷ ("latestProductStatus", or_null (λ tx. str (product_text tx.product_status)) latest)
      ∷ ("latestSep31Transaction", or_null (λ tx. obj (transaction_fields tx)) latest)
      ∷ ("latestQuoteId", of_option (get_latest_quote_id db))
      ∷ ("latestProofJobId", of_option (get_latest_proof_job_id db))
      ∷ ("latestDisclosureGrantId", of_option (get_latest_disclosure_grant_id db))
      ∷ ("latestConfidentialTransferTxHash", or_null (λ e. str e.tx_hash) (get_latest_evidence db))
      ∷ [])

abbrev oracle_mark : AppConfig → Option String
oracle_mark config =
    if config.oracle_mode == "reflector"
    then none
    else some ("Oracle marked as " <> config.oracle_source)

abbrev reflector_missing : AppConfig → Option String
reflector_missing config =
    if config.oracle_mode == "reflector"
    then missing_if config.reflector_pulse_contract_id "REFLECTOR_PULSE_CONTRACT_ID missing"
    else none

unfoldable pub quote_source_fields : AppConfig → Fields
quote_source_fields config = object (
    ("oracleMode", str config.oracle_mode)
    ∷ ("oracleSource", str config.oracle_source)
    ∷ ("reflectorPulseContractId", of_option config.reflector_pulse_contract_id)
    ∷ ("participantPolicy", source_status config.contracts.participant_policy)
    ∷ ("collateralPolicyRegistry", source_status config.contracts.collateral_policy)
    ∷ ("oracleAdapter", source_status config.contracts.oracle_adapter)
    ∷ (
      "fallbackOrStaticValues",
      texts (
          present (
            oracle_mark config
            ∷ missing_if config.contracts.participant_policy
                "PARTICIPANT_POLICY_CONTRACT_ID missing"
            ∷ missing_if config.contracts.collateral_policy "COLLATERAL_POLICY_CONTRACT_ID missing"
            ∷ missing_if config.contracts.oracle_adapter "ORACLE_ADAPTER_CONTRACT_ID missing"
            ∷ reflector_missing config
            ∷ [])),
    )
    ∷ [])

abbrev witness_boundary : String → String
witness_boundary mode =
    if mode == "alpha_local" || mode == "alpha_controlled_service"
    then "Alpha-controlled prover; API receives proof artifacts, not private witness values"
    else "Alpha demo prover-worker; do not claim backend never sees private witness values"

unfoldable pub privacy_fields : AppConfig → Db → Fields
privacy_fields config db = object (
    ("proverMode", str config.prover_mode)
    ∷ ("privateWitnessBoundary", str (witness_boundary config.prover_mode))
    ∷ ("backendStoresPlaintextAmounts", bool false)
    ∷ (
      "liveAuditorCiphertextRefs",
      str (if is_some (get_latest_evidence db) then "present" else "missing"),
    )
    ∷ [])

unfoldable pub phase6_fields : AppConfig → Fields
phase6_fields config = object (
    ("repaymentHistoryRegistry", source_status config.contracts.repayment_history)
    ∷ ("repaymentHistoryVerifier", source_status config.contracts.repayment_history_verifier)
    ∷ ("disclosureGrantRegistry", source_status config.contracts.disclosure_grant_registry)
    ∷ (
      "fallbackOrStaticValues",
      texts (
          present (
            missing_if config.contracts.repayment_history "REPAYMENT_HISTORY_CONTRACT_ID missing"
            ∷ missing_if config.contracts.repayment_history_verifier
                "REPAYMENT_HISTORY_VERIFIER_CONTRACT_ID missing"
            ∷ missing_if config.contracts.disclosure_grant_registry
                "DISCLOSURE_GRANT_REGISTRY_CONTRACT_ID missing"
            ∷ [])),
    )
    ∷ [])

unfoldable pub watcher_fields : AppConfig → Option WatcherState → Fields
watcher_fields config watcher = object (
    ("cursor", or_null (λ w. str (decimal w.cursor)) watcher)
    ∷ ("updatedAt", or_null (λ w. time w.updated_at) watcher)
    ∷ ("trackedContracts", texts (tracked_contracts config))
    ∷ [])

abbrev network_fields : AppConfig → Fields
network_fields config = object (
    ("rpcUrl", str config.stellar_rpc_url)
    ∷ ("horizonUrl", str config.stellar_horizon_url)
    ∷ ("networkPassphrase", str config.stellar_network_passphrase)
    ∷ [])

-- The snapshot, with what was read of the network's answers.
unfoldable pub snapshot_fields : AppConfig → ℕ → Db → Answers → Fields → Fields
snapshot_fields config now db answers stellar = object (
    ("generatedAt", time now)
    ∷ ("network", obj (network_fields config))
    ∷ ("contracts", obj (contract_fields config.contracts))
    ∷ ("accounts", obj (account_fields config db))
    ∷ ("anchorPlatform", obj (anchor_platform_fields config answers))
    ∷ ("stellar", obj stellar)
    ∷ ("product", obj (product_fields db))
    ∷ (
      "dataSources",
      obj (
          object (
            ("quote", obj (quote_source_fields config))
            ∷ ("privacy", obj (privacy_fields config db))
            ∷ ("phase6", obj (phase6_fields config))
            ∷ [])),
    )
    ∷ ("watcher", obj (watcher_fields config (get_watcher_state db)))
    ∷ [])

abbrev pub kept : AppConfig → ℕ → Db → Answers → Result Fields → Db × Result Fields
kept config now db answers (err e) = (db, err e)
kept config now db answers (ok stellar) =
    let snapshot = snapshot_fields config now db answers stellar in
    (put_last_known_good live_key (obj snapshot) "live" now db, ok snapshot)

abbrev pub built : AppConfig → ℕ → Db → Result Answers → Db × Result Fields
built config now db (err e) = (db, err e)
built config now db (ok answers) = kept config now db answers (stellar_fields answers)

unfoldable pub build_live_snapshot : Net → AppConfig → ℕ → Db → Db × Result Fields
build_live_snapshot net config now db = built config now db (fetch_all net config)

-- The answers of `getDemoState`, by their field source; a cached one has the snapshot's source status, its
-- timestamp and the time of its update.
pub data Seen : Type 0 where
  live : Fields → Seen
  unavailable : (failure : String) → Seen
  cache :
      (snapshot : Json) (source_status : String) (source_timestamp updated_at : ℕ)
      (failure : String)
      → Seen

abbrev pub from_cache : String → Option Snapshot → Seen
from_cache failure none = unavailable failure
from_cache failure (some row) =
    cache row.payload row.source_status row.source_timestamp row.updated_at failure

abbrev pub seen : Db × Result Fields → Db × Seen
seen (db, ok snapshot) = (db, live snapshot)
seen (db, err e) = (db, from_cache (message e) (get_last_known_good live_key db))

unfoldable pub get_demo_state : Net → AppConfig → ℕ → Db → Db × Seen
get_demo_state net config now db = seen (build_live_snapshot net config now db)
