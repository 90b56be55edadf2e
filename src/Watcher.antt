-- ===== src/Watcher.antt =====
-- backend/src/services/watcher.ts: the contract events of the network, copied into contract_events
-- behind a cursor.
pub mod Laws
pub mod Cursor
use nyxfinance.Common.{
  ℕ, suc, ◌+◌, ◌-◌, min, max, Bool, false, Option, none, some, String, List, [], ◌∷◌, ◌==◌,
  if◌then◌else◌, eqb, length, any, get_or, or_else,
}
use nyxfinance.Json.{Json}
use nyxfinance.Result.{Result, ok, ◌>>=◌, ◌>>◌, throw_if, error}
use nyxfinance.Db.{Db, ContractEvent, WatcherState}
use nyxfinance.Db.Events.{insert_contract_event, upsert_watcher_cursor, get_watcher_cursor}
use nyxfinance.Config.{AppConfig}

abbrev pub watcher_name : String
watcher_name = "prefunding-contract-events"

abbrev pub ledger_safety_lag : ℕ
ledger_safety_lag = 5

abbrev pub event_names : List String
event_names =
    "CreditOpened" ∷ "DrawExecuted" ∷ "Repaid" ∷ "RepaymentLeafSeeded" ∷ "RepaymentHistoryRootSet"
    ∷ "RepaymentHistoryVerified" ∷ "DisclosureGrantCreated" ∷ "DisclosureGrantRevoked" ∷ "transfer"
    ∷ "spender_transfer" ∷ []

-- `contractId`, `pagingToken` and `txHash` are the fields with camel_ before their name.
pub record RpcEvent : Type 0 where
  pub camel_contract_id : Option String
  pub contract_id : Option String
  pub ledger : Option ℕ
  pub topic : Option (List String)
  pub topics : Option (List String)
  pub camel_paging_token : Option String
  pub paging_token : Option String
  pub camel_tx_hash : Option String
  pub tx_hash : Option String
  pub body : Json

-- The network: `fetchLatestLedger`'s sequence and the method getEvents by start, contracts and limit;
-- `decode_topic` is the SDK's reading of a topic, absent where it throws or yields no text.
pub record Rpc : Type 0 where
  pub fetch_latest_ledger : Result (Option ℕ)
  pub get_events : ℕ → List String → ℕ → Result (Option (List RpcEvent))
  pub decode_topic : String → Option String

-- `.filter(Boolean)` on optional texts
abbrev pub present : List (Option String) → List String
present [] = []
present (none ∷ xs) = present xs
present (some x ∷ xs) = let rest = present xs in if x == "" then rest else x ∷ rest

unfoldable pub tracked_contracts : AppConfig → List String
tracked_contracts config = present (
    config.contracts.prefunding_credit_line ∷ config.contracts.confidential_cusdc
    ∷ config.contracts.collateral_lock ∷ config.contracts.repayment_history
    ∷ config.contracts.disclosure_grant_registry ∷ [])

abbrev first_name : (String → Option String) → List String → Option String
first_name decode [] = none
first_name decode (topic ∷ topics) =
    let rest = first_name decode topics in named (decode topic) rest
  where
    named : Option String → Option String → Option String
    named none rest = rest
    named (some decoded) rest = if any (λ n. n == decoded) event_names then some decoded else rest

unfoldable pub event_name : (String → Option String) → RpcEvent → Option String
event_name decode event = first_name decode (get_or (or_else event.topics event.topic) [])

-- `newId("evt")` is `fresh`.
abbrev pub event_row : String → ℕ → String → RpcEvent → ContractEvent
event_row fresh now name event = record {
  id = fresh;
  contract_id = get_or (or_else event.camel_contract_id event.contract_id) "unknown";
  event_name = name;
  ledger = event.ledger;
  paging_token = or_else event.camel_paging_token event.paging_token;
  tx_hash = or_else event.camel_tx_hash event.tx_hash;
  payload = event.body;
  created_at = now;
}

abbrev pub store_named : Option String → String → ℕ → RpcEvent → Db → Db × Bool
store_named none fresh now event db = (db, false)
store_named (some name) fresh now event db =
    insert_contract_event (event_row fresh now name event) db

-- The loop on the events; `fresh` yields the new identifiers in turn.
unfoldable pub store_events :
    (String → Option String) → (ℕ → String) → ℕ → List RpcEvent → Db → Db × ℕ
store_events decode fresh now [] db = (db, 0)
store_events decode fresh now (event ∷ events) db =
    let (stored, inserted) = store_named (event_name decode event) (fresh 0) now event db in
    let (final, n) = store_events decode (λ i. fresh (suc i)) now events stored in
    (final, if inserted then suc n else n)

unfoldable pub safe_latest : ℕ → ℕ
safe_latest latest = max 1 (latest - ledger_safety_lag)

unfoldable pub start_ledger : Option WatcherState → ℕ → ℕ
start_ledger none latest = max 1 (latest - 100)
start_ledger (some cursor) latest = max 1 (min (cursor.cursor + 1) (safe_latest latest))

pub record WatcherResult : Type 0 where
  pub start_ledger : ℕ
  pub latest_ledger : ℕ
  pub next_cursor : ℕ
  pub tracked_contracts : List String
  pub stored_events : ℕ

unfoldable pub finish_sync :
    Rpc → (ℕ → String) → ℕ → ℕ → ℕ → List String → List RpcEvent → Db → Db × WatcherResult
finish_sync rpc fresh now start latest contracts events db =
    let (stored, n) = store_events rpc.decode_topic fresh now events db in
    (
      upsert_watcher_cursor watcher_name (safe_latest latest) now stored,
      record {
        start_ledger = start;
        latest_ledger = latest;
        next_cursor = safe_latest latest;
        tracked_contracts = contracts;
        stored_events = n;
      },
    )

unfoldable pub sync_watcher_once :
    Rpc → AppConfig → (ℕ → String) → ℕ → Db → Result (Db × WatcherResult)
sync_watcher_once rpc config fresh now db =
    let contracts = tracked_contracts config in
    do
      throw_if (eqb (length contracts) 0) (error "No watcher contract IDs are configured")
      sequence ← rpc.fetch_latest_ledger
      let latest = get_or sequence 0
      let start = start_ledger (get_watcher_cursor watcher_name db) latest
      events ← rpc.get_events start contracts 100
      ok (finish_sync rpc fresh now start latest contracts (get_or events []) db)

pub get_watcher_state : Db → Option WatcherState
get_watcher_state db = get_watcher_cursor watcher_name db
