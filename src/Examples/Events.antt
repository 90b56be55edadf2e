-- ===== src/Examples/Events.antt =====
-- The watcher at concrete events.
use nyxfinance.Common.{
  ℕ, zero, suc, ap, eq_iff, ◌+◌, ◌≤◌, none, some, String, List, [], ◌∷◌, ◌≡◌, refl,
}
use nyxfinance.Json.{obj, end}
use nyxfinance.Result.{ok}
use nyxfinance.Db.{Db, empty_db}
use nyxfinance.Watcher.{
  Rpc, RpcEvent, finish_sync, tracked_contracts, sync_watcher_once, store_events, safe_latest,
  start_ledger, WatcherResult,
}
use nyxfinance.Watcher.Cursor.{start_ledger-bounds, LeavesCursor, sync_watcher-LeavesCursor}
use nyxfinance.Watcher.Laws.{AreFresh, store_events-store_events}
use nyxfinance.Sql.{find}
use nyxfinance.Db.Events.{get_watcher_cursor}
use nyxfinance.Examples.{test_config}

abbrev draw_event : RpcEvent
draw_event = record {
  camel_contract_id = some "CLINE";
  contract_id = none;
  ledger = some 90;
  topic = some ("DrawExecuted" ∷ []);
  topics = none;
  camel_paging_token = some "1";
  paging_token = none;
  camel_tx_hash = some "hash";
  tx_hash = none;
  body = obj end;
}

abbrev test_rpc : Rpc
test_rpc = record {
  fetch_latest_ledger = ok (some 100);
  get_events = λ start contracts limit. ok (some (draw_event ∷ draw_event ∷ []));
  decode_topic = λ t. some t;
}

start_ledger-bounds_example :
    (1 ≤ start_ledger none 100)
    × (1 ≤ start_ledger (some (record { name = "w"; cursor = 90; updated_at = 1 })) 100)
    × (start_ledger (some (record { name = "w"; cursor = 90; updated_at = 1 })) 100 ≤ 90 + 1)
    × (start_ledger (some (record { name = "w"; cursor = 90; updated_at = 1 })) 100
        ≤ safe_latest 100)
    × (90 + 1 ≤ safe_latest 100
        → start_ledger (some (record { name = "w"; cursor = 90; updated_at = 1 })) 100 ≡ 90 + 1)
start_ledger-bounds_example =
    start_ledger-bounds (record { name = "w"; cursor = 90; updated_at = 1 }) 100

-- The identifiers "", "e", "ee" and so on.
abbrev fresh_ids : ℕ → String
fresh_ids zero = ""
fresh_ids (suc n) = String.◌∷◌ "e" (fresh_ids n)

fresh_ids-injective : (i j : ℕ) → fresh_ids i ≡ fresh_ids j → i ≡ j
fresh_ids-injective zero zero e = refl
fresh_ids-injective zero (suc j) e = cc
fresh_ids-injective (suc i) zero e = cc
fresh_ids-injective (suc i) (suc j) e = ap suc (fresh_ids-injective i j cc)

fresh_to_empty : AreFresh (λ t. some t) fresh_ids empty_db
fresh_to_empty =
    ((λ i. refl), λ i j e. fresh_ids-injective i j ((eq_iff (fresh_ids i) (fresh_ids j)).0 e))

store_events-store_events_example :
    store_events
      (λ t. some t)
      fresh_ids
      10
      (draw_event ∷ [])
      (store_events (λ t. some t) fresh_ids 9 (draw_event ∷ []) empty_db).0
    ≡ ((store_events (λ t. some t) fresh_ids 9 (draw_event ∷ []) empty_db).0, 0)
store_events-store_events_example =
    store_events-store_events (λ t. some t) fresh_ids fresh_ids 9 10 (draw_event ∷ []) empty_db
      fresh_to_empty

abbrev tracked : List String
tracked = "CLINE" ∷ "CCUSDC" ∷ "CHISTORY" ∷ []

abbrev synced : Db × WatcherResult
synced = finish_sync test_rpc fresh_ids 9 1 100 tracked (draw_event ∷ draw_event ∷ []) empty_db

sync_succeeds :
    sync_watcher_once test_rpc test_config fresh_ids 9 empty_db ≡ ok (synced.0, synced.1)
unfolding sync_watcher_once tracked_contracts get_watcher_cursor find start_ledger
sync_succeeds = refl

sync_watcher-LeavesCursor_example : LeavesCursor synced
sync_watcher-LeavesCursor_example =
    sync_watcher-LeavesCursor test_rpc test_config fresh_ids 9 empty_db synced.0 synced.1
      sync_succeeds
