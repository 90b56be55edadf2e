-- ===== src/Db/Events.antt =====
-- backend/src/db/sqlite.ts: the tables contract_events and watcher_state.
use nyxfinance.Common.{ℕ, Bool, not, ◌&&◌, ◌||◌, Option, String, ◌==◌, get_or, any}
use nyxfinance.Sql.{find, insert_or_ignore, upsert_by}
use nyxfinance.Db.{Db, ContractEvent, WatcherState}

-- The unique index: contract_id, event_name, COALESCE(tx_hash, ''), COALESCE(paging_token, '').
abbrev pub same_event : ContractEvent → ContractEvent → Bool
same_event e f =
    f.contract_id == e.contract_id
    && f.event_name == e.event_name
    && get_or f.tx_hash "" == get_or e.tx_hash ""
    && get_or f.paging_token "" == get_or e.paging_token ""

-- The primary key or the unique index.
abbrev pub event_clash : ContractEvent → ContractEvent → Bool
event_clash e f = f.id == e.id || same_event e f

-- INSERT OR IGNORE; the result is `changes > 0`.
unfoldable pub insert_contract_event : ContractEvent → Db → Db × Bool
unfolding insert_or_ignore
insert_contract_event event db = (
  record db { contract_events = insert_or_ignore (event_clash event) event db.contract_events },
  not (any (event_clash event) db.contract_events),
)

abbrev pub has_watcher_name : String → WatcherState → Bool
has_watcher_name name r = r.name == name

abbrev pub watcher_row : String → ℕ → ℕ → WatcherState
watcher_row name cursor now = record { name = name; cursor = cursor; updated_at = now }

abbrev pub watcher_update : ℕ → ℕ → WatcherState → WatcherState
watcher_update cursor now r = record r { cursor = cursor; updated_at = now }

unfoldable pub upsert_watcher_cursor : String → ℕ → ℕ → Db → Db
upsert_watcher_cursor name cursor now db = record db {
  watcher_state =
      upsert_by (has_watcher_name name) (watcher_update cursor now) (watcher_row name cursor now)
        db.watcher_state;
}

unfoldable pub get_watcher_cursor : String → Db → Option WatcherState
get_watcher_cursor name db = find (has_watcher_name name) db.watcher_state
