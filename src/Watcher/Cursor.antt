-- ===== src/Watcher/Cursor.antt =====
-- Where a synchronisation of the watcher starts and where it leaves the cursor.
use nyxfinance.Common.{
  ℕ, ◌+◌, ◌≤◌, String, ◌≡◌, refl, ◌∙◌, Option, none, some, List, [], ◌==◌, eq_refl, arith, taken,
  get_or, length, eqb,
}
use nyxfinance.Sql.{find}
use nyxfinance.Sql.Keys.{find-upsert_by, merged}
use nyxfinance.Result.{ok, OnOk->>=, OnOk_out, throw_if, error}
use nyxfinance.Db.{Db, WatcherState}
use nyxfinance.Db.Events.{upsert_watcher_cursor, get_watcher_cursor, watcher_row, watcher_update}
use nyxfinance.Config.{AppConfig}
use nyxfinance.Watcher.{
  Rpc, RpcEvent, watcher_name, safe_latest, start_ledger, finish_sync, sync_watcher_once,
  get_watcher_state, WatcherResult, tracked_contracts,
}

-- A synchronisation starts at a ledger from 1 on. With a cursor, it starts no later than the ledger after the
-- cursor and than the last ledger that is safe to read, so that no ledger is left out, and
-- exactly after the cursor where the chain has advanced by a ledger.
pub start_ledger-bounds :
    (cursor : WatcherState) (latest : ℕ)
    → (1 ≤ start_ledger none latest)
      × (1 ≤ start_ledger (some cursor) latest)
      × (start_ledger (some cursor) latest ≤ cursor.cursor + 1)
      × (start_ledger (some cursor) latest ≤ safe_latest latest)
      × (cursor.cursor + 1 ≤ safe_latest latest
          → start_ledger (some cursor) latest ≡ cursor.cursor + 1)
unfolding start_ledger safe_latest
start_ledger-bounds cursor latest =
    (omega arith, omega arith, omega arith, omega arith, λ h. omega arith)

get-upsert_watcher_cursor :
    (name : String) (cursor now : ℕ) (db : Db)
    → (state : WatcherState) × (get_watcher_cursor name (upsert_watcher_cursor name cursor now db)
        ≡ some state)
      × (state.cursor ≡ cursor)
      × (state.updated_at ≡ now)
unfolding get_watcher_cursor upsert_watcher_cursor
get-upsert_watcher_cursor name cursor now db =
    let e =
      find-upsert_by (λ r. r.name) (watcher_update cursor now) (watcher_row name cursor now)
        db.watcher_state name (λ r. refl)
      ∙ taken _ _ (eq_refl name) in
    row (find (λ r. r.name == name) db.watcher_state) e
  where
    row :
        (old : Option WatcherState)
        → get_watcher_cursor name (upsert_watcher_cursor name cursor now db)
          ≡ some
              (merged (λ r. r.name) (watcher_update cursor now) (watcher_row name cursor now) old)
        → (state : WatcherState) × (get_watcher_cursor name
              (upsert_watcher_cursor name cursor now db)
            ≡ some state)
          × (state.cursor ≡ cursor)
          × (state.updated_at ≡ now)
    row none e = (_, e, refl, refl)
    row (some r) e = (_, e, refl, refl)

abbrev pub LeavesCursor : Db × WatcherResult → Type 0
LeavesCursor (db, result) =
    (state : WatcherState) × (get_watcher_state db ≡ some state)
    × (state.cursor ≡ result.next_cursor)
    × (result.next_cursor ≡ safe_latest result.latest_ledger)
    × ((latest : ℕ) → start_ledger (get_watcher_state db) latest ≤ result.next_cursor + 1)

next_start :
    (o : Option WatcherState) (state : WatcherState) (cursor : ℕ)
    → o ≡ some state
    → state.cursor ≡ cursor
    → (latest : ℕ) → start_ledger o latest ≤ cursor + 1
next_start none state cursor found same latest = ground arith
next_start (some s) state cursor found same latest =
    let (_, _, bound, _, _) = start_ledger-bounds s latest in ground (arith, bound)

finish_sync-LeavesCursor :
    (rpc : Rpc) (fresh : ℕ → String) (now start latest : ℕ) (contracts : List String)
    (events : List RpcEvent) (db : Db)
    → LeavesCursor (finish_sync rpc fresh now start latest contracts events db)
unfolding finish_sync get_watcher_state
finish_sync-LeavesCursor rpc fresh now start latest contracts events db =
    let (state, found, cursor, _) =
      get-upsert_watcher_cursor watcher_name (safe_latest latest) now _ in
    (state, found, cursor, refl, next_start _ state (safe_latest latest) found cursor)

-- A synchronisation that succeeds leaves the cursor at the ledger it reports, the last one that was safe to read,
-- and the next synchronisation starts no later than the ledger after it.
pub sync_watcher-LeavesCursor :
    (rpc : Rpc) (config : AppConfig) (fresh : ℕ → String) (now : ℕ) (db db' : Db)
    (result : WatcherResult)
    → sync_watcher_once rpc config fresh now db ≡ ok (db', result)
    → LeavesCursor (db', result)
unfolding sync_watcher_once
sync_watcher-LeavesCursor rpc config fresh now db db' result h =
    OnOk_out LeavesCursor (sync_watcher_once rpc config fresh now db)
      (OnOk->>= LeavesCursor
        (throw_if (eqb (length (tracked_contracts config)) 0)
          (error "No watcher contract IDs are configured"))
        _
        λ _ _. OnOk->>= LeavesCursor rpc.fetch_latest_ledger _ λ _ _.
          OnOk->>= LeavesCursor (rpc.get_events _ _ _) _
            λ events _. finish_sync-LeavesCursor rpc fresh now _ _ _ (get_or events []) db)
      h
