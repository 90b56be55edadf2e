-- ===== src/Db/Snapshots.antt =====
-- backend/src/db/sqlite.ts: the table snapshots.
use nyxfinance.Common.{ℕ, Bool, Option, String, ◌==◌}
use nyxfinance.Json.{Json}
use nyxfinance.Sql.{find, upsert_by}
use nyxfinance.Db.{Db, Snapshot}

abbrev pub has_key : String → Snapshot → Bool
has_key key r = r.key == key

abbrev pub snapshot_row : String → Json → String → ℕ → Snapshot
snapshot_row key payload source_status now = record {
  key = key;
  payload = payload;
  source_status = source_status;
  source_timestamp = now;
  created_at = now;
  updated_at = now;
}

-- DO UPDATE SET … = excluded.…
abbrev pub snapshot_update : Snapshot → Snapshot → Snapshot
snapshot_update new old = record old {
  payload = new.payload;
  source_status = new.source_status;
  source_timestamp = new.source_timestamp;
  updated_at = new.updated_at;
}

unfoldable pub upsert_snapshot : String → Json → String → ℕ → Db → Db
upsert_snapshot key payload source_status now db =
    let new = snapshot_row key payload source_status now in
    record db { snapshots = upsert_by (has_key key) (snapshot_update new) new db.snapshots }

unfoldable pub get_snapshot : String → Db → Option Snapshot
get_snapshot key db = find (has_key key) db.snapshots
