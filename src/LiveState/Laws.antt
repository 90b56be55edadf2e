-- ===== src/LiveState/Laws.antt =====
-- `getDemoState` of backend/src/services/demo-state.ts when the network is gone.
use mathlib.Core.Path.{subst}
use nyxfinance.Common.{ℕ, String, ◌≡◌, refl, ap, ◌∙◌, Option, none, some}
use nyxfinance.Json.{Json, obj, Fields}
use nyxfinance.Result.{Fault, Result, ok, err, message}
use nyxfinance.Db.{Db, Snapshot}
use nyxfinance.Db.Snapshots.{get_snapshot}
use nyxfinance.Config.{AppConfig}
use nyxfinance.DemoFlow.State.Laws.{written, get-upsert_snapshot}
use nyxfinance.StellarRpc.{Net}
use nyxfinance.LiveState.{Answers, fetch_all, stellar_fields, live_key}
use nyxfinance.LiveState.View.{
  Seen, live, unavailable, cache, from_cache, seen, kept, built, build_live_snapshot,
  get_demo_state,
}

-- After a live answer, what the cache holds is that answer.
abbrev Kept : ℕ → Db × Seen → Type 0
Kept now (u, live s) =
    (failure : String)
    → from_cache failure (get_snapshot live_key u) ≡ cache (obj s) "live" now now failure
Kept now (u, unavailable failure) = Unit {0}
Kept now (u, cache s status stamp updated failure) = Unit {0}

from_written :
    (payload : Json) (now : ℕ) (old : Option Snapshot) (failure : String)
    → from_cache failure (some (written live_key payload now old))
      ≡ cache payload "live" now now failure
from_written payload now none failure = refl
from_written payload now (some row) failure = refl

from_cache-Kept :
    (now : ℕ) (u : Db) (failure : String) (r : Option Snapshot) → Kept now (u, from_cache failure r)
from_cache-Kept now u failure none = tt
from_cache-Kept now u failure (some row) = tt

kept-Kept :
    (config : AppConfig) (now : ℕ) (db : Db) (answers : Answers) (r : Result Fields)
    → Kept now (seen (kept config now db answers r))
kept-Kept config now db answers (err e) = from_cache-Kept now db (message e) _
kept-Kept config now db answers (ok stellar) = λ failure.
    ap (from_cache failure) (get-upsert_snapshot live_key _ now db live_key)
    ∙ from_written _ now (get_snapshot live_key db) failure

built-Kept :
    (config : AppConfig) (now : ℕ) (db : Db) (r : Result Answers)
    → Kept now (seen (built config now db r))
built-Kept config now db (err e) = from_cache-Kept now db (message e) _
built-Kept config now db (ok answers) = kept-Kept config now db answers (stellar_fields answers)

get_demo_state-Kept :
    (net : Net) (config : AppConfig) (now : ℕ) (db : Db)
    → Kept now (get_demo_state net config now db)
unfolding get_demo_state build_live_snapshot
get_demo_state-Kept net config now db = built-Kept config now db (fetch_all net config)

-- If the state was seen live, then later, when one of the requests that must succeed fails, in any database that
-- holds the same snapshot of it, what is seen is that same state from the cache, with the time at which it was
-- seen live and the reason of the failure, and the database is as it was.
pub get_demo_state-falls_back :
    (net gone : Net) (config : AppConfig) (now later : ℕ) (db u v : Db) (s : Fields) (e : Fault)
    → get_demo_state net config now db ≡ (v, live s)
    → fetch_all gone config ≡ err e
    → get_snapshot live_key u ≡ get_snapshot live_key v
    → get_demo_state gone config later u ≡ (u, cache (obj s) "live" now now (message e))
unfolding get_demo_state build_live_snapshot
get_demo_state-falls_back net gone config now later db u v s e saw failed same =
    ap (λ r. seen (built config later u r)) failed
    ∙ ap (λ r. (u, from_cache (message e) r)) same
    ∙ ap (λ r. (u, r)) (subst (Kept now) saw (get_demo_state-Kept net config now db) (message e))
