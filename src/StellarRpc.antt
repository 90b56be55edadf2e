-- ===== src/StellarRpc.antt =====
-- backend/src/services/stellar-rpc.ts: a request to the RPC server and the reads of the other servers,
-- over HTTP.
use nyxfinance.Common.{
  ℕ, Bool, ◌&&◌, Option, none, some, String, List, [], ◌∷◌, leb, if◌then◌else◌, ◌<>◌, get_or,
  decimal,
}
use nyxfinance.Json.{Json, null, obj, get}
use nyxfinance.Result.{Fault, Result, ok, err, error}

-- A response of `fetch`: its status and what its body is read as.
pub record Response (A : Type 0) : Type 0 where
  pub status : ℕ
  pub body : Result A

-- The body of an RPC response; the message of an error may be absent.
pub record RpcPayload : Type 0 where
  pub result : Option Json
  pub failure : Option (Option String)

-- `fetch`, which throws where no response arrives: a POST of an RPC method without parameters by URL and method,
-- and the GETs of a JSON value and of a text by URL; `first` is the failure that `Promise.all` sees first, of
-- those of requests that are made at once.
pub record Net : Type 0 where
  pub post : String → String → Result (Response RpcPayload)
  pub get_json : String → Result (Response Json)
  pub get_text : String → Result (Response String)
  pub first : Fault → List Fault → Fault

-- `response.ok`
abbrev is_ok_status : ℕ → Bool
is_ok_status status = leb 200 status && leb status 299

-- The body of a response, or the error of a request that fails with its status.
abbrev body_or : {A : Type 0} → String → Result (Response A) → Result A
body_or what (err e) = err e
body_or what (ok response) =
    if is_ok_status response.status
    then response.body
    else err (error (what <> " failed with HTTP " <> decimal response.status))

abbrev refused : String → Option (Option String) → Option Json → Result Json
refused method (some reason) value =
    err (error ("RPC " <> method <> " returned " <> get_or reason "unknown error"))
refused method none none = err (error ("RPC " <> method <> " returned no result"))
refused method none (some value) = ok value

abbrev result_of : String → Result RpcPayload → Result Json
result_of method (err e) = err e
result_of method (ok payload) = refused method payload.failure payload.result

unfoldable pub rpc_request : Net → String → String → Result Json
rpc_request net url method = result_of method (body_or ("RPC " <> method) (net.post url method))

abbrev pub fetch_rpc_health : Net → String → Result Json
fetch_rpc_health net url = rpc_request net url "getHealth"

abbrev pub fetch_latest_ledger : Net → String → Result Json
fetch_latest_ledger net url = rpc_request net url "getLatestLedger"

unfoldable pub fetch_horizon_root : Net → String → Result Json
fetch_horizon_root net url = body_or "Horizon root" (net.get_json url)

unfoldable pub fetch_anchor_toml : Net → String → Result String
fetch_anchor_toml net url = body_or "Anchor TOML" (net.get_text url)

-- `value.key`, which throws on null
unfoldable pub property : String → Json → Result (Option Json)
property key null = err (error ("Cannot read properties of null (reading '" <> key <> "')"))
property key (obj fs) = ok (get key fs)
property key other = ok none

abbrev pub failures : List (Result Json) → List Fault
failures [] = []
failures (ok value ∷ rest) = failures rest
failures (err e ∷ rest) = e ∷ failures rest
