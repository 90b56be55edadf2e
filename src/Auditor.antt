-- ===== src/Auditor.antt =====
-- backend/src/services/auditor-decrypt.ts and backend/src/routes/auditor.ts: what an auditor asks to be
-- decrypted, the recorded transfer that it names, and the external program that decrypts.
pub mod Reading
pub mod Request
pub mod Laws
pub mod Merging
use nyxfinance.Common.{
  Bool, true, false, not, ◌&&◌, ◌||◌, Option, none, some, String, List, [], ◌∷◌, ◌++◌, ◌==◌, ◌<>◌,
  if◌then◌else◌, get_or, or_else, is_some,
}
use nyxfinance.Json.{Json, null, bool, str, obj, Fields, end, field, get, put, spread}
use nyxfinance.Result.{Fault, Result, ok, err, error, or_fail}
use nyxfinance.Db.{TransferEvidence, Direction, draw, repayment}
use nyxfinance.Db.Anchor.{given}
use nyxfinance.Config.{Env, AppConfig}
use nyxfinance.Emitted.{EventSource}
use nyxfinance.DemoFlow.Profile.{configured}
use nyxfinance.DemoFlow.Fixtures.{Spawned, has_failed}

-- The environment, the events of the network, the runner `cargo run -q -p oz-confidential-runner` with
-- what `JSON.parse` makes of its output, `JSON.parse` of a text, and the message of the schema for a request
-- that it refuses.
pub record Auditor : Type 0 where
  pub env : Env
  pub source : EventSource
  pub spawn : List String → Spawned
  pub parse_object : String → Result Fields
  pub parse_json : String → Result Json
  pub schema_error : Fault

-- `AuditorDecryptInput`
pub record DecryptInput : Type 0 where
  pub r_e : String
  pub v_aud_r : String
  pub sigma : String
  pub secret : Option String
  pub r_aud_r : Option String
  pub v_aud_s : Option String
  pub b_aud_s : Option String

abbrev root_missing : Fault
root_missing = error "OZ_CONFIDENTIAL_ROOT is not configured"

unfoldable pub run_runner_json : Auditor → List String → String → Result Fields
run_runner_json auditor args error_prefix =
    let result = auditor.spawn args in
    if has_failed result.status
    then err (
        error
          (error_prefix <> ": " <> (if result.stderr == "" then result.stdout else result.stderr)))
    else auditor.parse_object result.stdout

unfoldable pub inspect_transfer_data_xdr : Auditor → AppConfig → String → Result Fields
inspect_transfer_data_xdr auditor config data_xdr_base64 =
    if is_some (configured (some config.oz_confidential_root))
    then run_runner_json auditor ("inspect-transfer-xdr" ∷ data_xdr_base64 ∷ [])
        "transfer XDR inspection failed"
    else err root_missing

-- An argument that is given and not empty.
abbrev pushed : Option String → List String
pushed none = []
pushed (some value) = value ∷ []

abbrev has : Option String → Bool
has value = is_some (given value)

abbrev caveat : String
caveat =
    "Demo backend is running auditor tooling. Production should run this decryptor on the auditor-controlled machine or in browser WASM."

abbrev decrypted : Result Fields → Result Fields
decrypted (err e) = err e
decrypted (ok fields) =
    ok (
      spread fields
        (field "plaintextAmountsIncluded" (bool true) (field "caveat" (str caveat) end)))

-- Whether the fields of the sender's channel can be decrypted.
abbrev channel_error : DecryptInput → Option Fault
channel_error input =
    if (has input.v_aud_s || has input.b_aud_s) && not (has input.r_aud_r)
    then some (error "r_aud_r is required when decrypting sender-channel fields")
    else (if has input.b_aud_s && not (has input.v_aud_s)
        then some (error "v_aud_s is required when decrypting b_aud_s")
        else none)

abbrev run_decrypt : Auditor → DecryptInput → Option Fault → Result Fields
run_decrypt auditor input (some e) = err e
run_decrypt auditor input none = decrypted (
    run_runner_json auditor
      ("decrypt-auditor"
          ∷ input.r_e
          ∷ input.v_aud_r
          ∷ input.sigma
          ∷ get_or input.secret "55"
          ∷ pushed (given input.r_aud_r)
        ++ pushed (given input.v_aud_s)
        ++ pushed (given input.b_aud_s))
      "auditor decrypt failed")

-- `decryptAuditorPayload`
unfoldable pub decrypt_auditor_payload : Auditor → AppConfig → DecryptInput → Result Fields
decrypt_auditor_payload auditor config input =
    if is_some (configured (some config.oz_confidential_root))
    then run_decrypt auditor input (channel_error input)
    else err root_missing

unfoldable pub as_record : Json → Result Fields
as_record (obj fs) = ok fs
as_record other = err (error "request body must be an object")

abbrev text_in : Option Json → Option String
text_in (some (str s)) = if s == "" then none else some s
text_in other = none

-- `getString(source, names, false)`
unfoldable pub find_string : Fields → List String → Option String
find_string source [] = none
find_string source (name ∷ names) = or_else (text_in (get name source)) (find_string source names)

-- `getString(source, [name, …])`
abbrev get_string : Fields → String → List String → Result String
get_string source name names =
    or_fail (find_string source (name ∷ names)) (error ("missing " <> name))

abbrev pub is_defined : Json → Bool
is_defined null = false
is_defined (str s) = not (s == "")
is_defined other = true

-- One source of `mergeDefined` over what is merged so far, and all of them.
unfoldable pub merge_into : Fields → Fields → Fields
merge_into merged end = merged
merge_into merged (field key value rest) =
    merge_into (if is_defined value then put key value merged else merged) rest

unfoldable pub merge_all : Fields → List Fields → Fields
unfolding merge_into
merge_all merged [] = merged
merge_all merged (source ∷ sources) = merge_all (merge_into merged source) sources

abbrev pub merge_defined : List Fields → Fields
merge_defined sources = merge_all end sources

abbrev transfer_data_name : Direction → String
transfer_data_name draw = "DRAW_TRANSFER_DATA_XDR_BASE64"
transfer_data_name repayment = "REPAYMENT_TRANSFER_DATA_XDR_BASE64"

abbrev payload_name : Direction → String
payload_name draw = "DRAW_AUDITOR_PAYLOAD_JSON"
payload_name repayment = "REPAYMENT_AUDITOR_PAYLOAD_JSON"

abbrev pub fallback_data_xdr : Auditor → TransferEvidence → Option String
fallback_data_xdr auditor evidence =
    configured (auditor.env (transfer_data_name evidence.direction))

abbrev object_or_empty : Result Json → Fields
object_or_empty (ok (obj fs)) = fs
object_or_empty other = end

abbrev parsed_payload : Auditor → Option String → Fields
parsed_payload auditor none = end
parsed_payload auditor (some text) = object_or_empty (auditor.parse_json text)

-- `fallbackAuditorPayloadForEvidence(evidence) ?? {}`
unfoldable pub fallback_auditor_payload : Auditor → TransferEvidence → Fields
fallback_auditor_payload auditor evidence =
    parsed_payload auditor (configured (auditor.env (payload_name evidence.direction)))
