-- ===== src/Auditor/Request.antt =====
-- backend/src/routes/auditor.ts: `hydrateEvidence`, `parseDecryptRequest` and the route.
use nyxfinance.Common.{
  ℕ, Bool, true, false, not, ◌&&◌, ◌||◌, Option, none, some, String, List, [], ◌∷◌, ◌==◌, ◌<>◌,
  if◌then◌else◌, or_else,
}
use nyxfinance.Json.{
  Json, null, bool, num, str, arr, obj, Items, nil, cons, Fields, end, field, get,
}
use nyxfinance.Result.{Fault, Result, ok, err, error, message}
use nyxfinance.Db.{Db, TransferEvidence}
use nyxfinance.Db.Evidence.{EvidencePatch, get_evidence_by_id, update_evidence}
use nyxfinance.Config.{AppConfig}
use nyxfinance.World.{World, Action, pure, lift, gets, ◌>>=◌, ◌>>◌}
use nyxfinance.Sep31.{record_or_empty}
use nyxfinance.Auditor.Reading.{is_kind, parsed}
use nyxfinance.Emitted.{fetch_emitted_confidential_event_payload}
use nyxfinance.Evidence.{emitted_event}
use nyxfinance.Auditor.{
  Auditor, DecryptInput, inspect_transfer_data_xdr, decrypt_auditor_payload, as_record, find_string,
  merge_defined, fallback_data_xdr, fallback_auditor_payload,
}

-- Whether two values have the same JSON text.
unfoldable mutual
  same_json : Json → Json → Bool
  same_json null null = true
  same_json (bool true) (bool b) = b
  same_json (bool false) (bool b) = not b
  same_json (num s) (num t) = s == t
  same_json (str s) (str t) = s == t
  same_json (arr vs) (arr ws) = same_items vs ws
  same_json (obj fs) (obj gs) = same_fields fs gs
  same_json _ _ = false

  same_items : Items → Items → Bool
  same_items nil nil = true
  same_items (cons v vs) (cons w ws) = same_json v w && same_items vs ws
  same_items _ _ = false

  pub same_fields : Fields → Fields → Bool
  same_fields end end = true
  same_fields (field j v fs) (field k w gs) = j == k && same_json v w && same_fields fs gs
  same_fields _ _ = false

abbrev is_str : Option Json → Bool
is_str (some (str s)) = true
is_str other = false

unfoldable pub has_decrypt_salt : Fields → Bool
has_decrypt_salt payload = is_str (get "sigma" payload) || is_str (get "sigma_a" payload)

-- `a !== b`, where an absent `a` is undefined and an absent `b` is null
abbrev differs : Option String → Option String → Bool
differs (some s) (some t) = not (s == t)
differs a b = true

-- `.catch((error) => ({ emittedEventBackfillError: … })) ?? {}`
abbrev backfill : Result (Option Fields) → Fields
backfill (ok none) = end
backfill (ok (some fields)) = fields
backfill (err e) = field "emittedEventBackfillError" (str (message e)) end

abbrev recorded_payload : TransferEvidence → Fields
recorded_payload evidence = record_or_empty (some evidence.event_payload)

abbrev event_payload_of : Auditor → TransferEvidence → Bool → Fields
event_payload_of auditor evidence true = recorded_payload evidence
event_payload_of auditor evidence false = merge_defined (
    recorded_payload evidence
    ∷ backfill (
        fetch_emitted_confidential_event_payload auditor.source evidence.token_contract_id
          evidence.tx_hash evidence.ledger (emitted_event evidence.method))
    ∷ [])

abbrev pub with_db : World → Db × Option TransferEvidence → World × Result (Option TransferEvidence)
with_db w (db, row) = (record w { db = db }, ok row)

-- `updateConfidentialTransferEvidence`
abbrev pub updating : String → EvidencePatch → Action (Option TransferEvidence)
updating id patch w = with_db w (update_evidence id patch w.db)

abbrev pub hydrate_known :
    Auditor → Option String → TransferEvidence → Action (Option TransferEvidence)
hydrate_known auditor raw_data evidence =
    let data_xdr =
      or_else (or_else raw_data evidence.data_xdr_base64) (fallback_data_xdr auditor evidence) in
    let recorded = record_or_empty evidence.auditor_payload in
    let payload = merge_defined (fallback_auditor_payload auditor evidence ∷ recorded ∷ []) in
    let salted = has_decrypt_salt (recorded_payload evidence) in
    if differs data_xdr evidence.data_xdr_base64 || not salted || not (same_fields payload recorded)
    then updating evidence.id (record {
      auditor_payload = some (some (obj payload));
      event_payload = some (obj (event_payload_of auditor evidence salted));
      data_xdr_base64 = some (or_else data_xdr evidence.data_xdr_base64);
    })
    else pure (some evidence)

abbrev pub hydrate_evidence :
    Auditor → Option String → Option TransferEvidence → Action (Option TransferEvidence)
hydrate_evidence auditor raw_data none = pure none
hydrate_evidence auditor raw_data (some evidence) = hydrate_known auditor raw_data evidence

abbrev pub named_evidence : Option String → Db → Option TransferEvidence
named_evidence none db = none
named_evidence (some id) db = get_evidence_by_id id db

abbrev pub inspected_or : Auditor → AppConfig → Option String → Result (Option Fields)
inspected_or auditor config none = ok none
inspected_or auditor config (some text) = by_result (inspect_transfer_data_xdr auditor config text)
  where
    by_result : Result Fields → Result (Option Fields)
    by_result (ok fields) = ok (some fields)
    by_result (err e) = err e

-- The properties of an object that have these names.
abbrev pick : List String → Fields → Fields
pick [] fields = end
pick (name ∷ names) fields = one (get name fields) (pick names fields)
  where
    one : Option Json → Fields → Fields
    one none rest = rest
    one (some value) rest = field name value rest

abbrev xdr_payload : Bool → Option Fields → Fields
xdr_payload direct none = end
xdr_payload true (some inspected) =
    pick ("r_e" ∷ "sigma" ∷ "v_aud_r" ∷ "r_aud_r" ∷ "v_aud_s" ∷ "b_aud_s" ∷ []) inspected
xdr_payload false (some inspected) =
    pick ("r_e" ∷ "v_aud_r" ∷ "r_aud_r" ∷ "v_aud_s" ∷ "a_aud_s" ∷ []) inspected

abbrev pub data_of : Option TransferEvidence → Option String
data_of none = none
data_of (some evidence) = evidence.data_xdr_base64

abbrev payloads_of : Option TransferEvidence → List Fields → List Fields
payloads_of none rest = rest
payloads_of (some evidence) rest =
    recorded_payload evidence ∷ record_or_empty evidence.auditor_payload ∷ rest

-- The sources of the fields, each before those that win over it.
unfoldable pub merged_payload : Option Fields → Option TransferEvidence → Fields → Fields
merged_payload inspected evidence raw = merge_defined (
    xdr_payload (is_kind "confidential_transfer" inspected) inspected
    ∷ payloads_of evidence (
        raw
        ∷ record_or_empty (get "eventPayload" raw)
        ∷ record_or_empty (get "auditorPayload" raw)
        ∷ pick ("secret" ∷ []) raw
        ∷ []))

abbrev pub not_found : Option String → Option TransferEvidence → Option Fault
not_found none evidence = none
not_found (some id) (some evidence) = none
not_found (some id) none = some (error ("auditor evidence not found: " <> id))

abbrev pub unless_fault : Option Fault → Result (Unit {0})
unless_fault none = ok tt
unless_fault (some e) = err e

abbrev pub evidence_id : Fields → Option String
evidence_id raw = find_string raw ("evidenceId" ∷ "eventId" ∷ [])

abbrev pub raw_data_xdr : Fields → Option String
raw_data_xdr raw = find_string raw ("dataXdrBase64" ∷ [])

-- `parseDecryptRequest` after the test of the body
unfoldable pub parse_fields : Auditor → AppConfig → Fields → Action DecryptInput
unfolding parsed
parse_fields auditor config raw = do
  let id = evidence_id raw
  stored ← gets (named_evidence id)
  evidence ← hydrate_evidence auditor (raw_data_xdr raw) stored
  lift (unless_fault (not_found id evidence))
  inspected ← lift (inspected_or auditor config (or_else (raw_data_xdr raw) (data_of evidence)))
  lift (parsed auditor inspected (merged_payload inspected evidence raw))

unfoldable pub parse_decrypt_request : Auditor → AppConfig → Json → Action DecryptInput
unfolding parse_fields
parse_decrypt_request auditor config body = do
  raw ← lift (as_record body)
  parse_fields auditor config raw

pub record Reply : Type 0 where
  pub code : ℕ
  pub body : Fields

abbrev pub reply_of : World × Result Fields → World × Reply
reply_of (w, ok fields) = (w, record { code = 200; body = fields })
reply_of (w, err e) = (w, record { code = 422; body = field "error" (str (message e)) end })

abbrev pub decrypting : Auditor → AppConfig → Json → Action Fields
decrypting auditor config body = do
  input ← parse_decrypt_request auditor config body
  lift (decrypt_auditor_payload auditor config input)

-- POST /api/auditor/decrypt
unfoldable pub decrypt_route : Auditor → AppConfig → Json → World → World × Reply
unfolding parse_decrypt_request
decrypt_route auditor config body w = reply_of (decrypting auditor config body w)
