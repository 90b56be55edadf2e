-- ===== src/Db/Evidence.antt =====
-- backend/src/db/sqlite.ts: the table confidential_transfer_evidence.
use nyxfinance.Common.{
  ℕ, Bool, true, false, ◌&&◌, Option, none, some, String, ◌==◌, get_or, List, take, select, min,
  max,
}
use nyxfinance.Json.{Json}
use nyxfinance.Sql.{find, insert, latest, update_where, newest_first}
use nyxfinance.Result.{Result}
use nyxfinance.Db.{Db, TransferEvidence, stored}
use nyxfinance.Db.Anchor.{given}
use nyxfinance.Db.Jobs.{json_or_null}

abbrev pub has_evidence_id : String → TransferEvidence → Bool
has_evidence_id id e = e.id == id

-- The row's `created_at` is `nowIso()`.
unfoldable pub insert_evidence : TransferEvidence → Db → Result Db
unfolding insert
insert_evidence e db =
    stored "confidential_transfer_evidence" (λ rows. record db { evidence = rows })
      (insert (has_evidence_id e.id) (record e { auditor_payload = json_or_null e.auditor_payload })
        db.evidence)

unfoldable pub get_evidence_by_id : String → Db → Option TransferEvidence
get_evidence_by_id id db = find (has_evidence_id id) db.evidence

-- A field of the patch that is `undefined` is `none`; one that is `null` is `some none`.
pub record EvidencePatch : Type 0 where
  pub auditor_payload : Option (Option Json)
  pub event_payload : Option Json
  pub data_xdr_base64 : Option (Option String)

-- The values that the UPDATE writes, computed from the row as it was read.
abbrev pub patched : EvidencePatch → TransferEvidence → TransferEvidence → TransferEvidence
patched patch current row = record row {
  auditor_payload = json_or_null (get_or patch.auditor_payload current.auditor_payload);
  event_payload = get_or patch.event_payload current.event_payload;
  data_xdr_base64 = get_or patch.data_xdr_base64 current.data_xdr_base64;
}

abbrev pub write_patch : String → EvidencePatch → TransferEvidence → Db → Db
write_patch id patch current db = record db {
  evidence = update_where (has_evidence_id id) (patched patch current) db.evidence;
}

abbrev pub update_known :
    String → EvidencePatch → Db → Option TransferEvidence → Db × Option TransferEvidence
update_known id patch db none = (db, none)
update_known id patch db (some current) =
    (write_patch id patch current db, get_evidence_by_id id (write_patch id patch current db))

unfoldable pub update_evidence : String → EvidencePatch → Db → Db × Option TransferEvidence
update_evidence id patch db = update_known id patch db (get_evidence_by_id id db)

pub record EvidenceFilter : Type 0 where
  pub position_id : Option String
  pub anchor_transaction_id : Option String
  pub limit : Option ℕ

-- `Math.max(1, Math.min(input.limit ?? 20, 100))`
abbrev pub clamp_limit : Option ℕ → ℕ
clamp_limit limit = max 1 (min (get_or limit 20) 100)

abbrev matches_position : Option String → TransferEvidence → Bool
matches_position none e = true
matches_position (some id) e = e.position_id == id

abbrev matches_anchor : Option String → Option String → Bool
matches_anchor none column = true
matches_anchor (some id) none = false
matches_anchor (some id) (some column) = column == id

-- The WHERE clause that the two optional conditions make.
abbrev pub matches : EvidenceFilter → TransferEvidence → Bool
matches input e =
    matches_position (given input.position_id) e
    && matches_anchor (given input.anchor_transaction_id) e.anchor_transaction_id

unfoldable pub list_evidence : EvidenceFilter → Db → List TransferEvidence
unfolding newest_first
list_evidence input db =
    take (clamp_limit input.limit)
      (newest_first (λ e. e.created_at) (select (matches input) db.evidence))

pub get_latest_evidence : Db → Option TransferEvidence
get_latest_evidence db = latest (λ _. true) (λ e. e.created_at) db.evidence
