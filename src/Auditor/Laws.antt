-- ===== src/Auditor/Laws.antt =====
-- What a request to decrypt does to the recorded transfers, and which of its sources gives a field.
use nyxfinance.Common.{
  Bool, true, false, Option, none, some, String, ◌==◌, ◌≡◌, refl, ap, ◌∙◌, if◌then◌else◌, or_else,
}
use mathlib.Core.Option
use nyxfinance.Json.{Json, null, Fields}
use nyxfinance.Result.{Result, ok, err}
use nyxfinance.Sql.{find}
use nyxfinance.Sql.Keys.{keyed, find-update_where_key}
use nyxfinance.Db.{Db, TransferEvidence}
use nyxfinance.Db.Evidence.{
  EvidencePatch, get_evidence_by_id, update_evidence, update_known, patched, write_patch,
}
use nyxfinance.Config.{AppConfig}
use nyxfinance.World.{World, Action, then_run, lift, pure, gets}
use nyxfinance.Auditor.{Auditor, as_record, decrypt_auditor_payload}
use nyxfinance.Auditor.Reading.{parsed}
use nyxfinance.Auditor.Request.{
  merged_payload, raw_data_xdr, unless_fault, not_found, inspected_or, data_of, with_db,
  evidence_id, hydrate_evidence, updating, named_evidence, parse_fields, parse_decrypt_request,
  decrypt_route, reply_of, decrypting,
}

-- A row without the three columns that a request may fill in.
abbrev pub recorded : TransferEvidence → TransferEvidence
recorded e = record e { auditor_payload = none; event_payload = null; data_xdr_base64 = none }

-- Between two states, no call is made and no table but the evidence changes; of the evidence, no row is added or
-- removed, and every one keeps all but the three columns.
pub record Preserves {R : Type 0} (w : World) (q : World × R) : Type 0 where
  pub calls : q.0.calls ≡ w.calls
  pub tables : record q.0.db { evidence = w.db.evidence } ≡ w.db
  pub rows :
      (id : String)
      → Option.map recorded (get_evidence_by_id id q.0.db)
        ≡ Option.map recorded (get_evidence_by_id id w.db)

Preserves-here : {R : Type 0} (w : World) (r : R) → Preserves w (w, r)
Preserves-here w r = record { calls = refl; tables = refl; rows = λ id. refl }

module _ {A B : Type 0} where
  Preserves-then :
      {w : World} (q : World × Result A) (f : A → Action B)
      → Preserves w q
      → ((a : A) (v : World) → Preserves v (f a v))
      → Preserves w (then_run q f)
  Preserves-then (v, err e) f h next = record { calls = h.calls; tables = h.tables; rows = h.rows }
  Preserves-then {w} (v, ok a) f h next =
      let after = next a v in
      record {
        calls = after.calls ∙ h.calls;
        tables = ap (λ (db : Db). record db { evidence = w.db.evidence }) after.tables ∙ h.tables;
        rows = λ id. after.rows id ∙ h.rows id;
      }

get-write_patch :
    (id : String) (patch : EvidencePatch) (current : TransferEvidence) (db : Db) (j : String)
    → Option.map recorded (get_evidence_by_id j (write_patch id patch current db))
      ≡ Option.map recorded (get_evidence_by_id j db)
unfolding get_evidence_by_id
get-write_patch id patch current db j =
    ap (Option.map recorded) (
      find-update_where_key (λ (e : TransferEvidence). e.id) (patched patch current) id j
        db.evidence (λ r. refl))
    ∙ same (find (keyed (λ (e : TransferEvidence). e.id) j) db.evidence) (id == j)
  where
    same :
        (o : Option TransferEvidence) (b : Bool)
        → Option.map recorded (if b then Option.map (patched patch current) o else o)
          ≡ Option.map recorded o
    same none true = refl
    same none false = refl
    same (some r) true = refl
    same (some r) false = refl

update_known-Preserves :
    (id : String) (patch : EvidencePatch) (w : World) (o : Option TransferEvidence)
    → Preserves w (with_db w (update_known id patch w.db o))
update_known-Preserves id patch w none = Preserves-here w _
update_known-Preserves id patch w (some current) = record {
  calls = refl;
  tables = refl;
  rows = λ j. get-write_patch id patch current w.db j;
}

update_if-Preserves :
    (b : Bool) (id : String) (patch : EvidencePatch) (row : Option TransferEvidence) (w : World)
    → Preserves w ((if b then updating id patch else pure row) w)
unfolding update_evidence
update_if-Preserves true id patch row w =
    update_known-Preserves id patch w (get_evidence_by_id id w.db)
update_if-Preserves false id patch row w = Preserves-here w _

hydrate-Preserves :
    (auditor : Auditor) (raw_data : Option String) (o : Option TransferEvidence) (w : World)
    → Preserves w (hydrate_evidence auditor raw_data o w)
hydrate-Preserves auditor raw_data none w = Preserves-here w _
hydrate-Preserves auditor raw_data (some evidence) w = update_if-Preserves _ evidence.id _ _ w

parse_fields-Preserves :
    (auditor : Auditor) (config : AppConfig) (raw : Fields) (w : World)
    → Preserves w (parse_fields auditor config raw w)
unfolding parse_fields
parse_fields-Preserves auditor config raw w =
    let id = evidence_id raw in
    let data_xdr = raw_data_xdr raw in
    Preserves-then (gets (named_evidence id) w) _ (Preserves-here w _) λ stored v.
      Preserves-then (hydrate_evidence auditor data_xdr stored v) _
        (hydrate-Preserves auditor data_xdr stored v)
        λ evidence u.
          Preserves-then (lift (unless_fault (not_found id evidence)) u) _ (Preserves-here u _)
            λ found t.
              Preserves-then
                (lift (inspected_or auditor config (or_else data_xdr (data_of evidence))) t) _
                (Preserves-here t _)
                λ inspected s.
                  Preserves-here s
                    (parsed auditor inspected (merged_payload inspected evidence raw))

reply-Preserves : {w : World} (q : World × Result Fields) → Preserves w q → Preserves w (reply_of q)
reply-Preserves (v, ok fields) h = record { calls = h.calls; tables = h.tables; rows = h.rows }
reply-Preserves (v, err e) h = record { calls = h.calls; tables = h.tables; rows = h.rows }

-- A request to decrypt, whatever it asks for and whether or not it is answered, makes no call and changes no
-- table but the evidence; of the evidence, it adds and removes no row, and leaves every column of a row
-- as it was but the auditor payload, the event payload and the data.
pub decrypt_route-Preserves :
    (auditor : Auditor) (config : AppConfig) (body : Json) (w : World)
    → Preserves w (decrypt_route auditor config body w)
unfolding decrypt_route parse_decrypt_request
decrypt_route-Preserves auditor config body w = reply-Preserves (decrypting auditor config body w) (
    Preserves-then (parse_decrypt_request auditor config body w) _
      (Preserves-then (lift (as_record body) w) _ (Preserves-here w _)
        λ raw v. parse_fields-Preserves auditor config raw v)
      λ input u. Preserves-here u (decrypt_auditor_payload auditor config input))
