-- ===== src/Evidence/Laws.antt =====
-- `recordConfidentialTransferEvidence` of backend/src/services/confidential-token-transfer.ts and the
-- table of evidence.
use nyxfinance.Common.{ℕ, String, ◌≡◌, refl, false, [], ◌∷◌, ◌++◌, ◌==◌, any}
use nyxfinance.Sql.{insert}
use nyxfinance.Result.{ok}
use nyxfinance.Db.{Db, TransferEvidence}
use nyxfinance.Db.Evidence.{has_evidence_id, insert_evidence}
use nyxfinance.World.{World}
use nyxfinance.Evidence.{
  Platform, EvidenceInput, TransferResult, standard_base64, decode_data_xdr,
  record_confidential_transfer_evidence,
}

-- The database with one more row of evidence.
abbrev pub with_evidence : TransferEvidence → Db → Db
with_evidence row db = record db { evidence = db.evidence ++ row ∷ [] }

-- No row of evidence has this id.
abbrev pub EvidenceFresh : String → Db → Type 0
EvidenceFresh id db = any (has_evidence_id id) db.evidence ≡ false

-- What the row of a transfer says.
abbrev pub IsEvidenceOf : EvidenceInput → TransferEvidence → Type 0
IsEvidenceOf input row =
    (row.tx_hash ≡ input.tx_hash)
    × (row.position_id ≡ input.position_id)
    × (row.direction ≡ input.direction)
    × (row.anchor_transaction_id ≡ input.anchor_transaction_id)
    × (row.from_account ≡ input.from_account)
    × (row.to_account ≡ input.to_account)

-- If the transfer's data is not empty and the id is new, the transfer is recorded: one row is added
-- that names the transaction, the position, the direction and the two accounts, and nothing else
-- changes, whatever the network reports of the event.
pub record_evidence_total :
    (platform : Platform) (fresh : String) (now : ℕ) (input : EvidenceInput) (w : World)
    → (platform.from_base64 (standard_base64 input.data_xdr_base64) == "") ≡ false
    → EvidenceFresh fresh w.db
    → (row : TransferEvidence) × (result : TransferResult) × IsEvidenceOf input row
      × (record_confidential_transfer_evidence platform fresh now input w
          ≡ (record w { db = with_evidence row w.db }, ok result))
unfolding record_confidential_transfer_evidence decode_data_xdr insert_evidence insert
record_evidence_total platform fresh now input w full new =
    rw (full, new) (_, _, (refl, refl, refl, refl, refl, refl), refl)
