-- ===== src/Db.antt =====
-- The tables of backend/src/db/migrations.ts, with the rows as backend/src/db/sqlite.ts reads and
-- writes them. A time is the number of milliseconds behind the ISO text that the code stores; the
-- texts order as the numbers do.
pub mod Anchor
pub mod Quotes
pub mod Jobs
pub mod Events
pub mod Evidence
pub mod Snapshots
pub mod Disclosures
use nyxfinance.Common.{ℕ, Bool, Option, none, some, String, List, [], ◌≡◌, refl}
use nyxfinance.Result.{Result, ok, err, constraint}
use nyxfinance.Json.{Json}
use nyxfinance.Status.{SepStatus, ProductStatus}

pub data ProofJobStatus : Type 0 where
  queued running succeeded failed : ProofJobStatus

-- `type` is the text of the column: "collateral_sufficiency", "repayment_history".
pub record ProofJob : Type 0 where
  pub id : String
  pub type : String
  pub status : ProofJobStatus
  pub payload : Json
  pub result : Option Json
  pub failure : Option String
  pub attempts : ℕ
  pub created_at : ℕ
  pub updated_at : ℕ

-- The cursor is a TEXT column, to which the watcher writes the decimal text of a ledger and which it reads by
-- `Number`. It is the ledger here, so that another text, which `Number` would make `NaN`, has no counterpart.
pub record WatcherState : Type 0 where
  pub name : String
  pub cursor : ℕ
  pub updated_at : ℕ

pub record Snapshot : Type 0 where
  pub key : String
  pub payload : Json
  pub source_status : String
  pub source_timestamp : ℕ
  pub created_at : ℕ
  pub updated_at : ℕ

pub record Customer : Type 0 where
  pub customer_id : String
  pub account : String
  pub status : String
  pub memo : Option String
  pub reason : Option String
  pub raw : Json
  pub created_at : ℕ
  pub updated_at : ℕ

pub record AnchorTransaction : Type 0 where
  pub id : String
  pub anchor_transaction_id : String
  pub stellar_transaction_id : Option String
  pub account : String
  pub sep_status : SepStatus
  pub product_status : ProductStatus
  pub amount_in : Option String
  pub amount_out : Option String
  pub asset_code : Option String
  pub raw : Json
  pub created_at : ℕ
  pub updated_at : ℕ

-- backend/src/types/quote.ts. `participantApproved` and `source` are the constants true and "chain";
-- the fee's decimal text is modelled by its number.
pub record Quote : Type 0 where
  pub id : String
  pub account : String
  pub anchor_transaction_id : Option String
  pub collateral_token : String
  pub requested_credit_amount : String
  pub tenor_days : ℕ
  pub oracle_price_e7 : String
  pub oracle_updated_ledger : Option ℕ
  pub haircut_bps : ℕ
  pub max_tenor_days : ℕ
  pub fee_bps : ℕ
  pub fee_amount : ℕ
  pub expires_at : ℕ

pub record QuoteRow : Type 0 where
  pub quote : Quote
  pub created_at : ℕ

pub record ContractEvent : Type 0 where
  pub id : String
  pub contract_id : String
  pub event_name : String
  pub ledger : Option ℕ
  pub paging_token : Option String
  pub tx_hash : Option String
  pub payload : Json
  pub created_at : ℕ

pub data Direction : Type 0 where
  draw repayment : Direction

pub data TransferMethod : Type 0 where
  confidential_transfer confidential_transfer_from : TransferMethod

pub record TransferEvidence : Type 0 where
  pub id : String
  pub anchor_transaction_id : Option String
  pub position_id : String
  pub direction : Direction
  pub token_contract_id : String
  pub method : TransferMethod
  pub signer : String
  pub spender : Option String
  pub from_account : String
  pub to_account : String
  pub transfer_commitment : Option String
  pub tx_hash : String
  pub ledger : Option ℕ
  pub auditor_payload : Option Json
  pub event_payload : Json
  pub data_xdr_sha256 : String
  pub data_xdr_base64 : Option String
  pub created_at : ℕ

pub record RepaymentLeaf : Type 0 where
  pub id : String
  pub position_id : String
  pub leaf_nullifier : String
  pub repayment_commitment : String
  pub paid_ledger : ℕ
  pub due_ledger : ℕ
  pub on_time : Bool
  pub tx_hash : Option String
  pub created_at : ℕ

pub record DisclosureBundle : Type 0 where
  pub id : String
  pub grant_id : String
  pub owner : String
  pub viewer_hash : String
  pub position_id : String
  pub event_hash : String
  pub scope_hash : String
  pub bundle_hash : String
  pub ciphertext : String
  pub nonce : String
  pub auth_tag : String
  pub on_chain_tx_hash : Option String
  pub revoked : Bool
  pub expires_at_ledger : ℕ
  pub created_at : ℕ
  pub updated_at : ℕ

pub record Db : Type 0 where
  pub proof_jobs : List ProofJob
  pub watcher_state : List WatcherState
  pub snapshots : List Snapshot
  pub anchor_customers : List Customer
  pub anchor_transactions : List AnchorTransaction
  pub quotes : List QuoteRow
  pub contract_events : List ContractEvent
  pub evidence : List TransferEvidence
  pub repayment_leaves : List RepaymentLeaf
  pub disclosure_bundles : List DisclosureBundle

-- The database after the first `runMigrations`.
abbrev pub empty_db : Db
empty_db = record {
  proof_jobs = [];
  watcher_state = [];
  snapshots = [];
  anchor_customers = [];
  anchor_transactions = [];
  quotes = [];
  contract_events = [];
  evidence = [];
  repayment_leaves = [];
  disclosure_bundles = [];
}

-- The outcome of an INSERT: the driver throws where a constraint fails.
abbrev pub stored : {R : Type 0} → String → (List R → Db) → Option (List R) → Result Db
stored table set none = err (constraint table)
stored table set (some rows) = ok (set rows)

pub stored-eq-ok :
    {R : Type 0} (table : String) (set : List R → Db) (o : Option (List R)) {db : Db}
    → stored table set o ≡ ok db
    → (rows : List R) × (o ≡ some rows) × (set rows ≡ db)
stored-eq-ok table set none h = cc
stored-eq-ok table set (some rows) h = (rows, refl, cc)
