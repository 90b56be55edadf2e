-- ===== src/Sep12.antt =====
-- backend/src/services/sep12.ts: SEP-12 customers.
pub mod Laws
use nyxfinance.Common.{
  ℕ, String, not, ◌||◌, Option, none, some, ◌==◌, if◌then◌else◌, or_else, get_or, to_lower,
}
use nyxfinance.Json.{Json, str, obj, Fields, end, field, get, put, nullish, of_option}
use nyxfinance.Status.{CustomerStatus, accepted, rejected, pending, needs_info, customer_text}
use nyxfinance.Db.{Db, Customer}
use nyxfinance.Db.Anchor.{CustomerInput, upsert_customer_status, get_customer_by_id_or_account}
use nyxfinance.Config.{AppConfig}
use nyxfinance.World.{Chain, Action, pure, modify, ◌>>=◌, ◌>>◌}
use nyxfinance.PolicySync.{SyncResult}
use nyxfinance.AnchorPlatform.{sync_decided, decision}
use nyxfinance.Sep31.{record_or_empty}

unfoldable pub to_internal_status : Option String → CustomerStatus
to_internal_status status =
    let normalized = to_lower (get_or status "NEEDS_INFO") in
    if normalized == "accepted"
    then accepted
    else if normalized == "rejected"
    then rejected
    else if normalized == "processing" || normalized == "pending"
    then pending
    else needs_info

-- The text that the API answers with, from the text of the column.
unfoldable pub to_sep12_status : String → String
to_sep12_status status =
    if status == "accepted"
    then "ACCEPTED"
    else if status == "rejected"
    then "REJECTED"
    else if status == "pending"
    then "PROCESSING"
    else "NEEDS_INFO"

-- What `getSep12Customer` returns: the two object literals.
pub data CustomerView : Type 0 where
  unknown : (type : String) → CustomerView
  known :
      (id account : String) (memo : Option String) (status type : String) (message : Option String)
      (provided_fields : Json) (updated_at : ℕ)
      → CustomerView

-- `typeof raw.type === "string" ? raw.type : input.type ?? "sep31-sender"`
abbrev pub customer_type : Option Json → Option String → String
customer_type (some (str t)) given_type = t
customer_type _ given_type = get_or given_type "sep31-sender"

abbrev pub view_customer : Option String → Customer → CustomerView
view_customer type row =
    let raw = record_or_empty (some row.raw) in
    known row.customer_id row.account row.memo (to_sep12_status row.status)
      (customer_type (get "type" raw) type) row.reason
      (get_or (or_else (nullish (get "provided_fields" raw)) (nullish (get "fields" raw)))
        (obj end))
      row.updated_at

abbrev pub view_found : Option String → Option Customer → CustomerView
view_found type none = unknown (get_or type "sep31-sender")
view_found type (some row) = view_customer type row

unfoldable pub get_sep12_customer :
    Option String → Option String → Option String → Db → CustomerView
get_sep12_customer id account type db =
    view_found type (get_customer_by_id_or_account id account db)

pub record PutCustomer : Type 0 where
  pub id : Option String
  pub account : String
  pub memo : Option String
  pub type : Option String
  pub status : Option String
  pub fields : Option Fields
  pub callback_url : Option String
  pub reason : Option String

pub record PutCustomerResult : Type 0 where
  pub id : String
  pub account : String
  pub status : String
  pub type : String
  pub participant_policy : SyncResult

abbrev pub put_customer_raw : PutCustomer → Json
put_customer_raw input = obj (
    field "protocol" (str "SEP-12") (
      field "type" (str (get_or input.type "sep31-sender")) (
        field "fields" (obj (get_or input.fields end))
          (field "callback_url" (of_option input.callback_url) end))))

abbrev pub put_customer_row : String → PutCustomer → CustomerInput
put_customer_row fresh input = record {
  customer_id = get_or input.id fresh;
  account = input.account;
  status = customer_text (to_internal_status input.status);
  memo = input.memo;
  reason = input.reason;
  raw = put_customer_raw input;
}

unfoldable pub put_sep12_customer :
    Chain → AppConfig → String → ℕ → PutCustomer → Action PutCustomerResult
put_sep12_customer chain config fresh now input = do
  let internal = to_internal_status input.status
  modify (upsert_customer_status (put_customer_row fresh input) now)
  sync ←
      sync_decided chain config "SEP-12 status does not require on-chain sync" input.account
        (decision internal)
  pure (record {
    id = get_or input.id fresh;
    account = input.account;
    status = to_sep12_status (customer_text internal);
    type = get_or input.type "sep31-sender";
    participant_policy = sync;
  })

-- The row that `putSep12CustomerCallback` writes.
abbrev pub callback_customer : String → String → String → Option Customer → CustomerInput
callback_customer id account callback_url none = record {
  customer_id = id;
  account = account;
  status = "needs_info";
  memo = none;
  reason = none;
  raw = obj (put "callback_url" (str callback_url) end);
}
callback_customer id account callback_url (some row) = record {
  customer_id = id;
  account = account;
  status = row.status;
  memo = row.memo;
  reason = row.reason;
  raw = obj (put "callback_url" (str callback_url) (record_or_empty (some row.raw)));
}

unfoldable pub put_sep12_customer_callback : String → String → String → ℕ → Db → Db
put_sep12_customer_callback id account callback_url now db =
    upsert_customer_status
      (callback_customer id account callback_url
        (get_customer_by_id_or_account (some id) (some account) db))
      now db
