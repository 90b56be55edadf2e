-- ===== src/AnchorPlatform.antt =====
-- backend/src/services/anchor-platform.ts: the callbacks of the Anchor Platform. `now` is the time
-- that the statement reads; `fresh` stands for the ids that `newId` draws.
pub mod Laws
use nyxfinance.Common.{
  ℕ, Bool, true, false, Option, none, some, String, List, [], ◌∷◌, if◌then◌else◌,
}
use nyxfinance.Json.{
  Json, str, obj, Fields, end, field, get, nullish, as_string, of_option, to_text,
}
use nyxfinance.Status.{
  SepStatus, ProductStatus, CustomerStatus, accepted, rejected, pending, needs_info, customer_text,
  normalize_sep_status, normalize_product_status,
}
use nyxfinance.Db.{AnchorTransaction}
use nyxfinance.Db.Anchor.{
  TransactionInput, upsert_customer_status, get_anchor_transaction_by_id, upsert_anchor_transaction,
}
use nyxfinance.Config.{AppConfig}
use nyxfinance.World.{Chain, Action, pure, gets, modify, write, ◌>>=◌, ◌>>◌}
use nyxfinance.PolicySync.{SyncResult, not_synced, sync_participant_policy}

-- `body.a ?? body.b ?? …`
abbrev pub first_given : List String → Fields → Option Json
first_given [] body = none
first_given (k ∷ ks) body = elim (nullish (get k body)) [
  | none ↦ first_given ks body
  | some v ↦ some v
]

-- `String(body.a ?? body.b ?? … ?? fallback)`
unfoldable pub text_of_first : List String → String → Fields → String
text_of_first keys fallback body = elim (first_given keys body) [
  | none ↦ fallback
  | some v ↦ to_text v
]

abbrev pub id_keys : List String
id_keys = "id" ∷ "transaction_id" ∷ "anchor_transaction_id" ∷ []

abbrev pub account_keys : List String
account_keys = "account" ∷ "from" ∷ "sender_id" ∷ []

-- `existing?.product_status ?? normalized`
abbrev pub kept_product_status : Option AnchorTransaction → ProductStatus → ProductStatus
kept_product_status none normalized = normalized
kept_product_status (some row) normalized = row.product_status

pub record CallbackResult : Type 0 where
  pub anchor_transaction_id : String
  pub sep_status : SepStatus
  pub product_status : ProductStatus

abbrev pub callback_result : String → Fields → Option AnchorTransaction → CallbackResult
callback_result id body existing =
    let sep = normalize_sep_status (get "status" body) in
    record {
      anchor_transaction_id = id;
      sep_status = sep;
      product_status = kept_product_status existing (normalize_product_status sep);
    }

abbrev pub callback_row : String → CallbackResult → Fields → TransactionInput
callback_row fresh_tx result body = record {
  id = fresh_tx;
  anchor_transaction_id = result.anchor_transaction_id;
  stellar_transaction_id = as_string (get "stellar_transaction_id" body);
  account = text_of_first account_keys "unknown" body;
  sep_status = result.sep_status;
  product_status = result.product_status;
  amount_in = as_string (get "amount_in" body);
  amount_out = as_string (get "amount_out" body);
  asset_code = as_string (get "asset_code" body);
  raw = obj body;
}

unfoldable pub record_anchor_transaction_callback :
    String → String → ℕ → Fields → Action CallbackResult
record_anchor_transaction_callback fresh_anchor fresh_tx now body = do
  let id = text_of_first id_keys fresh_anchor body
  existing ← gets (get_anchor_transaction_by_id id)
  let result = callback_result id body existing
  write (upsert_anchor_transaction (callback_row fresh_tx result body) now)
  pure result

pub record CustomerStatusRequest : Type 0 where
  pub customer_id : String
  pub account : String
  pub status : CustomerStatus
  pub memo : Option String
  pub reason : Option String
  pub raw : Option Json

abbrev raw_property : Option Json → Fields
raw_property none = end
raw_property (some v) = field "raw" v end

-- The request as a value. Its callers give `null` for an absent memo or reason.
abbrev pub request_json : CustomerStatusRequest → Json
request_json input = obj (
    field "customerId" (str input.customer_id) (
      field "account" (str input.account) (
        field "status" (str (customer_text input.status)) (
          field "memo" (of_option input.memo)
            (field "reason" (of_option input.reason) (raw_property input.raw))))))

-- `input.raw ?? input`
abbrev pub raw_or_request : CustomerStatusRequest → Json
raw_or_request input = elim (nullish input.raw) [ none ↦ request_json input | some v ↦ v ]

-- `status === "accepted" || status === "rejected"` asks for a call, with approval for the first.
abbrev pub decision : CustomerStatus → Option Bool
decision accepted = some true
decision rejected = some false
decision pending = none
decision needs_info = none

unfoldable pub sync_decided : Chain → AppConfig → String → String → Option Bool → Action SyncResult
sync_decided chain config reason account none = pure (not_synced reason)
sync_decided chain config reason account (some approved) =
    sync_participant_policy chain config account approved

pub record CustomerStatusResult : Type 0 where
  pub customer_id : String
  pub account : String
  pub kyb_status : CustomerStatus
  pub participant_policy : SyncResult

unfoldable pub record_customer_status :
    Chain → AppConfig → ℕ → CustomerStatusRequest → Action CustomerStatusResult
record_customer_status chain config now input = do
  modify (
      upsert_customer_status
        (record {
          customer_id = input.customer_id;
          account = input.account;
          status = customer_text input.status;
          memo = input.memo;
          reason = input.reason;
          raw = raw_or_request input;
        })
        now)
  sync ←
      sync_decided chain config "KYB status does not require on-chain sync" input.account
        (decision input.status)
  pure (record {
    customer_id = input.customer_id;
    account = input.account;
    kyb_status = input.status;
    participant_policy = sync;
  })
