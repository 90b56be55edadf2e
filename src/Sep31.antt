-- ===== src/Sep31.antt =====
-- backend/src/services/sep31.ts: SEP-31 transactions. `now` is the time of the statement that
-- writes; `fresh_sep31` and `fresh_tx` are the ids that `newId` draws.
pub mod Laws
pub mod Updated
pub mod Separation
use nyxfinance.Common.{
  ℕ, Option, none, some, String, ◌==◌, ◌<>◌, if◌then◌else◌, get_or, or_else, strip_slash,
  encode_uri_component,
}
use nyxfinance.Json.{
  Json, null, num, str, obj, Fields, end, field, get, put, spread, nullish, as_string,
}
use nyxfinance.Status.{
  SepStatus, ProductStatus, pending_stellar, completed, sep_text, product_text,
  normalize_sep_status, normalize_product_status,
}
use nyxfinance.Result.{coded, error}
use nyxfinance.Db.{AnchorTransaction}
use nyxfinance.Db.Anchor.{
  TransactionInput, get_anchor_transaction_by_id, upsert_anchor_transaction, update_sep_status,
}
use nyxfinance.Config.{AppConfig}
use nyxfinance.World.{Action, pure, gets, modify, write, require, ◌>>=◌, ◌>>◌}
use nyxfinance.AnchorPlatform.{text_of_first, id_keys, account_keys, kept_product_status}

-- `stringOrNull`
abbrev pub string_or_null : Option Json → Option String
string_or_null (some (str s)) = if s == "" then none else some s
string_or_null (some (num t)) = some t
string_or_null _ = none

-- `recordOrEmpty`, and the properties of a parsed `raw` column, which is always an object here
abbrev pub record_or_empty : Option Json → Fields
record_or_empty (some (obj fs)) = fs
record_or_empty _ = end

unfoldable pub build_more_info_url : AppConfig → String → String
build_more_info_url config id =
    strip_slash config.anchor_platform_public_url
    <> "/sep31/transaction/"
    <> encode_uri_component id

-- What `mapRow` returns. `settlementWindowDays ? Number(…) : null` is given by the number's text.
pub record TransactionView : Type 0 where
  pub id : String
  pub transaction_id : String
  pub status : SepStatus
  pub status_eta : Json
  pub more_info_url : String
  pub stellar_transaction_id : Option String
  pub amount_in : Option String
  pub amount_out : Option String
  pub asset_code : Option String
  pub product_status : ProductStatus
  pub sender_id : Json
  pub receiver_id : Json
  pub quote_id : Json
  pub fields : Fields
  pub corridor : Option String
  pub settlement_window_days : Option String
  pub started_at : ℕ
  pub updated_at : ℕ
  pub refunds : Json

-- `a ?? b`
abbrev either : Option Json → Option Json → Option Json
either a b = or_else (nullish a) b

abbrev with_default : Option Json → Json → Json
with_default a d = get_or (nullish a) d

unfoldable pub map_row : AppConfig → AnchorTransaction → TransactionView
map_row config row =
    let raw = record_or_empty (some row.raw) in
    let fields = record_or_empty (get "fields" raw) in
    record {
      id = row.anchor_transaction_id;
      transaction_id = row.anchor_transaction_id;
      status = row.sep_status;
      status_eta = with_default (get "status_eta" raw) (num "3600");
      more_info_url =
          get_or (as_string (get "more_info_url" raw))
            (build_more_info_url config row.anchor_transaction_id);
      stellar_transaction_id = row.stellar_transaction_id;
      amount_in = row.amount_in;
      amount_out = row.amount_out;
      asset_code = row.asset_code;
      product_status = row.product_status;
      sender_id = with_default (get "sender_id" raw) (str row.account);
      receiver_id = with_default (get "receiver_id" raw) null;
      quote_id = with_default (get "quote_id" raw) null;
      fields = fields;
      corridor = string_or_null (either (get "corridor" fields) (get "corridor" raw));
      settlement_window_days =
          string_or_null
            (either (get "settlement_window_days" fields) (get "settlement_window_days" raw));
      started_at = row.created_at;
      updated_at = row.updated_at;
      refunds = with_default (get "refunds" raw) null;
    }

-- The object literal `raw` of `createSep31Transaction`.
unfoldable pub created_raw :
    AppConfig → Fields → String → String → SepStatus → ProductStatus → Fields
created_raw config input id account sep product =
    spread (spread (field "protocol" (str "SEP-31") end) input) (
      field "id" (str id) (
        field "account" (str account) (
          field "status" (str (sep_text sep)) (
            field "product_status" (str (product_text product))
              (field "more_info_url" (str (build_more_info_url config id)) end)))))

-- `existing?.id ?? newId("tx")`
abbrev pub kept_id : Option AnchorTransaction → String → String
kept_id none fresh = fresh
kept_id (some row) fresh = row.id

abbrev pub created_row :
    AppConfig → String → String → Fields → Option AnchorTransaction → TransactionInput
created_row config id fresh_tx input existing =
    let account = text_of_first account_keys "unknown" input in
    let sep =
      normalize_sep_status (some (get_or (nullish (get "status" input)) (str "pending_sender"))) in
    let product = kept_product_status existing (normalize_product_status sep) in
    record {
      id = kept_id existing fresh_tx;
      anchor_transaction_id = id;
      stellar_transaction_id = as_string (get "stellar_transaction_id" input);
      account = account;
      sep_status = sep;
      product_status = product;
      amount_in = string_or_null (get "amount_in" input);
      amount_out = string_or_null (get "amount_out" input);
      asset_code = string_or_null (get "asset_code" input);
      raw = obj (created_raw config input id account sep product);
    }

unfoldable pub create_sep31_transaction :
    AppConfig → String → String → ℕ → Fields → Action TransactionView
create_sep31_transaction config fresh_sep31 fresh_tx now input = do
  let id = text_of_first id_keys fresh_sep31 input
  existing ← gets (get_anchor_transaction_by_id id)
  write (upsert_anchor_transaction (created_row config id fresh_tx input existing) now)
  row ← gets (get_anchor_transaction_by_id id)
  persisted ← require row (error "failed to persist SEP-31 transaction")
  pure (map_row config persisted)

abbrev pub not_found : String → String
not_found id = "SEP-31 transaction not found: " <> id

unfoldable pub get_sep31_transaction : AppConfig → String → Action TransactionView
unfolding map_row
get_sep31_transaction config id = do
  found ← gets (get_anchor_transaction_by_id id)
  row ← require found (coded (not_found id) 404)
  pure (map_row config row)

-- The object literal `raw` of `updateSep31TransactionStatus`.
unfoldable pub updated_raw : Json → Fields → SepStatus → Fields
updated_raw old raw_update sep =
    spread (spread (record_or_empty (some old)) raw_update)
      (field "status" (str (sep_text sep)) (field "updated_via" (str "SEP-31") end))

unfoldable pub update_sep31_transaction_status :
    AppConfig → ℕ → String → String → Fields → Action TransactionView
unfolding get_sep31_transaction
update_sep31_transaction_status config now id status raw_update = do
  found ← gets (get_anchor_transaction_by_id id)
  existing ← require found (coded (not_found id) 404)
  let sep = normalize_sep_status (some (str status))
  modify (
      update_sep_status id sep (some (obj (updated_raw existing.raw raw_update sep)))
        (as_string (get "stellar_transaction_id" raw_update)) now)
  get_sep31_transaction config id

unfoldable pub mark_sep31_payment_submitted :
    AppConfig → ℕ → String → Fields → Action TransactionView
unfolding update_sep31_transaction_status
mark_sep31_payment_submitted config now id raw_update =
    update_sep31_transaction_status config now id "pending_stellar"
      (put "action" (str "payment_submitted") raw_update)

unfoldable pub mark_sep31_completed : AppConfig → ℕ → String → Fields → Action TransactionView
unfolding update_sep31_transaction_status
mark_sep31_completed config now id raw_update =
    update_sep31_transaction_status config now id "completed"
      (put "action" (str "settlement_completed") raw_update)
