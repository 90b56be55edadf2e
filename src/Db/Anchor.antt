-- ===== src/Db/Anchor.antt =====
-- backend/src/db/sqlite.ts: the tables anchor_customers and anchor_transactions.
pub mod Laws
use nyxfinance.Common.{ℕ, Bool, true, Option, none, some, String, ◌==◌, if◌then◌else◌, or_else}
use nyxfinance.Json.{Json, truthy}
use nyxfinance.Status.{SepStatus, ProductStatus}
use nyxfinance.Sql.{find, latest, upsert, upsert_by, update_where}
use nyxfinance.Result.{Result}
use nyxfinance.Db.{Db, Customer, AnchorTransaction, stored}

pub record CustomerInput : Type 0 where
  pub customer_id : String
  pub account : String
  pub status : String
  pub memo : Option String
  pub reason : Option String
  pub raw : Json

abbrev pub has_customer_id : String → Customer → Bool
has_customer_id id r = r.customer_id == id

abbrev pub customer_row : CustomerInput → ℕ → Customer
customer_row input now = record {
  customer_id = input.customer_id;
  account = input.account;
  status = input.status;
  memo = input.memo;
  reason = input.reason;
  raw = input.raw;
  created_at = now;
  updated_at = now;
}

-- DO UPDATE SET … = excluded.…
abbrev pub customer_update : Customer → Customer → Customer
customer_update new old = record old {
  account = new.account;
  status = new.status;
  memo = new.memo;
  reason = new.reason;
  raw = new.raw;
  updated_at = new.updated_at;
}

unfoldable pub upsert_customer_status : CustomerInput → ℕ → Db → Db
unfolding upsert_by
upsert_customer_status input now db = record db {
  anchor_customers =
      upsert_by (has_customer_id input.customer_id) (customer_update (customer_row input now))
        (customer_row input now) db.anchor_customers;
}

abbrev pub has_account : String → Customer → Bool
has_account account r = r.account == account

-- An absent or empty id or account is falsy.
abbrev pub given : Option String → Option String
given (some s) = if s == "" then none else some s
given none = none

abbrev customer_by : Option String → Option String → Db → Option Customer
customer_by (some id) account db = find (has_customer_id id) db.anchor_customers
customer_by none (some a) db = latest (has_account a) (λ r. r.updated_at) db.anchor_customers
customer_by none none db = none

unfoldable pub get_customer_by_id_or_account : Option String → Option String → Db → Option Customer
get_customer_by_id_or_account customer_id account db =
    customer_by (given customer_id) (given account) db

pub record TransactionInput : Type 0 where
  pub id : String
  pub anchor_transaction_id : String
  pub stellar_transaction_id : Option String
  pub account : String
  pub sep_status : SepStatus
  pub product_status : ProductStatus
  pub amount_in : Option String
  pub amount_out : Option String
  pub asset_code : Option String
  pub raw : Json

abbrev pub has_id : String → AnchorTransaction → Bool
has_id id r = r.anchor_transaction_id == id

abbrev pub transaction_row : TransactionInput → ℕ → AnchorTransaction
transaction_row input now = record {
  id = input.id;
  anchor_transaction_id = input.anchor_transaction_id;
  stellar_transaction_id = input.stellar_transaction_id;
  account = input.account;
  sep_status = input.sep_status;
  product_status = input.product_status;
  amount_in = input.amount_in;
  amount_out = input.amount_out;
  asset_code = input.asset_code;
  raw = input.raw;
  created_at = now;
  updated_at = now;
}

-- DO UPDATE SET … = excluded.…; the row keeps its `id` and `created_at`
abbrev pub transaction_update : AnchorTransaction → AnchorTransaction → AnchorTransaction
transaction_update new old = record old {
  stellar_transaction_id = new.stellar_transaction_id;
  account = new.account;
  sep_status = new.sep_status;
  product_status = new.product_status;
  amount_in = new.amount_in;
  amount_out = new.amount_out;
  asset_code = new.asset_code;
  raw = new.raw;
  updated_at = new.updated_at;
}

unfoldable pub upsert_anchor_transaction : TransactionInput → ℕ → Db → Result Db
unfolding upsert
upsert_anchor_transaction input now db =
    stored "anchor_transactions" (λ rows. record db { anchor_transactions = rows })
      (upsert (has_id input.anchor_transaction_id) (λ r. r.id == input.id)
        (transaction_update (transaction_row input now)) (transaction_row input now)
        db.anchor_transactions)

unfoldable pub get_anchor_transaction_by_id : String → Db → Option AnchorTransaction
get_anchor_transaction_by_id id db = find (has_id id) db.anchor_transactions

-- `raw ? JSON.stringify(raw) : null`, then COALESCE(?, raw)
abbrev pub coalesce_raw : Option Json → Json → Json
coalesce_raw none old = old
coalesce_raw (some v) old = if truthy v then v else old

abbrev pub set_sep_status :
    SepStatus → Option Json → Option String → ℕ → AnchorTransaction → AnchorTransaction
set_sep_status sep raw stellar now r = record r {
  sep_status = sep;
  stellar_transaction_id = or_else stellar r.stellar_transaction_id;
  raw = coalesce_raw raw r.raw;
  updated_at = now;
}

unfoldable pub update_sep_status : String → SepStatus → Option Json → Option String → ℕ → Db → Db
update_sep_status id sep raw stellar now db = record db {
  anchor_transactions =
      update_where (has_id id) (set_sep_status sep raw stellar now) db.anchor_transactions;
}

abbrev pub set_product_status : ProductStatus → ℕ → AnchorTransaction → AnchorTransaction
set_product_status product now r = record r { product_status = product; updated_at = now }

unfoldable pub update_product_status : String → ProductStatus → ℕ → Db → Db
update_product_status id product now db = record db {
  anchor_transactions =
      update_where (has_id id) (set_product_status product now) db.anchor_transactions;
}

unfoldable pub get_latest_anchor_transaction : Db → Option AnchorTransaction
get_latest_anchor_transaction db = latest (λ _. true) (λ r. r.updated_at) db.anchor_transactions
