-- ===== src/Db/Anchor/Laws.antt =====
-- What the statements on anchor_transactions and anchor_customers do to a row that is read by key.
use mathlib.Core.Option
use nyxfinance.Common.{ℕ, String, ◌≡◌, refl, false, Option, none, some, ◌==◌, if◌then◌else◌, any}
use nyxfinance.Json.{Json}
use nyxfinance.Status.{SepStatus, ProductStatus}
use nyxfinance.Sql.{find}
use nyxfinance.Sql.Keys
use nyxfinance.Sql.Keys.{find-update_where_key, find-upsert, find-upsert_by, merged}
use nyxfinance.Result.{ok}
use nyxfinance.Db.{stored-eq-ok, Db, AnchorTransaction, Customer}
use nyxfinance.Db.Anchor.{
  TransactionInput, transaction_row, transaction_update, upsert_anchor_transaction,
  get_anchor_transaction_by_id, set_sep_status, update_sep_status, set_product_status,
  update_product_status, CustomerInput, customer_row, customer_update, has_customer_id,
  upsert_customer_status, get_customer_by_id_or_account,
}

abbrev id_of : AnchorTransaction → String
id_of r = r.anchor_transaction_id

pub get-update_product_status :
    (j id : String) (product : ProductStatus) (now : ℕ) (db : Db)
    → get_anchor_transaction_by_id j (update_product_status id product now db) ≡ (
        if id == j
        then Option.map (set_product_status product now) (get_anchor_transaction_by_id j db)
        else get_anchor_transaction_by_id j db)
unfolding get_anchor_transaction_by_id update_product_status
get-update_product_status j id product now db =
    find-update_where_key id_of (set_product_status product now) id j db.anchor_transactions
      (λ r. refl)

pub get-update_sep_status :
    (j id : String) (sep : SepStatus) (raw : Option Json) (stellar : Option String) (now : ℕ)
    (db : Db)
    → get_anchor_transaction_by_id j (update_sep_status id sep raw stellar now db) ≡ (
        if id == j
        then Option.map (set_sep_status sep raw stellar now) (get_anchor_transaction_by_id j db)
        else get_anchor_transaction_by_id j db)
unfolding get_anchor_transaction_by_id update_sep_status
get-update_sep_status j id sep raw stellar now db =
    find-update_where_key id_of (set_sep_status sep raw stellar now) id j db.anchor_transactions
      (λ r. refl)

-- The row under the input's id after a successful upsert.
abbrev pub upserted : TransactionInput → ℕ → Option AnchorTransaction → AnchorTransaction
upserted input now =
    merged id_of (transaction_update (transaction_row input now)) (transaction_row input now)

pub get-upsert :
    (j : String) (input : TransactionInput) (now : ℕ) (db db' : Db)
    → upsert_anchor_transaction input now db ≡ ok db'
    → get_anchor_transaction_by_id j db' ≡ (
        if input.anchor_transaction_id == j
        then some (upserted input now (get_anchor_transaction_by_id input.anchor_transaction_id db))
        else get_anchor_transaction_by_id j db)
unfolding get_anchor_transaction_by_id upsert_anchor_transaction
get-upsert j input now db db' h =
    let (rows, done, same) = stored-eq-ok _ _ _ h in
    rw (← same) (
      find-upsert id_of (λ r. r.id == input.id) (transaction_update (transaction_row input now))
        (transaction_row input now) db.anchor_transactions rows j (λ r. refl) done)

abbrev customer_id_of : Customer → String
customer_id_of r = r.customer_id

-- An upsert of a customer replaces or adds the row under its id, and no other.
pub find-upsert_customer :
    (j : String) (input : CustomerInput) (now : ℕ) (db : Db)
    → find (has_customer_id j) (upsert_customer_status input now db).anchor_customers ≡ (
        if input.customer_id == j
        then some (
            merged customer_id_of
              (customer_update (customer_row input now))
              (customer_row input now)
              (find (has_customer_id input.customer_id) db.anchor_customers))
        else find (has_customer_id j) db.anchor_customers)
unfolding upsert_customer_status
find-upsert_customer j input now db =
    find-upsert_by customer_id_of (customer_update (customer_row input now))
      (customer_row input now) db.anchor_customers j (λ r. refl)

-- No row has this primary key.
abbrev pub IsFresh : String → Db → Type 0
IsFresh id db = any (λ r. r.id == id) db.anchor_transactions ≡ false

-- An upsert succeeds when its id is fresh or the transaction is already there.
pub upsert_total :
    (input : TransactionInput) (now : ℕ) (db : Db)
    → (get_anchor_transaction_by_id input.anchor_transaction_id db ≡ none → IsFresh input.id db)
    → (db' : Db) × (upsert_anchor_transaction input now db ≡ ok db')
unfolding upsert_anchor_transaction get_anchor_transaction_by_id
upsert_total input now db h =
    let (rows, done) =
      Keys.upsert_total id_of (λ r. r.id == input.id)
        (transaction_update (transaction_row input now)) (transaction_row input now)
        db.anchor_transactions h in
    (record db { anchor_transactions = rows }, rw done)

-- An id that is not empty is looked up alone; the account is then not read.
pub get_customer_by_id :
    (id : String) (account : Option String) (db : Db)
    → (id == "") ≡ false
    → get_customer_by_id_or_account (some id) account db
      ≡ find (has_customer_id id) db.anchor_customers
unfolding get_customer_by_id_or_account
get_customer_by_id id account db h = rw h
