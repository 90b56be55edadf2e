-- ===== src/Sep31/Separation.antt =====
-- The SEP-31 payout state and the product's credit state of a transaction, which
-- backend/src/services/sep31.ts, anchor-platform.ts and credit-line.ts write.
use mathlib.Core.Option
use nyxfinance.Common.{ℕ, String, ◌≡◌, inl, inr, Option, some, eq_iff, arith, Option-cases}
use nyxfinance.Json.{Fields}
use nyxfinance.Status.{SepStatus, ProductStatus}
use nyxfinance.Result.{Result-cases}
use nyxfinance.Db.{Db, AnchorTransaction}
use nyxfinance.Db.Anchor.{
  get_anchor_transaction_by_id, upsert_anchor_transaction, update_product_status,
}
use nyxfinance.Db.Anchor.Laws.{get-upsert, get-update_product_status}
use nyxfinance.Config.{AppConfig}
use nyxfinance.World.{World}
use nyxfinance.AnchorPlatform.{
  text_of_first, id_keys, record_anchor_transaction_callback, callback_row, callback_result,
}
use nyxfinance.Sep31.{created_row, create_sep31_transaction, update_sep31_transaction_status}
use nyxfinance.Sep31.Laws.{update_found, update_missing}

abbrev pub product_of : String → Db → Option ProductStatus
product_of j db = Option.map (λ r. r.product_status) (get_anchor_transaction_by_id j db)

-- What the SEP side of a transaction consists of.
pub record SepSide : Type 0 where
  pub sep_status : SepStatus
  pub stellar_transaction_id : Option String
  pub account : String
  pub amount_in : Option String
  pub amount_out : Option String
  pub asset_code : Option String

abbrev sep_side : AnchorTransaction → SepSide
sep_side r = record {
  sep_status = r.sep_status;
  stellar_transaction_id = r.stellar_transaction_id;
  account = r.account;
  amount_in = r.amount_in;
  amount_out = r.amount_out;
  asset_code = r.asset_code;
}

abbrev pub sep_side_of : String → Db → Option SepSide
sep_side_of j db = Option.map sep_side (get_anchor_transaction_by_id j db)

-- A change of the product status leaves the SEP side of every transaction as it was, the changed
-- one included.
pub update_product_status-keeps_sep :
    (j id : String) (product : ProductStatus) (now : ℕ) (db : Db)
    → sep_side_of j (update_product_status id product now db) ≡ sep_side_of j db
update_product_status-keeps_sep j id product now db =
    ground (arith, get-update_product_status j id product now db)

-- A change of the SEP status, whether it succeeds or not, leaves the product status of every
-- transaction as it was.
pub update_sep31-keeps_product :
    (config : AppConfig) (now : ℕ) (id status : String) (raw_update : Fields) (w : World)
    (j : String)
    → product_of j (update_sep31_transaction_status config now id status raw_update w).0.db
      ≡ product_of j w.db
update_sep31-keeps_product config now id status raw_update w j =
    elim (Option-cases (get_anchor_transaction_by_id id w.db)) [
      | inl missing ↦ rw (update_missing config now id status raw_update w missing)
      | inr (row, found) ↦
          let (db, done, reads) = update_found config now id status raw_update w row found in
          rw done (ground (arith, reads j, eq_iff id j))
    ]

module _ (config : AppConfig) (fresh_sep31 fresh_tx : String) (now : ℕ) (input : Fields) (w : World)
    (j : String) (row : AnchorTransaction)
    (known : get_anchor_transaction_by_id j w.db ≡ some row) where
  -- A second POST of a transaction, and any POST of another one, keeps the product status that a
  -- transaction has reached, also when the POST fails.
  pub create_sep31-keeps_product :
      product_of j (create_sep31_transaction config fresh_sep31 fresh_tx now input w).0.db
      ≡ some row.product_status
  unfolding create_sep31_transaction
  create_sep31-keeps_product =
      let id = text_of_first id_keys fresh_sep31 input in
      let new = created_row config id fresh_tx input (get_anchor_transaction_by_id id w.db) in
      elim (Result-cases (upsert_anchor_transaction new now w.db)) [
        | inl (db, done) ↦ rw done (ground (arith, get-upsert j new now w.db db done, eq_iff id j))
        | inr (e, failed) ↦ rw failed (ground arith)
      ]

  -- So does a transaction callback of the Anchor Platform.
  pub callback-keeps_product :
      product_of j (record_anchor_transaction_callback fresh_sep31 fresh_tx now input w).0.db
      ≡ some row.product_status
  unfolding record_anchor_transaction_callback
  callback-keeps_product =
      let id = text_of_first id_keys fresh_sep31 input in
      let new =
        callback_row fresh_tx (callback_result id input (get_anchor_transaction_by_id id w.db))
          input in
      elim (Result-cases (upsert_anchor_transaction new now w.db)) [
        | inl (db, done) ↦ rw done (ground (arith, get-upsert j new now w.db db done, eq_iff id j))
        | inr (e, failed) ↦ rw failed (ground arith)
      ]
