-- ===== src/Sep31/Laws.antt =====
-- The operations of backend/src/services/sep31.ts on the table anchor_transactions.
use nyxfinance.Common.{
  ℕ, String, ◌≡◌, ◌∙◌, Option, none, some, ◌==◌, eq_iff, eq_refl, arith, if◌then◌else◌, taken,
}
use nyxfinance.Json.{str, obj, get, as_string, Fields}
use nyxfinance.Status.{normalize_sep_status}
use nyxfinance.Result.{ok, err, coded}
use nyxfinance.Db.{Db, AnchorTransaction}
use nyxfinance.Db.Anchor.{get_anchor_transaction_by_id, set_sep_status, update_sep_status}
use nyxfinance.Db.Anchor.Laws.{IsFresh, upsert_total, get-upsert, upserted, get-update_sep_status}
use nyxfinance.Config.{AppConfig}
use nyxfinance.World.{World}
use nyxfinance.AnchorPlatform.{text_of_first, id_keys}
use nyxfinance.Sep31.{
  map_row, kept_id, created_row, create_sep31_transaction, not_found,
  update_sep31_transaction_status, updated_raw,
}

IsFresh-kept_id :
    (o : Option AnchorTransaction) (fresh : String) (db : Db)
    → IsFresh fresh db
    → o ≡ none
    → IsFresh (kept_id o fresh) db
IsFresh-kept_id none fresh db h e = h
IsFresh-kept_id (some row) fresh db h e = absurd (ground arith)

module _ (config : AppConfig) (fresh_sep31 fresh_tx : String) (now : ℕ) (input : Fields)
    (w : World) where
  abbrev pub target_id : String
  target_id = text_of_first id_keys fresh_sep31 input

  abbrev before : Option AnchorTransaction
  before = get_anchor_transaction_by_id target_id w.db

  abbrev pub stored_row : AnchorTransaction
  stored_row = upserted (created_row config target_id fresh_tx input before) now before

  -- With a row id that is not in use, a POST succeeds and answers with the stored row, which is then
  -- read under its id; under every other id, what was there is read.
  pub create_total :
      IsFresh fresh_tx w.db
      → (db : Db) × (create_sep31_transaction config fresh_sep31 fresh_tx now input w
          ≡ (record w { db = db }, ok (map_row config stored_row)))
        × ((j : String)
            → get_anchor_transaction_by_id j db
              ≡ (if target_id == j then some stored_row else get_anchor_transaction_by_id j w.db))
  unfolding create_sep31_transaction
  create_total fresh =
      let new = created_row config target_id fresh_tx input before in
      let (db, done) = upsert_total new now w.db (IsFresh-kept_id before fresh_tx w.db fresh) in
      let reads = λ (j : String). get-upsert j new now w.db db done in
      let found = reads target_id ∙ taken _ _ (eq_refl target_id) in (db, rw (done, found), reads)

-- The row that a status update leaves.
abbrev pub changed : ℕ → String → Fields → AnchorTransaction → AnchorTransaction
changed now status raw_update row =
    let sep = normalize_sep_status (some (str status)) in
    set_sep_status sep (some (obj (updated_raw row.raw raw_update sep)))
      (as_string (get "stellar_transaction_id" raw_update)) now row

module _ (config : AppConfig) (now : ℕ) (id status : String) (raw_update : Fields) (w : World) where
  -- A known transaction is read as the changed row after its update.
  pub update_found :
      (row : AnchorTransaction)
      → get_anchor_transaction_by_id id w.db ≡ some row
      → (db : Db) × (update_sep31_transaction_status config now id status raw_update w
          ≡ (record w { db = db }, ok (map_row config (changed now status raw_update row))))
        × ((j : String)
            → get_anchor_transaction_by_id j db ≡ (
                if id == j
                then some (changed now status raw_update row)
                else get_anchor_transaction_by_id j w.db))
  unfolding update_sep31_transaction_status
  update_found row found =
      let sep = normalize_sep_status (some (str status)) in
      let raw = some (obj (updated_raw row.raw raw_update sep)) in
      let stellar = as_string (get "stellar_transaction_id" raw_update) in
      let db = update_sep_status id sep raw stellar now w.db in
      let reads : (j : String)
          → get_anchor_transaction_by_id j db ≡ (
              if id == j
              then some (changed now status raw_update row)
              else get_anchor_transaction_by_id j w.db) =
        λ j. ground (arith, get-update_sep_status j id sep raw stellar now w.db, eq_iff id j) in
      (db, rw (found, reads id ∙ taken _ _ (eq_refl id)), reads)

  -- An unknown transaction is an error with code 404, and nothing changes.
  pub update_missing :
      get_anchor_transaction_by_id id w.db ≡ none
      → update_sep31_transaction_status config now id status raw_update w
        ≡ (w, err (coded (not_found id) 404))
  unfolding update_sep31_transaction_status
  update_missing missing = rw missing
