-- ===== src/Examples/Sep.antt =====
-- The theorems on statuses, customers and SEP-31 transactions at concrete inputs.
use nyxfinance.Common.{none, some, String, ◌≡◌, ◌↔◌, refl, ◌==◌, if◌then◌else◌}
use nyxfinance.Json.{str, obj, end, field, Fields}
use nyxfinance.Status.{
  completed, normalize_sep_status, sep_text, credit_drawn, accepted, customer_text,
}
use nyxfinance.Status.Laws.{normalize_sep_status_iff}
use nyxfinance.Result.{ok}
use nyxfinance.Db.{Db, AnchorTransaction}
use nyxfinance.Db.Anchor.{get_anchor_transaction_by_id, upsert_customer_status}
use nyxfinance.AnchorPlatform.{
  CustomerStatusRequest, record_customer_status, record_anchor_transaction_callback,
}
use nyxfinance.AnchorPlatform.Laws.{SyncedBy, status_row, record_customer_status-SyncedBy}
use nyxfinance.Sep12.{
  PutCustomer, put_sep12_customer, get_sep12_customer, known, to_sep12_status, to_internal_status,
}
use nyxfinance.Sep12.Laws.{get-put_sep12}
use nyxfinance.Sep31.{create_sep31_transaction, update_sep31_transaction_status, map_row}
use nyxfinance.Sep31.Laws.{create_total, target_id, stored_row}
use nyxfinance.Sep31.Updated.{Updates, update_sep31-Updates}
use nyxfinance.Sep31.Separation.{product_of, update_sep31-keeps_product, callback-keeps_product}
use nyxfinance.Sql.{find}
use nyxfinance.Examples.{test_config, test_chain, test_transaction, test_db, test_world}

abbrev again : Fields
again = field "id" (str "sep31_1") (field "status" (str "completed") end)

update_sep31-keeps_product_example :
    product_of "sep31_1"
      (update_sep31_transaction_status test_config 9 "sep31_1" "completed" end test_world).0.db
    ≡ product_of "sep31_1" test_db
update_sep31-keeps_product_example =
    update_sep31-keeps_product test_config 9 "sep31_1" "completed" end test_world "sep31_1"

found : get_anchor_transaction_by_id "sep31_1" test_db ≡ some test_transaction
unfolding get_anchor_transaction_by_id find
found = refl

callback-keeps_product_example :
    product_of "sep31_1"
      (record_anchor_transaction_callback "sep31_2" "tx_2" 9 again test_world).0.db
    ≡ some credit_drawn
callback-keeps_product_example =
    callback-keeps_product test_config "sep31_2" "tx_2" 9 again test_world "sep31_1"
      test_transaction found

create_total_example :
    (db : Db) × (create_sep31_transaction test_config "sep31_2" "tx_2" 9 again test_world ≡ (
      record test_world { db = db },
      ok (map_row test_config (stored_row test_config "sep31_2" "tx_2" 9 again test_world)),
    ))
    × ((j : String)
        → get_anchor_transaction_by_id j db ≡ (
            if target_id test_config "sep31_2" "tx_2" 9 again test_world == j
            then some (stored_row test_config "sep31_2" "tx_2" 9 again test_world)
            else get_anchor_transaction_by_id j test_db))
create_total_example = create_total test_config "sep31_2" "tx_2" 9 again test_world refl

abbrev paid_update : Fields
paid_update = field "stellar_transaction_id" (str "hash_9") (field "note" (str "paid") end)

update_sep31-Updates_example :
    (db : Db) × (after : AnchorTransaction) × Updates 9 "completed" paid_update test_transaction
      after
    × (update_sep31_transaction_status test_config 9 "sep31_1" "completed" paid_update test_world
        ≡ (record test_world { db = db }, ok (map_row test_config after)))
    × ((j : String)
        → get_anchor_transaction_by_id j db
          ≡ (if "sep31_1" == j then some after else get_anchor_transaction_by_id j test_db))
update_sep31-Updates_example =
    update_sep31-Updates test_config 9 "sep31_1" "completed" paid_update test_world test_transaction
      found

abbrev status_request : CustomerStatusRequest
status_request = record {
  customer_id = "cust_1";
  account = "GANCHOR";
  status = accepted;
  memo = none;
  reason = none;
  raw = none;
}

record_customer_status-SyncedBy_example :
    SyncedBy test_chain test_config "GANCHOR" accepted
      (record test_world { db = upsert_customer_status (status_row status_request) 9 test_db })
      (record_customer_status test_chain test_config 9 status_request test_world).0
record_customer_status-SyncedBy_example =
    record_customer_status-SyncedBy test_chain test_config 9 status_request test_world

abbrev put_request : PutCustomer
put_request = record {
  id = some "cust_1";
  account = "GANCHOR";
  memo = none;
  type = none;
  status = some "ACCEPTED";
  fields = none;
  callback_url = none;
  reason = some "checked";
}

get-put_sep12_example :
    get_sep12_customer
      (some "cust_1")
      none
      none
      (put_sep12_customer test_chain test_config "cust_2" 9 put_request test_world).0.db
    ≡ known "cust_1" "GANCHOR" none
        (to_sep12_status (customer_text (to_internal_status (some "ACCEPTED"))))
        "sep31-sender"
        (some "checked")
        (obj end)
        9
get-put_sep12_example =
    get-put_sep12 test_chain test_config "cust_2" 9 put_request test_world none none refl

normalize_sep_status_iff_example :
    (normalize_sep_status (some (str "completed")) ≡ completed)
    ↔ (some (str "completed") ≡ some (str (sep_text completed)))
normalize_sep_status_iff_example =
    normalize_sep_status_iff (some (str "completed")) completed (λ e. absurd cc)
