-- ===== src/Sep12/Laws.antt =====
-- The operations of backend/src/services/sep12.ts on the table anchor_customers.
use nyxfinance.Common.{
  ℕ, String, ◌≡◌, refl, ap, ◌∙◌, inl, inr, Bool, false, Option, none, some, ◌==◌, eq_iff, eq_refl,
  taken, get_or, to_lower,
}
use nyxfinance.Json.{obj, end, get}
use nyxfinance.Status.{CustomerStatus, accepted, customer_text}
use nyxfinance.Sql.{find}
use nyxfinance.Sql.Keys.{merged}
use nyxfinance.Sql.Laws.{find_sound}
use nyxfinance.Db.{Db, Customer}
use nyxfinance.Db.Anchor.{upsert_customer_status, has_customer_id, customer_row, customer_update}
use nyxfinance.Db.Anchor.Laws.{find-upsert_customer, get_customer_by_id}
use nyxfinance.Config.{AppConfig}
use nyxfinance.World.{World, Chain}
use nyxfinance.AnchorPlatform.{decision}
use nyxfinance.AnchorPlatform.Laws.{Decided, sync_decided-Decided}
use nyxfinance.World.Laws.{pure_after}
use nyxfinance.Sep12.{
  to_internal_status, to_sep12_status, known, get_sep12_customer, PutCustomer, put_customer_row,
  put_sep12_customer, view_found,
}

-- The status that the API answers with is read back as the status that is stored.
pub to_internal-to_sep12 :
    (s : CustomerStatus) → to_internal_status (some (to_sep12_status (customer_text s))) ≡ s
unfolding to_internal_status to_sep12_status customer_text to_lower
to_internal-to_sep12 accepted = refl
to_internal-to_sep12 _ = refl

module _ (chain : Chain) (config : AppConfig) (fresh : String) (now : ℕ) (input : PutCustomer)
    (w : World) where
  abbrev pub stored_world : World
  stored_world = record w { db = upsert_customer_status (put_customer_row fresh input) now w.db }

  -- A PUT stores the customer, and then acts by the decision.
  pub put_sep12-Decided :
      Decided chain config input.account
        (decision (to_internal_status input.status))
        stored_world
        (put_sep12_customer chain config fresh now input w).0
  unfolding put_sep12_customer
  put_sep12-Decided =
      let d = decision (to_internal_status input.status) in
      let reason : String = "SEP-12 status does not require on-chain sync" in
      pure_after (Decided chain config input.account d stored_world) _ _
        (sync_decided-Decided chain config reason input.account d stored_world)

-- What a synchronisation leaves of the database.
pub Decided-db :
    (chain : Chain) (config : AppConfig) (account : String) (d : Option Bool) (w w' : World)
    → Decided chain config account d w w'
    → w'.db ≡ w.db
Decided-db chain config account none w w' h = ap (λ v. v.db) h
Decided-db chain config account (some approved) w w' (inl (h, _)) = ap (λ v. v.db) h
Decided-db chain config account (some approved) w w' (inr (_, _, h)) = ap (λ v. v.db) h

-- A customer that was PUT is read back by its id with what was given: the status in SEP-12's
-- words, the type, the memo, the reason as message, and the fields.
pub get-put_sep12 :
    (chain : Chain) (config : AppConfig) (fresh : String) (now : ℕ) (input : PutCustomer)
    (w : World) (account type : Option String)
    → (get_or input.id fresh == "") ≡ false
    → get_sep12_customer
        (some (get_or input.id fresh))
        account
        type
        (put_sep12_customer chain config fresh now input w).0.db
      ≡ known
          (get_or input.id fresh)
          input.account
          input.memo
          (to_sep12_status (customer_text (to_internal_status input.status)))
          (get_or input.type "sep31-sender")
          input.reason
          (obj (get_or input.fields end))
          now
unfolding get_sep12_customer get
get-put_sep12 chain config fresh now input w account type named =
    let id = get_or input.id fresh in
    let new = put_customer_row fresh input in
    let stored =
      Decided-db chain config input.account (decision (to_internal_status input.status)) _ _
        (put_sep12-Decided chain config fresh now input w) in
    ap (view_found type) (get_customer_by_id id account _ named)
    ∙ ap (λ (db : Db). view_found type (find (has_customer_id id) db.anchor_customers)) stored
    ∙ ap (view_found type) (find-upsert_customer id new now w.db ∙ taken _ _ (eq_refl id))
    ∙ same_view (find (has_customer_id id) w.db.anchor_customers) refl
  where
    same_view :
        (old : Option Customer)
        → find (has_customer_id (get_or input.id fresh)) w.db.anchor_customers ≡ old
        → view_found type (
            some (
              merged
                (λ r. r.customer_id)
                (customer_update (customer_row (put_customer_row fresh input) now))
                (customer_row (put_customer_row fresh input) now)
                old))
          ≡ known
              (get_or input.id fresh)
              input.account
              input.memo
              (to_sep12_status (customer_text (to_internal_status input.status)))
              (get_or input.type "sep31-sender")
              input.reason
              (obj (get_or input.fields end))
              now
    same_view none found = refl
    same_view (some row) found =
        let same : row.customer_id ≡ get_or input.id fresh =
          (eq_iff row.customer_id (get_or input.id fresh)).0 (
            find_sound (has_customer_id (get_or input.id fresh)) w.db.anchor_customers row found) in
        ap
          (λ i.
            known i input.account input.memo
              (to_sep12_status (customer_text (to_internal_status input.status)))
              (get_or input.type "sep31-sender") input.reason (obj (get_or input.fields end)) now)
          same
