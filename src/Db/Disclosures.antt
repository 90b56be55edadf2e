-- ===== src/Db/Disclosures.antt =====
-- backend/src/db/sqlite.ts: the tables repayment_leaves and disclosure_bundles.
use nyxfinance.Common.{ℕ, Bool, true, ◌||◌, Option, String, ◌==◌}
use mathlib.Core.Option
use nyxfinance.Sql.{find, insert, insert_or_ignore, latest, update_where}
use nyxfinance.Result.{Result}
use nyxfinance.Db.{Db, RepaymentLeaf, DisclosureBundle, stored}

-- The primary key or the unique leaf_nullifier.
abbrev pub leaf_clash : RepaymentLeaf → RepaymentLeaf → Bool
leaf_clash leaf r = r.id == leaf.id || r.leaf_nullifier == leaf.leaf_nullifier

unfoldable pub insert_repayment_leaf : RepaymentLeaf → Db → Db
unfolding insert_or_ignore
insert_repayment_leaf leaf db = record db {
  repayment_leaves = insert_or_ignore (leaf_clash leaf) leaf db.repayment_leaves;
}

-- The primary key or the unique grant_id.
abbrev pub bundle_clash : DisclosureBundle → DisclosureBundle → Bool
bundle_clash bundle r = r.id == bundle.id || r.grant_id == bundle.grant_id

unfoldable pub insert_disclosure_bundle : DisclosureBundle → Db → Result Db
insert_disclosure_bundle bundle db =
    stored "disclosure_bundles" (λ rows. record db { disclosure_bundles = rows })
      (insert (bundle_clash bundle) bundle db.disclosure_bundles)

abbrev pub has_grant_id : String → DisclosureBundle → Bool
has_grant_id grant_id r = r.grant_id == grant_id

abbrev pub set_on_chain_tx : Option String → ℕ → DisclosureBundle → DisclosureBundle
set_on_chain_tx tx_hash now r = record r { on_chain_tx_hash = tx_hash; updated_at = now }

unfoldable pub update_disclosure_bundle_on_chain_tx : String → Option String → ℕ → Db → Db
update_disclosure_bundle_on_chain_tx grant_id tx_hash now db = record db {
  disclosure_bundles =
      update_where (has_grant_id grant_id) (set_on_chain_tx tx_hash now) db.disclosure_bundles;
}

abbrev pub set_revoked : ℕ → DisclosureBundle → DisclosureBundle
set_revoked now r = record r { revoked = true; updated_at = now }

unfoldable pub mark_disclosure_bundle_revoked : String → ℕ → Db → Db
mark_disclosure_bundle_revoked grant_id now db = record db {
  disclosure_bundles = update_where (has_grant_id grant_id) (set_revoked now) db.disclosure_bundles;
}

unfoldable pub get_disclosure_bundle : String → Db → Option DisclosureBundle
get_disclosure_bundle grant_id db = find (has_grant_id grant_id) db.disclosure_bundles

pub get_latest_disclosure_grant_id : Db → Option String
get_latest_disclosure_grant_id db =
    Option.map (λ (r : DisclosureBundle). r.grant_id)
      (latest (λ _. true) (λ r. r.created_at) db.disclosure_bundles)
