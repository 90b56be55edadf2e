-- ===== src/DemoFlow/Frames.antt =====
-- What the services that backend/src/services/demo-flow.ts calls leave alone: the table of snapshots.
pub mod History
pub mod Credit
use nyxfinance.Common.{ℕ, String, ◌≡◌, refl, ◌∙◌, Bool, true, false, Option, none, some, List}
use nyxfinance.Json.{Fields}
use nyxfinance.Status.{ProductStatus}
use nyxfinance.Sql.{insert}
use nyxfinance.World.Laws.{require_cases}
use nyxfinance.Result.{Fault, Result, ok, err}
use nyxfinance.Db.{TransferEvidence, stored}
use nyxfinance.Db.Anchor.{
  given, update_product_status, get_anchor_transaction_by_id, update_sep_status,
}
use nyxfinance.Db.Evidence.{insert_evidence}
use nyxfinance.Config.{AppConfig}
use nyxfinance.World.{
  World, Action, Chain, Call, Arg, then_run, require, throw_if, write, after_write, call_contract,
  address_arg, address,
}
use nyxfinance.PolicySync.{operator_keypair, submit_operator_contract_call}
use nyxfinance.Sep31.{
  TransactionView, update_sep31_transaction_status, mark_sep31_completed, get_sep31_transaction,
}
use nyxfinance.Evidence.{
  Platform, EvidenceInput, record_confidential_transfer_evidence, decode_data_xdr,
}
use nyxfinance.CreditLine.{keypair_from_secret, set_product}

-- The snapshots after a step are those before it, whatever becomes of the step.
pub record Keeps {A : Type 0} (w : World) (q : World × Result A) : Type 0 where
  pub same : q.0.db.snapshots ≡ w.db.snapshots

module _ {A B : Type 0} where
  pub keeps-then :
      {w : World} (q : World × Result A) (f : A → Action B)
      → Keeps w q
      → ((a : A) (v : World) → Keeps v (f a v))
      → Keeps w (then_run q f)
  keeps-then (v, ok a) f h next = record { same = (next a v).same ∙ h.same }
  keeps-then (v, err e) f h next = record { same = h.same }

pub keeps_here : {A : Type 0} (w : World) (r : Result A) → Keeps w (w, r)
keeps_here w r = record { same = refl }

pub keeps-require : {A : Type 0} (o : Option A) (e : Fault) (w : World) → Keeps w (require o e w)
keeps-require none e w = record { same = refl }
keeps-require (some a) e w = record { same = refl }

pub keeps-throw_if : (b : Bool) (e : Fault) (w : World) → Keeps w (throw_if b e w)
keeps-throw_if true e w = record { same = refl }
keeps-throw_if false e w = record { same = refl }

pub keeps-call : (chain : Chain) (call : Call) (w : World) → Keeps w (call_contract chain call w)
unfolding call_contract
keeps-call chain call w = record { same = refl }

pub keeps-operator :
    (chain : Chain) (config : AppConfig) (w : World) → Keeps w (operator_keypair chain config w)
unfolding operator_keypair
keeps-operator chain config w =
    keeps-then _ _ (keeps-require (given config.participant_policy_operator_secret_key) _ w)
      λ secret v. keeps_here v _

pub keeps-keypair :
    (chain : Chain) (secret : Option String) (name : String) (w : World)
    → Keeps w (keypair_from_secret chain secret name w)
unfolding keypair_from_secret
keeps-keypair chain secret name w =
    keeps-then _ _ (keeps-require (given secret) _ w) λ s v. keeps_here v _

pub keeps-operator_call :
    (chain : Chain) (config : AppConfig) (contract_id method : String) (args : List Arg) (w : World)
    → Keeps w (submit_operator_contract_call chain config contract_id method args w)
unfolding submit_operator_contract_call
keeps-operator_call chain config contract_id method args w =
    keeps-then _ _ (keeps-operator chain config w) λ operator v. keeps-call chain _ v

-- A product status is no snapshot.
pub keeps-set_product :
    (o : Option String) (product : ProductStatus) (now : ℕ) (w : World)
    → Keeps w (set_product o product now w)
unfolding update_product_status
keeps-set_product none product now w = record { same = refl }
keeps-set_product (some id) product now w = record { same = refl }

pub keeps-write_evidence :
    (w : World) (e : TransferEvidence) → Keeps w (write (insert_evidence e) w)
unfolding insert_evidence
keeps-write_evidence w e = keeps-stored w (insert _ _ w.db.evidence)
  where
    keeps-stored :
        (v : World) (o : Option (List TransferEvidence))
        → Keeps v (
            after_write v
              (stored "confidential_transfer_evidence" (λ rows. record v.db { evidence = rows }) o))
    keeps-stored v none = record { same = refl }
    keeps-stored v (some rows) = record { same = refl }

pub keeps-record_evidence :
    (platform : Platform) (fresh : String) (now : ℕ) (input : EvidenceInput) (w : World)
    → Keeps w (record_confidential_transfer_evidence platform fresh now input w)
unfolding record_confidential_transfer_evidence
keeps-record_evidence platform fresh now input w =
    keeps-then _ _ (keeps_here w (decode_data_xdr platform input.data_xdr_base64))
      λ decoded v. keeps-then _ _ (keeps-write_evidence v _) λ x u. keeps_here u _

pub keeps-update_sep31 :
    (config : AppConfig) (now : ℕ) (id status : String) (raw : Fields) (w : World)
    → Keeps w (update_sep31_transaction_status config now id status raw w)
unfolding update_sep31_transaction_status get_sep31_transaction update_sep_status
keeps-update_sep31 config now id status raw w =
    require_cases (Keeps w) (get_anchor_transaction_by_id id w.db) _ _ w
      (λ _. record { same = refl })
      λ existing _.
        require_cases (Keeps w) (get_anchor_transaction_by_id id _) _ _ _
          (λ _. record { same = refl }) λ row _. record { same = refl }

pub keeps-view :
    {w : World} (q : World × Result TransactionView)
    → Keeps w q
    → Keeps w (then_run q (λ _ v. (v, ok tt)))
keeps-view q h = keeps-then q _ h λ view v. keeps_here v _

pub keeps-mark_completed :
    (config : AppConfig) (now : ℕ) (id : String) (raw : Fields) (w : World)
    → Keeps w (mark_sep31_completed config now id raw w)
unfolding mark_sep31_completed
keeps-mark_completed config now id raw w = keeps-update_sep31 config now id "completed" _ w

pub keeps-address : (chain : Chain) (a : String) (w : World) → Keeps w (address_arg chain a w)
keeps-address chain a w =
    keeps-then (w, chain.check_address a) _ (keeps_here w (chain.check_address a))
      λ s v. keeps_here v (ok (address s))

abbrev pub here : {A : Type 0} {w : World} {r : Result A} → Keeps w (w, r)
here = record { same = refl }
