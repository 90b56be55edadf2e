-- ===== src/DemoFlow/Restart.antt =====
-- `resetDemoFlow` of backend/src/services/demo-flow.ts: what the later steps do after it; and a second proof of the
-- history.
use mathlib.Core.Path.{subst}
use nyxfinance.Common.{ℕ, String, ◌≡◌, refl, ap, ◌∙◌, Option, none, some, List, get_or, ◌<>◌}
use nyxfinance.Json.{Fields}
use nyxfinance.Result.{Fault, Result, ok, err}
use nyxfinance.Sql.{find, upsert}
use nyxfinance.Db.{Db, AnchorTransaction, Snapshot, stored}
use nyxfinance.Db.Anchor.{
  TransactionInput, upsert_anchor_transaction, get_anchor_transaction_by_id, upsert_customer_status,
}
use nyxfinance.Db.Snapshots.{has_key, get_snapshot}
use nyxfinance.Config.{AppConfig}
use nyxfinance.World.{World, Action, Chain, then_run, write, after_write}
use nyxfinance.World.Laws.{lift_cases, require_cases}
use nyxfinance.Sep31.{create_sep31_transaction, created_row}
use nyxfinance.Sep12.{PutCustomer, put_sep12_customer, to_internal_status}
use nyxfinance.Sep12.Laws.{put_sep12-Decided, Decided-db}
use nyxfinance.AnchorPlatform.{decision, text_of_first, id_keys}
use nyxfinance.DemoFlow.State.{
  DemoState, blank_state, get_stored_state, stored_state, put_stored_state, restored, snapshot_key,
}
use nyxfinance.DemoFlow.State.Laws.{get-stored_state}
use nyxfinance.DemoFlow.Profile.{DemoAnchorProfile}
use nyxfinance.DemoFlow.Setting.{Setting, profile_of}
use nyxfinance.DemoFlow.Fixtures.{resolve_facility}
use nyxfinance.DemoFlow.Drawing.{StepInput, draw_demo_credit, public_inputs_of}
use nyxfinance.DemoFlow.Repaying.{repay_demo_credit}
use nyxfinance.DemoFlow.History.{HistoryInput, HistoryFresh, prove_demo_repayment_history}
use nyxfinance.DemoFlow.Bootstrap.{
  BootstrapInput, BootstrapFresh, BootstrapResult, default_transaction_id, bootstrap_demo_flow,
  reset_demo_flow,
}
use nyxfinance.DemoFlow.Frames.{Keeps, keeps-then, here}
use nyxfinance.DemoFlow.Order.{Refused, draw-Refused, repay-Refused, prove-Refused}

-- The stored state depends on the snapshots alone.
pub state_of_snapshots :
    (now : ℕ) (d d' : Db)
    → d.snapshots ≡ d'.snapshots
    → get_stored_state now d ≡ get_stored_state now d'
unfolding get_stored_state get_snapshot
state_of_snapshots now d d' e =
    ap (λ (rows : List Snapshot). restored now (find (has_key snapshot_key) rows)) e

keeps-write_transaction :
    (config : AppConfig) (now : ℕ) (input : TransactionInput) (w : World)
    → Keeps w (write (upsert_anchor_transaction input now) w)
unfolding upsert_anchor_transaction
keeps-write_transaction config now input w = by_rows (upsert _ _ _ _ w.db.anchor_transactions)
  where
    by_rows :
        (o : Option (List AnchorTransaction))
        → Keeps w (
            after_write w
              (stored "anchor_transactions" (λ rows. record w.db { anchor_transactions = rows }) o))
    by_rows none = here
    by_rows (some rows) = record { same = refl }

keeps-create_sep31 :
    (config : AppConfig) (fresh_sep31 fresh_tx : String) (now : ℕ) (input : Fields) (w : World)
    → Keeps w (create_sep31_transaction config fresh_sep31 fresh_tx now input w)
unfolding create_sep31_transaction
keeps-create_sep31 config fresh_sep31 fresh_tx now input w =
    let id = text_of_first id_keys fresh_sep31 input in
    let row = created_row config id fresh_tx input (get_anchor_transaction_by_id id w.db) in
    keeps-then (write (upsert_anchor_transaction row now) w) _
      (keeps-write_transaction config now row w)
      λ _ v.
        require_cases (Keeps v) (get_anchor_transaction_by_id id v.db) _ _ v (λ _. here)
          λ row _. here

keeps-put_sep12 :
    (chain : Chain) (config : AppConfig) (fresh : String) (now : ℕ) (input : PutCustomer)
    (w : World)
    → Keeps w (put_sep12_customer chain config fresh now input w)
unfolding upsert_customer_status
keeps-put_sep12 chain config fresh now input w = record {
  same =
      ap (λ (d : Db). d.snapshots)
        (Decided-db chain config input.account (decision (to_internal_status input.status)) _ _
          (put_sep12-Decided chain config fresh now input w));
}

module _ {A R : Type 0} (P : World × Result R → Type 0) (w : World) where
  keeps_cases :
      (q : World × Result A) (f : A → Action R)
      → Keeps w q
      → ((v : World) (e : Fault) → P (v, err e))
      → ((a : A) (v : World) → v.db.snapshots ≡ w.db.snapshots → P (f a v))
      → P (then_run q f)
  keeps_cases (v, ok a) f h no' yes' = yes' a v h.same
  keeps_cases (v, err e) f h no' yes' = no' v e

-- A state with the profile and the transaction of a bootstrap.
abbrev pub booted : String → String → ℕ → DemoState → DemoState
booted profile id now state = record state {
  profile_id = some profile;
  anchor_transaction_id = some id;
  updated_at = now;
}

-- The state after a bootstrap that returns: the one before it, with the profile and the transaction.
abbrev Boots : DemoState → ℕ → World × Result BootstrapResult → Type 0
Boots before now (v, err e) = Unit
Boots before now (v, ok r) =
    (profile id : String) × ((later : ℕ)
      → get_stored_state later v.db ≡ booted profile id now before)

bootstrap-Boots :
    (s : Setting) (fresh : BootstrapFresh) (now : ℕ) (input : BootstrapInput) (w : World)
    → Boots (get_stored_state now w.db) now (bootstrap_demo_flow s fresh now input w)
unfolding bootstrap_demo_flow put_stored_state
bootstrap-Boots s fresh now input w =
    lift_cases P (profile_of s input.profile input.account) _ w (λ _ _. tt)
      λ profile _.
        let id = get_or input.anchor_transaction_id (default_transaction_id s profile) in
        lift_cases P (resolve_facility s.config) _ w (λ _ _. tt)
          λ facility _.
            keeps_cases P w _ _ (keeps-create_sep31 s.config fresh.sep31_id fresh.tx_id now _ w)
              (λ _ _. tt)
              λ transaction v e.
                keeps_cases P v _ _ (keeps-put_sep12 s.chain s.config fresh.customer_id now _ v)
                  (λ _ _. tt)
                  λ customer u e'. (
                    profile.id,
                    id,
                    λ later.
                        (get-stored_state now later
                          (booted profile.id id now (get_stored_state now u.db)) u.db).0
                        ∙ ap (booted profile.id id now) (state_of_snapshots now u.db w.db (e' ∙ e)),
                  )
  where
    P : World × Result BootstrapResult → Type 0
    P = Boots (get_stored_state now w.db) now

-- After a reset that returns, the stored state is blank but for the profile and the transaction.
reset-Boots :
    (s : Setting) (fresh : BootstrapFresh) (stamp : String) (now : ℕ) (input : BootstrapInput)
    (w : World)
    → Boots (blank_state now) now (reset_demo_flow s fresh stamp now input w)
unfolding reset_demo_flow put_stored_state
reset-Boots s fresh stamp now input w =
    lift_cases (Boots (blank_state now) now) (profile_of s input.profile input.account) _ w
      (λ _ _. tt)
      λ profile _.
        let id = get_or input.anchor_transaction_id ("sep31-" <> profile.id <> "-" <> stamp) in
        let cleared = booted profile.id id now (blank_state now) in
        let v : World = record w { db = stored_state now cleared w.db } in
        again profile.id id v (get-stored_state now now cleared w.db).0
          (bootstrap_demo_flow s fresh now (again_input profile id) v)
          (bootstrap-Boots s fresh now (again_input profile id) v)
  where
    again_input : DemoAnchorProfile → String → BootstrapInput
    again_input profile id = record {
      profile = some profile.id;
      anchor_transaction_id = some id;
      account = some profile.account;
      kyb_status = some (get_or input.kyb_status "ACCEPTED");
    }

    again :
        (profile id : String) (v : World)
        → get_stored_state now v.db ≡ booted profile id now (blank_state now)
        → (q : World × Result BootstrapResult) → Boots (get_stored_state now v.db) now q
        → Boots (blank_state now) now q
    again profile id v e (u, err x) h = tt
    again profile id v e (u, ok r) (profile', id', reads) =
        (profile', id', λ later. reads later ∙ ap (booted profile' id' now) e)

Boots-out :
    (before : DemoState) (now : ℕ) (q : World × Result BootstrapResult) {v : World}
    {r : BootstrapResult}
    → Boots before now q
    → q ≡ (v, ok r)
    → Boots before now (v, ok r)
Boots-out before now q h e = subst (Boots before now) e h

-- After a reset that returns, at whatever time and with whatever inputs, a draw and a proof of the history are
-- refused, and so is a repayment of a position that is not named: they throw, make no call and change
-- nothing.
pub reset-starts_over :
    (s : Setting) (fresh : BootstrapFresh) (stamp : String) (now later : ℕ) (input : BootstrapInput)
    (w v : World) (r : BootstrapResult) (of_draw of_repay : String) (of_history : HistoryFresh)
    (draw_demo repay_demo : StepInput) (history : HistoryInput)
    → reset_demo_flow s fresh stamp now input w ≡ (v, ok r)
    → repay_demo.position_id ≡ none
    → Refused v (draw_demo_credit s of_draw later draw_demo v)
      × Refused v (repay_demo_credit s of_repay later repay_demo v)
      × Refused v (prove_demo_repayment_history s of_history later history v)
unfolding blank_state
reset-starts_over s fresh stamp now later input w v r of_draw of_repay of_history draw_demo
      repay_demo history e named =
    let (profile, id, reads) =
      Boots-out (blank_state now) now _ (reset-Boots s fresh stamp now input w) e in
    (
      draw-Refused s later v of_draw draw_demo
          (ap (λ (t : DemoState). public_inputs_of t.proof) (reads later)),
      repay-Refused s later v of_repay repay_demo named
          (ap (λ (t : DemoState). t.position_id) (reads later)),
      prove-Refused s later v of_history history (ap (λ (t : DemoState). t.repaid) (reads later)),
    )
