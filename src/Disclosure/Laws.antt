-- ===== src/Disclosure/Laws.antt =====
-- The scope and the revocation of grants in backend/src/services/disclosure.ts.
use mathlib.Core.List.{Memᴰ}
use mathlib.Core.Option
use nyxfinance.Common.{
  ℕ, String, ◌≡◌, refl, ap, ◌∙◌, ◌⊎◌, inl, inr, Option, none, some, List, [], ◌∷◌, ◌++◌, ◌==◌,
  if◌then◌else◌,
}
use nyxfinance.Json.{str, obj, Fields, get}
use nyxfinance.Sql.Keys.{find-update_where_key}
use nyxfinance.Result.{Result, ok, err, message}
use nyxfinance.Db.{Db}
use nyxfinance.Db.Anchor.{given}
use nyxfinance.Db.Disclosures.{set_revoked, mark_disclosure_bundle_revoked, get_disclosure_bundle}
use nyxfinance.Config.{AppConfig}
use nyxfinance.World.{World, Chain, Call, Tx, then_run, recover}
use nyxfinance.World.Laws.{lift_cases, require_cases}
use nyxfinance.PolicySync.Laws.{operator_cases, operator_call_cases, operator_call}
use nyxfinance.Hex.{bytes32_arg}
use nyxfinance.Disclosure.{
  GrantInput, OnChain, submitted, not_submitted, submit_grant_call, submit_revocation,
  revoke_disclosure_grant, revoke_args,
}

-- An object to disclose names the position and carries data that has, under each name of the scope, what the
-- given data has there, and nothing under any other name.
abbrev pub Discloses : GrantInput → String → Fields → Type 0
Discloses input position bundle =
    (disclosed : Fields) × (get "scopedData" bundle ≡ some (obj disclosed))
    × (get "positionId" bundle ≡ some (str position))
    × ((key : String) → Memᴰ key input.scope.fields → get key disclosed ≡ get key input.scoped_data)
    × ((key : String) → ¬ Memᴰ key input.scope.fields → get key disclosed ≡ none)

-- The call of a revocation, which the operator signs alone.
abbrev pub RevokeCall : Call → Type 0
RevokeCall call = (call.method ≡ "revoke_grant") × (call.auth_signers ≡ [])

-- No call, or one call of a revocation.
abbrev pub AtMostOne : List Call → List Call → Type 0
AtMostOne before after =
    (after ≡ before) ⊎ ((call : Call) × RevokeCall call × (after ≡ before ++ call ∷ []))

module _ (chain : Chain) (config : AppConfig) (now : ℕ) (grant_id : String) (w : World) where
  abbrev Tried : World → Type 0
  Tried v = (v.db ≡ w.db) × AtMostOne w.calls v.calls

  submit_revocation-Tried : Tried (submit_revocation chain config grant_id w).0
  unfolding submit_revocation submit_grant_call
  submit_revocation-Tried =
      lift_cases P (bytes32_arg grant_id "grantId") _ w (λ _ _. (refl, inl refl))
        λ _ _.
          operator_cases P chain config _ w (λ _. (refl, inl refl))
            λ operator.
              lift_cases P (revoke_args chain grant_id operator) _ w (λ _ _. (refl, inl refl))
                λ args _.
                  require_cases Q (given config.contracts.disclosure_grant_registry) _ _ w
                    (λ _. (refl, inl refl))
                    λ contract_id _.
                      operator_call_cases P chain config contract_id "revoke_grant" args _ w
                        (λ _. (refl, inl refl))
                        (λ signer _. (
                          refl,
                          inr (
                            operator_call signer contract_id "revoke_grant" args,
                            (refl, refl),
                            refl,
                          ),
                        ))
                        (λ signer tx _. (
                          refl,
                          inr (
                            operator_call signer contract_id "revoke_grant" args,
                            (refl, refl),
                            refl,
                          ),
                        ))
    where
      P : World × Result OnChain → Type 0
      P q = Tried q.0

      Q : World × Result Tx → Type 0
      Q q = P (then_run q (λ tx v. (v, ok (submitted tx))))

  -- Revoking a grant always succeeds, whatever the chain answers: its bundle, if there is one, is
  -- marked as revoked, every other bundle is as before, and at most one call is made, of `revoke_grant`, which the
  -- operator signs alone.
  pub revoke_disclosure_grant_total :
      let q = revoke_disclosure_grant chain config now grant_id w in
      ((on_chain : OnChain) × (q.1 ≡ ok on_chain))
      × AtMostOne w.calls q.0.calls
      × ((j : String)
          → get_disclosure_bundle j q.0.db ≡ (
              if grant_id == j
              then Option.map (set_revoked now) (get_disclosure_bundle j w.db)
              else get_disclosure_bundle j w.db))
  unfolding revoke_disclosure_grant mark_disclosure_bundle_revoked get_disclosure_bundle
  revoke_disclosure_grant_total =
      marked (submit_revocation chain config grant_id w) submit_revocation-Tried
    where
      read :
          (v : World)
          → v.db ≡ w.db
          → (j : String)
          → get_disclosure_bundle j (mark_disclosure_bundle_revoked grant_id now v.db) ≡ (
              if grant_id == j
              then Option.map (set_revoked now) (get_disclosure_bundle j w.db)
              else get_disclosure_bundle j w.db)
      read v same j =
          ap (λ (db : Db). get_disclosure_bundle j (mark_disclosure_bundle_revoked grant_id now db))
            same
          ∙ find-update_where_key (λ r. r.grant_id) (set_revoked now) grant_id j
              w.db.disclosure_bundles (λ r. refl)

      marked :
          (p : World × Result OnChain)
          → Tried p.0
          → let q =
              then_run (recover p (λ e. not_submitted (message e))) (λ r v.
                (record v { db = mark_disclosure_bundle_revoked grant_id now v.db }, ok r)) in
            ((on_chain : OnChain) × (q.1 ≡ ok on_chain))
            × AtMostOne w.calls q.0.calls
            × ((j : String)
                → get_disclosure_bundle j q.0.db ≡ (
                    if grant_id == j
                    then Option.map (set_revoked now) (get_disclosure_bundle j w.db)
                    else get_disclosure_bundle j w.db))
      marked (v, ok r) (same, calls) = ((r, refl), calls, read v same)
      marked (v, err e) (same, calls) = ((_, refl), calls, read v same)
