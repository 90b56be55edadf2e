-- ===== src/Disclosure/Created.antt =====
-- `createDisclosureGrant` of backend/src/services/disclosure.ts: the stored bundle and the chain's answer.
use nyxfinance.Common.{
  ℕ, String, ◌≡◌, refl, ◌⊎◌, inl, inr, Bool, true, false, Option, none, some, [], ◌∷◌, ◌++◌,
}
use nyxfinance.Json.{Fields, obj}
use nyxfinance.Result.{Fault, Result, ok, err, message}
use nyxfinance.Db.{Db, DisclosureBundle}
use nyxfinance.Db.Anchor.{given}
use nyxfinance.Db.Disclosures.{update_disclosure_bundle_on_chain_tx}
use nyxfinance.Config.{AppConfig}
use nyxfinance.World.{World, Chain, Call, Tx, then_run, recover, modify, pure, ◌>>=◌}
use nyxfinance.World.Laws.{lift_cases, require_cases}
use nyxfinance.PolicySync.Laws.{operator_cases, operator_call_cases, operator_call}
use nyxfinance.CreditLine.{to_address}
use nyxfinance.Hex.{normalize_hex}
use nyxfinance.Disclosure.Laws.{Discloses}
use nyxfinance.Disclosure.{
  scope_hash, Sealed, Crypto, GrantInput, OnChain, submitted, not_submitted, submit_grant_call,
}
use nyxfinance.Disclosure.Grant.{grant_args, submit_grant, on_chain_step, GrantResult}

-- What the step on the chain does after the bundle was stored: it is not submitted, and the database is as
-- it was; or it is submitted, and the bundle names the transaction. At most one call is made.
abbrev pub Stepped : String → ℕ → World → World × Result OnChain → Type 0
Stepped grant_id now v q =
    ((reason : String) × (q.1 ≡ ok (not_submitted reason))
      × (q.0.db ≡ v.db)
      × ((q.0.calls ≡ v.calls)
          ⊎ ((call : Call) × (call.method ≡ "create_grant") × (q.0.calls ≡ v.calls ++ call ∷ []))))
    ⊎ ((tx : Tx) × (call : Call) × (q.1 ≡ ok (submitted tx))
        × (q.0.db ≡ update_disclosure_bundle_on_chain_tx grant_id (some tx.hash) now v.db)
        × (call.method ≡ "create_grant")
        × (q.0.calls ≡ v.calls ++ call ∷ []))

module _ (chain : Chain) (config : AppConfig) (now : ℕ) (input : GrantInput)
    (row : DisclosureBundle) (v : World) where
  submit_grant-Stepped :
      Stepped row.grant_id now v
        (recover (submit_grant chain config now input row v) (λ e. not_submitted (message e)))
  unfolding submit_grant submit_grant_call
  submit_grant-Stepped =
      lift_cases P (grant_args chain input row) _ v (λ _ _. inl (_, refl, refl, inl refl))
        λ args _.
          operator_cases P chain config _ v (λ _. inl (_, refl, refl, inl refl))
            λ operator.
              lift_cases P (to_address (chain.check_address operator)) _ v
                (λ _ _. inl (_, refl, refl, inl refl))
                λ caller _.
                  require_cases Q (given config.contracts.disclosure_grant_registry) _ _ v
                    (λ _. inl (_, refl, refl, inl refl))
                    λ contract_id _.
                      operator_call_cases P chain config contract_id "create_grant"
                        (args ++ caller ∷ []) _ v (λ _. inl (_, refl, refl, inl refl))
                        (λ signer _. inl (
                          _,
                          refl,
                          refl,
                          inr (
                            operator_call signer contract_id "create_grant" (args ++ caller ∷ []),
                            refl,
                            refl,
                          ),
                        ))
                        (λ signer tx _. inr (
                          tx,
                          operator_call signer contract_id "create_grant" (args ++ caller ∷ []),
                          refl,
                          refl,
                          refl,
                          refl,
                        ))
    where
      P : World × Result OnChain → Type 0
      P q = Stepped row.grant_id now v (recover q (λ e. not_submitted (message e)))

      Q : World × Result Tx → Type 0
      Q q = P (
          then_run q (λ tx.
            modify (update_disclosure_bundle_on_chain_tx row.grant_id (some tx.hash) now) >>= λ _.
            pure (submitted tx)))

  -- After a bundle was stored, the chain's answer never makes the creation fail: a grant that is not
  -- submitted, for whatever reason, leaves the database as it is, and one that is submitted is marked with its
  -- transaction; at most one call is made, of `create_grant`.
  pub on_chain_step-Stepped :
      (submit : Option Bool)
      → Stepped row.grant_id now v (on_chain_step chain config now input row submit v)
  on_chain_step-Stepped none = submit_grant-Stepped
  on_chain_step-Stepped (some true) = submit_grant-Stepped
  on_chain_step-Stepped (some false) = inl (_, refl, refl, inl refl)

-- Adds a bundle to the table.
abbrev pub with_bundle : DisclosureBundle → Db → Db
with_bundle row db = record db { disclosure_bundles = db.disclosure_bundles ++ row ∷ [] }

-- The answer of the chain in the result of a creation.
abbrev pub chain_answer : World × Result GrantResult → World × Result OnChain
chain_answer (v, ok r) = (v, ok r.on_chain)
chain_answer (v, err e) = (v, err e)

module _ (chain : Chain) (crypto : Crypto) (config : AppConfig) (fresh grant_id : String) (now : ℕ)
    (input : GrantInput) (w : World) where
  -- Sealed for the viewer is an object that discloses what the scope names.
  abbrev pub SealsScoped : String → Sealed → Type 0
  SealsScoped position encrypted =
      (bundle : Fields) × Discloses input position bundle
      × (encrypted ≡ crypto.encrypt (crypto.stable_json (obj bundle)) input.viewer_secret)

  -- The stored bundle: not revoked, with the given owner, expiry and position, the hash of the scope, and what
  -- is sealed for the viewer.
  abbrev pub IsGrant : DisclosureBundle → Type 0
  IsGrant row =
      (row.grant_id ≡ grant_id)
      × (row.revoked ≡ false)
      × (row.owner ≡ input.owner)
      × (row.expires_at_ledger ≡ input.expires_at_ledger)
      × (row.scope_hash ≡ scope_hash crypto input.scope)
      × (normalize_hex input.position_id "positionId" ≡ ok row.position_id)
      × SealsScoped row.position_id
          (record { ciphertext = row.ciphertext; nonce = row.nonce; auth_tag = row.auth_tag })

  abbrev pub Created : World × Result GrantResult → Type 0
  Created q =
      ((e : Fault) × (q ≡ (w, err e)))
      ⊎ ((row : DisclosureBundle) × IsGrant row
          × Stepped grant_id now (record w { db = with_bundle row w.db }) (chain_answer q))
