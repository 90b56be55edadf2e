-- ===== src/Disclosure.antt =====
-- backend/src/services/disclosure.ts: grants that disclose chosen fields of a position to a viewer.
pub mod Laws
pub mod Grant
pub mod Created
use nyxfinance.Common.{
  ℕ, Bool, false, Option, none, some, String, List, [], ◌∷◌, ◌==◌, ◌<>◌, if◌then◌else◌, ltb, any,
}
use nyxfinance.Json.{Json, str, obj, arr, Items, nil, cons, Fields, end, field, spread}
use nyxfinance.Result.{Result, ok, err, error, message}
use nyxfinance.Db.{DisclosureBundle}
use nyxfinance.Db.Anchor.{given}
use nyxfinance.Db.Disclosures.{mark_disclosure_bundle_revoked, get_disclosure_bundle}
use nyxfinance.Config.{AppConfig}
use nyxfinance.World.{Arg, Tx, Chain, Action, pure, lift, gets, modify, require, catch, ◌>>=◌, ◌>>◌}
use nyxfinance.PolicySync.{operator_keypair, submit_operator_contract_call}
use nyxfinance.Hex.{bytes32_arg}
use nyxfinance.CreditLine.{to_address, all_args}

pub record Sealed : Type 0 where
  pub ciphertext : String
  pub nonce : String
  pub auth_tag : String

-- Node's `createHash("sha256")`, `stableJson`, and AES-256-GCM by a key from the viewer's secret with a
-- nonce that is drawn for each text.
pub record Crypto : Type 0 where
  pub sha256_hex : String → String
  pub stable_json : Json → String
  pub encrypt : String → String → Sealed

pub record Scope : Type 0 where
  pub fields : List String
  pub label : Option String

abbrev pub field_items : List String → Items
field_items [] = nil
field_items (f ∷ fs) = cons (str f) (field_items fs)

abbrev pub label_field : Option String → Fields
label_field none = end
label_field (some label) = field "label" (str label) end

abbrev pub scope_json : Scope → Json
scope_json scope = obj (field "fields" (arr (field_items scope.fields)) (label_field scope.label))

unfoldable pub scope_hash : Crypto → Scope → String
scope_hash crypto scope = crypto.sha256_hex (crypto.stable_json (scope_json scope))

unfoldable pub viewer_hash : Crypto → String → String
viewer_hash crypto viewer_secret = crypto.sha256_hex viewer_secret

abbrev pub is_allowed : Scope → String → Bool
is_allowed scope key = any (λ f. f == key) scope.fields

-- Only the properties that the scope names.
unfoldable pub scoped_only : Fields → Scope → Fields
scoped_only end scope = end
scoped_only (field key value rest) scope =
    let kept = scoped_only rest scope in if is_allowed scope key then field key value kept else kept

pub record GrantInput : Type 0 where
  pub owner : String
  pub viewer_secret : String
  pub position_id : String
  pub event_id : String
  pub scope : Scope
  pub scoped_data : Fields
  pub expires_at_ledger : ℕ
  pub auditor_ciphertexts : Option Fields
  pub proof : Option Fields
  pub submit_on_chain : Option Bool

-- `...(value ? { key: value } : {})`
abbrev pub optional_field : String → Option Fields → Fields
optional_field key none = end
optional_field key (some fields) = field key (obj fields) end

unfoldable pub plaintext : GrantInput → String → String → Fields
plaintext input position scope_digest =
    spread
      (spread
        (spread
          (field "positionId" (str position) (
            field "scope" (scope_json input.scope)
              (field "scopedData" (obj (scoped_only input.scoped_data input.scope)) end)))
          (optional_field "proof" input.proof))
        (optional_field "auditorCiphertexts" input.auditor_ciphertexts))
      (field "clientVerification" (obj (field "expectedScopeHash" (str scope_digest) end)) end)

-- `bundleHash`
unfoldable pub bundle_hash : Crypto → Sealed → String
bundle_hash crypto encrypted =
    crypto.sha256_hex (
      "aes-256-gcm:" <> encrypted.nonce <> ":" <> encrypted.auth_tag <> ":" <> encrypted.ciphertext)

pub data OnChain : Type 0 where
  submitted : Tx → OnChain
  not_submitted : String → OnChain

unfoldable pub submit_grant_call : Chain → AppConfig → String → List Arg → Action Tx
submit_grant_call chain config method args = do
  contract_id ←
      require (given config.contracts.disclosure_grant_registry)
        (error "DISCLOSURE_GRANT_REGISTRY_CONTRACT_ID is not configured")
  submit_operator_contract_call chain config contract_id method args

-- The arguments of `revoke_grant`, whose last one is the operator's address.
unfoldable pub revoke_args : Chain → String → String → Result (List Arg)
revoke_args chain grant_id operator =
    all_args (bytes32_arg grant_id "grantId" ∷ to_address (chain.check_address operator) ∷ [])

-- The body of the `try` of `revokeDisclosureGrant`. The first argument is checked before the operator's key is read.
unfoldable pub submit_revocation : Chain → AppConfig → String → Action OnChain
submit_revocation chain config grant_id = do
  checked ← lift (bytes32_arg grant_id "grantId")
  operator ← operator_keypair chain config
  args ← lift (revoke_args chain grant_id operator)
  tx ← submit_grant_call chain config "revoke_grant" args
  pure (submitted tx)

unfoldable pub revoke_disclosure_grant : Chain → AppConfig → ℕ → String → Action OnChain
revoke_disclosure_grant chain config now grant_id = do
  on_chain ← catch (submit_revocation chain config grant_id) (λ e. not_submitted (message e))
  modify (mark_disclosure_bundle_revoked grant_id now)
  pure on_chain

pub record GrantStatus : Type 0 where
  pub bundle : DisclosureBundle
  pub revoked : Bool
  pub expired : Bool
  pub latest_ledger : Option ℕ

-- The sequence of `fetchLatestLedger`, `null` where it throws
abbrev pub known_ledger : Result ℕ → Option ℕ
known_ledger (ok n) = some n
known_ledger (err e) = none

-- `latestLedger === null ? false : latestLedger > bundle.expiresAtLedger`
abbrev pub is_expired : Option ℕ → ℕ → Bool
is_expired none expires = false
is_expired (some latest) expires = ltb expires latest

unfoldable pub get_disclosure_grant_bundle : Result ℕ → String → Action GrantStatus
get_disclosure_grant_bundle latest grant_id = do
  found ← gets (get_disclosure_bundle grant_id)
  bundle ← require found (error "disclosure_bundle_not_found")
  pure (record {
    bundle = bundle;
    revoked = bundle.revoked;
    expired = is_expired (known_ledger latest) bundle.expires_at_ledger;
    latest_ledger = known_ledger latest;
  })
