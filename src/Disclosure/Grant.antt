-- ===== src/Disclosure/Grant.antt =====
-- backend/src/services/disclosure.ts: `createDisclosureGrant`.
use nyxfinance.Common.{ℕ, Bool, false, Option, none, some, String, List, [], ◌∷◌, ◌++◌}
use nyxfinance.Json.{obj}
use nyxfinance.Result.{Result, ok, message}
use nyxfinance.Db.{DisclosureBundle}
use nyxfinance.Db.Disclosures.{insert_disclosure_bundle, update_disclosure_bundle_on_chain_tx}
use nyxfinance.Config.{AppConfig}
use nyxfinance.World.{Arg, u32, Chain, Action, pure, lift, modify, write, catch, ◌>>=◌, ◌>>◌}
use nyxfinance.PolicySync.{operator_keypair}
use nyxfinance.Hex.{normalize_hex, bytes32_arg}
use nyxfinance.CreditLine.{to_address, all_args}
use nyxfinance.Disclosure.{
  Crypto, Sealed, GrantInput, scope_hash, viewer_hash, plaintext, bundle_hash, OnChain, submitted,
  not_submitted, submit_grant_call,
}

-- The row that is stored: `newId("bundle")` is `fresh`, and the 32 random bytes are `grant_id`.
abbrev pub grant_row :
    Crypto → String → String → ℕ → GrantInput → String → Sealed → DisclosureBundle
grant_row crypto fresh grant_id now input position encrypted = record {
  id = fresh;
  grant_id = grant_id;
  owner = input.owner;
  viewer_hash = viewer_hash crypto input.viewer_secret;
  position_id = position;
  event_hash = crypto.sha256_hex input.event_id;
  scope_hash = scope_hash crypto input.scope;
  bundle_hash = bundle_hash crypto encrypted;
  ciphertext = encrypted.ciphertext;
  nonce = encrypted.nonce;
  auth_tag = encrypted.auth_tag;
  on_chain_tx_hash = none;
  revoked = false;
  expires_at_ledger = input.expires_at_ledger;
  created_at = now;
  updated_at = now;
}

unfoldable pub grant_args : Chain → GrantInput → DisclosureBundle → Result (List Arg)
grant_args chain input row = all_args (
    bytes32_arg row.grant_id "grantId"
    ∷ to_address (chain.check_address input.owner)
    ∷ bytes32_arg row.viewer_hash "viewerHash"
    ∷ bytes32_arg input.position_id "positionId"
    ∷ bytes32_arg row.event_hash "eventHash"
    ∷ bytes32_arg row.scope_hash "scopeHash"
    ∷ bytes32_arg row.bundle_hash "bundleHash"
    ∷ ok (u32 input.expires_at_ledger)
    ∷ [])

-- The body of the `try`; the operator's address is the last argument.
unfoldable pub submit_grant : Chain → AppConfig → ℕ → GrantInput → DisclosureBundle → Action OnChain
submit_grant chain config now input row = do
  args ← lift (grant_args chain input row)
  operator ← operator_keypair chain config
  caller ← lift (to_address (chain.check_address operator))
  tx ← submit_grant_call chain config "create_grant" (args ++ caller ∷ [])
  modify (update_disclosure_bundle_on_chain_tx row.grant_id (some tx.hash) now)
  pure (submitted tx)

-- `input.submitOnChain !== false`
abbrev pub on_chain_step :
    Chain → AppConfig → ℕ → GrantInput → DisclosureBundle → Option Bool → Action OnChain
on_chain_step chain config now input row (some false) = pure (not_submitted "submitOnChain false")
on_chain_step chain config now input row _ =
    catch (submit_grant chain config now input row) (λ e. not_submitted (message e))

pub record GrantResult : Type 0 where
  pub grant_id : String
  pub viewer_secret : String
  pub viewer_hash : String
  pub scope_hash : String
  pub bundle_hash : String
  pub event_hash : String
  pub expires_at_ledger : ℕ
  pub on_chain : OnChain

abbrev pub grant_result : Crypto → String → GrantInput → DisclosureBundle → OnChain → GrantResult
grant_result crypto grant_id input row on_chain = record {
  grant_id = grant_id;
  viewer_secret = input.viewer_secret;
  viewer_hash = row.viewer_hash;
  scope_hash = row.scope_hash;
  bundle_hash = row.bundle_hash;
  event_hash = row.event_hash;
  expires_at_ledger = input.expires_at_ledger;
  on_chain = on_chain;
}

unfoldable pub create_disclosure_grant :
    Chain → Crypto → AppConfig → String → String → ℕ → GrantInput → Action GrantResult
create_disclosure_grant chain crypto config fresh grant_id now input = do
  position ← lift (normalize_hex input.position_id "positionId")
  let opened = obj (plaintext input position (scope_hash crypto input.scope))
  let encrypted = crypto.encrypt (crypto.stable_json opened) input.viewer_secret
  let row = grant_row crypto fresh grant_id now input position encrypted
  write (insert_disclosure_bundle row)
  on_chain ← on_chain_step chain config now input row input.submit_on_chain
  pure (grant_result crypto grant_id input row on_chain)
