-- ===== src/PolicySync.antt =====
-- backend/src/services/participant-policy-sync.ts, with `operatorKeypair` and
-- `submitOperatorContractCall` of backend/src/services/operator-tx.ts.
pub mod Laws
use nyxfinance.Common.{Bool, Option, none, some, String, List, [], ◌∷◌, if◌then◌else◌}
use nyxfinance.Result.{error, message}
use nyxfinance.Db.Anchor.{given}
use nyxfinance.Config.{AppConfig}
use nyxfinance.World.{
  Arg, boolean, u32, Tx, Chain, Action, pure, lift, require, catch, ◌>>=◌, ◌>>◌, address_arg,
  call_contract,
}

-- The public key of the operator.
unfoldable pub operator_keypair : Chain → AppConfig → Action String
operator_keypair chain config = do
  secret ←
      require (given config.participant_policy_operator_secret_key)
        (error "PARTICIPANT_POLICY_OPERATOR_SECRET_KEY is not configured")
  lift (chain.public_key secret)

unfoldable pub submit_operator_contract_call :
    Chain → AppConfig → String → String → List Arg → Action Tx
submit_operator_contract_call chain config contract_id method args = do
  operator ← operator_keypair chain config
  call_contract chain (record {
    signer = operator;
    auth_signers = [];
    contract_id = contract_id;
    method = method;
    args = args;
  })

pub data SyncResult : Type 0 where
  synced : Tx → SyncResult
  not_synced : String → SyncResult

-- The body of the `try`.
unfoldable pub set_participant :
    Chain → AppConfig → String → String → String → Bool → Action SyncResult
set_participant chain config contract_id operator account approved = do
  subject ← address_arg chain account
  caller ← address_arg chain operator
  tx ←
      submit_operator_contract_call chain config contract_id "set_participant"
        (subject ∷ boolean approved ∷ u32 1 ∷ u32 (if approved then 1 else 9) ∷ u32 0 ∷ caller ∷ [])
  pure (synced tx)

-- By the configured contract and key.
unfoldable pub sync_with :
    Chain → AppConfig → String → Bool → Option String → Option String → Action SyncResult
unfolding set_participant
sync_with chain config account approved none key =
    pure (not_synced "PARTICIPANT_POLICY_CONTRACT_ID is not configured")
sync_with chain config account approved (some contract_id) none =
    pure (not_synced "PARTICIPANT_POLICY_OPERATOR_SECRET_KEY is not configured")
sync_with chain config account approved (some contract_id) (some secret) = do
  operator ← operator_keypair chain config
  catch (set_participant chain config contract_id operator account approved)
      (λ e. not_synced (message e))

unfoldable pub sync_participant_policy : Chain → AppConfig → String → Bool → Action SyncResult
unfolding sync_with
sync_participant_policy chain config account approved =
    sync_with chain config account approved (given config.participant_policy)
      (given config.participant_policy_operator_secret_key)
