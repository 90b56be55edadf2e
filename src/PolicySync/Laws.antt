-- ===== src/PolicySync/Laws.antt =====
-- What a synchronisation of the participant policy does to the state.
use nyxfinance.Common.{
  some-injective, ℕ, String, ◌≡◌, refl, sym, ap, ◌∙◌, ◌⊎◌, inl, inr, Bool, Option, none, some, List,
  [], ◌∷◌, ◌++◌, if◌then◌else◌,
}
use nyxfinance.Result.{error, Fault, Result, ok, err}
use nyxfinance.Db.Anchor.{given}
use nyxfinance.Config.{AppConfig}
use nyxfinance.World.{require, then_run, Action, World, Chain, Call, Tx, Arg, address, boolean, u32}
use nyxfinance.World.Laws.{called, call_cases, address_cases, recover-world}
use nyxfinance.PolicySync.{
  SyncResult, sync_with, set_participant, sync_participant_policy, operator_keypair,
  submit_operator_contract_call,
}

-- A call that the operator signs alone.
abbrev pub operator_call : String → String → String → List Arg → Call
operator_call signer contract_id method args = record {
  signer = signer;
  auth_signers = [];
  contract_id = contract_id;
  method = method;
  args = args;
}

-- The key of the configured operator.
abbrev pub IsOperator : Chain → AppConfig → String → Type 0
IsOperator chain config operator =
    (secret : String) × (given config.participant_policy_operator_secret_key ≡ some secret)
    × (chain.public_key secret ≡ ok operator)

none-not_some : {A : Type 0} {o : Option A} {a : A} → o ≡ none → o ≡ some a → ⊥
none-not_some h k = cc

err-not_ok : {A : Type 0} {r : Result A} {e : Fault} {a : A} → r ≡ err e → r ≡ ok a → ⊥
err-not_ok h k = cc

-- There is no usable key of an operator.
abbrev pub LacksOperator : Chain → AppConfig → Type 0
LacksOperator chain config = ¬ ((operator : String) × IsOperator chain config operator)

same_key :
    (chain : Chain) (s t : String) (r : Result String)
    → s ≡ t
    → chain.public_key t ≡ r
    → chain.public_key s ≡ r
same_key chain s t r same key = ap chain.public_key same ∙ key

same_operator :
    (chain : Chain) (config : AppConfig) (a b : String)
    → IsOperator chain config a
    → IsOperator chain config b
    → a ≡ b
same_operator chain config a b (s, named, key) (t, named', key') =
    ok_inv (sym key ∙ same_key chain s t (ok b) (some-injective (sym named ∙ named')) key')
  where
    ok_inv : (Result.ok a) ≡ ok b → a ≡ b
    ok_inv h = cc

-- The rules for the operator's key and for a call by the operator: it is submitted, or there is no
-- usable key.
module _ {B : Type 0} (P : World × Result B → Type 0) (chain : Chain) (config : AppConfig) where
  pub operator_key_cases :
      (f : String → Action B) (w : World)
      → ((e : Fault) → LacksOperator chain config → P (w, err e))
      → ((operator : String) → IsOperator chain config operator → P (f operator w))
      → P (then_run (operator_keypair chain config w) f)
  unfolding operator_keypair
  operator_key_cases f w no' yes' = go (given config.participant_policy_operator_secret_key) refl
    where
      deeper :
          (s : String) (r : Result String)
          → given config.participant_policy_operator_secret_key ≡ some s
          → chain.public_key s ≡ r
          → P (then_run (w, r) f)
      deeper s (ok operator) named key = yes' operator (s, named, key)
      deeper s (err e) named key = no' e λ (operator, (t, named', key')).
          err-not_ok key
            (same_key chain s t (ok operator) (some-injective (sym named ∙ named')) key')

      go :
          (o : Option String)
          → given config.participant_policy_operator_secret_key ≡ o
          → P (
              then_run
                (then_run
                  (require o (error "PARTICIPANT_POLICY_OPERATOR_SECRET_KEY is not configured") w)
                  (λ s v. (v, chain.public_key s)))
                f)
      go none named = no' _ (λ (operator, (t, named', _)). none-not_some named named')
      go (some s) named = deeper s (chain.public_key s) named refl

  pub operator_cases :
      (f : String → Action B) (w : World)
      → ((e : Fault) → P (w, err e))
      → ((operator : String) → P (f operator w))
      → P (then_run (operator_keypair chain config w) f)
  operator_cases f w no' yes' = operator_key_cases f w (λ e _. no' e) (λ operator _. yes' operator)

module _ {B : Type 0} (P : World × Result B → Type 0) (chain : Chain) (config : AppConfig) where
  pub operator_call_key_cases :
      (contract_id method : String) (args : List Arg) (f : Tx → Action B) (w : World)
      → ((e : Fault) → LacksOperator chain config → P (w, err e))
      → ((signer : String) (e : Fault)
          → IsOperator chain config signer
          → P (called w (operator_call signer contract_id method args), err e))
      → ((signer : String) (tx : Tx)
          → IsOperator chain config signer
          → chain.submit w.calls (operator_call signer contract_id method args) ≡ ok tx
          → P (f tx (called w (operator_call signer contract_id method args))))
      → P (then_run (submit_operator_contract_call chain config contract_id method args w) f)
  unfolding submit_operator_contract_call
  operator_call_key_cases contract_id method args f w no' failed' done' =
      operator_key_cases (λ q. P (then_run q f)) chain config _ w no'
        λ signer key.
          call_cases P chain (operator_call signer contract_id method args) f w
            (λ e _. failed' signer e key) (λ tx sent. done' signer tx key sent)

  pub operator_call_cases :
      (contract_id method : String) (args : List Arg) (f : Tx → Action B) (w : World)
      → ((e : Fault) → P (w, err e))
      → ((signer : String) (e : Fault)
          → P (called w (operator_call signer contract_id method args), err e))
      → ((signer : String) (tx : Tx)
          → chain.submit w.calls (operator_call signer contract_id method args) ≡ ok tx
          → P (f tx (called w (operator_call signer contract_id method args))))
      → P (then_run (submit_operator_contract_call chain config contract_id method args w) f)
  operator_call_cases contract_id method args f w no' failed' done' =
      operator_call_key_cases contract_id method args f w (λ e _. no' e)
        (λ signer e _. failed' signer e) (λ signer tx _ sent. done' signer tx sent)

-- The one call that a synchronisation may make: of the configured policy, which the configured operator signs
-- alone, with the account as subject, the approval, its tier and reason, and the operator as caller.
abbrev pub PolicyCall : Chain → AppConfig → String → Bool → ℕ → Call → Type 0
PolicyCall chain config account approved reason call =
    (operator subject caller : String) × IsOperator chain config call.signer
    × (call.auth_signers ≡ [])
    × (given config.participant_policy ≡ some call.contract_id)
    × (call.method ≡ "set_participant")
    × (chain.check_address account ≡ ok subject)
    × IsOperator chain config operator
    × (chain.check_address operator ≡ ok caller)
    × (call.args
        ≡ address subject ∷ boolean approved ∷ u32 1 ∷ u32 reason ∷ u32 0 ∷ address caller ∷ [])

-- What a synchronisation needs: the policy and the operator's key are configured, and the addresses of the account
-- and of the operator are accepted.
abbrev pub CanSync : Chain → AppConfig → String → Type 0
CanSync chain config account =
    (contract_id operator subject caller : String) × (given config.participant_policy
      ≡ some contract_id)
    × IsOperator chain config operator
    × (chain.check_address account ≡ ok subject)
    × (chain.check_address operator ≡ ok caller)

-- Nothing is done, as something that is needed is missing, or that call is made.
abbrev pub SyncedWorld : Chain → AppConfig → String → Bool → ℕ → World → World → Type 0
SyncedWorld chain config account approved reason w w' =
    ((w' ≡ w) × ¬ CanSync chain config account)
    ⊎ ((call : Call) × PolicyCall chain config account approved reason call
        × (w' ≡ record w { calls = w.calls ++ call ∷ [] }))

-- The reason code that goes with an approval.
abbrev pub reason_code : Bool → ℕ
reason_code approved = if approved then 1 else 9

module _ (chain : Chain) (config : AppConfig) (account : String) (approved : Bool) (w : World) where
  abbrev Synced : World → Type 0
  Synced = SyncedWorld chain config account approved (reason_code approved) w

  set_participant-Synced :
      (contract_id operator : String)
      → given config.participant_policy ≡ some contract_id
      → IsOperator chain config operator
      → Synced (set_participant chain config contract_id operator account approved w).0
  unfolding set_participant
  set_participant-Synced contract_id operator contract is_operator =
      address_cases P chain account _ w
        (λ e wrong. inl (refl, λ (_, _, _, _, _, _, about, _). err-not_ok wrong about))
        λ subject about.
          address_cases P chain operator _ w
            (λ e wrong. inl (
              refl,
              λ (_, other, _, caller, _, is_other, _, by). err-not_ok wrong (
                  ap chain.check_address
                    (same_operator chain config operator other is_operator is_other)
                  ∙ by),
            ))
            λ caller by.
              let made = λ (signer : String) (key : IsOperator chain config signer). inr (
                operator_call signer contract_id "set_participant" _,
                (
                  operator, subject, caller, key, refl, contract, refl, about, is_operator, by,
                  refl,
                ),
                refl,
              ) in
              operator_call_key_cases P chain config contract_id "set_participant" _ _ w
                (λ e lacks. absurd (lacks (operator, is_operator)))
                (λ signer e key. made signer key) (λ signer tx key _. made signer key)
    where
      P : World × Result SyncResult → Type 0
      P q = Synced q.0

  sync_with-Synced :
      (contract key : Option String)
      → given config.participant_policy ≡ contract
      → given config.participant_policy_operator_secret_key ≡ key
      → Synced (sync_with chain config account approved contract key w).0
  unfolding sync_with
  sync_with-Synced none key named keyed =
      inl (refl, λ (_, _, _, _, contract, _, _, _). none-not_some named contract)
  sync_with-Synced (some contract_id) none named keyed =
      inl (refl, λ (_, _, _, _, _, (_, configured, _), _, _). none-not_some keyed configured)
  sync_with-Synced (some contract_id) (some secret) named keyed =
      operator_key_cases (λ q. Synced q.0) chain config _ w
        (λ e lacks. inl (refl, λ (_, operator, _, _, _, key, _, _). lacks (operator, key)))
        λ operator is_operator.
          rw recover-world (set_participant-Synced contract_id operator named is_operator)

  -- A synchronisation leaves the database as it is, and makes that call exactly if it can.
  pub sync-SyncedWorld : Synced (sync_participant_policy chain config account approved w).0
  unfolding sync_participant_policy
  sync-SyncedWorld = sync_with-Synced _ _ refl refl
