-- ===== src/Config.antt =====
-- backend/src/lib/env.ts: the configuration, and the readers of environment variables that fill it.
-- Here are the fields that the modelled services use.
use nyxfinance.Common.{
  ℕ, Bool, ◌||◌, Option, none, some, String, ◌==◌, ◌<>◌, if◌then◌else◌, or_else, to_lower,
}
use text.Mathlib.Text.{starts_with}
use nyxfinance.Result.{Result, ok, err, error}

pub record Contracts : Type 0 where
  pub participant_policy : Option String
  pub collateral_policy : Option String
  pub oracle_adapter : Option String
  pub collateral_lock : Option String
  pub prefunding_credit_line : Option String
  pub collateral_token : Option String
  pub confidential_cusdc : Option String
  pub collateral_sufficiency_verifier : Option String
  pub repayment_history_verifier : Option String
  pub disclosure_grant_registry : Option String
  pub repayment_history : Option String

pub record DemoAccounts : Type 0 where
  pub alpha : Option String
  pub facility : Option String
  pub auditor : Option String

pub record AppConfig : Type 0 where
  pub stellar_rpc_url : String
  pub stellar_horizon_url : String
  pub stellar_network_passphrase : String
  pub anchor_platform_public_url : String
  pub anchor_stellar_toml_url : String
  pub prefunding_fee_bps : ℕ
  pub oracle_mode : String
  pub oracle_source : String
  pub reflector_pulse_contract_id : Option String
  pub reflector_quote_asset : String
  pub reflector_staleness_seconds : ℕ
  pub prover_mode : String
  pub oz_confidential_root : String
  pub participant_policy_operator_secret_key : Option String
  pub credit_executor_secret_key : Option String
  pub distribution_account : String
  pub demo_anchor_account : String
  pub demo_anchor_secret_key : Option String
  pub demo_anchor_confidential_sk : Option String
  pub demo_anchor_collateral_amount : Option String
  pub demo_anchor_collateral_randomness : Option String
  pub demo_accounts : DemoAccounts
  pub contracts : Contracts
  pub open contracts use *

-- `process.env`
abbrev pub Env : Type 0
Env = String → Option String

-- `required(name, fallback)`
pub required : Env → String → Option String → Result String
required env name fallback = elim (or_else (env name) fallback) [
  | none ↦ err (error ("Missing required environment variable: " <> name))
  | some value ↦
      if value == ""
      then err (error ("Missing required environment variable: " <> name))
      else ok value
]

abbrev configured_value : Option String → Option String
configured_value none = none
configured_value (some value) =
    if value == "" || value == "REPLACE_ME" || starts_with value "TODO_" then none else some value

abbrev fallback_value : Env → Option String → Option String
fallback_value env none = none
fallback_value env (some name) = if name == "" then none else env name

-- `optional(name, fallbackName)`
pub optional : Env → String → Option String → Option String
optional env name fallback_name =
    configured_value (or_else (env name) (fallback_value env fallback_name))

-- `flag(name, fallback)`
pub flag : Env → String → Bool → Bool
flag env name fallback = elim (env name) [
  | none ↦ fallback
  | some value ↦
      if value == ""
      then fallback
      else value == "1" || to_lower value == "true" || to_lower value == "yes"
]
