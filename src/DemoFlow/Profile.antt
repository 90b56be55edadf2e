-- ===== src/DemoFlow/Profile.antt =====
-- backend/src/services/demo-flow.ts: the profile of the anchor that the flow runs for, read from the
-- environment and the configuration.
use text.Mathlib.Text.{starts_with}
use nyxfinance.Common.{
  Char, code, String, Bool, ◌&&◌, ◌||◌, Option, none, some, ◌==◌, leb, eqb, if◌then◌else◌, or_else,
  get_or, ◌<>◌, to_lower, upper, to_upper, trim, drop_start, drop_end, replace_others,
}
use nyxfinance.Json.{Fields}
use nyxfinance.Result.{Fault, Result, ok, err, error, ◌>>=◌}
use nyxfinance.Config.{AppConfig, Env}

-- `configured(value)`, with the value
unfoldable pub configured : Option String → Option String
configured none = none
configured (some value) =
    if value == "" || value == "REPLACE_ME" || starts_with value "TODO_" then none else some value

unfoldable pub demo_sep31_transaction_id : Env → String
demo_sep31_transaction_id env =
    get_or (or_else (env "DEMO_SEP31_TRANSACTION_ID") (env "NEXT_PUBLIC_DEMO_SEP31_TRANSACTION_ID"))
      "sep31-alpha-001"

pub record DemoAnchorProfile : Type 0 where
  pub id : String
  pub account : String
  pub signer_secret_key : Option String
  pub confidential_sk : Option String
  pub collateral_amount : Option String
  pub collateral_randomness : Option String
  pub organization_name : String
  pub email_address : String
  pub draw_transfer_data_xdr_base64 : String
  pub draw_auditor_payload : Option Fields
  pub repayment_transfer_data_xdr_base64 : String
  pub repayment_auditor_payload : Option Fields

unfoldable pub normalize_profile_id : Env → Option String → String
normalize_profile_id env profile =
    to_lower (trim (get_or (or_else profile (env "DEMO_ANCHOR_PROFILE")) "alpha"))

abbrev is_digit : Char → Bool
is_digit c = leb b'0' (code c) && leb (code c) b'9'

abbrev is_lower : Char → Bool
is_lower c = leb b'a' (code c) && leb (code c) b'z'

abbrev is_alphanumeric : Char → Bool
is_alphanumeric c = is_digit c || is_lower c || (leb b'A' (code c) && leb (code c) b'Z')

abbrev is_underscore : Char → Bool
is_underscore c = eqb (code c) b'_'

unfoldable pub profile_prefix : String → String
profile_prefix profile =
    to_upper (
      drop_end is_underscore
        (drop_start is_underscore (replace_others is_alphanumeric "_" profile)))

-- `process.env[`${profilePrefix(profile)}_${key}`]`
abbrev of_profile : Env → String → String → Option String
of_profile env profile key = env (profile_prefix profile <> "_" <> key)

abbrev only_alpha : {A : Type 0} → String → Option A → Option A
only_alpha profile fallback = if profile == "alpha" then fallback else none

unfoldable pub profile_env : Env → String → String → Option String → Option String
unfolding configured
profile_env env profile key alpha_fallback =
    or_else (configured (of_profile env profile key))
      (only_alpha profile (configured alpha_fallback))

-- The fallback's name is a variable of the environment.
abbrev named : Env → String → String → String → Option String
named env profile key alpha_fallback_name =
    or_else (of_profile env profile key) (only_alpha profile (env alpha_fallback_name))

abbrev parsed : (String → Result Fields) → Option String → Result (Option Fields)
parsed parse_json none = ok none
parsed parse_json (some value) =
    if value == ""
    then ok none
    else elim (parse_json value) [ ok fields ↦ ok (some fields) | err e ↦ err e ]

-- `parse_json` is `JSON.parse`, which throws on a text that is no JSON.
unfoldable pub optional_profile_json_env :
    Env → (String → Result Fields) → String → String → String → Result (Option Fields)
optional_profile_json_env env parse_json profile key alpha_fallback_name =
    parsed parse_json (named env profile key alpha_fallback_name)

abbrev required_value : Fault → Option String → Result String
required_value fault none = err fault
required_value fault (some value) = ok value

unfoldable pub required_profile_env : Env → String → String → String → Result String
unfolding configured
required_profile_env env profile key alpha_fallback_name =
    required_value
      (error (profile_prefix profile <> "_" <> key <> " is required for demo profile " <> profile))
      (configured (named env profile key alpha_fallback_name))

-- `${id.slice(0, 1).toUpperCase()}${id.slice(1)} Remit`
abbrev capitalised : String → String
capitalised String.[] = ""
capitalised (String.◌∷◌ c s) = String.◌∷◌ (upper c) s

abbrev is_host_letter : Char → Bool
is_host_letter c = is_digit c || is_lower c || eqb (code c) b'-'

unfoldable pub resolve_demo_profile :
    AppConfig
    → Env
    → (String → Result Fields)
    → Option String
    → Option String
    → Result DemoAnchorProfile
unfolding profile_env required_profile_env optional_profile_json_env normalize_profile_id
resolve_demo_profile config env parse_json given_profile given_account = do
  let id = normalize_profile_id env given_profile
  account ←
      required_value
        (error (profile_prefix id <> "_PUBLIC_KEY is required for demo profile " <> id))
        (configured (
          or_else given_account (
            profile_env env id "PUBLIC_KEY"
              (or_else config.demo_accounts.alpha (some config.demo_anchor_account)))))
  draw_data ←
      required_profile_env env id "DRAW_TRANSFER_DATA_XDR_BASE64" "DRAW_TRANSFER_DATA_XDR_BASE64"
  draw_payload ←
      optional_profile_json_env env parse_json id "DRAW_AUDITOR_PAYLOAD_JSON"
        "DRAW_AUDITOR_PAYLOAD_JSON"
  repayment_data ←
      required_profile_env env id "REPAYMENT_TRANSFER_DATA_XDR_BASE64"
        "REPAYMENT_TRANSFER_DATA_XDR_BASE64"
  repayment_payload ←
      optional_profile_json_env env parse_json id "REPAYMENT_AUDITOR_PAYLOAD_JSON"
        "REPAYMENT_AUDITOR_PAYLOAD_JSON"
  ok (record {
    id = id;
    account = account;
    signer_secret_key = profile_env env id "ANCHOR_SECRET_KEY" config.demo_anchor_secret_key;
    confidential_sk = profile_env env id "CONFIDENTIAL_SK" config.demo_anchor_confidential_sk;
    collateral_amount = profile_env env id "COLLATERAL_AMOUNT" config.demo_anchor_collateral_amount;
    collateral_randomness =
        profile_env env id "COLLATERAL_RANDOMNESS" config.demo_anchor_collateral_randomness;
    organization_name =
        get_or (profile_env env id "ORGANIZATION_NAME" (some "Alpha Remit"))
          (capitalised id <> " Remit");
    email_address =
        get_or (profile_env env id "EMAIL_ADDRESS" (some "ops@alpha-remit.example"))
          ("ops@" <> replace_others is_host_letter "-" id <> ".example");
    draw_transfer_data_xdr_base64 = draw_data;
    draw_auditor_payload = draw_payload;
    repayment_transfer_data_xdr_base64 = repayment_data;
    repayment_auditor_payload = repayment_payload;
  })
