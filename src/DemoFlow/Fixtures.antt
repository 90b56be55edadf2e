-- ===== src/DemoFlow/Fixtures.antt =====
-- backend/src/services/demo-flow.ts: the fixtures that an external runner makes, and what the flow looks up before
-- a step.
use nyxfinance.Common.{
  ℕ, String, Bool, true, not, Option, none, some, List, [], ◌∷◌, ◌==◌, eqb, if◌then◌else◌, or_else,
  ◌<>◌,
}
use nyxfinance.Result.{Fault, Result, ok, err, error, ◌>>=◌, or_fail}
use nyxfinance.Db.{Db, Quote, AnchorTransaction}
use nyxfinance.Db.Anchor.{given, get_latest_anchor_transaction}
use nyxfinance.Db.Quotes.{get_quote_by_id, get_latest_quote}
use nyxfinance.Config.{AppConfig}
use nyxfinance.DemoFlow.Profile.{DemoAnchorProfile, configured, profile_prefix}

pub record CollateralHex : Type 0 where
  pub collateral_commitment_x : String
  pub collateral_commitment_y : String
  pub y_x : String
  pub y_y : String
  pub credit_commitment_x : String
  pub credit_commitment_y : String
  pub oracle_price_e7 : String
  pub haircut_bps : String
  pub tenor_days : String
  pub lock_key : String
  pub position_nullifier : String

-- `CollateralFixture`
pub record CollateralFixture : Type 0 where
  pub sk : String
  pub collateral_amount : String
  pub collateral_randomness : String
  pub credit_amount : String
  pub credit_randomness : String
  pub position_secret : String
  pub collateral_commitment_x : String
  pub collateral_commitment_y : String
  pub y_x : String
  pub y_y : String
  pub credit_commitment_x : String
  pub credit_commitment_y : String
  pub oracle_price_e7 : String
  pub haircut_bps : ℕ
  pub tenor_days : ℕ
  pub lock_key : String
  pub position_nullifier : String
  pub hex : CollateralHex

pub record FixtureLeaf : Type 0 where
  pub repayment_amount : String
  pub paid_ledger : ℕ
  pub due_ledger : ℕ
  pub leaf_secret : String
  pub leaf_nullifier : String
  pub repayment_commitment : String
  pub on_time : Bool

pub record HistoryHex : Type 0 where
  pub position_id : String
  pub history_root : String
  pub threshold : String
  pub proof_nullifier : String

-- `RepaymentHistoryFixture`
pub record HistoryFixture : Type 0 where
  pub position_id : String
  pub proof_secret : String
  pub threshold : ℕ
  pub history_root : String
  pub proof_nullifier : String
  pub public_inputs_hex : String
  pub leaves : List FixtureLeaf
  pub hex : HistoryHex

-- What `spawnSync` returns; the status of a process that was killed is `null`.
pub record Spawned : Type 0 where
  pub status : Option ℕ
  pub stdout : String
  pub stderr : String

-- The runner `cargo run -q -p oz-confidential-runner` on its arguments, and `JSON.parse` of what it prints.
pub record Runner : Type 0 where
  pub spawn : List String → Spawned
  pub parse_collateral : String → Result CollateralFixture
  pub parse_history : String → Result HistoryFixture

abbrev pub has_failed : Option ℕ → Bool
has_failed none = true
has_failed (some status) = not (eqb status 0)

-- `if (result.status !== 0) throw …`
abbrev printed : String → Spawned → Result String
printed what result =
    if has_failed result.status
    then err (
        error (
          what
          <> " generation failed: "
          <> (if result.stderr == "" then result.stdout else result.stderr)))
    else ok result.stdout

abbrev missing_opening : DemoAnchorProfile → Fault
missing_opening profile = error (
    profile_prefix profile.id
    <> "_CONFIDENTIAL_SK / _COLLATERAL_AMOUNT / _COLLATERAL_RANDOMNESS are required: the collateral-sufficiency proof must bind to the anchor's real on-chain spendable_balance opening")

-- `lock_key` and `position_secret` are the random values that it draws.
unfoldable pub create_collateral_fixture :
    Runner → String → String → String → DemoAnchorProfile → Result CollateralFixture
create_collateral_fixture runner lock_key position_secret oracle_price_e7 profile = do
  sk ← or_fail (given profile.confidential_sk) (missing_opening profile)
  amount ← or_fail (given profile.collateral_amount) (missing_opening profile)
  randomness ← or_fail (given profile.collateral_randomness) (missing_opening profile)
  text ← printed "collateral fixture" (
      runner.spawn (
        "collateral-fixture" ∷ lock_key ∷ position_secret ∷ oracle_price_e7 ∷ sk ∷ amount
        ∷ randomness ∷ []))
  runner.parse_collateral text

unfoldable pub create_repayment_history_fixture : Runner → String → String → Result HistoryFixture
create_repayment_history_fixture runner proof_secret position_id = do
  text ←
      printed "repayment history fixture"
        (runner.spawn ("repayment-history-fixture" ∷ position_id ∷ proof_secret ∷ []))
  runner.parse_history text

-- `publicInputsFromFixture`
unfoldable pub public_inputs_from_fixture : CollateralFixture → List String
public_inputs_from_fixture fixture =
    fixture.hex.collateral_commitment_x ∷ fixture.hex.collateral_commitment_y ∷ fixture.hex.y_x
    ∷ fixture.hex.y_y ∷ fixture.hex.credit_commitment_x ∷ fixture.hex.credit_commitment_y
    ∷ fixture.hex.oracle_price_e7 ∷ fixture.hex.haircut_bps ∷ fixture.hex.tenor_days
    ∷ fixture.hex.lock_key ∷ fixture.hex.position_nullifier ∷ []

-- `texts.join("")`
abbrev pub joined : List String → String
joined [] = ""
joined (t ∷ ts) = t <> joined ts

abbrev no_quote : Fault
no_quote = error "No prefunding quote found. Call /api/prefunding/quote first."

abbrev quote_for : Option String → Db → Option Quote
quote_for none db = get_latest_quote db
quote_for (some id) db = get_quote_by_id id db

unfoldable pub resolve_quote : Option String → Db → Result Quote
resolve_quote quote_id db = or_fail (quote_for (given quote_id) db) no_quote

abbrev id_of_latest : Option AnchorTransaction → Option String
id_of_latest none = none
id_of_latest (some row) = some row.anchor_transaction_id

unfoldable pub resolve_anchor_transaction_id : Option String → Quote → Db → Option String
resolve_anchor_transaction_id asked quote db =
    or_else (given asked) (
      or_else (given quote.anchor_transaction_id) (id_of_latest (get_latest_anchor_transaction db)))

unfoldable pub resolve_facility : AppConfig → Result String
unfolding configured
resolve_facility config =
    or_fail (configured (or_else config.demo_accounts.facility (some config.distribution_account)))
      (error "FACILITY_PUBLIC_KEY or DISTRIBUTION_ACCOUNT is required")
