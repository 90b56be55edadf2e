-- ===== src/DemoFlow/Drawing.antt =====
-- backend/src/services/demo-flow.ts, `drawDemoCredit`: the draw of the position that was opened.
use Prim.Native.String.{slice}
use nyxfinance.Common.{ℕ, String, Option, none, some, or_else}
use nyxfinance.Result.{Fault, error}
use nyxfinance.Db.{Quote}
use nyxfinance.Db.Anchor.{given}
use nyxfinance.Db.Quotes.{get_latest_quote}
use nyxfinance.World.{Action, pure, lift, gets, require, ◌>>=◌}
use nyxfinance.CreditLine.Transfer.{DrawCreditInput, TransferTxResult, execute_draw}
use nyxfinance.DemoFlow.State.{DemoState, ProofRef, get_stored_state, put_stored_state}
use nyxfinance.DemoFlow.Profile.{DemoAnchorProfile}
use nyxfinance.DemoFlow.Fixtures.{resolve_facility}
use nyxfinance.DemoFlow.Setting.{Setting, profile_of}

-- The input of the draw and of the repayment.
pub record StepInput : Type 0 where
  pub anchor_transaction_id : Option String
  pub position_id : Option String
  pub profile : Option String

abbrev pub account_of : Option Quote → Option String
account_of none = none
account_of (some quote) = some quote.account

-- What the two steps look up before their own checks.
pub record StepContext : Type 0 where
  pub profile : DemoAnchorProfile
  pub anchor_transaction_id : Option String
  pub position_id : String
  pub quote : Quote
  pub facility : String

abbrev pub no_position : Fault
no_position = error "No opened demo position found. Run /api/demo-flow/open first."

unfoldable pub step_context : Setting → Fault → DemoState → StepInput → Action StepContext
step_context s without_quote current input = do
  profile ←
      lift (profile_of s (or_else input.profile current.profile_id) (account_of current.quote))
  position_id ← require (given (or_else input.position_id current.position_id)) no_position
  latest ← gets get_latest_quote
  quote ← require (or_else current.quote latest) without_quote
  facility ← lift (resolve_facility s.config)
  pure (record {
    profile = profile;
    anchor_transaction_id = or_else input.anchor_transaction_id current.anchor_transaction_id;
    position_id = position_id;
    quote = quote;
    facility = facility;
  })

abbrev pub public_inputs_of : Option ProofRef → Option String
public_inputs_of none = none
public_inputs_of (some proof) = proof.public_inputs_hex

-- `publicInputsHex.slice(256, 320)` and `publicInputsHex.slice(320, 384)`, of hexadecimal digits
abbrev pub transfer_commitment_x : String → String
transfer_commitment_x public_inputs = slice public_inputs 256 320

abbrev pub transfer_commitment_y : String → String
transfer_commitment_y public_inputs = slice public_inputs 320 384

unfoldable pub draw_input : Setting → StepContext → String → String → DrawCreditInput
draw_input s context public_inputs executor_secret = record {
  anchor_transaction_id = given context.anchor_transaction_id;
  position_id = context.position_id;
  facility = context.facility;
  transfer_commitment_x = transfer_commitment_x public_inputs;
  transfer_commitment_y = transfer_commitment_y public_inputs;
  credit_executor_secret_key = executor_secret;
  confidential_transfer = record {
    token_contract_id = s.config.contracts.confidential_cusdc;
    from_account = context.facility;
    to_account = context.quote.account;
    data_xdr_base64 = context.profile.draw_transfer_data_xdr_base64;
    auditor_payload = context.profile.draw_auditor_payload;
    event_payload = none;
  };
}

unfoldable pub drawn_state : StepContext → String → TransferTxResult → DemoState → DemoState
drawn_state context public_inputs result current = record current {
  profile_id = some context.profile.id;
  anchor_transaction_id = or_else context.anchor_transaction_id current.anchor_transaction_id;
  position_id = some context.position_id;
  quote = some context.quote;
  drawn = some (record {
    tx_hash = result.tx.hash;
    ledger = some result.tx.ledger;
    confidential_transfer_tx_hash = some result.confidential_transfer.tx_hash;
    transfer_commitment = transfer_commitment_x public_inputs;
  });
}

pub record DrawDemoResult : Type 0 where
  pub state : DemoState
  pub draw : TransferTxResult

-- The draw with what was looked up, and the state that is stored.
unfoldable pub draw_and_store :
    Setting → String → ℕ → DemoState → StepContext → String → String → Action DrawDemoResult
draw_and_store s fresh now current context public_inputs executor_secret = do
  result ←
      execute_draw s.chain s.platform s.config fresh now
        (draw_input s context public_inputs executor_secret)
  state ← put_stored_state now (drawn_state context public_inputs result current)
  pure (record { state = state; draw = result })

-- `fresh` is the id of the evidence that `executeDraw` records.
unfoldable pub draw_demo_credit : Setting → String → ℕ → StepInput → Action DrawDemoResult
unfolding draw_and_store
draw_demo_credit s fresh now input = do
  current ← gets (get_stored_state now)
  context ← step_context s (error "No quote found for demo draw") current input
  public_inputs ←
      require (given (public_inputs_of current.proof))
        (error "No collateral-sufficiency proof found for this position")
  executor_secret ← require (given s.config.credit_executor_secret_key) (
      error
        "CREDIT_EXECUTOR_SECRET_KEY is required: execute_draw needs credit_executor's require_auth()")
  draw_and_store s fresh now current context public_inputs executor_secret
