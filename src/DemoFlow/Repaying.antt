-- ===== src/DemoFlow/Repaying.antt =====
-- backend/src/services/demo-flow.ts, `repayDemoCredit`: the repayment of the position, and the completion of its
-- transaction.
use nyxfinance.Common.{ℕ, String, Bool, true, false, Option, none, some, ◌==◌, or_else, ◌<>◌}
use nyxfinance.Json.{str, Fields, end, field}
use nyxfinance.Result.{error}
use nyxfinance.Db.Anchor.{given}
use nyxfinance.World.{Tx, Action, pure, gets, require, ◌>>=◌, ◌>>◌}
use nyxfinance.Sep31.{TransactionView, mark_sep31_completed}
use nyxfinance.CreditLine.Transfer.{RepayCreditInput, TransferTxResult, repay_credit_line}
use nyxfinance.Transfers.{merge_confidential_balance}
use nyxfinance.DemoFlow.State.{DemoState, get_stored_state, put_stored_state}
use nyxfinance.DemoFlow.Setting.{Setting}
use nyxfinance.DemoFlow.Drawing.{StepInput, StepContext, step_context}

-- `REPAYMENT_COMMITMENT`
abbrev pub demo_repayment_commitment : String
demo_repayment_commitment = "5555555555555555555555555555555555555555555555555555555555555555"

abbrev pub is_zero : Option String → Bool
is_zero none = false
is_zero (some value) = value == "0"

abbrev pub done : Tx → Action (Unit {0})
done tx = pure tt

-- `if (tokenContractId && process.env.REPAYMENT_MERGE_BEFORE_TRANSFER !== "0") { … }`
abbrev pub merge_wanted : Setting → Bool → String → String → Action (Unit {0})
merge_wanted s true token secret = pure tt
merge_wanted s false token secret = do tx ← merge_confidential_balance s.chain token secret; done tx

abbrev pub merge_token : Setting → String → Option String → Action (Unit {0})
merge_token s secret none = pure tt
merge_token s secret (some token) =
    merge_wanted s (is_zero (s.env "REPAYMENT_MERGE_BEFORE_TRANSFER")) token secret

unfoldable pub merge_before : Setting → String → Action (Unit {0})
merge_before s secret = merge_token s secret (given s.config.contracts.confidential_cusdc)

unfoldable pub repay_input : Setting → StepContext → String → RepayCreditInput
repay_input s context secret = record {
  anchor_transaction_id = given context.anchor_transaction_id;
  position_id = context.position_id;
  facility = context.facility;
  anchor_secret_key = secret;
  repayment_commitment = demo_repayment_commitment;
  confidential_transfer = record {
    token_contract_id = s.config.contracts.confidential_cusdc;
    from_account = context.quote.account;
    to_account = context.facility;
    data_xdr_base64 = context.profile.repayment_transfer_data_xdr_base64;
    auditor_payload = context.profile.repayment_auditor_payload;
    event_payload = none;
  };
}

abbrev pub settlement : String → Fields
settlement id =
    field "settlementReference" (str ("settlement-" <> id))
      (field "note" (str "Demo settlement completed after private prefunding repayment") end)

abbrev pub ignore : TransactionView → Action (Unit {0})
ignore view = pure tt

-- `if (anchorTransactionId) markSep31Completed(…)`
abbrev pub complete_sep31 : Setting → ℕ → Option String → Action (Unit {0})
complete_sep31 s now none = pure tt
complete_sep31 s now (some id) = do
  view ← mark_sep31_completed s.config now id (settlement id)
  ignore view

unfoldable pub repaid_state : StepContext → TransferTxResult → DemoState → DemoState
repaid_state context result current = record current {
  profile_id = some context.profile.id;
  anchor_transaction_id = or_else context.anchor_transaction_id current.anchor_transaction_id;
  position_id = some context.position_id;
  quote = some context.quote;
  repaid = some (record {
    tx_hash = result.tx.hash;
    ledger = some result.tx.ledger;
    repayment_commitment = demo_repayment_commitment;
    confidential_transfer_tx_hash = some result.confidential_transfer.tx_hash;
  });
}

pub record RepayDemoResult : Type 0 where
  pub state : DemoState
  pub repay : TransferTxResult

-- What follows the merge.
unfoldable pub repay_and_store :
    Setting → String → ℕ → DemoState → StepContext → String → Action RepayDemoResult
repay_and_store s fresh now current context secret = do
  result ← repay_credit_line s.chain s.platform s.config fresh now (repay_input s context secret)
  complete_sep31 s now (given context.anchor_transaction_id)
  state ← put_stored_state now (repaid_state context result current)
  pure (record { state = state; repay = result })

unfoldable pub repay_demo_credit : Setting → String → ℕ → StepInput → Action RepayDemoResult
unfolding merge_before repay_and_store
repay_demo_credit s fresh now input = do
  current ← gets (get_stored_state now)
  context ← step_context s (error "No quote found for demo repayment") current input
  secret ←
      require context.profile.signer_secret_key
        (error "anchor signerSecretKey is required: repay needs the anchor's own require_auth()")
  merge_before s secret
  repay_and_store s fresh now current context secret
