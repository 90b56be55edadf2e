-- ===== src/DemoFlow/Bootstrap.antt =====
-- backend/src/services/demo-flow.ts, `bootstrapDemoFlow` and `resetDemoFlow`: the transaction and the customer that
-- the flow starts from; and `getDemoFlowState`.
use nyxfinance.Common.{
  ℕ, String, Bool, true, false, Option, none, some, List, ◌==◌, if◌then◌else◌, get_or, is_some,
  ◌<>◌,
}
use nyxfinance.Json.{num, str, Fields, end, field, obj}
use nyxfinance.Db.{Db, AnchorTransaction, TransferEvidence}
use nyxfinance.Db.Anchor.{given, get_anchor_transaction_by_id, get_latest_anchor_transaction}
use nyxfinance.Db.Evidence.{list_evidence}
use nyxfinance.World.{Action, pure, lift, gets, ◌>>=◌, ◌>>◌}
use nyxfinance.PolicySync.{SyncResult, synced, not_synced}
use nyxfinance.Sep31.{TransactionView, create_sep31_transaction}
use nyxfinance.Sep12.{PutCustomer, PutCustomerResult, put_sep12_customer}
use nyxfinance.DemoFlow.State.{DemoState, blank_state, get_stored_state, put_stored_state}
use nyxfinance.DemoFlow.Profile.{
  DemoAnchorProfile, configured, demo_sep31_transaction_id, normalize_profile_id,
}
use nyxfinance.DemoFlow.Fixtures.{resolve_facility}
use nyxfinance.DemoFlow.Setting.{Setting, profile_of}

pub record BootstrapInput : Type 0 where
  pub profile : Option String
  pub anchor_transaction_id : Option String
  pub account : Option String
  pub kyb_status : Option String

abbrev pub default_transaction_id : Setting → DemoAnchorProfile → String
default_transaction_id s profile =
    if profile.id == "alpha"
    then demo_sep31_transaction_id s.env
    else "sep31-" <> profile.id <> "-001"

-- The input of `createSep31Transaction`.
unfoldable pub demo_transaction : String → String → String → Fields
demo_transaction id account facility = field "id" (str id) (
    field "account" (str account) (
      field "sender_id" (str account) (
        field "receiver_id" (str facility) (
          field "status" (str "pending_sender") (
            field "amount_in" (str "50000") (
              field "amount_out" (str "50000") (
                field "asset_code" (str "cUSDC") (
                  field "fields"
                    (obj (
                      field "corridor" (str "USD-PHP") (
                        field "settlement_window_days" (num "3")
                          (field "product" (str "private_prefunding") end))))
                    end))))))))

unfoldable pub demo_customer : DemoAnchorProfile → Option String → PutCustomer
demo_customer profile kyb_status = record {
  id = some (profile.id <> "-kyb-001");
  account = profile.account;
  memo = none;
  type = some "sep31-sender";
  status = some (get_or kyb_status "ACCEPTED");
  fields = some (
      field "organization_name" (str profile.organization_name)
        (field "email_address" (str profile.email_address) end));
  callback_url = none;
  reason = none;
}

abbrev was_synced : SyncResult → Bool
was_synced (synced tx) = true
was_synced (not_synced reason) = false

pub record BootstrapResult : Type 0 where
  pub transaction : TransactionView
  pub customer : PutCustomerResult
  pub state : DemoState
  pub profile_id : String
  pub participant_policy_synced : Bool

-- The ids that `newId` may draw.
pub record BootstrapFresh : Type 0 where
  pub sep31_id : String
  pub tx_id : String
  pub customer_id : String

unfoldable pub bootstrap_demo_flow :
    Setting → BootstrapFresh → ℕ → BootstrapInput → Action BootstrapResult
bootstrap_demo_flow s fresh now input = do
  profile ← lift (profile_of s input.profile input.account)
  let id = get_or input.anchor_transaction_id (default_transaction_id s profile)
  facility ← lift (resolve_facility s.config)
  transaction ←
      create_sep31_transaction s.config fresh.sep31_id fresh.tx_id now
        (demo_transaction id profile.account facility)
  customer ←
      put_sep12_customer s.chain s.config fresh.customer_id now
        (demo_customer profile input.kyb_status)
  current ← gets (get_stored_state now)
  state ←
      put_stored_state now
        (record current { profile_id = some profile.id; anchor_transaction_id = some id })
  pure (record {
    transaction = transaction;
    customer = customer;
    state = state;
    profile_id = profile.id;
    participant_policy_synced = was_synced customer.participant_policy;
  })

abbrev pub ignore : DemoState → Action (Unit {0})
ignore state = pure tt

-- `stamp` is the date of `freshDemoSep31TransactionId`.
unfoldable pub reset_demo_flow :
    Setting → BootstrapFresh → String → ℕ → BootstrapInput → Action BootstrapResult
unfolding bootstrap_demo_flow
reset_demo_flow s fresh stamp now input = do
  profile ← lift (profile_of s input.profile input.account)
  let id = get_or input.anchor_transaction_id ("sep31-" <> profile.id <> "-" <> stamp)
  cleared ←
      put_stored_state now
        (record (blank_state now) { profile_id = some profile.id; anchor_transaction_id = some id })
  ignore cleared
  bootstrap_demo_flow s fresh now (record {
    profile = some profile.id;
    anchor_transaction_id = some id;
    account = some profile.account;
    kyb_status = some (get_or input.kyb_status "ACCEPTED");
  })

abbrev transaction_for : Option String → Db → Option AnchorTransaction
transaction_for none db = get_latest_anchor_transaction db
transaction_for (some id) db = get_anchor_transaction_by_id id db

pub record FlowView : Type 0 where
  pub state : DemoState
  pub anchor_transaction : Option AnchorTransaction
  pub profile_id : String
  pub draw_transfer_data_xdr_configured : Bool
  pub repayment_transfer_data_xdr_configured : Bool
  pub credit_executor_configured : Bool
  pub demo_anchor_signer_configured : Bool
  pub transfers : List TransferEvidence

-- The view's transaction is the row whose columns the code copies.
unfoldable pub get_demo_flow_state : Setting → ℕ → Db → FlowView
get_demo_flow_state s now db =
    let state = get_stored_state now db in
    record {
      state = state;
      anchor_transaction = transaction_for (given state.anchor_transaction_id) db;
      profile_id = get_or state.profile_id (normalize_profile_id s.env none);
      draw_transfer_data_xdr_configured =
          is_some (configured (s.env "DRAW_TRANSFER_DATA_XDR_BASE64"));
      repayment_transfer_data_xdr_configured =
          is_some (configured (s.env "REPAYMENT_TRANSFER_DATA_XDR_BASE64"));
      credit_executor_configured = is_some (configured s.config.credit_executor_secret_key);
      demo_anchor_signer_configured = is_some (configured s.config.demo_anchor_secret_key);
      transfers =
          list_evidence
            (record {
              position_id = given state.position_id;
              anchor_transaction_id = given state.anchor_transaction_id;
              limit = some 10;
            })
            db;
    }
