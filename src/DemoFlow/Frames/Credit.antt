-- ===== src/DemoFlow/Frames/Credit.antt =====
-- The steps on a position of the credit line leave the snapshots of the database as they were.
use nyxfinance.Common.{ℕ, String, refl, not, Option, none, some, ◌==◌, or_else}
use nyxfinance.Json.{put, str}
use nyxfinance.Status.{credit_drawn, proof_verified, repaid}
use nyxfinance.World.Laws.{require_cases, throw_if_cases, lift_cases, call_cases, called}
use nyxfinance.PolicySync.Laws.{operator_cases}
use nyxfinance.CreditLine.Repayment.{keypair_cases}
use nyxfinance.CreditLine.Laws.{open_call}
use nyxfinance.Result.{Result, ok}
use nyxfinance.Db.Anchor.{given}
use nyxfinance.Config.{AppConfig}
use nyxfinance.World.{World, Action, Chain, Tx, then_run}
use nyxfinance.Sep31.{mark_sep31_payment_submitted}
use nyxfinance.Evidence.{
  Platform, EvidenceInput, TransferResult, record_confidential_transfer_evidence, standard_base64,
}
use nyxfinance.CreditLine.{OpenCreditInput, open_credit_line, open_args, set_product}
use nyxfinance.CreditLine.Transfer.{
  DrawCreditInput, RepayCreditInput, TransferTxResult, mark_drawn, record_draw, execute_draw,
  draw_args, draw_call, draw_evidence, drawn_update, repay_call, repay_evidence, record_repayment,
  repay_credit_line, repay_args,
}
use nyxfinance.DemoFlow.Frames.{
  Keeps, here, keeps-then, keeps_here, keeps-set_product, keeps-record_evidence, keeps-update_sep31,
  keeps-view,
}

keeps-mark_drawn :
    (config : AppConfig) (now : ℕ) (tx : Tx) (o : Option String) (w : World)
    → Keeps w (mark_drawn config now tx o w)
unfolding mark_drawn mark_sep31_payment_submitted
keeps-mark_drawn config now tx none w = record { same = refl }
keeps-mark_drawn config now tx (some id) w =
    keeps-then _ _ (keeps-set_product (some id) credit_drawn now w) λ x v. keeps-view _ (
      keeps-update_sep31 config now id "pending_stellar"
        (put "action" (str "payment_submitted") (drawn_update tx)) v)

pub keeps-open_credit_line :
    (chain : Chain) (config : AppConfig) (big_int : String → Result ℕ) (now : ℕ)
    (input : OpenCreditInput) (w : World)
    → Keeps w (open_credit_line chain config big_int now input w)
unfolding open_credit_line
keeps-open_credit_line chain config big_int now input w =
    operator_cases P chain config _ w (λ e. here)
      λ operator.
        require_cases P (given (or_else input.collateral_token config.contracts.collateral_token)) _
          _ w (λ _. here)
          λ token _.
            throw_if_cases P (input.anchor_secret_key == "") _ _ w (λ _. here)
              λ _.
                lift_cases P (chain.public_key input.anchor_secret_key) _ w (λ e _. here)
                  λ anchor _.
                    throw_if_cases P (not (anchor == input.anchor)) _ _ w (λ _. here)
                      λ _.
                        require_cases P (given config.contracts.prefunding_credit_line) _ _ w
                          (λ _. here)
                          λ contract_id _.
                            lift_cases P (open_args chain big_int input token operator) _ w
                              (λ e _. here)
                              λ args _.
                                call_cases P chain (open_call operator anchor contract_id args) _ w
                                  (λ e _. record { same = refl })
                                  λ tx _.
                                    let v = called w (open_call operator anchor contract_id args) in
                                    let h : Keeps w (
                                        set_product (given input.anchor_transaction_id)
                                          proof_verified now v) =
                                      record {
                                        same =
                                            (keeps-set_product (given input.anchor_transaction_id)
                                              proof_verified now v).same;
                                      } in
                                    keeps-then
                                      (set_product (given input.anchor_transaction_id)
                                        proof_verified now v)
                                      _ h λ _ u. keeps_here u (ok tx)
  where
    P : World × Result Tx → Type 0
    P = Keeps w

keeps-recorded :
    {A : Type 0} (platform : Platform) (fresh : String) (now : ℕ) (input : EvidenceInput)
    (f : TransferResult → Action A) (w : World)
    → ((transfer : TransferResult) (v : World) → Keeps v (f transfer v))
    → Keeps w (then_run (record_confidential_transfer_evidence platform fresh now input w) f)
keeps-recorded platform fresh now input f w next =
    keeps-then (record_confidential_transfer_evidence platform fresh now input w) f
      (keeps-record_evidence platform fresh now input w) next

keeps-record_draw :
    (platform : Platform) (config : AppConfig) (fresh : String) (now : ℕ) (input : DrawCreditInput)
    (executor token : String) (tx : Tx) (w : World)
    → Keeps w (record_draw platform config fresh now input executor token tx w)
unfolding record_draw
keeps-record_draw platform config fresh now input executor token tx w =
    keeps-recorded platform fresh now (draw_evidence input executor token tx) _ w λ transfer v.
      keeps-then (mark_drawn config now tx (given input.anchor_transaction_id) v) _
        (keeps-mark_drawn config now tx (given input.anchor_transaction_id) v)
        λ _ u. keeps_here u (ok (record { tx = tx; confidential_transfer = transfer }))

keeps-record_repayment :
    (platform : Platform) (fresh : String) (now : ℕ) (input : RepayCreditInput)
    (anchor token : String) (tx : Tx) (w : World)
    → Keeps w (record_repayment platform fresh now input anchor token tx w)
unfolding record_repayment
keeps-record_repayment platform fresh now input anchor token tx w =
    keeps-recorded platform fresh now (repay_evidence input anchor token tx) _ w λ transfer v.
      keeps-then (set_product (given input.anchor_transaction_id) repaid now v) _
        (keeps-set_product (given input.anchor_transaction_id) repaid now v)
        λ _ u. keeps_here u (ok (record { tx = tx; confidential_transfer = transfer }))

pub keeps-execute_draw :
    (chain : Chain) (platform : Platform) (config : AppConfig) (fresh : String) (now : ℕ)
    (input : DrawCreditInput) (w : World)
    → Keeps w (execute_draw chain platform config fresh now input w)
unfolding execute_draw
keeps-execute_draw chain platform config fresh now input w =
    operator_cases P chain config _ w (λ e. here)
      λ operator.
        throw_if_cases P (not (input.confidential_transfer.from_account == input.facility)) _ _ w
          (λ _. here)
          λ _.
            require_cases P (given config.contracts.prefunding_credit_line) _ _ w (λ _. here)
              λ contract_id _.
                keypair_cases P chain (some input.credit_executor_secret_key)
                  "creditExecutorSecretKey" _ w (λ e. here)
                  λ executor.
                    require_cases P
                      (given (
                        or_else input.confidential_transfer.token_contract_id
                          config.contracts.confidential_cusdc))
                      _ _ w (λ _. here)
                      λ token _.
                        throw_if_cases P (transfer_data == "") _ _ w (λ _. here)
                          λ _.
                            lift_cases P (draw_args chain input executor transfer_data operator) _ w
                              (λ e _. here)
                              λ args _.
                                call_cases P chain (draw_call operator executor contract_id args) _
                                  w (λ e _. record { same = refl })
                                  λ tx _. record {
                                    same =
                                        (keeps-record_draw platform config fresh now input executor
                                          token tx
                                          (called w
                                            (draw_call operator executor contract_id args))).same;
                                  }
  where
    transfer_data : String
    transfer_data =
        platform.from_base64 (standard_base64 input.confidential_transfer.data_xdr_base64)

    P : World × Result TransferTxResult → Type 0
    P = Keeps w

pub keeps-repay_credit_line :
    (chain : Chain) (platform : Platform) (config : AppConfig) (fresh : String) (now : ℕ)
    (input : RepayCreditInput) (w : World)
    → Keeps w (repay_credit_line chain platform config fresh now input w)
unfolding repay_credit_line
keeps-repay_credit_line chain platform config fresh now input w =
    operator_cases P chain config _ w (λ e. here)
      λ operator.
        require_cases P (given config.contracts.prefunding_credit_line) _ _ w (λ _. here)
          λ contract_id _.
            keypair_cases P chain (some input.anchor_secret_key) "anchorSecretKey" _ w (λ e. here)
              λ anchor.
                require_cases P
                  (given (
                    or_else input.confidential_transfer.token_contract_id
                      config.contracts.confidential_cusdc))
                  _ _ w (λ _. here)
                  λ token _.
                    throw_if_cases P (not (input.confidential_transfer.from_account == anchor)) _ _
                      w (λ _. here)
                      λ _.
                        throw_if_cases P (transfer_data == "") _ _ w (λ _. here)
                          λ _.
                            lift_cases P (repay_args chain input transfer_data operator) _ w
                              (λ e _. here)
                              λ args _.
                                call_cases P chain (repay_call operator anchor contract_id args) _ w
                                  (λ e _. record { same = refl })
                                  λ tx _. record {
                                    same =
                                        (keeps-record_repayment platform fresh now input anchor
                                          token tx
                                          (called w
                                            (repay_call operator anchor contract_id args))).same;
                                  }
  where
    transfer_data : String
    transfer_data =
        platform.from_base64 (standard_base64 input.confidential_transfer.data_xdr_base64)

    P : World × Result TransferTxResult → Type 0
    P = Keeps w
