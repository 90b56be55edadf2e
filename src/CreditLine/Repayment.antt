-- ===== src/CreditLine/Repayment.antt =====
-- `repayCreditLine` of backend/src/services/credit-line.ts: its call and what follows it.
use nyxfinance.Common.{
  ℕ, String, ◌≡◌, refl, sym, ap, inl, inr, false, not, Option, none, some, [], ◌∷◌, ◌==◌, or_else,
  ◌<>◌, arith,
}
use nyxfinance.Status.{repaid}
use nyxfinance.Result.{Fault, Result, ok, err, error, OnOk, OnOk_out}
use nyxfinance.Db.{TransferEvidence}
use nyxfinance.Db.Anchor.{given}
use nyxfinance.Config.{AppConfig}
use nyxfinance.World.{World, Chain, Tx, Action, then_run, require}
use nyxfinance.World.Laws.{Submits, called, call_cases, lift_cases, require_cases, throw_if_cases}
use nyxfinance.PolicySync.Laws.{operator_key_cases}
use nyxfinance.Hex.{bytes32_arg}
use nyxfinance.Hex.Laws.{bytes32_arg-IsBytes32}
use nyxfinance.Evidence.{Platform, standard_base64}
use nyxfinance.Evidence.Laws.{with_evidence, EvidenceFresh, IsEvidenceOf, record_evidence_total}
use nyxfinance.CreditLine.{keypair_from_secret}
use nyxfinance.CreditLine.Laws.{
  StartsWithPosition, next_arg-StartsWithPosition, PositionCall, product_set, same_text,
  set_product-pure,
}
use nyxfinance.CreditLine.Transfer.{
  RepayCreditInput, TransferTxResult, repay_args, repay_call, repay_evidence, record_repayment,
  repay_credit_line,
}

module _ {B : Type 0} (P : World × Result B → Type 0) where
  pub keypair_key_cases :
      (chain : Chain) (secret : Option String) (name : String) (f : String → Action B) (w : World)
      → ((e : Fault) → P (w, err e))
      → ((s key : String) → given secret ≡ some s → chain.public_key s ≡ ok key → P (f key w))
      → P (then_run (keypair_from_secret chain secret name w) f)
  unfolding keypair_from_secret
  keypair_key_cases chain secret name f w no' yes' = go (given secret) refl
    where
      deeper :
          (s : String) (r : Result String)
          → given secret ≡ some s
          → chain.public_key s ≡ r
          → P (then_run (w, r) f)
      deeper s (ok key) named e = yes' s key named e
      deeper s (err x) named e = no' x

      go :
          (o : Option String)
          → given secret ≡ o
          → P (
              then_run
                (then_run
                  (require o (error (name <> " is not configured")) w)
                  (λ s v. (v, chain.public_key s)))
                f)
      go none named = no' _
      go (some s) named = deeper s (chain.public_key s) named refl

  pub keypair_cases :
      (chain : Chain) (secret : Option String) (name : String) (f : String → Action B) (w : World)
      → ((e : Fault) → P (w, err e))
      → ((key : String) → P (f key w))
      → P (then_run (keypair_from_secret chain secret name w) f)
  keypair_cases chain secret name f w no' yes' =
      keypair_key_cases chain secret name f w no' (λ _ key _ _. yes' key)

-- A text that counts as given is the text itself.
pub given-some : (s t : String) → given (some s) ≡ some t → s ≡ t
given-some s t h = ground (arith, h)

module _ (chain : Chain) (platform : Platform) (config : AppConfig) (fresh : String) (now : ℕ)
    (input : RepayCreditInput) (w : World) where
  -- After the contract's call: the transfer is recorded, and the transaction, if one is given, is repaid.
  abbrev pub Repaid : Tx → World → World × Result TransferTxResult → Type 0
  Repaid tx v q =
      (anchor token : String) × (row : TransferEvidence) × (result : TransferTxResult) × (anchor
        ≡ input.confidential_transfer.from_account)
      × IsEvidenceOf (repay_evidence input anchor token tx) row
      × (q ≡ (
        record v {
          db = product_set (given input.anchor_transaction_id) repaid now (with_evidence row v.db);
        },
        ok result,
      ))

  repay_args-StartsWithPosition :
      (transfer_data operator : String)
      → OnOk StartsWithPosition (repay_args chain input transfer_data operator)
  unfolding repay_args
  repay_args-StartsWithPosition transfer_data operator =
      next_arg-StartsWithPosition (bytes32_arg input.position_id "positionId") _
        (bytes32_arg-IsBytes32 input.position_id "positionId")

  record_repayment-Repaid :
      (anchor token : String) (tx : Tx) (v : World)
      → anchor ≡ input.confidential_transfer.from_account
      → (platform.from_base64 (standard_base64 input.confidential_transfer.data_xdr_base64) == "")
        ≡ false
      → EvidenceFresh fresh v.db
      → Repaid tx v (record_repayment platform fresh now input anchor token tx v)
  unfolding record_repayment
  record_repayment-Repaid anchor token tx v holder full new =
      let (row, transfer, says, recorded) =
        record_evidence_total platform fresh now (repay_evidence input anchor token tx) v full
          new in
      let result : TransferTxResult = record { tx = tx; confidential_transfer = transfer } in
      (
        anchor,
        token,
        row,
        result,
        holder,
        says,
        rw recorded (
            set_product-pure (given input.anchor_transaction_id) repaid now result
              (record v { db = with_evidence row v.db })),
      )

  -- If the evidence's id is new, a repayment makes no call; or one call that fails, and nothing else; or
  -- one call that succeeds, and then the transfer is recorded as evidence, the product status of the transaction is
  -- `repaid` if one is given, and the repayment succeeds. The call is `repay` of the configured contract, the
  -- configured operator signs it, the account that the transfer is from alone authorises it beside
  -- the operator, and its first argument is a position of 32 bytes.
  pub repay_credit_line-Submits :
      EvidenceFresh fresh w.db
      → Submits chain w
          (PositionCall chain config "repay" input.confidential_transfer.from_account)
          Repaid
          (repay_credit_line chain platform config fresh now input w)
  unfolding repay_credit_line
  repay_credit_line-Submits new =
      operator_key_cases P chain config _ w (λ e _. inl (e, refl))
        λ operator is_operator.
          require_cases P (given config.contracts.prefunding_credit_line) _ _ w (λ _. inl (_, refl))
            λ contract_id contract.
              keypair_cases P chain (some input.anchor_secret_key) "anchorSecretKey" _ w
                (λ e. inl (e, refl))
                λ anchor.
                  require_cases P
                    (given (
                      or_else input.confidential_transfer.token_contract_id
                        config.contracts.confidential_cusdc))
                    _ _ w (λ _. inl (_, refl))
                    λ token _.
                      throw_if_cases P (not (input.confidential_transfer.from_account == anchor)) _
                        _ w (λ _. inl (_, refl))
                        λ same.
                          throw_if_cases P (transfer_data == "") _ _ w (λ _. inl (_, refl))
                            λ full.
                              lift_cases P (repay_args chain input transfer_data operator) _ w
                                (λ e _. inl (e, refl))
                                λ args built.
                                  let call = repay_call operator anchor contract_id args in
                                  let holder = sym (
                                    same_text input.confidential_transfer.from_account anchor
                                      same) in
                                  let made : PositionCall chain config "repay"
                                      input.confidential_transfer.from_account call =
                                    (
                                      refl,
                                      ap (λ a. a ∷ []) holder,
                                      is_operator,
                                      contract,
                                      OnOk_out StartsWithPosition
                                          (repay_args chain input transfer_data operator)
                                          (repay_args-StartsWithPosition transfer_data operator)
                                          built,
                                    ) in
                                  call_cases P chain call _ w
                                    (λ e _. inr (call, made, inl (e, refl)))
                                    λ tx sent. inr (
                                      call,
                                      made,
                                      inr (
                                        tx,
                                        sent,
                                        record_repayment-Repaid anchor token tx (called w call)
                                            holder full new,
                                      ),
                                    )
    where
      transfer_data : String
      transfer_data =
          platform.from_base64 (standard_base64 input.confidential_transfer.data_xdr_base64)

      P : World × Result TransferTxResult → Type 0
      P =
          Submits chain w
            (PositionCall chain config "repay" input.confidential_transfer.from_account) Repaid
