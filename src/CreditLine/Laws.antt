-- ===== src/CreditLine/Laws.antt =====
-- `openCreditLine` of backend/src/services/credit-line.ts: its call and what follows it.
use nyxfinance.Common.{
  ℕ, String, ◌≡◌, refl, ap, inl, inr, false, not, Option, none, some, List, [], ◌∷◌, ◌==◌, eq_iff,
  arith, or_else,
}
use nyxfinance.Status.{ProductStatus, proof_verified}
use nyxfinance.Result.{Result, ok, err, OnOk, OnOk_out}
use nyxfinance.Db.{Db}
use nyxfinance.Db.Anchor.{given, update_product_status}
use nyxfinance.Config.{AppConfig}
use nyxfinance.World.{World, Chain, Call, Tx, Arg, then_run}
use nyxfinance.World.Laws.{Submits, called, call_cases, lift_cases, require_cases, throw_if_cases}
use nyxfinance.PolicySync.Laws.{IsOperator, operator_key_cases}
use nyxfinance.Hex.{bytes32_arg}
use nyxfinance.Hex.Laws.{IsBytes32, bytes32_arg-IsBytes32}
use nyxfinance.CreditLine.{OpenCreditInput, open_args, open_credit_line, set_product, next_arg}

-- The first argument of a call is a position of 32 bytes.
abbrev pub StartsWithPosition : List Arg → Type 0
StartsWithPosition args =
    (position : Arg) × (rest : List Arg) × IsBytes32 position × (args ≡ position ∷ rest)

pub next_arg-StartsWithPosition :
    (r : Result Arg) (rs : Result (List Arg))
    → OnOk IsBytes32 r
    → OnOk StartsWithPosition (next_arg r rs)
next_arg-StartsWithPosition (err e) rs h = tt
next_arg-StartsWithPosition (ok a) (err e) h = tt
next_arg-StartsWithPosition (ok a) (ok args) h = (a, args, h, refl)

-- A call of `method` of the configured credit line, which the configured operator signs and `signer` alone
-- authorises beside it.
abbrev pub PositionCall : Chain → AppConfig → String → String → Call → Type 0
PositionCall chain config method signer call =
    (call.method ≡ method)
    × (call.auth_signers ≡ signer ∷ [])
    × IsOperator chain config call.signer
    × (given config.contracts.prefunding_credit_line ≡ some call.contract_id)
    × StartsWithPosition call.args

abbrev pub product_set : Option String → ProductStatus → ℕ → Db → Db
product_set none product now db = db
product_set (some id) product now db = update_product_status id product now db

pub same_text : (s t : String) → not (s == t) ≡ false → s ≡ t
same_text s t h = (eq_iff s t).0 (ground (arith, h))

pub set_product-pure :
    {B : Type 0} (o : Option String) (product : ProductStatus) (now : ℕ) (b : B) (v : World)
    → then_run (set_product o product now v) (λ _ w. (w, ok b))
      ≡ (record v { db = product_set o product now v.db }, ok b)
set_product-pure none product now b v = refl
set_product-pure (some id) product now b v = refl

abbrev pub open_call : String → String → String → List Arg → Call
open_call operator anchor contract_id args = record {
  signer = operator;
  auth_signers = anchor ∷ [];
  contract_id = contract_id;
  method = "open_credit";
  args = args;
}

module _ (chain : Chain) (config : AppConfig) (big_int : String → Result ℕ) (now : ℕ)
    (input : OpenCreditInput) (w : World) where
  abbrev pub Opened : Tx → World → World × Result Tx → Type 0
  Opened tx v q = q ≡ (
    record v { db = product_set (given input.anchor_transaction_id) proof_verified now v.db },
    ok tx,
  )

  open_args-StartsWithPosition :
      (token operator : String)
      → OnOk StartsWithPosition (open_args chain big_int input token operator)
  unfolding open_args
  open_args-StartsWithPosition token operator =
      next_arg-StartsWithPosition (bytes32_arg input.position_id "positionId") _
        (bytes32_arg-IsBytes32 input.position_id "positionId")

  -- Opening a position makes no call; or one call that fails, and nothing else; or one call that
  -- succeeds, and then only the product status of the transaction changes. The call is `open_credit` of the
  -- configured contract, the configured operator signs it, the anchor of the input alone authorises it
  -- beside the operator, and its first argument is a position of 32 bytes.
  pub open_credit_line-Submits :
      Submits chain w
        (PositionCall chain config "open_credit" input.anchor)
        Opened
        (open_credit_line chain config big_int now input w)
  unfolding open_credit_line
  open_credit_line-Submits =
      operator_key_cases P chain config _ w (λ e _. inl (e, refl))
        λ operator is_operator.
          require_cases P (given (or_else input.collateral_token config.contracts.collateral_token))
            _ _ w (λ _. inl (_, refl))
            λ token _.
              throw_if_cases P (input.anchor_secret_key == "") _ _ w (λ _. inl (_, refl))
                λ _.
                  lift_cases P (chain.public_key input.anchor_secret_key) _ w (λ e _. inl (e, refl))
                    λ anchor _.
                      throw_if_cases P (not (anchor == input.anchor)) _ _ w (λ _. inl (_, refl))
                        λ same.
                          require_cases P (given config.contracts.prefunding_credit_line) _ _ w
                            (λ _. inl (_, refl))
                            λ contract_id contract.
                              lift_cases P (open_args chain big_int input token operator) _ w
                                (λ e _. inl (e, refl))
                                λ args built.
                                  let call = open_call operator anchor contract_id args in
                                  let made : PositionCall chain config "open_credit" input.anchor
                                      call =
                                    (
                                      refl,
                                      ap (λ a. a ∷ []) (same_text anchor input.anchor same),
                                      is_operator,
                                      contract,
                                      open_position token operator args built,
                                    ) in
                                  call_cases P chain call _ w
                                    (λ e _. inr (call, made, inl (e, refl)))
                                    λ tx sent. inr (
                                      call,
                                      made,
                                      inr (
                                        tx,
                                        sent,
                                        set_product-pure (given input.anchor_transaction_id)
                                            proof_verified now tx (called w call),
                                      ),
                                    )
    where
      open_position :
          (token operator : String) (args : List Arg)
          → open_args chain big_int input token operator ≡ ok args
          → StartsWithPosition args
      open_position token operator args built =
          OnOk_out StartsWithPosition (open_args chain big_int input token operator)
            (open_args-StartsWithPosition token operator) built

      P : World × Result Tx → Type 0
      P = Submits chain w (PositionCall chain config "open_credit" input.anchor) Opened
