-- ===== src/CreditLine/Drawing.antt =====
-- `executeDraw` of backend/src/services/credit-line.ts: its call and what follows it.
use nyxfinance.Common.{
  ℕ, String, ◌≡◌, refl, ◌∙◌, inl, inr, false, not, Option, none, some, List, [], ◌∷◌, ◌++◌, ◌==◌,
  eq_refl, arith, taken, or_else,
}
use nyxfinance.Json.{str, Fields, get, put}
use nyxfinance.Status.{credit_drawn, pending_stellar, normalize_sep_status, parse_sep}
use nyxfinance.Result.{Fault, Result, ok, err, coded, OnOk, OnOk_out}
use nyxfinance.Db.{Db, TransferEvidence, AnchorTransaction}
use nyxfinance.Db.Anchor.{
  given, update_product_status, update_sep_status, get_anchor_transaction_by_id, set_product_status,
}
use nyxfinance.Db.Anchor.Laws.{get-update_product_status}
use nyxfinance.Config.{AppConfig}
use nyxfinance.World.{World, Chain, Call, Tx, Arg, then_run}
use nyxfinance.World.Laws.{Submits, called, call_cases, lift_cases, require_cases, throw_if_cases}
use nyxfinance.PolicySync.Laws.{operator_key_cases}
use nyxfinance.Sep31.{
  TransactionView, not_found, update_sep31_transaction_status, get_sep31_transaction,
  mark_sep31_payment_submitted,
}
use nyxfinance.Sep31.Laws.{update_missing, update_found, changed}
use nyxfinance.Hex.{bytes32_arg}
use nyxfinance.Hex.Laws.{bytes32_arg-IsBytes32}
use nyxfinance.Evidence.{Platform, standard_base64}
use nyxfinance.Evidence.Laws.{with_evidence, EvidenceFresh, IsEvidenceOf, record_evidence_total}
use nyxfinance.CreditLine.Laws.{
  StartsWithPosition, next_arg-StartsWithPosition, PositionCall, same_text,
}
use nyxfinance.CreditLine.Repayment.{keypair_key_cases, given-some}
use nyxfinance.CreditLine.Transfer.{
  DrawCreditInput, TransferTxResult, draw_args, draw_call, draw_evidence, drawn_update, mark_drawn,
  record_draw, execute_draw,
}

-- The trace of calls and the evidence are as they were.
abbrev KeepsEvidence : {B : Type 0} → World → World × Result B → Type 0
KeepsEvidence v q = (q.0.calls ≡ v.calls) × (q.0.db.evidence ≡ v.db.evidence)

update_sep31-KeepsEvidence :
    (config : AppConfig) (now : ℕ) (id status : String) (raw_update : Fields) (w : World)
    → KeepsEvidence w (update_sep31_transaction_status config now id status raw_update w)
unfolding update_sep31_transaction_status get_sep31_transaction update_sep_status
update_sep31-KeepsEvidence config now id status raw_update w =
    require_cases P (get_anchor_transaction_by_id id w.db) _ _ w (λ _. (refl, refl))
      λ existing _.
        require_cases P (get_anchor_transaction_by_id id _) _ _ _ (λ _. (refl, refl))
          λ row _. (refl, refl)
  where
    P : World × Result TransactionView → Type 0
    P = KeepsEvidence w

mark_drawn-KeepsEvidence :
    (config : AppConfig) (now : ℕ) (tx : Tx) (o : Option String) (w : World)
    → KeepsEvidence w (mark_drawn config now tx o w)
unfolding mark_drawn mark_sep31_payment_submitted update_product_status
mark_drawn-KeepsEvidence config now tx none w = (refl, refl)
mark_drawn-KeepsEvidence config now tx (some id) w =
    after (update_sep31_transaction_status config now id "pending_stellar" _ _)
      (update_sep31-KeepsEvidence config now id "pending_stellar" _ _)
  where
    after :
        (q : World × Result TransactionView)
        → KeepsEvidence w q
        → KeepsEvidence w (then_run q (λ _ v. (v, ok tt)))
    after (v, ok view) h = h
    after (v, err e) h = h

-- The product status and the SEP side of a transaction that the draw was recorded for.
abbrev pub IsDrawn : Tx → AnchorTransaction → Type 0
IsDrawn tx row =
    (row.product_status ≡ credit_drawn)
    × (row.sep_status ≡ pending_stellar)
    × (row.stellar_transaction_id ≡ some tx.hash)

-- A known transaction is marked: its product status is `credit_drawn`, its SEP status `pending_stellar`, and it names
-- the hash of the draw.
pub mark_drawn_known :
    (config : AppConfig) (now : ℕ) (tx : Tx) (id : String) (w : World) (row : AnchorTransaction)
    → get_anchor_transaction_by_id id w.db ≡ some row
    → (db : Db) × (after : AnchorTransaction) × (mark_drawn config now tx (some id) w
        ≡ (record w { db = db }, ok tt))
      × (get_anchor_transaction_by_id id db ≡ some after)
      × IsDrawn tx after
unfolding mark_drawn mark_sep31_payment_submitted normalize_sep_status parse_sep get put
mark_drawn_known config now tx id w row found =
    let moved : World = record w { db = update_product_status id credit_drawn now w.db } in
    let found' : get_anchor_transaction_by_id id moved.db
        ≡ some (set_product_status credit_drawn now row) =
      ground (arith, found, eq_refl id, get-update_product_status id id credit_drawn now w.db) in
    let raw_update : Fields = put "action" (str "payment_submitted") (drawn_update tx) in
    let after =
      changed now "pending_stellar" raw_update (set_product_status credit_drawn now row) in
    let (db, done, reads) =
      update_found config now id "pending_stellar" raw_update moved
        (set_product_status credit_drawn now row) found' in
    (db, after, rw done refl, reads id ∙ taken _ _ (eq_refl id), (refl, refl, refl))

-- Marking a transaction that is not known is an error with code 404.
mark_drawn_unknown :
    (config : AppConfig) (now : ℕ) (tx : Tx) (id : String) (w : World)
    → get_anchor_transaction_by_id id w.db ≡ none
    → (mark_drawn config now tx (some id) w).1 ≡ err (coded (not_found id) 404)
unfolding mark_drawn mark_sep31_payment_submitted
mark_drawn_unknown config now tx id w missing =
    let moved : World = record w { db = update_product_status id credit_drawn now w.db } in
    let missing' : get_anchor_transaction_by_id id moved.db ≡ none =
      ground (arith, missing, eq_refl id, get-update_product_status id id credit_drawn now w.db) in
    rw
      (update_missing config now id "pending_stellar"
        (put "action" (str "payment_submitted") (drawn_update tx)) moved missing')
      refl

module _ (chain : Chain) (platform : Platform) (config : AppConfig) (fresh : String) (now : ℕ)
    (input : DrawCreditInput) (w : World) where
  -- The call of a draw: the key that the input names as the executor's alone authorises it beside the
  -- operator, whose configured key signs the envelope.
  abbrev pub DrawCall : Call → Type 0
  DrawCall call =
      (executor : String) × (chain.public_key input.credit_executor_secret_key ≡ ok executor)
      × PositionCall chain config "execute_draw" executor call
      × (input.confidential_transfer.from_account ≡ input.facility)

  -- After the contract's call the transfer is recorded, and no other call is made. The draw succeeds if no
  -- transaction is given, and if one is that is known, which is then marked; one that is not known is an error.
  abbrev pub Drawn : Tx → World → World × Result TransferTxResult → Type 0
  Drawn tx v q =
      (executor token : String) × (row : TransferEvidence) × (chain.public_key
          input.credit_executor_secret_key
        ≡ ok executor)
      × IsEvidenceOf (draw_evidence input executor token tx) row
      × (q.0.calls ≡ v.calls)
      × (q.0.db.evidence ≡ v.db.evidence ++ row ∷ [])
      × ((id : String)
          → given input.anchor_transaction_id ≡ some id
          → get_anchor_transaction_by_id id v.db ≡ none
          → q.1 ≡ err (coded (not_found id) 404))
      × ((id : String) (known : AnchorTransaction)
          → given input.anchor_transaction_id ≡ some id
          → get_anchor_transaction_by_id id v.db ≡ some known
          → (result : TransferTxResult) × (marked : AnchorTransaction) × (q.1 ≡ ok result)
            × (get_anchor_transaction_by_id id q.0.db ≡ some marked)
            × IsDrawn tx marked)
      × (given input.anchor_transaction_id ≡ none → (result : TransferTxResult) × (q.1 ≡ ok result))

  draw_args-StartsWithPosition :
      (executor transfer_data operator : String)
      → OnOk StartsWithPosition (draw_args chain input executor transfer_data operator)
  unfolding draw_args
  draw_args-StartsWithPosition executor transfer_data operator =
      next_arg-StartsWithPosition (bytes32_arg input.position_id "positionId") _
        (bytes32_arg-IsBytes32 input.position_id "positionId")

  record_draw-Drawn :
      (executor token : String) (tx : Tx) (v : World)
      → chain.public_key input.credit_executor_secret_key ≡ ok executor
      → (platform.from_base64 (standard_base64 input.confidential_transfer.data_xdr_base64) == "")
        ≡ false
      → EvidenceFresh fresh v.db
      → Drawn tx v (record_draw platform config fresh now input executor token tx v)
  unfolding record_draw mark_drawn get_anchor_transaction_by_id
  record_draw-Drawn executor token tx v key full new =
      let (row, transfer, says, recorded) =
        record_evidence_total platform fresh now (draw_evidence input executor token tx) v full
          new in
      let more : World = record v { db = with_evidence row v.db } in
      let result : TransferTxResult = record { tx = tx; confidential_transfer = transfer } in
      let (calls, evidence) =
        after result more (mark_drawn config now tx (given input.anchor_transaction_id) more)
          (mark_drawn-KeepsEvidence config now tx (given input.anchor_transaction_id) more) in
      (
        executor,
        token,
        row,
        key,
        says,
        rw recorded calls,
        rw recorded evidence,
        λ id named missing.
            rw (recorded, named)
              (fails result (mark_drawn config now tx (some id) more) _
                (mark_drawn_unknown config now tx id more missing)),
        λ id known named found.
            let (db, marked, done, reads, drawn) =
              mark_drawn_known config now tx id more known found in
            (
              result,
              marked,
              rw (recorded, named, done) refl,
              rw (recorded, named, done) reads,
              drawn,
            ),
        λ unnamed. (result, rw (recorded, unnamed) refl),
      )
    where
      after :
          (result : TransferTxResult) (more : World) (q : World × Result (Unit {0}))
          → KeepsEvidence more q
          → KeepsEvidence more (then_run q (λ _ w. (w, ok result)))
      after result more (u, ok x) h = h
      after result more (u, err e) h = h

      fails :
          (result : TransferTxResult) (q : World × Result (Unit {0})) (fault : Fault)
          → q.1 ≡ err fault
          → (then_run q (λ _ w. (w, ok result))).1 ≡ err fault
      fails result (u, ok x) fault h = absurd cc
      fails result (u, err e) fault h = cc

  -- If the evidence's id is new, a draw makes no call; or one call that fails, and nothing else; or one call
  -- that succeeds, and then the transfer is recorded as evidence and no other call is made. The call is
  -- `execute_draw` of the configured contract, with a position of 32 bytes as first argument; the
  -- configured operator signs it, the public key of the executor's secret in the input is the only one
  -- to authorise it beside the operator, and the transfer is from the facility. After a successful call the
  -- draw succeeds if no transaction is given; a given one that is known is then `credit_drawn`, pending on
  -- Stellar with the hash of the draw, and the draw succeeds; one that is not known is answered with an error 404.
  pub execute_draw-Submits :
      EvidenceFresh fresh w.db
      → Submits chain w DrawCall Drawn (execute_draw chain platform config fresh now input w)
  unfolding execute_draw
  execute_draw-Submits new =
      operator_key_cases P chain config _ w (λ e _. inl (e, refl))
        λ operator is_operator.
          throw_if_cases P (not (input.confidential_transfer.from_account == input.facility)) _ _ w
            (λ _. inl (_, refl))
            λ same.
              require_cases P (given config.contracts.prefunding_credit_line) _ _ w
                (λ _. inl (_, refl))
                λ contract_id contract.
                  keypair_key_cases P chain (some input.credit_executor_secret_key)
                    "creditExecutorSecretKey" _ w (λ e. inl (e, refl))
                    λ secret executor named key.
                      require_cases P
                        (given (
                          or_else input.confidential_transfer.token_contract_id
                            config.contracts.confidential_cusdc))
                        _ _ w (λ _. inl (_, refl))
                        λ token _.
                          throw_if_cases P (transfer_data == "") _ _ w (λ _. inl (_, refl))
                            λ full.
                              lift_cases P (draw_args chain input executor transfer_data operator) _
                                w (λ e _. inl (e, refl))
                                λ args built.
                                  let call = draw_call operator executor contract_id args in
                                  let executes = executor_key secret executor named key in
                                  let made : DrawCall call = (
                                    executor,
                                    executes,
                                    (
                                      refl,
                                      refl,
                                      is_operator,
                                      contract,
                                      draw_position executor operator args built,
                                    ),
                                    same_text _ _ same,
                                  ) in
                                  call_cases P chain call _ w
                                    (λ e _. inr (call, made, inl (e, refl)))
                                    λ tx sent. inr (
                                      call,
                                      made,
                                      inr (
                                        tx,
                                        sent,
                                        record_draw-Drawn executor token tx (called w call) executes
                                            full new,
                                      ),
                                    )
    where
      transfer_data : String
      transfer_data =
          platform.from_base64 (standard_base64 input.confidential_transfer.data_xdr_base64)

      executor_key :
          (secret executor : String)
          → given (some input.credit_executor_secret_key) ≡ some secret
          → chain.public_key secret ≡ ok executor
          → chain.public_key input.credit_executor_secret_key ≡ ok executor
      executor_key secret executor named key =
          rw (given-some input.credit_executor_secret_key secret named) key

      draw_position :
          (executor operator : String) (args : List Arg)
          → draw_args chain input executor transfer_data operator ≡ ok args
          → StartsWithPosition args
      draw_position executor operator args built =
          OnOk_out StartsWithPosition (draw_args chain input executor transfer_data operator)
            (draw_args-StartsWithPosition executor transfer_data operator) built

      P : World × Result TransferTxResult → Type 0
      P = Submits chain w DrawCall Drawn
