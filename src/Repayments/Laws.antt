-- ===== src/Repayments/Laws.antt =====
-- `seedRepaymentLeaf` of backend/src/services/repayment-history.ts: its call and the leaf.
use mathlib.Core.List.{Memᴰ}
use nyxfinance.Common.{
  ℕ, ◌≤◌, String, ◌≡◌, refl, ◌↔◌, ◌⊎◌, inl, inr, Bool, true, false, some, List, [], ◌∷◌, ◌++◌, ◌==◌,
  eq_iff, arith, any, any_sound, any_complete, Bool-cases,
}
use nyxfinance.Result.{Fault, Result, ok, err, OnOk, OnOk->>=, OnOk_out}
use nyxfinance.Sql.{insert_or_ignore}
use nyxfinance.Db.{Db, RepaymentLeaf}
use nyxfinance.Db.Anchor.{given}
use nyxfinance.Db.Disclosures.{insert_repayment_leaf, leaf_clash}
use nyxfinance.Config.{AppConfig}
use nyxfinance.World.{World, Chain, Call, Tx, Arg, Action, then_run}
use nyxfinance.World.Laws.{Submits, called, lift_cases, require_cases}
use nyxfinance.PolicySync.Laws.{IsOperator, operator_cases, operator_call_key_cases, operator_call}
use nyxfinance.Hex.{normalize_hex, bytes32_arg}
use nyxfinance.CreditLine.{next_arg, to_address}
use nyxfinance.Repayments.{
  LeafInput, leaf_args, leaf_row, operator_last, submit_repayment_call, seed_repayment_leaf,
}

-- A call of `method` of the configured history contract, which the configured operator signs alone.
abbrev pub HistoryCall : Chain → AppConfig → String → Call → Type 0
HistoryCall chain config method call =
    (call.method ≡ method)
    × (call.auth_signers ≡ [])
    × IsOperator chain config call.signer
    × (given config.contracts.repayment_history ≡ some call.contract_id)

-- The rules for the operator's address as last argument, and for a call of the history contract.
module _ {B : Type 0} (P : World × Result B → Type 0) (chain : Chain) (config : AppConfig) where
  operator_last_cases :
      (before : Result (List Arg)) (f : List Arg → Action B) (w : World)
      → ((e : Fault) → P (w, err e))
      → ((args : List Arg) (last_arg : Arg) → before ≡ ok args → P (f (args ++ last_arg ∷ []) w))
      → P (then_run (operator_last chain config before w) f)
  unfolding operator_last
  operator_last_cases before f w no' yes' =
      lift_cases Q before _ w (λ e _. no' e)
        λ args built. operator_cases Q chain config _ w no' λ operator.
          lift_cases Q (to_address (chain.check_address operator)) _ w (λ e _. no' e)
            λ last_arg _. yes' args last_arg built
    where
      Q : World × Result (List Arg) → Type 0
      Q q = P (then_run q f)

  repayment_call_cases :
      (method : String) (args : List Arg) (f : Tx → Action B) (w : World)
      → ((e : Fault) → P (w, err e))
      → ((signer contract_id : String) (e : Fault)
          → HistoryCall chain config method (operator_call signer contract_id method args)
          → P (called w (operator_call signer contract_id method args), err e))
      → ((signer contract_id : String) (tx : Tx)
          → HistoryCall chain config method (operator_call signer contract_id method args)
          → chain.submit w.calls (operator_call signer contract_id method args) ≡ ok tx
          → P (f tx (called w (operator_call signer contract_id method args))))
      → P (then_run (submit_repayment_call chain config method args w) f)
  unfolding submit_repayment_call
  repayment_call_cases method args f w no' failed' done' =
      require_cases (λ q. P (then_run q f)) (given config.contracts.repayment_history) _ _ w
        (λ _. no' _)
        λ contract_id contract.
          operator_call_key_cases P chain config contract_id method args f w (λ e _. no' e)
            (λ signer e key. failed' signer contract_id e (refl, refl, key, contract))
            (λ signer tx key sent. done' signer contract_id tx (refl, refl, key, contract) sent)

abbrev Normalizes : String → String → Type 0
Normalizes value field = (h : String) × (normalize_hex value field ≡ ok h)

bytes32_arg-Normalizes :
    (value field : String) → OnOk (λ _. Normalizes value field) (bytes32_arg value field)
unfolding bytes32_arg
bytes32_arg-Normalizes value field =
    OnOk->>= (λ _. Normalizes value field) (normalize_hex value field) _ λ h e. everywhere _ (h, e)
  where
    everywhere : (r : Result Arg) → Normalizes value field → OnOk (λ _. Normalizes value field) r
    everywhere (ok a) h = h
    everywhere (err x) h = tt

next_arg_inv :
    (r : Result Arg) (rs : Result (List Arg)) (args : List Arg)
    → next_arg r rs ≡ ok args
    → ((a : Arg) × (r ≡ ok a)) × ((rest : List Arg) × (rs ≡ ok rest))
next_arg_inv (ok a) (ok rest) args h = ((a, refl), (rest, refl))
next_arg_inv (ok a) (err e) args h = absurd cc
next_arg_inv (err e) rs args h = absurd cc

normalizes :
    (value field : String) (a : Arg) → bytes32_arg value field ≡ ok a → Normalizes value field
normalizes value field a e =
    OnOk_out (λ _. Normalizes value field) (bytes32_arg value field)
      (bytes32_arg-Normalizes value field) e

leaf_args-Normalizes :
    (input : LeafInput) (args : List Arg)
    → leaf_args input ≡ ok args
    → Normalizes input.position_id "positionId"
      × Normalizes input.leaf_nullifier "leafNullifier"
      × Normalizes input.repayment_commitment "repaymentCommitment"
unfolding leaf_args
leaf_args-Normalizes input args h =
    let ((a, first), (rest, h1)) =
      next_arg_inv (bytes32_arg input.position_id "positionId") _ args h in
    let ((b, second), (rest', h2)) =
      next_arg_inv (bytes32_arg input.leaf_nullifier "leafNullifier") _ rest h1 in
    let ((c, third), _) =
      next_arg_inv (bytes32_arg input.repayment_commitment "repaymentCommitment") _ rest' h2 in
    (normalizes _ _ a first, normalizes _ _ b second, normalizes _ _ c third)

-- A row of the table has the leaf's id or its nullifier.
abbrev pub IsInUse : RepaymentLeaf → Db → Type 0
IsInUse leaf db =
    (row : RepaymentLeaf) × Memᴰ row db.repayment_leaves
    × ((row.id ≡ leaf.id) ⊎ (row.leaf_nullifier ≡ leaf.leaf_nullifier))

-- The leaf is added to the table, or is in use there, and then nothing is.
abbrev pub Stores : RepaymentLeaf → Db → Db → Type 0
Stores leaf db db' =
    (IsInUse leaf db × (db' ≡ db))
    ⊎ (¬ IsInUse leaf db
        × (db' ≡ record db { repayment_leaves = db.repayment_leaves ++ leaf ∷ [] }))

insert_repayment_leaf-Stores :
    (leaf : RepaymentLeaf) (db : Db) → Stores leaf db (insert_repayment_leaf leaf db)
unfolding insert_repayment_leaf insert_or_ignore
insert_repayment_leaf-Stores leaf db =
    elim (Bool-cases (any (leaf_clash leaf) db.repayment_leaves)) [
      | inl clash ↦
          let (row, m, same) = any_sound (leaf_clash leaf) db.repayment_leaves clash in
          inl ((row, m, either row same), rw clash refl)
      | inr free ↦ inr (
        λ (row, m, same). absurd (
            differs free
              (any_complete (leaf_clash leaf) db.repayment_leaves row m (clashes row same))),
        rw free refl,
      )
    ]
  where
    either :
        (row : RepaymentLeaf)
        → leaf_clash leaf row ≡ true
        → (row.id ≡ leaf.id) ⊎ (row.leaf_nullifier ≡ leaf.leaf_nullifier)
    either row h = elim (Bool-cases (row.id == leaf.id)) [
      | inl e ↦ inl ((eq_iff row.id leaf.id).0 e)
      | inr other ↦
          inr ((eq_iff row.leaf_nullifier leaf.leaf_nullifier).0 (ground (arith, h, other)))
    ]

    clashes :
        (row : RepaymentLeaf)
        → (row.id ≡ leaf.id) ⊎ (row.leaf_nullifier ≡ leaf.leaf_nullifier)
        → leaf_clash leaf row ≡ true
    clashes row (inl e) = ground (arith, (eq_iff row.id leaf.id).1 e)
    clashes row (inr e) = ground (arith, (eq_iff row.leaf_nullifier leaf.leaf_nullifier).1 e)

    differs : {b : Bool} → b ≡ false → b ≡ true → ⊥
    differs h k = ground (arith, h, k)

module _ (chain : Chain) (config : AppConfig) (fresh : String) (now : ℕ) (input : LeafInput)
    (w : World) where
  -- The row of a leaf: the normal form of each given text at its place, the given ledgers, and on time
  -- exactly if it was paid by the due ledger.
  abbrev pub IsLeaf : Tx → RepaymentLeaf → Type 0
  IsLeaf tx leaf =
      (leaf.id ≡ fresh)
      × (normalize_hex input.position_id "positionId" ≡ ok leaf.position_id)
      × (normalize_hex input.leaf_nullifier "leafNullifier" ≡ ok leaf.leaf_nullifier)
      × (normalize_hex input.repayment_commitment "repaymentCommitment"
          ≡ ok leaf.repayment_commitment)
      × (leaf.paid_ledger ≡ input.paid_ledger)
      × (leaf.due_ledger ≡ input.due_ledger)
      × ((leaf.on_time ≡ true) ↔ (input.paid_ledger ≤ input.due_ledger))
      × (leaf.tx_hash ≡ some tx.hash)
      × (leaf.created_at ≡ now)

  abbrev pub Seeded : Tx → World → World × Result Tx → Type 0
  Seeded tx v q =
      (leaf : RepaymentLeaf) × (db : Db) × IsLeaf tx leaf
      × Stores leaf v.db db
      × (q ≡ (record v { db = db }, ok tx))

  -- Seeding a leaf makes no call; or one call that fails, and nothing else; or one call that succeeds,
  -- and then the seeding succeeds, and the leaf is added to the table unless a row there has its id or its
  -- nullifier, in which case the database is as before. The leaf has the normal form of the given position, nullifier and
  -- commitment, the given ledgers, and is on time exactly if it was paid by the due ledger. The call is
  -- `seed_leaf` of the configured contract, and the configured operator signs it alone.
  pub seed_repayment_leaf-Submits :
      Submits chain w
        (HistoryCall chain config "seed_leaf")
        Seeded
        (seed_repayment_leaf chain config fresh now input w)
  unfolding seed_repayment_leaf
  seed_repayment_leaf-Submits =
      operator_last_cases P chain config (leaf_args input) _ w (λ e. inl (e, refl))
        λ args last_arg built.
          repayment_call_cases P chain config "seed_leaf" (args ++ last_arg ∷ []) _ w
            (λ e. inl (e, refl))
            (λ signer contract_id e made. inr (
              operator_call signer contract_id "seed_leaf" (args ++ last_arg ∷ []),
              made,
              inl (e, refl),
            ))
            λ signer contract_id tx made sent.
              let call = operator_call signer contract_id "seed_leaf" (args ++ last_arg ∷ []) in
              let ((position, e1), (nullifier, e2), (commitment, e3)) =
                leaf_args-Normalizes input args built in
              inr (
                call,
                made,
                inr (
                  tx,
                  sent,
                  (
                    leaf_row fresh now input position nullifier commitment tx,
                    _,
                    (
                      refl,
                      e1,
                      e2,
                      e3,
                      refl,
                      refl,
                      ((λ e. ground (arith, e)), λ le. ground (arith, le)),
                      refl,
                      refl,
                    ),
                    insert_repayment_leaf-Stores
                        (leaf_row fresh now input position nullifier commitment tx) w.db,
                    rw (e1, e2, e3) refl,
                  ),
                ),
              )
    where
      P : World × Result Tx → Type 0
      P = Submits chain w (HistoryCall chain config "seed_leaf") Seeded
