-- ===== src/OperatorTx/Laws.antt =====
-- `submitContractCallWithSigners` of backend/src/services/operator-tx.ts: what a success stands for, and who
-- signs the authorisation entries.
use mathlib.Core.Path.{subst}
use nyxfinance.Common.{
  ℕ, zero, suc, String, ◌≡◌, refl, sym, ap, ◌∙◌, ◌⊎◌, inl, inr, true, false, some, List, [], ◌∷◌,
  ◌==◌, arith, Bool-cases, any,
}
use nyxfinance.Result.{Fault, Result, ok, err}
use nyxfinance.World.{Call, Tx}
use nyxfinance.OperatorTx.{
  AuthEntry, Rpc, send_transaction, get_transaction, get_account, simulate_transaction, pause, Log,
  Run, pure, ask, then_run, poll, outcome, accepted, TxStatus, send_and_wait, authorize, submit,
  simulated_or, draft_of, Sent,
}

-- The rule for a step: a failure is passed on, and a success is what follows starts from.
module _ {A B : Type 0} (P : Log × Result B → Type 0) where
  pub step_cases :
      (p : Log × Result A) (f : A → Run B)
      → ((v : Log) (e : Fault) → p ≡ (v, err e) → P (v, err e))
      → ((v : Log) (a : A) → p ≡ (v, ok a) → P (f a v))
      → P (then_run p f)
  step_cases (v, ok a) f no' yes' = yes' v a refl
  step_cases (v, err e) f no' yes' = no' v e refl

-- The newest request asks for a transaction, and `last` is the answer.
abbrev pub Answered : Rpc → String → TxStatus → Log → Type 0
Answered rpc hash last log =
    (before : Log) × (log ≡ get_transaction hash ∷ before) × (rpc.transaction log ≡ ok last)

asked-Answered :
    (rpc : Rpc) (hash : String) (before v : Log) (last : TxStatus)
    → ask (get_transaction hash) rpc.transaction before ≡ (v, ok last)
    → Answered rpc hash last v
asked-Answered rpc hash before v last e =
    let here = sym (ap (λ q. q.0) e) in (before, here, ap rpc.transaction here ∙ ap (λ q. q.1) e)

abbrev AnsweredLast : Rpc → String → Log × Result TxStatus → Type 0
AnsweredLast rpc hash (v, ok last) = Answered rpc hash last v
AnsweredLast rpc hash (v, err e) = Unit {0}

poll-Answered :
    (rpc : Rpc) (hash : String) (rounds : ℕ) (last : TxStatus) (log : Log)
    → Answered rpc hash last log
    → AnsweredLast rpc hash (poll rpc hash rounds last log)
unfolding poll
poll-Answered rpc hash zero last log h = h
poll-Answered rpc hash (suc rounds) last log h = elim (Bool-cases (last.status == "NOT_FOUND")) [
  | inr found ↦ rw found h
  | inl missing ↦ rw missing (
      step_cases (AnsweredLast rpc hash) (ask (get_transaction hash) rpc.transaction (pause ∷ log))
        (poll rpc hash rounds) (λ v e _. tt)
        λ v next e.
          poll-Answered rpc hash rounds next v (asked-Answered rpc hash (pause ∷ log) v next e))
]

-- A transaction was sent and not refused, the network answered with its hash, and the last request
-- found it successful in the ledger that is reported.
abbrev pub Confirmed : Rpc → Log × Result Tx → Type 0
Confirmed rpc (v, err e) = Unit {0}
Confirmed rpc (v, ok tx) =
    ((envelope : String) × (before : Log) × (sent : Sent) × (rpc.sent
          (send_transaction envelope ∷ before)
        ≡ ok sent)
      × ((sent.status == "ERROR") ≡ false)
      × (sent.hash ≡ tx.hash))
    × ((last : TxStatus) × Answered rpc tx.hash last v
        × ((last.status == "SUCCESS") ≡ true)
        × (last.ledger ≡ tx.ledger))

outcome-Confirmed :
    (rpc : Rpc) (method envelope : String) (before v : Log) (sent : Sent) (last : TxStatus)
    → rpc.sent (send_transaction envelope ∷ before) ≡ ok sent
    → (sent.status == "ERROR") ≡ false
    → Answered rpc sent.hash last v
    → Confirmed rpc (v, outcome method sent.hash last)
outcome-Confirmed rpc method envelope before v sent last answered fine found =
    elim (Bool-cases (last.status == "SUCCESS")) [
      | inl success ↦
          rw success ((envelope, before, sent, answered, fine, refl), (last, found, success, refl))
      | inr other ↦ rw other tt
    ]

accepted_fine :
    (method : String) (sent : Sent) {u : Unit {0}}
    → accepted method sent ≡ ok u
    → (sent.status == "ERROR") ≡ false
accepted_fine method sent h = elim (Bool-cases (sent.status == "ERROR")) [
  | inr fine ↦ fine
  | inl refused ↦ absurd (ground arith)
]

send_and_wait-Confirmed :
    (rpc : Rpc) (method envelope : String) (log : Log)
    → Confirmed rpc (send_and_wait rpc method envelope log)
unfolding send_and_wait
send_and_wait-Confirmed rpc method envelope log =
    let P = Confirmed rpc in
    step_cases P (ask (send_transaction envelope) rpc.sent log) _ (λ v e _. tt)
      λ v sent answered.
        step_cases P (pure (accepted method sent) v) _ (λ v e _. tt)
          λ u checked fine.
            step_cases P (ask (get_transaction sent.hash) rpc.transaction u) _ (λ v e _. tt)
              λ t first seen.
                step_cases P (poll rpc sent.hash 30 first t) _ (λ v e _. tt)
                  λ s last polled.
                    outcome-Confirmed rpc method envelope log s sent last (ap (λ q. q.1) answered)
                      (accepted_fine method sent (ap (λ q. q.1) fine))
                      (subst (AnsweredLast rpc sent.hash) polled (
                        poll-Answered rpc sent.hash 30 first t
                          (asked-Answered rpc sent.hash u t first seen)))

-- A submission that succeeds stands for a transaction of the network: it was sent and not refused, and the
-- last request found it successful, with the hash and in the ledger that are reported.
pub submit-Confirmed : (rpc : Rpc) (call : Call) (log : Log) → Confirmed rpc (submit rpc call log)
unfolding submit
submit-Confirmed rpc call log =
    let P = Confirmed rpc in
    step_cases P (ask (get_account call.signer) rpc.account log) _ (λ v e _. tt)
      λ v source _.
        step_cases P (pure (rpc.check_contract call.contract_id) v) _ (λ v e _. tt)
          λ u checked _.
            step_cases P (ask (simulate_transaction (draft_of rpc source call)) rpc.simulation u) _
              (λ v e _. tt)
              λ t simulation _.
                step_cases P (pure (simulated_or call.method simulation) t) _ (λ v e _. tt)
                  λ s answer _.
                    step_cases P (authorize rpc call.auth_signers (answer.0) s) _ (λ v e _. tt)
                      λ r auth _.
                        step_cases P (pure (rpc.assemble _ auth _) r) _ (λ v e _. tt)
                          λ q assembled _. send_and_wait-Confirmed rpc call.method _ q

-- An entry after the signing: as it was, or signed by the key that it requires, which is one of the signers'.
abbrev pub SignedWell : Rpc → List String → ℕ → AuthEntry → AuthEntry → Type 0
SignedWell rpc signers valid_until old new =
    ((new ≡ old)
      × ((key : String) → old.required_address ≡ some key → any (λ s. s == key) signers ≡ false))
    ⊎ ((key : String) × (old.required_address ≡ some key)
        × (any (λ s. s == key) signers ≡ true)
        × (rpc.authorize_entry old key valid_until rpc.passphrase ≡ ok new))

-- Two lists of the same length, related entry by entry.
abbrev pub Pairwise : (AuthEntry → AuthEntry → Type 0) → List AuthEntry → List AuthEntry → Type 0
Pairwise R [] [] = Unit
Pairwise R [] (y ∷ ys) = ⊥
Pairwise R (x ∷ xs) [] = ⊥
Pairwise R (x ∷ xs) (y ∷ ys) = R x y × Pairwise R xs ys
