-- ===== src/OperatorTx/Polling.antt =====
-- The rounds of `submitContractCallWithSigners` of backend/src/services/operator-tx.ts: how many requests
-- a submission makes, and when its polling ends.
use nyxfinance.Common.{
  ℕ, zero, suc, ◌+◌, ◌*◌, ◌≤◌, String, ◌≡◌, inl, inr, true, false, Option, none, some, List, [],
  ◌∷◌, ◌==◌, arith, Bool-cases, length,
}
use nyxfinance.Result.{Result, ok, err}
use nyxfinance.World.{Call}
use nyxfinance.OperatorTx.{
  AuthEntry, Rpc, Request, send_transaction, get_transaction, get_account, simulate_transaction,
  get_latest_ledger, pause, Log, Run, then_run, poll, outcome, accepted, TxStatus, send_and_wait,
  authorize, submit, simulated_or, draft_of,
}

abbrev pub sends : Log → ℕ
sends [] = 0
sends (send_transaction e ∷ log) = suc (sends log)
sends (get_account a ∷ log) = sends log
sends (simulate_transaction d ∷ log) = sends log
sends (get_latest_ledger ∷ log) = sends log
sends (get_transaction h ∷ log) = sends log
sends (pause ∷ log) = sends log

abbrev pub polls : Log → ℕ
polls [] = 0
polls (get_transaction h ∷ log) = suc (polls log)
polls (send_transaction e ∷ log) = polls log
polls (get_account a ∷ log) = polls log
polls (simulate_transaction d ∷ log) = polls log
polls (get_latest_ledger ∷ log) = polls log
polls (pause ∷ log) = polls log

-- At most `n` more requests, of them at most `s` sends and `p` polls.
pub record Spends {A : Type 0} (n s p : ℕ) (log : Log) (q : Log × Result A) : Type 0 where
  pub in_all : length q.0 ≤ length log + n
  pub sent : sends q.0 ≤ sends log + s
  pub polled_for : polls q.0 ≤ polls log + p

-- The costs of two steps add up.
Spends-then :
    {A B : Type 0} (n s p n' s' p' : ℕ) (log : Log) (q : Log × Result A) (f : A → Run B)
    → Spends n s p log q
    → ((a : A) → Spends n' s' p' q.0 (f a q.0))
    → Spends (n + n') (s + s') (p + p') log (then_run q f)
Spends-then n s p n' s' p' log (v, ok a) f first next = omega (arith, next a)
Spends-then n s p n' s' p' log (v, err e) f first next = omega arith

Spends-pure : {A : Type 0} (log : Log) (r : Result A) → Spends 0 0 0 log (log, r)
Spends-pure log r = omega arith

-- One request.
Spends-ask :
    {A : Type 0} (request : Request) (log : Log) (r : Result A)
    → Spends 1 (sends (request ∷ [])) (polls (request ∷ [])) log (request ∷ log, r)
Spends-ask (send_transaction e) log r = omega arith
Spends-ask (get_account a) log r = omega arith
Spends-ask (simulate_transaction d) log r = omega arith
Spends-ask get_latest_ledger log r = omega arith
Spends-ask (get_transaction h) log r = omega arith
Spends-ask pause log r = omega arith

Spends-poll :
    (rpc : Rpc) (hash : String) (rounds : ℕ) (last : TxStatus) (log : Log)
    → Spends (2 * rounds) 0 rounds log (poll rpc hash rounds last log)
unfolding poll
Spends-poll rpc hash zero last log = omega arith
Spends-poll rpc hash (suc rounds) last log = elim (Bool-cases (last.status == "NOT_FOUND")) [
  | inl missing ↦
      rw missing
        (again (rpc.transaction (get_transaction hash ∷ pause ∷ log)) (Spends-poll rpc hash rounds))
  | inr found ↦ rw found (omega arith)
]
  where
    again :
        (r : Result TxStatus)
        → ((next : TxStatus) (v : Log)
            → Spends (2 * rounds) 0 rounds v (poll rpc hash rounds next v))
        → Spends
            (2 * suc rounds)
            0
            (suc rounds)
            log
            (then_run (get_transaction hash ∷ pause ∷ log, r) (poll rpc hash rounds))
    again (err e) rest = omega arith
    again (ok next) rest = omega (arith, rest next (get_transaction hash ∷ pause ∷ log))

Spends-send_and_wait :
    (rpc : Rpc) (method envelope : String) (log : Log)
    → Spends 62 1 31 log (send_and_wait rpc method envelope log)
unfolding send_and_wait
Spends-send_and_wait rpc method envelope log =
    Spends-then 1 1 0 61 0 31 log _ _ (Spends-ask (send_transaction envelope) log (rpc.sent _))
      λ sent. Spends-then 0 0 0 61 0 31 _ _ _ (Spends-pure _ (accepted method sent)) λ checked.
        Spends-then 1 0 1 60 0 30 _ _ _
          (Spends-ask (get_transaction sent.hash) _ (rpc.transaction _))
          λ first.
            Spends-then 60 0 30 0 0 0 _ _ _ (Spends-poll rpc sent.hash 30 first _)
              λ last. Spends-pure _ (outcome method sent.hash last)

Spends-authorize :
    (rpc : Rpc) (signers : List String) (auth : Option (List AuthEntry)) (log : Log)
    → Spends 1 0 0 log (authorize rpc signers auth log)
Spends-authorize rpc [] auth log = omega arith
Spends-authorize rpc (key ∷ keys) none log = omega arith
Spends-authorize rpc (key ∷ keys) (some entries) log =
    Spends-then 1 0 0 0 0 0 log _ _ (Spends-ask get_latest_ledger log (rpc.latest_ledger _))
      λ sequence. Spends-pure _ _

-- A submission ends after at most 65 requests and pauses, whatever the server answers: it sends at most
-- one transaction, and asks for the state of a transaction at most 31 times.
pub submit-Spends : (rpc : Rpc) (call : Call) (log : Log) → Spends 65 1 31 log (submit rpc call log)
unfolding submit
submit-Spends rpc call log =
    Spends-then 1 0 0 64 1 31 log _ _ (Spends-ask (get_account call.signer) log (rpc.account _))
      λ source.
        Spends-then 0 0 0 64 1 31 _ _ _ (Spends-pure _ (rpc.check_contract call.contract_id))
          λ checked.
            Spends-then 1 0 0 63 1 31 _ _ _
              (Spends-ask (simulate_transaction (draft_of rpc source call)) _ (rpc.simulation _))
              λ simulation.
                Spends-then 0 0 0 63 1 31 _ _ _
                  (Spends-pure _ (simulated_or call.method simulation))
                  λ answer.
                    Spends-then 1 0 0 62 1 31 _ _ _
                      (Spends-authorize rpc call.auth_signers (answer.0) _)
                      λ auth.
                        Spends-then 0 0 0 62 1 31 _ _ _ (Spends-pure _ (rpc.assemble _ auth _))
                          λ assembled. Spends-send_and_wait rpc call.method _ _

-- The log after `k` further rounds of the loop.
abbrev pub polled : String → ℕ → Log → Log
polled hash zero log = log
polled hash (suc k) log = polled hash k (get_transaction hash ∷ pause ∷ log)

-- After the answer `first`, the network reports the transaction as not found `k` times and then as `last`.
abbrev pub Settles : Rpc → String → ℕ → TxStatus → TxStatus → Log → Type 0
Settles rpc hash zero first last log = (first ≡ last) × ((last.status == "NOT_FOUND") ≡ false)
Settles rpc hash (suc k) first last log =
    ((first.status == "NOT_FOUND") ≡ true)
    × ((next : TxStatus) × (rpc.transaction (get_transaction hash ∷ pause ∷ log) ≡ ok next)
        × Settles rpc hash k next last (get_transaction hash ∷ pause ∷ log))

-- If the network reports a transaction as not found at most as often as there are rounds, and then with
-- another status, the polling ends with that status, and right after the poll that reported it.
pub poll-Settles :
    (rpc : Rpc) (hash : String) (k rounds : ℕ) (first last : TxStatus) (log : Log)
    → k ≤ rounds
    → Settles rpc hash k first last log
    → poll rpc hash rounds first log ≡ (polled hash k log, ok last)
unfolding poll
poll-Settles rpc hash zero zero first last log le h = rw h.0
poll-Settles rpc hash zero (suc rounds) first last log le h = rw (h.0) (rw h.1)
poll-Settles rpc hash (suc k) zero first last log le h = absurd (omega arith)
poll-Settles rpc hash (suc k) (suc rounds) first last log le h =
    let (missing, (next, answered, rest)) = h in
    rw missing (rw answered (poll-Settles rpc hash k rounds next last _ (omega arith) rest))
