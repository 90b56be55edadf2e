-- ===== src/OperatorTx.antt =====
-- backend/src/services/operator-tx.ts: one submission of a contract call over the Soroban RPC, step by
-- step, and the queue of submissions. A keypair is given by its public key.
pub mod Laws
pub mod Polling
use Prim.Native.String
use nyxfinance.Common.{
  ℕ, zero, suc, ◌+◌, String, Option, none, some, List, [], ◌∷◌, ◌==◌, if◌then◌else◌, ◌<>◌,
}
use nyxfinance.SimulationErrors.{summarize_simulation_error}
use nyxfinance.Result.{Result, ok, err, error}
use nyxfinance.World.{Arg, Call, Tx}

-- The transaction that the builder makes; its fee is the SDK's `BASE_FEE`.
pub record Draft : Type 0 where
  pub source : String
  pub contract_id : String
  pub method : String
  pub args : List Arg
  pub network_passphrase : String
  pub timeout : ℕ

-- A Soroban authorisation entry: the address that must sign it, if its credentials are of the kind
-- `sorobanCredentialsAddress`, and its XDR.
pub record AuthEntry : Type 0 where
  pub required_address : Option String
  pub xdr : String

-- The answer to `simulateTransaction`; `result.auth` is absent where the simulation has no result.
pub data Simulation : Type 0 where
  simulation_error : String → Simulation
  simulated : (auth : Option (List AuthEntry)) (resources : String) → Simulation

pub record Sent : Type 0 where
  pub status : String
  pub hash : String
  pub error_result : String

pub record TxStatus : Type 0 where
  pub status : String
  pub ledger : ℕ

-- What the backend asks of the RPC server, and the second that it waits between two polls.
pub data Request : Type 0 where
  get_account : String → Request
  simulate_transaction : Draft → Request
  get_latest_ledger : Request
  send_transaction : String → Request
  get_transaction : String → Request
  pause : Request

-- The requests so far, the newest first.
abbrev pub Log : Type 0
Log = List Request

-- The RPC server and the Stellar SDK. An answer depends on the requests so far, since the chain
-- moves on; a request that is not answered throws. `check_contract` is `new Contract(id)`, which throws on a text that
-- is no contract's address, and `assemble` is `assembleTransaction(…).build()`, which may throw too.
pub record Rpc : Type 0 where
  pub passphrase : String
  pub account : Log → Result String
  pub simulation : Log → Result Simulation
  pub latest_ledger : Log → Result ℕ
  pub sent : Log → Result Sent
  pub transaction : Log → Result TxStatus
  pub authorize_entry : AuthEntry → String → ℕ → String → Result AuthEntry
  pub check_contract : String → Result (Unit {0})
  pub assemble : Draft → Option (List AuthEntry) → String → Result String
  pub sign : String → String → String

abbrev pub Run : Type 0 → Type 0
Run A = Log → Log × Result A

abbrev pub pure : {A : Type 0} → Result A → Run A
pure r log = (log, r)

abbrev pub ask : {A : Type 0} → Request → (Log → Result A) → Run A
ask request answer log = (request ∷ log, answer (request ∷ log))

abbrev pub then_run : {A B : Type 0} → Log × Result A → (A → Run B) → Log × Result B
then_run (log, ok a) f = f a log
then_run (log, err e) f = (log, err e)

infixl 5 ◌>>=◌
abbrev pub ◌>>=◌ : {A B : Type 0} → Run A → (A → Run B) → Run B
◌>>=◌ m f log = then_run (m log) f

-- `authSigners.find((kp) => kp.publicKey() === requiredAddress)`
unfoldable pub matching_signer : List String → String → Option String
matching_signer [] address = none
matching_signer (key ∷ keys) address =
    if key == address then some key else matching_signer keys address

abbrev signed_by : Rpc → AuthEntry → ℕ → Option String → Result AuthEntry
signed_by rpc entry valid_until none = ok entry
signed_by rpc entry valid_until (some key) =
    rpc.authorize_entry entry key valid_until rpc.passphrase

abbrev sign_required : Rpc → List String → ℕ → AuthEntry → Option String → Result AuthEntry
sign_required rpc signers valid_until entry none = ok entry
sign_required rpc signers valid_until entry (some address) =
    signed_by rpc entry valid_until (matching_signer signers address)

unfoldable pub sign_entry : Rpc → List String → ℕ → AuthEntry → Result AuthEntry
unfolding matching_signer
sign_entry rpc signers valid_until entry =
    sign_required rpc signers valid_until entry entry.required_address

-- `Promise.all(auth.map(…))`
abbrev next_entry : Result AuthEntry → Result (List AuthEntry) → Result (List AuthEntry)
next_entry (err e) rest = err e
next_entry (ok entry) (err e) = err e
next_entry (ok entry) (ok rest) = ok (entry ∷ rest)

unfoldable pub sign_entries : Rpc → List String → ℕ → List AuthEntry → Result (List AuthEntry)
unfolding sign_entry
sign_entries rpc signers valid_until [] = ok []
sign_entries rpc signers valid_until (entry ∷ entries) =
    next_entry (sign_entry rpc signers valid_until entry)
      (sign_entries rpc signers valid_until entries)

abbrev some_entries : Result (List AuthEntry) → Result (Option (List AuthEntry))
some_entries (ok entries) = ok (some entries)
some_entries (err e) = err e

-- `if (authSigners.length > 0 && simulation.result) { … }`
abbrev pub authorize : Rpc → List String → Option (List AuthEntry) → Run (Option (List AuthEntry))
authorize rpc [] auth = pure (ok auth)
authorize rpc (key ∷ keys) none = pure (ok none)
authorize rpc (key ∷ keys) (some entries) = do
  sequence ← ask get_latest_ledger rpc.latest_ledger
  pure (some_entries (sign_entries rpc (key ∷ keys) (sequence + 200) entries))

-- `for (let i = 0; i < 30 && txResult.status === "NOT_FOUND"; i += 1) { … }` with the rounds left
unfoldable pub poll : Rpc → String → ℕ → TxStatus → Run TxStatus
poll rpc hash zero last log = (log, ok last)
poll rpc hash (suc rounds) last log =
    let again =
      then_run (ask (get_transaction hash) rpc.transaction (pause ∷ log)) (poll rpc hash rounds) in
    if last.status == "NOT_FOUND" then again else (log, ok last)

abbrev pub outcome : String → String → TxStatus → Result Tx
outcome method hash last =
    if last.status == "SUCCESS"
    then ok (record { hash = hash; ledger = last.ledger })
    else err (error (method <> " transaction status " <> last.status))

-- `simulation`, or the error that sums its failure up
abbrev pub simulated_or : String → Simulation → Result (Option (List AuthEntry) × String)
simulated_or method (simulation_error failure) =
    err (error (summarize_simulation_error method failure))
simulated_or method (simulated auth resources) = ok (auth, resources)

abbrev pub accepted : String → Sent → Result (Unit {0})
accepted method sent =
    if sent.status == "ERROR"
    then err (error (method <> " send failed: " <> sent.error_result))
    else ok tt

-- From `sendTransaction` on.
unfoldable pub send_and_wait : Rpc → String → String → Run Tx
unfolding poll
send_and_wait rpc method envelope = do
  sent ← ask (send_transaction envelope) rpc.sent
  checked ← pure (accepted method sent)
  first ← ask (get_transaction sent.hash) rpc.transaction
  last ← poll rpc sent.hash 30 first
  pure (outcome method sent.hash last)

abbrev pub draft_of : Rpc → String → Call → Draft
draft_of rpc source call = record {
  source = source;
  contract_id = call.contract_id;
  method = call.method;
  args = call.args;
  network_passphrase = rpc.passphrase;
  timeout = 180;
}

-- The task of `submitContractCallWithSigners`.
unfoldable pub submit : Rpc → Call → Run Tx
unfolding send_and_wait
submit rpc call = do
  source ← ask (get_account call.signer) rpc.account
  checked ← pure (rpc.check_contract call.contract_id)
  let draft = draft_of rpc source call
  simulation ← ask (simulate_transaction draft) rpc.simulation
  answer ← pure (simulated_or call.method simulation)
  auth ← authorize rpc call.auth_signers (answer.0)
  assembled ← pure (rpc.assemble draft auth (answer.1))
  send_and_wait rpc call.method (rpc.sign assembled call.signer)

-- `enqueueOperatorTx`: a task starts when the one before it is settled, whether that succeeded or failed.
unfoldable pub run_queue : Rpc → List Call → Log → Log × List (Result Tx)
unfolding submit
run_queue rpc [] log = (log, [])
run_queue rpc (call ∷ calls) log =
    let (done, result) = submit rpc call log in
    let (last, results) = run_queue rpc calls done in (last, result ∷ results)
