-- ===== src/Lib.antt =====
-- Nyx prefunding: a backend that advances credit against confidential collateral while an anchor's
-- SEP-31 payment settles. The backend keeps a SQLite database, answers HTTP requests, calls
-- contracts on the Stellar network as an operator, runs provers on a queue of jobs, and copies
-- contract events. This library models the services of backend/src and shows what they guarantee.
--
-- The parts. `Db` is the database: backend/src/db/migrations.ts gives the tables, and every
-- operation of backend/src/db/sqlite.ts is a function of the same name in Db/Anchor, Db/Quotes,
-- Db/Jobs, Db/Events, Db/Evidence, Db/Disclosures and Db/Snapshots, by the meaning of its SQL
-- statement in `Sql`. A table is the list of its rows; a violated key is an error; JSON columns
-- hold values of `Json`; a time is the number of milliseconds behind its ISO text. `World` is the
-- state that the services act on, the database and the calls submitted so far, with actions that
-- may throw; a throw keeps what was done before it, since the services open no database
-- transaction. `Chain` is the network's part: the public key of a secret, the check of an address,
-- and the outcome of each call, which may depend on the calls before it.
--
-- The services, each in the module of its name: `Status` (backend/src/types/status.ts and the
-- normalisation of backend/src/services/anchor-platform.ts), `AnchorPlatform` (anchor-platform.ts),
-- `PolicySync` (participant-policy-sync.ts, and the operator's key and calls of operator-tx.ts),
-- `Sep31` (sep31.ts), `Sep12` (sep12.ts), `ProofJobs` (proof-jobs.ts and prover-worker.ts),
-- `Watcher` (watcher.ts), `Hex` (the helpers that credit-line.ts, disclosure.ts and
-- repayment-history.ts share), `Evidence` with `Transfers` and `Emitted`
-- (confidential-token-transfer.ts), `CreditLine` with CreditLine/Transfer (credit-line.ts),
-- `QuoteEngine` (quote-engine.ts), `Repayments` (repayment-history.ts), `Disclosure` with
-- Disclosure/Grant (disclosure.ts), `OracleAdmin` (oracle-admin.ts), all under
-- backend/src/services, and `Config` (backend/src/lib/env.ts). `OperatorTx` with `SimulationErrors`
-- (operator-tx.ts) is a contract call seen from the RPC server, request by request, and `DemoFlow`
-- (demo-flow.ts), with a module for each of its steps, runs the other services in turn and keeps
-- what it did as a snapshot in the database. `LiveState` (demo-state.ts and snapshot-cache.ts)
-- shows the whole system and falls back on the last view that it stored, over `StellarRpc`
-- (stellar-rpc.ts); `Auditor` (auditor-decrypt.ts and backend/src/routes/auditor.ts) answers
-- requests to decrypt a recorded transfer; `ProofRoutes` (backend/src/routes/proof.ts) checks the
-- requests that queue a proof, and `ProverRun` is what the worker of `ProofJobs` does to its host
-- (prover-worker.ts). A module's Laws and the modules beside it hold what is proved of it. The
-- services meet in the database and the trace of calls: `CreditLine` writes evidence and moves both
-- the product status and, through `Sep31`, the SEP-31 status of a transaction; `AnchorPlatform` and
-- `Sep12` reach the policy contract through `PolicySync`. To the services a contract call is one
-- step with an outcome, as `OperatorTx` ends in one, and `Emitted` is what `Evidence` takes as the
-- report of the network.
--
-- Identifiers that newId draws, and the times that nowIso reads, are arguments. Recursion is
-- structural. Common/Decimal prints a number with fuel, one more than the number; `digits-fuel`
-- there shows that more changes nothing. The worker's loop runs for a given number of rounds, and
-- the result on it says how many are enough. The two loops that the code bounds keep its bounds as
-- fuel: 30 polls of a submitted transaction, and 10 rounds of the worker while the demo flow waits
-- for a job.
--
-- Not modelled: the Stellar SDK and the RPC server, the provers and the fixture runner, JSON.parse
-- and BigInt, AES-256-GCM, SHA-256 and base64, which are parameters; the untyped replies of an
-- oracle and the stable JSON text of a disclosure, which are parameters as well; the reads of
-- contracts (contract-reader.ts); a cursor of the watcher that is no number; a command of the
-- prover that cannot be started, which ends the worker's process; the other HTTP routes, the
-- frontend, the scripts, the stub of the anchor's business server, and the contracts and circuits
-- of oz-confidential, which are in other languages.
pub mod Common
pub mod Json
pub mod Sql
pub mod Status
pub mod Result
pub mod Db
pub mod World
pub mod Config
pub mod PolicySync
pub mod AnchorPlatform
pub mod Sep31
pub mod Sep12
pub mod ProofJobs
pub mod Watcher
pub mod Hex
pub mod Evidence
pub mod CreditLine
pub mod QuoteEngine
pub mod Repayments
pub mod Disclosure
pub mod OracleAdmin
pub mod SimulationErrors
pub mod OperatorTx
pub mod Transfers
pub mod Emitted
pub mod DemoFlow
pub mod StellarRpc
pub mod LiveState
pub mod Auditor
pub mod ProverRun
pub mod ProofRoutes
pub mod Examples
