-- ===== src/ProofJobs.antt =====
-- backend/src/services/proof-jobs.ts and prover-worker.ts: the queue of proof jobs and the worker
-- that runs the prover on the oldest one.
pub mod Laws
pub mod Worker
pub mod Drain
use nyxfinance.Common.{ℕ, Option, none, some, String, ◌==◌, ◌<>◌, if◌then◌else◌}
use nyxfinance.Json.{Json, null, str, obj, end, field}
use nyxfinance.Result.{Result, ok, err, ◌>>=◌, error, message}
use nyxfinance.Db.{Db, ProofJob, queued}
use nyxfinance.Db.Jobs.{
  insert_proof_job, get_proof_job, claim_next_proof_job, complete_proof_job, success, failure,
}

-- `newId("proof")` is `fresh`.
abbrev pub queued_job : String → ℕ → String → Json → ProofJob
queued_job fresh now type payload = record {
  id = fresh;
  type = type;
  status = queued;
  payload = payload;
  result = none;
  failure = none;
  attempts = 0;
  created_at = now;
  updated_at = now;
}

unfoldable pub create_proof_job : String → ℕ → String → Json → Db → Result (Db × ProofJob)
create_proof_job fresh now type payload db =
    let job = queued_job fresh now type payload in
    do stored ← insert_proof_job job db; ok (stored, job)

abbrev pub get_proof_job_by_id : Db → String → Option ProofJob
get_proof_job_by_id db id = get_proof_job id db

abbrev pub create_collateral_sufficiency_job : String → ℕ → Json → Db → Result (Db × ProofJob)
create_collateral_sufficiency_job fresh now payload db =
    create_proof_job fresh now "collateral_sufficiency" payload db

abbrev pub create_repayment_history_job : String → ℕ → Json → Db → Result (Db × ProofJob)
create_repayment_history_job fresh now payload db =
    create_proof_job fresh now "repayment_history" payload db

-- What a run of `nargo` and `bb` leaves on disk.
pub record Proof : Type 0 where
  pub proof_hex : String
  pub public_inputs_hex : String
  pub artifacts_dir : String

abbrev pub artifacts : Proof → Json
artifacts p = obj (
    field "proofHex" (str p.proof_hex) (
      field "publicInputsHex" (str p.public_inputs_hex)
        (field "artifactsDir" (str p.artifacts_dir) end)))

-- The external provers on a job: `runCollateralSufficiencyProof` and `runRepaymentHistoryProof`
-- write a witness file and start `nargo` and `bb`, either of which may fail.
pub record Prover : Type 0 where
  pub collateral_sufficiency : ProofJob → Result Proof
  pub repayment_history : ProofJob → Result Proof

unfoldable pub prove : Prover → ProofJob → Result Proof
prove prover job =
    if job.type == "collateral_sufficiency"
    then prover.collateral_sufficiency job
    else (if job.type == "repayment_history"
        then prover.repayment_history job
        else err (error ("No prover implemented for " <> job.type)))

-- `completeProofJob` on both paths of the try statement.
abbrev pub complete : String → ℕ → Result Proof → Db → Db
complete id now (ok p) db = complete_proof_job id success (some (artifacts p)) none now db
complete id now (err e) db = complete_proof_job id failure (some null) (some (message e)) now db

-- The job is claimed at `now` and completed at `later`.
abbrev pub process : Prover → ℕ → Db × Option ProofJob → Db × Option ProofJob
process prover later (db, none) = (db, none)
process prover later (db, some job) = (complete job.id later (prove prover job) db, some job)

unfoldable pub process_next_proof_job : Prover → ℕ → ℕ → Db → Db × Option ProofJob
process_next_proof_job prover now later db = process prover later (claim_next_proof_job now db)
