-- ===== src/DemoFlow/Jobs.antt =====
-- backend/src/services/demo-flow.ts, `runTargetProofJob`: the worker runs until a given job is settled, for ten rounds
-- at most.
pub mod Laws
use nyxfinance.Common.{ℕ, zero, suc, String, not, Option, none, some, get_or, ◌<>◌}
use nyxfinance.Result.{Result, ok, err, error}
use nyxfinance.Db.{Db, ProofJob, ProofJobStatus, queued, running, succeeded, failed}
use nyxfinance.ProofJobs.{Prover, process_next_proof_job, get_proof_job_by_id}

abbrev pub status_text : ProofJobStatus → String
status_text queued = "queued"
status_text running = "running"
status_text succeeded = "succeeded"
status_text failed = "failed"

-- `job?.status ?? "missing"`
abbrev status_or_missing : Option ProofJob → String
status_or_missing none = "missing"
status_or_missing (some job) = status_text job.status

-- The tests of one round on the job's status, and what it does if none of them ends the loop.
abbrev pub on_status : ProofJob → ProofJobStatus → Db → Db × Result ProofJob → Db × Result ProofJob
on_status job succeeded db next = (db, ok job)
on_status job failed db next = (db, err (error (get_or job.failure "proof job failed")))
on_status job queued db next = next
on_status job running db next = next

abbrev pub on_job : String → Option ProofJob → Db → Db × Result ProofJob → Db × Result ProofJob
on_job id none db next = (db, err (error ("proof job not found: " <> id)))
on_job id (some job) db next = on_status job job.status db next

-- The loop with the rounds left, at the times of `clock`.
unfoldable pub run_target_rounds : Prover → (ℕ → ℕ) → String → ℕ → Db → Db × Result ProofJob
run_target_rounds prover clock id zero db = (
  db,
  err (error ("proof job did not finish: " <> status_or_missing (get_proof_job_by_id db id))),
)
run_target_rounds prover clock id (suc rounds) db =
    let next =
      run_target_rounds prover clock id rounds
        (process_next_proof_job prover (clock rounds) (clock rounds) db).0 in
    on_job id (get_proof_job_by_id db id) db next

unfoldable pub run_target_proof_job : Prover → (ℕ → ℕ) → String → Db → Db × Result ProofJob
unfolding run_target_rounds
run_target_proof_job prover clock id db = run_target_rounds prover clock id 10 db
