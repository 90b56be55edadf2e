-- ===== src/Examples/Jobs.antt =====
-- The queue of proof jobs at a concrete table: a prover that answers for one kind of job only.
use nyxfinance.Common.{[], ◌∷◌, ◌≡◌, refl, true, All, arith}
use nyxfinance.Json.{obj, end}
use nyxfinance.Result.{ok, err, error}
use nyxfinance.Db.{Db, ProofJob, empty_db}
use nyxfinance.ProofJobs.{Prover, queued_job, process_next_proof_job}
use nyxfinance.ProofJobs.Worker.{Processes, process-Processes}
use nyxfinance.ProofJobs.Drain.{run_worker, is_settled, run_worker-settles}

abbrev pub test_prover : Prover
test_prover = record {
  collateral_sufficiency =
      λ job. ok (record { proof_hex = "aa"; public_inputs_hex = "bb"; artifacts_dir = job.id });
  repayment_history = λ job. err (error "nargo failed");
}

abbrev pub jobs : Db
jobs = record empty_db {
  proof_jobs =
      queued_job "proof_2" 20 "repayment_history" (obj end)
      ∷ queued_job "proof_1" 10 "collateral_sufficiency" (obj end)
      ∷ [];
}

process-Processes_example :
    Processes test_prover jobs (process_next_proof_job test_prover 30 40 jobs)
process-Processes_example = process-Processes test_prover 30 40 jobs (refl, (refl, tt))

run_worker-settles_example :
    All
      (λ (s : ProofJob). is_settled s.status ≡ true)
      (run_worker test_prover (λ n. 50) 2 jobs).proof_jobs
run_worker-settles_example =
    run_worker-settles test_prover (λ n. 50) 2 jobs (refl, (refl, tt)) (refl, (refl, tt))
      (omega arith)
