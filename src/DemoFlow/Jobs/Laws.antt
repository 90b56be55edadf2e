-- ===== src/DemoFlow/Jobs/Laws.antt =====
-- `runTargetProofJob` of backend/src/services/demo-flow.ts: ten rounds settle the job.
use mathlib.Core.Path.{subst}
use nyxfinance.Common.{
  ℕ, zero, suc, ◌<◌, String, ◌≡◌, refl, sym, ap, ◌∙◌, ◌⊎◌, inl, inr, true, false, Option, some,
  List, [], ◌∷◌, ◌==◌, arith, taken, skipped, Bool-cases, some-injective, get_or, All,
}
use nyxfinance.Result.{Result, ok, err, error}
use nyxfinance.Sql.{find}
use nyxfinance.Db.{Db, ProofJob, ProofJobStatus, queued, running, succeeded, failed}
use nyxfinance.Db.Jobs.{get_proof_job, has_job_id, is_queued}
use nyxfinance.ProofJobs.{Prover, process_next_proof_job}
use nyxfinance.ProofJobs.Laws.{JobsUnique}
use nyxfinance.ProofJobs.Worker.{Processes, process-Processes}
use nyxfinance.ProofJobs.Drain.{queue_length, NoneRunning, is_running, process-Round, Round}
use nyxfinance.DemoFlow.Jobs.{on_status, run_target_rounds, run_target_proof_job}

-- The loop ends with the job as the table then holds it, succeeded, or with the message of the failed job.
abbrev pub Finished : String → Db × Result ProofJob → Type 0
Finished id (db, r) =
    (job : ProofJob) × (get_proof_job id db ≡ some job)
    × (((job.status ≡ succeeded) × (r ≡ ok job))
        ⊎ ((job.status ≡ failed) × (r ≡ err (error (get_or job.failure "proof job failed")))))

found_All :
    (P : ProofJob → Type 0) (id : String) (rows : List ProofJob) (job : ProofJob)
    → All P rows
    → find (has_job_id id) rows ≡ some job
    → P job
unfolding find
found_All P id [] job h e = absurd (ground arith)
found_All P id (row ∷ rows) job h e = elim (Bool-cases (row.id == id)) [
  | inl here ↦ subst P (some-injective (sym (taken _ _ here) ∙ e)) h.0
  | inr there ↦ found_All P id rows job h.1 (sym (skipped _ _ there) ∙ e)
]

-- After a round that finds the job queued, the job is still there and the queue is shorter.
abbrev Progress : String → Db → Db → Type 0
Progress id db next =
    ((job : ProofJob) × (get_proof_job id next ≡ some job))
    × (queue_length db ≡ suc (queue_length next))

still_there :
    (prover : Prover) (id : String) (db : Db) (job : ProofJob) (q : Db × Option ProofJob)
    → get_proof_job id db ≡ some job
    → is_queued job.status ≡ true
    → Processes prover db q
    → (job' : ProofJob) × (get_proof_job id q.0 ≡ some job')
unfolding get_proof_job
still_there prover id db job q found waiting (inl (same, none_taken, idle)) =
    absurd
      (ground (arith, found_All (λ s. is_queued s.status ≡ false) id db.proof_jobs job idle found))
still_there prover id db job q found waiting
      (inr (old, claim, final, oldest, took, settled, more, rest)) =
    elim (Bool-cases (old.id == id)) [
      | inl this ↦ (final, rest id ∙ taken _ _ this)
      | inr other ↦ (job, rest id ∙ skipped _ _ other ∙ found)
    ]

shorter :
    (id : String) (db next : Db) (job : ProofJob)
    → get_proof_job id db ≡ some job
    → is_queued job.status ≡ true
    → Round db next
    → queue_length db ≡ suc (queue_length next)
unfolding get_proof_job
shorter id db next job found waiting (u, idle, inl (e, same)) =
    absurd
      (ground (arith, found_All (λ s. is_queued s.status ≡ false) id db.proof_jobs job e found))
shorter id db next job found waiting (u, idle, inr e) = e

-- In a table with distinct ids where no job is running, the loop settles its job if it has more rounds
-- than jobs are queued: it returns the job, succeeded, or throws the message of the failed job. In
-- particular it does not give up, whatever the prover answers.
pub run_target_rounds-Finished :
    (prover : Prover) (clock : ℕ → ℕ) (id : String) (rounds : ℕ) (db : Db)
    → ((job : ProofJob) × (get_proof_job id db ≡ some job))
    → JobsUnique db
    → NoneRunning db
    → queue_length db < rounds
    → Finished id (run_target_rounds prover clock id rounds db)
unfolding run_target_rounds get_proof_job
run_target_rounds-Finished prover clock id zero db found u idle le = absurd (omega arith)
run_target_rounds-Finished prover clock id (suc rounds) db (job, found) u idle le = rw found (
    by_status _ job.status refl (λ waiting.
      let next = process_next_proof_job prover (clock rounds) (clock rounds) db in
      let step = process-Round prover (clock rounds) (clock rounds) db u idle in
      run_target_rounds-Finished prover clock id rounds next.0
        (still_there prover id db job next found waiting
          (process-Processes prover (clock rounds) (clock rounds) db u))
        step.0 step.1 (omega (arith, shorter id db next.0 job found waiting step))))
  where
    by_status :
        (next : Db × Result ProofJob) (s : ProofJobStatus)
        → job.status ≡ s
        → (is_queued job.status ≡ true → Finished id next)
        → Finished id (on_status job s db next)
    by_status next succeeded e go = (job, found, inl (e, refl))
    by_status next failed e go = (job, found, inr (e, refl))
    by_status next queued e go = go (ap is_queued e)
    by_status next running e go = absurd (
        ground
          (arith, found_All (λ r. is_running r.status ≡ false) id db.proof_jobs job idle found))

-- In a table with distinct ids where no job is running and fewer than ten are queued, the flow's wait for a
-- job that is there ends with the job: it returns the job, succeeded, or throws the message of the failed
-- job, whatever the prover answers.
pub run_target_proof_job-Finished :
    (prover : Prover) (clock : ℕ → ℕ) (id : String) (db : Db)
    → ((job : ProofJob) × (get_proof_job id db ≡ some job))
    → JobsUnique db
    → NoneRunning db
    → queue_length db < 10
    → Finished id (run_target_proof_job prover clock id db)
unfolding run_target_proof_job
run_target_proof_job-Finished prover clock id db found u idle few =
    run_target_rounds-Finished prover clock id 10 db found u idle few
