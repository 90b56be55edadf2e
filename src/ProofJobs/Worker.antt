-- ===== src/ProofJobs/Worker.antt =====
-- The rounds of the worker, `processNextProofJob` of backend/src/services/prover-worker.ts.
use nyxfinance.Common.{
  ℕ, ◌+◌, String, ◌≡◌, refl, ap, ◌∙◌, ◌⊎◌, inl, inr, false, Option, none, some, List, ◌==◌,
  if◌then◌else◌, Option-cases, All,
}
use nyxfinance.Json.{null}
use nyxfinance.Sql.{update_where}
use nyxfinance.Sql.Unique.{update_where-fused}
use nyxfinance.Result.{Result, ok, err, message}
use nyxfinance.Db.{Db, ProofJob, succeeded, failed}
use nyxfinance.Db.Jobs.{
  has_job_id, get_proof_job, next_queued, is_queued, start, start_job, complete_proof_job, finish,
  success, failure,
}
use nyxfinance.ProofJobs.{
  Prover, prove, Proof, artifacts, complete, process, process_next_proof_job,
}
use nyxfinance.ProofJobs.Laws.{
  JobsUnique, Oldest, next_queued-Oldest, get-update, claim_some, claim_none, no_queued, if-found,
}

pub process_none :
    (prover : Prover) (now later : ℕ) (db : Db)
    → next_queued db ≡ none
    → process_next_proof_job prover now later db ≡ (db, none)
unfolding process_next_proof_job
process_none prover now later db e = ap (process prover later) (claim_none now db e)

-- What a job says after the run of its prover.
abbrev pub IsSettled : Result Proof → ProofJob → Type 0
IsSettled (ok p) job =
    (job.status ≡ succeeded) × (job.result ≡ some (artifacts p)) × (job.failure ≡ none)
IsSettled (err e) job =
    (job.status ≡ failed) × (job.result ≡ none) × (job.failure ≡ some (message e))

abbrev pub finished : ℕ → Result Proof → ProofJob → ProofJob
finished now (ok p) = finish success (some (artifacts p)) none now
finished now (err e) = finish failure (some null) (some (message e)) now

pub finished-IsSettled :
    (now : ℕ) (r : Result Proof) (job : ProofJob) → IsSettled r (finished now r job)
finished-IsSettled now (ok p) job = (refl, refl, refl)
finished-IsSettled now (err e) job = (refl, refl, refl)

complete-rows :
    (id : String) (now : ℕ) (r : Result Proof) (db : Db)
    → complete id now r db
      ≡ record db { proof_jobs = update_where (has_job_id id) (finished now r) db.proof_jobs }
unfolding complete_proof_job
complete-rows id now (ok p) db = refl
complete-rows id now (err e) db = refl

pub finished-id : (now : ℕ) (r : Result Proof) (job : ProofJob) → (finished now r job).id ≡ job.id
finished-id now (ok p) job = refl
finished-id now (err e) job = refl

-- The rows after the worker's run on a queued job.
abbrev pub settle : ℕ → ℕ → Result Proof → ProofJob → ProofJob
settle now later r job = finished later r (start now job)

pub process-rows :
    (prover : Prover) (now later : ℕ) (db : Db) (job : ProofJob)
    → JobsUnique db
    → next_queued db ≡ some job
    → process_next_proof_job prover now later db ≡ (
      record db {
        proof_jobs =
            update_where
              (has_job_id job.id)
              (settle now later (prove prover (start now job)))
              db.proof_jobs;
      },
      some (start now job),
    )
unfolding process_next_proof_job
process-rows prover now later db job u h =
    let r = prove prover (start now job) in
    ap (process prover later) (claim_some now db job u h)
    ∙ ap (λ (d : Db). (d, some (start now job)))
        (complete-rows job.id later r (start_job job.id now db)
          ∙ ap (λ (rows : List ProofJob). record db { proof_jobs = rows })
              (update_where-fused (λ j. j.id) job.id (start now) (finished later r) db.proof_jobs
                (λ j. refl)))

-- What a round of the worker does: nothing, and then no job is queued; or a queued job, at least as
-- old as every other, is settled by the answer of its prover, with one more attempt, and the other
-- jobs are as before.
abbrev pub Processes : Prover → Db → Db × Option ProofJob → Type 0
Processes prover db (db', taken_job) =
    ((db' ≡ db)
      × (taken_job ≡ none)
      × All (λ (s : ProofJob). is_queued s.status ≡ false) db.proof_jobs)
    ⊎ ((job claim final : ProofJob) × Oldest db job
        × (taken_job ≡ some claim)
        × IsSettled (prove prover claim) final
        × (final.attempts ≡ job.attempts + 1)
        × ((j : String)
            → get_proof_job j db' ≡ (if job.id == j then some final else get_proof_job j db)))

-- The worker leaves the database as it is exactly where nothing is queued. Otherwise it takes a queued
-- job that is at least as old as every queued job, counts one more attempt, and leaves it succeeded
-- with the prover's artifacts or failed with the prover's message, whatever the prover answers; every
-- other job is as before.
pub process-Processes :
    (prover : Prover) (now later : ℕ) (db : Db)
    → JobsUnique db
    → Processes prover db (process_next_proof_job prover now later db)
process-Processes prover now later db u = elim (Option-cases (next_queued db)) [
  | inl e ↦
      let idle = process_none prover now later db e in
      inl (ap (λ r. r.0) idle, ap (λ r. r.1) idle, no_queued db e)
  | inr (job, e) ↦
      let r = prove prover (start now job) in
      inr (
        job,
        start now job,
        settle now later r job,
        next_queued-Oldest db job u e,
        ap (λ d. d.1) (process-rows prover now later db job u e),
        finished-IsSettled later r (start now job),
        attempts r job,
        others job e,
      )
]
  where
    attempts :
        (r : Result Proof) (job : ProofJob) → (settle now later r job).attempts ≡ job.attempts + 1
    attempts (ok p) job = refl
    attempts (err e) job = refl

    others :
        (job : ProofJob)
        → next_queued db ≡ some job
        → (j : String)
        → get_proof_job j (process_next_proof_job prover now later db).0 ≡ (
            if job.id == j
            then some (settle now later (prove prover (start now job)) job)
            else get_proof_job j db)
    others job e j =
        let f = settle now later (prove prover (start now job)) in
        ap (λ d. get_proof_job j d.0) (process-rows prover now later db job u e)
        ∙ get-update job.id j f db
            (λ r. finished-id later (prove prover (start now job)) (start now r))
        ∙ if-found f db job j (next_queued-Oldest db job u e).0
