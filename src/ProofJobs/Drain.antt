-- ===== src/ProofJobs/Drain.antt =====
-- The worker's loop of backend/src/worker.ts and the length of the queue.
use mathlib.Core.Path.{subst}
use nyxfinance.Common.{
  ℕ, zero, suc, ◌≤◌, ◌≡◌, refl, sym, ap, ◌⊎◌, inl, inr, Bool, true, false, List, [], ◌∷◌, arith,
  Option-cases, All,
}
use nyxfinance.Sql.Laws.{All-update_where}
use nyxfinance.Sql.Unique.{update_where-IsUnique, count, count-zero, count-update_where}
use nyxfinance.Result.{Result, ok, err}
use nyxfinance.Db.{Db, ProofJob, ProofJobStatus, queued, running, succeeded, failed}
use nyxfinance.Db.Jobs.{has_job_id, get_proof_job, next_queued, is_queued, start}
use nyxfinance.ProofJobs.{Prover, prove, Proof, process_next_proof_job}
use nyxfinance.ProofJobs.Laws.{JobsUnique, next_queued-Oldest, no_queued}
use nyxfinance.ProofJobs.Worker.{settle, finished-id, process-rows, process_none}

-- `n` rounds of the loop, at the times of `clock`.
abbrev pub run_worker : Prover → (ℕ → ℕ) → ℕ → Db → Db
run_worker prover clock zero db = db
run_worker prover clock (suc n) db =
    run_worker prover clock n (process_next_proof_job prover (clock n) (clock n) db).0

abbrev pub job_queued : ProofJob → Bool
job_queued job = is_queued job.status

abbrev pub queue_length : Db → ℕ
queue_length db = count job_queued db.proof_jobs

-- Neither queued nor running.
abbrev pub is_settled : ProofJobStatus → Bool
is_settled succeeded = true
is_settled failed = true
is_settled _ = false

abbrev pub is_running : ProofJobStatus → Bool
is_running running = true
is_running _ = false

abbrev pub NoneRunning : Db → Type 0
NoneRunning db = All (λ (s : ProofJob). is_running s.status ≡ false) db.proof_jobs

settle-id :
    (now later : ℕ) (r : Result Proof) (job : ProofJob) → (settle now later r job).id ≡ job.id
settle-id now later r job = finished-id later r (start now job)

settle-queued :
    (now later : ℕ) (r : Result Proof) (job : ProofJob)
    → is_queued (settle now later r job).status ≡ false
settle-queued now later (ok p) job = refl
settle-queued now later (err e) job = refl

settle-running :
    (now later : ℕ) (r : Result Proof) (job : ProofJob)
    → is_running (settle now later r job).status ≡ false
settle-running now later (ok p) job = refl
settle-running now later (err e) job = refl

-- One round keeps the primary key and leaves no job running; it shortens a queue that is not empty.
abbrev pub Round : Db → Db → Type 0
Round db next =
    JobsUnique next
    × NoneRunning next
    × (All (λ (s : ProofJob). job_queued s ≡ false) db.proof_jobs × (next ≡ db)
        ⊎ (queue_length db ≡ suc (queue_length next)))

pub process-Round :
    (prover : Prover) (now later : ℕ) (db : Db)
    → JobsUnique db
    → NoneRunning db
    → Round db (process_next_proof_job prover now later db).0
unfolding get_proof_job
process-Round prover now later db u idle = elim (Option-cases (next_queued db)) [
  | inl e ↦
      subst (λ r. Round db r.0) (sym (process_none prover now later db e))
        (u, idle, inl (no_queued db e, refl))
  | inr (job, e) ↦
      let r = prove prover (start now job) in
      let f = settle now later r in
      let (found, waiting, _) = next_queued-Oldest db job u e in
      subst (λ r. Round db r.0) (sym (process-rows prover now later db job u e))
        (
          update_where-IsUnique (λ j. j.id) f (has_job_id job.id) db.proof_jobs
              (settle-id now later r) u,
          All-update_where (λ (s : ProofJob). is_running s.status ≡ false) (has_job_id job.id) f
              db.proof_jobs (λ s _ _. settle-running now later r s) idle,
          inr (
              count-update_where (λ (j : ProofJob). j.id) job_queued f job.id db.proof_jobs job u
                found (ap is_queued waiting) (settle-queued now later r job)),
        )
]

none_queued :
    (rows : List ProofJob)
    → count job_queued rows ≡ 0
    → All (λ (s : ProofJob). is_running s.status ≡ false) rows
    → All (λ (s : ProofJob). is_settled s.status ≡ true) rows
none_queued [] h idle = tt
none_queued (job ∷ rows) h idle =
    (settled job.status (ground arith) idle.0, none_queued rows (ground arith) idle.1)
  where
    settled :
        (s : ProofJobStatus) → is_queued s ≡ false → is_running s ≡ false → is_settled s ≡ true
    settled queued h g = ground arith
    settled running h g = ground arith
    settled succeeded h g = refl
    settled failed h g = refl

-- From a table where no job is running, any number of rounds that is at least the number of queued
-- jobs, at any times and with any prover, leaves every job succeeded or failed.
pub run_worker-settles :
    (prover : Prover) (clock : ℕ → ℕ) (n : ℕ) (db : Db)
    → JobsUnique db
    → NoneRunning db
    → queue_length db ≤ n
    → All (λ (s : ProofJob). is_settled s.status ≡ true) (run_worker prover clock n db).proof_jobs
run_worker-settles prover clock zero db u idle le = none_queued db.proof_jobs (omega arith) idle
run_worker-settles prover clock (suc n) db u idle le =
    let (u', idle', step) = process-Round prover (clock n) (clock n) db u idle in
    run_worker-settles prover clock n _ u' idle' (shorter step)
  where
    shorter :
        {next : Db}
        → (All (λ (s : ProofJob). job_queued s ≡ false) db.proof_jobs × (next ≡ db)
            ⊎ (queue_length db ≡ suc (queue_length next)))
        → queue_length next ≤ n
    shorter (inl (e, same)) =
        ground (arith, ap queue_length same, count-zero job_queued db.proof_jobs e)
    shorter (inr e) = omega (arith, e)
