-- ===== src/Db/Jobs.antt =====
-- backend/src/db/sqlite.ts: the table proof_jobs.
use nyxfinance.Common.{ℕ, ◌+◌, Bool, true, false, Option, none, some, String, ◌==◌, if◌then◌else◌}
use mathlib.Core.Option
use nyxfinance.Json.{Json, truthy}
use nyxfinance.Sql.{find, insert, earliest, latest, update_where}
use nyxfinance.Result.{Result}
use nyxfinance.Db.{Db, ProofJob, ProofJobStatus, queued, running, succeeded, failed, stored}

abbrev pub has_job_id : String → ProofJob → Bool
has_job_id id job = job.id == id

-- `v ? JSON.stringify(v) : null`, read back by `row.result ? parseJson(row.result) : null`
abbrev pub json_or_null : Option Json → Option Json
json_or_null none = none
json_or_null (some v) = if truthy v then some v else none

unfoldable pub insert_proof_job : ProofJob → Db → Result Db
unfolding insert
insert_proof_job job db =
    stored "proof_jobs" (λ rows. record db { proof_jobs = rows })
      (insert (has_job_id job.id) (record job { result = json_or_null job.result }) db.proof_jobs)

unfoldable pub get_proof_job : String → Db → Option ProofJob
get_proof_job id db = find (has_job_id id) db.proof_jobs

abbrev pub is_queued : ProofJobStatus → Bool
is_queued queued = true
is_queued _ = false

-- SELECT id FROM proof_jobs WHERE status = 'queued' ORDER BY created_at LIMIT 1
unfoldable pub next_queued : Db → Option ProofJob
next_queued db = earliest (λ job. is_queued job.status) (λ job. job.created_at) db.proof_jobs

-- SET status = 'running', attempts = attempts + 1, updated_at = ?
abbrev pub start : ℕ → ProofJob → ProofJob
start now job = record job { status = running; attempts = job.attempts + 1; updated_at = now }

abbrev pub start_job : String → ℕ → Db → Db
start_job id now db = record db {
  proof_jobs = update_where (has_job_id id) (start now) db.proof_jobs;
}

abbrev pub claimed : ℕ → Option ProofJob → Db → Db × Option ProofJob
claimed now none db = (db, none)
claimed now (some row) db =
    (start_job row.id now db, get_proof_job row.id (start_job row.id now db))

unfoldable pub claim_next_proof_job : ℕ → Db → Db × Option ProofJob
claim_next_proof_job now db = claimed now (next_queued db) db

-- The second parameter of `completeProofJob`: "succeeded" | "failed".
pub data Outcome : Type 0 where
  success failure : Outcome

abbrev pub outcome_status : Outcome → ProofJobStatus
outcome_status success = succeeded
outcome_status failure = failed

abbrev pub finish : Outcome → Option Json → Option String → ℕ → ProofJob → ProofJob
finish outcome result error now job = record job {
  status = outcome_status outcome;
  result = json_or_null result;
  failure = error;
  updated_at = now;
}

unfoldable pub complete_proof_job : String → Outcome → Option Json → Option String → ℕ → Db → Db
complete_proof_job id outcome result error now db = record db {
  proof_jobs = update_where (has_job_id id) (finish outcome result error now) db.proof_jobs;
}

pub get_latest_proof_job_id : Db → Option String
get_latest_proof_job_id db =
    Option.map (λ (job : ProofJob). job.id)
      (latest (λ _. true) (λ job. job.created_at) db.proof_jobs)
