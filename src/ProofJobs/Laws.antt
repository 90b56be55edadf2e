-- ===== src/ProofJobs/Laws.antt =====
-- The claims on the queue of proof jobs.
use mathlib.Core.Option
use nyxfinance.Common.{
  ℕ, ◌≤◌, String, ◌≡◌, refl, sym, ap, ◌∙◌, inl, inr, true, false, none, some, ◌==◌, eq_iff, eq_refl,
  arith, if◌then◌else◌, taken, skipped, Bool-cases, All,
}
use nyxfinance.Sql.{update_where}
use nyxfinance.Sql.Keys.{find-update_where_key}
use nyxfinance.Sql.Order.{earliest-none, earliest_sound, earliest_least}
use nyxfinance.Sql.Unique.{IsUnique, find-earliest}
use nyxfinance.Db.{Db, ProofJob, queued, running, succeeded, failed}
use nyxfinance.Db.Jobs.{
  has_job_id, get_proof_job, next_queued, is_queued, start, start_job, claim_next_proof_job,
  claimed,
}

-- The primary key of proof_jobs.
abbrev pub JobsUnique : Db → Type 0
JobsUnique db = IsUnique (λ job. job.id) db.proof_jobs

pub queued_true : (job : ProofJob) → is_queued job.status ≡ true → job.status ≡ queued
queued_true job h = by_status job.status h
  where
    by_status : (s : _) → is_queued s ≡ true → s ≡ queued
    by_status queued h = refl
    by_status running h = ground arith
    by_status succeeded h = ground arith
    by_status failed h = ground arith

pub get-update :
    (id j : String) (f : ProofJob → ProofJob) (db : Db)
    → ((r : ProofJob) → (f r).id ≡ r.id)
    → get_proof_job j (record db { proof_jobs = update_where (has_job_id id) f db.proof_jobs })
      ≡ (if id == j then Option.map f (get_proof_job j db) else get_proof_job j db)
unfolding get_proof_job
get-update id j f db h = find-update_where_key (λ job. job.id) f id j db.proof_jobs h

pub get-start_job :
    (id j : String) (now : ℕ) (db : Db)
    → get_proof_job j (start_job id now db)
      ≡ (if id == j then Option.map (start now) (get_proof_job j db) else get_proof_job j db)
unfolding get_proof_job
get-start_job id j now db =
    find-update_where_key (λ job. job.id) (start now) id j db.proof_jobs (λ r. refl)

-- `job` is a queued row, and no queued row is older.
abbrev pub Oldest : Db → ProofJob → Type 0
Oldest db job =
    (get_proof_job job.id db ≡ some job)
    × (job.status ≡ queued)
    × All (λ (s : ProofJob). is_queued s.status ≡ true → job.created_at ≤ s.created_at)
        db.proof_jobs

pub next_queued-Oldest :
    (db : Db) (job : ProofJob) → JobsUnique db → next_queued db ≡ some job → Oldest db job
unfolding next_queued get_proof_job
next_queued-Oldest db job u h = (
  find-earliest (λ j. j.id) (λ j. is_queued j.status) (λ j. j.created_at) db.proof_jobs job u h,
  queued_true job
      (earliest_sound (λ j. is_queued j.status) (λ j. j.created_at) db.proof_jobs job h),
  earliest_least (λ j. is_queued j.status) (λ j. j.created_at) db.proof_jobs job h,
)

pub claim_some :
    (now : ℕ) (db : Db) (job : ProofJob)
    → JobsUnique db
    → next_queued db ≡ some job
    → claim_next_proof_job now db ≡ (start_job job.id now db, some (start now job))
unfolding claim_next_proof_job
claim_some now db job u h =
    let (found, _, _) = next_queued-Oldest db job u h in
    ap (λ o. claimed now o db) h
    ∙ ap (λ o. (start_job job.id now db, o))
        (get-start_job job.id job.id now db
          ∙ taken _ _ (eq_refl job.id)
          ∙ ap (Option.map (start now)) found)

pub claim_none :
    (now : ℕ) (db : Db) → next_queued db ≡ none → claim_next_proof_job now db ≡ (db, none)
unfolding claim_next_proof_job
claim_none now db h = ap (λ o. claimed now o db) h

pub no_queued :
    (db : Db)
    → next_queued db ≡ none
    → All (λ (s : ProofJob). is_queued s.status ≡ false) db.proof_jobs
unfolding next_queued
no_queued db e = earliest-none (λ j. is_queued j.status) (λ j. j.created_at) db.proof_jobs e

-- Rewriting the row that an update by key meets.
pub if-found :
    (f : ProofJob → ProofJob) (db : Db) (job : ProofJob) (j : String)
    → get_proof_job job.id db ≡ some job
    → (if job.id == j then Option.map f (get_proof_job j db) else get_proof_job j db)
      ≡ (if job.id == j then some (f job) else get_proof_job j db)
if-found f db job j found = elim (Bool-cases (job.id == j)) [
  | inl same ↦
      taken _ _ same
      ∙ ap (λ i. Option.map f (get_proof_job i db)) (sym ((eq_iff job.id j).0 same))
      ∙ ap (Option.map f) found
      ∙ sym (taken _ _ same)
  | inr other ↦ skipped _ _ other ∙ sym (skipped _ _ other)
]
