-- ===== src/DemoFlow/Frames/History.antt =====
-- The repayment history and the merge, of backend/src/services/repayment-history.ts, confidential-token-transfer.ts and
-- demo-flow.ts, leave the table of snapshots alone up to the write of the flow's state.
use nyxfinance.Common.{
  ℕ, zero, suc, String, ◌≡◌, refl, ◌∙◌, Option, none, some, List, [], ◌∷◌, ◌++◌,
}
use nyxfinance.Result.{Fault, Result, ok, err, error, ◌>>=◌}
use nyxfinance.Json.{Json}
use nyxfinance.Db.{Db, ProofJob, ProofJobStatus, queued, running, succeeded, failed, stored}
use nyxfinance.Db.Anchor.{given}
use nyxfinance.Db.Jobs.{
  complete_proof_job, claim_next_proof_job, next_queued, claimed, insert_proof_job, start_job,
  get_proof_job,
}
use nyxfinance.Db.Disclosures.{insert_repayment_leaf}
use nyxfinance.Sql.{insert}
use nyxfinance.Config.{AppConfig}
use nyxfinance.World.{World, Chain, Arg, require, address_arg, u32}
use nyxfinance.PolicySync.{operator_keypair}
use nyxfinance.Hex.{normalize_hex, bytes_arg, bytes32_arg}
use nyxfinance.ProofJobs.{
  Prover, Proof, prove, complete, process, process_next_proof_job, create_proof_job, queued_job,
  get_proof_job_by_id,
}
use nyxfinance.Repayments.{
  LeafInput, HistoryProof, leaf_args, operator_last, submit_repayment_call, seed_repayment_leaf,
  set_repayment_history_root, verify_repayment_history,
}
use nyxfinance.CreditLine.{to_address, all_args, keypair_from_secret}
use nyxfinance.Transfers.{merge_confidential_balance, keypair_call}
use nyxfinance.DemoFlow.Jobs.{run_target_rounds, run_target_proof_job, on_job, on_status}
use nyxfinance.DemoFlow.Setting.{on_db, changing_db, after_change}
use nyxfinance.DemoFlow.Frames.{
  Keeps, keeps-then, keeps_here, keeps-require, keeps-call, keeps-operator, keeps-operator_call,
  keeps-keypair, keeps-address,
}

keeps-operator_last :
    (chain : Chain) (config : AppConfig) (before : Result (List Arg)) (w : World)
    → Keeps w (operator_last chain config before w)
unfolding operator_last
keeps-operator_last chain config before w =
    keeps-then (w, before) _ (keeps_here w before)
      λ args v.
        keeps-then (operator_keypair chain config v) _ (keeps-operator chain config v) λ operator u.
          keeps-then (u, to_address (chain.check_address operator)) _
            (keeps_here u (to_address (chain.check_address operator)))
            λ last_arg t. keeps_here t (ok (args ++ last_arg ∷ []))

keeps-repayment_call :
    (chain : Chain) (config : AppConfig) (method : String) (args : List Arg) (w : World)
    → Keeps w (submit_repayment_call chain config method args w)
unfolding submit_repayment_call
keeps-repayment_call chain config method args w =
    keeps-then (require (given config.contracts.repayment_history) no_contract w) _
      (keeps-require (given config.contracts.repayment_history) no_contract w)
      λ contract_id v. keeps-operator_call chain config contract_id method args v
  where
    no_contract : Fault
    no_contract = error "REPAYMENT_HISTORY_CONTRACT_ID is not configured"

pub keeps-seed_leaf :
    (chain : Chain) (config : AppConfig) (fresh : String) (now : ℕ) (input : LeafInput) (w : World)
    → Keeps w (seed_repayment_leaf chain config fresh now input w)
unfolding seed_repayment_leaf insert_repayment_leaf
keeps-seed_leaf chain config fresh now input w =
    keeps-then (operator_last chain config (leaf_args input) w) _
      (keeps-operator_last chain config (leaf_args input) w)
      λ args v.
        keeps-then (submit_repayment_call chain config "seed_leaf" args v) _
          (keeps-repayment_call chain config "seed_leaf" args v)
          λ tx u.
            keeps-then (u, normalize_hex input.position_id "positionId") _
              (keeps_here u (normalize_hex input.position_id "positionId"))
              λ position t.
                keeps-then (t, normalize_hex input.leaf_nullifier "leafNullifier") _
                  (keeps_here t (normalize_hex input.leaf_nullifier "leafNullifier"))
                  λ nullifier s.
                    keeps-then (s, normalize_hex input.repayment_commitment "repaymentCommitment") _
                      (keeps_here s
                        (normalize_hex input.repayment_commitment "repaymentCommitment"))
                      λ commitment r. record { same = refl }

pub keeps-set_root :
    (chain : Chain) (config : AppConfig) (position_id : String) (w : World)
    → Keeps w (set_repayment_history_root chain config position_id w)
unfolding set_repayment_history_root
keeps-set_root chain config position_id w =
    let before = all_args (bytes32_arg position_id "positionId" ∷ []) in
    keeps-then (operator_last chain config before w) _ (keeps-operator_last chain config before w)
      λ args v. keeps-repayment_call chain config "finalize_history_root" args v

pub keeps-verify :
    (chain : Chain) (config : AppConfig) (input : HistoryProof) (w : World)
    → Keeps w (verify_repayment_history chain config input w)
unfolding verify_repayment_history
keeps-verify chain config input w =
    keeps-then (operator_last chain config (proof_args input) w) _
      (keeps-operator_last chain config (proof_args input) w)
      λ args v. keeps-repayment_call chain config "verify_history" args v
  where
    proof_args : HistoryProof → Result (List Arg)
    proof_args input = all_args (
        bytes32_arg input.position_id "positionId"
        ∷ ok (u32 input.threshold)
        ∷ bytes32_arg input.proof_nullifier "proofNullifier"
        ∷ bytes_arg input.public_inputs_hex "publicInputsHex"
        ∷ bytes_arg input.proof_hex "proofHex"
        ∷ [])

pub keeps-merge :
    (chain : Chain) (token secret : String) (w : World)
    → Keeps w (merge_confidential_balance chain token secret w)
unfolding merge_confidential_balance
keeps-merge chain token secret w =
    keeps-then (keypair_from_secret chain (some secret) "accountSecretKey" w) _
      (keeps-keypair chain (some secret) "accountSecretKey" w)
      λ signer v.
        keeps-then (address_arg chain signer v) _ (keeps-address chain signer v)
          λ account u. keeps-call chain (keypair_call signer token "merge" (account ∷ [])) u

-- The jobs are another table.
complete-snapshots :
    (id : String) (now : ℕ) (r : Result Proof) (db : Db)
    → (complete id now r db).snapshots ≡ db.snapshots
unfolding complete_proof_job
complete-snapshots id now (ok p) db = refl
complete-snapshots id now (err e) db = refl

process-snapshots :
    (prover : Prover) (now later : ℕ) (db : Db)
    → (process_next_proof_job prover now later db).0.snapshots ≡ db.snapshots
unfolding process_next_proof_job claim_next_proof_job
process-snapshots prover now later db = by_row (next_queued db)
  where
    by_claim :
        (d : Db) (o : Option ProofJob)
        → d.snapshots ≡ db.snapshots
        → (process prover later (d, o)).0.snapshots ≡ db.snapshots
    by_claim d none e = e
    by_claim d (some job) e = complete-snapshots job.id later (prove prover job) d ∙ e

    by_row :
        (o : Option ProofJob) → (process prover later (claimed now o db)).0.snapshots ≡ db.snapshots
    by_row none = refl
    by_row (some row) =
        by_claim (start_job row.id now db) (get_proof_job row.id (start_job row.id now db)) refl

run_target-snapshots :
    (prover : Prover) (clock : ℕ → ℕ) (id : String) (rounds : ℕ) (db : Db)
    → (run_target_rounds prover clock id rounds db).0.snapshots ≡ db.snapshots
unfolding run_target_rounds
run_target-snapshots prover clock id zero db = refl
run_target-snapshots prover clock id (suc rounds) db = by_job (get_proof_job_by_id db id) _ (
    run_target-snapshots prover clock id rounds
      (process_next_proof_job prover (clock rounds) (clock rounds) db).0
    ∙ process-snapshots prover (clock rounds) (clock rounds) db)
  where
    by_status :
        (job : ProofJob) (s : ProofJobStatus) (next : Db × Result ProofJob)
        → next.0.snapshots ≡ db.snapshots
        → (on_status job s db next).0.snapshots ≡ db.snapshots
    by_status job succeeded next e = refl
    by_status job failed next e = refl
    by_status job queued next e = e
    by_status job running next e = e

    by_job :
        (o : Option ProofJob) (next : Db × Result ProofJob)
        → next.0.snapshots ≡ db.snapshots
        → (on_job id o db next).0.snapshots ≡ db.snapshots
    by_job none next e = refl
    by_job (some job) next e = by_status job job.status next e

pub keeps-run_target :
    (prover : Prover) (clock : ℕ → ℕ) (id : String) (w : World)
    → Keeps w (on_db (run_target_proof_job prover clock id) w)
unfolding run_target_proof_job
keeps-run_target prover clock id w = record { same = run_target-snapshots prover clock id 10 w.db }

pub keeps-create_job :
    (fresh : String) (now : ℕ) (type : String) (payload : Json) (w : World)
    → Keeps w (changing_db (create_proof_job fresh now type payload) w)
unfolding create_proof_job insert_proof_job
keeps-create_job fresh now type payload w = by_rows (insert _ _ w.db.proof_jobs)
  where
    by_rows :
        (o : Option (List ProofJob))
        → Keeps w (
            after_change w (
              stored "proof_jobs" (λ rows. record w.db { proof_jobs = rows }) o >>= λ db.
              ok (db, queued_job fresh now type payload)))
    by_rows none = record { same = refl }
    by_rows (some rows) = record { same = refl }
