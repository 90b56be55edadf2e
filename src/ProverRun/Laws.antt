-- ===== src/ProverRun/Laws.antt =====
-- What a run of the provers did when it ends, in success and in failure.
use nyxfinance.Common.{false, some, String, List, [], ◌∷◌, ◌++◌, ◌<>◌, ◌≡◌, refl, take, arith}
use nyxfinance.Result.{Fault, Result, ok, err}
use nyxfinance.Db.{ProofJob}
use nyxfinance.Sep31.{record_or_empty}
use nyxfinance.ProofJobs.{Proof}
use nyxfinance.DemoFlow.Fixtures.{Spawned, has_failed}
use nyxfinance.ProverRun.{
  Deed, make_directory, write_file, command, read_file, Deeds, Host, Run, then_run, perform, run,
  join, exit_of, toml_path, prover_toml, prove_args, run_circuit_proof,
}

exited_well :
    (name : String) (args : List String) (result : Spawned) (u : Unit {0})
    → exit_of name args result ≡ ok u
    → has_failed result.status ≡ false
exited_well name args result u h = ground arith

module _ {A B : Type 0} (P : Deeds × Result B → Type 0) where
  perform_cases :
      (deed : Deed) (answer : Deeds → Result A) (log : Deeds) (f : A → Run B)
      → ((e : Fault) → P (deed ∷ log, err e))
      → ((a : A) → answer (deed ∷ log) ≡ ok a → P (f a (deed ∷ log)))
      → P (then_run (perform deed answer log) f)
  perform_cases deed answer log f no' yes' = by_answer (answer (deed ∷ log)) refl
    where
      by_answer : (r : Result A) → answer (deed ∷ log) ≡ r → P (then_run (deed ∷ log, r) f)
      by_answer (err e) h = no' e
      by_answer (ok a) h = yes' a h

-- A command that fails, or Succeeds.
run_cases :
    {B : Type 0} (P : Deeds × Result B → Type 0) (host : Host) (name : String) (args : List String)
    (cwd : String) (log : Deeds) (f : Unit {0} → Run B)
    → let after = command name args cwd ∷ log in
      ((e : Fault) → P (after, err e))
      → ((u : Unit {0}) → has_failed (host.exited after).status ≡ false → P (f u after))
      → P (then_run (run host name args cwd log) f)
run_cases P host name args cwd log f no' yes' =
    perform_cases P (command name args cwd) (λ done. exit_of name args (host.exited done)) log f no'
      λ u well. yes' u (exited_well name args (host.exited (command name args cwd ∷ log)) u well)

module _ (host : Host) (root circuit : String) (names : List (String × String)) (job : ProofJob)
    (log : Deeds) where
  abbrev pub circuits_dir : String
  circuits_dir = join root "circuits"

  abbrev pub out_dir : String
  out_dir = join (join root "state") job.id

  abbrev nargo : String → List String
  nargo step = step ∷ "--package" ∷ ("circuit_" <> circuit) ∷ []

  abbrev bb : List String
  bb = prove_args circuits_dir ("circuit_" <> circuit) out_dir

  -- The deeds of a whole run by stages: the witness file, the three commands, and the two files that are read.
  abbrev pub prepared : Deeds
  prepared =
      write_file (toml_path root circuit) (prover_toml names (record_or_empty (some job.payload)))
      ∷ make_directory out_dir
      ∷ log

  abbrev pub compiled : Deeds
  compiled = command "nargo" (nargo "compile") circuits_dir ∷ prepared

  abbrev pub executed : Deeds
  executed = command "nargo" (nargo "execute") circuits_dir ∷ compiled

  abbrev pub proved : Deeds
  proved = command "bb" bb circuits_dir ∷ executed

  abbrev pub proof_read : Deeds
  proof_read = read_file (join out_dir "proof") ∷ proved

  abbrev pub all_read : Deeds
  all_read = read_file (join out_dir "public_inputs") ∷ proof_read

  abbrev pub Succeeds : Deeds → Type 0
  Succeeds deeds = has_failed (host.exited deeds).status ≡ false

  -- A run that returns did all of them, each command succeeded, and the proof is what the files hold; one that
  -- throws stopped after some of them.
  abbrev pub Ran : Deeds × Result Proof → Type 0
  Ran (done, err e) = (rest : Deeds) × (all_read ≡ rest ++ done)
  Ran (done, ok proof) =
      (done ≡ all_read)
      × Succeeds compiled
      × Succeeds executed
      × Succeeds proved
      × (host.contents proof_read ≡ ok proof.proof_hex)
      × (host.contents all_read ≡ ok proof.public_inputs_hex)
      × (proof.artifacts_dir ≡ out_dir)

  -- A proof that a run returns was read from the directory of the job, after the witness file of the job was written and
  -- the circuit compiled, executed and proved, in this order, by commands that succeeded; a run that throws
  -- did a first part of these deeds and nothing else.
  pub run_circuit_proof-Ran : Ran (run_circuit_proof host root circuit names job log)
  unfolding run_circuit_proof
  run_circuit_proof-Ran =
      perform_cases Ran (make_directory out_dir) host.made log _ (λ e. (take 6 all_read, refl))
        λ directory _.
          perform_cases Ran _ host.made _ _ (λ e. (take 5 all_read, refl))
            λ witness _.
              run_cases Ran host "nargo" (nargo "compile") circuits_dir prepared _
                (λ e. (take 4 all_read, refl))
                λ c compiles.
                  run_cases Ran host "nargo" (nargo "execute") circuits_dir compiled _
                    (λ e. (take 3 all_read, refl))
                    λ x executes.
                      run_cases Ran host "bb" bb circuits_dir executed _
                        (λ e. (take 2 all_read, refl))
                        λ p proves.
                          perform_cases Ran (read_file (join out_dir "proof")) host.contents proved
                            _ (λ e. (take 1 all_read, refl))
                            λ proof_hex reads.
                              perform_cases Ran (read_file (join out_dir "public_inputs"))
                                host.contents proof_read
                                (λ public_inputs done. (done, ok (found proof_hex public_inputs)))
                                (λ e. ([], refl))
                                λ public_inputs ends.
                                  (refl, compiles, executes, proves, reads, ends, refl)
    where
      found : String → String → Proof
      found proof_hex public_inputs_hex = record {
        proof_hex = proof_hex;
        public_inputs_hex = public_inputs_hex;
        artifacts_dir = out_dir;
      }
