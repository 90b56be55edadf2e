-- ===== src/ProverRun.antt =====
-- backend/src/services/prover-worker.ts: how the worker proves a job on its host, by a witness file and three
-- commands.
pub mod Laws
use nyxfinance.Common.{Option, none, some, String, List, [], ◌∷◌, ◌==◌, ◌<>◌, if◌then◌else◌}
use nyxfinance.Json.{Json, Fields, get, to_text}
use nyxfinance.Result.{Result, ok, err, error}
use nyxfinance.Db.{ProofJob}
use nyxfinance.Sep31.{record_or_empty}
use nyxfinance.ProofJobs.{Proof}
use nyxfinance.DemoFlow.Fixtures.{Spawned, has_failed}

-- What the worker does to its host: a directory, a file with its content, a command with its arguments and
-- directory, and the reading of a file.
pub data Deed : Type 0 where
  make_directory : String → Deed
  write_file : String → String → Deed
  command : String → List String → String → Deed
  read_file : String → Deed

-- The deeds so far, the newest first.
abbrev pub Deeds : Type 0
Deeds = List Deed

-- The host. What a command prints, whether a file can be written and what a file holds, in hexadecimal, depend
-- on the deeds up to and with the one that asks; `resolve` is Node's. Every command can be started here: the `error`
-- event of one that cannot has no handler in the source and ends the worker's process, which is not modelled.
pub record Host : Type 0 where
  pub resolve : String → String
  pub made : Deeds → Result (Unit {0})
  pub exited : Deeds → Spawned
  pub contents : Deeds → Result String

abbrev pub Run : Type 0 → Type 0
Run A = Deeds → Deeds × Result A

abbrev pub then_run : {A B : Type 0} → Deeds × Result A → (A → Run B) → Deeds × Result B
then_run (log, ok a) f = f a log
then_run (log, err e) f = (log, err e)

infixl 5 ◌>>=◌
abbrev pub ◌>>=◌ : {A B : Type 0} → Run A → (A → Run B) → Run B
◌>>=◌ m f log = then_run (m log) f

abbrev pub perform : {A : Type 0} → Deed → (Deeds → Result A) → Run A
perform deed answer log = (deed ∷ log, answer (deed ∷ log))

abbrev pub pure : {A : Type 0} → A → Run A
pure a log = (log, ok a)

-- `join`, of a path and names without slashes
abbrev pub join : String → String → String
join path name = path <> "/" <> name

abbrev spaced : List String → String
spaced [] = ""
spaced (arg ∷ []) = arg
spaced (arg ∷ (next ∷ args)) = arg <> " " <> spaced (next ∷ args)

-- Whether a command succeeded; what it printed is not used.
abbrev pub exit_of : String → List String → Spawned → Result (Unit {0})
exit_of name args result =
    if has_failed result.status
    then err (
        error (
          name
          <> " "
          <> spaced args
          <> " failed: "
          <> (if result.stderr == "" then result.stdout else result.stderr)))
    else ok tt

-- `run`
abbrev pub run : Host → String → List String → String → Run (Unit {0})
run host name args cwd =
    perform (command name args cwd) (λ log. exit_of name args (host.exited log))

-- The names in `Prover.toml` and those of the payload.
abbrev pub collateral_names : List (String × String)
collateral_names =
    ("sk", "sk")
    ∷ ("collateral_amount", "collateralAmount")
    ∷ ("collateral_randomness", "collateralRandomness")
    ∷ ("credit_amount", "creditAmount")
    ∷ ("credit_randomness", "creditRandomness")
    ∷ ("position_secret", "positionSecret")
    ∷ ("c_spend_x", "collateralCommitmentX")
    ∷ ("c_spend_y", "collateralCommitmentY")
    ∷ ("y_x", "yX")
    ∷ ("y_y", "yY")
    ∷ ("credit_commitment_x", "creditCommitmentX")
    ∷ ("credit_commitment_y", "creditCommitmentY")
    ∷ ("oracle_price_e7", "oraclePriceE7")
    ∷ ("haircut_bps", "haircutBps")
    ∷ ("tenor_days", "tenorDays")
    ∷ ("lock_key", "lockKey")
    ∷ ("position_nullifier", "positionNullifier")
    ∷ []

abbrev pub history_names : List (String × String)
history_names =
    ("position_id", "positionId")
    ∷ ("repayment_amount_0", "repaymentAmount0")
    ∷ ("paid_ledger_0", "paidLedger0")
    ∷ ("due_ledger_0", "dueLedger0")
    ∷ ("leaf_secret_0", "leafSecret0")
    ∷ ("repayment_amount_1", "repaymentAmount1")
    ∷ ("paid_ledger_1", "paidLedger1")
    ∷ ("due_ledger_1", "dueLedger1")
    ∷ ("leaf_secret_1", "leafSecret1")
    ∷ ("repayment_amount_2", "repaymentAmount2")
    ∷ ("paid_ledger_2", "paidLedger2")
    ∷ ("due_ledger_2", "dueLedger2")
    ∷ ("leaf_secret_2", "leafSecret2")
    ∷ ("proof_secret", "proofSecret")
    ∷ ("history_root", "historyRoot")
    ∷ ("threshold", "threshold")
    ∷ ("proof_nullifier", "proofNullifier")
    ∷ []

-- A value in a template literal.
abbrev pub value_text : Option Json → String
value_text none = "undefined"
value_text (some value) = to_text value

-- The content of the file, each line ended.
unfoldable pub prover_toml : List (String × String) → Fields → String
prover_toml [] payload = ""
prover_toml ((name, key) ∷ names) payload =
    name <> " = \"" <> value_text (get key payload) <> "\"\n" <> prover_toml names payload

abbrev pub toml_path : String → String → String
toml_path root circuit = join (join (join root "circuits") circuit) "Prover.toml"

-- `writeProverToml` and `writeRepaymentHistoryProverToml`, for a circuit of a name
abbrev pub write_prover_toml :
    Host → String → String → List (String × String) → Json → Run (Unit {0})
write_prover_toml host root circuit names payload =
    perform
      (write_file (toml_path root circuit) (prover_toml names (record_or_empty (some payload))))
      host.made

abbrev pub prove_args : String → String → String → List String
prove_args circuits_dir circuit_package out_dir =
    "prove"
    ∷ "--scheme"
    ∷ "ultra_honk"
    ∷ "--oracle_hash"
    ∷ "keccak"
    ∷ "--bytecode_path"
    ∷ join (join circuits_dir "target") (circuit_package <> ".json")
    ∷ "--witness_path"
    ∷ join (join circuits_dir "target") (circuit_package <> ".gz")
    ∷ "--output_path"
    ∷ out_dir
    ∷ "--output_format"
    ∷ "bytes_and_fields"
    ∷ []

-- The two functions on a job have the same text but for the name of the circuit and the fields.
unfoldable pub run_circuit_proof :
    Host → String → String → List (String × String) → ProofJob → Run Proof
run_circuit_proof host root circuit names job = do
  let circuits_dir = join root "circuits"
  let out_dir = join (join root "state") job.id
  let circuit_package = "circuit_" <> circuit
  directory ← perform (make_directory out_dir) host.made
  witness ← write_prover_toml host root circuit names job.payload
  compiled ← run host "nargo" ("compile" ∷ "--package" ∷ circuit_package ∷ []) circuits_dir
  executed ← run host "nargo" ("execute" ∷ "--package" ∷ circuit_package ∷ []) circuits_dir
  proved ← run host "bb" (prove_args circuits_dir circuit_package out_dir) circuits_dir
  proof_hex ← perform (read_file (join out_dir "proof")) host.contents
  public_inputs_hex ← perform (read_file (join out_dir "public_inputs")) host.contents
  pure (record {
    proof_hex = proof_hex;
    public_inputs_hex = public_inputs_hex;
    artifacts_dir = out_dir;
  })

abbrev pub run_collateral_sufficiency_proof : Host → String → ProofJob → Run Proof
run_collateral_sufficiency_proof host oz_root job =
    run_circuit_proof host (host.resolve oz_root) "collateral_sufficiency" collateral_names job

abbrev pub run_repayment_history_proof : Host → String → ProofJob → Run Proof
run_repayment_history_proof host oz_root job =
    run_circuit_proof host (host.resolve oz_root) "repayment_history" history_names job
