-- ===== src/ProofRoutes.antt =====
-- backend/src/routes/proof.ts: the schemas of the requests that queue a proof, and the routes; and the handler
-- of errors in backend/src/app.ts.
pub mod Laws
use Prim.Native.String
use nyxfinance.Common.{
  ℕ, Char, code, Bool, true, false, not, ◌&&◌, ◌||◌, Option, none, some, String, List, [], ◌∷◌,
  ◌==◌, if◌then◌else◌, leb, read_digits,
}
use text.Mathlib.Text.{starts_with}
use nyxfinance.Json.{Json, num, str, obj, Fields, end, field, get}
use nyxfinance.Result.{Fault, Result, ok, err, message}
use nyxfinance.Db.{Db, ProofJob}
use nyxfinance.Db.Jobs.{get_proof_job}
use nyxfinance.SimulationErrors.{includes}
use nyxfinance.ProofJobs.{create_collateral_sufficiency_job, create_repayment_history_job}

-- What a schema demands of a property: `z.string().regex(/^[0-9]+$/)`, `z.number().int()` with its bounds,
-- and `z.string().optional()`.
pub data Rule : Type 0 where
  digits : Rule
  integer : (low : ℕ) (high : Option ℕ) → Rule
  optional_text : Rule

abbrev is_digit : Char → Bool
is_digit c = leb b'0' (code c) && leb (code c) b'9'

unfoldable pub all_digits : String → Bool
all_digits String.[] = true
all_digits (String.◌∷◌ c s) = is_digit c && all_digits s

abbrev pub is_digits : String → Bool
is_digits s = not (s == "") && all_digits s

abbrev below : Option ℕ → ℕ → Bool
below none n = true
below (some high) n = leb n high

-- A number that is not negative and an integer is written in digits, and from 10 ^ 21 on with a positive exponent.
abbrev is_large : Option ℕ → String → Bool
is_large none t = not (starts_with t "-") && includes "e+" t
is_large (some high) t = false

abbrev pub is_integer : ℕ → Option ℕ → String → Bool
is_integer low high t =
    (is_digits t && leb low (read_digits 0 t) && below high (read_digits 0 t)) || is_large high t

unfoldable pub fits : Rule → Option Json → Bool
unfolding all_digits
fits digits (some (str s)) = is_digits s
fits (integer low high) (some (num t)) = is_integer low high t
fits optional_text none = true
fits optional_text (some (str s)) = true
fits rule value = false

unfoldable pub fits_all : List (String × Rule) → Fields → Bool
unfolding fits
fits_all [] body = true
fits_all ((key, rule) ∷ rules) body = fits rule (get key body) && fits_all rules body

abbrev pub kept : String → Option Json → Fields → Fields
kept key none rest = rest
kept key (some value) rest = field key value rest

-- The properties that the schema names, in its order.
unfoldable pub stripped : List (String × Rule) → Fields → Fields
stripped [] body = end
stripped ((key, rule) ∷ rules) body = kept key (get key body) (stripped rules body)

-- `schema.parse(body)`, with the error that Zod throws
unfoldable pub parse : Fault → List (String × Rule) → Json → Result Fields
unfolding fits_all stripped
parse schema_error rules (obj body) =
    if fits_all rules body then ok (stripped rules body) else err schema_error
parse schema_error rules other = err schema_error

abbrev pub collateral_schema : List (String × Rule)
collateral_schema =
    ("quoteId", optional_text)
    ∷ ("sk", digits)
    ∷ ("collateralAmount", digits)
    ∷ ("collateralRandomness", digits)
    ∷ ("creditAmount", digits)
    ∷ ("creditRandomness", digits)
    ∷ ("positionSecret", digits)
    ∷ ("collateralCommitmentX", digits)
    ∷ ("collateralCommitmentY", digits)
    ∷ ("yX", digits)
    ∷ ("yY", digits)
    ∷ ("creditCommitmentX", digits)
    ∷ ("creditCommitmentY", digits)
    ∷ ("lockKey", digits)
    ∷ ("positionNullifier", digits)
    ∷ ("oraclePriceE7", digits)
    ∷ ("haircutBps", integer 0 (some 10000))
    ∷ ("tenorDays", integer 1 (some 5))
    ∷ []

abbrev pub history_schema : List (String × Rule)
history_schema =
    ("positionId", digits)
    ∷ ("repaymentAmount0", digits)
    ∷ ("paidLedger0", integer 0 none)
    ∷ ("dueLedger0", integer 0 none)
    ∷ ("leafSecret0", digits)
    ∷ ("repaymentAmount1", digits)
    ∷ ("paidLedger1", integer 0 none)
    ∷ ("dueLedger1", integer 0 none)
    ∷ ("leafSecret1", digits)
    ∷ ("repaymentAmount2", digits)
    ∷ ("paidLedger2", integer 0 none)
    ∷ ("dueLedger2", integer 0 none)
    ∷ ("leafSecret2", digits)
    ∷ ("proofSecret", digits)
    ∷ ("historyRoot", digits)
    ∷ ("threshold", integer 1 (some 3))
    ∷ ("proofNullifier", digits)
    ∷ []

-- The replies of the routes: a job, or an error with its status.
pub data Reply : Type 0 where
  answered : ProofJob → Reply
  failed_with : (code : ℕ) (failure : String) → Reply

-- `setErrorHandler`: no error of the services has a field `validation`.
abbrev pub error_reply : Fault → Reply
error_reply e = failed_with 500 (message e)

abbrev pub replied : Db → Result (Db × ProofJob) → Db × Reply
replied db (ok (after, job)) = (after, answered job)
replied db (err e) = (db, error_reply e)

abbrev pub queued_with : Db → (Json → Db → Result (Db × ProofJob)) → Result Fields → Db × Reply
queued_with db create (err e) = (db, error_reply e)
queued_with db create (ok payload) = replied db (create (obj payload) db)

-- POST /api/proof/collateral-sufficiency and /api/proof/repayment-history
unfoldable pub post_collateral : Fault → String → ℕ → Json → Db → Db × Reply
post_collateral schema_error fresh now body db =
    queued_with db (create_collateral_sufficiency_job fresh now)
      (parse schema_error collateral_schema body)

unfoldable pub post_history : Fault → String → ℕ → Json → Db → Db × Reply
post_history schema_error fresh now body db =
    queued_with db (create_repayment_history_job fresh now) (parse schema_error history_schema body)

abbrev found_job : Option ProofJob → Reply
found_job none = failed_with 404 "proof_job_not_found"
found_job (some job) = answered job

-- GET /api/proof/:jobId
unfoldable pub get_job : Fault → String → Db → Reply
get_job schema_error job_id db =
    if job_id == "" then error_reply schema_error else found_job (get_proof_job job_id db)
