-- ===== src/ProofRoutes/Laws.antt =====
-- What the route accepts as a collateral proof, and what the prover then writes into its witness file.
use nyxfinance.Common.{
  ℕ, Bool, true, false, ◌&&◌, ◌||◌, Option, none, some, String, List, [], ◌∷◌, ◌++◌, any, ◌==◌, ◌≡◌,
  refl, sym, ap, ◌∙◌, if◌then◌else◌, taken, arith, eq_iff, All, or_else, some-injective, Bool-cases,
  inl, inr,
}
use nyxfinance.Json.{Json, null, bool, obj, str, num, arr, Fields, get, to_text}
use nyxfinance.Result.{Fault}
use nyxfinance.Sql.{insert}
use nyxfinance.Db.{Db, queued}
use nyxfinance.Db.Jobs.{insert_proof_job, has_job_id}
use nyxfinance.Sep31.{record_or_empty}
use nyxfinance.ProofJobs.{create_proof_job, create_collateral_sufficiency_job}
use nyxfinance.ProverRun.{value_text, collateral_names}
use nyxfinance.ProofRoutes.{
  Rule, digits, integer, optional_text, Reply, answered, failed_with, replied, post_collateral,
  fits, fits_all, stripped, parse, kept, is_digits, collateral_schema,
}

get-kept :
    (k j : String) (o : Option Json) (rest : Fields)
    → get k (kept j o rest) ≡ (if j == k then or_else o (get k rest) else get k rest)
unfolding get
get-kept k j none rest = ground arith
get-kept k j (some v) rest = refl

-- Whether a schema names a key.
abbrev names_key : String → List (String × Rule) → Bool
names_key k [] = false
names_key k ((j, rule) ∷ rules) = j == k || names_key k rules

again : (o : Option Json) (b : Bool) → or_else o (if b then o else none) ≡ o
again none true = refl
again none false = refl
again (some v) b = refl

get-stripped :
    (k : String) (rules : List (String × Rule)) (body : Fields)
    → get k (stripped rules body) ≡ (if names_key k rules then get k body else none)
unfolding stripped get
get-stripped k [] body = refl
get-stripped k ((j, rule) ∷ rules) body =
    get-kept k j (get j body) (stripped rules body)
    ∙ ap (λ o. if j == k then or_else (get j body) o else o) (get-stripped k rules body)
    ∙ by_key (j == k) refl
  where
    by_key :
        (b : Bool)
        → (j == k) ≡ b
        → (if b
            then or_else (get j body) (if names_key k rules then get k body else none)
            else (if names_key k rules then get k body else none))
          ≡ (if b || names_key k rules then get k body else none)
    by_key false e = refl
    by_key true e =
        ap (λ i. or_else (get i body) (if names_key k rules then get k body else none))
          ((eq_iff j k).0 e)
        ∙ again (get k body) (names_key k rules)

-- The rule of a schema for a key, the first one.
abbrev rule_of : String → List (String × Rule) → Option Rule
rule_of k [] = none
rule_of k ((j, rule) ∷ rules) = let rest = rule_of k rules in if j == k then some rule else rest

fits_rule :
    (k : String) (rules : List (String × Rule)) (body : Fields) (rule : Rule)
    → fits_all rules body ≡ true
    → rule_of k rules ≡ some rule
    → fits rule (get k body) ≡ true
unfolding fits_all
fits_rule k [] body rule all h = absurd (ground arith)
fits_rule k ((j, r) ∷ rules) body rule all h =
    by_key (j == k) refl (fits_rule k rules body rule (ground (arith, all))) (ground (arith, all)) h
  where
    by_key :
        (b : Bool)
        → (j == k) ≡ b
        → (rule_of k rules ≡ some rule → fits rule (get k body) ≡ true)
        → fits r (get j body) ≡ true
        → (if b then some r else rule_of k rules) ≡ some rule
        → fits rule (get k body) ≡ true
    by_key true e next first h' =
        ap (λ i. fits rule (get i body)) (sym ((eq_iff j k).0 e))
        ∙ ap (λ q. fits q (get j body)) (sym (some-injective h'))
        ∙ first
    by_key false e next first h' = next h'

-- A rule that only digits fit.
abbrev of_digits : Rule → Bool
of_digits digits = true
of_digits (integer low none) = false
of_digits (integer low (some high)) = true
of_digits optional_text = false

fits-digits :
    (rule : Rule) (value : Option Json)
    → of_digits rule ≡ true
    → fits rule value ≡ true
    → is_digits (value_text value) ≡ true
unfolding fits to_text
fits-digits digits (some (str s)) h fit = fit
fits-digits (integer low (some high)) (some (num t)) h fit = ground (arith, fit)
fits-digits (integer low none) value h fit = absurd (ground arith)
fits-digits optional_text value h fit = absurd (ground arith)
fits-digits digits none h fit = absurd (ground arith)
fits-digits digits (some null) h fit = absurd (ground arith)
fits-digits digits (some (bool b)) h fit = absurd (ground arith)
fits-digits digits (some (num t)) h fit = absurd (ground arith)
fits-digits digits (some (arr vs)) h fit = absurd (ground arith)
fits-digits digits (some (obj fs)) h fit = absurd (ground arith)
fits-digits (integer low (some high)) none h fit = absurd (ground arith)
fits-digits (integer low (some high)) (some null) h fit = absurd (ground arith)
fits-digits (integer low (some high)) (some (bool b)) h fit = absurd (ground arith)
fits-digits (integer low (some high)) (some (str s)) h fit = absurd (ground arith)
fits-digits (integer low (some high)) (some (arr vs)) h fit = absurd (ground arith)
fits-digits (integer low (some high)) (some (obj fs)) h fit = absurd (ground arith)

abbrev demanded : Option Rule → Bool
demanded none = false
demanded (some rule) = of_digits rule

-- Whether the schema demands digits of each of the names that the witness file is made from.
abbrev demands : List (String × String) → List (String × Rule) → Bool
demands [] rules = true
demands ((name, key) ∷ names) rules = demanded (rule_of key rules) && demands names rules

names_rule :
    (k : String) (rules : List (String × Rule)) (rule : Rule)
    → rule_of k rules ≡ some rule
    → names_key k rules ≡ true
names_rule k [] rule h = absurd (ground arith)
names_rule k ((j, r) ∷ rules) rule h = by_key (j == k) (names_rule k rules rule) h
  where
    by_key :
        (b : Bool)
        → (rule_of k rules ≡ some rule → names_key k rules ≡ true)
        → (if b then some r else rule_of k rules) ≡ some rule
        → b || names_key k rules ≡ true
    by_key true next h' = refl
    by_key false next h' = next h'

-- The value of a key in a payload is written in digits.
abbrev pub Digits : Fields → String × String → Type 0
Digits payload (name, key) = is_digits (value_text (get key payload)) ≡ true

stripped-Digits :
    (names : List (String × String)) (rules : List (String × Rule)) (body : Fields)
    → fits_all rules body ≡ true
    → demands names rules ≡ true
    → All (Digits (stripped rules body)) names
stripped-Digits [] rules body all h = tt
stripped-Digits ((name, key) ∷ names) rules body all h = (
  by_rule (rule_of key rules) refl (ground (arith, h)),
  stripped-Digits names rules body all (ground (arith, h)),
)
  where
    by_rule :
        (o : Option Rule)
        → rule_of key rules ≡ o
        → demanded o ≡ true
        → is_digits (value_text (get key (stripped rules body))) ≡ true
    by_rule none e demand = absurd (ground arith)
    by_rule (some rule) e demand =
        ap (λ v. is_digits (value_text v))
          (get-stripped key rules body ∙ taken _ _ (names_rule key rules rule e))
        ∙ fits-digits rule (get key body) demand (fits_rule key rules body rule all e)

-- A reply to a request for a collateral proof: a job that is queued, with digits for every value of the witness file, or
-- an error that leaves the database as it was.
abbrev pub Accepted : Db → Db × Reply → Type 0
Accepted db (after, answered job) =
    All (Digits (record_or_empty (some job.payload))) collateral_names
    × (job.status ≡ queued)
    × (after.proof_jobs ≡ db.proof_jobs ++ job ∷ [])
    × (record after { proof_jobs = db.proof_jobs } ≡ db)
Accepted db (after, failed_with code failure) = (code ≡ 500) × (after ≡ db)

created-Accepted :
    (fresh : String) (now : ℕ) (payload : Fields) (db : Db)
    → All (Digits payload) collateral_names
    → Accepted db (replied db (create_collateral_sufficiency_job fresh now (obj payload) db))
unfolding create_proof_job insert_proof_job insert
created-Accepted fresh now payload db ds =
    elim (Bool-cases (any (has_job_id fresh) db.proof_jobs)) [
      | inl taken_id ↦ rw taken_id (refl, refl)
      | inr free_id ↦ rw free_id (ds, refl, refl, refl)
    ]

-- A request for a collateral proof is answered with the job that it queues, as the only change, or with status 500
-- and no change. In the payload of a job that is queued, whatever the request holds, every value that goes into the
-- witness file of the provers is a text of decimal digits that is not empty.
pub post_collateral-Accepted :
    (schema_error : Fault) (fresh : String) (now : ℕ) (body : Json) (db : Db)
    → Accepted db (post_collateral schema_error fresh now body db)
unfolding post_collateral parse
post_collateral-Accepted schema_error fresh now null db = (refl, refl)
post_collateral-Accepted schema_error fresh now (bool b) db = (refl, refl)
post_collateral-Accepted schema_error fresh now (num t) db = (refl, refl)
post_collateral-Accepted schema_error fresh now (str s) db = (refl, refl)
post_collateral-Accepted schema_error fresh now (arr vs) db = (refl, refl)
post_collateral-Accepted schema_error fresh now (obj fs) db =
    elim (Bool-cases (fits_all collateral_schema fs)) [
      | inr unfit ↦ rw unfit (refl, refl)
      | inl fit ↦ rw fit (
          created-Accepted fresh now (stripped collateral_schema fs) db
            (stripped-Digits collateral_names collateral_schema fs fit refl))
    ]
