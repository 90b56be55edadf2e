-- ===== src/SimulationErrors.antt =====
-- backend/src/services/operator-tx.ts, `summarizeSimulationError`: what is said of a simulation that failed.
use text.Mathlib.Text.{starts_with}
use nyxfinance.Common.{
  Char, code, String, Bool, false, not, ◌&&◌, ◌||◌, Option, none, some, List, [], ◌∷◌, ◌==◌, leb,
  eqb, if◌then◌else◌, or_else, ◌<>◌, same_char, is_space,
}

-- `contractErrorLabels`
abbrev pub contract_error_labels : List (String × String)
contract_error_labels =
    ("3506", "OZ ConfidentialToken InvalidProof")
    ∷ ("4504", "PrefundingCreditLine StaleOraclePrice")
    ∷ ("4505", "PrefundingCreditLine ProofNotApproved")
    ∷ ("4511", "PrefundingCreditLine ProofVerificationFailed")
    ∷ ("4702", "RepaymentHistory DuplicateProofNullifier")
    ∷ ("4704", "RepaymentHistory ProofVerificationFailed")
    ∷ []

-- `contractErrorLabels[code] ?? …`
unfoldable pub label_of : List (String × String) → String → String
label_of [] c = "Contract error #" <> c
label_of ((known, label) ∷ rest) c = if known == c then label else label_of rest c

abbrev is_digit : Char → Bool
is_digit c = leb b'0' (code c) && leb (code c) b'9'

-- `(\d+)\)` after the digits so far; `none` where the text does not match.
unfoldable pub digits_then_paren : String → String → Option String
digits_then_paren read String.[] = none
digits_then_paren read (String.◌∷◌ c s) =
    let more = digits_then_paren (read <> String.◌∷◌ c "") s in
    if is_digit c then more else if eqb (code c) b')' && not (read == "") then some read else none

-- `\s*#(\d+)\)`
unfoldable pub number_sign : String → Option String
unfolding digits_then_paren
number_sign String.[] = none
number_sign (String.◌∷◌ c s) =
    let skip = number_sign s in
    if is_space c then skip else if eqb (code c) b'#' then digits_then_paren "" s else none

-- What follows a prefix of a text.
unfoldable pub after_prefix : String → String → Option String
after_prefix String.[] s = some s
after_prefix (String.◌∷◌ p ps) String.[] = none
after_prefix (String.◌∷◌ p ps) (String.◌∷◌ c s) =
    let rest = after_prefix ps s in if same_char p c then rest else none

abbrev code_at : Option String → Option String
code_at none = none
code_at (some rest) = number_sign rest

-- The group of `error.match(/Error\(Contract,\s*#(\d+)\)/)`: the first match from the left.
unfoldable pub contract_error : String → Option String
unfolding after_prefix number_sign
contract_error String.[] = none
contract_error (String.◌∷◌ c s) =
    or_else (code_at (after_prefix "Error(Contract," (String.◌∷◌ c s))) (contract_error s)

-- `text.includes(part)`
unfoldable pub includes : String → String → Bool
includes part String.[] = part == ""
includes part (String.◌∷◌ c s) = starts_with (String.◌∷◌ c s) part || includes part s

abbrev data_false_in : Option String → Bool
data_false_in none = false
data_false_in (some rest) = includes "data:false" rest

-- `/verify_proof.*data:false/s.test(error)`, which the other test of the disjunction implies
unfoldable pub verifier_false : String → Bool
unfolding after_prefix includes
verifier_false String.[] = false
verifier_false (String.◌∷◌ c s) =
    data_false_in (after_prefix "verify_proof" (String.◌∷◌ c s)) || verifier_false s

abbrev label : Option String → String
label none = "simulation error"
label (some c) = label_of contract_error_labels c

abbrev is_invalid_proof : Option String → Bool
is_invalid_proof none = false
is_invalid_proof (some c) = c == "3506"

abbrev pub proof_hint : String
proof_hint =
    " The configured confidential transfer proof was rejected by the OZ verifier; refresh the draw/repayment proof-of-life artifacts before retrying."

unfoldable pub summarize_simulation_error : String → String → String
unfolding contract_error verifier_false label_of
summarize_simulation_error method failure =
    let found = contract_error failure in
    method
    <> " simulation failed: "
    <> label found
    <> "."
    <> (if is_invalid_proof found && verifier_false failure then proof_hint else "")
