-- ===== src/Auditor/Reading.antt =====
-- backend/src/routes/auditor.ts, `parseDecryptRequest`: the fields of a request, once its sources are merged.
use nyxfinance.Common.{
  Bool, true, false, not, ◌&&◌, Option, none, some, String, [], ◌∷◌, ◌==◌, if◌then◌else◌,
}
use nyxfinance.Json.{Json, str, Fields, get}
use nyxfinance.Result.{Fault, Result, ok, err, error, throw_if, ◌>>=◌, ◌>>◌}
use nyxfinance.Emitted.{is_hex_text}
use nyxfinance.Auditor.{Auditor, DecryptInput, find_string, get_string}

abbrev pub is_kind : String → Option Fields → Bool
is_kind kind none = false
is_kind kind (some fields) = is_text (get "kind" fields)
  where
    is_text : Option Json → Bool
    is_text (some (str s)) = s == kind
    is_text other = false

abbrev is_hex_or_none : Option String → Bool
is_hex_or_none none = true
is_hex_or_none (some t) = is_hex_text t

abbrev fits_schema : DecryptInput → Bool
fits_schema input =
    is_hex_text input.r_e
    && is_hex_text input.v_aud_r
    && is_hex_text input.sigma
    && is_hex_or_none input.r_aud_r
    && is_hex_or_none input.v_aud_s
    && is_hex_or_none input.b_aud_s

abbrev sigma_missing : Option Fields → Fault
sigma_missing inspected =
    if is_kind "confidential_transfer_from" inspected
    then error
        "missing sigma; spender transfer decrypt requires emitted sigma_a from the live spender_transfer event"
    else error "missing sigma"

abbrev required_sigma : Option Fields → Option String → Result String
required_sigma inspected none = err (sigma_missing inspected)
required_sigma inspected (some sigma) = ok sigma

-- The fields of the request by their names, as the code reads them, and what the schema says to them.
unfoldable pub parsed : Auditor → Option Fields → Fields → Result DecryptInput
parsed auditor inspected payload = do
  r_e ← get_string payload "r_e" ("rE" ∷ "r_e_hex" ∷ [])
  v_aud_r ← get_string payload "v_aud_r" ("vAudR" ∷ [])
  sigma ← required_sigma inspected (find_string payload ("sigma" ∷ "sigma_a" ∷ []))
  let input : DecryptInput = record {
    r_e = r_e;
    v_aud_r = v_aud_r;
    sigma = sigma;
    secret = find_string payload ("secret" ∷ "auditorSecret" ∷ []);
    r_aud_r = find_string payload ("r_aud_r" ∷ "rAudR" ∷ []);
    v_aud_s = find_string payload ("v_aud_s" ∷ "vAudS" ∷ []);
    b_aud_s = find_string payload ("b_aud_s" ∷ "bAudS" ∷ "a_aud_s" ∷ "aAudS" ∷ []);
  }
  throw_if (not (fits_schema input)) auditor.schema_error
  ok input
