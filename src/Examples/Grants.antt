-- ===== src/Examples/Grants.antt =====
-- The creation of a disclosure grant at a concrete input.
use nyxfinance.Common.{String, none, [], ◌∷◌}
use nyxfinance.Json.{str, end, field}
use nyxfinance.Disclosure.{Crypto, GrantInput}
use nyxfinance.Disclosure.Created.{Created}

abbrev hex_text : String
hex_text = "0123456789abcdef0123456789abcdef0123456789abcdef0123456789abcdef"

abbrev test_crypto : Crypto
test_crypto = record {
  sha256_hex = λ t. hex_text;
  stable_json = λ v. "{}";
  encrypt = λ text secret. record { ciphertext = text; nonce = "n"; auth_tag = "t" };
}

abbrev grant_input : GrantInput
grant_input = record {
  owner = "GANCHOR";
  viewer_secret = "secret";
  position_id = hex_text;
  event_id = "event";
  scope = record { fields = "amount" ∷ []; label = none };
  scoped_data = field "amount" (str "7") (field "owner" (str "GANCHOR") end);
  expires_at_ledger = 500;
  auditor_ciphertexts = none;
  proof = none;
  submit_on_chain = none;
}
