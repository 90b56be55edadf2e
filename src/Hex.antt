-- ===== src/Hex.antt =====
-- The helpers `normalizeHex`, `bytesArg` and `bytes32Arg`, which backend/src/services/credit-line.ts,
-- disclosure.ts and repayment-history.ts each declare with the same text.
pub mod Laws
use Prim.Native.String
use nyxfinance.Common.{
  ℕ, suc, ◌%◌, code, String, Bool, true, not, ◌&&◌, ◌||◌, ◌==◌, leb, eqb, if◌then◌else◌, to_lower,
  ◌<>◌,
}
use nyxfinance.Result.{Result, ok, error, ◌>>=◌, ◌>>◌, throw_if}
use nyxfinance.World.{Arg, bytes}

-- `value.startsWith("0x") ? value.slice(2) : value`
unfoldable pub strip_0x : String → String
strip_0x (String.◌∷◌ c (String.◌∷◌ d s)) =
    if eqb (code c) b'0' && eqb (code d) b'x' then s else String.◌∷◌ c (String.◌∷◌ d s)
strip_0x s = s

abbrev pub is_hex_code : ℕ → Bool
is_hex_code n = leb b'0' n && leb n b'9' || leb b'a' n && leb n b'f' || leb b'A' n && leb n b'F'

unfoldable pub all_hex : String → Bool
all_hex String.[] = true
all_hex (String.◌∷◌ c s) = is_hex_code (code c) && all_hex s

-- `hex.length`, of a text of ASCII characters.
unfoldable pub text_length : String → ℕ
text_length String.[] = 0
text_length (String.◌∷◌ c s) = suc (text_length s)

-- /^[0-9a-fA-F]+$/ and an even length
abbrev pub is_even_hex : String → Bool
is_even_hex hex = not (hex == "") && all_hex hex && eqb (text_length hex % 2) 0

unfoldable pub normalize_hex : String → String → Result String
normalize_hex value field = do
  let hex = strip_0x value
  throw_if (not (is_even_hex hex)) (error (field <> " must be even-length hex"))
  ok (to_lower hex)

-- The bytes are given by their hexadecimal text.
unfoldable pub bytes_arg : String → String → Result Arg
bytes_arg hex field = do normalized ← normalize_hex hex field; ok (bytes normalized)

unfoldable pub bytes32_arg : String → String → Result Arg
bytes32_arg hex field = do
  normalized ← normalize_hex hex field
  throw_if (not (eqb (text_length normalized) 64)) (error (field <> " must be 32 bytes"))
  bytes_arg normalized field
