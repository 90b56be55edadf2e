-- ===== src/Common/Uri.antt =====
-- JavaScript's `encodeURIComponent`: UTF-8 bytes, percent-encoded but for the unreserved letters.
use Prim.Native.Nat.{ℕ, ◌+◌, ◌/◌, ◌%◌}
use Prim.Native.Char.{code}
use Prim.Native.String.{String, slice}
use mathlib.Core.Bool.{Bool, ◌&&◌, ◌||◌}
use nyxfinance.Common.Tests.{ltb, leb, eqb, if◌then◌else◌}
use nyxfinance.Common.Text.{◌<>◌}

hex_digit : ℕ → String
hex_digit n = slice "0123456789ABCDEF" n (n + 1)

percent : ℕ → String
unfolding hex_digit
percent byte = "%" <> hex_digit (byte / 16) <> hex_digit (byte % 16)

utf8_tail : ℕ → String
unfolding percent
utf8_tail n = percent (128 + n % 64)

encode_code : ℕ → String
unfolding percent utf8_tail
encode_code n =
    if ltb n 128
    then percent n
    else if ltb n 2048
    then percent (192 + n / 64) <> utf8_tail n
    else if ltb n 65536
    then percent (224 + n / 4096) <> utf8_tail (n / 64) <> utf8_tail n
    else percent (240 + n / 262144) <> utf8_tail (n / 4096) <> utf8_tail (n / 64) <> utf8_tail n

between : ℕ → ℕ → ℕ → Bool
between lo hi n = leb lo n && leb n hi

-- A-Z a-z 0-9 - _ . ! ~ * ' ( )
unreserved : ℕ → Bool
unfolding between
unreserved n =
    between b'A' b'Z' n
    || between b'a' b'z' n
    || between b'0' b'9' n
    || eqb n b'-'
    || eqb n b'_'
    || eqb n b'.'
    || eqb n b'!'
    || eqb n b'~'
    || eqb n b'*'
    || eqb n 39
    || eqb n b'('
    || eqb n b')'

unfoldable pub encode_uri_component : String → String
unfolding encode_code unreserved
encode_uri_component String.[] = ""
encode_uri_component (String.◌∷◌ c s) =
    (if unreserved (code c) then String.◌∷◌ c "" else encode_code (code c))
    <> encode_uri_component s
