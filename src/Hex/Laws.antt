-- ===== src/Hex/Laws.antt =====
-- Normal forms of the hexadecimal texts that `normalizeHex` makes.
use nyxfinance.Common.{
  ℕ, suc, ◌%◌, Char, code, String, ◌≡◌, refl, ap, Bool, true, false, not, ◌&&◌, ◌||◌, ◌==◌, eq_iff,
  arith, leb, eqb, lower, lower_in, to_lower, ◌<>◌,
}
use nyxfinance.Result.{ok, error, ◌>>=◌, throw_if, OnOk, OnOk->>=, OnOk_out}
use nyxfinance.World.{Arg, bytes}
use nyxfinance.Hex.{
  strip_0x, is_hex_code, all_hex, text_length, is_even_hex, normalize_hex, bytes_arg, bytes32_arg,
}

text_length-to_lower : (s : String) → text_length (to_lower s) ≡ text_length s
unfolding text_length to_lower
text_length-to_lower String.[] = refl
text_length-to_lower (String.◌∷◌ c s) = ap suc (text_length-to_lower s)

abbrev pub is_lower_hex : ℕ → Bool
is_lower_hex n = leb b'0' n && leb n b'9' || leb b'a' n && leb n b'f'

lower-fixed : (c : Char) → is_lower_hex (code c) ≡ true → lower c ≡ c
unfolding lower lower_in
lower-fixed c h = ground (arith, h)

lower-A : (c : Char) → code c ≡ 65 → lower c ≡ "a"
unfolding lower lower_in
lower-A c h = ground (arith, h)

lower-B : (c : Char) → code c ≡ 66 → lower c ≡ "b"
unfolding lower lower_in
lower-B c h = ground (arith, h)

lower-C : (c : Char) → code c ≡ 67 → lower c ≡ "c"
unfolding lower lower_in
lower-C c h = ground (arith, h)

lower-D : (c : Char) → code c ≡ 68 → lower c ≡ "d"
unfolding lower lower_in
lower-D c h = ground (arith, h)

lower-E : (c : Char) → code c ≡ 69 → lower c ≡ "e"
unfolding lower lower_in
lower-E c h = ground (arith, h)

lower-F : (c : Char) → code c ≡ 70 → lower c ≡ "f"
unfolding lower lower_in
lower-F c h = ground (arith, h)

-- The capital letters among the hexadecimal digits.
lower-capital :
    (c : Char)
    → (code c ≡ 65 → code (lower c) ≡ 97)
      × (code c ≡ 66 → code (lower c) ≡ 98)
      × (code c ≡ 67 → code (lower c) ≡ 99)
      × (code c ≡ 68 → code (lower c) ≡ 100)
      × (code c ≡ 69 → code (lower c) ≡ 101)
      × (code c ≡ 70 → code (lower c) ≡ 102)
lower-capital c = (
  λ h. ap code (lower-A c h),
  λ h. ap code (lower-B c h),
  λ h. ap code (lower-C c h),
  λ h. ap code (lower-D c h),
  λ h. ap code (lower-E c h),
  λ h. ap code (lower-F c h),
)

lower-hex : (c : Char) → is_hex_code (code c) ≡ true → is_lower_hex (code (lower c)) ≡ true
lower-hex c h =
    let (a, b, d, e, f, g) = lower-capital c in
    let fixed : is_lower_hex (code c) ≡ true → code (lower c) ≡ code c =
      λ k. ap code (lower-fixed c k) in
    ground (arith, h, a, b, d, e, f, g, fixed)

-- Hexadecimal digits without a capital letter.
abbrev pub all_lower_hex : String → Bool
all_lower_hex String.[] = true
all_lower_hex (String.◌∷◌ c s) = is_lower_hex (code c) && all_lower_hex s

to_lower-all_lower_hex : (s : String) → all_hex s ≡ true → all_lower_hex (to_lower s) ≡ true
unfolding all_hex to_lower
to_lower-all_lower_hex String.[] h = refl
to_lower-all_lower_hex (String.◌∷◌ c s) h = ground (arith, h, lower-hex c, to_lower-all_lower_hex s)

to_lower-fixed : (s : String) → all_lower_hex s ≡ true → to_lower s ≡ s
unfolding to_lower
to_lower-fixed String.[] h = refl
to_lower-fixed (String.◌∷◌ c s) h = ground (arith, lower-fixed c, to_lower-fixed s)

all_hex-lower : (s : String) → all_lower_hex s ≡ true → all_hex s ≡ true
unfolding all_hex
all_hex-lower String.[] h = refl
all_hex-lower (String.◌∷◌ c s) h = ground (arith, all_hex-lower s)

strip_0x-lower : (s : String) → all_lower_hex s ≡ true → strip_0x s ≡ s
unfolding strip_0x
strip_0x-lower String.[] h = refl
strip_0x-lower (String.◌∷◌ c String.[]) h = refl
strip_0x-lower (String.◌∷◌ c (String.◌∷◌ d s)) h = ground (arith, h)

-- What a normal form is.
abbrev pub IsNormal : String → Type 0
IsNormal h = (all_lower_hex h ≡ true) × ((h == "") ≡ false) × (eqb (text_length h % 2) 0 ≡ true)

cons-empty : (c : Char) (s : String) → (String.◌∷◌ c s == "") ≡ false
cons-empty c s = by_test (String.◌∷◌ c s == "") refl
  where
    by_test : (b : Bool) → (String.◌∷◌ c s == "") ≡ b → b ≡ false
    by_test false e = refl
    by_test true e = let same = (eq_iff (String.◌∷◌ c s) "").0 e in absurd cc

to_lower-empty : (s : String) → (s == "") ≡ false → (to_lower s == "") ≡ false
unfolding to_lower
to_lower-empty String.[] h = ground (arith, h)
to_lower-empty (String.◌∷◌ c s) h = cons-empty (lower c) (to_lower s)

even_hex : (s : String) → is_even_hex s ≡ true → IsNormal (to_lower s)
even_hex s h = (
  to_lower-all_lower_hex s (ground (arith, h)),
  to_lower-empty s (ground (arith, h)),
  ground (arith, h, text_length-to_lower s),
)

normalize_hex-IsNormal : (value field : String) → OnOk IsNormal (normalize_hex value field)
unfolding normalize_hex
normalize_hex-IsNormal value field = by_test (is_even_hex (strip_0x value)) refl
  where
    by_test :
        (b : Bool)
        → is_even_hex (strip_0x value) ≡ b
        → OnOk IsNormal (
            throw_if (not b) (error (field <> " must be even-length hex")) >>= λ _.
            ok (to_lower (strip_0x value)))
    by_test true e = even_hex (strip_0x value) e
    by_test false e = tt

normal_again : (h field : String) → IsNormal h → normalize_hex h field ≡ ok h
unfolding normalize_hex
normal_again h field (lows, full, even) =
    let tested : is_even_hex h ≡ true = ground (arith, all_hex-lower h lows, full, even) in
    rw (strip_0x-lower h lows, tested, to_lower-fixed h lows)

-- A text that is normalised is lower-case hexadecimal digits, not none and of an even number; and
-- normalising it again, for any field, yields the same text.
pub normalize_hex-again :
    (value field other h : String)
    → normalize_hex value field ≡ ok h
    → IsNormal h × (normalize_hex h other ≡ ok h)
normalize_hex-again value field other h e =
    let normal =
      OnOk_out IsNormal (normalize_hex value field) (normalize_hex-IsNormal value field) e in
    (normal, normal_again h other normal)

-- An argument of 32 bytes: 64 lower-case hexadecimal digits.
abbrev pub IsBytes32 : Arg → Type 0
IsBytes32 (bytes h) = (all_lower_hex h ≡ true) × (text_length h ≡ 64)
IsBytes32 _ = ⊥

-- The `bytes32Arg` of a text, if there is one, has 32 bytes.
pub bytes32_arg-IsBytes32 : (hex field : String) → OnOk IsBytes32 (bytes32_arg hex field)
unfolding bytes32_arg bytes_arg
bytes32_arg-IsBytes32 hex field =
    OnOk->>= IsBytes32 (normalize_hex hex field) _
      λ h e. by_length h (normalize_hex-again hex field field h e) (eqb (text_length h) 64) refl
  where
    by_length :
        (h : String)
        → IsNormal h × (normalize_hex h field ≡ ok h)
        → (b : Bool) → eqb (text_length h) 64 ≡ b
        → OnOk IsBytes32 (
            throw_if (not b) (error (field <> " must be 32 bytes")) >>= λ _.
            normalize_hex h field >>= λ n. ok (bytes n))
    by_length h (normal, again) false e = tt
    by_length h (normal, again) true e = rw again (normal.0, ground (arith, e))
