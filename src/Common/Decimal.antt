-- ===== src/Common/Decimal.antt =====
-- `String(n)` of a natural number.
use Prim.Native.Nat.{ℕ, zero, suc, ◌+◌, ◌-◌, ◌*◌, ◌/◌, ◌%◌, ◌<◌}
use Prim.Native.Char.{code}
use Prim.Native.String.{String, slice}
use mathlib.Core.Path.{◌≡◌, ap, ◌∙◌}
use text.Mathlib.TextLemmas.{nil-append, cons-append}
use native.Mathlib.Omega.{arith}
use mathlib.Core.Logic.{inl, inr}
use nyxfinance.Common.Tests.{ltb, if◌then◌else◌, Bool-cases}
use nyxfinance.Common.Text.{◌<>◌}

digit : ℕ → String
digit n = slice "0123456789" n (n + 1)

-- The digits of a number that is less than the fuel.
unfoldable pub digits : ℕ → ℕ → String
unfolding digit
digits zero n = ""
digits (suc fuel) n =
    let rest = digits fuel (n / 10) in if ltb n 10 then digit n else rest <> digit (n % 10)

unfoldable pub decimal : ℕ → String
unfolding digits
decimal n = digits (suc n) n

-- More fuel than the number changes nothing.
pub digits-fuel : (f g n : ℕ) → n < f → n < g → digits f n ≡ digits g n
unfolding digits
digits-fuel zero g n h k = absurd (omega arith)
digits-fuel (suc f) zero n h k = absurd (omega arith)
digits-fuel (suc f) (suc g) n h k = ground (arith, h, k, digits-fuel f g (n / 10))

-- `Number(text)` of decimal digits, after those read so far.
unfoldable pub read_digits : ℕ → String → ℕ
read_digits read String.[] = read
read_digits read (String.◌∷◌ c s) = read_digits (read * 10 + (code c - 48)) s

read_digits-append :
    (read : ℕ) (s t : String) → read_digits read (s <> t) ≡ read_digits (read_digits read s) t
unfolding read_digits
read_digits-append read String.[] t = ap (read_digits read) (nil-append t)
read_digits-append read (String.◌∷◌ c s) t =
    ap (read_digits read) (cons-append c s t) ∙ read_digits-append (read * 10 + (code c - 48)) s t

read_digits-digit : (read d : ℕ) → d < 10 → read_digits read (digit d) ≡ read * 10 + d
unfolding read_digits digit
read_digits-digit read zero h = omega arith
read_digits-digit read (suc zero) h = omega arith
read_digits-digit read (suc (suc zero)) h = omega arith
read_digits-digit read (suc (suc (suc zero))) h = omega arith
read_digits-digit read (suc (suc (suc (suc zero)))) h = omega arith
read_digits-digit read (suc (suc (suc (suc (suc zero))))) h = omega arith
read_digits-digit read (suc (suc (suc (suc (suc (suc zero)))))) h = omega arith
read_digits-digit read (suc (suc (suc (suc (suc (suc (suc zero))))))) h = omega arith
read_digits-digit read (suc (suc (suc (suc (suc (suc (suc (suc zero)))))))) h = omega arith
read_digits-digit read (suc (suc (suc (suc (suc (suc (suc (suc (suc zero))))))))) h = omega arith
read_digits-digit read (suc (suc (suc (suc (suc (suc (suc (suc (suc (suc d)))))))))) h =
    absurd (omega arith)

read_digits-digits : (f n : ℕ) → n < f → read_digits 0 (digits f n) ≡ n
unfolding digits
read_digits-digits zero n h = absurd (omega arith)
read_digits-digits (suc f) n h = elim (Bool-cases (ltb n 10)) [
  | inl small ↦ rw small (read_digits-digit 0 n (ground arith) ∙ omega arith)
  | inr big ↦ rw big (
      read_digits-append 0 (digits f (n / 10)) (digit (n % 10))
      ∙ ap (λ m. read_digits m (digit (n % 10))) (read_digits-digits f (n / 10) (ground arith))
      ∙ read_digits-digit (n / 10) (n % 10) (omega arith)
      ∙ omega arith)
]

-- A number is read back from its decimal text.
pub read_digits-decimal : (n : ℕ) → read_digits 0 (decimal n) ≡ n
unfolding decimal
read_digits-decimal n = read_digits-digits (suc n) n (omega arith)
