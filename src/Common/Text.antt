-- ===== src/Common/Text.antt =====
-- Texts: concatenation, as template literals and `+` write it.
use Prim.Native.String
use Prim.Native.String.{String}
use Prim.Native.Char.{Char, code}
use mathlib.Core.Bool.{Bool, ◌&&◌, ◌||◌}
use text.Mathlib.Text.{◌==◌}
use mathlib.Core.List.{List, [], ◌∷◌}
use nyxfinance.Common.Tests.{eqb, leb, if◌then◌else◌}

infixr 65 ◌<>◌
abbrev pub ◌<>◌ : String → String → String
s <> t = String.◌++◌ s t

-- The Boolean equality of characters.
abbrev pub same_char : Char → Char → Bool
same_char c d = eqb (code c) (code d)

abbrev letters : List (Char × Char)
letters =
    ("A", "a")
    ∷ ("B", "b")
    ∷ ("C", "c")
    ∷ ("D", "d")
    ∷ ("E", "e")
    ∷ ("F", "f")
    ∷ ("G", "g")
    ∷ ("H", "h")
    ∷ ("I", "i")
    ∷ ("J", "j")
    ∷ ("K", "k")
    ∷ ("L", "l")
    ∷ ("M", "m")
    ∷ ("N", "n")
    ∷ ("O", "o")
    ∷ ("P", "p")
    ∷ ("Q", "q")
    ∷ ("R", "r")
    ∷ ("S", "s")
    ∷ ("T", "t")
    ∷ ("U", "u")
    ∷ ("V", "v")
    ∷ ("W", "w")
    ∷ ("X", "x")
    ∷ ("Y", "y")
    ∷ ("Z", "z")
    ∷ []

unfoldable pub lower_in : List (Char × Char) → Char → Char
lower_in [] c = c
lower_in ((u, l) ∷ rest) c = if same_char c u then l else lower_in rest c

-- One letter of `toLowerCase()`; other alphabets than the Latin one are left as they are.
unfoldable pub lower : Char → Char
unfolding lower_in
lower = lower_in letters

unfoldable pub to_lower : String → String
unfolding lower
to_lower String.[] = ""
to_lower (String.◌∷◌ c s) = String.◌∷◌ (lower c) (to_lower s)

-- `s.replace(/\/$/, "")`
unfoldable pub strip_slash : String → String
strip_slash String.[] = ""
strip_slash (String.◌∷◌ c String.[]) = if eqb (code c) b'/' then "" else String.◌∷◌ c ""
strip_slash (String.◌∷◌ c (String.◌∷◌ d s)) = String.◌∷◌ c (strip_slash (String.◌∷◌ d s))

unfoldable pub upper_in : List (Char × Char) → Char → Char
upper_in [] c = c
upper_in ((u, l) ∷ rest) c = if same_char c l then u else upper_in rest c

-- One letter of `toUpperCase()`, of the Latin alphabet.
unfoldable pub upper : Char → Char
unfolding upper_in
upper = upper_in letters

unfoldable pub to_upper : String → String
unfolding upper
to_upper String.[] = ""
to_upper (String.◌∷◌ c s) = String.◌∷◌ (upper c) (to_upper s)

-- White space, of the ASCII characters.
abbrev pub is_space : Char → Bool
is_space c = eqb (code c) 32 || (leb 9 (code c) && leb (code c) 13)

-- The text without the characters of a kind at its start.
unfoldable pub drop_start : (Char → Bool) → String → String
drop_start p String.[] = ""
drop_start p (String.◌∷◌ c s) = let rest = drop_start p s in if p c then rest else String.◌∷◌ c s

abbrev keep_unless_last : (Char → Bool) → Char → String → String
keep_unless_last p c rest = if p c && rest == "" then "" else String.◌∷◌ c rest

-- The text without the characters of a kind at its end.
unfoldable pub drop_end : (Char → Bool) → String → String
drop_end p String.[] = ""
drop_end p (String.◌∷◌ c s) = keep_unless_last p c (drop_end p s)

-- `s.trim()`
unfoldable pub trim : String → String
unfolding drop_start drop_end
trim s = drop_end is_space (drop_start is_space s)

-- Every character that is not of a kind, replaced by another.
unfoldable pub replace_others : (Char → Bool) → Char → String → String
replace_others p d String.[] = ""
replace_others p d (String.◌∷◌ c s) = String.◌∷◌ (if p c then c else d) (replace_others p d s)
