-- ===== src/Auditor/Merging.antt =====
-- `mergeDefined` of backend/src/routes/auditor.ts: which of its sources gives a field.
use nyxfinance.Common.{
  Bool, true, false, Option, none, some, String, List, [], ◌∷◌, ◌==◌, ◌≡◌, refl, sym, ap, ◌∙◌,
  if◌then◌else◌, or_else, arith,
}
use nyxfinance.Json.{Json, Fields, end, field, get, put}
use nyxfinance.Json.Laws.{get-put}
use nyxfinance.Auditor.{is_defined, merge_into, merge_all, merge_defined}

-- The last value of a key in an object that is neither null nor the empty text.
abbrev pub defined_in : String → Fields → Option Json
defined_in k end = none
defined_in k (field j v rest) =
    or_else (defined_in k rest) (if j == k then (if is_defined v then some v else none) else none)

-- The value that the last of the sources with such a value gives.
abbrev pub winner : String → List Fields → Option Json
winner k [] = none
winner k (source ∷ sources) = or_else (winner k sources) (defined_in k source)

or_else_assoc : (a b c : Option Json) → or_else (or_else a b) c ≡ or_else a (or_else b c)
or_else_assoc none b c = refl
or_else_assoc (some v) b c = refl

get-merge_into :
    (k : String) (merged source : Fields)
    → get k (merge_into merged source) ≡ or_else (defined_in k source) (get k merged)
unfolding merge_into
get-merge_into k merged end = refl
get-merge_into k merged (field j v rest) =
    get-merge_into k (if is_defined v then put j v merged else merged) rest
    ∙ ap (or_else (defined_in k rest)) (entry (is_defined v))
    ∙ sym (or_else_assoc (defined_in k rest) _ (get k merged))
  where
    entry :
        (b : Bool)
        → get k (if b then put j v merged else merged)
          ≡ or_else (if j == k then (if b then some v else none) else none) (get k merged)
    entry true = ground (arith, get-put j k v merged)
    entry false = ground arith

get-merge_all :
    (k : String) (merged : Fields) (sources : List Fields)
    → get k (merge_all merged sources) ≡ or_else (winner k sources) (get k merged)
unfolding merge_all
get-merge_all k merged [] = refl
get-merge_all k merged (source ∷ sources) =
    get-merge_all k (merge_into merged source) sources
    ∙ ap (or_else (winner k sources)) (get-merge_into k merged source)
    ∙ sym (or_else_assoc (winner k sources) (defined_in k source) (get k merged))

-- The value of a key in what is merged is the one that the last source gives which has a value for it that is
-- neither null nor empty, and there is none if no source has one.
pub get-merge_defined :
    (k : String) (sources : List Fields) → get k (merge_defined sources) ≡ winner k sources
unfolding get
get-merge_defined k sources = get-merge_all k end sources ∙ tidy (winner k sources)
  where
    tidy : (o : Option Json) → or_else o none ≡ o
    tidy none = refl
    tidy (some v) = refl
