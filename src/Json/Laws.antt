-- ===== src/Json/Laws.antt =====
-- Reading a property after a write or a spread.
use nyxfinance.Common.{
  Option, none, some, String, ◌==◌, ◌≡◌, refl, if◌then◌else◌, arith, eq_iff, or_else,
}
use nyxfinance.Json.{Json, Fields, end, field, get, put, spread}

pub get-put :
    (k j : String) (v : Json) (fs : Fields)
    → get j (put k v fs) ≡ (if k == j then some v else get j fs)
unfolding get put
get-put k j v end = refl
get-put k j v (field i w fs) = ground (arith, eq_iff k j, eq_iff i k, eq_iff i j, get-put k j v fs)

-- The last property named k of an object literal.
unfoldable pub last : String → Fields → Option Json
last k end = none
last k (field j v fs) = or_else (last k fs) (if j == k then some v else none)

pub get-spread : (k : String) (o p : Fields) → get k (spread o p) ≡ or_else (last k p) (get k o)
unfolding spread last
get-spread k o end = refl
get-spread k o (field j v fs) = ground (arith, get-spread k (put j v o) fs, get-put j k v o)
