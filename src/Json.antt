-- ===== src/Json.antt =====
-- JavaScript values that the backend stores as JSON text, and the operations on them that the
-- services use. A TEXT column that holds `JSON.stringify(v)` is modelled by `v` itself. A number is
-- carried by the text that `String` gives for it.
pub mod Laws
use nyxfinance.Common.{
  Bool, true, false, not, ◌||◌, Option, none, some, String, ◌==◌, ◌<>◌, if◌then◌else◌,
}

mutual
  pub data Json : Type 0 where
    null : Json
    bool : Bool → Json
    num : String → Json
    str : String → Json
    arr : Items → Json
    obj : Fields → Json

  pub data Items : Type 0 where
    nil : Items
    cons : Json → Items → Items

  -- The properties of an object in order of insertion, each key once.
  pub data Fields : Type 0 where
    end : Fields
    field : String → Json → Fields → Fields

-- `o[k]`; `none` is `undefined`
unfoldable pub get : String → Fields → Option Json
get k end = none
get k (field j v fs) = if j == k then some v else get k fs

-- `o[k] = v`, and one entry of an object literal
unfoldable pub put : String → Json → Fields → Fields
put k v end = field k v end
put k v (field j w fs) = if j == k then field j v fs else field j w (put k v fs)

-- `{ ...o, ...p }`
unfoldable pub spread : Fields → Fields → Fields
unfolding put
spread o end = o
spread o (field k v fs) = spread (put k v o) fs

-- `v ?? …` sees `null` and `undefined` alike
abbrev pub nullish : Option Json → Option Json
nullish (some null) = none
nullish v = v

-- `Boolean(v)`
abbrev pub truthy : Json → Bool
truthy null = false
truthy (bool b) = b
truthy (num t) = not (t == "0" || t == "NaN")
truthy (str s) = not (s == "")
truthy (arr vs) = true
truthy (obj fs) = true

-- `typeof v === "string" ? v : null`
abbrev pub as_string : Option Json → Option String
as_string (some (str s)) = some s
as_string _ = none

-- A nullable string as a value.
abbrev pub of_option : Option String → Json
of_option none = null
of_option (some s) = str s

-- `join` writes `null` as the empty text.
element : Json → String → String
element null t = ""
element _ t = t

unfoldable mutual
  unfolding element

  -- `String(v)`
  pub to_text : Json → String
  to_text null = "null"
  to_text (bool b) = if b then "true" else "false"
  to_text (num t) = t
  to_text (str s) = s
  to_text (arr vs) = join vs
  to_text (obj fs) = "[object Object]"

  -- `vs.join(",")`
  pub join : Items → String
  join nil = ""
  join (cons v nil) = element v (to_text v)
  join (cons v (cons w vs)) = element v (to_text v) <> "," <> join (cons w vs)
