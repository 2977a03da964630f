-- ===== src/Js.antt =====
-- JavaScript values, as `JSON.parse` returns them, with `undefined` for what a read of an absent
-- property gives. A number is kept in thousandths: `num z m` is z + m / 1000, so that a number that
-- is no integer is told from one that is. Numbers too large for a double are not modelled.
use decentralized_identity_p.Prelude.{
  Option, none, some, true, false, not, eqb_ℤ, pos, ◌&&◌, ◌==◌, is_empty, ℕ, ℤ, String, Bool,
  str_eq, if◌then◌else◌, List, [], ◌∷◌,
}

mutual
  pub data Js : Type 0 where
    undefined null : Js
    bool : Bool → Js
    num : ℤ → ℕ → Js
    str : String → Js
    arr : Items → Js
    obj : Fields → Js

  -- The elements of an array.
  pub data Items : Type 0 where
    nil : Items
    cons : Js → Items → Items

  -- The properties of an object, in insertion order; no name stands twice.
  pub data Fields : Type 0 where
    end : Fields
    field : String → Js → Fields → Fields

-- `value[name]`.
abbrev pub get : String → Fields → Js
get name end = undefined
get name (field k v fs) = if str_eq k name then v else get name fs

-- A JSON literal of an integer.
abbrev pub int : ℤ → Js
int z = num z 0

abbrev pub items : List Js → Items
items [] = nil
items (v ∷ vs) = cons v (items vs)

-- `value.name`: `none` is the TypeError of a read from `null` or `undefined`. A value that is no
-- object has none of the properties that the program reads.
abbrev pub read : String → Js → Option Js
read name undefined = none
read name null = none
read name (obj fs) = some (get name fs)
read name (bool b) = some undefined
read name (num z m) = some undefined
read name (str s) = some undefined
read name (arr vs) = some undefined

-- What a test `if (value)` sees.
abbrev pub is_truthy : Js → Bool
is_truthy undefined = false
is_truthy null = false
is_truthy (bool b) = b
is_truthy (num z m) = not (eqb_ℤ z (pos 0) && m == 0)
is_truthy (str s) = not (is_empty s)
is_truthy (arr vs) = true
is_truthy (obj fs) = true

-- `value === text`.
abbrev pub is_text : String → Js → Bool
is_text t (str s) = str_eq s t
is_text t _ = false
