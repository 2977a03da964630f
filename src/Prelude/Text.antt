-- ===== src/Prelude/Text.antt =====
-- Texts: equality, emptiness, and maps whose keys are texts.
use Prim.Native.String
use Prim.Native.String.{String}
use mathlib.Core.Path.{◌≡◌, refl}
use mathlib.Core.Bool.{Bool, true, false, ◌||◌}
use mathlib.Core.Option.{Option, none, some}
use mathlib.Core.List.{List, [], ◌∷◌}
use native.Mathlib.Omega.{arith}
use text.Mathlib.Text.{◌==◌}
use text.Mathlib.TextLemmas.{nil-append, cons-append}
use Prim.Native.Char.{Char, code}
use mathlib.Core.Logic.{◌≢◌}
use text.Mathlib.TextEquality.{eq_iff}
use decentralized_identity_p.Prelude.Tests.{◌==◌ as ◌==ℕ◌, if◌then◌else◌}

abbrev pub str_eq : String → String → Bool
str_eq s t = s == t

abbrev pub is_empty : String → Bool
is_empty String.[] = true
is_empty (String.◌∷◌ c s) = false

-- `words.includes(word)` of an array, `words.has(word)` of a `Set`.
unfoldable pub includes : String → List String → Bool
includes word [] = false
includes word (w ∷ ws) = str_eq w word || includes word ws

-- A JavaScript `Map` with text keys, as an association list.
abbrev pub Entries : Type 0 → Type 0
Entries V = List (String × V)

module _ {V : Type 0} where
  -- `map.get(key)`.
  unfoldable pub lookup : String → Entries V → Option V
  lookup key [] = none
  lookup key (entry ∷ rest) = if str_eq entry.0 key then some entry.1 else lookup key rest

  -- `map.set(key, value)`, in the place of an entry that is there.
  unfoldable pub insert : String → V → Entries V → Entries V
  insert key value [] = (key, value) ∷ []
  insert key value (entry ∷ rest) =
      let later = insert key value rest in
      if str_eq entry.0 key then (key, value) ∷ rest else entry ∷ later

  -- `map.delete(key)`: every entry under the key goes.
  unfoldable pub erase : String → Entries V → Entries V
  erase key [] = []
  erase key (entry ∷ rest) =
      let later = erase key rest in if str_eq entry.0 key then later else entry ∷ later

  pub lookup-insert :
      (key other : String) (value : V) (entries : Entries V)
      → lookup other (insert key value entries)
        ≡ (if str_eq key other then some value else lookup other entries)
  unfolding lookup insert
  lookup-insert key other value [] = refl
  lookup-insert key other value (entry ∷ rest) =
      let later = lookup-insert key other value rest in
      ground (arith, eq_iff entry.0 key, eq_iff entry.0 other, eq_iff key other, later)

  pub lookup-erase :
      (key other : String) (entries : Entries V)
      → lookup other (erase key entries) ≡ (if str_eq key other then none else lookup other entries)
  unfolding lookup erase
  lookup-erase key other [] = ground arith
  lookup-erase key other (entry ∷ rest) =
      let later = lookup-erase key other rest in
      ground (arith, eq_iff entry.0 key, eq_iff entry.0 other, eq_iff key other, later)

-- `s.split(".")`, which is never empty.
abbrev push_first : Char → List String → List String
push_first c [] = (String.◌∷◌ c String.[]) ∷ []
push_first c (w ∷ ws) = (String.◌∷◌ c w) ∷ ws

unfoldable pub split_dot : String → List String
split_dot String.[] = "" ∷ []
split_dot (String.◌∷◌ c s) =
    let rest = split_dot s in if code c ==ℕ b'.' then "" ∷ rest else push_first c rest

abbrev pub HasNoDot : String → Type 0
HasNoDot String.[] = Unit
HasNoDot (String.◌∷◌ c s) = (code c ≢ b'.') × HasNoDot s

infixr 65 ◌^^◌
-- The template text `${s}${t}`.
abbrev pub ◌^^◌ : String → String → String
s ^^ t = String.◌++◌ s t

pub split_dot-HasNoDot : (s : String) → HasNoDot s → split_dot s ≡ s ∷ []
unfolding split_dot
split_dot-HasNoDot String.[] h = refl
split_dot-HasNoDot (String.◌∷◌ c s) h = ground (arith, split_dot-HasNoDot s h.1)

dot_first : (t : String) → split_dot ("." ^^ t) ≡ "" ∷ split_dot t
unfolding split_dot
dot_first t = rw cons-append (rw nil-append)

pub split_dot-append : (s t : String) → HasNoDot s → split_dot (s ^^ ("." ^^ t)) ≡ s ∷ split_dot t
unfolding split_dot
split_dot-append String.[] t h = rw nil-append (dot_first t)
split_dot-append (String.◌∷◌ c s) t h = rw cons-append (ground (arith, split_dot-append s t h.1))
