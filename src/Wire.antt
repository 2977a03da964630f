-- ===== src/Wire.antt =====
-- projects/node/src/wire.ts, the readers of single values: each checks the shape of one JSON value
-- or throws a `WireError`, which says where in the body the value stands and what is wrong with it.
pub mod Request
pub mod Encode
pub mod Shapes
pub mod RoundTrip
pub mod Sound
pub mod Response
pub mod Answered
use Prim.Native.Char.{code}
use decentralized_identity_p.Prelude.{
  ℕ, ℤ, String, Bool, true, not, ◌&&◌, ◌||◌, Option, none, some, List, [], ◌∷◌, ◌++◌, ◌==◌, leb,
  length, is_empty, if◌then◌else◌, Result, ok, err, ◌>>=◌, ◌>>◌, throw_if,
}
use decentralized_identity_p.Js.{Js, undefined, num, str, obj, Fields}
use decentralized_identity_p.Runtime.{Bytes, Base64Url}

-- One step of the path in an error's text: `.name` or `[i]`.
pub data Key : Type 0 where
  name : String → Key
  index : ℕ → Key

abbrev pub Place : Type 0
Place = List Key

pub data Problem : Type 0 where
  not_object not_string empty not_number not_integer not_base64url not_array not_grant not_scalar :
      Problem
  wrong_length : ℕ → ℕ → Problem
  same_rounds : Problem
  no_entry : ℤ → Problem

pub record WireError : Type 0 where
  pub place : Place
  pub problem : Problem

abbrev pub Reads : Type 0 → Type 0
Reads A = Result WireError A

abbrev pub wire_error : {A : Type 0} → Place → Problem → Reads A
wire_error place problem = err (record { place = place; problem = problem })

infixl 66 ◌/◌
-- `${where}.name`.
abbrev pub ◌/◌ : Place → String → Place
place / key = place ++ (name key ∷ [])

unfoldable pub require_object : Place → Js → Reads Fields
require_object place (obj fs) = ok fs
require_object place _ = wire_error place not_object

unfoldable pub require_string : Place → Js → Reads String
require_string place (str s) = ok s
require_string place _ = wire_error place not_string

unfoldable pub require_non_empty_string : Place → Js → Reads String
unfolding require_string
require_non_empty_string place value = do
  s ← require_string place value
  if is_empty s then wire_error place empty else ok s

unfoldable pub optional_string : Place → Js → Reads (Option String)
unfolding require_string
optional_string place undefined = ok none
optional_string place value = do s ← require_string place value; ok (some s)

-- A number of the model is finite, and it is an integer if it has no thousandths.
unfoldable pub require_number : Place → Js → Reads (ℤ × ℕ)
require_number place (num z m) = ok (z, m)
require_number place _ = wire_error place not_number

unfoldable pub require_integer : Place → Js → Reads ℤ
unfolding require_number
require_integer place value = do
  (z, m) ← require_number place value
  if m == 0 then ok z else wire_error place not_integer

-- A character of `[A-Za-z0-9_-]`.
abbrev pub is_base64url_code : ℕ → Bool
is_base64url_code c =
    (leb b'A' c && leb c b'Z')
    || (leb b'a' c && leb c b'z')
    || (leb b'0' c && leb c b'9')
    || c == b'_'
    || c == b'-'

-- `/^[A-Za-z0-9_-]*$/.test(s)`.
unfoldable pub is_base64url : String → Bool
is_base64url String.[] = true
is_base64url (String.◌∷◌ c s) = is_base64url_code (code c) && is_base64url s

-- `decodePoint` at its default length of 32 bytes.
unfoldable pub decode_point : Base64Url → Place → Js → Reads Bytes
unfolding require_string
decode_point b64 place value = do
  s ← require_string place value
  throw_if (not (is_base64url s)) (record { place = place; problem = not_base64url })
  let bytes = b64.decode s
  if length bytes == 32 then ok bytes else wire_error place (wrong_length 32 (length bytes))
