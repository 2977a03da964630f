-- ===== src/Runtime.antt =====
-- What the program calls and does not implement: Node's `Buffer`, `TextEncoder` and `JSON`, and the
-- primitives of the @noble libraries. Each is a parameter of the definitions that use it.
use decentralized_identity_p.Prelude.{Bool, ℤ, ℕ, ◌<◌, String, Option, List, All}
use decentralized_identity_p.Js.{Js}

abbrev pub Bytes : Type 0
Bytes = List ℕ

abbrev pub IsBytes : Bytes → Type 0
IsBytes = All (λ b. b < 256)

-- `Buffer.from(b).toString("base64url")` and `Buffer.from(s, "base64url")`, which never throws.
pub record Base64Url : Type 0 where
  pub encode : Bytes → String
  pub decode : String → Bytes

-- The rest of what the runtime and the @noble libraries provide.
pub record Runtime : Type 0 where
  pub base64url : Base64Url
  -- `TextEncoder.encode` and `Buffer.toString("utf8")`.
  pub utf8_encode : String → Bytes
  pub utf8_decode : Bytes → String
  -- `JSON.parse`, `none` if it throws, and `JSON.stringify` of a value that is no object.
  pub json_parse : String → Option Js
  pub json_stringify : Js → String
  pub to_upper_case : String → String
  -- What arithmetic makes of a text, an array or an object, in thousandths; `none` is `NaN`.
  pub coerce : Js → Option ℤ
  -- `Buffer.from(v, "base64url")` of a value that is no text, `none` if it throws.
  pub buffer_of : Js → Option Bytes
  pub sha256 : Bytes → Bytes
  pub sha512 : Bytes → Bytes
  -- `ed25519.verify(signature, message, publicKey)`, `none` if it throws.
  pub ed25519_verify : Bytes → Bytes → Bytes → Option Bool
