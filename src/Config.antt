-- ===== src/Config.antt =====
-- The readers of the files that the dealer writes: the helpers of projects/node/src/config.ts, which
-- projects/gateway/src/config.ts has too, and `bytesToHex` of projects/dealer/src/hex.ts, which is in
-- projects/gateway/src/config.ts and projects/node/src/index.ts too. The path in a message is left out.
pub mod Hex
use Prim.Native.Char.{code}
use decentralized_identity_p.Prelude.{
  ℕ, ◌+◌, ◌-◌, ◌*◌, ℤ, String, not, ◌&&◌, ◌==◌, leb, Option, none, some, List, [], ◌∷◌, length,
  is_empty, if◌then◌else◌, ◌^^◌, Result, ok, err, ◌>>=◌, ◌>>◌, throw_if, or_throw,
}
use decentralized_identity_p.Js.{Js, num, str, obj, Fields}
use decentralized_identity_p.Runtime.{Bytes}
use decentralized_identity_p.Crypto.Hex.{digits, pad_start, digit_text, value_from}
use decentralized_identity_p.Wire.{Place, name}

pub data ConfigProblem : Type 0 where
  not_json not_object not_string not_integer not_hex not_array : ConfigProblem
  wrong_length : ℕ → ConfigProblem
  bad_version bad_node_id bad_threshold node_id_above_total wrong_share_id duplicate_username :
      ConfigProblem
  bad_port bad_issuer : ConfigProblem

-- `ConfigError`: where in the file, and what is wrong.
pub record ConfigError : Type 0 where
  pub place : Place
  pub problem : ConfigProblem

abbrev pub Configures : Type 0 → Type 0
Configures A = Result ConfigError A

abbrev pub fail : {A : Type 0} → Place → ConfigProblem → Configures A
fail place problem = err (record { place = place; problem = problem })

abbrev pub at_top : String → Place
at_top key = name key ∷ []

unfoldable pub plain_object : Place → Js → Configures Fields
plain_object place (obj fs) = ok fs
plain_object place _ = fail place not_object

unfoldable pub config_string : Place → Js → Configures String
config_string place (str s) = if is_empty s then fail place not_string else ok s
config_string place _ = fail place not_string

unfoldable pub config_integer : Place → Js → Configures ℤ
config_integer place (num z m) = if m == 0 then ok z else fail place not_integer
config_integer place _ = fail place not_integer

-- The value of a hex digit of either case.
unfoldable pub any_hex_value : ℕ → Option ℕ
any_hex_value c =
    if leb b'0' c && leb c b'9'
    then some (c - b'0')
    else if leb b'a' c && leb c b'f'
    then some (c - b'a' + 10)
    else if leb b'A' c && leb c b'F'
    then some (c - b'A' + 10)
    else none

-- `/^[0-9a-fA-F]+$/` of a text that is not empty, and the digits.
unfoldable pub any_hex_digits : String → Option (List ℕ)
any_hex_digits String.[] = some []
any_hex_digits (String.◌∷◌ c s) = elim (any_hex_value (code c)) [
  | none ↦ none
  | some d ↦ elim (any_hex_digits s) [ none ↦ none | some ds ↦ some (d ∷ ds) ]
]

-- `Number.parseInt(hex.slice(i * 2, i * 2 + 2), 16)` for each i.
unfoldable pub pairs_of : List ℕ → Bytes
pairs_of [] = []
pairs_of (a ∷ []) = []
pairs_of (a ∷ b ∷ ds) = (a * 16 + b) ∷ pairs_of ds

-- `decodeBytes`.
unfoldable pub config_bytes : Place → Js → ℕ → Configures Bytes
config_bytes place value byte_length = do
  hex ← config_string place value
  ds ← or_throw (any_hex_digits hex) (record { place = place; problem = not_hex })
  throw_if (not (length ds == byte_length * 2))
      (record { place = place; problem = wrong_length (length ds) })
  ok (pairs_of ds)

-- `decodeScalar`.
unfoldable pub config_scalar : Place → Js → Configures ℕ
config_scalar place value = do
  hex ← config_string place value
  ds ← or_throw (any_hex_digits hex) (record { place = place; problem = not_hex })
  throw_if (not (length ds == 64)) (record { place = place; problem = wrong_length (length ds) })
  ok (value_from 16 0 ds)

-- `bytesToHex`.
unfoldable pub bytes_to_hex : Bytes → String
bytes_to_hex [] = ""
bytes_to_hex (b ∷ bs) = digit_text (pad_start 2 (digits 16 b)) ^^ bytes_to_hex bs
