-- ===== src/Crypto/Hex.antt =====
-- Scalars as text: `scalarToHex` of projects/node/src/protocol/node.ts, which writes 64 hex digits,
-- the highest first, and `decodeScalar` of projects/gateway/src/nodes/wire.ts, which reads them.
use Prim.Native.Char.{Char, code}
use decentralized_identity_p.Prelude.{
  ℕ, zero, suc, ◌+◌, ◌-◌, ◌*◌, ◌/◌, ◌%◌, String, ◌&&◌, ◌==◌, leb, Option, none, some, List, [], ◌∷◌,
  ◌++◌, length, if◌then◌else◌,
}

-- The digits of `n.toString(base)`, the highest first, in front of those already written; 0 has
-- one digit. A round takes one digit off, so that `n` rounds are enough after the first.
unfoldable pub digits_onto : ℕ → ℕ → ℕ → List ℕ → List ℕ
digits_onto base zero n out = (n % base) ∷ out
digits_onto base (suc fuel) n out =
    let rest = digits_onto base fuel (n / base) ((n % base) ∷ out) in
    if n / base == 0 then (n % base) ∷ out else rest

unfoldable pub digits : ℕ → ℕ → List ℕ
unfolding digits_onto
digits base n = digits_onto base n n []

unfoldable pub zeros : ℕ → List ℕ
zeros zero = []
zeros (suc n) = 0 ∷ zeros n

-- `padStart(width, "0")`.
unfoldable pub pad_start : ℕ → List ℕ → List ℕ
unfolding zeros
pad_start width ds = zeros (width - length ds) ++ ds

unfoldable pub digit_char : ℕ → Char
digit_char d =
    if d == 0
    then "0"
    else if d == 1
    then "1"
    else if d == 2
    then "2"
    else if d == 3
    then "3"
    else if d == 4
    then "4"
    else if d == 5
    then "5"
    else if d == 6
    then "6"
    else if d == 7
    then "7"
    else if d == 8
    then "8"
    else if d == 9
    then "9"
    else if d == 10
    then "a"
    else if d == 11
    then "b"
    else if d == 12
    then "c"
    else if d == 13
    then "d"
    else if d == 14
    then "e"
    else "f"

unfoldable pub digit_text : List ℕ → String
digit_text [] = ""
digit_text (d ∷ ds) = String.◌∷◌ (digit_char d) (digit_text ds)

-- `n.toString()`.
unfoldable pub decimal : ℕ → String
unfolding digits digit_text
decimal n = digit_text (digits 10 n)

unfoldable pub scalar_to_hex : ℕ → String
unfolding digits pad_start
scalar_to_hex scalar = digit_text (pad_start 64 (digits 16 scalar))

-- The value of a lowercase hex digit, `none` for any other character.
unfoldable pub hex_value : ℕ → Option ℕ
hex_value c =
    if leb b'0' c && leb c b'9'
    then some (c - b'0')
    else if leb b'a' c && leb c b'f'
    then some (c - b'a' + 10)
    else none

-- The digits of a text that consists of lowercase hex digits.
unfoldable pub hex_digits : String → Option (List ℕ)
hex_digits String.[] = some []
hex_digits (String.◌∷◌ c s) = elim (hex_value (code c)) [
  | none ↦ none
  | some d ↦ elim (hex_digits s) [ none ↦ none | some ds ↦ some (d ∷ ds) ]
]

-- `BigInt("0x" + digits)`, behind the digits read so far.
unfoldable pub value_from : ℕ → ℕ → List ℕ → ℕ
value_from base acc [] = acc
value_from base acc (d ∷ ds) = value_from base (acc * base + d) ds

-- `/^[0-9a-f]{64}$/` and the value, `none` where the gateway throws.
unfoldable pub decode_scalar : String → Option ℕ
unfolding hex_digits value_from
decode_scalar s = elim (hex_digits s) [
  | none ↦ none
  | some ds ↦ if length ds == 64 then some (value_from 16 0 ds) else none
]
