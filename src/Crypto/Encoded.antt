-- ===== src/Crypto/Encoded.antt =====
-- Scalars as hex text: `scalarToHex` of projects/node/src/protocol/node.ts and `decodeScalar` of
-- projects/gateway/src/nodes/wire.ts.
use Prim.Native.Char.{Char, code}
use native.Mathlib.Nat.{pow-zero, pow-suc}
use decentralized_identity_p.Prelude.{
  ℕ, zero, suc, ◌+◌, ◌-◌, ◌/◌, ◌%◌, ◌^◌, ◌≤◌, ◌<◌, ◌≡◌, refl, ap, ◌∙◌, ◌==◌, Bool-cases, inl, inr,
  String, some, List, [], ◌∷◌, ◌++◌, length, length-append, All, arith,
}
use decentralized_identity_p.Crypto.Hex.{
  digits_onto, digits, zeros, pad_start, digit_char, digit_text, scalar_to_hex, hex_value,
  hex_digits, value_from, decode_scalar,
}

abbrev pub IsDigit : ℕ → Type 0
IsDigit d = d < 16

hex_value-digit_char : (d : ℕ) → IsDigit d → hex_value (code (digit_char d)) ≡ some d
unfolding hex_value digit_char
hex_value-digit_char zero h = refl
hex_value-digit_char (suc zero) h = refl
hex_value-digit_char (suc (suc zero)) h = refl
hex_value-digit_char (suc (suc (suc zero))) h = refl
hex_value-digit_char (suc (suc (suc (suc zero)))) h = refl
hex_value-digit_char (suc (suc (suc (suc (suc zero))))) h = refl
hex_value-digit_char (suc (suc (suc (suc (suc (suc zero)))))) h = refl
hex_value-digit_char (suc (suc (suc (suc (suc (suc (suc zero))))))) h = refl
hex_value-digit_char (suc (suc (suc (suc (suc (suc (suc (suc zero)))))))) h = refl
hex_value-digit_char (suc (suc (suc (suc (suc (suc (suc (suc (suc zero))))))))) h = refl
hex_value-digit_char (suc (suc (suc (suc (suc (suc (suc (suc (suc (suc zero)))))))))) h = refl
hex_value-digit_char (suc (suc (suc (suc (suc (suc (suc (suc (suc (suc (suc zero))))))))))) h = refl
hex_value-digit_char (suc (suc (suc (suc (suc (suc (suc (suc (suc (suc (suc (suc zero))))))))))))
      h =
    refl
hex_value-digit_char
      (suc (suc (suc (suc (suc (suc (suc (suc (suc (suc (suc (suc (suc zero))))))))))))) h =
    refl
hex_value-digit_char
      (suc (suc (suc (suc (suc (suc (suc (suc (suc (suc (suc (suc (suc (suc zero)))))))))))))) h =
    refl
hex_value-digit_char
      (suc (suc (suc (suc (suc (suc (suc (suc (suc (suc (suc (suc (suc (suc (suc zero)))))))))))))))
      h =
    refl
hex_value-digit_char
      (suc
        (suc (suc (suc (suc (suc (suc (suc (suc (suc (suc (suc (suc (suc (suc (suc n))))))))))))))))
      h =
    absurd (omega arith)

hex_digits-step :
    (c : Char) (s : String) (d : ℕ) (ds : List ℕ)
    → hex_value (code c) ≡ some d
    → hex_digits s ≡ some ds
    → hex_digits (String.◌∷◌ c s) ≡ some (d ∷ ds)
unfolding hex_digits
hex_digits-step c s d ds h k = rw (h, hex_digits) (rw (k, hex_digits) refl)

pub hex_digits-digit_text : (ds : List ℕ) → All IsDigit ds → hex_digits (digit_text ds) ≡ some ds
unfolding digit_text hex_digits
hex_digits-digit_text [] h = refl
hex_digits-digit_text (d ∷ ds) (h, hs) =
    hex_digits-step (digit_char d) (digit_text ds) d ds (hex_value-digit_char d h)
      (hex_digits-digit_text ds hs)

pub digits_onto-IsDigit :
    (fuel n : ℕ) (out : List ℕ) → All IsDigit out → All IsDigit (digits_onto 16 fuel n out)
unfolding digits_onto
digits_onto-IsDigit zero n out h = (omega arith, h)
digits_onto-IsDigit (suc fuel) n out h = elim (Bool-cases (n / 16 == 0)) [
  | inl last ↦ rw last (omega arith, h)
  | inr more ↦ rw more (digits_onto-IsDigit fuel (n / 16) ((n % 16) ∷ out) (omega arith, h))
]

-- The digits in front of `out` are those of n.
pub value_from-digits_onto :
    (fuel n : ℕ) (out : List ℕ)
    → n ≤ fuel
    → value_from 16 0 (digits_onto 16 fuel n out) ≡ value_from 16 n out
unfolding digits_onto value_from
value_from-digits_onto zero n out h = ap (λ a. value_from 16 a out) (omega arith)
value_from-digits_onto (suc fuel) n out h = elim (Bool-cases (n / 16 == 0)) [
  | inl last ↦ rw last (ap (λ a. value_from 16 a out) (ground arith))
  | inr more ↦ rw more (
      value_from-digits_onto fuel (n / 16) ((n % 16) ∷ out) (omega arith)
      ∙ ap (λ a. value_from 16 a out) (omega arith))
]

-- A number below 16 ^ k has at most k digits, and 0 has one.
length-digits_onto :
    (k fuel n : ℕ) (out : List ℕ)
    → n < 16 ^ suc k
    → length (digits_onto 16 fuel n out) ≤ suc k + length out
unfolding digits_onto
length-digits_onto k zero n out h = omega arith
length-digits_onto zero (suc fuel) n out h = elim (Bool-cases (n / 16 == 0)) [
  | inl last ↦ rw last (omega arith)
  | inr more ↦ absurd (let p = pow-suc 16 0 in let q = pow-zero 16 in ground arith)
]
length-digits_onto (suc k) (suc fuel) n out h = elim (Bool-cases (n / 16 == 0)) [
  | inl last ↦ rw last (omega arith)
  | inr more ↦ rw more (
      let p = pow-suc 16 (suc k) in
      omega (arith, length-digits_onto k fuel (n / 16) ((n % 16) ∷ out) (omega arith)))
]

value_from-zeros : (k : ℕ) (ds : List ℕ) → value_from 16 0 (zeros k ++ ds) ≡ value_from 16 0 ds
unfolding value_from zeros
value_from-zeros zero ds = refl
value_from-zeros (suc k) ds =
    ap (λ a. value_from 16 a (zeros k ++ ds)) (omega arith) ∙ value_from-zeros k ds

zeros-IsDigit : (k : ℕ) (ds : List ℕ) → All IsDigit ds → All IsDigit (zeros k ++ ds)
unfolding zeros
zeros-IsDigit zero ds h = h
zeros-IsDigit (suc k) ds h = (omega arith, zeros-IsDigit k ds h)

length-zeros : (k : ℕ) → length (zeros k) ≡ k
unfolding zeros
length-zeros zero = refl
length-zeros (suc k) = ap suc (length-zeros k)

length-pad_start :
    (width : ℕ) (ds : List ℕ) → length ds ≤ width → length (pad_start width ds) ≡ width
unfolding pad_start
length-pad_start width ds h =
    omega (arith, length-append (zeros (width - length ds)) ds, length-zeros (width - length ds))

decode_scalar-read :
    (s : String) (ds : List ℕ) (n : ℕ)
    → hex_digits s ≡ some ds
    → length ds ≡ 64
    → value_from 16 0 ds ≡ n
    → decode_scalar s ≡ some n
unfolding decode_scalar
decode_scalar-read s ds n read long value = rw (read, decode_scalar) (rw (long, value) refl)

-- The digits of what `scalarToHex` writes: 64 of them, and their value.
pub scalar_to_hex-digits :
    (n : ℕ)
    → n < 16 ^ 64
    → (ds : List ℕ) × (hex_digits (scalar_to_hex n) ≡ some ds)
      × (length ds ≡ 64)
      × (value_from 16 0 ds ≡ n)
unfolding scalar_to_hex digits pad_start value_from
scalar_to_hex-digits n h =
    let ds = digits_onto 16 n n [] in
    let short = length-digits_onto 63 n n [] h in
    let padded : length (zeros (64 - length ds) ++ ds) ≡ 64 =
      length-pad_start 64 ds (omega arith) in
    let value : value_from 16 0 (zeros (64 - length ds) ++ ds) ≡ n =
      value_from-zeros (64 - length ds) ds ∙ value_from-digits_onto n n [] (omega arith) in
    let read =
      hex_digits-digit_text (zeros (64 - length ds) ++ ds)
        (zeros-IsDigit _ ds (digits_onto-IsDigit n n [] tt)) in
    (zeros (64 - length ds) ++ ds, read, padded, value)

-- A scalar below 16 ^ 64 survives the wire: the gateway's `decodeScalar` reads what the node's
-- `scalarToHex` writes, 64 lowercase digits, as the same number.
pub decode_scalar-scalar_to_hex : (n : ℕ) → n < 16 ^ 64 → decode_scalar (scalar_to_hex n) ≡ some n
decode_scalar-scalar_to_hex n h =
    let (ds, read, long, value) = scalar_to_hex-digits n h in
    decode_scalar-read _ ds n read long value
