-- ===== src/Config/Hex.antt =====
-- What is written in hex is read back: projects/dealer/src/hex.ts and projects/node/src/config.ts.
use text.Mathlib.TextLemmas.{nil-append, cons-append}
use Prim.Native.Char.{code}
use decentralized_identity_p.Prelude.{
  ℕ, zero, suc, ◌+◌, ◌*◌, ◌/◌, ◌%◌, ◌^◌, ◌<◌, ◌≡◌, refl, ◌==◌, ==_iff, Bool-cases, Option-cases,
  inl, inr, String, false, true, some, List, [], ◌∷◌, length, All, ok, ◌>>=◌, arith,
}
use decentralized_identity_p.Js.{str}
use decentralized_identity_p.Runtime.{Bytes, IsBytes}
use decentralized_identity_p.Crypto.Hex.{
  digits_onto, digits, zeros, pad_start, digit_text, scalar_to_hex, hex_value, hex_digits,
}
use decentralized_identity_p.Crypto.Encoded.{IsDigit, hex_digits-digit_text, scalar_to_hex-digits}
use decentralized_identity_p.Wire.{Place}
use decentralized_identity_p.Config.{
  any_hex_value, any_hex_digits, pairs_of, config_string, config_bytes, config_scalar, bytes_to_hex,
}

any_hex_value-hex_value : (c d : ℕ) → hex_value c ≡ some d → any_hex_value c ≡ some d
unfolding any_hex_value hex_value
any_hex_value-hex_value c d h = ground arith

-- What is read as lowercase digits is read as digits of either case.
any_hex_digits-hex_digits :
    (s : String) (ds : List ℕ) → hex_digits s ≡ some ds → any_hex_digits s ≡ some ds
unfolding any_hex_digits hex_digits
any_hex_digits-hex_digits String.[] ds h = h
any_hex_digits-hex_digits (String.◌∷◌ c s) ds h = elim (Option-cases (hex_value (code c))) [
  | inl bad ↦ absurd (let h' = rw (bad, hex_digits) at h in cc)
  | inr (d, good) ↦ elim (Option-cases (hex_digits s)) [
    | inl bad ↦ absurd (let h' = rw (good, bad, hex_digits) at h in cc)
    | inr (rest, good') ↦
        let h' = rw (good, good', hex_digits) at h in
        rw (any_hex_value-hex_value (code c) d good, any_hex_digits)
          (rw (any_hex_digits-hex_digits s rest good', any_hex_digits) h')
  ]
]

-- The last digit of a number: no round of the loop is left.
digits_onto-last : (fuel n : ℕ) (out : List ℕ) → n < 16 → digits_onto 16 fuel n out ≡ (n % 16) ∷ out
unfolding digits_onto
digits_onto-last zero n out h = refl
digits_onto-last (suc fuel) n out h =
    let last : (n / 16 == 0) ≡ true = (==_iff (n / 16) 0).1 (omega arith) in rw last refl

two_digits-large :
    (b : ℕ) → (b / 16 == 0) ≡ false → b < 256 → pad_start 2 (digits 16 b) ≡ (b / 16) ∷ (b % 16) ∷ []
unfolding pad_start digits digits_onto zeros
two_digits-large zero large h = absurd (cc)
two_digits-large (suc n) large h =
    let high : (suc n / 16) % 16 ≡ suc n / 16 = omega arith in
    rw large (rw (digits_onto-last n (suc n / 16) ((suc n % 16) ∷ []) (omega arith), high) refl)

two_digits : (b : ℕ) → b < 256 → pad_start 2 (digits 16 b) ≡ (b / 16) ∷ (b % 16) ∷ []
unfolding pad_start digits zeros
two_digits b h = elim (Bool-cases (b / 16 == 0)) [
  | inl small ↦
      let low : b / 16 ≡ 0 = (==_iff (b / 16) 0).0 small in
      rw (digits_onto-last b b [] (omega arith), low) refl
  | inr large ↦ two_digits-large b large h
]

-- The digits of bytes, two to each.
digits_of : Bytes → List ℕ
digits_of [] = []
digits_of (b ∷ bs) = (b / 16) ∷ (b % 16) ∷ digits_of bs

digits_of-IsDigit : (bs : Bytes) → IsBytes bs → All IsDigit (digits_of bs)
unfolding digits_of
digits_of-IsDigit [] h = tt
digits_of-IsDigit (b ∷ bs) (h, hs) = (omega arith, (omega arith, digits_of-IsDigit bs hs))

length-digits_of : (bs : Bytes) → length (digits_of bs) ≡ length bs * 2
unfolding digits_of
length-digits_of [] = omega arith
length-digits_of (b ∷ bs) = omega (arith, length-digits_of bs)

pairs_of-digits_of : (bs : Bytes) → IsBytes bs → pairs_of (digits_of bs) ≡ bs
unfolding pairs_of digits_of
pairs_of-digits_of [] h = refl
pairs_of-digits_of (b ∷ bs) (h, hs) =
    let back : b / 16 * 16 + b % 16 ≡ b = omega arith in rw (back, pairs_of-digits_of bs hs) refl

bytes_to_hex-digits_of : (bs : Bytes) → IsBytes bs → bytes_to_hex bs ≡ digit_text (digits_of bs)
unfolding bytes_to_hex digits_of digit_text
bytes_to_hex-digits_of [] h = refl
bytes_to_hex-digits_of (b ∷ bs) (h, hs) =
    rw (two_digits b h, bytes_to_hex-digits_of bs hs) (simp (cons-append, nil-append))

config_string-digit_text :
    (place : Place) (ds : List ℕ)
    → 0 < length ds
    → config_string place (str (digit_text ds)) ≡ ok (digit_text ds)
unfolding config_string digit_text
config_string-digit_text place [] h = absurd (omega arith)
config_string-digit_text place (d ∷ ds) h = refl

config_string-hex_digits :
    (place : Place) (s : String) (ds : List ℕ)
    → hex_digits s ≡ some ds
    → 0 < length ds
    → config_string place (str s) ≡ ok s
unfolding config_string hex_digits
config_string-hex_digits place String.[] ds h long =
    let none_read : length ds ≡ 0 = cc in absurd (omega arith)
config_string-hex_digits place (String.◌∷◌ c s) ds h long = refl

-- `decodeBytes` reads the bytes that `bytesToHex` writes, where there is one at least.
pub config_bytes-bytes_to_hex :
    (place : Place) (bs : Bytes) (n : ℕ)
    → IsBytes bs
    → length bs ≡ suc n
    → config_bytes place (str (bytes_to_hex bs)) (suc n) ≡ ok bs
unfolding config_bytes ◌>>=◌
config_bytes-bytes_to_hex place [] n h long = absurd (omega arith)
config_bytes-bytes_to_hex place (b ∷ bs) n h long =
    let digits_read =
      any_hex_digits-hex_digits _ _
        (hex_digits-digit_text (digits_of (b ∷ bs)) (digits_of-IsDigit (b ∷ bs) h)) in
    let as_many : (length (digits_of (b ∷ bs)) == suc n * 2) ≡ true =
      (==_iff _ _).1 (omega (arith, length-digits_of (b ∷ bs))) in
    rw (bytes_to_hex-digits_of (b ∷ bs) h) (
      rw
        (config_string-digit_text place (digits_of (b ∷ bs))
          (omega (arith, length-digits_of (b ∷ bs))))
        (rw digits_read (rw as_many (rw (pairs_of-digits_of (b ∷ bs) h) refl))))

-- `decodeScalar` reads the scalar that `scalarToHex` writes.
pub config_scalar-scalar_to_hex :
    (place : Place) (n : ℕ) → n < 16 ^ 64 → config_scalar place (str (scalar_to_hex n)) ≡ ok n
unfolding config_scalar ◌>>=◌
config_scalar-scalar_to_hex place n h =
    let (ds, read, long, value) = scalar_to_hex-digits n h in
    rw (config_string-hex_digits place (scalar_to_hex n) ds read (omega arith))
      (rw (any_hex_digits-hex_digits _ ds read) (rw long (rw value refl)))
