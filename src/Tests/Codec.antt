-- ===== src/Tests/Codec.antt =====
-- A base64url codec that satisfies the laws: a byte n is written as n times `a` and one `b`.
use Prim.Native.Char.{code}
use decentralized_identity_p.Prelude.{
  ℕ, zero, suc, ◌+◌, ◌≡◌, refl, ap, ◌∙◌, String, true, ◌∷◌, [], ◌==◌, if◌then◌else◌, arith,
}
use decentralized_identity_p.Runtime.{Bytes, Base64Url}
use decentralized_identity_p.Wire.{is_base64url}
use decentralized_identity_p.Wire.Shapes.{IsBase64Url}

unfoldable pub write_byte : ℕ → String → String
write_byte zero rest = String.◌∷◌ "b" rest
write_byte (suc n) rest = String.◌∷◌ "a" (write_byte n rest)

unfoldable pub write : Bytes → String
unfolding write_byte
write [] = ""
write (b ∷ bs) = write_byte b (write bs)

unfoldable pub read_from : ℕ → String → Bytes
read_from acc String.[] = []
read_from acc (String.◌∷◌ c s) =
    if code c == b'b' then acc ∷ read_from 0 s else read_from (suc acc) s

is_base64url-write_byte :
    (n : ℕ) (rest : String) → is_base64url (write_byte n rest) ≡ is_base64url rest
unfolding is_base64url write_byte
is_base64url-write_byte zero rest = refl
is_base64url-write_byte (suc n) rest = is_base64url-write_byte n rest

is_base64url-write : (bs : Bytes) → is_base64url (write bs) ≡ true
unfolding write is_base64url
is_base64url-write [] = refl
is_base64url-write (b ∷ bs) = is_base64url-write_byte b (write bs) ∙ is_base64url-write bs

read_from-write_byte :
    (acc n : ℕ) (rest : String) → read_from acc (write_byte n rest) ≡ (acc + n) ∷ read_from 0 rest
unfolding read_from write_byte
read_from-write_byte acc zero rest = ap (λ k. k ∷ read_from 0 rest) (omega arith)
read_from-write_byte acc (suc n) rest =
    read_from-write_byte (suc acc) n rest ∙ ap (λ k. k ∷ read_from 0 rest) (omega arith)

read_from-write : (bs : Bytes) → read_from 0 (write bs) ≡ bs
unfolding write read_from
read_from-write [] = refl
read_from-write (b ∷ bs) =
    read_from-write_byte 0 b (write bs)
    ∙ (ap (λ k. k ∷ read_from 0 (write bs)) (omega arith) ∙ ap (λ r. b ∷ r) (read_from-write bs))

unfoldable pub codec : Base64Url
unfolding write read_from
codec = record { encode = write; decode = λ s. read_from 0 s }

pub codec-IsBase64Url : IsBase64Url codec
unfolding codec
codec-IsBase64Url = record {
  in_alphabet = is_base64url-write;
  decode-encode = λ bs h. read_from-write bs;
  decode-empty = refl;
}
