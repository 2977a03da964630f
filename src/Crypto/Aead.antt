-- ===== src/Crypto/Aead.antt =====
-- projects/node/src/crypto/aead.ts. ChaCha20-Poly1305 and SHA-512 are noble's, parameters.
use decentralized_identity_p.Prelude.{
  ◌/◌, ◌%◌, ℤ, ◌==◌, [], ◌∷◌, ◌++◌, length, not, Result, ok, ◌>>◌, throw_if, take,
}
use decentralized_identity_p.Runtime.{Bytes, Runtime}
use decentralized_identity_p.Crypto.Shamir.{mod_ℤ}

-- The lowest 16 bits of a number, the lower byte first.
unfoldable pub u16_to_bytes_le : ℤ → Bytes
unfolding mod_ℤ
u16_to_bytes_le n = (mod_ℤ n 65536 % 256) ∷ (mod_ℤ n 65536 / 256) ∷ []

unfoldable pub derive_aead_nonce : Runtime → Bytes → ℤ → Bytes
unfolding u16_to_bytes_le
derive_aead_nonce rt session_nonce id =
    take 12 (rt.sha512 (rt.utf8_encode "PASTA-AEAD-NONCE" ++ (session_nonce ++ u16_to_bytes_le id)))

-- `chacha20poly1305(key, nonce, aad).encrypt(plaintext)`.
abbrev pub Cipher : Type 0
Cipher = Bytes → Bytes → Bytes → Bytes → Bytes

pub data AeadError : Type 0 where
  key_length nonce_length : AeadError

unfoldable pub aead_encrypt : Cipher → Bytes → Bytes → Bytes → Bytes → Result AeadError Bytes
aead_encrypt encrypt key nonce plaintext aad = do
  throw_if (not (length key == 32)) key_length
  throw_if (not (length nonce == 12)) nonce_length
  ok (encrypt key nonce aad plaintext)
