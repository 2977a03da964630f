-- ===== src/Dpop.antt =====
-- projects/node/src/client-sdk/dpop.ts: the key thumbprint and the verification of a DPoP proof.
-- `now` is Math.floor(Date.now() / 1000).
pub mod Verified
use decentralized_identity_p.Prelude.{
  ℕ, ℤ, pos, ◌-ℤ◌, ◌*ℤ◌, ltb_ℤ, ◌≡◌, String, Bool, true, false, not, ◌&&◌, ◌||◌, ◌==◌, Option, none,
  some, List, length, str_eq, is_empty, if◌then◌else◌, split_dot, ◌^^◌, Result, ok, err, ◌>>=◌,
  ◌>>◌, throw_if, or_throw,
}
use decentralized_identity_p.Js.{Js, str, obj, end, field, read, is_truthy, is_text}
use decentralized_identity_p.Runtime.{Bytes, Runtime}
use decentralized_identity_p.Jwt.{
  deterministic_json_stringify, to_number, parse_part, verify_ed25519, with_parts,
}

pub data DpopError : Type 0 where
  malformed threw wrong_typ wrong_alg wrong_jwk wrong_key_length invalid_signature htm_mismatch
        htu_mismatch stale thumbprint_mismatch :
      DpopError

-- `VerifyDPoPProofOptions`, with the default of `maxAgeSeconds` put in by the caller.
pub record DpopOptions : Type 0 where
  pub expected_htm : String
  pub expected_htu : String
  pub expected_jkt : Option String
  pub max_age_seconds : ℕ

module _ (rt : Runtime) where
  open rt use {base64url, utf8_encode, to_upper_case, buffer_of, sha256}

  -- The thumbprint of RFC 7638, of the members crv, kty and x.
  unfoldable pub calculate_jwk_thumbprint : Js → Js → Js → String
  calculate_jwk_thumbprint crv kty x = base64url.encode (
      sha256 (
        utf8_encode (
          deterministic_json_stringify rt
            (obj (field "crv" crv (field "kty" kty (field "x" x end)))))))

  -- `value.toUpperCase()`, which only a text has.
  unfoldable pub upper : Js → Option String
  upper (str s) = some (to_upper_case s)
  upper _ = none

  -- `base64UrlDecode(header.jwk.x)`.
  unfoldable pub decode_key : Js → Option Bytes
  decode_key (str s) = some (base64url.decode s)
  decode_key v = buffer_of v

  -- `Math.abs(now - iat) > maxAge`, false if iat is `NaN` as a number.
  unfoldable pub is_stale : ℕ → Option ℤ → ℕ → Bool
  is_stale now none max_age = false
  is_stale now (some t) max_age =
      let age = pos 1000 *ℤ pos now -ℤ t in
      ltb_ℤ (pos 1000 *ℤ pos max_age) age || ltb_ℤ (pos 1000 *ℤ pos max_age) (pos 0 -ℤ age)

  -- `expectedJkt && jkt !== expectedJkt`.
  unfoldable pub differs_from : Option String → String → Bool
  differs_from none jkt = false
  differs_from (some e) jkt = not (is_empty e) && not (str_eq jkt e)

  -- The header of a proof: it names an Ed25519 key of 32 bytes.
  unfoldable pub check_header : Js → Result DpopError (Bytes × String)
  check_header header = do
    typ ← or_throw (read "typ" header) threw
    throw_if (not (is_text "dpop+jwt" typ)) wrong_typ
    alg ← or_throw (read "alg" header) threw
    throw_if (not (is_text "EdDSA" alg)) wrong_alg
    jwk ← or_throw (read "jwk" header) threw
    throw_if (not (is_truthy jwk)) wrong_jwk
    kty ← or_throw (read "kty" jwk) threw
    crv ← or_throw (read "crv" jwk) threw
    throw_if (not (is_text "OKP" kty) || not (is_text "Ed25519" crv)) wrong_jwk
    x ← or_throw (read "x" jwk) threw
    public_key ← or_throw (decode_key x) threw
    throw_if (not (length public_key == 32)) wrong_key_length
    ok (public_key, calculate_jwk_thumbprint crv kty x)

  -- The payload: method, address and time.
  unfoldable pub check_payload : ℕ → DpopOptions → Js → Result DpopError (Unit {0})
  check_payload now options payload = do
    htm ← or_throw (read "htm" payload) threw
    method ← or_throw (upper htm) threw
    throw_if (not (str_eq method (to_upper_case options.expected_htm))) htm_mismatch
    htu ← or_throw (read "htu" payload) threw
    throw_if (not (is_text options.expected_htu htu)) htu_mismatch
    iat ← or_throw (read "iat" payload) threw
    throw_if (is_stale now (to_number rt iat) options.max_age_seconds) stale

  unfoldable pub check_proof :
      ℕ → DpopOptions → String → String → String → Result DpopError (String × Js)
  check_proof now options header_b64 payload_b64 sig_b64 = do
    header ← or_throw (parse_part rt header_b64) threw
    payload ← or_throw (parse_part rt payload_b64) threw
    (public_key, jkt) ← check_header header
    throw_if
        (not (
          verify_ed25519 rt (base64url.decode sig_b64)
            (utf8_encode (header_b64 ^^ ("." ^^ payload_b64))) public_key))
        invalid_signature
    check_payload now options payload
    throw_if (differs_from options.expected_jkt jkt) thumbprint_mismatch
    ok (jkt, payload)

  -- The result is the thumbprint of the proof's key, and the payload.
  unfoldable pub verify_dpop_proof : ℕ → String → DpopOptions → Result DpopError (String × Js)
  verify_dpop_proof now proof_jwt options =
      with_parts malformed (check_proof now options) (split_dot proof_jwt)
