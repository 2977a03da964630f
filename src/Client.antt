-- ===== src/Client.antt =====
-- projects/demo/src/sdk/client.ts: `signOn`, which turns a password into an assertion. It is two
-- parts, what is posted to the gateway and what is made of its answer; `fetch` and the demo events are
-- left out, the clock and the random values are arguments.
pub mod Opened
pub mod Shares
use decentralized_identity_p.Prelude.{
  ℕ, ◌+◌, ℤ, pos, String, not, Option, none, some, List, [], ◌∷◌, map, ◌==◌, length, is_empty,
  if◌then◌else◌, Result, ok, err, ◌>>=◌, ◌>>◌, throw_if, or_throw,
}
use decentralized_identity_p.Js.{Js, str, obj, end, field, int, read}
use decentralized_identity_p.Runtime.{Bytes, Runtime}
use decentralized_identity_p.Protocol.{SignOnResponse}
use decentralized_identity_p.Crypto.Aead.{derive_aead_nonce}
use decentralized_identity_p.Crypto.Frost.{
  Curve, FrostError, compute_group_commitment, aggregate_signature_shares,
}
use decentralized_identity_p.Crypto.Toprf.{
  Group, Partial, ToprfError, unblind, finalize, derive_server_key,
}
use decentralized_identity_p.Jwt.{create_signing_input, assemble_jwt}
use decentralized_identity_p.Gateway.SignOn.{SignOnBody, SignOnResult}

abbrev pub assertion_lifetime_seconds : ℕ
assertion_lifetime_seconds = 30

-- `ClientSignOnOptions`.
pub record Options : Type 0 where
  pub username : String
  pub password : String
  pub client_id : String
  pub scope : String
  pub nonce : String
  pub participants : Option (List ℤ)

-- What the SDK is constructed with.
pub record Config : Type 0 where
  pub issuer : String
  pub cnf_jkt : String

pub data ClientError : Type 0 where
  bad_partial not_decrypted bad_share : ClientError
  toprf : ToprfError → ClientError
  frost : FrostError → ClientError

abbrev pub Attempts : Type 0 → Type 0
Attempts A = Result ClientError A

-- `chacha20poly1305(key, nonce, aad).decrypt(ciphertext)`, `none` if the tag does not verify.
abbrev pub Decipher : Type 0
Decipher = Bytes → Bytes → Bytes → Bytes → Option Bytes

-- `aeadDecrypt` of projects/demo/src/sdk/crypto/aead.ts.
unfoldable pub aead_decrypt : Decipher → Bytes → Bytes → Bytes → Bytes → Attempts Bytes
aead_decrypt decipher key nonce ciphertext aad = do
  throw_if (not (length key == 32)) not_decrypted
  throw_if (not (length nonce == 12)) not_decrypted
  or_throw (decipher key nonce aad ciphertext) not_decrypted

-- `nodeResponses[0]?.sub || options.username`.
unfoldable pub sub_of : Options → List SignOnResponse → String
sub_of options [] = options.username
sub_of options (r ∷ rs) = if is_empty r.sub then options.username else r.sub

abbrev pub client_header : Js
client_header = obj (
    field "alg" (str "EdDSA") (field "typ" (str "JWT") (field "kid" (str "pasta-group-key-1") end)))

-- The assertion that the nodes have signed, rebuilt.
unfoldable pub client_payload : Config → Options → ℕ → String → Js
client_payload config options now sub = obj (
    field "iss" (str config.issuer) (
      field "sub" (str sub) (
        field "aud" (str config.issuer) (
          field "client_id" (str options.client_id) (
            field "scope" (str options.scope) (
              field "cnf" (obj (field "jkt" (str config.cnf_jkt) end)) (
                field "nonce" (str options.nonce) (
                  field "iat" (int (pos now))
                    (field "exp" (int (pos (now + assertion_lifetime_seconds))) end)))))))))

unfoldable pub of_toprf : {A : Type 0} → Result ToprfError A → Attempts A
of_toprf (ok a) = ok a
of_toprf (err e) = err (toprf e)

unfoldable pub of_frost : {A : Type 0} → Result FrostError A → Attempts A
of_frost (ok a) = ok a
of_frost (err e) = err (frost e)

module _ (rt : Runtime) {Blind : Type 0} (group : Group Blind) where
  open rt use {base64url, utf8_encode, utf8_decode, json_parse}

  -- What is posted to the gateway, with the blinded point and the session nonce.
  unfoldable pub sign_on_body : Config → Options → ℕ → Blind → Bytes → SignOnBody
  sign_on_body config options now blinded session_nonce = record {
    username = options.username;
    blinded = base64url.encode (group.to_raw_bytes blinded);
    session_nonce = base64url.encode session_nonce;
    cnf_jkt = config.cnf_jkt;
    client_id = options.client_id;
    scope = options.scope;
    nonce = some options.nonce;
    iat = pos now;
    exp = pos (now + assertion_lifetime_seconds);
    iss = config.issuer;
    participants = elim options.participants [ none ↦ none | some ids ↦ some (some ids) ];
  }

  -- The nodes' partial evaluations.
  unfoldable pub partials_in : List SignOnResponse → Attempts (List (Partial Blind))
  partials_in [] = ok []
  partials_in (r ∷ rs) = do
    point ← or_throw (group.from_bytes (base64url.decode r.toprf_partial)) bad_partial
    rest ← partials_in rs
    ok (record { id = r.node_id; point = point } ∷ rest)

  module _ (decipher : Decipher) (to_bigint : Js → Option ℕ) where
    -- One share, decrypted under the key derived for its node. `to_bigint` is `BigInt(v)`, `none` if it
    -- throws; negative numbers are left out.
    unfoldable pub open_share : Bytes → Bytes → Bytes → SignOnResponse → Attempts ℕ
    open_share h session_nonce signing_input r = do
      bytes ←
          aead_decrypt decipher (derive_server_key rt group h r.node_id)
            (derive_aead_nonce rt session_nonce r.node_id) (base64url.decode r.ct_i) signing_input
      parsed ← or_throw (json_parse (utf8_decode bytes)) bad_share
      z_i ← or_throw (read "z_i" parsed) bad_share
      or_throw (to_bigint z_i) bad_share

    unfoldable pub open_shares : Bytes → Bytes → Bytes → List SignOnResponse → Attempts (List ℕ)
    open_shares h session_nonce signing_input [] = ok []
    open_shares h session_nonce signing_input (r ∷ rs) = do
      z ← open_share h session_nonce signing_input r
      zs ← open_shares h session_nonce signing_input rs
      ok (z ∷ zs)

    -- What is made of the gateway's answer: the assertion.
    unfoldable pub complete_sign_on :
        {Point : Type 0}
        → Curve Point
        → Config
        → Options
        → ℕ
        → ℕ
        → Bytes
        → SignOnResult
        → Attempts String
    complete_sign_on curve config options now r session_nonce result = do
      let sub = sub_of options result.node_responses
      let input = create_signing_input rt client_header (client_payload config options now sub)
      partials ← partials_in result.node_responses
      v ← of_toprf (unblind rt group r partials)
      let h = finalize rt group (utf8_encode options.password) v
      shares ← open_shares h session_nonce input.signing_input result.node_responses
      r_bytes ← of_frost (compute_group_commitment curve input.signing_input result.commitments)
      ok (
          assemble_jwt rt input.header_b64 input.payload_b64
            (aggregate_signature_shares curve r_bytes shares))
