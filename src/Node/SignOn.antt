-- ===== src/Node/SignOn.antt =====
-- projects/node/src/protocol/node.ts: `handleSignOn`, which signs an assertion and encrypts the
-- share under the user's key h_i.
use decentralized_identity_p.Prelude.{
  ℕ, ◌-ℤ◌, String, not, Option, none, some, str_eq, lookup, erase, ◌^^◌, Result, ok, err, ◌>>=◌,
  ◌>>◌, throw_if, or_throw,
}
use decentralized_identity_p.Js.{Js, str, obj, end, field, int}
use decentralized_identity_p.Runtime.{Bytes, Runtime}
use decentralized_identity_p.Protocol.{Commitment, FrostNonces, SignOnRequest, SignOnResponse}
use decentralized_identity_p.Crypto.Frost.{Curve, compute_signature_share}
use decentralized_identity_p.Crypto.Aead.{Cipher, AeadError, derive_aead_nonce, aead_encrypt}
use decentralized_identity_p.Crypto.Toprf.{Group, evaluate}
use decentralized_identity_p.Crypto.Hex.{decimal}
use decentralized_identity_p.Jwt.{create_signing_input}
use decentralized_identity_p.Wire.Encode.{or_undefined}
use decentralized_identity_p.Node.{
  UserRecord, IdentityNode, NodeError, user_not_found, iss_mismatch, iat_outside_window,
  round_not_found, bad_blinded_point, bad_evaluation, bad_encryption,
  max_assertion_lifetime_seconds,
}
use decentralized_identity_p.Node.Sign.{Handles, is_skewed, exceeds, of_frost}

-- Everything that is checked before the round is looked up. `now` is Date.now() in seconds.
unfoldable pub check_sign_on : ℕ → IdentityNode → SignOnRequest → Handles UserRecord
check_sign_on now node req = do
  user ← or_throw (lookup req.username node.users) user_not_found
  throw_if (not (str_eq req.iss node.issuer)) iss_mismatch
  throw_if (is_skewed now req.iat) iat_outside_window
  throw_if (exceeds (req.exp -ℤ req.iat) max_assertion_lifetime_seconds)
      NodeError.lifetime_out_of_range
  ok user

unfoldable pub assertion_header : IdentityNode → Js
assertion_header node =
    obj (field "alg" (str "EdDSA") (field "typ" (str "JWT") (field "kid" (str node.key_id) end)))

unfoldable pub assertion_payload : IdentityNode → UserRecord → SignOnRequest → Js
assertion_payload node user req = obj (
    field "iss" (str node.issuer) (
      field "sub" (str user.sub) (
        field "aud" (str node.issuer) (
          field "client_id" (str req.client_id) (
            field "scope" (str req.scope) (
              field "cnf" (obj (field "jkt" (str req.cnf_jkt) end)) (
                field "nonce" (or_undefined req.nonce)
                  (field "iat" (int req.iat) (field "exp" (int req.exp) end)))))))))

unfoldable pub of_aead : Result AeadError Bytes → Handles Bytes
of_aead (ok b) = ok b
of_aead (err e) = err bad_encryption

-- The round is deleted.
unfoldable pub spend_round : String → IdentityNode → IdentityNode
spend_round round_id node = record node { active_nonces = erase round_id node.active_nonces }

module _ (rt : Runtime) {Point : Type 0} (curve : Curve Point) {Blind : Type 0}
    (ristretto : Group Blind) (cipher : Cipher) where
  -- The text `{"z_i":"<decimal>"}`.
  unfoldable pub share_bundle : ℕ → String
  share_bundle z = "{\"z_i\":" ^^ (rt.json_stringify (str (decimal z)) ^^ "}")

  -- What follows once the nonces are taken.
  unfoldable pub sign_assertion :
      IdentityNode → SignOnRequest → Commitment → UserRecord → FrostNonces → Handles SignOnResponse
  sign_assertion node req commitment user nonces = do
    blinded ← or_throw (ristretto.from_bytes (rt.base64url.decode req.blinded)) bad_blinded_point
    partial ← or_throw (evaluate ristretto user.toprf_key_share blinded) bad_evaluation
    let signing_input =
        (create_signing_input rt (assertion_header node)
          (assertion_payload node user req)).signing_input
    z ← of_frost (
        compute_signature_share curve node.node_id nonces node.secret_key_share signing_input
          req.commitments node.group_public_key req.all_participants)
    let aead_nonce = derive_aead_nonce rt (rt.base64url.decode req.session_nonce) node.node_id
    ct ←
        of_aead
          (aead_encrypt cipher user.h_i aead_nonce (rt.utf8_encode (share_bundle z)) signing_input)
    ok (record {
      node_id = node.node_id;
      commitment = commitment;
      toprf_partial = rt.base64url.encode (ristretto.to_raw_bytes partial);
      ct_i = rt.base64url.encode ct;
      session_id = req.session_id;
      sub = user.sub;
    })

  -- An open round is spent before anything is signed, and stays spent if the rest throws.
  unfoldable pub sign_on_round :
      IdentityNode
      → String
      → SignOnRequest
      → Commitment
      → UserRecord
      → Option FrostNonces
      → Handles SignOnResponse × IdentityNode
  sign_on_round node round_id req commitment user none = (err (round_not_found round_id), node)
  sign_on_round node round_id req commitment user (some nonces) =
      (sign_assertion node req commitment user nonces, spend_round round_id node)

  unfoldable pub handle_sign_on :
      ℕ → String → SignOnRequest → Commitment → IdentityNode → Handles SignOnResponse × IdentityNode
  handle_sign_on now round_id req commitment node = elim (check_sign_on now node req) [
    | err e ↦ (err e, node)
    | ok user ↦ sign_on_round node round_id req commitment user (lookup round_id node.active_nonces)
  ]
