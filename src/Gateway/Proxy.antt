-- ===== src/Gateway/Proxy.antt =====
-- projects/gateway/src/gateway/proxy.ts: `handleSign`, the two tokens of a `/token` request. The
-- nodes' answers are functions of their ids; the random ids and the clock are arguments.
use decentralized_identity_p.Prelude.{
  ◌-ℤ◌, ℕ, ◌*◌, ℤ, pos, ◌+ℤ◌, String, true, false, Option, none, some, List, [], ◌∷◌, map, length,
  ltb, eqb_ℤ, if◌then◌else◌, Result, ok, err, ◌>>=◌, ◌>>◌, throw_if, or_throw,
}
use decentralized_identity_p.Js.{Js, str, obj, end, field, int}
use decentralized_identity_p.Runtime.{Bytes, Runtime}
use decentralized_identity_p.Protocol.{
  Commitment, FrostCommitment, Grant, authorization_code, AccessTokenClaims, SignRequest,
  SignCommitments,
}
use decentralized_identity_p.Crypto.Frost.{
  Curve, FrostError, compute_group_commitment, aggregate_signature_shares,
}
use decentralized_identity_p.Jwt.{create_signing_input, assemble_jwt}
use decentralized_identity_p.Gateway.Credential.{
  IdentityClaims, InvalidCredential, decode_credential_claims,
}
use decentralized_identity_p.Gateway.Commitments.{
  ProxyError, Collected, quorum, collect_commitments,
}

abbrev pub access_token_lifetime_seconds : ℕ
access_token_lifetime_seconds = 3600

abbrev pub refresh_token_lifetime_seconds : ℕ
refresh_token_lifetime_seconds = 86400 * 30

-- The fields of `PastaOAuthProxy`; `nodes` holds the ids that it knows.
pub record Proxy : Type 0 where
  pub nodes : List ℤ
  pub threshold : ℕ
  pub issuer : String
  pub key_id : String

pub data RelayError : Type 0 where
  invalid_credential : InvalidCredential → RelayError
  proxy : ProxyError → RelayError
  node_failed no_refresh_commitment : RelayError
  frost : FrostError → RelayError

abbrev pub Answers : Type 0 → Type 0
Answers A = Result RelayError A

-- The two shares of a node's answer to `/sign`.
pub record Shares : Type 0 where
  pub at : ℕ
  pub rt : ℕ

pub record TokenResult : Type 0 where
  pub access_token : String
  pub refresh_token : String
  pub expires_in : ℤ
  pub scope : String
  pub cnf_jkt : String

unfoldable pub of_decode : Result InvalidCredential IdentityClaims → Answers IdentityClaims
of_decode (ok c) = ok c
of_decode (err e) = err (invalid_credential e)

unfoldable pub of_collect : Result ProxyError Collected → Answers Collected
of_collect (ok c) = ok c
of_collect (err e) = err (proxy e)

unfoldable pub of_group : Result FrostError Bytes → Answers Bytes
of_group (ok b) = ok b
of_group (err e) = err (frost e)

-- `commitments.find((c) => c.nodeId === id)`.
unfoldable pub find_commitment : ℤ → List FrostCommitment → Option Commitment
find_commitment id [] = none
find_commitment id (c ∷ cs) =
    if eqb_ℤ c.node_id id
    then some (record { d_point = c.d_point; e_point = c.e_point })
    else find_commitment id cs

-- `Promise.all` over the access commitments, each node with its own commitments of the two rounds:
-- one failure makes the whole fail. A node without a refresh commitment is a TypeError.
unfoldable pub all_shares :
    (ℤ → SignCommitments → Option Shares)
    → List FrostCommitment
    → List FrostCommitment
    → Answers (List Shares)
all_shares sign refresh [] = ok []
all_shares sign refresh (c ∷ cs) = do
  own ← or_throw (find_commitment c.node_id refresh) no_refresh_commitment
  s ←
      or_throw
        (sign c.node_id
          (record { access = record { d_point = c.d_point; e_point = c.e_point }; refresh = own }))
        node_failed
  ss ← all_shares sign refresh cs
  ok (s ∷ ss)

unfoldable pub access_header : Proxy → Js
access_header p =
    obj (field "alg" (str "EdDSA") (field "typ" (str "at+jwt") (field "kid" (str p.key_id) end)))

unfoldable pub refresh_header : Proxy → Js
refresh_header p =
    obj
      (field "alg" (str "EdDSA") (field "typ" (str "refresh+jwt") (field "kid" (str p.key_id) end)))

unfoldable pub access_payload : Proxy → IdentityClaims → AccessTokenClaims → Js
access_payload p c claims = obj (
    field "iss" (str p.issuer) (
      field "sub" (str c.sub) (
        field "aud" (str c.client_id) (
          field "scope" (str c.scope) (
            field "cnf" (obj (field "jkt" (str c.jkt) end)) (
              field "iat" (int claims.iat)
                (field "exp" (int claims.exp) (field "jti" (str claims.jti) end))))))))

unfoldable pub refresh_payload : Proxy → IdentityClaims → AccessTokenClaims → ℤ → Js
refresh_payload p c claims refresh_exp = obj (
    field "iss" (str p.issuer) (
      field "sub" (str c.sub) (
        field "cnf" (obj (field "jkt" (str c.jkt) end)) (
          field "client_id" (str c.client_id) (
            field "scope" (str c.scope)
              (field "iat" (int claims.iat) (field "exp" (int refresh_exp) end)))))))

-- The credential that the grant names, as the node reads it.
abbrev pub assertion_of : Grant → String → Option String
assertion_of authorization_code credential = some credential
assertion_of Grant.refresh_token credential = none

abbrev pub refresh_token_of : Grant → String → Option String
refresh_token_of authorization_code credential = none
refresh_token_of Grant.refresh_token credential = some credential

module _ (rt : Runtime) {Point : Type 0} (curve : Curve Point) where
  unfoldable pub assemble_token : Js → Js → List FrostCommitment → List ℕ → Answers String
  assemble_token header payload commitments shares = do
    let input = create_signing_input rt header payload
    r ← of_group (compute_group_commitment curve input.signing_input commitments)
    ok (
        assemble_jwt rt input.header_b64 input.payload_b64
          (aggregate_signature_shares curve r shares))

  -- The claims that the gateway pins at time `now`.
  abbrev pub pinned_claims : ℕ → String → AccessTokenClaims
  pinned_claims now jti = record {
    iat = pos now;
    exp = pos now +ℤ pos access_token_lifetime_seconds;
    jti = jti;
  }

  -- The request that every node is sent.
  unfoldable pub sign_request :
      Grant → String → String → ℕ → String → Collected → Collected → SignRequest
  sign_request grant credential dpop_proof now jti access refresh = record {
    grant = grant;
    assertion = assertion_of grant credential;
    refresh_token = refresh_token_of grant credential;
    dpop_proof = dpop_proof;
    claims = pinned_claims now jti;
    refresh_exp = some (pos now +ℤ pos refresh_token_lifetime_seconds);
    commitments = access.commitments;
    refresh_commitments = refresh.commitments;
    all_participants = access.participants;
  }

  -- `access_commit` and `refresh_commit` are the nodes' answers in the two rounds, `sign` their answers
  -- to `/sign`.
  unfoldable pub handle_sign :
      Proxy
      → (ℕ → ℤ → Option Commitment)
      → (ℕ → ℤ → Option Commitment)
      → (SignRequest → ℤ → SignCommitments → Option Shares)
      → Grant
      → String
      → String
      → ℕ
      → String
      → Answers TokenResult
  handle_sign p access_commit refresh_commit sign grant credential dpop_proof now jti = do
    claims ← of_decode (decode_credential_claims rt credential)
    throw_if (ltb (length p.nodes) p.threshold) (proxy (quorum (length p.nodes) p.threshold []))
    access ← of_collect (collect_commitments p.nodes p.threshold access_commit p.nodes false)
    refresh ←
        of_collect (collect_commitments p.nodes p.threshold refresh_commit access.participants true)
    let req = sign_request grant credential dpop_proof now jti access refresh
    shares ← all_shares (sign req) refresh.commitments access.commitments
    access_token ←
        assemble_token (access_header p) (access_payload p claims req.claims) access.commitments
          (map (λ s. s.at) shares)
    refresh_token ←
        assemble_token (refresh_header p)
          (refresh_payload p claims req.claims (pos now +ℤ pos refresh_token_lifetime_seconds))
          refresh.commitments (map (λ s. s.rt) shares)
    ok (record {
      access_token = access_token;
      refresh_token = refresh_token;
      expires_in = req.claims.exp -ℤ req.claims.iat;
      scope = claims.scope;
      cnf_jkt = claims.jkt;
    })
