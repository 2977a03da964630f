-- ===== src/Node/Sign.antt =====
-- projects/node/src/protocol/node.ts: `handleSign`, which signs an access token and a refresh token
-- against a credential. The handler is three parts in the source's order: what is checked before the
-- rounds are looked up, the two rounds being spent, and the two signatures.
use decentralized_identity_p.Prelude.{
  ℕ, ℤ, pos, ◌+ℤ◌, ◌-ℤ◌, leb_ℤ, ltb_ℤ, String, Bool, ◌||◌, Option, none, some, List, str_eq,
  is_empty, lookup, erase, Result, ok, err, ◌>>=◌, ◌>>◌, throw_if,
}
use decentralized_identity_p.Js.{Js, str, obj, end, field, int}
use decentralized_identity_p.Runtime.{Runtime}
use decentralized_identity_p.Protocol.{
  FrostCommitment, FrostNonces, Grant, authorization_code, SignRequest, AccessTokenClaims,
  SignResponse, SignRounds, SignCommitments,
}
use decentralized_identity_p.Crypto.Frost.{Curve, FrostError, compute_signature_share}
use decentralized_identity_p.Crypto.Hex.{scalar_to_hex}
use decentralized_identity_p.Jwt.{create_signing_input}
use decentralized_identity_p.Dpop.{DpopError, DpopOptions, verify_dpop_proof}
use decentralized_identity_p.Node.{
  IdentityNode, NodeError, iat_outside_window, round_not_found, frost, same_rounds, credential,
  dpop, empty_jti, refresh_lifetime_out_of_range, token_endpoint, clock_skew_seconds,
  max_access_token_lifetime_seconds, default_refresh_lifetime_seconds, max_refresh_lifetime_seconds,
  refresh_token_typ,
}
use decentralized_identity_p.Node.Credential.{
  CredentialClaims, Checks, verify_assertion, verify_refresh_token,
}

-- What Date.now() gives, in seconds, at the three places that read it.
pub record Clock : Type 0 where
  pub at_credential : ℕ
  pub at_proof : ℕ
  pub at_claims : ℕ

abbrev pub Handles : Type 0 → Type 0
Handles A = Result NodeError A

-- `value ?? ""`.
abbrev pub or_empty : Option String → String
or_empty none = ""
or_empty (some s) = s

-- `Math.abs(now - t) > CLOCK_SKEW_SECONDS`.
abbrev pub is_skewed : ℕ → ℤ → Bool
is_skewed now t =
    ltb_ℤ (pos clock_skew_seconds) (pos now -ℤ t) || ltb_ℤ (pos clock_skew_seconds) (t -ℤ pos now)

-- `lifetime <= 0 || lifetime > max`.
abbrev pub exceeds : ℤ → ℕ → Bool
exceeds lifetime max = leb_ℤ lifetime (pos 0) || ltb_ℤ (pos max) lifetime

-- `req.refreshExp ?? claims.iat + DEFAULT_REFRESH_LIFETIME_SECONDS`.
unfoldable pub refresh_exp_of : SignRequest → ℤ
refresh_exp_of req = elim req.refresh_exp [
  | none ↦ req.claims.iat +ℤ pos default_refresh_lifetime_seconds
  | some exp ↦ exp
]

unfoldable pub of_credential : Checks CredentialClaims → Handles CredentialClaims
of_credential (ok c) = ok c
of_credential (err e) = err (credential e)

unfoldable pub of_dpop : Result DpopError (String × Js) → Handles (Unit {0})
of_dpop (ok v) = ok tt
of_dpop (err e) = err (dpop e)

-- The checks of the claims that the gateway pins; the result is the new refresh token's `exp`.
unfoldable pub check_claims : ℕ → SignRequest → Handles ℤ
check_claims now req = do
  throw_if (is_skewed now req.claims.iat) iat_outside_window
  throw_if (exceeds (req.claims.exp -ℤ req.claims.iat) max_access_token_lifetime_seconds)
      NodeError.lifetime_out_of_range
  throw_if (is_empty req.claims.jti) empty_jti
  throw_if (exceeds (refresh_exp_of req -ℤ req.claims.iat) max_refresh_lifetime_seconds)
      refresh_lifetime_out_of_range
  ok (refresh_exp_of req)

unfoldable pub access_token_header : IdentityNode → Js
access_token_header node =
    obj (field "alg" (str "EdDSA") (field "typ" (str "at+jwt") (field "kid" (str node.key_id) end)))

unfoldable pub refresh_token_header : IdentityNode → Js
refresh_token_header node = obj (
    field "alg" (str "EdDSA")
      (field "typ" (str refresh_token_typ) (field "kid" (str node.key_id) end)))

unfoldable pub access_token_payload : IdentityNode → CredentialClaims → AccessTokenClaims → Js
access_token_payload node c claims = obj (
    field "iss" (str node.issuer) (
      field "sub" (str c.sub) (
        field "aud" (str c.client_id) (
          field "scope" (str c.scope) (
            field "cnf" (obj (field "jkt" (str c.jkt) end)) (
              field "iat" (int claims.iat)
                (field "exp" (int claims.exp) (field "jti" (str claims.jti) end))))))))

unfoldable pub refresh_token_payload : IdentityNode → CredentialClaims → AccessTokenClaims → ℤ → Js
refresh_token_payload node c claims refresh_exp = obj (
    field "iss" (str node.issuer) (
      field "sub" (str c.sub) (
        field "cnf" (obj (field "jkt" (str c.jkt) end)) (
          field "client_id" (str c.client_id) (
            field "scope" (str c.scope)
              (field "iat" (int claims.iat) (field "exp" (int refresh_exp) end)))))))

unfoldable pub of_frost : Result FrostError ℕ → Handles ℕ
of_frost (ok z) = ok z
of_frost (err e) = err (frost e)

-- Both rounds are deleted.
unfoldable pub spend : SignRounds → IdentityNode → IdentityNode
spend rounds node = record node {
  active_nonces = erase rounds.refresh_round_id (erase rounds.access_round_id node.active_nonces);
}

module _ (rt : Runtime) {Point : Type 0} (curve : Curve Point) where
  unfoldable pub verify_presented : ℕ → IdentityNode → SignRequest → Grant → Checks CredentialClaims
  verify_presented now node req authorization_code =
      verify_assertion rt now node (or_empty req.assertion)
  verify_presented now node req Grant.refresh_token =
      verify_refresh_token rt now node (or_empty req.refresh_token)

  -- What a proof must show to spend this credential here.
  abbrev pub proof_options : IdentityNode → CredentialClaims → DpopOptions
  proof_options node c = record {
    expected_htm = "POST";
    expected_htu = token_endpoint node;
    expected_jkt = some c.jkt;
    max_age_seconds = clock_skew_seconds;
  }

  -- Everything that is checked before the rounds are looked up.
  unfoldable pub check_sign :
      Clock → IdentityNode → SignRounds → SignRequest → Handles (CredentialClaims × ℤ)
  check_sign clock node rounds req = do
    throw_if (str_eq rounds.access_round_id rounds.refresh_round_id) same_rounds
    c ← of_credential (verify_presented clock.at_credential node req req.grant)
    of_dpop (verify_dpop_proof rt clock.at_proof req.dpop_proof (proof_options node c))
    refresh_exp ← check_claims clock.at_claims req
    ok (c, refresh_exp)

  -- One FROST share over one token.
  unfoldable pub share :
      IdentityNode → Js → Js → FrostNonces → List FrostCommitment → List ℤ → Handles String
  share node header payload nonces commitments participants = do
    z ← of_frost (
        compute_signature_share curve node.node_id nonces node.secret_key_share
          ((create_signing_input rt header payload).signing_input) commitments node.group_public_key
          participants)
    ok (scalar_to_hex z)

  unfoldable pub sign_tokens :
      IdentityNode
      → SignRequest
      → SignCommitments
      → CredentialClaims
      → ℤ
      → FrostNonces
      → FrostNonces
      → Handles SignResponse
  sign_tokens node req commitments c refresh_exp access_nonces refresh_nonces = do
    at_z ←
        share node (access_token_header node) (access_token_payload node c req.claims) access_nonces
          req.commitments req.all_participants
    rt_z ←
        share node (refresh_token_header node) (refresh_token_payload node c req.claims refresh_exp)
          refresh_nonces req.refresh_commitments req.all_participants
    ok (record {
      node_id = node.node_id;
      at = record { commitment = commitments.access; z_i = at_z };
      rt = record { commitment = commitments.refresh; z_i = rt_z };
    })

  -- The two rounds are looked up, and if both are open they are spent before anything is signed.
  unfoldable pub sign_rounds :
      IdentityNode
      → SignRounds
      → SignRequest
      → SignCommitments
      → CredentialClaims
      → ℤ
      → Option FrostNonces
      → Option FrostNonces
      → Handles SignResponse × IdentityNode
  sign_rounds node rounds req commitments c refresh_exp none refresh =
      (err (round_not_found rounds.access_round_id), node)
  sign_rounds node rounds req commitments c refresh_exp (some access) none =
      (err (round_not_found rounds.refresh_round_id), node)
  sign_rounds node rounds req commitments c refresh_exp (some access) (some refresh) =
      (sign_tokens node req commitments c refresh_exp access refresh, spend rounds node)

  unfoldable pub handle_sign :
      Clock
      → SignRounds
      → SignRequest
      → SignCommitments
      → IdentityNode
      → Handles SignResponse × IdentityNode
  handle_sign clock rounds req commitments node = elim (check_sign clock node rounds req) [
    | err e ↦ (err e, node)
    | ok (c, refresh_exp) ↦
        sign_rounds node rounds req commitments c refresh_exp
          (lookup rounds.access_round_id node.active_nonces)
          (lookup rounds.refresh_round_id node.active_nonces)
  ]
