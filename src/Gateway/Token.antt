-- ===== src/Gateway/Token.antt =====
-- projects/gateway/src/server.ts: `handleToken`, the body of `POST /token`, the checks of a sign-on
-- body's fields, and the error that each failure is answered with.
use decentralized_identity_p.Prelude.{
  ℕ, ℤ, String, none, some, List, [], ◌∷◌, lookup, str_eq, is_empty, if◌then◌else◌, Option, Result,
  ok, err, ◌>>=◌,
}
use decentralized_identity_p.Js.{Js, str, undefined, get, obj}
use decentralized_identity_p.Runtime.{Runtime}
use decentralized_identity_p.Protocol.{
  Commitment, Grant, authorization_code, SignRequest, SignCommitments,
}
use decentralized_identity_p.Crypto.Frost.{Curve}
use decentralized_identity_p.Dpop.{DpopError, DpopOptions, verify_dpop_proof}
use decentralized_identity_p.Gateway.Credential.{
  IdentityClaims, InvalidCredential, decode_credential_claims,
}
use decentralized_identity_p.Gateway.Proxy.{Proxy, Shares, RelayError, TokenResult, handle_sign}

-- The `DPoP` header of a request: a text, several, or none.
pub data DpopHeader : Type 0 where
  absent : DpopHeader
  single : String → DpopHeader
  several : List String → DpopHeader

pub data TokenError : Type 0 where
  unsupported_grant dpop_required credential_required : TokenError
  bad_credential : InvalidCredential → TokenError
  bad_proof : DpopError → TokenError
  refused : RelayError → TokenError

-- The RFC 6749 code of `TokenError`, which `tokenError` copies to the answer; the status is 400.
unfoldable pub token_error : TokenError → String
token_error unsupported_grant = "unsupported_grant_type"
token_error dpop_required = "invalid_dpop_proof"
token_error credential_required = "invalid_request"
token_error (bad_credential e) = "invalid_grant"
token_error (bad_proof e) = "invalid_dpop_proof"
token_error (refused e) = "invalid_grant"

abbrev pub Attempts : Type 0 → Type 0
Attempts A = Result TokenError A

-- `grantType !== "authorization_code" && grantType !== "refresh_token"`.
unfoldable pub grant_of : Option String → Attempts Grant
grant_of none = err unsupported_grant
grant_of (some t) =
    if str_eq t "authorization_code"
    then ok authorization_code
    else if str_eq t "refresh_token"
    then ok Grant.refresh_token
    else err unsupported_grant

-- A text that must be there and not be empty, as `!value` tests it.
abbrev pub present : TokenError → Option String → Attempts String
present e none = err e
present e (some s) = if is_empty s then err e else ok s

-- `Array.isArray(dpopHeader) ? dpopHeader[0] : undefined`.
abbrev pub first_of : DpopHeader → Option String
first_of absent = none
first_of (single s) = some s
first_of (several []) = none
first_of (several (s ∷ ss)) = some s

-- `grant === "authorization_code" ? form.code : form.refresh_token`.
abbrev pub credential_field : Grant → String
credential_field authorization_code = "code"
credential_field Grant.refresh_token = "refresh_token"

unfoldable pub of_claims : Result InvalidCredential IdentityClaims → Attempts IdentityClaims
of_claims (ok c) = ok c
of_claims (err e) = err (bad_credential e)

unfoldable pub of_proof : Result DpopError (String × Js) → Attempts (String × Js)
of_proof (ok v) = ok v
of_proof (err e) = err (bad_proof e)

unfoldable pub of_relay : Result RelayError TokenResult → Attempts TokenResult
of_relay (ok r) = ok r
of_relay (err e) = err (refused e)

-- What the gateway asks of the DPoP proof.
abbrev pub gateway_options : String → String → DpopOptions
gateway_options token_endpoint jkt = record {
  expected_htm = "POST";
  expected_htu = token_endpoint;
  expected_jkt = some jkt;
  max_age_seconds = 60;
}

-- The grant, its credential, the proof, and what the credential says.
pub record Checked : Type 0 where
  pub grant : Grant
  pub credential : String
  pub proof : String
  pub claims : IdentityClaims

module _ (rt : Runtime) {Point : Type 0} (curve : Curve Point) where
  -- What is checked before the nodes are asked: the grant, the credential, its claims and the proof.
  unfoldable pub check_token : ℕ → List (String × String) → DpopHeader → String → Attempts Checked
  check_token now form dpop_header token_endpoint = do
    grant ← grant_of (lookup "grant_type" form)
    proof ← present dpop_required (first_of dpop_header)
    credential ← present credential_required (lookup (credential_field grant) form)
    claims ← of_claims (decode_credential_claims rt credential)
    verified ← of_proof (verify_dpop_proof rt now proof (gateway_options token_endpoint claims.jkt))
    ok (record { grant = grant; credential = credential; proof = proof; claims = claims })

  -- `now` and `later` are the clock at the proof's check and at the signing; the nodes' answers are as
  -- in `handle_sign`.
  unfoldable pub handle_token :
      Proxy
      → (ℕ → ℤ → Option Commitment)
      → (ℕ → ℤ → Option Commitment)
      → (SignRequest → ℤ → SignCommitments → Option Shares)
      → ℕ
      → ℕ
      → String
      → List (String × String)
      → DpopHeader
      → String
      → Attempts TokenResult
  handle_token p access_commit refresh_commit sign now later jti form dpop_header token_endpoint =
      do
        checked ← check_token now form dpop_header token_endpoint
        of_relay (
            handle_sign rt curve p access_commit refresh_commit sign checked.grant
              checked.credential checked.proof later jti)

-- `body?.[field]`.
abbrev pub property : String → Js → Js
property name (obj fs) = get name fs
property name _ = undefined

-- `requireField`; `none` is the 400.
unfoldable pub require_field : String → Js → Option String
require_field name body = elim (property name body) [
  | str s ↦ if is_empty s then none else some s
  | _ ↦ none
]

-- `requireScope`: an absent scope is the empty text.
unfoldable pub require_scope : Js → Option String
require_scope body = elim (property "scope" body) [
  | undefined ↦ some ""
  | str s ↦ some s
  | _ ↦ none
]
