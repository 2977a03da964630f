-- ===== src/Node/Credential.antt =====
-- projects/node/src/protocol/node.ts: `verifyCredential`, `verifyAssertion` and
-- `verifyRefreshToken`. The times of a credential are kept in thousandths of a second, since a
-- number in a token need be no integer.
use decentralized_identity_p.Prelude.{
  ℕ, ◌*◌, ℤ, pos, ◌+ℤ◌, ◌-ℤ◌, ◌*ℤ◌, leb_ℤ, ltb_ℤ, String, Bool, false, not, ◌||◌, Option, none,
  some, str_eq, is_empty, if◌then◌else◌, Result, ok, err, ◌>>=◌, ◌>>◌, throw_if,
}
use decentralized_identity_p.Js.{Js, undefined, null, num, str, read, is_text}
use decentralized_identity_p.Runtime.{Runtime}
use decentralized_identity_p.Jwt.{JwtError, verify_jwt, nothing_expected}
use decentralized_identity_p.Node.{
  IdentityNode, CredentialError, jwt, wrong_typ, missing, times_missing, issuer_mismatch,
  audience_mismatch, lifetime_out_of_range, refresh_token_typ, max_assertion_lifetime_seconds,
  max_refresh_lifetime_seconds,
}

pub record CredentialClaims : Type 0 where
  pub iss : String
  pub sub : String
  pub aud : Option String
  pub client_id : String
  pub scope : String
  pub jkt : String
  pub nonce : Option String
  pub iat : ℤ
  pub exp : ℤ

abbrev pub Checks : Type 0 → Type 0
Checks A = Result CredentialError A

-- `typeof value === "string"` and not empty, or an error that names the claim.
unfoldable pub text_claim : String → Option Js → Checks String
text_claim name (some (str s)) = if is_empty s then err (missing name) else ok s
text_claim name _ = err (missing name)

-- `typeof value === "number"`, in thousandths.
unfoldable pub number_claim : Option Js → Checks ℤ
number_claim (some (num z m)) = ok (pos 1000 *ℤ z +ℤ pos m)
number_claim _ = err times_missing

-- `typeof value === "string"`, else nothing.
unfoldable pub optional_text : Option Js → Option String
optional_text (some (str s)) = some s
optional_text _ = none

-- `typeof payload.scope === "string" ? payload.scope : ""`.
unfoldable pub scope_text : Option Js → String
scope_text (some (str s)) = s
scope_text _ = ""

-- `payload.cnf?.jkt`.
unfoldable pub confirmation : Option Js → Option Js
confirmation none = none
confirmation (some undefined) = some undefined
confirmation (some null) = some undefined
confirmation (some v) = read "jkt" v

unfoldable pub of_jwt : Result JwtError (Js × Js) → Checks (Js × Js)
of_jwt (ok v) = ok v
of_jwt (err e) = err (jwt e)

abbrev pub has_typ : String → Option Js → Bool
has_typ typ none = false
has_typ typ (some v) = is_text typ v

-- `lifetime <= 0 || lifetime > max`, in thousandths.
abbrev pub is_outside : ℤ → ℕ → Bool
is_outside lifetime max = leb_ℤ lifetime (pos 0) || ltb_ℤ (pos (1000 * max)) lifetime

abbrev pub is_audience : String → Option String → Bool
is_audience issuer none = false
is_audience issuer (some aud) = str_eq aud issuer

module _ (rt : Runtime) where
  -- The claims of a verified payload.
  unfoldable pub read_claims : IdentityNode → Js → Checks CredentialClaims
  read_claims node payload = do
    iat ← number_claim (read "iat" payload)
    exp ← number_claim (read "exp" payload)
    iss ← text_claim "iss" (read "iss" payload)
    throw_if (not (str_eq iss node.issuer)) issuer_mismatch
    jkt ← text_claim "cnf.jkt" (confirmation (read "cnf" payload))
    sub ← text_claim "sub" (read "sub" payload)
    client_id ← text_claim "client_id" (read "client_id" payload)
    ok (record {
      iss = iss;
      sub = sub;
      aud = optional_text (read "aud" payload);
      client_id = client_id;
      scope = scope_text (read "scope" payload);
      jkt = jkt;
      nonce = optional_text (read "nonce" payload);
      iat = iat;
      exp = exp;
    })

  unfoldable pub verify_credential : ℕ → IdentityNode → String → String → Checks CredentialClaims
  verify_credential now node token typ = do
    (header, payload) ← of_jwt (verify_jwt rt now token node.group_public_key nothing_expected)
    throw_if (not (has_typ typ (read "typ" header))) wrong_typ
    read_claims node payload

  unfoldable pub verify_assertion : ℕ → IdentityNode → String → Checks CredentialClaims
  verify_assertion now node assertion = do
    claims ← verify_credential now node assertion "JWT"
    throw_if (not (is_audience node.issuer claims.aud)) audience_mismatch
    throw_if (is_outside (claims.exp -ℤ claims.iat) max_assertion_lifetime_seconds)
        lifetime_out_of_range
    ok claims

  unfoldable pub verify_refresh_token : ℕ → IdentityNode → String → Checks CredentialClaims
  verify_refresh_token now node token = do
    claims ← verify_credential now node token refresh_token_typ
    throw_if (is_outside (claims.exp -ℤ claims.iat) max_refresh_lifetime_seconds)
        lifetime_out_of_range
    ok claims
