-- ===== src/Gateway/Oidc.antt =====
-- projects/gateway/src/gateway/oidc.ts: the check of an authorization request, and the documents that
-- the gateway publishes. The page is left out, it only carries the parameters on.
use Prim.Native.Char.{Char, code}
use decentralized_identity_p.Prelude.{
  ℕ, zero, suc, String, Bool, true, false, not, ◌&&◌, ◌==◌, Option, none, some, List, [], ◌∷◌, ◌^^◌,
  is_empty, str_eq, includes, if◌then◌else◌, Result, ok, err, ◌>>=◌, ◌>>◌, throw_if,
}
use decentralized_identity_p.Js.{Js, str, arr, obj, end, field, items}
use decentralized_identity_p.Runtime.{Bytes, Base64Url}
use decentralized_identity_p.Wire.{is_base64url}

-- `AuthorizeQueryParams`.
pub record AuthorizeQuery : Type 0 where
  pub client_id : Option String
  pub redirect_uri : Option String
  pub response_type : Option String
  pub scope : Option String
  pub state : Option String
  pub dpop_jkt : Option String

pub record AuthorizeParams : Type 0 where
  pub client_id : String
  pub redirect_uri : String
  pub response_type : String
  pub scope : String
  pub state : Option String
  pub dpop_jkt : String

pub data AuthorizeError : Type 0 where
  no_client_id no_redirect_uri wrong_response_type no_openid no_dpop_jkt wrong_dpop_jkt :
      AuthorizeError

abbrev pub Validates : Type 0 → Type 0
Validates A = Result AuthorizeError A

-- `!value` throws; an empty text is falsy.
unfoldable pub needed : AuthorizeError → Option String → Validates String
needed e none = err e
needed e (some s) = if is_empty s then err e else ok s

abbrev push_front : Char → List String → List String
push_front c [] = (String.◌∷◌ c String.[]) ∷ []
push_front c (w ∷ ws) = (String.◌∷◌ c w) ∷ ws

-- `s.split(" ")`.
unfoldable pub words : String → List String
words String.[] = "" ∷ []
words (String.◌∷◌ c s) =
    let rest = words s in if code c == b' ' then "" ∷ rest else push_front c rest

-- The text has `n` characters.
unfoldable pub has_length : ℕ → String → Bool
has_length zero String.[] = true
has_length zero (String.◌∷◌ c s) = false
has_length (suc n) String.[] = false
has_length (suc n) (String.◌∷◌ c s) = has_length n s

-- `/^[A-Za-z0-9_-]{43}$/.test(s)`.
unfoldable pub is_thumbprint : String → Bool
is_thumbprint s = is_base64url s && has_length 43 s

unfoldable pub validate_authorize_request : AuthorizeQuery → Validates AuthorizeParams
validate_authorize_request q = do
  client_id ← needed no_client_id q.client_id
  redirect_uri ← needed no_redirect_uri q.redirect_uri
  response_type ← needed wrong_response_type q.response_type
  throw_if (not (str_eq response_type "code")) wrong_response_type
  scope ← needed no_openid q.scope
  throw_if (not (includes "openid" (words scope))) no_openid
  dpop_jkt ← needed no_dpop_jkt q.dpop_jkt
  throw_if (not (is_thumbprint dpop_jkt)) wrong_dpop_jkt
  ok (record {
    client_id = client_id;
    redirect_uri = redirect_uri;
    response_type = response_type;
    scope = scope;
    state = q.state;
    dpop_jkt = dpop_jkt;
  })

-- `getDiscoveryConfiguration`.
unfoldable pub discovery_configuration : String → Js
discovery_configuration issuer = obj (
    field "issuer" (str issuer) (
      field "authorization_endpoint" (str (issuer ^^ "/authorize")) (
        field "token_endpoint" (str (issuer ^^ "/token")) (
          field "jwks_uri" (str (issuer ^^ "/jwks.json")) (
            field "response_types_supported" (arr (items (str "code" ∷ []))) (
              field "grant_types_supported"
                (arr (items (str "authorization_code" ∷ (str "refresh_token" ∷ []))))
                (field "subject_types_supported" (arr (items (str "public" ∷ []))) (
                  field "token_endpoint_auth_methods_supported" (arr (items (str "none" ∷ []))) (
                    field "dpop_signing_alg_values_supported" (arr (items (str "EdDSA" ∷ []))) (
                      field "scopes_supported"
                        (arr (items (str "openid" ∷ (str "profile" ∷ (str "email" ∷ [])))))
                        (field "claims_supported"
                          (arr (
                            items (
                              str "iss"
                              ∷ (str "sub"
                                  ∷ (str "aud"
                                      ∷ (str "exp"
                                          ∷ (str "iat"
                                              ∷ (str "cnf"
                                                  ∷ (str "scope" ∷ (str "client_id" ∷ []))))))))))
                          end)))))))))))

-- `getJwks`.
unfoldable pub jwks : Base64Url → Bytes → String → Js
jwks b64 group_public_key key_id = obj (
    field "keys"
      (arr (
        items (
          obj (
            field "kty" (str "OKP") (
              field "crv" (str "Ed25519") (
                field "x" (str (b64.encode group_public_key)) (
                  field "kid" (str key_id)
                    (field "use" (str "sig") (field "alg" (str "EdDSA") end))))))
          ∷ [])))
      end)
