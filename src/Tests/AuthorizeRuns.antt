-- ===== src/Tests/AuthorizeRuns.antt =====
-- An authorization request.
use decentralized_identity_p.Prelude.{includes, ◌≡◌, ◌↔◌, refl, none, some, ok, ◌>>=◌}
use decentralized_identity_p.Gateway.Oidc.{
  AuthorizeQuery, AuthorizeParams, validate_authorize_request, needed, words, is_thumbprint,
  has_length,
}
use decentralized_identity_p.Gateway.Authorized.{IsAuthorize, validate_authorize_request_iff}
use decentralized_identity_p.Wire.{is_base64url}

abbrev query : AuthorizeQuery
query = record {
  client_id = some "rp";
  redirect_uri = some "https://rp/back";
  response_type = some "code";
  scope = some "profile openid";
  state = none;
  dpop_jkt = some "abcdefghijklmnopqrstuvwxyzABCDEFGHIJKLM_-01";
}

abbrev params : AuthorizeParams
params = record {
  client_id = "rp";
  redirect_uri = "https://rp/back";
  response_type = "code";
  scope = "profile openid";
  state = none;
  dpop_jkt = "abcdefghijklmnopqrstuvwxyzABCDEFGHIJKLM_-01";
}

accepted : validate_authorize_request query ≡ ok params
unfolding validate_authorize_request needed words includes is_thumbprint has_length is_base64url
    ◌>>=◌
accepted = refl

validate_authorize_request_iff_example :
    (validate_authorize_request query ≡ ok params) ↔ IsAuthorize query params
validate_authorize_request_iff_example = validate_authorize_request_iff query params
