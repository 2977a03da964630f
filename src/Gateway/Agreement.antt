-- ===== src/Gateway/Agreement.antt =====
-- The gateway rebuilds the bytes that the nodes sign: what it reads out of a credential without
-- verifying it is what a node that accepts the credential reads, and the claims that it pins are
-- within a node's bounds.
use decentralized_identity_p.Prelude.{
  ℕ, ◌+◌, ◌*◌, ◌≤◌, ℤ, pos, ◌+ℤ◌, ◌-ℤ◌, ◌≡◌, refl, String, true, false, Option, none, some, arith,
  is_empty, ok, ◌>>=◌,
}
use decentralized_identity_p.Js.{Js, str, obj, num, arr, bool, undefined, null, read, get}
use decentralized_identity_p.Runtime.{Runtime}
use decentralized_identity_p.Protocol.{Grant, AccessTokenClaims}
use decentralized_identity_p.Crypto.Frost.{Curve}
use decentralized_identity_p.Jwt.{create_signing_input}
use decentralized_identity_p.Node.{IdentityNode}
use decentralized_identity_p.Node.Credential.{CredentialClaims, confirmation}
use decentralized_identity_p.Node.Verified.{IsGenuine}
use decentralized_identity_p.Node.Sign.{
  check_claims, access_token_header, refresh_token_header, access_token_payload,
  refresh_token_payload, refresh_exp_of,
}
use decentralized_identity_p.Gateway.Credential.{
  IdentityClaims, is_object, text_property, jkt_property, decode_payload, decode_credential_claims,
}
use decentralized_identity_p.Gateway.Commitments.{Collected}
use decentralized_identity_p.Gateway.Proxy.{
  Proxy, access_header, refresh_header, access_payload, refresh_payload, sign_request,
}

-- The identity fields of a node's claims.
abbrev pub identity_of : CredentialClaims → IdentityClaims
identity_of c = record { sub = c.sub; client_id = c.client_id; scope = c.scope; jkt = c.jkt }

text_property-eq :
    (name : String) (payload : Js) (s : String)
    → read name payload ≡ some (str s)
    → is_empty s ≡ false
    → text_property name payload ≡ ok s
unfolding text_property
text_property-eq name payload s h k = rw (h, text_property) (rw k)

jkt_property-eq :
    (o : Option Js) (s : String)
    → confirmation o ≡ some (str s)
    → is_empty s ≡ false
    → jkt_property o ≡ ok s
unfolding confirmation jkt_property
jkt_property-eq none s h k = cc
jkt_property-eq (some (obj fs)) s h k = let found : get "jkt" fs ≡ str s = cc in simp (found, k)
jkt_property-eq (some undefined) s h k = cc
jkt_property-eq (some null) s h k = cc
jkt_property-eq (some (bool b)) s h k = cc
jkt_property-eq (some (num z m)) s h k = cc
jkt_property-eq (some (str t)) s h k = cc
jkt_property-eq (some (arr vs)) s h k = cc

is_object-read :
    (name : String) (payload : Js) (s : String)
    → read name payload ≡ some (str s)
    → is_object payload ≡ true
is_object-read name (obj fs) s h = refl
is_object-read name (arr vs) s h = refl
is_object-read name undefined s h = cc
is_object-read name null s h = cc
is_object-read name (bool b) s h = cc
is_object-read name (num z m) s h = cc
is_object-read name (str t) s h = cc

module _ (rt : Runtime) where
  -- A credential that some node accepts, as an assertion or as a refresh token, is decoded by the
  -- gateway to the subject, client, scope and key that the node read.
  pub decode_credential_claims-IsGenuine :
      (now : ℕ) (node : IdentityNode) (token typ : String) (c : CredentialClaims)
      → IsGenuine rt now node token typ c
      → decode_credential_claims rt token ≡ ok (identity_of c)
  unfolding decode_credential_claims decode_payload ◌>>=◌
  decode_credential_claims-IsGenuine now node token typ c g =
      let r = g.carries in
      simp (
        g.verified.parts,
        g.verified.payload_parses,
        is_object-read "sub" g.payload c.sub r.sub,
        jkt_property-eq _ c.jkt r.jkt r.jkt_not_empty,
        text_property-eq "sub" g.payload c.sub r.sub r.sub_not_empty,
        text_property-eq "client_id" g.payload c.client_id r.client_id r.client_id_not_empty,
        ← r.scope,
      )

  -- For a credential that a node accepts, a gateway of the same issuer and key id rebuilds, for both
  -- tokens, the very bytes that the node signs, whatever claims it pins.
  pub signing_inputs_agree :
      (p : Proxy) (now : ℕ) (node : IdentityNode) (token typ : String) (c : CredentialClaims)
      (claims : AccessTokenClaims) (refresh_exp : ℤ)
      → IsGenuine rt now node token typ c
      → p.issuer ≡ node.issuer
      → p.key_id ≡ node.key_id
      → (ic : IdentityClaims) × (decode_credential_claims rt token ≡ ok ic)
        × (create_signing_input rt (access_header p) (access_payload p ic claims)
            ≡ create_signing_input rt
                (access_token_header node)
                (access_token_payload node c claims))
        × (create_signing_input rt (refresh_header p) (refresh_payload p ic claims refresh_exp)
            ≡ create_signing_input rt
                (refresh_token_header node)
                (refresh_token_payload node c claims refresh_exp))
  unfolding access_header access_payload refresh_header refresh_payload access_token_header
      access_token_payload refresh_token_header refresh_token_payload
  signing_inputs_agree p now node token typ c claims refresh_exp g same_issuer same_key = (
    identity_of c,
    decode_credential_claims-IsGenuine now node token typ c g,
    rw (same_issuer, same_key),
    rw (same_issuer, same_key),
  )

module _ (rt : Runtime) {Point : Type 0} (curve : Curve Point) where
  -- A node whose clock is within 60 seconds of the gateway's accepts the claims that the gateway pins,
  -- where the id is not empty, and takes the refresh expiry from the request.
  pub check_claims-sign_request :
      (grant : Grant) (credential dpop_proof : String) (now node_now : ℕ) (jti : String)
      (access refresh : Collected)
      → is_empty jti ≡ false
      → now ≤ node_now + 60
      → node_now ≤ now + 60
      → check_claims node_now
          (sign_request rt curve grant credential dpop_proof now jti access refresh)
        ≡ ok (pos now +ℤ pos (86400 * 30))
  unfolding check_claims sign_request refresh_exp_of ◌>>=◌ ◌+ℤ◌ ◌-ℤ◌
  check_claims-sign_request grant credential dpop_proof now node_now jti access refresh j a b =
      ground arith
