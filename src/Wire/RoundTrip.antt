-- ===== src/Wire/RoundTrip.antt =====
-- What the gateway encodes, the node decodes to the same request.
use decentralized_identity_p.Prelude.{
  ◌>>=◌, str_eq, false, none, Option, ◌++◌, some, All, length, ℕ, suc, ℤ, ◌≡◌, refl, String, List,
  [], ◌∷◌, ok, map,
}
use decentralized_identity_p.Js.{Js, undefined, Fields, get, end, str, int, items}
use decentralized_identity_p.Runtime.{Bytes, IsBytes, Base64Url}
use decentralized_identity_p.Protocol.{
  SignRounds, SignRequest, authorization_code, Grant, SignOnRequest, AccessTokenClaims,
  FrostCommitment,
}
use decentralized_identity_p.Wire.{
  index, require_string, optional_string, Place, require_object, require_non_empty_string,
  require_integer, decode_point,
}
use decentralized_identity_p.Wire.Request.{
  sign_on_envelope_from_wire, sign_envelope_from_wire, sign_request_from_wire, credential_from_wire,
  optional_integer, commitments_from_wire, require_integer_array, claims_from_wire, grant_from_wire,
  commitments_from, sign_on_request_from_wire, integers_from, commitment_from_wire,
}
use decentralized_identity_p.Wire.Encode.{
  sign_on_envelope_to_wire, sign_envelope_to_wire, sign_request_to_wire, credential_to_wire,
  field_if, option_js, sign_on_request_to_wire, claims_to_wire, integers_to_wire,
  commitments_to_wire, grant_to_wire, commitment_to_wire,
}
use decentralized_identity_p.Wire.Shapes.{
  IsCredential, IsSign, IsSignOn, IsBase64Url, IsNonEmpty, IsPoints,
}

pub non_empty-str :
    (place : Place) (s : String) → IsNonEmpty s → require_non_empty_string place (str s) ≡ ok s
unfolding ◌>>=◌ require_non_empty_string
non_empty-str place s h = rw h

integers_from-items :
    (place : Place) (i : ℕ) (zs : List ℤ) → integers_from place i (items (map int zs)) ≡ ok zs
unfolding ◌>>=◌ integers_from require_integer
integers_from-items place i [] = refl
integers_from-items place i (z ∷ zs) = rw (integers_from-items place (suc i) zs)

module _ (b64 : Base64Url) (laws : IsBase64Url b64) where
  decode_point-encode :
      (place : Place) (p : Bytes)
      → IsBytes p
      → length p ≡ 32
      → decode_point b64 place (str (b64.encode p)) ≡ ok p
  unfolding ◌>>=◌ decode_point
  decode_point-encode place p h e = simp (laws.in_alphabet p, laws.decode-encode p h, e)

  commitment_lem :
      (c : FrostCommitment) (place : Place)
      → IsPoints c
      → commitment_from_wire b64 (commitment_to_wire b64 c) place ≡ ok c
  unfolding ◌>>=◌ commitment_from_wire commitment_to_wire require_object require_integer
  commitment_lem c place h =
      simp (decode_point-encode _ c.d_point h.0 h.2.0, decode_point-encode _ c.e_point h.1 h.2.1)

  commitments_from-items :
      (place : Place) (i : ℕ) (cs : List FrostCommitment)
      → All IsPoints cs
      → commitments_from b64 place i (items (map (commitment_to_wire b64) cs)) ≡ ok cs
  unfolding ◌>>=◌ commitments_from
  commitments_from-items place i [] h = refl
  commitments_from-items place i (c ∷ cs) h =
      simp (
        commitment_lem c (place ++ (index i ∷ [])) h.0,
        commitments_from-items place (suc i) cs h.1,
      )

  commitments_lem :
      (cs : List FrostCommitment) (place : Place)
      → All IsPoints cs
      → commitments_from_wire b64 (commitments_to_wire b64 cs) place ≡ ok cs
  unfolding ◌>>=◌ commitments_from_wire commitments_to_wire
  commitments_lem cs place h = commitments_from-items place 0 cs h

optional_string_lem : (place : Place) (s : String) → optional_string place (str s) ≡ ok (some s)
unfolding ◌>>=◌ optional_string
optional_string_lem place s = refl

integer_array_lem :
    (place : Place) (zs : List ℤ) → require_integer_array place (integers_to_wire zs) ≡ ok zs
unfolding ◌>>=◌ require_integer_array
integer_array_lem place zs = integers_from-items place 0 zs

claims_lem :
    (c : AccessTokenClaims) (place : Place)
    → IsNonEmpty c.jti
    → claims_from_wire (claims_to_wire c) place ≡ ok c
unfolding ◌>>=◌ claims_from_wire claims_to_wire require_object require_integer
claims_lem c place h = simp (non_empty-str _ c.jti h)

grant_lem : (place : Place) (g : Grant) → grant_from_wire place (grant_to_wire g) ≡ ok g
unfolding ◌>>=◌ grant_from_wire grant_to_wire require_string
grant_lem place authorization_code = refl
grant_lem place Grant.refresh_token = refl

nonce_lem :
    (place : Place) (n : Option String)
    → optional_string place (get "nonce" (field_if "nonce" (option_js str n) end)) ≡ ok n
unfolding ◌>>=◌ optional_string require_string
nonce_lem place none = refl
nonce_lem place (some s) = refl

refresh_exp_lem :
    (place : Place) (n : Option ℤ)
    → optional_integer place (get "refreshExp" (field_if "refreshExp" (option_js int n) end)) ≡ ok n
unfolding ◌>>=◌ optional_integer require_integer
refresh_exp_lem place none = refl
refresh_exp_lem place (some z) = refl

module _ (b64 : Base64Url) (laws : IsBase64Url b64) where
  pub sign_on_request_lem :
      (req : SignOnRequest) (place : Place)
      → IsSignOn IsPoints req
      → sign_on_request_from_wire b64 (sign_on_request_to_wire b64 req) place ≡ ok req
  unfolding ◌>>=◌ sign_on_request_from_wire sign_on_request_to_wire require_object require_integer
      require_string
  sign_on_request_lem req place h = simp (
    non_empty-str,
    h.session_id,
    h.username,
    h.blinded,
    h.session_nonce,
    h.cnf_jkt,
    h.client_id,
    h.iss,
    commitments_lem b64 laws req.commitments _ h.commitments,
    integer_array_lem,
    nonce_lem,
  )

credential_lem :
    (req : SignRequest) (place : Place) (g : Grant) (rest : Fields)
    → IsCredential g req.assertion req.refresh_token
    → get "assertion" rest ≡ undefined
    → get "refreshToken" rest ≡ undefined
    → credential_from_wire g place
        (get "assertion" (credential_to_wire req g rest))
        (get "refreshToken" (credential_to_wire req g rest))
      ≡ ok (req.assertion, req.refresh_token)
unfolding ◌>>=◌ credential_from_wire credential_to_wire
credential_lem req place authorization_code rest h ea er =
    simp (h.0.1, h.1, non_empty-str _ h.0.0 h.0.2)
credential_lem req place Grant.refresh_token rest h ea er =
    simp (h.0.1, h.1, non_empty-str _ h.0.0 h.0.2)

get-credential :
    (req : SignRequest) (g : Grant) (rest : Fields)
    → get "refreshExp" (credential_to_wire req g rest) ≡ get "refreshExp" rest
unfolding ◌>>=◌ credential_to_wire
get-credential req authorization_code rest = refl
get-credential req Grant.refresh_token rest = refl

get-refresh_exp :
    (o : Option Js)
    → (get "assertion" (field_if "refreshExp" o end) ≡ undefined)
      × (get "refreshToken" (field_if "refreshExp" o end) ≡ undefined)
get-refresh_exp none = (refl, refl)
get-refresh_exp (some v) = (refl, refl)

module _ (b64 : Base64Url) (laws : IsBase64Url b64) where
  pub sign_request_lem :
      (req : SignRequest) (place : Place)
      → IsSign IsPoints req
      → sign_request_from_wire b64 (sign_request_to_wire b64 req) place ≡ ok req
  unfolding ◌>>=◌ sign_request_from_wire sign_request_to_wire require_object
  sign_request_lem req place h =
      let absent = get-refresh_exp (option_js int req.refresh_exp) in
      simp (
        grant_lem,
        non_empty-str,
        h.dpop_proof,
        claims_lem req.claims _ h.jti,
        commitments_lem b64 laws req.commitments _ h.commitments,
        commitments_lem b64 laws req.refresh_commitments _ h.refresh_commitments,
        integer_array_lem,
        get-credential,
        credential_lem req place req.grant
            (field_if "refreshExp" (option_js int req.refresh_exp) end) h.credential absent.0
            absent.1,
        refresh_exp_lem,
      )

  -- A sign-on body that the gateway posts is read by the node as the round and the request that the
  -- gateway meant, where the texts are not empty and the commitments are points of 32 bytes.
  pub sign_on_envelope_lem :
      (round_id : String) (req : SignOnRequest)
      → IsNonEmpty round_id
      → IsSignOn IsPoints req
      → sign_on_envelope_from_wire b64 (sign_on_envelope_to_wire b64 round_id req)
        ≡ ok (round_id, req)
  unfolding ◌>>=◌ sign_on_envelope_from_wire sign_on_envelope_to_wire require_object
  sign_on_envelope_lem round_id req k h =
      simp (non_empty-str, k, sign_on_request_lem b64 laws req _ h)

  -- The same of a sign body, whose two rounds must differ: the credential that the grant names
  -- arrives, with the claims, the optional `refreshExp` and both commitment lists.
  pub sign_envelope_lem :
      (rounds : SignRounds) (req : SignRequest)
      → IsNonEmpty rounds.access_round_id
      → IsNonEmpty rounds.refresh_round_id
      → str_eq rounds.access_round_id rounds.refresh_round_id ≡ false
      → IsSign IsPoints req
      → sign_envelope_from_wire b64 (sign_envelope_to_wire b64 rounds req) ≡ ok (rounds, req)
  unfolding ◌>>=◌ sign_envelope_from_wire sign_envelope_to_wire require_object
  sign_envelope_lem rounds req k l ne h = simp (non_empty-str, k, l, ne, sign_request_lem req _ h)
