-- ===== src/Wire/Request.antt =====
-- projects/node/src/wire.ts, the request bodies that a node reads.
use decentralized_identity_p.Prelude.{
  ℕ, suc, ℤ, String, Option, none, some, List, [], ◌∷◌, str_eq, if◌then◌else◌, ok, ◌>>=◌, ◌>>◌,
  throw_if, ◌++◌,
}
use decentralized_identity_p.Js.{Js, undefined, arr, Items, nil, cons, get}
use decentralized_identity_p.Runtime.{Base64Url}
use decentralized_identity_p.Protocol.{
  FrostCommitment, SignOnRequest, Grant, authorization_code, AccessTokenClaims, SignRequest,
  SignRounds,
}
use decentralized_identity_p.Wire.{
  name, index, Place, Reads, not_array, not_grant, same_rounds, wire_error, ◌/◌, require_object,
  require_string, require_non_empty_string, optional_string, require_integer, decode_point,
}

-- `requireIntegerArray`, from the element `i` on.
unfoldable pub integers_from : Place → ℕ → Items → Reads (List ℤ)
integers_from place i nil = ok []
integers_from place i (cons v vs) = do
  z ← require_integer (place ++ (index i ∷ [])) v
  zs ← integers_from place (suc i) vs
  ok (z ∷ zs)

unfoldable pub require_integer_array : Place → Js → Reads (List ℤ)
unfolding integers_from
require_integer_array place (arr vs) = integers_from place 0 vs
require_integer_array place _ = wire_error place not_array

unfoldable pub claims_from_wire : Js → Place → Reads AccessTokenClaims
claims_from_wire value place = do
  raw ← require_object place value
  iat ← require_integer (place / "iat") (get "iat" raw)
  exp ← require_integer (place / "exp") (get "exp" raw)
  jti ← require_non_empty_string (place / "jti") (get "jti" raw)
  ok (record { iat = iat; exp = exp; jti = jti })

unfoldable pub grant_from_wire : Place → Js → Reads Grant
grant_from_wire place value = do
  grant ← require_string place value
  (if str_eq grant "authorization_code"
      then ok authorization_code
      else if str_eq grant "refresh_token"
      then ok Grant.refresh_token
      else wire_error place not_grant)

-- `raw.refreshExp !== undefined`.
unfoldable pub optional_integer : Place → Js → Reads (Option ℤ)
optional_integer place undefined = ok none
optional_integer place value = do z ← require_integer place value; ok (some z)

-- Exactly the credential that the grant names is read.
unfoldable pub credential_from_wire :
    Grant → Place → Js → Js → Reads (Option String × Option String)
credential_from_wire authorization_code place assertion refresh = do
  s ← require_non_empty_string (place / "assertion") assertion
  ok (some s, none)
credential_from_wire Grant.refresh_token place assertion refresh = do
  s ← require_non_empty_string (place / "refreshToken") refresh
  ok (none, some s)

abbrev pub body : Place
body = name "body" ∷ []

unfoldable pub commit_envelope_from_wire : Js → Reads String
commit_envelope_from_wire value = do
  raw ← require_object body value
  require_non_empty_string (body / "roundId") (get "roundId" raw)

module _ (b64 : Base64Url) where
  unfoldable pub commitment_from_wire : Js → Place → Reads FrostCommitment
  commitment_from_wire value place = do
    raw ← require_object place value
    node_id ← require_integer (place / "nodeId") (get "nodeId" raw)
    d ← decode_point b64 (place / "D") (get "D" raw)
    e ← decode_point b64 (place / "E") (get "E" raw)
    ok (record { node_id = node_id; d_point = d; e_point = e })

  unfoldable pub commitments_from : Place → ℕ → Items → Reads (List FrostCommitment)
  commitments_from place i nil = ok []
  commitments_from place i (cons v vs) = do
    c ← commitment_from_wire v (place ++ (index i ∷ []))
    cs ← commitments_from place (suc i) vs
    ok (c ∷ cs)

  unfoldable pub commitments_from_wire : Js → Place → Reads (List FrostCommitment)
  unfolding commitments_from
  commitments_from_wire (arr vs) place = commitments_from place 0 vs
  commitments_from_wire _ place = wire_error place not_array

  unfoldable pub sign_on_request_from_wire : Js → Place → Reads SignOnRequest
  sign_on_request_from_wire value place = do
    raw ← require_object place value
    session_id ← require_non_empty_string (place / "sessionId") (get "sessionId" raw)
    username ← require_non_empty_string (place / "username") (get "username" raw)
    blinded ← require_non_empty_string (place / "blinded") (get "blinded" raw)
    session_nonce ← require_non_empty_string (place / "sessionNonce") (get "sessionNonce" raw)
    cnf_jkt ← require_non_empty_string (place / "cnfJkt") (get "cnfJkt" raw)
    client_id ← require_non_empty_string (place / "clientId") (get "clientId" raw)
    scope ← require_string (place / "scope") (get "scope" raw)
    iat ← require_integer (place / "iat") (get "iat" raw)
    exp ← require_integer (place / "exp") (get "exp" raw)
    iss ← require_non_empty_string (place / "iss") (get "iss" raw)
    commitments ← commitments_from_wire (get "commitments" raw) (place / "commitments")
    all_participants ← require_integer_array (place / "allParticipants") (get "allParticipants" raw)
    nonce ← optional_string (place / "nonce") (get "nonce" raw)
    ok (record {
      session_id = session_id;
      username = username;
      blinded = blinded;
      session_nonce = session_nonce;
      cnf_jkt = cnf_jkt;
      client_id = client_id;
      scope = scope;
      nonce = nonce;
      iat = iat;
      exp = exp;
      iss = iss;
      commitments = commitments;
      all_participants = all_participants;
    })

  unfoldable pub sign_request_from_wire : Js → Place → Reads SignRequest
  sign_request_from_wire value place = do
    raw ← require_object place value
    grant ← grant_from_wire (place / "grant") (get "grant" raw)
    dpop_proof ← require_non_empty_string (place / "dpopProof") (get "dpopProof" raw)
    claims ← claims_from_wire (get "claims" raw) (place / "claims")
    commitments ← commitments_from_wire (get "commitments" raw) (place / "commitments")
    refresh_commitments ←
        commitments_from_wire (get "refreshCommitments" raw) (place / "refreshCommitments")
    all_participants ← require_integer_array (place / "allParticipants") (get "allParticipants" raw)
    (assertion, refresh) ←
        credential_from_wire grant place (get "assertion" raw) (get "refreshToken" raw)
    refresh_exp ← optional_integer (place / "refreshExp") (get "refreshExp" raw)
    ok (record {
      grant = grant;
      assertion = assertion;
      refresh_token = refresh;
      dpop_proof = dpop_proof;
      claims = claims;
      refresh_exp = refresh_exp;
      commitments = commitments;
      refresh_commitments = refresh_commitments;
      all_participants = all_participants;
    })

  unfoldable pub sign_on_envelope_from_wire : Js → Reads (String × SignOnRequest)
  sign_on_envelope_from_wire value = do
    raw ← require_object body value
    round_id ← require_non_empty_string (body / "roundId") (get "roundId" raw)
    request ← sign_on_request_from_wire (get "request" raw) (body / "request")
    ok (round_id, request)

  unfoldable pub sign_envelope_from_wire : Js → Reads (SignRounds × SignRequest)
  sign_envelope_from_wire value = do
    raw ← require_object body value
    access ← require_non_empty_string (body / "roundId") (get "roundId" raw)
    refresh ← require_non_empty_string (body / "refreshRoundId") (get "refreshRoundId" raw)
    throw_if (str_eq access refresh)
        (record { place = body / "refreshRoundId"; problem = same_rounds })
    request ← sign_request_from_wire (get "request" raw) (body / "request")
    ok (record { access_round_id = access; refresh_round_id = refresh }, request)
