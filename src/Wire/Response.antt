-- ===== src/Wire/Response.antt =====
-- The answers of a node: what projects/node/src/wire.ts writes, and what
-- projects/gateway/src/nodes/wire.ts reads. The gateway's checks of single values are the node's, but
-- for a point, whose text must not be empty.
use decentralized_identity_p.Prelude.{
  ℕ, ℤ, not, ◌==◌, length, if◌then◌else◌, ok, ◌>>=◌, ◌>>◌, throw_if, or_throw, [], ◌∷◌,
}
use decentralized_identity_p.Js.{Js, str, obj, end, field, int, get}
use decentralized_identity_p.Runtime.{Bytes, Base64Url}
use decentralized_identity_p.Protocol.{
  Commitment, FrostCommitment, SignOnResponse, SignedShare, SignResponse,
}
use decentralized_identity_p.Crypto.Hex.{decode_scalar}
use decentralized_identity_p.Wire.{
  name, Place, Reads, not_base64url, not_scalar, wrong_length, wire_error, ◌/◌, require_object,
  require_non_empty_string, require_integer, is_base64url,
}

-- One half of a `SignResponse` as the gateway holds it: the share is a number.
pub record ReadShare : Type 0 where
  pub commitment : Commitment
  pub z_i : ℕ

pub record ReadSignResponse : Type 0 where
  pub node_id : ℤ
  pub at : ReadShare
  pub rt : ReadShare

-- `decodeScalar`: 64 lowercase hex digits.
unfoldable pub read_scalar : Place → Js → Reads ℕ
read_scalar place value = do
  s ← require_non_empty_string place value
  or_throw (decode_scalar s) (record { place = place; problem = not_scalar })

abbrev pub response : Place
response = name "response" ∷ []

module _ (b64 : Base64Url) where
  -- `commitmentPairToWire`.
  unfoldable pub commitment_pair_to_wire : Commitment → Js
  commitment_pair_to_wire c =
      obj (field "D" (str (b64.encode c.d_point)) (field "E" (str (b64.encode c.e_point)) end))

  unfoldable pub sign_on_response_to_wire : SignOnResponse → Js
  sign_on_response_to_wire res = obj (
      field "nodeId" (int res.node_id) (
        field "commitment" (commitment_pair_to_wire res.commitment) (
          field "toprfPartial" (str res.toprf_partial) (
            field "ct_i" (str res.ct_i)
              (field "sessionId" (str res.session_id) (field "sub" (str res.sub) end))))))

  unfoldable pub share_to_wire : SignedShare → Js
  share_to_wire s =
      obj (field "commitment" (commitment_pair_to_wire s.commitment) (field "z_i" (str s.z_i) end))

  unfoldable pub sign_response_to_wire : SignResponse → Js
  sign_response_to_wire res = obj (
      field "nodeId" (int res.node_id)
        (field "at" (share_to_wire res.at) (field "rt" (share_to_wire res.rt) end)))

  -- The gateway's `decodePoint`.
  unfoldable pub read_point : Place → Js → Reads Bytes
  read_point place value = do
    s ← require_non_empty_string place value
    throw_if (not (is_base64url s)) (record { place = place; problem = not_base64url })
    let bytes = b64.decode s
    if length bytes == 32 then ok bytes else wire_error place (wrong_length 32 (length bytes))

  -- The `{ D, E }` of a response.
  unfoldable pub read_pair : Place → Js → Reads Commitment
  read_pair place value = do
    raw ← require_object place value
    d ← read_point (place / "D") (get "D" raw)
    e ← read_point (place / "E") (get "E" raw)
    ok (record { d_point = d; e_point = e })

  unfoldable pub commit_response_from_wire : Js → Place → Reads FrostCommitment
  commit_response_from_wire value place = do
    raw ← require_object place value
    node_id ← require_integer (place / "nodeId") (get "nodeId" raw)
    d ← read_point (place / "D") (get "D" raw)
    e ← read_point (place / "E") (get "E" raw)
    ok (record { node_id = node_id; d_point = d; e_point = e })

  -- The object that `commitment` must be is checked before the node id.
  unfoldable pub sign_on_response_from_wire : Js → Place → Reads SignOnResponse
  sign_on_response_from_wire value place = do
    raw ← require_object place value
    pair ← require_object (place / "commitment") (get "commitment" raw)
    node_id ← require_integer (place / "nodeId") (get "nodeId" raw)
    d ← read_point (place / "commitment" / "D") (get "D" pair)
    e ← read_point (place / "commitment" / "E") (get "E" pair)
    toprf_partial ← require_non_empty_string (place / "toprfPartial") (get "toprfPartial" raw)
    ct_i ← require_non_empty_string (place / "ct_i") (get "ct_i" raw)
    session_id ← require_non_empty_string (place / "sessionId") (get "sessionId" raw)
    sub ← require_non_empty_string (place / "sub") (get "sub" raw)
    ok (record {
      node_id = node_id;
      commitment = record { d_point = d; e_point = e };
      toprf_partial = toprf_partial;
      ct_i = ct_i;
      session_id = session_id;
      sub = sub;
    })

  unfoldable pub signed_share_from_wire : Js → Place → Reads ReadShare
  signed_share_from_wire value place = do
    raw ← require_object place value
    commitment ← read_pair (place / "commitment") (get "commitment" raw)
    z_i ← read_scalar (place / "z_i") (get "z_i" raw)
    ok (record { commitment = commitment; z_i = z_i })

  unfoldable pub sign_response_from_wire : Js → Place → Reads ReadSignResponse
  sign_response_from_wire value place = do
    raw ← require_object place value
    node_id ← require_integer (place / "nodeId") (get "nodeId" raw)
    at ← signed_share_from_wire (get "at" raw) (place / "at")
    rt ← signed_share_from_wire (get "rt" raw) (place / "rt")
    ok (record { node_id = node_id; at = at; rt = rt })
