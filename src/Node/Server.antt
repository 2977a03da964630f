-- ===== src/Node/Server.antt =====
-- projects/node/src/server.ts: `handle`, the routes of a node, as a function from a request to an
-- answer and the node after it. The body is what `readBody` made of it; the two random scalars and the
-- readings of the clock are arguments. Headers, the messages' texts and the demo log are left out.
use decentralized_identity_p.Prelude.{
  ℕ, ℤ, String, Bool, ◌||◌, ◌&&◌, not, none, some, Result, ok, err, if◌then◌else◌, str_eq, List,
}
use decentralized_identity_p.Js.{Js, str, obj, end, field, int}
use decentralized_identity_p.Runtime.{Runtime}
use decentralized_identity_p.Protocol.{Commitment, FrostCommitment}
use decentralized_identity_p.Crypto.Aead.{Cipher}
use decentralized_identity_p.Crypto.Frost.{Curve, FrostError}
use decentralized_identity_p.Crypto.Toprf.{Group}
use decentralized_identity_p.Wire.{WireError}
use decentralized_identity_p.Wire.Request.{
  commit_envelope_from_wire, sign_on_envelope_from_wire, sign_envelope_from_wire,
}
use decentralized_identity_p.Wire.Response.{sign_on_response_to_wire, sign_response_to_wire}
use decentralized_identity_p.Gateway.Proxy.{find_commitment}
use decentralized_identity_p.Node.{IdentityNode, NodeError, generate_commitment}
use decentralized_identity_p.Node.Sign.{Clock, Handles, handle_sign}
use decentralized_identity_p.Node.SignOn.{handle_sign_on}
use decentralized_identity_p.Node.Upload.{BodyResult, text_body, too_long, aborted}

-- Why a body that is JSON is refused.
pub data Refusal : Type 0 where
  unreadable : WireError → Refusal
  no_own_commitment : Refusal
  not_committed : FrostError → Refusal
  rejected : NodeError → Refusal

-- What is sent: 200 with a body, 405, 413, 400, 404, or nothing.
pub data Reply : Type 0 where
  sent : Js → Reply
  not_allowed too_large not_json : Reply
  bad_request : Refusal → Reply
  not_found no_reply : Reply

-- What a request reads from the outside.
pub record Outside : Type 0 where
  pub d : ℕ
  pub e : ℕ
  pub now : ℕ
  pub clock : Clock

abbrev pub Served : Type 0
Served = Reply × IdentityNode

-- The `catch` of the routes, which answers 400.
unfoldable pub reply_of : {A : Type 0} → (A → Js) → Handles A × IdentityNode → Served
reply_of to_wire (ok a, node) = (sent (to_wire a), node)
reply_of to_wire (err e, node) = (bad_request (rejected e), node)

abbrev pub is_round_path : String → Bool
is_round_path path = str_eq path "/commit" || (str_eq path "/sign-on" || str_eq path "/sign")

-- The gateway's `find` by the node's id is the node's `ownCommitment`.
unfoldable pub own_commitment : ℤ → List FrostCommitment → Result Refusal Commitment
own_commitment id cs = elim (find_commitment id cs) [ none ↦ err no_own_commitment | some c ↦ ok c ]

module _ (rt : Runtime) {Point : Type 0} (curve : Curve Point) {Blind : Type 0}
    (ristretto : Group Blind) (cipher : Cipher) (outside : Outside) where
  open rt use {base64url, json_parse}

  unfoldable pub committed : Result FrostError Commitment × IdentityNode → Served
  committed (err e, node) = (bad_request (not_committed e), node)
  committed (ok c, node) = (
    sent (
        obj (
          field "nodeId" (int node.node_id) (
            field "D" (str (base64url.encode c.d_point))
              (field "E" (str (base64url.encode c.e_point)) end)))),
    node,
  )

  unfoldable pub serve_commit : Js → IdentityNode → Served
  serve_commit body node = elim (commit_envelope_from_wire body) [
    | err e ↦ (bad_request (unreadable e), node)
    | ok round ↦ committed (generate_commitment curve round outside.d outside.e node)
  ]

  unfoldable pub serve_sign_on : Js → IdentityNode → Served
  serve_sign_on body node = elim (sign_on_envelope_from_wire base64url body) [
    | err e ↦ (bad_request (unreadable e), node)
    | ok (round, req) ↦ elim (own_commitment node.node_id req.commitments) [
      | err e ↦ (bad_request e, node)
      | ok own ↦
          reply_of (sign_on_response_to_wire base64url)
            (handle_sign_on rt curve ristretto cipher outside.now round req own node)
    ]
  ]

  unfoldable pub serve_sign : Js → IdentityNode → Served
  serve_sign body node = elim (sign_envelope_from_wire base64url body) [
    | err e ↦ (bad_request (unreadable e), node)
    | ok (rounds, req) ↦ elim (own_commitment node.node_id req.commitments) [
      | err e ↦ (bad_request e, node)
      | ok own ↦ elim (own_commitment node.node_id req.refresh_commitments) [
        | err e ↦ (bad_request e, node)
        | ok own_refresh ↦ reply_of (sign_response_to_wire base64url) (
            handle_sign rt curve outside.clock rounds req
              (record { access = own; refresh = own_refresh }) node)
      ]
    ]
  ]

  unfoldable pub serve_round : String → BodyResult → IdentityNode → Served
  serve_round path aborted node = (no_reply, node)
  serve_round path too_long node = (too_large, node)
  serve_round path (text_body text) node = elim (json_parse text) [
    | none ↦ (not_json, node)
    | some body ↦
        if str_eq path "/commit"
        then serve_commit body node
        else if str_eq path "/sign-on"
        then serve_sign_on body node
        else serve_sign body node
  ]

  unfoldable pub handle : String → String → BodyResult → IdentityNode → Served
  handle method path collected node =
      if str_eq path "/health"
      then (if not (str_eq method "GET") && not (str_eq method "HEAD")
          then (not_allowed, node)
          else (
            sent (
                obj (
                  field "status" (str "ok") (
                    field "nodeId" (int node.node_id) (
                      field "groupPublicKey" (str (base64url.encode node.group_public_key)) end)))),
            node,
          ))
      else if is_round_path path
      then (if str_eq method "POST" then serve_round path collected node else (not_allowed, node))
      else (not_found, node)
