-- ===== src/Node/Served.antt =====
-- What the routes of projects/node/src/server.ts change of a node.
use decentralized_identity_p.Prelude.{
  String, refl, sym, subst, inl, inr, Bool, true, false, ok, err, if◌then◌else◌, Result,
  Result-cases, Option-cases, str_eq, ◌&&◌, not,
}
use decentralized_identity_p.Js.{Js}
use decentralized_identity_p.Runtime.{Runtime}
use decentralized_identity_p.Protocol.{
  Commitment, SignOnRequest, SignRequest, SignRounds, SignCommitments,
}
use decentralized_identity_p.Crypto.Aead.{Cipher}
use decentralized_identity_p.Crypto.Frost.{Curve, FrostError, generate_frost_nonces}
use decentralized_identity_p.Crypto.Toprf.{Group}
use decentralized_identity_p.Wire.Request.{
  commit_envelope_from_wire, sign_on_envelope_from_wire, sign_envelope_from_wire,
}
use decentralized_identity_p.Node.{IdentityNode, generate_commitment}
use decentralized_identity_p.Node.Sign.{Handles, handle_sign}
use decentralized_identity_p.Node.SignOn.{handle_sign_on}
use decentralized_identity_p.Node.Spending.{SameNode, handle_sign_changes}
use decentralized_identity_p.Node.Signing.{handle_sign_on_spends}
use decentralized_identity_p.Node.Upload.{BodyResult, text_body, too_long, aborted}
use decentralized_identity_p.Node.Server.{
  Outside, Served, reply_of, own_commitment, committed, serve_commit, serve_sign_on, serve_sign,
  serve_round, handle, is_round_path,
}

unchanged : (node : IdentityNode) → SameNode node node
unchanged node = record {
  node_id = refl;
  secret_key_share = refl;
  group_public_key = refl;
  issuer = refl;
  key_id = refl;
  users = refl;
}

if-SameNode :
    (b : Bool) (node : IdentityNode) (x y : Served)
    → SameNode node x.1
    → SameNode node y.1
    → SameNode node (if b then x else y).1
if-SameNode true node x y h k = h
if-SameNode false node x y h k = k

reply_of-SameNode :
    {A : Type 0} (to_wire : A → Js) (node : IdentityNode) (out : Handles A × IdentityNode)
    → SameNode node out.1
    → SameNode node (reply_of to_wire out).1
unfolding reply_of
reply_of-SameNode to_wire node (ok a, after) h = h
reply_of-SameNode to_wire node (err e, after) h = h

module _ (rt : Runtime) {Point : Type 0} (curve : Curve Point) {Blind : Type 0}
    (ristretto : Group Blind) (cipher : Cipher) (outside : Outside) where
  committed-SameNode :
      (node : IdentityNode) (out : Result FrostError Commitment × IdentityNode)
      → SameNode node out.1
      → SameNode node (committed rt curve ristretto cipher outside out).1
  unfolding committed
  committed-SameNode node (ok c, after) h = h
  committed-SameNode node (err e, after) h = h

  generate_commitment-SameNode :
      (round : String) (node : IdentityNode)
      → SameNode node (generate_commitment curve round outside.d outside.e node).1
  unfolding generate_commitment
  generate_commitment-SameNode round node =
      elim (Result-cases (generate_frost_nonces curve outside.d outside.e)) [
        | inr (e, h) ↦ rw (h, generate_commitment) (unchanged node)
        | inl (made, h) ↦
            rw (h, generate_commitment)
              (record {
                node_id = refl;
                secret_key_share = refl;
                group_public_key = refl;
                issuer = refl;
                key_id = refl;
                users = refl;
              })
      ]

  serve_commit-SameNode :
      (body : Js) (node : IdentityNode)
      → SameNode node (serve_commit rt curve ristretto cipher outside body node).1
  unfolding serve_commit
  serve_commit-SameNode body node = elim (Result-cases (commit_envelope_from_wire body)) [
    | inr (e, h) ↦ rw (h, serve_commit) (unchanged node)
    | inl (round, h) ↦
        rw (h, serve_commit) (committed-SameNode node _ (generate_commitment-SameNode round node))
  ]

  handle_sign_on-SameNode :
      (round : String) (req : SignOnRequest) (own : Commitment) (node : IdentityNode)
      → SameNode node (handle_sign_on rt curve ristretto cipher outside.now round req own node).1
  handle_sign_on-SameNode round req own node =
      elim (handle_sign_on_spends rt curve ristretto cipher outside.now round req own node) [
        | inl same ↦ subst (SameNode node) (sym same) (unchanged node)
        | inr spent ↦ spent.same
      ]

  handle_sign-SameNode :
      (rounds : SignRounds) (req : SignRequest) (own : SignCommitments) (node : IdentityNode)
      → SameNode node (handle_sign rt curve outside.clock rounds req own node).1
  handle_sign-SameNode rounds req own node =
      elim (handle_sign_changes rt curve outside.clock rounds req own node) [
        | inl same ↦ subst (SameNode node) (sym same) (unchanged node)
        | inr spent ↦ spent.same
      ]

  serve_sign_on-SameNode :
      (body : Js) (node : IdentityNode)
      → SameNode node (serve_sign_on rt curve ristretto cipher outside body node).1
  unfolding serve_sign_on
  serve_sign_on-SameNode body node =
      elim (Result-cases (sign_on_envelope_from_wire rt.base64url body)) [
        | inr (e, h) ↦ rw (h, serve_sign_on) (unchanged node)
        | inl ((round, req), h) ↦
            elim (Result-cases (own_commitment node.node_id req.commitments)) [
              | inr (e, k) ↦ rw (h, k, serve_sign_on) (unchanged node)
              | inl (own, k) ↦
                  rw (h, k, serve_sign_on)
                    (reply_of-SameNode _ node _ (handle_sign_on-SameNode round req own node))
            ]
      ]

  serve_sign-SameNode :
      (body : Js) (node : IdentityNode)
      → SameNode node (serve_sign rt curve ristretto cipher outside body node).1
  unfolding serve_sign
  serve_sign-SameNode body node = elim (Result-cases (sign_envelope_from_wire rt.base64url body)) [
    | inr (e, h) ↦ rw (h, serve_sign) (unchanged node)
    | inl ((rounds, req), h) ↦ elim (Result-cases (own_commitment node.node_id req.commitments)) [
      | inr (e, k) ↦ rw (h, k, serve_sign) (unchanged node)
      | inl (own, k) ↦ elim (Result-cases (own_commitment node.node_id req.refresh_commitments)) [
        | inr (e, l) ↦ rw (h, k, l, serve_sign) (unchanged node)
        | inl (refresh, l) ↦
            rw (h, k, l, serve_sign)
              (reply_of-SameNode _ node _ (handle_sign-SameNode rounds req _ node))
      ]
    ]
  ]

  serve_round-SameNode :
      (path : String) (collected : BodyResult) (node : IdentityNode)
      → SameNode node (serve_round rt curve ristretto cipher outside path collected node).1
  unfolding serve_round
  serve_round-SameNode path aborted node = unchanged node
  serve_round-SameNode path too_long node = unchanged node
  serve_round-SameNode path (text_body text) node = elim (Option-cases (rt.json_parse text)) [
    | inl h ↦ rw (h, serve_round) (unchanged node)
    | inr (body, h) ↦
        rw (h, serve_round)
          (if-SameNode (str_eq path "/commit") node _ _ (serve_commit-SameNode body node) (
            if-SameNode (str_eq path "/sign-on") node _ _ (serve_sign_on-SameNode body node)
              (serve_sign-SameNode body node)))
  ]

  -- Whatever request comes, the node's id, keys, issuer and users stay as they were; only its open
  -- rounds can change.
  pub handle-SameNode :
      (method path : String) (collected : BodyResult) (node : IdentityNode)
      → SameNode node (handle rt curve ristretto cipher outside method path collected node).1
  unfolding handle
  handle-SameNode method path collected node =
      if-SameNode (str_eq path "/health") node _ _
        (if-SameNode (not (str_eq method "GET") && not (str_eq method "HEAD")) node _ _
          (unchanged node) (unchanged node))
        (if-SameNode (is_round_path path) node _ _
          (if-SameNode (str_eq method "POST") node _ _ (serve_round-SameNode path collected node)
            (unchanged node))
          (unchanged node))
