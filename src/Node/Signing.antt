-- ===== src/Node/Signing.antt =====
-- What `handleSignOn` of projects/node/src/protocol/node.ts does to the open rounds, and what stands
-- behind its answer.
use decentralized_identity_p.Crypto.Toprf.{Group}
use decentralized_identity_p.Prelude.{
  ℕ, ◌≡◌, ◌≢◌, ◌⊎◌, inl, inr, refl, String, Option, none, some, arith, str_eq, eq_iff, eq_refl,
  lookup-erase, if◌then◌else◌, ok, err, Result-cases,
}
use decentralized_identity_p.Runtime.{Runtime}
use decentralized_identity_p.Protocol.{Commitment, FrostNonces, SignOnRequest, SignOnResponse}
use decentralized_identity_p.Crypto.Aead.{Cipher}
use decentralized_identity_p.Crypto.Frost.{Curve}
use decentralized_identity_p.Node.{IdentityNode, NodeError, UserRecord}
use decentralized_identity_p.Node.Sign.{Handles}
use decentralized_identity_p.Node.Spending.{SameNode, open_nonces}
use decentralized_identity_p.Node.SignOn.{
  check_sign_on, spend_round, sign_assertion, sign_on_round, handle_sign_on,
}
use decentralized_identity_p.Node.SignedOn.{
  IsAdmitted, IsSealed, check_sign_on-IsAdmitted, sign_assertion-IsSealed,
}

pub open_nonces-spend_round :
    (round other : String) (node : IdentityNode)
    → open_nonces other (spend_round round node)
      ≡ (if str_eq round other then none else open_nonces other node)
unfolding spend_round
open_nonces-spend_round round other node = simp lookup-erase

-- The round was open, it is closed now, and nothing else differs.
pub record RoundSpent (round : String) (node after : IdentityNode) : Type 0 where
  pub was_open : open_nonces round node ≢ none
  pub is_closed : open_nonces round after ≡ none
  pub others : (r : String) → r ≢ round → open_nonces r after ≡ open_nonces r node
  pub same : SameNode node after

spend_round-RoundSpent :
    (round : String) (node : IdentityNode)
    → open_nonces round node ≢ none
    → RoundSpent round node (spend_round round node)
unfolding spend_round
spend_round-RoundSpent round node o = record {
  was_open = o;
  is_closed = rw open_nonces-spend_round (simp eq_refl);
  others = λ r d. rw open_nonces-spend_round (ground (arith, eq_iff round r));
  same = record {
    node_id = refl;
    secret_key_share = refl;
    group_public_key = refl;
    issuer = refl;
    key_id = refl;
    users = refl;
  };
}

module _ (rt : Runtime) {Point : Type 0} (curve : Curve Point) {Blind : Type 0}
    (ristretto : Group Blind) (cipher : Cipher) where
  -- A call either stops before it spends the round, and leaves the node as it was, or it spends the
  -- round and then signs.
  data SignOnStep (now : ℕ) (round : String) (req : SignOnRequest) (commitment : Commitment)
      (node : IdentityNode) : Handles SignOnResponse × IdentityNode → Type 0 where
    stopped : (e : NodeError) → SignOnStep now round req commitment node (err e, node)
    signed :
        (user : UserRecord) (nonces : FrostNonces)
        → IsAdmitted now node req user
        → open_nonces round node ≡ some nonces
        → RoundSpent round node (spend_round round node)
        → SignOnStep now round req commitment node (
          sign_assertion rt curve ristretto cipher node req commitment user nonces,
          spend_round round node,
        )

  sign_on_round-SignOnStep :
      (now : ℕ) (round : String) (req : SignOnRequest) (commitment : Commitment)
      (node : IdentityNode) (user : UserRecord) (nonces : Option FrostNonces)
      → IsAdmitted now node req user
      → open_nonces round node ≡ nonces
      → SignOnStep now round req commitment node
          (sign_on_round rt curve ristretto cipher node round req commitment user nonces)
  unfolding sign_on_round
  sign_on_round-SignOnStep now round req commitment node user none a e = stopped _
  sign_on_round-SignOnStep now round req commitment node user (some n) a e =
      signed user n a e (spend_round-RoundSpent round node (λ z. cc))

  handle_sign_on-SignOnStep :
      (now : ℕ) (round : String) (req : SignOnRequest) (commitment : Commitment)
      (node : IdentityNode)
      → SignOnStep now round req commitment node
          (handle_sign_on rt curve ristretto cipher now round req commitment node)
  unfolding handle_sign_on
  handle_sign_on-SignOnStep now round req commitment node =
      elim (Result-cases (check_sign_on now node req)) [
        | inl (user, e) ↦
            rw (e, handle_sign_on)
              (sign_on_round-SignOnStep now round req commitment node user _
                (check_sign_on-IsAdmitted now node req e) refl)
        | inr (e, h) ↦ rw (h, handle_sign_on) (stopped _)
      ]

  -- What stands behind an answer: a user of the node, times within bounds, a round that was open and is
  -- closed, and an answer made with that round's nonces.
  pub record IsSignedOn (now : ℕ) (round : String) (req : SignOnRequest) (commitment : Commitment)
      (node after : IdentityNode) (res : SignOnResponse) : Type 0 where
    pub user : UserRecord
    pub admitted : IsAdmitted now node req user
    pub nonces : FrostNonces
    pub round_open : open_nonces round node ≡ some nonces
    pub sealed : IsSealed rt curve ristretto cipher node user req nonces commitment res
    pub spent : RoundSpent round node after

  module _ {now : ℕ} {round : String} {req : SignOnRequest} {commitment : Commitment}
      {node : IdentityNode} where
    step_of_ok :
        {out : Handles SignOnResponse × IdentityNode} {res : SignOnResponse}
        → SignOnStep now round req commitment node out
        → out.0 ≡ ok res
        → IsSignedOn now round req commitment node out.1 res
    step_of_ok (stopped e) h = cc
    step_of_ok (signed user nonces a e s) h = record {
      user = user;
      admitted = a;
      nonces = nonces;
      round_open = e;
      sealed = sign_assertion-IsSealed rt curve ristretto cipher node req commitment user nonces h;
      spent = s;
    }

    step_of_any :
        {out : Handles SignOnResponse × IdentityNode}
        → SignOnStep now round req commitment node out
        → (out.1 ≡ node) ⊎ RoundSpent round node out.1
    step_of_any (stopped e) = inl refl
    step_of_any (signed user nonces a e s) = inr s

  -- Whenever `handleSignOn` returns, the requester is a user of the node, the issuer is the node's, the
  -- times are within bounds, the round was open and nothing but that round has changed, which is closed,
  -- and the answer holds the evaluation of the blinded point under the user's key share and the share
  -- made with the round's nonces of the assertion for this user, encrypted under the user's 32-byte key.
  pub handle_sign_on-IsSignedOn :
      (now : ℕ) (round : String) (req : SignOnRequest) (commitment : Commitment)
      (node : IdentityNode) {res : SignOnResponse}
      → (handle_sign_on rt curve ristretto cipher now round req commitment node).0 ≡ ok res
      → IsSignedOn now round req commitment node
          (handle_sign_on rt curve ristretto cipher now round req commitment node).1
          res
  handle_sign_on-IsSignedOn now round req commitment node h =
      step_of_ok (handle_sign_on-SignOnStep now round req commitment node) h

  -- Whatever `handleSignOn` answers, the node is as it was, or the round was open and nothing but that
  -- round has changed, which is closed.
  pub handle_sign_on_spends :
      (now : ℕ) (round : String) (req : SignOnRequest) (commitment : Commitment)
      (node : IdentityNode)
      → ((handle_sign_on rt curve ristretto cipher now round req commitment node).1 ≡ node)
        ⊎ RoundSpent round node
            (handle_sign_on rt curve ristretto cipher now round req commitment node).1
  handle_sign_on_spends now round req commitment node =
      step_of_any (handle_sign_on-SignOnStep now round req commitment node)
