-- ===== src/Node/Machine.antt =====
-- The node of projects/node/src/protocol/node.ts as a state machine: the calls that its routes make,
-- one after another, on one node.
use decentralized_identity_p.Crypto.Toprf.{Group}
use decentralized_identity_p.Prelude.{ℕ, String, List, [], ◌∷◌}
use decentralized_identity_p.Runtime.{Bytes, Runtime}
use decentralized_identity_p.Protocol.{
  Commitment, SignOnRequest, SignRequest, SignRounds, SignCommitments,
}
use decentralized_identity_p.Crypto.Aead.{Cipher}
use decentralized_identity_p.Crypto.Frost.{Curve}
use decentralized_identity_p.Crypto.Shamir.{Share}
use decentralized_identity_p.Node.{IdentityNode, register_user, generate_commitment}
use decentralized_identity_p.Node.Sign.{Clock, handle_sign}
use decentralized_identity_p.Node.SignOn.{handle_sign_on}

-- The methods that change a node, with their arguments and what they read from the outside: the two
-- random scalars of a commitment, and the clock.
pub data Call : Type 0 where
  register : String → String → Share → Bytes → Call
  commit : String → ℕ → ℕ → Call
  sign_on : ℕ → String → SignOnRequest → Commitment → Call
  sign : Clock → SignRounds → SignRequest → SignCommitments → Call

module _ (rt : Runtime) {Point : Type 0} (curve : Curve Point) {Blind : Type 0}
    (ristretto : Group Blind) (cipher : Cipher) where
  -- The node after a call.
  unfoldable pub after : Call → IdentityNode → IdentityNode
  after (register username sub share h_i) node = register_user username sub share h_i node
  after (commit round d e) node = (generate_commitment curve round d e node).1
  after (sign_on now round req commitment) node =
      (handle_sign_on rt curve ristretto cipher now round req commitment node).1
  after (sign clock rounds req commitments) node =
      (handle_sign rt curve clock rounds req commitments node).1

  unfoldable pub after_all : List Call → IdentityNode → IdentityNode
  after_all [] node = node
  after_all (c ∷ cs) node = after_all cs (after c node)
