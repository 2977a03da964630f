-- ===== src/Node.antt =====
-- projects/node/src/protocol/node.ts: the state of an `IdentityNode`, and the operations that set it
-- up. Node/Credential.antt verifies what is presented at `/sign`, Node/SignOn.antt and Node/Sign.antt
-- are the two handlers.
pub mod Config
pub mod Started
pub mod Configured
pub mod Credential
pub mod Sign
pub mod SignOn
pub mod SignedOn
pub mod Signing
pub mod Machine
pub mod Upload
pub mod Server
pub mod Served
pub mod Bounded
pub mod Collected
pub mod Reuse
pub mod Spending
pub mod Verified
pub mod Pinned
pub mod Issued
use Prim.Native.Char.{code}
use Prim.Native.String
use decentralized_identity_p.Prelude.{
  ◌*◌, ℕ, ℤ, String, Bool, ◌&&◌, ◌==◌, List, [], ◌∷◌, is_empty, insert, if◌then◌else◌, ◌^^◌, Result,
  ok, err,
}
use decentralized_identity_p.Runtime.{Bytes}
use decentralized_identity_p.Protocol.{Commitment, FrostNonces}
use decentralized_identity_p.Crypto.Shamir.{Share}
use decentralized_identity_p.Crypto.Frost.{Curve, FrostError, generate_frost_nonces}
use decentralized_identity_p.Jwt.{JwtError}
use decentralized_identity_p.Dpop.{DpopError}

abbrev pub default_key_id : String
default_key_id = "pasta-group-key-1"

abbrev pub refresh_token_typ : String
refresh_token_typ = "refresh+jwt"

abbrev pub max_assertion_lifetime_seconds : ℕ
max_assertion_lifetime_seconds = 30

abbrev pub max_access_token_lifetime_seconds : ℕ
max_access_token_lifetime_seconds = 3600

abbrev pub default_refresh_lifetime_seconds : ℕ
default_refresh_lifetime_seconds = 86400 * 30

abbrev pub max_refresh_lifetime_seconds : ℕ
max_refresh_lifetime_seconds = 86400 * 40

abbrev pub clock_skew_seconds : ℕ
clock_skew_seconds = 60

pub record UserRecord : Type 0 where
  pub sub : String
  pub username : String
  pub toprf_key_share : Share
  pub h_i : Bytes

-- `active_nonces` is the only part that a request changes.
pub record IdentityNode : Type 0 where
  pub node_id : ℤ
  pub secret_key_share : ℕ
  pub group_public_key : Bytes
  pub issuer : String
  pub key_id : String
  pub users : List (String × UserRecord)
  pub active_nonces : List (String × FrostNonces)

-- Why a credential is refused.
pub data CredentialError : Type 0 where
  jwt : JwtError → CredentialError
  wrong_typ : CredentialError
  missing : String → CredentialError
  times_missing issuer_mismatch audience_mismatch lifetime_out_of_range : CredentialError

pub data NodeError : Type 0 where
  user_not_found iss_mismatch iat_outside_window lifetime_out_of_range : NodeError
  round_not_found : String → NodeError
  bad_blinded_point bad_evaluation bad_encryption : NodeError
  frost : FrostError → NodeError
  same_rounds : NodeError
  credential : CredentialError → NodeError
  dpop : DpopError → NodeError
  empty_jti refresh_lifetime_out_of_range : NodeError

-- `url.replace(/\/+$/, "")`.
unfoldable pub trim_slashes : String → String
trim_slashes String.[] = ""
trim_slashes (String.◌∷◌ c s) =
    let rest = trim_slashes s in if is_empty rest && code c == b'/' then "" else String.◌∷◌ c rest

-- The constructor.
unfoldable pub new_node : ℤ → ℕ → Bytes → String → String → IdentityNode
unfolding trim_slashes
new_node node_id secret_key_share group_public_key issuer key_id = record {
  node_id = node_id;
  secret_key_share = secret_key_share;
  group_public_key = group_public_key;
  issuer = trim_slashes issuer;
  key_id = key_id;
  users = [];
  active_nonces = [];
}

unfoldable pub token_endpoint : IdentityNode → String
token_endpoint node = node.issuer ^^ "/token"

unfoldable pub register_user : String → String → Share → Bytes → IdentityNode → IdentityNode
register_user username sub share h_i node = record node {
  users =
      insert username
        (record { sub = sub; username = username; toprf_key_share = share; h_i = h_i }) node.users;
}

-- `generateCommitment`, with the two random scalars as arguments: the nonces are kept under the
-- round, in place of any that stood there, and the commitment is returned.
unfoldable pub generate_commitment :
    {Point : Type 0}
    → Curve Point
    → String
    → ℕ
    → ℕ
    → IdentityNode
    → Result FrostError Commitment × IdentityNode
generate_commitment curve round_id d e node = elim (generate_frost_nonces curve d e) [
  | err error ↦ (err error, node)
  | ok (nonces, commitment) ↦
      (ok commitment, record node { active_nonces = insert round_id nonces node.active_nonces })
]
