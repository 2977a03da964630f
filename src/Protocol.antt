-- ===== src/Protocol.antt =====
-- The types that the gateway and the nodes exchange: projects/node/src/protocol/node.ts and
-- projects/gateway/src/protocol/types.ts. Times are integers, in seconds since the epoch.
use decentralized_identity_p.Prelude.{ℕ, ℤ, String, Option, List}
use decentralized_identity_p.Runtime.{Bytes}

-- `{ D, E }`, a commitment of one FROST round.
pub record Commitment : Type 0 where
  pub d_point : Bytes
  pub e_point : Bytes

pub record FrostCommitment : Type 0 where
  pub node_id : ℤ
  pub d_point : Bytes
  pub e_point : Bytes

-- The nonce pair behind a commitment.
pub record FrostNonces : Type 0 where
  pub d : ℕ
  pub e : ℕ

pub record SignOnRequest : Type 0 where
  pub session_id : String
  pub username : String
  pub blinded : String
  pub session_nonce : String
  pub cnf_jkt : String
  pub client_id : String
  pub scope : String
  pub nonce : Option String
  pub iat : ℤ
  pub exp : ℤ
  pub iss : String
  pub commitments : List FrostCommitment
  pub all_participants : List ℤ

pub record SignOnResponse : Type 0 where
  pub node_id : ℤ
  pub commitment : Commitment
  pub toprf_partial : String
  pub ct_i : String
  pub session_id : String
  pub sub : String

pub data Grant : Type 0 where
  authorization_code refresh_token : Grant

pub record AccessTokenClaims : Type 0 where
  pub iat : ℤ
  pub exp : ℤ
  pub jti : String

pub record SignRequest : Type 0 where
  pub grant : Grant
  pub assertion : Option String
  pub refresh_token : Option String
  pub dpop_proof : String
  pub claims : AccessTokenClaims
  pub refresh_exp : Option ℤ
  pub commitments : List FrostCommitment
  pub refresh_commitments : List FrostCommitment
  pub all_participants : List ℤ

-- A commitment and the node's plaintext share, 64 hex digits.
pub record SignedShare : Type 0 where
  pub commitment : Commitment
  pub z_i : String

pub record SignResponse : Type 0 where
  pub node_id : ℤ
  pub at : SignedShare
  pub rt : SignedShare

pub record SignRounds : Type 0 where
  pub access_round_id : String
  pub refresh_round_id : String

pub record SignCommitments : Type 0 where
  pub access : Commitment
  pub refresh : Commitment
