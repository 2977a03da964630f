-- ===== src/Gateway/Browser.antt =====
-- projects/gateway/src/gateway/wire.ts: the sign-on result as the browser receives it. The wire shapes
-- are the source's interfaces; projects/demo/src/sdk/wire.ts reads them with the same code.
use decentralized_identity_p.Prelude.{ℤ, String, List, map}
use decentralized_identity_p.Runtime.{Base64Url}
use decentralized_identity_p.Protocol.{FrostCommitment, SignOnResponse}
use decentralized_identity_p.Gateway.SignOn.{SignOnResult}

pub record CommitmentWire : Type 0 where
  pub node_id : ℤ
  pub d_text : String
  pub e_text : String

-- `{ D, E }` of a response.
pub record PairWire : Type 0 where
  pub d_text : String
  pub e_text : String

pub record ResponseWire : Type 0 where
  pub node_id : ℤ
  pub commitment : PairWire
  pub toprf_partial : String
  pub ct_i : String
  pub session_id : String
  pub sub : String

-- `ProxySignOnResultWire`.
pub record SignOnResultWire : Type 0 where
  pub session_id : String
  pub commitments : List CommitmentWire
  pub node_responses : List ResponseWire

module _ (b64 : Base64Url) where
  unfoldable pub to_text : FrostCommitment → CommitmentWire
  to_text c = record {
    node_id = c.node_id;
    d_text = b64.encode c.d_point;
    e_text = b64.encode c.e_point;
  }

  unfoldable pub of_text : CommitmentWire → FrostCommitment
  of_text c = record {
    node_id = c.node_id;
    d_point = b64.decode c.d_text;
    e_point = b64.decode c.e_text;
  }

  unfoldable pub response_to_text : SignOnResponse → ResponseWire
  response_to_text r = record {
    node_id = r.node_id;
    commitment = record {
      d_text = b64.encode r.commitment.d_point;
      e_text = b64.encode r.commitment.e_point;
    };
    toprf_partial = r.toprf_partial;
    ct_i = r.ct_i;
    session_id = r.session_id;
    sub = r.sub;
  }

  unfoldable pub response_of_text : ResponseWire → SignOnResponse
  response_of_text r = record {
    node_id = r.node_id;
    commitment = record {
      d_point = b64.decode r.commitment.d_text;
      e_point = b64.decode r.commitment.e_text;
    };
    toprf_partial = r.toprf_partial;
    ct_i = r.ct_i;
    session_id = r.session_id;
    sub = r.sub;
  }

  unfoldable pub sign_on_result_to_wire : SignOnResult → SignOnResultWire
  sign_on_result_to_wire result = record {
    session_id = result.session_id;
    commitments = map to_text result.commitments;
    node_responses = map response_to_text result.node_responses;
  }

  unfoldable pub sign_on_result_from_wire : SignOnResultWire → SignOnResult
  sign_on_result_from_wire wire = record {
    session_id = wire.session_id;
    commitments = map of_text wire.commitments;
    node_responses = map response_of_text wire.node_responses;
  }
