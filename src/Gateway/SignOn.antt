-- ===== src/Gateway/SignOn.antt =====
-- projects/gateway/src/gateway/proxy.ts: `handleSignOn`, which relays a sign-on to the nodes. The
-- nodes' answers are functions of the call's position and of what they are sent; the random session id
-- is an argument.
use decentralized_identity_p.Prelude.{
  ℕ, suc, ℤ, ltb, String, Bool, true, false, Option, none, some, List, [], ◌∷◌, length, Result, ok,
  err, ◌>>=◌, ◌>>◌, throw_if, or_throw,
}
use decentralized_identity_p.Protocol.{Commitment, FrostCommitment, SignOnRequest, SignOnResponse}
use decentralized_identity_p.Gateway.Commitments.{
  ProxyError, Collected, quorum, collect_commitments,
}
use decentralized_identity_p.Gateway.Proxy.{Proxy}

-- `ProxySignOnRequestBody`, as the JSON of the browser gives it: `participants` is absent, `none`, null,
-- `some none`, or a list.
pub record SignOnBody : Type 0 where
  pub username : String
  pub blinded : String
  pub session_nonce : String
  pub cnf_jkt : String
  pub client_id : String
  pub scope : String
  pub nonce : Option String
  pub iat : ℤ
  pub exp : ℤ
  pub iss : String
  pub participants : Option (Option (List ℤ))

-- `ProxySignOnResult`.
pub record SignOnResult : Type 0 where
  pub session_id : String
  pub commitments : List FrostCommitment
  pub node_responses : List SignOnResponse

pub data SignOnError : Type 0 where
  collecting : ProxyError → SignOnError
  node_failed : SignOnError

abbrev pub of_collecting : Result ProxyError Collected → Result SignOnError Collected
of_collecting (ok c) = ok c
of_collecting (err e) = err (collecting e)

-- `body.participants !== undefined`, which null is not.
abbrev pub is_explicit : SignOnBody → Bool
is_explicit body = elim body.participants [ none ↦ false | some ids ↦ true ]

-- `body.participants || Array.from(this.nodes.keys())`: null is falsy, an array never is.
abbrev pub requested_of : Proxy → SignOnBody → List ℤ
requested_of p body = elim body.participants [
  | none ↦ p.nodes
  | some none ↦ p.nodes
  | some (some ids) ↦ ids
]

-- The request that every participant is sent.
unfoldable pub sign_on_request : SignOnBody → String → Collected → SignOnRequest
sign_on_request body session_id collected = record {
  session_id = session_id;
  username = body.username;
  blinded = body.blinded;
  session_nonce = body.session_nonce;
  cnf_jkt = body.cnf_jkt;
  client_id = body.client_id;
  scope = body.scope;
  nonce = body.nonce;
  iat = body.iat;
  exp = body.exp;
  iss = body.iss;
  commitments = collected.commitments;
  all_participants = collected.participants;
}

-- What a node answers to `/sign-on`, by the call's position, its id and its own commitment; `none` is
-- an exception.
abbrev pub Answer : Type 0
Answer = ℕ → ℤ → Commitment → Option SignOnResponse

-- `Promise.all` over the commitments: one failure makes the whole fail.
unfoldable pub all_responses :
    Answer → ℕ → List FrostCommitment → Result SignOnError (List SignOnResponse)
all_responses answer i [] = ok []
all_responses answer i (c ∷ cs) = do
  r ←
      or_throw (answer i c.node_id (record { d_point = c.d_point; e_point = c.e_point }))
        node_failed
  rs ← all_responses answer (suc i) cs
  ok (r ∷ rs)

unfoldable pub handle_sign_on :
    Proxy
    → (ℕ → ℤ → Option Commitment)
    → (SignOnRequest → Answer)
    → SignOnBody
    → String
    → Result SignOnError SignOnResult
handle_sign_on p commit sign_on body session_id = do
  let requested = requested_of p body
  throw_if (ltb (length requested) p.threshold)
      (collecting (quorum (length requested) p.threshold []))
  collected ←
      of_collecting (collect_commitments p.nodes p.threshold commit requested (is_explicit body))
  node_responses ←
      all_responses (sign_on (sign_on_request body session_id collected)) 0 collected.commitments
  ok (record {
    session_id = session_id;
    commitments = collected.commitments;
    node_responses = node_responses;
  })
