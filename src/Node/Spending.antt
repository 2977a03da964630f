-- ===== src/Node/Spending.antt =====
-- What the two handlers of projects/node/src/protocol/node.ts do to the open rounds.
use decentralized_identity_p.Prelude.{
  >>=-eq-err, List, >>=-eq-ok, throw_if-eq-ok, ℤ, ℕ, ◌≡◌, refl, ◌≢◌, ◌⊎◌, inl, inr, String, Option,
  none, some, arith, str_eq, eq_iff, eq_refl, lookup, lookup-erase, if◌then◌else◌, Result, ok, err,
  Result-cases,
}
use decentralized_identity_p.Js.{Js}
use decentralized_identity_p.Runtime.{Runtime}
use decentralized_identity_p.Protocol.{
  FrostCommitment, FrostNonces, SignRequest, SignRounds, SignCommitments, SignResponse,
}
use decentralized_identity_p.Crypto.Frost.{FrostError, Curve}
use decentralized_identity_p.Node.{IdentityNode, NodeError, frost}
use decentralized_identity_p.Node.Credential.{CredentialClaims}
use decentralized_identity_p.Node.Sign.{
  of_frost, share, Handles, Clock, check_sign, sign_rounds, sign_tokens, spend, handle_sign,
}

-- The round is open: its nonces are there to be spent.
abbrev pub open_nonces : String → IdentityNode → Option FrostNonces
open_nonces round_id node = lookup round_id node.active_nonces

-- Nothing but the open rounds differs.
pub record SameNode (node after : IdentityNode) : Type 0 where
  pub node_id : after.node_id ≡ node.node_id
  pub secret_key_share : after.secret_key_share ≡ node.secret_key_share
  pub group_public_key : after.group_public_key ≡ node.group_public_key
  pub issuer : after.issuer ≡ node.issuer
  pub key_id : after.key_id ≡ node.key_id
  pub users : after.users ≡ node.users

pub open_nonces-spend :
    (rounds : SignRounds) (round_id : String) (node : IdentityNode)
    → open_nonces round_id (spend rounds node) ≡ (
        if str_eq rounds.refresh_round_id round_id
        then none
        else if str_eq rounds.access_round_id round_id
        then none
        else open_nonces round_id node)
unfolding spend
open_nonces-spend rounds round_id node = simp lookup-erase

-- Both rounds were open and different, both are closed now, and nothing else differs.
pub record Spent (rounds : SignRounds) (node after : IdentityNode) : Type 0 where
  pub access_was_open : open_nonces rounds.access_round_id node ≢ none
  pub refresh_was_open : open_nonces rounds.refresh_round_id node ≢ none
  pub differ : rounds.access_round_id ≢ rounds.refresh_round_id
  pub access_is_closed : open_nonces rounds.access_round_id after ≡ none
  pub refresh_is_closed : open_nonces rounds.refresh_round_id after ≡ none
  pub others :
      (r : String)
      → r ≢ rounds.access_round_id
      → r ≢ rounds.refresh_round_id
      → open_nonces r after ≡ open_nonces r node
  pub same : SameNode node after

SameNode-spend : (rounds : SignRounds) (node : IdentityNode) → SameNode node (spend rounds node)
unfolding spend
SameNode-spend rounds node = record {
  node_id = refl;
  secret_key_share = refl;
  group_public_key = refl;
  issuer = refl;
  key_id = refl;
  users = refl;
}

spend-Spent :
    (rounds : SignRounds) (node : IdentityNode)
    → open_nonces rounds.access_round_id node ≢ none
    → open_nonces rounds.refresh_round_id node ≢ none
    → rounds.access_round_id ≢ rounds.refresh_round_id
    → Spent rounds node (spend rounds node)
spend-Spent rounds node a r d = record {
  access_was_open = a;
  refresh_was_open = r;
  differ = d;
  access_is_closed = rw open_nonces-spend (simp eq_refl (ground arith));
  refresh_is_closed = rw open_nonces-spend (simp eq_refl);
  others = λ s na nr.
      rw open_nonces-spend
        (ground (arith, eq_iff rounds.access_round_id s, eq_iff rounds.refresh_round_id s));
  same = SameNode-spend rounds node;
}

module _ (rt : Runtime) {Point : Type 0} (curve : Curve Point) where
  check_sign-differ :
      (clock : Clock) (node : IdentityNode) (rounds : SignRounds) (req : SignRequest)
      {v : CredentialClaims × ℤ}
      → check_sign rt curve clock node rounds req ≡ ok v
      → rounds.access_round_id ≢ rounds.refresh_round_id
  unfolding check_sign
  check_sign-differ clock node rounds req h =
      let (u, e, rest) = >>=-eq-ok _ _ h in
      let other = throw_if-eq-ok _ _ e in
      ground (arith, eq_iff rounds.access_round_id rounds.refresh_round_id)

  -- A call either stops before it spends the two rounds, and leaves the node as it was, or it spends
  -- them and then signs.
  data SignStep (rounds : SignRounds) (req : SignRequest) (commitments : SignCommitments)
      (node : IdentityNode) : Handles SignResponse × IdentityNode → Type 0 where
    stopped : (e : NodeError) → SignStep rounds req commitments node (err e, node)
    signed :
        (c : CredentialClaims) (refresh_exp : ℤ) (access refresh : FrostNonces)
        → Spent rounds node (spend rounds node)
        → SignStep rounds req commitments node (
          sign_tokens rt curve node req commitments c refresh_exp access refresh,
          spend rounds node,
        )

  sign_rounds-SignStep :
      (rounds : SignRounds) (req : SignRequest) (commitments : SignCommitments)
      (node : IdentityNode) (c : CredentialClaims) (refresh_exp : ℤ)
      (access refresh : Option FrostNonces)
      → open_nonces rounds.access_round_id node ≡ access
      → open_nonces rounds.refresh_round_id node ≡ refresh
      → rounds.access_round_id ≢ rounds.refresh_round_id
      → SignStep rounds req commitments node
          (sign_rounds rt curve node rounds req commitments c refresh_exp access refresh)
  unfolding sign_rounds
  sign_rounds-SignStep rounds req commitments node c x none refresh ea er d = stopped _
  sign_rounds-SignStep rounds req commitments node c x (some a) none ea er d = stopped _
  sign_rounds-SignStep rounds req commitments node c x (some a) (some r) ea er d =
      signed c x a r (spend-Spent rounds node (λ z. cc) (λ z. cc) d)

  handle_sign-SignStep :
      (clock : Clock) (rounds : SignRounds) (req : SignRequest) (commitments : SignCommitments)
      (node : IdentityNode)
      → SignStep rounds req commitments node
          (handle_sign rt curve clock rounds req commitments node)
  unfolding handle_sign
  handle_sign-SignStep clock rounds req commitments node =
      elim (Result-cases (check_sign rt curve clock node rounds req)) [
        | inl ((c, x), e) ↦
            rw (e, handle_sign)
              (sign_rounds-SignStep rounds req commitments node c x _ _ refl refl
                (check_sign-differ clock node rounds req e))
        | inr (e, h) ↦ rw (h, handle_sign) (stopped _)
      ]

  of_frost-err :
      (r : Result FrostError ℕ) {e : NodeError}
      → of_frost r ≡ err e
      → (f : FrostError) × (e ≡ frost f)
  unfolding of_frost
  of_frost-err (ok z) h = cc
  of_frost-err (err f) h = (f, cc)

  share-err :
      (node : IdentityNode) (header payload : Js) (nonces : FrostNonces) (cs : List FrostCommitment)
      (ps : List ℤ) {e : NodeError}
      → share rt curve node header payload nonces cs ps ≡ err e
      → (f : FrostError) × (e ≡ frost f)
  unfolding share
  share-err node header payload nonces cs ps h = elim (>>=-eq-err _ _ h) [
    | inl l ↦ of_frost-err _ l
    | inr (z, l, k) ↦ cc
  ]

  sign_tokens-err :
      (node : IdentityNode) (req : SignRequest) (commitments : SignCommitments)
      (c : CredentialClaims) (x : ℤ) (a r : FrostNonces) {e : NodeError}
      → sign_tokens rt curve node req commitments c x a r ≡ err e
      → (f : FrostError) × (e ≡ frost f)
  unfolding sign_tokens
  sign_tokens-err node req commitments c x a r h = elim (>>=-eq-err _ _ h) [
    | inl l ↦ share-err _ _ _ _ _ _ l
    | inr (z, l, k) ↦ elim (>>=-eq-err _ _ k) [
      | inl m ↦ share-err _ _ _ _ _ _ m
      | inr (y, m, n) ↦ cc
    ]
  ]

  module _ {rounds : SignRounds} {req : SignRequest} {commitments : SignCommitments}
      {node : IdentityNode} where
    step_of_ok :
        {out : Handles SignResponse × IdentityNode} {res : SignResponse}
        → SignStep rounds req commitments node out
        → out.0 ≡ ok res
        → Spent rounds node out.1
    step_of_ok (stopped e) h = cc
    step_of_ok (signed c x a r s) h = s

    step_of_err :
        {out : Handles SignResponse × IdentityNode} {e : NodeError}
        → SignStep rounds req commitments node out
        → out.0 ≡ err e
        → (out.1 ≡ node) ⊎ (Spent rounds node out.1 × (f : FrostError) × (e ≡ frost f))
    step_of_err (stopped e) h = inl refl
    step_of_err (signed c x a r s) h =
        let (f, q) = sign_tokens-err node req commitments c x a r h in inr (s, f, q)

    step_of_any :
        {out : Handles SignResponse × IdentityNode}
        → SignStep rounds req commitments node out
        → (out.1 ≡ node) ⊎ Spent rounds node out.1
    step_of_any (stopped e) = inl refl
    step_of_any (signed c x a r s) = inr s

  -- If `handleSign` returns tokens then its two rounds were different and open, it has closed both,
  -- and every other round, the users and the keys are as they were.
  pub handle_sign_spends :
      (clock : Clock) (rounds : SignRounds) (req : SignRequest) (commitments : SignCommitments)
      (node : IdentityNode) {res : SignResponse}
      → (handle_sign rt curve clock rounds req commitments node).0 ≡ ok res
      → Spent rounds node (handle_sign rt curve clock rounds req commitments node).1
  handle_sign_spends clock rounds req commitments node h =
      step_of_ok (handle_sign-SignStep clock rounds req commitments node) h

  -- If `handleSign` throws then the node is as it was, or the two rounds, which were different and
  -- open, are closed and the error is one of the FROST computation.
  pub handle_sign_error :
      (clock : Clock) (rounds : SignRounds) (req : SignRequest) (commitments : SignCommitments)
      (node : IdentityNode) {e : NodeError}
      → (handle_sign rt curve clock rounds req commitments node).0 ≡ err e
      → ((handle_sign rt curve clock rounds req commitments node).1 ≡ node)
        ⊎ (Spent rounds node (handle_sign rt curve clock rounds req commitments node).1
            × (f : FrostError) × (e ≡ frost f))
  handle_sign_error clock rounds req commitments node h =
      step_of_err (handle_sign-SignStep clock rounds req commitments node) h

  -- Whatever `handleSign` answers, the node is as it was, or the two rounds, which were different and
  -- open, are closed and nothing else has changed.
  pub handle_sign_changes :
      (clock : Clock) (rounds : SignRounds) (req : SignRequest) (commitments : SignCommitments)
      (node : IdentityNode)
      → ((handle_sign rt curve clock rounds req commitments node).1 ≡ node)
        ⊎ Spent rounds node (handle_sign rt curve clock rounds req commitments node).1
  handle_sign_changes clock rounds req commitments node =
      step_of_any (handle_sign-SignStep clock rounds req commitments node)
