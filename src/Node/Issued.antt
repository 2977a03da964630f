-- ===== src/Node/Issued.antt =====
-- What has been checked when `handleSign` of projects/node/src/protocol/node.ts returns, and what its
-- two shares sign.
use decentralized_identity_p.Prelude.{
  ok_injective, ℤ, ◌≡◌, refl, ap, subst, ◌∙◌, String, Option, none, some, lookup, Result, ok, err,
  by_steps, inl, inr, Result-cases,
}
use decentralized_identity_p.Js.{Js}
use decentralized_identity_p.Runtime.{Runtime}
use decentralized_identity_p.Protocol.{
  FrostNonces, SignRequest, SignRounds, SignCommitments, SignResponse,
}
use decentralized_identity_p.Crypto.Frost.{Curve}
use decentralized_identity_p.Dpop.{DpopError}
use decentralized_identity_p.Dpop.Verified.{IsProof, verify_dpop_proof-IsProof}
use decentralized_identity_p.Node.{IdentityNode, NodeError}
use decentralized_identity_p.Node.Credential.{CredentialClaims, Checks}
use decentralized_identity_p.Node.Sign.{
  Clock, Handles, refresh_exp_of, of_credential, of_dpop, access_token_header, refresh_token_header,
  access_token_payload, refresh_token_payload, verify_presented, proof_options, check_sign,
  sign_tokens, sign_rounds, handle_sign,
}
use decentralized_identity_p.Node.Pinned.{InBounds, check_claims-InBounds, IsShare, share-IsShare}

not_ok : {A : Type 0} {a : A} {e : NodeError} → ¬ (◌≡◌ {A = Handles A} (err e) (ok a))
not_ok h = cc

module _ (rt : Runtime) {Point : Type 0} (curve : Curve Point) where
  -- What stands behind the two tokens of an answer: a credential of the kind that the grant names,
  -- a proof by the key that the credential is bound to, claims within bounds, two open rounds, and a
  -- share for each token, whose identity claims are the credential's.
  pub record IsIssued (clock : Clock) (rounds : SignRounds) (req : SignRequest)
      (commitments : SignCommitments) (node : IdentityNode) (res : SignResponse) : Type 0 where
    pub claims : CredentialClaims
    pub presented : verify_presented rt curve clock.at_credential node req req.grant ≡ ok claims
    pub jkt : String
    pub payload : Js
    pub proof :
        IsProof rt clock.at_proof req.dpop_proof (proof_options rt curve node claims) jkt payload
    pub in_bounds : InBounds clock.at_claims req
    pub access_nonces : FrostNonces
    pub refresh_nonces : FrostNonces
    pub access_open : lookup rounds.access_round_id node.active_nonces ≡ some access_nonces
    pub refresh_open : lookup rounds.refresh_round_id node.active_nonces ≡ some refresh_nonces
    pub access_token :
        IsShare rt curve node
          (access_token_header node)
          (access_token_payload node claims req.claims)
          access_nonces
          req.commitments
          req.all_participants
          res.at.z_i
    pub refresh_token :
        IsShare rt curve node
          (refresh_token_header node)
          (refresh_token_payload node claims req.claims (refresh_exp_of req))
          refresh_nonces
          req.refresh_commitments
          req.all_participants
          res.rt.z_i
    pub node_id : res.node_id ≡ node.node_id
    pub access_commitment : res.at.commitment ≡ commitments.access
    pub refresh_commitment : res.rt.commitment ≡ commitments.refresh

  of_credential-eq :
      (r : Checks CredentialClaims) {c : CredentialClaims} → of_credential r ≡ ok c → r ≡ ok c
  unfolding of_credential
  of_credential-eq (ok d) {c} h = let same : d ≡ c = ok_injective h in ap ok same
  of_credential-eq (err e) h = cc

  of_dpop-eq :
      (r : Result DpopError (String × Js)) {u : Unit {0}}
      → of_dpop r ≡ ok u
      → (v : String × Js) × (r ≡ ok v)
  unfolding of_dpop
  of_dpop-eq (ok v) h = (v, refl)
  of_dpop-eq (err e) h = cc

  sign_tokens-shares :
      (node : IdentityNode) (req : SignRequest) (commitments : SignCommitments)
      (c : CredentialClaims) (x : ℤ) (a r : FrostNonces) {res : SignResponse}
      → sign_tokens rt curve node req commitments c x a r ≡ ok res
      → IsShare rt curve node
          (access_token_header node)
          (access_token_payload node c req.claims)
          a
          req.commitments
          req.all_participants
          res.at.z_i
        × IsShare rt curve node
            (refresh_token_header node)
            (refresh_token_payload node c req.claims x)
            r
            req.refresh_commitments
            req.all_participants
            res.rt.z_i
        × (res.node_id ≡ node.node_id)
        × (res.at.commitment ≡ commitments.access)
        × (res.rt.commitment ≡ commitments.refresh)
  unfolding sign_tokens
  sign_tokens-shares node req commitments c x a r {res} h = by_steps _ _ h λ at_z e1 h1.
      by_steps _ _ h1 λ rt_z e2 h2.
        let same = ok_injective h2 in
        subst
          (λ (s : SignResponse).
            IsShare rt curve node (access_token_header node)
              (access_token_payload node c req.claims) a req.commitments req.all_participants
              s.at.z_i
            × IsShare rt curve node (refresh_token_header node)
                (refresh_token_payload node c req.claims x) r req.refresh_commitments
                req.all_participants s.rt.z_i
            × (s.node_id ≡ node.node_id)
            × (s.at.commitment ≡ commitments.access)
            × (s.rt.commitment ≡ commitments.refresh))
          same
          (
            share-IsShare rt curve _ _ _ _ _ _ e1,
            share-IsShare rt curve _ _ _ _ _ _ e2,
            refl,
            refl,
            refl,
          )

  sign_rounds-IsIssued :
      (clock : Clock) (rounds : SignRounds) (req : SignRequest) (commitments : SignCommitments)
      (node : IdentityNode) (c : CredentialClaims) (x : ℤ) (access refresh : Option FrostNonces)
      (jkt : String) (payload : Js) {res : SignResponse}
      → lookup rounds.access_round_id node.active_nonces ≡ access
      → lookup rounds.refresh_round_id node.active_nonces ≡ refresh
      → verify_presented rt curve clock.at_credential node req req.grant ≡ ok c
      → IsProof rt clock.at_proof req.dpop_proof (proof_options rt curve node c) jkt payload
      → InBounds clock.at_claims req
      → refresh_exp_of req ≡ x
      → (sign_rounds rt curve node rounds req commitments c x access refresh).0 ≡ ok res
      → IsIssued clock rounds req commitments node res
  unfolding sign_rounds
  sign_rounds-IsIssued clock rounds req commitments node c x none r jkt payload ea er p d b q h = cc
  sign_rounds-IsIssued clock rounds req commitments node c x (some a) none jkt payload ea er p d b q
        h =
      cc
  sign_rounds-IsIssued clock rounds req commitments node c x (some a) (some r) jkt payload ea er p d
        b q h =
      let (at, rt_share, same_id, same_a, same_r) =
        sign_tokens-shares node req commitments c x a r h in
      record {
        claims = c;
        presented = p;
        jkt = jkt;
        payload = payload;
        proof = d;
        in_bounds = b;
        access_nonces = a;
        refresh_nonces = r;
        access_open = ea;
        refresh_open = er;
        access_token = at;
        refresh_token = rw q rt_share;
        node_id = same_id;
        access_commitment = same_a;
        refresh_commitment = same_r;
      }

  check_sign-parts :
      (clock : Clock) (node : IdentityNode) (rounds : SignRounds) (req : SignRequest)
      {c : CredentialClaims} {x : ℤ}
      → check_sign rt curve clock node rounds req ≡ ok (c, x)
      → (verify_presented rt curve clock.at_credential node req req.grant ≡ ok c)
        × ((v : String × Js) × IsProof rt clock.at_proof req.dpop_proof
              (proof_options rt curve node c)
              v.0
              v.1)
        × InBounds clock.at_claims req
        × (refresh_exp_of req ≡ x)
  unfolding check_sign
  check_sign-parts clock node rounds req {c} {x} h = by_steps _ _ h λ _ e1 h1.
      by_steps _ _ h1 λ d e2 h2. by_steps _ _ h2 λ u e3 h3. by_steps _ _ h3 λ y e4 h4.
        let same = ok_injective h4 in
        let same_c : d ≡ c = ap (λ p. p.0) same in
        let (v, proved) = of_dpop-eq _ e3 in
        let (bounds, exp) = check_claims-InBounds clock.at_claims req e4 in
        (
          of_credential-eq _ e2 ∙ ap ok same_c,
          (
            v,
            subst
                (λ d.
                  IsProof rt clock.at_proof req.dpop_proof (proof_options rt curve node d) v.0 v.1)
                same_c (verify_dpop_proof-IsProof rt clock.at_proof req.dpop_proof _ proved),
          ),
          bounds,
          exp ∙ ap (λ p. p.1) same,
        )

  -- Whenever `handleSign` returns, the credential that the grant names was accepted, the DPoP proof
  -- was accepted for POST at this node's token endpoint and bound to the credential's key, the claims
  -- that the gateway pins are within the node's bounds, both rounds were open, and the two shares are
  -- this node's, one over the access token and one over the refresh token, whose subject, client, scope
  -- and key are the credential's and whose issuer is the node's own.
  pub handle_sign-IsIssued :
      (clock : Clock) (rounds : SignRounds) (req : SignRequest) (commitments : SignCommitments)
      (node : IdentityNode) {res : SignResponse}
      → (handle_sign rt curve clock rounds req commitments node).0 ≡ ok res
      → IsIssued clock rounds req commitments node res
  unfolding handle_sign
  handle_sign-IsIssued clock rounds req commitments node {res} h =
      elim (Result-cases (check_sign rt curve clock node rounds req)) [
        | inr (e, k) ↦ absurd (not_ok (rw (k, handle_sign) at h))
        | inl ((c, x), k) ↦
            let (p, (v, d), b, q) = check_sign-parts clock node rounds req k in
            sign_rounds-IsIssued clock rounds req commitments node c x _ _ v.0 v.1 refl refl p d b q
              (rw (k, handle_sign) at h)
      ]
