-- ===== src/Gateway/Sent.antt =====
-- What `handleSign` of projects/gateway/src/gateway/proxy.ts has sent to the nodes when it returns.
use decentralized_identity_p.Prelude.{
  ok_injective, ℕ, ℤ, pos, ◌+ℤ◌, ◌-ℤ◌, ◌≡◌, refl, subst, String, true, false, Option, none, some,
  List, [], ◌∷◌, map, arith, Result, ok, err, by_steps, or_throw-eq-ok,
}
use decentralized_identity_p.Runtime.{Runtime}
use decentralized_identity_p.Protocol.{
  Commitment, FrostCommitment, Grant, authorization_code, SignRequest, SignCommitments,
}
use decentralized_identity_p.Crypto.Frost.{Curve}
use decentralized_identity_p.Gateway.Commitments.{ProxyError, Collected}
use decentralized_identity_p.Gateway.Quorum.{IsQuorum, collect_commitments-IsQuorum}
use decentralized_identity_p.Gateway.Credential.{
  IdentityClaims, InvalidCredential, decode_credential_claims,
}
use decentralized_identity_p.Gateway.Proxy.{
  Proxy, Shares, TokenResult, handle_sign, of_decode, of_collect, sign_request, find_commitment,
  all_shares, assemble_token, access_header, access_payload, refresh_header, refresh_payload,
}

of_decode-eq :
    (m : Result InvalidCredential IdentityClaims) {c : IdentityClaims}
    → of_decode m ≡ ok c
    → m ≡ ok c
unfolding of_decode
of_decode-eq (ok a) h = cc
of_decode-eq (err e) h = cc

of_collect-eq : (m : Result ProxyError Collected) {c : Collected} → of_collect m ≡ ok c → m ≡ ok c
unfolding of_collect
of_collect-eq (ok a) h = cc
of_collect-eq (err e) h = cc

lifetime : (now : ℕ) → (pos now +ℤ pos 3600) -ℤ pos now ≡ pos 3600
unfolding ◌+ℤ◌ ◌-ℤ◌
lifetime now = ground arith

-- The credential stands where the grant has it, and nothing in the other place.
abbrev pub Presents : Grant → String → SignRequest → Type 0
Presents authorization_code credential req =
    (req.assertion ≡ some credential) × (req.refresh_token ≡ none)
Presents Grant.refresh_token credential req =
    (req.assertion ≡ none) × (req.refresh_token ≡ some credential)

-- The request of a token exchange, field by field.
pub record IsSignRequestOf (grant : Grant) (credential proof : String) (now : ℕ) (jti : String)
    (access refresh : Collected) (req : SignRequest) : Type 0 where
  pub grant_sent : req.grant ≡ grant
  pub credential_sent : Presents grant credential req
  pub proof_sent : req.dpop_proof ≡ proof
  pub iat : req.claims.iat ≡ pos now
  pub exp : req.claims.exp ≡ pos now +ℤ pos 3600
  pub jti_sent : req.claims.jti ≡ jti
  pub refresh_exp : req.refresh_exp ≡ some (pos now +ℤ pos 2592000)
  pub commitments : req.commitments ≡ access.commitments
  pub refresh_commitments : req.refresh_commitments ≡ refresh.commitments
  pub participants : req.all_participants ≡ access.participants

-- Each participant was asked with its own two commitments, and answered with its shares.
abbrev pub AreSigned :
    (ℤ → SignCommitments → Option Shares)
    → List FrostCommitment
    → List FrostCommitment
    → List Shares
    → Type 0
AreSigned sign refresh [] [] = Unit
AreSigned sign refresh [] (s ∷ ss) = ⊥
AreSigned sign refresh (c ∷ cs) [] = ⊥
AreSigned sign refresh (c ∷ cs) (s ∷ ss) =
    ((own : Commitment) × (find_commitment c.node_id refresh ≡ some own)
      × (sign c.node_id
            (record { access = record { d_point = c.d_point; e_point = c.e_point }; refresh = own })
          ≡ some s))
    × AreSigned sign refresh cs ss

all_shares-AreSigned :
    (sign : ℤ → SignCommitments → Option Shares) (refresh cs : List FrostCommitment)
    {ss : List Shares}
    → all_shares sign refresh cs ≡ ok ss
    → AreSigned sign refresh cs ss
unfolding all_shares
all_shares-AreSigned sign refresh [] h = subst (AreSigned sign refresh []) (ok_injective h) tt
all_shares-AreSigned sign refresh (c ∷ cs) h = by_steps _ _ h λ own e1 h1.
    by_steps _ _ h1 λ s e2 h2. by_steps _ _ h2 λ ss e3 h3.
      subst (AreSigned sign refresh (c ∷ cs)) (ok_injective h3) (
        (own, or_throw-eq-ok _ _ e1, or_throw-eq-ok _ _ e2),
        all_shares-AreSigned sign refresh cs e3,
      )

module _ (rt : Runtime) {Point : Type 0} (curve : Curve Point) where
  sign_request-IsSignRequestOf :
      (grant : Grant) (credential proof : String) (now : ℕ) (jti : String)
      (access refresh : Collected)
      → IsSignRequestOf grant credential proof now jti access refresh
          (sign_request rt curve grant credential proof now jti access refresh)
  unfolding sign_request
  sign_request-IsSignRequestOf grant credential proof now jti access refresh = record {
    grant_sent = refl;
    credential_sent = presents grant;
    proof_sent = refl;
    iat = refl;
    exp = refl;
    jti_sent = refl;
    refresh_exp = refl;
    commitments = refl;
    refresh_commitments = refl;
    participants = refl;
  }
    where
      presents :
          (g : Grant)
          → Presents g credential (sign_request rt curve g credential proof now jti access refresh)
      presents authorization_code = (refl, refl)
      presents Grant.refresh_token = (refl, refl)

  module _ (p : Proxy) (access_commit refresh_commit : ℕ → ℤ → Option Commitment)
      (sign : SignRequest → ℤ → SignCommitments → Option Shares) where
    -- Every participant of a quorum of all nodes was sent one request for the grant, the credential and
    -- the proof, and its shares make the tokens.
    pub record IsSent (grant : Grant) (credential proof : String) (now : ℕ) (jti : String)
        (claims : IdentityClaims) (res : TokenResult) : Type 0 where
      pub access : Collected
      pub refresh : Collected
      pub access_quorum : IsQuorum p.nodes p.threshold access_commit p.nodes false access
      pub refresh_quorum :
          IsQuorum p.nodes p.threshold refresh_commit access.participants true refresh
      pub request : SignRequest
      pub is_request : IsSignRequestOf grant credential proof now jti access refresh request
      pub shares : List Shares
      pub signed : AreSigned (sign request) refresh.commitments access.commitments shares
      pub access_token :
          assemble_token rt curve
            (access_header p)
            (access_payload p claims request.claims)
            access.commitments
            (map (λ s. s.at) shares)
          ≡ ok res.access_token
      pub refresh_token :
          assemble_token rt curve
            (refresh_header p)
            (refresh_payload p claims request.claims (pos now +ℤ pos 2592000))
            refresh.commitments
            (map (λ s. s.rt) shares)
          ≡ ok res.refresh_token
      pub scope : res.scope ≡ claims.scope
      pub bound : res.cnf_jkt ≡ claims.jkt
      pub expires_in : res.expires_in ≡ pos 3600

    pub handle_sign-IsSent :
        (grant : Grant) (credential proof : String) (now : ℕ) (jti : String) {res : TokenResult}
        → handle_sign rt curve p access_commit refresh_commit sign grant credential proof now jti
          ≡ ok res
        → (c : IdentityClaims) × (decode_credential_claims rt credential ≡ ok c)
          × IsSent grant credential proof now jti c res
    unfolding handle_sign
    handle_sign-IsSent grant credential proof now jti {res} h = by_steps _ _ h λ c e1 h1.
        by_steps _ _ h1 λ _ e2 h2. by_steps _ _ h2 λ access e3 h3. by_steps _ _ h3 λ refresh e4 h4.
          by_steps _ _ h4 λ shares e5 h5. by_steps _ _ h5 λ granted e6 h6.
            by_steps _ _ h6 λ renewed e7 h7.
              let req = sign_request rt curve grant credential proof now jti access refresh in
              let is_request =
                sign_request-IsSignRequestOf grant credential proof now jti access refresh in
              let hour : req.claims.exp -ℤ req.claims.iat ≡ pos 3600 =
                rw (is_request.exp, is_request.iat) (lifetime now) in
              (
                c,
                of_decode-eq _ e1,
                subst (IsSent grant credential proof now jti c) (ok_injective h7) (record {
                  access = access;
                  refresh = refresh;
                  access_quorum =
                      collect_commitments-IsQuorum p.nodes p.threshold access_commit p.nodes false
                        (of_collect-eq _ e3);
                  refresh_quorum =
                      collect_commitments-IsQuorum p.nodes p.threshold refresh_commit
                        access.participants true (of_collect-eq _ e4);
                  request = req;
                  is_request = is_request;
                  shares = shares;
                  signed =
                      all_shares-AreSigned (sign req) refresh.commitments access.commitments e5;
                  access_token = e6;
                  refresh_token = e7;
                  scope = refl;
                  bound = refl;
                  expires_in = hour;
                }),
              )
