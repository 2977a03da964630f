-- ===== src/Gateway/Exchanged.antt =====
-- What `POST /token` of projects/gateway/src/server.ts shows when it returns tokens, and how its
-- check of the proof stands to the nodes'.
use decentralized_identity_p.Prelude.{
  ok_injective, ℕ, ℤ, ◌≡◌, sym, ap, subst, ◌∙◌, String, Option, none, some, List, is_empty,
  Bool-cases, inl, inr, lookup, Result, ok, err, by_steps,
}
use decentralized_identity_p.Js.{Js}
use decentralized_identity_p.Runtime.{Runtime}
use decentralized_identity_p.Protocol.{Commitment, SignRequest, SignCommitments}
use decentralized_identity_p.Crypto.Frost.{Curve}
use decentralized_identity_p.Dpop.{DpopError, verify_dpop_proof}
use decentralized_identity_p.Dpop.Verified.{IsProof, verify_dpop_proof-IsProof}
use decentralized_identity_p.Node.{IdentityNode, token_endpoint}
use decentralized_identity_p.Node.Credential.{CredentialClaims}
use decentralized_identity_p.Node.Verified.{IsGenuine}
use decentralized_identity_p.Node.Sign.{proof_options}
use decentralized_identity_p.Gateway.Agreement.{decode_credential_claims-IsGenuine, identity_of}
use decentralized_identity_p.Gateway.Credential.{
  IdentityClaims, InvalidCredential, decode_credential_claims,
}
use decentralized_identity_p.Gateway.Proxy.{Proxy, Shares, RelayError, TokenResult}
use decentralized_identity_p.Gateway.Sent.{IsSent, handle_sign-IsSent}
use decentralized_identity_p.Gateway.Token.{
  DpopHeader, TokenError, grant_of, present, first_of, credential_field, of_claims, of_proof,
  of_relay, gateway_options, check_token, handle_token, Checked,
}

present-eq : (e : TokenError) (o : Option String) {s : String} → present e o ≡ ok s → o ≡ some s
present-eq e none h = cc
present-eq e (some t) h = elim (Bool-cases (is_empty t)) [
  | inl empty ↦ absurd (cc)
  | inr there ↦ ap some (ok_injective (rw there at h))
]

of_claims-eq :
    (m : Result InvalidCredential IdentityClaims) {c : IdentityClaims}
    → of_claims m ≡ ok c
    → m ≡ ok c
unfolding of_claims
of_claims-eq (ok a) h = cc
of_claims-eq (err e) h = cc

of_proof-eq : (m : Result DpopError (String × Js)) {v : String × Js} → of_proof m ≡ ok v → m ≡ ok v
unfolding of_proof
of_proof-eq (ok a) h = cc
of_proof-eq (err e) h = cc

of_relay-eq : (m : Result RelayError TokenResult) {r : TokenResult} → of_relay m ≡ ok r → m ≡ ok r
unfolding of_relay
of_relay-eq (ok a) h = cc
of_relay-eq (err e) h = cc

module _ (rt : Runtime) {Point : Type 0} (curve : Curve Point) where
  -- The request's grant, credential and proof, as the checks read them.
  pub record IsChecked (now : ℕ) (form : List (String × String)) (header : DpopHeader)
      (endpoint : String) (t : Checked) : Type 0 where
    pub grant : grant_of (lookup "grant_type" form) ≡ ok t.grant
    pub proof : first_of header ≡ some t.proof
    pub credential : lookup (credential_field t.grant) form ≡ some t.credential
    pub decoded : decode_credential_claims rt t.credential ≡ ok t.claims
    pub verified :
        (v : String × Js) × (verify_dpop_proof rt now t.proof
            (gateway_options endpoint t.claims.jkt)
          ≡ ok v)

  pub check_token-IsChecked :
      (now : ℕ) (form : List (String × String)) (header : DpopHeader) (endpoint : String)
      {t : Checked}
      → check_token rt curve now form header endpoint ≡ ok t
      → IsChecked now form header endpoint t
  unfolding check_token
  check_token-IsChecked now form header endpoint h = by_steps _ _ h λ g e1 h1.
      by_steps _ _ h1 λ proof e2 h2. by_steps _ _ h2 λ cred e3 h3. by_steps _ _ h3 λ c e4 h4.
        by_steps _ _ h4 λ v e5 h5.
          subst (IsChecked now form header endpoint) (ok_injective h5) (record {
            grant = e1;
            proof = present-eq _ _ e2;
            credential = present-eq _ _ e3;
            decoded = of_claims-eq _ e4;
            verified = (v, of_proof-eq _ e5);
          })

  module _ (p : Proxy) (access_commit refresh_commit : ℕ → ℤ → Option Commitment)
      (sign : SignRequest → ℤ → SignCommitments → Option Shares) where
    -- What a `/token` answer shows of its request.
    pub record IsExchanged (now later : ℕ) (jti : String) (form : List (String × String))
        (header : DpopHeader) (endpoint : String) (res : TokenResult) : Type 0 where
      pub checked : Checked
      pub is_checked : IsChecked now form header endpoint checked
      pub jkt : String
      pub payload : Js
      pub proof :
          IsProof rt now checked.proof (gateway_options endpoint checked.claims.jkt) jkt payload
      pub sent :
          IsSent rt curve p access_commit refresh_commit sign checked.grant checked.credential
            checked.proof later jti checked.claims res

    -- When `handleToken` returns tokens, the form named one of the two grants and held its credential,
    -- and the first DPoP header was a proof for POST at the token endpoint, verified and bound to the key
    -- that the credential names. A quorum of all nodes committed in both rounds, and every participant was
    -- sent one request that holds this grant, this credential in its place, this proof, the times and the
    -- id that the gateway pins and the commitments, and answered with shares, of which the two tokens are
    -- assembled. The answer has the credential's scope and key and a lifetime of an hour.
    pub handle_token-IsExchanged :
        (now later : ℕ) (jti : String) (form : List (String × String)) (header : DpopHeader)
        (endpoint : String) {res : TokenResult}
        → handle_token rt curve p access_commit refresh_commit sign now later jti form header
            endpoint
          ≡ ok res
        → IsExchanged now later jti form header endpoint res
    unfolding handle_token
    handle_token-IsExchanged now later jti form header endpoint {res} h = by_steps _ _ h λ t e1 h1.
        let is_checked = check_token-IsChecked now form header endpoint e1 in
        let ((jkt, payload), verified) = is_checked.verified in
        let (c, decoded, sent) =
          handle_sign-IsSent rt curve p access_commit refresh_commit sign t.grant t.credential
            t.proof later jti (of_relay-eq _ h1) in
        let same : c ≡ t.claims = ok_injective (sym decoded ∙ is_checked.decoded) in
        record {
          checked = t;
          is_checked = is_checked;
          jkt = jkt;
          payload = payload;
          proof = verify_dpop_proof-IsProof rt now t.proof _ verified;
          sent =
              subst
                (λ k.
                  IsSent rt curve p access_commit refresh_commit sign t.grant t.credential t.proof
                    later jti k res)
                same sent;
        }

  -- The gateway's own check of the proof is the nodes': where the gateway's checks pass, every node of
  -- its issuer that accepts the credential accepts the proof too, at the same time of its clock.
  pub relayed_proof_accepted :
      (now before : ℕ) (form : List (String × String)) (header : DpopHeader) (node : IdentityNode)
      (typ : String) (c : CredentialClaims) {t : Checked}
      → check_token rt curve now form header (token_endpoint node) ≡ ok t
      → IsGenuine rt before node t.credential typ c
      → (v : String × Js) × (verify_dpop_proof rt now t.proof (proof_options rt curve node c)
          ≡ ok v)
  relayed_proof_accepted now before form header node typ c {t} h g =
      let is_checked = check_token-IsChecked now form header (token_endpoint node) h in
      let (v, verified) = is_checked.verified in
      let same : t.claims ≡ identity_of c =
        ok_injective
          (sym is_checked.decoded ∙ decode_credential_claims-IsGenuine rt before node _ typ c g) in
      (
        v,
        subst
            (λ k. verify_dpop_proof rt now t.proof (gateway_options (token_endpoint node) k) ≡ ok v)
            (ap (λ k. k.jkt) same) verified,
      )
