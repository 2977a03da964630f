-- ===== src/Node/Verified.antt =====
-- What a node knows of a credential that it has verified: `verifyAssertion` and `verifyRefreshToken`
-- of projects/node/src/protocol/node.ts.
use decentralized_identity_p.Prelude.{
  ok_injective, by_steps, ◌⊎◌, leb_ℤ, ltb_ℤ, ◌||◌, ℕ, ◌*◌, ℤ, pos, ◌≤ℤ◌, ◌<ℤ◌, ◌-ℤ◌, ◌+ℤ◌, ◌*ℤ◌,
  -ℤ_parts, ◌≡◌, ◌≢◌, refl, ap, subst, ◌∙◌, sym, String, false, not, Option, none, some, [], ◌∷◌,
  arith, str_eq, is_empty, eq_iff, Result, ok, err, >>=-eq-ok, throw_if-eq-ok, Bool-cases, inl, inr,
}
use decentralized_identity_p.Js.{is_truthy, Js, str, num, read}
use decentralized_identity_p.Runtime.{Runtime}
use decentralized_identity_p.Jwt.{parse_part, JwtError, nothing_expected}
use decentralized_identity_p.Jwt.Verified.{IsVerified, verify_jwt-IsVerified, is_text-eq}
use decentralized_identity_p.Node.{
  IdentityNode, refresh_token_typ, max_assertion_lifetime_seconds, max_refresh_lifetime_seconds,
}
use decentralized_identity_p.Node.Credential.{
  CredentialClaims, text_claim, number_claim, optional_text, scope_text, confirmation, of_jwt,
  has_typ, read_claims, verify_credential, is_outside, is_audience, verify_assertion,
  verify_refresh_token,
}

text_claim-eq :
    (name : String) (o : Option Js) {s : String}
    → text_claim name o ≡ ok s
    → (o ≡ some (str s)) × (is_empty s ≡ false)
unfolding text_claim
text_claim-eq name (some (str t)) h = ground arith
text_claim-eq name none h = cc
text_claim-eq name (some Js.undefined) h = cc
text_claim-eq name (some Js.null) h = cc
text_claim-eq name (some (Js.bool b)) h = cc
text_claim-eq name (some (num z m)) h = cc
text_claim-eq name (some (Js.arr vs)) h = cc
text_claim-eq name (some (Js.obj fs)) h = cc

has_typ-eq : (typ : String) (o : Option Js) → not (has_typ typ o) ≡ false → o ≡ some (str typ)
has_typ-eq typ none h = cc
has_typ-eq typ (some v) h = ap some (is_text-eq typ v h)

not_differ : (s t : String) → not (str_eq s t) ≡ false → s ≡ t
not_differ s t h = ground (arith, eq_iff s t)

of_jwt-eq : (r : Result JwtError (Js × Js)) {v : Js × Js} → of_jwt r ≡ ok v → r ≡ ok v
unfolding of_jwt
of_jwt-eq (ok w) h = ap ok (ok_injective h)
of_jwt-eq (err e) h = cc

number_claim-eq :
    (o : Option Js) {t : ℤ}
    → number_claim o ≡ ok t
    → (z : ℤ) × (m : ℕ) × (o ≡ some (num z m)) × (pos 1000 *ℤ z +ℤ pos m ≡ t)
unfolding number_claim
number_claim-eq (some (num z m)) h = (z, m, refl, ok_injective h)
number_claim-eq none h = cc
number_claim-eq (some Js.undefined) h = cc
number_claim-eq (some Js.null) h = cc
number_claim-eq (some (Js.bool b)) h = cc
number_claim-eq (some (str s)) h = cc
number_claim-eq (some (Js.arr vs)) h = cc
number_claim-eq (some (Js.obj fs)) h = cc

zero_of_falsy : (z : ℤ) (m : ℕ) → is_truthy (num z m) ≡ false → pos 1000 *ℤ z +ℤ pos m ≡ pos 0
unfolding ◌*ℤ◌ ◌+ℤ◌
zero_of_falsy z m h = ground arith

audience :
    (issuer : String) (o : Option String) → not (is_audience issuer o) ≡ false → o ≡ some issuer
audience issuer none h = cc
audience issuer (some a) h = ap some (not_differ a issuer h)

inside :
    (exp iat : ℤ) (max : ℕ)
    → (leb_ℤ (exp -ℤ iat) (pos 0) || ltb_ℤ (pos max) (exp -ℤ iat)) ≡ false
    → (iat <ℤ exp) × (exp -ℤ iat ≤ℤ pos max)
inside exp iat max h = ground (arith, -ℤ_parts exp iat)

jwt_ne_refresh : ◌≢◌ {A = String} "JWT" refresh_token_typ
jwt_ne_refresh = ground (arith, eq_iff "JWT" refresh_token_typ)

-- What of a payload ends up in the claims.
pub record Carries (node : IdentityNode) (payload : Js) (c : CredentialClaims) : Type 0 where
  pub iss : c.iss ≡ node.issuer
  pub payload_iss : read "iss" payload ≡ some (str node.issuer)
  pub sub : read "sub" payload ≡ some (str c.sub)
  pub sub_not_empty : is_empty c.sub ≡ false
  pub client_id : read "client_id" payload ≡ some (str c.client_id)
  pub client_id_not_empty : is_empty c.client_id ≡ false
  pub jkt : confirmation (read "cnf" payload) ≡ some (str c.jkt)
  pub jkt_not_empty : is_empty c.jkt ≡ false
  pub scope : c.scope ≡ scope_text (read "scope" payload)
  pub aud : c.aud ≡ optional_text (read "aud" payload)
  pub iat : number_claim (read "iat" payload) ≡ ok c.iat
  pub exp : number_claim (read "exp" payload) ≡ ok c.exp

module _ (rt : Runtime) where
  read_claims-Carries :
      (node : IdentityNode) (payload : Js) {c : CredentialClaims}
      → read_claims rt node payload ≡ ok c
      → Carries node payload c
  unfolding read_claims
  read_claims-Carries node payload {c} h = by_steps _ _ h λ iat e1 h1. by_steps _ _ h1 λ exp e2 h2.
      by_steps _ _ h2 λ iss e3 h3. by_steps _ _ h3 λ _ e4 h4. by_steps _ _ h4 λ jkt e5 h5.
        by_steps _ _ h5 λ sub e6 h6. by_steps _ _ h6 λ client e7 h7.
          let issuer : iss ≡ node.issuer = not_differ iss node.issuer (throw_if-eq-ok _ _ e4) in
          subst (Carries node payload) (ok_injective h7) (record {
            iss = issuer;
            payload_iss = (text_claim-eq _ _ e3).0 ∙ ap (λ s. some (str s)) issuer;
            sub = (text_claim-eq _ _ e6).0;
            sub_not_empty = (text_claim-eq _ _ e6).1;
            client_id = (text_claim-eq _ _ e7).0;
            client_id_not_empty = (text_claim-eq _ _ e7).1;
            jkt = (text_claim-eq _ _ e5).0;
            jkt_not_empty = (text_claim-eq _ _ e5).1;
            scope = refl;
            aud = refl;
            iat = e1;
            exp = e2;
          })

  -- A token of the given `typ`, verified under the group key, that carries the claims.
  pub record IsGenuine (now : ℕ) (node : IdentityNode) (token typ : String) (c : CredentialClaims)
      : Type 0 where
    pub header : Js
    pub payload : Js
    pub verified : IsVerified rt now token node.group_public_key header payload
    pub typ_claim : read "typ" header ≡ some (str typ)
    pub carries : Carries node payload c

  verify_credential-IsGenuine :
      (now : ℕ) (node : IdentityNode) (token typ : String) {c : CredentialClaims}
      → verify_credential rt now node token typ ≡ ok c
      → IsGenuine now node token typ c
  unfolding verify_credential
  verify_credential-IsGenuine now node token typ h =
      let ((header, payload), e1, h1) = >>=-eq-ok _ _ h in
      by_steps _ _ h1 λ _ e2 h2. record {
        header = header;
        payload = payload;
        verified =
            verify_jwt-IsVerified rt now token node.group_public_key nothing_expected
              (of_jwt-eq _ e1);
        typ_claim = has_typ-eq typ _ (throw_if-eq-ok _ _ e2);
        carries = read_claims-Carries node payload h2;
      }

  -- The claims' expiry, which is kept in thousandths, is 0 or not before `now`.
  IsGenuine-current :
      (now : ℕ) (node : IdentityNode) (token typ : String) {c : CredentialClaims}
      → IsGenuine now node token typ c
      → (c.exp ≡ pos 0) ⊎ (pos 1000 *ℤ pos now ≤ℤ c.exp)
  IsGenuine-current now node token typ {c} g =
      let (z, m, e, k) = number_claim-eq _ g.carries.exp in
      elim (Bool-cases (is_truthy (num z m))) [
        | inl t ↦ inr (subst (λ x. pos 1000 *ℤ pos now ≤ℤ x) k (g.verified.current z m e t))
        | inr f ↦ inl (sym k ∙ zero_of_falsy z m f)
      ]

  -- The lifetime of a credential, in thousandths of a second, is positive and at most `max` seconds.
  abbrev pub LivesAtMost : ℕ → CredentialClaims → Type 0
  LivesAtMost max c = (c.iat <ℤ c.exp) × (c.exp -ℤ c.iat ≤ℤ pos (1000 * max))

  inside-LivesAtMost :
      (c : CredentialClaims) (max : ℕ) → is_outside (c.exp -ℤ c.iat) max ≡ false → LivesAtMost max c
  inside-LivesAtMost c max h = inside c.exp c.iat (1000 * max) h

  -- An assertion that a node accepts is a JWT verified under the group key, whose header says `JWT`,
  -- whose issuer and audience are this node's issuer, whose subject, client and key thumbprint are not
  -- empty and are the payload's, which lives at most 30 seconds, and whose expiry is 0 or has not passed.
  pub verify_assertion-IsGenuine :
      (now : ℕ) (node : IdentityNode) (assertion : String) {c : CredentialClaims}
      → verify_assertion rt now node assertion ≡ ok c
      → IsGenuine now node assertion "JWT" c
        × (c.aud ≡ some node.issuer)
        × LivesAtMost max_assertion_lifetime_seconds c
        × ((c.exp ≡ pos 0) ⊎ (pos 1000 *ℤ pos now ≤ℤ c.exp))
  unfolding verify_assertion
  verify_assertion-IsGenuine now node assertion {c} h = by_steps _ _ h λ d e1 h1.
      by_steps _ _ h1 λ _ e2 h2. by_steps _ _ h2 λ _ e3 h3.
        let genuine = verify_credential-IsGenuine now node assertion "JWT" e1 in
        subst
          (λ c.
            IsGenuine now node assertion "JWT" c
            × (c.aud ≡ some node.issuer)
            × LivesAtMost max_assertion_lifetime_seconds c
            × ((c.exp ≡ pos 0) ⊎ (pos 1000 *ℤ pos now ≤ℤ c.exp)))
          (ok_injective h3)
          (
            genuine,
            audience node.issuer d.aud (throw_if-eq-ok _ _ e2),
            inside-LivesAtMost d max_assertion_lifetime_seconds (throw_if-eq-ok _ _ e3),
            IsGenuine-current now node assertion "JWT" genuine,
          )

  -- A refresh token that a node accepts is a JWT verified under the group key, whose header says
  -- `refresh+jwt`, whose issuer is this node's, whose subject, client and key thumbprint are not empty
  -- and are the payload's, which lives at most 40 days, and whose expiry is 0 or has not passed.
  pub verify_refresh_token-IsGenuine :
      (now : ℕ) (node : IdentityNode) (token : String) {c : CredentialClaims}
      → verify_refresh_token rt now node token ≡ ok c
      → IsGenuine now node token refresh_token_typ c
        × LivesAtMost max_refresh_lifetime_seconds c
        × ((c.exp ≡ pos 0) ⊎ (pos 1000 *ℤ pos now ≤ℤ c.exp))
  unfolding verify_refresh_token
  verify_refresh_token-IsGenuine now node token h = by_steps _ _ h λ d e1 h1.
      by_steps _ _ h1 λ _ e2 h2.
        let genuine = verify_credential-IsGenuine now node token refresh_token_typ e1 in
        subst
          (λ c.
            IsGenuine now node token refresh_token_typ c
            × LivesAtMost max_refresh_lifetime_seconds c
            × ((c.exp ≡ pos 0) ⊎ (pos 1000 *ℤ pos now ≤ℤ c.exp)))
          (ok_injective h2)
          (
            genuine,
            inside-LivesAtMost d max_refresh_lifetime_seconds (throw_if-eq-ok _ _ e2),
            IsGenuine-current now node token refresh_token_typ genuine,
          )

  same_typ :
      (now now' : ℕ) (node node' : IdentityNode) (token t t' : String) {c c' : CredentialClaims}
      → IsGenuine now node token t c
      → IsGenuine now' node' token t' c'
      → t ≡ t'
  same_typ now now' node node' token t t' g g' =
      let parts : g.verified.header_b64 ∷ (g.verified.payload_b64 ∷ (g.verified.sig_b64 ∷ []))
          ≡ g'.verified.header_b64 ∷ (g'.verified.payload_b64 ∷ (g'.verified.sig_b64 ∷ [])) =
        sym g.verified.parts ∙ g'.verified.parts in
      let headers : g.verified.header_b64 ≡ g'.verified.header_b64 = cc in
      let parsed : some g.header ≡ some g'.header =
        sym g.verified.header_parses ∙ (ap (parse_part rt) headers ∙ g'.verified.header_parses) in
      let same : g.header ≡ g'.header = cc in
      let typs : some (str t) ≡ some (str t') =
        sym g.typ_claim ∙ (ap (read "typ") same ∙ g'.typ_claim) in
      cc

  -- No token is accepted both as an assertion and as a refresh token, by any two nodes at any times.
  pub credential_kinds_disjoint :
      (now now' : ℕ) (node node' : IdentityNode) (token : String) {c c' : CredentialClaims}
      → verify_assertion rt now node token ≡ ok c
      → ¬ (verify_refresh_token rt now' node' token ≡ ok c')
  credential_kinds_disjoint now now' node node' token h k =
      let g = (verify_assertion-IsGenuine now node token h).0 in
      let g' = (verify_refresh_token-IsGenuine now' node' token k).0 in
      jwt_ne_refresh (same_typ now now' node node' token "JWT" refresh_token_typ g g')
