-- ===== src/Gateway/Authorized.antt =====
-- Which authorization requests projects/gateway/src/gateway/oidc.ts accepts.
use decentralized_identity_p.Prelude.{
  ok_injective, includes, ◌≡◌, ◌↔◌, refl, sym, ap, subst, String, true, false, not, Option, none,
  some, is_empty, Bool, Bool-cases, inl, inr, ok, err, by_steps, >>=-ok, throw_if-eq-ok, throw_if,
  str_eq, eq_iff, arith,
}
use decentralized_identity_p.Gateway.Oidc.{
  AuthorizeQuery, AuthorizeParams, AuthorizeError, Validates, needed, words, is_thumbprint,
  validate_authorize_request,
}

-- The parameter is there and not empty.
abbrev pub IsGiven : Option String → String → Type 0
IsGiven o s = (o ≡ some s) × (is_empty s ≡ false)

-- The request asks for a code for the scope openid, with a client, an address to return to and the
-- thumbprint of a key.
pub record IsAuthorize (q : AuthorizeQuery) (p : AuthorizeParams) : Type 0 where
  pub client_id : IsGiven q.client_id p.client_id
  pub redirect_uri : IsGiven q.redirect_uri p.redirect_uri
  pub response_type : IsGiven q.response_type p.response_type
  pub is_code : p.response_type ≡ "code"
  pub scope : IsGiven q.scope p.scope
  pub openid : includes "openid" (words p.scope) ≡ true
  pub dpop_jkt : IsGiven q.dpop_jkt p.dpop_jkt
  pub thumbprint : is_thumbprint p.dpop_jkt ≡ true
  pub state : p.state ≡ q.state

needed-eq : (e : AuthorizeError) (o : Option String) {s : String} → needed e o ≡ ok s → IsGiven o s
unfolding needed
needed-eq e none h = cc
needed-eq e (some t) {s} h = elim (Bool-cases (is_empty t)) [
  | inl empty ↦ absurd (never (rw empty at h))
  | inr there ↦
      let same : t ≡ s = ok_injective (rw there at h) in
      (ap some same, subst (λ x. is_empty x ≡ false) same there)
]
  where
    never : {s : String} {e : AuthorizeError} → ¬ (◌≡◌ {A = Validates String} (err e) (ok s))
    never h = cc

needed-IsGiven :
    (e : AuthorizeError) (o : Option String) (s : String) → IsGiven o s → needed e o ≡ ok s
unfolding needed
needed-IsGiven e o s (h, k) = rw h (rw k refl)

not-false : (b : Bool) → not b ≡ false → b ≡ true
not-false true h = refl
not-false false h = cc

passes : (b : Bool) (e : AuthorizeError) → b ≡ true → throw_if (not b) e ≡ ok tt
passes true e h = refl
passes false e h = cc

is_same : (s t : String) → s ≡ t → str_eq s t ≡ true
is_same s t h = ground (arith, eq_iff s t)

-- The gateway accepts an authorization request, with these parameters, exactly if the client id and
-- the redirect address are given and not empty, the response type is code, openid is among the scopes,
-- and the key's thumbprint has 43 characters of the Base64url alphabet.
pub validate_authorize_request_iff :
    (q : AuthorizeQuery) (p : AuthorizeParams)
    → (validate_authorize_request q ≡ ok p) ↔ IsAuthorize q p
unfolding validate_authorize_request
validate_authorize_request_iff q p = (sound, complete)
  where
    sound : validate_authorize_request q ≡ ok p → IsAuthorize q p
    sound h = by_steps _ _ h λ c e1 h1. by_steps _ _ h1 λ r e2 h2. by_steps _ _ h2 λ t e3 h3.
        by_steps _ _ h3 λ _ e4 h4. by_steps _ _ h4 λ s e5 h5. by_steps _ _ h5 λ _ e6 h6.
          by_steps _ _ h6 λ j e7 h7. by_steps _ _ h7 λ _ e8 h8.
            subst (IsAuthorize q) (ok_injective h8) (record {
              client_id = needed-eq _ _ e1;
              redirect_uri = needed-eq _ _ e2;
              response_type = needed-eq _ _ e3;
              is_code = let k = throw_if-eq-ok _ _ e4 in ground (arith, eq_iff t "code");
              scope = needed-eq _ _ e5;
              openid = not-false _ (throw_if-eq-ok _ _ e6);
              dpop_jkt = needed-eq _ _ e7;
              thumbprint = not-false _ (throw_if-eq-ok _ _ e8);
              state = refl;
            })

    complete : IsAuthorize q p → validate_authorize_request q ≡ ok p
    complete g = >>=-ok _ (needed-IsGiven _ _ _ g.client_id) (
        >>=-ok _ (needed-IsGiven _ _ _ g.redirect_uri) (
          >>=-ok _ (needed-IsGiven _ _ _ g.response_type) (
            >>=-ok _ (passes _ _ (is_same p.response_type "code" g.is_code)) (
              >>=-ok _ (needed-IsGiven _ _ _ g.scope) (
                >>=-ok _ (passes _ _ g.openid) (
                  >>=-ok _ (needed-IsGiven _ _ _ g.dpop_jkt) (
                    >>=-ok _ (passes _ _ g.thumbprint) (
                      ap
                        (λ s. ok (record {
                          client_id = p.client_id;
                          redirect_uri = p.redirect_uri;
                          response_type = p.response_type;
                          scope = p.scope;
                          state = s;
                          dpop_jkt = p.dpop_jkt;
                        }))
                        (sym g.state)))))))))
