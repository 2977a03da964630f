-- ===== src/Gateway/Relayed.antt =====
-- What projects/gateway/src/gateway/proxy.ts has relayed when `handleSignOn` returns, and how it
-- counts participants.
use decentralized_identity_p.Prelude.{
  Bool, true, false, none, inl, inr, ◌⊎◌, ok_injective, ℕ, suc, ℤ, ◌≡◌, refl, subst, String, Option,
  some, List, [], ◌∷◌, Result, ok, err, by_steps, or_throw-eq-ok,
}
use decentralized_identity_p.Protocol.{Commitment, FrostCommitment, SignOnRequest, SignOnResponse}
use decentralized_identity_p.Gateway.Commitments.{ProxyError, Collected}
use decentralized_identity_p.Gateway.Proxy.{Proxy}
use decentralized_identity_p.Gateway.Quorum.{IsQuorum, collect_commitments-IsQuorum}
use decentralized_identity_p.Gateway.SignOn.{
  SignOnBody, SignOnResult, Answer, of_collecting, is_explicit, requested_of, sign_on_request,
  all_responses, handle_sign_on,
}

of_collecting-eq :
    (m : Result ProxyError Collected) {c : Collected} → of_collecting m ≡ ok c → m ≡ ok c
of_collecting-eq (ok a) h = cc
of_collecting-eq (err e) h = cc

-- Each response is what the node of the same position answered.
abbrev pub AreAnswers : Answer → ℕ → List FrostCommitment → List SignOnResponse → Type 0
AreAnswers answer i [] [] = Unit
AreAnswers answer i [] (r ∷ rs) = ⊥
AreAnswers answer i (c ∷ cs) [] = ⊥
AreAnswers answer i (c ∷ cs) (r ∷ rs) =
    (answer i c.node_id (record { d_point = c.d_point; e_point = c.e_point }) ≡ some r)
    × AreAnswers answer (suc i) cs rs

all_responses-AreAnswers :
    (answer : Answer) (i : ℕ) (cs : List FrostCommitment) {rs : List SignOnResponse}
    → all_responses answer i cs ≡ ok rs
    → AreAnswers answer i cs rs
unfolding all_responses
all_responses-AreAnswers answer i [] {rs} h = subst (AreAnswers answer i []) (ok_injective h) tt
all_responses-AreAnswers answer i (c ∷ cs) {rs} h = by_steps _ _ h λ r e1 h1.
    by_steps _ _ h1 λ rest e2 h2.
      subst (AreAnswers answer i (c ∷ cs)) (ok_injective h2)
        (or_throw-eq-ok _ _ e1, all_responses-AreAnswers answer (suc i) cs e2)

-- The request of a sign-on, field by field: the browser's, with the session and with the quorum's
-- commitments and participants.
pub record IsRequestOf (body : SignOnBody) (session_id : String) (collected : Collected)
    (req : SignOnRequest) : Type 0 where
  pub session : req.session_id ≡ session_id
  pub username : req.username ≡ body.username
  pub blinded : req.blinded ≡ body.blinded
  pub session_nonce : req.session_nonce ≡ body.session_nonce
  pub cnf_jkt : req.cnf_jkt ≡ body.cnf_jkt
  pub client_id : req.client_id ≡ body.client_id
  pub scope : req.scope ≡ body.scope
  pub nonce : req.nonce ≡ body.nonce
  pub iat : req.iat ≡ body.iat
  pub exp : req.exp ≡ body.exp
  pub iss : req.iss ≡ body.iss
  pub commitments : req.commitments ≡ collected.commitments
  pub participants : req.all_participants ≡ collected.participants

sign_on_request-IsRequestOf :
    (body : SignOnBody) (session_id : String) (collected : Collected)
    → IsRequestOf body session_id collected (sign_on_request body session_id collected)
unfolding sign_on_request
sign_on_request-IsRequestOf body session_id collected = record {
  session = refl;
  username = refl;
  blinded = refl;
  session_nonce = refl;
  cnf_jkt = refl;
  client_id = refl;
  scope = refl;
  nonce = refl;
  iat = refl;
  exp = refl;
  iss = refl;
  commitments = refl;
  participants = refl;
}

-- The ids that the browser asks for are its participants, where it sends a list that is neither absent
-- nor null, and every node otherwise; absent alone is not explicit.
abbrev pub Asks : Proxy → SignOnBody → List ℤ → Bool → Type 0
Asks p body ids explicit =
    ((body.participants ≡ none) × (ids ≡ p.nodes) × (explicit ≡ false))
    ⊎ (((body.participants ≡ some none) × (ids ≡ p.nodes) × (explicit ≡ true))
        ⊎ ((body.participants ≡ some (some ids)) × (explicit ≡ true)))

requested_of-Asks :
    (p : Proxy) (body : SignOnBody) → Asks p body (requested_of p body) (is_explicit body)
requested_of-Asks p body = go body.participants refl
  where
    go :
        (o : Option (Option (List ℤ)))
        → body.participants ≡ o
        → Asks p body (requested_of p body) (is_explicit body)
    go none e = rw e (inl (refl, refl, refl))
    go (some none) e = rw e (inr (inl (refl, refl, refl)))
    go (some (some ids)) e = rw e (inr (inr (refl, refl)))

module _ (p : Proxy) (commit : ℕ → ℤ → Option Commitment) (sign_on : SignOnRequest → Answer) where
  -- A quorum of the ids that the browser asks for was collected, and every participant was sent the same
  -- request, the browser's with the quorum's commitments and participants, and answered.
  pub record IsRelayed (body : SignOnBody) (session_id : String) (res : SignOnResult) : Type 0 where
    pub collected : Collected
    pub ids : List ℤ
    pub explicit : Bool
    pub asks : Asks p body ids explicit
    pub is_quorum : IsQuorum p.nodes p.threshold commit ids explicit collected
    pub commitments : res.commitments ≡ collected.commitments
    pub session : res.session_id ≡ session_id
    pub responses :
        (req : SignOnRequest) × IsRequestOf body session_id collected req
        × AreAnswers (sign_on req) 0 collected.commitments res.node_responses

  -- When the gateway's `handleSignOn` returns, the commitments are those of a quorum of the ids asked
  -- for: the body's participants, or every node where they are absent or null. Every participant was sent
  -- one and the same request, which has the body's fields, the session, and the quorum's commitments and
  -- participants, and the responses are what they answered, in the order of the commitments.
  pub handle_sign_on-IsRelayed :
      (body : SignOnBody) (session_id : String) {res : SignOnResult}
      → handle_sign_on p commit sign_on body session_id ≡ ok res
      → IsRelayed body session_id res
  unfolding handle_sign_on
  handle_sign_on-IsRelayed body session_id {res} h = by_steps _ _ h λ _ e1 h1.
      by_steps _ _ h1 λ collected e2 h2. by_steps _ _ h2 λ rs e3 h3.
        subst (IsRelayed body session_id) (ok_injective h3) (record {
          collected = collected;
          ids = requested_of p body;
          explicit = is_explicit body;
          asks = requested_of-Asks p body;
          is_quorum =
              collect_commitments-IsQuorum p.nodes p.threshold commit (requested_of p body)
                (is_explicit body) (of_collecting-eq _ e2);
          commitments = refl;
          session = refl;
          responses = (
            sign_on_request body session_id collected,
            sign_on_request-IsRequestOf body session_id collected,
            all_responses-AreAnswers _ 0 collected.commitments e3,
          );
        })
