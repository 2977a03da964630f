-- ===== src/Wire/Sound.antt =====
-- What a node knows of a body that it has read.
use decentralized_identity_p.Prelude.{
  subst, ℕ, suc, ◌≡◌, refl, String, Bool-cases, inl, inr, [], All, arith, ok, err, ◌>>=◌, ◌==◌,
  is_empty, length, throw_if, str_eq, ◌≢◌, eq_iff, Option,
}
use decentralized_identity_p.Js.{Js, str, arr, Items, nil, cons}
use decentralized_identity_p.Runtime.{Bytes, Base64Url}
use decentralized_identity_p.Protocol.{
  SignOnRequest, Grant, authorization_code, AccessTokenClaims, SignRequest, SignRounds,
}
use decentralized_identity_p.Wire.{
  Place, Reads, WireError, require_string, require_non_empty_string, decode_point, is_base64url,
}
use decentralized_identity_p.Wire.Request.{
  claims_from_wire, credential_from_wire, commitment_from_wire, commitments_from,
  commitments_from_wire, sign_on_request_from_wire, sign_request_from_wire,
  sign_on_envelope_from_wire, sign_envelope_from_wire,
}
use decentralized_identity_p.Wire.Shapes.{IsNonEmpty, Has32Bytes, IsSignOn, IsCredential, IsSign}

-- If the reader returns, its value satisfies `P`.
data Ensures {A : Type 0} (P : A → Type 0) : Reads A → Type 0 where
  returns : (a : A) → P a → Ensures P (ok a)
  throws : (e : WireError) → Ensures P (err e)

Ensures-ok : {A : Type 0} {P : A → Type 0} {r : Reads A} {a : A} → Ensures P r → r ≡ ok a → P a
Ensures-ok {P} {a} (returns b p) e = let same : b ≡ a = cc in subst P same p
Ensures-ok (throws x) e = cc

bind :
    {A B : Type 0} {P : A → Type 0} {Q : B → Type 0} {m : Reads A} {f : A → Reads B}
    → Ensures P m
    → ((a : A) → P a → Ensures Q (f a))
    → Ensures Q (m >>= f)
unfolding ◌>>=◌
bind (returns a p) k = k a p
bind (throws e) k = throws e

abbrev Anything : {A : Type 0} → A → Type 0
Anything a = Unit

anything : {A : Type 0} (r : Reads A) → Ensures Anything r
anything (ok a) = returns a tt
anything (err e) = throws e

non_empty : (place : Place) (v : Js) → Ensures IsNonEmpty (require_non_empty_string place v)
unfolding require_non_empty_string require_string ◌>>=◌
non_empty place (str s) = elim (Bool-cases (is_empty s)) [
  | inl e ↦ rw e (throws _)
  | inr e ↦ rw e (returns s e)
]
non_empty place _ = throws _

abbrev Is32Bytes : Bytes → Type 0
Is32Bytes p = length p ≡ 32

point : (b64 : Base64Url) (place : Place) (v : Js) → Ensures Is32Bytes (decode_point b64 place v)
unfolding decode_point require_string ◌>>=◌
point b64 place (str s) = elim (Bool-cases (is_base64url s)) [
  | inr e ↦ rw e (throws _)
  | inl e ↦ rw e (elim (Bool-cases (length (b64.decode s) == 32)) [
    | inl same ↦ rw same (returns _ (ground arith))
    | inr other ↦ rw other (throws _)
  ])
]
point b64 place _ = throws _

module _ (b64 : Base64Url) where
  commitment : (v : Js) (place : Place) → Ensures Has32Bytes (commitment_from_wire b64 v place)
  unfolding commitment_from_wire
  commitment v place = bind (anything _) (λ raw _.
      bind (anything _)
        (λ id _. bind (point b64 _ _) (λ d hd. bind (point b64 _ _) (λ e he. returns _ (hd, he)))))

  commitments :
      (place : Place) (i : ℕ) (vs : Items)
      → Ensures (All Has32Bytes) (commitments_from b64 place i vs)
  unfolding commitments_from
  commitments place i nil = returns [] tt
  commitments place i (cons v vs) =
      bind (commitment v _)
        (λ c h. bind (commitments place (suc i) vs) (λ cs hs. returns _ (h, hs)))

  commitment_list :
      (v : Js) (place : Place) → Ensures (All Has32Bytes) (commitments_from_wire b64 v place)
  unfolding commitments_from_wire
  commitment_list (arr vs) place = commitments place 0 vs
  commitment_list _ place = throws _

  sign_on :
      (v : Js) (place : Place)
      → Ensures (IsSignOn Has32Bytes) (sign_on_request_from_wire b64 v place)
  unfolding sign_on_request_from_wire
  sign_on v place = bind (anything _) λ raw _. bind (non_empty _ _) λ a ha.
      bind (non_empty _ _) λ b hb. bind (non_empty _ _) λ c hc. bind (non_empty _ _) λ d hd.
        bind (non_empty _ _) λ e he. bind (non_empty _ _) λ f hf. bind (anything _) λ g _.
          bind (anything _) λ h _. bind (anything _) λ i _. bind (non_empty _ _) λ j hj.
            bind (commitment_list _ _) λ k hk. bind (anything _) λ l _. bind (anything _) λ m _.
              returns _ (record {
                session_id = ha;
                username = hb;
                blinded = hc;
                session_nonce = hd;
                cnf_jkt = he;
                client_id = hf;
                iss = hj;
                commitments = hk;
              })

claims_jti :
    (v : Js) (place : Place)
    → Ensures (λ (c : AccessTokenClaims). IsNonEmpty c.jti) (claims_from_wire v place)
unfolding claims_from_wire
claims_jti v place = bind (anything _) λ raw _.
    bind (anything _) λ a _. bind (anything _) λ b _. bind (non_empty _ _) λ c h. returns _ h

credential :
    (g : Grant) (place : Place) (a r : Js)
    → Ensures
        (λ (p : Option String × Option String). IsCredential g p.0 p.1)
        (credential_from_wire g place a r)
unfolding credential_from_wire
credential authorization_code place a r = bind (non_empty _ _) λ s h. returns _ ((s, refl, h), refl)
credential Grant.refresh_token place a r =
    bind (non_empty _ _) λ s h. returns _ ((s, refl, h), refl)

module _ (b64 : Base64Url) where
  sign : (v : Js) (place : Place) → Ensures (IsSign Has32Bytes) (sign_request_from_wire b64 v place)
  unfolding sign_request_from_wire
  sign v place = bind (anything _) λ raw _. bind (anything _) λ g _. bind (non_empty _ _) λ d hd.
      bind (claims_jti _ _) λ c hc. bind (commitment_list b64 _ _) λ k hk.
        bind (commitment_list b64 _ _) λ l hl. bind (anything _) λ m _.
          bind (credential g _ _ _) λ p hp. bind (anything _) λ x _. returns _ (record {
            dpop_proof = hd;
            jti = hc;
            credential = hp;
            commitments = hk;
            refresh_commitments = hl;
          })

  abbrev IsSignOnBody : String × SignOnRequest → Type 0
  IsSignOnBody b = IsNonEmpty b.0 × IsSignOn Has32Bytes b.1

  sign_on_body : (v : Js) → Ensures IsSignOnBody (sign_on_envelope_from_wire b64 v)
  unfolding sign_on_envelope_from_wire
  sign_on_body v =
      bind (anything _)
        λ raw _. bind (non_empty _ _) λ r hr. bind (sign_on b64 _ _) λ q hq. returns _ (hr, hq)

  differ :
      (s t : String) (e : WireError) → Ensures (λ (u : Unit {0}). s ≢ t) (throw_if (str_eq s t) e)
  differ s t e = elim (Bool-cases (str_eq s t)) [
    | inl same ↦ rw same (throws e)
    | inr other ↦ rw other (returns tt (ground (arith, eq_iff s t)))
  ]

  abbrev IsSignBody : SignRounds × SignRequest → Type 0
  IsSignBody b =
      IsNonEmpty b.0.access_round_id
      × IsNonEmpty b.0.refresh_round_id
      × (b.0.access_round_id ≢ b.0.refresh_round_id)
      × IsSign Has32Bytes b.1

  sign_body : (v : Js) → Ensures IsSignBody (sign_envelope_from_wire b64 v)
  unfolding sign_envelope_from_wire
  sign_body v = bind (anything _) λ raw _. bind (non_empty _ _) λ a ha.
      bind (non_empty _ _)
        λ r hr. bind (differ a r _) λ u hu. bind (sign _ _) λ q hq. returns _ (ha, hr, hu, hq)

  -- Whatever JSON a node reads as a sign-on body, the round id is not empty, no text that must not
  -- be empty is, and every commitment consists of two strings of 32 bytes.
  pub sign_on_envelope_from_wire-IsSignOn :
      (v : Js) {round_id : String} {req : SignOnRequest}
      → sign_on_envelope_from_wire b64 v ≡ ok (round_id, req)
      → IsNonEmpty round_id × IsSignOn Has32Bytes req
  sign_on_envelope_from_wire-IsSignOn v e = Ensures-ok (sign_on_body v) e

  -- Whatever JSON a node reads as a sign body, its two rounds are not empty and differ, the request
  -- holds the credential that its grant names and no other, and every commitment of both lists
  -- consists of two strings of 32 bytes.
  pub sign_envelope_from_wire-IsSign :
      (v : Js) {rounds : SignRounds} {req : SignRequest}
      → sign_envelope_from_wire b64 v ≡ ok (rounds, req)
      → IsNonEmpty rounds.access_round_id
        × IsNonEmpty rounds.refresh_round_id
        × (rounds.access_round_id ≢ rounds.refresh_round_id)
        × IsSign Has32Bytes req
  sign_envelope_from_wire-IsSign v e = Ensures-ok (sign_body v) e
