-- ===== src/Node/SignedOn.antt =====
-- What has been checked when `handleSignOn` of projects/node/src/protocol/node.ts returns, what it
-- has encrypted, and what it does to the open rounds.
use decentralized_identity_p.Crypto.Toprf.{Group, evaluate}
use decentralized_identity_p.Prelude.{
  ok_injective, ℕ, pos, ◌≤ℤ◌, ◌<ℤ◌, ◌-ℤ◌, ◌≡◌, refl, sym, ap, subst, String, not, false, some,
  arith, str_eq, eq_iff, lookup, Result, ok, err, by_steps, throw_if-eq-ok, or_throw-eq-ok, length,
  ◌==◌,
}
use decentralized_identity_p.Runtime.{Bytes, Runtime}
use decentralized_identity_p.Protocol.{Commitment, FrostNonces, SignOnRequest, SignOnResponse}
use decentralized_identity_p.Crypto.Aead.{Cipher, AeadError, derive_aead_nonce, aead_encrypt}
use decentralized_identity_p.Crypto.Frost.{Curve, compute_signature_share}
use decentralized_identity_p.Jwt.{create_signing_input}
use decentralized_identity_p.Node.{
  IdentityNode, UserRecord, clock_skew_seconds, max_assertion_lifetime_seconds,
}
use decentralized_identity_p.Node.Pinned.{skew_parts, exceeds_parts, of_frost-eq}
use decentralized_identity_p.Node.SignOn.{
  check_sign_on, assertion_header, assertion_payload, of_aead, share_bundle, sign_assertion,
}

-- The requester is a user of the node, the issuer is the node's and the times are within bounds.
pub record IsAdmitted (now : ℕ) (node : IdentityNode) (req : SignOnRequest) (user : UserRecord)
    : Type 0 where
  pub known : lookup req.username node.users ≡ some user
  pub issuer : req.iss ≡ node.issuer
  pub iat_not_old : pos now -ℤ req.iat ≤ℤ pos clock_skew_seconds
  pub iat_not_ahead : req.iat -ℤ pos now ≤ℤ pos clock_skew_seconds
  pub lives : req.iat <ℤ req.exp
  pub lifetime : req.exp -ℤ req.iat ≤ℤ pos max_assertion_lifetime_seconds

same_text : (s t : String) → not (str_eq s t) ≡ false → s ≡ t
same_text s t h = ground (arith, eq_iff s t)

pub check_sign_on-IsAdmitted :
    (now : ℕ) (node : IdentityNode) (req : SignOnRequest) {user : UserRecord}
    → check_sign_on now node req ≡ ok user
    → IsAdmitted now node req user
unfolding check_sign_on
check_sign_on-IsAdmitted now node req h = by_steps _ _ h λ u e1 h1. by_steps _ _ h1 λ _ e2 h2.
    by_steps _ _ h2 λ _ e3 h3. by_steps _ _ h3 λ _ e4 h4.
      let skew = skew_parts now req.iat (throw_if-eq-ok _ _ e3) in
      let life =
        exceeds_parts req.exp req.iat max_assertion_lifetime_seconds (throw_if-eq-ok _ _ e4) in
      subst (IsAdmitted now node req) (ok_injective h4) (record {
        known = or_throw-eq-ok _ _ e1;
        issuer = same_text _ _ (throw_if-eq-ok _ _ e2);
        iat_not_old = skew.0;
        iat_not_ahead = skew.1;
        lives = life.0;
        lifetime = life.1;
      })

of_aead-eq : (m : Result AeadError Bytes) {b : Bytes} → of_aead m ≡ ok b → m ≡ ok b
unfolding of_aead
of_aead-eq (ok b) h = cc
of_aead-eq (err e) h = cc

same_number : (a b : ℕ) → not (a == b) ≡ false → a ≡ b
same_number a b h = ground arith

aead_encrypt-eq :
    (cipher : Cipher) (key nonce plaintext aad : Bytes) {ct : Bytes}
    → aead_encrypt cipher key nonce plaintext aad ≡ ok ct
    → (length key ≡ 32) × (length nonce ≡ 12) × (cipher key nonce aad plaintext ≡ ct)
unfolding aead_encrypt
aead_encrypt-eq cipher key nonce plaintext aad h = by_steps _ _ h λ _ e1 h1.
    by_steps _ _ h1 λ _ e2 h2. (
      same_number _ _ (throw_if-eq-ok _ _ e1),
      same_number _ _ (throw_if-eq-ok _ _ e2),
      ok_injective h2,
    )

module _ (rt : Runtime) {Point : Type 0} (curve : Curve Point) {Blind : Type 0}
    (ristretto : Group Blind) (cipher : Cipher) where
  -- The bytes that the shares of an assertion sign.
  abbrev pub assertion_input : IdentityNode → UserRecord → SignOnRequest → Bytes
  assertion_input node user req =
      (create_signing_input rt (assertion_header node)
        (assertion_payload node user req)).signing_input

  -- The answer's parts: the evaluation of the blinded point under the user's key share, and the share
  -- of the assertion's signature, encrypted under the user's key with the assertion as associated data.
  pub record IsSealed (node : IdentityNode) (user : UserRecord) (req : SignOnRequest)
      (nonces : FrostNonces) (commitment : Commitment) (res : SignOnResponse) : Type 0 where
    pub blinded : Blind
    pub decoded : ristretto.from_bytes (rt.base64url.decode req.blinded) ≡ some blinded
    pub partial : Blind
    pub evaluated : ristretto.multiply blinded user.toprf_key_share.value ≡ some partial
    pub partial_sent : res.toprf_partial ≡ rt.base64url.encode (ristretto.to_raw_bytes partial)
    pub z : ℕ
    pub signed :
        compute_signature_share curve node.node_id nonces node.secret_key_share
          (assertion_input node user req)
          req.commitments
          node.group_public_key
          req.all_participants
        ≡ ok z
    pub key_length : length user.h_i ≡ 32
    pub nonce_length :
        length (derive_aead_nonce rt (rt.base64url.decode req.session_nonce) node.node_id) ≡ 12
    pub sealed :
        res.ct_i
        ≡ rt.base64url.encode (
            cipher user.h_i
              (derive_aead_nonce rt (rt.base64url.decode req.session_nonce) node.node_id)
              (assertion_input node user req)
              (rt.utf8_encode (share_bundle rt curve ristretto cipher z)))
    pub node_id : res.node_id ≡ node.node_id
    pub own_commitment : res.commitment ≡ commitment
    pub session : res.session_id ≡ req.session_id
    pub sub : res.sub ≡ user.sub

  pub sign_assertion-IsSealed :
      (node : IdentityNode) (req : SignOnRequest) (commitment : Commitment) (user : UserRecord)
      (nonces : FrostNonces) {res : SignOnResponse}
      → sign_assertion rt curve ristretto cipher node req commitment user nonces ≡ ok res
      → IsSealed node user req nonces commitment res
  unfolding sign_assertion evaluate
  sign_assertion-IsSealed node req commitment user nonces h = by_steps _ _ h λ blinded e1 h1.
      by_steps _ _ h1 λ partial e2 h2. by_steps _ _ h2 λ z e3 h3. by_steps _ _ h3 λ ct e4 h4.
        let (long, twelve, same) = aead_encrypt-eq cipher _ _ _ _ (of_aead-eq _ e4) in
        subst (IsSealed node user req nonces commitment) (ok_injective h4) (record {
          blinded = blinded;
          decoded = or_throw-eq-ok _ _ e1;
          partial = partial;
          evaluated = or_throw-eq-ok _ _ e2;
          partial_sent = refl;
          z = z;
          signed = of_frost-eq rt curve _ e3;
          key_length = long;
          nonce_length = twelve;
          sealed = ap rt.base64url.encode (sym same);
          node_id = refl;
          own_commitment = refl;
          session = refl;
          sub = refl;
        })
