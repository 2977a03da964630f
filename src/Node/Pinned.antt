-- ===== src/Node/Pinned.antt =====
-- The checks of the claims that the gateway pins, and a share of a token, in `handleSign` of
-- projects/node/src/protocol/node.ts.
use decentralized_identity_p.Prelude.{
  ok_injective, ℕ, ℤ, pos, ◌≤ℤ◌, ◌<ℤ◌, ◌-ℤ◌, -ℤ_parts, ◌≡◌, ap, String, false, List, arith,
  is_empty, Result, ok, err, by_steps, throw_if-eq-ok,
}
use decentralized_identity_p.Js.{Js}
use decentralized_identity_p.Runtime.{Runtime}
use decentralized_identity_p.Protocol.{FrostCommitment, FrostNonces, SignRequest}
use decentralized_identity_p.Crypto.Frost.{Curve, FrostError, compute_signature_share}
use decentralized_identity_p.Crypto.Hex.{scalar_to_hex}
use decentralized_identity_p.Jwt.{create_signing_input}
use decentralized_identity_p.Node.{
  IdentityNode, clock_skew_seconds, max_access_token_lifetime_seconds, max_refresh_lifetime_seconds,
}
use decentralized_identity_p.Node.Sign.{
  is_skewed, exceeds, refresh_exp_of, check_claims, of_frost, share,
}

-- The times and the id that the gateway pins are within the node's bounds.
pub record InBounds (now : ℕ) (req : SignRequest) : Type 0 where
  pub iat_not_old : pos now -ℤ req.claims.iat ≤ℤ pos clock_skew_seconds
  pub iat_not_ahead : req.claims.iat -ℤ pos now ≤ℤ pos clock_skew_seconds
  pub lives : req.claims.iat <ℤ req.claims.exp
  pub lifetime : req.claims.exp -ℤ req.claims.iat ≤ℤ pos max_access_token_lifetime_seconds
  pub jti : is_empty req.claims.jti ≡ false
  pub refresh_lives : req.claims.iat <ℤ refresh_exp_of req
  pub refresh_lifetime : refresh_exp_of req -ℤ req.claims.iat ≤ℤ pos max_refresh_lifetime_seconds

pub skew_parts :
    (now : ℕ) (t : ℤ)
    → is_skewed now t ≡ false
    → (pos now -ℤ t ≤ℤ pos clock_skew_seconds) × (t -ℤ pos now ≤ℤ pos clock_skew_seconds)
skew_parts now t h = ground arith

pub exceeds_parts :
    (exp iat : ℤ) (max : ℕ)
    → exceeds (exp -ℤ iat) max ≡ false
    → (iat <ℤ exp) × (exp -ℤ iat ≤ℤ pos max)
exceeds_parts exp iat max h = ground (arith, -ℤ_parts exp iat)

pub check_claims-InBounds :
    (now : ℕ) (req : SignRequest) {x : ℤ}
    → check_claims now req ≡ ok x
    → InBounds now req × (refresh_exp_of req ≡ x)
unfolding check_claims
check_claims-InBounds now req h = by_steps _ _ h λ _ e1 h1. by_steps _ _ h1 λ _ e2 h2.
    by_steps _ _ h2 λ _ e3 h3. by_steps _ _ h3 λ _ e4 h4.
      let skew = skew_parts now req.claims.iat (throw_if-eq-ok _ _ e1) in
      let access =
        exceeds_parts req.claims.exp req.claims.iat max_access_token_lifetime_seconds
          (throw_if-eq-ok _ _ e2) in
      let refresh =
        exceeds_parts (refresh_exp_of req) req.claims.iat max_refresh_lifetime_seconds
          (throw_if-eq-ok _ _ e4) in
      (
        record {
          iat_not_old = skew.0;
          iat_not_ahead = skew.1;
          lives = access.0;
          lifetime = access.1;
          jti = throw_if-eq-ok _ _ e3;
          refresh_lives = refresh.0;
          refresh_lifetime = refresh.1;
        },
        ok_injective h4,
      )

module _ (rt : Runtime) {Point : Type 0} (curve : Curve Point) where
  -- The text is the node's share, made with these nonces, over this token.
  pub record IsShare (node : IdentityNode) (header payload : Js) (nonces : FrostNonces)
      (commitments : List FrostCommitment) (participants : List ℤ) (z_i : String) : Type 0 where
    pub z : ℕ
    pub computed :
        compute_signature_share curve node.node_id nonces node.secret_key_share
          ((create_signing_input rt header payload).signing_input)
          commitments
          node.group_public_key
          participants
        ≡ ok z
    pub written : scalar_to_hex z ≡ z_i

  pub of_frost-eq : (r : Result FrostError ℕ) {z : ℕ} → of_frost r ≡ ok z → r ≡ ok z
  unfolding of_frost
  of_frost-eq (ok y) {z} h = let same : y ≡ z = ok_injective h in ap ok same
  of_frost-eq (err e) h = cc

  pub share-IsShare :
      (node : IdentityNode) (header payload : Js) (nonces : FrostNonces) (cs : List FrostCommitment)
      (ps : List ℤ) {z_i : String}
      → share rt curve node header payload nonces cs ps ≡ ok z_i
      → IsShare node header payload nonces cs ps z_i
  unfolding share
  share-IsShare node header payload nonces cs ps h =
      by_steps _ _ h λ z e k. record { z = z; computed = of_frost-eq _ e; written = ok_injective k }
