-- ===== src/Crypto/Frost/Aggregate.antt =====
-- The shares of a FROST round aggregate to a signature that satisfies Ed25519's verification
-- equation z·B = R + c·Y, where the participants' key shares interpolate to the group's secret.
use decentralized_identity_p.Prelude.{
  ok_injective, some_injective, ℕ, zero, suc, ◌+◌, ◌*◌, ◌%◌, ℤ, ◌≡◌, sym, ap, subst, ◌∙◌, some,
  List, [], ◌∷◌, arith, Result, ok, ◌>>=◌, by_steps, or_throw-eq-ok,
}
use decentralized_identity_p.Runtime.{Bytes}
use decentralized_identity_p.Protocol.{FrostCommitment, FrostNonces}
use decentralized_identity_p.Crypto.Frost.{
  Curve, FrostError, lagrange_coefficient, compute_binding_factor, group_loop,
  compute_group_commitment, compute_challenge, compute_signature_share, sum_shares,
}

-- What the program relies on of the curve: `times n` is n·B, and addition, scalar multiplication and
-- the encoding of points agree with it.
pub record IsCurve {Point : Type 0} (curve : Curve Point) : Type 0 where
  pub times : ℕ → Point
  pub times_zero : times 0 ≡ curve.origin
  pub times_one : times 1 ≡ curve.base
  pub times_add : (a b : ℕ) → times (a + b) ≡ curve.add (times a) (times b)
  pub times_mod : (a : ℕ) → times (a % curve.order) ≡ times a
  pub multiply_times :
      (a n : ℕ) {q : Point} → curve.multiply (times a) n ≡ some q → q ≡ times (n * a)
  pub from_to : (p : Point) → curve.from_hex (curve.to_raw_bytes p) ≡ some p

-- One participant of a round: its id, its nonces and its share of the group's secret.
pub record Signer : Type 0 where
  pub id : ℤ
  pub nonces : FrostNonces
  pub key_share : ℕ

sum : List ℕ → ℕ
sum [] = 0
sum (x ∷ xs) = x + sum xs

unfoldable pub ids_of : List Signer → List ℤ
ids_of [] = []
ids_of (s ∷ ss) = s.id ∷ ids_of ss

module _ {Point : Type 0} (curve : Curve Point) (laws : IsCurve curve) where
  open laws use {times, times_zero, times_add, times_mod, multiply_times, from_to}

  -- The commitment that the participant published.
  unfoldable pub commitment_of : Signer → FrostCommitment
  commitment_of s = record {
    node_id = s.id;
    d_point = curve.to_raw_bytes (times s.nonces.d);
    e_point = curve.to_raw_bytes (times s.nonces.e);
  }

  unfoldable pub commitments_of : List Signer → List FrostCommitment
  commitments_of [] = []
  commitments_of (s ∷ ss) = commitment_of s ∷ commitments_of ss

  module _ (msg : Bytes) (all : List FrostCommitment) where
    abbrev rho : Signer → ℕ
    rho s = compute_binding_factor curve s.id msg all

    nonce_sum : List Signer → ℕ
    nonce_sum [] = 0
    nonce_sum (s ∷ ss) = (s.nonces.d + rho s * s.nonces.e) + nonce_sum ss

    -- The group commitment is the sum of the nonces, times the base point.
    group_loop-times :
        (acc : ℕ) (ss : List Signer) {p : Point}
        → group_loop curve msg all (commitments_of ss) (times acc) ≡ ok p
        → p ≡ times (acc + nonce_sum ss)
    unfolding group_loop commitments_of commitment_of nonce_sum
    group_loop-times acc [] {p} h =
        let same : times acc ≡ p = ok_injective h in sym same ∙ ap times (omega arith)
    group_loop-times acc (s ∷ ss) {p} h = by_steps _ _ h λ d e1 h1. by_steps _ _ h1 λ e e2 h2.
        by_steps _ _ h2 λ part e3 h3.
          let at_d : d ≡ times s.nonces.d =
            some_injective (sym (or_throw-eq-ok _ _ e1) ∙ from_to _) in
          let at_e : e ≡ times s.nonces.e =
            some_injective (sym (or_throw-eq-ok _ _ e2) ∙ from_to _) in
          let at_part : part ≡ times (rho s * s.nonces.e) =
            multiply_times s.nonces.e (rho s)
              (subst (λ q. curve.multiply q (rho s) ≡ some part) at_e (or_throw-eq-ok _ _ e3)) in
          let sum : curve.add (times acc) (curve.add d part)
              ≡ times (acc + (s.nonces.d + rho s * s.nonces.e)) =
            ap (curve.add (times acc)) (
              ap (λ q. curve.add q part) at_d
              ∙ (ap (curve.add (times s.nonces.d)) at_part ∙ sym (times_add _ _)))
            ∙ sym (times_add _ _) in
          group_loop-times (acc + (s.nonces.d + rho s * s.nonces.e)) ss
            (subst (λ q. group_loop curve msg all (commitments_of ss) q ≡ ok p) sum h3)
          ∙ ap times (omega arith)

  times_suc_mul : (c a : ℕ) → times (suc c * a) ≡ curve.add (times a) (times (c * a))
  times_suc_mul c a = ap times (omega arith) ∙ times_add a (c * a)

  -- A multiple of a point depends on the point alone.
  times_mul_cong : (c a b : ℕ) → times a ≡ times b → times (c * a) ≡ times (c * b)
  times_mul_cong zero a b h = ap times (omega arith)
  times_mul_cong (suc c) a b h =
      times_suc_mul c a
      ∙ (ap (λ q. curve.add q (times (c * a))) h
          ∙ (ap (curve.add (times b)) (times_mul_cong c a b h) ∙ sym (times_suc_mul c b)))

  -- A reduction anywhere in a sum does not change the multiple of the base point.
  times_mod_add : (a b : ℕ) → times (a % curve.order + b) ≡ times (a + b)
  times_mod_add a b =
      times_add _ _ ∙ (ap (λ q. curve.add q (times b)) (times_mod a) ∙ sym (times_add _ _))

  times_sum_shares : (z : ℕ) (zs : List ℕ) → times (sum_shares curve z zs) ≡ times (z + sum zs)
  unfolding sum_shares sum
  times_sum_shares z [] = ap times (omega arith)
  times_sum_shares z (s ∷ zs) =
      times_sum_shares ((z + s) % curve.order) zs
      ∙ (times_mod_add (z + s) (sum zs) ∙ ap times (omega arith))

  -- The participants' own computations, one after another.
  unfoldable pub shares_of :
      Bytes → List FrostCommitment → Bytes → List ℤ → List Signer → Result FrostError (List ℕ)
  shares_of msg all public_key participants [] = ok []
  shares_of msg all public_key participants (s ∷ ss) = do
    z ← compute_signature_share curve s.id s.nonces s.key_share msg all public_key participants
    zs ← shares_of msg all public_key participants ss
    ok (z ∷ zs)

  -- The secret that the participants' shares interpolate to: the sum of lambda_i * s_i.
  unfoldable pub interpolated : List ℤ → List Signer → ℕ
  interpolated participants [] = 0
  interpolated participants (s ∷ ss) =
      lagrange_coefficient curve s.id participants * s.key_share + interpolated participants ss

  module _ (msg : Bytes) (all : List FrostCommitment) (public_key r_bytes : Bytes)
      (participants : List ℤ)
      (committed : compute_group_commitment curve msg all ≡ ok r_bytes) where
    abbrev challenge : ℕ
    challenge = compute_challenge curve r_bytes public_key msg

    share_value :
        (s : Signer) {z : ℕ}
        → compute_signature_share curve s.id s.nonces s.key_share msg all public_key participants
          ≡ ok z
        → z
          ≡ (s.nonces.d
              + rho msg all s * s.nonces.e
              + lagrange_coefficient curve s.id participants * s.key_share * challenge)
            % curve.order
    unfolding compute_signature_share ◌>>=◌
    share_value s h = sym (ok_injective (rw committed at h))

    shares_of-times :
        (ss : List Signer) {zs : List ℕ}
        → shares_of msg all public_key participants ss ≡ ok zs
        → times (sum zs) ≡ times (nonce_sum msg all ss + challenge * interpolated participants ss)
    unfolding shares_of sum nonce_sum interpolated
    shares_of-times [] {zs} h =
        let none_left : [] ≡ zs = ok_injective h in
        subst (λ l. times (sum l) ≡ times (0 + challenge * 0)) none_left (ap times (omega arith))
    shares_of-times (s ∷ ss) {zs} h = by_steps _ _ h λ z e1 h1. by_steps _ _ h1 λ rest e2 h2.
        let own = s.nonces.d + rho msg all s * s.nonces.e in
        let key = lagrange_coefficient curve s.id participants * s.key_share in
        subst
          (λ l.
            times (sum l)
            ≡ times
                ((own + nonce_sum msg all ss) + challenge * (key + interpolated participants ss)))
          (ok_injective h2)
          (ap (λ x. times (x + sum rest)) (share_value s e1)
            ∙ (times_mod_add (own + key * challenge) (sum rest)
                ∙ (times_add _ _
                    ∙ (ap (curve.add (times (own + key * challenge))) (shares_of-times ss e2)
                        ∙ (sym (times_add _ _) ∙ ap times (grind arith))))))

  -- If every participant of a round computes its share over the same message and the same published
  -- commitments, and the participants' key shares interpolate to `secret` modulo the order, then the
  -- sum z of the shares satisfies Ed25519's equation: z·B is R plus c times secret·B, where R is the
  -- point that the group commitment encodes and c the challenge.
  pub shares_verify :
      (msg public_key r_bytes : Bytes) (participants : List ℤ) (signers : List Signer) (secret : ℕ)
      (zs : List ℕ)
      → compute_group_commitment curve msg (commitments_of signers) ≡ ok r_bytes
      → shares_of msg (commitments_of signers) public_key participants signers ≡ ok zs
      → interpolated participants signers % curve.order ≡ secret % curve.order
      → (r : Point) × (curve.from_hex r_bytes ≡ some r)
        × (times (sum_shares curve 0 zs)
            ≡ curve.add r (times (compute_challenge curve r_bytes public_key msg * secret)))
  unfolding compute_group_commitment
  shares_verify msg public_key r_bytes participants signers secret zs committed shares key =
      by_steps _ _ committed λ p e1 h1.
        let all = commitments_of signers in
        let c = compute_challenge curve r_bytes public_key msg in
        let bytes : curve.to_raw_bytes p ≡ r_bytes = ok_injective h1 in
        let at_p : p ≡ times (0 + nonce_sum msg all signers) =
          group_loop-times msg all 0 signers
            (subst (λ q. group_loop curve msg all all q ≡ ok p) (sym times_zero) e1) in
        let keys : times (interpolated participants signers) ≡ times secret =
          sym (times_mod _) ∙ (ap times key ∙ times_mod secret) in
        (
          p,
          subst (λ b. curve.from_hex b ≡ some p) bytes (from_to p),
          times_sum_shares 0 zs
              ∙ (ap times (omega arith)
                  ∙ (shares_of-times msg all public_key r_bytes participants committed signers
                        shares
                      ∙ (times_add _ _
                          ∙ (ap (λ q. curve.add q (times (c * interpolated participants signers)))
                                (ap times (omega arith) ∙ sym at_p)
                              ∙ ap (curve.add p) (times_mul_cong c _ _ keys))))),
        )
