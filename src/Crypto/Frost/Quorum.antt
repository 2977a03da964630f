-- ===== src/Crypto/Frost/Quorum.antt =====
-- Any quorum of the participants to whom `generateShamirShares` of projects/dealer/src/crypto/frost.ts
-- has dealt a secret signs under that secret: projects/node/src/crypto/frost.ts.
use decentralized_identity_p.Prelude.{
  ℕ, suc, ◌+◌, ◌*◌, ◌%◌, ◌<◌, pos, ◌≡◌, refl, sym, ap, ◌∙◌, some, List, [], ◌∷◌, map, length, All,
  ok, false, arith,
}
use decentralized_identity_p.Runtime.{Bytes}
use decentralized_identity_p.Crypto.Shamir.{has_duplicates}
use decentralized_identity_p.Crypto.Inverse.{IsPrimeOrder}
use decentralized_identity_p.Crypto.Congruence.{
  Same, Same-refl, Same-of_eq, Same-trans, Same-add, Same-product, Same-times, Same-mod,
  mod-of_Same,
}
use decentralized_identity_p.Crypto.Lagrange.{eval, sum_at}
use decentralized_identity_p.Crypto.Difference.{inverse_of}
use decentralized_identity_p.Crypto.Reconstructed.{has_duplicates-Distinct, combination-secret}
use decentralized_identity_p.Crypto.Frost.{
  Curve, lagrange_coefficient, evaluate_loop, compute_group_commitment, compute_challenge,
  sum_shares,
}
use decentralized_identity_p.Crypto.Frost.Weights.{lagrange_coefficient-weight}
use decentralized_identity_p.Crypto.Frost.Aggregate.{
  IsCurve, Signer, ids_of, commitments_of, shares_of, interpolated, shares_verify,
}

module _ {Point : Type 0} (curve : Curve Point) where
  abbrev q : ℕ
  q = curve.order

  -- The loop evaluates the polynomial.
  evaluate_loop-eval :
      (x : ℕ) (cs : List ℕ) (y power : ℕ)
      → Same q (evaluate_loop curve x cs y power) (y + power * eval cs x)
  unfolding evaluate_loop eval
  evaluate_loop-eval x [] y power = Same-of_eq q _ _ (omega arith)
  evaluate_loop-eval x (c ∷ cs) y power =
      Same-trans q (evaluate_loop-eval x cs ((y + c * power) % q) ((power * x) % q)) (
        Same-trans q (Same-add q (Same-mod q (y + c * power)) (reduced (power * x) (eval cs x)))
          (Same-of_eq q _ _ (regroup y c power x (eval cs x))))
    where
      turn : (a b : ℕ) → a * b ≡ b * a
      turn a b = grind arith

      reduced : (a p : ℕ) → Same q (a % q * p) (p * a)
      reduced a p = Same-trans q (Same-of_eq q _ _ (turn (a % q) p)) (Same-times q p (Same-mod q a))

      regroup : (y c k x p : ℕ) → y + c * k + p * (k * x) ≡ y + k * (c + x * p)
      regroup y c k x p = grind arith

  -- The signer with number n below the order holds the share of n.
  abbrev pub IsDealtTo : ℕ → List ℕ → Signer → ℕ → Type 0
  IsDealtTo secret coeffs s n =
      (n < q) × (s.id ≡ pos n) × (s.key_share ≡ evaluate_loop curve n (secret ∷ coeffs) 0 1)

  abbrev pub AreDealtTo : ℕ → List ℕ → List Signer → List ℕ → Type 0
  AreDealtTo secret coeffs [] [] = Unit
  AreDealtTo secret coeffs [] (n ∷ ns) = ⊥
  AreDealtTo secret coeffs (s ∷ ss) [] = ⊥
  AreDealtTo secret coeffs (s ∷ ss) (n ∷ ns) =
      IsDealtTo secret coeffs s n × AreDealtTo secret coeffs ss ns

  ids_of-AreDealtTo :
      (secret : ℕ) (coeffs : List ℕ) (ss : List Signer) (ns : List ℕ)
      → AreDealtTo secret coeffs ss ns
      → (ids_of ss ≡ map pos ns) × All (λ n. n < q) ns × (length ss ≡ length ns)
  unfolding ids_of
  ids_of-AreDealtTo secret coeffs [] [] h = (refl, tt, refl)
  ids_of-AreDealtTo secret coeffs [] (n ∷ ns) h = absurd h
  ids_of-AreDealtTo secret coeffs (s ∷ ss) [] h = absurd h
  ids_of-AreDealtTo secret coeffs (s ∷ ss) (n ∷ ns) ((small, id, share), h) =
      let (ids, smaller, count) = ids_of-AreDealtTo secret coeffs ss ns h in
      (ap (λ i. i ∷ ids_of ss) id ∙ ap (λ l. pos n ∷ l) ids, (small, smaller), ap suc count)

  module _ (laws : IsCurve curve) (prime : IsPrimeOrder curve.order) where
    from_start : (f : ℕ) → 0 + 1 * f ≡ f
    from_start f = omega arith

    interpolated-sum_at :
        (secret : ℕ) (coeffs whole : List ℕ) (ss : List Signer) (ns : List ℕ)
        → All (λ n. n < q) whole
        → AreDealtTo secret coeffs ss ns
        → Same q
            (interpolated curve laws (map pos whole) ss)
            (sum_at q (inverse_of q prime) whole (eval (secret ∷ coeffs)) ns)
    unfolding interpolated sum_at
    interpolated-sum_at secret coeffs whole [] [] hw h = Same-refl q 0
    interpolated-sum_at secret coeffs whole [] (n ∷ ns) hw h = absurd h
    interpolated-sum_at secret coeffs whole (s ∷ ss) [] hw h = absurd h
    interpolated-sum_at secret coeffs whole (s ∷ ss) (n ∷ ns) hw ((small, id, share), h) =
        let weight_ =
          Same-trans q
            (Same-of_eq q _ _ (ap (λ i. lagrange_coefficient curve i (map pos whole)) id))
            (lagrange_coefficient-weight curve prime n whole small hw) in
        let value = Same-trans q (Same-of_eq q _ _ share) (
          Same-trans q (evaluate_loop-eval n (secret ∷ coeffs) 0 1)
            (Same-of_eq q _ _ (from_start _))) in
        Same-add q (Same-product q weight_ value)
          (interpolated-sum_at secret coeffs whole ss ns hw h)

    -- The shares of more participants than there are random coefficients interpolate to the secret.
    pub interpolated-dealt :
        (secret : ℕ) (coeffs : List ℕ) (ss : List Signer) (ns : List ℕ)
        → AreDealtTo secret coeffs ss ns
        → has_duplicates (ids_of ss) ≡ false
        → length coeffs < length ss
        → interpolated curve laws (ids_of ss) ss % q ≡ secret % q
    interpolated-dealt secret coeffs ss ns h single enough =
        let (ids, small, count) = ids_of-AreDealtTo secret coeffs ss ns h in
        let d = has_duplicates-Distinct ns (ap has_duplicates (sym ids) ∙ single) in
        ap (λ i. interpolated curve laws i ss % q) ids
        ∙ mod-of_Same q (
            Same-trans q (interpolated-sum_at secret coeffs ns ss ns small h)
              (combination-secret q prime secret coeffs ns small d (omega arith)))

    -- A dealer splits a secret with `generateShamirShares`. If different participants with numbers below
    -- the prime order, more of them than the polynomial has random coefficients, compute their signature shares with their dealt
    -- shares, over the same message and the same published commitments, then the sum z of the signature
    -- shares satisfies Ed25519's equation under the dealt secret: z·B is R plus c times secret·B, where R
    -- is the point that the group commitment encodes and c the challenge.
    pub dealt_shares_verify :
        (secret : ℕ) (coeffs : List ℕ) (signers : List Signer) (ns : List ℕ)
        → AreDealtTo secret coeffs signers ns
        → has_duplicates (ids_of signers) ≡ false
        → length coeffs < length signers
        → (msg public_key r_bytes : Bytes) (zs : List ℕ)
        → compute_group_commitment curve msg (commitments_of curve laws signers) ≡ ok r_bytes
        → shares_of curve laws msg
            (commitments_of curve laws signers)
            public_key
            (ids_of signers)
            signers
          ≡ ok zs
        → (r : Point) × (curve.from_hex r_bytes ≡ some r)
          × (laws.times (sum_shares curve 0 zs)
              ≡ curve.add r (laws.times (compute_challenge curve r_bytes public_key msg * secret)))
    dealt_shares_verify secret coeffs signers ns h single enough msg public_key r_bytes zs committed
          shares =
        shares_verify curve laws msg public_key r_bytes (ids_of signers) signers secret zs committed
          shares (interpolated-dealt secret coeffs signers ns h single enough)
