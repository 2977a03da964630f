-- ===== src/Tests/CryptoRuns.antt =====
-- A round of two signers over the integers modulo 7: the shares 4 and 5 of the secret 3.
use native.Mathlib.Nat.{add-mul-mod_self_left, add-mod, mod-mod, mod-add-div}
use decentralized_identity_p.Prelude.{
  some_injective, ℕ, ◌+◌, ◌*◌, ◌/◌, ◌%◌, ◌≡◌, refl, ap, sym, ◌∙◌, some, [], ◌∷◌, pos, ok, ◌>>=◌,
  ◌*ℤ◌, ◌+ℤ◌, ◌-ℤ◌, arith, List, false,
}
use decentralized_identity_p.Crypto.Shamir.{has_duplicates, has_id, mod_ℤ, bytes_to_bigint_le}
use decentralized_identity_p.Crypto.Frost.{
  compute_signature_share, compute_binding_factor, compute_group_commitment, group_loop,
  compute_challenge, to_scalar, lagrange_coefficient, coefficient_loop, mod_inverse, inverse_loop,
  sort_commitments, insert_commitment, commitment_bytes, to_byte, sum_shares, evaluate_loop,
}
use decentralized_identity_p.Crypto.Frost.Aggregate.{
  IsCurve, Signer, commitment_of, commitments_of, shares_of, ids_of,
}
use decentralized_identity_p.Crypto.Frost.Quorum.{AreDealtTo, dealt_shares_verify}
use decentralized_identity_p.Crypto.Inverse.{IsPrimeOrder}
use decentralized_identity_p.Tests.KeyRuns.{seven_prime}
use decentralized_identity_p.Tests.Toy.{curve}

distribute : (n r q : ℕ) → n * r + 7 * (n * q) ≡ n * (r + 7 * q)
distribute n r q = grind arith

multiple : (a n : ℕ) → (n * (a % 7)) % 7 ≡ (n * a) % 7
multiple a n =
    sym (add-mul-mod_self_left (n * (a % 7)) 7 (n * (a / 7)))
    ∙ ap (λ k. k % 7) (distribute n (a % 7) (a / 7) ∙ ap (λ k. n * k) (mod-add-div a 7))

curve-IsCurve : IsCurve curve
unfolding curve
curve-IsCurve = record {
  times = λ n. n % 7;
  times_zero = refl;
  times_one = refl;
  times_add = λ a b. add-mod a b 7;
  times_mod = λ a. mod-mod a 7;
  multiply_times = λ a n h. sym (some_injective h) ∙ multiple a n;
  from_to = λ p. refl;
}

abbrev signers : List Signer
signers =
    record { id = pos 1; nonces = record { d = 2; e = 3 }; key_share = 4 }
    ∷ (record { id = pos 2; nonces = record { d = 1; e = 6 }; key_share = 5 } ∷ [])

committed :
    compute_group_commitment curve (9 ∷ []) (commitments_of curve curve-IsCurve signers)
    ≡ ok (2 ∷ [])
unfolding curve curve-IsCurve commitment_of commitments_of compute_group_commitment group_loop ◌>>=◌
    compute_binding_factor to_scalar sort_commitments insert_commitment commitment_bytes to_byte
    mod_ℤ bytes_to_bigint_le
committed = refl

shares :
    shares_of curve curve-IsCurve
      (9 ∷ [])
      (commitments_of curve curve-IsCurve signers)
      (5 ∷ [])
      (ids_of signers)
      signers
    ≡ ok (0 ∷ (4 ∷ []))
unfolding curve curve-IsCurve commitment_of commitments_of shares_of compute_group_commitment
    group_loop ◌>>=◌ compute_binding_factor to_scalar sort_commitments insert_commitment
    commitment_bytes to_byte mod_ℤ bytes_to_bigint_le compute_signature_share compute_challenge
    lagrange_coefficient coefficient_loop mod_inverse inverse_loop ids_of ◌*ℤ◌ ◌+ℤ◌ ◌-ℤ◌
shares = refl

dealt : AreDealtTo curve 3 (1 ∷ []) signers (1 ∷ 2 ∷ [])
unfolding curve evaluate_loop
dealt = ((omega arith, refl, refl), ((omega arith, refl, refl), tt))

once : has_duplicates (ids_of signers) ≡ false
unfolding has_duplicates has_id ids_of
once = refl

curve_order : IsPrimeOrder curve.order
unfolding curve
curve_order = seven_prime

dealt_shares_verify_example :
    (r : ℕ) × (curve.from_hex (2 ∷ []) ≡ some r)
    × (curve-IsCurve.times (sum_shares curve 0 (0 ∷ (4 ∷ [])))
        ≡ curve.add r
            (curve-IsCurve.times (compute_challenge curve (2 ∷ []) (5 ∷ []) (9 ∷ []) * 3)))
dealt_shares_verify_example =
    dealt_shares_verify curve curve-IsCurve curve_order 3 (1 ∷ []) signers (1 ∷ 2 ∷ []) dealt once
      (omega arith) (9 ∷ []) (5 ∷ []) (2 ∷ []) (0 ∷ (4 ∷ [])) committed shares
