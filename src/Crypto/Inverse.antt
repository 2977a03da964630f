-- ===== src/Crypto/Inverse.antt =====
-- `invert` of projects/node/src/crypto/shamir.ts, the inverse by Fermat's little theorem, and the
-- bytes of a scalar.
use native.Mathlib.Nat.{mod-mod, mod-lt, mod-eq_of_lt, pow-zero, pow-suc}
use decentralized_identity_p.Prelude.{
  ℕ, zero, suc, ◌-◌, ◌*◌, ◌/◌, ◌%◌, ◌^◌, ◌≤◌, ◌<◌, ℤ, pos, negsuc, ◌≡◌, ◌≢◌, ◌⊎◌, refl, sym, ap,
  ◌∙◌, ◌==◌, Bool-cases, inl, inr, arith, ok, err,
}
use decentralized_identity_p.Crypto.Shamir.{
  no_inverse, mod_ℤ, mod_pow, invert, bytes_le, bytes_to_bigint_le, bytes_to_scalar,
  scalar_to_bytes, bigint_to_bytes_le,
}
use decentralized_identity_p.Crypto.Power.{mod_pow_lem, mul-mod_right}

-- What the program relies on of the order: it is a prime greater than 2, so that Fermat's little
-- theorem holds.
pub record IsPrimeOrder (order : ℕ) : Type 0 where
  pub large : 2 < order
  pub fermat : (a : ℕ) → a % order ≢ 0 → a ^ (order - 1) % order ≡ 1

module _ (order : ℕ) (prime : IsPrimeOrder order) where
  mod_ℤ-lt : (a : ℤ) → mod_ℤ a order < order
  unfolding mod_ℤ
  mod_ℤ-lt (pos n) = let l = prime.large in mod-lt n (omega arith)
  mod_ℤ-lt (negsuc n) = let l = prime.large in mod-lt _ (omega arith)

  inverse_product : (n : ℕ) → n % order ≢ 0 → (n * mod_pow n (order - 2) order) % order ≡ 1
  inverse_product n h =
      let l = prime.large in
      ap (λ b. (n * b) % order) (mod_pow_lem n (order - 2) order (omega arith))
      ∙ (mul-mod_right n (n ^ (order - 2)) order
          ∙ (ap (λ p. p % order)
                (commute n (n ^ (order - 2))
                  ∙ (sym (pow-suc n (order - 2)) ∙ ap (λ e. n ^ e) (omega arith)))
              ∙ prime.fermat n h))
    where
      commute : (a b : ℕ) → a * b ≡ b * a
      commute a b = grind arith

  -- For a prime order, `invert` throws exactly for a multiple of the order, and gives the inverse of
  -- everything else.
  pub invert_lem :
      (a : ℤ)
      → ((mod_ℤ a order ≡ 0) × (invert order a ≡ err no_inverse))
        ⊎ ((b : ℕ) × (invert order a ≡ ok b) × ((mod_ℤ a order * b) % order ≡ 1))
  unfolding invert
  invert_lem a = elim (Bool-cases (mod_ℤ a order == 0)) [
    | inl zero_ ↦ inl (ground arith, rw zero_ refl)
    | inr other ↦ inr (
      mod_pow (mod_ℤ a order) (order - 2) order,
      rw other refl,
      inverse_product (mod_ℤ a order) (λ e. let small = mod-eq_of_lt (mod_ℤ-lt a) in ground arith),
    )
  ]

-- The bytes of a number below 256 ^ length give it back.
bytes_le_lem : (length n : ℕ) → n < 256 ^ length → bytes_to_bigint_le (bytes_le length n) ≡ n
unfolding bytes_le bytes_to_bigint_le
bytes_le_lem zero n h = omega (arith, pow-zero 256)
bytes_le_lem (suc k) n h =
    let step = pow-suc 256 k in
    let low : n / 256 < 256 ^ k = omega arith in omega (arith, bytes_le_lem k (n / 256) low)

-- A scalar is read back from its 32 bytes, reduced modulo the order, where the order is positive and
-- at most 256 ^ 32.
bytes_to_scalar-scalar_to_bytes :
    (order n : ℕ)
    → 0 < order
    → order ≤ 256 ^ 32
    → bytes_to_scalar order (scalar_to_bytes order n) ≡ n % order
unfolding bytes_to_scalar scalar_to_bytes bigint_to_bytes_le
bytes_to_scalar-scalar_to_bytes order n h fits =
    ap (λ v. v % order) (bytes_le_lem 32 (n % order) (let l = mod-lt n h in omega arith))
    ∙ mod-mod n order
