-- ===== src/Crypto/Shamir.antt =====
-- projects/node/src/crypto/shamir.ts (the same file in the dealer, the gateway and the browser).
-- The order of the scalar field is noble's `ed25519.CURVE.n`, a parameter; a `bigint` that is never
-- negative is a natural number.
use decentralized_identity_p.Prelude.{
  ◌*ℤ◌, ◌-ℤ◌, ℕ, zero, suc, ◌+◌, ◌-◌, ◌*◌, ◌/◌, ◌%◌, ℤ, pos, negsuc, Bool, false, ◌||◌, ◌==◌, ltb,
  eqb_ℤ, List, [], ◌∷◌, map, length, if◌then◌else◌, Result, ok, err, ◌>>=◌, ◌>>◌, throw_if,
}

pub record Share : Type 0 where
  pub id : ℤ
  pub value : ℕ

pub data ShamirError : Type 0 where
  no_inverse no_shares duplicate_ids invalid_threshold : ShamirError

-- `mod(a, m)`: the remainder with the sign taken off.
unfoldable pub mod_ℤ : ℤ → ℕ → ℕ
mod_ℤ (pos n) m = n % m
mod_ℤ (negsuc n) m = (m - suc n % m) % m

-- The loop of `modPow`: `b` is squared and `e` halved until `e` is 0.
unfoldable pub mod_pow_loop : ℕ → ℕ → ℕ → ℕ → ℕ → ℕ
mod_pow_loop zero res b e m = res
mod_pow_loop (suc fuel) res b e m =
    let rest =
      mod_pow_loop fuel (if e % 2 == 1 then (res * b) % m else res) ((b * b) % m) (e / 2) m in
    if e == 0 then res else rest

-- The exponent is halved in every round, so that it is more rounds than are needed.
unfoldable pub mod_pow : ℕ → ℕ → ℕ → ℕ
mod_pow base exp m = mod_pow_loop exp 1 (base % m) exp m

-- `bytesToBigIntLE`: the loop runs from the last byte to the first.
unfoldable pub bytes_to_bigint_le : List ℕ → ℕ
bytes_to_bigint_le [] = 0
bytes_to_bigint_le (b ∷ bs) = bytes_to_bigint_le bs * 256 + b

-- The loop of `bigIntToBytesLE`, one byte to a round.
unfoldable pub bytes_le : ℕ → ℕ → List ℕ
bytes_le zero cur = []
bytes_le (suc length) cur = (cur % 256) ∷ bytes_le length (cur / 256)

-- `ids` with `x` somewhere in it.
unfoldable pub has_id : ℤ → List ℤ → Bool
has_id x [] = false
has_id x (y ∷ ys) = eqb_ℤ x y || has_id x ys

-- `new Set(ids).size !== ids.length`.
unfoldable pub has_duplicates : List ℤ → Bool
has_duplicates [] = false
has_duplicates (x ∷ xs) = has_id x xs || has_duplicates xs

-- The section's parameter is ED25519_ORDER.
module _ (order : ℕ) where
  unfoldable pub bigint_to_bytes_le : ℕ → ℕ → List ℕ
  unfolding bytes_le
  bigint_to_bytes_le value length = bytes_le length (value % order)

  unfoldable pub scalar_to_bytes : ℕ → List ℕ
  unfolding bigint_to_bytes_le
  scalar_to_bytes scalar = bigint_to_bytes_le scalar 32

  unfoldable pub bytes_to_scalar : List ℕ → ℕ
  unfolding bytes_to_bigint_le
  bytes_to_scalar bytes = bytes_to_bigint_le bytes % order

  unfoldable pub invert : ℤ → Result ShamirError ℕ
  unfolding mod_ℤ
  invert a =
      let norm = mod_ℤ a order in
      if norm == 0 then err no_inverse else ok (mod_pow norm (order - 2) order)

  -- Horner's rule over the coefficients c_1, …, c_{t-1}, the last one first.
  unfoldable pub horner : ℕ → List ℕ → ℕ
  horner x [] = 0
  horner x (c ∷ cs) = ((horner x cs * x) % order + c) % order

  -- The share of participant `id`.
  unfoldable pub share_at : ℕ → List ℕ → ℕ → Share
  unfolding horner
  share_at secret coeffs id = record {
    id = pos id;
    value = ((horner id coeffs * id) % order + secret) % order;
  }

  -- The shares of `id` to `total`, of which there are `left`.
  unfoldable pub shares_from : ℕ → List ℕ → ℕ → ℕ → List Share
  shares_from secret coeffs id zero = []
  shares_from secret coeffs id (suc left) =
      share_at secret coeffs id ∷ shares_from secret coeffs (suc id) left

  -- `splitSecret`; the random coefficients, threshold - 1 of them, are an argument.
  unfoldable pub split_secret : ℕ → List ℕ → ℕ → ℕ → Result ShamirError (List Share)
  unfolding shares_from
  split_secret secret coeffs threshold total = do
    throw_if (ltb threshold 1 || ltb total threshold) invalid_threshold
    ok (shares_from secret coeffs 1 total)

  -- The loop of `lagrangeCoeff` over the ids, with the numerator and the denominator.
  unfoldable pub lagrange_loop : ℤ → List ℤ → ℕ → ℕ → ℕ × ℕ
  unfolding mod_ℤ
  lagrange_loop xi [] num den = (num, den)
  lagrange_loop xi (xj ∷ js) num den =
      lagrange_loop xi js (if eqb_ℤ xj xi then num else mod_ℤ (pos num *ℤ xj) order)
        (if eqb_ℤ xj xi then den else mod_ℤ (pos den *ℤ (xj -ℤ xi)) order)

  unfoldable pub lagrange_coeff : List ℤ → ℤ → Result ShamirError ℕ
  unfolding lagrange_loop
  lagrange_coeff ids target = do
    let (num, den) = lagrange_loop target ids 1 1
    inverse ← invert (pos den)
    ok ((num * inverse) % order)

  -- The sum of `combineShares` over the shares.
  unfoldable pub combine_loop : List ℤ → List Share → ℕ → Result ShamirError ℕ
  combine_loop ids [] secret = ok secret
  combine_loop ids (s ∷ shares) secret = do
    lambda ← lagrange_coeff ids s.id
    combine_loop ids shares ((secret + (lambda * s.value) % order) % order)

  unfoldable pub combine_shares : List Share → Result ShamirError ℕ
  unfolding combine_loop
  combine_shares [] = err no_shares
  combine_shares (s ∷ shares) = do
    let ids = map (λ t. t.id) (s ∷ shares)
    throw_if (has_duplicates ids) duplicate_ids
    combine_loop ids (s ∷ shares) 0
