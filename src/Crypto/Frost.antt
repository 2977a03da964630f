-- ===== src/Crypto/Frost.antt =====
-- projects/node/src/crypto/frost.ts (the same file in the dealer, the gateway and the browser):
-- FROST signature shares and their aggregation. The curve is noble's, a parameter.
pub mod Aggregate
pub mod Weights
pub mod Quorum
use decentralized_identity_p.Prelude.{
  ℕ, zero, suc, ◌+◌, ◌-◌, ◌*◌, ◌/◌, ◌%◌, ℤ, pos, negsuc, ◌+ℤ◌, ◌-ℤ◌, ◌*ℤ◌, eqb_ℤ, leb_ℤ, pos_part,
  Bool, true, false, ◌==◌, Option, none, some, List, [], ◌∷◌, ◌++◌, map, length, if◌then◌else◌,
  Result, ok, err, ◌>>=◌, or_throw,
}
use decentralized_identity_p.Runtime.{Bytes}
use decentralized_identity_p.Protocol.{Commitment, FrostCommitment, FrostNonces}
use decentralized_identity_p.Crypto.Shamir.{mod_ℤ, bytes_to_bigint_le, bytes_le, Share}

-- The group of noble's `ed25519.ExtendedPoint`, and the hash function. `multiply` throws, here
-- `none`, for a scalar that is not in 1..order - 1, and `from_hex` for bytes that are no point.
pub record Curve (Point : Type 0) : Type 0 where
  pub order : ℕ
  pub origin : Point
  pub base : Point
  pub add : Point → Point → Point
  pub multiply : Point → ℕ → Option Point
  pub from_hex : Bytes → Option Point
  pub to_raw_bytes : Point → Bytes
  pub sha512 : Bytes → Bytes

pub data FrostError : Type 0 where
  bad_point bad_scalar : FrostError

-- A number stored into a `Uint8Array`.
unfoldable pub to_byte : ℤ → ℕ
unfolding mod_ℤ
to_byte z = mod_ℤ z 256

-- `new Uint8Array(n)`.
unfoldable pub new_bytes : ℕ → Bytes
new_bytes zero = []
new_bytes (suc n) = 0 ∷ new_bytes n

-- `buffer.set(source, offset)`. Bytes beyond the end of the buffer, for which `set` throws, are left
-- out; points and the group's key have 32 bytes.
unfoldable pub set_bytes : Bytes → ℕ → Bytes → Bytes
set_bytes source offset [] = []
set_bytes source (suc offset) (b ∷ buffer) = b ∷ set_bytes source offset buffer
set_bytes [] zero (b ∷ buffer) = b ∷ buffer
set_bytes (s ∷ source) zero (b ∷ buffer) = s ∷ set_bytes source zero buffer

-- `[...commitments].sort((a, b) => a.nodeId - b.nodeId)`, which is stable.
unfoldable pub insert_commitment : FrostCommitment → List FrostCommitment → List FrostCommitment
insert_commitment c [] = c ∷ []
insert_commitment c (d ∷ ds) =
    let rest = insert_commitment c ds in if leb_ℤ c.node_id d.node_id then c ∷ d ∷ ds else d ∷ rest

unfoldable pub sort_commitments : List FrostCommitment → List FrostCommitment
unfolding insert_commitment
sort_commitments [] = []
sort_commitments (c ∷ cs) = insert_commitment c (sort_commitments cs)

unfoldable pub commitment_bytes : List FrostCommitment → Bytes
unfolding to_byte
commitment_bytes [] = []
commitment_bytes (c ∷ cs) = to_byte c.node_id ∷ (c.d_point ++ (c.e_point ++ commitment_bytes cs))

-- The loop of `modInverse`, the extended Euclidean algorithm, over the remainders and coefficients;
-- the remainders are never negative.
unfoldable pub inverse_loop : ℕ → ℕ → ℕ → ℤ → ℤ → ℤ
inverse_loop zero old_r r old_s s = old_s
inverse_loop (suc fuel) old_r r old_s s =
    let rest = inverse_loop fuel r (old_r - old_r / r * r) s (old_s -ℤ pos (old_r / r) *ℤ s) in
    if r == 0 then old_s else rest

-- The second remainder falls in every round, so that `m` + 1 rounds are enough.
unfoldable pub mod_inverse : ℤ → ℕ → ℕ
unfolding inverse_loop mod_ℤ
mod_inverse a m = mod_ℤ (inverse_loop (suc m) (mod_ℤ a m) m (pos 1) (pos 0)) m

module _ {Point : Type 0} (curve : Curve Point) where
  open curve use {order, origin, base, add, multiply, from_hex, to_raw_bytes, sha512}

  unfoldable pub to_scalar : Bytes → ℕ
  unfolding bytes_to_bigint_le
  to_scalar bytes = bytes_to_bigint_le bytes % order

  -- The loop of `lagrangeCoefficient`.
  unfoldable pub coefficient_loop : ℤ → List ℤ → ℕ → ℕ → ℕ × ℕ
  unfolding mod_ℤ
  coefficient_loop xi [] num den = (num, den)
  coefficient_loop xi (xj ∷ js) num den =
      coefficient_loop xi js (if eqb_ℤ xj xi then num else mod_ℤ (pos num *ℤ (pos 0 -ℤ xj)) order)
        (if eqb_ℤ xj xi then den else mod_ℤ (pos den *ℤ (xi -ℤ xj)) order)

  unfoldable pub lagrange_coefficient : ℤ → List ℤ → ℕ
  unfolding coefficient_loop
  lagrange_coefficient i participants =
      let (num, den) = coefficient_loop i participants 1 1 in
      (num * mod_inverse (pos den) order) % order

  -- `generateFrostNonces`; the two random scalars are arguments.
  unfoldable pub generate_frost_nonces : ℕ → ℕ → Result FrostError (FrostNonces × Commitment)
  generate_frost_nonces d e = do
    d_point ← or_throw (multiply base d) bad_scalar
    e_point ← or_throw (multiply base e) bad_scalar
    ok (
      record { d = d; e = e },
      record { d_point = to_raw_bytes d_point; e_point = to_raw_bytes e_point },
    )

  unfoldable pub compute_binding_factor : ℤ → Bytes → List FrostCommitment → ℕ
  unfolding to_scalar sort_commitments commitment_bytes
  compute_binding_factor node_id msg commitments =
      to_scalar
        (sha512 (to_byte node_id ∷ (msg ++ commitment_bytes (sort_commitments commitments))))

  -- The loop of `computeGroupCommitment` over the commitments left.
  unfoldable pub group_loop :
      Bytes → List FrostCommitment → List FrostCommitment → Point → Result FrostError Point
  group_loop msg commitments [] sum = ok sum
  group_loop msg commitments (c ∷ cs) sum = do
    d ← or_throw (from_hex c.d_point) bad_point
    e ← or_throw (from_hex c.e_point) bad_point
    part ← or_throw (multiply e (compute_binding_factor c.node_id msg commitments)) bad_scalar
    group_loop msg commitments cs (add sum (add d part))

  unfoldable pub compute_group_commitment : Bytes → List FrostCommitment → Result FrostError Bytes
  unfolding group_loop
  compute_group_commitment msg commitments = do
    sum ← group_loop msg commitments commitments origin
    ok (to_raw_bytes sum)

  -- `hashInput`, written at the offsets 0, 32 and 64.
  unfoldable pub compute_challenge : Bytes → Bytes → Bytes → ℕ
  unfolding to_scalar new_bytes set_bytes
  compute_challenge r_bytes group_public_key msg =
      let hash_input = new_bytes (64 + length msg) in
      to_scalar
        (sha512 (set_bytes msg 64 (set_bytes group_public_key 32 (set_bytes r_bytes 0 hash_input))))

  -- z_i = d_i + rho_i * e_i + lambda_i * s_i * c.
  unfoldable pub compute_signature_share :
      ℤ → FrostNonces → ℕ → Bytes → List FrostCommitment → Bytes → List ℤ → Result FrostError ℕ
  compute_signature_share node_id nonces secret_key_share msg commitments group_public_key
        participants =
      do
        let rho = compute_binding_factor node_id msg commitments
        r_bytes ← compute_group_commitment msg commitments
        let c = compute_challenge r_bytes group_public_key msg
        let lambda = lagrange_coefficient node_id participants
        ok ((nonces.d + rho * nonces.e + lambda * secret_key_share * c) % order)

  -- The sum of `aggregateSignatureShares`.
  unfoldable pub sum_shares : ℕ → List ℕ → ℕ
  sum_shares z [] = z
  sum_shares z (s ∷ shares) = sum_shares ((z + s) % order) shares

  -- The signature R || z, with z in 32 bytes, the lowest first.
  unfoldable pub aggregate_signature_shares : Bytes → List ℕ → Bytes
  unfolding sum_shares bytes_le
  aggregate_signature_shares r_bytes shares = r_bytes ++ bytes_le 32 (sum_shares 0 shares % order)

  -- The loop of `generateShamirShares` over the coefficients, with the power of x.
  unfoldable pub evaluate_loop : ℕ → List ℕ → ℕ → ℕ → ℕ
  evaluate_loop x [] y x_pow = y
  evaluate_loop x (c ∷ cs) y x_pow =
      evaluate_loop x cs ((y + c * x_pow) % order) ((x_pow * x) % order)
