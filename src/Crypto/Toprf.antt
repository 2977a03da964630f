-- ===== src/Crypto/Toprf.antt =====
-- projects/node/src/crypto/toprf.ts (the same file in the dealer, the gateway and the browser): the
-- threshold oblivious pseudo-random function. The group and the hash function are noble's, parameters;
-- random scalars are arguments.
pub mod Unblinded
pub mod Usable
pub mod Quorum
use decentralized_identity_p.Prelude.{
  ℕ, zero, suc, ◌+◌, ◌-◌, ◌*◌, ◌/◌, ◌%◌, ℤ, pos, String, Option, List, [], ◌∷◌, ◌++◌, map, length,
  take, Result, ok, err, ◌>>=◌, or_throw,
}
use decentralized_identity_p.Runtime.{Bytes, Runtime}
use decentralized_identity_p.Crypto.Shamir.{
  Share, ShamirError, bytes_le, lagrange_coeff, invert, split_secret,
}
use decentralized_identity_p.Crypto.Aead.{u16_to_bytes_le}

-- noble's `ristretto255.Point`. `multiply` throws, here `none`, for a scalar that is not in
-- 1..order - 1, and `from_bytes` for bytes that are no point.
pub record Group (Point : Type 0) : Type 0 where
  pub order : ℕ
  pub origin : Point
  pub add : Point → Point → Point
  pub multiply : Point → ℕ → Option Point
  pub hash_to_curve : Bytes → Point
  pub from_bytes : Bytes → Option Point
  pub to_raw_bytes : Point → Bytes

-- A partial evaluation: the node's id and B_i.
pub record Partial (Point : Type 0) : Type 0 where
  pub id : ℤ
  pub point : Point

pub data ToprfError : Type 0 where
  no_partials bad_scalar : ToprfError
  shamir : ShamirError → ToprfError

-- `setBigUint64(0, n, true)`: 8 bytes, the lowest first.
unfoldable pub u64_to_bytes_le : ℕ → Bytes
unfolding bytes_le
u64_to_bytes_le n = bytes_le 8 n

unfoldable pub of_shamir : Result ShamirError ℕ → Result ToprfError ℕ
of_shamir (ok n) = ok n
of_shamir (err e) = err (shamir e)

-- `evaluate`: B_i = k_i * A.
unfoldable pub evaluate : {Point : Type 0} → Group Point → Share → Point → Option Point
evaluate group key_share blinded = group.multiply blinded key_share.value

module _ (rt : Runtime) {Point : Type 0} (group : Group Point) where
  open group use {order, origin, add, multiply, hash_to_curve, to_raw_bytes}

  -- `hashToGroup`, of a password's bytes.
  unfoldable pub hash_to_group : Bytes → Point
  unfolding u64_to_bytes_le
  hash_to_group pw =
      hash_to_curve
        (rt.sha512 (rt.utf8_encode "PASTA-TOPRF-H2" ++ (u64_to_bytes_le (length pw) ++ pw)))

  -- The blinded point of `blind`, with the random scalar r.
  unfoldable pub blind : Bytes → ℕ → Option Point
  unfolding hash_to_group
  blind pw r = multiply (hash_to_group pw) r

  -- The loop of `unblind` over the partial evaluations.
  unfoldable pub combine_points : List ℤ → List (Partial Point) → Point → Result ToprfError Point
  unfolding of_shamir
  combine_points ids [] combined = ok combined
  combine_points ids (p ∷ ps) combined = do
    lambda ← of_shamir (lagrange_coeff order ids p.id)
    term ← or_throw (multiply p.point lambda) bad_scalar
    combine_points ids ps (add combined term)

  unfoldable pub unblind : ℕ → List (Partial Point) → Result ToprfError Point
  unfolding combine_points
  unblind r [] = err no_partials
  unblind r (p ∷ ps) = do
    combined ← combine_points (map (λ (q : Partial Point). q.id) (p ∷ ps)) (p ∷ ps) origin
    r_inv ← of_shamir (invert order (pos r))
    or_throw (multiply combined r_inv) bad_scalar

  -- `finalize`: the first 32 bytes of the hash.
  unfoldable pub finalize : Bytes → Point → Bytes
  unfolding u64_to_bytes_le
  finalize pw v = take 32 (
      rt.sha512 (
        rt.utf8_encode "PASTA-TOPRF-H1" ++ (u64_to_bytes_le (length pw) ++ (pw ++ to_raw_bytes v))))

  -- `deriveServerKey`: h_i = H_3(h, i).
  unfoldable pub derive_server_key : Bytes → ℤ → Bytes
  unfolding u16_to_bytes_le
  derive_server_key h id =
      take 32 (rt.sha512 (rt.utf8_encode "PASTA-TOPRF-H-PRIME" ++ (h ++ u16_to_bytes_le id)))

  -- `generateToprfKey`; the random master key and coefficients are arguments.
  unfoldable pub generate_toprf_key : ℕ → List ℕ → ℕ → ℕ → Result ShamirError (List Share)
  generate_toprf_key master_key coeffs total threshold =
      split_secret order master_key coeffs threshold total
