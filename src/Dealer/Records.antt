-- ===== src/Dealer/Records.antt =====
-- The loop over the users in `generateDealerOutput` of projects/dealer/src/dealer.ts, which makes each
-- node's records.
use decentralized_identity_p.Prelude.{
  ℕ, zero, suc, pos, String, ltb, List, [], ◌∷◌, ◌++◌, length, take, Result, ok, err, ◌>>=◌, ◌>>◌,
  throw_if, or_throw,
}
use decentralized_identity_p.Runtime.{Bytes, Runtime}
use decentralized_identity_p.Crypto.Hex.{digits, scalar_to_hex}
use decentralized_identity_p.Crypto.Shamir.{Share, ShamirError}
use decentralized_identity_p.Crypto.Toprf.{
  Group, Partial, ToprfError, blind, evaluate, unblind, finalize, derive_server_key,
  generate_toprf_key,
}
use decentralized_identity_p.Config.{bytes_to_hex}
use decentralized_identity_p.Dealer.{
  UserSpec, NodeUserRecord, Deals, UserDraws, scalar_too_long, bad_scalar, missing_share, shamir,
  toprf,
}

-- `scalarToHex` of hex.ts, which throws if the scalar is too long.
unfoldable pub checked_hex : ℕ → Deals String
checked_hex scalar = do
  throw_if (ltb 64 (length (digits 16 scalar))) scalar_too_long
  ok (scalar_to_hex scalar)

-- `keyShares[id - 1]`, for `id` minus 1.
unfoldable pub share_of : List Share → ℕ → Deals Share
share_of [] i = err missing_share
share_of (s ∷ shares) zero = ok s
share_of (s ∷ shares) (suc i) = share_of shares i

unfoldable pub of_shamir : {A : Type 0} → Result ShamirError A → Deals A
of_shamir (ok a) = ok a
of_shamir (err e) = err (shamir e)

unfoldable pub of_toprf : {A : Type 0} → Result ToprfError A → Deals A
of_toprf (ok a) = ok a
of_toprf (err e) = err (toprf e)

-- One record more for each node.
unfoldable pub push_records :
    List NodeUserRecord → List (List NodeUserRecord) → List (List NodeUserRecord)
push_records [] nodes = nodes
push_records (r ∷ row) [] = []
push_records (r ∷ row) (rs ∷ nodes) = (rs ++ (r ∷ [])) ∷ push_records row nodes

unfoldable pub no_records : ℕ → List (List NodeUserRecord)
no_records zero = []
no_records (suc n) = [] ∷ no_records n

module _ (rt : Runtime) {Blind : Type 0} (group : Group Blind) where
  -- The partial evaluations of the first shares.
  unfoldable pub partials_of : List Share → Blind → Deals (List (Partial Blind))
  partials_of [] blinded = ok []
  partials_of (s ∷ shares) blinded = do
    point ← or_throw (evaluate group s blinded) bad_scalar
    rest ← partials_of shares blinded
    ok (record { id = s.id; point = point } ∷ rest)

  -- h, which the client derives from the password at every sign-on.
  unfoldable pub derive_h : Bytes → ℕ → List Share → ℕ → Deals Bytes
  derive_h password blinding shares threshold = do
    blinded ← or_throw (blind rt group password blinding) bad_scalar
    partials ← partials_of (take threshold shares) blinded
    v ← of_toprf (unblind rt group blinding partials)
    ok (finalize rt group password v)

  -- The records of one user for the nodes `suc i` to `i` + `left`.
  unfoldable pub records_from : UserSpec → List Share → Bytes → ℕ → ℕ → Deals (List NodeUserRecord)
  records_from user shares h i zero = ok []
  records_from user shares h i (suc left) = do
    share ← share_of shares i
    value ← checked_hex share.value
    rest ← records_from user shares h (suc i) left
    ok (
        record {
          username = user.username;
          sub = user.sub;
          share_id = share.id;
          share_value = value;
          h_i = bytes_to_hex (derive_server_key rt group h (pos (suc i)));
        }
        ∷ rest)

  -- The round of the loop over the users.
  unfoldable pub user_records : UserSpec → UserDraws → ℕ → ℕ → Deals (List NodeUserRecord)
  user_records user draws threshold total = do
    shares ← of_shamir (generate_toprf_key rt group draws.master_key draws.coeffs total threshold)
    h ← derive_h (rt.utf8_encode user.password) draws.blinding shares threshold
    records_from user shares h 0 total

  -- The loop, from the user at position `i`, with the records of each node so far.
  unfoldable pub all_records :
      (ℕ → UserDraws)
      → ℕ
      → List UserSpec
      → ℕ
      → ℕ
      → List (List NodeUserRecord)
      → Deals (List (List NodeUserRecord))
  all_records draws i [] threshold total nodes = ok nodes
  all_records draws i (u ∷ users) threshold total nodes = do
    row ← user_records u (draws i) threshold total
    all_records draws (suc i) users threshold total (push_records row nodes)
