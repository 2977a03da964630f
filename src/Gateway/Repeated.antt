-- ===== src/Gateway/Repeated.antt =====
-- `collectCommitments` of projects/gateway/src/gateway/proxy.ts counts answers, not nodes: an id that
-- the caller names several times counts each time.
use decentralized_identity_p.Prelude.{
  ℕ, zero, suc, ◌≤◌, ltb, ℤ, ◌≡◌, refl, ◌∙◌, ap, true, false, Option, some, List, [], ◌∷◌, map,
  length, All, arith, ok, ◌>>=◌,
}
use decentralized_identity_p.Protocol.{Commitment, FrostCommitment}
use decentralized_identity_p.Crypto.Shamir.{has_id}
use decentralized_identity_p.Crypto.Frost.{sort_commitments}
use decentralized_identity_p.Gateway.Commitments.{
  Collected, collect_commitments, commitments_in, failures_in, sort_failures, settle, settle_all,
  decide_quorum,
}
use decentralized_identity_p.Gateway.Quorum.{All-sort_commitments, length-sort_commitments}

-- The list [id, id, ..., id].
unfoldable pub repeated : ℕ → ℤ → List ℤ
repeated zero id = []
repeated (suc n) id = id ∷ repeated n id

module _ (nodes : List ℤ) (threshold : ℕ) (commit : ℕ → ℤ → Option Commitment) (id : ℤ)
    (known : has_id id nodes ≡ true) (fresh : ℕ → Commitment)
    (answers : (i : ℕ) → commit i id ≡ some (fresh i)) where
  no_failures : (i n : ℕ) → failures_in (settle_all nodes threshold commit i (repeated n id)) ≡ []
  unfolding repeated settle settle_all failures_in
  no_failures i zero = refl
  no_failures i (suc n) = rw (known, answers i) (no_failures (suc i) n)

  length-commitments :
      (i n : ℕ) → length (commitments_in (settle_all nodes threshold commit i (repeated n id))) ≡ n
  unfolding repeated settle settle_all commitments_in
  length-commitments i zero = refl
  length-commitments i (suc n) = rw (known, answers i) (ap suc (length-commitments (suc i) n))

  same_node :
      (i n : ℕ)
      → All
          (λ (d : FrostCommitment). d.node_id ≡ id)
          (commitments_in (settle_all nodes threshold commit i (repeated n id)))
  unfolding repeated settle settle_all commitments_in
  same_node i zero = tt
  same_node i (suc n) = rw (known, answers i) (refl, same_node (suc i) n)

  -- A node that the gateway knows and that commits whenever it is asked, to whatever nonces each time,
  -- makes up a quorum on its own: named `n` times explicitly, where `n` is at least the threshold,
  -- `collectCommitments` returns `n` commitments, all of them that node's.
  pub collect_commitments-repeated :
      (n : ℕ)
      → threshold ≤ n
      → (r : Collected) × (collect_commitments nodes threshold commit (repeated n id) true ≡ ok r)
        × (length r.commitments ≡ n)
        × All (λ (d : FrostCommitment). d.node_id ≡ id) r.commitments
  unfolding collect_commitments decide_quorum ◌>>=◌ sort_failures
  collect_commitments-repeated n enough =
      let all = commitments_in (settle_all nodes threshold commit 0 (repeated n id)) in
      let count : length (sort_commitments all) ≡ n =
        length-sort_commitments all ∙ length-commitments 0 n in
      let few : ltb n threshold ≡ false = ground arith in
      (
        record {
          commitments = sort_commitments all;
          participants = map (λ (d : FrostCommitment). d.node_id) (sort_commitments all);
          excluded = [];
        },
        rw (no_failures 0 n, count, few) refl,
        count,
        All-sort_commitments (λ (d : FrostCommitment). d.node_id ≡ id) all (same_node 0 n),
      )
