-- ===== src/Gateway/Quorum.antt =====
-- What the gateway has collected when round 1 of projects/gateway/src/gateway/proxy.ts succeeds, and
-- when it fails.
use decentralized_identity_p.Prelude.{
  ok_injective, ◌⊎◌, ℕ, suc, ◌+◌, ◌≤◌, ◌<◌, ℤ, ◌≤ℤ◌, leb_ℤ, ltb, ◌≡◌, refl, ap, subst, ◌∙◌, Bool,
  true, false, ◌&&◌, Bool-cases, inl, inr, Option, List, [], ◌∷◌, map, length, All, arith, ok, err,
  ◌>>=◌, by_steps, throw_if-eq-ok,
}
use decentralized_identity_p.Protocol.{Commitment, FrostCommitment}
use decentralized_identity_p.Crypto.Frost.{insert_commitment, sort_commitments}
use decentralized_identity_p.Gateway.Commitments.{
  Failure, Settled, committed, refused, Collected, quorum, commitments_in, failures_in,
  insert_failure, sort_failures, is_some_failure, settle_all, decide_quorum, collect_commitments,
}
use decentralized_identity_p.Gateway.Outcomes.{
  asked, IsAnswer, settle_all-IsAnswer, AllHaveOutcome, settle_all-AllHaveOutcome,
  Memᴰ-sort_commitments, Memᴰ-sort_failures,
}

pub not_less : (a b : ℕ) → ltb a b ≡ false → b ≤ a
not_less a b h = ground arith

-- The ids ascend.
abbrev pub IsAscending : List FrostCommitment → Type 0
IsAscending [] = Unit
IsAscending (c ∷ []) = Unit
IsAscending (c ∷ (d ∷ ds)) = (c.node_id ≤ℤ d.node_id) × IsAscending (d ∷ ds)

insert_commitment-IsAscending :
    (c : FrostCommitment) (ds : List FrostCommitment)
    → IsAscending ds
    → IsAscending (insert_commitment c ds)
unfolding insert_commitment
insert_commitment-IsAscending c [] h = tt
insert_commitment-IsAscending c (d ∷ []) h = ground arith
insert_commitment-IsAscending c (d ∷ (e ∷ es)) h =
    ground (arith, insert_commitment-IsAscending c (e ∷ es) h.1)

sort_commitments-IsAscending : (cs : List FrostCommitment) → IsAscending (sort_commitments cs)
unfolding sort_commitments
sort_commitments-IsAscending [] = tt
sort_commitments-IsAscending (c ∷ cs) =
    insert_commitment-IsAscending c (sort_commitments cs) (sort_commitments-IsAscending cs)

length-insert_commitment :
    (c : FrostCommitment) (ds : List FrostCommitment)
    → length (insert_commitment c ds) ≡ suc (length ds)
unfolding insert_commitment
length-insert_commitment c [] = refl
length-insert_commitment c (d ∷ ds) = ground (arith, length-insert_commitment c ds)

pub length-sort_commitments : (cs : List FrostCommitment) → length (sort_commitments cs) ≡ length cs
unfolding sort_commitments
length-sort_commitments [] = refl
length-sort_commitments (c ∷ cs) =
    omega (arith, length-insert_commitment c (sort_commitments cs), length-sort_commitments cs)

length-insert_failure :
    (f : Failure) (gs : List Failure) → length (insert_failure f gs) ≡ suc (length gs)
unfolding insert_failure
length-insert_failure f [] = refl
length-insert_failure f (g ∷ gs) = ground (arith, length-insert_failure f gs)

length-sort_failures : (fs : List Failure) → length (sort_failures fs) ≡ length fs
unfolding sort_failures
length-sort_failures [] = refl
length-sort_failures (f ∷ fs) =
    omega (arith, length-insert_failure f (sort_failures fs), length-sort_failures fs)

length-settled :
    (rs : List Settled) → length (commitments_in rs) + length (failures_in rs) ≡ length rs
unfolding commitments_in failures_in
length-settled [] = omega arith
length-settled (committed c ∷ rs) = omega (arith, length-settled rs)
length-settled (refused f ∷ rs) = omega (arith, length-settled rs)

module _ (P : FrostCommitment → Type 0) where
  All-insert_commitment :
      (c : FrostCommitment) (ds : List FrostCommitment)
      → P c
      → All P ds
      → All P (insert_commitment c ds)
  unfolding insert_commitment
  All-insert_commitment c [] p h = (p, tt)
  All-insert_commitment c (d ∷ ds) p (q, h) = elim (Bool-cases (leb_ℤ c.node_id d.node_id)) [
    | inl e ↦ rw e (p, (q, h))
    | inr e ↦ rw e (q, All-insert_commitment c ds p h)
  ]

  pub All-sort_commitments : (cs : List FrostCommitment) → All P cs → All P (sort_commitments cs)
  unfolding sort_commitments
  All-sort_commitments [] h = tt
  All-sort_commitments (c ∷ cs) (p, h) =
      All-insert_commitment c (sort_commitments cs) p (All-sort_commitments cs h)

module _ (nodes : List ℤ) (threshold : ℕ) (commit : ℕ → ℤ → Option Commitment) where
  length-settle_all :
      (i : ℕ) (ids : List ℤ) → length (settle_all nodes threshold commit i ids) ≡ length ids
  unfolding settle_all
  length-settle_all i [] = refl
  length-settle_all i (id ∷ ids) = ap suc (length-settle_all (suc i) ids)

  -- A quorum: enough nodes, in ascending order, each with what it answered where the ids name it; every
  -- id that was asked has its commitment among the commitments or is excluded, with the reason; none is
  -- excluded if the ids were explicit.
  pub record IsQuorum (ids : List ℤ) (explicit : Bool) (r : Collected) : Type 0 where
    pub enough : threshold ≤ length r.commitments
    pub ascending : IsAscending r.commitments
    pub answers : All (IsAnswer nodes threshold commit ids) r.commitments
    pub outcomes : AllHaveOutcome nodes threshold commit r 0 ids
    pub participants : r.participants ≡ map (λ (c : FrostCommitment). c.node_id) r.commitments
    pub accounted : length r.commitments + length r.excluded ≡ length ids
    pub none_missing : explicit ≡ true → length r.excluded ≡ 0

  no_failure :
      (explicit : Bool) (fs : List Failure)
      → (explicit && is_some_failure fs) ≡ false
      → explicit ≡ true
      → length fs ≡ 0
  no_failure explicit [] h e = refl
  no_failure explicit (f ∷ fs) h e = ground arith

  -- When `collectCommitments` returns, at least `threshold` nodes committed, their ids ascend, each
  -- commitment is what a node that the gateway knows answered where the ids asked name it, the participants
  -- are those nodes, every id asked has its commitment among them or is excluded, as unknown or as failed,
  -- participants and excluded together are as many as the ids asked, and with explicit ids none is
  -- excluded.
  pub collect_commitments-IsQuorum :
      (ids : List ℤ) (explicit : Bool) {r : Collected}
      → collect_commitments nodes threshold commit ids explicit ≡ ok r
      → IsQuorum ids explicit r
  unfolding collect_commitments decide_quorum
  collect_commitments-IsQuorum ids explicit {r} h =
      let settled = settle_all nodes threshold commit 0 ids in
      let found : Collected = record {
        commitments = sort_commitments (commitments_in settled);
        participants =
            map (λ (c : FrostCommitment). c.node_id) (sort_commitments (commitments_in settled));
        excluded = sort_failures (failures_in settled);
      } in
      by_steps _ _ h λ _ e1 h1. by_steps _ _ h1 λ _ e2 h2.
        subst (IsQuorum ids explicit) (ok_injective h2) (record {
          enough = not_less _ _ (throw_if-eq-ok _ _ e2);
          ascending = sort_commitments-IsAscending (commitments_in settled);
          answers =
              All-sort_commitments (IsAnswer nodes threshold commit ids) (commitments_in settled) (
                settle_all-IsAnswer nodes threshold commit ids 0 ids
                  (λ k. ap (asked ids) (omega arith)));
          outcomes =
              settle_all-AllHaveOutcome nodes threshold commit found 0 ids
                (λ c m. Memᴰ-sort_commitments c (commitments_in settled) m)
                (λ f m. Memᴰ-sort_failures f (failures_in settled) m);
          participants = refl;
          accounted = omega (
            arith,
            length-sort_commitments (commitments_in settled),
            length-sort_failures (failures_in settled),
            length-settled settled,
            length-settle_all 0 ids,
          );
          none_missing = λ e.
              length-sort_failures (failures_in settled)
              ∙ no_failure explicit (failures_in settled) (throw_if-eq-ok _ _ e1) e;
        })

  -- When the ids were the gateway's own choice, `collectCommitments` fails exactly if fewer than
  -- `threshold` of them committed, with the number that did.
  pub collect_commitments_free :
      (ids : List ℤ)
      → let committed_count = length (commitments_in (settle_all nodes threshold commit 0 ids)) in
        ((committed_count < threshold)
          × (fs : List ℤ) × (collect_commitments nodes threshold commit ids false
              ≡ err (quorum committed_count threshold fs)))
        ⊎ ((threshold ≤ committed_count)
            × (r : Collected) × (collect_commitments nodes threshold commit ids false ≡ ok r))
  unfolding collect_commitments decide_quorum ◌>>=◌
  collect_commitments_free ids =
      let settled = settle_all nodes threshold commit 0 ids in
      let same = length-sort_commitments (commitments_in settled) in
      elim (Bool-cases (ltb (length (commitments_in settled)) threshold)) [
        | inl few ↦ inl (
          ground arith,
          map (λ (f : Failure). f.node_id) (sort_failures (failures_in settled)),
          rw same (rw few),
        )
        | inr many ↦ inr (
          not_less _ _ many,
          record {
            commitments = sort_commitments (commitments_in settled);
            participants =
                map (λ (c : FrostCommitment). c.node_id)
                  (sort_commitments (commitments_in settled));
            excluded = sort_failures (failures_in settled);
          },
          rw same (rw many),
        )
      ]
