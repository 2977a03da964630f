-- ===== src/Gateway/Outcomes.antt =====
-- What becomes of each id that `collectCommitments` of projects/gateway/src/gateway/proxy.ts asks.
use mathlib.Core.List.{Memᴰ}
use decentralized_identity_p.Prelude.{
  ℕ, zero, suc, ◌+◌, ℤ, leb_ℤ, ◌≡◌, refl, sym, ap, ◌∙◌, ◌⊎◌, true, false, Bool-cases, inl, inr,
  Option, none, some, Option-cases, List, [], ◌∷◌, All, arith,
}
use decentralized_identity_p.Protocol.{Commitment, FrostCommitment}
use decentralized_identity_p.Crypto.Shamir.{has_id}
use decentralized_identity_p.Crypto.Frost.{insert_commitment, sort_commitments}
use decentralized_identity_p.Gateway.Commitments.{
  Failure, Collected, not_found, failed, commitments_in, failures_in, insert_failure, sort_failures,
  settle, settle_all,
}

-- The id at a position.
abbrev pub asked : List ℤ → ℕ → Option ℤ
asked [] i = none
asked (id ∷ ids) zero = some id
asked (id ∷ ids) (suc i) = asked ids i

abbrev pub committed_as : ℤ → Commitment → FrostCommitment
committed_as id c = record { node_id = id; d_point = c.d_point; e_point = c.e_point }

module _ (c d : FrostCommitment) where
  Memᴰ-insert_commitment :
      (cs : List FrostCommitment) → Memᴰ c (d ∷ cs) → Memᴰ c (insert_commitment d cs)
  unfolding insert_commitment
  Memᴰ-insert_commitment [] m = m
  Memᴰ-insert_commitment (e ∷ es) m =
      let rest = Memᴰ-insert_commitment es in
      elim (Bool-cases (leb_ℤ d.node_id e.node_id)) [
        | inl before ↦ rw before m
        | inr after ↦ rw after (place rest m)
      ]
    where
      place :
          (Memᴰ c (d ∷ es) → Memᴰ c (insert_commitment d es))
          → Memᴰ c (d ∷ e ∷ es)
          → Memᴰ c (e ∷ insert_commitment d es)
      place rest (Memᴰ.head k) = Memᴰ.tail (rest (Memᴰ.head k))
      place rest (Memᴰ.tail (Memᴰ.head k)) = Memᴰ.head k
      place rest (Memᴰ.tail (Memᴰ.tail n)) = Memᴰ.tail (rest (Memᴰ.tail n))

pub Memᴰ-sort_commitments :
    (c : FrostCommitment) (cs : List FrostCommitment) → Memᴰ c cs → Memᴰ c (sort_commitments cs)
unfolding sort_commitments
Memᴰ-sort_commitments c [] m = m
Memᴰ-sort_commitments c (d ∷ ds) (Memᴰ.head k) =
    Memᴰ-insert_commitment c d (sort_commitments ds) (Memᴰ.head k)
Memᴰ-sort_commitments c (d ∷ ds) (Memᴰ.tail m) =
    Memᴰ-insert_commitment c d (sort_commitments ds) (Memᴰ.tail (Memᴰ-sort_commitments c ds m))

module _ (f g : Failure) where
  Memᴰ-insert_failure : (fs : List Failure) → Memᴰ f (g ∷ fs) → Memᴰ f (insert_failure g fs)
  unfolding insert_failure
  Memᴰ-insert_failure [] m = m
  Memᴰ-insert_failure (e ∷ es) m =
      let rest = Memᴰ-insert_failure es in
      elim (Bool-cases (leb_ℤ g.node_id e.node_id)) [
        | inl before ↦ rw before m
        | inr after ↦ rw after (place rest m)
      ]
    where
      place :
          (Memᴰ f (g ∷ es) → Memᴰ f (insert_failure g es))
          → Memᴰ f (g ∷ e ∷ es)
          → Memᴰ f (e ∷ insert_failure g es)
      place rest (Memᴰ.head k) = Memᴰ.tail (rest (Memᴰ.head k))
      place rest (Memᴰ.tail (Memᴰ.head k)) = Memᴰ.head k
      place rest (Memᴰ.tail (Memᴰ.tail n)) = Memᴰ.tail (rest (Memᴰ.tail n))

pub Memᴰ-sort_failures : (f : Failure) (fs : List Failure) → Memᴰ f fs → Memᴰ f (sort_failures fs)
unfolding sort_failures
Memᴰ-sort_failures f [] m = m
Memᴰ-sort_failures f (g ∷ gs) (Memᴰ.head k) =
    Memᴰ-insert_failure f g (sort_failures gs) (Memᴰ.head k)
Memᴰ-sort_failures f (g ∷ gs) (Memᴰ.tail m) =
    Memᴰ-insert_failure f g (sort_failures gs) (Memᴰ.tail (Memᴰ-sort_failures f gs m))

module _ (nodes : List ℤ) (threshold : ℕ) (commit : ℕ → ℤ → Option Commitment) where
  -- The commitment is what a node that the gateway knows answered to the call at a position where the
  -- ids name it.
  abbrev pub IsAnswer : List ℤ → FrostCommitment → Type 0
  IsAnswer ids c =
      (has_id c.node_id nodes ≡ true)
      × (i : ℕ) × (asked ids i ≡ some c.node_id)
      × (commit i c.node_id ≡ some (record { d_point = c.d_point; e_point = c.e_point }))

  pub settle_all-IsAnswer :
      (whole : List ℤ) (i : ℕ) (ids : List ℤ)
      → ((k : ℕ) → asked ids k ≡ asked whole (i + k))
      → All (IsAnswer whole) (commitments_in (settle_all nodes threshold commit i ids))
  unfolding commitments_in settle settle_all
  settle_all-IsAnswer whole i [] h = tt
  settle_all-IsAnswer whole i (id ∷ ids) h =
      let here_ : some id ≡ asked whole i = h 0 ∙ ap (asked whole) (omega arith) in
      let rest =
        settle_all-IsAnswer whole (suc i) ids (λ k. h (suc k) ∙ ap (asked whole) (omega arith)) in
      elim (Bool-cases (has_id id nodes)) [
        | inr unknown ↦ rw unknown rest
        | inl known ↦ elim (Option-cases (commit i id)) [
          | inl silent ↦ rw (known, silent) rest
          | inr (c, answer) ↦ rw (known, answer) ((known, i, sym here_, answer), rest)
        ]
      ]

  -- What becomes of the id at position i: the commitment that it answers is among the commitments, or it
  -- is among the excluded, as unknown to the gateway or as a node whose call failed.
  abbrev pub HasOutcome : Collected → ℕ → ℤ → Type 0
  HasOutcome r i id =
      ((has_id id nodes ≡ true)
        × (c : Commitment) × (commit i id ≡ some c)
        × Memᴰ (committed_as id c) r.commitments)
      ⊎ (((has_id id nodes ≡ true)
            × (commit i id ≡ none)
            × Memᴰ (record { node_id = id; reason = failed }) r.excluded)
          ⊎ ((has_id id nodes ≡ false)
              × Memᴰ (record { node_id = id; reason = not_found }) r.excluded))

  -- The same of each id from position i on.
  abbrev pub AllHaveOutcome : Collected → ℕ → List ℤ → Type 0
  AllHaveOutcome r i [] = Unit
  AllHaveOutcome r i (id ∷ ids) = HasOutcome r i id × AllHaveOutcome r (suc i) ids

  pub settle_all-AllHaveOutcome :
      (r : Collected) (i : ℕ) (ids : List ℤ)
      → ((c : FrostCommitment)
          → Memᴰ c (commitments_in (settle_all nodes threshold commit i ids))
          → Memᴰ c r.commitments)
      → ((f : Failure)
          → Memᴰ f (failures_in (settle_all nodes threshold commit i ids))
          → Memᴰ f r.excluded)
      → AllHaveOutcome r i ids
  unfolding commitments_in failures_in settle settle_all
  settle_all-AllHaveOutcome r i [] h k = tt
  settle_all-AllHaveOutcome r i (id ∷ ids) h k = elim (Bool-cases (has_id id nodes)) [
    | inr unknown ↦
        let h' = rw unknown at h in
        let k' = rw unknown at k in
        (
          inr (inr (unknown, k' _ (Memᴰ.head refl))),
          settle_all-AllHaveOutcome r (suc i) ids h' (λ f m. k' f (Memᴰ.tail m)),
        )
    | inl known ↦ elim (Option-cases (commit i id)) [
      | inl silent ↦
          let h' = rw (known, silent) at h in
          let k' = rw (known, silent) at k in
          (
            inr (inl (known, silent, k' _ (Memᴰ.head refl))),
            settle_all-AllHaveOutcome r (suc i) ids h' (λ f m. k' f (Memᴰ.tail m)),
          )
      | inr (c, answer) ↦
          let h' = rw (known, answer) at h in
          let k' = rw (known, answer) at k in
          (
            inl (known, c, answer, h' _ (Memᴰ.head refl)),
            settle_all-AllHaveOutcome r (suc i) ids (λ d m. h' d (Memᴰ.tail m)) k',
          )
    ]
  ]
