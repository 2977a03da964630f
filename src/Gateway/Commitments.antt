-- ===== src/Gateway/Commitments.antt =====
-- projects/gateway/src/gateway/proxy.ts: `collectCommitments`, round 1 over the participants. What a
-- node answers to `commit` is a function of the call's position, since an id can be asked twice, and
-- of the id: `none` is an exception, a time-out included.
use decentralized_identity_p.Prelude.{
  ℕ, suc, ℤ, leb_ℤ, ltb, Bool, true, false, ◌&&◌, Option, none, some, List, [], ◌∷◌, map, length,
  if◌then◌else◌, Result, ok, ◌>>◌, throw_if,
}
use decentralized_identity_p.Protocol.{Commitment, FrostCommitment}
use decentralized_identity_p.Crypto.Shamir.{has_id}
use decentralized_identity_p.Crypto.Frost.{sort_commitments}

pub data Reason : Type 0 where
  not_found failed : Reason

pub record Failure : Type 0 where
  pub node_id : ℤ
  pub reason : Reason

-- One entry of `settled`.
pub data Settled : Type 0 where
  committed : FrostCommitment → Settled
  refused : Failure → Settled

pub data ProxyError : Type 0 where
  explicit_failure : List Failure → ProxyError
  -- How many committed, the threshold, and the ids that did not answer.
  quorum : ℕ → ℕ → List ℤ → ProxyError

pub record Collected : Type 0 where
  pub commitments : List FrostCommitment
  pub participants : List ℤ
  pub excluded : List Failure

abbrev pub of_answer : ℤ → Option Commitment → Settled
of_answer id none = refused (record { node_id = id; reason = failed })
of_answer id (some c) =
    committed (record { node_id = id; d_point = c.d_point; e_point = c.e_point })

-- `settled.filter((r) => !isFailure(r))`, and `settled.filter(isFailure)`.
unfoldable pub commitments_in : List Settled → List FrostCommitment
commitments_in [] = []
commitments_in (committed c ∷ rs) = c ∷ commitments_in rs
commitments_in (refused f ∷ rs) = commitments_in rs

unfoldable pub failures_in : List Settled → List Failure
failures_in [] = []
failures_in (committed c ∷ rs) = failures_in rs
failures_in (refused f ∷ rs) = f ∷ failures_in rs

-- `.sort((a, b) => a.nodeId - b.nodeId)` on failures, which is stable.
unfoldable pub insert_failure : Failure → List Failure → List Failure
insert_failure f [] = f ∷ []
insert_failure f (g ∷ gs) =
    let rest = insert_failure f gs in if leb_ℤ f.node_id g.node_id then f ∷ g ∷ gs else g ∷ rest

unfoldable pub sort_failures : List Failure → List Failure
unfolding insert_failure
sort_failures [] = []
sort_failures (f ∷ fs) = insert_failure f (sort_failures fs)

abbrev pub is_some_failure : List Failure → Bool
is_some_failure [] = false
is_some_failure (f ∷ fs) = true

module _ (nodes : List ℤ) (threshold : ℕ) (commit : ℕ → ℤ → Option Commitment) where
  -- Round 1 with one node; an id that the gateway does not know is a failure.
  unfoldable pub settle : ℕ → ℤ → Settled
  settle i id =
      if has_id id nodes
      then of_answer id (commit i id)
      else refused (record { node_id = id; reason = not_found })

  -- Round 1 with the ids from position `i` on.
  unfoldable pub settle_all : ℕ → List ℤ → List Settled
  settle_all i [] = []
  settle_all i (id ∷ ids) = settle i id ∷ settle_all (suc i) ids

  -- The decision over the settled answers.
  unfoldable pub decide_quorum : Bool → List Settled → Result ProxyError Collected
  decide_quorum explicit settled = do
    let failures = failures_in settled
    throw_if (explicit && is_some_failure failures) (explicit_failure failures)
    let commitments = sort_commitments (commitments_in settled)
    throw_if (ltb (length commitments) threshold)
        (quorum (length commitments) threshold (map (λ f. f.node_id) (sort_failures failures)))
    ok (record {
      commitments = commitments;
      participants = map (λ c. c.node_id) commitments;
      excluded = sort_failures failures;
    })

  unfoldable pub collect_commitments : List ℤ → Bool → Result ProxyError Collected
  unfolding settle_all decide_quorum
  collect_commitments participant_ids explicit =
      decide_quorum explicit (settle_all 0 participant_ids)
