-- ===== src/Gateway/Matched.antt =====
-- `handleSign` of projects/gateway/src/gateway/proxy.ts looks up each participant's refresh commitment
-- with `find(...)!`: that it is always there.
use decentralized_identity_p.Prelude.{
  ℕ, suc, ℤ, leb_ℤ, eqb_ℤ, ◌≡◌, ◌≢◌, refl, subst, sym, String, true, false, Bool, Bool-cases, inl,
  inr, Option, none, some, Option-cases, List, [], ◌∷◌, map, All, arith, Result, ok, err, ◌>>=◌,
  >>=-eq-err, or_throw, throw_if, by_steps, throw_if-eq-ok,
}
use decentralized_identity_p.Js.{Js}
use decentralized_identity_p.Runtime.{Bytes, Runtime}
use decentralized_identity_p.Protocol.{
  Commitment, FrostCommitment, Grant, SignRequest, SignCommitments,
}
use decentralized_identity_p.Crypto.Shamir.{has_id}
use decentralized_identity_p.Crypto.Frost.{Curve, FrostError, insert_commitment, sort_commitments}
use decentralized_identity_p.Gateway.Commitments.{
  Failure, ProxyError, Collected, collect_commitments, commitments_in, failures_in, is_some_failure,
  settle, settle_all, decide_quorum,
}
use decentralized_identity_p.Gateway.Proxy.{
  Proxy, Shares, RelayError, node_failed, no_refresh_commitment, find_commitment, all_shares,
  handle_sign, of_decode, of_collect, of_group, assemble_token, proxy,
}
use decentralized_identity_p.Gateway.Credential.{InvalidCredential, IdentityClaims}
use decentralized_identity_p.Gateway.Quorum.{collect_commitments-IsQuorum}

-- A commitment under the id is in the list.
abbrev pub HasCommitment : List FrostCommitment → ℤ → Type 0
HasCommitment cs id = (own : Commitment) × (find_commitment id cs ≡ some own)

HasCommitment-later :
    (c : FrostCommitment) (cs : List FrostCommitment) (id : ℤ)
    → HasCommitment cs id
    → HasCommitment (c ∷ cs) id
unfolding find_commitment
HasCommitment-later c cs id (own, h) = elim (Bool-cases (eqb_ℤ c.node_id id)) [
  | inl e ↦ rw e (record { d_point = c.d_point; e_point = c.e_point }, refl)
  | inr e ↦ rw e (own, h)
]

HasCommitment-insert :
    (c : FrostCommitment) (cs : List FrostCommitment) (id : ℤ)
    → HasCommitment (c ∷ cs) id
    → HasCommitment (insert_commitment c cs) id
unfolding find_commitment insert_commitment
HasCommitment-insert c [] id h = h
HasCommitment-insert c (d ∷ ds) id h = elim (Bool-cases (leb_ℤ c.node_id d.node_id)) [
  | inl e ↦ rw e h
  | inr e ↦ rw e (elim (Bool-cases (eqb_ℤ d.node_id id)) [
    | inl f ↦ rw f (record { d_point = d.d_point; e_point = d.e_point }, refl)
    | inr f ↦ rw f (HasCommitment-insert c ds id (rw f at h))
  ])
]

HasCommitment-sort :
    (cs : List FrostCommitment) (id : ℤ)
    → HasCommitment cs id
    → HasCommitment (sort_commitments cs) id
unfolding sort_commitments find_commitment
HasCommitment-sort [] id h = h
HasCommitment-sort (c ∷ cs) id h =
    HasCommitment-insert c (sort_commitments cs) id (elim (Bool-cases (eqb_ℤ c.node_id id)) [
      | inl e ↦ rw e (record { d_point = c.d_point; e_point = c.e_point }, refl)
      | inr e ↦ rw e (HasCommitment-sort cs id (rw e at h))
    ])

All-map : {P Q : ℤ → Type 0} (f : (id : ℤ) → P id → Q id) (ids : List ℤ) → All P ids → All Q ids
All-map f [] h = tt
All-map f (id ∷ ids) (p, h) = (f id p, All-map f ids h)

head_commitment :
    (d e : List ℕ) (id : ℤ) (cs : List FrostCommitment)
    → HasCommitment (record { node_id = id; d_point = d; e_point = e } ∷ cs) id
unfolding find_commitment
head_commitment d e id cs = (record { d_point = d; e_point = e }, ground arith)

not_nil : (f : Failure) (fs : List Failure) → ¬ (f ∷ fs ≡ [])
not_nil f fs h = cc

not_failing : (fs : List Failure) → is_some_failure fs ≡ false → fs ≡ []
not_failing [] h = refl
not_failing (f ∷ fs) h = cc

module _ (nodes : List ℤ) (threshold : ℕ) (commit : ℕ → ℤ → Option Commitment) where
  answered :
      (i : ℕ) (id : ℤ) (ids : List ℤ) (c : Commitment)
      → has_id id nodes ≡ true
      → commit i id ≡ some c
      → commitments_in (settle_all nodes threshold commit i (id ∷ ids))
        ≡ record { node_id = id; d_point = c.d_point; e_point = c.e_point }
          ∷ commitments_in (settle_all nodes threshold commit (suc i) ids)
  unfolding settle settle_all commitments_in
  answered i id ids c known answer = rw (known, answer) refl

  settle_all-HasCommitment :
      (i : ℕ) (ids : List ℤ)
      → failures_in (settle_all nodes threshold commit i ids) ≡ []
      → All (HasCommitment (commitments_in (settle_all nodes threshold commit i ids))) ids
  unfolding settle settle_all failures_in commitments_in
  settle_all-HasCommitment i [] h = tt
  settle_all-HasCommitment i (id ∷ ids) h = elim (Bool-cases (has_id id nodes)) [
    | inr unknown ↦ absurd (not_nil _ _ (rw unknown at h))
    | inl known ↦ elim (Option-cases (commit i id)) [
      | inl silent ↦ absurd (not_nil _ _ (rw (known, silent) at h))
      | inr (c, answer) ↦
          subst (λ cs. All (HasCommitment cs) (id ∷ ids)) (sym (answered i id ids c known answer))
            (
              head_commitment c.d_point c.e_point id _,
              All-map (HasCommitment-later _ _) ids
                  (settle_all-HasCommitment (suc i) ids (rw (known, answer) at h)),
            )
    ]
  ]

  collected_injective :
      {a b : Collected} → ◌≡◌ {A = Result ProxyError Collected} (ok a) (ok b) → a ≡ b
  collected_injective h = cc

  -- With explicit ids, every id has its commitment.
  collect_commitments-HasCommitment :
      (ids : List ℤ) {r : Collected}
      → collect_commitments nodes threshold commit ids true ≡ ok r
      → All (HasCommitment r.commitments) ids
  unfolding collect_commitments decide_quorum
  collect_commitments-HasCommitment ids {r} h =
      let settled = settle_all nodes threshold commit 0 ids in
      by_steps _ _ h λ _ e1 h1. by_steps _ _ h1 λ _ e2 h2.
        subst (λ r. All (HasCommitment r.commitments) ids) (collected_injective h2)
          (All-map (HasCommitment-sort (commitments_in settled)) ids
            (settle_all-HasCommitment 0 ids (not_failing _ (throw_if-eq-ok _ _ e1))))

or_throw_error : {A : Type 0} (o : Option A) (e e' : RelayError) → or_throw o e ≡ err e' → e ≡ e'
or_throw_error none e e' h = cc
or_throw_error (some a) e e' h = cc

not_thrown :
    {A : Type 0} (a : A) {e : RelayError} → ¬ (◌≡◌ {A = Result RelayError A} (ok a) (err e))
not_thrown a h = cc

node_failed-ne : node_failed ≢ no_refresh_commitment
node_failed-ne h = cc

all_shares-matched :
    (sign : ℤ → SignCommitments → Option Shares) (refresh cs : List FrostCommitment)
    → All (HasCommitment refresh) (map (λ c. c.node_id) cs)
    → all_shares sign refresh cs ≢ err no_refresh_commitment
unfolding all_shares
all_shares-matched sign refresh [] h = λ k. cc
all_shares-matched sign refresh (c ∷ cs) ((own, found), h) = λ k. elim (>>=-eq-err _ _ k) [
  | inl e ↦ not_thrown own (rw found at e)
  | inr (_, _, k1) ↦ elim (>>=-eq-err _ _ k1) [
    | inl e ↦ node_failed-ne (or_throw_error _ _ _ e)
    | inr (_, _, k2) ↦ elim (>>=-eq-err _ _ k2) [
      | inl e ↦ all_shares-matched sign refresh cs h e
      | inr (ss, _, k3) ↦ not_thrown _ k3
    ]
  ]
]

-- The computation does not fail for want of a refresh commitment.
abbrev IsMatched : {A : Type 0} → Result RelayError A → Type 0
IsMatched {A} m = ◌≢◌ {A = Result RelayError A} m (err no_refresh_commitment)

IsMatched-bind :
    {A B : Type 0} (m : Result RelayError A) (f : A → Result RelayError B)
    → IsMatched m
    → ((a : A) → m ≡ ok a → IsMatched (f a))
    → IsMatched (m >>= f)
IsMatched-bind m f first next h = elim (>>=-eq-err m f h) [
  | inl e ↦ first e
  | inr (a, e, k) ↦ next a e k
]

decode_lem : (m : Result InvalidCredential IdentityClaims) → IsMatched (of_decode m)
unfolding of_decode
decode_lem (ok c) = λ h. cc
decode_lem (err e) = λ h. cc

collect_lem : (m : Result ProxyError Collected) → IsMatched (of_collect m)
unfolding of_collect
collect_lem (ok c) = λ h. cc
collect_lem (err e) = λ h. cc

collect-eq : (m : Result ProxyError Collected) {c : Collected} → of_collect m ≡ ok c → m ≡ ok c
unfolding of_collect
collect-eq (ok a) h = cc
collect-eq (err e) h = cc

group_lem : (m : Result FrostError Bytes) → IsMatched (of_group m)
unfolding of_group
group_lem (ok c) = λ h. cc
group_lem (err e) = λ h. cc

quorum_lem : (b : Bool) (e : ProxyError) → IsMatched (throw_if b (proxy e))
quorum_lem true e = λ h. cc
quorum_lem false e = λ h. cc

module _ (rt : Runtime) {Point : Type 0} (curve : Curve Point) where
  assembled_lem :
      (header payload : Js) (commitments : List FrostCommitment) (shares : List ℕ)
      → IsMatched (assemble_token rt curve header payload commitments shares)
  unfolding assemble_token
  assembled_lem header payload commitments shares =
      IsMatched-bind _ _ (group_lem _) λ r e h. not_thrown _ h

  -- Whatever the nodes answer, the gateway's `handleSign` never looks for the refresh commitment of a
  -- participant in vain: both rounds have the same participants once the second has succeeded.
  pub handle_sign-IsMatched :
      (p : Proxy) (access_commit refresh_commit : ℕ → ℤ → Option Commitment)
      (sign : SignRequest → ℤ → SignCommitments → Option Shares) (grant : Grant)
      (credential dpop_proof : String) (now : ℕ) (jti : String)
      → handle_sign rt curve p access_commit refresh_commit sign grant credential dpop_proof now jti
        ≢ err no_refresh_commitment
  unfolding handle_sign
  handle_sign-IsMatched p access_commit refresh_commit sign grant credential dpop_proof now jti =
      IsMatched-bind _ _ (decode_lem _) λ claims _. IsMatched-bind _ _ (quorum_lem _ _) λ _ _.
        IsMatched-bind _ _ (collect_lem _) λ access ea.
          IsMatched-bind _ _ (collect_lem _) λ refresh er.
            let same =
              (collect_commitments-IsQuorum p.nodes p.threshold access_commit p.nodes false
                (collect-eq _ ea)).participants in
            let found = subst (All (HasCommitment refresh.commitments)) same (
              collect_commitments-HasCommitment p.nodes p.threshold refresh_commit
                access.participants (collect-eq _ er)) in
            IsMatched-bind _ _ (all_shares-matched _ refresh.commitments access.commitments found)
              λ shares _. IsMatched-bind _ _ (assembled_lem _ _ _ _) λ granted _.
                IsMatched-bind _ _ (assembled_lem _ _ _ _) λ renewed _ h. not_thrown _ h
