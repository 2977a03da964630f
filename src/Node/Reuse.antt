-- ===== src/Node/Reuse.antt =====
-- No nonces of a round sign twice: over any sequence of calls to a node of
-- projects/node/src/protocol/node.ts.
use decentralized_identity_p.Crypto.Toprf.{Group}
use decentralized_identity_p.Prelude.{
  ◌≡◌, ◌≢◌, ◌⊎◌, inl, inr, sym, ap, subst, ◌∙◌, String, none, List, [], ◌∷◌, All, arith, eq_iff,
  lookup-insert, ok, Result-cases,
}
use decentralized_identity_p.Runtime.{Runtime}
use decentralized_identity_p.Protocol.{SignOnResponse, SignResponse}
use decentralized_identity_p.Crypto.Aead.{Cipher}
use decentralized_identity_p.Crypto.Frost.{Curve, generate_frost_nonces}
use decentralized_identity_p.Node.{IdentityNode, register_user, generate_commitment}
use decentralized_identity_p.Node.Sign.{handle_sign}
use decentralized_identity_p.Node.SignOn.{handle_sign_on}
use decentralized_identity_p.Node.Spending.{open_nonces, handle_sign_spends, handle_sign_changes}
use decentralized_identity_p.Node.Signing.{handle_sign_on-IsSignedOn, handle_sign_on_spends}
use decentralized_identity_p.Node.Machine.{Call, register, commit, sign_on, sign, after, after_all}

-- The call does not open the round.
abbrev pub DoesNotCommit : String → Call → Type 0
DoesNotCommit r (register u s k h) = Unit
DoesNotCommit r (commit round d e) = round ≢ r
DoesNotCommit r (sign_on now round req c) = Unit
DoesNotCommit r (sign clock rounds req c) = Unit

closed_at :
    (node : IdentityNode) {s r : String}
    → s ≡ r
    → open_nonces s node ≡ none
    → open_nonces r node ≡ none
closed_at node e h = subst (λ x. open_nonces x node ≡ none) e h

module _ (rt : Runtime) {Point : Type 0} (curve : Curve Point) {Blind : Type 0}
    (ristretto : Group Blind) (cipher : Cipher) where
  -- The call returns a signature share made with the nonces of the round.
  abbrev pub SignsWith : String → Call → IdentityNode → Type 0
  SignsWith r (register u s k h) node = ⊥
  SignsWith r (commit round d e) node = ⊥
  SignsWith r (sign_on now round req c) node =
      (round ≡ r)
      × (res : SignOnResponse) × ((handle_sign_on rt curve ristretto cipher now round req c node).0
          ≡ ok res)
  SignsWith r (sign clock rounds req c) node =
      ((rounds.access_round_id ≡ r) ⊎ (rounds.refresh_round_id ≡ r))
      × (res : SignResponse) × ((handle_sign rt curve clock rounds req c node).0 ≡ ok res)

  commit-closed :
      (r round : String) (d e : _) (node : IdentityNode)
      → round ≢ r
      → open_nonces r node ≡ none
      → open_nonces r (generate_commitment curve round d e node).1 ≡ none
  unfolding generate_commitment
  commit-closed r round d e node ne h = elim (Result-cases (generate_frost_nonces curve d e)) [
    | inl ((nonces, c), k) ↦
        rw (k, generate_commitment)
          (lookup-insert round r nonces node.active_nonces ∙ ground (arith, eq_iff round r))
    | inr (x, k) ↦ rw (k, generate_commitment) h
  ]

  -- A closed round stays closed.
  after-closed :
      (r : String) (c : Call) (node : IdentityNode)
      → DoesNotCommit r c
      → open_nonces r node ≡ none
      → open_nonces r (after rt curve ristretto cipher c node) ≡ none
  unfolding after register_user
  after-closed r (register u s k h) node d closed = closed
  after-closed r (commit round d e) node ne closed = commit-closed r round d e node ne closed
  after-closed r (sign_on now round req c) node d closed =
      elim (handle_sign_on_spends rt curve ristretto cipher now round req c node) [
        | inl same ↦ ap (open_nonces r) same ∙ closed
        | inr spent ↦
            spent.others r (λ e. spent.was_open (ap (λ x. open_nonces x node) (sym e) ∙ closed))
            ∙ closed
      ]
  after-closed r (sign clock rounds req c) node d closed =
      elim (handle_sign_changes rt curve clock rounds req c node) [
        | inl same ↦ ap (open_nonces r) same ∙ closed
        | inr spent ↦
            spent.others r
              (λ e. spent.access_was_open (ap (λ x. open_nonces x node) (sym e) ∙ closed))
              (λ e. spent.refresh_was_open (ap (λ x. open_nonces x node) (sym e) ∙ closed))
            ∙ closed
      ]

  after_all-closed :
      (r : String) (cs : List Call) (node : IdentityNode)
      → All (DoesNotCommit r) cs
      → open_nonces r node ≡ none
      → open_nonces r (after_all rt curve ristretto cipher cs node) ≡ none
  unfolding after_all
  after_all-closed r [] node d closed = closed
  after_all-closed r (c ∷ cs) node (d, ds) closed =
      after_all-closed r cs _ ds (after-closed r c node d closed)

  signs_open :
      (r : String) (c : Call) (node : IdentityNode) → SignsWith r c node → open_nonces r node ≢ none
  signs_open r (register u s k h) node x = absurd x
  signs_open r (commit round d e) node x = absurd x
  signs_open r (sign_on now round req c) node (same, res, h) = λ k.
      let spent =
        (handle_sign_on-IsSignedOn rt curve ristretto cipher now round req c node h).spent in
      spent.was_open (ap (λ x. open_nonces x node) same ∙ k)
  signs_open r (sign clock rounds req c) node (used, res, h) = λ k.
      let spent = handle_sign_spends rt curve clock rounds req c node h in
      elim used [
        | inl same ↦ spent.access_was_open (ap (λ x. open_nonces x node) same ∙ k)
        | inr same ↦ spent.refresh_was_open (ap (λ x. open_nonces x node) same ∙ k)
      ]

  signs_closes :
      (r : String) (c : Call) (node : IdentityNode)
      → SignsWith r c node
      → open_nonces r (after rt curve ristretto cipher c node) ≡ none
  unfolding after
  signs_closes r (register u s k h) node x = absurd x
  signs_closes r (commit round d e) node x = absurd x
  signs_closes r (sign_on now round req c) node (same, res, h) =
      let spent =
        (handle_sign_on-IsSignedOn rt curve ristretto cipher now round req c node h).spent in
      closed_at (handle_sign_on rt curve ristretto cipher now round req c node).1 same
        spent.is_closed
  signs_closes r (sign clock rounds req c) node (used, res, h) =
      let spent = handle_sign_spends rt curve clock rounds req c node h in
      elim used [
        | inl same ↦
            closed_at (handle_sign rt curve clock rounds req c node).1 same spent.access_is_closed
        | inr same ↦
            closed_at (handle_sign rt curve clock rounds req c node).1 same spent.refresh_is_closed
      ]

  -- No nonce pair signs twice: once a call has returned a share made with a round's nonces, no later
  -- call returns another one, whatever calls are made in between, unless one of them commits to the
  -- round again.
  pub nonces_sign_once :
      (r : String) (first : Call) (between : List Call) (second : Call) (node : IdentityNode)
      → SignsWith r first node
      → All (DoesNotCommit r) between
      → ¬ SignsWith r second
          (after_all rt curve ristretto cipher between (after rt curve ristretto cipher first node))
  nonces_sign_once r first between second node s quiet again =
      signs_open r second _ again (after_all-closed r between _ quiet (signs_closes r first node s))
