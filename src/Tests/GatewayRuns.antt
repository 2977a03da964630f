-- ===== src/Tests/GatewayRuns.antt =====
-- Runs of the gateway's theorems.
use decentralized_identity_p.Prelude.{
  ℕ, ◌*◌, ◌<◌, ◌≤◌, ℤ, pos, ◌+ℤ◌, ◌≡◌, refl, ◌⊎◌, false, Option, none, some, List, [], ◌∷◌, length,
  arith, ok, err, ◌>>=◌, eqb_ℤ, if◌then◌else◌,
}
use decentralized_identity_p.Protocol.{
  Commitment, FrostCommitment, AccessTokenClaims, authorization_code,
}
use decentralized_identity_p.Jwt.{create_signing_input}
use decentralized_identity_p.Node.Sign.{
  check_claims, access_token_header, refresh_token_header, access_token_payload,
  refresh_token_payload,
}
use decentralized_identity_p.Gateway.Credential.{IdentityClaims, decode_credential_claims}
use decentralized_identity_p.Gateway.Commitments.{
  Collected, quorum, settle, settle_all, commitments_in, collect_commitments, decide_quorum,
  failures_in, insert_failure, sort_failures, Reason,
}
use decentralized_identity_p.Crypto.Shamir.{has_id}
use decentralized_identity_p.Crypto.Frost.{sort_commitments, insert_commitment}
use decentralized_identity_p.Gateway.Proxy.{
  Proxy, access_header, refresh_header, access_payload, refresh_payload, sign_request,
}
use decentralized_identity_p.Gateway.Agreement.{
  identity_of, decode_credential_claims-IsGenuine, signing_inputs_agree, check_claims-sign_request,
}
use decentralized_identity_p.Gateway.Quorum.{
  IsQuorum, collect_commitments-IsQuorum, collect_commitments_free,
}
use decentralized_identity_p.Tests.NodeRuns.{claims, assertion-IsGenuine}
use decentralized_identity_p.Tests.Toy.{runtime, curve, node, assertion, proof, own}

decode_credential_claims-IsGenuine_example :
    decode_credential_claims runtime assertion ≡ ok (identity_of claims)
decode_credential_claims-IsGenuine_example =
    decode_credential_claims-IsGenuine runtime 1010 node assertion "JWT" claims assertion-IsGenuine

abbrev pub gateway : Proxy
gateway = record {
  nodes = pos 1 ∷ (pos 2 ∷ (pos 3 ∷ []));
  threshold = 2;
  issuer = "https://id";
  key_id = "key";
}

abbrev pinned : AccessTokenClaims
pinned = record { iat = pos 1000; exp = pos 1900; jti = "j" }

signing_inputs_agree_example :
    (ic : IdentityClaims) × (decode_credential_claims runtime assertion ≡ ok ic)
    × (create_signing_input runtime (access_header gateway) (access_payload gateway ic pinned)
        ≡ create_signing_input runtime
            (access_token_header node)
            (access_token_payload node claims pinned))
    × (create_signing_input runtime
          (refresh_header gateway)
          (refresh_payload gateway ic pinned (pos 9000))
        ≡ create_signing_input runtime
            (refresh_token_header node)
            (refresh_token_payload node claims pinned (pos 9000)))
signing_inputs_agree_example =
    signing_inputs_agree runtime gateway 1010 node assertion "JWT" claims pinned (pos 9000)
      assertion-IsGenuine refl refl

abbrev collected : Collected
collected = record { commitments = own ∷ []; participants = pos 1 ∷ []; excluded = [] }

check_claims-sign_request_example :
    check_claims 950
      (sign_request runtime curve authorization_code assertion proof 1000 "j" collected collected)
    ≡ ok (pos 1000 +ℤ pos (86400 * 30))
check_claims-sign_request_example =
    check_claims-sign_request runtime curve authorization_code assertion proof 1000 950 "j"
      collected collected refl (omega arith) (omega arith)

-- Nodes 1 and 2 answer, node 3 does not.
abbrev answers : ℕ → ℤ → Option Commitment
answers i id =
    if eqb_ℤ id (pos 3) then none else some (record { d_point = 2 ∷ []; e_point = 3 ∷ [] })

abbrev answered : ℕ → FrostCommitment
answered id = record { node_id = pos id; d_point = 2 ∷ []; e_point = 3 ∷ [] }

abbrev two_of_three : Collected
two_of_three = record {
  commitments = answered 1 ∷ (answered 2 ∷ []);
  participants = pos 1 ∷ (pos 2 ∷ []);
  excluded = record { node_id = pos 3; reason = Reason.failed } ∷ [];
}

asked :
    collect_commitments gateway.nodes 2 answers (pos 3 ∷ (pos 2 ∷ (pos 1 ∷ []))) false
    ≡ ok two_of_three
unfolding collect_commitments decide_quorum settle settle_all commitments_in failures_in
    insert_failure sort_failures sort_commitments insert_commitment ◌>>=◌ has_id
asked = refl

collect_commitments-IsQuorum_example :
    IsQuorum gateway.nodes 2 answers (pos 3 ∷ (pos 2 ∷ (pos 1 ∷ []))) false two_of_three
collect_commitments-IsQuorum_example =
    collect_commitments-IsQuorum gateway.nodes 2 answers (pos 3 ∷ (pos 2 ∷ (pos 1 ∷ []))) false
      asked

collect_commitments_free_example :
    ((length (commitments_in (settle_all gateway.nodes 3 answers 0 (pos 2 ∷ (pos 3 ∷ [])))) < 3)
      × (fs : List ℤ) × (collect_commitments gateway.nodes 3 answers (pos 2 ∷ (pos 3 ∷ [])) false
          ≡ err (
              quorum
                (length
                  (commitments_in (settle_all gateway.nodes 3 answers 0 (pos 2 ∷ (pos 3 ∷ [])))))
                3
                fs)))
    ⊎ ((3 ≤ length (commitments_in (settle_all gateway.nodes 3 answers 0 (pos 2 ∷ (pos 3 ∷ [])))))
        × (r : Collected) × (collect_commitments gateway.nodes 3 answers
              (pos 2 ∷ (pos 3 ∷ []))
              false
            ≡ ok r))
collect_commitments_free_example =
    collect_commitments_free gateway.nodes 3 answers (pos 2 ∷ (pos 3 ∷ []))
