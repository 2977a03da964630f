-- ===== src/Tests/RelayRuns.antt =====
-- Runs of the theorems on the gateway's relaying: sign-on, and the `/token` route.
use decentralized_identity_p.Prelude.{
  ℕ, suc, ℤ, pos, ◌≡◌, ◌≢◌, refl, String, true, Option, none, some, List, [], ◌∷◌, length, All,
  arith, ok, err, ◌>>=◌, lookup, eqb_ℤ, if◌then◌else◌, split_dot, ◌*ℤ◌, ◌+ℤ◌, ◌-ℤ◌,
}
use decentralized_identity_p.Js.{Js}
use decentralized_identity_p.Protocol.{
  Commitment, FrostCommitment, SignOnRequest, SignOnResponse, SignRequest, SignCommitments,
  authorization_code,
}
use decentralized_identity_p.Crypto.Shamir.{has_id, mod_ℤ, bytes_to_bigint_le, bytes_le}
use decentralized_identity_p.Crypto.Frost.{
  sort_commitments, insert_commitment, compute_group_commitment, group_loop, compute_binding_factor,
  to_scalar, commitment_bytes, to_byte, aggregate_signature_shares, sum_shares,
}
use decentralized_identity_p.Jwt.{
  create_signing_input, assemble_jwt, deterministic_json_stringify, sort_keys, insert_key,
  property_texts, pair_texts, join_comma, parse_part, verify_ed25519, to_number,
}
use decentralized_identity_p.Dpop.{
  verify_dpop_proof, check_proof, check_header, check_payload, calculate_jwk_thumbprint, upper,
  decode_key, is_stale, differs_from,
}
use decentralized_identity_p.Node.{token_endpoint}
use decentralized_identity_p.Node.Credential.{scope_text}
use decentralized_identity_p.Node.Sign.{proof_options}
use decentralized_identity_p.Gateway.Commitments.{
  Collected, collect_commitments, decide_quorum, settle, settle_all, commitments_in, failures_in,
  insert_failure, sort_failures,
}
use decentralized_identity_p.Gateway.Credential.{
  decode_credential_claims, decode_payload, text_property, jkt_property,
}
use decentralized_identity_p.Gateway.Proxy.{
  of_decode, of_collect, of_group, assemble_token, access_header, access_payload, refresh_header,
  refresh_payload, sign_request, Shares, TokenResult, handle_sign, no_refresh_commitment,
  all_shares, find_commitment,
}
use decentralized_identity_p.Gateway.SignOn.{
  SignOnBody, SignOnResult, Answer, sign_on_request, all_responses, handle_sign_on,
}
use decentralized_identity_p.Gateway.Relayed.{IsRelayed, handle_sign_on-IsRelayed}
use decentralized_identity_p.Gateway.Repeated.{repeated, collect_commitments-repeated}
use decentralized_identity_p.Gateway.Token.{
  single, Checked, check_token, grant_of, of_claims, of_proof, of_relay, handle_token,
}
use decentralized_identity_p.Gateway.Exchanged.{
  IsExchanged, relayed_proof_accepted, handle_token-IsExchanged,
}
use decentralized_identity_p.Gateway.Matched.{handle_sign-IsMatched}
use decentralized_identity_p.Tests.Codec.{codec, write, read_from}
use decentralized_identity_p.Tests.Toy.{
  runtime, curve, node, assertion, proof, table, text_of, number_of,
}
use decentralized_identity_p.Tests.NodeRuns.{claims, assertion-IsGenuine}
use decentralized_identity_p.Tests.GatewayRuns.{gateway}

abbrev point : Commitment
point = record { d_point = 2 ∷ []; e_point = 3 ∷ [] }

-- Node 3 does not commit.
abbrev commits : ℕ → ℤ → Option Commitment
commits i id = if eqb_ℤ id (pos 3) then none else some point

abbrev body : SignOnBody
body = record {
  username = "alice";
  blinded = "b";
  session_nonce = "n";
  cnf_jkt = "k";
  client_id = "rp";
  scope = "openid";
  nonce = some "c";
  iat = pos 1000;
  exp = pos 1030;
  iss = "https://id";
  participants = none;
}

abbrev answer : SignOnRequest → Answer
answer req i id own = some (record {
  node_id = id;
  commitment = own;
  toprf_partial = "t";
  ct_i = "x";
  session_id = req.session_id;
  sub = "alice";
})

abbrev answer_of : ℕ → SignOnResponse
answer_of id = record {
  node_id = pos id;
  commitment = point;
  toprf_partial = "t";
  ct_i = "x";
  session_id = "s";
  sub = "alice";
}

abbrev commitment_of : ℕ → FrostCommitment
commitment_of id = record { node_id = pos id; d_point = 2 ∷ []; e_point = 3 ∷ [] }

abbrev relayed : SignOnResult
relayed = record {
  session_id = "s";
  commitments = commitment_of 1 ∷ (commitment_of 2 ∷ []);
  node_responses = answer_of 1 ∷ (answer_of 2 ∷ []);
}

signed_on : handle_sign_on gateway commits answer body "s" ≡ ok relayed
unfolding handle_sign_on all_responses sign_on_request collect_commitments decide_quorum settle
    settle_all commitments_in failures_in insert_failure sort_failures sort_commitments
    insert_commitment ◌>>=◌ has_id
signed_on = refl

handle_sign_on-IsRelayed_example : IsRelayed gateway commits answer body "s" relayed
handle_sign_on-IsRelayed_example =
    handle_sign_on-IsRelayed gateway commits answer body "s" signed_on

-- Each commitment has other points.
abbrev fresh_point : ℕ → Commitment
fresh_point i = record { d_point = i ∷ []; e_point = suc i ∷ [] }

abbrev fresh_commits : ℕ → ℤ → Option Commitment
fresh_commits i id = some (fresh_point i)

collect_commitments-repeated_example :
    (r : Collected) × (collect_commitments
        (pos 1 ∷ (pos 2 ∷ []))
        2
        fresh_commits
        (repeated 2 (pos 1))
        true
      ≡ ok r)
    × (length r.commitments ≡ 2)
    × All (λ (d : FrostCommitment). d.node_id ≡ pos 1) r.commitments
unfolding has_id
collect_commitments-repeated_example =
    collect_commitments-repeated (pos 1 ∷ (pos 2 ∷ [])) 2 fresh_commits (pos 1) refl fresh_point
      (λ i. refl) 2 (omega arith)

abbrev form : List (String × String)
form = ("grant_type", "authorization_code") ∷ (("code", assertion) ∷ [])

abbrev checked : Checked
checked = record {
  grant = authorization_code;
  credential = assertion;
  proof = proof;
  claims = record { sub = "alice"; client_id = "rp"; scope = "openid"; jkt = "b" };
}

token_checked :
    check_token runtime curve 1010 form (single proof) (token_endpoint node) ≡ ok checked
unfolding check_token grant_of lookup runtime table codec read_from write ◌>>=◌ verify_ed25519
    parse_part split_dot to_number verify_dpop_proof check_proof check_header check_payload
    calculate_jwk_thumbprint upper decode_key is_stale differs_from token_endpoint text_of number_of
    ◌*ℤ◌ ◌+ℤ◌ ◌-ℤ◌ decode_credential_claims decode_payload text_property jkt_property of_claims
    of_proof scope_text
token_checked = refl

relayed_proof_accepted_example :
    (v : String × Js) × (verify_dpop_proof runtime 1010 proof
        (proof_options runtime curve node claims)
      ≡ ok v)
relayed_proof_accepted_example =
    relayed_proof_accepted runtime curve 1010 1010 form (single proof) node "JWT" claims
      token_checked assertion-IsGenuine

abbrev both_shares : SignRequest → ℤ → SignCommitments → Option Shares
both_shares req id own = some (record { at = 1; rt = 2 })

abbrev tokens : TokenResult
tokens = record {
  access_token = "aab.aab.abaabbbbbbbbbbbbbbbbbbbbbbbbbbbbbbbb";
  refresh_token = "aab.aab.abaaaabbbbbbbbbbbbbbbbbbbbbbbbbbbbbbbb";
  expires_in = pos 3600;
  scope = "openid";
  cnf_jkt = "b";
}

answered_tokens :
    handle_token runtime curve gateway commits commits both_shares 1010 1010 "j" form
      (single proof)
      (token_endpoint node)
    ≡ ok tokens
unfolding handle_token of_relay handle_sign sign_request of_decode of_collect of_group all_shares
    find_commitment assemble_token access_header access_payload refresh_header refresh_payload
    create_signing_input assemble_jwt deterministic_json_stringify sort_keys insert_key
    property_texts pair_texts join_comma compute_group_commitment group_loop compute_binding_factor
    to_scalar commitment_bytes to_byte mod_ℤ bytes_to_bigint_le aggregate_signature_shares
    sum_shares bytes_le collect_commitments decide_quorum settle settle_all commitments_in
    failures_in insert_failure sort_failures sort_commitments insert_commitment has_id curve
    check_token grant_of lookup runtime table codec read_from write ◌>>=◌ verify_ed25519 parse_part
    split_dot to_number verify_dpop_proof check_proof check_header check_payload
    calculate_jwk_thumbprint upper decode_key is_stale differs_from token_endpoint text_of number_of
    ◌*ℤ◌ ◌+ℤ◌ ◌-ℤ◌ decode_credential_claims decode_payload text_property jkt_property of_claims
    of_proof scope_text
answered_tokens = refl

handle_token-IsExchanged_example :
    IsExchanged runtime curve gateway commits commits both_shares 1010 1010 "j" form
      (single proof)
      (token_endpoint node)
      tokens
handle_token-IsExchanged_example =
    handle_token-IsExchanged runtime curve gateway commits commits both_shares 1010 1010 "j" form
      (single proof) (token_endpoint node) answered_tokens

handle_sign-IsMatched_example :
    handle_sign runtime curve gateway commits commits both_shares authorization_code assertion proof
      1000 "j"
    ≢ err no_refresh_commitment
handle_sign-IsMatched_example =
    handle_sign-IsMatched runtime curve gateway commits commits both_shares authorization_code
      assertion proof 1000 "j"
