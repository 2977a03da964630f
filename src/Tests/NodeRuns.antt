-- ===== src/Tests/NodeRuns.antt =====
-- Runs of the node's theorems.
use decentralized_identity_p.Prelude.{
  ◌≡◌, [], ◌∷◌, refl, ok, err, pos, some, none, ◌⊎◌, ◌≤ℤ◌, ◌>>=◌, split_dot, lookup, ◌*◌, ◌*ℤ◌,
  ◌+ℤ◌, ◌-ℤ◌,
}
use decentralized_identity_p.Protocol.{SignRequest, SignResponse}
use decentralized_identity_p.Jwt.{
  verify_jwt, verify_parts, parse_part, verify_ed25519, to_number, less_than,
}
use decentralized_identity_p.Dpop.{
  verify_dpop_proof, check_proof, check_header, check_payload, calculate_jwk_thumbprint, upper,
  decode_key, is_stale, differs_from,
}
use decentralized_identity_p.Crypto.Shamir.{mod_ℤ, bytes_to_bigint_le}
use decentralized_identity_p.Crypto.Hex.{scalar_to_hex}
use decentralized_identity_p.Crypto.Frost.{
  FrostError, compute_signature_share, compute_binding_factor, compute_group_commitment, group_loop,
  compute_challenge, to_scalar, lagrange_coefficient, coefficient_loop, mod_inverse, inverse_loop,
  sort_commitments, insert_commitment, commitment_bytes, to_byte,
}
use decentralized_identity_p.Node.{NodeError, token_endpoint, refresh_token_typ}
use decentralized_identity_p.Node.Credential.{
  CredentialClaims, verify_credential, verify_assertion, verify_refresh_token, read_claims,
  text_claim, number_claim, optional_text, scope_text, confirmation, of_jwt,
}
use decentralized_identity_p.Node.Sign.{
  handle_sign, check_sign, verify_presented, of_credential, of_dpop, check_claims, refresh_exp_of,
  sign_rounds, sign_tokens, share, spend, of_frost,
}
use decentralized_identity_p.Node.Verified.{
  IsGenuine, LivesAtMost, verify_assertion-IsGenuine, verify_refresh_token-IsGenuine,
  credential_kinds_disjoint,
}
use decentralized_identity_p.Node.Spending.{Spent, handle_sign_spends, handle_sign_error}
use decentralized_identity_p.Node.Issued.{IsIssued, handle_sign-IsIssued}
use decentralized_identity_p.Tests.Codec.{codec, write, read_from}
use decentralized_identity_p.Tests.Toy.{
  runtime, curve, node, clock, rounds, request, commitments, assertion, refresh, table, text_of,
  number_of,
}

abbrev pub claims : CredentialClaims
claims = record {
  iss = "https://id";
  sub = "alice";
  aud = some "https://id";
  client_id = "rp";
  scope = "openid";
  jkt = "b";
  nonce = none;
  iat = pos 1000000;
  exp = pos 1030000;
}

assertion_accepted : verify_assertion runtime 1010 node assertion ≡ ok claims
unfolding runtime table codec read_from write verify_assertion verify_credential verify_jwt
    verify_parts less_than to_number ◌>>=◌ verify_ed25519 parse_part split_dot read_claims
    text_claim number_claim optional_text scope_text confirmation of_jwt ◌*ℤ◌ ◌+ℤ◌ ◌-ℤ◌
assertion_accepted = refl

refresh_accepted : verify_refresh_token runtime 1010 node refresh ≡ ok claims
unfolding runtime table codec read_from write verify_refresh_token verify_credential verify_jwt
    verify_parts less_than to_number ◌>>=◌ verify_ed25519 parse_part split_dot read_claims
    text_claim number_claim optional_text scope_text confirmation of_jwt ◌*ℤ◌ ◌+ℤ◌ ◌-ℤ◌
refresh_accepted = refl

verify_assertion-IsGenuine_example :
    IsGenuine runtime 1010 node assertion "JWT" claims
    × (claims.aud ≡ some node.issuer)
    × LivesAtMost runtime 30 claims
    × ((claims.exp ≡ pos 0) ⊎ (pos 1000 *ℤ pos 1010 ≤ℤ claims.exp))
verify_assertion-IsGenuine_example =
    verify_assertion-IsGenuine runtime 1010 node assertion assertion_accepted

verify_refresh_token-IsGenuine_example :
    IsGenuine runtime 1010 node refresh refresh_token_typ claims
    × LivesAtMost runtime (86400 * 40) claims
    × ((claims.exp ≡ pos 0) ⊎ (pos 1000 *ℤ pos 1010 ≤ℤ claims.exp))
verify_refresh_token-IsGenuine_example =
    verify_refresh_token-IsGenuine runtime 1010 node refresh refresh_accepted

credential_kinds_disjoint_example : ¬ (verify_refresh_token runtime 1011 node assertion ≡ ok claims)
credential_kinds_disjoint_example =
    credential_kinds_disjoint runtime 1010 1011 node node assertion assertion_accepted

abbrev response : SignResponse
response = record {
  node_id = pos 1;
  at = record { commitment = commitments.access; z_i = scalar_to_hex 2 };
  rt = record { commitment = commitments.refresh; z_i = scalar_to_hex 3 };
}

signed : (handle_sign runtime curve clock rounds request commitments node).0 ≡ ok response
unfolding runtime table codec read_from write verify_assertion verify_credential verify_jwt
    verify_parts less_than to_number ◌>>=◌ verify_ed25519 parse_part split_dot read_claims
    text_claim number_claim optional_text scope_text confirmation of_jwt ◌*ℤ◌ ◌+ℤ◌ ◌-ℤ◌ handle_sign
    check_sign verify_presented of_credential of_dpop check_claims refresh_exp_of sign_rounds
    sign_tokens share spend of_frost compute_signature_share compute_binding_factor
    compute_group_commitment group_loop compute_challenge to_scalar lagrange_coefficient
    coefficient_loop mod_inverse inverse_loop sort_commitments insert_commitment commitment_bytes
    to_byte mod_ℤ bytes_to_bigint_le scalar_to_hex verify_dpop_proof check_proof check_header
    check_payload calculate_jwk_thumbprint upper decode_key is_stale differs_from token_endpoint
    curve text_of number_of lookup
signed = refl

handle_sign-IsIssued_example : IsIssued runtime curve clock rounds request commitments node response
handle_sign-IsIssued_example =
    handle_sign-IsIssued runtime curve clock rounds request commitments node signed

handle_sign_spends_example :
    Spent rounds node (handle_sign runtime curve clock rounds request commitments node).1
handle_sign_spends_example =
    handle_sign_spends runtime curve clock rounds request commitments node signed

-- A commitment that is no point: the rounds are spent and the signature fails.
abbrev broken : SignRequest
broken = record request {
  commitments = record { node_id = pos 1; d_point = []; e_point = 3 ∷ [] } ∷ [];
}

failed :
    (handle_sign runtime curve clock rounds broken commitments node).0
    ≡ err (NodeError.frost FrostError.bad_point)
unfolding runtime table codec read_from write verify_assertion verify_credential verify_jwt
    verify_parts less_than to_number ◌>>=◌ verify_ed25519 parse_part split_dot read_claims
    text_claim number_claim optional_text scope_text confirmation of_jwt ◌*ℤ◌ ◌+ℤ◌ ◌-ℤ◌ handle_sign
    check_sign verify_presented of_credential of_dpop check_claims refresh_exp_of sign_rounds
    sign_tokens share spend of_frost compute_signature_share compute_group_commitment group_loop
    verify_dpop_proof check_proof check_header check_payload calculate_jwk_thumbprint upper
    decode_key is_stale differs_from token_endpoint curve text_of number_of lookup
failed = refl

handle_sign_error_example :
    ((handle_sign runtime curve clock rounds broken commitments node).1 ≡ node)
    ⊎ (Spent rounds node (handle_sign runtime curve clock rounds broken commitments node).1
        × (f : FrostError) × (◌≡◌ {A = NodeError}
            (NodeError.frost FrostError.bad_point)
            (NodeError.frost f)))
handle_sign_error_example =
    handle_sign_error runtime curve clock rounds broken commitments node failed

pub assertion-IsGenuine : IsGenuine runtime 1010 node assertion "JWT" claims
assertion-IsGenuine = (verify_assertion-IsGenuine runtime 1010 node assertion assertion_accepted).0
