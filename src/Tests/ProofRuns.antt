-- ===== src/Tests/ProofRuns.antt =====
-- Runs of the theorems on tokens and DPoP proofs.
use decentralized_identity_p.Prelude.{
  ◌≡◌, refl, ok, pos, ◌>>=◌, split_dot, some, none, Option, String, str_eq, if◌then◌else◌, inr, [],
  ◌∷◌, arith, ◌*ℤ◌, ◌+ℤ◌, ◌-ℤ◌,
}
use decentralized_identity_p.Js.{Js, get, Fields, str, obj, end, field, int}
use decentralized_identity_p.Jwt.{
  verify_jwt, nothing_expected, parse_part, verify_ed25519, to_number, less_than,
  create_signing_input, assemble_jwt, deterministic_json_stringify, sort_keys, insert_key,
  property_texts, pair_texts, join_comma, verify_parts,
}
use decentralized_identity_p.Jwt.Verified.{IsVerified, verify_jwt-IsVerified}
use decentralized_identity_p.Runtime.{Bytes, Runtime}
use decentralized_identity_p.Jwt.Sorted.{sorted, sorted_fields, insert_field}
use decentralized_identity_p.Jwt.Assembled.{verify_jwt-assemble}
use decentralized_identity_p.Dpop.{
  verify_dpop_proof, check_proof, check_header, check_payload, calculate_jwk_thumbprint, upper,
  decode_key, is_stale, differs_from,
}
use decentralized_identity_p.Dpop.Verified.{
  IsProof, verify_dpop_proof-IsProof, missing_iat_never_stale,
}
use decentralized_identity_p.Node.{token_endpoint}
use decentralized_identity_p.Node.Sign.{proof_options}
use decentralized_identity_p.Tests.Codec.{codec, codec-IsBase64Url, write, read_from}
use decentralized_identity_p.Tests.Toy.{
  assertion, assertion_header, credential_payload, runtime, curve, node, proof, ageless_proof,
  proof_payload, table, text_of, number_of,
}
use decentralized_identity_p.Tests.NodeRuns.{claims}

proven :
    verify_dpop_proof runtime 1010 proof (proof_options runtime curve node claims)
    ≡ ok ("b", proof_payload)
unfolding runtime table codec read_from write ◌>>=◌ verify_ed25519 parse_part split_dot to_number
    verify_dpop_proof check_proof check_header check_payload calculate_jwk_thumbprint upper
    decode_key is_stale differs_from token_endpoint text_of number_of ◌*ℤ◌ ◌+ℤ◌ ◌-ℤ◌
proven = refl

verify_dpop_proof-IsProof_example :
    IsProof runtime 1010 proof (proof_options runtime curve node claims) "b" proof_payload
verify_dpop_proof-IsProof_example =
    verify_dpop_proof-IsProof runtime 1010 proof (proof_options runtime curve node claims) proven

-- The assertion, accepted as a token.
jwt_verified :
    verify_jwt runtime 1010 assertion (5 ∷ []) nothing_expected
    ≡ ok (assertion_header, credential_payload)
unfolding runtime table codec read_from write ◌>>=◌ verify_jwt verify_parts verify_ed25519
    parse_part split_dot to_number less_than ◌*ℤ◌ ◌+ℤ◌
jwt_verified = refl

verify_jwt-IsVerified_example :
    IsVerified runtime 1010 assertion (5 ∷ []) assertion_header credential_payload
verify_jwt-IsVerified_example =
    verify_jwt-IsVerified runtime 1010 assertion (5 ∷ []) nothing_expected jwt_verified

abbrev ageless_fields : Fields
ageless_fields = field "htm" (str "POST") (field "htu" (str "https://id/token") end)

ageless_parts : split_dot ageless_proof ≡ "aaab" ∷ ("aaaaab" ∷ ("b" ∷ []))
unfolding split_dot
ageless_parts = refl

ageless_parses : parse_part runtime "aaaaab" ≡ some (obj ageless_fields)
unfolding parse_part runtime table codec read_from write
ageless_parses = refl

missing_iat_never_stale_example :
    verify_dpop_proof runtime 1010 ageless_proof (proof_options runtime curve node claims)
    ≡ verify_dpop_proof runtime 999999 ageless_proof (proof_options runtime curve node claims)
missing_iat_never_stale_example =
    missing_iat_never_stale runtime 1010 999999 ageless_proof
      (proof_options runtime curve node claims) "aaab" "aaaaab" "b" ageless_fields ageless_parts
      ageless_parses refl

-- The proof without `iat` is accepted, at any time.
ageless_accepted :
    verify_dpop_proof runtime 999999 ageless_proof (proof_options runtime curve node claims)
    ≡ ok ("b", obj ageless_fields)
unfolding runtime table codec read_from write ◌>>=◌ verify_ed25519 parse_part split_dot to_number
    verify_dpop_proof check_proof check_header check_payload calculate_jwk_thumbprint upper
    decode_key is_stale differs_from token_endpoint text_of number_of ◌*ℤ◌ ◌+ℤ◌ ◌-ℤ◌
ageless_accepted = refl

abbrev header_fields : Fields
header_fields = field "alg" (str "EdDSA") (field "typ" (str "JWT") (field "kid" (str "k") end))

abbrev payload_fields : Fields
payload_fields = field "iss" (str "https://id") (
    field "sub" (str "alice") (
      field "aud" (str "https://id") (
        field "client_id" (str "rp") (
          field "scope" (str "openid") (
            field "cnf" (obj (field "jkt" (str "b") end))
              (field "iat" (int (pos 1000)) (field "exp" (int (pos 1030)) end)))))))

-- The texts of the two objects, with their properties in order.
abbrev header_text : String
header_text = "{'alg':'EdDSA','kid':'k','typ':'JWT'}"

abbrev payload_text : String
payload_text =
    "{'aud':'https://id','client_id':'rp','cnf':{'jkt':'b'},'exp':0,'iat':0,'iss':'https://id','scope':'openid','sub':'alice'}"

-- What is parsed from them.
abbrev parsed_header : Js
parsed_header =
    obj (field "alg" (str "EdDSA") (field "kid" (str "k") (field "typ" (str "JWT") end)))

abbrev parsed_payload : Js
parsed_payload = obj (
    field "aud" (str "https://id") (
      field "client_id" (str "rp") (
        field "cnf" (obj (field "jkt" (str "b") end)) (
          field "exp" (int (pos 1030)) (
            field "iat" (int (pos 1000)) (
              field "iss" (str "https://id")
                (field "scope" (str "openid") (field "sub" (str "alice") end))))))))

unfoldable bytes_of : String → Bytes
bytes_of s =
    if str_eq s header_text then 0 ∷ [] else if str_eq s payload_text then 2 ∷ [] else 3 ∷ []

unfoldable parsed : String → Option Js
parsed s =
    if str_eq s "b"
    then some parsed_header
    else if str_eq s "aab"
    then some parsed_payload
    else none

unfoldable reader : Runtime
unfolding runtime bytes_of parsed
reader = record runtime { utf8_encode = bytes_of; json_parse = parsed }

verify_jwt-assemble_example :
    (verify_jwt reader 1010
        (assemble_jwt reader
          ((create_signing_input reader (obj header_fields) (obj payload_fields)).header_b64)
          ((create_signing_input reader (obj header_fields) (obj payload_fields)).payload_b64)
          (7 ∷ []))
        (5 ∷ [])
        nothing_expected
      ≡ ok (obj (sorted_fields header_fields), obj (sorted_fields payload_fields)))
    × ((name : String) → get name (sorted_fields header_fields) ≡ sorted (get name header_fields))
    × ((name : String) → get name (sorted_fields payload_fields) ≡ sorted (get name payload_fields))
unfolding reader runtime bytes_of parsed codec read_from write parse_part text_of number_of
    deterministic_json_stringify sort_keys insert_key property_texts pair_texts join_comma sorted
    sorted_fields insert_field
verify_jwt-assemble_example =
    verify_jwt-assemble reader codec-IsBase64Url 1010 (5 ∷ []) (7 ∷ []) header_fields payload_fields
      refl refl refl (inr (pos 1030, refl, omega arith)) (omega arith, tt) refl
