-- ===== src/Tests/ClientRuns.antt =====
-- A run of the client on an answer of a node.
use decentralized_identity_p.Prelude.{
  ℕ, pos, ◌≡◌, refl, String, Option, none, some, [], ◌∷◌, ok, str_eq, if◌then◌else◌, ◌>>=◌, ◌*ℤ◌,
  ◌+ℤ◌, ◌-ℤ◌, arith, List,
}
use decentralized_identity_p.Js.{Js, str, obj, end, field}
use decentralized_identity_p.Runtime.{Runtime}
use decentralized_identity_p.Protocol.{Commitment, FrostNonces, SignOnResponse}
use decentralized_identity_p.Crypto.Aead.{derive_aead_nonce, u16_to_bytes_le}
use decentralized_identity_p.Crypto.Shamir.{mod_ℤ, bytes_to_bigint_le}
use decentralized_identity_p.Crypto.Hex.{decimal, digit_char}
use decentralized_identity_p.Crypto.Toprf.{derive_server_key}
use decentralized_identity_p.Crypto.Frost.{
  compute_signature_share, compute_binding_factor, compute_group_commitment, group_loop,
  compute_challenge, to_scalar, lagrange_coefficient, coefficient_loop, mod_inverse, inverse_loop,
  sort_commitments, insert_commitment, commitment_bytes, to_byte,
}
use decentralized_identity_p.Jwt.{create_signing_input}
use decentralized_identity_p.Wire.Shapes.{IsBase64Url}
use decentralized_identity_p.Node.{IdentityNode}
use decentralized_identity_p.Node.SignOn.{share_bundle}
use decentralized_identity_p.Node.SignedOn.{IsSealed}
use decentralized_identity_p.Gateway.Commitments.{Collected}
use decentralized_identity_p.Gateway.SignOn.{sign_on_request}
use decentralized_identity_p.Client.{
  Config, Options, Decipher, client_header, client_payload, sign_on_body, open_shares, sub_of,
}
use decentralized_identity_p.Client.Opened.{IsChannel}
use decentralized_identity_p.Client.Shares.{
  Answerer, IsAnswering, AreShares, open_shares-IsAnswering,
}
use decentralized_identity_p.Tests.Codec.{codec, codec-IsBase64Url, write, read_from}
use decentralized_identity_p.Tests.Toy.{
  runtime, curve, ristretto, cipher, home, alice, own, table, text_of, number_of,
}

-- The text "aab", which stands for the share's JSON, is an object with the share 2.
unfoldable parse : String → Option Js
parse s = if str_eq s "aab" then some (obj (field "z_i" (str "2") end)) else none

unfoldable browser : Runtime
unfolding runtime parse
browser = record runtime { json_parse = parse }

unfoldable decipher : Decipher
decipher = λ key nonce aad ciphertext. some ciphertext

unfoldable to_bigint : Js → Option ℕ
to_bigint (str s) = if str_eq s "2" then some 2 else none
to_bigint v = none

abbrev front : IdentityNode
front = record home { key_id = "pasta-group-key-1" }

abbrev config : Config
config = record { issuer = "https://id"; cnf_jkt = "b" }

abbrev options : Options
options = record {
  username = "alice";
  password = "p";
  client_id = "rp";
  scope = "openid";
  nonce = "c";
  participants = none;
}

abbrev collected : Collected
collected = record { commitments = own ∷ []; participants = pos 1 ∷ []; excluded = [] }

abbrev nonces : FrostNonces
nonces = record { d = 2; e = 3 }

abbrev commitment : Commitment
commitment = record { d_point = 2 ∷ []; e_point = 3 ∷ [] }

abbrev answer : SignOnResponse
answer = record {
  node_id = pos 1;
  commitment = commitment;
  toprf_partial = "aaaaaab";
  ct_i = "aab";
  session_id = "s";
  sub = "alice";
}

sealed :
    IsSealed browser curve ristretto cipher front alice
      (sign_on_request
        (sign_on_body browser ristretto config options 1000 2 (1 ∷ []))
        "s"
        collected)
      nonces
      commitment
      answer
unfolding browser runtime curve ristretto cipher codec write read_from table text_of number_of
    sign_on_request sign_on_body compute_signature_share compute_binding_factor
    compute_group_commitment group_loop compute_challenge to_scalar lagrange_coefficient
    coefficient_loop mod_inverse inverse_loop sort_commitments insert_commitment commitment_bytes
    to_byte mod_ℤ bytes_to_bigint_le derive_aead_nonce u16_to_bytes_le share_bundle decimal
    digit_char ◌>>=◌ ◌*ℤ◌ ◌+ℤ◌ ◌-ℤ◌
sealed = record {
  blinded = 2;
  decoded = refl;
  partial = 6;
  evaluated = refl;
  partial_sent = refl;
  z = 2;
  signed = refl;
  key_length = refl;
  nonce_length = refl;
  sealed = refl;
  node_id = refl;
  own_commitment = refl;
  session = refl;
  sub = refl;
}

channel : IsChannel browser curve ristretto cipher decipher to_bigint 2
unfolding browser runtime curve ristretto cipher decipher to_bigint parse codec write read_from
    table text_of number_of share_bundle decimal digit_char
channel = record {
  opens = λ key nonce aad. refl;
  cipher_bytes = λ key nonce aad. (omega arith, tt);
  parses = refl;
  reads = refl;
}

derived : derive_server_key browser ristretto (9 ∷ []) front.node_id ≡ alice.h_i
unfolding derive_server_key browser runtime u16_to_bytes_le
derived = refl

base64url : IsBase64Url browser.base64url
unfolding browser runtime
base64url = codec-IsBase64Url

abbrev answerer : Answerer
answerer = record {
  node = front;
  user = alice;
  nonces = nonces;
  commitment = commitment;
  res = answer;
}

answering :
    IsAnswering browser curve ristretto cipher decipher to_bigint config options 1000 2
      (1 ∷ [])
      "s"
      collected
      (9 ∷ [])
      "alice"
      answerer
unfolding sealed
answering = record {
  sealed = sealed;
  issuer = refl;
  key_id = refl;
  keyed = derived;
  same_sub = refl;
  channel = channel;
}

open_shares-IsAnswering_example :
    let input =
      (create_signing_input browser client_header
        (client_payload config options 1000 (sub_of options (answer ∷ [])))).signing_input in
    (zs : List ℕ) × (open_shares browser ristretto decipher to_bigint
        (9 ∷ [])
        (1 ∷ [])
        input
        (answer ∷ [])
      ≡ ok zs)
    × AreShares browser curve ristretto cipher decipher to_bigint config options 1000 2
        (1 ∷ [])
        "s"
        collected
        (9 ∷ [])
        input
        (answerer ∷ [])
        zs
open_shares-IsAnswering_example =
    open_shares-IsAnswering browser curve ristretto cipher decipher to_bigint config options 1000 2
      (1 ∷ []) "s" collected (9 ∷ []) base64url "alice" answerer [] refl (omega arith, tt)
      (answering, tt)
