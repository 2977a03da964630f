-- ===== src/Tests/Toy.antt =====
-- A runtime, a curve and a node small enough to compute with. Tokens are three encoded bytes, whose
-- JSON is looked up in a table.
use decentralized_identity_p.Crypto.Toprf.{Group}
use decentralized_identity_p.Prelude.{
  ℕ, ◌*◌, ◌+◌, ◌%◌, pos, ◌^^◌, String, true, Option, none, some, [], ◌∷◌, str_eq, if◌then◌else◌,
}
use decentralized_identity_p.Js.{Js, str, obj, end, field, int}
use decentralized_identity_p.Runtime.{Bytes, Runtime}
use decentralized_identity_p.Protocol.{
  FrostCommitment, SignRequest, SignRounds, SignCommitments, Grant, SignOnRequest,
}
use decentralized_identity_p.Crypto.Frost.{Curve}
use decentralized_identity_p.Crypto.Aead.{Cipher}
use decentralized_identity_p.Node.{IdentityNode, UserRecord}
use decentralized_identity_p.Node.Sign.{Clock}
use decentralized_identity_p.Tests.Codec.{codec, write}

abbrev pub key_text : String
unfolding write
key_text = write (
    1 ∷ 1 ∷ 1 ∷ 1 ∷ 1 ∷ 1 ∷ 1 ∷ 1 ∷ 1 ∷ 1 ∷ 1 ∷ 1 ∷ 1 ∷ 1 ∷ 1 ∷ 1 ∷ 1 ∷ 1 ∷ 1 ∷ 1 ∷ 1 ∷ 1 ∷ 1 ∷ 1
    ∷ 1 ∷ 1 ∷ 1 ∷ 1 ∷ 1 ∷ 1 ∷ 1 ∷ 1 ∷ [])

abbrev pub assertion_header : Js
assertion_header = obj (field "alg" (str "EdDSA") (field "typ" (str "JWT") end))

abbrev pub renewal_header : Js
renewal_header = obj (field "alg" (str "EdDSA") (field "typ" (str "refresh+jwt") end))

abbrev pub key : Bytes
key =
    1 ∷ 1 ∷ 1 ∷ 1 ∷ 1 ∷ 1 ∷ 1 ∷ 1 ∷ 1 ∷ 1 ∷ 1 ∷ 1 ∷ 1 ∷ 1 ∷ 1 ∷ 1 ∷ 1 ∷ 1 ∷ 1 ∷ 1 ∷ 1 ∷ 1 ∷ 1 ∷ 1
    ∷ 1 ∷ 1 ∷ 1 ∷ 1 ∷ 1 ∷ 1 ∷ 1 ∷ 1 ∷ []

-- The payload serves for both kinds of credential.
abbrev pub credential_payload : Js
credential_payload = obj (
    field "iss" (str "https://id") (
      field "sub" (str "alice") (
        field "aud" (str "https://id") (
          field "client_id" (str "rp") (
            field "scope" (str "openid") (
              field "cnf" (obj (field "jkt" (str "b") end))
                (field "iat" (int (pos 1000)) (field "exp" (int (pos 1030)) end))))))))

abbrev pub proof_header : Js
proof_header = obj (
    field "typ" (str "dpop+jwt") (
      field "alg" (str "EdDSA") (
        field "jwk"
          (obj
            (field "kty" (str "OKP") (field "crv" (str "Ed25519") (field "x" (str key_text) end))))
          end)))

abbrev pub proof_payload : Js
proof_payload = obj (
    field "htm" (str "POST")
      (field "htu" (str "https://id/token") (field "iat" (int (pos 1000)) end)))

abbrev pub ageless_payload : Js
ageless_payload = obj (field "htm" (str "POST") (field "htu" (str "https://id/token") end))

unfoldable pub table : String → Option Js
table s =
    if str_eq s "b"
    then some assertion_header
    else if str_eq s "ab"
    then some renewal_header
    else if str_eq s "aab"
    then some credential_payload
    else if str_eq s "aaab"
    then some proof_header
    else if str_eq s "aaaab"
    then some proof_payload
    else if str_eq s "aaaaab"
    then some ageless_payload
    else none

unfoldable pub text_of : Js → String
text_of (str s) = "'" ^^ (s ^^ "'")
text_of v = "0"

-- The texts of the two JSON objects that are encoded, by number.
unfoldable pub number_of : String → Bytes
number_of s = if str_eq s "{'alg':'EdDSA','typ':'JWT'}" then 0 ∷ [] else 2 ∷ []

unfoldable pub runtime : Runtime
unfolding codec write table text_of number_of
runtime = record {
  base64url = codec;
  utf8_encode = number_of;
  utf8_decode = write;
  json_parse = table;
  json_stringify = text_of;
  to_upper_case = λ s. s;
  coerce = λ v. none;
  buffer_of = λ v. none;
  sha256 = λ bs. 0 ∷ [];
  sha512 = λ bs. key;
  ed25519_verify = λ s m k. some true;
}

-- The integers modulo 7.
unfoldable pub curve : Curve ℕ
curve = record {
  order = 7;
  origin = 0;
  base = 1;
  add = λ a b. (a + b) % 7;
  multiply = λ a n. some ((n * a) % 7);
  from_hex = λ bs. elim bs [ [] ↦ none | b ∷ _ ↦ some b ];
  to_raw_bytes = λ a. a ∷ [];
  sha512 = λ bs. 3 ∷ [];
}

abbrev pub assertion : String
assertion = "b.aab.b"

abbrev pub refresh : String
refresh = "ab.aab.b"

abbrev pub proof : String
proof = "aaab.aaaab.b"

abbrev pub ageless_proof : String
ageless_proof = "aaab.aaaaab.b"

abbrev pub node : IdentityNode
node = record {
  node_id = pos 1;
  secret_key_share = 4;
  group_public_key = 5 ∷ [];
  issuer = "https://id";
  key_id = "key";
  users = [];
  active_nonces = ("x", record { d = 2; e = 3 }) ∷ (("y", record { d = 4; e = 5 }) ∷ []);
}

abbrev pub clock : Clock
clock = record { at_credential = 1010; at_proof = 1010; at_claims = 1011 }

abbrev pub rounds : SignRounds
rounds = record { access_round_id = "x"; refresh_round_id = "y" }

abbrev pub own : FrostCommitment
own = record { node_id = pos 1; d_point = 2 ∷ []; e_point = 3 ∷ [] }

abbrev pub own_refresh : FrostCommitment
own_refresh = record { node_id = pos 1; d_point = 4 ∷ []; e_point = 5 ∷ [] }

abbrev pub commitments : SignCommitments
commitments = record {
  access = record { d_point = 2 ∷ []; e_point = 3 ∷ [] };
  refresh = record { d_point = 4 ∷ []; e_point = 5 ∷ [] };
}

abbrev pub request : SignRequest
request = record {
  grant = Grant.authorization_code;
  assertion = some assertion;
  refresh_token = none;
  dpop_proof = proof;
  claims = record { iat = pos 1000; exp = pos 1900; jti = "j" };
  refresh_exp = none;
  commitments = own ∷ [];
  refresh_commitments = own_refresh ∷ [];
  all_participants = pos 1 ∷ [];
}

-- The integers modulo 7 again, for the blinded points.
unfoldable pub ristretto : Group ℕ
ristretto = record {
  order = 7;
  origin = 0;
  add = λ a b. (a + b) % 7;
  hash_to_curve = λ bs. 2;
  from_bytes = λ bs. elim bs [ [] ↦ none | b ∷ _ ↦ some b ];
  multiply = λ a n. some ((n * a) % 7);
  to_raw_bytes = λ a. a ∷ [];
}

-- A cipher that hides nothing.
unfoldable pub cipher : Cipher
cipher = λ key nonce aad plaintext. plaintext

abbrev pub alice : UserRecord
alice = record {
  sub = "alice";
  username = "alice";
  toprf_key_share = record { id = pos 1; value = 3 };
  h_i = key;
}

-- The node, with a user.
abbrev pub home : IdentityNode
home = record node { users = ("alice", alice) ∷ [] }

abbrev pub sign_on_request : SignOnRequest
sign_on_request = record {
  session_id = "s";
  username = "alice";
  blinded = "aab";
  session_nonce = "ab";
  cnf_jkt = "b";
  client_id = "rp";
  scope = "openid";
  nonce = some "c";
  iat = pos 1000;
  exp = pos 1030;
  iss = "https://id";
  commitments = own ∷ [];
  all_participants = pos 1 ∷ [];
}
