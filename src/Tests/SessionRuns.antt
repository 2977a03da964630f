-- ===== src/Tests/SessionRuns.antt =====
-- Runs of the theorems on a node's sign-on and on sequences of its calls.
use decentralized_identity_p.Crypto.Toprf.{evaluate}
use decentralized_identity_p.Prelude.{
  ◌≡◌, ◌≢◌, eq_iff, ◌⊎◌, refl, ok, pos, [], ◌∷◌, ◌>>=◌, lookup, ◌*ℤ◌, ◌+ℤ◌, ◌-ℤ◌, List, String,
  arith,
}
use decentralized_identity_p.Protocol.{Commitment, SignOnResponse}
use decentralized_identity_p.Crypto.Aead.{aead_encrypt, derive_aead_nonce, u16_to_bytes_le}
use decentralized_identity_p.Crypto.Shamir.{mod_ℤ, bytes_to_bigint_le}
use decentralized_identity_p.Crypto.Hex.{decimal, digit_char}
use decentralized_identity_p.Crypto.Frost.{
  compute_signature_share, compute_binding_factor, compute_group_commitment, group_loop,
  compute_challenge, to_scalar, lagrange_coefficient, coefficient_loop, mod_inverse, inverse_loop,
  sort_commitments, insert_commitment, commitment_bytes, to_byte,
}
use decentralized_identity_p.Node.Sign.{of_frost}
use decentralized_identity_p.Node.SignOn.{
  check_sign_on, of_aead, spend_round, share_bundle, sign_assertion, sign_on_round, handle_sign_on,
}
use decentralized_identity_p.Node.Signing.{
  IsSignedOn, RoundSpent, handle_sign_on-IsSignedOn, handle_sign_on_spends,
}
use decentralized_identity_p.Node.Machine.{Call, commit, sign_on, sign, after, after_all}
use decentralized_identity_p.Node.Reuse.{SignsWith, nonces_sign_once}
use decentralized_identity_p.Tests.Codec.{codec, write, read_from}
use decentralized_identity_p.Tests.Toy.{
  runtime, curve, ristretto, cipher, home, sign_on_request, clock, rounds, request, commitments,
  table, text_of, number_of,
}

abbrev own : Commitment
own = record { d_point = 2 ∷ []; e_point = 3 ∷ [] }

abbrev answer : SignOnResponse
answer = record {
  node_id = pos 1;
  commitment = own;
  toprf_partial = "aaaaaab";
  ct_i = "aab";
  session_id = "s";
  sub = "alice";
}

answered :
    (handle_sign_on runtime curve ristretto cipher 1010 "x" sign_on_request own home).0 ≡ ok answer
unfolding handle_sign_on check_sign_on sign_on_round sign_assertion evaluate share_bundle
    spend_round of_aead aead_encrypt derive_aead_nonce u16_to_bytes_le of_frost
    compute_signature_share compute_binding_factor compute_group_commitment group_loop
    compute_challenge to_scalar lagrange_coefficient coefficient_loop mod_inverse inverse_loop
    sort_commitments insert_commitment commitment_bytes to_byte mod_ℤ bytes_to_bigint_le runtime
    curve ristretto cipher table text_of number_of codec read_from write lookup ◌>>=◌ ◌*ℤ◌ ◌+ℤ◌ ◌-ℤ◌
    decimal digit_char
answered = refl

handle_sign_on-IsSignedOn_example :
    IsSignedOn runtime curve ristretto cipher 1010 "x" sign_on_request own home
      (handle_sign_on runtime curve ristretto cipher 1010 "x" sign_on_request own home).1
      answer
handle_sign_on-IsSignedOn_example =
    handle_sign_on-IsSignedOn runtime curve ristretto cipher 1010 "x" sign_on_request own home
      answered

handle_sign_on_spends_example :
    ((handle_sign_on runtime curve ristretto cipher 1010 "x" sign_on_request own home).1 ≡ home)
    ⊎ RoundSpent "x" home
        (handle_sign_on runtime curve ristretto cipher 1010 "x" sign_on_request own home).1
handle_sign_on_spends_example =
    handle_sign_on_spends runtime curve ristretto cipher 1010 "x" sign_on_request own home

-- A sign-on, a commitment to another round, and a token request that names the first round again.
abbrev first : Call
first = sign_on 1010 "x" sign_on_request own

abbrev between : List Call
between = commit "z" 2 3 ∷ []

abbrev second : Call
second = sign clock rounds request commitments

other_round : ◌≢◌ {A = String} "z" "x"
other_round = ground (arith, eq_iff "z" "x")

nonces_sign_once_example : ¬ SignsWith runtime curve ristretto cipher "x" second (
    after_all runtime curve ristretto cipher between
      (after runtime curve ristretto cipher first home))
nonces_sign_once_example =
    nonces_sign_once runtime curve ristretto cipher "x" first between second home
      (refl, answer, answered) (other_round, tt)
