-- ===== src/Tests/DealerRuns.antt =====
-- A deployment of two nodes and one user, dealt, read and started.
use decentralized_identity_p.Prelude.{
  ℕ, ◌%◌, pos, ◌≡◌, refl, none, some, [], ◌∷◌, ok, err, ◌>>=◌, includes, ◌*ℤ◌, ◌-ℤ◌, arith,
}
use decentralized_identity_p.Crypto.Aead.{u16_to_bytes_le}
use decentralized_identity_p.Crypto.Hex.{
  digit_char, digit_text, digits, digits_onto, pad_start, scalar_to_hex, zeros,
}
use decentralized_identity_p.Crypto.Shamir.{
  bytes_le, horner, invert, lagrange_coeff, lagrange_loop, mod_pow, mod_pow_loop, mod_ℤ, share_at,
  shares_from, split_secret,
}
use decentralized_identity_p.Crypto.Toprf
use decentralized_identity_p.Crypto.Toprf.{
  generate_toprf_key, blind, evaluate, combine_points, derive_server_key, finalize, hash_to_group,
  u64_to_bytes_le, unblind,
}
use decentralized_identity_p.Config.{bytes_to_hex}
use decentralized_identity_p.Crypto.Frost.{Curve, evaluate_loop}
use decentralized_identity_p.Dealer.{DealerOptions, DealerOutput, Draws, Deals}
use decentralized_identity_p.Dealer.Options.{checked_options, check_users}
use decentralized_identity_p.Dealer.Records.{
  all_records, user_records, of_shamir, derive_h, partials_of, of_toprf, checked_hex, no_records,
  push_records, records_from, share_of,
}
use decentralized_identity_p.Dealer.Output.{generate_dealer_output, deal, frost_share, node_files}
use decentralized_identity_p.Dealer.Columns.{IsHash}
use decentralized_identity_p.Dealer.Deployed.{IsEncoding, IsDealt, generate_dealer_output-IsDealt}
use decentralized_identity_p.Tests.Toy.{runtime, curve, ristretto, table, text_of, number_of}
use decentralized_identity_p.Tests.Codec.{codec, write}

-- The integers modulo 7, written in 32 bytes.
abbrev wide : Curve ℕ
unfolding curve
wide = record curve {
  to_raw_bytes = λ a.
      (a % 256)
      ∷ 0
      ∷ 0
      ∷ 0
      ∷ 0
      ∷ 0
      ∷ 0
      ∷ 0
      ∷ 0
      ∷ 0
      ∷ 0
      ∷ 0
      ∷ 0
      ∷ 0
      ∷ 0
      ∷ 0
      ∷ 0
      ∷ 0
      ∷ 0
      ∷ 0
      ∷ 0
      ∷ 0
      ∷ 0
      ∷ 0
      ∷ 0
      ∷ 0
      ∷ 0
      ∷ 0
      ∷ 0
      ∷ 0
      ∷ 0
      ∷ 0
      ∷ [];
}

runtime-IsHash : IsHash runtime
unfolding runtime
runtime-IsHash bs = (omega arith, omega arith)

wide-IsEncoding : IsEncoding wide
unfolding wide
wide-IsEncoding p = (omega arith, refl)

abbrev options : DealerOptions
options = record {
  threshold = some (pos 2, 0);
  total = some (pos 2, 0);
  key_id = none;
  users = some (record { username = "alice"; password = "p"; sub = "usr" } ∷ []);
}

abbrev draws : Draws
draws = record {
  master_secret = 3;
  coeffs = 2 ∷ [];
  users = λ i. record { master_key = 3; coeffs = 2 ∷ []; blinding = 2 };
}

abbrev nothing : DealerOutput
nothing = record {
  group = record { version = 0; threshold = 0; total = 0; key_id = ""; group_public_key = "" };
  nodes = [];
}

abbrev output_of : Deals DealerOutput → DealerOutput
output_of (ok out) = out
output_of (err e) = nothing

abbrev dealt : DealerOutput
dealt = output_of (generate_dealer_output runtime wide ristretto draws options)

dealt-ok : generate_dealer_output runtime wide ristretto draws options ≡ ok dealt
unfolding generate_dealer_output ◌>>=◌ checked_options check_users includes deal wide all_records
    user_records of_shamir generate_toprf_key split_secret derive_h blind ristretto partials_of
    evaluate of_toprf bytes_to_hex u16_to_bytes_le evaluate_loop digit_char digit_text digits
    digits_onto pad_start scalar_to_hex zeros bytes_le horner invert lagrange_coeff lagrange_loop
    mod_pow mod_pow_loop mod_ℤ share_at shares_from combine_points derive_server_key finalize
    hash_to_group u64_to_bytes_le unblind checked_hex frost_share no_records node_files push_records
    records_from share_of ◌*ℤ◌ ◌-ℤ◌ curve runtime codec write table text_of number_of
    Toprf.of_shamir
dealt-ok = refl

generate_dealer_output-IsDealt_example : IsDealt wide draws ("alice" ∷ []) dealt
generate_dealer_output-IsDealt_example =
    generate_dealer_output-IsDealt runtime runtime-IsHash wide wide-IsEncoding ristretto draws
      options dealt-ok
