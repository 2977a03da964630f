-- ===== src/Tests/WireRuns.antt =====
-- Bodies that the gateway sends, read back by a node.
use decentralized_identity_p.Prelude.{
  ℕ, zero, suc, ◌<◌, ◌≡◌, ◌≢◌, refl, ok, pos, none, some, [], ◌∷◌, arith,
}
use decentralized_identity_p.Runtime.{Bytes, IsBytes}
use decentralized_identity_p.Protocol.{FrostCommitment, SignOnRequest, SignRequest}
use decentralized_identity_p.Wire.Request.{sign_on_envelope_from_wire, sign_envelope_from_wire}
use decentralized_identity_p.Wire.Encode.{sign_on_envelope_to_wire, sign_envelope_to_wire}
use decentralized_identity_p.Wire.Shapes.{IsNonEmpty, Has32Bytes, IsPoints, IsSignOn, IsSign}
use decentralized_identity_p.Wire.RoundTrip.{sign_on_envelope_lem, sign_envelope_lem}
use decentralized_identity_p.Wire.Sound.{sign_envelope_from_wire-IsSign}
use decentralized_identity_p.Tests.Codec.{codec, codec-IsBase64Url}
use decentralized_identity_p.Tests.Toy.{request, rounds}

unfoldable pub repeated : ℕ → ℕ → Bytes
repeated b zero = []
repeated b (suc n) = b ∷ repeated b n

pub repeated-IsBytes : (b n : ℕ) → b < 256 → IsBytes (repeated b n)
unfolding repeated
repeated-IsBytes b zero h = tt
repeated-IsBytes b (suc n) h = (h, repeated-IsBytes b n h)

abbrev point : Bytes
point = repeated 7 32

abbrev commitment : FrostCommitment
commitment = record { node_id = pos 2; d_point = point; e_point = repeated 9 32 }

commitment-IsPoints : IsPoints commitment
unfolding repeated
commitment-IsPoints =
    (repeated-IsBytes 7 32 (omega arith), repeated-IsBytes 9 32 (omega arith), (refl, refl))

abbrev wired : SignRequest
wired = record request {
  refresh_exp = some (pos 90000);
  commitments = commitment ∷ [];
  refresh_commitments = commitment ∷ (commitment ∷ []);
}

wired-IsSign : IsSign IsPoints wired
wired-IsSign = record {
  dpop_proof = refl;
  jti = refl;
  credential = (("b.aab.b", refl, refl), refl);
  commitments = (commitment-IsPoints, tt);
  refresh_commitments = (commitment-IsPoints, (commitment-IsPoints, tt));
}

sign_envelope_lem_example :
    sign_envelope_from_wire codec (sign_envelope_to_wire codec rounds wired) ≡ ok (rounds, wired)
sign_envelope_lem_example =
    sign_envelope_lem codec codec-IsBase64Url rounds wired refl refl refl wired-IsSign

arrived :
    sign_envelope_from_wire codec (sign_envelope_to_wire codec rounds wired) ≡ ok (rounds, wired)
arrived = sign_envelope_lem codec codec-IsBase64Url rounds wired refl refl refl wired-IsSign

sign_envelope_from_wire-IsSign_example :
    IsNonEmpty rounds.access_round_id
    × IsNonEmpty rounds.refresh_round_id
    × (rounds.access_round_id ≢ rounds.refresh_round_id)
    × IsSign Has32Bytes wired
sign_envelope_from_wire-IsSign_example =
    sign_envelope_from_wire-IsSign codec (sign_envelope_to_wire codec rounds wired) arrived

abbrev sign_on : SignOnRequest
sign_on = record {
  session_id = "s";
  username = "alice";
  blinded = "abc";
  session_nonce = "n";
  cnf_jkt = "k";
  client_id = "rp";
  scope = "";
  nonce = none;
  iat = pos 1000;
  exp = pos 1030;
  iss = "https://id";
  commitments = commitment ∷ [];
  all_participants = pos 1 ∷ (pos 2 ∷ []);
}

sign_on-IsSignOn : IsSignOn IsPoints sign_on
sign_on-IsSignOn = record {
  session_id = refl;
  username = refl;
  blinded = refl;
  session_nonce = refl;
  cnf_jkt = refl;
  client_id = refl;
  iss = refl;
  commitments = (commitment-IsPoints, tt);
}

sign_on_envelope_lem_example :
    sign_on_envelope_from_wire codec (sign_on_envelope_to_wire codec "round" sign_on)
    ≡ ok ("round", sign_on)
sign_on_envelope_lem_example =
    sign_on_envelope_lem codec codec-IsBase64Url "round" sign_on refl sign_on-IsSignOn

sign_on_arrived :
    sign_on_envelope_from_wire codec (sign_on_envelope_to_wire codec "round" sign_on)
    ≡ ok ("round", sign_on)
sign_on_arrived = sign_on_envelope_lem codec codec-IsBase64Url "round" sign_on refl sign_on-IsSignOn
