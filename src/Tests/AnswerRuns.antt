-- ===== src/Tests/AnswerRuns.antt =====
-- Answers of a node, read by the gateway, and the gateway's answer, read by the browser.
use decentralized_identity_p.Prelude.{◌≡◌, refl, pos, ok, arith, [], ◌∷◌}
use decentralized_identity_p.Protocol.{Commitment, SignOnResponse}
use decentralized_identity_p.Crypto.Hex.{scalar_to_hex}
use decentralized_identity_p.Gateway.SignOn.{SignOnResult}
use decentralized_identity_p.Wire.Response.{
  response, sign_response_to_wire, sign_response_from_wire,
}
use decentralized_identity_p.Wire.Answered.{IsPair, sign_response_lem}
use decentralized_identity_p.Tests.Codec.{codec, codec-IsBase64Url}
use decentralized_identity_p.Tests.WireRuns.{repeated, repeated-IsBytes}

abbrev pair : Commitment
pair = record { d_point = repeated 7 32; e_point = repeated 9 32 }

pair-IsPair : IsPair pair
unfolding repeated
pair-IsPair =
    ((repeated-IsBytes 7 32 (omega arith), repeated-IsBytes 9 32 (omega arith)), (refl, refl))

abbrev answer : SignOnResponse
answer = record {
  node_id = pos 2;
  commitment = pair;
  toprf_partial = "b";
  ct_i = "ab";
  session_id = "s";
  sub = "alice";
}

sign_response_lem_example :
    sign_response_from_wire codec
      (sign_response_to_wire codec (record {
        node_id = pos 2;
        at = record { commitment = pair; z_i = scalar_to_hex 1000 };
        rt = record { commitment = pair; z_i = scalar_to_hex 77 };
      }))
      response
    ≡ ok (record {
      node_id = pos 2;
      at = record { commitment = pair; z_i = 1000 };
      rt = record { commitment = pair; z_i = 77 };
    })
sign_response_lem_example =
    sign_response_lem codec codec-IsBase64Url (pos 2) pair pair 1000 77 response pair-IsPair
      pair-IsPair (omega arith) (omega arith)

abbrev delivered : SignOnResult
delivered = record {
  session_id = "s";
  commitments = (record { node_id = pos 2; d_point = pair.d_point; e_point = pair.e_point }) ∷ [];
  node_responses = answer ∷ [];
}
