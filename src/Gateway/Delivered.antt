-- ===== src/Gateway/Delivered.antt =====
-- What the gateway answers to a sign-on, the browser decodes: projects/gateway/src/gateway/wire.ts.
use decentralized_identity_p.Prelude.{◌≡◌, refl, List, [], ◌∷◌, map, All}
use decentralized_identity_p.Runtime.{IsBytes, Base64Url}
use decentralized_identity_p.Protocol.{Commitment, FrostCommitment, SignOnResponse}
use decentralized_identity_p.Wire.Shapes.{IsBase64Url}
use decentralized_identity_p.Gateway.SignOn.{SignOnResult}
use decentralized_identity_p.Gateway.Browser.{
  to_text, of_text, response_to_text, response_of_text, sign_on_result_to_wire,
  sign_on_result_from_wire,
}

-- The points of a result are byte strings, as every `Uint8Array` is.
abbrev pub IsBytePair : Commitment → Type 0
IsBytePair c = IsBytes c.d_point × IsBytes c.e_point

abbrev pub IsByteCommitment : FrostCommitment → Type 0
IsByteCommitment c = IsBytes c.d_point × IsBytes c.e_point

abbrev pub IsByteResponse : SignOnResponse → Type 0
IsByteResponse r = IsBytePair r.commitment

-- A list survives if every element does.
map-map-id {ℓ ℓ' κ} :
    {A : Type ℓ} {B : Type ℓ'} {P : A → Type κ} (f : A → B) (g : B → A)
    → ((a : A) → P a → g (f a) ≡ a)
    → (xs : List A) → All P xs
    → map g (map f xs) ≡ xs
map-map-id f g undo [] all = refl
map-map-id f g undo (x ∷ xs) (h, all) = simp (undo x h, map-map-id f g undo xs all)

module _ (b64 : Base64Url) (laws : IsBase64Url b64) where
  of_text-to_text : (c : FrostCommitment) → IsByteCommitment c → of_text b64 (to_text b64 c) ≡ c
  unfolding of_text to_text
  of_text-to_text c h = simp (laws.decode-encode c.d_point h.0, laws.decode-encode c.e_point h.1)

  response_of_text-response_to_text :
      (r : SignOnResponse) → IsByteResponse r → response_of_text b64 (response_to_text b64 r) ≡ r
  unfolding response_of_text response_to_text
  response_of_text-response_to_text r h =
      simp
        (laws.decode-encode r.commitment.d_point h.0, laws.decode-encode r.commitment.e_point h.1)

  -- A sign-on result reaches the browser as the gateway has it, in the same order, where its points are
  -- byte strings.
  pub from_wire-to_wire :
      (result : SignOnResult)
      → All IsByteCommitment result.commitments
      → All IsByteResponse result.node_responses
      → sign_on_result_from_wire b64 (sign_on_result_to_wire b64 result) ≡ result
  unfolding sign_on_result_from_wire sign_on_result_to_wire
  from_wire-to_wire result cs rs = simp (
    map-map-id (to_text b64) (of_text b64) of_text-to_text result.commitments cs,
    map-map-id (response_to_text b64) (response_of_text b64) response_of_text-response_to_text
        result.node_responses rs,
  )
