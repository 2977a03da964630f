-- ===== src/Wire/Answered.antt =====
-- What a node answers, the gateway decodes to the same answer, the shares as numbers.
use decentralized_identity_p.Prelude.{
  ℕ, ◌<◌, ◌^◌, ℤ, ◌≡◌, ◌≢◌, refl, sym, ap, ◌∙◌, String, true, Bool-cases, inl, inr, length, [],
  arith, is_empty, some, ok, ◌>>=◌,
}
use decentralized_identity_p.Js.{str}
use decentralized_identity_p.Runtime.{Bytes, IsBytes, Base64Url}
use decentralized_identity_p.Protocol.{Commitment, SignOnResponse}
use decentralized_identity_p.Crypto.Hex.{scalar_to_hex, decode_scalar}
use decentralized_identity_p.Crypto.Encoded.{decode_scalar-scalar_to_hex}
use decentralized_identity_p.Wire.{Place, require_object, require_integer}
use decentralized_identity_p.Wire.Shapes.{IsBase64Url, IsNonEmpty}
use decentralized_identity_p.Wire.RoundTrip.{non_empty-str}
use decentralized_identity_p.Wire.Response.{
  read_scalar, commitment_pair_to_wire, sign_on_response_to_wire, share_to_wire,
  sign_response_to_wire, read_point, read_pair, sign_on_response_from_wire, signed_share_from_wire,
  sign_response_from_wire,
}

-- Two points of 32 bytes.
abbrev pub IsPair : Commitment → Type 0
IsPair c =
    (IsBytes c.d_point × IsBytes c.e_point) × ((length c.d_point ≡ 32) × (length c.e_point ≡ 32))

-- The texts of a sign-on response that must not be empty, and its points.
pub record IsAnswer (res : SignOnResponse) : Type 0 where
  pub pair : IsPair res.commitment
  pub toprf_partial : IsNonEmpty res.toprf_partial
  pub ct_i : IsNonEmpty res.ct_i
  pub session_id : IsNonEmpty res.session_id
  pub sub : IsNonEmpty res.sub

empty_text : (s : String) → is_empty s ≡ true → s ≡ ""
empty_text String.[] h = refl
empty_text (String.◌∷◌ c s) h = cc

decode_scalar-IsNonEmpty : (s : String) (n : ℕ) → decode_scalar s ≡ some n → IsNonEmpty s
unfolding decode_scalar
decode_scalar-IsNonEmpty String.[] n h = cc
decode_scalar-IsNonEmpty (String.◌∷◌ c s) n h = refl

read_scalar-eq :
    (place : Place) (s : String) (n : ℕ)
    → decode_scalar s ≡ some n
    → read_scalar place (str s) ≡ ok n
unfolding read_scalar ◌>>=◌
read_scalar-eq place s n h = rw (non_empty-str place s (decode_scalar-IsNonEmpty s n h)) (rw h refl)

too_short : ◌≢◌ {A = ℕ} 0 32
too_short = λ h. omega arith

module _ (b64 : Base64Url) (laws : IsBase64Url b64) where
  encode-IsNonEmpty : (p : Bytes) → IsBytes p → length p ≡ 32 → IsNonEmpty (b64.encode p)
  encode-IsNonEmpty p h long = elim (Bool-cases (is_empty (b64.encode p))) [
    | inr there ↦ there
    | inl empty ↦
        let none_left : p ≡ [] =
          sym (laws.decode-encode p h) ∙ (ap b64.decode (empty_text _ empty) ∙ laws.decode-empty) in
        absurd (too_short (sym (ap length none_left) ∙ long))
  ]

  read_point-encode :
      (place : Place) (p : Bytes)
      → IsBytes p
      → length p ≡ 32
      → read_point b64 place (str (b64.encode p)) ≡ ok p
  unfolding read_point ◌>>=◌
  read_point-encode place p h e = simp (
    non_empty-str place (b64.encode p) (encode-IsNonEmpty p h e),
    laws.in_alphabet p,
    laws.decode-encode p h,
    e,
  )

  read_pair-encode :
      (place : Place) (c : Commitment)
      → IsPair c
      → read_pair b64 place (commitment_pair_to_wire b64 c) ≡ ok c
  unfolding read_pair commitment_pair_to_wire require_object ◌>>=◌
  read_pair-encode place c h =
      simp (read_point-encode _ c.d_point h.0.0 h.1.0, read_point-encode _ c.e_point h.0.1 h.1.1)

  -- A node's answer to `/sign-on` arrives at the gateway as it was sent, where its texts are not empty
  -- and its commitment is two points of 32 bytes.
  pub sign_on_response_lem :
      (res : SignOnResponse) (place : Place)
      → IsAnswer res
      → sign_on_response_from_wire b64 (sign_on_response_to_wire b64 res) place ≡ ok res
  unfolding sign_on_response_from_wire sign_on_response_to_wire commitment_pair_to_wire
      require_object require_integer ◌>>=◌
  sign_on_response_lem res place h = simp (
    read_point-encode _ res.commitment.d_point h.pair.0.0 h.pair.1.0,
    read_point-encode _ res.commitment.e_point h.pair.0.1 h.pair.1.1,
    non_empty-str,
    h.toprf_partial,
    h.ct_i,
    h.session_id,
    h.sub,
  )

  signed_share_lem :
      (c : Commitment) (z : ℕ) (place : Place)
      → IsPair c
      → z < 16 ^ 64
      → signed_share_from_wire b64
          (share_to_wire b64 (record { commitment = c; z_i = scalar_to_hex z }))
          place
        ≡ ok (record { commitment = c; z_i = z })
  unfolding signed_share_from_wire share_to_wire require_object ◌>>=◌
  signed_share_lem c z place h small = simp (
    read_pair-encode _ c h,
    read_scalar-eq _ (scalar_to_hex z) z (decode_scalar-scalar_to_hex z small),
  )

  -- A node's answer to `/sign` arrives at the gateway with the same id and commitments and with the two
  -- shares as the numbers that the node has written, where the commitments are points of 32 bytes and
  -- the shares are below 16 ^ 64.
  pub sign_response_lem :
      (node_id : ℤ) (access refresh : Commitment) (at rt : ℕ) (place : Place)
      → IsPair access
      → IsPair refresh
      → at < 16 ^ 64
      → rt < 16 ^ 64
      → sign_response_from_wire b64
          (sign_response_to_wire b64 (record {
            node_id = node_id;
            at = record { commitment = access; z_i = scalar_to_hex at };
            rt = record { commitment = refresh; z_i = scalar_to_hex rt };
          }))
          place
        ≡ ok (record {
          node_id = node_id;
          at = record { commitment = access; z_i = at };
          rt = record { commitment = refresh; z_i = rt };
        })
  unfolding sign_response_from_wire sign_response_to_wire require_object require_integer ◌>>=◌
  sign_response_lem node_id access refresh at rt place h k small small' =
      simp (signed_share_lem access at _ h small, signed_share_lem refresh rt _ k small')
