-- ===== src/Wire/Shapes.antt =====
-- What holds of a request that travels: the texts that must not be empty are not, and every
-- commitment is two points of 32 bytes.
use decentralized_identity_p.Prelude.{
  ◌≡◌, String, true, false, Option, none, some, [], All, length, is_empty,
}
use decentralized_identity_p.Runtime.{Bytes, IsBytes, Base64Url}
use decentralized_identity_p.Protocol.{
  FrostCommitment, SignOnRequest, Grant, authorization_code, SignRequest,
}
use decentralized_identity_p.Wire.{is_base64url}

-- What the program relies on of `Buffer`: the encoder writes its alphabet, and is undone; the empty
-- text has no bytes.
pub record IsBase64Url (b64 : Base64Url) : Type 0 where
  pub in_alphabet : (bs : Bytes) → is_base64url (b64.encode bs) ≡ true
  pub decode-encode : (bs : Bytes) → IsBytes bs → b64.decode (b64.encode bs) ≡ bs
  pub decode-empty : b64.decode "" ≡ []

abbrev pub IsNonEmpty : String → Type 0
IsNonEmpty s = is_empty s ≡ false

abbrev pub Has32Bytes : FrostCommitment → Type 0
Has32Bytes c = (length c.d_point ≡ 32) × (length c.e_point ≡ 32)

-- The points are byte strings, as every `Uint8Array` is.
abbrev pub IsPoints : FrostCommitment → Type 0
IsPoints c = IsBytes c.d_point × IsBytes c.e_point × Has32Bytes c

-- What the node requires of a `SignOnRequest`, over a requirement `P` on the commitments.
pub record IsSignOn (P : FrostCommitment → Type 0) (req : SignOnRequest) : Type 0 where
  pub session_id : IsNonEmpty req.session_id
  pub username : IsNonEmpty req.username
  pub blinded : IsNonEmpty req.blinded
  pub session_nonce : IsNonEmpty req.session_nonce
  pub cnf_jkt : IsNonEmpty req.cnf_jkt
  pub client_id : IsNonEmpty req.client_id
  pub iss : IsNonEmpty req.iss
  pub commitments : All P req.commitments

-- The credential that the grant names is there, and the other one is not.
abbrev pub IsCredential : Grant → Option String → Option String → Type 0
IsCredential authorization_code assertion refresh =
    ((s : String) × (assertion ≡ some s) × IsNonEmpty s) × (refresh ≡ none)
IsCredential Grant.refresh_token assertion refresh =
    ((s : String) × (refresh ≡ some s) × IsNonEmpty s) × (assertion ≡ none)

pub record IsSign (P : FrostCommitment → Type 0) (req : SignRequest) : Type 0 where
  pub dpop_proof : IsNonEmpty req.dpop_proof
  pub jti : IsNonEmpty req.claims.jti
  pub credential : IsCredential req.grant req.assertion req.refresh_token
  pub commitments : All P req.commitments
  pub refresh_commitments : All P req.refresh_commitments
