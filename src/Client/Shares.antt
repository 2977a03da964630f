-- ===== src/Client/Shares.antt =====
-- The client of projects/demo/src/sdk/client.ts opens the shares of a whole answer, over the assertion
-- that it rebuilds with the subject of the first response.
use decentralized_identity_p.Prelude.{
  ℕ, ◌≡◌, refl, sym, subst, ◌∙◌, String, false, is_empty, Option, List, [], ◌∷◌, All, ok, >>=-ok,
}
use decentralized_identity_p.Js.{Js}
use decentralized_identity_p.Runtime.{Bytes, IsBytes, Runtime}
use decentralized_identity_p.Protocol.{Commitment, FrostNonces, SignOnRequest, SignOnResponse}
use decentralized_identity_p.Crypto.Aead.{Cipher}
use decentralized_identity_p.Crypto.Frost.{Curve, compute_signature_share}
use decentralized_identity_p.Crypto.Toprf.{Group, derive_server_key}
use decentralized_identity_p.Jwt.{create_signing_input}
use decentralized_identity_p.Wire.Shapes.{IsBase64Url}
use decentralized_identity_p.Node.{IdentityNode, UserRecord}
use decentralized_identity_p.Node.SignedOn.{IsSealed}
use decentralized_identity_p.Gateway.Commitments.{Collected}
use decentralized_identity_p.Gateway.SignOn.{sign_on_request}
use decentralized_identity_p.Client.{
  Config, Options, Decipher, sub_of, client_header, client_payload, sign_on_body, open_shares,
}
use decentralized_identity_p.Client.Opened.{IsChannel, open_share-IsSealed}

-- A node, its record of the user, the nonces and the commitment of its round, and what it answered.
pub record Answerer : Type 0 where
  pub node : IdentityNode
  pub user : UserRecord
  pub nonces : FrostNonces
  pub commitment : Commitment
  pub res : SignOnResponse

abbrev pub responses_of : List Answerer → List SignOnResponse
responses_of [] = []
responses_of (a ∷ others) = a.res ∷ responses_of others

module _ (rt : Runtime) {Point : Type 0} (curve : Curve Point) {Blind : Type 0}
    (group : Group Blind) (cipher : Cipher) (decipher : Decipher) (to_bigint : Js → Option ℕ)
    (config : Config) (options : Options) (now : ℕ) (blinded : Blind) (session_nonce : Bytes)
    (session_id : String) (collected : Collected) (h : Bytes) where
  abbrev request : SignOnRequest
  request =
      sign_on_request (sign_on_body rt group config options now blinded session_nonce) session_id
        collected

  -- The node has answered the client's request for a user of this subject, its issuer is the client's, its
  -- key id is the one that the client writes, and the client has derived the user's key.
  pub record IsAnswering (sub : String) (a : Answerer) : Type 0 where
    pub sealed : IsSealed rt curve group cipher a.node a.user request a.nonces a.commitment a.res
    pub issuer : config.issuer ≡ a.node.issuer
    pub key_id : a.node.key_id ≡ "pasta-group-key-1"
    pub keyed : derive_server_key rt group h a.node.node_id ≡ a.user.h_i
    pub same_sub : sub ≡ a.user.sub
    pub channel : IsChannel rt curve group cipher decipher to_bigint sealed.z

  -- Each number is the node's share of the signature over the input.
  abbrev pub AreShares : Bytes → List Answerer → List ℕ → Type 0
  AreShares input [] [] = Unit
  AreShares input [] (z ∷ zs) = ⊥
  AreShares input (a ∷ others) [] = ⊥
  AreShares input (a ∷ others) (z ∷ zs) =
      (compute_signature_share curve a.node.node_id a.nonces a.node.secret_key_share input
          collected.commitments a.node.group_public_key collected.participants
        ≡ ok z)
      × AreShares input others zs

  -- The bytes that the client rebuilds with a subject.
  abbrev rebuilt_with : String → Bytes
  rebuilt_with sub =
      (create_signing_input rt client_header (client_payload config options now sub)).signing_input

  open_shares-sub :
      (b64 : IsBase64Url rt.base64url) (sub : String) (others : List Answerer)
      → IsBytes session_nonce
      → All (IsAnswering sub) others
      → (zs : List ℕ) × (open_shares rt group decipher to_bigint h session_nonce
            (rebuilt_with sub)
            (responses_of others)
          ≡ ok zs)
        × AreShares (rebuilt_with sub) others zs
  unfolding open_shares
  open_shares-sub b64 sub [] bytes g = ([], refl, tt)
  open_shares-sub b64 sub (a ∷ others) bytes (g, gs) =
      let (z, opened, signed) =
        open_share-IsSealed rt curve group cipher decipher to_bigint b64 a.node a.user config
          options now blinded session_nonce session_id collected a.nonces a.commitment h sub
          g.sealed g.issuer g.key_id g.keyed bytes g.channel g.same_sub in
      let (zs, rest, signed_rest) = open_shares-sub b64 sub others bytes gs in
      (z ∷ zs, >>=-ok _ opened (>>=-ok _ rest refl), (signed, signed_rest))

  first_sub :
      (sub : String) (a : Answerer) (others : List Answerer)
      → is_empty sub ≡ false
      → IsAnswering sub a
      → sub_of options (responses_of (a ∷ others)) ≡ sub
  unfolding sub_of
  first_sub sub a others given g =
      let same : a.res.sub ≡ sub = g.sealed.sub ∙ sym g.same_sub in rw same (rw given refl)

  -- If nodes, one or more, have answered the client's request for their users of one subject that is not
  -- empty, their issuers are the client's, their key id is the one that the client writes, and the client
  -- has derived the users' keys, then the client opens every share of the answer: each is the share that
  -- its node has computed, over the very bytes that the client rebuilds with the subject that it takes
  -- from the first response. The session nonce is a byte string, Base64url keeps its laws, and
  -- decryption, JSON.parse and BigInt read each share's text back (IsChannel).
  pub open_shares-IsAnswering :
      (b64 : IsBase64Url rt.base64url) (sub : String) (a : Answerer) (others : List Answerer)
      → is_empty sub ≡ false
      → IsBytes session_nonce
      → All (IsAnswering sub) (a ∷ others)
      → let responses = responses_of (a ∷ others) in
        let input =
          (create_signing_input rt client_header
            (client_payload config options now (sub_of options responses))).signing_input in
        (zs : List ℕ) × (open_shares rt group decipher to_bigint h session_nonce input responses
          ≡ ok zs)
        × AreShares input (a ∷ others) zs
  open_shares-IsAnswering b64 sub a others given bytes g =
      subst
        (λ s.
          (zs : List ℕ) × (open_shares rt group decipher to_bigint h session_nonce (rebuilt_with s)
              (responses_of (a ∷ others))
            ≡ ok zs)
          × AreShares (rebuilt_with s) (a ∷ others) zs)
        (sym (first_sub sub a others given g.0)) (open_shares-sub b64 sub (a ∷ others) bytes g)
