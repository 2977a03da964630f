-- ===== src/Client/Opened.antt =====
-- The client of projects/demo/src/sdk/client.ts opens what a node of projects/node/src/protocol/node.ts
-- has sealed, over the same assertion.
use decentralized_identity_p.Prelude.{
  ℕ, ◌≡◌, refl, sym, ap, subst, ◌∙◌, String, Option, some, length, ok, ◌>>=◌,
}
use decentralized_identity_p.Js.{Js, str, obj, end, field}
use decentralized_identity_p.Runtime.{Bytes, IsBytes, Runtime}
use decentralized_identity_p.Protocol.{Commitment, FrostNonces, SignOnResponse}
use decentralized_identity_p.Crypto.Aead.{Cipher, derive_aead_nonce}
use decentralized_identity_p.Crypto.Frost.{Curve, compute_signature_share}
use decentralized_identity_p.Crypto.Hex.{decimal}
use decentralized_identity_p.Crypto.Toprf.{Group, derive_server_key}
use decentralized_identity_p.Jwt.{create_signing_input}
use decentralized_identity_p.Wire.Shapes.{IsBase64Url}
use decentralized_identity_p.Node.{IdentityNode, UserRecord}
use decentralized_identity_p.Node.SignOn.{assertion_header, assertion_payload, share_bundle}
use decentralized_identity_p.Node.SignedOn.{IsSealed, assertion_input}
use decentralized_identity_p.Gateway.Commitments.{Collected}
use decentralized_identity_p.Gateway.SignOn.{sign_on_request}
use decentralized_identity_p.Client.{
  Config, Options, Decipher, aead_decrypt, client_header, client_payload, sign_on_body, open_share,
}

module _ (rt : Runtime) {Point : Type 0} (curve : Curve Point) {Blind : Type 0}
    (group : Group Blind) (cipher : Cipher) (decipher : Decipher) (to_bigint : Js → Option ℕ) where
  -- What the program relies on of the browser and of noble's cipher, for the text
  -- `{"z_i":"<decimal>"}` of a share: decryption undoes encryption, and `TextDecoder`, `JSON.parse` and
  -- `BigInt` read the share back.
  pub record IsChannel (z : ℕ) : Type 0 where
    pub opens :
        (key nonce aad : Bytes)
        → decipher key nonce aad
            (cipher key nonce aad (rt.utf8_encode (share_bundle rt curve group cipher z)))
          ≡ some (rt.utf8_encode (share_bundle rt curve group cipher z))
    pub cipher_bytes :
        (key nonce aad : Bytes)
        → IsBytes (cipher key nonce aad (rt.utf8_encode (share_bundle rt curve group cipher z)))
    pub parses :
        rt.json_parse (rt.utf8_decode (rt.utf8_encode (share_bundle rt curve group cipher z)))
        ≡ some (obj (field "z_i" (str (decimal z)) end))
    pub reads : to_bigint (str (decimal z)) ≡ some z

  aead_decrypt-eq :
      (key nonce ciphertext aad : Bytes) {p : Bytes}
      → length key ≡ 32
      → length nonce ≡ 12
      → decipher key nonce aad ciphertext ≡ some p
      → aead_decrypt decipher key nonce ciphertext aad ≡ ok p
  unfolding aead_decrypt ◌>>=◌
  aead_decrypt-eq key nonce ciphertext aad long twelve h = rw (long, twelve) (rw h refl)

  -- The assertion that the client rebuilds is the node's.
  rebuilt :
      (node : IdentityNode) (user : UserRecord) (config : Config) (options : Options) (now : ℕ)
      (blinded : Blind) (session_nonce : Bytes) (session_id : String) (collected : Collected)
      → config.issuer ≡ node.issuer
      → node.key_id ≡ "pasta-group-key-1"
      → create_signing_input rt client_header (client_payload config options now user.sub)
        ≡ create_signing_input rt (assertion_header node) (
            assertion_payload node user (
              sign_on_request
                (sign_on_body rt group config options now blinded session_nonce)
                session_id
                collected))
  unfolding client_payload assertion_header assertion_payload sign_on_request sign_on_body
  rebuilt node user config options now blinded session_nonce session_id collected issuer key =
      rw (issuer, key) refl

  open_share-eq :
      (z : ℕ) (channel : IsChannel z) (h session_nonce input ct : Bytes) (r : SignOnResponse)
      → length (derive_server_key rt group h r.node_id) ≡ 32
      → length (derive_aead_nonce rt session_nonce r.node_id) ≡ 12
      → rt.base64url.decode r.ct_i ≡ ct
      → ct
        ≡ cipher
            (derive_server_key rt group h r.node_id)
            (derive_aead_nonce rt session_nonce r.node_id)
            input
            (rt.utf8_encode (share_bundle rt curve group cipher z))
      → open_share rt group decipher to_bigint h session_nonce input r ≡ ok z
  unfolding open_share ◌>>=◌
  open_share-eq z channel h session_nonce input ct r long twelve arrived sealed =
      let key = derive_server_key rt group h r.node_id in
      let nonce = derive_aead_nonce rt session_nonce r.node_id in
      let plaintext = rt.utf8_encode (share_bundle rt curve group cipher z) in
      let opened : decipher key nonce input (rt.base64url.decode r.ct_i) ≡ some plaintext =
        ap (decipher key nonce input) (arrived ∙ sealed) ∙ channel.opens key nonce input in
      rw (aead_decrypt-eq key nonce (rt.base64url.decode r.ct_i) input long twelve opened)
        (rw channel.parses (rw channel.reads refl))

  -- A client that has derived a user's key for a node opens the share that the node has sealed for the
  -- client's own request: the share is the node's, computed over the bytes that the client rebuilds with
  -- the user's subject, where the issuers agree and the node's key id is the one that the client writes.
  pub open_share-IsSealed :
      (b64 : IsBase64Url rt.base64url) (node : IdentityNode) (user : UserRecord) (config : Config)
      (options : Options) (now : ℕ) (blinded : Blind) (session_nonce : Bytes) (session_id : String)
      (collected : Collected) (nonces : FrostNonces) (commitment : Commitment) (h : Bytes)
      (sub : String) {res : SignOnResponse}
      (g : IsSealed rt curve group cipher node user
        (sign_on_request
          (sign_on_body rt group config options now blinded session_nonce)
          session_id
          collected)
        nonces
        commitment
        res)
      → config.issuer ≡ node.issuer
      → node.key_id ≡ "pasta-group-key-1"
      → derive_server_key rt group h node.node_id ≡ user.h_i
      → IsBytes session_nonce
      → IsChannel g.z
      → sub ≡ user.sub
      → let input =
          (create_signing_input rt client_header
            (client_payload config options now sub)).signing_input in
        (z : ℕ) × (open_share rt group decipher to_bigint h session_nonce input res ≡ ok z)
        × (compute_signature_share curve node.node_id nonces node.secret_key_share input
              collected.commitments node.group_public_key collected.participants
            ≡ ok z)
  unfolding sign_on_request sign_on_body
  open_share-IsSealed b64 node user config options now blinded session_nonce session_id collected
        nonces commitment h sub {res} g issuer key_id keyed bytes channel same_sub =
      let req =
        sign_on_request (sign_on_body rt group config options now blinded session_nonce) session_id
          collected in
      let mine =
        (create_signing_input rt client_header
          (client_payload config options now sub)).signing_input in
      let theirs = assertion_input rt curve group cipher node user req in
      let plaintext = rt.utf8_encode (share_bundle rt curve group cipher g.z) in
      let same_input : mine ≡ theirs =
        ap
          (λ s.
            (create_signing_input rt client_header
              (client_payload config options now s)).signing_input)
          same_sub
        ∙ ap (λ i. i.signing_input)
            (rebuilt node user config options now blinded session_nonce session_id collected issuer
              key_id) in
      let same_key : derive_server_key rt group h res.node_id ≡ user.h_i =
        ap (derive_server_key rt group h) g.node_id ∙ keyed in
      let their_nonce = derive_aead_nonce rt (rt.base64url.decode req.session_nonce) node.node_id in
      let same_nonce : derive_aead_nonce rt session_nonce res.node_id ≡ their_nonce =
        ap (derive_aead_nonce rt session_nonce) g.node_id
        ∙ ap (λ n. derive_aead_nonce rt n node.node_id)
            (sym (b64.decode-encode session_nonce bytes)) in
      (
        g.z,
        open_share-eq g.z channel h session_nonce mine
            (cipher user.h_i their_nonce theirs plaintext) res (ap length same_key ∙ g.key_length)
            (ap length same_nonce ∙ g.nonce_length)
            (ap rt.base64url.decode g.sealed
              ∙ b64.decode-encode _ (channel.cipher_bytes user.h_i their_nonce theirs))
            (ap (λ k. cipher k their_nonce theirs plaintext) (sym same_key)
              ∙ (ap (λ n. cipher (derive_server_key rt group h res.node_id) n theirs plaintext)
                    (sym same_nonce)
                  ∙ ap
                      (λ i.
                        cipher (derive_server_key rt group h res.node_id)
                          (derive_aead_nonce rt session_nonce res.node_id) i plaintext)
                      (sym same_input))),
        subst
            (λ i.
              compute_signature_share curve node.node_id nonces node.secret_key_share i
                collected.commitments node.group_public_key collected.participants
              ≡ ok g.z)
            (sym same_input) g.signed,
      )
