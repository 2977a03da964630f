-- ===== src/Wire/Encode.antt =====
-- projects/gateway/src/nodes/wire.ts and http-node-client.ts, the bodies that the gateway sends.
-- `JSON.stringify` leaves a property out if its value is `undefined`; it reads back as `undefined`.
use decentralized_identity_p.Prelude.{ℤ, String, Option, none, some, List, map}
use decentralized_identity_p.Js.{Js, undefined, str, arr, obj, Fields, end, field, int, items}
use decentralized_identity_p.Runtime.{Base64Url}
use decentralized_identity_p.Protocol.{
  FrostCommitment, SignOnRequest, Grant, authorization_code, AccessTokenClaims, SignRequest,
  SignRounds,
}

-- A property that is set only when the value is there.
abbrev pub field_if : String → Option Js → Fields → Fields
field_if k none fs = fs
field_if k (some v) fs = field k v fs

abbrev pub or_undefined : Option String → Js
or_undefined none = undefined
or_undefined (some s) = str s

abbrev pub option_js : {A : Type 0} → (A → Js) → Option A → Option Js
option_js f none = none
option_js f (some a) = some (f a)

abbrev pub integers_to_wire : List ℤ → Js
integers_to_wire zs = arr (items (map int zs))

unfoldable pub grant_to_wire : Grant → Js
grant_to_wire authorization_code = str "authorization_code"
grant_to_wire Grant.refresh_token = str "refresh_token"

-- The credential that the grant names, and no other.
unfoldable pub credential_to_wire : SignRequest → Grant → Fields → Fields
credential_to_wire req authorization_code fs = field "assertion" (or_undefined req.assertion) fs
credential_to_wire req Grant.refresh_token fs =
    field "refreshToken" (or_undefined req.refresh_token) fs

unfoldable pub claims_to_wire : AccessTokenClaims → Js
claims_to_wire c =
    obj (field "iat" (int c.iat) (field "exp" (int c.exp) (field "jti" (str c.jti) end)))

module _ (b64 : Base64Url) where
  unfoldable pub commitment_to_wire : FrostCommitment → Js
  commitment_to_wire c = obj (
      field "nodeId" (int c.node_id)
        (field "D" (str (b64.encode c.d_point)) (field "E" (str (b64.encode c.e_point)) end)))

  unfoldable pub commitments_to_wire : List FrostCommitment → Js
  commitments_to_wire cs = arr (items (map commitment_to_wire cs))

  unfoldable pub sign_on_request_to_wire : SignOnRequest → Js
  sign_on_request_to_wire req = obj (
      field "sessionId" (str req.session_id) (
        field "username" (str req.username) (
          field "blinded" (str req.blinded) (
            field "sessionNonce" (str req.session_nonce) (
              field "cnfJkt" (str req.cnf_jkt) (
                field "clientId" (str req.client_id) (
                  field "scope" (str req.scope) (
                    field "iat" (int req.iat) (
                      field "exp" (int req.exp) (
                        field "iss" (str req.iss) (
                          field "commitments" (commitments_to_wire req.commitments) (
                            field "allParticipants" (integers_to_wire req.all_participants)
                              (field_if "nonce" (option_js str req.nonce) end)))))))))))))

  unfoldable pub sign_request_to_wire : SignRequest → Js
  sign_request_to_wire req = obj (
      field "grant" (grant_to_wire req.grant) (
        field "dpopProof" (str req.dpop_proof) (
          field "claims" (claims_to_wire req.claims) (
            field "commitments" (commitments_to_wire req.commitments) (
              field "refreshCommitments" (commitments_to_wire req.refresh_commitments) (
                field "allParticipants" (integers_to_wire req.all_participants) (
                  credential_to_wire req req.grant
                    (field_if "refreshExp" (option_js int req.refresh_exp) end))))))))

  -- The bodies of `HttpNodeClient.signOn` and `HttpNodeClient.sign`.
  unfoldable pub sign_on_envelope_to_wire : String → SignOnRequest → Js
  sign_on_envelope_to_wire round_id req =
      obj (field "roundId" (str round_id) (field "request" (sign_on_request_to_wire req) end))

  unfoldable pub sign_envelope_to_wire : SignRounds → SignRequest → Js
  sign_envelope_to_wire rounds req = obj (
      field "roundId" (str rounds.access_round_id) (
        field "refreshRoundId" (str rounds.refresh_round_id)
          (field "request" (sign_request_to_wire req) end)))
