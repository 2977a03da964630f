-- ===== src/Gateway/Credential.antt =====
-- projects/gateway/src/gateway/proxy.ts: `decodeCredentialClaims`, which reads a credential without
-- verifying it.
use decentralized_identity_p.Prelude.{
  String, Bool, not, Option, none, some, is_empty, if◌then◌else◌, split_dot, Result, ok, err, ◌>>=◌,
  ◌>>◌, throw_if, or_throw,
}
use decentralized_identity_p.Js.{Js, arr, obj, str, read, is_truthy}
use decentralized_identity_p.Runtime.{Runtime}
use decentralized_identity_p.Jwt.{parse_part, with_parts}
use decentralized_identity_p.Node.Credential.{scope_text}

pub record IdentityClaims : Type 0 where
  pub sub : String
  pub client_id : String
  pub scope : String
  pub jkt : String

-- `InvalidCredentialError`.
pub data InvalidCredential : Type 0 where
  not_a_jwt not_json not_an_object : InvalidCredential
  missing : String → InvalidCredential

abbrev pub Decodes : Type 0 → Type 0
Decodes A = Result InvalidCredential A

-- `typeof payload === "object" && payload !== null`, which an array passes.
abbrev pub is_object : Js → Bool
is_object (obj fs) = Bool.true
is_object (arr vs) = Bool.true
is_object _ = Bool.false

unfoldable pub text_property : String → Js → Decodes String
text_property name payload = elim (read name payload) [
  | some (str s) ↦ if is_empty s then err (missing name) else ok s
  | _ ↦ err (missing name)
]

-- `!cnf || typeof cnf.jkt !== "string" || cnf.jkt.length === 0`.
unfoldable pub jkt_property : Option Js → Decodes String
unfolding text_property
jkt_property none = err (missing "cnf.jkt")
jkt_property (some cnf) =
    if is_truthy cnf
    then elim (read "jkt" cnf) [
      | some (str s) ↦ if is_empty s then err (missing "cnf.jkt") else ok s
      | _ ↦ err (missing "cnf.jkt")
    ]
    else err (missing "cnf.jkt")

module _ (rt : Runtime) where
  unfoldable pub decode_payload : String → String → String → Decodes IdentityClaims
  decode_payload header_b64 payload_b64 sig_b64 = do
    payload ← or_throw (parse_part rt payload_b64) not_json
    throw_if (not (is_object payload)) not_an_object
    jkt ← jkt_property (read "cnf" payload)
    sub ← text_property "sub" payload
    client_id ← text_property "client_id" payload
    ok (record {
      sub = sub;
      client_id = client_id;
      scope = scope_text (read "scope" payload);
      jkt = jkt;
    })

  unfoldable pub decode_credential_claims : String → Decodes IdentityClaims
  decode_credential_claims credential = with_parts not_a_jwt decode_payload (split_dot credential)
