-- ===== src/Jwt.antt =====
-- projects/node/src/jwt/jwt.ts (the gateway's copy is the same file): the deterministic JSON text
-- of a token's two parts, its assembly, and its verification. `now` is Math.floor(Date.now() / 1000).
pub mod Verified
pub mod Sorted
pub mod Assembled
use decentralized_identity_p.Prelude.{
  ℕ, ◌+◌, ◌*◌, ℤ, pos, ◌+ℤ◌, ◌*ℤ◌, ltb_ℤ, ◌≡◌, String, Bool, true, false, not, ◌&&◌, Option, none,
  some, List, [], ◌∷◌, str_eq, is_empty, if◌then◌else◌, split_dot, ◌^^◌, Result, ok, err, ◌>>=◌,
  ◌>>◌, throw_if, or_throw,
}
use Prim.Native.String
use Prim.Native.Nat.{Ordering}
use decentralized_identity_p.Js.{
  Js, undefined, null, bool, num, str, arr, obj, Items, nil, cons, Fields, end, field, read,
  is_truthy, is_text,
}
use decentralized_identity_p.Runtime.{Bytes, Runtime}

-- `keys.sort()` on pairs of a key and its text; texts are compared by code points.
abbrev pub key_le : String → String → Bool
key_le s t = elim (String.compare s t) [ Ordering.gt ↦ false | _ ↦ true ]

unfoldable pub insert_key : String × String → List (String × String) → List (String × String)
insert_key e [] = e ∷ []
insert_key e (f ∷ fs) =
    let rest = insert_key e fs in if key_le e.0 f.0 then e ∷ f ∷ fs else f ∷ rest

unfoldable pub sort_keys : List (String × String) → List (String × String)
unfolding insert_key
sort_keys [] = []
sort_keys (e ∷ es) = insert_key e (sort_keys es)

-- `texts.join(",")`.
unfoldable pub join_comma : List String → String
join_comma [] = ""
join_comma (t ∷ []) = t
join_comma (t ∷ (u ∷ us)) = t ^^ ("," ^^ join_comma (u ∷ us))

module _ (rt : Runtime) where
  open rt use {
    base64url, utf8_encode, utf8_decode, json_parse, json_stringify, ed25519_verify, coerce,
  }

  unfoldable pub pair_texts : List (String × String) → List String
  pair_texts [] = []
  pair_texts ((k, t) ∷ es) = (json_stringify (str k) ^^ (":" ^^ t)) ∷ pair_texts es

  -- The text of a property. `JSON.stringify(undefined)` is `undefined`, which is joined to the rest
  -- as the nine characters `undefined`, and as nothing in an array.
  unfoldable mutual
    pub deterministic_json_stringify : Js → String
    deterministic_json_stringify undefined = "undefined"
    deterministic_json_stringify null = json_stringify null
    deterministic_json_stringify (bool b) = json_stringify (bool b)
    deterministic_json_stringify (num z m) = json_stringify (num z m)
    deterministic_json_stringify (str s) = json_stringify (str s)
    deterministic_json_stringify (arr vs) = "[" ^^ (join_comma (element_texts vs) ^^ "]")
    deterministic_json_stringify (obj fs) =
        "{" ^^ (join_comma (pair_texts (sort_keys (property_texts fs))) ^^ "}")

    pub element_texts : Items → List String
    element_texts nil = []
    element_texts (cons undefined vs) = "" ∷ element_texts vs
    element_texts (cons v vs) = deterministic_json_stringify v ∷ element_texts vs

    pub property_texts : Fields → List (String × String)
    property_texts end = []
    property_texts (field k v fs) = (k, deterministic_json_stringify v) ∷ property_texts fs

  abbrev pub encode_text : String → String
  encode_text s = base64url.encode (utf8_encode s)

  pub record SigningInput : Type 0 where
    pub signing_input : Bytes
    pub header_b64 : String
    pub payload_b64 : String

  unfoldable pub create_signing_input : Js → Js → SigningInput
  create_signing_input header payload =
      let header_b64 = encode_text (deterministic_json_stringify header) in
      let payload_b64 = encode_text (deterministic_json_stringify payload) in
      record {
        signing_input = utf8_encode (header_b64 ^^ ("." ^^ payload_b64));
        header_b64 = header_b64;
        payload_b64 = payload_b64;
      }

  unfoldable pub assemble_jwt : String → String → Bytes → String
  assemble_jwt header_b64 payload_b64 signature =
      header_b64 ^^ ("." ^^ (payload_b64 ^^ ("." ^^ base64url.encode signature)))

-- `parts.length !== 3`, and the three parts.
abbrev pub with_parts :
    {E A : Type 0} → E → (String → String → String → Result E A) → List String → Result E A
with_parts e f (h ∷ (p ∷ (s ∷ []))) = f h p s
with_parts e f _ = err e

-- `{ valid: false, error }`; `threw` is what the `catch` makes of an exception.
pub data JwtError : Type 0 where
  malformed threw unsupported_alg invalid_signature expired issuer_mismatch audience_mismatch
        nonce_mismatch :
      JwtError

-- The option object `expected`.
pub record Expected : Type 0 where
  pub iss : Option String
  pub aud : Option String
  pub nonce : Option String

abbrev pub nothing_expected : Expected
nothing_expected = record { iss = none; aud = none; nonce = none }

-- `expected && value !== expected`.
abbrev pub mismatches : Option String → Js → Bool
mismatches none value = false
mismatches (some e) value = not (is_empty e) && not (is_text e value)

module _ (rt : Runtime) where
  open rt use {base64url, utf8_encode, utf8_decode, json_parse, ed25519_verify, coerce}

  -- The number that arithmetic reads, in thousandths; `none` is `NaN`.
  unfoldable pub to_number : Js → Option ℤ
  to_number undefined = none
  to_number null = some (pos 0)
  to_number (bool true) = some (pos 1000)
  to_number (bool false) = some (pos 0)
  to_number (num z m) = some (pos 1000 *ℤ z +ℤ pos m)
  to_number v = coerce v

  -- `a < b` for a number b of seconds: false if a is `NaN`.
  unfoldable pub less_than : Option ℤ → ℤ → Bool
  less_than none b = false
  less_than (some a) b = ltb_ℤ a (pos 1000 *ℤ b)

  -- `JSON.parse(Buffer.from(part, "base64url").toString("utf8"))`.
  unfoldable pub parse_part : String → Option Js
  parse_part part = json_parse (utf8_decode (base64url.decode part))

  -- `verifyEd25519`: an exception is a refusal.
  unfoldable pub verify_ed25519 : Bytes → Bytes → Bytes → Bool
  verify_ed25519 signature msg public_key = elim (ed25519_verify signature msg public_key) [
    | none ↦ false
    | some b ↦ b
  ]

  abbrev pub Verified : Type 0
  Verified = Result JwtError (Js × Js)

  -- The checks of `verifyJwt` behind the split.
  unfoldable pub verify_parts : ℕ → Bytes → Expected → String → String → String → Verified
  verify_parts now public_key expected header_b64 payload_b64 sig_b64 = do
    header ← or_throw (parse_part header_b64) threw
    payload ← or_throw (parse_part payload_b64) threw
    alg ← or_throw (read "alg" header) threw
    throw_if (not (is_text "EdDSA" alg)) unsupported_alg
    throw_if
        (not (
          verify_ed25519 (base64url.decode sig_b64)
            (utf8_encode (header_b64 ^^ ("." ^^ payload_b64))) public_key))
        invalid_signature
    exp ← or_throw (read "exp" payload) threw
    throw_if (is_truthy exp && less_than (to_number exp) (pos now)) expired
    iss ← or_throw (read "iss" payload) threw
    throw_if (mismatches expected.iss iss) issuer_mismatch
    aud ← or_throw (read "aud" payload) threw
    throw_if (mismatches expected.aud aud) audience_mismatch
    nonce ← or_throw (read "nonce" payload) threw
    throw_if (mismatches expected.nonce nonce) nonce_mismatch
    ok (header, payload)

  unfoldable pub verify_jwt : ℕ → String → Bytes → Expected → Verified
  verify_jwt now token public_key expected =
      with_parts malformed (verify_parts now public_key expected) (split_dot token)
