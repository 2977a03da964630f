-- ===== src/Jwt/Assembled.antt =====
-- A token that `createSigningInput` and `assembleJwt` build, with a signature that verifies, is
-- accepted by `verifyJwt`.
use decentralized_identity_p.Prelude.{
  Bool, ℤ, ◌≤ℤ◌, ◌*ℤ◌, ◌+ℤ◌, ◌⊎◌, inl, inr, ℕ, pos, refl, ◌≡◌, ap, ◌∙◌, String, true, false, ◌&&◌,
  some, [], ◌∷◌, arith, split_dot, HasNoDot, split_dot-append, split_dot-HasNoDot, ok, ◌>>=◌,
}
use decentralized_identity_p.Js.{Js, undefined, str, int, is_truthy, get, Fields, obj}
use decentralized_identity_p.Runtime.{Bytes, IsBytes, Runtime}
use decentralized_identity_p.Jwt.Sorted.{sorted, sorted_fields, get-sorted_fields}
use decentralized_identity_p.Wire.{is_base64url}
use decentralized_identity_p.Wire.Shapes.{IsBase64Url}
use decentralized_identity_p.Jwt.{
  create_signing_input, assemble_jwt, deterministic_json_stringify, encode_text, nothing_expected,
  verify_jwt, verify_parts, verify_ed25519, parse_part, to_number, less_than,
}

HasNoDot-is_base64url : (s : String) → is_base64url s ≡ true → HasNoDot s
unfolding is_base64url
HasNoDot-is_base64url String.[] h = tt
HasNoDot-is_base64url (String.◌∷◌ c s) h = (ground arith, HasNoDot-is_base64url s (ground arith))

module _ (rt : Runtime) (laws : IsBase64Url rt.base64url) where
  encoded : (bs : Bytes) → HasNoDot (rt.base64url.encode bs)
  encoded bs = HasNoDot-is_base64url _ (laws.in_alphabet bs)

  pub split_dot-assemble :
      (a b sig : Bytes)
      → split_dot (assemble_jwt rt (rt.base64url.encode a) (rt.base64url.encode b) sig)
        ≡ rt.base64url.encode a ∷ (rt.base64url.encode b ∷ (rt.base64url.encode sig ∷ []))
  unfolding assemble_jwt
  split_dot-assemble a b sig =
      split_dot-append _ _ (encoded a)
      ∙ ap (λ r. rt.base64url.encode a ∷ r)
          (split_dot-append _ _ (encoded b)
            ∙ ap (λ r. rt.base64url.encode b ∷ r) (split_dot-HasNoDot _ (encoded sig)))

  verified :
      (sig msg key : Bytes)
      → rt.ed25519_verify sig msg key ≡ some true
      → verify_ed25519 rt sig msg key ≡ true
  unfolding verify_ed25519
  verified sig msg key h = rw (h, verify_ed25519)

  -- `JSON.parse` reads the deterministic text of the value as the value with its properties in the order
  -- of their names, as it does where no property is undefined and no name is an array index.
  abbrev pub ParsesSorted : Js → Type 0
  ParsesSorted v =
      parse_part rt (encode_text rt (deterministic_json_stringify rt v)) ≡ some (sorted v)

  -- There is no `exp`, or it is a whole number of seconds that has not passed.
  abbrev pub IsCurrent : ℕ → Fields → Type 0
  IsCurrent now payload =
      (get "exp" payload ≡ undefined) ⊎ ((e : ℤ) × (get "exp" payload ≡ int e) × (pos now ≤ℤ e))

  less_than-int :
      (now : ℕ) (e : ℤ) → pos now ≤ℤ e → less_than rt (to_number rt (int e)) (pos now) ≡ false
  unfolding less_than to_number ◌*ℤ◌ ◌+ℤ◌
  less_than-int now e h = ground arith

  not_expired :
      (now : ℕ) (payload : Fields)
      → IsCurrent now payload
      → (is_truthy (get "exp" (sorted_fields payload))
          && less_than rt (to_number rt (get "exp" (sorted_fields payload))) (pos now))
        ≡ false
  unfolding sorted
  not_expired now payload (inl none_given) =
      rw (get-sorted_fields "exp" payload ∙ ap sorted none_given) refl
  not_expired now payload (inr (e, given, later)) =
      rw (get-sorted_fields "exp" payload ∙ ap sorted given) (
        ap (λ b. is_truthy (int e) && b) (less_than-int now e later)
        ∙ and_false (is_truthy (int e)))
    where
      and_false : (b : Bool) → (b && false) ≡ false
      and_false true = refl
      and_false false = refl

  -- A token of a header and a payload object that JSON.parse reads back up to the order of their
  -- properties, with `alg` EdDSA, no expiry or one that has not passed, and a byte string as signature
  -- that verifies over the signing input, is accepted and read back as that header and that payload in the
  -- order of their names: every property of both is read back, as the value with its own properties in
  -- that order. Base64url keeps its laws.
  pub verify_jwt-assemble :
      (now : ℕ) (public_key sig : Bytes) (header payload : Fields)
      → ParsesSorted (obj header)
      → ParsesSorted (obj payload)
      → get "alg" header ≡ str "EdDSA"
      → IsCurrent now payload
      → IsBytes sig
      → rt.ed25519_verify sig
          ((create_signing_input rt (obj header) (obj payload)).signing_input)
          public_key
        ≡ some true
      → (verify_jwt rt now
            (assemble_jwt rt
              ((create_signing_input rt (obj header) (obj payload)).header_b64)
              ((create_signing_input rt (obj header) (obj payload)).payload_b64)
              sig)
            public_key
            nothing_expected
          ≡ ok (obj (sorted_fields header), obj (sorted_fields payload)))
        × ((name : String) → get name (sorted_fields header) ≡ sorted (get name header))
        × ((name : String) → get name (sorted_fields payload) ≡ sorted (get name payload))
  unfolding verify_jwt create_signing_input verify_parts ◌>>=◌ sorted
  verify_jwt-assemble now public_key sig header payload hh hp alg exp hs v =
      let read_alg : get "alg" (sorted_fields header) ≡ str "EdDSA" =
        get-sorted_fields "alg" header ∙ ap sorted alg in
      let current = not_expired now payload exp in
      (
        simp (
          split_dot-assemble,
          hh,
          hp,
          read_alg,
          current,
          laws.decode-encode sig hs,
          verified _ _ _ v,
        ),
        λ name. get-sorted_fields name header,
        λ name. get-sorted_fields name payload,
      )
