-- ===== src/Dpop/Verified.antt =====
-- What a DPoP proof shows that `verifyDPoPProof` accepts, and what it does not show.
use decentralized_identity_p.Prelude.{
  ok_injective, by_steps, ℕ, ℤ, pos, ◌≤ℤ◌, ◌-ℤ◌, ◌+ℤ◌, ◌*ℤ◌, -ℤ_parts, ltb_ℤ, ◌||◌, ◌==◌, ◌≡◌, refl,
  ap, subst, ◌∙◌, sym, String, Bool, true, false, not, Option, none, some, [], ◌∷◌, arith, length,
  split_dot, ◌^^◌, str_eq, is_empty, eq_iff, ok, ◌>>=◌, throw_if-eq-ok, or_throw-eq-ok,
}
use decentralized_identity_p.Js.{Js, str, num, read, undefined, obj, Fields, get}
use decentralized_identity_p.Runtime.{Bytes, Runtime}
use decentralized_identity_p.Jwt.{parse_part, to_number}
use decentralized_identity_p.Jwt.Verified.{with_parts-eq-ok, is_text-eq, verify_ed25519-eq}
use decentralized_identity_p.Dpop.{
  DpopOptions, calculate_jwk_thumbprint, upper, decode_key, is_stale, differs_from, check_header,
  check_payload, check_proof, verify_dpop_proof,
}

not-false : (b : Bool) → not b ≡ false → b ≡ true
not-false b h = ground arith

length_test : (n m : ℕ) → not (n == m) ≡ false → n ≡ m
length_test n m h = ground arith

not_differ : (s t : String) → not (str_eq s t) ≡ false → s ≡ t
not_differ s t h = ground (arith, eq_iff s t)

module _ (rt : Runtime) where
  -- The header names an Ed25519 key of 32 bytes, and `jkt` is its thumbprint.
  pub record NamesKey (header : Js) (public_key : Bytes) (jkt : String) : Type 0 where
    pub typ : read "typ" header ≡ some (str "dpop+jwt")
    pub alg : read "alg" header ≡ some (str "EdDSA")
    pub jwk : Js
    pub header_jwk : read "jwk" header ≡ some jwk
    pub x : Js
    pub jwk_x : read "x" jwk ≡ some x
    pub key : decode_key rt x ≡ some public_key
    pub key_length : length public_key ≡ 32
    pub thumbprint : jkt ≡ calculate_jwk_thumbprint rt (str "Ed25519") (str "OKP") x

  or_parts : (a b : Bool) → (not a || not b) ≡ false → (not a ≡ false) × (not b ≡ false)
  or_parts a b h = ground arith

  check_header-NamesKey :
      (header : Js) {public_key : Bytes} {jkt : String}
      → check_header rt header ≡ ok (public_key, jkt)
      → NamesKey header public_key jkt
  unfolding check_header
  check_header-NamesKey header {public_key} {jkt} h = by_steps _ _ h λ typ e1 h1.
      by_steps _ _ h1 λ _ e2 h2. by_steps _ _ h2 λ alg e3 h3. by_steps _ _ h3 λ _ e4 h4.
        by_steps _ _ h4 λ jwk e5 h5. by_steps _ _ h5 λ _ e6 h6. by_steps _ _ h6 λ kty e7 h7.
          by_steps _ _ h7 λ crv e8 h8. by_steps _ _ h8 λ _ e9 h9. by_steps _ _ h9 λ x e10 h10.
            by_steps _ _ h10 λ key e11 h11. by_steps _ _ h11 λ _ e12 h12.
              let both = or_parts _ _ (throw_if-eq-ok _ _ e9) in
              let same_key : key ≡ public_key = ap (λ p. p.0) (ok_injective h12) in
              record {
                typ =
                    or_throw-eq-ok _ _ e1
                    ∙ ap some (is_text-eq "dpop+jwt" typ (throw_if-eq-ok _ _ e2));
                alg =
                    or_throw-eq-ok _ _ e3
                    ∙ ap some (is_text-eq "EdDSA" alg (throw_if-eq-ok _ _ e4));
                jwk = jwk;
                header_jwk = or_throw-eq-ok _ _ e5;
                x = x;
                jwk_x = or_throw-eq-ok _ _ e10;
                key = or_throw-eq-ok _ _ e11 ∙ ap some same_key;
                key_length =
                    subst (λ k. length k ≡ 32) same_key (length_test _ 32 (throw_if-eq-ok _ _ e12));
                thumbprint =
                    sym (ap (λ p. p.1) (ok_injective h12))
                    ∙ (ap (λ v. calculate_jwk_thumbprint rt v kty x)
                          (is_text-eq "Ed25519" crv both.1)
                        ∙ ap (λ v. calculate_jwk_thumbprint rt (str "Ed25519") v x)
                            (is_text-eq "OKP" kty both.0));
              }

  -- The payload is for this method and address, and an `iat` that is a number is within the window.
  pub record IsFor (now : ℕ) (options : DpopOptions) (payload : Js) : Type 0 where
    pub htm : Js
    pub payload_htm : read "htm" payload ≡ some htm
    pub method : upper rt htm ≡ some (rt.to_upper_case options.expected_htm)
    pub htu : read "htu" payload ≡ some (str options.expected_htu)
    pub fresh :
        (z : ℤ) (m : ℕ)
        → read "iat" payload ≡ some (num z m)
        → (pos 1000 *ℤ pos now -ℤ (pos 1000 *ℤ z +ℤ pos m)
            ≤ℤ pos 1000 *ℤ pos options.max_age_seconds)
          × (pos 1000 *ℤ z +ℤ pos m -ℤ pos 1000 *ℤ pos now
              ≤ℤ pos 1000 *ℤ pos options.max_age_seconds)

  stale_parts :
      (a b t : ℤ)
      → (ltb_ℤ b (a -ℤ t) || ltb_ℤ b (pos 0 -ℤ (a -ℤ t))) ≡ false
      → (a -ℤ t ≤ℤ b) × (t -ℤ a ≤ℤ b)
  stale_parts a b t h = ground (arith, -ℤ_parts a t, -ℤ_parts t a, -ℤ_parts (pos 0) (a -ℤ t))

  num_fresh :
      (now max : ℕ) (z : ℤ) (m : ℕ)
      → is_stale rt now (to_number rt (num z m)) max ≡ false
      → (pos 1000 *ℤ pos now -ℤ (pos 1000 *ℤ z +ℤ pos m) ≤ℤ pos 1000 *ℤ pos max)
        × (pos 1000 *ℤ z +ℤ pos m -ℤ pos 1000 *ℤ pos now ≤ℤ pos 1000 *ℤ pos max)
  unfolding is_stale to_number
  num_fresh now max z m h =
      stale_parts (pos 1000 *ℤ pos now) (pos 1000 *ℤ pos max) (pos 1000 *ℤ z +ℤ pos m) h

  check_payload-IsFor :
      (now : ℕ) (options : DpopOptions) (payload : Js)
      → check_payload rt now options payload ≡ ok tt
      → IsFor now options payload
  unfolding check_payload
  check_payload-IsFor now options payload h = by_steps _ _ h λ htm e1 h1.
      by_steps _ _ h1 λ method e2 h2. by_steps _ _ h2 λ _ e3 h3. by_steps _ _ h3 λ htu e4 h4.
        by_steps _ _ h4 λ _ e5 h5. by_steps _ _ h5 λ iat e6 h6. record {
          htm = htm;
          payload_htm = or_throw-eq-ok _ _ e1;
          method = or_throw-eq-ok _ _ e2 ∙ ap some (not_differ _ _ (throw_if-eq-ok _ _ e3));
          htu =
              or_throw-eq-ok _ _ e4
              ∙ ap some (is_text-eq options.expected_htu htu (throw_if-eq-ok _ _ e5));
          fresh = λ z m k.
              let both : some iat ≡ some (num z m) = sym (or_throw-eq-ok _ _ e6) ∙ k in
              let same : iat ≡ num z m = cc in
              num_fresh now options.max_age_seconds z m (
                subst (λ v. is_stale rt now (to_number rt v) options.max_age_seconds ≡ false) same
                  (throw_if-eq-ok _ _ h6));
        }

  -- A proof in three parts, signed by the key that its header names, for this method and address.
  pub record IsProof (now : ℕ) (proof_jwt : String) (options : DpopOptions) (jkt : String)
      (payload : Js) : Type 0 where
    pub header_b64 : String
    pub payload_b64 : String
    pub sig_b64 : String
    pub parts : split_dot proof_jwt ≡ header_b64 ∷ (payload_b64 ∷ (sig_b64 ∷ []))
    pub header : Js
    pub header_parses : parse_part rt header_b64 ≡ some header
    pub payload_parses : parse_part rt payload_b64 ≡ some payload
    pub public_key : Bytes
    pub names_key : NamesKey header public_key jkt
    pub signature :
        rt.ed25519_verify
          (rt.base64url.decode sig_b64)
          (rt.utf8_encode (header_b64 ^^ ("." ^^ payload_b64)))
          public_key
        ≡ some true
    pub is_for : IsFor now options payload
    pub bound : (e : String) → options.expected_jkt ≡ some e → is_empty e ≡ false → jkt ≡ e

  bound_lem :
      (o : Option String) (jkt e : String)
      → differs_from rt o jkt ≡ false
      → o ≡ some e
      → is_empty e ≡ false
      → jkt ≡ e
  unfolding differs_from
  bound_lem none jkt e h k n = cc
  bound_lem (some f) jkt e h k n = ground (arith, eq_iff jkt f)

  check_proof-IsProof :
      (now : ℕ) (proof_jwt : String) (options : DpopOptions) (hb pb sb jkt : String) (payload : Js)
      → split_dot proof_jwt ≡ hb ∷ (pb ∷ (sb ∷ []))
      → check_proof rt now options hb pb sb ≡ ok (jkt, payload)
      → IsProof now proof_jwt options jkt payload
  unfolding check_proof
  check_proof-IsProof now proof_jwt options hb pb sb jkt payload split h =
      by_steps _ _ h λ header e1 h1. by_steps _ _ h1 λ pay e2 h2. by_steps _ _ h2 λ named e3 h3.
        by_steps _ _ h3 λ _ e4 h4. by_steps _ _ h4 λ u e5 h5. by_steps _ _ h5 λ _ e6 h6.
          let same_jkt : named.1 ≡ jkt = ap (λ p. p.0) (ok_injective h6) in
          let same_payload : pay ≡ payload = ap (λ p. p.1) (ok_injective h6) in
          subst (IsProof now proof_jwt options jkt) same_payload (
            subst (λ j. IsProof now proof_jwt options j pay) same_jkt
              (record {
                header_b64 = hb;
                payload_b64 = pb;
                sig_b64 = sb;
                parts = split;
                header = header;
                header_parses = or_throw-eq-ok _ _ e1;
                payload_parses = or_throw-eq-ok _ _ e2;
                public_key = named.0;
                names_key = check_header-NamesKey header e3;
                signature = verify_ed25519-eq rt _ _ _ (throw_if-eq-ok _ _ e4);
                is_for = check_payload-IsFor now options pay e5;
                bound =
                    λ e k n. bound_lem options.expected_jkt named.1 e (throw_if-eq-ok _ _ e6) k n;
              }))

  -- If `verifyDPoPProof` accepts a proof, then it has three parts whose header and payload parse, the
  -- header names an Ed25519 key of 32 bytes under which the signature verifies, the thumbprint returned
  -- is that key's, computed with crv Ed25519 and kty OKP, and is the expected one if one that is not
  -- empty is expected, the method (in upper case) and the address are the expected ones, and an `iat`
  -- that is a number lies within `maxAge` of the clock on both sides.
  pub verify_dpop_proof-IsProof :
      (now : ℕ) (proof_jwt : String) (options : DpopOptions) {jkt : String} {payload : Js}
      → verify_dpop_proof rt now proof_jwt options ≡ ok (jkt, payload)
      → IsProof now proof_jwt options jkt payload
  unfolding verify_dpop_proof
  verify_dpop_proof-IsProof now proof_jwt options h =
      let (hb, pb, sb, split, k) = with_parts-eq-ok _ _ (split_dot proof_jwt) h in
      check_proof-IsProof now proof_jwt options hb pb sb _ _ split k

  is_stale-undefined : (now max : ℕ) → is_stale rt now (to_number rt undefined) max ≡ false
  unfolding is_stale to_number
  is_stale-undefined now max = refl

  check_payload-clock :
      (now now' : ℕ) (options : DpopOptions) (payload : Fields)
      → get "iat" payload ≡ undefined
      → check_payload rt now options (obj payload) ≡ check_payload rt now' options (obj payload)
  unfolding check_payload ◌>>=◌
  check_payload-clock now now' options payload h = simp (h, is_stale-undefined)

  check_proof-clock :
      (now now' : ℕ) (options : DpopOptions) (hb pb sb : String) (payload : Fields)
      → parse_part rt pb ≡ some (obj payload)
      → get "iat" payload ≡ undefined
      → check_proof rt now options hb pb sb ≡ check_proof rt now' options hb pb sb
  unfolding check_proof ◌>>=◌
  check_proof-clock now now' options hb pb sb payload e h =
      simp (e, check_payload-clock now now' options payload h)

  -- A proof of three parts whose payload is an object with no `iat` never ages: the answer, be it an
  -- acceptance or a refusal, is the same whatever the clock says.
  pub missing_iat_never_stale :
      (now now' : ℕ) (proof_jwt : String) (options : DpopOptions) (hb pb sb : String)
      (payload : Fields)
      → split_dot proof_jwt ≡ hb ∷ (pb ∷ (sb ∷ []))
      → parse_part rt pb ≡ some (obj payload)
      → get "iat" payload ≡ undefined
      → verify_dpop_proof rt now proof_jwt options ≡ verify_dpop_proof rt now' proof_jwt options
  unfolding verify_dpop_proof
  missing_iat_never_stale now now' proof_jwt options hb pb sb payload split e h =
      rw split (check_proof-clock now now' options hb pb sb payload e h)
