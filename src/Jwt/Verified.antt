-- ===== src/Jwt/Verified.antt =====
-- What a token shows that `verifyJwt` accepts, and that a signed token is accepted.
use decentralized_identity_p.Prelude.{
  ok_injective, by_steps, subst, ap, ◌∙◌, ℕ, ℤ, pos, ◌≤ℤ◌, ◌+ℤ◌, ◌*ℤ◌, ◌≡◌, refl, String, true,
  false, not, ◌&&◌, Option, some, List, [], ◌∷◌, arith, split_dot, ◌^^◌, eq_iff, Result, ok,
  throw_if-eq-ok, or_throw-eq-ok, ltb_ℤ,
}
use decentralized_identity_p.Js.{Js, str, num, read, is_text, is_truthy}
use decentralized_identity_p.Runtime.{Bytes, Runtime}
use decentralized_identity_p.Jwt.{
  Expected, with_parts, verify_parts, verify_jwt, verify_ed25519, parse_part, to_number, less_than,
}

pub with_parts-eq-ok :
    {E A : Type 0} (e : E) (f : String → String → String → Result E A) (ps : List String) {a : A}
    → with_parts e f ps ≡ ok a
    → (h p s : String) × (ps ≡ h ∷ (p ∷ (s ∷ []))) × (f h p s ≡ ok a)
with_parts-eq-ok e f (h ∷ (p ∷ (s ∷ []))) k = (h, p, s, refl, k)
with_parts-eq-ok e f [] k = cc
with_parts-eq-ok e f (h ∷ []) k = cc
with_parts-eq-ok e f (h ∷ (p ∷ [])) k = cc
with_parts-eq-ok e f (h ∷ (p ∷ (s ∷ (t ∷ ts)))) k = cc

pub is_text-eq : (t : String) (v : Js) → not (is_text t v) ≡ false → v ≡ str t
is_text-eq t (str s) h = ground (arith, eq_iff s t)
is_text-eq t Js.undefined h = cc
is_text-eq t Js.null h = cc
is_text-eq t (Js.bool b) h = cc
is_text-eq t (num z m) h = cc
is_text-eq t (Js.arr vs) h = cc
is_text-eq t (Js.obj fs) h = cc

not_lt : (a b : ℤ) → ltb_ℤ a b ≡ false → b ≤ℤ a
not_lt a b h = ground arith

module _ (rt : Runtime) where
  pub verify_ed25519-eq :
      (sig msg key : Bytes)
      → not (verify_ed25519 rt sig msg key) ≡ false
      → rt.ed25519_verify sig msg key ≡ some true
  unfolding verify_ed25519
  verify_ed25519-eq sig msg key h = ground arith

  -- A number that is not 0 and is read as an expiry is not before `now`.
  abbrev pub IsCurrent : ℕ → Option Js → Type 0
  IsCurrent now exp =
      (z : ℤ) (m : ℕ)
      → exp ≡ some (num z m)
      → is_truthy (num z m) ≡ true
      → pos 1000 *ℤ pos now ≤ℤ pos 1000 *ℤ z +ℤ pos m

  -- Three parts, whose header and payload parse, signed by the key.
  pub record IsVerified (now : ℕ) (token : String) (public_key : Bytes) (header payload : Js)
      : Type 0 where
    pub header_b64 : String
    pub payload_b64 : String
    pub sig_b64 : String
    pub parts : split_dot token ≡ header_b64 ∷ (payload_b64 ∷ (sig_b64 ∷ []))
    pub header_parses : parse_part rt header_b64 ≡ some header
    pub payload_parses : parse_part rt payload_b64 ≡ some payload
    pub alg : read "alg" header ≡ some (str "EdDSA")
    pub signature :
        rt.ed25519_verify
          (rt.base64url.decode sig_b64)
          (rt.utf8_encode (header_b64 ^^ ("." ^^ payload_b64)))
          public_key
        ≡ some true
    pub current : IsCurrent now (read "exp" payload)

  abbrev IsUnexpired : ℕ → Js → Type 0
  IsUnexpired now v = (is_truthy v && less_than rt (to_number rt v) (pos now)) ≡ false

  num_current :
      (now : ℕ) (z : ℤ) (m : ℕ)
      → IsUnexpired now (num z m)
      → is_truthy (num z m) ≡ true
      → pos 1000 *ℤ pos now ≤ℤ pos 1000 *ℤ z +ℤ pos m
  unfolding less_than to_number
  num_current now z m h t = not_lt (pos 1000 *ℤ z +ℤ pos m) (pos 1000 *ℤ pos now) (rw t at h)

  current_lem :
      (now : ℕ) (o : Option Js) {v : Js} → o ≡ some v → IsUnexpired now v → IsCurrent now o
  current_lem now o {v} e h z m k t =
      let same : v ≡ num z m = cc in num_current now z m (subst (IsUnexpired now) same h) t

  -- The checks behind the split.
  verify_parts-IsVerified :
      (now : ℕ) (token : String) (public_key : Bytes) (expected : Expected) (hb pb sb : String)
      {header payload : Js}
      → split_dot token ≡ hb ∷ (pb ∷ (sb ∷ []))
      → verify_parts rt now public_key expected hb pb sb ≡ ok (header, payload)
      → IsVerified now token public_key header payload
  unfolding verify_parts
  verify_parts-IsVerified now token public_key expected hb pb sb {header} {payload} split h =
      by_steps _ _ h λ head e1 h1. by_steps _ _ h1 λ pay e2 h2. by_steps _ _ h2 λ alg e3 h3.
        by_steps _ _ h3 λ _ e4 h4. by_steps _ _ h4 λ _ e5 h5. by_steps _ _ h5 λ exp e6 h6.
          by_steps _ _ h6 λ _ e7 h7. by_steps _ _ h7 λ iss e8 h8. by_steps _ _ h8 λ _ e9 h9.
            by_steps _ _ h9 λ aud e10 h10. by_steps _ _ h10 λ _ e11 h11.
              by_steps _ _ h11 λ nonce e12 h12. by_steps _ _ h12 λ _ e13 h13.
                let same_header : head ≡ header = ap (λ p. p.0) (ok_injective h13) in
                let same_payload : pay ≡ payload = ap (λ p. p.1) (ok_injective h13) in
                record {
                  header_b64 = hb;
                  payload_b64 = pb;
                  sig_b64 = sb;
                  parts = split;
                  header_parses = or_throw-eq-ok _ _ e1 ∙ ap some same_header;
                  payload_parses = or_throw-eq-ok _ _ e2 ∙ ap some same_payload;
                  alg =
                      subst (λ v. read "alg" v ≡ some (str "EdDSA")) same_header
                        (or_throw-eq-ok _ _ e3
                          ∙ ap some (is_text-eq "EdDSA" alg (throw_if-eq-ok _ _ e4)));
                  signature = verify_ed25519-eq _ _ _ (throw_if-eq-ok _ _ e5);
                  current =
                      subst (λ v. IsCurrent now (read "exp" v)) same_payload
                        (current_lem now _ (or_throw-eq-ok _ _ e6) (throw_if-eq-ok _ _ e7));
                }

  -- If `verifyJwt` accepts a token, at any clock and for any expectations, then the token has three
  -- parts, whose header and payload parse to what is returned, the algorithm is EdDSA, the signature
  -- over the first two parts verifies under the key, and an expiry that is a number other than 0 has
  -- not passed.
  pub verify_jwt-IsVerified :
      (now : ℕ) (token : String) (public_key : Bytes) (expected : Expected) {header payload : Js}
      → verify_jwt rt now token public_key expected ≡ ok (header, payload)
      → IsVerified now token public_key header payload
  unfolding verify_jwt
  verify_jwt-IsVerified now token public_key expected h =
      let (hb, pb, sb, split, k) = with_parts-eq-ok _ _ (split_dot token) h in
      verify_parts-IsVerified now token public_key expected hb pb sb split k
