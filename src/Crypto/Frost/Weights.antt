-- ===== src/Crypto/Frost/Weights.antt =====
-- `lagrangeCoefficient` of projects/node/src/crypto/frost.ts, which has the opposite signs of
-- `lagrangeCoeff` of projects/node/src/crypto/shamir.ts in the numerator and in the denominator, is
-- the same weight of interpolation.
use decentralized_identity_p.Prelude.{
  ℕ, ◌+◌, ◌-◌, ◌*◌, ◌<◌, ℤ, pos, ◌*ℤ◌, ◌-ℤ◌, ◌≡◌, sym, ap, ◌∙◌, ◌==◌, Bool-cases, inl, inr, List,
  [], ◌∷◌, map, All, if◌then◌else◌, arith,
}
use decentralized_identity_p.Crypto.Shamir.{mod_ℤ, lagrange_loop}
use decentralized_identity_p.Crypto.Inverse.{IsPrimeOrder}
use decentralized_identity_p.Crypto.Congruence.{
  Same, Same-refl, Same-of_eq, Same-sym, Same-trans, Same-add, Same-cancel, Same-times, Same-mod,
}
use decentralized_identity_p.Crypto.Lagrange.{weight}
use decentralized_identity_p.Crypto.Difference.{mod_ℤ-times, mod_ℤ-sub, mod_ℤ-parts, inverse_of}
use decentralized_identity_p.Crypto.Coefficient.{
  eqb_pos, numbers, inverses, weight-numbers, lagrange_loop-cons, lagrange_loop-numbers,
}
use decentralized_identity_p.Crypto.Bezout.{mod_inverse_lem}
use decentralized_identity_p.Crypto.Frost.{
  Curve, mod_inverse, coefficient_loop, lagrange_coefficient,
}

-- The number `t` is -1.
module _ (q t : ℕ) (minus : 1 + t ≡ q) where
  minus_times : (w : ℕ) → Same q (t * w + w) 0
  minus_times w = record { up = 0; down = w; eq = spread ∙ ap (λ n. w * n) minus ∙ plain }
    where
      spread : t * w + w + 0 * q ≡ w * (1 + t)
      spread = grind arith

      plain : w * q ≡ 0 + w * q
      plain = omega arith

  opposite : (c w : ℕ) → Same q (c + w) 0 → Same q c (t * w)
  opposite c w h = Same-cancel q w (Same-trans q h (Same-sym q (minus_times w)))

  minus_minus : Same q (t * t) 1
  minus_minus =
      Same-cancel q t
        (Same-trans q (minus_times t) (record { up = 1; down = 0; eq = omega (arith, minus) }))

  square_step : (s : ℕ) → Same q (s * s) 1 → Same q (s * t * (s * t)) 1
  square_step s h =
      let regroup : s * t * (s * t) ≡ s * s * (t * t) = grind arith in
      let one : s * s * 1 ≡ s * s = omega arith in
      Same-trans q (Same-of_eq q _ _ regroup)
        (Same-trans q (Same-times q (s * s) minus_minus) (Same-trans q (Same-of_eq q _ _ one) h))

  flip_step :
      (s n f c w n' f' : ℕ)
      → Same q f (s * n)
      → Same q (c + w) 0
      → Same q n' (n * w)
      → Same q f' (f * c)
      → Same q f' (s * t * n')
  flip_step s n f c w n' f' hf hc hn' hf' =
      let turned : f * c ≡ c * f = grind arith in
      let second : c * (s * n) ≡ s * n * c = grind arith in
      let third : s * n * (t * w) ≡ s * t * (n * w) = grind arith in
      Same-trans q hf' (
        Same-trans q (Same-of_eq q _ _ turned) (
          Same-trans q (Same-times q c hf) (
            Same-trans q (Same-of_eq q _ _ second) (
              Same-trans q (Same-times q (s * n) (opposite c w hc))
                (Same-trans q (Same-of_eq q _ _ third) (Same-times q (s * t) (Same-sym q hn')))))))

module _ {Point : Type 0} (curve : Curve Point) (prime : IsPrimeOrder curve.order) where
  abbrev q : ℕ
  q = curve.order

  q_positive : 0 < q
  q_positive = let l = prime.large in omega arith

  coefficient_loop-cons :
      (x y : ℕ) (js : List ℤ) (num den : ℕ)
      → coefficient_loop curve (pos x) (pos y ∷ js) num den
        ≡ coefficient_loop curve
            (pos x)
            js
            (if y == x then num else mod_ℤ (pos num *ℤ (pos 0 -ℤ pos y)) q)
            (if y == x then den else mod_ℤ (pos den *ℤ (pos x -ℤ pos y)) q)
  unfolding coefficient_loop
  coefficient_loop-cons x y js num den =
      ap
        (λ b.
          coefficient_loop curve (pos x) js
            (if b then num else mod_ℤ (pos num *ℤ (pos 0 -ℤ pos y)) q)
            (if b then den else mod_ℤ (pos den *ℤ (pos x -ℤ pos y)) q))
        (eqb_pos y x)

  -- The two loops differ by a sign s, whose square is 1.
  record SameSign (frost shamir : ℕ × ℕ) : Type 0 where
    s : ℕ
    square : Same q (s * s) 1
    top : Same q frost.0 (s * shamir.0)
    bottom : Same q frost.1 (s * shamir.1)

  negated : (y : ℕ) → Same q (mod_ℤ (pos 0 -ℤ pos y) q + mod_ℤ (pos y) q) 0
  negated y =
      let reduced : Same q (mod_ℤ (pos y) q + 0) y = mod_ℤ-parts q q_positive (pos y) in
      let m = mod_ℤ (pos y) q in
      Same-trans q
        (Same-add q (Same-refl q (mod_ℤ (pos 0 -ℤ pos y) q))
          (Same-trans q (Same-of_eq q m (m + 0) (omega arith)) reduced))
        (mod_ℤ-sub q q_positive 0 y)

  turned_round : (x y : ℕ) → Same q (mod_ℤ (pos x -ℤ pos y) q + mod_ℤ (pos y -ℤ pos x) q) 0
  turned_round x y =
      let e = mod_ℤ (pos x -ℤ pos y) q in
      let d = mod_ℤ (pos y -ℤ pos x) q in
      Same-cancel q (x + y) (
        Same-trans q (Same-of_eq q (e + d + (x + y)) (e + y + (d + x)) (omega arith)) (
          Same-trans q (Same-add q (mod_ℤ-sub q q_positive x y) (mod_ℤ-sub q q_positive y x))
            (Same-of_eq q (x + y) (0 + (x + y)) (omega arith))))

  coefficient_loop-SameSign :
      (x : ℕ) (ys : List ℕ) (num den num' den' : ℕ)
      → SameSign (num, den) (num', den')
      → SameSign
          (coefficient_loop curve (pos x) (map pos ys) num den)
          (lagrange_loop q (pos x) (map pos ys) num' den')
  coefficient_loop-SameSign x [] num den num' den' h = unfold coefficient_loop lagrange_loop in h
  coefficient_loop-SameSign x (y ∷ ys) num den num' den' h = elim (Bool-cases (y == x)) [
    | inl e ↦
        rw
          (
            coefficient_loop-cons x y (map pos ys) num den,
            lagrange_loop-cons q prime x y (map pos ys) num' den',
            e,
          )
          (coefficient_loop-SameSign x ys num den num' den' h)
    | inr e ↦
        let t = q - 1 in
        let minus : 1 + t ≡ q = let l = q_positive in omega arith in
        let num_ = mod_ℤ (pos num *ℤ (pos 0 -ℤ pos y)) q in
        let den_ = mod_ℤ (pos den *ℤ (pos x -ℤ pos y)) q in
        let num'_ = mod_ℤ (pos num' *ℤ pos y) q in
        let den'_ = mod_ℤ (pos den' *ℤ (pos y -ℤ pos x)) q in
        rw
          (
            coefficient_loop-cons x y (map pos ys) num den,
            lagrange_loop-cons q prime x y (map pos ys) num' den',
            e,
          )
          (coefficient_loop-SameSign x ys num_ den_ num'_ den'_ (record {
            s = h.s * t;
            square = square_step q t minus h.s h.square;
            top =
                flip_step q t minus h.s num' num _ _ num'_ num_ h.top (negated y)
                  (mod_ℤ-times q q_positive num' (pos y))
                  (mod_ℤ-times q q_positive num (pos 0 -ℤ pos y));
            bottom =
                flip_step q t minus h.s den' den _ _ den'_ den_ h.bottom (turned_round x y)
                  (mod_ℤ-times q q_positive den' (pos y -ℤ pos x))
                  (mod_ℤ-times q q_positive den (pos x -ℤ pos y));
          }))
  ]

  one_inverse : (d m b : ℕ) → Same q (d * m) 1 → Same q (d * b) 1 → Same q m b
  one_inverse d m b hm hb =
      let first : m ≡ m * 1 = omega arith in
      let second : m * (d * b) ≡ b * (d * m) = grind arith in
      let third : b * 1 ≡ b = omega arith in
      Same-trans q (Same-of_eq q _ _ first) (
        Same-trans q (Same-times q m (Same-sym q hb)) (
          Same-trans q (Same-of_eq q _ _ second)
            (Same-trans q (Same-times q b hm) (Same-of_eq q _ _ third))))

  -- The denominator's sign goes with its inverse.
  signed_inverse :
      (s d d' v : ℕ)
      → Same q (s * s) 1
      → Same q d (s * d')
      → Same q (d' * v) 1
      → Same q (d * (s * v)) 1
  signed_inverse s d d' v square hd hv =
      let first : d * (s * v) ≡ s * v * d = grind arith in
      let second : s * v * (s * d') ≡ s * s * (d' * v) = grind arith in
      let third : s * s * 1 ≡ s * s = omega arith in
      Same-trans q (Same-of_eq q _ _ first) (
        Same-trans q (Same-times q (s * v) hd) (
          Same-trans q (Same-of_eq q _ _ second) (
            Same-trans q (Same-times q (s * s) hv) (Same-trans q (Same-of_eq q _ _ third) square))))

  signs_cancel :
      (s n n' k m v : ℕ)
      → Same q (s * s) 1
      → Same q n (s * n')
      → Same q n' (1 * k)
      → Same q m (s * v)
      → Same q (n * m) (k * v)
  signs_cancel s n n' k m v square hn hn' hm =
      let first : n * (s * v) ≡ s * v * n = grind arith in
      let second : s * v * (s * n') ≡ v * n' * (s * s) = grind arith in
      let third : v * n' * 1 ≡ v * n' = omega arith in
      let fourth : v * (1 * k) ≡ k * v = grind arith in
      Same-trans q (Same-times q n hm) (
        Same-trans q (Same-of_eq q _ _ first) (
          Same-trans q (Same-times q (s * v) hn) (
            Same-trans q (Same-of_eq q _ _ second) (
              Same-trans q (Same-times q (v * n') square) (
                Same-trans q (Same-of_eq q _ _ third)
                  (Same-trans q (Same-times q v hn') (Same-of_eq q _ _ fourth)))))))

  -- The coefficient of a participant whose number, like those of the others, is below the order.
  pub lagrange_coefficient-weight :
      (x : ℕ) (ys : List ℕ)
      → x < q
      → All (λ y. y < q) ys
      → Same q
          (lagrange_coefficient curve (pos x) (map pos ys))
          (weight q (inverse_of q prime) x ys)
  unfolding lagrange_coefficient
  lagrange_coefficient-weight x ys h hs =
      let (top, bottom) = lagrange_loop-numbers q prime x ys 1 1 h hs in
      let frost = coefficient_loop curve (pos x) (map pos ys) 1 1 in
      let shamir = lagrange_loop q (pos x) (map pos ys) 1 1 in
      let start : SameSign (1, 1) (1, 1) = record {
        s = 1;
        square = Same-refl q 1;
        top = Same-refl q 1;
        bottom = Same-refl q 1;
      } in
      let same = coefficient_loop-SameSign x ys 1 1 1 1 start in
      let v = inverses q prime x ys in
      let unit = signed_inverse same.s frost.1 shamir.1 v same.square same.bottom bottom in
      let inverse = mod_inverse_lem q q_positive frost.1 (same.s * v) unit in
      let m = mod_inverse (pos frost.1) q in
      Same-trans q (Same-mod q (frost.0 * m)) (
        Same-trans q
          (signs_cancel same.s frost.0 shamir.0 (numbers q prime x ys) m v same.square same.top top
            (one_inverse frost.1 m (same.s * v) inverse unit))
          (Same-of_eq q _ _ (sym (weight-numbers q prime x ys))))
