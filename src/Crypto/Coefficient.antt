-- ===== src/Crypto/Coefficient.antt =====
-- `lagrangeCoeff` of projects/node/src/crypto/shamir.ts is the weight of interpolation.
use native.Mathlib.Nat.{mod-lt, add-zero}
use decentralized_identity_p.Prelude.{
  ℕ, ◌+◌, ◌*◌, ◌%◌, ◌<◌, ℤ, pos, eqb_ℤ, ◌*ℤ◌, ◌-ℤ◌, ◌≡◌, ◌≢◌, refl, sym, ap, subst, ◌∙◌, ◌==◌,
  ==_iff, Bool-cases, inl, inr, List, [], ◌∷◌, map, All, if◌then◌else◌, ok, >>=-ok, arith,
}
use decentralized_identity_p.Crypto.Shamir.{mod_ℤ, lagrange_loop, lagrange_coeff}
use decentralized_identity_p.Crypto.Inverse.{IsPrimeOrder, invert_lem}
use decentralized_identity_p.Crypto.Congruence.{
  Same, Same-of_eq, Same-sym, Same-trans, Same-times, Same-mod,
}
use decentralized_identity_p.Crypto.Lagrange.{weight}
use decentralized_identity_p.Crypto.Difference.{
  mod_ℤ-parts, mod_ℤ-times, difference, inverse_of, q_positive, below, one_of_mod,
  difference-inverse_of,
}

zero_ne_one : ◌≢◌ {A = ℕ} 0 1
zero_ne_one e = omega arith

pub eqb_pos : (y x : ℕ) → eqb_ℤ (pos y) (pos x) ≡ (y == x)
eqb_pos y x = rw (add-zero y, add-zero x) refl

module _ (q : ℕ) (prime : IsPrimeOrder q) where
  -- The numbers of the other participants, multiplied, and the inverses of the differences.
  pub numbers : ℕ → List ℕ → ℕ
  numbers x [] = 1
  numbers x (y ∷ ys) = if y == x then numbers x ys else y * numbers x ys

  pub inverses : ℕ → List ℕ → ℕ
  inverses x [] = 1
  inverses x (y ∷ ys) = if y == x then inverses x ys else inverse_of q prime y x * inverses x ys

  pub weight-numbers :
      (x : ℕ) (ys : List ℕ) → weight q (inverse_of q prime) x ys ≡ numbers x ys * inverses x ys
  unfolding weight numbers inverses
  weight-numbers x [] = refl
  weight-numbers x (y ∷ ys) = elim (Bool-cases (y == x)) [
    | inl e ↦ rw e (weight-numbers x ys)
    | inr e ↦ rw e (
        ap (λ t. y * inverse_of q prime y x * t) (weight-numbers x ys)
        ∙ exchange y (inverse_of q prime y x) (numbers x ys) (inverses x ys))
  ]
    where
      exchange : (k l m n : ℕ) → k * l * (m * n) ≡ k * m * (l * n)
      exchange k l m n = grind arith

  pub lagrange_loop-cons :
      (x y : ℕ) (js : List ℤ) (num den : ℕ)
      → lagrange_loop q (pos x) (pos y ∷ js) num den
        ≡ lagrange_loop q
            (pos x)
            js
            (if y == x then num else mod_ℤ (pos num *ℤ pos y) q)
            (if y == x then den else mod_ℤ (pos den *ℤ (pos y -ℤ pos x)) q)
  unfolding lagrange_loop
  lagrange_loop-cons x y js num den =
      ap
        (λ t.
          lagrange_loop q (pos x) js (if t then num else mod_ℤ (pos num *ℤ pos y) q)
            (if t then den else mod_ℤ (pos den *ℤ (pos y -ℤ pos x)) q))
        (eqb_pos y x)

  step_up :
      (num num' y n top : ℕ)
      → Same q top (num' * n)
      → Same q num' (num * mod_ℤ (pos y) q)
      → Same q top (num * (y * n))
  step_up num num' y n top h k =
      let m = mod_ℤ (pos y) q in
      let reduced : Same q (m + 0) y = mod_ℤ-parts q (q_positive q prime) (pos y) in
      let first : num' * n ≡ n * num' = grind arith in
      let second : n * (num * m) ≡ n * num * (m + 0) = grind arith in
      let third : n * num * y ≡ num * (y * n) = grind arith in
      Same-trans q h (
        Same-trans q (Same-of_eq q _ _ first) (
          Same-trans q (Same-times q n k) (
            Same-trans q (Same-of_eq q _ _ second)
              (Same-trans q (Same-times q (n * num) reduced) (Same-of_eq q _ _ third)))))

  step_down :
      (den den' d v n bottom : ℕ)
      → Same q (bottom * n) den'
      → Same q den' (den * d)
      → Same q (d * v) 1
      → Same q (bottom * (v * n)) den
  step_down den den' d v n bottom h k i =
      let first : bottom * (v * n) ≡ v * (bottom * n) = grind arith in
      let second : v * (den * d) ≡ den * (d * v) = grind arith in
      let third : den * 1 ≡ den = omega arith in
      Same-trans q (Same-of_eq q _ _ first) (
        Same-trans q (Same-times q v h) (
          Same-trans q (Same-times q v k) (
            Same-trans q (Same-of_eq q _ _ second)
              (Same-trans q (Same-times q den i) (Same-of_eq q _ _ third)))))

  -- The loop gives the numerator and, with the inverses, takes the denominator back.
  pub lagrange_loop-numbers :
      (x : ℕ) (ys : List ℕ) (num den : ℕ)
      → x < q
      → All (λ y. y < q) ys
      → Same q (lagrange_loop q (pos x) (map pos ys) num den).0 (num * numbers x ys)
        × Same q ((lagrange_loop q (pos x) (map pos ys) num den).1 * inverses x ys) den
  unfolding numbers inverses
  lagrange_loop-numbers x [] num den h hs =
      unfold lagrange_loop in (Same-of_eq q _ _ (omega arith), Same-of_eq q _ _ (omega arith))
  lagrange_loop-numbers x (y ∷ ys) num den h (hy, hs) = elim (Bool-cases (y == x)) [
    | inl e ↦
        rw (lagrange_loop-cons x y (map pos ys) num den, e)
          (lagrange_loop-numbers x ys num den h hs)
    | inr e ↦
        let other : y ≢ x = λ k. let yes_ = (==_iff y x).1 k in cc in
        let num' = mod_ℤ (pos num *ℤ pos y) q in
        let den' = mod_ℤ (pos den *ℤ (pos y -ℤ pos x)) q in
        let (top, bottom) = lagrange_loop-numbers x ys num' den' h hs in
        let result = lagrange_loop q (pos x) (map pos ys) num' den' in
        let v = inverse_of q prime y x in
        rw (lagrange_loop-cons x y (map pos ys) num den, e)
          (
            step_up num num' y (numbers x ys) _ top
                (mod_ℤ-times q (q_positive q prime) num (pos y)),
            step_down den den' (difference q prime y x) v (inverses x ys) result.1 bottom
                (mod_ℤ-times q (q_positive q prime) den (pos y -ℤ pos x))
                (difference-inverse_of q prime y x hy h other),
          )
  ]

  no_zero : (den v : ℕ) → mod_ℤ (pos den) q ≡ 0 → Same q (den * v) 1 → ⊥
  no_zero den v none_left h =
      let reduced : Same q (0 + 0) den =
        subst (λ m. Same q (m + 0) den) none_left (mod_ℤ-parts q (q_positive q prime) (pos den)) in
      let gone : Same q (v * 0) (v * den) = Same-times q v reduced in
      let none_ : v * 0 ≡ 0 = omega arith in
      let turned : v * den ≡ den * v = grind arith in
      let l = prime.large in
      let equal : 0 ≡ 1 = below q prime 0 1 (omega arith) (omega arith) (
        Same-trans q (Same-of_eq q 0 (v * 0) (sym none_))
          (Same-trans q gone (Same-trans q (Same-of_eq q _ _ turned) h))) in
      absurd (zero_ne_one equal)

  -- Two inverses of one number are the same.
  inverse_unique : (den b v : ℕ) → (mod_ℤ (pos den) q * b) % q ≡ 1 → Same q (den * v) 1 → Same q b v
  inverse_unique den b v unit h =
      let m = mod_ℤ (pos den) q in
      let reduced : Same q (m + 0) den = mod_ℤ-parts q (q_positive q prime) (pos den) in
      let first : b ≡ b * 1 = omega arith in
      let second : b * (den * v) ≡ b * v * den = grind arith in
      let third : b * v * (m + 0) ≡ v * (m * b) = grind arith in
      let fourth : v * 1 ≡ v = omega arith in
      Same-trans q (Same-of_eq q _ _ first) (
        Same-trans q (Same-times q b (Same-sym q h)) (
          Same-trans q (Same-of_eq q _ _ second) (
            Same-trans q (Same-times q (b * v) (Same-sym q reduced)) (
              Same-trans q (Same-of_eq q _ _ third) (
                Same-trans q (Same-times q v (one_of_mod q prime _ unit))
                  (Same-of_eq q _ _ fourth))))))

  product : (num n b v : ℕ) → Same q num (1 * n) → Same q b v → Same q (num * b) (n * v)
  product num n b v h k =
      let first : num * b ≡ b * num = grind arith in
      let second : b * (1 * n) ≡ n * b = grind arith in
      Same-trans q (Same-of_eq q _ _ first) (
        Same-trans q (Same-times q b h) (Same-trans q (Same-of_eq q _ _ second) (Same-times q n k)))

  -- The coefficient of a participant among participants of different numbers below q prime the order: it never
  -- throws, and is the weight of interpolation.
  pub lagrange_coeff-weight :
      (x : ℕ) (ys : List ℕ)
      → x < q
      → All (λ y. y < q) ys
      → (l : ℕ) × (lagrange_coeff q (map pos ys) (pos x) ≡ ok l)
        × (l < q)
        × Same q l (weight q (inverse_of q prime) x ys)
  unfolding lagrange_coeff
  lagrange_coeff-weight x ys h hs =
      let (top, bottom) = lagrange_loop-numbers x ys 1 1 h hs in
      let num = (lagrange_loop q (pos x) (map pos ys) 1 1).0 in
      let den = (lagrange_loop q (pos x) (map pos ys) 1 1).1 in
      let v = inverses x ys in
      elim (invert_lem q prime (pos den)) [
        | inl (none_left, _) ↦ absurd (no_zero den v none_left bottom)
        | inr (b, found, unit) ↦ (
          (num * b) % q,
          >>=-ok _ found refl,
          mod-lt (num * b) (q_positive q prime),
          Same-trans q (Same-mod q (num * b)) (
              Same-trans q (product num (numbers x ys) b v top (inverse_unique den b v unit bottom))
                (Same-of_eq q _ _ (sym (weight-numbers x ys)))),
        )
      ]
