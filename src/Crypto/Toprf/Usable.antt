-- ===== src/Crypto/Toprf/Usable.antt =====
-- The coefficients and the inverse with which `unblind` of projects/node/src/crypto/toprf.ts multiplies
-- points are scalars that noble accepts: none is 0.
use native.Mathlib.Nat.{mod-lt, mod-eq_of_lt}
use decentralized_identity_p.Prelude.{
  ℕ, ◌+◌, ◌-◌, ◌*◌, ◌^◌, ◌%◌, ◌<◌, ℤ, pos, ◌≡◌, ◌≢◌, refl, sym, ap, ◌∙◌, ◌==◌, ==_iff, Bool-cases,
  inl, inr, some, List, [], ◌∷◌, map, All, ok, >>=-ok, ok_injective, false, or_throw, arith,
}
use decentralized_identity_p.Runtime.{Runtime}
use decentralized_identity_p.Crypto.Shamir.{mod_ℤ, mod_pow, invert, lagrange_coeff}
use decentralized_identity_p.Crypto.Power.{mod_pow_lem}
use decentralized_identity_p.Crypto.Inverse.{IsPrimeOrder, invert_lem}
use decentralized_identity_p.Crypto.Congruence.{
  Same, Same-refl, Same-of_eq, Same-sym, Same-trans, Same-times, Same-mod, mod-of_Same,
}
use decentralized_identity_p.Crypto.Lagrange.{weight}
use decentralized_identity_p.Crypto.Difference.{
  difference, difference-inverse_of, inverse_of, inverse_of_lem,
}
use decentralized_identity_p.Crypto.Coefficient.{lagrange_coeff-weight}
use decentralized_identity_p.Crypto.Toprf.{Group, Partial, bad_scalar, of_shamir, combine_points}

-- What the program relies on of `multiply`: it takes the scalars from 1 to the order less 1, and no
-- others.
pub record IsRanged {Point : Type 0} (group : Group Point) : Type 0 where
  pub multiply_some :
      (p : Point) (n : ℕ) → 0 < n → n < group.order → (m : Point) × (group.multiply p n ≡ some m)
  pub multiply_range :
      (p : Point) (n : ℕ) {m : Point} → group.multiply p n ≡ some m → (0 < n) × (n < group.order)

module _ (q : ℕ) (prime : IsPrimeOrder q) where
  zero_not_unit : (n b : ℕ) → Same q (n * b) 1 → n ≢ 0
  zero_not_unit n b unit none_left =
      let l = prime.large in
      let gone : n * b ≡ 0 = ap (λ m. m * b) none_left ∙ times_zero in
      let same = mod-of_Same q (Same-trans q (Same-of_eq q 0 (n * b) (sym gone)) unit) in
      let left : 0 % q ≡ 0 = mod-eq_of_lt (omega arith) in
      let right : 1 % q ≡ 1 = mod-eq_of_lt (omega arith) in omega (arith, same, left, right)
    where
      times_zero : 0 * b ≡ 0
      times_zero = omega arith

  times_unit :
      (y v w b i d : ℕ)
      → Same q (w * b) 1
      → Same q (i * y) (1 + i * 0)
      → Same q (d * v) 1
      → Same q (y * v * w * (b * i * d)) 1
  times_unit y v w b i d hw hi hd =
      let first : y * v * w * (b * i * d) ≡ i * y * (d * v) * (w * b) = grind arith in
      let second : i * y * (d * v) * 1 ≡ i * y * (d * v) = omega arith in
      let third : i * y * 1 ≡ i * y = omega arith in
      let fourth : 1 + i * 0 ≡ 1 = omega arith in
      Same-trans q (Same-of_eq q _ _ first) (
        Same-trans q (Same-times q (i * y * (d * v)) hw) (
          Same-trans q (Same-of_eq q _ _ second) (
            Same-trans q (Same-times q (i * y) hd)
              (Same-trans q (Same-of_eq q _ _ third) (Same-trans q hi (Same-of_eq q _ _ fourth))))))

  -- The weight of a participant has an inverse, where no participant has the number 0.
  weight-unit :
      (x : ℕ) (ys : List ℕ)
      → x < q
      → All (λ y. 0 < y) ys
      → All (λ y. y < q) ys
      → (b : ℕ) × Same q (weight q (inverse_of q prime) x ys * b) 1
  unfolding weight
  weight-unit x [] h hp hs = (1, Same-refl q 1)
  weight-unit x (y ∷ ys) h (some_, hp) (small, hs) =
      let (b, unit) = weight-unit x ys h hp hs in
      elim (Bool-cases (y == x)) [
        | inl e ↦ rw e (b, unit)
        | inr e ↦
            let l = prime.large in
            let other : y ≢ x = λ k. let yes_ = (==_iff y x).1 k in cc in
            rw e (
              b * inverse_of q prime y 0 * difference q prime y x,
              times_unit y (inverse_of q prime y x) _ b (inverse_of q prime y 0)
                  (difference q prime y x) unit
                  (inverse_of_lem q prime y 0 small (omega arith) (λ k. omega arith))
                  (difference-inverse_of q prime y x small h other),
            )
      ]

  -- A coefficient that `multiply` takes.
  abbrev pub IsUsable : List ℤ → ℤ → Type 0
  IsUsable ids i = (l : ℕ) × (lagrange_coeff q ids i ≡ ok l) × (0 < l) × (l < q)

  pub lagrange_coeff-IsUsable :
      (x : ℕ) (ys : List ℕ)
      → x < q
      → All (λ y. 0 < y) ys
      → All (λ y. y < q) ys
      → IsUsable (map pos ys) (pos x)
  lagrange_coeff-IsUsable x ys h hp hs =
      let (l, e, bound, same) = lagrange_coeff-weight q prime x ys h hs in
      let (b, unit) = weight-unit x ys h hp hs in
      let w = weight q (inverse_of q prime) x ys in
      let turned : l * b ≡ b * l = grind arith in
      let back : b * w ≡ w * b = grind arith in
      let nonzero = zero_not_unit l b (
        Same-trans q (Same-of_eq q _ _ turned)
          (Same-trans q (Same-times q b same) (Same-trans q (Same-of_eq q _ _ back) unit))) in
      (l, e, ground arith, bound)

  pub invert-IsUsable :
      (r : ℕ) → 0 < r → r < q → (b : ℕ) × (invert q (pos r) ≡ ok b) × (0 < b) × (b < q)
  unfolding invert mod_ℤ
  invert-IsUsable r h small = elim (invert_lem q prime (pos r)) [
    | inl (none_left, _) ↦ let same = mod-eq_of_lt small in absurd (omega arith)
    | inr (b, found, unit) ↦
        let l = prime.large in
        let same : r % q ≡ r = mod-eq_of_lt small in
        let nonzero : (r % q == 0) ≡ false = ground arith in
        let value : b ≡ mod_pow (r % q) (q - 2) q = ok_injective (sym found ∙ rw nonzero refl) in
        let below : (r % q) ^ (q - 2) % q < q = mod-lt _ (omega arith) in
        let turned : b * (r % q) ≡ r % q * b = grind arith in
        let power = mod_pow_lem (r % q) (q - 2) q (omega arith) in
        let other = zero_not_unit b (r % q) (
          Same-trans q (Same-of_eq q _ _ turned)
            (Same-trans q (Same-sym q (Same-mod q _)) (Same-of_eq q _ _ unit))) in
        (b, found, ground arith, omega (arith, value, power, below))
  ]

module _ (rt : Runtime) {Point : Type 0} (group : Group Point) (prime : IsPrimeOrder group.order)
    (ranged : IsRanged group) where
  -- Partial evaluations with usable coefficients always combine.
  pub combine_points-ok :
      (ids : List ℤ) (ps : List (Partial Point)) (combined : Point)
      → All (IsUsable group.order prime ids) (map (λ (p : Partial Point). p.id) ps)
      → (v : Point) × (combine_points rt group ids ps combined ≡ ok v)
  unfolding combine_points
  combine_points-ok ids [] combined h = (combined, refl)
  combine_points-ok ids (p ∷ ps) combined ((l, e, large, small), h) =
      let (term, k) = ranged.multiply_some p.point l large small in
      let (v, rest) = combine_points-ok ids ps (group.add combined term) h in
      (v, >>=-ok _ (ap of_shamir e) (>>=-ok _ (ap (λ o. or_throw o bad_scalar) k) rest))
