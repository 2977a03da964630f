-- ===== src/Crypto/Bezout.antt =====
-- `modInverse` of projects/node/src/crypto/frost.ts gives the inverse: the loop of the extended
-- Euclidean algorithm keeps Bézout's equations.
use native.Mathlib.Nat.{mod-eq_of_lt, div-add-mod', add-mul-mod_self_right}
use decentralized_identity_p.Prelude.{
  ℕ, zero, suc, ◌+◌, ◌-◌, ◌*◌, ◌/◌, ◌%◌, ◌<◌, ◌==◌, ℤ, pos, pos_part, neg_part, ◌*ℤ◌, ◌-ℤ◌,
  -ℤ_parts, ◌≡◌, refl, sym, ap, subst, ◌∙◌, Bool-cases, inl, inr, arith,
}
use decentralized_identity_p.Crypto.Shamir.{mod_ℤ}
use decentralized_identity_p.Crypto.Frost.{inverse_loop, mod_inverse}
use decentralized_identity_p.Crypto.Euclid.{Runs, remainder_falls, inverse_loop-Runs}
use decentralized_identity_p.Crypto.Congruence.{
  Same, Same-refl, Same-of_eq, Same-sym, Same-trans, Same-add, Same-cancel, Same-times, Same-mod,
  mod-of_Same,
}
use decentralized_identity_p.Crypto.Difference.{mod_ℤ-parts, mod_ℤ-times}

abbrev Divides : ℕ → ℕ → Type 0
Divides g n = (k : ℕ) × (k * g ≡ n)

Divides-add : (g m n : ℕ) → Divides g m → Divides g n → Divides g (m + n)
Divides-add g m n (k, e) (l, f) = (k + l, grind arith)

Divides-times : (g m n : ℕ) → Divides g m → Divides g (n * m)
Divides-times g m n (k, e) = (n * k, associate ∙ ap (λ t. n * t) e)
  where
    associate : n * k * g ≡ n * (k * g)
    associate = grind arith

-- A divisor of two numbers that differ by 1 is 1.
Divides-one : (g n : ℕ) → Divides g n → Divides g (1 + n) → g ≡ 1
Divides-one zero n (k, e) (l, f) = absurd (omega arith)
Divides-one (suc zero) n d d' = refl
Divides-one (suc (suc g)) n (k, e) (l, f) =
    let m = suc (suc g) in
    let left : (1 + k * m) % m ≡ 1 % m = add-mul-mod_self_right 1 k m in
    let right : (0 + l * m) % m ≡ 0 % m = add-mul-mod_self_right 0 l m in
    let equal : 1 + k * m ≡ 0 + l * m = omega arith in
    let whole : 1 % m ≡ 0 % m = sym left ∙ ap (λ t. t % m) equal ∙ right in absurd (ground arith)

module _ (q : ℕ) (positive : 0 < q) where
  -- The remainder of a difference with a multiple.
  mod_ℤ-minus : (k : ℕ) (a b : ℤ) → Same q (mod_ℤ (a -ℤ pos k *ℤ b) q + k * mod_ℤ b q) (mod_ℤ a q)
  mod_ℤ-minus k a b =
      let c = pos k *ℤ b in
      let d = a -ℤ c in
      let whole = mod_ℤ-parts q positive d in
      let part = mod_ℤ-parts q positive c in
      let first = mod_ℤ-parts q positive a in
      let times = mod_ℤ-times q positive k b in
      let parts = -ℤ_parts a c in
      let up : pos_part d + neg_part a + pos_part c ≡ neg_part d + pos_part a + neg_part c =
        parts in
      gather _ _ _ _ _ _ _ _ _ _ whole part first times parts
    where
      gather :
          (d c a t dp dn cp cn ap_ an : ℕ)
          → Same q (d + dn) dp
          → Same q (c + cn) cp
          → Same q (a + an) ap_
          → Same q c t
          → dp + an + cp ≡ dn + ap_ + cn
          → Same q (d + t) a
      gather d c a t dp dn cp cn ap_ an hd hc ha ht e = Same-cancel q (dn + an + cn) (
          Same-trans q
            (Same-trans q (Same-add q (Same-add q (Same-refl q d) (Same-sym q ht)) (Same-refl q _))
              (Same-of_eq q _ (d + dn + (c + cn) + an) (omega arith)))
            (Same-trans q (Same-add q (Same-add q hd hc) (Same-refl q an)) (
              Same-trans q (Same-of_eq q _ (ap_ + (dn + cn)) (omega arith)) (
                Same-trans q (Same-add q (Same-sym q ha) (Same-refl q (dn + cn)))
                  (Same-of_eq q _ _ (omega arith))))))

  next_row :
      (k s s' t a r r' r'' : ℕ)
      → Same q (s' + k * t) s
      → Same q (s * a) r
      → Same q (t * a) r'
      → r'' + k * r' ≡ r
      → Same q (s' * a) r''
  next_row k s s' t a r r' r'' hs hr hr' e =
      let spread : a * (s' + k * t) ≡ s' * a + k * (t * a) = grind arith in
      let turned : a * s ≡ s * a = grind arith in
      Same-cancel q (k * r') (
        Same-trans q (Same-add q (Same-refl q (s' * a)) (Same-times q k (Same-sym q hr'))) (
          Same-trans q (Same-of_eq q _ _ (sym spread)) (
            Same-trans q (Same-times q a hs) (
              Same-trans q (Same-of_eq q _ _ turned)
                (Same-trans q hr (Same-of_eq q _ _ (sym e)))))))

  -- The coefficient that the loop ends with, times a, is a common divisor of the two remainders.
  inverse_loop_lem :
      (a fuel old_r r : ℕ) (old_s s : ℤ)
      → r < fuel
      → Same q (mod_ℤ old_s q * a) old_r
      → Same q (mod_ℤ s q * a) r
      → (g : ℕ) × Same q (mod_ℤ (inverse_loop fuel old_r r old_s s) q * a) g
        × Divides g old_r
        × Divides g r
  unfolding inverse_loop
  inverse_loop_lem a zero old_r r old_s s h ho hr = absurd (omega arith)
  inverse_loop_lem a (suc fuel) old_r r old_s s h ho hr = elim (Bool-cases (r == 0)) [
    | inl ended ↦ rw ended (old_r, ho, (1, omega arith), (0, ground arith))
    | inr more ↦
        let k = old_r / r in
        let next = old_r - k * r in
        let whole = div-add-mod' old_r r in
        let falls = remainder_falls old_r r more in
        let split : next + k * r ≡ old_r = omega arith in
        let row =
          next_row k (mod_ℤ old_s q) (mod_ℤ (old_s -ℤ pos k *ℤ s) q) (mod_ℤ s q) a old_r r next
            (mod_ℤ-minus k old_s s) ho hr split in
        let (g, found, of_r, of_next) =
          inverse_loop_lem a fuel r next s (old_s -ℤ pos k *ℤ s) (omega arith) hr row in
        rw more (
          g,
          found,
          subst (Divides g) split (Divides-add g next (k * r) of_next (Divides-times g r k of_r)),
          of_r,
        )
  ]

  -- A common divisor of a number with an inverse and the order is 1.
  unit_divisor : (a b g : ℕ) → Same q (a * b) 1 → Divides g (a % q) → Divides g q → g ≡ 1
  unit_divisor a b g unit of_a of_q =
      let whole = div-add-mod' a q in
      let a_whole : Divides g a =
        subst (Divides g) whole (Divides-add g _ _ (Divides-times g q (a / q) of_q) of_a) in
      let turned : b * a ≡ a * b = grind arith in
      let product : Divides g (a * b) = subst (Divides g) turned (Divides-times g a b a_whole) in
      Divides-one g (unit.down * q) (Divides-times g q unit.down of_q) (
        subst (Divides g) unit.eq
          (Divides-add g (a * b) (unit.up * q) product (Divides-times g q unit.up of_q)))

  -- A number with an inverse modulo the order: `modInverse` gives it.
  pub mod_inverse_lem : (a b : ℕ) → Same q (a * b) 1 → Same q (a * mod_inverse (pos a) q) 1
  unfolding mod_inverse mod_ℤ
  mod_inverse_lem a b unit =
      let m = a % q in
      let (g, found, of_a, of_q) =
        inverse_loop_lem m (suc q) m q (pos 1) (pos 0) (omega arith) (first_row m) (second_row m) in
      let one : g ≡ 1 = unit_divisor a b g unit of_a of_q in
      let i = mod_inverse (pos a) q in
      let turned : a * i ≡ i * a = grind arith in
      Same-trans q (Same-of_eq q _ _ turned) (
        Same-trans q (Same-times q i (Same-sym q (Same-mod q a)))
          (Same-trans q found (Same-of_eq q _ _ one)))
    where
      times_left : (c n : ℕ) → c * n ≡ n * c
      times_left c n = grind arith

      first_row : (n : ℕ) → Same q (1 % q * n) n
      first_row n =
          Same-trans q (Same-of_eq q _ _ (times_left (1 % q) n))
            (Same-trans q (Same-times q n (Same-mod q 1)) (Same-of_eq q (n * 1) n (omega arith)))

      second_row : (n : ℕ) → Same q (0 % q * n) q
      second_row n = Same-trans q (Same-of_eq q _ _ (times_left (0 % q) n)) (
          Same-trans q (Same-times q n (Same-mod q 0))
            (record { up = 1; down = 0; eq = omega arith }))

-- If a number has an inverse modulo a modulus greater than 1, then the loop of `modInverse`, which has
-- no bound of its own, ends, `modInverse` gives the coefficient that it ends with, reduced, and that is
-- an inverse.
pub mod_inverse-unit :
    (a b m : ℕ)
    → 1 < m
    → a * b % m ≡ 1
    → (t : ℤ) × Runs (a % m) m (pos 1) (pos 0) t
      × (mod_inverse (pos a) m ≡ mod_ℤ t m)
      × (a * mod_inverse (pos a) m % m ≡ 1)
unfolding mod_inverse mod_ℤ
mod_inverse-unit a b m large unit =
    let start : Same m (a * b) 1 =
      Same-trans m (Same-sym m (Same-mod m (a * b))) (Same-of_eq m _ _ unit) in
    (
      inverse_loop (suc m) (a % m) m (pos 1) (pos 0),
      inverse_loop-Runs (suc m) (a % m) m (pos 1) (pos 0) (omega arith),
      refl,
      mod-of_Same m (mod_inverse_lem m (omega arith) a b start) ∙ mod-eq_of_lt large,
    )
