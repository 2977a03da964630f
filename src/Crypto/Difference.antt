-- ===== src/Crypto/Difference.antt =====
-- The differences of the participants' numbers in projects/node/src/crypto/shamir.ts have inverses
-- modulo a prime order.
use native.Mathlib.Nat.{mod-lt, mod-eq_of_lt}
use decentralized_identity_p.Prelude.{
  ℕ, suc, ◌+◌, ◌-◌, ◌*◌, ◌%◌, ◌<◌, ℤ, pos, negsuc, pos_part, neg_part, sub_ℕ, ◌*ℤ◌, ◌-ℤ◌, -ℤ_parts,
  ◌≡◌, ◌≢◌, sym, ◌∙◌, inl, inr, ok, err, arith,
}
use decentralized_identity_p.Crypto.Shamir.{mod_ℤ, invert}
use decentralized_identity_p.Crypto.Inverse.{IsPrimeOrder, invert_lem}
use decentralized_identity_p.Crypto.Congruence.{
  Same, Same-refl, Same-of_eq, Same-sym, Same-trans, Same-add, Same-cancel, Same-times, Same-mod,
  mod-of_Same,
}

sub_ℕ_parts : (m n : ℕ) → pos_part (sub_ℕ m n) + n ≡ neg_part (sub_ℕ m n) + m
sub_ℕ_parts m n = ground arith

module _ (q : ℕ) (positive : 0 < q) where
  -- `mod` of an integer is the integer, modulo q.
  pub mod_ℤ-parts : (z : ℤ) → Same q (mod_ℤ z q + neg_part z) (pos_part z)
  unfolding mod_ℤ
  mod_ℤ-parts (pos n) = Same-trans q (Same-of_eq q (n % q + 0) (n % q) (omega arith)) (Same-mod q n)
  mod_ℤ-parts (negsuc n) =
      let small = mod-lt (suc n) positive in
      let down : Same q ((q - suc n % q) % q) (q - suc n % q) = Same-mod q _ in
      let up : Same q (suc n) (suc n % q) = Same-sym q (Same-mod q (suc n)) in
      Same-trans q (Same-add q down up) (record { up = 0; down = 1; eq = omega arith })

  from_parts : (m n p a b : ℕ) → Same q (m + n) p → p + b ≡ n + a → Same q (m + b) a
  from_parts m n p a b h e = Same-cancel q n (
      Same-trans q (Same-of_eq q (m + b + n) (m + n + b) (omega arith))
        (Same-trans q (Same-add q h (Same-refl q b)) (Same-of_eq q (p + b) (a + n) (omega arith))))

  pub mod_ℤ-times : (d : ℕ) (z : ℤ) → Same q (mod_ℤ (pos d *ℤ z) q) (d * mod_ℤ z q)
  unfolding ◌*ℤ◌
  mod_ℤ-times d z =
      let a = d * pos_part z + 0 * neg_part z in
      let b = d * neg_part z + 0 * pos_part z in
      let product : Same q (mod_ℤ (pos d *ℤ z) q + b) a =
        from_parts (mod_ℤ (pos d *ℤ z) q) (neg_part (pos d *ℤ z)) (pos_part (pos d *ℤ z)) a b
          (mod_ℤ-parts (pos d *ℤ z)) (sub_ℕ_parts a b) in
      let each : Same q (d * (mod_ℤ z q + neg_part z)) (d * pos_part z) =
        Same-times q d (mod_ℤ-parts z) in
      let spread : d * (mod_ℤ z q + neg_part z) ≡ d * mod_ℤ z q + b = grind arith in
      let plain : a ≡ d * pos_part z = omega arith in
      Same-cancel q b (
        Same-trans q product (
          Same-trans q (Same-of_eq q a (d * pos_part z) plain)
            (Same-trans q (Same-sym q each) (Same-of_eq q _ _ spread))))

  pub mod_ℤ-sub : (y x : ℕ) → Same q (mod_ℤ (pos y -ℤ pos x) q + x) y
  mod_ℤ-sub y x =
      let parts = -ℤ_parts (pos y) (pos x) in
      from_parts (mod_ℤ (pos y -ℤ pos x) q) (neg_part (pos y -ℤ pos x)) (pos_part (pos y -ℤ pos x))
        y x (mod_ℤ-parts (pos y -ℤ pos x)) (omega (arith, parts))

module _ (q : ℕ) (prime : IsPrimeOrder q) where
  abbrev pub difference : ℕ → ℕ → ℕ
  difference y x = mod_ℤ (pos y -ℤ pos x) q

  -- The inverse of a difference.
  pub inverse_of : ℕ → ℕ → ℕ
  inverse_of y x = elim (invert q (pos y -ℤ pos x)) [ ok b ↦ b | err e ↦ 0 ]

  pub q_positive : 0 < q
  q_positive = let l = prime.large in omega arith

  pub below : (n m : ℕ) → n < q → m < q → Same q n m → n ≡ m
  below n m h k e = sym (mod-eq_of_lt h) ∙ mod-of_Same q e ∙ mod-eq_of_lt k

  pub one_of_mod : (n : ℕ) → n % q ≡ 1 → Same q n 1
  one_of_mod n h = Same-trans q (Same-sym q (Same-mod q n)) (Same-of_eq q _ _ h)

  -- A difference of two numbers below q times its inverse is 1.
  pub difference-inverse_of :
      (y x : ℕ) → y < q → x < q → y ≢ x → Same q (difference y x * inverse_of y x) 1
  unfolding inverse_of
  difference-inverse_of y x hy hx other = elim (invert_lem q prime (pos y -ℤ pos x)) [
    | inl (none_left, _) ↦
        let same : Same q x y =
          Same-trans q (Same-of_eq q x (0 + x) (omega arith))
            (rw none_left at (mod_ℤ-sub q q_positive y x)) in
        absurd (other (sym (below x y hx hy same)))
    | inr (b, found, unit) ↦ rw (found, inverse_of) (one_of_mod _ unit)
  ]

  pub inverse_of_lem :
      (y x : ℕ) → y < q → x < q → y ≢ x → Same q (inverse_of y x * y) (1 + inverse_of y x * x)
  inverse_of_lem y x hy hx other =
      let v = inverse_of y x in
      let d = difference y x in
      let whole : Same q (v * (d + x)) (v * y) = Same-times q v (mod_ℤ-sub q q_positive y x) in
      let spread : v * (d + x) ≡ d * v + v * x = grind arith in
      Same-trans q (Same-sym q whole) (
        Same-trans q (Same-of_eq q _ _ spread)
          (Same-add q (difference-inverse_of y x hy hx other) (Same-refl q (v * x))))
