-- ===== src/Crypto/Congruence.antt =====
-- Numbers that are the same modulo the order of the scalar field, in a form where each step is an
-- equation of numbers.
use native.Mathlib.Nat.{add-mul-mod_self_right, mod-add-div}
use decentralized_identity_p.Prelude.{ℕ, ◌+◌, ◌*◌, ◌/◌, ◌%◌, ◌≡◌, refl, sym, ap, ◌∙◌, arith}

commute : (a b : ℕ) → a * b ≡ b * a
commute a b = grind arith

module _ (q : ℕ) where
  pub record Same (a b : ℕ) : Type 0 where
    pub up : ℕ
    pub down : ℕ
    pub eq : a + up * q ≡ b + down * q

  scaled : (c a b k l : ℕ) → a + k * q ≡ b + l * q → c * a + (c * k) * q ≡ c * b + (c * l) * q
  scaled c a b k l e =
      let left : c * a + (c * k) * q ≡ c * (a + k * q) = grind arith in
      let right : c * b + (c * l) * q ≡ c * (b + l * q) = grind arith in
      left ∙ ap (λ t. c * t) e ∙ sym right

  pub Same-refl : (a : ℕ) → Same a a
  Same-refl a = record { up = 0; down = 0; eq = refl }

  pub Same-of_eq : (a b : ℕ) → a ≡ b → Same a b
  Same-of_eq a b e = record { up = 0; down = 0; eq = ap (λ t. t + 0 * q) e }

  pub Same-sym : {a b : ℕ} → Same a b → Same b a
  Same-sym h = record { up = h.down; down = h.up; eq = sym h.eq }

  pub Same-trans : {a b c : ℕ} → Same a b → Same b c → Same a c
  Same-trans h k = record {
    up = h.up + k.up;
    down = h.down + k.down;
    eq = grind (arith, h.eq, k.eq);
  }

  pub Same-add : {a b c d : ℕ} → Same a b → Same c d → Same (a + c) (b + d)
  Same-add h k = record { up = h.up + k.up; down = h.down + k.down; eq = grind (arith, h.eq, k.eq) }

  pub Same-cancel : {a b : ℕ} (c : ℕ) → Same (a + c) (b + c) → Same a b
  Same-cancel c h = record { up = h.up; down = h.down; eq = omega (arith, h.eq) }

  pub Same-times : {a b : ℕ} (c : ℕ) → Same a b → Same (c * a) (c * b)
  Same-times c h = record { up = c * h.up; down = c * h.down; eq = scaled c _ _ _ _ h.eq }

  pub Same-product : {a b c d : ℕ} → Same a b → Same c d → Same (a * c) (b * d)
  Same-product {a} {b} {c} {d} h k = Same-trans (Same-of_eq (a * c) (c * a) (commute a c)) (
      Same-trans (Same-times c h)
        (Same-trans (Same-of_eq (c * b) (b * c) (commute c b)) (Same-times b k)))

  pub Same-mod : (a : ℕ) → Same (a % q) a
  Same-mod a = record {
    up = a / q;
    down = 0;
    eq = ground (arith, mod-add-div a q, commute (a / q) q);
  }

  pub mod-of_Same : {a b : ℕ} → Same a b → a % q ≡ b % q
  mod-of_Same {a} {b} h =
      sym (add-mul-mod_self_right a h.up q)
      ∙ ap (λ t. t % q) h.eq
      ∙ add-mul-mod_self_right b h.down q
