-- ===== src/Crypto/Lagrange.antt =====
-- Lagrange interpolation at 0 modulo the order of the scalar field, over the inverses of the
-- differences: projects/node/src/crypto/shamir.ts and projects/node/src/crypto/frost.ts rest on it.
use decentralized_identity_p.Prelude.{
  ℕ, suc, ◌+◌, ◌*◌, ◌<◌, ◌≡◌, ◌≢◌, refl, ap, ◌∙◌, ◌==◌, ==_iff, Bool-cases, inl, inr, true, false,
  List, [], ◌∷◌, length, All, if◌then◌else◌, arith,
}
use decentralized_identity_p.Crypto.Congruence.{
  Same, Same-refl, Same-of_eq, Same-sym, Same-trans, Same-add, Same-cancel, Same-times,
}

-- No number stands twice.
abbrev pub Distinct : List ℕ → Type 0
Distinct [] = Unit
Distinct (x ∷ xs) = All (λ y. x ≢ y) xs × Distinct xs

-- The value of the polynomial with these coefficients, the lowest first.
unfoldable pub eval : List ℕ → ℕ → ℕ
eval [] x = 0
eval (c ∷ cs) x = c + x * eval cs x

-- The quotient of c ∷ cs by the difference to a.
pub quotient : ℕ → List ℕ → List ℕ
quotient a [] = []
quotient a (d ∷ cs) = eval (d ∷ cs) a ∷ quotient a cs

pub length-quotient : (a : ℕ) (cs : List ℕ) → length (quotient a cs) ≡ length cs
unfolding quotient
length-quotient a [] = refl
length-quotient a (d ∷ cs) = ap suc (length-quotient a cs)

regroup :
    (c a x r ra p : ℕ)
    → r + a * p ≡ ra + x * p
    → c + x * r + a * (ra + x * p) ≡ c + a * ra + x * (ra + x * p)
regroup c a x r ra p e =
    let left : c + x * r + a * (ra + x * p) ≡ c + a * ra + x * (r + a * p) = grind arith in
    left ∙ ap (λ t. c + a * ra + x * t) e

pub quotient_lem :
    (a c : ℕ) (cs : List ℕ) (x : ℕ)
    → eval (c ∷ cs) x + a * eval (quotient a cs) x ≡ eval (c ∷ cs) a + x * eval (quotient a cs) x
unfolding eval quotient
quotient_lem a c [] x = omega arith
quotient_lem a c (d ∷ cs) x = regroup c a x _ _ _ (quotient_lem a d cs x)

module _ (q : ℕ) (u : ℕ → ℕ → ℕ) where
  -- The product over the others of y / (y - x).
  unfoldable pub weight : ℕ → List ℕ → ℕ
  weight x [] = 1
  weight x (y ∷ ys) = if y == x then weight x ys else y * u y x * weight x ys

  unfoldable pub sum_at : List ℕ → (ℕ → ℕ) → List ℕ → ℕ
  sum_at whole f [] = 0
  sum_at whole f (x ∷ xs) = weight x whole * f x + sum_at whole f xs

  abbrev pub total : (ℕ → ℕ) → List ℕ → ℕ
  total f xs = sum_at xs f xs

  one_term :
      (a w v x f g fa : ℕ)
      → Same q (v * a) (1 + v * x)
      → f + a * g ≡ fa + x * g
      → Same q (a * v * w * f + a * (w * g)) (fa * (a * v * w * 1))
  one_term a w v x f g fa inverse e =
      let product = a * v * w in
      let scaled : Same q (a * w * g * (v * a)) (a * w * g * (1 + v * x)) =
        Same-times q (a * w * g) inverse in
      let left : product * (a * g) ≡ a * w * g * (v * a) = grind arith in
      let right : a * w * g * (1 + v * x) ≡ a * (w * g) + product * (x * g) = grind arith in
      let spread : product * f + product * (a * g) ≡ product * (f + a * g) = grind arith in
      let gather : product * (fa + x * g) ≡ fa * (product * 1) + product * (x * g) = grind arith in
      let moved : Same q (a * (w * g) + product * (x * g)) (product * (a * g)) =
        Same-sym q
          (Same-trans q (Same-of_eq q _ _ left) (Same-trans q scaled (Same-of_eq q _ _ right))) in
      Same-cancel q (product * (x * g)) (
        Same-trans q (Same-of_eq q _ _ (associate (product * f) (a * (w * g)) (product * (x * g))))
          (Same-trans q (Same-add q (Same-refl q (product * f)) moved)
            (Same-of_eq q _ _ (spread ∙ ap (λ t. product * t) e ∙ gather))))
    where
      associate : (k l m : ℕ) → k + l + m ≡ k + (l + m)
      associate k l m = omega arith

  eqb_self : (a : ℕ) → (a == a) ≡ true
  eqb_self a = (==_iff a a).1 refl

  eqb_other : (a x : ℕ) → a ≢ x → (a == x) ≡ false
  eqb_other a x h = ground arith

  -- What one more participant does to the sum over the others.
  module _ (inverse : (y x : ℕ) → y < q → x < q → y ≢ x → Same q (u y x * y) (1 + u y x * x)) where
    sum_at-cons :
        (a : ℕ) (whole : List ℕ) (f g : ℕ → ℕ)
        → a < q
        → ((x : ℕ) → f x + a * g x ≡ f a + x * g x)
        → (xs : List ℕ) → All (λ x. x < q) xs
        → All (λ x. a ≢ x) xs
        → Same q
            (sum_at (a ∷ whole) f xs + a * sum_at whole g xs)
            (f a * sum_at (a ∷ whole) (λ x. 1) xs)
    unfolding sum_at weight
    sum_at-cons a whole f g small e [] h k = Same-of_eq q _ _ (omega arith)
    sum_at-cons a whole f g small e (x ∷ xs) (h, hs) (k, ks) =
        let first =
          one_term a (weight x whole) (u a x) x (f x) (g x) (f a) (inverse a x small h k) (e x) in
        let later = sum_at-cons a whole f g small e xs hs ks in
        rw (eqb_other a x k) (
          Same-trans q (Same-of_eq q _ _ (grind arith))
            (Same-trans q (Same-add q first later) (Same-of_eq q _ _ (grind arith))))

    pub total-cons :
        (a : ℕ) (xs : List ℕ) (f g : ℕ → ℕ)
        → a < q
        → ((x : ℕ) → f x + a * g x ≡ f a + x * g x)
        → All (λ x. x < q) xs
        → All (λ x. a ≢ x) xs
        → Same q (total f (a ∷ xs) + a * total g xs) (f a * total (λ x. 1) (a ∷ xs))
    unfolding sum_at
    total-cons a xs f g small e h k =
        let w = weight a (a ∷ xs) in
        let others = sum_at-cons a xs f g small e xs h k in
        Same-trans q (Same-of_eq q _ _ (grind arith)) (
          Same-trans q (Same-add q (Same-refl q (w * f a)) others) (Same-of_eq q _ _ (grind arith)))

  weight_swap : (x a b : ℕ) (xs : List ℕ) → weight x (a ∷ b ∷ xs) ≡ weight x (b ∷ a ∷ xs)
  unfolding weight
  weight_swap x a b xs = elim (Bool-cases (a == x)) [
    | inl e ↦ elim (Bool-cases (b == x)) [ inl k ↦ rw (e, k) refl | inr k ↦ rw (e, k) refl ]
    | inr e ↦ elim (Bool-cases (b == x)) [
      | inl k ↦ rw (e, k) refl
      | inr k ↦ rw (e, k) (exchange (a * u a x) (b * u b x) (weight x xs))
    ]
  ]
    where
      exchange : (k l m : ℕ) → k * (l * m) ≡ l * (k * m)
      exchange k l m = grind arith

  sum_at_swap :
      (a b : ℕ) (whole : List ℕ) (f : ℕ → ℕ) (xs : List ℕ)
      → sum_at (a ∷ b ∷ whole) f xs ≡ sum_at (b ∷ a ∷ whole) f xs
  unfolding sum_at
  sum_at_swap a b whole f [] = refl
  sum_at_swap a b whole f (x ∷ xs) = rw (weight_swap x a b whole, sum_at_swap a b whole f xs) refl

  pub total_swap : (a b : ℕ) (f : ℕ → ℕ) (xs : List ℕ) → total f (a ∷ b ∷ xs) ≡ total f (b ∷ a ∷ xs)
  unfolding sum_at
  total_swap a b f xs =
      rw (weight_swap a a b xs, weight_swap b a b xs, sum_at_swap a b xs f xs) (omega arith)
