-- ===== src/Crypto/Interpolated.antt =====
-- Enough points of a polynomial give its value at 0, modulo the order of the scalar field.
use decentralized_identity_p.Prelude.{
  ℕ, ◌+◌, ◌*◌, ◌≤◌, ◌<◌, ◌≡◌, ◌≢◌, refl, sym, ap, List, [], ◌∷◌, length, All, arith,
}
use decentralized_identity_p.Crypto.Congruence.{
  Same, Same-refl, Same-of_eq, Same-sym, Same-trans, Same-add, Same-cancel, Same-times,
}
use decentralized_identity_p.Crypto.Lagrange.{
  Distinct, eval, quotient, length-quotient, quotient_lem, weight, sum_at, total, total-cons,
  total_swap,
}

-- The value l at which two lines cross: l is 1 if a and b differ by an invertible number v.
one_from_two :
    (q s a b l v : ℕ)
    → Same q (s + a) (a * l)
    → Same q (s + b) (b * l)
    → Same q (v * a) (1 + v * b)
    → Same q l 1
one_from_two q s a b l v ha hb inverse =
    let crossed : Same q (a + b * l) (b + a * l) = Same-cancel q s (
      Same-trans q (Same-of_eq q _ _ (move s a (b * l)))
        (Same-trans q (Same-add q ha (Same-sym q hb)) (Same-of_eq q _ _ (back s b (a * l))))) in
    let scaled : Same q (v * (a + b * l)) (v * (b + a * l)) = Same-times q v crossed in
    let by_l : Same q (l * (v * a)) (l * (1 + v * b)) = Same-times q l inverse in
    Same-sym q (
      Same-cancel q (v * b + v * b * l) (
        Same-trans q (Same-of_eq q _ _ (open_left v b l)) (
          Same-trans q (Same-add q (Same-sym q inverse) (Same-refl q (v * (b * l)))) (
            Same-trans q (Same-of_eq q _ _ (distribute v a (b * l))) (
              Same-trans q scaled (
                Same-trans q (Same-of_eq q _ _ (open_right v a b l)) (
                  Same-trans q (Same-add q (Same-refl q (v * b)) by_l)
                    (Same-of_eq q _ _ (close v b l)))))))))
  where
    move : (s a m : ℕ) → a + m + s ≡ s + a + m
    move s a m = omega arith

    back : (s b m : ℕ) → m + (s + b) ≡ b + m + s
    back s b m = omega arith

    open_left : (v b l : ℕ) → 1 + (v * b + v * b * l) ≡ 1 + v * b + v * (b * l)
    open_left v b l = grind arith

    distribute : (v a m : ℕ) → v * a + v * m ≡ v * (a + m)
    distribute v a m = grind arith

    open_right : (v a b l : ℕ) → v * (b + a * l) ≡ v * b + l * (v * a)
    open_right v a b l = grind arith

    close : (v b l : ℕ) → v * b + l * (1 + v * b) ≡ l + (v * b + v * b * l)
    close v b l = grind arith

one_right : (c : ℕ) → c ≡ c * 1
one_right c = omega arith

module _ (q : ℕ) (u : ℕ → ℕ → ℕ)
    (inverse : (y x : ℕ) → y < q → x < q → y ≢ x → Same q (u y x * y) (1 + u y x * x)) where
  abbrev ones : List ℕ → ℕ
  ones xs = total q u (λ x. 1) xs

  -- The weights add up to 1.
  ones-cons :
      (a : ℕ) (xs : List ℕ)
      → All (λ x. x < q) (a ∷ xs)
      → Distinct (a ∷ xs)
      → Same q (ones (a ∷ xs)) 1
  unfolding weight sum_at
  ones-cons a [] h d = Same-of_eq q _ _ (ground arith)
  ones-cons a (b ∷ xs) (ha, (hb, h)) ((ab, axs), (bxs, d)) =
      let line = λ (c x : ℕ). identity x c in
      let at_b = ones-cons b xs (hb, h) (bxs, d) in
      let at_a = ones-cons a xs (ha, h) (axs, d) in
      let first =
        total-cons q u inverse a (b ∷ xs) (λ x. x) (λ x. 1) ha (line a) (hb, h) (ab, axs) in
      let second =
        total-cons q u inverse b (a ∷ xs) (λ x. x) (λ x. 1) hb (line b) (ha, h)
          (λ e. ab (sym e), bxs) in
      let s = total q u (λ x. x) (a ∷ b ∷ xs) in
      let l = ones (a ∷ b ∷ xs) in
      one_from_two q s a b l (u a b)
        (Same-trans q (Same-add q (Same-refl q s) (times_one a at_b)) first)
        (Same-trans q
          (Same-add q (Same-of_eq q _ _ (total_swap q u a b (λ x. x) xs)) (times_one b at_a))
          (Same-trans q second
            (Same-of_eq q _ _ (ap (λ t. b * t) (sym (total_swap q u a b (λ x. 1) xs))))))
        (inverse a b ha hb ab)
    where
      identity : (x c : ℕ) → x + c * 1 ≡ c + x * 1
      identity x c = omega arith

      times_one : {t : ℕ} (c : ℕ) → Same q t 1 → Same q c (c * t)
      times_one c h = Same-trans q (Same-of_eq q _ _ (one_right c)) (Same-sym q (Same-times q c h))

  total-zero : (xs ys : List ℕ) → sum_at q u xs (λ x. 0) ys ≡ 0
  unfolding sum_at
  total-zero xs [] = refl
  total-zero xs (y ∷ ys) = omega (arith, total-zero xs ys)

  -- A polynomial with no more coefficients than there are points.
  pub total-eval :
      (xs cs : List ℕ)
      → All (λ x. x < q) xs
      → Distinct xs
      → length cs ≤ length xs
      → Same q (total q u (eval cs) xs) (eval cs 0)
  unfolding eval
  total-eval xs [] h d short = Same-of_eq q _ _ (total-zero xs xs)
  total-eval [] (c ∷ cs) h d short = absurd (omega arith)
  total-eval (a ∷ xs) (c ∷ cs) (ha, h) (k, d) short =
      let rest = quotient a cs in
      let later = total-eval xs rest h d (omega (arith, length-quotient a cs)) in
      let whole =
        total-cons q u inverse a xs (eval (c ∷ cs)) (eval rest) ha (quotient_lem a c cs) h k in
      let value = quotient_lem a c cs 0 in
      Same-cancel q (a * eval rest 0) (
        Same-trans q
          (Same-add q (Same-refl q (total q u (eval (c ∷ cs)) (a ∷ xs)))
            (Same-times q a (Same-sym q later)))
          (Same-trans q whole (
            Same-trans q (Same-times q (eval (c ∷ cs) a) (ones-cons a xs (ha, h) (k, d)))
              (Same-of_eq q _ _ (omega (arith, value))))))
