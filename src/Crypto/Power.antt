-- ===== src/Crypto/Power.antt =====
-- `modPow` of projects/node/src/crypto/shamir.ts: square and multiply is exponentiation.
use native.Mathlib.Nat.{
  add-mul-mod_self_left, mod-add-div, mod-mod, mod-eq_of_lt, pow-zero, pow-suc,
}
use decentralized_identity_p.Prelude.{
  ℕ, zero, suc, ◌+◌, ◌*◌, ◌/◌, ◌%◌, ◌^◌, ◌≤◌, ◌<◌, ◌≡◌, sym, ap, ◌∙◌, ◌==◌, false, Bool-cases, inl,
  inr, arith,
}
use decentralized_identity_p.Crypto.Shamir.{mod_pow_loop, mod_pow}

distribute : (n r q m : ℕ) → n * r + m * (n * q) ≡ n * (r + m * q)
distribute n r q m = grind arith

-- A factor can be reduced first.
pub mul-mod_right : (n a m : ℕ) → (n * (a % m)) % m ≡ (n * a) % m
mul-mod_right n a m =
    sym (add-mul-mod_self_left (n * (a % m)) m (n * (a / m)))
    ∙ ap (λ k. k % m) (distribute n (a % m) (a / m) m ∙ ap (λ k. n * k) (mod-add-div a m))

one : (a : ℕ) → a ≡ a * 1
one a = omega arith

commute : (a b : ℕ) → a * b ≡ b * a
commute a b = grind arith

pub mul-mod_left : (a n m : ℕ) → ((a % m) * n) % m ≡ (a * n) % m
mul-mod_left a n m =
    ap (λ k. k % m) (commute (a % m) n) ∙ (mul-mod_right n a m ∙ ap (λ k. k % m) (commute n a))

associate : (c p x : ℕ) → c * (p * x) ≡ (c * p) * x
associate c p x = grind arith

pub mul-pow-suc : (c x k : ℕ) → c * x ^ suc k ≡ (c * x ^ k) * x
mul-pow-suc c x k = ap (λ p. c * p) (pow-suc x k) ∙ associate c (x ^ k) x

-- The base of a power can be reduced first, next to another factor.
pub mul-pow-mod : (c x k m : ℕ) → (c * (x % m) ^ k) % m ≡ (c * x ^ k) % m
mul-pow-mod c x zero m = ap (λ p. (c * p) % m) (pow-zero (x % m) ∙ sym (pow-zero x))
mul-pow-mod c x (suc k) m =
    ap (λ y. y % m) (mul-pow-suc c (x % m) k)
    ∙ (mul-mod_right (c * (x % m) ^ k) x m
        ∙ (sym (mul-mod_left _ x m)
            ∙ (ap (λ y. (y * x) % m) (mul-pow-mod c x k m)
                ∙ (mul-mod_left _ x m ∙ ap (λ y. y % m) (sym (mul-pow-suc c x k))))))

pow-double : (b k : ℕ) → (b * b) ^ k ≡ b ^ (k + k)
pow-double b zero = pow-zero (b * b) ∙ sym (pow-zero b)
pow-double b (suc k) =
    pow-suc (b * b) k
    ∙ (ap (λ p. p * (b * b)) (pow-double b k)
        ∙ (associate (b ^ (k + k)) b b
            ∙ (ap (λ p. p * b) (sym (pow-suc b (k + k)))
                ∙ (sym (pow-suc b (suc (k + k))) ∙ ap (λ n. b ^ n) (omega arith)))))

-- An even exponent, and an odd one, by its half.
half_even : (res b e m : ℕ) → e % 2 ≡ 0 → (res * ((b * b) % m) ^ (e / 2)) % m ≡ (res * b ^ e) % m
half_even res b e m even =
    mul-pow-mod res (b * b) (e / 2) m
    ∙ ap (λ p. (res * p) % m) (pow-double b (e / 2) ∙ ap (λ n. b ^ n) (omega arith))

half_odd :
    (res b e m : ℕ)
    → e % 2 ≡ 1
    → (((res * b) % m) * ((b * b) % m) ^ (e / 2)) % m ≡ (res * b ^ e) % m
half_odd res b e m odd =
    mul-pow-mod ((res * b) % m) (b * b) (e / 2) m
    ∙ (mul-mod_left (res * b) ((b * b) ^ (e / 2)) m
        ∙ ap (λ p. p % m)
            (ap (λ p. res * b * p) (pow-double b (e / 2))
              ∙ (rearrange res b (b ^ (e / 2 + e / 2))
                  ∙ ap (λ p. res * p)
                      (sym (pow-suc b (e / 2 + e / 2)) ∙ ap (λ n. b ^ n) (omega arith)))))
  where
    rearrange : (a b p : ℕ) → a * b * p ≡ a * (p * b)
    rearrange a b p = grind arith

parity : (e : ℕ) → ((e % 2 == 1) ≡ false) → e % 2 ≡ 0
parity e h = ground arith

-- Each round keeps res * b ^ e, up to a multiple of m.
mod_pow_loop_lem :
    (fuel res b e m : ℕ)
    → e ≤ fuel
    → res % m ≡ res
    → mod_pow_loop fuel res b e m ≡ (res * b ^ e) % m
unfolding mod_pow_loop
mod_pow_loop_lem zero res b e m enough small =
    let none_left : e ≡ 0 = omega arith in
    sym small
    ∙ ap (λ p. p % m)
        (one res ∙ ap (λ p. res * p) (sym (pow-zero b) ∙ ap (λ n. b ^ n) (sym none_left)))
mod_pow_loop_lem (suc fuel) res b e m enough small = elim (Bool-cases (e == 0)) [
  | inl z ↦ rw z (
      let none_left : e ≡ 0 = ground arith in
      sym small
      ∙ ap (λ p. p % m)
          (one res ∙ ap (λ p. res * p) (sym (pow-zero b) ∙ ap (λ n. b ^ n) (sym none_left))))
  | inr more ↦ rw more (elim (Bool-cases (e % 2 == 1)) [
    | inl odd ↦ rw odd (
        mod_pow_loop_lem fuel ((res * b) % m) ((b * b) % m) (e / 2) m (ground arith) (mod-mod _ m)
        ∙ half_odd res b e m (ground arith))
    | inr even ↦ rw even (
        mod_pow_loop_lem fuel res ((b * b) % m) (e / 2) m (ground arith) small
        ∙ half_even res b e m (parity e even))
  ])
]

-- For a modulus greater than 1, `modPow` is the power, reduced.
pub mod_pow_lem : (base exp m : ℕ) → 1 < m → mod_pow base exp m ≡ base ^ exp % m
unfolding mod_pow
mod_pow_lem base exp m h =
    mod_pow_loop_lem exp 1 (base % m) exp m (omega arith) (mod-eq_of_lt h)
    ∙ (mul-pow-mod 1 base exp m ∙ ap (λ p. p % m) (sym (unit (base ^ exp))))
  where
    unit : (p : ℕ) → p ≡ 1 * p
    unit p = omega arith
