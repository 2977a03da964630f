-- ===== src/Crypto/Euclid.antt =====
-- The loop of `modInverse` of projects/node/src/crypto/frost.ts ends: its fuel is enough.
use native.Mathlib.Nat.{mod-lt, div-add-mod'}
use decentralized_identity_p.Prelude.{
  subst, ℕ, zero, suc, ◌-◌, ◌*◌, ◌/◌, ◌<◌, ◌==◌, ℤ, pos, ◌*ℤ◌, ◌-ℤ◌, ◌≡◌, refl, false, Bool-cases,
  inl, inr, arith,
}
use decentralized_identity_p.Crypto.Frost.{inverse_loop}

-- The next remainder is smaller.
pub remainder_falls : (old_r r : ℕ) → (r == 0) ≡ false → old_r - old_r / r * r < r
remainder_falls old_r r h =
    let whole = div-add-mod' old_r r in
    let positive : 0 < r = ground arith in let small = mod-lt old_r positive in omega arith

-- Two fuels that both exceed the second remainder give the same coefficient: the loop has ended before
-- either is used up.
pub inverse_loop_fuel :
    (fuel fuel' old_r r : ℕ) (old_s s : ℤ)
    → r < fuel
    → r < fuel'
    → inverse_loop fuel old_r r old_s s ≡ inverse_loop fuel' old_r r old_s s
unfolding inverse_loop
inverse_loop_fuel zero fuel' old_r r old_s s h h' = absurd (omega arith)
inverse_loop_fuel (suc fuel) zero old_r r old_s s h h' = absurd (omega arith)
inverse_loop_fuel (suc fuel) (suc fuel') old_r r old_s s h h' = elim (Bool-cases (r == 0)) [
  | inl ended ↦ rw ended refl
  | inr more ↦ rw more (
      let falls = remainder_falls old_r r more in
      inverse_loop_fuel fuel fuel' r (old_r - old_r / r * r) s (old_s -ℤ pos (old_r / r) *ℤ s)
        (omega arith) (omega arith))
]

-- The loop `while (r !== 0n)` of `modInverse`, with no fuel: a run from these values ends with the
-- coefficient `t`.
pub data Runs : ℕ → ℕ → ℤ → ℤ → ℤ → Type 0 where
  stop : (old_r : ℕ) (old_s s : ℤ) → Runs old_r 0 old_s s old_s
  round :
      {old_r r : ℕ} {old_s s t : ℤ}
      → 0 < r
      → Runs r (old_r - old_r / r * r) s (old_s -ℤ pos (old_r / r) *ℤ s) t
      → Runs old_r r old_s s t

-- The loop ends, and fuel above the second remainder gives what it ends with.
pub inverse_loop-Runs :
    (fuel old_r r : ℕ) (old_s s : ℤ)
    → r < fuel
    → Runs old_r r old_s s (inverse_loop fuel old_r r old_s s)
unfolding inverse_loop
inverse_loop-Runs zero old_r r old_s s h = absurd (omega arith)
inverse_loop-Runs (suc fuel) old_r r old_s s h = elim (Bool-cases (r == 0)) [
  | inl ended ↦
      let none_left : 0 ≡ r = ground arith in
      rw ended (subst (λ n. Runs old_r n old_s s old_s) none_left (stop old_r old_s s))
  | inr more ↦
      let falls = remainder_falls old_r r more in
      rw more (
        round (ground arith) (
          inverse_loop-Runs fuel r (old_r - old_r / r * r) s (old_s -ℤ pos (old_r / r) *ℤ s)
            (omega arith)))
]
