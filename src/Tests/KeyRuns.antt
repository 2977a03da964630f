-- ===== src/Tests/KeyRuns.antt =====
-- Runs of the theorems on scalars and on the TOPRF, over the integers modulo 7.
use native.Mathlib.Nat.{add-mod, mod-lt}
use mathlib.Core.List.{Memᴰ}
use decentralized_identity_p.Prelude.{ℤ}
use decentralized_identity_p.Prelude.{
  some_injective, ℕ, zero, suc, ◌+◌, ◌*◌, ◌%◌, ◌^◌, ◌<◌, pos, ◌≡◌, ◌≢◌, refl, sym, ap, ◌∙◌, some,
  none, Option, [], ◌∷◌, List, All, arith, ok, ◌>>=◌, false, ◌==◌, leb, ◌||◌, if◌then◌else◌,
  Bool-cases, inl, inr,
}
use decentralized_identity_p.Crypto.Shamir.{
  mod_ℤ, Share, split_secret, shares_from, share_at, horner, combine_shares, has_duplicates, has_id,
}
use decentralized_identity_p.Crypto.Frost.{mod_inverse}
use decentralized_identity_p.Crypto.Euclid.{Runs}
use decentralized_identity_p.Crypto.Bezout.{mod_inverse-unit}
use decentralized_identity_p.Crypto.Power.{mul-pow-mod, mul-mod_right, mul-mod_left}
use decentralized_identity_p.Crypto.Inverse.{IsPrimeOrder}
use decentralized_identity_p.Crypto.Reconstructed.{share_ids, combine_shares-split_secret}
use decentralized_identity_p.Crypto.Toprf.{
  Group, Partial, hash_to_group, blind, evaluate, unblind, generate_toprf_key,
}
use decentralized_identity_p.Crypto.Toprf.Unblinded.{IsGroup, ids_of, partials_of}
use decentralized_identity_p.Crypto.Toprf.Usable.{IsRanged}
use decentralized_identity_p.Crypto.Toprf.Quorum.{unblind-generate_toprf_key}
use decentralized_identity_p.Tests.Toy.{runtime, ristretto}

sixth_power : (r : ℕ) → r < 7 → r ≢ 0 → r ^ 6 % 7 ≡ 1
sixth_power zero h n = absurd (n refl)
sixth_power (suc zero) h n = refl
sixth_power (suc (suc zero)) h n = refl
sixth_power (suc (suc (suc zero))) h n = refl
sixth_power (suc (suc (suc (suc zero)))) h n = refl
sixth_power (suc (suc (suc (suc (suc zero))))) h n = refl
sixth_power (suc (suc (suc (suc (suc (suc zero)))))) h n = refl
sixth_power (suc (suc (suc (suc (suc (suc (suc r))))))) h n = absurd (omega arith)

unit : (p : ℕ) → 1 * p ≡ p
unit p = omega arith

pub seven_prime : IsPrimeOrder 7
seven_prime = record {
  large = omega arith;
  fermat = λ a n.
      ap (λ p. p % 7) (sym (unit (a ^ 6)))
      ∙ (sym (mul-pow-mod 1 a 6 7)
          ∙ (ap (λ p. p % 7) (unit ((a % 7) ^ 6))
              ∙ sixth_power (a % 7) (mod-lt a (omega arith)) n));
}

-- Two of three shares of the key 3 under x + 3.
abbrev two_shares : List Share
two_shares = record { id = pos 3; value = 6 } ∷ (record { id = pos 1; value = 4 } ∷ [])

abbrev three_shares : List Share
three_shares =
    record { id = pos 1; value = 4 }
    ∷ (record { id = pos 2; value = 5 } ∷ (record { id = pos 3; value = 6 } ∷ []))

split : split_secret 7 3 (1 ∷ []) 2 3 ≡ ok three_shares
unfolding split_secret shares_from share_at horner ◌>>=◌
split = refl

once : has_duplicates (share_ids two_shares) ≡ false
unfolding has_duplicates has_id
once = refl

two_of_three : All (λ s. Memᴰ s three_shares) two_shares
two_of_three = (Memᴰ.tail (Memᴰ.tail (Memᴰ.head refl)), (Memᴰ.head refl, tt))

combine_shares-split_secret_example : combine_shares 7 two_shares ≡ ok (3 % 7)
combine_shares-split_secret_example =
    combine_shares-split_secret 7 seven_prime 3 (1 ∷ []) 2 3 split (omega arith) (omega arith)
      two_shares two_of_three once (omega arith)

mod_inverse-unit_example :
    (t : ℤ) × Runs (3 % 7) 7 (pos 1) (pos 0) t
    × (mod_inverse (pos 3) 7 ≡ mod_ℤ t 7)
    × (3 * mod_inverse (pos 3) 7 % 7 ≡ 1)
mod_inverse-unit_example = mod_inverse-unit 3 5 7 (omega arith) refl

-- The integers modulo 7 with a multiplication that refuses what noble's refuses.
abbrev times_ranged : ℕ → ℕ → Option ℕ
times_ranged p n = if n == 0 || leb 7 n then none else some ((n * p) % 7)

abbrev ranged : Group ℕ
unfolding ristretto
ranged = record ristretto { multiply = times_ranged }

spread : (a b p : ℕ) → (a + b) * p ≡ a * p + b * p
spread a b p = grind arith

associate : (a b p : ℕ) → b * (a * p) ≡ b * a * p
associate a b p = grind arith

times_ranged-cases :
    (p n : ℕ) {q : ℕ} → times_ranged p n ≡ some q → (0 < n) × (n < 7) × (q ≡ (n * p) % 7)
times_ranged-cases p n {q} h = elim (Bool-cases (n == 0 || leb 7 n)) [
  | inl refused ↦ absurd (ground arith)
  | inr taken ↦
      let value : some ((n * p) % 7) ≡ some q = rw taken at h in
      (ground arith, ground arith, sym (some_injective value))
]

ranged-IsGroup : IsGroup ranged
unfolding ristretto
ranged-IsGroup = record {
  times = λ p n. (n * p) % 7;
  times_zero = λ p. omega arith;
  times_add = λ p a b. ap (λ x. x % 7) (spread a b p) ∙ add-mod (a * p) (b * p) 7;
  times_times = λ p a b. mul-mod_right b (a * p) 7 ∙ ap (λ x. x % 7) (associate a b p);
  times_mod = λ p a. mul-mod_left a p 7;
  multiply_times = λ p n h. (times_ranged-cases p n h).2;
}

ranged-IsRanged : IsRanged ranged
unfolding ristretto
ranged-IsRanged = record {
  multiply_some = λ p n large small.
      let taken : (n == 0 || leb 7 n) ≡ false = ground arith in ((n * p) % 7, rw taken refl);
  multiply_range = λ p n h. let (large, small, value) = times_ranged-cases p n h in (large, small);
}

group_order : IsPrimeOrder ranged.order
unfolding ristretto
group_order = seven_prime

key_dealt : generate_toprf_key runtime ranged 3 (1 ∷ []) 3 2 ≡ ok three_shares
unfolding generate_toprf_key split_secret shares_from share_at horner ristretto ◌>>=◌
key_dealt = refl

few : 3 < ranged.order
unfolding ristretto ranged
few = omega arith

ids_once : has_duplicates (ids_of two_shares) ≡ false
unfolding has_duplicates has_id ids_of
ids_once = refl

abbrev partials : List (Partial ℕ)
partials = record { id = pos 3; point = 1 } ∷ (record { id = pos 1; point = 3 } ∷ [])

blinded : blind runtime ranged (9 ∷ []) 3 ≡ some 6
unfolding blind hash_to_group ristretto
blinded = refl

evaluated : partials_of runtime ranged two_shares 6 ≡ ok partials
unfolding partials_of evaluate ristretto ◌>>=◌
evaluated = refl

unblind-generate_toprf_key_example :
    unblind runtime ranged 3 partials
    ≡ ok (ranged-IsGroup.times (hash_to_group runtime ranged (9 ∷ [])) 3)
unblind-generate_toprf_key_example =
    unblind-generate_toprf_key runtime ranged group_order ranged-IsGroup ranged-IsRanged 3 (1 ∷ [])
      2 3 key_dealt few (omega arith) two_shares two_of_three ids_once (omega arith) (9 ∷ []) 3
      blinded evaluated
