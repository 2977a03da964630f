-- ===== src/Crypto/Reconstructed.antt =====
-- `splitSecret` and `combineShares` of projects/node/src/crypto/shamir.ts: what is split is combined
-- again from any threshold of the shares.
use native.Mathlib.Nat.{mod-lt, mod-eq_of_lt}
use mathlib.Core.List.{Memᴰ}
use mathlib.Core.List.Memᴰ
use decentralized_identity_p.Prelude.{
  ℕ, zero, suc, ◌+◌, ◌*◌, ◌%◌, ◌≤◌, ◌<◌, ℤ, pos, eqb_ℤ, ◌≡◌, ◌≢◌, refl, sym, ap, subst, ◌∙◌, ==_iff,
  Bool-cases, inl, inr, List, [], ◌∷◌, map, length, All, ◌>>=◌, ok, false, by_steps, throw_if,
  ok_injective, >>=-ok, arith,
}
use decentralized_identity_p.Crypto.Shamir.{
  Share, invalid_threshold, horner, share_at, shares_from, split_secret, combine_loop,
  combine_shares, has_id, has_duplicates,
}
use decentralized_identity_p.Crypto.Inverse.{IsPrimeOrder}
use decentralized_identity_p.Crypto.Congruence.{
  Same, Same-refl, Same-of_eq, Same-trans, Same-add, Same-product, Same-times, Same-mod,
  mod-of_Same,
}
use decentralized_identity_p.Crypto.Lagrange.{Distinct, eval, sum_at, total}
use decentralized_identity_p.Crypto.Interpolated.{total-eval}
use decentralized_identity_p.Crypto.Difference.{inverse_of, inverse_of_lem}
use decentralized_identity_p.Crypto.Coefficient.{lagrange_coeff-weight}

abbrev pub share_ids : List Share → List ℤ
share_ids = map (λ t. t.id)

module _ (q : ℕ) where
  -- Horner's rule is the polynomial.
  horner-eval : (x : ℕ) (cs : List ℕ) → Same q (horner q x cs) (eval cs x)
  unfolding horner eval
  horner-eval x [] = Same-refl q 0
  horner-eval x (c ∷ cs) = step x c _ _ (horner-eval x cs)
    where
      step : (x c h p : ℕ) → Same q h p → Same q (((h * x) % q + c) % q) (c + x * p)
      step x c h p same =
          let turned : h * x ≡ x * h = grind arith in
          let swapped : x * p + c ≡ c + x * p = omega arith in
          Same-trans q (Same-mod q _) (
            Same-trans q
              (Same-add q
                (Same-trans q (Same-mod q (h * x))
                  (Same-trans q (Same-of_eq q _ _ turned) (Same-times q x same)))
                (Same-refl q c))
              (Same-of_eq q _ _ swapped))

  -- The value of a share is the polynomial at its number.
  pub share_at-eval :
      (secret : ℕ) (coeffs : List ℕ) (id : ℕ)
      → Same q (share_at q secret coeffs id).value (eval (secret ∷ coeffs) id)
  unfolding share_at horner
  share_at-eval secret coeffs id = horner-eval id (secret ∷ coeffs)

  share_ids-share_at :
      (secret : ℕ) (coeffs ns : List ℕ) → share_ids (map (share_at q secret coeffs) ns) ≡ map pos ns
  unfolding share_at
  share_ids-share_at secret coeffs [] = refl
  share_ids-share_at secret coeffs (n ∷ ns) =
      ap (λ l. pos n ∷ l) (share_ids-share_at secret coeffs ns)

  from_dealt :
      (secret : ℕ) (coeffs : List ℕ) (id left : ℕ) (s : Share)
      → Memᴰ s (shares_from q secret coeffs id left)
      → (n : ℕ) × (id ≤ n) × (n < id + left) × (s ≡ share_at q secret coeffs n)
  unfolding shares_from
  from_dealt secret coeffs id zero s m = absurd (Memᴰ.not-nil m)
  from_dealt secret coeffs id (suc left) s (Memᴰ.head e) = (id, omega arith, omega arith, e)
  from_dealt secret coeffs id (suc left) s (Memᴰ.tail m) =
      let (n, large, small, e) = from_dealt secret coeffs (suc id) left s m in
      (n, omega arith, omega arith, e)

  -- Dealt shares are the shares of some numbers.
  pub all_from_dealt :
      (secret : ℕ) (coeffs : List ℕ) (total : ℕ) (ss : List Share)
      → total < q
      → All (λ s. Memᴰ s (shares_from q secret coeffs 1 total)) ss
      → (ns : List ℕ) × All (λ n. 0 < n) ns
        × All (λ n. n < q) ns
        × (ss ≡ map (share_at q secret coeffs) ns)
  all_from_dealt secret coeffs total [] h m = ([], tt, tt, refl)
  all_from_dealt secret coeffs total (s ∷ ss) h (m, ms) =
      let (n, large, small, e) = from_dealt secret coeffs 1 total s m in
      let (ns, larger, smaller, es) = all_from_dealt secret coeffs total ss h ms in
      (
        n ∷ ns,
        (omega arith, larger),
        (omega arith, smaller),
        ap (λ t. t ∷ ss) e ∙ ap (λ l. share_at q secret coeffs n ∷ l) es,
      )

-- Ids of which none stands twice.
has_id-other : (x : ℕ) (xs : List ℕ) → has_id (pos x) (map pos xs) ≡ false → All (λ y. x ≢ y) xs
unfolding has_id
has_id-other x [] h = tt
has_id-other x (y ∷ ys) h = elim (Bool-cases (eqb_ℤ (pos x) (pos y))) [
  | inl same ↦ absurd (ground arith)
  | inr other ↦ (
    λ e. let k = (==_iff (x + 0) (y + 0)).1 (ap (λ t. t + 0) e) in cc,
    has_id-other x ys (ground arith),
  )
]

pub has_duplicates-Distinct : (xs : List ℕ) → has_duplicates (map pos xs) ≡ false → Distinct xs
unfolding has_duplicates
has_duplicates-Distinct [] h = tt
has_duplicates-Distinct (x ∷ xs) h = elim (Bool-cases (has_id (pos x) (map pos xs))) [
  | inl here_ ↦ absurd (ground arith)
  | inr other ↦ (has_id-other x xs other, has_duplicates-Distinct xs (ground arith))
]

module _ (q : ℕ) (prime : IsPrimeOrder q) where
  abbrev pub combination : List ℕ → List ℕ → List ℕ → ℕ
  combination cs whole ns = sum_at q (inverse_of q prime) whole (eval cs) ns

  one_more :
      (acc l v w f s : ℕ)
      → Same q l w
      → Same q v f
      → Same q ((acc + (l * v) % q) % q + s) (acc + (w * f + s))
  one_more acc l v w f s at_l at_v =
      let moved : acc + w * f + s ≡ acc + (w * f + s) = omega arith in
      let term : Same q (l * v) (w * f) = Same-product q at_l at_v in
      Same-trans q
        (Same-add q
          (Same-trans q (Same-mod q _)
            (Same-add q (Same-refl q acc) (Same-trans q (Same-mod q _) term)))
          (Same-refl q s))
        (Same-of_eq q _ _ moved)

  -- The loop over shares of numbers below the order never throws, and gives the interpolation.
  combine_loop-shares :
      (secret : ℕ) (coeffs whole ns : List ℕ) (acc : ℕ)
      → All (λ n. n < q) whole
      → All (λ n. n < q) ns
      → acc < q
      → (r : ℕ) × (combine_loop q (map pos whole) (map (share_at q secret coeffs) ns) acc ≡ ok r)
        × (r < q)
        × Same q r (acc + combination (secret ∷ coeffs) whole ns)
  unfolding combine_loop share_at sum_at
  combine_loop-shares secret coeffs whole [] acc hw h small =
      (acc, refl, small, Same-of_eq q _ _ (omega arith))
  combine_loop-shares secret coeffs whole (n ∷ ns) acc hw (hn, h) small =
      let (l, e, bound, same) = lagrange_coeff-weight q prime n whole hn hw in
      let v = (share_at q secret coeffs n).value in
      let next = (acc + (l * v) % q) % q in
      let (r, k, below, rest) =
        combine_loop-shares secret coeffs whole ns next hw h (mod-lt _ (omega arith)) in
      (
        r,
        >>=-ok _ e k,
        below,
        Same-trans q rest (one_more acc l v _ _ _ same (share_at-eval q secret coeffs n)),
      )

  -- The shares of different numbers, one more than there are random coefficients.
  pub combination-secret :
      (secret : ℕ) (coeffs ns : List ℕ)
      → All (λ n. n < q) ns
      → Distinct ns
      → length coeffs < length ns
      → Same q (combination (secret ∷ coeffs) ns ns) secret
  unfolding eval
  combination-secret secret coeffs ns h d enough =
      Same-trans q
        (total-eval q (inverse_of q prime) (inverse_of_lem q prime) ns (secret ∷ coeffs) h d
          (omega arith))
        (Same-of_eq q _ _ (omega arith))

  combine_shares-loop :
      (ss : List Share) {r : ℕ}
      → 0 < length ss
      → has_duplicates (share_ids ss) ≡ false
      → combine_loop q (share_ids ss) ss 0 ≡ ok r
      → combine_shares q ss ≡ ok r
  unfolding combine_shares ◌>>=◌
  combine_shares-loop [] long single e = absurd (omega arith)
  combine_shares-loop (s ∷ ss) long single e = rw single e

  pub length-numbers : {A B : Type 0} (f : A → B) (xs : List A) → length (map f xs) ≡ length xs
  length-numbers f [] = refl
  length-numbers f (x ∷ xs) = ap suc (length-numbers f xs)

  none_yet : (n : ℕ) → 0 + n ≡ n
  none_yet n = omega arith

  -- Shares of the numbers `ns` combine.
  combine_shares-numbers :
      (secret : ℕ) (coeffs ns : List ℕ)
      → All (λ n. n < q) ns
      → has_duplicates (map pos ns) ≡ false
      → length coeffs < length ns
      → combine_shares q (map (share_at q secret coeffs) ns) ≡ ok (secret % q)
  combine_shares-numbers secret coeffs ns h single enough =
      let ids = share_ids-share_at q secret coeffs ns in
      let l = prime.large in
      let (r, e, small, same) = combine_loop-shares secret coeffs ns ns 0 h h (omega arith) in
      let d = has_duplicates-Distinct ns single in
      let value : r ≡ secret % q =
        sym (mod-eq_of_lt small)
        ∙ mod-of_Same q (
            Same-trans q same (
              Same-trans q (Same-of_eq q _ _ (none_yet _))
                (combination-secret secret coeffs ns h d enough))) in
      combine_shares-loop (map (share_at q secret coeffs) ns)
        (let k = length-numbers (share_at q secret coeffs) ns in omega arith)
        (ap has_duplicates ids ∙ single)
        (ap (λ i. combine_loop q i (map (share_at q secret coeffs) ns) 0) ids ∙ e ∙ ap ok value)

  -- For a prime order: if `splitSecret` splits a secret with fewer random coefficients than the
  -- threshold, and there are fewer participants than the order, then `combineShares` never throws on any
  -- of the dealt shares, as many as the threshold or more and none of them twice: it gives the secret,
  -- reduced modulo the order.
  pub combine_shares-split_secret :
      (secret : ℕ) (coeffs : List ℕ) (threshold total : ℕ) {shares : List Share}
      → split_secret q secret coeffs threshold total ≡ ok shares
      → total < q
      → length coeffs < threshold
      → (ss : List Share) → All (λ s. Memᴰ s shares) ss
      → has_duplicates (share_ids ss) ≡ false
      → threshold ≤ length ss
      → combine_shares q ss ≡ ok (secret % q)
  unfolding split_secret
  combine_shares-split_secret secret coeffs threshold total {shares} h few short ss m single
        enough =
      by_steps (throw_if _ invalid_threshold) (λ _. ok (shares_from q secret coeffs 1 total)) h
        λ u t k.
          let dealt : shares ≡ shares_from q secret coeffs 1 total = ok_injective (sym k) in
          let (ns, large, small, e) =
            all_from_dealt q secret coeffs total ss few
              (subst (λ l. All (λ s. Memᴰ s l) ss) dealt m) in
          let count = length-numbers (share_at q secret coeffs) ns in
          let same_count = ap length e in
          let ids : share_ids ss ≡ map pos ns =
            ap share_ids e ∙ share_ids-share_at q secret coeffs ns in
          ap (combine_shares q) e
          ∙ combine_shares-numbers secret coeffs ns small (sym (ap has_duplicates ids) ∙ single)
              (omega arith)
