-- ===== src/Crypto/Toprf/Quorum.antt =====
-- Every quorum of the holders of a dealt key computes the same function of the password, that of the
-- master key: projects/node/src/crypto/toprf.ts.
use mathlib.Core.List.{Memᴰ}
use decentralized_identity_p.Prelude.{
  ℕ, suc, ◌%◌, ◌≤◌, ◌<◌, pos, ◌≡◌, refl, sym, ap, subst, ◌∙◌, some, List, [], ◌∷◌, map, length, All,
  ok, false, by_steps, throw_if, ok_injective, >>=-ok, or_throw, arith,
}
use decentralized_identity_p.Runtime.{Bytes, Runtime}
use decentralized_identity_p.Crypto.Shamir.{
  Share, invalid_threshold, share_at, shares_from, split_secret, has_duplicates,
}
use decentralized_identity_p.Crypto.Inverse.{IsPrimeOrder}
use decentralized_identity_p.Crypto.Congruence.{
  Same, Same-refl, Same-of_eq, Same-trans, Same-add, Same-product, mod-of_Same,
}
use decentralized_identity_p.Crypto.Lagrange.{eval, sum_at}
use decentralized_identity_p.Crypto.Difference.{inverse_of}
use decentralized_identity_p.Crypto.Coefficient.{lagrange_coeff-weight}
use decentralized_identity_p.Crypto.Reconstructed.{
  share_at-eval, all_from_dealt, has_duplicates-Distinct, combination-secret, length-numbers,
}
use decentralized_identity_p.Crypto.Toprf.{
  Group, Partial, bad_scalar, of_shamir, hash_to_group, blind, unblind, generate_toprf_key,
}
use decentralized_identity_p.Crypto.Toprf.Unblinded.{
  IsGroup, ids_of, ids_of-partials, coefficient, partials_of, interpolated_key, unblind_lem,
}
use decentralized_identity_p.Crypto.Toprf.Usable.{
  IsRanged, IsUsable, lagrange_coeff-IsUsable, invert-IsUsable, combine_points-ok,
}

length-ids_of : (ss : List Share) → length (ids_of ss) ≡ length ss
unfolding ids_of
length-ids_of [] = refl
length-ids_of (s ∷ ss) = ap suc (length-ids_of ss)

module _ (rt : Runtime) {Point : Type 0} (group : Group Point)
    (prime : IsPrimeOrder group.order) where
  abbrev q : ℕ
  q = group.order

  ids_of-share_at :
      (key : ℕ) (coeffs ns : List ℕ) → ids_of (map (share_at q key coeffs) ns) ≡ map pos ns
  unfolding ids_of share_at
  ids_of-share_at key coeffs [] = refl
  ids_of-share_at key coeffs (n ∷ ns) = ap (λ l. pos n ∷ l) (ids_of-share_at key coeffs ns)

  interpolated_key-sum_at :
      (key : ℕ) (coeffs whole ns : List ℕ)
      → All (λ n. n < q) whole
      → All (λ n. n < q) ns
      → Same q
          (interpolated_key rt group (map pos whole) (map (share_at q key coeffs) ns))
          (sum_at q (inverse_of q prime) whole (eval (key ∷ coeffs)) ns)
  unfolding interpolated_key sum_at share_at
  interpolated_key-sum_at key coeffs whole [] hw h = Same-refl q 0
  interpolated_key-sum_at key coeffs whole (n ∷ ns) hw (hn, h) =
      let (l, e, bound, same) = lagrange_coeff-weight q prime n whole hn hw in
      let at_l = Same-trans q (Same-of_eq q _ _ (ap coefficient e)) same in
      Same-add q (Same-product q at_l (share_at-eval q key coeffs n))
        (interpolated_key-sum_at key coeffs whole ns hw h)

  all-IsUsable :
      (whole ns : List ℕ)
      → All (λ n. 0 < n) whole
      → All (λ n. n < q) whole
      → All (λ n. n < q) ns
      → All (IsUsable q prime (map pos whole)) (map pos ns)
  all-IsUsable whole [] hp hw h = tt
  all-IsUsable whole (n ∷ ns) hp hw (hn, h) =
      (lagrange_coeff-IsUsable q prime n whole hn hp hw, all-IsUsable whole ns hp hw h)

  module _ (laws : IsGroup group) (ranged : IsRanged group) where
    -- Unblinding returns a point, where every coefficient is usable.
    unblind-ok :
        (r : ℕ) (ps : List (Partial Point))
        → 0 < length ps
        → 0 < r
        → r < q
        → All
            (IsUsable q prime (map (λ (p : Partial Point). p.id) ps))
            (map (λ (p : Partial Point). p.id) ps)
        → (v : Point) × (unblind rt group r ps ≡ ok v)
    unfolding unblind
    unblind-ok r [] long h small usable = absurd (omega arith)
    unblind-ok r (p ∷ ps) long h small usable =
        let ids = map (λ (p : Partial Point). p.id) (p ∷ ps) in
        let (combined, e) =
          combine_points-ok rt group prime ranged ids (p ∷ ps) group.origin usable in
        let (b, inverted, large, below) = invert-IsUsable q prime r h small in
        let (v, k) = ranged.multiply_some combined b large below in
        (v, >>=-ok _ e (>>=-ok _ (ap of_shamir inverted) (ap (λ o. or_throw o bad_scalar) k)))

    length-partials_of :
        (ss : List Share) (blinded : Point) {ps : List (Partial Point)}
        → partials_of rt group ss blinded ≡ ok ps
        → length ps ≡ length ss
    length-partials_of ss blinded {ps} h =
        sym (length-numbers q prime (λ (p : Partial Point). p.id) ps)
        ∙ ap length (ids_of-partials rt group ss blinded h)
        ∙ length-ids_of ss

    -- For the shares of the numbers `ns`.
    unblind-numbers :
        (key : ℕ) (coeffs ns : List ℕ)
        → All (λ n. 0 < n) ns
        → All (λ n. n < q) ns
        → has_duplicates (map pos ns) ≡ false
        → length coeffs < length ns
        → (pw : Bytes) (r : ℕ) {blinded : Point} {ps : List (Partial Point)}
        → blind rt group pw r ≡ some blinded
        → partials_of rt group (map (share_at q key coeffs) ns) blinded ≡ ok ps
        → unblind rt group r ps ≡ ok (laws.times (hash_to_group rt group pw) key)
    unfolding blind
    unblind-numbers key coeffs ns large small single enough pw r {blinded} {ps} e k =
        let ss = map (share_at q key coeffs) ns in
        let h = hash_to_group rt group pw in
        let (r_large, r_small) = ranged.multiply_range h r e in
        let ids = ids_of-share_at key coeffs ns in
        let partial_ids : map (λ (p : Partial Point). p.id) ps ≡ map pos ns =
          ids_of-partials rt group ss blinded k ∙ ids in
        let count = length-partials_of ss blinded k in
        let count_ns = length-numbers q prime (share_at q key coeffs) ns in
        let usable =
          subst (λ l. All (IsUsable q prime l) l) (sym partial_ids)
            (all-IsUsable ns ns large small small) in
        let (v, found) = unblind-ok r ps (omega arith) r_large r_small usable in
        let value = unblind_lem rt group laws prime pw r ss e k found in
        let same : interpolated_key rt group (ids_of ss) ss % q ≡ key % q =
          ap (λ i. interpolated_key rt group i ss % q) ids
          ∙ mod-of_Same q (
              Same-trans q (interpolated_key-sum_at key coeffs ns ns small small) (
                combination-secret q prime key coeffs ns small (has_duplicates-Distinct ns single)
                  enough)) in
        found
        ∙ ap ok
            (value ∙ (sym (laws.times_mod h _) ∙ (ap (laws.times h) same ∙ laws.times_mod h key)))

    -- A key is dealt by `generateToprfKey` with fewer random coefficients than the threshold, to fewer
    -- nodes than the prime order. If a client blinds a password with any scalar, and any of the
    -- nodes, as many as the threshold or more and none of them twice, answer with their evaluations of
    -- the blinded point, then `unblind` never throws: it returns the hashed password times the dealt
    -- key, whichever nodes answered and whatever the blinding scalar.
    pub unblind-generate_toprf_key :
        (key : ℕ) (coeffs : List ℕ) (threshold total : ℕ) {shares : List Share}
        → generate_toprf_key rt group key coeffs total threshold ≡ ok shares
        → total < q
        → length coeffs < threshold
        → (ss : List Share) → All (λ s. Memᴰ s shares) ss
        → has_duplicates (ids_of ss) ≡ false
        → threshold ≤ length ss
        → (pw : Bytes) (r : ℕ) {blinded : Point} {ps : List (Partial Point)}
        → blind rt group pw r ≡ some blinded
        → partials_of rt group ss blinded ≡ ok ps
        → unblind rt group r ps ≡ ok (laws.times (hash_to_group rt group pw) key)
    unfolding generate_toprf_key split_secret
    unblind-generate_toprf_key key coeffs threshold total {shares} h few short ss m single enough pw
          r {blinded} {ps} e k =
        by_steps (throw_if _ invalid_threshold) (λ _. ok (shares_from q key coeffs 1 total)) h
          λ u t d.
            let dealt : shares ≡ shares_from q key coeffs 1 total = ok_injective (sym d) in
            let (ns, large, small, at) =
              all_from_dealt q key coeffs total ss few
                (subst (λ l. All (λ s. Memᴰ s l) ss) dealt m) in
            let count = length-numbers q prime (share_at q key coeffs) ns in
            let same_count = ap length at in
            let ids : ids_of ss ≡ map pos ns = ap ids_of at ∙ ids_of-share_at key coeffs ns in
            unblind-numbers key coeffs ns large small (sym (ap has_duplicates ids) ∙ single)
              (omega arith) pw r e (subst (λ l. partials_of rt group l blinded ≡ ok ps) at k)
