-- ===== src/Crypto/Toprf/Unblinded.antt =====
-- Unblinding the partial evaluations of a blinded password gives the hashed password times the key
-- that the shares interpolate to, whatever the blinding scalar: projects/node/src/crypto/toprf.ts.
use decentralized_identity_p.Prelude.{
  ok_injective, ℕ, ◌+◌, ◌*◌, ◌%◌, ℤ, pos, ◌≡◌, sym, ap, subst, ◌∙◌, some, List, [], ◌∷◌, map, arith,
  Result, ok, err, ◌>>=◌, by_steps, or_throw, or_throw-eq-ok, inl, inr,
}
use decentralized_identity_p.Runtime.{Bytes, Runtime}
use decentralized_identity_p.Crypto.Shamir.{Share, ShamirError, lagrange_coeff, invert, mod_ℤ}
use decentralized_identity_p.Crypto.Inverse.{IsPrimeOrder, invert_lem}
use decentralized_identity_p.Crypto.Power.{mul-mod_left, mul-mod_right}
use decentralized_identity_p.Crypto.Toprf.{
  Group, Partial, ToprfError, of_shamir, hash_to_group, blind, evaluate, combine_points, unblind,
}

-- What the program relies on of the group: `times p n` is n·p, and addition and scalar multiplication
-- agree with it.
pub record IsGroup {Point : Type 0} (group : Group Point) : Type 0 where
  pub times : Point → ℕ → Point
  pub times_zero : (p : Point) → times p 0 ≡ group.origin
  pub times_add : (p : Point) (a b : ℕ) → times p (a + b) ≡ group.add (times p a) (times p b)
  pub times_times : (p : Point) (a b : ℕ) → times (times p a) b ≡ times p (b * a)
  pub times_mod : (p : Point) (a : ℕ) → times p (a % group.order) ≡ times p a
  pub multiply_times : (p : Point) (n : ℕ) {q : Point} → group.multiply p n ≡ some q → q ≡ times p n

of_shamir-eq : (m : Result ShamirError ℕ) {n : ℕ} → of_shamir m ≡ ok n → m ≡ ok n
unfolding of_shamir
of_shamir-eq (ok a) h = cc
of_shamir-eq (err e) h = cc

-- The coefficient of a share, 0 where there is none.
abbrev pub coefficient : Result ShamirError ℕ → ℕ
coefficient (ok n) = n
coefficient (err e) = 0

unfoldable pub ids_of : List Share → List ℤ
ids_of [] = []
ids_of (s ∷ ss) = s.id ∷ ids_of ss

module _ (rt : Runtime) {Point : Type 0} (group : Group Point) where
  -- The nodes' evaluations, one after another; `none` is a node's exception.
  unfoldable pub partials_of : List Share → Point → Result ToprfError (List (Partial Point))
  partials_of [] blinded = ok []
  partials_of (s ∷ ss) blinded = do
    point ← or_throw (evaluate group s blinded) ToprfError.bad_scalar
    rest ← partials_of ss blinded
    ok (record { id = s.id; point = point } ∷ rest)

  -- What the shares interpolate to: the sum of lambda_i * k_i.
  unfoldable pub interpolated_key : List ℤ → List Share → ℕ
  interpolated_key ids [] = 0
  interpolated_key ids (s ∷ ss) =
      coefficient (lagrange_coeff group.order ids s.id) * s.value + interpolated_key ids ss

  pub ids_of-partials :
      (ss : List Share) (blinded : Point) {ps : List (Partial Point)}
      → partials_of ss blinded ≡ ok ps
      → map (λ (q : Partial Point). q.id) ps ≡ ids_of ss
  unfolding partials_of ids_of
  ids_of-partials [] blinded {ps} h =
      ap (λ l. map (λ (q : Partial Point). q.id) l) (sym (ok_injective h))
  ids_of-partials (s ∷ ss) blinded {ps} h = by_steps _ _ h λ point e1 h1.
      by_steps _ _ h1 λ rest e2 h2.
        ap (λ l. map (λ (q : Partial Point). q.id) l) (sym (ok_injective h2))
        ∙ ap (λ l. s.id ∷ l) (ids_of-partials ss blinded e2)

  module _ (laws : IsGroup group) where
    open laws use {times, times_zero, times_add, times_times, times_mod, multiply_times}

    -- The combination of the evaluations is the blinded point times the interpolated key.
    combine_points-times :
        (ids : List ℤ) (ss : List Share) (blinded : Point) (acc : ℕ) {ps : List (Partial Point)}
        {q : Point}
        → partials_of ss blinded ≡ ok ps
        → combine_points rt group ids ps (times blinded acc) ≡ ok q
        → q ≡ times blinded (acc + interpolated_key ids ss)
    unfolding partials_of combine_points interpolated_key evaluate
    combine_points-times ids [] blinded acc {ps} {q} h k =
        let none_left : [] ≡ ps = ok_injective h in
        let same : times blinded acc ≡ q = ok_injective (
          subst (λ l. combine_points rt group ids l (times blinded acc) ≡ ok q) (sym none_left)
            k) in
        sym same ∙ ap (times blinded) (omega arith)
    combine_points-times ids (s ∷ ss) blinded acc {ps} {q} h k = by_steps _ _ h λ point e1 h1.
        by_steps _ _ h1 λ rest e2 h2.
          by_steps _ _
            (subst (λ l. combine_points rt group ids l (times blinded acc) ≡ ok q)
              (sym (ok_injective h2)) k)
            λ lambda e3 h3. by_steps _ _ h3 λ term e4 h4.
              let at_point : point ≡ times blinded s.value =
                multiply_times blinded s.value (or_throw-eq-ok _ _ e1) in
              let at_lambda : coefficient (lagrange_coeff group.order ids s.id) ≡ lambda =
                ap coefficient (of_shamir-eq _ e3) in
              let at_term : term ≡ times blinded (lambda * s.value) =
                multiply_times point lambda (or_throw-eq-ok _ _ e4)
                ∙ (ap (λ p. times p lambda) at_point ∙ times_times blinded s.value lambda) in
              let sum : group.add (times blinded acc) term
                  ≡ times blinded (acc + lambda * s.value) =
                ap (group.add (times blinded acc)) at_term ∙ sym (times_add blinded _ _) in
              combine_points-times ids ss blinded (acc + lambda * s.value) e2
                (subst (λ p. combine_points rt group ids rest p ≡ ok q) sum h4)
              ∙ ap (times blinded) (
                  ap (λ l. acc + l * s.value + interpolated_key ids ss) (sym at_lambda)
                  ∙ omega arith)

    -- Multiplying by r and by its inverse takes r out again.
    cancel :
        (h : Point) (r b k : ℕ)
        → (r % group.order * b) % group.order ≡ 1
        → times h (b * (k * r)) ≡ times h k
    cancel h r b k inverse =
        sym (times_mod h _)
        ∙ (ap (times h) (
              ap (λ x. x % group.order) (regroup b k r)
              ∙ (sym (mul-mod_right k (r * b) group.order)
                  ∙ (ap (λ x. (k * x) % group.order) (sym (mul-mod_left r b group.order) ∙ inverse)
                      ∙ ap (λ x. x % group.order) (unit k))))
            ∙ times_mod h k)
      where
        regroup : (b k r : ℕ) → b * (k * r) ≡ k * (r * b)
        regroup b k r = grind arith

        unit : (k : ℕ) → k * 1 ≡ k
        unit k = omega arith

    unblind-steps :
        (r : ℕ) (ps : List (Partial Point)) {v : Point}
        → unblind rt group r ps ≡ ok v
        → (combined : Point) × (combine_points rt group
              (map (λ (q : Partial Point). q.id) ps)
              ps
              group.origin
            ≡ ok combined)
          × (b : ℕ) × (invert group.order (pos r) ≡ ok b)
          × (group.multiply combined b ≡ some v)
    unfolding unblind
    unblind-steps r [] h = cc
    unblind-steps r (p ∷ ps) h = by_steps _ _ h λ combined e1 h1.
        by_steps _ _ h1 λ b e2 h2. (combined, e1, b, of_shamir-eq _ e2, or_throw-eq-ok _ _ h2)

    inverse_of :
        (prime : IsPrimeOrder group.order) (r b : ℕ)
        → invert group.order (pos r) ≡ ok b
        → (r % group.order * b) % group.order ≡ 1
    unfolding mod_ℤ
    inverse_of prime r b h = elim (invert_lem group.order prime (pos r)) [
      | inl (z, e) ↦ absurd (not_inverted (sym h ∙ e))
      | inr (c, e, k) ↦
          subst (λ x. (r % group.order * x) % group.order ≡ 1) (ok_injective (sym e ∙ h)) k
    ]
      where
        not_inverted : {b : ℕ} {e : ShamirError} → ¬ (◌≡◌ {A = Result ShamirError ℕ} (ok b) (err e))
        not_inverted h = cc

    -- If a client blinds a password with any scalar, the nodes evaluate the blinded point under their
    -- key shares, and unblinding their answers returns a point, then that point is the hashed password
    -- times the key that the shares interpolate to: the blinding scalar has left no trace.
    pub unblind_lem :
        (prime : IsPrimeOrder group.order) (pw : Bytes) (r : ℕ) (ss : List Share) {blinded : Point}
        {ps : List (Partial Point)} {v : Point}
        → blind rt group pw r ≡ some blinded
        → partials_of ss blinded ≡ ok ps
        → unblind rt group r ps ≡ ok v
        → v ≡ times (hash_to_group rt group pw) (interpolated_key (ids_of ss) ss)
    unfolding blind
    unblind_lem prime pw r ss {blinded} {ps} {v} e1 e2 e3 =
        let (combined, k, b, inverted, result) = unblind-steps r ps e3 in
        let h = hash_to_group rt group pw in
        let key = interpolated_key (ids_of ss) ss in
        let start : group.origin ≡ times blinded 0 = sym (times_zero blinded) in
        let at_combined : combined ≡ times blinded (0 + key) =
          combine_points-times (ids_of ss) ss blinded 0 e2 (
            subst (λ ids. combine_points rt group ids ps (times blinded 0) ≡ ok combined)
              (ids_of-partials ss blinded e2)
              (subst
                (λ p.
                  combine_points rt group (map (λ (q : Partial Point). q.id) ps) ps p ≡ ok combined)
                start k)) in
        let at_blinded : blinded ≡ times h r = multiply_times h r e1 in
        multiply_times combined b result
        ∙ (ap (λ p. times p b)
              (at_combined
                ∙ (ap (times blinded) (omega arith)
                    ∙ (ap (λ p. times p key) at_blinded ∙ times_times h r key)))
            ∙ (times_times h (key * r) b ∙ cancel h r b key (inverse_of prime r b inverted)))
