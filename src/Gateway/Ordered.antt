-- ===== src/Gateway/Ordered.antt =====
-- The sort of the clients and the check of their ids in `discoverNodes` of
-- projects/gateway/src/nodes/discovery.ts.
use decentralized_identity_p.Prelude.{
  suc, str_eq, ℤ, pos, ltb_ℤ, leb_ℤ, eqb_ℤ, Bool-cases, inl, inr, true, false, ◌≡◌, refl, ap, ◌∙◌,
  List, [], ◌∷◌, length, All, ok, by_steps, throw_if-eq-ok, arith,
}
use decentralized_identity_p.Crypto.Shamir.{has_id}
use decentralized_identity_p.Gateway.Discovery.{
  NodeClient, set_client, insert_client, sort_clients, check_ids,
}

-- The ids rise.
abbrev pub Ascending : List NodeClient → Type 0
Ascending [] = Unit
Ascending (c ∷ cs) = All (λ d. ltb_ℤ c.node_id d.node_id ≡ true) cs × Ascending cs

abbrev Sorted : List NodeClient → Type 0
Sorted [] = Unit
Sorted (c ∷ cs) = All (λ d. leb_ℤ c.node_id d.node_id ≡ true) cs × Sorted cs

pub All-map :
    {A : Type 0} {P Q : A → Type 0} → ((a : A) → P a → Q a) → (xs : List A) → All P xs → All Q xs
All-map f [] h = tt
All-map f (x ∷ xs) (h, hs) = (f x h, All-map f xs hs)

module _ (P : NodeClient → Type 0) where
  pub All-set_client :
      (c : NodeClient) (cs : List NodeClient) → P c → All P cs → All P (set_client c cs)
  unfolding set_client
  All-set_client c [] h hs = (h, tt)
  All-set_client c (d ∷ ds) h (hd, hs) = elim (Bool-cases (str_eq c.url d.url)) [
    | inl e ↦ rw e (h, hs)
    | inr e ↦ rw e (hd, All-set_client c ds h hs)
  ]

  All-insert_client :
      (c : NodeClient) (cs : List NodeClient) → P c → All P cs → All P (insert_client c cs)
  unfolding insert_client
  All-insert_client c [] h hs = (h, tt)
  All-insert_client c (d ∷ ds) h (hd, hs) = elim (Bool-cases (leb_ℤ c.node_id d.node_id)) [
    | inl e ↦ rw e (h, (hd, hs))
    | inr e ↦ rw e (hd, All-insert_client c ds h hs)
  ]

  pub All-sort_clients : (cs : List NodeClient) → All P cs → All P (sort_clients cs)
  unfolding sort_clients
  All-sort_clients [] h = tt
  All-sort_clients (c ∷ cs) (h, hs) =
      All-insert_client c (sort_clients cs) h (All-sort_clients cs hs)

length-insert_client :
    (c : NodeClient) (cs : List NodeClient) → length (insert_client c cs) ≡ suc (length cs)
unfolding insert_client
length-insert_client c [] = refl
length-insert_client c (d ∷ ds) = elim (Bool-cases (leb_ℤ c.node_id d.node_id)) [
  | inl e ↦ rw e refl
  | inr e ↦ rw e (ap suc (length-insert_client c ds))
]

pub length-sort_clients : (cs : List NodeClient) → length (sort_clients cs) ≡ length cs
unfolding sort_clients
length-sort_clients [] = refl
length-sort_clients (c ∷ cs) =
    length-insert_client c (sort_clients cs) ∙ ap suc (length-sort_clients cs)

leb_ℤ-trans : (a b c : ℤ) → leb_ℤ a b ≡ true → leb_ℤ b c ≡ true → leb_ℤ a c ≡ true
leb_ℤ-trans a b c h k = ground arith

leb_ℤ-total : (a b : ℤ) → leb_ℤ a b ≡ false → leb_ℤ b a ≡ true
leb_ℤ-total a b h = ground arith

ltb_ℤ-of : (a b : ℤ) → leb_ℤ a b ≡ true → eqb_ℤ b a ≡ false → ltb_ℤ a b ≡ true
ltb_ℤ-of a b h k = ground arith

Sorted-insert_client :
    (c : NodeClient) (cs : List NodeClient) → Sorted cs → Sorted (insert_client c cs)
unfolding insert_client
Sorted-insert_client c [] h = (tt, tt)
Sorted-insert_client c (d ∷ ds) (h, hs) = elim (Bool-cases (leb_ℤ c.node_id d.node_id)) [
  | inl e ↦ rw e ((e, All-map (λ k. leb_ℤ-trans c.node_id d.node_id k.node_id e) ds h), (h, hs))
  | inr e ↦ rw e (
    All-insert_client (λ k. leb_ℤ d.node_id k.node_id ≡ true) c ds
        (leb_ℤ-total c.node_id d.node_id e) h,
    Sorted-insert_client c ds hs,
  )
]

pub Sorted-sort_clients : (cs : List NodeClient) → Sorted (sort_clients cs)
unfolding sort_clients
Sorted-sort_clients [] = tt
Sorted-sort_clients (c ∷ cs) = Sorted-insert_client c (sort_clients cs) (Sorted-sort_clients cs)

-- An id that the loop over the clients takes.
abbrev IsFresh : List ℤ → NodeClient → Type 0
IsFresh seen c = (ltb_ℤ c.node_id (pos 1) ≡ false) × (has_id c.node_id seen ≡ false)

IsFresh-tail : (i : ℤ) (seen : List ℤ) (c : NodeClient) → IsFresh (i ∷ seen) c → IsFresh seen c
unfolding has_id
IsFresh-tail i seen c (h, k) = (h, ground arith)

IsFresh-head :
    (i : ℤ) (seen : List ℤ) (c : NodeClient) → IsFresh (i ∷ seen) c → eqb_ℤ c.node_id i ≡ false
unfolding has_id
IsFresh-head i seen c (h, k) = ground arith

check_ids-IsFresh :
    (seen : List ℤ) (cs : List NodeClient) → check_ids seen cs ≡ ok tt → All (IsFresh seen) cs
unfolding check_ids
check_ids-IsFresh seen [] h = tt
check_ids-IsFresh seen (c ∷ cs) h = by_steps _ _ h λ a e1 h1. by_steps _ _ h1 λ b e2 h2. (
  (throw_if-eq-ok _ _ e1, throw_if-eq-ok _ _ e2),
  All-map (IsFresh-tail c.node_id seen) cs (check_ids-IsFresh (c.node_id ∷ seen) cs h2),
)

pub check_ids-Ascending :
    (seen : List ℤ) (cs : List NodeClient) → Sorted cs → check_ids seen cs ≡ ok tt → Ascending cs
unfolding check_ids
check_ids-Ascending seen [] s h = tt
check_ids-Ascending seen (c ∷ cs) (s, ss) h = by_steps _ _ h λ a e1 h1. by_steps _ _ h1 λ b e2 h2.
    let fresh = check_ids-IsFresh (c.node_id ∷ seen) cs h2 in
    (strictly cs s fresh, check_ids-Ascending (c.node_id ∷ seen) cs ss h2)
  where
    strictly :
        (ds : List NodeClient)
        → All (λ d. leb_ℤ c.node_id d.node_id ≡ true) ds
        → All (IsFresh (c.node_id ∷ seen)) ds
        → All (λ d. ltb_ℤ c.node_id d.node_id ≡ true) ds
    strictly [] k f = tt
    strictly (d ∷ ds) (k, ks) (f, fs) =
        (ltb_ℤ-of c.node_id d.node_id k (IsFresh-head c.node_id seen d f), strictly ds ks fs)

pub check_ids-IsValid :
    (cs : List NodeClient) → check_ids [] cs ≡ ok tt → All (λ c. ltb_ℤ c.node_id (pos 1) ≡ false) cs
check_ids-IsValid cs h = All-map (λ c f. f.0) cs (check_ids-IsFresh [] cs h)
