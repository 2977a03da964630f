-- ===== src/Dealer/Columns.antt =====
-- The records that `generateDealerOutput` of projects/dealer/src/dealer.ts collects for each node.
use native.Mathlib.Nat.{pow-zero, pow-suc, mul_assoc, mul_comm, pow-le-pow_right, mul-le-mul_right}
use decentralized_identity_p.Prelude.{
  ℕ, zero, suc, ◌+◌, ◌*◌, ◌^◌, ◌≤◌, ◌<◌, ℤ, pos, ltb, ◌≡◌, refl, sym, ap, ◌∙◌, String, false, List,
  [], ◌∷◌, ◌++◌, map, length, All, ok, by_steps, throw_if, throw_if-eq-ok, arith,
}
use decentralized_identity_p.Runtime.{Bytes, IsBytes, Runtime}
use decentralized_identity_p.Crypto.Hex.{digits_onto, digits, scalar_to_hex, value_from}
use decentralized_identity_p.Crypto.Encoded.{IsDigit, digits_onto-IsDigit, value_from-digits_onto}
use decentralized_identity_p.Node.Config.{NodeUserConfig}
use decentralized_identity_p.Dealer.{scalar_too_long, UserSpec, NodeUserRecord}
use decentralized_identity_p.Dealer.Records.{checked_hex, push_records, no_records}
use decentralized_identity_p.Dealer.Written.{written_user, IsUser}

-- A hash of at least 32 bytes.
abbrev pub IsHash : Runtime → Type 0
IsHash rt = (bs : Bytes) → IsBytes (rt.sha512 bs) × (32 ≤ length (rt.sha512 bs))

one_digit : (v acc d p : ℕ) → d < 16 → v < suc (acc * 16 + d) * p → v < suc acc * (p * 16)
one_digit v acc d p h k =
    let step : suc (acc * 16 + d) * p ≤ suc acc * 16 * p = mul-le-mul_right p (omega arith) in
    let regrouped : suc acc * 16 * p ≡ suc acc * (p * 16) =
      mul_assoc (suc acc) 16 p ∙ ap (λ t. suc acc * t) (mul_comm 16 p) in
    omega arith

value_from-lt :
    (acc : ℕ) (ds : List ℕ) → All IsDigit ds → value_from 16 acc ds < suc acc * 16 ^ length ds
unfolding value_from
value_from-lt acc [] h = let p = pow-zero 16 in grind arith
value_from-lt acc (d ∷ ds) (h, hs) =
    rw (pow-suc 16 (length ds))
      (one_digit _ acc d (16 ^ length ds) h (value_from-lt (acc * 16 + d) ds hs))

ltb-false : (a b : ℕ) → ltb a b ≡ false → b ≤ a
ltb-false a b h = ground arith

at_most : (n v p : ℕ) → v ≡ n → v < 1 * p → p ≤ 16 ^ 64 → n < 16 ^ 64
at_most n v p e h k = omega arith

-- What `scalarToHex` does not refuse is below 16 ^ 64.
pub checked_hex-eq-ok :
    (n : ℕ) {s : String} → checked_hex n ≡ ok s → (s ≡ scalar_to_hex n) × (n < 16 ^ 64)
unfolding checked_hex digits value_from
checked_hex-eq-ok n h =
    by_steps (throw_if (ltb 64 (length (digits 16 n))) scalar_too_long) (λ _. ok (scalar_to_hex n))
      h
      λ u short e.
        let few : length (digits_onto 16 n n []) ≤ 64 = ltb-false _ _ (throw_if-eq-ok _ _ short) in
        let value = value_from-digits_onto n n [] (omega arith) in
        let bound = value_from-lt 0 _ (digits_onto-IsDigit n n [] tt) in
        let room = pow-le-pow_right {n = 16} (omega arith) few in
        (cc, at_most n _ _ value bound room)

-- One record that a node is given: the user of the specification, with the share of the node.
pub record IsRecord (node_id : ℤ) (spec : UserSpec) (r : NodeUserRecord) : Type 0 where
  pub user : NodeUserConfig
  pub written : r ≡ written_user user
  pub is_user : IsUser node_id user
  pub name : user.username ≡ spec.username

-- The records of one user for the nodes after `i`, one for each of `n` nodes.
unfoldable pub Row : UserSpec → ℕ → ℕ → List NodeUserRecord → Type 0
Row spec i zero [] = Unit
Row spec i zero (r ∷ row) = ⊥
Row spec i (suc n) [] = ⊥
Row spec i (suc n) (r ∷ row) = IsRecord (pos (suc i)) spec r × Row spec (suc i) n row

-- What a node holds: a record for each name, in order.
pub record Holds (node_id : ℤ) (names : List String) (rs : List NodeUserRecord) : Type 0 where
  pub users : List NodeUserConfig
  pub written : rs ≡ map written_user users
  pub are_users : All (IsUser node_id) users
  pub named : map (λ (u : NodeUserConfig). u.username) users ≡ names

-- What each of the `n` nodes after `i` holds.
unfoldable pub Columns : List String → ℕ → ℕ → List (List NodeUserRecord) → Type 0
Columns names i zero [] = Unit
Columns names i zero (rs ∷ nodes) = ⊥
Columns names i (suc n) [] = ⊥
Columns names i (suc n) (rs ∷ nodes) = Holds (pos (suc i)) names rs × Columns names (suc i) n nodes

pub no_records-Columns : (i n : ℕ) → Columns [] i n (no_records n)
unfolding Columns no_records
no_records-Columns i zero = tt
no_records-Columns i (suc n) = (
  record { users = []; written = refl; are_users = tt; named = refl },
  no_records-Columns (suc i) n,
)

All-snoc {ℓ κ} :
    {A : Type ℓ} (P : A → Type κ) (xs : List A) (x : A) → All P xs → P x → All P (xs ++ (x ∷ []))
All-snoc P [] x hs h = (h, tt)
All-snoc P (y ∷ ys) x (k, ks) h = (k, All-snoc P ys x ks h)

map-snoc {ℓ κ} :
    {A : Type ℓ} {B : Type κ} (f : A → B) (xs : List A) (x : A)
    → map f (xs ++ (x ∷ [])) ≡ map f xs ++ (f x ∷ [])
map-snoc f [] x = refl
map-snoc f (y ∷ ys) x = ap (λ t. f y ∷ t) (map-snoc f ys x)

Holds-snoc :
    (node_id : ℤ) (names : List String) (spec : UserSpec) (rs : List NodeUserRecord)
    (r : NodeUserRecord)
    → Holds node_id names rs
    → IsRecord node_id spec r
    → Holds node_id (names ++ (spec.username ∷ [])) (rs ++ (r ∷ []))
Holds-snoc node_id names spec rs r h k = record {
  users = h.users ++ (k.user ∷ []);
  written = rw (h.written, k.written) (sym (map-snoc written_user h.users k.user));
  are_users = All-snoc (IsUser node_id) h.users k.user h.are_users k.is_user;
  named = map-snoc (λ (u : NodeUserConfig). u.username) h.users k.user ∙ rw (h.named, k.name) refl;
}

pub push_records-Columns :
    (names : List String) (spec : UserSpec) (i n : ℕ) (row : List NodeUserRecord)
    (nodes : List (List NodeUserRecord))
    → Row spec i n row
    → Columns names i n nodes
    → Columns (names ++ (spec.username ∷ [])) i n (push_records row nodes)
unfolding Row Columns push_records
push_records-Columns names spec i zero [] [] h k = tt
push_records-Columns names spec i (suc n) (r ∷ row) (rs ∷ nodes) (h, hs) (k, ks) =
    (Holds-snoc _ names spec rs r k h, push_records-Columns names spec (suc i) n row nodes hs ks)
push_records-Columns names spec i zero (r ∷ row) nodes h k = absurd h
push_records-Columns names spec i (suc n) [] nodes h k = absurd h
push_records-Columns names spec i zero [] (rs ∷ nodes) h k = absurd k
push_records-Columns names spec i (suc n) (r ∷ row) [] h k = absurd k
