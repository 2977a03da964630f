-- ===== src/Dealer/Dealt.antt =====
-- The loop over the users in `generateDealerOutput` of projects/dealer/src/dealer.ts.
use decentralized_identity_p.Prelude.{
  ℕ, zero, suc, ◌+◌, ◌≤◌, ℤ, pos, ◌≡◌, refl, ap, subst, ◌∙◌, String, is_empty, false, includes,
  List, [], ◌∷◌, ◌++◌, map, length, take, All, Result, ok, err, by_steps, >>=-ok, throw_if,
  throw_if-eq-ok, ok_injective, arith,
}
use mathlib.Core.List.{append_assoc, append-nil}
use decentralized_identity_p.Runtime.{Bytes, IsBytes, Runtime}
use decentralized_identity_p.Crypto.Shamir.{
  Share, ShamirError, share_at, shares_from, split_secret, invalid_threshold,
}
use decentralized_identity_p.Crypto.Toprf.{Group, derive_server_key, generate_toprf_key}
use decentralized_identity_p.Node.Config.{NodeUserConfig, check_names}
use decentralized_identity_p.Dealer.{
  UserSpec, UserDraws, NodeUserRecord, DealerError, empty_username, empty_sub, duplicate_sub,
}
use decentralized_identity_p.Dealer.Options.{check_users}
use decentralized_identity_p.Dealer.Records.{
  checked_hex, share_of, of_shamir, push_records, derive_h, records_from, user_records, all_records,
}
use decentralized_identity_p.Dealer.Written.{written_user}
use decentralized_identity_p.Dealer.Columns.{
  IsHash, checked_hex-eq-ok, Row, Columns, push_records-Columns,
}

abbrev pub names_of : List UserSpec → List String
names_of = map (λ (u : UserSpec). u.username)

abbrev pub IsSpec : UserSpec → Type 0
IsSpec u = (is_empty u.username ≡ false) × (is_empty u.sub ≡ false)

IsBytes-take : (n : ℕ) (bs : Bytes) → IsBytes bs → IsBytes (take n bs)
IsBytes-take zero bs h = tt
IsBytes-take (suc n) [] h = tt
IsBytes-take (suc n) (b ∷ bs) (h, hs) = (h, IsBytes-take n bs hs)

length-take : (n : ℕ) (bs : Bytes) → n ≤ length bs → length (take n bs) ≡ n
length-take zero bs h = refl
length-take (suc n) [] h = absurd (omega arith)
length-take (suc n) (b ∷ bs) h = ap suc (length-take n bs (omega arith))

share_of-shares_from :
    (order secret : ℕ) (coeffs : List ℕ) (id n i : ℕ) {s : Share}
    → share_of (shares_from order secret coeffs id n) i ≡ ok s
    → s.id ≡ pos (id + i)
unfolding share_of shares_from share_at
share_of-shares_from order secret coeffs id zero i h = absurd (cc)
share_of-shares_from order secret coeffs id (suc n) zero h =
    let here : id ≡ id + 0 = omega arith in cc
share_of-shares_from order secret coeffs id (suc n) (suc i) h =
    share_of-shares_from order secret coeffs (suc id) n i h ∙ ap pos (omega arith)

-- The shares of a key are those of the nodes, in order.
abbrev InOrder : List Share → Type 0
InOrder shares = (i : ℕ) (s : Share) → share_of shares i ≡ ok s → s.id ≡ pos (suc i)

of_shamir-eq-ok : {A : Type 0} (m : Result ShamirError A) {a : A} → of_shamir m ≡ ok a → m ≡ ok a
unfolding of_shamir
of_shamir-eq-ok (ok b) h = cc
of_shamir-eq-ok (err e) h = cc

split_secret-InOrder :
    (order key : ℕ) (coeffs : List ℕ) (threshold total : ℕ) {shares : List Share}
    → split_secret order key coeffs threshold total ≡ ok shares
    → InOrder shares
unfolding split_secret
split_secret-InOrder order key coeffs threshold total h i s e =
    by_steps (throw_if _ invalid_threshold) (λ _. ok (shares_from order key coeffs 1 total)) h
      λ u t k.
        let found : share_of (shares_from order key coeffs 1 total) i ≡ ok s = cc in
        share_of-shares_from order key coeffs 1 total i found ∙ ap pos (omega arith)

-- What `JSON` keeps of a text that is not empty, and what the hash gives.
module _ (rt : Runtime) (hash : IsHash rt) {Blind : Type 0} (group : Group Blind) where
  h_i-IsBytes :
      (h : Bytes) (id : ℤ)
      → IsBytes (derive_server_key rt group h id) × (length (derive_server_key rt group h id) ≡ 32)
  unfolding derive_server_key
  h_i-IsBytes h id = (IsBytes-take 32 _ ((hash _).0), length-take 32 _ ((hash _).1))

  records_from-Row :
      (user : UserSpec) (shares : List Share) (h : Bytes) (i n : ℕ) {row : List NodeUserRecord}
      → IsSpec user
      → InOrder shares
      → records_from rt group user shares h i n ≡ ok row
      → Row user i n row
  unfolding records_from Row written_user
  records_from-Row user shares h i zero spec o e =
      let nothing : [] ≡ _ = cc in subst (Row user i 0) nothing tt
  records_from-Row user shares h i (suc n) spec o e =
      by_steps (share_of shares i) _ e λ share found e1.
        by_steps (checked_hex share.value) _ e1 λ value hex e2.
          by_steps (records_from rt group user shares h (suc i) n) _ e2 λ rest later e3.
            let (is_hex, small) = checked_hex-eq-ok share.value hex in
            let (bytes, long) = h_i-IsBytes h (pos (suc i)) in
            subst (Row user i (suc n)) (ok_injective e3) (
              record {
                user = record {
                  username = user.username;
                  sub = user.sub;
                  toprf_key_share = share;
                  h_i = derive_server_key rt group h (pos (suc i));
                };
                written = rw is_hex refl;
                is_user = record {
                  username = spec.0;
                  sub = spec.1;
                  share_id = o i share found;
                  share_value = small;
                  h_i = bytes;
                  h_i_length = long;
                };
                name = refl;
              },
              records_from-Row user shares h (suc i) n spec o later,
            )

  user_records-Row :
      (user : UserSpec) (draws : UserDraws) (threshold total : ℕ) {row : List NodeUserRecord}
      → IsSpec user
      → user_records rt group user draws threshold total ≡ ok row
      → Row user 0 total row
  unfolding user_records generate_toprf_key
  user_records-Row user draws threshold total spec e =
      by_steps (of_shamir (split_secret group.order draws.master_key draws.coeffs threshold total))
        _ e
        λ shares dealt e1. by_steps (derive_h rt group _ _ shares threshold) _ e1 λ h derived e2.
          records_from-Row user shares h 0 total spec
            (split_secret-InOrder _ _ _ threshold total (of_shamir-eq-ok _ dealt)) e2

  pub all_records-Columns :
      (draws : ℕ → UserDraws) (i : ℕ) (users : List UserSpec) (threshold total : ℕ)
      (nodes : List (List NodeUserRecord)) (done : List String)
      {records : List (List NodeUserRecord)}
      → All IsSpec users
      → Columns done 0 total nodes
      → all_records rt group draws i users threshold total nodes ≡ ok records
      → Columns (done ++ names_of users) 0 total records
  unfolding all_records
  all_records-Columns draws i [] threshold total nodes done specs c e =
      rw append-nil (subst (Columns done 0 total) (ok_injective e) c)
  all_records-Columns draws i (u ∷ users) threshold total nodes done {records} (spec, specs) c e =
      by_steps (user_records rt group u (draws i) threshold total) _ e λ row dealt e1.
        subst (λ names. Columns names 0 total records)
          (append_assoc done (u.username ∷ []) (names_of users))
          (all_records-Columns draws (suc i) users threshold total (push_records row nodes)
            (done ++ (u.username ∷ [])) specs
            (push_records-Columns done u 0 total row nodes
              (user_records-Row u (draws i) threshold total spec dealt) c)
            e1)

pub check_users-IsSpec :
    (names subs : List String) (users : List UserSpec) {u : Unit {0}}
    → check_users names subs users ≡ ok u
    → All IsSpec users
unfolding check_users
check_users-IsSpec names subs [] h = tt
check_users-IsSpec names subs (u ∷ users) h =
    by_steps (throw_if (is_empty u.username) empty_username) _ h λ a named h1.
      by_steps (throw_if (is_empty u.sub) empty_sub) _ h1 λ b identified h2.
        by_steps (throw_if (includes u.username names) DealerError.duplicate_username) _ h2
          λ c new h3. by_steps (throw_if (includes u.sub subs) duplicate_sub) _ h3 λ d new' h4. (
            (throw_if-eq-ok _ empty_username named, throw_if-eq-ok _ empty_sub identified),
            check_users-IsSpec (u.username ∷ names) (u.sub ∷ subs) users h4,
          )

-- The node's check of the names passes where the dealer's has passed.
pub check_names-check_users :
    (names subs : List String) (users : List UserSpec) (us : List NodeUserConfig) {u : Unit {0}}
    → map (λ (c : NodeUserConfig). c.username) us ≡ names_of users
    → check_users names subs users ≡ ok u
    → check_names names us ≡ ok tt
unfolding check_users check_names
check_names-check_users names subs [] [] e h = refl
check_names-check_users names subs [] (c ∷ us) e h = absurd (cc)
check_names-check_users names subs (u ∷ users) [] e h = absurd (cc)
check_names-check_users names subs (u ∷ users) (c ∷ us) e h =
    by_steps (throw_if (is_empty u.username) empty_username) _ h λ a named h1.
      by_steps (throw_if (is_empty u.sub) empty_sub) _ h1 λ b identified h2.
        by_steps (throw_if (includes u.username names) DealerError.duplicate_username) _ h2
          λ d new h3. by_steps (throw_if (includes u.sub subs) duplicate_sub) _ h3 λ f new' h4.
            let same : c.username ≡ u.username = cc in
            let rest : map (λ (k : NodeUserConfig). k.username) us ≡ names_of users = cc in
            let is_new : includes c.username names ≡ false =
              rw same (throw_if-eq-ok _ DealerError.duplicate_username new) in
            let later =
              check_names-check_users (u.username ∷ names) (u.sub ∷ subs) users us rest h4 in
            >>=-ok {a = tt} _ (rw is_new refl) (rw same later)
