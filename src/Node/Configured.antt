-- ===== src/Node/Configured.antt =====
-- What `parseNodeConfig` of projects/node/src/config.ts lets through.
use decentralized_identity_p.Prelude.{
  ℕ, zero, suc, ◌*◌, ℤ, pos, ◌≤ℤ◌, ltb_ℤ, eqb_ℤ, eq_of_parts, ◌≡◌, refl, ap, subst, String, false,
  not, ◌||◌, ◌==◌, List, [], ◌∷◌, length, All, ok, by_steps, throw_if, throw_if-eq-ok, or_throw,
  ok_injective, inl, inr, arith, Option-cases,
}
use decentralized_identity_p.Js.{Js, arr, Items, nil, cons, get}
use decentralized_identity_p.Runtime.{Bytes, Runtime}
use decentralized_identity_p.Wire.{Place}
use decentralized_identity_p.Config.{
  plain_object, config_string, config_integer, config_bytes, config_scalar, any_hex_digits,
  pairs_of,
}
use decentralized_identity_p.Node.Config.{
  NodeUserConfig, NodeConfig, parse_user, parse_users, users_of, check_names, config_of,
  parse_node_config, started_node,
}
use decentralized_identity_p.Node.Started.{IsStarted, started_node-IsStarted}

length-pairs_of : (n : ℕ) (ds : List ℕ) → length ds ≡ n * 2 → length (pairs_of ds) ≡ n
unfolding pairs_of
length-pairs_of zero [] h = refl
length-pairs_of zero (d ∷ ds) h = absurd (omega arith)
length-pairs_of (suc n) [] h = absurd (omega arith)
length-pairs_of (suc n) (d ∷ []) h = absurd (omega arith)
length-pairs_of (suc n) (d ∷ e ∷ ds) h = ap suc (length-pairs_of n ds (omega arith))

same_number : (a b : ℕ) → not (a == b) ≡ false → a ≡ b
same_number a b h = ground arith

same_integer : (a b : ℤ) → not (eqb_ℤ a b) ≡ false → a ≡ b
same_integer a b h = eq_of_parts a b (same_number _ _ h)

at_least : (a b : ℤ) → ltb_ℤ b a ≡ false → a ≤ℤ b
at_least a b h = ground arith

quorum_bounds : (t n : ℤ) → (ltb_ℤ t (pos 1) || ltb_ℤ n t) ≡ false → (pos 1 ≤ℤ t) × (t ≤ℤ n)
quorum_bounds t n h = ground arith

config_bytes-length :
    (place : Place) (value : Js) (n : ℕ) {bytes : Bytes}
    → config_bytes place value n ≡ ok bytes
    → length bytes ≡ n
unfolding config_bytes
config_bytes-length place value n h = by_steps (config_string place value) _ h λ hex read h1.
    by_steps (or_throw (any_hex_digits hex) _) _ h1 λ ds digits h2.
      by_steps (throw_if (not (length ds == n * 2)) _) _ h2 λ u long h3.
        subst (λ (bs : Bytes). length bs ≡ n) (ok_injective h3)
          (length-pairs_of n ds (same_number _ _ (throw_if-eq-ok _ _ long)))

-- A user of the file, at the node of that id.
pub record IsUserOf (node_id : ℤ) (u : NodeUserConfig) : Type 0 where
  pub share_id : u.toprf_key_share.id ≡ node_id
  pub h_i : length u.h_i ≡ 32

parse_user-IsUserOf :
    (i : ℕ) (value : Js) (node_id : ℤ) {u : NodeUserConfig}
    → parse_user i value node_id ≡ ok u
    → IsUserOf node_id u
unfolding parse_user
parse_user-IsUserOf i value node_id h = by_steps (plain_object _ value) _ h λ raw e1 h1.
    by_steps (config_string _ (get "username" raw)) _ h1 λ username e2 h2.
      by_steps (config_string _ (get "sub" raw)) _ h2 λ sub e3 h3.
        by_steps (plain_object _ (get "toprfKeyShare" raw)) _ h3 λ share e4 h4.
          by_steps (config_integer _ (get "id" share)) _ h4 λ share_id e5 h5.
            by_steps (throw_if (not (eqb_ℤ share_id node_id)) _) _ h5 λ u e6 h6.
              by_steps (config_scalar _ (get "value" share)) _ h6 λ v e7 h7.
                by_steps (config_bytes _ (get "h_i" raw) 32) _ h7 λ h_i e8 h8.
                  subst (IsUserOf node_id) (ok_injective h8) (record {
                    share_id = same_integer share_id node_id (throw_if-eq-ok _ _ e6);
                    h_i = config_bytes-length _ _ 32 e8;
                  })

parse_users-IsUserOf :
    (i : ℕ) (values : Items) (node_id : ℤ) {us : List NodeUserConfig}
    → parse_users i values node_id ≡ ok us
    → All (IsUserOf node_id) us
unfolding parse_users
parse_users-IsUserOf i nil node_id h = subst (All (IsUserOf node_id)) (ok_injective h) tt
parse_users-IsUserOf i (cons v vs) node_id h = by_steps (parse_user i v node_id) _ h λ u e1 h1.
    by_steps (parse_users (suc i) vs node_id) _ h1 λ us e2 h2.
      subst (All (IsUserOf node_id)) (ok_injective h2)
        (parse_user-IsUserOf i v node_id e1, parse_users-IsUserOf (suc i) vs node_id e2)

users_of-IsUserOf :
    (value : Js) (node_id : ℤ) {us : List NodeUserConfig}
    → users_of value node_id ≡ ok us
    → All (IsUserOf node_id) us
unfolding users_of
users_of-IsUserOf (arr vs) node_id h = parse_users-IsUserOf 0 vs node_id h
users_of-IsUserOf value node_id h = absurd (cc)

-- A configuration that was accepted.
pub record IsSound (c : NodeConfig) : Type 0 where
  pub node_id : pos 1 ≤ℤ c.node_id
  pub node_id_total : c.node_id ≤ℤ c.total
  pub threshold : pos 1 ≤ℤ c.threshold
  pub threshold_total : c.threshold ≤ℤ c.total
  pub group_public_key : length c.group_public_key ≡ 32
  pub users : All (IsUserOf c.node_id) c.users
  pub names : check_names [] c.users ≡ ok tt

config_of-IsSound : (value : Js) {c : NodeConfig} → config_of value ≡ ok c → IsSound c
unfolding config_of
config_of-IsSound value h = by_steps (plain_object [] value) _ h λ raw e1 h1.
    by_steps (config_integer _ (get "version" raw)) _ h1 λ version e2 h2.
      by_steps (throw_if (not (eqb_ℤ version (pos 1))) _) _ h2 λ u1 e3 h3.
        by_steps (config_integer _ (get "nodeId" raw)) _ h3 λ node_id e4 h4.
          by_steps (throw_if (ltb_ℤ node_id (pos 1)) _) _ h4 λ u2 e5 h5.
            by_steps (config_integer _ (get "threshold" raw)) _ h5 λ threshold e6 h6.
              by_steps (config_integer _ (get "total" raw)) _ h6 λ total e7 h7.
                by_steps (throw_if (ltb_ℤ threshold (pos 1) || ltb_ℤ total threshold) _) _ h7
                  λ u3 e8 h8. by_steps (throw_if (ltb_ℤ total node_id) _) _ h8 λ u4 e9 h9.
                    by_steps (config_bytes _ (get "groupPublicKey" raw) 32) _ h9 λ key e10 h10.
                      by_steps (config_scalar _ (get "secretKeyShare" raw)) _ h10 λ s e11 h11.
                        by_steps (users_of (get "users" raw) node_id) _ h11 λ us e12 h12.
                          by_steps (check_names [] us) _ h12 λ u5 e13 h13.
                            let (low, high) =
                              quorum_bounds threshold total (throw_if-eq-ok _ _ e8) in
                            subst IsSound (ok_injective h13) (record {
                              node_id = at_least (pos 1) node_id (throw_if-eq-ok _ _ e5);
                              node_id_total = at_least node_id total (throw_if-eq-ok _ _ e9);
                              threshold = low;
                              threshold_total = high;
                              group_public_key = config_bytes-length _ _ 32 e10;
                              users = users_of-IsUserOf _ node_id e12;
                              names = e13;
                            })

-- A configuration that is accepted has an id and a threshold between 1 and the total, a key of 32 bytes,
-- and users of different names with shares for this node's id; the node that is started on it has its
-- keys, no open round, and its users.
pub parse_node_config-IsSound :
    (rt : Runtime) (text : String) (issuer : String) {c : NodeConfig}
    → parse_node_config rt text ≡ ok c
    → IsSound c × IsStarted c (started_node c issuer)
unfolding parse_node_config
parse_node_config-IsSound rt text issuer {c} h = elim (Option-cases (rt.json_parse text)) [
  | inl none_read ↦ absurd (let h' = rw (none_read, parse_node_config) at h in cc)
  | inr (value, read) ↦
      let sound = config_of-IsSound value (rw (read, parse_node_config) at h) in
      (sound, started_node-IsStarted c issuer sound.names)
]
