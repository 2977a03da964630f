-- ===== src/Node/Started.antt =====
-- A node that has just started: projects/node/src/config.ts and the start in projects/node/src/index.ts.
use decentralized_identity_p.Prelude.{
  ℕ, ◌≤◌, ◌≡◌, refl, ap, ◌∙◌, String, true, false, ◌||◌, Option, none, some, List, [], ◌∷◌, str_eq,
  eq_iff, includes, lookup, lookup-insert, if◌then◌else◌, ok, by_steps, throw_if, throw_if-eq-ok,
  or_throw, or_throw-eq-ok, >>=-ok, ◌↔◌, ok_injective, is_empty, ltb, Bool-cases, inl, inr, arith,
}
use decentralized_identity_p.Node.{UserRecord, IdentityNode, register_user, new_node}
use decentralized_identity_p.Node.Config.{
  NodeUserConfig, NodeConfig, check_names, register_all, started_node, decimal_from, port_of,
  read_port,
}

-- What the node keeps of a user.
abbrev pub kept : NodeUserConfig → UserRecord
kept u = record {
  sub = u.sub;
  username = u.username;
  toprf_key_share = u.toprf_key_share;
  h_i = u.h_i;
}

not_seen :
    (seen : List String) (m n : String)
    → includes m seen ≡ false
    → includes n seen ≡ true
    → str_eq m n ≡ false
not_seen seen m n h k = elim (Bool-cases (str_eq m n)) [
  | inr differ ↦ differ
  | inl same ↦
      let e : m ≡ n = (eq_iff m n).0 same in
      let both : includes m seen ≡ true = rw e k in absurd (cc)
]

-- The users that come later leave a name alone that has been seen.
register_all-seen :
    (seen : List String) (us : List NodeUserConfig) (node : IdentityNode) (n : String)
    → check_names seen us ≡ ok tt
    → includes n seen ≡ true
    → lookup n (register_all us node).users ≡ lookup n node.users
unfolding register_all check_names register_user includes
register_all-seen seen [] node n h s = refl
register_all-seen seen (u ∷ us) node n h s =
    by_steps (throw_if (includes u.username seen) _) _ h λ t new later.
      let unseen = throw_if-eq-ok _ _ new in
      let differ = not_seen seen u.username n unseen s in
      let in_front : includes n (u.username ∷ seen) ≡ true = rw differ s in
      register_all-seen (u.username ∷ seen) us
        (register_user u.username u.sub u.toprf_key_share u.h_i node) n later in_front
      ∙ lookup-insert u.username n (kept u) node.users
      ∙ rw differ refl

-- The user of that name in the file.
unfoldable pub find_user : String → List NodeUserConfig → Option UserRecord
find_user n [] = none
find_user n (u ∷ us) = if str_eq u.username n then some (kept u) else find_user n us

abbrev or_else {ℓ} : {A : Type ℓ} → Option A → Option A → Option A
or_else none b = b
or_else (some a) b = some a

register_all-find_user :
    (seen : List String) (us : List NodeUserConfig) (node : IdentityNode) (n : String)
    → check_names seen us ≡ ok tt
    → lookup n (register_all us node).users ≡ or_else (find_user n us) (lookup n node.users)
unfolding register_all check_names register_user find_user includes
register_all-find_user seen [] node n h = refl
register_all-find_user seen (u ∷ us) node n h =
    by_steps (throw_if (includes u.username seen) _) _ h λ t new later.
      let next = register_user u.username u.sub u.toprf_key_share u.h_i node in
      let put = lookup-insert u.username n (kept u) node.users in
      elim (Bool-cases (str_eq u.username n)) [
        | inl same ↦
            let in_front : includes n (u.username ∷ seen) ≡ true = rw same refl in
            rw same
              (register_all-seen (u.username ∷ seen) us next n later in_front ∙ put ∙ rw same refl)
        | inr differ ↦ rw differ (
            register_all-find_user (u.username ∷ seen) us next n later
            ∙ ap (or_else (find_user n us)) (put ∙ rw differ refl))
      ]

-- Registering users changes nothing else of a node.
record OnlyUsers (node after : IdentityNode) : Type 0 where
  pub node_id : after.node_id ≡ node.node_id
  pub secret_key_share : after.secret_key_share ≡ node.secret_key_share
  pub group_public_key : after.group_public_key ≡ node.group_public_key
  pub active_nonces : after.active_nonces ≡ node.active_nonces

register_all-OnlyUsers :
    (us : List NodeUserConfig) (node : IdentityNode) → OnlyUsers node (register_all us node)
unfolding register_all register_user
register_all-OnlyUsers [] node = record {
  node_id = refl;
  secret_key_share = refl;
  group_public_key = refl;
  active_nonces = refl;
}
register_all-OnlyUsers (u ∷ us) node =
    let rest =
      register_all-OnlyUsers us (register_user u.username u.sub u.toprf_key_share u.h_i node) in
    record {
      node_id = rest.node_id;
      secret_key_share = rest.secret_key_share;
      group_public_key = rest.group_public_key;
      active_nonces = rest.active_nonces;
    }

or_else-none {ℓ} : {A : Type ℓ} (o : Option A) → or_else o none ≡ o
or_else-none none = refl
or_else-none (some a) = refl

-- A node started on a file: it has the file's keys, no open round, and the file's users.
pub record IsStarted (config : NodeConfig) (node : IdentityNode) : Type 0 where
  pub node_id : node.node_id ≡ config.node_id
  pub secret_key_share : node.secret_key_share ≡ config.secret_key_share
  pub group_public_key : node.group_public_key ≡ config.group_public_key
  pub active_nonces : node.active_nonces ≡ []
  pub users : (n : String) → lookup n node.users ≡ find_user n config.users

pub started_node-IsStarted :
    (config : NodeConfig) (issuer : String)
    → check_names [] config.users ≡ ok tt
    → IsStarted config (started_node config issuer)
unfolding started_node new_node find_user lookup
started_node-IsStarted config issuer h =
    let rest = register_all-OnlyUsers config.users (
      new_node config.node_id config.secret_key_share config.group_public_key issuer
        "pasta-group-key-1") in
    record {
      node_id = rest.node_id;
      secret_key_share = rest.secret_key_share;
      group_public_key = rest.group_public_key;
      active_nonces = rest.active_nonces;
      users = λ n. register_all-find_user [] config.users _ n h ∙ or_else-none _;
    }

in_range : (p : ℕ) → (ltb p 1 || ltb 65535 p) ≡ false → (1 ≤ p) × (p ≤ 65535)
in_range p h = ground arith

out_of_range : (p : ℕ) → 1 ≤ p → p ≤ 65535 → (ltb p 1 || ltb 65535 p) ≡ false
out_of_range p h k = ground arith

-- `PORT`, where it is set, is taken exactly if it consists of decimal digits whose number is from 1 to
-- 65535, and that number is the port.
pub read_port_iff :
    (raw : String) (port : ℕ)
    → is_empty raw ≡ false
    → (read_port (some raw) ≡ ok port)
      ↔ ((decimal_from 0 raw ≡ some port) × (1 ≤ port) × (port ≤ 65535))
unfolding read_port port_of
read_port_iff raw port set = (
  λ h. by_steps (or_throw (decimal_from 0 raw) _) _ (rw set at h) λ p read h1.
      by_steps (throw_if (ltb p 1 || ltb 65535 p) _) _ h1 λ u within h2.
        let e = ok_injective h2 in
        let (low, high) = in_range p (throw_if-eq-ok _ _ within) in
        (or_throw-eq-ok _ _ read ∙ ap some e, omega arith, omega arith),
  λ (read, low, high).
      rw set
        (>>=-ok _ (rw read refl) (>>=-ok {a = tt} _ (rw (out_of_range port low high) refl) refl)),
)
