-- ===== src/Dealer/Written.antt =====
-- What the dealer writes into a node's file, the node reads back: projects/dealer/src/dealer.ts and
-- projects/node/src/config.ts.
use decentralized_identity_p.Prelude.{
  ℕ, suc, ◌+◌, ◌^◌, ◌<◌, ℤ, pos, ◌≤ℤ◌, eqb_ℤ, ltb_ℤ, ◌≡◌, refl, sym, String, is_empty, true, false,
  ==_iff, pos_part, neg_part, List, [], ◌∷◌, map, length, All, ok, ◌>>=◌, arith,
}
use decentralized_identity_p.Js.{str, items}
use decentralized_identity_p.Runtime.{Bytes, IsBytes}
use decentralized_identity_p.Crypto.Hex.{scalar_to_hex}
use decentralized_identity_p.Wire.{Place}
use decentralized_identity_p.Config.{plain_object, config_string, config_integer, bytes_to_hex}
use decentralized_identity_p.Config.Hex.{config_bytes-bytes_to_hex, config_scalar-scalar_to_hex}
use decentralized_identity_p.Node.Config.{
  NodeUserConfig, NodeConfig, parse_user, parse_users, users_of, check_names, config_of,
}
use decentralized_identity_p.Dealer.{NodeUserRecord, NodeFile, record_to_js, node_file_to_js}

-- The record that stands for a user.
unfoldable pub written_user : NodeUserConfig → NodeUserRecord
written_user u = record {
  username = u.username;
  sub = u.sub;
  share_id = u.toprf_key_share.id;
  share_value = scalar_to_hex u.toprf_key_share.value;
  h_i = bytes_to_hex u.h_i;
}

pub record IsUser (node_id : ℤ) (u : NodeUserConfig) : Type 0 where
  pub username : is_empty u.username ≡ false
  pub sub : is_empty u.sub ≡ false
  pub share_id : u.toprf_key_share.id ≡ node_id
  pub share_value : u.toprf_key_share.value < 16 ^ 64
  pub h_i : IsBytes u.h_i
  pub h_i_length : length u.h_i ≡ 32

eqb_ℤ-refl : (z : ℤ) → eqb_ℤ z z ≡ true
eqb_ℤ-refl z = (==_iff (pos_part z + neg_part z) (pos_part z + neg_part z)).1 refl

pub config_string-str :
    (place : Place) (s : String) → is_empty s ≡ false → config_string place (str s) ≡ ok s
unfolding config_string
config_string-str place s h = rw h refl

parse_user-written_user :
    (i : ℕ) (node_id : ℤ) (u : NodeUserConfig)
    → IsUser node_id u
    → parse_user i (record_to_js (written_user u)) node_id ≡ ok u
unfolding parse_user record_to_js written_user plain_object config_integer ◌>>=◌
parse_user-written_user i node_id u h = simp (
  config_string-str,
  h.username,
  h.sub,
  sym h.share_id,
  eqb_ℤ-refl,
  config_scalar-scalar_to_hex _ u.toprf_key_share.value h.share_value,
  config_bytes-bytes_to_hex _ u.h_i 31 h.h_i h.h_i_length,
)

parse_users-written_user :
    (i : ℕ) (node_id : ℤ) (us : List NodeUserConfig)
    → All (IsUser node_id) us
    → parse_users i (items (map record_to_js (map written_user us))) node_id ≡ ok us
unfolding parse_users ◌>>=◌
parse_users-written_user i node_id [] h = refl
parse_users-written_user i node_id (u ∷ us) (h, hs) =
    rw (parse_user-written_user i node_id u h)
      (rw (parse_users-written_user (suc i) node_id us hs) refl)

-- A configuration that a file can say.
pub record IsConfig (c : NodeConfig) : Type 0 where
  pub version : c.version ≡ pos 1
  pub node_id : pos 1 ≤ℤ c.node_id
  pub threshold : pos 1 ≤ℤ c.threshold
  pub threshold_total : c.threshold ≤ℤ c.total
  pub node_id_total : c.node_id ≤ℤ c.total
  pub group_public_key : IsBytes c.group_public_key
  pub group_public_key_length : length c.group_public_key ≡ 32
  pub secret_key_share : c.secret_key_share < 16 ^ 64
  pub users : All (IsUser c.node_id) c.users
  pub names : check_names [] c.users ≡ ok tt

-- The file that stands for a configuration.
unfoldable pub file_of : ℕ → ℕ → ℕ → Bytes → ℕ → List NodeUserConfig → NodeFile
file_of node_id threshold total key share users = record {
  version = 1;
  node_id = node_id;
  threshold = threshold;
  total = total;
  group_public_key = bytes_to_hex key;
  secret_key_share = scalar_to_hex share;
  users = map written_user users;
}

unfoldable pub config_for : ℕ → ℕ → ℕ → Bytes → ℕ → List NodeUserConfig → NodeConfig
config_for node_id threshold total key share users = record {
  version = pos 1;
  node_id = pos node_id;
  threshold = pos threshold;
  total = pos total;
  group_public_key = key;
  secret_key_share = share;
  users = users;
}

pub ltb_ℤ-of-le : (a b : ℤ) → a ≤ℤ b → ltb_ℤ b a ≡ false
ltb_ℤ-of-le a b h = ground arith

module _ (node_id threshold total : ℕ) (key : Bytes) (share : ℕ) (users : List NodeUserConfig) where
  -- `parseNodeConfig` reads the configuration back from its file.
  pub config_of-file_of :
      IsConfig (config_for node_id threshold total key share users)
      → config_of (node_file_to_js (file_of node_id threshold total key share users))
        ≡ ok (config_for node_id threshold total key share users)
  unfolding config_of node_file_to_js file_of config_for plain_object config_integer users_of ◌>>=◌
  config_of-file_of h = simp (
    ltb_ℤ-of-le (pos 1) (pos node_id) h.node_id,
    ltb_ℤ-of-le (pos 1) (pos threshold) h.threshold,
    ltb_ℤ-of-le (pos threshold) (pos total) h.threshold_total,
    ltb_ℤ-of-le (pos node_id) (pos total) h.node_id_total,
    config_bytes-bytes_to_hex _ key 31 h.group_public_key h.group_public_key_length,
    config_scalar-scalar_to_hex _ share h.secret_key_share,
    parse_users-written_user 0 (pos node_id) users h.users,
    h.names,
  )
