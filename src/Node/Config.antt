-- ===== src/Node/Config.antt =====
-- projects/node/src/config.ts: what a node reads at its start, the dealer's file and the environment.
-- The file's text is an argument; `new URL` is a parameter.
use Prim.Native.Char.{code}
use decentralized_identity_p.Prelude.{
  ℕ, suc, ◌+◌, ◌-◌, ◌*◌, ℤ, pos, ltb_ℤ, eqb_ℤ, String, not, ◌&&◌, ◌||◌, ltb, leb, Option, none,
  some, List, [], ◌∷◌, is_empty, str_eq, includes, if◌then◌else◌, ok, ◌>>=◌, ◌>>◌, throw_if,
  or_throw,
}
use decentralized_identity_p.Js.{Js, arr, Items, nil, cons, get}
use decentralized_identity_p.Runtime.{Bytes, Runtime}
use decentralized_identity_p.Crypto.Shamir.{Share}
use decentralized_identity_p.Wire.{Place, name, index, ◌/◌}
use decentralized_identity_p.Config.{
  not_json, not_array, bad_version, bad_node_id, bad_threshold, node_id_above_total, wrong_share_id,
  duplicate_username, bad_port, bad_issuer, Configures, fail, plain_object, config_string,
  config_integer, config_bytes, config_scalar, at_top,
}
use decentralized_identity_p.Node.{
  IdentityNode, trim_slashes, new_node, register_user, default_key_id,
}

abbrev pub node_config_version : ℕ
node_config_version = 1

pub record NodeUserConfig : Type 0 where
  pub username : String
  pub sub : String
  pub toprf_key_share : Share
  pub h_i : Bytes

pub record NodeConfig : Type 0 where
  pub version : ℤ
  pub node_id : ℤ
  pub threshold : ℤ
  pub total : ℤ
  pub group_public_key : Bytes
  pub secret_key_share : ℕ
  pub users : List NodeUserConfig

abbrev pub users_at : ℕ → Place
users_at i = name "users" ∷ index i ∷ []

unfoldable pub parse_user : ℕ → Js → ℤ → Configures NodeUserConfig
parse_user i value node_id = do
  raw ← plain_object (users_at i) value
  username ← config_string (users_at i / "username") (get "username" raw)
  sub ← config_string (users_at i / "sub") (get "sub" raw)
  share ← plain_object (users_at i / "toprfKeyShare") (get "toprfKeyShare" raw)
  share_id ← config_integer (users_at i / "toprfKeyShare" / "id") (get "id" share)
  throw_if (not (eqb_ℤ share_id node_id))
      (record { place = users_at i / "toprfKeyShare" / "id"; problem = wrong_share_id })
  value ← config_scalar (users_at i / "toprfKeyShare" / "value") (get "value" share)
  h_i ← config_bytes (users_at i / "h_i") (get "h_i" raw) 32
  ok (record {
    username = username;
    sub = sub;
    toprf_key_share = record { id = share_id; value = value };
    h_i = h_i;
  })

-- `raw.users.map`, from the index `i`.
unfoldable pub parse_users : ℕ → Items → ℤ → Configures (List NodeUserConfig)
parse_users i nil node_id = ok []
parse_users i (cons v vs) node_id = do
  user ← parse_user i v node_id
  users ← parse_users (suc i) vs node_id
  ok (user ∷ users)

unfoldable pub users_of : Js → ℤ → Configures (List NodeUserConfig)
users_of (arr vs) node_id = parse_users 0 vs node_id
users_of _ node_id = fail (name "users" ∷ []) not_array

-- The loop over the users, with the names seen.
unfoldable pub check_names : List String → List NodeUserConfig → Configures (Unit {0})
check_names seen [] = ok tt
check_names seen (u ∷ users) = do
  throw_if (includes u.username seen)
      (record { place = name "users" ∷ []; problem = duplicate_username })
  check_names (u.username ∷ seen) users

-- `parseNodeConfig` behind `JSON.parse`.
unfoldable pub config_of : Js → Configures NodeConfig
config_of value = do
  raw ← plain_object [] value
  version ← config_integer (at_top "version") (get "version" raw)
  throw_if (not (eqb_ℤ version (pos node_config_version)))
      (record { place = at_top "version"; problem = bad_version })
  node_id ← config_integer (at_top "nodeId") (get "nodeId" raw)
  throw_if (ltb_ℤ node_id (pos 1)) (record { place = at_top "nodeId"; problem = bad_node_id })
  threshold ← config_integer (at_top "threshold") (get "threshold" raw)
  total ← config_integer (at_top "total") (get "total" raw)
  throw_if (ltb_ℤ threshold (pos 1) || ltb_ℤ total threshold)
      (record { place = at_top "threshold"; problem = bad_threshold })
  throw_if (ltb_ℤ total node_id) (record { place = at_top "nodeId"; problem = node_id_above_total })
  group_public_key ← config_bytes (at_top "groupPublicKey") (get "groupPublicKey" raw) 32
  secret_key_share ← config_scalar (at_top "secretKeyShare") (get "secretKeyShare" raw)
  users ← users_of (get "users" raw) node_id
  check_names [] users
  ok (record {
    version = version;
    node_id = node_id;
    threshold = threshold;
    total = total;
    group_public_key = group_public_key;
    secret_key_share = secret_key_share;
    users = users;
  })

unfoldable pub parse_node_config : Runtime → String → Configures NodeConfig
parse_node_config rt text = elim (rt.json_parse text) [
  | none ↦ fail [] not_json
  | some value ↦ config_of value
]

abbrev pub default_port : ℕ
default_port = 4000

-- The value of a text of decimal digits, behind those read so far; `none` for any other text.
unfoldable pub decimal_from : ℕ → String → Option ℕ
decimal_from n String.[] = some n
decimal_from n (String.◌∷◌ c s) =
    let rest = decimal_from (n * 10 + (code c - b'0')) s in
    if leb b'0' (code c) && leb (code c) b'9' then rest else none

-- `readPort` of a `PORT` that is set. `Number` of a text of digits too long for a double is
-- above 65535 too.
unfoldable pub port_of : String → Configures ℕ
port_of raw = do
  port ← or_throw (decimal_from 0 raw) (record { place = []; problem = bad_port })
  throw_if (ltb port 1 || ltb 65535 port) (record { place = []; problem = bad_port })
  ok port

unfoldable pub read_port : Option String → Configures ℕ
read_port none = ok default_port
read_port (some raw) = if is_empty raw then ok default_port else port_of raw

-- What the program reads of a `URL`.
pub record Url : Type 0 where
  pub protocol : String
  pub search : String
  pub hash : String

abbrev pub default_issuer : String
default_issuer = "http://localhost:3000"

-- `readIssuer` of an `ISSUER` that is set; `url_of` is `new URL`, `none` if it throws.
unfoldable pub issuer_of : (String → Option Url) → String → Configures String
issuer_of url_of raw = do
  let trimmed = trim_slashes raw
  url ← or_throw (url_of trimmed) (record { place = []; problem = bad_issuer })
  throw_if (not (str_eq url.protocol "http:") && not (str_eq url.protocol "https:"))
      (record { place = []; problem = bad_issuer })
  throw_if (not (is_empty url.search) || not (is_empty url.hash))
      (record { place = []; problem = bad_issuer })
  ok trimmed

unfoldable pub read_issuer : (String → Option Url) → Option String → Configures String
read_issuer url_of none = ok default_issuer
read_issuer url_of (some raw) = if is_empty raw then ok default_issuer else issuer_of url_of raw

-- The loop of `main` over the users.
unfoldable pub register_all : List NodeUserConfig → IdentityNode → IdentityNode
register_all [] node = node
register_all (u ∷ users) node =
    register_all users (register_user u.username u.sub u.toprf_key_share u.h_i node)

-- The node that `main` serves: no key id is given to the constructor.
unfoldable pub started_node : NodeConfig → String → IdentityNode
started_node config issuer =
    register_all config.users (
      new_node config.node_id config.secret_key_share config.group_public_key issuer default_key_id)
