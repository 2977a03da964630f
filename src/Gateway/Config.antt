-- ===== src/Gateway/Config.antt =====
-- projects/gateway/src/config.ts: the dealer's group file, as the gateway reads it.
use decentralized_identity_p.Prelude.{
  ℤ, pos, ltb_ℤ, eqb_ℤ, String, not, ◌||◌, none, some, [], ok, ◌>>=◌, ◌>>◌, throw_if,
}
use decentralized_identity_p.Js.{Js, get}
use decentralized_identity_p.Runtime.{Bytes, Runtime}
use decentralized_identity_p.Config.{
  not_json, bad_version, bad_threshold, Configures, fail, plain_object, config_string,
  config_integer, config_bytes, at_top,
}

pub record GroupConfig : Type 0 where
  pub version : ℤ
  pub threshold : ℤ
  pub total : ℤ
  pub key_id : String
  pub group_public_key : Bytes

-- `parseGroupConfig` behind `JSON.parse`.
unfoldable pub group_of : Js → Configures GroupConfig
group_of value = do
  raw ← plain_object [] value
  version ← config_integer (at_top "version") (get "version" raw)
  throw_if (not (eqb_ℤ version (pos 1)))
      (record { place = at_top "version"; problem = bad_version })
  threshold ← config_integer (at_top "threshold") (get "threshold" raw)
  total ← config_integer (at_top "total") (get "total" raw)
  throw_if (ltb_ℤ threshold (pos 1) || ltb_ℤ total threshold)
      (record { place = at_top "threshold"; problem = bad_threshold })
  key_id ← config_string (at_top "keyId") (get "keyId" raw)
  group_public_key ← config_bytes (at_top "groupPublicKey") (get "groupPublicKey" raw) 32
  ok (record {
    version = version;
    threshold = threshold;
    total = total;
    key_id = key_id;
    group_public_key = group_public_key;
  })

unfoldable pub parse_group_config : Runtime → String → Configures GroupConfig
parse_group_config rt text = elim (rt.json_parse text) [
  | none ↦ fail [] not_json
  | some value ↦ group_of value
]
