-- ===== src/Tests/ConfigRuns.antt =====
-- A node's file and its port, at fixed inputs.
use decentralized_identity_p.Prelude.{
  ◌≤◌, ◌≡◌, ◌↔◌, refl, pos, some, [], ◌∷◌, ok, arith, includes, ◌>>=◌,
}
use decentralized_identity_p.Runtime.{Runtime}
use decentralized_identity_p.Node.Config.{
  NodeUserConfig, NodeConfig, check_names, decimal_from, parse_node_config, read_port, started_node,
}
use decentralized_identity_p.Node.Started.{IsStarted, read_port_iff}
use decentralized_identity_p.Node.Configured.{IsSound, parse_node_config-IsSound}
use decentralized_identity_p.Dealer.{node_file_to_js}
use decentralized_identity_p.Dealer.Written.{IsConfig, file_of, config_for, config_of-file_of}
use decentralized_identity_p.Tests.Toy.{runtime, key}

abbrev user : NodeUserConfig
user = record {
  username = "alice";
  sub = "usr";
  toprf_key_share = record { id = pos 1; value = 5 };
  h_i = key;
}

abbrev config : NodeConfig
config = config_for 1 2 3 key 7 (user ∷ [])

-- Every text is the JSON of the file.
abbrev filed : Runtime
filed = record runtime {
  json_parse = λ text. some (node_file_to_js (file_of 1 2 3 key 7 (user ∷ [])));
}

config-IsConfig : IsConfig config
unfolding config_for check_names includes ◌>>=◌
config-IsConfig = record {
  version = refl;
  node_id = omega arith;
  threshold = omega arith;
  threshold_total = omega arith;
  node_id_total = omega arith;
  group_public_key = omega arith;
  group_public_key_length = refl;
  secret_key_share = omega arith;
  users = (
    record {
      username = refl;
      sub = refl;
      share_id = refl;
      share_value = omega arith;
      h_i = omega arith;
      h_i_length = refl;
    },
    tt,
  );
  names = refl;
}

parsed : parse_node_config filed "file" ≡ ok config
unfolding parse_node_config
parsed = config_of-file_of 1 2 3 key 7 (user ∷ []) config-IsConfig

parse_node_config-IsSound_example :
    IsSound config × IsStarted config (started_node config "https://id/")
parse_node_config-IsSound_example = parse_node_config-IsSound filed "file" "https://id/" parsed

read_port_iff_example :
    (read_port (some "4001") ≡ ok 4001)
    ↔ ((decimal_from 0 "4001" ≡ some 4001) × (1 ≤ 4001) × (4001 ≤ 65535))
read_port_iff_example = read_port_iff "4001" 4001 refl
