-- ===== src/Dealer/Deployed.antt =====
-- `generateDealerOutput` of projects/dealer/src/dealer.ts as a whole, with
-- projects/gateway/src/config.ts.
use decentralized_identity_p.Prelude.{
  ℕ, ◌≤◌, ℤ, pos, pos_part, ltb_ℤ, ◌≡◌, refl, subst, String, is_empty, false, ◌||◌, some, List, [],
  length, ok, by_steps, throw_if, throw_if-eq-ok, or_throw, or_throw-eq-ok, ok_injective, ◌>>=◌,
  arith,
}
use decentralized_identity_p.Runtime.{Bytes, IsBytes, Runtime}
use decentralized_identity_p.Crypto.Frost.{Curve}
use decentralized_identity_p.Crypto.Toprf.{Group}
use decentralized_identity_p.Config.{plain_object, config_integer, bytes_to_hex}
use decentralized_identity_p.Config.Hex.{config_bytes-bytes_to_hex}
use decentralized_identity_p.Gateway.Config.{GroupConfig, group_of}
use decentralized_identity_p.Dealer
use decentralized_identity_p.Dealer.Options
use decentralized_identity_p.Dealer.{
  UserSpec, NodeUserRecord, NodeFile, GroupFile, DealerOptions, DealerOutput, Draws, bad_scalar,
  node_file_to_js, group_file_to_js,
}
use decentralized_identity_p.Dealer.Options.{given, default_users, checked_options, check_users}
use decentralized_identity_p.Dealer.Records.{all_records, no_records}
use decentralized_identity_p.Dealer.Output.{frost_share, node_files, deal, generate_dealer_output}
use decentralized_identity_p.Dealer.Written.{ltb_ℤ-of-le, config_string-str}
use decentralized_identity_p.Dealer.Columns.{IsHash, no_records-Columns}
use decentralized_identity_p.Dealer.Dealt.{
  names_of, all_records-Columns, check_users-IsSpec, check_names-check_users,
}
use decentralized_identity_p.Dealer.Accepted.{IsAccepted, AllFiles, IsDeal, node_files-IsAccepted}

-- A point is written in 32 bytes.
abbrev pub IsEncoding : {Point : Type 0} → Curve Point → Type 0
IsEncoding {Point} curve =
    (p : Point) → IsBytes (curve.to_raw_bytes p) × (length (curve.to_raw_bytes p) ≡ 32)

-- What the checks of the options leave.
record IsChecked (options : DealerOptions) (r : ℕ × ℕ × String × List UserSpec) : Type 0 where
  pub threshold : 1 ≤ r.0
  pub threshold_total : r.0 ≤ r.1
  pub key_id : is_empty r.2 ≡ false
  pub users : r.3 ≡ given options.users default_users
  pub checked : check_users [] [] r.3 ≡ ok tt

pos_part-bounds :
    (t n : ℤ)
    → (ltb_ℤ t (pos 1) || ltb_ℤ n t) ≡ false
    → (1 ≤ pos_part t) × (pos_part t ≤ pos_part n)
pos_part-bounds t n h = ground arith

checked_options-IsChecked :
    (options : DealerOptions) {r : ℕ × ℕ × String × List UserSpec}
    → checked_options options ≡ ok r
    → IsChecked options r
unfolding checked_options
checked_options-IsChecked options h = by_steps (throw_if _ Dealer.not_integers) _ h λ u1 e1 h1.
    by_steps (throw_if _ Dealer.bad_total) _ h1 λ u2 e2 h2.
      by_steps (throw_if _ Dealer.DealerError.bad_threshold) _ h2 λ u3 e3 h3.
        by_steps (throw_if _ Dealer.empty_key_id) _ h3 λ u4 e4 h4.
          by_steps (throw_if _ Dealer.no_users) _ h4 λ u5 e5 h5.
            by_steps (check_users [] [] (given options.users default_users)) _ h5 λ u6 e6 h6.
              let t = given options.threshold (Options.default_threshold, 0) in
              let n = given options.total (Options.default_total, 0) in
              let (low, high) = pos_part-bounds t.0 n.0 (throw_if-eq-ok _ _ e3) in
              subst (IsChecked options) (ok_injective h6) (record {
                threshold = low;
                threshold_total = high;
                key_id = throw_if-eq-ok _ _ e4;
                users = refl;
                checked = e6;
              })

-- The gateway accepts the group's file and holds the same.
pub record IsGroup (g : GroupFile) (key : Bytes) : Type 0 where
  pub config : GroupConfig
  pub read : group_of (group_file_to_js g) ≡ ok config
  pub threshold : config.threshold ≡ pos g.threshold
  pub total : config.total ≡ pos g.total
  pub key_id : config.key_id ≡ g.key_id
  pub group_public_key : config.group_public_key ≡ key

group_of-IsGroup :
    (t n : ℕ) (key_id : String) (key : Bytes)
    → 1 ≤ t
    → t ≤ n
    → is_empty key_id ≡ false
    → IsBytes key
    → length key ≡ 32
    → IsGroup
        (record {
          version = 1;
          threshold = t;
          total = n;
          key_id = key_id;
          group_public_key = bytes_to_hex key;
        })
        key
unfolding group_of group_file_to_js plain_object config_integer ◌>>=◌
group_of-IsGroup t n key_id key low high named bytes long = record {
  config = record {
    version = pos 1;
    threshold = pos t;
    total = pos n;
    key_id = key_id;
    group_public_key = key;
  };
  read = simp (
    ltb_ℤ-of-le (pos 1) (pos t) (omega arith),
    ltb_ℤ-of-le (pos t) (pos n) (omega arith),
    config_string-str _ key_id named,
    config_bytes-bytes_to_hex _ key 31 bytes long,
  );
  threshold = refl;
  total = refl;
  key_id = refl;
  group_public_key = refl;
}

abbrev file_for : ℕ × ℕ × String × List UserSpec → Bytes → GroupFile
file_for r key = record {
  version = 1;
  threshold = r.0;
  total = r.1;
  key_id = r.2;
  group_public_key = bytes_to_hex key;
}

-- What a deal leaves: the group's key, and for each id up to the total a file that its node accepts.
pub record IsDealt {Point : Type 0} (curve : Curve Point) (draws : Draws) (names : List String)
    (out : DealerOutput) : Type 0 where
  pub point : Point
  pub is_key : curve.multiply curve.base draws.master_secret ≡ some point
  pub nodes :
      AllFiles
        (λ id f.
          IsAccepted out.group names (curve.to_raw_bytes point) (frost_share curve draws id) id f)
        1
        out.group.total
        out.nodes
  pub of_group : IsGroup out.group (curve.to_raw_bytes point)

module _ (rt : Runtime) (hash : IsHash rt) {Point : Type 0} (curve : Curve Point)
    (encoding : IsEncoding curve) {Blind : Type 0} (group : Group Blind) where
  -- Whenever `generateDealerOutput` returns, there is one file for each id from 1 to the total, the node's
  -- `parseNodeConfig` accepts each and reads from it the id, the threshold, the total, the group's key,
  -- the node's share of the master secret and the users' names, and the gateway accepts the group's file
  -- with the same key, where points are written in 32 bytes and the hash has at least 32.
  pub generate_dealer_output-IsDealt :
      (draws : Draws) (options : DealerOptions) {out : DealerOutput}
      → generate_dealer_output rt curve group draws options ≡ ok out
      → IsDealt curve draws (names_of (given options.users default_users)) out
  unfolding generate_dealer_output deal
  generate_dealer_output-IsDealt draws options {out} h =
      by_steps (checked_options options) _ h λ r e0 h0.
        let c = checked_options-IsChecked options e0 in
        by_steps (or_throw (curve.multiply curve.base draws.master_secret) bad_scalar) _ h0
          λ point e1 h1.
            by_steps (all_records rt group draws.users 0 r.3 r.0 r.1 (no_records r.1)) _ h1
              λ columns e2 h2.
                by_steps
                  (node_files curve draws r.0 r.1 (bytes_to_hex (curve.to_raw_bytes point)) 1
                    columns)
                  _ h2
                  λ files e3 h3.
                    let (bytes, long) = encoding point in
                    let d : IsDeal r.0 r.1 (curve.to_raw_bytes point) r.3 = record {
                      threshold = c.threshold;
                      threshold_total = c.threshold_total;
                      bytes = bytes;
                      long = long;
                      names = λ us e. check_names-check_users [] [] r.3 us e c.checked;
                    } in
                    let made =
                      all_records-Columns rt hash group draws.users 0 r.3 r.0 r.1 (no_records r.1)
                        [] (check_users-IsSpec [] [] r.3 c.checked) (no_records-Columns 0 r.1) e2 in
                    subst (IsDealt curve draws (names_of (given options.users default_users)))
                      (ok_injective h3)
                      (rw (← c.users) (record {
                        point = point;
                        is_key = or_throw-eq-ok _ bad_scalar e1;
                        nodes =
                            node_files-IsAccepted curve draws
                              (file_for r (curve.to_raw_bytes point)) (curve.to_raw_bytes point) r.3
                              d 0 r.1 columns (omega arith) made e3;
                        of_group =
                            group_of-IsGroup r.0 r.1 r.2 (curve.to_raw_bytes point) c.threshold
                              c.threshold_total c.key_id bytes long;
                      }))
