-- ===== src/Dealer/Accepted.antt =====
-- What `generateDealerOutput` of projects/dealer/src/dealer.ts writes, projects/node/src/config.ts accepts.
use decentralized_identity_p.Prelude.{
  ℕ, zero, suc, ◌+◌, ◌≤◌, ◌<◌, ◌^◌, pos, ◌≡◌, refl, subst, String, List, [], ◌∷◌, map, length, ok,
  by_steps, ok_injective, arith,
}
use decentralized_identity_p.Runtime.{Bytes, IsBytes}
use decentralized_identity_p.Crypto.Hex.{scalar_to_hex}
use decentralized_identity_p.Crypto.Frost.{Curve}
use decentralized_identity_p.Config.{bytes_to_hex}
use decentralized_identity_p.Node.Config.{NodeUserConfig, NodeConfig, check_names, config_of}
use decentralized_identity_p.Dealer.{
  UserSpec, NodeUserRecord, NodeFile, GroupFile, Draws, node_file_to_js,
}
use decentralized_identity_p.Dealer.Records.{checked_hex}
use decentralized_identity_p.Dealer.Output.{frost_share, node_files}
use decentralized_identity_p.Dealer.Written.{file_of, config_for, config_of-file_of}
use decentralized_identity_p.Dealer.Columns.{checked_hex-eq-ok, Holds, Columns}
use decentralized_identity_p.Dealer.Dealt.{names_of}

-- A node accepts the file and holds what the dealer has dealt to it.
pub record IsAccepted (g : GroupFile) (names : List String) (key : Bytes) (share : ℕ) (id : ℕ)
    (f : NodeFile) : Type 0 where
  pub config : NodeConfig
  pub read : config_of (node_file_to_js f) ≡ ok config
  pub node_id : config.node_id ≡ pos id
  pub threshold : config.threshold ≡ pos g.threshold
  pub total : config.total ≡ pos g.total
  pub group_public_key : config.group_public_key ≡ key
  pub secret_key_share : config.secret_key_share ≡ share
  pub named : map (λ (u : NodeUserConfig). u.username) config.users ≡ names

-- There are `n` files, and the predicate holds of each, with its node's id.
unfoldable pub AllFiles : (ℕ → NodeFile → Type 0) → ℕ → ℕ → List NodeFile → Type 0
AllFiles P id zero [] = Unit
AllFiles P id zero (f ∷ fs) = ⊥
AllFiles P id (suc n) [] = ⊥
AllFiles P id (suc n) (f ∷ fs) = P id f × AllFiles P (suc id) n fs

-- What `node_files` needs of the checks.
pub record IsDeal (t n : ℕ) (key : Bytes) (users : List UserSpec) : Type 0 where
  pub threshold : 1 ≤ t
  pub threshold_total : t ≤ n
  pub bytes : IsBytes key
  pub long : length key ≡ 32
  pub names :
      (us : List NodeUserConfig)
      → map (λ (u : NodeUserConfig). u.username) us ≡ names_of users
      → check_names [] us ≡ ok tt

module _ {Point : Type 0} (curve : Curve Point) (draws : Draws) (g : GroupFile) (key : Bytes)
    (users : List UserSpec) (d : IsDeal g.threshold g.total key users) where
  abbrev pub Accepts : ℕ → NodeFile → Type 0
  Accepts id f = IsAccepted g (names_of users) key (frost_share curve draws id) id f

  -- One file.
  accept :
      (id : ℕ) (rs : List NodeUserRecord) (hex : String)
      → Holds (pos id) (names_of users) rs
      → hex ≡ scalar_to_hex (frost_share curve draws id)
      → frost_share curve draws id < 16 ^ 64
      → 1 ≤ id
      → id ≤ g.total
      → Accepts id (record {
        version = 1;
        node_id = id;
        threshold = g.threshold;
        total = g.total;
        group_public_key = bytes_to_hex key;
        secret_key_share = hex;
        users = rs;
      })
  unfolding file_of config_for
  accept id rs hex h is_hex small low high = record {
    config = config_for id g.threshold g.total key (frost_share curve draws id) h.users;
    read =
        rw (is_hex, h.written)
          (config_of-file_of id g.threshold g.total key (frost_share curve draws id) h.users
            (record {
              version = refl;
              node_id = omega arith;
              threshold = omega (arith, d.threshold);
              threshold_total = omega (arith, d.threshold_total);
              node_id_total = omega arith;
              group_public_key = d.bytes;
              group_public_key_length = d.long;
              secret_key_share = small;
              users = h.are_users;
              names = d.names h.users h.named;
            }));
    node_id = refl;
    threshold = refl;
    total = refl;
    group_public_key = refl;
    secret_key_share = refl;
    named = h.named;
  }

  pub node_files-IsAccepted :
      (i n : ℕ) (columns : List (List NodeUserRecord)) {files : List NodeFile}
      → i + n ≡ g.total
      → Columns (names_of users) i n columns
      → node_files curve draws g.threshold g.total (bytes_to_hex key) (suc i) columns ≡ ok files
      → AllFiles Accepts (suc i) n files
  unfolding node_files Columns AllFiles
  node_files-IsAccepted i zero [] room c e =
      let nothing : [] ≡ _ = ok_injective e in subst (AllFiles Accepts (suc i) 0) nothing tt
  node_files-IsAccepted i zero (rs ∷ columns) room c e = absurd c
  node_files-IsAccepted i (suc n) [] room c e = absurd c
  node_files-IsAccepted i (suc n) (rs ∷ columns) room (c, cs) e =
      by_steps (checked_hex (frost_share curve draws (suc i))) _ e λ hex written e1.
        by_steps
          (node_files curve draws g.threshold g.total (bytes_to_hex key) (suc (suc i)) columns) _ e1
          λ rest later e2.
            let (is_hex, small) = checked_hex-eq-ok _ written in
            subst (AllFiles Accepts (suc i) (suc n)) (ok_injective e2) (
              accept (suc i) rs hex c is_hex small (omega arith) (omega arith),
              node_files-IsAccepted (suc i) n columns (omega arith) cs later,
            )
