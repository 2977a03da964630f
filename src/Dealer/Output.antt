-- ===== src/Dealer/Output.antt =====
-- `generateDealerOutput` of projects/dealer/src/dealer.ts: the files of the nodes and of the group.
use decentralized_identity_p.Prelude.{ℕ, suc, String, List, [], ◌∷◌, ok, ◌>>=◌, or_throw}
use decentralized_identity_p.Runtime.{Runtime}
use decentralized_identity_p.Crypto.Frost.{Curve, evaluate_loop}
use decentralized_identity_p.Crypto.Toprf.{Group}
use decentralized_identity_p.Config.{bytes_to_hex}
use decentralized_identity_p.Dealer.{
  UserSpec, DealerOptions, NodeUserRecord, NodeFile, DealerOutput, Deals, Draws, bad_scalar,
}
use decentralized_identity_p.Dealer.Options.{checked_options}
use decentralized_identity_p.Dealer.Records.{checked_hex, no_records, all_records}

-- The share of node `id` in `generateShamirShares`.
unfoldable pub frost_share : {Point : Type 0} → Curve Point → Draws → ℕ → ℕ
frost_share curve draws id = evaluate_loop curve id (draws.master_secret ∷ draws.coeffs) 0 1

-- The files, from that of node `id` on.
unfoldable pub node_files :
    {Point : Type 0}
    → Curve Point
    → Draws
    → ℕ
    → ℕ
    → String
    → ℕ
    → List (List NodeUserRecord)
    → Deals (List NodeFile)
node_files curve draws threshold total key id [] = ok []
node_files curve draws threshold total key id (users ∷ nodes) = do
  share ← checked_hex (frost_share curve draws id)
  rest ← node_files curve draws threshold total key (suc id) nodes
  ok (
      record {
        version = 1;
        node_id = id;
        threshold = threshold;
        total = total;
        group_public_key = key;
        secret_key_share = share;
        users = users;
      }
      ∷ rest)

module _ (rt : Runtime) {Point : Type 0} (curve : Curve Point) {Blind : Type 0}
    (group : Group Blind) where
  -- What follows the checks; the threshold and the total are positive.
  unfoldable pub deal : Draws → ℕ → ℕ → String → List UserSpec → Deals DealerOutput
  deal draws threshold total key_id users = do
    point ← or_throw (curve.multiply curve.base draws.master_secret) bad_scalar
    let key = bytes_to_hex (curve.to_raw_bytes point)
    records ← all_records rt group draws.users 0 users threshold total (no_records total)
    nodes ← node_files curve draws threshold total key 1 records
    ok (record {
      group = record {
        version = 1;
        threshold = threshold;
        total = total;
        key_id = key_id;
        group_public_key = key;
      };
      nodes = nodes;
    })

  -- `generateDealerOutput`.
  unfoldable pub generate_dealer_output : Draws → DealerOptions → Deals DealerOutput
  generate_dealer_output draws options = do
    (threshold, total, key_id, users) ← checked_options options
    deal draws threshold total key_id users
