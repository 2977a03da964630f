-- ===== src/Dealer.antt =====
-- projects/dealer/src/dealer.ts: the key material of a deployment, one file for each node and one for
-- the group. Here are its types and its files as JSON; Dealer/Options checks the options,
-- Dealer/Records makes the users' records and Dealer/Output the files. The random scalars are arguments.
pub mod Options
pub mod Records
pub mod Output
pub mod Written
pub mod Columns
pub mod Dealt
pub mod Accepted
pub mod Deployed
use decentralized_identity_p.Prelude.{
  ℕ, zero, suc, ◌+◌, ◌-◌, ◌*◌, ℤ, pos, pos_part, ltb_ℤ, String, Bool, true, false, not, ◌&&◌, ◌||◌,
  ◌==◌, ltb, Option, none, some, List, [], ◌∷◌, ◌++◌, map, length, take, is_empty, includes,
  if◌then◌else◌, Result, ok, err, ◌>>=◌, ◌>>◌, throw_if, or_throw,
}
use decentralized_identity_p.Js.{Js, str, arr, obj, end, field, int, items}
use decentralized_identity_p.Runtime.{Bytes, Runtime}
use decentralized_identity_p.Crypto.Hex.{digits, scalar_to_hex}
use decentralized_identity_p.Crypto.Shamir.{Share, ShamirError}
use decentralized_identity_p.Crypto.Frost.{Curve, evaluate_loop}
use decentralized_identity_p.Crypto.Toprf.{
  Group, Partial, ToprfError, blind, evaluate, unblind, finalize, derive_server_key,
  generate_toprf_key,
}
use decentralized_identity_p.Config.{bytes_to_hex}

pub record UserSpec : Type 0 where
  pub username : String
  pub password : String
  pub sub : String

-- `DealerOptions`. A number is kept with its thousandths, as in a JSON value.
pub record DealerOptions : Type 0 where
  pub threshold : Option (ℤ × ℕ)
  pub total : Option (ℤ × ℕ)
  pub key_id : Option String
  pub users : Option (List UserSpec)

pub record GroupFile : Type 0 where
  pub version : ℕ
  pub threshold : ℕ
  pub total : ℕ
  pub key_id : String
  pub group_public_key : String

pub record NodeUserRecord : Type 0 where
  pub username : String
  pub sub : String
  pub share_id : ℤ
  pub share_value : String
  pub h_i : String

pub record NodeFile : Type 0 where
  pub version : ℕ
  pub node_id : ℕ
  pub threshold : ℕ
  pub total : ℕ
  pub group_public_key : String
  pub secret_key_share : String
  pub users : List NodeUserRecord

pub record DealerOutput : Type 0 where
  pub group : GroupFile
  pub nodes : List NodeFile

pub data DealerError : Type 0 where
  not_integers bad_total bad_threshold empty_key_id no_users empty_username empty_sub
        duplicate_username duplicate_sub scalar_too_long bad_scalar missing_share :
      DealerError
  shamir : ShamirError → DealerError
  toprf : ToprfError → DealerError

abbrev pub Deals : Type 0 → Type 0
Deals A = Result DealerError A

-- The random scalars of a user's keys: the master key, the coefficients and the blinding.
pub record UserDraws : Type 0 where
  pub master_key : ℕ
  pub coeffs : List ℕ
  pub blinding : ℕ

-- Those of a deployment; a user's go by the user's position.
pub record Draws : Type 0 where
  pub master_secret : ℕ
  pub coeffs : List ℕ
  pub users : ℕ → UserDraws

unfoldable pub record_to_js : NodeUserRecord → Js
record_to_js r = obj (
    field "username" (str r.username) (
      field "sub" (str r.sub) (
        field "toprfKeyShare"
          (obj (field "id" (int r.share_id) (field "value" (str r.share_value) end)))
          (field "h_i" (str r.h_i) end))))

-- What `JSON.stringify` writes of a node's file.
unfoldable pub node_file_to_js : NodeFile → Js
node_file_to_js f = obj (
    field "version" (int (pos f.version)) (
      field "nodeId" (int (pos f.node_id)) (
        field "threshold" (int (pos f.threshold)) (
          field "total" (int (pos f.total)) (
            field "groupPublicKey" (str f.group_public_key) (
              field "secretKeyShare" (str f.secret_key_share)
                (field "users" (arr (items (map record_to_js f.users))) end)))))))

unfoldable pub group_file_to_js : GroupFile → Js
group_file_to_js f = obj (
    field "version" (int (pos f.version)) (
      field "threshold" (int (pos f.threshold)) (
        field "total" (int (pos f.total))
          (field "keyId" (str f.key_id) (field "groupPublicKey" (str f.group_public_key) end)))))
