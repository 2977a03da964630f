-- ===== src/Gateway/Discovery.antt =====
-- `discoverNodes` of projects/gateway/src/nodes/discovery.ts, with `healthResponseFromWire` of
-- projects/gateway/src/nodes/wire.ts. What a node answers to `GET /health` on an attempt, and the order
-- in which the answers of an attempt arrive, are arguments. The texts of the errors and the log are left
-- out. The URLs are those that `parseNodeUrls` returns, which do not end in a slash.
use decentralized_identity_p.Prelude.{
  ℕ, zero, suc, String, str_eq, ℤ, pos, ltb_ℤ, leb_ℤ, Bool, false, ◌||◌, ◌==◌, ltb, Option, none,
  some, List, [], ◌∷◌, length, if◌then◌else◌, Result, ok, err, ◌>>=◌, ◌>>◌, throw_if,
}
use decentralized_identity_p.Js.{Js, get}
use decentralized_identity_p.Crypto.Shamir.{has_id}
use decentralized_identity_p.Wire.{
  name, Place, Reads, ◌/◌, require_object, require_non_empty_string, require_integer,
}

-- `HealthResponseWire`.
pub record Health : Type 0 where
  pub status : String
  pub node_id : ℤ
  pub group_public_key : String

abbrev pub health : Place
health = name "response" ∷ []

unfoldable pub health_response_from_wire : Js → Reads Health
health_response_from_wire value = do
  raw ← require_object health value
  status ← require_non_empty_string (health / "status") (get "status" raw)
  node_id ← require_integer (health / "nodeId") (get "nodeId" raw)
  key ← require_non_empty_string (health / "groupPublicKey") (get "groupPublicKey" raw)
  ok (record { status = status; node_id = node_id; group_public_key = key })

-- What is kept of an `HttpNodeClient`.
pub record NodeClient : Type 0 where
  pub node_id : ℤ
  pub url : String

pub data DiscoveryError : Type 0 where
  no_urls too_few_urls other_ceremony unreachable invalid_node_id same_node_id too_few_nodes :
      DiscoveryError

abbrev pub Discovers : Type 0 → Type 0
Discovers A = Result DiscoveryError A

-- `resolved.has(url)`.
unfoldable pub has_url : String → List NodeClient → Bool
has_url url [] = false
has_url url (c ∷ cs) = str_eq url c.url || has_url url cs

-- `resolved.set(url, client)`: in the place of the client of the same URL, or at the end.
unfoldable pub set_client : NodeClient → List NodeClient → List NodeClient
set_client client [] = client ∷ []
set_client client (c ∷ cs) =
    let rest = set_client client cs in if str_eq client.url c.url then client ∷ cs else c ∷ rest

-- The URLs that an attempt asks.
unfoldable pub pending : List String → List NodeClient → List String
unfolding has_url
pending [] resolved = []
pending (u ∷ urls) resolved =
    let rest = pending urls resolved in if has_url u resolved then rest else u ∷ rest

unfoldable pub insert_client : NodeClient → List NodeClient → List NodeClient
insert_client c [] = c ∷ []
insert_client c (d ∷ ds) =
    let rest = insert_client c ds in if leb_ℤ c.node_id d.node_id then c ∷ d ∷ ds else d ∷ rest

-- The stable sort by node id.
unfoldable pub sort_clients : List NodeClient → List NodeClient
unfolding insert_client
sort_clients [] = []
sort_clients (c ∷ cs) = insert_client c (sort_clients cs)

-- The loop over the sorted clients, with the ids seen.
unfoldable pub check_ids : List ℤ → List NodeClient → Discovers (Unit {0})
check_ids seen [] = ok tt
check_ids seen (c ∷ cs) = do
  throw_if (ltb_ℤ c.node_id (pos 1)) invalid_node_id
  throw_if (has_id c.node_id seen) same_node_id
  check_ids (c.node_id ∷ seen) cs

-- `probe n i url` is the body that the node at `url` answers to the request of attempt n whose answer
-- is number i to arrive, and `none` if the request fails; a URL that stands twice is asked twice.
-- `arrivals n us` are the URLs `us` in the order in which their answers on attempt n arrive;
-- `expected_key` is the group's key in Base64url.
module _ (probe : ℕ → ℕ → String → Option Js) (arrivals : ℕ → List String → List String)
    (expected_key : String) where
  -- The clients after the answer of one node.
  unfoldable pub settle_health :
      String → Reads Health → List NodeClient → Discovers (List NodeClient)
  unfolding set_client
  settle_health url (err e) resolved = ok resolved
  settle_health url (ok health_) resolved =
      if str_eq health_.group_public_key expected_key
      then ok (set_client (record { node_id = health_.node_id; url = url }) resolved)
      else err other_ceremony

  unfoldable pub settle_probe : String → Option Js → List NodeClient → Discovers (List NodeClient)
  unfolding settle_health health_response_from_wire
  settle_probe url none resolved = ok resolved
  settle_probe url (some body) resolved =
      settle_health url (health_response_from_wire body) resolved

  -- The answers of attempt n from position i on, one after another.
  unfoldable pub attempt_loop : ℕ → ℕ → List String → List NodeClient → Discovers (List NodeClient)
  unfolding settle_probe
  attempt_loop n i [] resolved = ok resolved
  attempt_loop n i (url ∷ urls) resolved = do
    next ← settle_probe url (probe n i url) resolved
    attempt_loop n (suc i) urls next

  -- The attempts that are left, from attempt n on.
  unfoldable pub discover_loop : List String → ℕ → ℕ → List NodeClient → Discovers (List NodeClient)
  unfolding attempt_loop pending
  discover_loop urls zero n resolved = ok resolved
  discover_loop urls (suc left) n resolved = do
    next ← attempt_loop n 0 (arrivals n (pending urls resolved)) resolved
    let rest = discover_loop urls left (suc n) next
    if length next == length urls then ok next else rest

  unfoldable pub discover_nodes : List String → ℕ → ℕ → Discovers (List NodeClient)
  unfolding discover_loop sort_clients check_ids
  discover_nodes urls threshold attempts = do
    throw_if (length urls == 0) no_urls
    throw_if (ltb (length urls) threshold) too_few_urls
    resolved ← discover_loop urls attempts 1 []
    throw_if (ltb (length resolved) (length urls)) unreachable
    let clients = sort_clients resolved
    check_ids [] clients
    throw_if (ltb (length clients) threshold) too_few_nodes
    ok clients
