-- ===== src/Tests/DiscoveryRuns.antt =====
-- Discoveries of two nodes: one that has a second attempt, and one whose URLs are the same.
use mathlib.Core.List.{Memᴰ}
use decentralized_identity_p.Prelude.{
  ℕ, ◌==◌, ◌⊎◌, inl, String, str_eq, ℤ, pos, ◌≡◌, refl, none, some, Option, List, [], ◌∷◌, All, ok,
  err, ◌>>=◌, if◌then◌else◌, arith,
}
use decentralized_identity_p.Js.{Js, str, obj, end, field, int}
use decentralized_identity_p.Crypto.Shamir.{has_id}
use decentralized_identity_p.Wire.{
  require_object, require_integer, require_number, require_non_empty_string, require_string,
}
use decentralized_identity_p.Gateway.Discovery.{
  NodeClient, health_response_from_wire, has_url, set_client, pending, insert_client, sort_clients,
  check_ids, settle_health, settle_probe, attempt_loop, discover_loop, discover_nodes,
  other_ceremony, unreachable,
}
use decentralized_identity_p.Gateway.Ordered.{All-map}
use decentralized_identity_p.Gateway.Discovered.{
  AreArrivals, IsDiscovered, discover_nodes-IsDiscovered,
}
use decentralized_identity_p.Gateway.Unreachable.{discover_nodes-Repeats}

abbrev answer : ℤ → Js
answer id =
    obj
      (field "status" (str "ok") (field "nodeId" (int id) (field "groupPublicKey" (str "key") end)))

-- The second node is up for the second attempt.
abbrev probe : ℕ → ℕ → String → Option Js
probe n i url =
    if str_eq url "http://a"
    then some (answer (pos 2))
    else if n == 1
    then none
    else some (answer (pos 1))

abbrev in_order : ℕ → List String → List String
in_order n us = us

in_order-AreArrivals : AreArrivals in_order
in_order-AreArrivals n us = all us
  where
    all : (us : List String) → All (λ u. Memᴰ u us) us
    all [] = tt
    all (u ∷ us) = (Memᴰ.head refl, All-map (λ v m. Memᴰ.tail m) us (all us))

abbrev clients : List NodeClient
clients =
    record { node_id = pos 1; url = "http://b" }
    ∷ (record { node_id = pos 2; url = "http://a" } ∷ [])

found : discover_nodes probe in_order "key" ("http://a" ∷ ("http://b" ∷ [])) 2 30 ≡ ok clients
unfolding discover_nodes discover_loop attempt_loop settle_probe settle_health pending has_url
    set_client sort_clients insert_client check_ids health_response_from_wire require_object
    require_integer require_number require_non_empty_string require_string has_id ◌>>=◌
found = refl

discover_nodes-IsDiscovered_example :
    IsDiscovered probe "key" ("http://a" ∷ ("http://b" ∷ [])) 2 clients
discover_nodes-IsDiscovered_example =
    discover_nodes-IsDiscovered probe "key" in_order in_order-AreArrivals
      ("http://a" ∷ ("http://b" ∷ [])) 2 30 found

discover_nodes-Repeats_example :
    (discover_nodes probe in_order "key" ("http://a" ∷ ("http://a" ∷ [])) 1 30 ≡ err other_ceremony)
    ⊎ (discover_nodes probe in_order "key" ("http://a" ∷ ("http://a" ∷ [])) 1 30 ≡ err unreachable)
discover_nodes-Repeats_example =
    discover_nodes-Repeats probe "key" in_order in_order-AreArrivals
      ("http://a" ∷ ("http://a" ∷ [])) 1 30 (inl (Memᴰ.head refl)) (omega arith)
