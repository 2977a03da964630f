-- ===== src/Gateway/Unreachable.antt =====
-- A URL that stands twice in NODE_URLS: `discoverNodes` of projects/gateway/src/nodes/discovery.ts
-- keeps one client for each URL, and waits for as many clients as there are entries.
use decentralized_identity_p.Prelude.{
  ℕ, zero, suc, ◌≤◌, ◌<◌, String, str_eq, Bool-cases, inl, inr, ◌⊎◌, true, false, ◌==◌, ltb, ◌≡◌,
  refl, none, some, Option, List, [], ◌∷◌, length, All, ok, err, ◌>>=◌, arith,
}
use decentralized_identity_p.Js.{Js}
use decentralized_identity_p.Wire.{Reads}
use decentralized_identity_p.Gateway.Discovery.{
  Health, NodeClient, Discovers, health_response_from_wire, set_client, pending, settle_health,
  settle_probe, attempt_loop, discover_loop, discover_nodes, other_ceremony, unreachable,
}
use decentralized_identity_p.Gateway.Ordered.{All-map, All-set_client}
use decentralized_identity_p.Gateway.Discovered.{AreArrivals, IsResolved, discover_loop-keeps}
use decentralized_identity_p.Gateway.Listed.{Repeats, Once, Once-set_client, length-Once, shorter}

-- The attempts go on with clients, or end with a node of another key ceremony.
abbrev Goes : Discovers (List NodeClient) → Type 0
Goes m = ((rs : List NodeClient) × (m ≡ ok rs)) ⊎ (m ≡ err other_ceremony)

Goes-bind :
    (m : Discovers (List NodeClient)) (next : List NodeClient → Discovers (List NodeClient))
    → Goes m
    → ((rs : List NodeClient) → Goes (next rs))
    → Goes (m >>= next)
unfolding ◌>>=◌
Goes-bind m next (inl (rs, e)) f = elim (f rs) [
  | inl (ss, k) ↦ inl (ss, rw e k)
  | inr k ↦ inr (rw e k)
]
Goes-bind m next (inr e) f = inr (rw e refl)

module _ (probe : ℕ → ℕ → String → Option Js) (expected_key : String)
    (arrivals : ℕ → List String → List String) where
  settle_health-Goes :
      (url : String) (m : Reads Health) (rs : List NodeClient)
      → Goes (settle_health probe arrivals expected_key url m rs)
  unfolding settle_health
  settle_health-Goes url (err e) rs = inl (rs, refl)
  settle_health-Goes url (ok h) rs = elim (Bool-cases (str_eq h.group_public_key expected_key)) [
    | inl e ↦ inl (set_client (record { node_id = h.node_id; url = url }) rs, rw e refl)
    | inr e ↦ inr (rw e refl)
  ]

  settle_probe-Goes :
      (url : String) (o : Option Js) (rs : List NodeClient)
      → Goes (settle_probe probe arrivals expected_key url o rs)
  unfolding settle_probe
  settle_probe-Goes url none rs = inl (rs, refl)
  settle_probe-Goes url (some body) rs = settle_health-Goes url (health_response_from_wire body) rs

  attempt_loop-Goes :
      (n i : ℕ) (us : List String) (rs : List NodeClient)
      → Goes (attempt_loop probe arrivals expected_key n i us rs)
  unfolding attempt_loop
  attempt_loop-Goes n i [] rs = inl (rs, refl)
  attempt_loop-Goes n i (u ∷ us) rs =
      Goes-bind _ _ (settle_probe-Goes u (probe n i u) rs)
        (λ next. attempt_loop-Goes n (suc i) us next)

  discover_loop-Goes :
      (urls : List String) (left n : ℕ) (rs : List NodeClient)
      → Goes (discover_loop probe arrivals expected_key urls left n rs)
  unfolding discover_loop
  discover_loop-Goes urls zero n rs = inl (rs, refl)
  discover_loop-Goes urls (suc left) n rs =
      Goes-bind _ _ (attempt_loop-Goes n 0 (arrivals n (pending urls rs)) rs) λ next.
        let rest = discover_loop-Goes urls left (suc n) next in
        elim (Bool-cases (length next == length urls)) [
          | inl e ↦ inl (next, rw e refl)
          | inr e ↦ rw e rest
        ]

  -- With a URL that stands twice there are always fewer clients than entries.
  resolved-fewer :
      AreArrivals arrivals
      → (urls : List String) (attempts : ℕ) {rs : List NodeClient} → Repeats urls
      → discover_loop probe arrivals expected_key urls attempts 1 [] ≡ ok rs
      → length rs < length urls
  resolved-fewer arrive urls attempts {rs} twice e =
      let (short, fewer, stands) = shorter urls twice in
      let resolved = IsResolved probe expected_key urls in
      let (all, once) =
        discover_loop-keeps probe expected_key arrivals arrive urls (λ l. All resolved l × Once l)
          (λ c l r h. (All-set_client resolved c l r h.0, Once-set_client c l h.1)) attempts 1 []
          (tt, tt) e in
      let count = length-Once short rs once (All-map (λ c r. stands c.url r.0) rs all) in
      omega arith

  -- If a URL stands twice among NODE_URLS, and there are at least as many entries as the threshold, then
  -- discoverNodes never returns, even where every node answers: it throws that a node has another key, or,
  -- after its last attempt, that nodes are unreachable, and never that two URLs report one id. The answers
  -- of an attempt come from URLs that it asks.
  pub discover_nodes-Repeats :
      AreArrivals arrivals
      → (urls : List String) (threshold attempts : ℕ) → Repeats urls
      → threshold ≤ length urls
      → (discover_nodes probe arrivals expected_key urls threshold attempts ≡ err other_ceremony)
        ⊎ (discover_nodes probe arrivals expected_key urls threshold attempts ≡ err unreachable)
  unfolding discover_nodes ◌>>=◌
  discover_nodes-Repeats arrive [] threshold attempts twice large = absurd twice
  discover_nodes-Repeats arrive (u ∷ us) threshold attempts twice large =
      let enough : ltb (length (u ∷ us)) threshold ≡ false = ground arith in
      let given : (length (u ∷ us) == 0) ≡ false = ground arith in
      elim (discover_loop-Goes (u ∷ us) attempts 1 []) [
        | inl (rs, e) ↦
            let fewer = resolved-fewer arrive (u ∷ us) attempts twice e in
            let few : ltb (length rs) (length (u ∷ us)) ≡ true = ground arith in
            inr (rw (given, enough, e, few) refl)
        | inr e ↦ inl (rw (given, enough, e) refl)
      ]
