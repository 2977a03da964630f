-- ===== src/Gateway/Discovered.antt =====
-- What `discoverNodes` of projects/gateway/src/nodes/discovery.ts has found when it returns.
use mathlib.Core.List.{Memᴰ}
use decentralized_identity_p.Prelude.{
  ℕ, zero, suc, ◌≤◌, ◌<◌, String, str_eq, eq_iff, pos, ltb_ℤ, Bool-cases, inl, inr, false, ◌==◌,
  ltb, ◌≡◌, refl, subst, some, none, Option, List, [], ◌∷◌, length, All, ok, err, by_steps,
  throw_if-eq-ok, ok_injective, arith,
}
use decentralized_identity_p.Js.{Js}
use decentralized_identity_p.Wire.{Reads}
use decentralized_identity_p.Gateway.Discovery.{
  Health, NodeClient, Discovers, DiscoveryError, health_response_from_wire, has_url, set_client,
  pending, sort_clients, settle_health, settle_probe, attempt_loop, discover_loop, discover_nodes,
  no_urls, too_few_urls, unreachable,
}
use decentralized_identity_p.Gateway.Ordered.{
  Ascending, All-map, All-set_client, All-sort_clients, length-sort_clients, Sorted-sort_clients,
  check_ids-Ascending, check_ids-IsValid,
}

-- The answers of an attempt come from URLs that it asks.
abbrev pub AreArrivals : (ℕ → List String → List String) → Type 0
AreArrivals arrivals = (n : ℕ) (us : List String) → All (λ u. Memᴰ u us) (arrivals n us)

module _ (probe : ℕ → ℕ → String → Option Js) (expected_key : String) where
  -- A node has answered at the client's URL, on some attempt, with the client's id and the group's key.
  pub record IsHealthy (c : NodeClient) : Type 0 where
    pub attempt : ℕ
    pub request : ℕ
    pub body : Js
    pub health : Health
    pub answered : probe attempt request c.url ≡ some body
    pub read : health_response_from_wire body ≡ ok health
    pub same_id : health.node_id ≡ c.node_id
    pub same_key : health.group_public_key ≡ expected_key

  abbrev pub IsResolved : List String → NodeClient → Type 0
  IsResolved urls c = Memᴰ c.url urls × IsHealthy c

  -- The clients that are returned: as many as there are URLs and at least the threshold, their ids
  -- positive and rising, and each found at one of the URLs, where a node with that id and the group's
  -- key has answered.
  pub record IsDiscovered (urls : List String) (threshold : ℕ) (clients : List NodeClient)
      : Type 0 where
    pub complete : length urls ≤ length clients
    pub enough : threshold ≤ length clients
    pub some_ : 0 < length clients
    pub ascending : Ascending clients
    pub valid : All (λ c. ltb_ℤ c.node_id (pos 1) ≡ false) clients
    pub resolved : All (IsResolved urls) clients

  module _ (arrivals : ℕ → List String → List String) (arrive : AreArrivals arrivals) where
    pending-Memᴰ :
        (urls : List String) (rs : List NodeClient) (u : String)
        → Memᴰ u (pending urls rs)
        → Memᴰ u urls
    unfolding pending
    pending-Memᴰ [] rs u m = m
    pending-Memᴰ (v ∷ urls) rs u m =
        let rest = pending-Memᴰ urls rs u in
        elim (Bool-cases (has_url v rs)) [
          | inl known ↦ Memᴰ.tail (rest (rw known at m))
          | inr unknown ↦ later rest (rw unknown at m)
        ]
      where
        later :
            (Memᴰ u (pending urls rs) → Memᴰ u urls)
            → Memᴰ u (v ∷ pending urls rs)
            → Memᴰ u (v ∷ urls)
        later rest (Memᴰ.head e) = Memᴰ.head e
        later rest (Memᴰ.tail k) = Memᴰ.tail (rest k)

    -- What holds of the clients resolved, and of one more.
    module _ (urls : List String) (Inv : List NodeClient → Type 0)
        (keep : (c : NodeClient) (rs : List NodeClient)
          → IsResolved urls c
          → Inv rs
          → Inv (set_client c rs)) where
      settle_probe-keeps :
          (n i : ℕ) (url : String) (rs : List NodeClient) {next : List NodeClient}
          → Memᴰ url urls
          → Inv rs
          → settle_probe probe arrivals expected_key url (probe n i url) rs ≡ ok next
          → Inv next
      unfolding settle_probe settle_health
      settle_probe-keeps n i url rs {next} m h e = split (probe n i url) refl e
        where
          read :
              (body : Js) (m : Reads Health)
              → probe n i url ≡ some body
              → health_response_from_wire body ≡ m
              → settle_health probe arrivals expected_key url m rs ≡ ok next
              → Inv next
          read body (err x) a r k = subst Inv (ok_injective k) h
          read body (ok health) a r k =
              elim (Bool-cases (str_eq health.group_public_key expected_key)) [
                | inl same ↦
                    let client : NodeClient = record { node_id = health.node_id; url = url } in
                    let value : ok (set_client client rs) ≡ ok next = rw same at k in
                    subst Inv (ok_injective value) (
                      keep client rs
                        (
                          m,
                          record {
                            attempt = n;
                            request = i;
                            body = body;
                            health = health;
                            answered = a;
                            read = r;
                            same_id = refl;
                            same_key = (eq_iff _ _).0 same;
                          },
                        )
                        h)
                | inr other ↦ absurd (not_ok (rw other at k))
              ]
            where
              not_ok :
                  ◌≡◌ {A = Discovers (List NodeClient)}
                    (err DiscoveryError.other_ceremony)
                    (ok next)
                  → ⊥
              not_ok z = cc

          split :
              (o : Option Js)
              → probe n i url ≡ o
              → settle_probe probe arrivals expected_key url o rs ≡ ok next
              → Inv next
          split none a k = subst Inv (ok_injective k) h
          split (some body) a k = read body (health_response_from_wire body) a refl k

      attempt_loop-keeps :
          (n i : ℕ) (us : List String) (rs : List NodeClient) {next : List NodeClient}
          → All (λ u. Memᴰ u urls) us
          → Inv rs
          → attempt_loop probe arrivals expected_key n i us rs ≡ ok next
          → Inv next
      unfolding attempt_loop
      attempt_loop-keeps n i [] rs m h e = subst Inv (ok_injective e) h
      attempt_loop-keeps n i (u ∷ us) rs (m, ms) h e = by_steps _ _ e λ next e1 k.
          attempt_loop-keeps n (suc i) us next ms (settle_probe-keeps n i u rs m h e1) k

      pub discover_loop-keeps :
          (left n : ℕ) (rs : List NodeClient) {next : List NodeClient}
          → Inv rs
          → discover_loop probe arrivals expected_key urls left n rs ≡ ok next
          → Inv next
      unfolding discover_loop
      discover_loop-keeps zero n rs h e = subst Inv (ok_injective e) h
      discover_loop-keeps (suc left) n rs {next} h e = by_steps _ _ e λ found e1 k.
          let asked =
            All-map (pending-Memᴰ urls rs) (arrivals n (pending urls rs))
              (arrive n (pending urls rs)) in
          let later = attempt_loop-keeps n 0 (arrivals n (pending urls rs)) rs asked h e1 in
          elim (Bool-cases (length found == length urls)) [
            | inl all ↦
                let value : ok found ≡ ok next = rw all at k in subst Inv (ok_injective value) later
            | inr more ↦ discover_loop-keeps left (suc n) found later (rw more at k)
          ]

    -- Whenever discoverNodes returns, the answers of every attempt coming from URLs that it asks, it has a
    -- client for as many nodes as there are URLs, at least the threshold and not none; their ids are
    -- positive and rise, and each was found at one of the URLs, where on some attempt a node answered
    -- with that id and with the group's key.
    pub discover_nodes-IsDiscovered :
        (urls : List String) (threshold attempts : ℕ) {clients : List NodeClient}
        → discover_nodes probe arrivals expected_key urls threshold attempts ≡ ok clients
        → IsDiscovered urls threshold clients
    unfolding discover_nodes
    discover_nodes-IsDiscovered urls threshold attempts {clients} h = by_steps _ _ h λ a e1 h1.
        by_steps _ _ h1 λ b e2 h2. by_steps _ _ h2 λ rs e3 h3. by_steps _ _ h3 λ c e4 h4.
          by_steps _ _ h4 λ d e5 h5. by_steps _ _ h5 λ e e6 h6.
            let given = throw_if-eq-ok (length urls == 0) no_urls e1 in
            let large = throw_if-eq-ok (ltb (length urls) threshold) too_few_urls e2 in
            let all = throw_if-eq-ok (ltb (length rs) (length urls)) unreachable e4 in
            let count = length-sort_clients rs in
            let resolved =
              discover_loop-keeps urls (All (IsResolved urls)) (All-set_client (IsResolved urls))
                attempts 1 [] tt e3 in
            subst (IsDiscovered urls threshold) (ok_injective h6) (record {
              complete = ground arith;
              enough = ground arith;
              some_ = ground arith;
              ascending = check_ids-Ascending [] (sort_clients rs) (Sorted-sort_clients rs) e5;
              valid = check_ids-IsValid (sort_clients rs) e5;
              resolved = All-sort_clients (IsResolved urls) rs resolved;
            })
