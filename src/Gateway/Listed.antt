-- ===== src/Gateway/Listed.antt =====
-- The map from URLs to clients in `discoverNodes` of projects/gateway/src/nodes/discovery.ts: it never
-- holds more clients than there are different URLs.
use mathlib.Core.List.{Memᴰ}
use mathlib.Core.List.Memᴰ
use decentralized_identity_p.Prelude.{
  suc, ◌≤◌, ◌<◌, String, str_eq, eq_iff, Bool-cases, inl, inr, ◌⊎◌, true, false, ◌≡◌, refl, sym,
  subst, List, [], ◌∷◌, length, All, if◌then◌else◌, arith,
}
use decentralized_identity_p.Gateway.Discovery.{NodeClient, has_url, set_client}

-- Some URL stands twice.
abbrev pub Repeats : List String → Type 0
Repeats [] = ⊥
Repeats (u ∷ us) = Memᴰ u us ⊎ Repeats us

-- No two clients have one URL.
abbrev pub Once : List NodeClient → Type 0
Once [] = Unit
Once (c ∷ cs) = (has_url c.url cs ≡ false) × Once cs

has_url-set_client :
    (u : String) (c : NodeClient) (cs : List NodeClient)
    → str_eq u c.url ≡ false
    → has_url u cs ≡ false
    → has_url u (set_client c cs) ≡ false
unfolding has_url set_client
has_url-set_client u c [] h k = rw h refl
has_url-set_client u c (d ∷ ds) h k = elim (Bool-cases (str_eq c.url d.url)) [
  | inl e ↦ rw e (ground arith)
  | inr e ↦ let rest = has_url-set_client u c ds h (ground arith) in rw e (ground arith)
]

str_eq_sym : (u v : String) → str_eq u v ≡ false → str_eq v u ≡ false
str_eq_sym u v h = elim (Bool-cases (str_eq v u)) [
  | inl e ↦
      let same : u ≡ v = sym ((eq_iff v u).0 e) in
      let yes_ : str_eq u v ≡ true = (eq_iff u v).1 same in absurd (ground arith)
  | inr e ↦ e
]

pub Once-set_client : (c : NodeClient) (cs : List NodeClient) → Once cs → Once (set_client c cs)
unfolding set_client has_url
Once-set_client c [] h = (refl, tt)
Once-set_client c (d ∷ ds) (h, hs) = elim (Bool-cases (str_eq c.url d.url)) [
  | inl e ↦
      let same : d.url ≡ c.url = sym ((eq_iff c.url d.url).0 e) in
      rw e (subst (λ u. has_url u ds ≡ false) same h, hs)
  | inr e ↦
      rw e (has_url-set_client d.url c ds (str_eq_sym c.url d.url e) h, Once-set_client c ds hs)
]

-- The clients of other URLs than v.
remove : String → List NodeClient → List NodeClient
remove v [] = []
remove v (c ∷ cs) = let rest = remove v cs in if str_eq v c.url then cs else c ∷ rest

length-remove : (v : String) (cs : List NodeClient) → length cs ≤ suc (length (remove v cs))
unfolding remove
length-remove v [] = omega arith
length-remove v (c ∷ cs) = elim (Bool-cases (str_eq v c.url)) [
  | inl e ↦ rw e (omega arith)
  | inr e ↦ let rest = length-remove v cs in rw e (omega arith)
]

has_url-remove :
    (u v : String) (cs : List NodeClient) → has_url u cs ≡ false → has_url u (remove v cs) ≡ false
unfolding has_url remove
has_url-remove u v [] h = refl
has_url-remove u v (c ∷ cs) h = elim (Bool-cases (str_eq v c.url)) [
  | inl e ↦ rw e (ground arith)
  | inr e ↦ let rest = has_url-remove u v cs (ground arith) in rw e (ground arith)
]

Once-remove : (v : String) (cs : List NodeClient) → Once cs → Once (remove v cs)
unfolding remove
Once-remove v [] h = tt
Once-remove v (c ∷ cs) (h, hs) = elim (Bool-cases (str_eq v c.url)) [
  | inl e ↦ rw e hs
  | inr e ↦ rw e (has_url-remove c.url v cs h, Once-remove v cs hs)
]

other_url :
    (v : String) (us : List String) (c : NodeClient)
    → str_eq v c.url ≡ false
    → Memᴰ c.url (v ∷ us)
    → Memᴰ c.url us
other_url v us c h (Memᴰ.head e) =
    let yes_ : str_eq v c.url ≡ true = (eq_iff v c.url).1 (sym e) in absurd (ground arith)
other_url v us c h (Memᴰ.tail m) = m

others :
    (v : String) (us : List String) (cs : List NodeClient)
    → has_url v cs ≡ false
    → All (λ c. Memᴰ c.url (v ∷ us)) cs
    → All (λ c. Memᴰ c.url us) cs
unfolding has_url
others v us [] h m = tt
others v us (c ∷ cs) h (m, ms) =
    (other_url v us c (ground arith) m, others v us cs (ground arith) ms)

All-remove :
    (v : String) (us : List String) (cs : List NodeClient)
    → Once cs
    → All (λ c. Memᴰ c.url (v ∷ us)) cs
    → All (λ c. Memᴰ c.url us) (remove v cs)
unfolding remove
All-remove v us [] h m = tt
All-remove v us (c ∷ cs) (h, hs) (m, ms) = elim (Bool-cases (str_eq v c.url)) [
  | inl e ↦
      let same : c.url ≡ v = sym ((eq_iff v c.url).0 e) in
      rw e (others v us cs (subst (λ u. has_url u cs ≡ false) same h) ms)
  | inr e ↦ rw e (other_url v us c e m, All-remove v us cs hs ms)
]

-- There are no more clients than URLs.
pub length-Once :
    (us : List String) (cs : List NodeClient)
    → Once cs
    → All (λ c. Memᴰ c.url us) cs
    → length cs ≤ length us
length-Once [] [] h m = omega arith
length-Once [] (c ∷ cs) h (m, ms) = absurd (Memᴰ.not-nil m)
length-Once (v ∷ us) cs h m =
    let rest = length-Once us (remove v cs) (Once-remove v cs h) (All-remove v us cs h m) in
    let removed = length-remove v cs in omega arith

-- Fewer URLs that are as many as the repeated ones.
pub shorter :
    (us : List String)
    → Repeats us
    → (short : List String) × (length short < length us) × ((u : String) → Memᴰ u us → Memᴰ u short)
shorter [] r = absurd r
shorter (v ∷ us) (inl m) = (us, omega arith, λ u k. stands u k)
  where
    stands : (u : String) → Memᴰ u (v ∷ us) → Memᴰ u us
    stands u (Memᴰ.head e) = subst (λ w. Memᴰ w us) (sym e) m
    stands u (Memᴰ.tail k) = k
shorter (v ∷ us) (inr r) =
    let (short, fewer, stand) = shorter us r in
    (v ∷ short, omega arith, λ u k. later short stand u k)
  where
    later :
        (short : List String)
        → ((u : String) → Memᴰ u us → Memᴰ u short)
        → (u : String) → Memᴰ u (v ∷ us)
        → Memᴰ u (v ∷ short)
    later short stand u (Memᴰ.head e) = Memᴰ.head e
    later short stand u (Memᴰ.tail k) = Memᴰ.tail (stand u k)
