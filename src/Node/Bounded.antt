-- ===== src/Node/Bounded.antt =====
-- What `readBody` of projects/node/src/server.ts keeps.
use mathlib.Core.List.{append-nil, append_assoc}
use decentralized_identity_p.Prelude.{
  sym, subst, ℕ, ◌+◌, ◌≤◌, ◌<◌, ltb, ◌≡◌, refl, ap, ◌⊎◌, ◌∙◌, true, false, Bool-cases, inl, inr,
  List, [], ◌∷◌, ◌++◌, length, if◌then◌else◌, arith,
}
use decentralized_identity_p.Runtime.{Bytes, Runtime}
use decentralized_identity_p.Node.Upload.{
  max_body_bytes, SocketEvent, received, ended, closed, failed, Upload, started, receive, resolve,
  BodyResult, aborted, on_event, read_body,
}

-- The bytes that are buffered.
unfoldable pub buffered : List Bytes → ℕ
buffered [] = 0
buffered (c ∷ cs) = length c + buffered cs

-- The chunks that have come, in order.
unfoldable pub arrived : List SocketEvent → List Bytes
arrived [] = []
arrived (received c ∷ es) = c ∷ arrived es
arrived (ended ∷ es) = arrived es
arrived (closed ∷ es) = arrived es
arrived (failed ∷ es) = arrived es

-- Where the chunks that have come are within the bound together, they are all kept; where they are
-- above it, nothing is.
abbrev pub IsBounded : List Bytes → Upload → Type 0
IsBounded cs u =
    ((buffered cs ≤ max_body_bytes)
      × (u.is_too_large ≡ false)
      × (u.chunks ≡ cs)
      × (u.size ≡ buffered cs))
    ⊎ ((max_body_bytes < buffered cs)
        × (u.is_too_large ≡ true)
        × (u.chunks ≡ [])
        × (u.size ≡ buffered cs))

buffered-snoc : (cs : List Bytes) (c : Bytes) → buffered (cs ++ (c ∷ [])) ≡ buffered cs + length c
unfolding buffered
buffered-snoc [] c = omega arith
buffered-snoc (d ∷ cs) c = let earlier = buffered-snoc cs c in omega arith

started-IsBounded : IsBounded [] started
unfolding started buffered
started-IsBounded = inl (omega arith, refl, refl, refl)

ltb-above : (a b : ℕ) → ltb a b ≡ true → a < b
ltb-above a b h = ground arith

ltb-within : (a b : ℕ) → ltb a b ≡ false → b ≤ a
ltb-within a b h = ground arith

outgrown : (bound a b : ℕ) → bound < a → a + b ≤ bound → ⊥
outgrown bound a b h h' = omega arith

-- What is dropped stays dropped.
dropped :
    (cs : List Bytes) (u : Upload) → IsBounded cs u → (if u.is_too_large then u.chunks else []) ≡ []
dropped cs u h = elim h [
  | inl (_, within, _, _) ↦ rw within refl
  | inr (_, over, none_kept, _) ↦ rw over none_kept
]

size_of : (cs : List Bytes) (u : Upload) → IsBounded cs u → u.size ≡ buffered cs
size_of cs u h = elim h [ inl (_, _, _, size) ↦ size | inr (_, _, _, size) ↦ size ]

receive-IsBounded :
    (c : Bytes) (cs : List Bytes) (u : Upload)
    → IsBounded cs u
    → IsBounded (cs ++ (c ∷ [])) (receive c u)
unfolding receive
receive-IsBounded c cs u h =
    let total : u.size + length c ≡ buffered (cs ++ (c ∷ [])) =
      ap (λ n. n + length c) (size_of cs u h) ∙ sym (buffered-snoc cs c) in
    elim (Bool-cases (ltb max_body_bytes (u.size + length c))) [
      | inl over ↦
          let above = subst (λ n. max_body_bytes < n) total (ltb-above _ _ over) in
          rw over (inr (above, refl, dropped cs u h, total))
      | inr within ↦
          let below = ltb-within _ _ within in
          rw within (elim h [
            | inl (_, e, all, _) ↦
                inl (
                  subst (λ n. n ≤ max_body_bytes) total below,
                  e,
                  ap (λ l. l ++ (c ∷ [])) all,
                  total,
                )
            | inr (above, _, _, size) ↦ absurd (
                outgrown _ u.size (length c) (subst (λ n. max_body_bytes < n) (sym size) above)
                  below)
          ])
    ]

resolve-IsBounded :
    (result : BodyResult) (cs : List Bytes) (u : Upload)
    → IsBounded cs u
    → IsBounded cs (resolve result u)
unfolding resolve
resolve-IsBounded result cs u h = h

module _ (rt : Runtime) where
  read_body-IsBounded-from :
      (es : List SocketEvent) (cs : List Bytes) (u : Upload)
      → IsBounded cs u
      → IsBounded (cs ++ arrived es) (read_body rt es u)
  unfolding read_body on_event arrived
  read_body-IsBounded-from [] cs u h = subst (λ l. IsBounded l u) (sym (append-nil cs)) h
  read_body-IsBounded-from (received c ∷ es) cs u h =
      subst (λ l. IsBounded l (read_body rt es (receive c u)))
        (append_assoc cs (c ∷ []) (arrived es))
        (read_body-IsBounded-from es (cs ++ (c ∷ [])) (receive c u) (receive-IsBounded c cs u h))
  read_body-IsBounded-from (ended ∷ es) cs u h =
      read_body-IsBounded-from es cs (on_event rt ended u) (resolve-IsBounded _ cs u h)
  read_body-IsBounded-from (closed ∷ es) cs u h =
      read_body-IsBounded-from es cs (on_event rt closed u) (resolve-IsBounded aborted cs u h)
  read_body-IsBounded-from (failed ∷ es) cs u h =
      read_body-IsBounded-from es cs (on_event rt failed u) (resolve-IsBounded aborted cs u h)

  -- Whatever the socket does: if the chunks that have come are at most max_body_bytes long together, then
  -- readBody holds exactly them, in order, and otherwise it holds nothing; its size is theirs, and it is
  -- marked as too large in the second case alone.
  pub read_body-IsBounded :
      (es : List SocketEvent) → IsBounded (arrived es) (read_body rt es started)
  read_body-IsBounded es = read_body-IsBounded-from es [] started started-IsBounded
