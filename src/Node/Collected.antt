-- ===== src/Node/Collected.antt =====
-- What `readBody` of projects/node/src/server.ts answers.
use decentralized_identity_p.Prelude.{
  ℕ, ◌+◌, ◌≤◌, ◌<◌, ltb, leb, ◌≡◌, refl, ap, subst, ◌∙◌, true, false, Bool-cases, inl, inr, some,
  none, List, [], ◌∷◌, ◌++◌, length, map, if◌then◌else◌, arith,
}
use decentralized_identity_p.Runtime.{Bytes, Runtime}
use decentralized_identity_p.Node.Upload.{
  max_body_bytes, SocketEvent, received, ended, closed, failed, Upload, started, receive, resolve,
  joined, BodyResult, text_body, too_long, resolve_once, on_event, read_body,
}
use decentralized_identity_p.Node.Bounded.{arrived, buffered, IsBounded, read_body-IsBounded}

leb-above : (a b : ℕ) → b < a → leb a b ≡ false
leb-above a b h = ground arith

leb-within : (a b : ℕ) → a ≤ b → leb a b ≡ true
leb-within a b h = ground arith

from_zero : (n : ℕ) → 0 + n ≡ n
from_zero n = omega arith

receive_resolved : (c : Bytes) (u : Upload) → (receive c u).resolved ≡ u.resolved
unfolding receive
receive_resolved c u = elim (Bool-cases (ltb max_body_bytes (u.size + length c))) [
  | inl over ↦ rw over refl
  | inr within ↦ rw within refl
]

arrived-received : (cs : List Bytes) → arrived (map received cs) ≡ cs
unfolding arrived
arrived-received [] = refl
arrived-received (c ∷ cs) = ap (λ l. c ∷ l) (arrived-received cs)

module _ (rt : Runtime) where
  read_body-append :
      (es later : List SocketEvent) (u : Upload)
      → read_body rt (es ++ later) u ≡ read_body rt later (read_body rt es u)
  unfolding read_body
  read_body-append [] later u = refl
  read_body-append (e ∷ es) later u = read_body-append es later (on_event rt e u)

  all_unresolved :
      (cs : List Bytes) (u : Upload) → (read_body rt (map received cs) u).resolved ≡ u.resolved
  unfolding read_body on_event
  all_unresolved [] u = refl
  all_unresolved (c ∷ cs) u = all_unresolved cs (receive c u) ∙ receive_resolved c u

  -- A promise is resolved once.
  on_event_keeps :
      (e : SocketEvent) (u : Upload) (result : BodyResult)
      → u.resolved ≡ some result
      → (on_event rt e u).resolved ≡ some result
  unfolding on_event resolve resolve_once
  on_event_keeps (received c) u result h = receive_resolved c u ∙ h
  on_event_keeps ended u result h = rw h refl
  on_event_keeps closed u result h = rw h refl
  on_event_keeps failed u result h = rw h refl

  read_body_keeps :
      (es : List SocketEvent) (u : Upload) (result : BodyResult)
      → u.resolved ≡ some result
      → (read_body rt es u).resolved ≡ some result
  unfolding read_body
  read_body_keeps [] u result h = h
  read_body_keeps (e ∷ es) u result h =
      read_body_keeps es (on_event rt e u) result (on_event_keeps e u result h)

  -- What `"end"` resolves an upload to that was fed these chunks.
  unfoldable pub answer_of : List Bytes → BodyResult
  answer_of cs =
      if leb (buffered cs) max_body_bytes then text_body (rt.utf8_decode (joined cs)) else too_long

  ended_lem :
      (cs : List Bytes) (v : Upload)
      → IsBounded cs v
      → v.resolved ≡ none
      → (on_event rt ended v).resolved ≡ some (answer_of cs)
  unfolding on_event resolve resolve_once answer_of
  ended_lem cs v h open_ = elim h [
    | inl (small, within, all, _) ↦
        let below = leb-within _ _ small in rw open_ (rw within (rw below (rw all refl)))
    | inr (large, over, _, _) ↦
        let above = leb-above _ _ large in rw open_ (rw over (rw above refl))
  ]

  -- Chunks and then the end resolve the body to the text of all of them if they have at most
  -- max_body_bytes together, and to too_long otherwise, whatever happens on the socket later.
  pub read_body_lem :
      (cs : List Bytes) (later : List SocketEvent)
      → (read_body rt (map received cs ++ (ended ∷ later)) started).resolved ≡ some (answer_of cs)
  unfolding read_body started
  read_body_lem cs later = rw (read_body-append (map received cs) (ended ∷ later) started) (
      read_body_keeps later _ (answer_of cs) (
        ended_lem cs _
          (subst (λ l. IsBounded l (read_body rt (map received cs) started)) (arrived-received cs)
            (read_body-IsBounded rt (map received cs)))
          (all_unresolved cs started)))
