-- ===== src/Tests/UploadRuns.antt =====
-- Request bodies of a node, at fixed events.
use decentralized_identity_p.Prelude.{◌≡◌, some, [], ◌∷◌}
use decentralized_identity_p.Node.Upload.{
  max_body_bytes, joined, received, ended, closed, text_body, started, read_body,
}
use decentralized_identity_p.Node.Bounded.{arrived, buffered, IsBounded, read_body-IsBounded}
use decentralized_identity_p.Node.Collected.{answer_of, read_body_lem}
use decentralized_identity_p.Tests.Toy.{runtime}

read_body-IsBounded_example :
    IsBounded
      (arrived (received (104 ∷ 105 ∷ []) ∷ received (33 ∷ []) ∷ closed ∷ []))
      (read_body runtime (received (104 ∷ 105 ∷ []) ∷ received (33 ∷ []) ∷ closed ∷ []) started)
read_body-IsBounded_example =
    read_body-IsBounded runtime (received (104 ∷ 105 ∷ []) ∷ received (33 ∷ []) ∷ closed ∷ [])

read_body_lem_example :
    (read_body runtime
      (received (104 ∷ 105 ∷ []) ∷ received (33 ∷ []) ∷ ended ∷ closed ∷ [])
      started).resolved
    ≡ some (text_body (runtime.utf8_decode (104 ∷ 105 ∷ 33 ∷ [])))
unfolding answer_of joined buffered max_body_bytes
read_body_lem_example = read_body_lem runtime ((104 ∷ 105 ∷ []) ∷ (33 ∷ []) ∷ []) (closed ∷ [])
