-- ===== src/Tests/ServerRuns.antt =====
-- Requests to a node, at fixed inputs.
use decentralized_identity_p.Prelude.{some}
use decentralized_identity_p.Js.{str, obj, end, field}
use decentralized_identity_p.Runtime.{Runtime}
use decentralized_identity_p.Node.Spending.{SameNode}
use decentralized_identity_p.Node.Upload.{text_body}
use decentralized_identity_p.Node.Server.{Outside, handle}
use decentralized_identity_p.Node.Served.{handle-SameNode}
use decentralized_identity_p.Tests.Toy.{runtime, curve, ristretto, cipher, home, clock}

-- Every body is a commit envelope.
abbrev listening : Runtime
listening = record runtime { json_parse = λ text. some (obj (field "roundId" (str "x") end)) }

abbrev outside : Outside
outside = record { d = 2; e = 3; now = 1010; clock = clock }

handle-SameNode_example :
    SameNode home
      (handle listening curve ristretto cipher outside "POST" "/commit" (text_body "x") home).1
handle-SameNode_example =
    handle-SameNode listening curve ristretto cipher outside "POST" "/commit" (text_body "x") home
