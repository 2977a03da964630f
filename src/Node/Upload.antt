-- ===== src/Node/Upload.antt =====
-- projects/node/src/server.ts: `readBody`, which collects a request body under a bound. The socket's
-- events are a list, in the order in which they come.
use decentralized_identity_p.Prelude.{
  ℕ, ◌+◌, ◌*◌, ltb, String, Bool, true, false, ◌||◌, Option, none, some, List, [], ◌∷◌, ◌++◌,
  length, if◌then◌else◌,
}
use decentralized_identity_p.Runtime.{Bytes, Runtime}

unfoldable pub max_body_bytes : ℕ
max_body_bytes = 1024 * 1024

-- How much of an over-long body is drained before the socket is cut.
unfoldable pub max_drain_bytes : ℕ
max_drain_bytes = 8 * max_body_bytes

-- `BodyResult`.
pub data BodyResult : Type 0 where
  text_body : String → BodyResult
  too_long aborted : BodyResult

-- `"data"`, `"end"`, `"close"` and `"error"`.
pub data SocketEvent : Type 0 where
  received : Bytes → SocketEvent
  ended closed failed : SocketEvent

-- The variables of `readBody`, whether the request was destroyed, and what the promise resolved to.
pub record Upload : Type 0 where
  pub chunks : List Bytes
  pub size : ℕ
  pub is_too_large : Bool
  pub is_destroyed : Bool
  pub resolved : Option BodyResult

unfoldable pub started : Upload
started = record {
  chunks = [];
  size = 0;
  is_too_large = false;
  is_destroyed = false;
  resolved = none;
}

-- A promise keeps what it is resolved to first.
unfoldable pub resolve_once : Option BodyResult → BodyResult → Option BodyResult
resolve_once none result = some result
resolve_once (some result) later = some result

unfoldable pub joined : List Bytes → Bytes
joined [] = []
joined (c ∷ cs) = c ++ joined cs

-- The handler of `"data"`.
unfoldable pub receive : Bytes → Upload → Upload
receive chunk u =
    let size = u.size + length chunk in
    if ltb max_body_bytes size
    then record {
      chunks = if u.is_too_large then u.chunks else [];
      size = size;
      is_too_large = true;
      is_destroyed = u.is_destroyed || ltb max_drain_bytes size;
      resolved = u.resolved;
    }
    else record {
      chunks = u.chunks ++ (chunk ∷ []);
      size = size;
      is_too_large = u.is_too_large;
      is_destroyed = u.is_destroyed;
      resolved = u.resolved;
    }

unfoldable pub resolve : BodyResult → Upload → Upload
resolve result u = record {
  chunks = u.chunks;
  size = u.size;
  is_too_large = u.is_too_large;
  is_destroyed = u.is_destroyed;
  resolved = resolve_once u.resolved result;
}

module _ (rt : Runtime) where
  open rt use {utf8_decode}

  unfoldable pub on_event : SocketEvent → Upload → Upload
  on_event (received chunk) u = receive chunk u
  on_event ended u =
      resolve (if u.is_too_large then too_long else text_body (utf8_decode (joined u.chunks))) u
  on_event closed u = resolve aborted u
  on_event failed u = resolve aborted u

  unfoldable pub read_body : List SocketEvent → Upload → Upload
  read_body [] u = u
  read_body (e ∷ es) u = read_body es (on_event e u)
