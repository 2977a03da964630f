-- ===== src/Lib.antt =====
-- A formal model of the decentralized identity provider, with proofs.
--
-- The program signs users on by a threshold of identity nodes. A browser client blinds the user's
-- password (TOPRF), the gateway relays the blinded point and the claims to the nodes, each node
-- returns a FROST signature share of an authentication assertion, encrypted under a key that only
-- the right password yields, and the client adds the shares up to a group signature. The assertion
-- is the OAuth authorization code: at `POST /token` the gateway relays it, with a DPoP proof, to the
-- nodes, which verify both and each sign an access token and a refresh token. Nobody but a threshold
-- of nodes can sign.
--
-- Files, and the code that they model:
--   Prelude            shared names: tests, lists, integers, results and their `do`, texts
--   Js, Runtime        JSON values; what Node.js and the @noble libraries provide, as parameters
--   Protocol           the request and response types of projects/node/src/protocol/node.ts
--   Wire               projects/node/src/wire.ts (readers) and projects/gateway/src/nodes/wire.ts
--                      (writers): Wire/Request reads and Wire/Encode writes requests, Wire/Response does
--                      both for answers; Wire/RoundTrip, Wire/Sound and Wire/Answered prove
--   Jwt                projects/node/src/jwt/jwt.ts: createSigningInput, assembleJwt, verifyJwt;
--                      Jwt/Sorted is what JSON.parse makes of its deterministic text, on which
--                      Jwt/Assembled rests
--   Dpop               projects/node/src/client-sdk/dpop.ts: verifyDPoPProof
--   Crypto             projects/node/src/crypto: shamir.ts, frost.ts, toprf.ts, aead.ts, and the
--                      scalar encodings (Hex). Congruence, Lagrange and Interpolated are the
--                      interpolation that the schemes rest on; Difference, Coefficient,
--                      Reconstructed, Power, Euclid, Bezout, Inverse, Encoded, Frost/Weights,
--                      Frost/Aggregate, Frost/Quorum, Toprf/Unblinded, Toprf/Usable and
--                      Toprf/Quorum prove
--   Node               IdentityNode of projects/node/src/protocol/node.ts: its state is the record
--                      IdentityNode, whose `active_nonces` are the open FROST rounds; handleSignOn is
--                      Node/SignOn, handleSign is Node/Sign, verifyCredential is Node/Credential;
--                      Node/Machine runs sequences of calls; readBody of
--                      projects/node/src/server.ts is Node/Upload and its handle is Node/Server.
--                      Node/Verified, Pinned, Issued, SignedOn, Signing, Spending, Reuse, Bounded,
--                      Collected and Served prove
--   Gateway            PastaOAuthProxy of projects/gateway/src/gateway/proxy.ts: collectCommitments is
--                      Gateway/Commitments, decodeCredentialClaims is Gateway/Credential, handleSign
--                      and handleSignOn are Gateway/Proxy and Gateway/SignOn, handleToken of
--                      projects/gateway/src/server.ts is Gateway/Token,
--                      projects/gateway/src/gateway/oidc.ts is Gateway/Oidc and
--                      projects/gateway/src/gateway/wire.ts is Gateway/Browser, which
--                      Gateway/Delivered is about; Gateway/Agreement proves that it rebuilds
--                      what the nodes sign, Gateway/Quorum, Relayed, Matched, Repeated,
--                      Exchanged and Authorized are about what it has when it returns, and
--                      Outcomes and Sent about which nodes it asks and what it sends them.
--                      discoverNodes of projects/gateway/src/nodes/discovery.ts is Gateway/Discovery,
--                      which Ordered, Discovered, Listed and Unreachable are about
--   Config             the readers of the dealer's files, which projects/node/src/config.ts and
--                      projects/gateway/src/config.ts share; the files as a whole are Node/Config and
--                      Gateway/Config. Config/Hex, Node/Started and Node/Configured prove
--   Dealer             generateDealerOutput of projects/dealer/src/dealer.ts, with its checks in
--                      Dealer/Options, the users' records in Dealer/Records and the files in
--                      Dealer/Output; Dealer/Written, Columns,
--                      Dealt, Accepted and Deployed prove
--   Client             signOn of projects/demo/src/sdk/client.ts: what is posted to the gateway, and what
--                      is made of its answer; Client/Opened and Client/Shares prove
--   Tests              concrete runtimes and curves, and an instance of each theorem
--
-- The copies of the crypto, JWT and DPoP files in the dealer, the gateway and the browser SDK are
-- the same files as the node's, which the model cites.
--
-- How code corresponds to definitions. A thrown error is `err` of a result type, with a
-- constructor for each message that the code distinguishes; a message's text is not kept. A handler
-- of the node takes the node and returns its answer and the node after it. What the code reads from
-- the outside (the clock, random scalars, random ids, what a node answers over HTTP) is an argument.
-- A `bigint` that is never negative and a byte are natural numbers, other integers are ℤ; a JSON
-- number is kept in thousandths, and numbers that a double rounds are left out. The curve, the hash
-- functions, the cipher, Base64 and `JSON` are parameters; where a theorem relies on a law of theirs,
-- the law is a named hypothesis (IsCurve, IsGroup, IsRanged,
-- IsPrimeOrder, IsBase64Url, IsChannel) that a toy instance in Tests meets.
--
-- Loops. The square-and-multiply loop of modPow and the Euclidean loop of modInverse take fuel; the
-- fuel is the exponent, which halves in every round, and one more than the modulus, below which the
-- remainders fall. `n.toString(base)` takes as many rounds as the number itself.
--
-- Not modelled, since it is input and output or presentation: the HTTP servers' sockets and headers,
-- the demo logs, the reading of files, the relying party's pages and the browser's user interface.
-- Not modelled either: the gateway's routing, parseNodeUrls, the dealer's command line, the making of
-- DPoP proofs and registerUserToNodes.
pub mod Prelude
pub mod Js
pub mod Runtime
pub mod Protocol
pub mod Wire
pub mod Jwt
pub mod Dpop
pub mod Crypto
pub mod Config
pub mod Node
pub mod Gateway
pub mod Client
pub mod Dealer
pub mod Tests
