-- ===== src/Gateway.antt =====
-- The gateway: projects/gateway/src.
pub mod Config
pub mod Credential
pub mod Commitments
pub mod Proxy
pub mod SignOn
pub mod Browser
pub mod Delivered
pub mod Relayed
pub mod Repeated
pub mod Token
pub mod Sent
pub mod Exchanged
pub mod Matched
pub mod Oidc
pub mod Authorized
pub mod Agreement
pub mod Outcomes
pub mod Quorum
pub mod Discovery
pub mod Ordered
pub mod Discovered
pub mod Listed
pub mod Unreachable
