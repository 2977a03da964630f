-- ===== src/Tests.antt =====
-- Concrete instances of what the development takes as parameters, and runs of its theorems on them.
pub mod Codec
pub mod Toy
pub mod NodeRuns
pub mod WireRuns
pub mod CryptoRuns
pub mod GatewayRuns
pub mod ProofRuns
pub mod RelayRuns
pub mod SessionRuns
pub mod KeyRuns
pub mod AnswerRuns
pub mod UploadRuns
pub mod ServerRuns
pub mod DealerRuns
pub mod ConfigRuns
pub mod ClientRuns
pub mod AuthorizeRuns
pub mod DiscoveryRuns
