-- ===== src/Tests.antt =====
-- Concrete runs of the model, and the theorems applied to them.
pub mod Sample
pub mod LedgerRuns
pub mod HashRuns
pub mod ChainRuns
pub mod NetworkRuns
pub mod NodeRuns
pub mod DrainRuns
pub mod ConfigRuns
pub mod GossipRuns
pub mod RuntimeRuns
pub mod ProgramRuns
pub mod InterfaceRuns
pub mod AnswerRuns
