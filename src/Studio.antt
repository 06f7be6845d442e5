-- ===== src/Studio.antt =====
-- The Studio side of packages/decorator-agent: the contract, the journal and the broker.
pub mod Contract
pub mod Journal
pub mod Broker
pub mod Runtime
