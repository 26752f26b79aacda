-- ===== src/Governance.antt =====
-- node/src/validator-governance.ts: the validator set, its proposals, the treasury and the factions.
pub mod State
pub mod Proposals
pub mod Power
pub mod Members
pub mod Resolution
pub mod Passing
pub mod Epochs
pub mod Slash
pub mod Slashing
pub mod Queries
pub mod Examples
