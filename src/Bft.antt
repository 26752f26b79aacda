-- ===== src/Bft.antt =====
-- node/src/bft.ts: the stake-weighted quorum, one consensus round, and the detector of double votes.
pub mod Quorum
pub mod Round
pub mod Equivocation
