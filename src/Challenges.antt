-- ===== src/Challenges.antt =====
-- services/challenger/challenge-quota.ts and services/relayer/epoch-finalizer.ts: how many challenges may be issued,
-- and what the challengers are paid for them.
pub mod Quota
pub mod Payment
pub mod Examples
