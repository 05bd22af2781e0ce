-- ===== src/Recovery.antt =====
-- services/aimili-egress/recovery_policy.py and egress_repair.py: how long a broken egress is
-- retried, and the persisted state of its repair.
pub mod Policy
pub mod Ranking
pub mod Ranked
pub mod Counted
pub mod Backoff
pub mod Store
pub mod Attempts
pub mod Rounds
pub mod Lasting
pub mod RoundsEnd
pub mod Frame
pub mod Restart
mod Examples
mod RankingExamples
