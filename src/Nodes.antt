-- ===== src/Nodes.antt =====
-- services/aimili-egress/node_pool.py: the pool of VPN nodes that were found to work.
pub mod Node
pub mod Merge
pub mod Rebalance
pub mod Unique
pub mod Membership
pub mod MergeTurns
pub mod MergeKeeps
pub mod Pool
pub mod Coverage
pub mod Members
pub mod Selection
pub mod Known
pub mod Queue
pub mod Probes
pub mod MergeBounds
mod Examples
