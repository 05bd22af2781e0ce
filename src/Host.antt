-- ===== src/Host.antt =====
-- services/aimili-egress/capacity.py: how many exits and cached nodes a host can carry.
pub mod Limits
pub mod Growth
mod Examples
