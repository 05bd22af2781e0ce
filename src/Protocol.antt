-- ===== src/Protocol.antt =====
-- scripts/aimili_xui_protocol_transaction.py: the switch of an inbound's protocol, which changes Xray's
-- running configuration and the panel's database, and can be undone after a crash.
mod Examples
pub mod Types
pub mod Database
pub mod World
pub mod Rollback
pub mod Apply
pub mod Triples
pub mod Mixed
pub mod Restores
pub mod RollbackSafe
pub mod RollbackWorks
pub mod ApplySafe
pub mod ApplyUndo
pub mod Commands
pub mod Recovers
pub mod Stuck
