-- ===== src/Assignment.antt =====
-- services/aimili-egress/main_assignment.py: the two-phase switch of the main connection.
pub mod Types
pub mod Document
pub mod Lease
pub mod Restore
pub mod Stage
pub mod Finish
pub mod Repair
pub mod Consistency
pub mod Written
pub mod Moves
pub mod LeaseMoves
pub mod Copies
pub mod RestoreMoves
pub mod FinishMoves
pub mod StageMoves
pub mod StageFinishMoves
pub mod RepairMoves
pub mod Validate
pub mod World
pub mod ValidateSound
pub mod Saves
pub mod Shape
pub mod Sound
pub mod Invariants
pub mod History
pub mod Stuck
pub mod Deadlock
pub mod Outcome
pub mod Leasing
pub mod Legacy
pub mod LegacySound
mod Examples
mod CrashExamples
