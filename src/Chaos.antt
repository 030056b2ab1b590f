-- ===== src/Chaos.antt =====
-- The reference model of tools/chaos_lab/model.py, part by part.
pub mod Types
pub mod Policy
pub mod State
pub mod Tasks
pub mod Dag
pub mod Leases
pub mod Handlers
pub mod Admin
pub mod Dispatch
pub mod Samples
pub mod Moves
pub mod Checks
pub mod Session
pub mod Snapshot
pub mod Invariants
pub mod Examples
