-- ===== src/QueueLab.antt =====
-- The queue lab (internal/queuelab): from watch events to the numbers of a run.
pub mod Events
pub mod Provenance
pub mod Builder
pub mod Join
pub mod Registry
pub mod Spread
pub mod Timeline
pub mod Charge
pub mod Ledger
pub mod Trace
pub mod Schedule
pub mod Hold
