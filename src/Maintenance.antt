-- ===== src/Maintenance.antt =====
-- backend/internal/governance/maintenance and its persisted state: the maintenance scheduler.
pub mod State
pub mod Registry
pub mod Backoff
pub mod Runner
mod Tests
