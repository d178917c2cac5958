-- ===== src/Ownership.antt =====
-- backend/internal/governance/ownership: the certificate ownership engine.
pub mod Precedence
pub mod Pattern
pub mod Engine
pub mod Decision
pub mod Validation
pub mod Store
pub mod Recompute
pub mod Rederive
pub mod Retention
pub mod Mutations
pub mod Clearing
mod Tests
