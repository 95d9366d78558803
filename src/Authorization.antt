-- ===== src/Authorization.antt =====
-- packages/authorization: principals, conditions, and policies.
pub mod Principal
pub mod Policy
pub mod Validation
pub mod Decision
pub mod Access
pub mod Counts
pub mod Visits
pub mod Cycles
pub mod Ending
mod Tests
