-- ===== src/EventSourcing.antt =====
-- packages/eventsourcing: the in-memory event store and its companions.
pub mod Event
pub mod Store
pub mod Import
pub mod Commit
pub mod Erasure
pub mod Invariant
pub mod Reach
pub mod Concurrency
pub mod Pinned
pub mod Retry
pub mod Feed
mod Tests
