-- ===== src/Outbox.antt =====
-- packages/eventsourcing: the outbox, its relay, and the inbox.
pub mod Store
pub mod Claiming
pub mod Invariant
pub mod Follows
pub mod Steps
pub mod Reach
pub mod Fence
pub mod Exclusive
pub mod Relay
pub mod Delivery
pub mod Inbox
pub mod Once
mod Tests
