-- ===== src/RateLimit.antt =====
-- packages/http: the rate limiter, its in-memory store, and its middleware.
pub mod Memory
pub mod Decisions
pub mod Bounded
pub mod Agreement
pub mod Blocks
pub mod Outcome
pub mod Middleware
pub mod Combined
pub mod Service
mod Tests
