-- ===== src/Auth.antt =====
-- packages/auth: users, sessions, one-time tokens, and the second factor.
pub mod Model
pub mod Store
pub mod Named
pub mod Invariant
pub mod Factors
pub mod Ports
pub mod Config
pub mod Sessions
pub mod Password
pub mod Inversion
pub mod Keeps
pub mod Leads
pub mod Opened
pub mod Spent
pub mod Reset
pub mod SignIn
pub mod Waiting
pub mod Used
pub mod Replay
pub mod Soundness
pub mod Reach
pub mod Reads
pub mod Held
pub mod MagicLink
pub mod Profile
pub mod Oauth
pub mod Passkey
pub mod Totp
pub mod TwoFactor
pub mod Cookie
mod Tests
