-- ===== src/Examples.antt =====
-- The theorems at concrete inputs.
pub mod Fixtures
mod Policies
mod Rounds
mod Names
mod Whole
mod Texts
mod Orders
mod Startup
mod Copies
mod Limits
